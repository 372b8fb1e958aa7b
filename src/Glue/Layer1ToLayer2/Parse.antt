-- ===== src/Glue/Layer1ToLayer2/Parse.antt =====
-- Layer1ToLayer2Handle::makeCrossTxInfo: the record of a transfer, from the results of the contract's two view
-- functions. `none` is the result `false`.
use crosschain_agent.Prelude.{Bytes, List, ℕ, get_elem?, Option, none, [], ◌∷◌, some}
use crosschain_agent.Messages.{CrossTxInfo, empty_cross_tx_info}
use crosschain_agent.Exec.{◌>>=◌, Exec, expect, pure, out_of_range, conversion, bad_position}
use crosschain_agent.Strings.{stol, strip_brackets, stoi, getline_all}

-- The item at a place, or the empty text where the list is too short.
unfoldable pub item_or_empty : List Bytes → ℕ → Bytes
item_or_empty items i = elim (get_elem? items i) [ none ↦ [] | some item ↦ item ]

-- From the two lists of items on.
unfoldable pub read_items : {S : Type 0} → List Bytes → List Bytes → Exec S (Option CrossTxInfo)
read_items info1_list info2_list = do
  crosstxid ← expect out_of_range (get_elem? info1_list 2)
  amount_text ← expect out_of_range (get_elem? info1_list 3)
  amount ← expect conversion (stol amount_text)
  srcbid ← expect out_of_range (get_elem? info1_list 4)
  let destbid = item_or_empty info1_list 5
  status_text ← expect out_of_range (get_elem? info2_list 0)
  status ← expect conversion (stoi status_text)
  refunded_text ← expect out_of_range (get_elem? info2_list 1)
  refunded ← expect conversion (stoi refunded_text)
  create_text ← expect out_of_range (get_elem? info2_list 2)
  createtimestamp ← expect conversion (stol create_text)
  execute_text ← expect out_of_range (get_elem? info2_list 3)
  executetimestamp ← expect conversion (stol execute_text)
  timeout_text ← expect out_of_range (get_elem? info2_list 4)
  timeout ← expect conversion (stol timeout_text)
  pure (
      some (record empty_cross_tx_info {
        crosstxid = crosstxid;
        srcbid = srcbid;
        destbid = destbid;
        amount = amount;
        status = status;
        refunded = refunded;
        createtimestamp = createtimestamp;
        executetimestamp = executetimestamp;
        timeout = timeout;
        errordesc = item_or_empty info2_list 5;
      }))

unfoldable pub make_cross_tx_info : {S : Type 0} → Bytes → Bytes → Exec S (Option CrossTxInfo)
make_cross_tx_info [] cross_info2 = pure none
make_cross_tx_info (c ∷ cross_info1) [] = pure none
make_cross_tx_info (c ∷ cross_info1) (d ∷ cross_info2) = do
  info1 ← expect bad_position (strip_brackets (c ∷ cross_info1))
  info2 ← expect bad_position (strip_brackets (d ∷ cross_info2))
  read_items (getline_all info1) (getline_all info2)
