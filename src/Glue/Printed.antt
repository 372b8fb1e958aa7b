-- ===== src/Glue/Printed.antt =====
-- makeCrossTxInfo of both handles, on the texts that the bridge contracts' view functions print.
use crosschain_agent.Glue.Layer1ToLayer2
use crosschain_agent.Glue.Layer2ToLayer1
use crosschain_agent.Prelude.{Bytes, List, pos, ◌∷◌, ◌≢◌, [], length, ◌≡◌, ◌<◌, ◌^◌, some, refl}
use crosschain_agent.Messages.{CrossTxInfo}
use crosschain_agent.Strings.Items.{NoComma, join, getline_all-join, render, strip_brackets-render}
use crosschain_agent.Strings.{getline_all, to_string}
use crosschain_agent.Strings.Number.{
  FitsInt64, FitsInt32, to_string-NoComma, stol-to_string, stoi-to_string,
}
use crosschain_agent.Exec.{◌>>=◌, done}

-- What GetCrossTxInfo1 prints of a transfer, after two numbers that the agent does not read.
abbrev pub printed1 : Bytes → Bytes → CrossTxInfo → List Bytes
printed1 version kind info =
    version ∷ kind ∷ info.crosstxid ∷ to_string info.amount ∷ info.srcbid ∷ info.destbid ∷ []

-- What GetCrossTxInfo2 prints of it.
abbrev pub printed2 : CrossTxInfo → List Bytes
printed2 info =
    to_string info.status
    ∷ to_string info.refunded
    ∷ to_string info.createtimestamp
    ∷ to_string info.executetimestamp
    ∷ to_string info.timeout
    ∷ info.errordesc
    ∷ []

-- A transfer whose numbers fit their types and whose texts have no comma and, where they come last, are
-- not empty.
pub record IsPrintable (info : CrossTxInfo) : Type 0 where
  pub crosstxid_plain : NoComma info.crosstxid
  pub srcbid_plain : NoComma info.srcbid
  pub destbid_plain : NoComma info.destbid
  pub errordesc_plain : NoComma info.errordesc
  pub has_destbid : info.destbid ≢ []
  pub has_errordesc : info.errordesc ≢ []
  pub amount_fits : FitsInt64 info.amount
  pub status_fits : FitsInt32 info.status
  pub refunded_fits : FitsInt32 info.refunded
  pub create_fits : FitsInt64 info.createtimestamp
  pub execute_fits : FitsInt64 info.executetimestamp
  pub timeout_fits : FitsInt64 info.timeout

-- The part of a record that the contract knows.
abbrev pub on_chain : CrossTxInfo → CrossTxInfo
on_chain info = record info {
  confirmseq = pos 0;
  sendtxhash = [];
  sendacktol1hash = [];
  sendacktol2hash = [];
}

module _ (version kind : Bytes) (info : CrossTxInfo) (h : IsPrintable info) where
  split1 :
      NoComma version
      → NoComma kind
      → getline_all (join (printed1 version kind info)) ≡ printed1 version kind info
  split1 v t =
      getline_all-join _
        (
          v,
          (
            t,
            (
              h.crosstxid_plain,
              (to_string-NoComma info.amount, (h.srcbid_plain, (h.destbid_plain, tt))),
            ),
          ),
        )
        h.has_destbid

  split2 : getline_all (join (printed2 info)) ≡ printed2 info
  split2 =
      getline_all-join _
        (
          to_string-NoComma info.status,
          (
            to_string-NoComma info.refunded,
            (
              to_string-NoComma info.createtimestamp,
              (
                to_string-NoComma info.executetimestamp,
                (to_string-NoComma info.timeout, (h.errordesc_plain, tt)),
              ),
            ),
          ),
        )
        h.has_errordesc

  -- Both versions of makeCrossTxInfo read back, from the texts that the two view functions print of a
  -- transfer, its fields that the contract knows, if these are printable, the two numbers before them
  -- have no comma, and the texts are shorter than 2 ^ 62 bytes.
  pub make_cross_tx_info-printed :
      {S : Type 0} (s : S)
      → NoComma version
      → NoComma kind
      → length (join (printed1 version kind info)) < 2 ^ 62
      → length (join (printed2 info)) < 2 ^ 62
      → (Layer1ToLayer2.Parse.make_cross_tx_info
            (render (printed1 version kind info))
            (render (printed2 info))
            s
          ≡ done (some (on_chain info), s))
        × (Layer2ToLayer1.Parse.make_cross_tx_info
              (render (printed1 version kind info))
              (render (printed2 info))
              s
            ≡ done (some (on_chain info), s))
  unfolding Layer1ToLayer2.Parse.make_cross_tx_info Layer2ToLayer1.Parse.make_cross_tx_info
      Layer1ToLayer2.Parse.read_items Layer2ToLayer1.Parse.read_items
      Layer1ToLayer2.Parse.item_or_empty Layer2ToLayer1.Parse.item_or_empty render ◌>>=◌
  make_cross_tx_info-printed s v t fits₁ fits₂ = (
    rw
        (
          strip_brackets-render (printed1 version kind info) fits₁,
          strip_brackets-render (printed2 info) fits₂,
          split1 v t,
          split2,
          stol-to_string info.amount h.amount_fits,
          stoi-to_string info.status h.status_fits,
          stoi-to_string info.refunded h.refunded_fits,
          stol-to_string info.createtimestamp h.create_fits,
          stol-to_string info.executetimestamp h.execute_fits,
          stol-to_string info.timeout h.timeout_fits,
        )
        refl,
    rw
        (
          strip_brackets-render (printed1 version kind info) fits₁,
          strip_brackets-render (printed2 info) fits₂,
          split1 v t,
          split2,
          stol-to_string info.amount h.amount_fits,
          stoi-to_string info.status h.status_fits,
          stoi-to_string info.refunded h.refunded_fits,
          stol-to_string info.createtimestamp h.create_fits,
          stol-to_string info.executetimestamp h.execute_fits,
          stol-to_string info.timeout h.timeout_fits,
        )
        refl,
  )
