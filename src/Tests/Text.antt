-- ===== src/Tests/Text.antt =====
-- Runs of the readers and writers of text.
use crosschain_agent.Glue.Layer1ToLayer2
use crosschain_agent.Glue.Layer2ToLayer1
use crosschain_agent.Prelude.{codes, arith, ◌≡◌, some, length, ◌<◌, true, ◌^◌, refl}
use crosschain_agent.Strings.{to_string}
use crosschain_agent.Strings.Items.{NoComma, join}
use crosschain_agent.General.Address.{AddressPrefix, decode, encode, check_prefix, decode-encode}
use crosschain_agent.Glue.Printed.{
  IsPrintable, printed1, printed2, on_chain, make_cross_tx_info-printed,
}
use crosschain_agent.Tests.Network.{transfer, first_text, second_text}
use crosschain_agent.Exec.{done}

a_NoComma : NoComma (codes "a")
a_NoComma = (λ e. omega arith, tt)

abbrev test_prefix : AddressPrefix
test_prefix = record { chain_code = codes "ab"; address_prefix = codes "did:" }

decode-encode_example :
    (decode test_prefix (encode test_prefix (codes "a")) ≡ codes "a")
    × (check_prefix test_prefix (encode test_prefix (codes "a")) ≡ true)
decode-encode_example =
    decode-encode test_prefix (codes "a") (codes "did", refl) (λ e. omega arith, tt)

transfer-IsPrintable : IsPrintable transfer
transfer-IsPrintable = record {
  crosstxid_plain = (λ e. omega arith, (λ e. omega arith, tt));
  srcbid_plain = a_NoComma;
  destbid_plain = (λ e. omega arith, tt);
  errordesc_plain = (λ e. omega arith, tt);
  has_destbid = λ e. cc;
  has_errordesc = λ e. cc;
  amount_fits = ground arith;
  status_fits = ground arith;
  refunded_fits = ground arith;
  create_fits = ground arith;
  execute_fits = ground arith;
  timeout_fits = ground arith;
}

first_text-fits : length (join (printed1 (codes "1") (codes "2") transfer)) < 2 ^ 62
unfolding join to_string
first_text-fits = ground arith

second_text-fits : length (join (printed2 transfer)) < 2 ^ 62
unfolding join to_string
second_text-fits = ground arith

make_cross_tx_info-printed_example :
    (Layer1ToLayer2.Parse.make_cross_tx_info first_text second_text tt
      ≡ done (some (on_chain transfer), tt))
    × (Layer2ToLayer1.Parse.make_cross_tx_info first_text second_text tt
        ≡ done (some (on_chain transfer), tt))
make_cross_tx_info-printed_example =
    make_cross_tx_info-printed (codes "1") (codes "2") transfer transfer-IsPrintable {S = Unit} tt
      (λ e. omega arith, tt) (λ e. omega arith, tt) first_text-fits second_text-fits
