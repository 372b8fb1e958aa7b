-- ===== src/Glue/Submit/Signature.antt =====
-- What the agent signs is what it sends.
use crosschain_agent.Prelude.{
  Bytes, ◌≡◌, ℤ, All, eqb_ℤ, pos, Bool-cases, inl, inr, if◌then◌else◌, refl,
}
use crosschain_agent.Messages.{Transaction}
use crosschain_agent.Env.{Env}
use crosschain_agent.Transaction.{get_transaction_blob, prepare, set_random_nonce}
use crosschain_agent.Strings.{bin_to_hex_string, hex_string_to_bin}
use crosschain_agent.Exec.{done, ◌>>=◌, state}
use crosschain_agent.Strings.Hex.{IsByte, bin-hex}

-- base-n writes two lower-case digits for each byte, and protobuf writes bytes.
pub record EncodingLaws (env : Env) : Type 0 where
  pub encode_b16_digits : (s : Bytes) → env.encode_b16 s ≡ bin_to_hex_string s
  pub serialize_bytes : (t : Transaction) → All IsByte (env.serialize_transaction t)

signed :
    (env : Env)
    → EncodingLaws env
    → (sent : Transaction)
    → hex_string_to_bin (env.encode_b16 (env.serialize_transaction sent))
      ≡ env.serialize_transaction sent
signed env laws sent = rw laws.encode_b16_digits (bin-hex _ (laws.serialize_bytes sent))

-- GetTransactionBlob always returns. What it returns is the text of the serialization of a transaction
-- with the given sequence number, whose sender, fees and operations are those of the given one and whose
-- nonce is the clock's milliseconds if it was 0 and unchanged otherwise; and HexStringToBin, whose result
-- is signed, gives exactly the serialized bytes.
pub get_transaction_blob_lem :
    (env : Env)
    → EncodingLaws env
    → (t : Transaction) (max_seq : ℤ) (w : env.World)
    → (sent : Transaction) × (w' : env.World) × (blob : Bytes) × (get_transaction_blob env t max_seq
          w
        ≡ done (blob, w'))
      × (hex_string_to_bin blob ≡ env.serialize_transaction sent)
      × (sent ≡ record t {
        nonce = if eqb_ℤ t.nonce (pos 0) then (env.system_millis w).0 else t.nonce;
        max_ledger_seq = max_seq;
      })
unfolding get_transaction_blob prepare set_random_nonce ◌>>=◌ state
get_transaction_blob_lem env laws t max_seq w = elim (Bool-cases (eqb_ℤ t.nonce (pos 0))) [
  | inl zero_nonce ↦
      let sent : Transaction = record t {
        nonce = (env.system_millis w).0;
        max_ledger_seq = max_seq;
      } in
      (
        sent,
        (env.system_millis w).1,
        env.encode_b16 (env.serialize_transaction sent),
        rw zero_nonce refl,
        signed env laws sent,
        rw zero_nonce refl,
      )
  | inr own_nonce ↦
      let sent : Transaction = record t { max_ledger_seq = max_seq } in
      (
        sent,
        w,
        env.encode_b16 (env.serialize_transaction sent),
        rw own_nonce refl,
        signed env laws sent,
        rw own_nonce refl,
      )
]
