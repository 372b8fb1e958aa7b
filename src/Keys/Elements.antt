-- ===== src/Keys/Elements.antt =====
-- Which public keys GetPublicKeyElement accepts.
use crosschain_agent.Prelude.{
  All, Bytes, arith, if◌then◌else◌, none, refl, some, ℕ, ◌&&◌, ◌==◌, ◌∷◌, ◌≡◌,
}
use crosschain_agent.Keys.{
  get_public_key_element, get_enc_public_key, bin_to_hex_string, public_key_prefix,
  encodetype_base58, key_publickey,
}
use crosschain_agent.Strings.Hex.{IsByte, bin-hex}
use crosschain_agent.Strings.{bin_to_hex_string}

-- Of the hexadecimal text of at least three bytes, GetPublicKeyElement looks at the first and the third
-- one only: it accepts whatever follows them, of any length and for any type of signature. In particular
-- it reads back the type and the raw key from which GetEncPublicKey has made a text.
pub get_public_key_element_lem :
    (a b c : ℕ) (raw : Bytes)
    → All IsByte (a ∷ b ∷ c ∷ raw)
    → (get_public_key_element (bin_to_hex_string (a ∷ b ∷ c ∷ raw)) ≡ (
        if a == public_key_prefix && c == encodetype_base58
        then some
            (record { key_type = key_publickey; sign_type = b; encode_type = c; raw_data = raw })
        else none))
      × (get_public_key_element (get_enc_public_key b raw)
          ≡ some (record {
            key_type = key_publickey;
            sign_type = b;
            encode_type = encodetype_base58;
            raw_data = raw;
          }))
unfolding get_public_key_element get_enc_public_key
get_public_key_element_lem a b c raw h = (
  rw (bin-hex (a ∷ b ∷ c ∷ raw) h) (ground arith),
  rw
      (bin-hex (public_key_prefix ∷ b ∷ encodetype_base58 ∷ raw)
        (omega arith, (h.1.0, (omega arith, h.1.1.1))))
      refl,
)
