-- ===== src/Strings/Hex.antt =====
-- Hexadecimal text and the bytes that it stands for.
use crosschain_agent.Prelude.{
  ℕ, ◌*◌, ◌/◌, ◌%◌, ◌<◌, ◌≡◌, refl, ap, Bytes, some, [], ◌∷◌, length, All, arith, ◌==◌, true,
  ==_iff,
}
use crosschain_agent.Strings.{
  hex_char, hex_value, push_byte, hex_pairs, bin_to_hex_string, hex_string_to_bin,
}

abbrev pub IsByte : ℕ → Type 0
IsByte c = c < 256

hex_value-hex_char : (d : ℕ) → d < 16 → hex_value (hex_char d) ≡ some d
unfolding hex_value hex_char
hex_value-hex_char d h = ground arith

hex_pairs-bin_to_hex : (s : Bytes) → All IsByte s → hex_pairs (bin_to_hex_string s) ≡ some s
unfolding hex_pairs bin_to_hex_string push_byte
hex_pairs-bin_to_hex [] h = refl
hex_pairs-bin_to_hex (x ∷ s) h =
    rw
      (
        hex_value-hex_char (x / 16) (omega arith),
        hex_value-hex_char (x % 16) (omega arith),
        hex_pairs-bin_to_hex s h.1,
      )
      (ap (λ y. some (y ∷ s)) (omega arith))

length-bin_to_hex : (s : Bytes) → length (bin_to_hex_string s) ≡ 2 * length s
unfolding bin_to_hex_string
length-bin_to_hex [] = refl
length-bin_to_hex (x ∷ s) = omega (arith, length-bin_to_hex s)

-- `HexStringToBin` reads back what `BinToHexString` has written.
pub bin-hex : (s : Bytes) → All IsByte s → hex_string_to_bin (bin_to_hex_string s) ≡ s
unfolding hex_string_to_bin
bin-hex s h = rw (even, hex_pairs-bin_to_hex s h)
  where
    even : (length (bin_to_hex_string s) % 2 == 0) ≡ true
    even = (==_iff _ 0).1 (omega (arith, length-bin_to_hex s))
