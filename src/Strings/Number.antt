-- ===== src/Strings/Number.antt =====
-- A printed number is read back.
use crosschain_agent.Prelude.{
  ℕ, zero, suc, ◌+◌, ◌-◌, ◌*◌, ◌/◌, ◌%◌, ◌^◌, ◌≤◌, ◌<◌, ◌≡◌, refl, ◌∙◌, ap, Bytes, true, false,
  some, [], ◌∷◌, ◌++◌, ℤ, pos, negsuc, arith, All, ltb, Bool-cases, inl, inr, ◌≢◌, All-map,
}
use crosschain_agent.Strings.{
  is_space, skip_spaces, read_digits, in_range, read_number, stol, print_digits, to_string, stoi,
}
use crosschain_agent.Strings.Items.{NoComma}

abbrev IsDigit : ℕ → Type 0
IsDigit c = (48 ≤ c) × (c ≤ 57)

All-append : (xs ys : Bytes) → All IsDigit xs → All IsDigit ys → All IsDigit (xs ++ ys)
All-append [] ys h k = k
All-append (x ∷ xs) ys h k = (h.0, All-append xs ys h.1 k)

read_digits-append :
    (n : ℕ) (xs ys : Bytes)
    → All IsDigit xs
    → read_digits n (xs ++ ys) ≡ read_digits (read_digits n xs) ys
unfolding read_digits
read_digits-append n [] ys h = refl
read_digits-append n (x ∷ xs) ys h =
    ground (arith, read_digits-append (n * 10 + (x - 48)) xs ys h.1)

print_digits-IsDigit : (fuel n : ℕ) → All IsDigit (print_digits fuel n)
unfolding print_digits
print_digits-IsDigit zero n = omega arith
print_digits-IsDigit (suc fuel) n = elim (Bool-cases (ltb n 10)) [
  | inl small ↦ rw small (ground arith)
  | inr large ↦
      rw large (
        All-append (print_digits fuel (n / 10)) _ (print_digits-IsDigit fuel (n / 10))
          (omega arith))
]

read_one : (n d : ℕ) → d < 10 → read_digits n ((48 + d) ∷ []) ≡ n * 10 + d
unfolding read_digits
read_one n d h = ground arith

read-print : (fuel n : ℕ) → n ≤ fuel → read_digits 0 (print_digits fuel n) ≡ n
unfolding print_digits
read-print zero n h = rw (read_one 0 (n % 10) (omega arith)) (omega arith)
read-print (suc fuel) n h = elim (Bool-cases (ltb n 10)) [
  | inl small ↦ rw small (rw (read_one 0 n (ground arith)) (omega arith))
  | inr large ↦ rw large (
      rw
        (
          read_digits-append 0 (print_digits fuel (n / 10)) _ (print_digits-IsDigit fuel (n / 10)),
          read-print fuel (n / 10) (ground arith),
          read_one (n / 10) (n % 10) (omega arith),
        )
        (omega arith))
]

-- Text that begins with a digit is read as an unsigned number.
read_unsigned :
    (bits : ℕ) (c : ℕ) (s : Bytes)
    → IsDigit c
    → read_number bits (skip_spaces (c ∷ s)) ≡ in_range bits false (read_digits 0 (c ∷ s))
unfolding read_number skip_spaces is_space
read_unsigned bits c s h = ground arith

stol_unsigned : (s : Bytes) → All IsDigit s → stol s ≡ in_range 64 false (read_digits 0 s)
unfolding stol
stol_unsigned [] h = refl
stol_unsigned (c ∷ s) h = read_unsigned 64 c s h.0

stol_minus : (s : Bytes) → stol (b'-' ∷ s) ≡ in_range 64 true (read_digits 0 s)
unfolding stol read_number skip_spaces is_space
stol_minus s = refl

abbrev pub FitsInt64 : ℤ → Type 0
FitsInt64 (pos n) = n < 2 ^ 63
FitsInt64 (negsuc n) = n < 2 ^ 63

-- `Stol` reads back what `%ld` has written, for every value of `int64_t`.
pub stol-to_string : (z : ℤ) → FitsInt64 z → stol (to_string z) ≡ some z
unfolding to_string in_range
stol-to_string (pos n) h =
    stol_unsigned (print_digits n n) (print_digits-IsDigit n n)
    ∙ ap (in_range 64 false) (read-print n n (omega arith))
    ∙ ground arith
stol-to_string (negsuc n) h =
    stol_minus (print_digits (suc n) (suc n))
    ∙ ap (in_range 64 true) (read-print (suc n) (suc n) (omega arith))
    ∙ ground arith

abbrev pub FitsInt32 : ℤ → Type 0
FitsInt32 (pos n) = n < 2 ^ 31
FitsInt32 (negsuc n) = n < 2 ^ 31

stoi_unsigned : (s : Bytes) → All IsDigit s → stoi s ≡ in_range 32 false (read_digits 0 s)
unfolding stoi
stoi_unsigned [] h = refl
stoi_unsigned (c ∷ s) h = read_unsigned 32 c s h.0

stoi_minus : (s : Bytes) → stoi (b'-' ∷ s) ≡ in_range 32 true (read_digits 0 s)
unfolding stoi read_number skip_spaces is_space
stoi_minus s = refl

digit_no_comma : (c : ℕ) → IsDigit c → c ≢ b','
digit_no_comma c h e = omega arith

-- `Stoi` reads back every value of `int`.
pub stoi-to_string : (z : ℤ) → FitsInt32 z → stoi (to_string z) ≡ some z
unfolding to_string in_range
stoi-to_string (pos n) h =
    stoi_unsigned (print_digits n n) (print_digits-IsDigit n n)
    ∙ ap (in_range 32 false) (read-print n n (omega arith))
    ∙ ground arith
stoi-to_string (negsuc n) h =
    stoi_minus (print_digits (suc n) (suc n))
    ∙ ap (in_range 32 true) (read-print (suc n) (suc n) (omega arith))
    ∙ ground arith

-- A number is printed without a comma.
pub to_string-NoComma : (z : ℤ) → NoComma (to_string z)
unfolding to_string
to_string-NoComma (pos n) = All-map (λ c h. digit_no_comma c h) _ (print_digits-IsDigit n n)
to_string-NoComma (negsuc n) = (
  λ e. ground arith,
  All-map (λ c h. digit_no_comma c h) _ (print_digits-IsDigit (suc n) (suc n)),
)
