-- ===== src/Utils/Text/Numbers.antt =====
-- The unsigned and the guarded conversions of src/utils/strings.h, and its other splitting function.
use crosschain_agent.Prelude.{
  Bytes, ℕ, ℤ, if◌then◌else◌, Option, bytes_eq, Bool, ◌∷◌, ltb, pos, false, List, suc, length, ◌||◌,
  ◌==◌, [], ◌*◌, none, codes, ◌≡◌, ◌%◌, some, true, refl, ◌^◌, ◌+◌, ◌-◌, leb, ◌&&◌, not, Bool-cases,
  subst, inl, ap, inr, sym, ==_iff, ◌∙◌,
}
use crosschain_agent.Utils.Text.{is_space, is_empty}
use crosschain_agent.Strings.{to_string, push_front}
use crosschain_agent.Utils.Text.Separators.{join_with}

-- The loop of Stoui and Stoui64, with the bits of the type, the number of digits that were used, and the
-- value so far.
unfoldable pub stoui_loop : ℕ → ℕ → ℕ → Bytes → ℕ
unfolding is_space
stoui_loop bits used_digits value [] = value
stoui_loop bits used_digits value (c ∷ s) =
    let digit =
      stoui_loop bits (suc used_digits) ((value * 10 % 2 ^ bits + (c - b'0')) % 2 ^ bits) s in
    let blank = stoui_loop bits used_digits value s in
    if leb b'0' c && leb c b'9'
    then digit
    else if not (is_space c) || ltb 0 used_digits
    then value
    else blank

unfoldable pub stoui : Bytes → ℕ
unfolding stoui_loop
stoui str = if is_empty str then 0 else stoui_loop 32 0 0 str

unfoldable pub stoui64 : Bytes → ℕ
unfolding stoui_loop
stoui64 str = if is_empty str then 0 else stoui_loop 64 0 0 str

-- A number is taken if the text is not too long and is what the number prints as.
abbrev if_printed : ℕ → Bytes → ℤ → Option ℤ
if_printed longest str num =
    if ltb longest (length str)
    then none
    else if bytes_eq str (to_string num)
    then some num
    else none

unfoldable pub safe_stoui : Bytes → Option ℤ
unfolding stoui to_string bytes_eq
safe_stoui str = if_printed 10 str (pos (stoui str))

unfoldable pub safe_stoui64 : Bytes → Option ℤ
unfolding stoui64 to_string bytes_eq
safe_stoui64 str = if_printed 20 str (pos (stoui64 str))

unfoldable pub stob : Bytes → Bool
unfolding bytes_eq
stob str =
    if is_empty str
      || bytes_eq str (codes "0")
      || bytes_eq str (codes "false")
      || bytes_eq str (codes "FALSE")
    then false
    else true

abbrev is_one_of : ℕ → Bytes → Bool
is_one_of c [] = false
is_one_of c (d ∷ delim) = c == d || is_one_of c delim

-- The pieces between the separators. The last one is always pushed, since `npos - last` is not negative
-- and not 0 either.
unfoldable pub split : Bytes → Bytes → List Bytes
unfolding push_front
split [] delim = [] ∷ []
split (c ∷ s) delim =
    let rest = split s delim in if is_one_of c delim then [] ∷ rest else push_front c rest

split-cons : (s delim : Bytes) → (p : Bytes) × (ps : List Bytes) × (split s delim ≡ p ∷ ps)
unfolding split push_front
split-cons [] delim = ([], [], refl)
split-cons (c ∷ s) delim =
    let (p, ps, e) = split-cons s delim in
    elim (Bool-cases (is_one_of c delim)) [
      | inl y ↦ ([], split s delim, rw y refl)
      | inr n ↦ (c ∷ p, ps, rw (n, e) refl)
    ]

join_with-push_front :
    (d c : ℕ) (p : Bytes) (ps : List Bytes)
    → join_with d (push_front c (p ∷ ps)) ≡ c ∷ join_with d (p ∷ ps)
unfolding join_with push_front
join_with-push_front d c p [] = refl
join_with-push_front d c p (q ∷ ps) = refl

-- For one separator, the pieces with it between each two of them are the text again.
pub join_with-split : (s : Bytes) (d : ℕ) → join_with d (split s (d ∷ [])) ≡ s
unfolding split join_with
join_with-split [] d = refl
join_with-split (c ∷ s) d =
    let (p, ps, e) = split-cons s (d ∷ []) in
    let before : join_with d (p ∷ ps) ≡ s =
      subst (λ x. join_with d x ≡ s) e (join_with-split s d) in
    elim (Bool-cases (c == d)) [
      | inl y ↦ rw (y, e) (rw before (ap (λ x. x ∷ s) (sym ((==_iff c d).0 y))))
      | inr n ↦ rw (n, e) (join_with-push_front d c p ps ∙ ap (◌∷◌ c) before)
    ]
