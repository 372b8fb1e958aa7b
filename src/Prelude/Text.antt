-- ===== src/Prelude/Text.antt =====
-- `std::string`, as the list of its bytes: equality, the lexicographic order of `std::less`, and the
-- test for a prefix. A literal of the source is written `codes "..."`.
use Prim.Native.Nat.{ℕ}
use Prim.Native.Char.{code}
use Prim.Native.String.{String}
use mathlib.Core.Path.{sym, ◌∙◌, ◌≡◌, refl}
use mathlib.Core.Logic.{◌↔◌, ◌⊎◌, inl, inr}
use mathlib.Core.Bool.{false≢true, Bool, true, false, ◌&&◌, ◌||◌}
use mathlib.Core.List.{List, [], ◌∷◌, ◌++◌}
use native.Mathlib.Omega.{arith}
use crosschain_agent.Prelude.Tests.{Bool-cases, ltb, ◌==◌}

abbrev pub Bytes : Type 0
Bytes = List ℕ

abbrev pub codes : String → Bytes
codes String.[] = []
codes (String.◌∷◌ c s) = code c ∷ codes s

unfoldable pub bytes_eq : Bytes → Bytes → Bool
bytes_eq [] [] = true
bytes_eq [] (y ∷ ys) = false
bytes_eq (x ∷ xs) [] = false
bytes_eq (x ∷ xs) (y ∷ ys) = x == y && bytes_eq xs ys

unfoldable pub bytes_lt : Bytes → Bytes → Bool
bytes_lt xs [] = false
bytes_lt [] (y ∷ ys) = true
bytes_lt (x ∷ xs) (y ∷ ys) = ltb x y || x == y && bytes_lt xs ys

-- Whether the second text starts with the first.
unfoldable pub starts_with : Bytes → Bytes → Bool
starts_with [] s = true
starts_with (x ∷ xs) [] = false
starts_with (x ∷ xs) (y ∷ ys) = x == y && starts_with xs ys

pub bytes_eq_sound : (a b : Bytes) → bytes_eq a b ≡ true → a ≡ b
unfolding bytes_eq
bytes_eq_sound [] [] h = refl
bytes_eq_sound [] (y ∷ ys) h = ground arith
bytes_eq_sound (x ∷ xs) [] h = ground arith
bytes_eq_sound (x ∷ xs) (y ∷ ys) h = ground (arith, bytes_eq_sound xs ys)

pub bytes_eq_refl : (a : Bytes) → bytes_eq a a ≡ true
unfolding bytes_eq
bytes_eq_refl [] = refl
bytes_eq_refl (x ∷ xs) = ground (arith, bytes_eq_refl xs)

pub bytes_eq_iff : (a b : Bytes) → (bytes_eq a b ≡ true) ↔ (a ≡ b)
bytes_eq_iff a b = (bytes_eq_sound a b, λ e. rw e (bytes_eq_refl b))

pub bytes_eq_append : (p a b : Bytes) → bytes_eq (p ++ a) (p ++ b) ≡ bytes_eq a b
unfolding bytes_eq
bytes_eq_append [] a b = refl
bytes_eq_append (x ∷ p) a b = ground (arith, bytes_eq_append p a b)

pub bytes_lt_irrefl : (a : Bytes) → bytes_lt a a ≡ false
unfolding bytes_lt
bytes_lt_irrefl [] = refl
bytes_lt_irrefl (x ∷ xs) = ground (arith, bytes_lt_irrefl xs)

pub bytes_lt_trans :
    (a b c : Bytes) → bytes_lt a b ≡ true → bytes_lt b c ≡ true → bytes_lt a c ≡ true
unfolding bytes_lt
bytes_lt_trans a [] c h k = ground arith
bytes_lt_trans a (y ∷ ys) [] h k = ground arith
bytes_lt_trans [] (y ∷ ys) (z ∷ zs) h k = refl
bytes_lt_trans (x ∷ xs) (y ∷ ys) (z ∷ zs) h k = ground (arith, bytes_lt_trans xs ys zs)

pub bytes_lt_total : (a b : Bytes) → (bytes_lt a b ≡ true) ⊎ ((a ≡ b) ⊎ (bytes_lt b a ≡ true))
unfolding bytes_lt
bytes_lt_total [] [] = inr (inl refl)
bytes_lt_total [] (y ∷ ys) = inl refl
bytes_lt_total (x ∷ xs) [] = inr (inr refl)
bytes_lt_total (x ∷ xs) (y ∷ ys) = ground (arith, bytes_lt_total xs ys)

pub bytes_lt_asym : (a b : Bytes) → bytes_lt a b ≡ true → bytes_lt b a ≡ false
bytes_lt_asym a b h = elim (Bool-cases (bytes_lt b a)) [
  | inl e ↦ absurd (false≢true (sym (bytes_lt_irrefl a) ∙ bytes_lt_trans a b a h e))
  | inr e ↦ e
]

-- A text that starts with `p` is not less than `p`.
pub bytes_lt_prefix : (p s : Bytes) → bytes_lt (p ++ s) p ≡ false
unfolding bytes_lt
bytes_lt_prefix [] s = refl
bytes_lt_prefix (x ∷ p) s = ground (arith, bytes_lt_prefix p s)

-- Between `p` and a text that starts with `p`, all texts start with `p`.
pub starts_with_between :
    (p j k : Bytes)
    → bytes_lt j p ≡ false
    → bytes_lt j k ≡ true
    → starts_with p k ≡ true
    → starts_with p j ≡ true
unfolding bytes_lt starts_with
starts_with_between [] j k from lt h = refl
starts_with_between (x ∷ p) [] k from lt h = ground arith
starts_with_between (x ∷ p) (y ∷ j) [] from lt h = ground arith
starts_with_between (x ∷ p) (y ∷ j) (z ∷ k) from lt h = ground (arith, starts_with_between p j k)

pub starts_with_split : (p s : Bytes) → starts_with p s ≡ true → (rest : Bytes) × (s ≡ p ++ rest)
unfolding starts_with
starts_with_split [] s h = (s, refl)
starts_with_split (x ∷ p) [] h = absurd (false≢true h)
starts_with_split (x ∷ p) (y ∷ s) h =
    let (rest, e) = starts_with_split p s (ground arith) in (rest, ground arith)
