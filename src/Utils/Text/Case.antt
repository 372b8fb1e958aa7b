-- ===== src/Utils/Text/Case.antt =====
-- Letters without regard to their case.
use crosschain_agent.Prelude.{
  [], ◌∷◌, Bytes, ℕ, if◌then◌else◌, Bool, ◌==◌, ◌≡◌, ◌-◌, ◌||◌, arith, bytes_eq, ◌&&◌, length,
  Bool-cases, ◌+◌, inl, inr, false, ◌∙◌, sym, refl,
}
use crosschain_agent.Utils.Text.{
  char_is_letter, same_letters, equals_ignore_case, is_lower, to_upper,
}

abbrev upper : ℕ → ℕ
upper c = if is_lower c then c - 32 else c

-- Two characters that EqualsIgnoreCase takes for the same.
abbrev alike : ℕ → ℕ → Bool
alike a b = a == b || char_is_letter a && char_is_letter b && (a == b + 32 || b == a + 32)

alike-upper : (a b : ℕ) → alike a b ≡ (upper a == upper b)
unfolding char_is_letter
alike-upper a b = ground arith

same_letters-step :
    (a b : ℕ) (s t : Bytes) → same_letters (a ∷ s) (b ∷ t) ≡ alike a b && same_letters s t
unfolding same_letters
same_letters-step a b s t = ground arith

apart : (s t : Bytes) → (length s == length t) ≡ false → bytes_eq (to_upper s) (to_upper t) ≡ false
unfolding to_upper bytes_eq
apart [] [] h = ground arith
apart [] (b ∷ t) h = refl
apart (a ∷ s) [] h = refl
apart (a ∷ s) (b ∷ t) h = rw (apart s t (ground (arith, h))) (ground arith)

same_letters-to_upper :
    (s t : Bytes) → length s ≡ length t → same_letters s t ≡ bytes_eq (to_upper s) (to_upper t)
unfolding same_letters to_upper bytes_eq
same_letters-to_upper [] [] h = refl
same_letters-to_upper [] (b ∷ t) h = absurd (omega arith)
same_letters-to_upper (a ∷ s) [] h = absurd (omega arith)
same_letters-to_upper (a ∷ s) (b ∷ t) h =
    let rest = same_letters-to_upper s t (omega (arith, h)) in
    same_letters-step a b s t ∙ rw (alike-upper a b, rest) refl

-- EqualsIgnoreCase holds of two texts exactly if ToUpper makes them the same text.
pub equals_ignore_case_lem :
    (s t : Bytes) → equals_ignore_case s t ≡ bytes_eq (to_upper s) (to_upper t)
unfolding equals_ignore_case
equals_ignore_case_lem s t = elim (Bool-cases (length s == length t)) [
  | inl e ↦ rw e (same_letters-to_upper s t (ground (arith, e)))
  | inr e ↦ rw e (sym (apart s t e))
]
