-- ===== src/Network/Rules.antt =====
-- What holds before and after a method: one rule for each way to build a method.
use crosschain_agent.Prelude.{
  Bool, Option, Option-cases, false, if◌then◌else◌, inl, inr, none, refl, some, true, ◌≡◌,
}
use crosschain_agent.Exec.{Outcome, ◌>>=◌, Exec, gets, continue, done, fault}
use crosschain_agent.Exec.Keeps.{After}

After-continue :
    {S A B : Type 0} (R Q : S → Type 0) (o : Outcome (A × S)) (next : A → Exec S B)
    → After R o
    → ((a : A) (s : S) → R s → After Q (next a s))
    → After Q (continue o next)
After-continue R Q (done (a, s)) next h goes = goes a s h
After-continue R Q (fault f) next h goes = tt

-- If `P` holds before a method and the method returns, then `Q` holds after it.
pub record Leads {S A : Type 0} (P : S → Type 0) (m : Exec S A) (Q : S → Type 0) : Type 0 where
  pub at : (s : S) → P s → After Q (m s)

module _ {S A : Type 0} {P : S → Type 0} {Q : S → Type 0} where
  pub Leads-bind :
      {B : Type 0} (R : S → Type 0) (m : Exec S B) (next : B → Exec S A)
      → Leads P m R
      → ((b : B) → Leads R (next b) Q)
      → Leads P (m >>= next) Q
  unfolding ◌>>=◌
  Leads-bind R m next starts goes = record {
    at = λ s h. After-continue R Q (m s) next (starts.at s h) λ b s' h'. (goes b).at s' h';
  }

  -- A look-up, and what to do with nothing and with what it finds.
  pub Leads-found :
      {C : Type 0} (look : S → Option C) (absent : Exec S A) (present : C → Exec S A)
      → Leads P absent Q
      → ((c : C) → Leads (λ s. P s × (look s ≡ some c)) (present c) Q)
      → Leads P (gets look >>= λ found. elim found [ none ↦ absent | some c ↦ present c ]) Q
  unfolding gets ◌>>=◌
  Leads-found look absent present none_found found = record {
    at = λ s h. elim (Option-cases (look s)) [
      | inl e ↦ rw e (none_found.at s h)
      | inr (c, e) ↦ rw e ((found c).at s (h, e))
    ];
  }

  pub Leads-if :
      (test : Bool) (one two : Exec S A)
      → Leads P one Q
      → Leads P two Q
      → Leads P (if test then one else two) Q
  Leads-if true one two h k = h
  Leads-if false one two h k = k

  pub Leads-option :
      {C : Type 0} (o : Option C) (absent : Exec S A) (present : C → Exec S A)
      → Leads P absent Q
      → ((c : C) → Leads P (present c) Q)
      → Leads P (elim o [ none ↦ absent | some c ↦ present c ]) Q
  Leads-option none absent present h k = h
  Leads-option (some c) absent present h k = k c

  -- A value that is read from the state.
  pub Leads-read :
      {C : Type 0} (look : S → C) (next : C → Exec S A)
      → ((c : C) → Leads (λ s. P s × (look s ≡ c)) (next c) Q)
      → Leads P (gets look >>= next) Q
  unfolding gets ◌>>=◌
  Leads-read look next goes = record { at = λ s h. (goes (look s)).at s (h, refl) }

  pub Leads-after :
      (m : Exec S A) {P' : S → Type 0} → Leads P m Q → ((s : S) → P' s → P s) → Leads P' m Q
  Leads-after m h weaker = record { at = λ s p. h.at s (weaker s p) }
