-- ===== src/Exec/Keeps.antt =====
-- Invariants of methods, one rule for each way to build a method.
use crosschain_agent.Prelude.{Bool, true, false, Option, none, some, if◌then◌else◌}
use crosschain_agent.Exec.{
  Fault, Outcome, done, fault, Exec, pure, raise, expect, gets, continue, ◌>>=◌,
}

-- What holds of the state that a method leaves, if it leaves one.
abbrev pub After {ℓ κ} : {S A : Type ℓ} → (S → Type κ) → Outcome (A × S) → Type κ
After P (done (a, s)) = P s
After P (fault f) = Unit

-- `m` keeps `P` unless it ends in a fault.
pub record Keeps {ℓ κ} {S A : Type ℓ} (P : S → Type κ) (m : Exec S A) : Type (ℓ ⊔ κ) where
  pub at : (s : S) → P s → After P (m s)

-- An outcome that goes on with what keeps the invariant.
After-continue {ℓ κ} :
    {S A B : Type ℓ} {P : S → Type κ} (o : Outcome (A × S)) (next : A → Exec S B)
    → After P o
    → ((a : A) → Keeps P (next a))
    → After P (continue o next)
After-continue (done (a, s)) next h kept = (kept a).at s h
After-continue (fault e) next h kept = tt

module _ {ℓ κ} {S : Type ℓ} {A : Type ℓ} {P : S → Type κ} where
  pub Keeps-bind :
      {B : Type ℓ} (first : Exec S B) (next : B → Exec S A)
      → Keeps P first
      → ((b : B) → Keeps P (next b))
      → Keeps P (first >>= next)
  unfolding ◌>>=◌
  Keeps-bind first next starts goes = record {
    at = λ s h. After-continue (first s) next (starts.at s h) goes;
  }

  pub Keeps-expect : (f : Fault) (value : Option A) → Keeps P (expect {S = S} f value)
  unfolding expect
  Keeps-expect f none = record { at = λ s holds. tt }
  Keeps-expect f (some a) = record { at = λ s holds. holds }

  pub Keeps-raise : (reason : Fault) → Keeps P (raise {S = S} {A = A} reason)
  unfolding raise
  Keeps-raise reason = record { at = λ s holds. tt }

  pub Keeps-if :
      (test : Bool) (one two : Exec S A)
      → Keeps P one
      → Keeps P two
      → Keeps P (if test then one else two)
  Keeps-if true one two kept other = kept
  Keeps-if false one two other kept = kept

  pub Keeps-elim :
      {B : Type ℓ} (o : Option B) (absent : Exec S A) (present : B → Exec S A)
      → Keeps P absent
      → ((b : B) → Keeps P (present b))
      → Keeps P (elim o [ none ↦ absent | some b ↦ present b ])
  Keeps-elim none absent present kept each = kept
  Keeps-elim (some b) absent present kept each = each b

  pub Keeps-gets : (read : S → A) → Keeps P (gets read)
  unfolding gets
  Keeps-gets read = record { at = λ s holds. holds }

  pub Keeps-pure : (result : A) → Keeps P (pure {S = S} result)
  unfolding pure
  Keeps-pure result = record { at = λ s holds. holds }

pub ruleset keeps_rules = (Keeps-bind, Keeps-if, Keeps-expect, Keeps-raise, Keeps-gets, Keeps-pure)
