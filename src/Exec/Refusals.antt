-- ===== src/Exec/Refusals.antt =====
-- Methods that answer true or false, as those of src/glue do: what holds of the state at the answer false.
use crosschain_agent.Prelude.{Bool, true, false, if◌then◌else◌}
use crosschain_agent.Exec.{Fault, Outcome, done, fault, Exec, pure, raise, continue, ◌>>=◌}
use crosschain_agent.Exec.Keeps.{Keeps, After}

-- What holds of the state that a method leaves if it answers false.
abbrev pub OnFalse {ℓ κ} : {S : Type ℓ} → (S → Type κ) → Outcome (Bool × S) → Type κ
OnFalse P (done (true, s)) = Unit
OnFalse P (done (false, s)) = P s
OnFalse P (fault f) = Unit

-- Where `P` holds, `m` leaves a state with `P` if it answers false.
pub record Refuses {κ} {S : Type 0} (P : S → Type κ) (m : Exec S Bool) : Type κ where
  pub at : (s : S) → P s → OnFalse P (m s)

-- `m` does not answer false.
pub record Accepts {S : Type 0} (m : Exec S Bool) : Type 0 where
  pub at : (s : S) → OnFalse (λ _. ⊥) (m s)

weaken {κ} :
    {S : Type 0} (P : S → Type κ) (o : Outcome (Bool × S)) → OnFalse (λ _. ⊥) o → OnFalse P o
weaken P (done (true, s)) h = tt
weaken P (done (false, s)) h = elim h [ ]
weaken P (fault f) h = tt

module _ {κ} {S : Type 0} {P : S → Type κ} where
  continue-OnFalse :
      {B : Type 0} (o : Outcome (B × S)) (next : B → Exec S Bool)
      → After P o
      → ((b : B) → Refuses P (next b))
      → OnFalse P (continue o next)
  continue-OnFalse (done (b, s)) next h goes = (goes b).at s h
  continue-OnFalse (fault e) next h goes = tt

  branch-OnFalse :
      (o : Outcome (Bool × S)) (next : Bool → Exec S Bool)
      → OnFalse P o
      → Accepts (next true)
      → Refuses P (next false)
      → OnFalse P (continue o next)
  branch-OnFalse (done (true, s)) next h on_true on_false = weaken P (next true s) (on_true.at s)
  branch-OnFalse (done (false, s)) next h on_true on_false = on_false.at s h
  branch-OnFalse (fault e) next h on_true on_false = tt

  pub Refuses-bind :
      {B : Type 0} (first : Exec S B) (next : B → Exec S Bool)
      → Keeps P first
      → ((b : B) → Refuses P (next b))
      → Refuses P (first >>= next)
  unfolding ◌>>=◌
  Refuses-bind first next kept goes = record {
    at = λ s h. continue-OnFalse (first s) next (kept.at s h) goes;
  }

  -- A call that refuses itself: what follows the answer true must not be false.
  pub Refuses-branch :
      (first : Exec S Bool) (next : Bool → Exec S Bool)
      → Refuses P first
      → Accepts (next true)
      → Refuses P (next false)
      → Refuses P (first >>= next)
  unfolding ◌>>=◌
  Refuses-branch first next own on_true on_false = record {
    at = λ s h. branch-OnFalse (first s) next (own.at s h) on_true on_false;
  }

  pub Refuses-if :
      (test : Bool) (one two : Exec S Bool)
      → Refuses P one
      → Refuses P two
      → Refuses P (if test then one else two)
  Refuses-if true one two on_true on_false = on_true
  Refuses-if false one two on_true on_false = on_false

  pub Refuses-false : Refuses P (pure {S = S} false)
  unfolding pure
  Refuses-false = record { at = λ s h. h }

  pub Accepts-Refuses : (m : Exec S Bool) → Accepts m → Refuses P m
  Accepts-Refuses m h = record { at = λ s p. weaken P (m s) (h.at s) }

module _ {S : Type 0} where
  continue-Accepts :
      {B : Type 0} (o : Outcome (B × S)) (next : B → Exec S Bool)
      → ((b : B) → Accepts (next b))
      → OnFalse (λ _. ⊥) (continue o next)
  continue-Accepts (done (b, s)) next goes = (goes b).at s
  continue-Accepts (fault e) next goes = tt

  pub Accepts-bind :
      {B : Type 0} (first : Exec S B) (next : B → Exec S Bool)
      → ((b : B) → Accepts (next b))
      → Accepts (first >>= next)
  unfolding ◌>>=◌
  Accepts-bind first next goes = record { at = λ s. continue-Accepts (first s) next goes }

  pub Accepts-true : Accepts (pure {S = S} true)
  unfolding pure
  Accepts-true = record { at = λ s. tt }

  pub Accepts-raise : (f : Fault) → Accepts (raise {S = S} f)
  unfolding raise
  Accepts-raise f = record { at = λ s. tt }

pub ruleset accepts_rules = (Accepts-bind, Accepts-true, Accepts-raise)
