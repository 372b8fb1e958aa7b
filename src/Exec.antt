-- ===== src/Exec.antt =====
-- Methods that change the program's state and may end in a fault: an exception that nobody catches,
-- or a step whose behaviour C++ leaves undefined. After a fault there is no state.
pub mod Keeps
pub mod Refusals
use crosschain_agent.Prelude.{Bool, true, false, Option, none, some}

pub data Fault : Type 0 where
  -- a vector is indexed past its end
  out_of_range : Fault
  -- `substr` starts past the end of the text (`std::out_of_range`)
  bad_position : Fault
  -- a JSON value is not of the kind that is asked for (`Json::LogicError`)
  json_type : Fault
  -- a number does not fit its type (`atoi`, `atol`)
  conversion : Fault
  -- a loop goes on from an element that its body has erased
  dangling : Fault
  -- a field is read that was never written
  indeterminate : Fault
  -- a null pointer is followed
  null_pointer : Fault
  -- an object is passed through the `...` of a function of C
  object_argument : Fault
  -- the program stops itself (`PROCESS_EXIT`)
  process_exit : Fault
  -- the model's own: a loop ran longer than its bound
  out_of_fuel : Fault

pub data Outcome {ℓ} (A : Type ℓ) : Type ℓ where
  done : A → Outcome A
  fault : Fault → Outcome A

abbrev pub Exec {ℓ} : Type ℓ → Type ℓ → Type ℓ
Exec S A = S → Outcome (A × S)

module _ {ℓ} {S A : Type ℓ} where
  unfoldable pub pure : A → Exec S A
  pure a s = done (a, s)

  unfoldable pub raise : Fault → Exec S A
  raise f s = fault f

  -- The value, or the fault that its absence means.
  unfoldable pub expect : Fault → Option A → Exec S A
  expect f none s = fault f
  expect f (some a) s = done (a, s)

  unfoldable pub gets : (S → A) → Exec S A
  gets f s = done (f s, s)

  -- A call of the outside world, which is a part of the state.
  unfoldable pub state : (S → A × S) → Exec S A
  state f s = done (f s)

module _ {ℓ} {S : Type ℓ} where
  unfoldable pub modify : (S → S) → Exec S Unit
  modify f s = done (tt, f s)

module _ {ℓ} {S A B : Type ℓ} where
  abbrev pub continue : Outcome (A × S) → (A → Exec S B) → Outcome (B × S)
  continue (done (a, s)) f = f a s
  continue (fault e) f = fault e

  infixl 10 ◌>>=◌ ◌>>◌
  unfoldable pub ◌>>=◌ : Exec S A → (A → Exec S B) → Exec S B
  unfolding pure raise expect gets state modify
  ◌>>=◌ m f s = continue (m s) f

  abbrev pub ◌>>◌ : Exec S A → Exec S B → Exec S B
  m >> n = m >>= λ _. n

module _ {ℓ} {S T A : Type ℓ} where
  abbrev pub put_back : (S → T → S) → S → Outcome (A × T) → Outcome (A × S)
  put_back put s (done (a, t)) = done (a, put s t)
  put_back put s (fault e) = fault e

  -- A method of a part of the state.
  unfoldable pub zoom : (S → T) → (S → T → S) → Exec T A → Exec S A
  zoom get put m s = put_back put s (m (get s))
