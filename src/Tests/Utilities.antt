-- ===== src/Tests/Utilities.antt =====
-- Runs of the queue of delayed calls, and of the helpers for text.
use crosschain_agent.Prelude.{
  ℤ, List, pos, ◌∷◌, arith, inl, ℕ, ◌≡◌, codes, [], if◌then◌else◌, add_int64, bytes_eq, refl, suc,
  ltb_ℤ, filter, not,
}
use crosschain_agent.Utils.Timer.Service.{
  Section, add, delete, collect, In, enter_all, enter_all-served,
}
use crosschain_agent.Utils.Timer.{TimerElement, Queue, Timer, on_timer, check_interval, execute_all}
use crosschain_agent.Utils.Timer.Order.{IsOrdered, due, on_timer_lem}
use crosschain_agent.Exec.{Exec, done, ◌>>◌, modify}
use crosschain_agent.Utils.Text.Separators.{IsTokens, join_with, strtok_lem}
use crosschain_agent.Utils.Text.{equals_ignore_case, strtok, to_upper}
use crosschain_agent.Utils.Text.Case.{equals_ignore_case_lem}

-- A call that is due at a time, under an identifier.
abbrev delayed : ℤ → ℤ → TimerElement (Unit {0})
delayed id time = record { func = tt; id = id; data_ = pos 0; expire_time = time }

abbrev two_calls : Queue (Unit {0})
two_calls = record {
  time_ele = delayed (pos 2) (pos 100) ∷ delayed (pos 1) (pos 300_000) ∷ [];
  global_element_id = pos 3;
}

two_calls-IsOrdered : IsOrdered two_calls.time_ele
two_calls-IsOrdered = ((ground arith, tt), (tt, tt))

-- Another thread adds a call and deletes one before the queue is collected.
abbrev sections : List (Section (Unit {0}))
sections = add (pos 10) (pos 20) (pos 0) tt ∷ delete (pos 1) ∷ collect (pos 150) ∷ []

enter_all-served_example : In (delayed (pos 2) (pos 100)) (enter_all sections two_calls).0
enter_all-served_example =
    enter_all-served sections two_calls (delayed (pos 2) (pos 100)) two_calls-IsOrdered (inl refl)
      (tt, (refl, (tt, tt))) (inl (ground arith))

abbrev count_call : Unit {0} → ℤ → Exec (Queue (Unit {0}) × ℕ) Unit
count_call func data_ (q, n) = done (tt, (q, suc n))

abbrev idle_timer : Timer (Unit {0}) ℕ
idle_timer = record { queue = two_calls; last_check_time = pos 0; program = 0 }

on_timer_lem_example : on_timer count_call (pos 200_000) idle_timer ≡ (
    if ltb_ℤ (add_int64 idle_timer.last_check_time check_interval) (pos 200_000)
    then (execute_all count_call (filter (due (pos 200_000)) two_calls.time_ele)
          >> modify (λ t. record t { last_check_time = pos 200_000 }))
        (record idle_timer {
          queue = record two_calls {
            time_ele = filter (λ e. not (due (pos 200_000) e)) two_calls.time_ele;
          };
        })
    else done (tt, idle_timer))
on_timer_lem_example = on_timer_lem count_call (pos 200_000) idle_timer two_calls-IsOrdered

-- An item, and an empty last one.
items-IsTokens : IsTokens 124 (codes "ab" ∷ [] ∷ [])
items-IsTokens = ((refl, ((λ e. omega arith), ((λ e. omega arith), tt))), tt)

strtok_lem_example :
    IsTokens 124 (strtok (codes "|ab||c|") 124)
    × (strtok (join_with 124 (strtok (codes "|ab||c|") 124)) 124 ≡ strtok (codes "|ab||c|") 124)
    × (strtok (join_with 124 (codes "ab" ∷ [] ∷ [])) 124 ≡ codes "ab" ∷ [] ∷ [])
strtok_lem_example = strtok_lem (codes "|ab||c|") 124 (codes "ab" ∷ [] ∷ []) items-IsTokens

equals_ignore_case_lem_example :
    equals_ignore_case (codes "Stdout") (codes "STDOUT")
    ≡ bytes_eq (to_upper (codes "Stdout")) (to_upper (codes "STDOUT"))
equals_ignore_case_lem_example = equals_ignore_case_lem (codes "Stdout") (codes "STDOUT")
