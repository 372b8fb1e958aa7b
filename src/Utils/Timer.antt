-- ===== src/Utils/Timer.antt =====
-- Timer of src/utils/timer.cpp and timer.h: a queue of delayed calls in the order of their times.
pub mod Order
pub mod Service
use crosschain_agent.Prelude.{
  Bytes, ℤ, List, add_int64, Bool, ℕ, pos, ◌∷◌, Option, ◌*◌, if◌then◌else◌, none, ltb_ℤ, eqb_ℤ,
  false, some, [], true,
}
use crosschain_agent.Exec.{Exec, zoom, pure, ◌>>◌, modify, done}

-- A callback is known by a name in `Func`, and `call` is what it does. It may reach the queue through
-- AddTimer and DelTimer, and the rest of the program `S`.
pub record TimerElement (Func : Type 0) : Type 0 where
  pub func : Func
  pub id : ℤ
  pub data_ : ℤ
  pub expire_time : ℤ

-- What `lock_` guards: the elements in the order of their times, and the next identifier.
pub record Queue (Func : Type 0) : Type 0 where
  pub time_ele : List (TimerElement Func)
  pub global_element_id : ℤ

module _ {Func : Type 0} where
  -- `std::multimap::insert`: behind the elements with the same key.
  unfoldable pub insert_element :
      TimerElement Func → List (TimerElement Func) → List (TimerElement Func)
  insert_element e [] = e ∷ []
  insert_element e (f ∷ es) =
      if ltb_ℤ e.expire_time f.expire_time then e ∷ f ∷ es else f ∷ insert_element e es

  -- `now` is the time that Timestamp::HighResolution gives.
  unfoldable pub add_timer : ℤ → ℤ → ℤ → Func → Queue Func → ℤ × Queue Func
  unfolding insert_element
  add_timer now micro_time data_ func q =
      let expire_time = add_int64 now micro_time in
      let e : TimerElement Func = record {
        func = func;
        id = q.global_element_id;
        data_ = data_;
        expire_time = expire_time;
      } in
      (
        e.id,
        record {
          time_ele = insert_element e q.time_ele;
          global_element_id = add_int64 q.global_element_id (pos 1);
        },
      )

  -- The first element with the identifier goes.
  unfoldable pub remove_element : ℤ → List (TimerElement Func) → Option (List (TimerElement Func))
  remove_element index [] = none
  remove_element index (e ∷ es) =
      let rest = remove_element index es in
      if eqb_ℤ e.id index then some es else elim rest [ none ↦ none | some fs ↦ some (e ∷ fs) ]

  unfoldable pub del_timer : ℤ → Queue Func → Bool × Queue Func
  unfolding remove_element
  del_timer index q = elim (remove_element index q.time_ele) [
    | none ↦ (false, q)
    | some es ↦ (true, record q { time_ele = es })
  ]

  unfoldable pub find_expire_time : ℤ → List (TimerElement Func) → ℤ
  find_expire_time index [] = pos 0
  find_expire_time index (e ∷ es) =
      if eqb_ℤ e.id index then e.expire_time else find_expire_time index es

  abbrev pub get_expire_time : ℤ → Queue Func → ℤ
  get_expire_time index q = find_expire_time index q.time_ele

  -- The loop of CheckExpire: what it pushes to the list of calls, and the elements that it leaves.
  unfoldable pub pop_expired :
      ℤ → List (TimerElement Func) → List (TimerElement Func) × List (TimerElement Func)
  pop_expired cur_time [] = ([], [])
  pop_expired cur_time (e ∷ es) =
      let (expired, rest) = pop_expired cur_time es in
      if ltb_ℤ cur_time e.expire_time then ([], e ∷ es) else (e ∷ expired, rest)

  unfoldable pub check_expire : ℤ → Queue Func → List (TimerElement Func) × Queue Func
  unfolding pop_expired
  check_expire cur_time q =
      let (expired, rest) = pop_expired cur_time q.time_ele in
      (expired, record q { time_ele = rest })

abbrev pub micro_units_per_milli : ℕ
micro_units_per_milli = 1_000

abbrev pub check_interval : ℤ
check_interval = pos (100 * micro_units_per_milli)

-- The whole object, beside the rest of the program. The list of calls is empty between two calls of
-- OnTimer.
pub record Timer (Func S : Type 0) : Type 0 where
  pub queue : Queue Func
  pub last_check_time : ℤ
  pub program : S

module _ {Func S : Type 0} (call : Func → ℤ → Exec (Queue Func × S) Unit) where
  -- TimerElement::Excute
  unfoldable pub execute : TimerElement Func → Exec (Timer Func S) Unit
  unfolding zoom
  execute e =
      zoom (λ t. (t.queue, t.program)) (λ t s. record t { queue = s.0; program = s.1 })
        (call e.func e.data_)

  unfoldable pub execute_all : List (TimerElement Func) → Exec (Timer Func S) Unit
  unfolding execute
  execute_all [] = pure tt
  execute_all (e ∷ es) = execute e >> execute_all es

  unfoldable pub on_timer : ℤ → Exec (Timer Func S) Unit
  unfolding check_expire execute_all
  on_timer current_time t =
      let (exeute_list, q) = check_expire current_time t.queue in
      if ltb_ℤ (add_int64 t.last_check_time check_interval) current_time
      then (do execute_all exeute_list; modify (λ t. record t { last_check_time = current_time }))
          (record t { queue = q })
      else done (tt, t)
