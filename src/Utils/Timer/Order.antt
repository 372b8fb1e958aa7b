-- ===== src/Utils/Timer/Order.antt =====
-- The queue of delayed calls is kept in the order of the times.
use crosschain_agent.Prelude.{
  ℤ, List, All, ◌∷◌, ◌≤ℤ◌, Bool, ◌<ℤ◌, ◌≡◌, All-map, arith, Bool-cases, not, filter, [], ltb_ℤ,
  true, inl, inr, refl, eqb_ℤ, false, some, add_int64, pos, if◌then◌else◌,
}
use crosschain_agent.Utils.Timer.{
  insert_element, pop_expired, TimerElement, remove_element, find_expire_time, add_timer, Queue,
  del_timer, on_timer, get_expire_time, check_expire, Timer, check_interval, execute_all,
}
use crosschain_agent.Exec.{Exec, done, modify, ◌>>◌}

module _ {Func : Type 0} where
  -- No element of a list is due before `z`.
  abbrev pub NotBefore : ℤ → List (TimerElement Func) → Type 0
  NotBefore z = All (λ e. z ≤ℤ e.expire_time)

  abbrev pub IsOrdered : List (TimerElement Func) → Type 0
  IsOrdered [] = Unit
  IsOrdered (e ∷ es) = NotBefore e.expire_time es × IsOrdered es

  NotBefore-trans :
      (y z : ℤ) (es : List (TimerElement Func)) → y ≤ℤ z → NotBefore z es → NotBefore y es
  NotBefore-trans y z es h = All-map (λ e a. ground (arith, h, a)) es

  insert_element-NotBefore :
      (z : ℤ) (e : TimerElement Func) (es : List (TimerElement Func))
      → z ≤ℤ e.expire_time
      → NotBefore z es
      → NotBefore z (insert_element e es)
  unfolding insert_element
  insert_element-NotBefore z e [] h a = (h, tt)
  insert_element-NotBefore z e (f ∷ es) h a = ground (arith, insert_element-NotBefore z e es h a.1)

  pub insert_element-IsOrdered :
      (e : TimerElement Func) (es : List (TimerElement Func))
      → IsOrdered es
      → IsOrdered (insert_element e es)
  unfolding insert_element
  insert_element-IsOrdered e [] o = (tt, tt)
  insert_element-IsOrdered e (f ∷ es) o = elim (Bool-cases (ltb_ℤ e.expire_time f.expire_time)) [
    | inl lt ↦
        rw lt ((ground arith, NotBefore-trans e.expire_time f.expire_time es (ground arith) o.0), o)
    | inr ge ↦ rw ge (
      insert_element-NotBefore f.expire_time e es (ground arith) o.0,
      insert_element-IsOrdered e es o.1,
    )
  ]

  -- The times at which the elements of a list are due.
  pub pop_expired-IsOrdered :
      (now : ℤ) (es : List (TimerElement Func)) → IsOrdered es → IsOrdered (pop_expired now es).1
  unfolding pop_expired
  pop_expired-IsOrdered now [] o = tt
  pop_expired-IsOrdered now (e ∷ es) o = elim (Bool-cases (ltb_ℤ now e.expire_time)) [
    | inl lt ↦ rw lt o
    | inr ge ↦ rw ge (pop_expired-IsOrdered now es o.1)
  ]

  -- Whether an element's time is not after `now`.
  abbrev pub due : ℤ → TimerElement Func → Bool
  due now e = not (ltb_ℤ now e.expire_time)

  none_due :
      (now z : ℤ) (es : List (TimerElement Func))
      → now <ℤ z
      → NotBefore z es
      → (filter (due now) es ≡ []) × (filter (λ e. not (due now e)) es ≡ es)
  none_due now z [] h a = (refl, refl)
  none_due now z (e ∷ es) h a =
      let late : ltb_ℤ now e.expire_time ≡ true = ground (arith, h, a.0) in
      let (no_more, all_left) = none_due now z es h a.1 in
      (rw (late, no_more) refl, rw (late, all_left) refl)

  -- The loop that stops at the first element that is not due splits an ordered list into the elements
  -- that are due and those that are not, each part in the order of the list.
  pub pop_expired_lem :
      (now : ℤ) (es : List (TimerElement Func))
      → IsOrdered es
      → pop_expired now es ≡ (filter (due now) es, filter (λ e. not (due now e)) es)
  unfolding pop_expired
  pop_expired_lem now [] o = refl
  pop_expired_lem now (e ∷ es) o = elim (Bool-cases (ltb_ℤ now e.expire_time)) [
    | inl lt ↦
        let (no_more, all_left) = none_due now e.expire_time es (ground arith) o.0 in
        rw (lt, no_more, all_left) refl
    | inr ge ↦ rw (ge, pop_expired_lem now es o.1) refl
  ]

module _ {Func S : Type 0} (call : Func → ℤ → Exec (Queue Func × S) Unit) where
  -- If the queue is in order, a call of OnTimer more than the check interval after the last check takes
  -- exactly the elements whose times are not after the current one out of the queue, runs their
  -- callbacks in the order of the times, and then records the current time. An earlier call changes
  -- nothing.
  pub on_timer_lem :
      (now : ℤ) (t : Timer Func S)
      → IsOrdered t.queue.time_ele
      → on_timer call now t ≡ (
          if ltb_ℤ (add_int64 t.last_check_time check_interval) now
          then (execute_all call (filter (due now) t.queue.time_ele)
                >> modify (λ t. record t { last_check_time = now }))
              (record t {
                queue = record t.queue {
                  time_ele = filter (λ e. not (due now e)) t.queue.time_ele;
                };
              })
          else done (tt, t))
  unfolding on_timer check_expire
  on_timer_lem now t o = rw (pop_expired_lem now t.queue.time_ele o) refl

eqb_ℤ_refl : (z : ℤ) → eqb_ℤ z z ≡ true
eqb_ℤ_refl z = ground arith

module _ {Func : Type 0} where
  -- No element of a queue has an identifier.
  abbrev pub Unused : ℤ → List (TimerElement Func) → Type 0
  Unused index = All (λ e. eqb_ℤ e.id index ≡ false)

  remove_element-insert_element :
      (e : TimerElement Func) (es : List (TimerElement Func))
      → Unused e.id es
      → remove_element e.id (insert_element e es) ≡ some es
  unfolding remove_element insert_element
  remove_element-insert_element e [] u = rw eqb_ℤ_refl refl
  remove_element-insert_element e (f ∷ es) u =
      elim (Bool-cases (ltb_ℤ e.expire_time f.expire_time)) [
        | inl lt ↦ rw (lt, eqb_ℤ_refl) refl
        | inr ge ↦ rw (ge, u.0, remove_element-insert_element e es u.1) refl
      ]

  find_expire_time-insert_element :
      (e : TimerElement Func) (es : List (TimerElement Func))
      → Unused e.id es
      → find_expire_time e.id (insert_element e es) ≡ e.expire_time
  unfolding find_expire_time insert_element
  find_expire_time-insert_element e [] u = rw eqb_ℤ_refl refl
  find_expire_time-insert_element e (f ∷ es) u =
      elim (Bool-cases (ltb_ℤ e.expire_time f.expire_time)) [
        | inl lt ↦ rw (lt, eqb_ℤ_refl) refl
        | inr ge ↦ rw (ge, u.0, find_expire_time-insert_element e es u.1) refl
      ]

  -- If no element of the queue has the next identifier, then the identifier that AddTimer answers finds
  -- the time of the new element, the sum of the current time and the delay, and DelTimer with it answers
  -- true and brings the former elements back.
  pub del_timer-add_timer :
      (now micro_time data_ : ℤ) (func : Func) (q : Queue Func)
      → Unused q.global_element_id q.time_ele
      → (get_expire_time
            (add_timer now micro_time data_ func q).0
            (add_timer now micro_time data_ func q).1
          ≡ add_int64 now micro_time)
        × (del_timer
              (add_timer now micro_time data_ func q).0
              (add_timer now micro_time data_ func q).1
            ≡ (true, record q { global_element_id = add_int64 q.global_element_id (pos 1) }))
  unfolding add_timer del_timer
  del_timer-add_timer now micro_time data_ func q u = (
    find_expire_time-insert_element _ q.time_ele u,
    rw
        (
          del_timer,
          remove_element-insert_element
              (record {
                func = func;
                id = q.global_element_id;
                data_ = data_;
                expire_time = add_int64 now micro_time;
              })
              q.time_ele u,
        )
        refl,
  )
