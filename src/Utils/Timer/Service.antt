-- ===== src/Utils/Timer/Service.antt =====
-- Sequences of critical sections on the queue: threads may add, delete and collect in any order.
use crosschain_agent.Prelude.{
  ℤ, List, [], ◌∷◌, eqb_ℤ, ◌≤ℤ◌, ◌++◌, Bool, All, ◌≡◌, none, ◌⊎◌, false, inr, true, Bool-cases,
  if◌then◌else◌, Option-cases, inl, some, filter, ltb_ℤ, arith, false≢true, subst, sym, ◌∙◌, not,
  refl,
}
use crosschain_agent.Utils.Timer.{
  Queue, TimerElement, insert_element, remove_element, del_timer, add_timer, check_expire,
}
use crosschain_agent.Utils.Timer.Order.{
  IsOrdered, insert_element-IsOrdered, pop_expired-IsOrdered, pop_expired_lem, due,
}

-- AddTimer at a time, DelTimer, and the CheckExpire of a call of OnTimer at a time.
pub data Section (Func : Type 0) : Type 0 where
  add : ℤ → ℤ → ℤ → Func → Section Func
  delete : ℤ → Section Func
  collect : ℤ → Section Func

module _ {Func : Type 0} where
  -- What a section gives to the list of calls, and the queue that it leaves.
  abbrev pub enter : Section Func → Queue Func → List (TimerElement Func) × Queue Func
  enter (add now micro_time data_ func) q = ([], (add_timer now micro_time data_ func q).1)
  enter (delete index) q = ([], (del_timer index q).1)
  enter (collect now) q = check_expire now q

  abbrev pub enter_all : List (Section Func) → Queue Func → List (TimerElement Func) × Queue Func
  enter_all [] q = ([], q)
  enter_all (c ∷ cs) q =
      let (called, q') = enter c q in let (more, q'') = enter_all cs q' in (called ++ more, q'')

  abbrev pub In : TimerElement Func → List (TimerElement Func) → Type 0
  In e [] = ⊥
  In e (f ∷ es) = (e ≡ f) ⊎ In e es

  -- A section that does not delete the identifier.
  abbrev pub Spares : ℤ → Section Func → Type 0
  Spares index (delete other) = eqb_ℤ index other ≡ false
  Spares index _ = Unit

  -- Some section collects at a time that is not before `z`.
  abbrev pub Collected : ℤ → List (Section Func) → Type 0
  Collected z [] = ⊥
  Collected z (collect now ∷ cs) = (z ≤ℤ now) ⊎ Collected z cs
  Collected z (_ ∷ cs) = Collected z cs

  In-append_left :
      (e : TimerElement Func) (es fs : List (TimerElement Func)) → In e es → In e (es ++ fs)
  In-append_left e [] fs h = elim h [ ]
  In-append_left e (f ∷ es) fs (inl h) = inl h
  In-append_left e (f ∷ es) fs (inr h) = inr (In-append_left e es fs h)

  In-append_right :
      (e : TimerElement Func) (es fs : List (TimerElement Func)) → In e fs → In e (es ++ fs)
  In-append_right e [] fs h = h
  In-append_right e (f ∷ es) fs h = inr (In-append_right e es fs h)

  In-filter :
      (keep : TimerElement Func → Bool) (e : TimerElement Func) (es : List (TimerElement Func))
      → keep e ≡ true
      → In e es
      → In e (filter keep es)
  In-filter keep e [] k h = elim h [ ]
  In-filter keep e (f ∷ es) k (inl h) = rw (subst (λ x. keep x ≡ true) h k) (inl h)
  In-filter keep e (f ∷ es) k (inr h) = elim (Bool-cases (keep f)) [
    | inl y ↦ rw y (inr (In-filter keep e es k h))
    | inr n ↦ rw n (In-filter keep e es k h)
  ]

  In-insert_element :
      (e f : TimerElement Func) (es : List (TimerElement Func))
      → In e es
      → In e (insert_element f es)
  unfolding insert_element
  In-insert_element e f [] h = elim h [ ]
  In-insert_element e f (g ∷ es) h = elim (Bool-cases (ltb_ℤ f.expire_time g.expire_time)) [
    | inl lt ↦ rw lt (inr h)
    | inr ge ↦
        rw ge (elim h [ inl here ↦ inl here | inr there ↦ inr (In-insert_element e f es there) ])
  ]

  -- The elements that are left once the first with an identifier is deleted.
  abbrev without : ℤ → List (TimerElement Func) → List (TimerElement Func)
  without index es = elim (remove_element index es) [ none ↦ es | some fs ↦ fs ]

  without-step :
      (index : ℤ) (f : TimerElement Func) (es : List (TimerElement Func))
      → without index (f ∷ es) ≡ (if eqb_ℤ f.id index then es else f ∷ without index es)
  unfolding remove_element
  without-step index f es = elim (Option-cases (remove_element index es)) [
    | inl e ↦ ground (arith, e)
    | inr (fs, e) ↦ ground (arith, e)
  ]

  without-All :
      (P : TimerElement Func → Type 0) (index : ℤ) (es : List (TimerElement Func))
      → All P es
      → All P (without index es)
  unfolding remove_element
  without-All P index [] a = tt
  without-All P index (f ∷ es) a =
      rw (without-step index f es) (elim (Bool-cases (eqb_ℤ f.id index)) [
        | inl e ↦ rw e a.1
        | inr e ↦ rw e (a.0, without-All P index es a.1)
      ])

  without-IsOrdered :
      (index : ℤ) (es : List (TimerElement Func)) → IsOrdered es → IsOrdered (without index es)
  unfolding remove_element
  without-IsOrdered index [] o = tt
  without-IsOrdered index (f ∷ es) o =
      rw (without-step index f es) (elim (Bool-cases (eqb_ℤ f.id index)) [
        | inl e ↦ rw e o.1
        | inr e ↦ rw e (without-All _ index es o.0, without-IsOrdered index es o.1)
      ])

  In-without :
      (e : TimerElement Func) (index : ℤ) (es : List (TimerElement Func))
      → eqb_ℤ e.id index ≡ false
      → In e es
      → In e (without index es)
  In-without e index [] other h = elim h [ ]
  In-without e index (f ∷ es) other h =
      rw (without-step index f es) (elim (Bool-cases (eqb_ℤ f.id index)) [
        | inl same ↦ rw same (elim h [
          | inl here ↦
              absurd (false≢true (sym other ∙ subst (λ x. eqb_ℤ x.id index ≡ true) (sym here) same))
          | inr there ↦ there
        ])
        | inr apart ↦
            rw apart
              (elim h [ inl here ↦ inl here | inr there ↦ inr (In-without e index es other there) ])
      ])

  del_timer_lem :
      (index : ℤ) (q : Queue Func) → (del_timer index q).1.time_ele ≡ without index q.time_ele
  unfolding del_timer
  del_timer_lem index q = elim (Option-cases (remove_element index q.time_ele)) [
    | inl e ↦ rw (del_timer, without, e) refl
    | inr (es, e) ↦ rw (del_timer, without, e) refl
  ]

  enter-IsOrdered :
      (c : Section Func) (q : Queue Func) → IsOrdered q.time_ele → IsOrdered (enter c q).1.time_ele
  unfolding add_timer check_expire
  enter-IsOrdered (add now micro_time data_ func) q o = insert_element-IsOrdered _ q.time_ele o
  enter-IsOrdered (delete index) q o =
      rw (del_timer_lem index q) (without-IsOrdered index q.time_ele o)
  enter-IsOrdered (collect now) q o = pop_expired-IsOrdered now q.time_ele o

  -- An element that a section finds is handed to the list of calls, or is still there.
  enter-keeps :
      (e : TimerElement Func) (c : Section Func) (q : Queue Func)
      → IsOrdered q.time_ele
      → Spares e.id c
      → In e q.time_ele
      → In e (enter c q).0 ⊎ In e (enter c q).1.time_ele
  unfolding add_timer check_expire
  enter-keeps e (add now micro_time data_ func) q o h i = inr (In-insert_element e _ q.time_ele i)
  enter-keeps e (delete index) q o h i =
      inr (rw (del_timer_lem index q) (In-without e index q.time_ele h i))
  enter-keeps e (collect now) q o h i =
      rw (pop_expired_lem now q.time_ele o) (elim (Bool-cases (due now e)) [
        | inl y ↦ inl (In-filter (due now) e q.time_ele y i)
        | inr n ↦ inr (In-filter (λ e. not (due now e)) e q.time_ele (rw n refl) i)
      ])

  enter-collect :
      (now : ℤ) (q : Queue Func) (e : TimerElement Func)
      → IsOrdered q.time_ele
      → In e q.time_ele
      → e.expire_time ≤ℤ now
      → In e (enter (collect now) q).0
  unfolding check_expire
  enter-collect now q e o i h =
      rw (pop_expired_lem now q.time_ele o) (In-filter (due now) e q.time_ele (ground (arith, h)) i)

  -- Whatever other threads do in between, a queued call that nobody deletes is handed to the list of
  -- calls once OnTimer has collected at a time that is not before its own: if the queue is in order,
  -- no section of a sequence deletes the element's identifier, and one of them collects at such a time,
  -- then the element is among the calls of the sequence.
  pub enter_all-served :
      (cs : List (Section Func)) (q : Queue Func) (e : TimerElement Func)
      → IsOrdered q.time_ele
      → In e q.time_ele
      → All (Spares e.id) cs
      → Collected e.expire_time cs
      → In e (enter_all cs q).0
  unfolding add_timer
  enter_all-served [] q e o i spared h = elim h [ ]
  enter_all-served (collect now ∷ cs) q e o i spared (inl h) =
      In-append_left e (enter (collect now) q).0 _ (enter-collect now q e o i h)
  enter_all-served (collect now ∷ cs) q e o i spared (inr h) =
      elim (enter-keeps e (collect now) q o tt i) [
        | inl called ↦ In-append_left e (enter (collect now) q).0 _ called
        | inr kept ↦
            In-append_right e (enter (collect now) q).0 _
              (enter_all-served cs _ e (enter-IsOrdered (collect now) q o) kept spared.1 h)
      ]
  enter_all-served (add now micro_time data_ func ∷ cs) q e o i spared h =
      enter_all-served cs _ e (enter-IsOrdered (add now micro_time data_ func) q o)
        (In-insert_element e _ q.time_ele i) spared.1 h
  enter_all-served (delete index ∷ cs) q e o i spared h =
      enter_all-served cs _ e (enter-IsOrdered (delete index) q o)
        (rw (del_timer_lem index q) (In-without e index q.time_ele spared.0 i)) spared.1 h
