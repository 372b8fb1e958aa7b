-- ===== src/General/Timer.antt =====
-- TimerNotify of src/common/general.h, the periodic call of a module by the main loop.
use crosschain_agent.Prelude.{
  Bytes, ℤ, pos, Bool, if◌then◌else◌, ltb_ℤ, add_int64, sub_int64, ◌≡◌, false, true,
}
use crosschain_agent.Exec.{Exec, ◌>>=◌, ◌>>◌, pure, done}

pub record TimerNotify : Type 0 where
  pub last_check_time : ℤ
  pub last_slow_check_time : ℤ
  pub check_interval : ℤ
  pub last_execute_complete_time : ℤ
  pub last_slow_execute_complete_time : ℤ
  pub timer_name : Bytes

unfoldable pub make_timer : Bytes → ℤ → TimerNotify
make_timer name interval = record {
  last_check_time = pos 0;
  last_slow_check_time = pos 0;
  check_interval = interval;
  last_execute_complete_time = pos 0;
  last_slow_execute_complete_time = pos 0;
  timer_name = name;
}

-- The module's own state beside its timer; `on_timer` is the module's handler, and `high_resolution`
-- the clock.
module _ {S : Type 0} (on_timer : ℤ → Exec S Unit) (high_resolution : Exec S ℤ) where
  unfoldable pub timer_wrapper : ℤ → TimerNotify → Exec S TimerNotify
  timer_wrapper current_time t =
      let cleared : TimerNotify = record t { last_execute_complete_time = pos 0 } in
      if ltb_ℤ (add_int64 t.last_check_time t.check_interval) current_time
      then (do
        on_timer current_time
        completed ← high_resolution
        pure (record cleared {
          last_check_time = current_time;
          last_execute_complete_time = completed;
        }))
      else pure cleared

module _ {S : Type 0} (on_slow_timer : ℤ → Exec S Unit) (high_resolution : Exec S ℤ) where
  unfoldable pub slow_timer_wrapper : ℤ → TimerNotify → Exec S TimerNotify
  slow_timer_wrapper current_time t =
      let cleared : TimerNotify = record t { last_slow_execute_complete_time = pos 0 } in
      if ltb_ℤ (add_int64 t.last_slow_check_time t.check_interval) current_time
      then (do
        on_slow_timer current_time
        completed ← high_resolution
        pure (record cleared {
          last_slow_check_time = current_time;
          last_slow_execute_complete_time = completed;
        }))
      else pure cleared

unfoldable pub is_expire : TimerNotify → ℤ → Bool
is_expire t time_out = ltb_ℤ time_out (sub_int64 t.last_execute_complete_time t.last_check_time)

unfoldable pub is_slow_expire : TimerNotify → ℤ → Bool
is_slow_expire t time_out =
    ltb_ℤ time_out (sub_int64 t.last_slow_execute_complete_time t.last_slow_check_time)

module _ {S : Type 0} (on_timer : ℤ → Exec S Unit) (high_resolution : Exec S ℤ) where
  -- If a call at `now` is due, that is, more than the interval after the last check, and its handler and
  -- clock return, then it records `now` as the last check, and a call at `later` that comes no more than
  -- the interval after `now` does not run the handler and leaves the rest of the state as it is.
  pub timer_wrapper_twice :
      (now later completed : ℤ) (t : TimerNotify) (s s₁ s₂ : S)
      → ltb_ℤ (add_int64 t.last_check_time t.check_interval) now ≡ true
      → on_timer now s ≡ done (tt, s₁)
      → high_resolution s₁ ≡ done (completed, s₂)
      → ltb_ℤ (add_int64 now t.check_interval) later ≡ false
      → (timer_wrapper on_timer high_resolution now t
            >>= timer_wrapper on_timer high_resolution later)
          s
        ≡ done (record t { last_check_time = now; last_execute_complete_time = pos 0 }, s₂)
  unfolding timer_wrapper ◌>>=◌
  timer_wrapper_twice now later completed t s s₁ s₂ due ran read early =
      rw due (rw ran (rw read (rw early)))
