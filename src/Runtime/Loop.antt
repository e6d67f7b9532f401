-- ===== src/Runtime/Loop.antt =====
-- `AgentRuntime.__init__`, `.run`, `._run_loop` and `.request_stop` of monitor_agent/runtime.py.
-- Times are floats, in seconds.
use employee_tracker.Common.{
  ℕ, zero, suc, String, Bool, true, false, Result, ok, err, raise, raise_if, value_error, List, ◌∷◌,
  Option, none, some, if◌then◌else◌,
}
use employee_tracker.Common
use employee_tracker.Common.Int.{pos, leb_ℤ, ltb_ℤ}
use employee_tracker.Config.{AgentConfig}
use employee_tracker.Models.{Float}
use employee_tracker.Floats.{FloatOps, float_max}
use employee_tracker.Runtime.World.{
  close_call, close, wait, is_set, monotonic, set_stop, World, Run, pure, ask, observe, ◌>>=◌, ◌>>◌,
}
use employee_tracker.Runtime.Cycle.{run_cycle}

-- The guards of the constructor.
unfoldable pub check_config : AgentConfig → Result (Unit {0})
check_config c =
    Common.◌>>◌
      (raise_if (leb_ℤ c.heartbeat_sec (pos 0)) value_error "heartbeat_sec must be positive")
      (Common.◌>>◌
        (raise_if (ltb_ℤ c.startup_delay_sec (pos 0)) value_error
          "startup_delay_sec must be non-negative")
        (raise_if (leb_ℤ c.replay_batch_size (pos 0)) value_error
          "replay_batch_size must be positive"))

-- The settings that the loop reads, once `check_config` has passed: `float` of the two times in
-- seconds, and a number of records.
pub record Schedule : Type 0 where
  pub startup_delay : Float
  pub interval : Float
  pub batch_size : ℕ

-- `out_of_fuel` is no exit of the program: the loop is still running.
pub data Exit : Type 0 where
  stopped out_of_fuel : Exit

-- `while next_deadline <= now: next_deadline += interval`; `none` says that the search is still
-- running.
unfoldable pub catch_up : FloatOps → ℕ → Float → Float → Float → Option Float
catch_up f zero interval now next_deadline = none
catch_up f (suc fuel) interval now next_deadline =
    let later = catch_up f fuel interval now (f.add next_deadline interval) in
    if f.le next_deadline now then later else some next_deadline

module _ (w : World) (s : Schedule) where
  abbrev ask_is_set : Run Bool
  ask_is_set = observe w.stop_is_set is_set

  abbrev ask_wait : Float → Run Bool
  ask_wait t = observe (λ h. w.stop_wait h t) (wait t)

  abbrev ask_time : Run Float
  ask_time = observe w.time monotonic

  -- A cycle, unless the stop event is set before it; the answer says that it is set before or
  -- after the cycle.
  unfoldable pub guarded_cycle : String → Run Bool
  guarded_cycle event = do
    before ← ask_is_set
    if before then pure true else (do run_cycle w s.batch_size event; ask_is_set)

  -- `max(0.0, next_deadline - now)`
  abbrev pub remaining : Float → Float → Float
  remaining next_deadline now =
      float_max w.floats (w.floats.tenths 0) (w.floats.sub next_deadline now)

  -- One round of the `while True` loop: whether the loop returns, and else the next deadline, which the
  -- search has two steps more to find than the clock shows seconds.
  unfoldable pub heartbeat : Float → Run (Bool × Option Float)
  heartbeat next_deadline = do
    now ← ask_time
    woken ← ask_wait (remaining next_deadline now)
    if woken then pure (true, none) else (do
      stop ← guarded_cycle "heartbeat"
      if stop then pure (true, none) else (do
        now' ← ask_time
        pure (
          false,
          catch_up w.floats (suc (suc (w.floats.whole now'))) s.interval now' next_deadline,
        )))

  -- What follows a round.
  abbrev pub after_heartbeat : (Float → Run Exit) → Bool × Option Float → Run Exit
  after_heartbeat next (true, later) = pure stopped
  after_heartbeat next (false, none) = pure out_of_fuel
  after_heartbeat next (false, some later) = next later

  unfoldable pub heartbeats : ℕ → Float → Run Exit
  heartbeats zero next_deadline = pure out_of_fuel
  heartbeats (suc fuel) next_deadline =
      heartbeat next_deadline >>= λ r. after_heartbeat (heartbeats fuel) r

  unfoldable pub run_loop : ℕ → Run Exit
  run_loop fuel = do
    set ← ask_is_set
    if set then pure stopped else (do
      woken ← ask_wait s.startup_delay
      if woken then pure stopped else (do
        stop ← guarded_cycle "startup"
        if stop
            then pure stopped
            else (do now ← ask_time; heartbeats fuel (w.floats.add now s.interval))))

  abbrev ask_close : Run (Unit {0})
  ask_close = ask close_call w.close_transport (λ _. close)

  -- What `run` does once the loop is left.
  unfoldable pub leave : Result Exit → Run Exit
  leave (err e) h = (err e, (ask_close h).1)
  leave (ok out_of_fuel) h = (ok out_of_fuel, h)
  leave (ok stopped) h = (ask_close >> pure stopped) h

  unfoldable pub run : ℕ → Run Exit
  run fuel h = let (r, h') = run_loop fuel h in leave r h'

  unfoldable pub request_stop : Run (Unit {0})
  request_stop = do set ← ask_is_set; if set then pure tt else (λ h. (ok tt, set_stop ∷ h))
