-- ===== src/Runtime/Shutdown.antt =====
-- The life of the agent: why records leave the queue, when a cycle starts, and how the run ends.
use employee_tracker.Common.{
  ℕ, zero, suc, Option, none, some, ◌+◌, ◌≤◌, ◌<◌, ◌≡◌, ◌≢◌, String, true, false, List, [], ◌∷◌, ok,
  err, Error, arith, take, Result-cases, inl, inr,
}
use native.Mathlib.Decide.{ℕ_discrete}
use employee_tracker.Config.{FilePath}
use employee_tracker.Models.{Fields}
use employee_tracker.Models.{Float}
use employee_tracker.Floats.{ClockLaws}
use employee_tracker.Runtime.Deadlines.{IsTime, IsInterval, catch_up-Caught}
use employee_tracker.Runtime.World.{
  pending, close_call, collect_call, Event, collect, failed, is_set, wait, monotonic, close,
  History, World,
}
use employee_tracker.Runtime.Cycle.{
  replay_record, replay_batch, replay, deliver_live, defer_live, after_replay, run_cycle,
}
use employee_tracker.Runtime.Loop.{
  Schedule, stopped, out_of_fuel, guarded_cycle, heartbeat, heartbeats, run_loop, leave, run,
  remaining,
}
use employee_tracker.Runtime.Acknowledged.{Justified, run_cycle-Justified}
use employee_tracker.Runtime.Order.{InTurn, run_cycle-InTurn}
use employee_tracker.Runtime.Grows.{run_cycle-grows}
use employee_tracker.Runtime.Lifetime.{Kept, run-keeps}

-- The stop event has just been seen clear.
abbrev pub SeenClear : History → Type 0
SeenClear (is_set false ∷ h) = Unit
SeenClear h = ⊥

-- Every collection began right after the stop event was seen clear.
abbrev pub StartsClear : History → Type 0
StartsClear [] = Unit
StartsClear (collect e p ∷ h) = SeenClear h × StartsClear h
StartsClear (failed (collect_call e) x ∷ h) = SeenClear h × StartsClear h
StartsClear (e ∷ h) = StartsClear h

-- The newest event is the closing of the transport, or its failure.
abbrev pub Closed : History → Type 0
Closed (close ∷ h) = Unit
Closed (failed close_call e ∷ h) = Unit
Closed h = ⊥

-- The waits for the stop event so far.
abbrev pub waits : History → ℕ
waits [] = 0
waits (wait t b ∷ h) = suc (waits h)
waits (e ∷ h) = waits h

waits-grow : (n : ℕ) (e : Event) (h : History) → n ≤ waits h → n ≤ waits (e ∷ h)
waits-grow n (wait t b) h le = omega arith
waits-grow n e h le = le

module _ (w : World) where
  replay_record-StartsClear :
      (r : FilePath) (h : History) → StartsClear h → StartsClear (replay_record w r h).1
  unfolding replay_record
  replay_record-StartsClear r h j = ground arith

  replay_batch-StartsClear :
      (rs : List FilePath) (h : History) → StartsClear h → StartsClear (replay_batch w rs h).1
  unfolding replay_batch
  replay_batch-StartsClear [] h j = j
  replay_batch-StartsClear (r ∷ rs) h j =
      ground (
        arith,
        replay_record-StartsClear r h j,
        replay_batch-StartsClear rs (replay_record w r h).1,
      )

  replay-StartsClear : (n : ℕ) (h : History) → StartsClear h → StartsClear (replay w n h).1
  unfolding replay
  replay-StartsClear n h j = elim (Result-cases (w.pending_records h)) [
    | inr (e, bad) ↦ ground arith
    | inl (rs, good) ↦ ground (arith, replay_batch-StartsClear (take n rs) (pending rs ∷ h) j)
  ]

  deliver_live-StartsClear :
      (id : String) (p : Fields) (h : History)
      → StartsClear h
      → StartsClear (deliver_live w id p h).1
  unfolding deliver_live
  deliver_live-StartsClear id p h j = ground arith

  defer_live-StartsClear :
      (id : String) (p : Fields) (h : History) → StartsClear h → StartsClear (defer_live w id p h).1
  unfolding defer_live
  defer_live-StartsClear id p h j = ground arith

  after_replay-StartsClear :
      (n : ℕ) (id : String) (p : Fields) (h : History)
      → StartsClear h
      → StartsClear (after_replay w n id p h).1
  unfolding after_replay
  after_replay-StartsClear n id p h j = ground (
    arith,
    replay-StartsClear n h j,
    deliver_live-StartsClear id p (replay w n h).1,
    defer_live-StartsClear id p (replay w n h).1,
  )

  run_cycle-StartsClear :
      (n : ℕ) (event : String) (h : History)
      → SeenClear h
      → StartsClear h
      → StartsClear (run_cycle w n event h).1
  unfolding run_cycle
  run_cycle-StartsClear n event h c j = grind (arith, after_replay-StartsClear)

module _ (w : World) (s : Schedule) where
  Justified-Kept : Kept w s Justified
  Justified-Kept = record {
    on_wait = λ t b h j. j;
    on_is_set = λ b h j. j;
    on_monotonic = λ t h j. j;
    on_close = λ h j. j;
    on_failed_close = λ e h j. j;
    on_cycle = λ event h j. run_cycle-Justified w s.batch_size event (is_set false ∷ h) j;
  }

  InTurn-Kept : Kept w s InTurn
  InTurn-Kept = record {
    on_wait = λ t b h j. j;
    on_is_set = λ b h j. j;
    on_monotonic = λ t h j. j;
    on_close = λ h j. j;
    on_failed_close = λ e h j. j;
    on_cycle = λ event h j. run_cycle-InTurn w s.batch_size event (is_set false ∷ h) j;
  }

  StartsClear-Kept : Kept w s StartsClear
  StartsClear-Kept = record {
    on_wait = λ t b h j. j;
    on_is_set = λ b h j. j;
    on_monotonic = λ t h j. j;
    on_close = λ h j. j;
    on_failed_close = λ e h j. j;
    on_cycle = λ event h j. run_cycle-StartsClear w s.batch_size event (is_set false ∷ h) tt j;
  }

  -- Over the whole life of the agent, however it ends, every record that was acknowledged had been
  -- loaded and delivered right before, and every record that was rejected had been loaded and
  -- refused for good right before.
  pub run-Justified : (fuel : ℕ) → Justified (run w s fuel []).1
  run-Justified fuel = run-keeps w s Justified Justified-Kept fuel [] tt

  -- Over the whole life of the agent every record is loaded right behind the listing of the
  -- backlog, or behind a record that was acknowledged, rejected or quarantined: a delivery that
  -- was retriable or failed authentication ends its batch.
  pub run-InTurn : (fuel : ℕ) → InTurn (run w s fuel []).1
  run-InTurn fuel = run-keeps w s InTurn InTurn-Kept fuel [] tt

  -- Every cycle starts right after the stop event was seen clear: after a request to stop that the
  -- loop has seen, nothing is collected.
  pub run-StartsClear : (fuel : ℕ) → StartsClear (run w s fuel []).1
  run-StartsClear fuel = run-keeps w s StartsClear StartsClear-Kept fuel [] tt

  -- However the loop is left, by a stop or by an exception, the transport is closed last; an
  -- exception of the loop is passed on, also where closing fails.
  pub run-Closed :
      (fuel : ℕ) (h : History)
      → (run w s fuel h).0 ≢ ok out_of_fuel
      → Closed (run w s fuel h).1
        × ((e : Error) → (run_loop w s fuel h).0 ≡ err e → (run w s fuel h).0 ≡ err e)
  unfolding run leave
  run-Closed fuel h ends = elim (Result-cases (run_loop w s fuel h).0) [
    | inr (e, bad) ↦ (ground arith, λ e' same. ground arith)
    | inl (stopped, good) ↦ (ground arith, λ e' same. ground arith)
    | inl (out_of_fuel, good) ↦ absurd (ends (ground arith))
  ]

  -- The stop event wakes the loop at the latest in its n-th wait.
  abbrev pub StopsBy : ℕ → Type 0
  StopsBy n = (h : History) (t : Float) → n ≤ waits h + 1 → w.stop_wait h t ≡ true

  guarded_cycle-waits :
      (event : String) (h : History) (n : ℕ) → n ≤ waits h → n ≤ waits (guarded_cycle w s event h).1
  unfolding guarded_cycle
  guarded_cycle-waits event h n le = ground (
    arith,
    run_cycle-grows w (λ (h' : History). n ≤ waits h') (waits-grow n) s.batch_size event
        (is_set false ∷ h) le,
  )

  -- What has happened when a round has waited.
  abbrev waited : Float → History → History
  waited d h =
      let h' : History = monotonic (w.time h) ∷ h in
      let left = remaining w s d (w.time h) in wait left (w.stop_wait h' left) ∷ h'

  heartbeat-waits :
      (d : Float) (later : Option Float) (h : History)
      → (heartbeat w s d h).0 ≡ ok (false, later)
      → waits h + 1 ≤ waits (heartbeat w s d h).1
  unfolding heartbeat
  heartbeat-waits d later h e =
      ground (arith, guarded_cycle-waits "heartbeat" (waited d h) (waits h + 1))

  heartbeat_wakes :
      (n : ℕ) (d : Float) (later : Option Float) (h : History)
      → StopsBy n
      → n ≤ waits h + 1
      → (heartbeat w s d h).0 ≢ ok (false, later)
  unfolding heartbeat
  heartbeat_wakes n d later h stops late =
      let now = w.time h in ground (arith, stops (monotonic now ∷ h) (remaining w s d now) late)

  -- Every reading of the clock is a time, and the interval is one that a configuration allows.
  pub record Ticks : Type 0 where
    pub times : (h : History) → IsTime w.floats (w.time h)
    pub is_interval : IsInterval w.floats s.interval

  heartbeat-later :
      (d : Float) (later : Option Float) (h : History)
      → ClockLaws w.floats
      → Ticks
      → w.floats.le (w.floats.tenths 0) d ≡ true
      → (heartbeat w s d h).0 ≡ ok (false, later)
      → (next : Float) × (later ≡ some next) × (w.floats.le (w.floats.tenths 0) next ≡ true)
  unfolding heartbeat
  heartbeat-later d later h laws ticks nonneg e =
      let now = w.time (guarded_cycle w s "heartbeat" (waited d h)).1 in
      let (next, found, caught) =
        catch_up-Caught w.floats laws s.interval now ticks.is_interval
          (ticks.times (guarded_cycle w s "heartbeat" (waited d h)).1) d nonneg in
      (next, ground (arith, found), caught.nonneg)

  heartbeats_end :
      (n fuel : ℕ) (d : Float) (h : History)
      → ClockLaws w.floats
      → Ticks
      → w.floats.le (w.floats.tenths 0) d ≡ true
      → StopsBy n
      → 0 < fuel
      → n ≤ waits h + fuel
      → (heartbeats w s fuel d h).0 ≢ ok out_of_fuel
  unfolding heartbeats
  heartbeats_end n zero d h laws ticks nonneg stops some_fuel enough = absurd (omega arith)
  heartbeats_end n (suc fuel) d h laws ticks nonneg stops some_fuel enough =
      elim (Result-cases (heartbeat w s d h).0) [
        | inr (e, bad) ↦ ground arith
        | inl ((true, later), good) ↦ ground arith
        | inl ((false, none), good) ↦
            let (next, found, ahead) = heartbeat-later d none h laws ticks nonneg good in cc
        | inl ((false, some later), good) ↦ elim (ℕ_discrete fuel 0) [
          | yes none_left ↦ absurd (heartbeat_wakes n d (some later) h stops (omega arith) good)
          | no some_left ↦
              let more = heartbeat-waits d (some later) h good in
              let (next, found, ahead) = heartbeat-later d (some later) h laws ticks nonneg good in
              let nonneg' : w.floats.le (w.floats.tenths 0) later ≡ true = ground arith in
              ground (
                arith,
                heartbeats_end n fuel later (heartbeat w s d h).1 laws ticks nonneg' stops
                    (omega arith) (omega (arith, more)),
              )
        ]
      ]

  heartbeats_end_anywhere :
      (n fuel : ℕ) (laws : ClockLaws w.floats) (ticks : Ticks) (stops : StopsBy n)
      (some_fuel : 0 < fuel) (enough : n ≤ fuel) (now h : History)
      → (heartbeats w s fuel (w.floats.add (w.time now) s.interval) h).0 ≢ ok out_of_fuel
  heartbeats_end_anywhere n fuel laws ticks stops some_fuel enough now h =
      heartbeats_end n fuel (w.floats.add (w.time now) s.interval) h laws ticks
        (laws.add_nonneg (w.time now) s.interval (ticks.times now).nonneg
          ticks.is_interval.a_second)
        stops some_fuel (omega arith)

  run_loop_ends :
      (n fuel : ℕ) (h : History)
      → ClockLaws w.floats
      → Ticks
      → StopsBy n
      → 0 < fuel
      → n ≤ fuel
      → (run_loop w s fuel h).0 ≢ ok out_of_fuel
  unfolding run_loop
  run_loop_ends n fuel h laws ticks stops some_fuel enough =
      grind (arith, heartbeats_end_anywhere n fuel laws ticks stops some_fuel enough)

  -- The agent shuts down: if the stop event wakes the loop at the latest in its n-th wait, n rounds
  -- of the loop, and one at least, suffice for it to end, for a clock below 2 ** 52 seconds and an
  -- interval from one second to a day, by the named facts of float arithmetic.
  pub run_ends :
      (n fuel : ℕ) (h : History)
      → ClockLaws w.floats
      → Ticks
      → StopsBy n
      → 0 < fuel
      → n ≤ fuel
      → (run w s fuel h).0 ≢ ok out_of_fuel
  unfolding run leave
  run_ends n fuel h laws ticks stops some_fuel enough =
      elim (Result-cases (run_loop w s fuel h).0) [
        | inr (e, bad) ↦ ground arith
        | inl (stopped, good) ↦ ground arith
        | inl (out_of_fuel, good) ↦
            absurd (run_loop_ends n fuel h laws ticks stops some_fuel enough good)
      ]
