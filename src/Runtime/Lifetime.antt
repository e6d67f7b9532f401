-- ===== src/Runtime/Lifetime.antt =====
-- What holds over the whole life of the agent, from start to exit.
use employee_tracker.Common.{
  ℕ, zero, suc, String, Bool, true, false, ◌∷◌, Result, ok, err, Error, arith, Result-cases, none,
  some, inl, inr,
}
use employee_tracker.Models.{Float}
use employee_tracker.Runtime.World.{
  close_call, failed, is_set, wait, monotonic, close, History, World,
}
use employee_tracker.Runtime.Cycle.{run_cycle}
use employee_tracker.Runtime.Loop.{
  Schedule, Exit, stopped, out_of_fuel, guarded_cycle, heartbeat, heartbeats, run_loop, leave, run,
}

-- A property of histories that every step of the loop keeps.
pub record Kept (w : World) (s : Schedule) (P : History → Type 0) : Type 0 where
  pub on_wait : (t : Float) (b : Bool) (h : History) → P h → P (wait t b ∷ h)
  pub on_is_set : (b : Bool) (h : History) → P h → P (is_set b ∷ h)
  pub on_monotonic : (t : Float) (h : History) → P h → P (monotonic t ∷ h)
  pub on_close : (h : History) → P h → P (close ∷ h)
  pub on_failed_close : (e : Error) (h : History) → P h → P (failed close_call e ∷ h)
  pub on_cycle :
      (event : String) (h : History)
      → P (is_set false ∷ h)
      → P (run_cycle w s.batch_size event (is_set false ∷ h)).1

module _ (w : World) (s : Schedule) (P : History → Type 0) (k : Kept w s P) where
  guarded_cycle-keeps : (event : String) (h : History) → P h → P (guarded_cycle w s event h).1
  unfolding guarded_cycle
  guarded_cycle-keeps event h p = grind (arith, k.on_is_set, k.on_cycle event h)

  heartbeat-keeps : (d : Float) (h : History) → P h → P (heartbeat w s d h).1
  unfolding heartbeat
  heartbeat-keeps d h p = grind (arith, guarded_cycle-keeps, k.on_wait, k.on_monotonic)

  heartbeats-keeps : (fuel : ℕ) (d : Float) (h : History) → P h → P (heartbeats w s fuel d h).1
  unfolding heartbeats
  heartbeats-keeps zero d h p = p
  heartbeats-keeps (suc fuel) d h p =
      let kept = heartbeat-keeps d h p in
      elim (Result-cases (heartbeat w s d h).0) [
        | inr (e, bad) ↦ ground (arith, kept)
        | inl ((true, later), good) ↦ ground (arith, kept)
        | inl ((false, none), good) ↦ ground (arith, kept)
        | inl ((false, some later), good) ↦
            ground (arith, kept, heartbeats-keeps fuel later (heartbeat w s d h).1)
      ]

  run_loop-keeps : (fuel : ℕ) (h : History) → P h → P (run_loop w s fuel h).1
  unfolding run_loop
  run_loop-keeps fuel h p =
      grind (arith, guarded_cycle-keeps, heartbeats-keeps, k.on_wait, k.on_monotonic, k.on_is_set)

  leave-keeps : (r : Result Exit) (h : History) → P h → P (leave w s r h).1
  unfolding leave
  leave-keeps (err e) h p = grind (arith, k.on_close, k.on_failed_close)
  leave-keeps (ok out_of_fuel) h p = p
  leave-keeps (ok stopped) h p = grind (arith, k.on_close, k.on_failed_close)

  pub run-keeps : (fuel : ℕ) (h : History) → P h → P (run w s fuel h).1
  unfolding run
  run-keeps fuel h p =
      leave-keeps (run_loop w s fuel h).0 (run_loop w s fuel h).1 (run_loop-keeps fuel h p)
