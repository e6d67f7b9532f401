-- ===== src/Runtime/Grows.antt =====
-- A cycle only adds events: what every event keeps, a cycle keeps.
use employee_tracker.Common.{ℕ, String, List, [], ◌∷◌, arith}
use employee_tracker.Config.{FilePath}
use employee_tracker.Models.{Fields}
use employee_tracker.Runtime.World.{Event, History, World}
use employee_tracker.Runtime.Cycle.{
  replay_record, replay_batch, replay, deliver_live, defer_live, after_replay, run_cycle,
}

module _ (w : World) (P : History → Type 0)
    (add : (e : Event) (h : History) → P h → P (e ∷ h)) where
  replay_record-grows : (r : FilePath) (h : History) → P h → P (replay_record w r h).1
  unfolding replay_record
  replay_record-grows r h p = grind (arith, add)

  replay_batch-grows : (rs : List FilePath) (h : History) → P h → P (replay_batch w rs h).1
  unfolding replay_batch
  replay_batch-grows [] h p = p
  replay_batch-grows (r ∷ rs) h p =
      ground (arith, replay_record-grows r h p, replay_batch-grows rs (replay_record w r h).1)

  replay-grows : (n : ℕ) (h : History) → P h → P (replay w n h).1
  unfolding replay
  replay-grows n h p = grind (arith, add, replay_batch-grows)

  deliver_live-grows : (id : String) (p : Fields) (h : History) → P h → P (deliver_live w id p h).1
  unfolding deliver_live
  deliver_live-grows id p h j = grind (arith, add)

  defer_live-grows : (id : String) (p : Fields) (h : History) → P h → P (defer_live w id p h).1
  unfolding defer_live
  defer_live-grows id p h j = grind (arith, add)

  after_replay-grows :
      (n : ℕ) (id : String) (p : Fields) (h : History) → P h → P (after_replay w n id p h).1
  unfolding after_replay
  after_replay-grows n id p h j = grind (arith, replay-grows, deliver_live-grows, defer_live-grows)

  pub run_cycle-grows : (n : ℕ) (event : String) (h : History) → P h → P (run_cycle w n event h).1
  unfolding run_cycle
  run_cycle-grows n event h j = grind (arith, add, after_replay-grows)
