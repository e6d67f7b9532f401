-- ===== src/Runtime/Bounded.antt =====
-- How many deliveries a cycle attempts.
use employee_tracker.Common.{
  ℕ, suc, ◌+◌, ◌≤◌, String, List, [], ◌∷◌, arith, take, length, length-take, Result-cases, inl, inr,
}
use employee_tracker.Config.{FilePath}
use employee_tracker.Models.{Fields}
use employee_tracker.Runtime.World.{send_call, pending, send, failed, History, World}
use employee_tracker.Runtime.Cycle.{
  replay_record, replay_batch, replay, deliver_live, defer_live, after_replay, run_cycle,
}

-- The calls of `Transport.send` so far, those that raised included.
abbrev pub sends : History → ℕ
sends [] = 0
sends (send p d ∷ h) = suc (sends h)
sends (failed (send_call p) e ∷ h) = suc (sends h)
sends (e ∷ h) = sends h

module _ (w : World) where
  replay_record-sends : (r : FilePath) (h : History) → sends (replay_record w r h).1 ≤ sends h + 1
  unfolding replay_record
  replay_record-sends r h = ground arith

  replay_batch-sends :
      (rs : List FilePath) (h : History) → sends (replay_batch w rs h).1 ≤ sends h + length rs
  unfolding replay_batch
  replay_batch-sends [] h = omega arith
  replay_batch-sends (r ∷ rs) h =
      ground (arith, replay_record-sends r h, replay_batch-sends rs (replay_record w r h).1)

  replay-sends : (n : ℕ) (h : History) → sends (replay w n h).1 ≤ sends h + n
  unfolding replay
  replay-sends n h = elim (Result-cases (w.pending_records h)) [
    | inr (e, bad) ↦ ground arith
    | inl (rs, good) ↦
        ground (arith, replay_batch-sends (take n rs) (pending rs ∷ h), length-take n rs)
  ]

  deliver_live-sends :
      (id : String) (p : Fields) (h : History) → sends (deliver_live w id p h).1 ≤ sends h + 1
  unfolding deliver_live
  deliver_live-sends id p h = ground arith

  defer_live-sends :
      (id : String) (p : Fields) (h : History) → sends (defer_live w id p h).1 ≤ sends h
  unfolding defer_live
  defer_live-sends id p h = ground arith

  after_replay-sends :
      (n : ℕ) (id : String) (p : Fields) (h : History)
      → sends (after_replay w n id p h).1 ≤ sends h + n + 1
  unfolding after_replay
  after_replay-sends n id p h = ground (
    arith,
    replay-sends n h,
    deliver_live-sends id p (replay w n h).1,
    defer_live-sends id p (replay w n h).1,
  )

  -- A cycle calls the transport at most `replay_batch_size` times for the backlog and once for the
  -- live event, whatever the spool and the server answer.
  pub run_cycle-sends :
      (n : ℕ) (event : String) (h : History) → sends (run_cycle w n event h).1 ≤ sends h + n + 1
  unfolding run_cycle
  run_cycle-sends n event h = grind (arith, after_replay-sends)
