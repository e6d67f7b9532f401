-- ===== src/Runtime/Order.antt =====
-- The order of the backlog: oldest first, without gaps, and not past a delivery that has to wait.
use employee_tracker.Common.{
  ℕ, suc, ◌≤◌, ◌≡◌, refl, true, List, [], ◌∷◌, ok, arith, take, String, length, Result-cases, inl,
  inr, length-take, false,
}
use employee_tracker.Config.{FilePath}
use employee_tracker.Models.{Fields}
use employee_tracker.Runtime.World.{
  corrupt, load_call, pending, load, ack, reject, log, failed, History, World,
}
use employee_tracker.Runtime.Cycle.{
  replay_record, replay_batch, replay, deliver_live, defer_live, after_replay, run_cycle,
}

-- The records that `Spool.load` was called for, the newest first.
abbrev pub loads : History → List FilePath
loads [] = []
loads (load r o ∷ h) = r ∷ loads h
loads (failed (load_call r) e ∷ h) = r ∷ loads h
loads (e ∷ h) = loads h

-- The list, then the records, each in front of what came before it.
abbrev pub push_all : List FilePath → List FilePath → List FilePath
push_all [] seen = seen
push_all (r ∷ rs) seen = push_all rs (r ∷ seen)

-- The newest event lets the batch go on: the list of records has just been read, or the last
-- record was acknowledged, rejected or quarantined.
abbrev pub GoesOn : History → Type 0
GoesOn (pending rs ∷ h) = Unit
GoesOn (ack r ∷ h) = Unit
GoesOn (reject r ∷ h) = Unit
GoesOn (log corrupt ∷ h) = Unit
GoesOn h = ⊥

-- No record is loaded but right behind such an event: never behind a delivery that has to wait.
abbrev pub InTurn : History → Type 0
InTurn [] = Unit
InTurn (load r o ∷ h) = GoesOn h × InTurn h
InTurn (failed (load_call r) e ∷ h) = GoesOn h × InTurn h
InTurn (e ∷ h) = InTurn h

module _ (w : World) where
  replay_record-GoesOn :
      (r : FilePath) (h : History)
      → (replay_record w r h).0 ≡ ok true
      → GoesOn (replay_record w r h).1
  unfolding replay_record
  replay_record-GoesOn r h e = ground arith

  replay_record-InTurn :
      (r : FilePath) (h : History) → GoesOn h → InTurn h → InTurn (replay_record w r h).1
  unfolding replay_record
  replay_record-InTurn r h g t = ground arith

  replay_batch-InTurn :
      (rs : List FilePath) (h : History) → GoesOn h → InTurn h → InTurn (replay_batch w rs h).1
  unfolding replay_batch
  replay_batch-InTurn [] h g t = t
  replay_batch-InTurn (r ∷ rs) h g t = ground (
    arith,
    replay_record-GoesOn r h,
    replay_record-InTurn r h g t,
    replay_batch-InTurn rs (replay_record w r h).1,
  )

  -- Within a replay every record is loaded right behind the listing of the backlog or behind a
  -- record that was acknowledged, rejected or quarantined: a delivery that was retriable or that
  -- failed authentication ends the batch.
  pub replay-InTurn : (n : ℕ) (h : History) → InTurn h → InTurn (replay w n h).1
  unfolding replay
  replay-InTurn n h t = elim (Result-cases (w.pending_records h)) [
    | inr (e, bad) ↦ ground arith
    | inl (rs, good) ↦ ground (arith, replay_batch-InTurn (take n rs) (pending rs ∷ h) tt t)
  ]

  loads-replay_record : (r : FilePath) (h : History) → loads (replay_record w r h).1 ≡ r ∷ loads h
  unfolding replay_record
  loads-replay_record r h = ground arith

  loads-replay_batch :
      (rs : List FilePath) (h : History)
      → (k : ℕ) × (k ≤ length rs) × (loads (replay_batch w rs h).1 ≡ push_all (take k rs) (loads h))
  unfolding replay_batch
  loads-replay_batch [] h = (0, omega arith, refl)
  loads-replay_batch (r ∷ rs) h = elim (Result-cases (replay_record w r h).0) [
    | inr (e, bad) ↦ (1, omega arith, ground (arith, loads-replay_record r h))
    | inl (false, good) ↦ (1, omega arith, ground (arith, loads-replay_record r h))
    | inl (true, good) ↦
        let (k, le, e) = loads-replay_batch rs (replay_record w r h).1 in
        (suc k, omega arith, ground (arith, e, loads-replay_record r h))
  ]

  -- A replay loads the first records of the listed backlog, in that order and without gaps, and no
  -- more than `replay_batch_size` of them.
  pub loads-replay :
      (n : ℕ) (h : History) (rs : List FilePath)
      → w.pending_records h ≡ ok rs
      → (k : ℕ) × (k ≤ n) × (loads (replay w n h).1 ≡ push_all (take k (take n rs)) (loads h))
  unfolding replay
  loads-replay n h rs listed =
      let (k, le, e) = loads-replay_batch (take n rs) (pending rs ∷ h) in
      (k, omega (arith, le, length-take n rs), ground (arith, e))

  deliver_live-InTurn :
      (id : String) (p : Fields) (h : History) → InTurn h → InTurn (deliver_live w id p h).1
  unfolding deliver_live
  deliver_live-InTurn id p h j = ground arith

  defer_live-InTurn :
      (id : String) (p : Fields) (h : History) → InTurn h → InTurn (defer_live w id p h).1
  unfolding defer_live
  defer_live-InTurn id p h j = ground arith

  after_replay-InTurn :
      (n : ℕ) (id : String) (p : Fields) (h : History)
      → InTurn h
      → InTurn (after_replay w n id p h).1
  unfolding after_replay
  after_replay-InTurn n id p h j = ground (
    arith,
    replay-InTurn n h j,
    deliver_live-InTurn id p (replay w n h).1,
    defer_live-InTurn id p (replay w n h).1,
  )

  pub run_cycle-InTurn :
      (n : ℕ) (event : String) (h : History) → InTurn h → InTurn (run_cycle w n event h).1
  unfolding run_cycle
  run_cycle-InTurn n event h j = grind (arith, after_replay-InTurn)
