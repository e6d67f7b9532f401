-- ===== src/Runtime/Acknowledged.antt =====
-- A record leaves the queue only for a reason: it was delivered, or it was refused for good.
use employee_tracker.Common.{ℕ, String, ◌≡◌, some, List, [], ◌∷◌, arith, take}
use employee_tracker.Common.{Result-cases, inl, inr}
use employee_tracker.Config.{FilePath}
use employee_tracker.Models.{Fields, DeliveryKind, success, permanent}
use employee_tracker.Runtime.World.{pending, load, ack, reject, send, log, History, World}
use employee_tracker.Runtime.Cycle.{
  replay_record, replay_batch, replay, deliver_live, defer_live, after_replay, run_cycle,
}

-- The newest events are the loading of `r` and the delivery of what was loaded, which ended so.
abbrev pub Sent : DeliveryKind → FilePath → History → Type 0
Sent k r (send p d ∷ load r' (some p') ∷ h) = (d.kind ≡ k) × (r ≡ r') × (p ≡ p')
Sent k r h = ⊥

abbrev pub LoggedSent : DeliveryKind → FilePath → History → Type 0
LoggedSent k r (log l ∷ h) = Sent k r h
LoggedSent k r h = ⊥

-- Every acknowledged record was loaded and delivered right before, and every rejected one was
-- loaded and refused for good right before.
abbrev pub Justified : History → Type 0
Justified [] = Unit
Justified (ack r ∷ h) = Sent success r h × Justified h
Justified (reject r ∷ h) = LoggedSent permanent r h × Justified h
Justified (e ∷ h) = Justified h

module _ (w : World) where
  replay_record-Justified :
      (r : FilePath) (h : History) → Justified h → Justified (replay_record w r h).1
  unfolding replay_record
  replay_record-Justified r h j = ground arith

  replay_batch-Justified :
      (rs : List FilePath) (h : History) → Justified h → Justified (replay_batch w rs h).1
  unfolding replay_batch
  replay_batch-Justified [] h j = j
  replay_batch-Justified (r ∷ rs) h j =
      ground
        (arith, replay_record-Justified r h j, replay_batch-Justified rs (replay_record w r h).1)

  replay-Justified : (n : ℕ) (h : History) → Justified h → Justified (replay w n h).1
  unfolding replay
  replay-Justified n h j = elim (Result-cases (w.pending_records h)) [
    | inr (e, bad) ↦ ground arith
    | inl (rs, good) ↦ ground (arith, replay_batch-Justified (take n rs) (pending rs ∷ h) j)
  ]

  deliver_live-Justified :
      (id : String) (p : Fields) (h : History) → Justified h → Justified (deliver_live w id p h).1
  unfolding deliver_live
  deliver_live-Justified id p h j = ground arith

  defer_live-Justified :
      (id : String) (p : Fields) (h : History) → Justified h → Justified (defer_live w id p h).1
  unfolding defer_live
  defer_live-Justified id p h j = ground arith

  -- The rest of a cycle whose payload has this event id.
  after_replay-Justified :
      (n : ℕ) (id : String) (p : Fields) (h : History)
      → Justified h
      → Justified (after_replay w n id p h).1
  unfolding after_replay
  after_replay-Justified n id p h j = ground (
    arith,
    replay-Justified n h j,
    deliver_live-Justified id p (replay w n h).1,
    defer_live-Justified id p (replay w n h).1,
  )

  -- A cycle, however it ends, acknowledges only records that it has just loaded and delivered, and
  -- rejects only records that it has just loaded and seen refused for good.
  pub run_cycle-Justified :
      (n : ℕ) (event : String) (h : History) → Justified h → Justified (run_cycle w n event h).1
  unfolding run_cycle
  run_cycle-Justified n event h j = grind (arith, after_replay-Justified)
