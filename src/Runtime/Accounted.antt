-- ===== src/Runtime/Accounted.antt =====
-- What a cycle reports of its live event is what it did with it.
use employee_tracker.Common.{
  ℕ, String, ◌≡◌, Bool, true, false, Option, none, some, [], ◌∷◌, ok, arith, Result-cases, inl, inr,
}
use employee_tracker.Models.{
  Fields, DeliveryKind, CycleResult, success, retriable, authentication, permanent,
}
use employee_tracker.Runtime.World.{pending, enforce_retention, enqueue, send, log, History, World}
use employee_tracker.Runtime.Cycle.{replay, deliver_live, defer_live, after_replay, run_cycle}

-- The backlog has just been listed, and it is empty or not.
abbrev pub Listed : Bool → History → Type 0
Listed true (pending [] ∷ h) = Unit
Listed false (pending (r ∷ rs) ∷ h) = Unit
Listed b h = ⊥

-- The payload was sent right behind an empty listing, and the answer was of this kind.
abbrev pub SentLive : Fields → DeliveryKind → History → Type 0
SentLive p k (send q d ∷ h) = (q ≡ p) × (d.kind ≡ k) × Listed true h
SentLive p k h = ⊥

abbrev pub Logged : (History → Type 0) → History → Type 0
Logged P (log l ∷ h) = P h
Logged P h = ⊥

-- The payload went into the spool, and then retention was enforced.
abbrev pub Queued : Fields → (History → Type 0) → History → Type 0
Queued p P (enforce_retention ∷ enqueue q ∷ h) = (q ≡ p) × P h
Queued p P h = ⊥

-- The report of a cycle beside the events that it stands for, the newest first.
abbrev Reports : Bool → Bool → Option DeliveryKind → Fields → History → Type 0
Reports true false (some success) p h = SentLive p success h
Reports false true (some retriable) p h = Queued p (Logged (SentLive p retriable)) h
Reports false true (some authentication) p h = Queued p (Logged (SentLive p authentication)) h
Reports false false (some permanent) p h = Logged (SentLive p permanent) h
Reports false true none p h = Logged (Queued p (Listed false)) h
Reports _ _ _ p h = ⊥

abbrev pub Accounted : CycleResult → Fields → History → Type 0
Accounted c p h = Reports c.delivered c.spooled c.delivery_kind p h

module _ (w : World) where
  replay-Listed :
      (n : ℕ) (h : History) (b : Bool) → (replay w n h).0 ≡ ok b → Listed b (replay w n h).1
  unfolding replay
  replay-Listed n h b e = ground arith

  deliver_live-Accounted :
      (id : String) (p : Fields) (h : History) (c : CycleResult)
      → Listed true h
      → (deliver_live w id p h).0 ≡ ok c
      → Accounted c p (deliver_live w id p h).1
  unfolding deliver_live
  deliver_live-Accounted id p h c l e = ground arith

  defer_live-Accounted :
      (id : String) (p : Fields) (h : History) (c : CycleResult)
      → Listed false h
      → (defer_live w id p h).0 ≡ ok c
      → Accounted c p (defer_live w id p h).1
  unfolding defer_live
  defer_live-Accounted id p h c l e = ground arith

  after_replay-Accounted :
      (n : ℕ) (id : String) (p : Fields) (h : History) (c : CycleResult)
      → (after_replay w n id p h).0 ≡ ok c
      → Accounted c p (after_replay w n id p h).1
  unfolding after_replay
  after_replay-Accounted n id p h c e = elim (Result-cases (replay w n h).0) [
    | inr (x, bad) ↦ ground arith
    | inl (true, good) ↦
        ground (arith, replay-Listed n h true good, deliver_live-Accounted id p (replay w n h).1 c)
    | inl (false, good) ↦
        ground (arith, replay-Listed n h false good, defer_live-Accounted id p (replay w n h).1 c)
  ]

  -- A cycle that returns has collected a payload, and its report says what became of it: it was
  -- delivered, or refused for good, or queued after a retriable or an authentication failure, each
  -- of these right behind an empty listing of the backlog, or it was queued unsent behind a
  -- backlog that is not empty. There is no other report, so no live event overtakes the backlog
  -- and none is lost without a word.
  pub run_cycle-Accounted :
      (n : ℕ) (event : String) (h : History) (c : CycleResult)
      → (run_cycle w n event h).0 ≡ ok c
      → (p : Fields) × (w.collect_payload h event ≡ ok p) × Accounted c p (run_cycle w n event h).1
  unfolding run_cycle
  run_cycle-Accounted n event h c e = elim (Result-cases (w.collect_payload h event)) [
    | inr (x, bad) ↦ absurd (ground arith)
    | inl (p, good) ↦ (p, good, grind (arith, after_replay-Accounted))
  ]
