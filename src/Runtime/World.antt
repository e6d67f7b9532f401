-- ===== src/Runtime/World.antt =====
-- What `AgentRuntime` talks to: the spool, the transport, the collectors, the stop event and the
-- clock. Each call's answer is a function of all that has happened before it, so the proofs cover
-- every spool, server and schedule of shutdown requests.
use employee_tracker.Common.{String, Bool, Option, List, ◌∷◌, Result, ok, err, Error}
use employee_tracker.Common.Int.{ℤ}
use employee_tracker.Config.{FilePath}
use employee_tracker.Models.{Float, Fields, DeliveryKind, DeliveryResult}
use employee_tracker.Floats.{FloatOps}

pub data LogLine : Type 0 where
  corrupt : LogLine
  delivery : String → DeliveryKind → Option ℤ → LogLine
  deferred : String → LogLine

-- The calls that can raise.
pub data Call : Type 0 where
  pending_call enforce_call close_call : Call
  load_call ack_call reject_call : FilePath → Call
  send_call enqueue_call : Fields → Call
  collect_call : String → Call

-- What happened: a call with its answer, a call that raised, or a line of the log.
pub data Event : Type 0 where
  pending : List FilePath → Event
  load : FilePath → Option Fields → Event
  ack reject : FilePath → Event
  enforce_retention : Event
  enqueue : Fields → Event
  send : Fields → DeliveryResult → Event
  collect : String → Fields → Event
  close : Event
  set_stop : Event
  wait : Float → Bool → Event
  is_set : Bool → Event
  monotonic : Float → Event
  log : LogLine → Event
  failed : Call → Error → Event

-- The newest event first.
abbrev pub History : Type 0
History = List Event

pub record World : Type 0 where
  -- `Spool.pending`, `.load`, `.ack`, `.reject`, `.enforce_retention` and `.enqueue`
  pub pending_records : History → Result (List FilePath)
  pub load_record : History → FilePath → Result (Option Fields)
  pub ack_record : History → FilePath → Result (Unit {0})
  pub reject_record : History → FilePath → Result (Unit {0})
  pub retain : History → Result (Unit {0})
  pub add_record : History → Fields → Result (Unit {0})
  -- `Transport.send` and `.close`
  pub deliver : History → Fields → Result DeliveryResult
  pub close_transport : History → Result (Unit {0})
  -- `collect_all` and `build_payload` for an event of this name
  pub collect_payload : History → String → Result Fields
  -- `StopEvent.wait` for a number of seconds, `StopEvent.is_set`, `time.monotonic` in seconds
  pub stop_wait : History → Float → Bool
  pub stop_is_set : History → Bool
  pub time : History → Float
  -- Python's arithmetic of floats
  pub floats : FloatOps

abbrev pub Run : Type 0 → Type 0
Run A = History → Result A × History

module _ {A : Type 0} where
  abbrev pub pure : A → Run A
  pure a h = (ok a, h)

  abbrev pub throw : Error → Run A
  throw e h = (err e, h)

  -- a call that can raise
  abbrev pub ask : Call → (History → Result A) → (A → Event) → Run A
  ask c q ev h = elim (q h) [ ok a ↦ (ok a, ev a ∷ h) | err e ↦ (err e, failed c e ∷ h) ]

  -- a call that cannot
  abbrev pub observe : (History → A) → (A → Event) → Run A
  observe q ev h = let a = q h in (ok a, ev a ∷ h)

abbrev pub write_log : LogLine → Run (Unit {0})
write_log l h = (ok tt, log l ∷ h)

infixl 5 ◌>>=◌ ◌>>◌
abbrev pub ◌>>=◌ : {A B : Type 0} → Run A → (A → Run B) → Run B
◌>>=◌ m f h = let (r, h') = m h in elim r [ ok a ↦ f a h' | err e ↦ (err e, h') ]

abbrev pub ◌>>◌ : {A B : Type 0} → Run A → Run B → Run B
m >> k = m >>= λ _. k

-- `try: m finally: k`, where what `k` raises takes the place of what `m` did
abbrev pub try_finally : {A : Type 0} → Run A → Run (Unit {0}) → Run A
try_finally m k h =
    let (r, h') = m h in let (q, h'') = k h' in elim q [ ok _ ↦ (r, h'') | err e ↦ (err e, h'') ]
