-- ===== src/Runtime/Cycle.antt =====
-- `AgentRuntime.replay`, `.run_cycle`, `._enqueue` and `._log_delivery` of monitor_agent/runtime.py.
use employee_tracker.Common.{
  ℕ, String, Bool, true, false, Option, none, some, List, [], ◌∷◌, key_error, take, if◌then◌else◌,
}
use employee_tracker.Config.{FilePath}
use employee_tracker.Models.{
  Fields, get_field, as_string, DeliveryResult, CycleResult, success, permanent,
}
use employee_tracker.Runtime.World.{
  corrupt, delivery, deferred, pending_call, enforce_call, load_call, ack_call, reject_call,
  send_call, enqueue_call, collect_call, pending, load, ack, reject, enforce_retention, enqueue,
  send, collect, World, Run, pure, throw, ask, write_log, ◌>>=◌, ◌>>◌, try_finally,
}

-- `cast(str, payload["event_id"])`. `Spool.load` and `build_payload` give payloads with a text here.
abbrev event_id_of : Fields → Run String
event_id_of payload = elim (get_field "event_id" payload) [
  | none ↦ throw (record { class = key_error; message = "event_id" })
  | some value ↦ elim (as_string value) [ none ↦ pure "" | some s ↦ pure s ]
]

unfoldable pub log_delivery : String → DeliveryResult → Run (Unit {0})
log_delivery event_id result = elim result.kind [
  | success ↦ pure tt
  | kind ↦ write_log (delivery event_id kind result.status_code)
]

module _ (w : World) where
  abbrev pub enforce : Run (Unit {0})
  enforce = ask enforce_call w.retain (λ _. enforce_retention)

  -- `Spool.enqueue` and then `Spool.enforce_retention`
  unfoldable pub enqueue_payload : Fields → Run (Unit {0})
  enqueue_payload payload =
      ask (enqueue_call payload) (λ h. w.add_record h payload) (λ _. enqueue payload) >> enforce

  abbrev ask_load : FilePath → Run (Option Fields)
  ask_load r = ask (load_call r) (λ h. w.load_record h r) (load r)

  abbrev ask_send : Fields → Run DeliveryResult
  ask_send p = ask (send_call p) (λ h. w.deliver h p) (send p)

  abbrev ask_ack : FilePath → Run (Unit {0})
  ask_ack r = ask (ack_call r) (λ h. w.ack_record h r) (λ _. ack r)

  abbrev ask_reject : FilePath → Run (Unit {0})
  ask_reject r = ask (reject_call r) (λ h. w.reject_record h r) (λ _. reject r)

  -- One record of the batch; the answer says whether the loop goes on.
  unfoldable pub replay_record : FilePath → Run Bool
  unfolding log_delivery
  replay_record r = ask_load r >>= λ loaded. elim loaded [
    | none ↦ do write_log corrupt; pure true
    | some payload ↦ do
      result ← ask_send payload
      event_id ← event_id_of payload
      log_delivery event_id result
      elim result.kind [
        | success ↦ do ask_ack r; pure true
        | permanent ↦ do ask_reject r; pure true
        | _ ↦ pure false
      ]
  ]

  -- The `for` loop over the batch.
  unfoldable pub replay_batch : List FilePath → Run (Unit {0})
  unfolding replay_record
  replay_batch [] = pure tt
  replay_batch (r ∷ rest) =
      let more = replay_batch rest in
      replay_record r >>= λ go_on. elim go_on [ true ↦ more | false ↦ pure tt ]

  abbrev pub ask_pending : Run (List FilePath)
  ask_pending = ask pending_call w.pending_records pending

  abbrev pub is_empty : List FilePath → Bool
  is_empty [] = true
  is_empty (r ∷ rs) = false

  unfoldable pub replay : ℕ → Run Bool
  unfolding replay_batch
  replay batch_size = do
    records ← ask_pending
    try_finally (replay_batch (take batch_size records)) enforce
    left ← ask_pending
    pure (is_empty left)

  -- The end of `run_cycle`, from the live delivery on.
  unfoldable pub deliver_live : String → Fields → Run CycleResult
  unfolding log_delivery enqueue_payload
  deliver_live event_id payload = do
    result ← ask_send payload
    log_delivery event_id result
    elim result.kind [
      | success ↦ pure (record {
        event_id = event_id;
        delivered = true;
        spooled = false;
        delivery_kind = some success;
      })
      | permanent ↦ pure (record {
        event_id = event_id;
        delivered = false;
        spooled = false;
        delivery_kind = some permanent;
      })
      | kind ↦ do
        enqueue_payload payload
        pure (record {
          event_id = event_id;
          delivered = false;
          spooled = true;
          delivery_kind = some kind;
        })
    ]

  unfoldable pub defer_live : String → Fields → Run CycleResult
  unfolding enqueue_payload
  defer_live event_id payload = do
    enqueue_payload payload
    write_log (deferred event_id)
    pure (record { event_id = event_id; delivered = false; spooled = true; delivery_kind = none })

  -- `run_cycle` from the replay on.
  unfoldable pub after_replay : ℕ → String → Fields → Run CycleResult
  after_replay batch_size event_id payload = do
    empty ← replay batch_size
    if empty then deliver_live event_id payload else defer_live event_id payload

  unfoldable pub run_cycle : ℕ → String → Run CycleResult
  run_cycle batch_size event = do
    payload ← ask (collect_call event) (λ h. w.collect_payload h event) (collect event)
    event_id ← event_id_of payload
    after_replay batch_size event_id payload
