-- ===== src/Tests/Agent.antt =====
-- A run of the agent with one record in the backlog, and the properties of the cycle and the loop.
use employee_tracker.Common.{
  le→leb, ℕ, ◌≤◌, ◌+◌, ◌≡◌, ◌≢◌, refl, true, false, some, List, [], ◌∷◌, ok, Error, err, leb, take,
  arith,
}
use employee_tracker.Common.Int.{pos}
use employee_tracker.Models.{Float}
use employee_tracker.Tests.Numbers.{numbers, numbers_clock}
use employee_tracker.Config.{FilePath}
use employee_tracker.Models.{
  get_field, as_string, Fields, field, end, str, success, DeliveryResult, CycleResult,
}
use employee_tracker.Runtime.World.{World, History, ack}
use employee_tracker.Runtime.Cycle.{
  replay, run_cycle, replay_batch, replay_record, log_delivery, deliver_live, defer_live,
  after_replay, enqueue_payload,
}
use employee_tracker.Runtime.Loop.{Schedule, catch_up, run, run_loop, out_of_fuel}
use employee_tracker.Runtime.Acknowledged.{Justified, run_cycle-Justified}
use employee_tracker.Runtime.Bounded.{sends, run_cycle-sends}
use employee_tracker.Runtime.Order.{InTurn, replay-InTurn, loads, push_all, loads-replay}
use employee_tracker.Runtime.Accounted.{Accounted, run_cycle-Accounted}
use employee_tracker.Runtime.Deadlines.{IsTime, IsInterval, Caught, catch_up-Caught}
use employee_tracker.Runtime.Shutdown.{
  Closed, StartsClear, Ticks, StopsBy, waits, run-Justified, run-InTurn, run-StartsClear,
  run-Closed, run_ends,
}

abbrev event_payload : Fields
event_payload = field "event_id" (str "e1") end

abbrev accepted : DeliveryResult
accepted = record { kind = success; status_code = some (pos 200); attempts = 1; message = "" }

-- The backlog is empty once its record was acknowledged.
abbrev backlog : History → List FilePath
backlog [] = "a.json" ∷ []
backlog (ack r ∷ h) = []
backlog (e ∷ h) = backlog h

-- The second wait sees the request to stop.
abbrev world : World
world = record {
  pending_records = λ h. ok (backlog h);
  load_record = λ h r. ok (some event_payload);
  ack_record = λ h r. ok tt;
  reject_record = λ h r. ok tt;
  retain = λ h. ok tt;
  add_record = λ h p. ok tt;
  deliver = λ h p. ok accepted;
  close_transport = λ h. ok tt;
  collect_payload = λ h event. ok event_payload;
  stop_wait = λ h n. leb 1 (waits h);
  stop_is_set = λ h. false;
  time = λ h. 500000;
  floats = numbers;
}

abbrev schedule : Schedule
schedule = record { startup_delay = 100000; interval = 3000000; batch_size = 2 }

five_seconds : IsTime numbers 500000
five_seconds = record { finite = refl; nonneg = refl; small = omega arith }

half_a_minute : IsInterval numbers 3000000
half_a_minute = record { a_second = refl; a_day = refl }

ticks : Ticks world schedule
ticks = record { times = λ h. five_seconds; is_interval = half_a_minute }

run_cycle-Justified_example : Justified (run_cycle world 2 "heartbeat" []).1
run_cycle-Justified_example = run_cycle-Justified world 2 "heartbeat" [] tt

run_cycle-sends_example : sends (run_cycle world 2 "heartbeat" []).1 ≤ sends [] + 2 + 1
run_cycle-sends_example = run_cycle-sends world 2 "heartbeat" []

replay-InTurn_example : InTurn (replay world 2 []).1
replay-InTurn_example = replay-InTurn world 2 [] tt

loads-replay_example :
    (k : ℕ) × (k ≤ 2)
    × (loads (replay world 2 []).1 ≡ push_all (take k (take 2 ("a.json" ∷ []))) (loads []))
loads-replay_example = loads-replay world 2 [] ("a.json" ∷ []) refl

abbrev cycle_end : CycleResult
cycle_end = record {
  event_id = "e1";
  delivered = true;
  spooled = false;
  delivery_kind = some success;
}

cycle_report : (run_cycle world 2 "heartbeat" []).0 ≡ ok cycle_end
unfolding run_cycle replay replay_batch replay_record log_delivery deliver_live defer_live
    after_replay enqueue_payload get_field as_string
cycle_report = refl

stops_at_once : StopsBy world schedule 2
stops_at_once h t late = le→leb 1 (waits h) (omega arith)

run_cycle-Accounted_example :
    (p : Fields) × (world.collect_payload [] "heartbeat" ≡ ok p)
    × Accounted cycle_end p (run_cycle world 2 "heartbeat" []).1
run_cycle-Accounted_example = run_cycle-Accounted world 2 "heartbeat" [] cycle_end cycle_report

-- A minute and a half late.
late : IsTime numbers 9500000
late = record { finite = refl; nonneg = refl; small = omega arith }

catch_up-Caught_example :
    (next : Float) × (catch_up numbers 97 3000000 9500000 500000 ≡ some next)
    × Caught numbers 3000000 9500000 500000 next
catch_up-Caught_example =
    catch_up-Caught numbers numbers_clock 3000000 9500000 half_a_minute late 500000 refl

run-Justified_example : Justified (run world schedule 5 []).1
run-Justified_example = run-Justified world schedule 5

run-InTurn_example : InTurn (run world schedule 5 []).1
run-InTurn_example = run-InTurn world schedule 5

run-StartsClear_example : StartsClear (run world schedule 5 []).1
run-StartsClear_example = run-StartsClear world schedule 5

run-Closed_example :
    Closed (run world schedule 5 []).1
    × ((e : Error) → (run_loop world schedule 5 []).0 ≡ err e → (run world schedule 5 []).0 ≡ err e)
run-Closed_example =
    run-Closed world schedule 5 []
      (run_ends world schedule 2 5 [] numbers_clock ticks stops_at_once (omega arith) (omega arith))

run_ends_example : (run world schedule 5 []).0 ≢ ok out_of_fuel
run_ends_example =
    run_ends world schedule 2 5 [] numbers_clock ticks stops_at_once (omega arith) (omega arith)
