-- ===== src/Orchestrator/Isolated.antt =====
-- One collector's failure or delay stays its own, in `collect_all` of monitor_agent/orchestrator.py.
use employee_tracker.Common.{
  value_error, config_error, type_error, runtime_error, assertion_error, os_error, file_not_found,
  file_exists, permission_error, timeout_error, access_denied, no_such_process, overflow_error,
  key_error, other_error, ErrorClass, Bool, if◌then◌else◌, ◌≡◌, ◌⊎◌, inl, inr, Bool-cases,
  Result-cases, refl, String, ℕ, true, false, some, List, [], ◌∷◌, Result, ok, err, Error,
  ErrorClass, arith, interrupted_error,
}
use employee_tracker.Common.Int.{ℤ, pos, ◌≤ℤ◌, ◌+ℤ◌, ◌-ℤ◌}
use employee_tracker.Floats.{FloatOps, float_max}
use employee_tracker.Models.{
  Float, dict, fields, CollectorStatus, CollectorPayload, CollectorResult, CollectionBatch,
}
use employee_tracker.Orchestrator.Collect.{
  Task, Clock, Pool, deadline_of, remaining_sec, report, duration_ms, exception_metadata,
  collect_one, deadline_result, validate_limits, results_of, collect_all,
}

-- The error codes that a failed collector is reported under.
pub data FailureText : String → String → Type 0 where
  no_access : FailureText "permission_error" "collector access denied"
  too_slow : FailureText "timeout" "collector timed out"
  os_trouble : FailureText "os_error" "collector operating system error"
  other_trouble : FailureText "collector_error" "collector failed"

-- What a result says of a collector, without the error's own text.
pub data Reports (late : ℕ) (t : Task) : CollectorResult → Type 0 where
  delivered :
      (p : CollectorPayload)
      → t.done ≡ true
      → t.outcome ≡ ok p
      → Reports late t (record {
        name = t.name;
        status = p.status;
        duration_ms = duration_ms t.started_ns t.finished_ns;
        data_value = p.data_value;
        error_code = p.error_code;
        error_message = p.error_message;
      })
  broken :
      (e : Error) {code message : String}
      → t.done ≡ true
      → t.outcome ≡ err e
      → FailureText code message
      → Reports late t (record {
        name = t.name;
        status = CollectorStatus.failed;
        duration_ms = duration_ms t.started_ns t.finished_ns;
        data_value = dict (fields []);
        error_code = some code;
        error_message = some message;
      })
  unfinished :
      t.done ≡ false
      → Reports late t (record {
        name = t.name;
        status = CollectorStatus.timed_out;
        duration_ms = late;
        data_value = dict (fields []);
        error_code = some "deadline_exceeded";
        error_message = some "collector deadline exceeded";
      })

pub data AllReport (late : ℕ) : List Task → List CollectorResult → Type 0 where
  none_left : AllReport late [] []
  one_more :
      {t : Task} {ts : List Task} {r : CollectorResult} {rs : List CollectorResult}
      → Reports late t r
      → AllReport late ts rs
      → AllReport late (t ∷ ts) (r ∷ rs)

exception_metadata-FailureText :
    (c : ErrorClass) → FailureText (exception_metadata c).0 (exception_metadata c).1
unfolding exception_metadata
exception_metadata-FailureText permission_error = no_access
exception_metadata-FailureText access_denied = no_access
exception_metadata-FailureText timeout_error = too_slow
exception_metadata-FailureText os_error = os_trouble
exception_metadata-FailureText interrupted_error = os_trouble
exception_metadata-FailureText file_not_found = os_trouble
exception_metadata-FailureText file_exists = os_trouble
exception_metadata-FailureText value_error = other_trouble
exception_metadata-FailureText config_error = other_trouble
exception_metadata-FailureText type_error = other_trouble
exception_metadata-FailureText runtime_error = other_trouble
exception_metadata-FailureText assertion_error = other_trouble
exception_metadata-FailureText no_such_process = other_trouble
exception_metadata-FailureText overflow_error = other_trouble
exception_metadata-FailureText key_error = other_trouble
exception_metadata-FailureText other_error = other_trouble

report-Reports :
    (late : ℕ) (t : Task) (o : Result CollectorPayload)
    → t.done ≡ true
    → t.outcome ≡ o
    → Reports late t (report t o)
unfolding report
report-Reports late t (ok p) h e = delivered p h e
report-Reports late t (err x) h e = broken x h e (exception_metadata-FailureText x.class)

one-Reports :
    (late : ℕ) (t : Task) (b : Bool)
    → t.done ≡ b
    → Reports late t (if b then collect_one t else deadline_result t.name late)
unfolding collect_one deadline_result
one-Reports late t true h = report-Reports late t t.outcome h refl
one-Reports late t false h = unfinished h

results_of-AllReport : (late : ℕ) (ts : List Task) → AllReport late ts (results_of late ts)
unfolding results_of
results_of-AllReport late [] = none_left
results_of-AllReport late (t ∷ ts) =
    one_more (one-Reports late t t.done refl) (results_of-AllReport late ts)

-- What ends `collect_all` with an error once its limits are valid: the timeout is larger than a count
-- of nanoseconds or of seconds can hold, no thread can be started, or the wait raises.
pub data Stopped (f : FloatOps) (pool : Pool) (billion : Float) (c : Clock) (timeout_sec : Float)
    (e : Error) : Type 0 where
  too_long :
      f.is_finite (f.mul timeout_sec billion) ≡ false
      → e.class ≡ overflow_error
      → Stopped f pool billion c timeout_sec e
  no_thread : pool.submit ≡ err e → Stopped f pool billion c timeout_sec e
  no_float :
      pool.divide
          (c.cycle_started_ns +ℤ pool.to_int (f.mul timeout_sec billion) -ℤ c.waiting_ns)
          1000000000
        ≡ err e
      → Stopped f pool billion c timeout_sec e
  no_wait :
      (left : Float)
      → pool.divide
          (c.cycle_started_ns +ℤ pool.to_int (f.mul timeout_sec billion) -ℤ c.waiting_ns)
          1000000000
        ≡ ok left
      → pool.wait (float_max f (f.tenths 0) left) ≡ err e
      → Stopped f pool billion c timeout_sec e

-- With at least one worker and a timeout that is finite and positive, `collect_all` returns, unless
-- the timeout is larger than a count of nanoseconds or of seconds can hold, no thread can be started
-- or the wait for the remaining time raises, and then it passes that error on. It returns exactly one result for each collector, in the order
-- of the registry and under the collector's name: what the collector delivered; for a collector
-- that raised, no data and one of four fixed texts in place of the error's own; and for one that is
-- not done at the deadline, a time-out that lasts as long as the cycle did until then.
pub collect_all-AllReport :
    (f : FloatOps) (pool : Pool) (billion : Float) (c : Clock) (max_workers : ℤ)
    (timeout_sec : Float) (ts : List Task)
    → pos 1 ≤ℤ max_workers
    → f.is_finite timeout_sec ≡ true
    → f.lt (f.tenths 0) timeout_sec ≡ true
    → ((b : CollectionBatch) × (collect_all f pool billion c max_workers timeout_sec ts ≡ ok b)
        × AllReport (duration_ms c.cycle_started_ns c.classification_ns) ts b.results)
      ⊎ ((e : Error) × (collect_all f pool billion c max_workers timeout_sec ts ≡ err e)
          × Stopped f pool billion c timeout_sec e)
unfolding collect_all validate_limits deadline_of remaining_sec
collect_all-AllReport f pool billion c n timeout [] workers finite positive = inl (
  record { results = []; duration_ms = duration_ms c.cycle_started_ns c.ended_ns },
  ground arith,
  none_left,
)
collect_all-AllReport f pool billion c n timeout (t ∷ ts) workers finite positive =
    let late = duration_ms c.cycle_started_ns c.classification_ns in
    let product = f.mul timeout billion in
    let span = c.cycle_started_ns +ℤ pool.to_int product -ℤ c.waiting_ns in
    elim (Bool-cases (f.is_finite product)) [
      | inr endless ↦ inr (
        record { class = overflow_error; message = "cannot convert float infinity to integer" },
        ground arith,
        too_long endless refl,
      )
      | inl counted ↦ elim (Result-cases pool.submit) [
        | inr (e, bad) ↦ inr (e, ground arith, no_thread bad)
        | inl (u, started) ↦ elim (Result-cases (pool.divide span 1000000000)) [
          | inr (e, bad) ↦ inr (e, ground arith, no_float bad)
          | inl (left, divided) ↦ elim (Result-cases (pool.wait (float_max f (f.tenths 0) left))) [
            | inr (e, bad) ↦ inr (e, ground arith, no_wait left divided bad)
            | inl (v, waited) ↦ inl (
              record {
                results = results_of late (t ∷ ts);
                duration_ms = duration_ms c.cycle_started_ns c.ended_ns;
              },
              ground arith,
              results_of-AllReport late (t ∷ ts),
            )
          ]
        ]
      ]
    ]
