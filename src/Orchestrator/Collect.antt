-- ===== src/Orchestrator/Collect.antt =====
-- `collect_all` and its helpers of monitor_agent/orchestrator.py. The thread pool is not the
-- program's own code: a `Task` says what it made of one collector's `_collect_one`.
use employee_tracker.Common.{
  ℕ, String, Bool, not, ◌||◌, some, List, [], ◌∷◌, Result, ok, err, ErrorClass, permission_error,
  access_denied, timeout_error, os_error, file_not_found, file_exists, value_error, overflow_error,
  raise, raise_if, ◌>>◌, ◌>>=◌, if◌then◌else◌, interrupted_error,
}
use employee_tracker.Common.Int.{ℤ, pos, ◌+ℤ◌, ◌-ℤ◌, floor_pos, ltb_ℤ}
use employee_tracker.Floats.{FloatOps, float_max}
use employee_tracker.Models.{
  Float, dict, fields, CollectorStatus, CollectorPayload, CollectorResult, CollectionBatch,
}

-- One entry of `future_entries`: what `collector.collect` gave or raised, `time.monotonic_ns` before
-- and after it, and whether the future is done when the deadline is looked at.
pub record Task : Type 0 where
  pub name : String
  pub outcome : Result CollectorPayload
  pub started_ns : ℤ
  pub finished_ns : ℤ
  pub done : Bool

-- `time.monotonic_ns` at the start, before the wait, at the classification and at the end.
pub record Clock : Type 0 where
  pub cycle_started_ns : ℤ
  pub waiting_ns : ℤ
  pub classification_ns : ℤ
  pub ended_ns : ℤ

-- What Python's numbers and the thread pool do: `int(x)` of a finite float, `n / m` for integers (an
-- OverflowError where the quotient is no float), the calls of `executor.submit` (an error where no
-- thread can be started), and `wait` with a timeout in seconds, which raises where a future is not
-- done and the timeout is larger than the platform can wait.
pub record Pool : Type 0 where
  pub to_int : Float → ℤ
  pub divide : ℤ → ℕ → Result Float
  pub submit : Result (Unit {0})
  pub wait : Float → Result (Unit {0})

abbrev pub nanoseconds_per_second : ℕ
nanoseconds_per_second = 1000000000

abbrev pub nanoseconds_per_millisecond : ℕ
nanoseconds_per_millisecond = 1000000

unfoldable pub duration_ms : ℤ → ℤ → ℕ
duration_ms started finished = floor_pos (finished -ℤ started) nanoseconds_per_millisecond

-- The subclasses of `OSError` are listed; `TimeoutExpired` is of the class `timeout_error`.
unfoldable pub exception_metadata : ErrorClass → String × String
exception_metadata permission_error = ("permission_error", "collector access denied")
exception_metadata access_denied = ("permission_error", "collector access denied")
exception_metadata timeout_error = ("timeout", "collector timed out")
exception_metadata os_error = ("os_error", "collector operating system error")
exception_metadata interrupted_error = ("os_error", "collector operating system error")
exception_metadata file_not_found = ("os_error", "collector operating system error")
exception_metadata file_exists = ("os_error", "collector operating system error")
exception_metadata _ = ("collector_error", "collector failed")

-- The two returns of `_collect_one`.
unfoldable pub report : Task → Result CollectorPayload → CollectorResult
report t (ok payload) = record {
  name = t.name;
  status = payload.status;
  duration_ms = duration_ms t.started_ns t.finished_ns;
  data_value = payload.data_value;
  error_code = payload.error_code;
  error_message = payload.error_message;
}
report t (err e) = record {
  name = t.name;
  status = CollectorStatus.failed;
  duration_ms = duration_ms t.started_ns t.finished_ns;
  data_value = dict (fields []);
  error_code = some (exception_metadata e.class).0;
  error_message = some (exception_metadata e.class).1;
}

unfoldable pub collect_one : Task → CollectorResult
collect_one t = report t t.outcome

unfoldable pub deadline_result : String → ℕ → CollectorResult
deadline_result n d = record {
  name = n;
  status = CollectorStatus.timed_out;
  duration_ms = d;
  data_value = dict (fields []);
  error_code = some "deadline_exceeded";
  error_message = some "collector deadline exceeded";
}

unfoldable pub validate_limits : FloatOps → ℤ → Float → Result (Unit {0})
validate_limits f max_workers timeout_sec =
    raise_if (ltb_ℤ max_workers (pos 1)) value_error "max_workers must be at least 1"
    >> raise_if (not (f.is_finite timeout_sec) || not (f.lt (f.tenths 0) timeout_sec)) value_error
        "timeout_sec must be finite and greater than 0"

-- `tuple(_deadline_result(...) if future in unfinished else future.result() ...)`
unfoldable pub results_of : ℕ → List Task → List CollectorResult
results_of d [] = []
results_of d (t ∷ ts) =
    (if t.done then collect_one t else deadline_result t.name d) ∷ results_of d ts

-- A batch of these results, at the end of the cycle.
abbrev pub batch_of : Clock → List CollectorResult → CollectionBatch
batch_of c rs = record { results = rs; duration_ms = duration_ms c.cycle_started_ns c.ended_ns }

-- `int(timeout_sec * _NANOSECONDS_PER_SECOND)` raises for a product that is not finite; `billion` is
-- that constant as a float.
unfoldable pub deadline_of : FloatOps → Pool → Float → Clock → Float → Result ℤ
deadline_of f pool billion c timeout_sec =
    if f.is_finite (f.mul timeout_sec billion)
    then ok (c.cycle_started_ns +ℤ pool.to_int (f.mul timeout_sec billion))
    else raise overflow_error "cannot convert float infinity to integer"

-- `max(0.0, (deadline_ns - time.monotonic_ns()) / _NANOSECONDS_PER_SECOND)`
unfoldable pub remaining_sec : FloatOps → Pool → Clock → ℤ → Result Float
remaining_sec f pool c deadline_ns =
    pool.divide (deadline_ns -ℤ c.waiting_ns) nanoseconds_per_second >>= λ left.
    ok (float_max f (f.tenths 0) left)

unfoldable pub collect_all :
    FloatOps → Pool → Float → Clock → ℤ → Float → List Task → Result CollectionBatch
collect_all f pool billion c max_workers timeout_sec registry =
    validate_limits f max_workers timeout_sec >> elim registry [
      | [] ↦ ok (batch_of c [])
      | t ∷ ts ↦ deadline_of f pool billion c timeout_sec >>= λ deadline_ns.
          pool.submit >> remaining_sec f pool c deadline_ns >>= λ remaining.
          pool.wait remaining
          >> ok (
              batch_of c (results_of (duration_ms c.cycle_started_ns c.classification_ns) (t ∷ ts)))
    ]
