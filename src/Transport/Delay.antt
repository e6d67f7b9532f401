-- ===== src/Transport/Delay.antt =====
-- `_retry_delay`, `_safe_random_value` and `_parse_retry_after` of monitor_agent/transport.py.
use employee_tracker.Common.{
  ℕ, ◌-◌, ◌^◌, String, Bool, ◌&&◌, Option, none, some, Result, ok, raise, overflow_error, ◌>>=◌,
  if◌then◌else◌,
}
use employee_tracker.Common.Int.{ℤ, pos, negsuc, leb_ℤ, ◌-ℤ◌}
use employee_tracker.Models.{Float}
use employee_tracker.Floats.{FloatOps, float_min, float_max}

-- A `datetime`: the microseconds of its clock since the epoch, and its offset from UTC, `none` if it
-- is naive.
pub record DateTime : Type 0 where
  pub micros : ℤ
  pub offset : Option ℤ

-- The first microsecond of the year 1 and the last of the year 9999, the bounds of a `datetime`.
abbrev pub first_micros : ℤ
first_micros = negsuc 62135596799999999

abbrev pub last_micros : ℤ
last_micros = pos 253402300799999999

abbrev pub in_years : ℤ → Bool
in_years m = leb_ℤ first_micros m && leb_ℤ m last_micros

-- `retry_at.replace(tzinfo=UTC)` if naive, then `.astimezone(UTC)`, in microseconds.
unfoldable pub to_utc : DateTime → Result ℤ
to_utc d = elim d.offset [
  | none ↦ ok d.micros
  | some o ↦
      if in_years (d.micros -ℤ o)
      then ok (d.micros -ℤ o)
      else raise overflow_error "date value out of range"
]

-- What Python's library does with the texts of a response.
pub record Parsers : Type 0 where
  -- `float(text)`; `none` is a ValueError
  pub parse_float : String → Option Float
  -- `parsedate_to_datetime(text)`; `none` is a TypeError or ValueError, and an error is any other
  -- exception, such as the OverflowError of an offset that is too large
  pub parse_date : String → Result (Option DateTime)

module _ (f : FloatOps) where
  -- `min(60.0, max(0.0, delay))`
  abbrev pub clamp_delay : Float → Float
  clamp_delay d = float_min f (f.tenths 600) (float_max f (f.tenths 0) d)

  -- `random` is `none` where the call raises a TypeError or a ValueError.
  unfoldable pub safe_random_value : Option Float → Float
  safe_random_value none = f.tenths 0
  safe_random_value (some v) =
      if f.is_finite v then float_min f (f.tenths 10) (float_max f (f.tenths 0) v) else f.tenths 0

  unfoldable pub jittered : ℕ → Option Float → Result Float
  unfolding safe_random_value
  jittered retry_number random = elim (f.of_int (2 ^ (retry_number - 1))) [
    | none ↦ raise overflow_error "int too large to convert to float"
    | some power ↦
        let maximum = float_min f (f.tenths 300) (f.mul (f.tenths 5) power) in
        ok (f.mul maximum (safe_random_value random))
  ]

  unfoldable pub retry_delay : ℕ → Option Float → Option Float → Result Float
  retry_delay retry_number random none = jittered retry_number random
  retry_delay retry_number random (some retry_after) =
      jittered retry_number random >>= λ delay. ok (float_max f retry_after delay)

  unfoldable pub parse_retry_after : Parsers → ℤ → String → Result (Option Float)
  unfolding to_utc
  parse_retry_after p current_time value = elim (p.parse_float value) [
    | some delay ↦ ok (if f.is_finite delay then some (clamp_delay delay) else none)
    | none ↦ p.parse_date value >>= λ parsed. elim parsed [
      | none ↦ ok none
      | some retry_at ↦ to_utc retry_at >>= λ moment.
          ok (some (clamp_delay (f.total_seconds (moment -ℤ current_time))))
    ]
  ]
