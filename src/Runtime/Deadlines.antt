-- ===== src/Runtime/Deadlines.antt =====
-- The search of the heartbeat for its next deadline, which skips those that have passed.
use employee_tracker.Common.{
  ℕ, zero, suc, ◌+◌, ◌<◌, ◌≡◌, refl, true, false, some, arith, Bool-cases, inl, inr,
}
use employee_tracker.Models.{Float}
use employee_tracker.Floats.{FloatOps, ClockLaws}
use employee_tracker.Runtime.Loop.{catch_up}

-- `deadline += interval`, so many times.
abbrev pub add_times : FloatOps → ℕ → Float → Float → Float
add_times f zero interval d = d
add_times f (suc k) interval d = add_times f k interval (f.add d interval)

-- What `time.monotonic` gives: a number of seconds that floats count exactly.
pub record IsTime (f : FloatOps) (now : Float) : Type 0 where
  pub finite : f.is_finite now ≡ true
  pub nonneg : f.le (f.tenths 0) now ≡ true
  pub small : f.whole now < 4503599627370496

-- The interval of a configuration that was loaded lies in these limits.
pub record IsInterval (f : FloatOps) (interval : Float) : Type 0 where
  pub a_second : f.le (f.tenths 10) interval ≡ true
  pub a_day : f.le interval (f.tenths 864000) ≡ true

-- The next deadline is the first that is ahead among the one that was due and those that follow it.
pub record Caught (f : FloatOps) (interval now due next : Float) : Type 0 where
  pub rounds : ℕ
  pub reached : next ≡ add_times f rounds interval due
  pub ahead : f.le next now ≡ false
  pub first : (j : ℕ) → j < rounds → f.le (add_times f j interval due) now ≡ true
  pub nonneg : f.le (f.tenths 0) next ≡ true

passed_first :
    (f : FloatOps) (interval now due : Float) (k : ℕ)
    → f.le due now ≡ true
    → ((j : ℕ) → j < k → f.le (add_times f j interval (f.add due interval)) now ≡ true)
    → (j : ℕ) → j < suc k
    → f.le (add_times f j interval due) now ≡ true
passed_first f interval now due k h before zero l = h
passed_first f interval now due k h before (suc j) l = before j (omega arith)

module _ (f : FloatOps) (laws : ClockLaws f) (interval now : Float)
    (is_interval : IsInterval f interval) (is_time : IsTime f now) where
  at_once :
      (fuel : ℕ) (due : Float)
      → f.le (f.tenths 0) due ≡ true
      → f.le due now ≡ false
      → (next : Float) × (catch_up f (suc fuel) interval now due ≡ some next)
        × Caught f interval now due next
  unfolding catch_up
  at_once fuel due nonneg ahead = (
    due,
    rw (catch_up, ahead) refl,
    record {
      rounds = 0;
      reached = refl;
      ahead = ahead;
      first = λ j l. absurd (omega arith);
      nonneg = nonneg;
    },
  )

  catch_up-Caught_from :
      (fuel : ℕ) (due : Float)
      → f.le (f.tenths 0) due ≡ true
      → f.whole now < f.whole due + fuel
      → (next : Float) × (catch_up f (suc fuel) interval now due ≡ some next)
        × Caught f interval now due next
  unfolding catch_up
  catch_up-Caught_from zero due nonneg enough = elim (Bool-cases (f.le due now)) [
    | inr ahead ↦ at_once zero due nonneg ahead
    | inl passed ↦ absurd (omega (arith, laws.le_whole due now nonneg is_time.finite passed))
  ]
  catch_up-Caught_from (suc fuel) due nonneg enough = elim (Bool-cases (f.le due now)) [
    | inr ahead ↦ at_once (suc fuel) due nonneg ahead
    | inl passed ↦
        let below = laws.le_whole due now nonneg is_time.finite passed in
        let more =
          laws.add_whole due interval nonneg is_interval.a_second is_interval.a_day
            (omega (arith, is_time.small)) in
        let (next, found, caught) =
          catch_up-Caught_from fuel (f.add due interval)
            (laws.add_nonneg due interval nonneg is_interval.a_second) (omega arith) in
        (
          next,
          rw (catch_up, passed) found,
          record {
            rounds = suc caught.rounds;
            reached = caught.reached;
            ahead = caught.ahead;
            first = passed_first f interval now due caught.rounds passed caught.first;
            nonneg = caught.nonneg;
          },
        )
  ]

  -- For a clock below 2 ** 52 seconds, an interval from 1.0 to 86400.0 seconds and a deadline that is
  -- not negative, the search for the next deadline ends within the number of rounds that the loop is
  -- given, two more than the clock shows seconds: it finds the first that is ahead of the clock among
  -- the deadline that was due and those that adding the interval again and again, with the rounding
  -- of floats, leads to.
  pub catch_up-Caught :
      (due : Float)
      → f.le (f.tenths 0) due ≡ true
      → (next : Float) × (catch_up f (suc (suc (f.whole now))) interval now due ≡ some next)
        × Caught f interval now due next
  catch_up-Caught due nonneg = catch_up-Caught_from (suc (f.whole now)) due nonneg (omega arith)
