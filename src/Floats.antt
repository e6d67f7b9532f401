-- ===== src/Floats.antt =====
-- Python's `float`. The program does not implement it: its operations are parameters, and so are
-- the documented facts of IEEE-754 arithmetic that the proofs use.
use employee_tracker.Common.{
  ℕ, ◌+◌, ◌<◌, ◌≤◌, ◌≡◌, ◌⊎◌, Bool, true, false, Option, some, arith, ltb, leb, if◌then◌else◌,
}
use employee_tracker.Common.Int.{ℤ}
use employee_tracker.Models.{Float}

pub record FloatOps : Type 0 where
  -- `a < b`, false beside a NaN
  pub lt : Float → Float → Bool
  pub le : Float → Float → Bool
  pub add : Float → Float → Float
  pub sub : Float → Float → Float
  pub mul : Float → Float → Float
  -- `int(a)` of a finite float that is not negative
  pub whole : Float → ℕ
  pub is_nan : Float → Bool
  -- `math.isfinite`
  pub is_finite : Float → Bool
  -- the literal n / 10
  pub tenths : ℕ → Float
  -- `float(n)`; `none` is an OverflowError
  pub of_int : ℕ → Option Float
  -- `timedelta.total_seconds` of a number of microseconds
  pub total_seconds : ℤ → Float

-- `min(a, b)` and `max(a, b)` keep the first argument unless the second is strictly better.
abbrev pub float_min : FloatOps → Float → Float → Float
float_min f a b = if f.lt b a then b else a

abbrev pub float_max : FloatOps → Float → Float → Float
float_max f a b = if f.lt a b then b else a

pub record FloatLaws (f : FloatOps) : Type 0 where
  pub asym : (a b : Float) → f.lt a b ≡ true → f.lt b a ≡ false
  pub trans : (a b c : Float) → f.lt a b ≡ true → f.lt b c ≡ true → f.lt a c ≡ true
  -- a number that is no NaN lies on one side of every gap
  pub cotrans :
      (a b c : Float) → f.is_nan b ≡ false → f.lt a c ≡ true → (f.lt a b ≡ true) ⊎ (f.lt b c ≡ true)
  pub nan_left : (a b : Float) → f.lt a b ≡ true → f.is_nan a ≡ false
  -- The literals of the program are below 100000.0, where tenths are far wider apart than doubles.
  pub tenths_number : (n : ℕ) → n < 1000000 → f.is_nan (f.tenths n) ≡ false
  pub tenths_order :
      (m n : ℕ) → m < 1000000 → n < 1000000 → f.lt (f.tenths m) (f.tenths n) ≡ ltb m n
  pub tenths_le : (m n : ℕ) → m < 1000000 → n < 1000000 → f.le (f.tenths m) (f.tenths n) ≡ leb m n
  -- a product of numbers that are not negative is not negative, also when it is rounded
  pub mul_nonneg :
      (a b : Float)
      → f.lt a (f.tenths 0) ≡ false
      → f.lt b (f.tenths 0) ≡ false
      → f.lt (f.mul a b) (f.tenths 0) ≡ false
  -- multiplying by at most one does not exceed the other factor
  pub mul_unit :
      (m v : Float)
      → f.lt m (f.tenths 0) ≡ false
      → f.lt (f.tenths 10) v ≡ false
      → f.lt m (f.mul m v) ≡ false
  pub of_int_nonneg : (n : ℕ) (x : Float) → f.of_int n ≡ some x → f.lt x (f.tenths 0) ≡ false

-- Facts of the floats that a clock in seconds goes through: below 2 ** 52 the whole numbers are floats,
-- so a sum with an addend from 1.0 to 86400.0 reaches the next of them.
pub record ClockLaws (f : FloatOps) : Type 0 where
  pub le_whole :
      (a b : Float)
      → f.le (f.tenths 0) a ≡ true
      → f.is_finite b ≡ true
      → f.le a b ≡ true
      → f.whole a ≤ f.whole b
  pub add_whole :
      (a b : Float)
      → f.le (f.tenths 0) a ≡ true
      → f.le (f.tenths 10) b ≡ true
      → f.le b (f.tenths 864000) ≡ true
      → f.whole a < 4503599627370496
      → f.whole a + 1 ≤ f.whole (f.add a b)
  pub add_nonneg :
      (a b : Float)
      → f.le (f.tenths 0) a ≡ true
      → f.le (f.tenths 10) b ≡ true
      → f.le (f.tenths 0) (f.add a b) ≡ true

module _ (f : FloatOps) (laws : FloatLaws f) where
  open laws use {asym, trans, tenths_order}

  pub lt_irrefl : (a : Float) → f.lt a a ≡ false
  lt_irrefl a = ground (arith, asym a a)

  pub float_min-le : (a b : Float) → f.lt a (float_min f a b) ≡ false
  float_min-le a b = ground (arith, asym b a, lt_irrefl a)

  pub float_max-ge : (a b : Float) → f.lt (float_max f a b) a ≡ false
  float_max-ge a b = ground (arith, asym a b, lt_irrefl a)

  pub float_max-ge_right : (a b : Float) → f.lt (float_max f a b) b ≡ false
  float_max-ge_right a b = ground (arith, lt_irrefl b)

  -- What does not exceed one literal does not exceed a larger one.
  pub lt_weaken :
      (m n : ℕ) (x : Float)
      → m < n
      → n < 1000000
      → f.lt (f.tenths m) x ≡ false
      → f.lt (f.tenths n) x ≡ false
  lt_weaken m n x h small le = ground (arith, tenths_order m n, trans (f.tenths m) (f.tenths n) x)
