-- ===== src/Tests/Numbers.antt =====
-- A float arithmetic that meets the laws: a pattern n stands for the number n / 100000.
use employee_tracker.Common.{
  ℕ, ◌+◌, ◌-◌, ◌*◌, ◌/◌, ◌≤◌, refl, inl, inr, true, false, some, arith, ltb, leb, Bool-cases,
}
use employee_tracker.Common.Int.{pos_part}
use employee_tracker.Floats.{FloatOps, FloatLaws, ClockLaws}

abbrev pub numbers : FloatOps
numbers = record {
  lt = ltb;
  le = leb;
  add = λ a b. a + b;
  sub = λ a b. a - b;
  mul = λ a b. a * b / 100000;
  whole = λ a. a / 100000;
  is_nan = λ a. false;
  is_finite = λ a. true;
  tenths = λ n. n * 10000;
  of_int = λ n. some (n * 100000);
  total_seconds = λ n. pos_part n / 10;
}

scaled_le : (m v : ℕ) → v ≤ 100000 → m * v / 100000 ≤ m
scaled_le m v h = grind arith

pub numbers_laws : FloatLaws numbers
numbers_laws = record {
  asym = λ a b h. ground arith;
  trans = λ a b c h k. ground arith;
  cotrans = λ a b c n h. elim (Bool-cases (ltb a b)) [ inl e ↦ inl e | inr e ↦ inr (ground arith) ];
  nan_left = λ a b h. refl;
  tenths_number = λ n h. refl;
  tenths_order = λ m n h k. ground arith;
  tenths_le = λ m n h k. ground arith;
  mul_nonneg = λ a b h k. ground arith;
  mul_unit = λ m v h k. ground (arith, scaled_le m v);
  of_int_nonneg = λ n x h. ground arith;
}

pub numbers_clock : ClockLaws numbers
numbers_clock = record {
  le_whole = λ a b h k l. ground arith;
  add_whole = λ a b h k l m. ground arith;
  add_nonneg = λ a b h k. ground arith;
}
