-- ===== src/Prelude/Doubles.antt =====
-- What the code does with a `double`. The development never computes with one: a theorem takes the
-- type and its operations as an instance argument, with the laws that it needs as hypotheses.
use mathlib.Core.Bool.{Bool}
use agvscheduling.Prelude.Ints.{ℤ}

pub record Double (W : Type 0) : Type 0 where
  pub nought : W
  -- `std::numeric_limits<double>::infinity()` and `max()`
  pub infinity : W
  pub greatest : W
  pub add : W → W → W
  pub sub : W → W → W
  pub mul : W → W → W
  pub div : W → W → W
  -- `a < b`, `a == b` and `std::isfinite(a)`
  pub lt : W → W → Bool
  pub eq : W → W → Bool
  pub is_finite : W → Bool
  -- the conversion of an `int`
  pub of_int : ℤ → W
