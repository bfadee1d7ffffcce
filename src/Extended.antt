-- ===== src/Extended.antt =====
-- The natural numbers with infinity: a `Double` that computes, for the examples. A difference is
-- taken without its sign.
use agvscheduling.Prelude.{
  ℕ, ◌+◌, ◌-◌, ◌*◌, ◌/◌, Bool, true, false, ℤ, pos, negsuc, Option, none, some, ltb, ◌==◌, Double,
}

unfoldable pub lift : (ℕ → ℕ → ℕ) → Option ℕ → Option ℕ → Option ℕ
lift f (some a) (some b) = some (f a b)
lift f (some a) none = none
lift f none b = none

unfoldable pub below : Option ℕ → Option ℕ → Bool
below (some a) (some b) = ltb a b
below (some a) none = true
below none b = false

unfoldable pub equals : Option ℕ → Option ℕ → Bool
equals (some a) (some b) = a == b
equals none none = true
equals (some a) none = false
equals none (some b) = false

unfoldable pub is_number : Option ℕ → Bool
is_number none = false
is_number (some a) = true

unfoldable pub of_number : ℤ → Option ℕ
of_number (pos n) = some n
of_number (negsuc n) = some 0

instance unfoldable pub extended : Double (Option ℕ)
unfolding lift below equals is_number of_number
extended = record {
  nought = some 0;
  infinity = none;
  greatest = some 1000000;
  add = lift (λ a b. a + b);
  sub = lift (λ a b. (a - b) + (b - a));
  mul = lift (λ a b. a * b);
  div = lift (λ a b. a / b);
  lt = below;
  eq = equals;
  is_finite = is_number;
  of_int = of_number;
}
