-- ===== src/AStar/Measure.antt =====
-- The turns that the search has left: one for each open element, and one for each edge from a state
-- that is not closed.
use agvscheduling.Prelude.{
  ℕ, zero, suc, ◌+◌, ◌*◌, ◌≤◌, ◌<◌, ◌≡◌, refl, ap, true, false, ℤ, pos, minus_one, ℤ_discrete,
  ℕ_discrete, List, [], ◌∷◌, ◌++◌, arith, length, elem, elem-append_left, elem-append_right,
  if◌then◌else◌,
}
use agvscheduling.MapInfo.{MapInfo}
use agvscheduling.AStar.{State, state_discrete, degree, degrees}

abbrev previous : ℕ → List ℤ
previous zero = minus_one ∷ []
previous (suc n) = pos n ∷ previous n

abbrev pairs : List ℤ → ℕ → List State
pairs [] c = []
pairs (p ∷ ps) c = (p, c) ∷ pairs ps c

abbrev states_below : List ℤ → ℕ → List State
states_below ps zero = []
states_below ps (suc c) = pairs ps c ++ states_below ps c

-- The states of a map of so many nodes.
abbrev pub states : ℕ → List State
states n = states_below (previous n) n

elem-pairs :
    (p : ℤ) (ps : List ℤ) (c : ℕ)
    → elem ℤ_discrete p ps ≡ true
    → elem state_discrete (p, c) (pairs ps c) ≡ true
unfolding elem state_discrete
elem-pairs p [] c h = cc
elem-pairs p (r ∷ ps) c h = elim (ℤ_discrete r p) [
  | yes e ↦ ground (arith, e)
  | no ne ↦ ground (arith, ne, elem-pairs p ps c (ground (arith, h, ne)))
]

elem-states_below :
    (p : ℤ) (ps : List ℤ) (c n : ℕ)
    → c < n
    → elem ℤ_discrete p ps ≡ true
    → elem state_discrete (p, c) (states_below ps n) ≡ true
elem-states_below p ps c zero small h = absurd (omega arith)
elem-states_below p ps c (suc n) small h = elim (ℕ_discrete c n) [
  | yes e ↦ rw (← e) (
      elem-append_left state_discrete (p, c) (pairs ps c) (states_below ps c) (elem-pairs p ps c h))
  | no ne ↦
      elem-append_right state_discrete (p, c) (pairs ps n) (states_below ps n)
        (elem-states_below p ps c n (omega arith) h)
]

elem-previous_pos : (i n : ℕ) → i < n → elem ℤ_discrete (pos i) (previous n) ≡ true
unfolding elem
elem-previous_pos i zero small = absurd (omega arith)
elem-previous_pos i (suc n) small = elim (ℕ_discrete n i) [
  | yes e ↦ ground (arith, e)
  | no ne ↦ ground (arith, elem-previous_pos i n (omega arith))
]

elem-previous_start : (n : ℕ) → elem ℤ_discrete minus_one (previous n) ≡ true
unfolding elem ℤ_discrete
elem-previous_start zero = refl
elem-previous_start (suc n) = ground (arith, elem-previous_start n)

pub elem-states_start : (c n : ℕ) → c < n → elem state_discrete (minus_one, c) (states n) ≡ true
elem-states_start c n small =
    elem-states_below minus_one (previous n) c n small (elem-previous_start n)

pub elem-states : (p c n : ℕ) → p < n → c < n → elem state_discrete (pos p, c) (states n) ≡ true
elem-states p c n low small =
    elem-states_below (pos p) (previous n) c n small (elem-previous_pos p n low)

length-previous : (n : ℕ) → length (previous n) ≡ suc n
length-previous zero = refl
length-previous (suc n) = ap suc (length-previous n)

module _ {W : Type 0} (m : MapInfo W) where
  -- The edges from the states of a list that are not closed.
  unfoldable pub weight : List State → List State → ℕ
  weight closed [] = 0
  weight closed (s ∷ rest) =
      (if elem state_discrete s closed then 0 else degree m s.1) + weight closed rest

  weight_mono : (s : State) (closed xs : List State) → weight (s ∷ closed) xs ≤ weight closed xs
  unfolding weight elem
  weight_mono s closed [] = omega arith
  weight_mono s closed (x ∷ xs) = ground (arith, weight_mono s closed xs)

  -- Closing a state of the list takes its edges off.
  pub weight_close :
      (s : State) (closed xs : List State)
      → elem state_discrete s xs ≡ true
      → elem state_discrete s closed ≡ false
      → weight (s ∷ closed) xs + degree m s.1 ≤ weight closed xs
  unfolding weight elem
  weight_close s closed [] h k = cc
  weight_close s closed (x ∷ xs) h k = elim (state_discrete x s) [
    | yes e ↦
        let here : degree m x.1 ≡ degree m s.1 = rw e refl in
        let fresh : elem state_discrete x closed ≡ false = rw e k in
        ground (arith, weight_mono s closed xs, here, fresh, e)
    | no ne ↦ ground (arith, ne, weight_close s closed xs (ground (arith, h, ne)) k)
  ]

  weight-append : (xs ys : List State) → weight [] (xs ++ ys) ≡ weight [] xs + weight [] ys
  unfolding weight
  weight-append [] ys = omega arith
  weight-append (x ∷ xs) ys = omega (arith, weight-append xs ys)

  weight-pairs : (ps : List ℤ) (c : ℕ) → weight [] (pairs ps c) ≡ length ps * degree m c
  unfolding weight elem
  weight-pairs [] c = omega arith
  weight-pairs (p ∷ ps) c = grind (arith, weight-pairs ps c)

  weight-states_below :
      (ps : List ℤ) (n : ℕ) → weight [] (states_below ps n) ≡ length ps * degrees m n
  unfolding weight degrees
  weight-states_below ps zero = grind arith
  weight-states_below ps (suc n) = grind (
    arith,
    weight-append (pairs ps n) (states_below ps n),
    weight-pairs ps n,
    weight-states_below ps n,
  )

  -- At the start: the edges from every state.
  pub weight-states : (n : ℕ) → weight [] (states n) ≡ suc n * degrees m n
  weight-states n = rw (← length-previous n) (weight-states_below (previous n) n)
