-- ===== src/AStar.antt =====
-- src/path_planning/AStarPathFinder.cpp and include/AStarPathFinder.h: the search for a path, over
-- states of a node and the node before it (-1 at the start). `sqrt` is `std::sqrt`. The heap is a list,
-- and `top` the position of the element that it gives out. A null pointer to a set is a test that is
-- never true. The map's nodes and tables are the argument `m`.
pub mod Measure
pub mod Ends
pub mod Routes
pub mod Invariant
pub mod Found
pub mod Paths
mod Tests
use agvscheduling.Prelude.{
  ℕ, zero, suc, ◌+◌, ◌*◌, Bool, true, false, not, ◌&&◌, ◌||◌, ℤ, pos, negsuc, minus_one, ℤ_discrete,
  ℕ_discrete, List, [], ◌∷◌, ◌++◌, map, Option, none, some, ite, if◌then◌else◌, ◌==◌, length,
  get_elem?, elem, find, put, Double, ◌≡◌, ap,
}
use agvscheduling.MapInfo.{Node, MapInfo}

-- `AStarState`, with its equality.
abbrev pub State : Type 0
State = ℤ × ℕ

unfoldable pub state_discrete : Discrete State
unfolding ℤ_discrete ℕ_discrete
state_discrete (p, c) (p', c') = elim (ℤ_discrete p p') [
  | no ne ↦ no (λ e. ne (ap (λ s. s.0) e))
  | yes e ↦ elim (ℕ_discrete c c') [
    | no ne ↦ no (λ e'. ne (ap (λ s. s.1) e'))
    | yes e' ↦ yes (both e e')
  ]
]
  where
    both : p ≡ p' → c ≡ c' → Path State (p, c) (p', c')
    both e e' = cc

-- `AStarNode`
pub record OpenNode (W : Type 0) : Type 0 where
  pub state : State
  pub g_score : W
  pub f_score : W

pub record PathResult (W : Type 0) : Type 0 where
  pub path : List ℤ
  pub distance : W
  pub found : Bool

pub record Search (W : Type 0) : Type 0 where
  pub open_set : List (OpenNode W)
  pub closed_set : List State
  pub g_scores : List (State × W)
  pub came_from : List (State × State)

-- What the body of the `while` loop does with the element on top.
pub data Outcome (W : Type 0) : Type 0 where
  reaches : Search W → Outcome W
  goes_on : Search W → Outcome W

-- The element at a position, and the others.
unfoldable pub take_out : {A : Type 0} → ℕ → A → List A → A × List A
take_out zero x xs = (x, xs)
take_out (suc i) x [] = (x, [])
take_out (suc i) x (y ∷ ys) = let (z, rest) = take_out i y ys in (z, x ∷ rest)

-- `nodeIdToIndex_`: the last node of an id.
unfoldable pub index_of : {W : Type 0} → ℤ → ℕ → List (Node W) → Option ℕ
index_of id i [] = none
index_of id i (n ∷ ns) =
    let later = index_of id (suc i) ns in
    elim later [ some j ↦ some j | none ↦ ite (ℤ_discrete n.id id) (some i) none ]

module _ {W : Type 0} ⦃d : Double W⦄ (sqrt : W → W) where
  abbrev pub magnitude : W → W
  magnitude x = if d.lt x d.nought then d.sub d.nought x else x

  abbrev pub ratio : ℕ → ℕ → W
  ratio a b = d.div (d.of_int (pos a)) (d.of_int (pos b))

  abbrev pub length_of : W → W → W
  length_of dx dy = sqrt (d.add (d.mul dx dx) (d.mul dy dy))

  -- `PathPlanningConstants::calculateTurnPenaltyMm`
  unfoldable pub calculate_turn_penalty_mm : Node W → Node W → Node W → W → W
  calculate_turn_penalty_mm prev curr next base =
      let dx1 = d.sub curr.x prev.x in
      let dy1 = d.sub curr.y prev.y in
      let dx2 = d.sub next.x curr.x in
      let dy2 = d.sub next.y curr.y in
      let len1 = length_of dx1 dy1 in
      let len2 = length_of dx2 dy2 in
      let cross =
        d.sub (d.mul (d.div dx1 len1) (d.div dy2 len2)) (d.mul (d.div dy1 len1) (d.div dx2 len2)) in
      let dot =
        d.add (d.mul (d.div dx1 len1) (d.div dx2 len2)) (d.mul (d.div dy1 len1) (d.div dy2 len2)) in
      if d.lt len1 (ratio 1 1_000_000) || d.lt len2 (ratio 1 1_000_000)
      then d.nought
      else if d.lt dot (d.sub d.nought (ratio 999 1000))
      then d.mul base (d.of_int (pos 2))
      else if d.lt (ratio 1 1000) (magnitude cross)
      then base
      else d.nought

-- What `findPath` is called with: a test or a table that is not given answers as an empty one.
pub record Query (W : Type 0) : Type 0 where
  pub turn_penalty : W
  pub is_banned_node : ℤ → Bool
  pub is_banned_edge : ℤ → ℤ → Bool
  pub node_penalty : Option (ℤ → Option W)
  pub node_penalty_mm : W

abbrev pub is_impassable : {W : Type 0} → Node W → Bool
is_impassable n = ite (ℤ_discrete n.allow_pass (pos 0)) true false

-- `reconstructPath`: the indices from the start on. `none` where the fuel does not reach.
unfoldable pub reconstruct : ℕ → List (State × State) → State → List ℕ → Option (List ℕ)
reconstruct zero came s later = none
reconstruct (suc fuel) came s later = elim (find state_discrete s came) [
  | none ↦ some (s.1 ∷ later)
  | some p ↦ reconstruct fuel came p (s.1 ∷ later)
]

module _ {W : Type 0} (m : MapInfo W) where
  abbrev pub id_of : ℕ → ℤ
  id_of i = elim (get_elem? m.nodes i) [ none ↦ minus_one | some n ↦ n.id ]

  -- The indices after a node, `aftNode.find(...)`.
  abbrev pub after : ℕ → List ℕ
  after i = elim (find ℕ_discrete i m.aft_node) [ none ↦ [] | some js ↦ js ]

  -- Every edge may be entered once from each node before it, and from none.
  abbrev pub degree : ℕ → ℕ
  degree i = length (after i)

  unfoldable pub degrees : ℕ → ℕ
  degrees zero = 0
  degrees (suc n) = degree n + degrees n

  -- The first tests on a neighbour: whether the search may go there from a node.
  unfoldable pub may_enter : Query W → ℕ → ℕ → ℕ → ℕ → Bool
  may_enter q start goal from next = elim (get_elem? m.nodes next) [
    | none ↦ false
    | some n ↦
        not (is_impassable n)
        && not (q.is_banned_edge (id_of from) (id_of next))
        && (next == goal || next == start || not (q.is_banned_node (id_of next)))
  ]

module _ {W : Type 0} ⦃d : Double W⦄ (sqrt : W → W) (top : List (OpenNode W) → ℕ) (m : MapInfo W)
    (q : Query W) where
  -- The difference of two nodes' coordinates; a node that is not there has no distance.
  unfoldable pub heuristic : ℕ → ℕ → W
  heuristic i j = elim (get_elem? m.nodes i) [
    | none ↦ d.infinity
    | some n ↦ elim (get_elem? m.nodes j) [
      | none ↦ d.infinity
      | some o ↦ d.add (magnitude sqrt (d.sub o.x n.x)) (magnitude sqrt (d.sub o.y n.y))
    ]
  ]

  unfoldable pub calculate_turn_penalty : ℤ → ℕ → ℕ → W
  unfolding calculate_turn_penalty_mm
  calculate_turn_penalty (negsuc p) curr next = d.nought
  calculate_turn_penalty (pos p) curr next = elim (get_elem? m.nodes p) [
    | none ↦ d.nought
    | some a ↦ elim (get_elem? m.nodes curr) [
      | none ↦ d.nought
      | some b ↦ elim (get_elem? m.nodes next) [
        | none ↦ d.nought
        | some c ↦ calculate_turn_penalty_mm sqrt a b c q.turn_penalty
      ]
    ]
  ]

  unfoldable pub edge_cost : ℕ → ℕ → W
  edge_cost curr next = elim (get_elem? m.nodes curr) [
    | none ↦ d.infinity
    | some n ↦ elim (get_elem? m.nodes next) [
      | none ↦ d.infinity
      | some o ↦ length_of sqrt (d.sub o.x n.x) (d.sub o.y n.y)
    ]
  ]

  -- `std::clamp(x, 0.0, 1.0)`
  abbrev pub clamped : W → W
  clamped x =
      if d.lt x d.nought
      then d.nought
      else if d.lt (d.of_int (pos 1)) x
      then d.of_int (pos 1)
      else x

  unfoldable pub penalty_cost : ℕ → W
  penalty_cost next = elim q.node_penalty [
    | none ↦ d.nought
    | some table ↦ elim (table (id_of m next)) [
      | none ↦ d.nought
      | some score ↦
          if d.lt d.nought q.node_penalty_mm
          then d.mul q.node_penalty_mm (clamped score)
          else d.nought
    ]
  ]

  -- `tentativeGScore`
  unfoldable pub tentative : OpenNode W → ℕ → W
  unfolding edge_cost calculate_turn_penalty penalty_cost
  tentative current next =
      d.add
        (d.add (d.add current.g_score (edge_cost current.state.1 next))
          (calculate_turn_penalty current.state.0 current.state.1 next))
        (penalty_cost next)

  abbrev pub improves : W → Option W → Bool
  improves g none = true
  improves g (some old) = d.lt g old

  unfoldable pub reach : ℕ → Search W → OpenNode W → ℕ → Search W
  unfolding tentative heuristic state_discrete
  reach goal s current next =
      let g = tentative current next in
      let state : State = (pos current.state.1, next) in
      if improves g (find state_discrete state s.g_scores)
      then record {
        open_set =
            record { state = state; g_score = g; f_score = d.add g (heuristic next goal) }
            ∷ s.open_set;
        closed_set = s.closed_set;
        g_scores = put state_discrete state g s.g_scores;
        came_from = put state_discrete state current.state s.came_from;
      }
      else s

  -- The body of the loop over the neighbours.
  unfoldable pub visit : ℕ → ℕ → Search W → OpenNode W → ℕ → Search W
  unfolding may_enter reach elem
  visit start goal s current next =
      if may_enter m q start goal current.state.1 next
        && not (elem state_discrete (pos current.state.1, next) s.closed_set)
      then reach goal s current next
      else s

  unfoldable pub visit_all : ℕ → ℕ → OpenNode W → List ℕ → Search W → Search W
  unfolding visit
  visit_all start goal current [] s = s
  visit_all start goal current (next ∷ rest) s =
      visit_all start goal current rest (visit start goal s current next)

  abbrev pub is_stale : OpenNode W → Option W → Bool
  is_stale current none = false
  is_stale current (some g) = d.lt g current.g_score

  unfoldable pub close : ℕ → ℕ → OpenNode W → Search W → Search W
  unfolding visit_all
  close start goal current s =
      visit_all start goal current (after m current.state.1)
        (record s { closed_set = current.state ∷ s.closed_set })

  unfoldable pub expand : ℕ → ℕ → OpenNode W → Search W → Outcome W
  unfolding close elem
  expand start goal current s =
      if is_stale current (find state_discrete current.state s.g_scores)
      then goes_on s
      else if current.state.1 == goal
      then reaches s
      else if elem state_discrete current.state s.closed_set
      then goes_on s
      else goes_on (close start goal current s)

  abbrev pub not_found : PathResult W
  not_found = record { path = []; distance = d.nought; found = false }

  abbrev pub found_path : W → List ℤ → PathResult W
  found_path distance path = record { path = path; distance = distance; found = true }

  abbrev pub with_ids : W → Option (List ℕ) → Option (PathResult W)
  with_ids distance none = none
  with_ids distance (some route) = some (found_path distance (map (id_of m) route))

  -- What follows a step: the path, or the next turn of the loop.
  abbrev pub finish :
      OpenNode W → Outcome W → (Search W → Option (PathResult W)) → Option (PathResult W)
  finish current (reaches s) next =
      with_ids current.g_score
        (reconstruct (suc (suc (length s.closed_set))) s.came_from current.state [])
  finish current (goes_on s) next = next s

  abbrev pub taken : OpenNode W → List (OpenNode W) → OpenNode W × List (OpenNode W)
  taken x xs = take_out (top (x ∷ xs)) x xs

  -- The `while` loop. The fuel is `enough`.
  unfoldable pub search : ℕ → ℕ → ℕ → Search W → Option (PathResult W)
  unfolding expand reconstruct take_out
  search start goal zero s = none
  search start goal (suc fuel) s = elim s.open_set [
    | [] ↦ some not_found
    | x ∷ xs ↦
        let (current, rest) = taken x xs in
        finish current (expand start goal current (record s { open_set = rest }))
          (search start goal fuel)
  ]

  abbrev pub start_search : ℕ → ℕ → Search W
  start_search start goal =
      let state : State = (minus_one, start) in
      record {
        open_set =
            record { state = state; g_score = d.nought; f_score = heuristic start goal } ∷ [];
        closed_set = [];
        g_scores = (state, d.nought) ∷ [];
        came_from = [];
      }

  abbrev pub enough : ℕ
  enough = suc (suc (suc (length m.nodes) * degrees m (length m.nodes)))

  abbrev pub passable_at : ℕ → Bool
  passable_at i = elim (get_elem? m.nodes i) [ none ↦ false | some n ↦ not (is_impassable n) ]

  unfoldable pub find_path : ℤ → ℤ → Option (PathResult W)
  unfolding search index_of heuristic degrees
  find_path start_id end_id = elim (index_of start_id 0 m.nodes) [
    | none ↦ some not_found
    | some start ↦ elim (index_of end_id 0 m.nodes) [
      | none ↦ some not_found
      | some goal ↦
          if start == goal
          then (if passable_at start
              then some (found_path d.nought (start_id ∷ []))
              else some not_found)
          else if not (passable_at goal)
          then some not_found
          else search start goal enough (start_search start goal)
    ]
  ]
