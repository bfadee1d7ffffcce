-- ===== src/Reservation/Distance.antt =====
-- `NodeReservationTable::configureDistanceConflict`: the nodes that a node excludes, found on a grid
-- of cells as wide as the threshold. `floor` is `std::floor` and the conversion to a `long long`.
pub mod Grid
pub mod Conflicts
pub mod Nearby
pub mod Filled
pub mod Configured
mod Tests
use Prim.Native.Nat.{bit_xor}
use agvscheduling.Prelude.{
  ℕ, suc, ◌+◌, ◌%◌, ◌^◌, Bool, true, false, not, ◌&&◌, ◌||◌, ℤ, pos, negsuc, minus_one, ◌+ℤ◌,
  ℤ_discrete, ℕ_discrete, leb_ℤ, is_negative, List, [], ◌∷◌, ◌++◌, Option, none, some, find, put,
  if◌then◌else◌, ◌==◌, get_elem?, sort_unique, Double,
}
use agvscheduling.Cost.{shifted, pattern_of}
use agvscheduling.MapInfo.{Node, MapInfo, push_at}
use agvscheduling.Reservation.{Table}

pub record DistanceConflictIndex (W : Type 0) : Type 0 where
  pub threshold_mm : W
  pub node_ids_by_node_id : List (ℤ × List ℤ)

-- The low 32 bits of a `long long`.
abbrev pub low_word : ℤ → ℕ
low_word c = pattern_of c % 2 ^ 32

pub cell_key : ℤ → ℤ → ℕ
cell_key cx cy = bit_xor (shifted cx 32) (low_word cy)

-- `for (long long d = -1; d <= 1; ++d)`, with what the body appends.
pub over_steps : (ℤ → List ℤ) → List ℤ
over_steps body = body minus_one ++ (body (pos 0) ++ body (pos 1))

-- The nodes of a cell, where it has any.
abbrev pub listed_in : List (ℕ × List ℕ) → ℕ → List ℕ
listed_in cells key = elim (find ℕ_discrete key cells) [ none ↦ [] | some js ↦ js ]

-- A loop that fills the index: `nodeIdsByNodeId[node.id] = ...` for each node with a valid id.
pub fill_index :
    {W : Type 0} → (ℕ → Node W → List ℤ) → ℕ → List (Node W) → List (ℤ × List ℤ) → List (ℤ × List ℤ)
fill_index ids idx [] index = index
fill_index ids idx (n ∷ ns) index =
    fill_index ids (suc idx) ns
      (if is_negative n.id then index else put ℤ_discrete n.id (ids idx n) index)

module _ {W : Type 0} ⦃d : Double W⦄ where
  -- The threshold that is kept: 0.0 for one that is not finite or not positive.
  abbrev pub kept_threshold : W → W
  kept_threshold mm = if d.is_finite mm && d.lt d.nought mm then mm else d.nought

  -- `distSq <= thresholdSq`
  pub is_within : W → Node W → Node W → Bool
  is_within threshold n other =
      let diff_x = d.sub n.x other.x in
      let diff_y = d.sub n.y other.y in
      let dist_sq = d.add (d.mul diff_x diff_x) (d.mul diff_y diff_y) in
      let threshold_sq = d.mul threshold threshold in
      d.lt dist_sq threshold_sq || d.eq dist_sq threshold_sq

  module _ (threshold : W) (nodes : List (Node W)) where
    -- What the body of the inner loop appends for a node of the cell.
    abbrev pub near_node : Node W → Option (Node W) → List ℤ
    near_node n none = []
    near_node n (some other) =
        if not (is_negative other.id) && is_within threshold n other then other.id ∷ [] else []

    pub near_in_cell : ℕ → Node W → List ℕ → List ℤ
    unfolding is_within
    near_in_cell idx n [] = []
    near_in_cell idx n (j ∷ js) =
        let rest = near_in_cell idx n js in
        if j == idx then rest else near_node n (get_elem? nodes j) ++ rest

module _ {W : Type 0} ⦃d : Double W⦄ (floor : W → ℤ) where
  abbrev pub cell_coord : W → W → ℤ
  cell_coord cell_size value = floor (d.div value cell_size)

  abbrev pub cell_of : W → Node W → ℕ
  cell_of cell_size n = cell_key (cell_coord cell_size n.x) (cell_coord cell_size n.y)

  -- The loop that fills `nodeIndicesByCell`.
  pub group_by_cell : W → ℕ → List (Node W) → List (ℕ × List ℕ) → List (ℕ × List ℕ)
  unfolding cell_key push_at
  group_by_cell cell_size idx [] cells = cells
  group_by_cell cell_size idx (n ∷ ns) cells =
      group_by_cell cell_size (suc idx) ns
        (if is_negative n.id then cells else push_at (cell_of cell_size n) idx cells)

  module _ (threshold : W) (nodes : List (Node W)) where
    pub nearby_node_ids : List (ℕ × List ℕ) → ℕ → Node W → List ℤ
    unfolding near_in_cell over_steps cell_key
    nearby_node_ids cells idx n =
        let near = over_steps (λ dx. over_steps (λ dy. near_in_cell threshold nodes idx n (
          listed_in cells
            (cell_key (cell_coord threshold n.x +ℤ dx) (cell_coord threshold n.y +ℤ dy))))) in
        sort_unique ℤ_discrete leb_ℤ (n.id ∷ near)

  pub next_index : MapInfo W → W → DistanceConflictIndex W
  unfolding group_by_cell fill_index nearby_node_ids
  next_index m mm =
      let threshold = kept_threshold mm in
      let cells = group_by_cell threshold 0 m.nodes [] in
      record {
        threshold_mm = threshold;
        node_ids_by_node_id =
            if d.lt d.nought threshold
            then fill_index (nearby_node_ids threshold m.nodes cells) 0 m.nodes []
            else fill_index (λ _ n. n.id ∷ []) 0 m.nodes [];
      }

  unfoldable pub configure_distance_conflict : Table → MapInfo W → W → Table
  unfolding next_index
  configure_distance_conflict t m mm = record t {
    conflicts = (next_index m mm).node_ids_by_node_id;
  }
