-- ===== src/Reservation/Distance/Nearby.antt =====
-- What the grid search lists for a node.
use agvscheduling.Prelude.{
  ℕ, ◌≡◌, ◌∙◌, sym, ap, true, ℤ, ◌+ℤ◌, ℤ_discrete, ℕ_discrete, leb_ℤ, List, [], ◌∷◌, find, elem,
  elem-sort_unique, ◌⊎◌, ◌↔◌, inl, inr, arith, Double,
}
use agvscheduling.MapInfo.{Node}
use agvscheduling.Reservation.Distance.{
  cell_key, cell_coord, cell_of, group_by_cell, near_in_cell, nearby_node_ids, listed_in,
  over_steps,
}
use agvscheduling.Reservation.Distance.Grid.{
  IsStep, opposite, opposite-IsStep, cell_key-opposite, elem-over_steps, elem-group_by_cell,
}
use agvscheduling.Reservation.Distance.Conflicts.{IsNear, elem-near_in_cell}
use agvscheduling.Reservation.Distance.Filled.{same_node}

not_listed : (key j : ℕ) → ¬ (elem ℕ_discrete j (listed_in [] key) ≡ true)
unfolding find elem
not_listed key j h = ground arith

elem_cons_iff :
    (b c : ℤ) (xs : List ℤ)
    → (elem ℤ_discrete b (c ∷ xs) ≡ true) ↔ ((c ≡ b) ⊎ (elem ℤ_discrete b xs ≡ true))
unfolding elem
elem_cons_iff b c xs = ground arith

module _ {W : Type 0} ⦃d : Double W⦄ (floor : W → ℤ) (threshold : W) where
  -- The cells of two nodes are the same or touch, as far as their keys tell.
  pub record CellsMeet (n other : Node W) : Type 0 where
    pub dx : ℤ
    pub dy : ℤ
    pub step_x : IsStep dx
    pub step_y : IsStep dy
    pub meets :
        cell_key (cell_coord floor threshold n.x +ℤ dx) (cell_coord floor threshold n.y +ℤ dy)
        ≡ cell_of floor threshold other

  pub CellsMeet-sym : (n other : Node W) → CellsMeet n other → CellsMeet other n
  CellsMeet-sym n other c = record {
    dx = opposite c.dx;
    dy = opposite c.dy;
    step_x = opposite-IsStep c.dx c.step_x;
    step_y = opposite-IsStep c.dy c.step_y;
    meets = cell_key-opposite _ _ _ _ c.dx c.dy c.step_x c.step_y c.meets;
  }

  module _ (nodes : List (Node W)) where
    pub record IsNeighbour (idx : ℕ) (n : Node W) (b : ℤ) : Type 0 where
      pub place : ℕ
      pub other : Node W
      pub near : IsNear threshold nodes idx n b place other
      pub cells : CellsMeet n other

    abbrev pub cells_of_map : List (ℕ × List ℕ)
    cells_of_map = group_by_cell floor threshold 0 nodes []

    -- The ids that the loops over the cells find.
    around : ℕ → Node W → ℤ → ℤ → List ℤ
    around idx n dx dy = near_in_cell threshold nodes idx n (
        listed_in cells_of_map
          (cell_key (cell_coord floor threshold n.x +ℤ dx) (cell_coord floor threshold n.y +ℤ dy)))

    elem-around :
        (idx : ℕ) (n : Node W) (b : ℤ)
        → ((dx : ℤ) × (dy : ℤ) × IsStep dx
            × IsStep dy
            × (elem ℤ_discrete b (around idx n dx dy) ≡ true))
          ↔ IsNeighbour idx n b
    unfolding around elem
    elem-around idx n b = (
      λ (dx, dy, step_x, step_y, m).
          let key =
            cell_key (cell_coord floor threshold n.x +ℤ dx)
              (cell_coord floor threshold n.y +ℤ dy) in
          let (place, k, other, near) = (elem-near_in_cell threshold nodes idx n b _).0 m in
          elim ((elem-group_by_cell floor threshold nodes 0 [] key place).0 k) [
            | inl none_ ↦ absurd (not_listed key place none_)
            | inr s ↦
                let same_place : s.place ≡ place = omega (arith, s.numbered) in
                let same : s.node ≡ other =
                  same_node nodes place s.place s.node other same_place s.listed near.at.listed in
                record {
                  place = place;
                  other = other;
                  near = near;
                  cells = record {
                    dx = dx;
                    dy = dy;
                    step_x = step_x;
                    step_y = step_y;
                    meets = sym s.inside ∙ ap (cell_of floor threshold) same;
                  };
                }
          ],
      λ r.
          let key =
            cell_key (cell_coord floor threshold n.x +ℤ r.cells.dx)
              (cell_coord floor threshold n.y +ℤ r.cells.dy) in
          (
            r.cells.dx,
            r.cells.dy,
            r.cells.step_x,
            r.cells.step_y,
            (elem-near_in_cell threshold nodes idx n b _).1 (
              r.place,
              (elem-group_by_cell floor threshold nodes 0 [] key r.place).1 (
                  inr (record {
                    place = r.place;
                    node = r.other;
                    listed = r.near.at.listed;
                    valid = r.near.at.valid;
                    inside = sym r.cells.meets;
                    numbered = omega arith;
                  })),
              r.other,
              r.near,
            ),
          ),
    )

    pub elem-nearby_node_ids :
        (idx : ℕ) (n : Node W) (b : ℤ)
        → (elem ℤ_discrete b (nearby_node_ids floor threshold nodes cells_of_map idx n) ≡ true)
          ↔ ((n.id ≡ b) ⊎ IsNeighbour idx n b)
    unfolding nearby_node_ids around
    elem-nearby_node_ids idx n b =
        let found = over_steps (λ dx. over_steps (around idx n dx)) in
        let sorted = elem-sort_unique ℤ_discrete leb_ℤ b (n.id ∷ found) in
        let (outer, outer') = elem-over_steps b (λ dx. over_steps (around idx n dx)) in
        let (there, back) = elem-around idx n b in
        let (split, join) = elem_cons_iff b n.id found in
        (
          λ m. elim (split (sym sorted ∙ m)) [
            | inl here ↦ inl here
            | inr k ↦
                let (dx, step_x, k') = outer k in
                let (dy, step_y, k'') = (elem-over_steps b (around idx n dx)).0 k' in
                inr (there (dx, dy, step_x, step_y, k''))
          ],
          λ h.
              sorted
              ∙ join (elim h [
                | inl here ↦ inl here
                | inr r ↦
                    let (dx, dy, step_x, step_y, k) = back r in
                    inr
                      (outer' (dx, step_x, (elem-over_steps b (around idx n dx)).1 (dy, step_y, k)))
              ]),
        )
