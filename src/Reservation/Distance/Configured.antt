-- ===== src/Reservation/Distance/Configured.antt =====
-- The table once `configureDistanceConflict` has run: its conflicts, and its safety from then on.
use agvscheduling.Prelude.{
  ℕ, ◌≡◌, ◌∙◌, sym, ap, subst, refl, true, ℤ, String, ℤ_discrete, List, [], ◌∷◌, find, elem, ◌⊎◌,
  ◌↔◌, inl, inr, arith, ℕ_discrete, Bool-cases, Double,
}
use agvscheduling.MapInfo.{Node, MapInfo}
use agvscheduling.Reservation.{Table, entry}
use agvscheduling.Reservation.Exclusion.{Conflicts, IsSymmetric, Holds, self_conflict}
use agvscheduling.Reservation.Blocked.{ListsItself}
use agvscheduling.Reservation.History.{
  Call, AreOrdered, end_time, fresh_table, run, run-IsSafe, Conflicts-run, IsSafe,
}
use agvscheduling.Reservation.Distance.{
  is_within, nearby_node_ids, fill_index, kept_threshold, next_index, configure_distance_conflict,
}
use agvscheduling.Reservation.Distance.Conflicts.{NodeAt}
use agvscheduling.Reservation.Distance.Filled.{
  same_node, HasUniqueIds, filled-ListsItself, Conflicts-Lists, Lists-Conflicts,
}
use agvscheduling.Reservation.Distance.Nearby.{
  CellsMeet, CellsMeet-sym, cells_of_map, elem-nearby_node_ids,
}

-- The square of a difference, in whichever order the two numbers are subtracted.
abbrev pub IsEven : {W : Type 0} → Double W → Type 0
IsEven d = (a b : _) → d.mul (d.sub a b) (d.sub a b) ≡ d.mul (d.sub b a) (d.sub b a)

only : (a b : ℤ) → elem ℤ_discrete b (a ∷ []) ≡ true → a ≡ b
unfolding elem
only a b h = ground arith

module _ {W : Type 0} ⦃d : Double W⦄ (floor : W → ℤ) where
  is_within-sym :
      IsEven d → (threshold : W) (n o : Node W) → is_within threshold n o ≡ is_within threshold o n
  unfolding is_within
  is_within-sym even threshold n o = rw (even n.x o.x, even n.y o.y) refl

  module _ (threshold : W) (nodes : List (Node W)) where
    abbrev ids : ℕ → Node W → List ℤ
    ids = nearby_node_ids floor threshold nodes (cells_of_map floor threshold nodes)

    nearby_self : (idx : ℕ) (n : Node W) → elem ℤ_discrete n.id (ids idx n) ≡ true
    nearby_self idx n = (elem-nearby_node_ids floor threshold nodes idx n n.id).1 (inl refl)

    module _ (t : Table) (filled : t.conflicts ≡ fill_index ids 0 nodes []) where
      grid-IsSymmetric : IsEven d → HasUniqueIds nodes → IsSymmetric t
      grid-IsSymmetric even unique a b c =
          elim (Conflicts-Lists nodes ids nearby_self t filled a b c) [
            | inl e ↦ subst (Conflicts t b) (sym e) (self_conflict t b)
            | inr l ↦
                elim ((elem-nearby_node_ids floor threshold nodes l.place l.node b).0 l.lists) [
                  | inl e ↦ subst (Conflicts t b) (sym e ∙ l.at.named) (self_conflict t b)
                  | inr r ↦ Lists-Conflicts nodes ids nearby_self t filled unique b a (record {
                    place = r.place;
                    node = r.other;
                    at = r.near.at;
                    lists = (elem-nearby_node_ids floor threshold nodes r.place r.other a).1 (
                        inr (record {
                          place = l.place;
                          other = l.node;
                          near = record {
                            elsewhere = λ e. r.near.elsewhere (sym e);
                            at = l.at;
                            within =
                                sym (is_within-sym even threshold l.node r.other) ∙ r.near.within;
                          };
                          cells = CellsMeet-sym floor threshold l.node r.other r.cells;
                        }));
                  })
                ]
          ]

  -- The table is a fresh one, with the index that `configureDistanceConflict` makes.
  module _ (m : MapInfo W) (mm : W) (t : Table) where
    abbrev configured : Table
    configured = configure_distance_conflict floor t m mm

    lone : ℕ → Node W → List ℤ
    lone idx n = n.id ∷ []

    lone_self : (idx : ℕ) (n : Node W) → elem ℤ_discrete n.id (lone idx n) ≡ true
    unfolding elem lone
    lone_self idx n = ground arith

    -- The index is filled by the grid search or by the loop that lists a node alone.
    conflicts-configure :
        (configured.conflicts ≡ fill_index (ids (kept_threshold mm) m.nodes) 0 m.nodes [])
        ⊎ (configured.conflicts ≡ fill_index lone 0 m.nodes [])
    unfolding configure_distance_conflict next_index lone
    conflicts-configure = elim (Bool-cases (d.lt d.nought (kept_threshold mm))) [
      | inl e ↦ inl (rw e refl)
      | inr e ↦ inr (rw e refl)
    ]

    -- Whatever the threshold: each entry of the index lists its own node.
    pub configure_distance_conflict-ListsItself :
        ListsItself (configure_distance_conflict floor t m mm)
    configure_distance_conflict-ListsItself = elim conflicts-configure [
      | inl e ↦ filled-ListsItself m.nodes _ (nearby_self (kept_threshold mm) m.nodes) configured e
      | inr e ↦ filled-ListsItself m.nodes lone lone_self configured e
    ]

    -- With no valid id twice: the conflicts are symmetric, whatever the threshold.
    pub configure_distance_conflict-IsSymmetric :
        IsEven d → HasUniqueIds m.nodes → IsSymmetric (configure_distance_conflict floor t m mm)
    unfolding lone
    configure_distance_conflict-IsSymmetric even unique = elim conflicts-configure [
      | inl e ↦ grid-IsSymmetric (kept_threshold mm) m.nodes configured e even unique
      | inr e ↦ lone-IsSymmetric e
    ]
      where
        lone-IsSymmetric :
            configured.conflicts ≡ fill_index lone 0 m.nodes [] → IsSymmetric configured
        lone-IsSymmetric e a b c =
            elim (Conflicts-Lists m.nodes lone lone_self configured e a b c) [
              | inl same ↦ subst (Conflicts configured b) (sym same) (self_conflict configured b)
              | inr l ↦
                  subst (Conflicts configured b) (sym (only l.node.id b l.lists) ∙ l.at.named)
                    (self_conflict configured b)
            ]

    conflicts-grid :
        d.lt d.nought mm ≡ true
        → d.is_finite mm ≡ true
        → configured.conflicts ≡ fill_index (ids mm m.nodes) 0 m.nodes []
    unfolding configure_distance_conflict next_index
    conflicts-grid positive finite =
        let kept : kept_threshold mm ≡ mm = rw (finite, positive) refl in rw (kept, positive) refl

    pub configure_distance_conflict_lem :
        d.lt d.nought mm ≡ true
        → d.is_finite mm ≡ true
        → HasUniqueIds m.nodes
        → (i j : ℕ) (n o : Node W) (a b : ℤ) → NodeAt m.nodes i n a
        → NodeAt m.nodes j o b
        → Conflicts (configure_distance_conflict floor t m mm) a b
          ↔ ((a ≡ b) ⊎ ((is_within mm n o ≡ true) × CellsMeet floor mm n o))
    configure_distance_conflict_lem positive finite unique i j n o a b at_n at_o =
        let filled = conflicts-grid positive finite in
        let self = nearby_self mm m.nodes in
        let nearby = elem-nearby_node_ids floor mm m.nodes in
        let is_n = λ (k : ℕ) (x : Node W) (at_x : NodeAt m.nodes k x a).
          same_node m.nodes i k x n (unique k i x n a at_x at_n) at_x.listed at_n.listed in
        let is_o = λ (k : ℕ) (x : Node W) (at_x : NodeAt m.nodes k x b).
          same_node m.nodes j k x o (unique k j x o b at_x at_o) at_x.listed at_o.listed in
        (
          λ c. elim (Conflicts-Lists m.nodes _ self configured filled a b c) [
            | inl e ↦ inl e
            | inr l ↦ elim ((nearby l.place l.node b).0 l.lists) [
              | inl e ↦ inl (sym l.at.named ∙ e)
              | inr r ↦ inr (
                  rw (← is_n l.place l.node l.at, ← is_o r.place r.other r.near.at)
                    (r.near.within, r.cells))
            ]
          ],
          λ h. elim h [
            | inl e ↦ subst (Conflicts configured a) e (self_conflict configured a)
            | inr (within, cells) ↦ elim (ℕ_discrete j i) [
              | yes e ↦
                  subst (Conflicts configured a)
                    (sym at_n.named
                      ∙ ap (λ x. x.id) (sym (same_node m.nodes i j o n e at_o.listed at_n.listed))
                      ∙ at_o.named)
                    (self_conflict configured a)
              | no ne ↦ Lists-Conflicts m.nodes _ self configured filled unique a b (record {
                place = i;
                node = n;
                at = at_n;
                lists = (nearby i n b).1 (
                    inr (record {
                      place = j;
                      other = o;
                      near = record { elsewhere = ne; at = at_o; within = within };
                      cells = cells;
                    }));
              })
            ]
          ],
        )

  -- A table that is constructed and configured is safe at the start.
  configured_fresh-IsSafe :
      (hash : ℤ → ℕ) (m : MapInfo W) (mm : W)
      → IsEven d
      → HasUniqueIds m.nodes
      → IsSafe hash (configure_distance_conflict floor (fresh_table []) m mm) 0
  unfolding configure_distance_conflict entry find
  configured_fresh-IsSafe hash m mm even unique = record {
    shaped = record { unique = λ i. tt; placed = λ i j e h. cc };
    symmetric = configure_distance_conflict-IsSymmetric m mm (fresh_table []) even unique;
    exclusive = λ a b x y (e, held, alive, o) q k. cc;
  }

  -- A table that is constructed, configured with a positive, finite threshold and a map with no
  -- valid id twice, and then called at times that do not fall: at the time of the last call no two
  -- AGVs hold nodes whose distance is within the threshold and whose cells are the same or touch.
  pub configured-run-keeps_apart :
      (hash : ℤ → ℕ) (m : MapInfo W) (mm : W) (cs : List (ℕ × Call))
      → IsEven d
      → d.lt d.nought mm ≡ true
      → d.is_finite mm ≡ true
      → HasUniqueIds m.nodes
      → AreOrdered 0 cs
      → (i j : ℕ) (n o : Node W) (a b : ℤ) (x y : String) → NodeAt m.nodes i n a
      → NodeAt m.nodes j o b
      → is_within mm n o ≡ true
      → CellsMeet floor mm n o
      → let t = run hash (configure_distance_conflict floor (fresh_table []) m mm) cs in
        Holds hash t (end_time 0 cs) a x → Holds hash t (end_time 0 cs) b y → x ≡ y
  configured-run-keeps_apart hash m mm cs even positive finite unique ordered i j n o a b x y at_n
        at_o within cells holds_a holds_b =
      let start = configure_distance_conflict floor (fresh_table []) m mm in
      let safe =
        run-IsSafe hash start 0 cs ordered (configured_fresh-IsSafe hash m mm even unique) in
      let c =
        (configure_distance_conflict_lem m mm (fresh_table []) positive finite unique i j n o a b
            at_n at_o).1
          (inr (within, cells)) in
      safe.exclusive a b x y holds_a holds_b (Conflicts-run hash start cs a b c)
