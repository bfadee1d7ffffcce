-- ===== src/AStar/Paths.antt =====
-- `findPath` answers, and a path that it finds is a route of the map.
use agvscheduling.Prelude.{
  ℕ, suc, ◌+◌, ◌<◌, ◌≡◌, ◌∙◌, sym, refl, ap, true, ℤ, ℤ_discrete, List, [], ◌∷◌, Option, none, some,
  ite, inl, inr, arith, Bool-cases, Option-cases, ==_iff, ◌==◌, length, get_elem?, map, Double,
}
use agvscheduling.MapInfo.{Node, MapInfo}
use agvscheduling.AStar.{
  Query, OpenNode, PathResult, id_of, not_found, found_path, start_search, enough, passable_at,
  index_of, find_path,
}
use agvscheduling.AStar.Found.{search-answers, start-IsRunning}
use agvscheduling.AStar.Routes.{IsRoute}

-- The index of an id is that of a node with the id.
record HasIndex {W : Type 0} (id : ℤ) (i j : ℕ) (ns : List (Node W)) : Type 0 where
  place : ℕ
  node : Node W
  at : j ≡ i + place
  listed : get_elem? ns place ≡ some node
  named : node.id ≡ id
  small : place < length ns

index_of_lem :
    {W : Type 0} (id : ℤ) (i j : ℕ) (ns : List (Node W))
    → index_of id i ns ≡ some j
    → HasIndex id i j ns
unfolding index_of
index_of_lem id i j [] h = absurd (ground (arith, h))
index_of_lem id i j (n ∷ ns) h = elim (Option-cases (index_of id (suc i) ns)) [
  | inr (k, e) ↦
      let later : index_of id i (n ∷ ns) ≡ some k = rw (index_of, e) refl in
      let r = index_of_lem id (suc i) k ns e in
      record {
        place = suc r.place;
        node = r.node;
        at = omega (arith, r.at, some_index k j (sym later ∙ h));
        listed = r.listed;
        named = r.named;
        small = omega (arith, r.small);
      }
  | inl e ↦
      let here : index_of id i (n ∷ ns) ≡ ite (ℤ_discrete n.id id) (some i) none =
        rw (index_of, e) refl in
      let (same, named) = some_here (sym here ∙ h) in
      record {
        place = 0;
        node = n;
        at = omega (arith, same);
        listed = refl;
        named = named;
        small = omega arith;
      }
]
  where
    some_index : (a b : ℕ) → Path (Option ℕ) (some a) (some b) → a ≡ b
    some_index a b p = cc

    some_here :
        Path (Option ℕ) (ite (ℤ_discrete n.id id) (some i) none) (some j) → (i ≡ j) × (n.id ≡ id)
    some_here p = ground arith

id_at : {W : Type 0} (m : MapInfo W) (id : ℤ) (j : ℕ) → HasIndex id 0 j m.nodes → id_of m j ≡ id
id_at m id j i =
    let same : j ≡ i.place = omega (arith, i.at) in
    let listed : get_elem? m.nodes j ≡ some i.node = rw same i.listed in rw (id_of, listed) i.named

module _ {W : Type 0} ⦃d : Double W⦄ (sqrt : W → W) (top : List (OpenNode W) → ℕ) (m : MapInfo W)
    (q : Query W) where
  -- No path was found, or the path has the ids of a route between the nodes of the two ids.
  pub data Answers (start_id end_id : ℤ) (r : PathResult W) : Type 0 where
    no_path : r ≡ not_found sqrt top m q → Answers start_id end_id r
    path_of :
        (start goal : ℕ) (route : List ℕ)
        → index_of start_id 0 m.nodes ≡ some start
        → index_of end_id 0 m.nodes ≡ some goal
        → r.found ≡ true
        → r.path ≡ map (id_of m) route
        → IsRoute m q start goal route
        → Answers start_id end_id r

  abbrev Result : ℤ → ℤ → Type 0
  Result start_id end_id =
      (r : PathResult W) × (find_path sqrt top m q start_id end_id ≡ some r)
      × Answers start_id end_id r

  nothing :
      (start_id end_id : ℤ)
      → find_path sqrt top m q start_id end_id ≡ some (not_found sqrt top m q)
      → Result start_id end_id
  nothing start_id end_id e = (not_found sqrt top m q, e, no_path refl)

  -- Whatever the map, the query and the costs, `findPath` ends. Its result has no path, or a path whose
  -- nodes are those of a route: it begins at the node of the first id and ends at that of the second,
  -- each step is an edge of the map that is not banned, and each node that it enters lets AGVs pass and
  -- is not banned, but for the two ends.
  pub find_path-Answers :
      (start_id end_id : ℤ)
      → (r : PathResult W) × (find_path sqrt top m q start_id end_id ≡ some r)
        × Answers start_id end_id r
  unfolding find_path
  find_path-Answers start_id end_id = elim (Option-cases (index_of start_id 0 m.nodes)) [
    | inl e ↦ nothing start_id end_id (rw (find_path, e) refl)
    | inr (start, e) ↦ elim (Option-cases (index_of end_id 0 m.nodes)) [
      | inl e' ↦ nothing start_id end_id (rw (find_path, e, e') refl)
      | inr (goal, e') ↦
          let i = index_of_lem start_id 0 start m.nodes e in
          elim (Bool-cases (start == goal)) [
            | inl same ↦ elim (Bool-cases (passable_at sqrt top m q start)) [
              | inr p ↦ nothing start_id end_id (rw (find_path, e, e', same, p) refl)
              | inl p ↦ (
                found_path sqrt top m q d.nought (start_id ∷ []),
                rw (find_path, e, e', same, p) refl,
                path_of start goal (start ∷ []) e e' refl
                    (ap (λ x. x ∷ []) (sym (id_at m start_id start i)))
                    (record { begins = refl; ends = (==_iff start goal).0 same; linked = tt }),
              )
            ]
            | inr apart ↦ elim (Bool-cases (passable_at sqrt top m q goal)) [
              | inr p ↦ nothing start_id end_id (rw (find_path, e, e', apart, p) refl)
              | inl p ↦
                  let (r, found, answer) =
                    search-answers sqrt top m q start goal (enough sqrt top m q)
                      (start_search sqrt top m q start goal)
                      (start-IsRunning sqrt top m q start goal (omega (arith, i.at, i.small))) in
                  (
                    r,
                    rw (find_path, e, e', apart, p) found,
                    elim answer [
                      | inl none_ ↦ no_path none_
                      | inr (route, yes_, path, is_route) ↦
                          path_of start goal route e e' yes_ path is_route
                    ],
                  )
            ]
          ]
    ]
  ]
