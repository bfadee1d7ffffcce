-- ===== src/MapInfo/Nodes.antt =====
-- `loadNodes` and `getNodeById`: the table of ids points at the nodes that have them.
use agvscheduling.Prelude.{
  ℕ, zero, suc, ◌≡◌, refl, ◌∙◌, ℤ, pos, ℤ_discrete, List, [], ◌∷◌, ◌++◌, some, ◌⊎◌, inl, inr, arith,
  length, length-append, get_elem?, find, put, find-put, Double,
}
use agvscheduling.MapInfo.{
  Node, Area, MapInfo, area_speed, load_loop, load_nodes, get_node, get_node_by_id, with_nodes,
}

-- An id that the table has, or that a raw node brings, is in the table that the loop builds.
abbrev HasId : ℤ → List (ℤ × ℕ) → Type 0
HasId k id2index = (i : ℕ) × (find ℤ_discrete k id2index ≡ some i)

put-HasId : (k j : ℤ) (i : ℕ) (m : List (ℤ × ℕ)) → HasId k m → HasId k (put ℤ_discrete j i m)
put-HasId k j i m (at, h) = elim (ℤ_discrete j k) [
  | yes here ↦ (i, ground (arith, find-put ℤ_discrete j k i m))
  | no away ↦ (at, ground (arith, find-put ℤ_discrete j k i m))
]

put-HasId_here : (k : ℤ) (i : ℕ) (m : List (ℤ × ℕ)) → HasId k (put ℤ_discrete k i m)
put-HasId_here k i m = (i, ground (arith, find-put ℤ_discrete k k i m))

module _ {W : Type 0} ⦃d : Double W⦄ where
  get_elem?-append_left :
      (ns ms : List (Node W)) (i : ℕ) (n : Node W)
      → get_elem? ns i ≡ some n
      → get_elem? (ns ++ ms) i ≡ some n
  get_elem?-append_left [] ms i n h = cc
  get_elem?-append_left (x ∷ ns) ms zero n h = h
  get_elem?-append_left (x ∷ ns) ms (suc i) n h = get_elem?-append_left ns ms i n h

  get_elem?-append_end :
      (ns : List (Node W)) (n : Node W) → get_elem? (ns ++ n ∷ []) (length ns) ≡ some n
  get_elem?-append_end [] n = refl
  get_elem?-append_end (x ∷ ns) n = get_elem?-append_end ns n

  -- Every entry of the table points at a node with that id and that index.
  abbrev pub IsIndexed : List (Node W) → List (ℤ × ℕ) → Type 0
  IsIndexed nodes id2index =
      (k : ℤ) (i : ℕ)
      → find ℤ_discrete k id2index ≡ some i
      → (n : Node W) × (get_elem? nodes i ≡ some n) × (n.id ≡ k) × (n.index ≡ i)

  empty-IsIndexed : IsIndexed [] []
  unfolding find
  empty-IsIndexed k i h = absurd (ground arith)

  append-IsIndexed :
      (nodes : List (Node W)) (id2index : List (ℤ × ℕ)) (n : Node W)
      → IsIndexed nodes id2index
      → n.index ≡ length nodes
      → IsIndexed (nodes ++ n ∷ []) (put ℤ_discrete n.id (length nodes) id2index)
  append-IsIndexed nodes id2index n w e k i h = elim (ℤ_discrete n.id k) [
    | yes here ↦
        let at_end : length nodes ≡ i =
          ground (arith, find-put ℤ_discrete n.id k (length nodes) id2index) in
        (n, rw (← at_end) (get_elem?-append_end nodes n), here, e ∙ at_end)
    | no away ↦
        let (old, held, id_of, index_of) =
          w k i (ground (arith, find-put ℤ_discrete n.id k (length nodes) id2index)) in
        (old, get_elem?-append_left nodes (n ∷ []) i old held, id_of, index_of)
  ]

  load_loop-IsIndexed :
      (speed : W) (areas : List (Area W)) (i : ℕ) (raws nodes : List (Node W))
      (id2index : List (ℤ × ℕ))
      → i ≡ length nodes
      → IsIndexed nodes id2index
      → IsIndexed
          (load_loop speed areas i raws (nodes, id2index)).0
          (load_loop speed areas i raws (nodes, id2index)).1
  unfolding load_loop
  load_loop-IsIndexed speed areas i [] nodes id2index e w = w
  load_loop-IsIndexed speed areas i (raw ∷ raws) nodes id2index e w =
      let n = record raw { index = i; max_speed = area_speed raw.x raw.y areas speed } in
      load_loop-IsIndexed speed areas (suc i) raws (nodes ++ n ∷ [])
        (put ℤ_discrete raw.id i id2index) (omega (arith, e, length-append nodes (n ∷ [])))
        (rw e (
          append-IsIndexed nodes id2index
            (record raw { index = length nodes; max_speed = area_speed raw.x raw.y areas speed }) w
            refl))

  load_loop-HasId :
      (speed : W) (areas : List (Area W)) (i : ℕ) (raws nodes : List (Node W))
      (id2index : List (ℤ × ℕ)) (k : ℤ)
      → HasId k id2index
        ⊎ ((at : ℕ) × (raw : Node W) × (get_elem? raws at ≡ some raw) × (raw.id ≡ k))
      → HasId k (load_loop speed areas i raws (nodes, id2index)).1
  unfolding load_loop
  load_loop-HasId speed areas i [] nodes id2index k (inl h) = h
  load_loop-HasId speed areas i [] nodes id2index k (inr (at, raw, h, e)) = absurd (ground arith)
  load_loop-HasId speed areas i (r ∷ raws) nodes id2index k (inl h) =
      load_loop-HasId speed areas (suc i) raws _ _ k (inl (put-HasId k r.id i id2index h))
  load_loop-HasId speed areas i (r ∷ raws) nodes id2index k (inr (zero, raw, h, e)) =
      let same : r.id ≡ k = ground (arith, h, e) in
      load_loop-HasId speed areas (suc i) raws _ _ k (inl (rw same (put-HasId_here k i id2index)))
  load_loop-HasId speed areas i (r ∷ raws) nodes id2index k (inr (suc at, raw, h, e)) =
      load_loop-HasId speed areas (suc i) raws _ _ k (inr (at, raw, h, e))

  get_node_by_id-found :
      (m : MapInfo W) (k : ℤ) (i : ℕ) (n : Node W)
      → find ℤ_discrete k m.id2index ≡ some i
      → get_elem? m.nodes i ≡ some n
      → get_node_by_id m k ≡ some n
  unfolding get_node_by_id get_node
  get_node_by_id-found m k i n h e = ground (arith, h, e)

  -- After `loadNodes` of a list with a node of the given id, `getNodeById` returns a node with that
  -- id, and the node's index is its place in the list of nodes.
  pub get_node_by_id-load_nodes :
      (m : MapInfo W) (r : Node W) (raws : List (Node W)) (areas : List (Area W)) (speed : W)
      (at : ℕ) (raw : Node W)
      → get_elem? (r ∷ raws) at ≡ some raw
      → (loaded : MapInfo W) × (load_nodes m (r ∷ raws) areas speed ≡ some loaded)
        × ((n : Node W) × (get_node_by_id loaded raw.id ≡ some n)
            × (n.id ≡ raw.id)
            × (get_node loaded (pos n.index) ≡ some n))
  unfolding load_nodes get_node_by_id get_node
  get_node_by_id-load_nodes m r raws areas speed at raw h =
      let (i, found) =
        load_loop-HasId speed areas 0 (r ∷ raws) [] [] raw.id (inr (at, raw, h, refl)) in
      let (n, here, named, placed) =
        load_loop-IsIndexed speed areas 0 (r ∷ raws) [] [] refl empty-IsIndexed raw.id i found in
      (
        _,
        refl,
        (
          n,
          get_node_by_id-found
              (with_nodes m areas speed (load_loop speed areas 0 (r ∷ raws) ([], []))) raw.id i n
              found here,
          named,
          rw placed here,
        ),
      )
