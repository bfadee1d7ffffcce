-- ===== src/MapInfo.antt =====
-- include/data/MapInfo.h and src/data/MapInfo.cpp: the nodes and edges of the map, and their
-- indices. A method that throws returns `none`. A coordinate, a distance or a speed is a `double`.
pub mod Nearest
pub mod Nodes
mod Tests
use Prim.Native.Nat.{bit_or}
use agvscheduling.Prelude.{
  ℕ, zero, suc, ◌+◌, ◌*◌, ◌%◌, ◌^◌, Bool, true, false, not, ◌&&◌, ◌||◌, ℤ, pos, negsuc, minus_one,
  ℤ_discrete, ℕ_discrete, String, List, [], ◌∷◌, ◌++◌, Option, none, some, ite, if◌then◌else◌, ltb,
  ◌==◌, length, get_elem?, find, put, Double,
}
use agvscheduling.UnionFind.{UnionFind, make, unite, is_connected}

pub record Node (W : Type 0) : Type 0 where
  pub id : ℤ
  pub index : ℕ
  pub node_type : ℤ
  pub x : W
  pub y : W
  pub allow_pass : ℤ
  pub allow_rot : ℤ
  pub allow_pass_amr_type_list : List String
  pub allow_rot_amr_type_list : List String
  pub max_speed : W

pub record Edge (W : Type 0) : Type 0 where
  pub start_node_id : ℤ
  pub end_node_id : ℤ
  pub weight : W
  pub mode : ℤ
  pub direction : ℕ
  pub max_speed : W

pub record Area (W : Type 0) : Type 0 where
  pub min_x : W
  pub max_x : W
  pub min_y : W
  pub max_y : W
  pub max_speed : W

-- `reach_analyzer` is `none` where the pointer is null.
pub record MapInfo (W : Type 0) : Type 0 where
  pub nodes : List (Node W)
  pub id2index : List (ℤ × ℕ)
  pub pre_node : List (ℕ × List ℕ)
  pub aft_node : List (ℕ × List ℕ)
  pub edges : List (Edge W)
  pub edge_index : List (ℕ × ℕ)
  pub areas : List (Area W)
  pub reach_analyzer : Option UnionFind
  pub global_max_speed : W
  pub amr_type_num : ℤ

abbrev pub is_int : ℤ → ℤ → Bool
is_int a b = ite (ℤ_discrete a b) true false

-- `startIndex << 32 | endIndex & 0xFFFFFFFF`, in a word of 64 bits.
pub get_edge_key : ℕ → ℕ → ℕ
get_edge_key start_index end_index = bit_or (start_index * 2 ^ 32 % 2 ^ 64) (end_index % 2 ^ 32)

-- `map[k].push_back(v)`
unfoldable pub push_at : ℕ → ℕ → List (ℕ × List ℕ) → List (ℕ × List ℕ)
push_at k v m = elim (find ℕ_discrete k m) [
  | none ↦ put ℕ_discrete k (v ∷ []) m
  | some vs ↦ put ℕ_discrete k (vs ++ v ∷ []) m
]

-- The `switch` on the direction of an edge.
pub reverse_direction : ℕ → ℕ
reverse_direction dir =
    if dir == 1
    then 3
    else if dir == 2
    then 4
    else if dir == 3
    then 1
    else if dir == 4
    then 2
    else 0

abbrev pub unite_option : Option UnionFind → ℕ → ℕ → Option UnionFind
unite_option none x y = none
unite_option (some u) x y = some (unite u x y)

abbrev pub or_empty : Option (List ℕ) → List ℕ
or_empty none = []
or_empty (some is) = is

module _ {W : Type 0} ⦃d : Double W⦄ where
  -- `a <= b`, `fabs(a)` and `std::min(a, b)`
  abbrev pub fle : W → W → Bool
  fle a b = d.lt a b || d.eq a b

  abbrev pub fabs : W → W
  fabs a = if d.lt a d.nought then d.sub d.nought a else a

  abbrev pub fmin : W → W → W
  fmin a b = if d.lt b a then b else a

  -- 1e-6
  abbrev pub eps : W
  eps = d.div (d.of_int (pos 1)) (d.of_int (pos 1000000))

  pub calculate_direction : W → W → ℕ
  calculate_direction dx dy =
      if d.lt (fabs dy) (fabs dx)
      then (if d.lt eps dx then 1 else 3)
      else (if d.lt eps dy then 2 else 4)

  pub area_speed : W → W → List (Area W) → W → W
  area_speed x y [] speed = speed
  area_speed x y (a ∷ rest) speed = area_speed x y rest (
      if fle a.min_x x && (fle x a.max_x && (fle a.min_y y && fle y a.max_y))
      then fmin speed a.max_speed
      else speed)

  -- The loop of `loadNodes`, from the index `i` on.
  pub load_loop :
      W
      → List (Area W)
      → ℕ
      → List (Node W)
      → List (Node W) × List (ℤ × ℕ)
      → List (Node W) × List (ℤ × ℕ)
  unfolding area_speed
  load_loop speed areas i [] built = built
  load_loop speed areas i (raw ∷ rest) (nodes, id2index) = load_loop speed areas (suc i) rest (
    nodes ++ ((record raw { index = i; max_speed = area_speed raw.x raw.y areas speed }) ∷ []),
    put ℤ_discrete raw.id i id2index,
  )

  abbrev pub with_nodes : MapInfo W → List (Area W) → W → List (Node W) × List (ℤ × ℕ) → MapInfo W
  with_nodes m areas speed (nodes, id2index) = record m {
    nodes = nodes;
    id2index = id2index;
    areas = areas;
    reach_analyzer = some (make (length nodes));
    global_max_speed = speed;
  }

  pub load_nodes : MapInfo W → List (Node W) → List (Area W) → W → Option (MapInfo W)
  unfolding load_loop
  load_nodes m [] areas speed = none
  load_nodes m (raw ∷ rest) areas speed =
      some (with_nodes m areas speed (load_loop speed areas 0 (raw ∷ rest) ([], [])))

  -- An edge is pushed back, and its key and the neighbour tables get its ends.
  pub add_edge : MapInfo W → Edge W → ℕ → ℕ → MapInfo W
  unfolding get_edge_key push_at
  add_edge m e start_index end_index = record m {
    edges = m.edges ++ e ∷ [];
    edge_index = put ℕ_discrete (get_edge_key start_index end_index) (length m.edges) m.edge_index;
    aft_node = push_at start_index end_index m.aft_node;
    pre_node = push_at end_index start_index m.pre_node;
  }

  -- The rest of the loop's body, for an edge between two nodes of the map.
  pub link_nodes : MapInfo W → Edge W → ℕ → Node W → ℕ → Node W → MapInfo W
  unfolding calculate_direction add_edge reverse_direction
  link_nodes m raw i ni j nj =
      if is_int ni.node_type minus_one || is_int nj.node_type minus_one
      then m
      else (let dir = calculate_direction (d.sub nj.x ni.x) (d.sub nj.y ni.y) in
          let one_way = add_edge m (record raw { direction = dir }) i j in
          let both_ways =
            if is_int raw.mode (pos 2)
            then add_edge one_way
                (record raw {
                  start_node_id = raw.end_node_id;
                  end_node_id = raw.start_node_id;
                  direction = reverse_direction dir;
                })
                j i
            else one_way in
          record both_ways { reach_analyzer = unite_option both_ways.reach_analyzer i j })

  pub load_edge : MapInfo W → Edge W → MapInfo W
  unfolding link_nodes
  load_edge m raw =
      if is_int raw.mode (pos 0) then m else elim (find ℤ_discrete raw.start_node_id m.id2index) [
        | none ↦ m
        | some i ↦ elim (find ℤ_discrete raw.end_node_id m.id2index) [
          | none ↦ m
          | some j ↦ elim (get_elem? m.nodes i) [
            | none ↦ m
            | some ni ↦ elim (get_elem? m.nodes j) [
              | none ↦ m
              | some nj ↦ link_nodes m raw i ni j nj
            ]
          ]
        ]
      ]

  pub load_edge_loop : MapInfo W → List (Edge W) → MapInfo W
  unfolding load_edge
  load_edge_loop m [] = m
  load_edge_loop m (raw ∷ rest) = load_edge_loop (load_edge m raw) rest

  pub load_edges : MapInfo W → List (Edge W) → Option (MapInfo W)
  unfolding load_edge_loop
  load_edges m raws = elim m.nodes [
    | [] ↦ none
    | _ ∷ _ ↦ some (
        load_edge_loop (record m { edges = []; edge_index = []; pre_node = []; aft_node = [] })
          raws)
  ]

  unfoldable pub is_connected_by_id : MapInfo W → ℤ → ℤ → Bool
  is_connected_by_id m start_node_id end_node_id = elim (find ℤ_discrete start_node_id m.id2index) [
    | none ↦ false
    | some i ↦ elim (find ℤ_discrete end_node_id m.id2index) [
      | none ↦ false
      | some j ↦ elim m.reach_analyzer [ none ↦ false | some u ↦ is_connected u i j ]
    ]
  ]

  pub get_charge_station_list : List (Node W) → List ℕ
  get_charge_station_list [] = []
  get_charge_station_list (n ∷ ns) =
      let rest = get_charge_station_list ns in
      if is_int n.node_type (pos 7) || is_int n.node_type (pos 9) then n.index ∷ rest else rest

  pub valid_task_nodes : UnionFind → ℕ → List (Node W) → List ℕ
  valid_task_nodes u key [] = []
  valid_task_nodes u key (n ∷ ns) =
      let rest = valid_task_nodes u key ns in
      if (is_int n.node_type (pos 1) || is_int n.node_type (pos 2)) && is_connected u n.index key
      then n.index ∷ rest
      else rest

  pub get_valid_task_node_list : MapInfo W → ℕ → Option (List ℕ)
  unfolding valid_task_nodes
  get_valid_task_node_list m key = elim m.reach_analyzer [
    | none ↦ none
    | some u ↦ some (valid_task_nodes u key m.nodes)
  ]

  unfoldable pub get_node : MapInfo W → ℤ → Option (Node W)
  get_node m (pos i) = get_elem? m.nodes i
  get_node m (negsuc i) = none

  unfoldable pub get_node_by_id : MapInfo W → ℤ → Option (Node W)
  unfolding get_node
  get_node_by_id m id = elim (find ℤ_discrete id m.id2index) [
    | none ↦ none
    | some i ↦ get_node m (pos i)
  ]

  pub get_edge : MapInfo W → ℕ → ℕ → Option (Edge W)
  unfolding get_edge_key
  get_edge m start_index end_index =
      elim (find ℕ_discrete (get_edge_key start_index end_index) m.edge_index) [
        | none ↦ none
        | some i ↦ get_elem? m.edges i
      ]

  -- `if (s > 0.0) speed = std::min(speed, s);`
  abbrev pub limited : W → W → W
  limited speed s = if d.lt d.nought s then fmin speed s else speed

  abbrev pub limited_by : Option (Node W) → W → W
  limited_by none speed = speed
  limited_by (some n) speed = limited speed n.max_speed

  pub get_edge_max_speed : MapInfo W → ℤ → ℤ → W
  unfolding get_edge
  get_edge_max_speed m start_node_id end_node_id =
      let fallback =
        if d.lt d.nought m.global_max_speed then m.global_max_speed else d.of_int (pos 1000) in
      elim (find ℤ_discrete start_node_id m.id2index) [
        | none ↦ fallback
        | some i ↦ elim (find ℤ_discrete end_node_id m.id2index) [
          | none ↦ fallback
          | some j ↦
              let by_nodes =
                limited_by (get_elem? m.nodes j) (limited_by (get_elem? m.nodes i) fallback) in
              elim (get_edge m i j) [
                | none ↦ by_nodes
                | some e ↦ if d.lt d.nought e.max_speed then e.max_speed else by_nodes
              ]
        ]
      ]

  pub distance_sq : W → W → Node W → W
  distance_sq x y n = d.add (d.mul (d.sub n.x x) (d.sub n.x x)) (d.mul (d.sub n.y y) (d.sub n.y y))

  -- The loop over the candidates, with the nearest one so far.
  pub nearest_loop : W → W → List (Node W) → ℤ → W → ℤ
  nearest_loop x y [] best least = best
  nearest_loop x y (n ∷ ns) best least = elim (d.lt (distance_sq x y n) least) [
    | true ↦ nearest_loop x y ns n.id (distance_sq x y n)
    | false ↦ nearest_loop x y ns best least
  ]

  pub find_nearest_node_id : MapInfo W → W → W → Option ℤ
  unfolding nearest_loop
  find_nearest_node_id m x y = elim m.nodes [
    | [] ↦ none
    | n ∷ ns ↦ some (nearest_loop x y (n ∷ ns) minus_one d.greatest)
  ]

  -- `getNode` of each index, which throws at one that is out of range.
  pub get_nodes_at : MapInfo W → List ℕ → Option (List (Node W))
  get_nodes_at m [] = some []
  get_nodes_at m (i ∷ is) = elim (get_elem? m.nodes i) [
    | none ↦ none
    | some n ↦ elim (get_nodes_at m is) [ none ↦ none | some ns ↦ some (n ∷ ns) ]
  ]

  pub find_nearest_node_id_from_neighbors : MapInfo W → W → W → ℤ → Option ℤ
  unfolding nearest_loop get_nodes_at
  find_nearest_node_id_from_neighbors m x y ref = elim (find ℤ_discrete ref m.id2index) [
    | none ↦ none
    | some i ↦
        elim (get_nodes_at m (
          i
          ∷ (or_empty (find ℕ_discrete i m.pre_node) ++ or_empty (find ℕ_discrete i m.aft_node)))) [
            | none ↦ none
            | some ns ↦ some (nearest_loop x y ns minus_one d.greatest)
          ]
  ]
