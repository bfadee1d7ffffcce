-- ===== src/MapInfo/Tests.antt =====
-- A map of two nodes, its coordinates natural numbers.
use agvscheduling.Prelude.{
  ℕ, ◌≡◌, ◌⊎◌, refl, true, false, ℤ, pos, minus_one, List, [], ◌∷◌, Option, none, some, arith,
}
use agvscheduling.Extended.{extended, below}
use agvscheduling.MapInfo.{
  Node, MapInfo, load_nodes, get_node, get_node_by_id, find_nearest_node_id, distance_sq,
}
use agvscheduling.MapInfo.Nearest.{IsStrict, IsNearest, AllFarther, find_nearest_node_id_lem}
use agvscheduling.MapInfo.Nodes.{get_node_by_id-load_nodes}

below-transitive : (a b c : Option ℕ) → below a b ≡ true → below b c ≡ true → below a c ≡ true
unfolding below
below-transitive (some a) (some b) (some c) h k = ground arith
below-transitive (some a) (some b) none h k = refl
below-transitive (some a) none c h k = absurd (ground arith)
below-transitive none b c h k = absurd (ground arith)

below-irreflexive : (a : Option ℕ) → below a a ≡ false
unfolding below
below-irreflexive none = refl
below-irreflexive (some a) = ground arith

extended-IsStrict : IsStrict extended.lt
unfolding extended
extended-IsStrict = record { irreflexive = below-irreflexive; transitive = below-transitive }

abbrev node_at : ℤ → ℕ → Node (Option ℕ)
node_at id place = record {
  id = id;
  index = 0;
  node_type = pos 1;
  x = some place;
  y = some 0;
  allow_pass = pos 1;
  allow_rot = pos 1;
  allow_pass_amr_type_list = [];
  allow_rot_amr_type_list = [];
  max_speed = some 0;
}

abbrev raw_nodes : List (Node (Option ℕ))
raw_nodes = node_at (pos 20) 8 ∷ []

abbrev blank : MapInfo (Option ℕ)
blank = record {
  nodes = node_at (pos 10) 3 ∷ raw_nodes;
  id2index = [];
  pre_node = [];
  aft_node = [];
  edges = [];
  edge_index = [];
  areas = [];
  reach_analyzer = none;
  global_max_speed = some 1000;
  amr_type_num = pos 1;
}

get_node_by_id-load_nodes_example :
    (loaded : MapInfo (Option ℕ)) × (load_nodes blank
        (node_at (pos 10) 3 ∷ raw_nodes)
        []
        (some 1000)
      ≡ some loaded)
    × ((n : Node (Option ℕ)) × (get_node_by_id loaded (pos 20) ≡ some n)
        × (n.id ≡ pos 20)
        × (get_node loaded (pos n.index) ≡ some n))
get_node_by_id-load_nodes_example =
    get_node_by_id-load_nodes blank (node_at (pos 10) 3) raw_nodes [] (some 1000) 1
      (node_at (pos 20) 8) refl

nearest : find_nearest_node_id blank (some 2) (some 0) ≡ some (pos 10)
unfolding find_nearest_node_id extended distance_sq
nearest = refl

find_nearest_node_id_example :
    ((pos 10 ≡ minus_one)
      × AllFarther extended-IsStrict (some 2) (some 0) extended.greatest blank.nodes)
    ⊎ IsNearest extended-IsStrict (some 2) (some 0) blank.nodes (pos 10) extended.greatest
find_nearest_node_id_example =
    find_nearest_node_id_lem extended-IsStrict (some 2) (some 0) blank (pos 10) nearest
