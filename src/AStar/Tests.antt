-- ===== src/AStar/Tests.antt =====
-- Three nodes in a row, 10, 20 and 30; no AGV may pass 20 in the second map.
use agvscheduling.Prelude.{
  ℕ, ◌≡◌, refl, true, false, ℤ, pos, List, [], ◌∷◌, Option, none, some, ℕ_discrete, ℤ_discrete,
  find, put, elem,
}
use agvscheduling.Extended.{extended, lift}
use agvscheduling.MapInfo.{Node, MapInfo}
use agvscheduling.AStar.{Query, OpenNode, PathResult, find_path, not_found, state_discrete}
use agvscheduling.AStar.Paths.{Answers, find_path-Answers}

abbrev node_at : ℤ → ℕ → ℤ → Node (Option ℕ)
node_at id place pass = record {
  id = id;
  index = 0;
  node_type = pos 1;
  x = some place;
  y = some 0;
  allow_pass = pass;
  allow_rot = pos 1;
  allow_pass_amr_type_list = [];
  allow_rot_amr_type_list = [];
  max_speed = some 0;
}

abbrev row : ℤ → MapInfo (Option ℕ)
row pass = record {
  nodes = node_at (pos 10) 0 (pos 1) ∷ node_at (pos 20) 5 pass ∷ node_at (pos 30) 9 (pos 1) ∷ [];
  id2index = [];
  pre_node = [];
  aft_node = (0, 1 ∷ []) ∷ (1, 2 ∷ []) ∷ [];
  edges = [];
  edge_index = [];
  areas = [];
  reach_analyzer = none;
  global_max_speed = some 1000;
  amr_type_num = pos 1;
}

abbrev free_query : Query (Option ℕ)
free_query = record {
  turn_penalty = some 0;
  is_banned_node = λ id. false;
  is_banned_edge = λ from to. false;
  node_penalty = none;
  node_penalty_mm = some 0;
}

abbrev root_of : Option ℕ → Option ℕ
root_of x = x

abbrev first : List (OpenNode (Option ℕ)) → ℕ
first xs = 0

find_path-Answers_example :
    (r : PathResult (Option ℕ)) × (find_path root_of first
        (row (pos 1))
        free_query
        (pos 10)
        (pos 30)
      ≡ some r)
    × Answers root_of first (row (pos 1)) free_query (pos 10) (pos 30) r
find_path-Answers_example =
    find_path-Answers root_of first (row (pos 1)) free_query (pos 10) (pos 30)

abbrev the_path : List ℤ
the_path = pos 10 ∷ pos 20 ∷ pos 30 ∷ []

row_is_found :
    find_path root_of first (row (pos 1)) free_query (pos 10) (pos 30)
    ≡ some (record { path = the_path; distance = some 41; found = true })
unfolding find_path extended lift find put elem ℕ_discrete ℤ_discrete state_discrete
row_is_found = refl

row_is_blocked :
    find_path root_of first (row (pos 0)) free_query (pos 10) (pos 30)
    ≡ some (not_found root_of first (row (pos 0)) free_query)
unfolding find_path extended lift find put elem ℕ_discrete ℤ_discrete state_discrete
row_is_blocked = refl
