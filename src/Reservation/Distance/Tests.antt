-- ===== src/Reservation/Distance/Tests.antt =====
-- Three nodes on a line, 5 and 9 apart, under a threshold of 6.
use agvscheduling.Prelude.{
  ℕ, zero, suc, ◌≡◌, Bool-cases, sym, ap, subst, ◌∙◌, inl, inr, pos_part, ◌⊎◌, refl, true, false, ℤ,
  pos, String, List, [], ◌∷◌, find, put, sort_unique, ℤ_discrete, ◌+ℤ◌, ◌+◌, ◌*◌, pos-injective,
  string_discrete, elem, ℕ_discrete, Option, none, some, arith,
}
use agvscheduling.Extended.{extended, lift}
use agvscheduling.MapInfo.{Node, MapInfo}
use agvscheduling.Reservation.{
  Table, Entry, reserved_path, entry, get, try_reserve, is_expired, conflict_node_ids_for,
  put_entry, fresh_entry,
}
use agvscheduling.Reservation.Exclusion.{Conflicts, IsSymmetric, Holds}
use agvscheduling.Reservation.WellFormed.{IsWellFormed}
use agvscheduling.Reservation.Reload.{
  Event, called, reloaded, serve, handle, last_configured, HeldTogether, serve-keeps_apart,
}
use agvscheduling.Reservation.History.{Call, reserves, run, step, fresh_table}
use agvscheduling.Reservation.Distance.{is_within, next_index, configure_distance_conflict}
use agvscheduling.Reservation.Distance.Conflicts.{NodeAt}
use agvscheduling.Reservation.Distance.Filled.{HasUniqueIds}
use agvscheduling.Reservation.Distance.Nearby.{CellsMeet}
use agvscheduling.Reservation.Distance.Configured.{IsEven, configured-run-keeps_apart}

abbrev node_at : ℤ → ℕ → Node (Option ℕ)
node_at id place = record {
  id = id;
  index = 0;
  node_type = pos 1;
  x = some place;
  y = some 0;
  allow_pass = pos 1;
  allow_rot = pos 1;
  allow_pass_amr_type_list = [];
  allow_rot_amr_type_list = [];
  max_speed = some 0;
}

abbrev line : MapInfo (Option ℕ)
line = record {
  nodes = node_at (pos 10) 3 ∷ node_at (pos 20) 8 ∷ node_at (pos 30) 17 ∷ [];
  id2index = [];
  pre_node = [];
  aft_node = [];
  edges = [];
  edge_index = [];
  areas = [];
  reach_analyzer = none;
  global_max_speed = some 1000;
  amr_type_num = pos 1;
}

abbrev whole : Option ℕ → ℤ
whole none = pos 0
whole (some n) = pos n

abbrev six : Option ℕ
six = some 6

abbrev line_index : List (ℤ × List ℤ)
line_index =
    (pos 10, pos 10 ∷ pos 20 ∷ []) ∷ (pos 20, pos 10 ∷ pos 20 ∷ []) ∷ (pos 30, pos 30 ∷ []) ∷ []

line_index_lem : (next_index whole line six).node_ids_by_node_id ≡ line_index
unfolding next_index extended put ℤ_discrete sort_unique find ◌+ℤ◌
line_index_lem = refl

extended-IsEven : IsEven extended
unfolding extended lift
extended-IsEven none none = refl
extended-IsEven none (some b) = refl
extended-IsEven (some a) none = refl
extended-IsEven (some a) (some b) = ground arith

-- The ids are 10, 20 and 30.
place_of :
    (i : ℕ) (n : Node (Option ℕ)) (id : ℤ) → NodeAt line.nodes i n id → id ≡ pos (10 * i + 10)
place_of zero n id a = ground (arith, a.listed, a.named)
place_of (suc zero) n id a = ground (arith, a.listed, a.named)
place_of (suc (suc zero)) n id a = ground (arith, a.listed, a.named)
place_of (suc (suc (suc i))) n id a = ground (arith, a.listed)

line-HasUniqueIds : HasUniqueIds line.nodes
line-HasUniqueIds i j n o id at_n at_o =
    omega (arith, pos-injective (sym (place_of i n id at_n) ∙ place_of j o id at_o))

first_at : NodeAt line.nodes 0 (node_at (pos 10) 3) (pos 10)
first_at = record { listed = refl; valid = refl; named = refl }

second_at : NodeAt line.nodes 1 (node_at (pos 20) 8) (pos 20)
second_at = record { listed = refl; valid = refl; named = refl }

six_positive : extended.lt extended.nought six ≡ true
unfolding extended
six_positive = refl

six_finite : extended.is_finite six ≡ true
unfolding extended
six_finite = refl

near_each_other : is_within six (node_at (pos 10) 3) (node_at (pos 20) 8) ≡ true
unfolding is_within extended
near_each_other = refl

cells_touch : CellsMeet whole six (node_at (pos 10) 3) (node_at (pos 20) 8)
unfolding extended ◌+ℤ◌
cells_touch = record {
  dx = pos 1;
  dy = pos 0;
  step_x = inr (inr refl);
  step_y = inr (inl refl);
  meets = refl;
}

abbrev configured : Table
configured = configure_distance_conflict whole (fresh_table []) line six

abbrev first : String
first = "a"

abbrev number : ℤ → ℕ
number k = pos_part k

-- AGV "a" asks for both nodes, and gets them; "b" does not.
abbrev calls : List (ℕ × Call)
calls =
    (5, reserves (pos 10) first reserved_path "" (pos 0))
    ∷ (6, reserves (pos 20) first reserved_path "" (pos 0))
    ∷ (7, reserves (pos 20) "b" reserved_path "" (pos 0))
    ∷ []

abbrev later : Table
later = run number configured calls

hold_of : ℕ → Entry
hold_of at = record {
  owner = first;
  reason = reserved_path;
  detail = "";
  updated_at = at;
  expires_at = 0;
}

configured_lem : configured ≡ fresh_table line_index
unfolding configure_distance_conflict
configured_lem = ap fresh_table line_index_lem

abbrev Holding : Table → ℤ → ℕ → Type 0
Holding t node at = Path (Option Entry) (entry number (run number t calls) node) (some (hold_of at))

held_first : Holding configured (pos 10) 5
unfolding run entry put ℤ_discrete find hold_of try_reserve step string_discrete ℕ_discrete
    Bool-cases conflict_node_ids_for put_entry is_expired fresh_entry
held_first = subst (λ t. Holding t (pos 10) 5) (sym configured_lem) refl

held_second : Holding configured (pos 20) 6
unfolding run entry put ℤ_discrete find hold_of try_reserve step string_discrete ℕ_discrete
    Bool-cases conflict_node_ids_for put_entry is_expired fresh_entry
held_second = subst (λ t. Holding t (pos 20) 6) (sym configured_lem) refl

alive : (at : ℕ) → is_expired (hold_of at) 7 ≡ false
unfolding is_expired hold_of
alive at = refl

owned : (at : ℕ) → (hold_of at).owner ≡ first
unfolding hold_of
owned at = refl

configured-run-keeps_apart_example : first ≡ first
configured-run-keeps_apart_example =
    configured-run-keeps_apart whole number line six calls extended-IsEven six_positive six_finite
      line-HasUniqueIds (omega arith, (omega arith, (omega arith, tt))) 0 1 (node_at (pos 10) 3)
      (node_at (pos 20) 8) (pos 10) (pos 20) first first first_at second_at near_each_other
      cells_touch (hold_of 5, held_first, alive 5, owned 5)
      (hold_of 6, held_second, alive 6, owned 6)

-- Without an index each node conflicts with itself only: AGVs "a" and "b" get the nodes 10 and 20. Then
-- the map is loaded, and "b" asks for 10 in vain.
abbrev no_index : Table
no_index = fresh_table []

abbrev events : List (ℕ × Event (Option ℕ))
events =
    (5, called (reserves (pos 10) first reserved_path "" (pos 0)))
    ∷ (6, called (reserves (pos 20) "b" reserved_path "" (pos 0)))
    ∷ (7, reloaded line six)
    ∷ (8, called (reserves (pos 10) "b" reserved_path "" (pos 0)))
    ∷ []

no_index-IsSymmetric : IsSymmetric no_index
unfolding conflict_node_ids_for elem find
no_index-IsSymmetric a b h = ground arith

no_index-IsWellFormed : IsWellFormed number no_index
unfolding find
no_index-IsWellFormed = record { unique = λ i. tt; placed = λ i j e h. cc }

serve-keeps_apart_example :
    IsWellFormed number (serve whole number no_index events)
    × ((a b : ℤ) (x y : String)
        → Holds number (serve whole number no_index events) 8 a x
        → Holds number (serve whole number no_index events) 8 b y
        → Conflicts (serve whole number no_index events) a b
        → (x ≡ y)
          ⊎ HeldTogether whole number
              (last_configured whole number (no_index, 0) no_index events)
              a
              b
              x
              y)
serve-keeps_apart_example =
    serve-keeps_apart whole number events no_index 0 extended-IsEven
      (omega arith, (omega arith, (omega arith, line-HasUniqueIds, (omega arith, tt))))
      no_index-IsWellFormed no_index-IsSymmetric

-- After the load both AGVs still hold their nodes, which conflict by then.
both_held :
    ((get number 8 (serve whole number no_index events) (pos 10))
      ≡ some (record {
        node_id = pos 10;
        owner = first;
        reason = reserved_path;
        detail = "";
        updated_at = 5;
        expires_at = 0;
      }))
    × (get number 8 (serve whole number no_index events) (pos 20)
        ≡ some (record {
          node_id = pos 20;
          owner = "b";
          reason = reserved_path;
          detail = "";
          updated_at = 6;
          expires_at = 0;
        }))
    × Conflicts (serve whole number no_index events) (pos 10) (pos 20)
unfolding serve handle configure_distance_conflict next_index extended sort_unique ◌+ℤ◌ get entry
    put ℤ_discrete find try_reserve step string_discrete ℕ_discrete Bool-cases conflict_node_ids_for
    put_entry is_expired fresh_entry elem
both_held = (refl, refl, refl)
