-- ===== src/Allocator/Repair/Detour.antt =====
-- Step 6 of `repairInvalidDuties`: a chain is cut where a task starts too late or is too far away.
use agvscheduling.Prelude.{
  ℕ, suc, ◌+◌, Bool, true, false, ◌&&◌, ◌||◌, ℤ, pos, leb_ℤ, ltb_ℤ, List, [], ◌∷◌, ◌++◌, Option,
  none, some, if◌then◌else◌, leb, min, max, length, take, drop, Double,
}
use agvscheduling.Fleet.{Task, Amr, default_task, get_start_id}
use agvscheduling.MapInfo.{MapInfo, get_node_by_id}
use agvscheduling.Cost.{SparseCost}
use agvscheduling.Allocation.{at}
use agvscheduling.Allocator.{leg}
use agvscheduling.Allocator.Repair.{Repairing, LogEntry, cut_off}

-- `cutPosTime` and `cutPosDist`, of which the loop sets one.
pub record Cuts : Type 0 where
  pub by_time : Option ℕ
  pub by_distance : Option ℕ

abbrev pub no_cuts : Cuts
no_cuts = record { by_time = none; by_distance = none }

unfoldable pub cut_position : Cuts → Option ℕ
cut_position cuts = elim cuts.by_time [
  | none ↦ cuts.by_distance
  | some time ↦ elim cuts.by_distance [ none ↦ some time | some dist ↦ some (min time dist) ]
]

abbrev pub is_some : Option ℕ → Bool
is_some none = false
is_some (some p) = true

-- A chain, what is cut off it, and the log's entry. One task stays at least.
abbrev pub cut_chain : ℕ → Cuts → Option ℕ → List ℤ → List ℤ × List ℤ × List LogEntry
cut_chain amr cuts none chain = (chain, [], [])
cut_chain amr cuts (some p) chain =
    let safe_cut = max 1 p in
    (
      take safe_cut chain,
      drop safe_cut chain,
      cut_off (amr + 1) (is_some cuts.by_time) (is_some cuts.by_distance) (safe_cut + 1) ∷ [],
    )

module _ {W : Type 0} ⦃d : Double W⦄ (t : SparseCost W) (tasks : List Task) (pow : W → W → W)
    (global_map : Option (MapInfo W)) where
  abbrev pub magnitude : W → W
  magnitude x = if d.lt x d.nought then d.sub d.nought x else x

  -- `minkowskiDistanceBetweenTasks`; -1 where the map or a node of it is missing.
  unfoldable pub minkowski_distance_between_tasks : Task → Task → W → W
  minkowski_distance_between_tasks a b p =
      let missing = d.sub d.nought (d.of_int (pos 1)) in
      elim global_map [
        | none ↦ missing
        | some m ↦ elim (get_node_by_id m (get_start_id a)) [
          | none ↦ missing
          | some na ↦ elim (get_node_by_id m (get_start_id b)) [
            | none ↦ missing
            | some nb ↦
                let dx = magnitude (d.sub na.x nb.x) in
                let dy = magnitude (d.sub na.y nb.y) in
                let one = d.of_int (pos 1) in
                if d.lt p one || d.eq p one
                then d.add dx dy
                else pow (d.add (pow dx p) (pow dy p)) (d.div one p)
          ]
        ]
      ]

  -- `x >= y` on `double`.
  abbrev pub at_least : W → W → Bool
  at_least x y = d.lt y x || d.eq x y

  -- `cumDetourMm` at a task, after the one before.
  unfoldable pub detour_after : W → Option ℤ → ℤ → ℤ → W
  unfolding minkowski_distance_between_tasks
  detour_after cum prev max_detour idx = elim prev [
    | none ↦ cum
    | some before ↦
        let geom =
          minkowski_distance_between_tasks (at tasks before default_task)
            (at tasks idx default_task) (d.of_int (pos 2)) in
        if ltb_ℤ (pos 0) max_detour && d.lt d.nought geom then d.add cum geom else cum
  ]

  abbrev pub is_too_far : Option ℤ → ℤ → W → Bool
  is_too_far none max_detour cum = false
  is_too_far (some before) max_detour cum =
      ltb_ℤ (pos 0) max_detour && at_least cum (d.of_int max_detour)

  -- The start of a task: that of the first, or what the loop has added up.
  abbrev pub start_time : ℕ → Option ℤ → W → ℤ → W
  start_time amr none elapsed idx = leg t tasks amr none idx
  start_time amr (some before) elapsed idx = elapsed

  abbrev pub next_start : ℕ → ℤ → W → List ℤ → W
  next_start amr idx start [] = start
  next_start amr idx start (next ∷ rest) = d.add start (leg t tasks amr (some idx) next)

  -- The loop over a chain: the task before, the position, the distance and the time.
  unfoldable pub cut_loop : ℕ → ℤ → ℤ → Option ℤ → ℕ → W → W → List ℤ → Cuts
  unfolding detour_after leg
  cut_loop amr max_ahead max_detour prev p cum elapsed [] = no_cuts
  cut_loop amr max_ahead max_detour prev p cum elapsed (idx ∷ rest) =
      let cum' = detour_after cum prev max_detour idx in
      let start = start_time amr prev elapsed idx in
      let timed = ltb_ℤ (pos 0) max_ahead in
      let later =
        cut_loop amr max_ahead max_detour (some idx) (suc p) cum'
          (if timed then next_start amr idx start rest else elapsed) rest in
      if is_too_far prev max_detour cum'
      then record { by_time = none; by_distance = some p }
      else if timed && at_least start (d.of_int max_ahead)
      then record { by_time = some p; by_distance = none }
      else later

  unfoldable pub cut_of : ℕ → Amr W → List ℤ → Cuts
  unfolding cut_loop
  cut_of amr a chain =
      if leb (length chain) 1
        || (leb_ℤ a.max_time_ahead_ms (pos 0) && leb_ℤ a.max_detour_distance_mm (pos 0))
      then no_cuts
      else cut_loop amr a.max_time_ahead_ms a.max_detour_distance_mm none 0 d.nought d.nought chain

  unfoldable pub detour : ℕ → List (Amr W) → List (List ℤ) → List (List ℤ) × List ℤ × List LogEntry
  unfolding cut_of cut_position
  detour amr [] chains = (chains, [], [])
  detour amr (a ∷ amrs) [] = ([], [], [])
  detour amr (a ∷ amrs) (chain ∷ chains) =
      let cuts = cut_of amr a chain in
      let (kept, gone, entry) = cut_chain amr cuts (cut_position cuts) chain in
      let (rest, more, entries) = detour (suc amr) amrs chains in
      (kept ∷ rest, gone ++ more, entry ++ entries)

  unfoldable pub detour_all : List (Amr W) → Repairing → Repairing
  unfolding detour
  detour_all amrs r =
      let (chains, gone, entries) = detour 0 amrs r.amr_tasks in
      record { amr_tasks = chains; unallocated = r.unallocated ++ gone; log = r.log ++ entries }
