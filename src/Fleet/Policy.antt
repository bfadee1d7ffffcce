-- ===== src/Fleet/Policy.antt =====
-- Which AMRs take part in an allocation: include/common/TaskPolicy.h.
use agvscheduling.Prelude.{
  ℕ, suc, ◌+◌, ◌≡◌, refl, ◌∙◌, Bool, true, false, not, ◌&&◌, ◌||◌, ℤ, pos, negsuc, ◌-ℤ◌, ℤ_discrete,
  ◌-◌, pos_part, neg_part, elem, leb_ℤ, List, [], ◌∷◌, Option, none, some, find, arith,
  if◌then◌else◌,
}
use agvscheduling.Fleet.{
  Amr, Task, get_start_id, is_idle, is_moving, is_working, is_unavailable, is_blank, status_idle,
  status_finished, status_working, status_failed, status_not_executed, status_paused,
  status_rejected,
}

abbrev pub emergency_level : ℤ
emergency_level = pos 10

pub has_emergency : List Task → Bool
has_emergency [] = false
has_emergency (t ∷ ts) =
    let rest = has_emergency ts in if leb_ℤ emergency_level t.priority then true else rest

pub has_idle_amr : {W : Type 0} → List (Amr W) → Bool
unfolding is_idle
has_idle_amr [] = false
has_idle_amr (a ∷ rest) = let more = has_idle_amr rest in if is_idle a then true else more

unfoldable pub should_plan : {W : Type 0} → List (Amr W) → List Task → Bool
unfolding has_idle_amr has_emergency
should_plan amrs [] = false
should_plan amrs (t ∷ ts) = if has_idle_amr amrs || has_emergency (t ∷ ts) then true else false

abbrev pub magnitude : ℤ → ℕ
magnitude (pos n) = n
magnitude (negsuc n) = suc n

-- The distance of two points with whole coordinates, which a `double` holds exactly.
pub minkowski_l1 : ℤ → ℤ → ℤ → ℤ → ℕ
minkowski_l1 x1 y1 x2 y2 = magnitude (x1 -ℤ x2) + magnitude (y1 -ℤ y2)

-- The start's coordinates, rounded, and the origin where the map has no such node.
abbrev pub or_origin : Option (ℤ × ℤ) → ℤ × ℤ
or_origin none = (pos 0, pos 0)
or_origin (some p) = p

-- The `continue`s of the loop, for one AMR.
pub takes_part : {W : Type 0} → Bool → ℤ × ℤ → Amr W → Bool
unfolding is_unavailable is_idle is_moving is_working minkowski_l1
takes_part emergency (sx, sy) a =
    if is_unavailable a
    then false
    else if is_idle a
    then true
    else if not emergency
    then false
    else if is_moving a
    then leb_ℤ a.dis_threshold_mm (pos (minkowski_l1 a.x a.y sx sy))
    else is_working a

pub select_loop : {W : Type 0} → Bool → ℤ × ℤ → List (Amr W) → List (Amr W)
unfolding takes_part
select_loop emergency start [] = []
select_loop emergency start (a ∷ rest) =
    let out = select_loop emergency start rest in
    if takes_part emergency start a then a ∷ out else out

-- `nodes` has the rounded coordinates of the map's nodes by their ids.
unfoldable pub select_available_amrs :
    {W : Type 0} → List (Amr W) → List Task → List (ℤ × (ℤ × ℤ)) → List (Amr W)
unfolding has_emergency select_loop get_start_id
select_available_amrs amrs [] nodes = []
select_available_amrs amrs (t ∷ ts) nodes =
    select_loop (has_emergency (t ∷ ts)) (or_origin (find ℤ_discrete (get_start_id t) nodes)) amrs

-- What takes part, in one formula: an available AMR that is idle, or, in an emergency, one that is
-- working at a distance of at least its threshold.
pub is_eligible : {W : Type 0} → Bool → ℤ × ℤ → Amr W → Bool
is_eligible emergency (sx, sy) a =
    not (is_unavailable a)
    && (is_idle a
        || (emergency
            && (is_working a && leb_ℤ a.dis_threshold_mm (pos (minkowski_l1 a.x a.y sx sy)))))

pub keep_if : {A : Type 0} → (A → Bool) → List A → List A
keep_if p [] = []
keep_if p (x ∷ xs) = let rest = keep_if p xs in if p x then x ∷ rest else rest

takes_part-is_eligible :
    {W : Type 0} (emergency : Bool) (start : ℤ × ℤ) (a : Amr W)
    → takes_part emergency start a ≡ is_eligible emergency start a
unfolding takes_part is_eligible is_moving is_working
takes_part-is_eligible emergency (sx, sy) a = ground arith

select_loop-keep_if :
    {W : Type 0} (emergency : Bool) (start : ℤ × ℤ) (amrs : List (Amr W))
    → select_loop emergency start amrs ≡ keep_if (is_eligible emergency start) amrs
unfolding select_loop keep_if
select_loop-keep_if emergency start [] = refl
select_loop-keep_if emergency start (a ∷ amrs) =
    rw (takes_part-is_eligible emergency start a, select_loop-keep_if emergency start amrs) refl

select_available_amrs-keep_if :
    {W : Type 0} (amrs : List (Amr W)) (t : Task) (ts : List Task) (nodes : List (ℤ × (ℤ × ℤ)))
    → select_available_amrs amrs (t ∷ ts) nodes
      ≡ keep_if
          (is_eligible
            (has_emergency (t ∷ ts))
            (or_origin (find ℤ_discrete (get_start_id t) nodes)))
          amrs
unfolding select_available_amrs
select_available_amrs-keep_if amrs t ts nodes =
    select_loop-keep_if (has_emergency (t ∷ ts))
      (or_origin (find ℤ_discrete (get_start_id t) nodes)) amrs

-- The specification: some task is urgent, and the distance along the axes.
pub is_any : {A : Type 0} → (A → Bool) → List A → Bool
is_any p [] = false
is_any p (x ∷ xs) = p x || is_any p xs

abbrev pub gap : ℤ → ℤ → ℕ
gap a b =
    (pos_part a + neg_part b - (pos_part b + neg_part a))
    + (pos_part b + neg_part a - (pos_part a + neg_part b))

-- An AMR may take part: its state is none of those that rule it out, and it has no task and is idle
-- or finished, or it works in an emergency, its threshold or more away from the start.
pub may_take_part : {W : Type 0} → Bool → ℤ × ℤ → Amr W → Bool
may_take_part emergency (sx, sy) a =
    not (
      elem ℤ_discrete a.task_status
        (status_failed ∷ status_not_executed ∷ status_paused ∷ status_rejected ∷ []))
    && (is_blank a.task_id && elem ℤ_discrete a.task_status (status_idle ∷ status_finished ∷ [])
        || emergency
          && (elem ℤ_discrete a.task_status (status_working ∷ [])
              && leb_ℤ a.dis_threshold_mm (pos (gap a.x sx + gap a.y sy))))

keep_if-idle :
    {W : Type 0} (start : ℤ × ℤ) (amrs : List (Amr W))
    → has_idle_amr amrs ≡ false
    → keep_if (is_eligible false start) amrs ≡ []
unfolding keep_if has_idle_amr is_eligible
keep_if-idle start [] h = refl
keep_if-idle (sx, sy) (a ∷ amrs) h = ground (arith, keep_if-idle (sx, sy) amrs)

-- Where `shouldPlan` says no, `selectAvailableAmrs` selects no AMR.
pub select_available_amrs-should_plan :
    {W : Type 0} (amrs : List (Amr W)) (tasks : List Task) (nodes : List (ℤ × (ℤ × ℤ)))
    → should_plan amrs tasks ≡ false
    → select_available_amrs amrs tasks nodes ≡ []
unfolding should_plan select_available_amrs
select_available_amrs-should_plan amrs [] nodes h = refl
select_available_amrs-should_plan amrs (t ∷ ts) nodes h =
    select_available_amrs-keep_if amrs t ts nodes
    ∙ rw (no_emergency)
        (keep_if-idle (or_origin (find ℤ_discrete (get_start_id t) nodes)) amrs no_idle)
  where
    no_emergency : has_emergency (t ∷ ts) ≡ false
    no_emergency = ground arith

    no_idle : has_idle_amr amrs ≡ false
    no_idle = ground arith
