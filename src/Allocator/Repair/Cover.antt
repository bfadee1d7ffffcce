-- ===== src/Allocator/Repair/Cover.antt =====
-- The repair loses no task.
use agvscheduling.Prelude.{
  ℕ, zero, suc, ◌+◌, ◌≤◌, ◌<◌, ◌≡◌, ◌≢◌, ap, refl, Bool, true, false, not, ◌&&◌, ◌||◌, ℤ, pos, List,
  [], ◌∷◌, Option, none, some, inl, inr, arith, Bool-cases, ℤ_discrete, ℕ_discrete, elem,
  elem-append_left, elem-append_right, length, take, String, Double,
}
use agvscheduling.Allocation.{AllocationResult}
use agvscheduling.Fleet.{Task, Amr}
use agvscheduling.MapInfo.{MapInfo}
use agvscheduling.Cost.{SparseCost}
use agvscheduling.Allocator.Repair.{Repairing, LogEntry, padded}
use agvscheduling.Allocator.Repair.Insertion.{removed}
use agvscheduling.Allocator.Repair.Complete.{
  is_assigned, those, complete, cheapest, filled, unflag, or_changed, fill_loop, fill_idle_amrs,
  repair_chains, repair_steps, repair_invalid_duties,
}

elem-those :
    (test : ℤ → Bool) (i count j : ℕ)
    → i ≤ j
    → j < i + count
    → test (pos j) ≡ true
    → elem ℤ_discrete (pos j) (those test i count) ≡ true
unfolding elem those
elem-those test i zero j low high h = absurd (omega arith)
elem-those test i (suc count) j low high h = elim (ℕ_discrete i j) [
  | yes e ↦ let here : test (pos i) ≡ true = rw e h in ground arith
  | no ne ↦
      let later = elem-those test (suc i) count j (omega arith) (omega arith) h in
      elim (Bool-cases (test (pos i))) [ inl a ↦ ground arith | inr b ↦ ground arith ]
]

elem-removed :
    (idx j : ℤ) (xs : List ℤ) → j ≢ idx → elem ℤ_discrete j (removed idx xs) ≡ elem ℤ_discrete j xs
unfolding elem removed
elem-removed idx j [] ne = refl
elem-removed idx j (x ∷ xs) ne = ground (arith, elem-removed idx j xs)

pub is_assigned-padded :
    (n : ℕ) (idx : ℤ) (chains : List (List ℤ))
    → is_assigned idx (padded n chains) ≡ is_assigned idx chains
unfolding padded is_assigned elem
is_assigned-padded zero idx chains = refl
is_assigned-padded (suc n) idx [] = is_assigned-padded n idx []
is_assigned-padded (suc n) idx (c ∷ chains) =
    ap (λ b. elem ℤ_discrete idx c || b) (is_assigned-padded n idx chains)

is_assigned-take :
    (n : ℕ) (idx : ℤ) (chains : List (List ℤ))
    → is_assigned idx (take n chains) ≡ true
    → is_assigned idx chains ≡ true
unfolding is_assigned elem
is_assigned-take zero idx chains h = absurd (ground arith)
is_assigned-take (suc n) idx [] h = h
is_assigned-take (suc n) idx (c ∷ chains) h = ground (arith, is_assigned-take n idx chains)

-- A task is in a chain or in the list.
abbrev pub IsKept : ℤ → List (List ℤ) → List ℤ → Type 0
IsKept idx chains others = (is_assigned idx chains || elem ℤ_discrete idx others) ≡ true

or_changed-false :
    (taken : Option ℤ) (changed : Bool)
    → or_changed taken changed ≡ false
    → (taken ≡ none) × (changed ≡ false)
or_changed-false none changed h = (refl, h)
or_changed-false (some b) changed h = cc

module _ {W : Type 0} ⦃d : Double W⦄ where
  filled_cases :
      (chain : List ℤ) (best : W × Option ℤ) (idx : ℤ) (flagged : List ℤ)
      → (elem ℤ_discrete idx chain || elem ℤ_discrete idx flagged) ≡ true
      → (elem ℤ_discrete idx (filled chain best).0
          || elem ℤ_discrete idx (unflag (filled chain best).1 flagged))
        ≡ true
  unfolding elem
  filled_cases (x ∷ chain) best idx flagged h = h
  filled_cases [] (cost, none) idx flagged h = h
  filled_cases [] (cost, some b) idx flagged h = ground (arith, elem-removed b idx flagged)

  filled-none :
      (chain : List ℤ) (best : W × Option ℤ)
      → (filled chain best).1 ≡ none
      → (filled chain best).0 ≡ chain
  filled-none (x ∷ chain) best h = refl
  filled-none [] (cost, none) h = refl
  filled-none [] (cost, some b) h = ground arith

module _ {W : Type 0} ⦃d : Double W⦄ (t : SparseCost W) (tasks : List Task) where
  fill_loop-IsKept :
      (amr : ℕ) (amrs : List (Amr W)) (chains : List (List ℤ)) (flagged : List ℤ) (idx : ℤ)
      → IsKept idx chains flagged
      → let out = fill_loop t tasks amr amrs chains flagged in IsKept idx out.0 out.1
  unfolding fill_loop is_assigned
  fill_loop-IsKept amr [] chains flagged idx h = h
  fill_loop-IsKept amr (a ∷ amrs) [] flagged idx h = h
  fill_loop-IsKept amr (a ∷ amrs) (chain ∷ chains) flagged idx h =
      let best = cheapest t tasks amr flagged 0 (length tasks) (d.infinity, none) in
      let here = filled_cases chain best idx flagged in
      let later =
        fill_loop-IsKept (suc amr) amrs chains (unflag (filled chain best).1 flagged) idx in
      either (elem ℤ_discrete idx chain) (is_assigned idx chains) (elem ℤ_discrete idx flagged) _ _
        _ _ h here later
    where
      either :
          (a b f a' f' b' l : Bool)
          → ((a || b) || f) ≡ true
          → ((a || f) ≡ true → (a' || f') ≡ true)
          → ((b || f') ≡ true → (b' || l) ≡ true)
          → ((a' || b') || l) ≡ true
      either a b f a' f' b' l h here later = ground arith

  fill_loop-unchanged :
      (amr : ℕ) (amrs : List (Amr W)) (chains : List (List ℤ)) (flagged : List ℤ)
      → let out = fill_loop t tasks amr amrs chains flagged in out.2 ≡ false → out.0 ≡ chains
  unfolding fill_loop
  fill_loop-unchanged amr [] chains flagged h = refl
  fill_loop-unchanged amr (a ∷ amrs) [] flagged h = refl
  fill_loop-unchanged amr (a ∷ amrs) (chain ∷ chains) flagged h =
      let best = cheapest t tasks amr flagged 0 (length tasks) (d.infinity, none) in
      let (none_taken, rest) = or_changed-false (filled chain best).1 _ h in
      rw
        (
          filled-none chain best none_taken,
          fill_loop-unchanged (suc amr) amrs chains (unflag (filled chain best).1 flagged) rest,
        )
        refl

  complete-IsKept :
      (r : Repairing) (j : ℕ)
      → j < length tasks
      → IsKept (pos j) r.amr_tasks (complete (length tasks) r).unallocated
  unfolding complete
  complete-IsKept r j small =
      let test =
        λ (idx : ℤ). not (is_assigned idx r.amr_tasks) && not (elem ℤ_discrete idx r.unallocated) in
      let new = elem-those test 0 (length tasks) j (omega arith) (omega arith) in
      let left = elem-append_left ℤ_discrete (pos j) r.unallocated (those test 0 (length tasks)) in
      let right =
        elem-append_right ℤ_discrete (pos j) r.unallocated (those test 0 (length tasks)) in
      elim (Bool-cases (is_assigned (pos j) r.amr_tasks)) [
        | inl e ↦ rw e refl
        | inr e ↦ elim (Bool-cases (elem ℤ_discrete (pos j) r.unallocated)) [
          | inl m ↦ rw e (left m)
          | inr m ↦ rw e (right (new (rw (e, m) refl)))
        ]
      ]

  fill_idle_amrs-IsKept :
      (amrs : List (Amr W)) (r : Repairing) (j : ℕ)
      → j < length tasks
      → IsKept (pos j) r.amr_tasks r.unallocated
      → let r' = fill_idle_amrs t tasks amrs r in IsKept (pos j) r'.amr_tasks r'.unallocated
  unfolding fill_idle_amrs
  fill_idle_amrs-IsKept amrs r j small h =
      let chains = padded (length amrs) r.amr_tasks in
      let test = λ (idx : ℤ).
        elem ℤ_discrete idx r.unallocated && not (is_assigned idx (take (length amrs) chains)) in
      let flagged = those test 0 (length tasks) in
      let out = fill_loop t tasks 0 amrs chains flagged in
      let same = is_assigned-padded (length amrs) (pos j) r.amr_tasks in
      let new = elem-those test 0 (length tasks) j (omega arith) (omega arith) in
      elim (Bool-cases out.2) [
        | inl e ↦ rw e (
            fill_loop-IsKept 0 amrs chains flagged (pos j) (
              start (is_assigned (pos j) chains) (is_assigned (pos j) r.amr_tasks)
                (is_assigned (pos j) (take (length amrs) chains))
                (elem ℤ_discrete (pos j) r.unallocated) _ same
                (is_assigned-take (length amrs) (pos j) chains) h new))
        | inr e ↦ rw (e, fill_loop-unchanged 0 amrs chains flagged e, same) h
      ]
    where
      start :
          (a b k u f : Bool)
          → a ≡ b
          → (k ≡ true → a ≡ true)
          → (b || u) ≡ true
          → ((u && not k) ≡ true → f ≡ true)
          → (a || f) ≡ true
      start a b k u f same part h new = ground arith

  -- After the repair every task of the list is in a chain, which may be one beyond those of the AMRs,
  -- or among the unallocated tasks.
  pub repair_invalid_duties-IsKept :
      (render : List LogEntry → String) (pow : W → W → W) (global_map : Option (MapInfo W))
      (result : AllocationResult W) (amrs : List (Amr W)) (j : ℕ)
      → j < length tasks
      → let r = repair_invalid_duties t tasks pow global_map render result amrs in
        IsKept (pos j) r.amr_tasks r.unallocated_task_ids
  unfolding repair_invalid_duties repair_steps complete
  repair_invalid_duties-IsKept render pow global_map result amrs j small =
      let r = repair_chains t tasks pow global_map result amrs in
      fill_idle_amrs-IsKept amrs (complete (length tasks) r) j small (complete-IsKept r j small)
