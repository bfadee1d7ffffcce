-- ===== src/Sanitize/Cover.antt =====
-- The sanitizer loses no task.
use agvscheduling.Prelude.{
  ℕ, ◌<◌, ◌≡◌, refl, Bool, true, false, not, ◌&&◌, ◌||◌, ℤ, pos, List, [], ◌∷◌, ◌++◌, subst, Option,
  none, some, inl, inr, arith, Bool-cases, length, if◌then◌else◌, ℤ_discrete, elem,
  elem-append_left, elem-append_right, elem-sort_unique, leb_ℤ, lt→ltb, String, Double,
}
use agvscheduling.Fleet.{Task, Amr}
use agvscheduling.MapInfo.{MapInfo}
use agvscheduling.Allocation.{AllocationResult, in_range, chains_of}
use agvscheduling.Cost.{SparseCost}
use agvscheduling.Allocator.Repair.{padded}
use agvscheduling.Allocator.Repair.Complete.{is_assigned}
use agvscheduling.Allocator.Repair.Cover.{IsKept, is_assigned-padded}
use agvscheduling.Sanitize.{
  Start, Reinsertion, Inserting, endpoints, end_of, read_env_bool, can_take, check_chain,
  check_chains, best_amr, inserted_at, insert_best, reinsert, reinsert_removed, merge_dropped,
  start_nodes, sanitized, sanitize_allocation_result,
}
use agvscheduling.Sanitize.Insertion.{
  IsPlace, is_assigned-inserted_at, is_assigned-inserted_at_kept,
}
use agvscheduling.Sanitize.Search.{Holds, best_amr-IsPlace}

merge_dropped-kept :
    (count : ℕ) (inserted removed ids : List ℤ) (j : ℤ)
    → elem ℤ_discrete j ids ≡ true
    → elem ℤ_discrete j (merge_dropped count inserted removed ids) ≡ true
unfolding merge_dropped
merge_dropped-kept count inserted [] ids j h = h
merge_dropped-kept count inserted (idx ∷ removed) ids j h =
    merge_dropped-kept count inserted removed _ j (
      more (
        in_range idx count
        && (not (elem ℤ_discrete idx inserted) && not (elem ℤ_discrete idx ids))))
  where
    more : (b : Bool) → elem ℤ_discrete j (if b then ids ++ idx ∷ [] else ids) ≡ true
    more true = elem-append_left ℤ_discrete j ids (idx ∷ []) h
    more false = h

elem-last : (idx : ℤ) (ids : List ℤ) → elem ℤ_discrete idx (ids ++ idx ∷ []) ≡ true
unfolding elem
elem-last idx [] = ground arith
elem-last idx (x ∷ ids) = ground (arith, elem-last idx ids)

merge_dropped-new :
    (count : ℕ) (inserted removed ids : List ℤ) (j : ℤ)
    → in_range j count ≡ true
    → elem ℤ_discrete j inserted ≡ false
    → elem ℤ_discrete j removed ≡ true
    → elem ℤ_discrete j (merge_dropped count inserted removed ids) ≡ true
unfolding merge_dropped elem
merge_dropped-new count inserted [] ids j range new h = absurd (ground arith)
merge_dropped-new count inserted (idx ∷ removed) ids j range new h = elim (ℤ_discrete idx j) [
  | no ne ↦ merge_dropped-new count inserted removed _ j range new (ground arith)
  | yes e ↦ rw e (
      merge_dropped-kept count inserted removed _ j (elim (Bool-cases (elem ℤ_discrete j ids)) [
        | inl k ↦ rw (range, new, k) k
        | inr k ↦ rw (range, new, k) (elem-last j ids)
      ]))
]

module _ {W : Type 0} ⦃d : Double W⦄ (m : MapInfo W) where
  module _ (use_spu : Bool) (query : ℤ → ℤ → ℤ → W) (tasks : List Task) (j : ℤ)
      (range : in_range j (length tasks) ≡ true) where
    check_chain-kept :
        (amr_type cur : ℤ) (chain : List ℤ)
        → elem ℤ_discrete j chain ≡ true
        → (elem ℤ_discrete j (check_chain m use_spu query tasks amr_type cur chain).0
            || elem ℤ_discrete j (check_chain m use_spu query tasks amr_type cur chain).1)
          ≡ true
    unfolding check_chain elem
    check_chain-kept amr_type cur [] h = absurd (ground arith)
    check_chain-kept amr_type cur (idx ∷ rest) h = elim (Bool-cases (in_range idx (length tasks))) [
      | inr e ↦
          rw (check_chain, e) (check_chain-kept amr_type cur rest (other (ℤ_discrete idx j) e h))
      | inl e ↦ elim (Bool-cases (can_take m use_spu query amr_type cur (endpoints tasks idx))) [
        | inl c ↦
            rw (check_chain, e, c)
              (ground (arith, check_chain-kept amr_type (end_of tasks idx) rest))
        | inr c ↦ rw (check_chain, e, c) (ground (arith, check_chain-kept amr_type cur rest))
      ]
    ]
      where
        other :
            Dec (idx ≡ j)
            → in_range idx (length tasks) ≡ false
            → elem ℤ_discrete j (idx ∷ rest) ≡ true
            → elem ℤ_discrete j rest ≡ true
        other dec e h = ground arith

    check_chains-kept :
        (starts : List Start) (chains : List (List ℤ))
        → is_assigned j chains ≡ true
        → (is_assigned j (check_chains m use_spu query tasks starts chains).0
            || elem ℤ_discrete j (check_chains m use_spu query tasks starts chains).1)
          ≡ true
    unfolding check_chains is_assigned elem
    check_chains-kept [] chains h = ground arith
    check_chains-kept (v ∷ starts) [] h = h
    check_chains-kept (v ∷ starts) (chain ∷ chains) h =
        let one = check_chain m use_spu query tasks v.amr_type v.node chain in
        let others = check_chains m use_spu query tasks starts chains in
        either _ _ _ _ _ _ _ h (check_chain-kept v.amr_type v.node chain)
          (check_chains-kept starts chains) (elem-append_left ℤ_discrete j one.1 others.1)
          (elem-append_right ℤ_discrete j one.1 others.1)
      where
        either :
            (a b k r k' r' l : Bool)
            → (a || b) ≡ true
            → (a ≡ true → (k || r) ≡ true)
            → (b ≡ true → (k' || r') ≡ true)
            → (r ≡ true → l ≡ true)
            → (r' ≡ true → l ≡ true)
            → ((k || k') || l) ≡ true
        either a b k r k' r' l h here later left right = ground arith

    -- What holds on between the removal and the merge: an inserted task is in a chain.
    abbrev IsCounted : Inserting → Type 0
    IsCounted r = elem ℤ_discrete j r.inserted ≡ true → is_assigned j r.chains ≡ true

    insert_best-kept :
        (starts : List Start) (idx : ℤ) (r : Inserting) (best : Reinsertion W)
        (place : Option (ℕ × ℕ))
        → Holds (IsPlace m use_spu query tasks starts r.chains idx) place
        → IsCounted r
        → let r' = insert_best m use_spu query tasks r idx best place in
          (is_assigned j r.chains ≡ true → is_assigned j r'.chains ≡ true) × IsCounted r'
    unfolding elem
    insert_best-kept starts idx r best none here h = (λ k. k, h)
    insert_best-kept starts idx r best (some (amr, p)) here h =
        elim (Bool-cases (d.is_finite best.delta)) [
          | inr e ↦ rw e (λ k. k, h)
          | inl e ↦
              let kept = is_assigned-inserted_at_kept m use_spu query tasks r.chains idx j amr p in
              rw e (kept, counted (ℤ_discrete idx j) kept)
        ]
      where
        counted :
            Dec (idx ≡ j)
            → (is_assigned j r.chains ≡ true
                → is_assigned j (inserted_at m use_spu query tasks r.chains amr p idx) ≡ true)
            → elem ℤ_discrete j (idx ∷ r.inserted) ≡ true
            → is_assigned j (inserted_at m use_spu query tasks r.chains amr p idx) ≡ true
        counted (yes e) kept k =
            subst (λ i. is_assigned i (inserted_at m use_spu query tasks r.chains amr p idx) ≡ true)
              e (is_assigned-inserted_at m use_spu query tasks starts r.chains idx amr p here)
        counted (no ne) kept k = kept (h (ground arith))

    reinsert_removed-kept :
        (starts : List Start) (removed : List ℤ) (r : Inserting)
        → IsCounted r
        → let r' = reinsert_removed m use_spu query tasks starts removed r in
          (is_assigned j r.chains ≡ true → is_assigned j r'.chains ≡ true) × IsCounted r'
    unfolding reinsert_removed reinsert
    reinsert_removed-kept starts [] r h = (λ k. k, h)
    reinsert_removed-kept starts (idx ∷ removed) r h =
        let (one, counted) = here in
        let (more, last) =
          reinsert_removed-kept starts removed (reinsert m use_spu query tasks starts idx r)
            counted in
        (λ k. more (one k), last)
      where
        here :
            let r' = reinsert m use_spu query tasks starts idx r in
            (is_assigned j r.chains ≡ true → is_assigned j r'.chains ≡ true) × IsCounted r'
        here =
            let best =
              best_amr m use_spu query tasks 0 starts r.chains idx
                (record { delta = d.infinity; place = none }) in
            elim (Bool-cases (in_range idx (length tasks))) [
              | inr e ↦ rw (reinsert, e) (λ k. k, h)
              | inl e ↦
                  rw (reinsert, e)
                    (insert_best-kept starts idx r best best.place
                      (best_amr-IsPlace m use_spu query tasks starts r.chains idx) h)
            ]

    sanitized-IsKept :
        (t : SparseCost W) (render : ℕ → ℕ → ℕ → String) (starts : List Start)
        (result : AllocationResult W)
        → IsKept j (chains_of result) result.unallocated_task_ids
        → let r = sanitized m use_spu query tasks t render starts result in
          IsKept j r.amr_tasks r.unallocated_task_ids
    unfolding sanitized elem
    sanitized-IsKept t render starts result h =
        let given = padded (length starts) (chains_of result) in
        let out = check_chains m use_spu query tasks starts given in
        let start : Inserting = record { chains = out.0; inserted = [] } in
        let r = reinsert_removed m use_spu query tasks starts out.1 start in
        let (stays, counted) =
          reinsert_removed-kept starts out.1 start (λ k. absurd (ground arith)) in
        let ids = result.unallocated_task_ids in
        let merged = merge_dropped (length tasks) r.inserted out.1 ids in
        rw (elem-sort_unique ℤ_discrete leb_ℤ j merged) (
          ending _ _ _ _ _ _ _ _ (is_assigned-padded (length starts) j (chains_of result)) h
            (check_chains-kept starts given) stays counted
            (merge_dropped-kept (length tasks) r.inserted out.1 ids j)
            (merge_dropped-new (length tasks) r.inserted out.1 ids j range))
      where
        ending :
            (a b u k g i c l : Bool)
            → a ≡ b
            → (b || u) ≡ true
            → (a ≡ true → (k || g) ≡ true)
            → (k ≡ true → c ≡ true)
            → (i ≡ true → c ≡ true)
            → (u ≡ true → l ≡ true)
            → (i ≡ false → g ≡ true → l ≡ true)
            → (c || l) ≡ true
        ending a b u k g i c l same h checked stays counted old new = ground arith

  -- Where the map gives every AMR a start node, the sanitizer returns a result in which every task of
  -- the list that was in a chain or unallocated is in a chain or unallocated.
  pub sanitize_allocation_result-IsKept :
      (env : Option String) (query : ℤ → ℤ → ℤ → W) (tasks : List Task) (t : SparseCost W)
      (render : ℕ → ℕ → ℕ → String) (result : AllocationResult W) (amrs : List (Amr W))
      (starts : List Start) (j : ℕ)
      → start_nodes m amrs ≡ some starts
      → j < length tasks
      → IsKept (pos j) (chains_of result) result.unallocated_task_ids
      → (r : AllocationResult W) × (sanitize_allocation_result m env query tasks t render result
            amrs
          ≡ some r)
        × IsKept (pos j) r.amr_tasks r.unallocated_task_ids
  unfolding sanitize_allocation_result
  sanitize_allocation_result-IsKept env query tasks t render result amrs starts j found small h = (
    sanitized m (read_env_bool env false) query tasks t render starts result,
    rw (sanitize_allocation_result, found) refl,
    sanitized-IsKept (read_env_bool env false) query tasks (pos j) (lt→ltb j (length tasks) small) t
        render starts result h,
  )
