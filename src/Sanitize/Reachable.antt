-- ===== src/Sanitize/Reachable.antt =====
-- After the sanitizer every AMR can drive its chain.
use agvscheduling.Prelude.{
  ℕ, suc, ◌≡◌, refl, ap, ◌∙◌, max, Bool, false, ℤ, List, [], ◌∷◌, Option, none, some, inl, inr,
  Bool-cases, Option-cases, length, length-set, String, Double,
}
use agvscheduling.Fleet.{Task, Amr}
use agvscheduling.MapInfo.{MapInfo}
use agvscheduling.Reach.{resolve_start_node_id}
use agvscheduling.Allocation.{AllocationResult, in_range, chains_of}
use agvscheduling.Cost.{SparseCost}
use agvscheduling.Allocator.Repair.{padded}
use agvscheduling.Allocator.Repair.Decodes.{length-padded}
use agvscheduling.Sanitize.{
  Start, Reinsertion, Inserting, endpoints, start_of, end_of, read_env_bool, can_take, check_chain,
  check_chains, best_amr, insert_best, reinsert, reinsert_removed, start_nodes, sanitized,
  sanitize_allocation_result,
}
use agvscheduling.Sanitize.Insertion.{
  IsDrivable, AreDrivable, IsPlace, can_take-HasWayThrough, inserted_at-AreDrivable,
}
use agvscheduling.Sanitize.Search.{Holds, best_amr-IsPlace}

module _ {W : Type 0} ⦃d : Double W⦄ (m : MapInfo W) where
  module _ (use_spu : Bool) (query : ℤ → ℤ → ℤ → W) (tasks : List Task) where
    check_chain-IsDrivable :
        (amr_type cur : ℤ) (chain : List ℤ)
        → d.is_finite d.infinity ≡ false
        → IsDrivable m use_spu query tasks amr_type cur
            (check_chain m use_spu query tasks amr_type cur chain).0
    unfolding check_chain
    check_chain-IsDrivable amr_type cur [] inf = tt
    check_chain-IsDrivable amr_type cur (idx ∷ rest) inf =
        elim (Bool-cases (in_range idx (length tasks))) [
          | inr e ↦ rw (check_chain, e) (check_chain-IsDrivable amr_type cur rest inf)
          | inl e ↦
              elim (Bool-cases (can_take m use_spu query amr_type cur (endpoints tasks idx))) [
                | inl c ↦
                    rw (check_chain, e, c)
                      (
                        can_take-HasWayThrough m use_spu query amr_type cur (start_of tasks idx)
                            (end_of tasks idx) inf c,
                        check_chain-IsDrivable amr_type (end_of tasks idx) rest inf,
                      )
                | inr c ↦ rw (check_chain, e, c) (check_chain-IsDrivable amr_type cur rest inf)
              ]
        ]

    check_chains-AreDrivable :
        (starts : List Start) (chains : List (List ℤ))
        → d.is_finite d.infinity ≡ false
        → AreDrivable m use_spu query tasks starts
            (check_chains m use_spu query tasks starts chains).0
    unfolding check_chains
    check_chains-AreDrivable [] chains inf = tt
    check_chains-AreDrivable (v ∷ starts) [] inf = tt
    check_chains-AreDrivable (v ∷ starts) (chain ∷ chains) inf = (
      check_chain-IsDrivable v.amr_type v.node chain inf,
      check_chains-AreDrivable starts chains inf,
    )

    length-check_chains :
        (starts : List Start) (chains : List (List ℤ))
        → length (check_chains m use_spu query tasks starts chains).0 ≡ length chains
    unfolding check_chains
    length-check_chains [] chains = refl
    length-check_chains (v ∷ starts) [] = refl
    length-check_chains (v ∷ starts) (chain ∷ chains) = ap suc (length-check_chains starts chains)

    -- So many chains, which the AMRs can drive.
    abbrev AreSound : List Start → ℕ → List (List ℤ) → Type 0
    AreSound starts n chains = (length chains ≡ n) × AreDrivable m use_spu query tasks starts chains

    insert_best-AreSound :
        (starts : List Start) (n : ℕ) (idx : ℤ) (r : Inserting) (best : Reinsertion W)
        (place : Option (ℕ × ℕ))
        → d.is_finite d.infinity ≡ false
        → Holds (IsPlace m use_spu query tasks starts r.chains idx) place
        → AreSound starts n r.chains
        → AreSound starts n (insert_best m use_spu query tasks r idx best place).chains
    insert_best-AreSound starts n idx r best none inf here h = h
    insert_best-AreSound starts n idx r best (some (amr, p)) inf here h =
        elim (Bool-cases (d.is_finite best.delta)) [
          | inr e ↦ rw e h
          | inl e ↦ rw e (
            length-set r.chains amr _ ∙ h.0,
            inserted_at-AreDrivable m use_spu query tasks starts r.chains idx amr p inf here h.1,
          )
        ]

    reinsert-AreSound :
        (starts : List Start) (n : ℕ) (idx : ℤ) (r : Inserting)
        → d.is_finite d.infinity ≡ false
        → AreSound starts n r.chains
        → AreSound starts n (reinsert m use_spu query tasks starts idx r).chains
    unfolding reinsert
    reinsert-AreSound starts n idx r inf h =
        let best =
          best_amr m use_spu query tasks 0 starts r.chains idx
            (record { delta = d.infinity; place = none }) in
        elim (Bool-cases (in_range idx (length tasks))) [
          | inr e ↦ rw e h
          | inl e ↦ rw e (
              insert_best-AreSound starts n idx r best best.place inf
                (best_amr-IsPlace m use_spu query tasks starts r.chains idx) h)
        ]

    reinsert_removed-AreSound :
        (starts : List Start) (n : ℕ) (removed : List ℤ) (r : Inserting)
        → d.is_finite d.infinity ≡ false
        → AreSound starts n r.chains
        → AreSound starts n (reinsert_removed m use_spu query tasks starts removed r).chains
    unfolding reinsert_removed
    reinsert_removed-AreSound starts n [] r inf h = h
    reinsert_removed-AreSound starts n (idx ∷ removed) r inf h =
        reinsert_removed-AreSound starts n removed (reinsert m use_spu query tasks starts idx r) inf
          (reinsert-AreSound starts n idx r inf h)

    sanitized-AreSound :
        (t : SparseCost W) (render : ℕ → ℕ → ℕ → String) (starts : List Start)
        (result : AllocationResult W)
        → d.is_finite d.infinity ≡ false
        → AreSound starts
            (max (length starts) (length (chains_of result)))
            (sanitized m use_spu query tasks t render starts result).amr_tasks
    unfolding sanitized
    sanitized-AreSound t render starts result inf =
        let given = padded (length starts) (chains_of result) in
        reinsert_removed-AreSound starts _ (check_chains m use_spu query tasks starts given).1 _ inf
          (
            length-check_chains starts given ∙ length-padded (length starts) (chains_of result),
            check_chains-AreDrivable starts given inf,
          )

  length-start_nodes :
      (amrs : List (Amr W)) (starts : List Start)
      → start_nodes m amrs ≡ some starts
      → length starts ≡ length amrs
  unfolding start_nodes
  length-start_nodes [] [] h = refl
  length-start_nodes [] (v ∷ starts) h = cc
  length-start_nodes (a ∷ amrs) starts h = elim (Option-cases (resolve_start_node_id a m)) [
    | inl e ↦ cc
    | inr (node, e) ↦ elim (Option-cases (start_nodes m amrs)) [
      | inl k ↦ cc
      | inr (rest, k) ↦ ap length (found h e k) ∙ ap suc (length-start_nodes amrs rest k)
    ]
  ]
    where
      found :
          {node : ℤ} {rest : List Start}
          → start_nodes m (a ∷ amrs) ≡ some starts
          → resolve_start_node_id a m ≡ some node
          → start_nodes m amrs ≡ some rest
          → starts ≡ record { amr_type = a.device_type; node = node } ∷ rest
      found h e k = cc

  -- Where infinity is not finite and the map gives every AMR a start node, the sanitizer returns a
  -- result: with a chain for each AMR, and for each chain that it was given; and each AMR has a way of
  -- finite time from its start node to the start of its first task, from the end of each task to the
  -- start of the next, and from the start to the end of each task whose end is not negative and not its
  -- start.
  pub sanitize_allocation_result-AreDrivable :
      (env : Option String) (query : ℤ → ℤ → ℤ → W) (tasks : List Task) (t : SparseCost W)
      (render : ℕ → ℕ → ℕ → String) (result : AllocationResult W) (amrs : List (Amr W))
      (starts : List Start)
      → d.is_finite d.infinity ≡ false
      → start_nodes m amrs ≡ some starts
      → (r : AllocationResult W) × (sanitize_allocation_result m env query tasks t render result
            amrs
          ≡ some r)
        × (length r.amr_tasks ≡ max (length amrs) (length (chains_of result)))
        × AreDrivable m (read_env_bool env false) query tasks starts r.amr_tasks
  unfolding sanitize_allocation_result
  sanitize_allocation_result-AreDrivable env query tasks t render result amrs starts inf h =
      let (len, drivable) =
        sanitized-AreSound (read_env_bool env false) query tasks t render starts result inf in
      (
        sanitized m (read_env_bool env false) query tasks t render starts result,
        rw (sanitize_allocation_result, h) refl,
        len ∙ ap (λ n. max n (length (chains_of result))) (length-start_nodes amrs starts h),
        drivable,
      )
