-- ===== src/Sanitize/Search.antt =====
-- The search of the sanitizer finds nothing, or a place at which the task fits.
use agvscheduling.Prelude.{
  ℕ, zero, suc, ◌+◌, ◌≤◌, ◌≡◌, Bool, true, ℤ, List, [], ◌∷◌, Option, none, some, inl, inr, arith,
  Bool-cases, length, subst, Double,
}
use agvscheduling.Fleet.{Task}
use agvscheduling.MapInfo.{MapInfo}
use agvscheduling.Sanitize.{
  Start, Reinsertion, fits_at, delta_at, consider_position, best_in_chain, best_amr,
}
use agvscheduling.Sanitize.Insertion.{IsPlace}

-- The place that was found, if any, has a property.
abbrev pub Holds : (ℕ → ℕ → Type 0) → Option (ℕ × ℕ) → Type 0
Holds P none = Unit
Holds P (some (amr, p)) = P amr p

module _ {W : Type 0} ⦃d : Double W⦄ (m : MapInfo W) (use_spu : Bool) (query : ℤ → ℤ → ℤ → W)
    (tasks : List Task) where
  module _ (P : ℕ → ℕ → Type 0) where
    consider_position-Holds :
        (amr : ℕ) (v : Start) (chain : List ℤ) (idx : ℤ) (p : ℕ) (best : Reinsertion W)
        → (fits_at m use_spu query tasks v chain idx p ≡ true → P amr p)
        → Holds P best.place
        → Holds P (consider_position m use_spu query tasks amr v chain idx p best).place
    unfolding consider_position
    consider_position-Holds amr v chain idx p best here h =
        elim (Bool-cases (fits_at m use_spu query tasks v chain idx p)) [
          | inr e ↦ rw e h
          | inl e ↦
              elim (Bool-cases (d.lt (delta_at m use_spu query tasks v chain idx p) best.delta)) [
                | inl l ↦ rw (e, l) (here e)
                | inr l ↦ rw (e, l) h
              ]
        ]

    best_in_chain-Holds :
        (amr : ℕ) (v : Start) (chain : List ℤ) (idx : ℤ) (p count : ℕ) (best : Reinsertion W)
        → p + count ≡ suc (length chain)
        → ((q : ℕ)
            → q ≤ length chain
            → fits_at m use_spu query tasks v chain idx q ≡ true
            → P amr q)
        → Holds P best.place
        → Holds P (best_in_chain m use_spu query tasks amr v chain idx p count best).place
    unfolding best_in_chain
    best_in_chain-Holds amr v chain idx p zero best e here h = h
    best_in_chain-Holds amr v chain idx p (suc count) best e here h =
        best_in_chain-Holds amr v chain idx (suc p) count
          (consider_position m use_spu query tasks amr v chain idx p best) (omega arith) here
          (consider_position-Holds amr v chain idx p best (here p (omega arith)) h)

    best_amr-Holds :
        (amr : ℕ) (starts : List Start) (chains : List (List ℤ)) (idx : ℤ) (best : Reinsertion W)
        → ((i p : ℕ) → IsPlace m use_spu query tasks starts chains idx i p → P (i + amr) p)
        → Holds P best.place
        → Holds P (best_amr m use_spu query tasks amr starts chains idx best).place
    unfolding best_amr
    best_amr-Holds amr [] chains idx best here h = h
    best_amr-Holds amr (v ∷ starts) [] idx best here h = h
    best_amr-Holds amr (v ∷ starts) (chain ∷ chains) idx best here h =
        best_amr-Holds (suc amr) starts chains idx
          (best_in_chain m use_spu query tasks amr v chain idx 0 (suc (length chain)) best)
          (λ i p place. subst (λ n. P n p) (shift i amr) (here (suc i) p place))
          (best_in_chain-Holds amr v chain idx 0 (suc (length chain)) best (omega arith)
            (λ q small fits. subst (λ n. P n q) (zero_plus amr) (here 0 q (small, fits))) h)
      where
        shift : (i amr : ℕ) → suc i + amr ≡ i + suc amr
        shift i amr = omega arith

        zero_plus : (amr : ℕ) → 0 + amr ≡ amr
        zero_plus amr = omega arith

  -- What the search over all AMRs and positions finds.
  pub best_amr-IsPlace :
      (starts : List Start) (chains : List (List ℤ)) (idx : ℤ)
      → Holds
          (IsPlace m use_spu query tasks starts chains idx)
          (best_amr m use_spu query tasks 0 starts chains idx
            (record { delta = d.infinity; place = none })).place
  best_amr-IsPlace starts chains idx =
      best_amr-Holds (IsPlace m use_spu query tasks starts chains idx) 0 starts chains idx
        (record { delta = d.infinity; place = none })
        (λ i p place.
          subst (λ n. IsPlace m use_spu query tasks starts chains idx n p) (plus_zero i) place)
        tt
    where
      plus_zero : (i : ℕ) → i ≡ i + 0
      plus_zero i = omega arith
