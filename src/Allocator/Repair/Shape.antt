-- ===== src/Allocator/Repair/Shape.antt =====
-- The steps of the repair up to its clean-up keep the number of chains, and what holds of every task.
use agvscheduling.Prelude.{
  ℕ, zero, suc, ◌≡◌, ◌∙◌, ap, refl, true, false, ◌&&◌, ℤ, List, [], ◌∷◌, Option, none, some, inl,
  inr, ◌==◌, Bool-cases, ℤ_discrete, All, All-append, length, length-set, take, set, get_or,
  insert_at, if◌then◌else◌, Double,
}
use mathlib.Core.Logic.{if_pos, if_neg}
use agvscheduling.Allocation.{in_range}
use agvscheduling.Fleet.{Task, Amr}
use agvscheduling.Cost.{SparseCost}
use agvscheduling.Allocator.Repair.{
  Repairing, Invalid, padded, can_follow, screen_chain, screen, spent, overflow_chain, overflow,
  clean_chain, clean,
}
use agvscheduling.Allocator.Repair.Insertion.{
  Best, removed, moved_chains, placed, place_among, valid_amr_idxs, best_target, reinsert_all,
}

module _ (P : ℤ → Type 0) where
  -- Every task of every chain has the property.
  abbrev pub HaveAll : List (List ℤ) → Type 0
  HaveAll = All (All P)

  abbrev pub MoveAll : List Invalid → Type 0
  MoveAll = All (λ i. P i.task)

  pub padded-HaveAll : (n : ℕ) (chains : List (List ℤ)) → HaveAll chains → HaveAll (padded n chains)
  unfolding padded
  padded-HaveAll zero chains h = h
  padded-HaveAll (suc n) [] h = (tt, padded-HaveAll n [] tt)
  padded-HaveAll (suc n) (c ∷ chains) h = (h.0, padded-HaveAll n chains h.1)

  removed-All : (idx : ℤ) (xs : List ℤ) → All P xs → All P (removed idx xs)
  unfolding removed
  removed-All idx [] h = tt
  removed-All idx (x ∷ xs) h = elim (ℤ_discrete x idx) [
    | yes e ↦
        rw (removed, if_pos (ℤ_discrete x idx) e (removed idx xs) (x ∷ removed idx xs))
          (removed-All idx xs h.1)
    | no ne ↦
        rw (removed, if_neg (ℤ_discrete x idx) ne (removed idx xs) (x ∷ removed idx xs))
          (h.0, removed-All idx xs h.1)
  ]

  get_or-All : (chains : List (List ℤ)) (i : ℕ) → HaveAll chains → All P (get_or chains i [])
  get_or-All [] i h = tt
  get_or-All (c ∷ chains) zero h = h.0
  get_or-All (c ∷ chains) (suc i) h = get_or-All chains i h.1

  set-HaveAll :
      (chains : List (List ℤ)) (i : ℕ) (c : List ℤ)
      → HaveAll chains
      → All P c
      → HaveAll (set chains i c)
  set-HaveAll [] i c h k = tt
  set-HaveAll (x ∷ chains) zero c h k = (k, h.1)
  set-HaveAll (x ∷ chains) (suc i) c h k = (h.0, set-HaveAll chains i c h.1 k)

  insert_at-All : (xs : List ℤ) (i : ℕ) (v : ℤ) → All P xs → P v → All P (insert_at xs i v)
  insert_at-All xs zero v h k = (k, h)
  insert_at-All [] (suc i) v h k = (k, tt)
  insert_at-All (x ∷ xs) (suc i) v h k = (h.0, insert_at-All xs i v h.1 k)

  pub take-All : (n : ℕ) (xs : List ℤ) → All P xs → All P (take n xs)
  take-All zero xs h = tt
  take-All (suc n) [] h = tt
  take-All (suc n) (x ∷ xs) h = (h.0, take-All n xs h.1)

  -- So many chains, whose tasks have the property.
  abbrev pub Fits : ℕ → List (List ℤ) → Type 0
  Fits n chains = (length chains ≡ n) × HaveAll chains

  moved_chains-Fits :
      (n : ℕ) (chains : List (List ℤ)) (idx : ℤ) (original amr p : ℕ)
      → Fits n chains
      → P idx
      → Fits n (moved_chains chains idx original amr p)
  unfolding moved_chains
  moved_chains-Fits n chains idx original amr p (len, h) k =
      let inserted = set chains amr (insert_at (get_or chains amr []) p idx) in
      let fits =
        set-HaveAll chains amr _ h
          (insert_at-All (get_or chains amr []) p idx (get_or-All chains amr h) k) in
      elim (amr == original)
        as (λ b. Fits n (
          if b
          then inserted
          else set inserted original (removed idx (get_or inserted original [])))) [
            | true ↦ (length-set chains amr _ ∙ len, fits)
            | false ↦ (
              length-set inserted original _ ∙ length-set chains amr _ ∙ len,
              set-HaveAll inserted original _ fits
                  (removed-All idx _ (get_or-All inserted original fits)),
            )
          ]

  module _ {W : Type 0} ⦃d : Double W⦄ (t : SparseCost W) (tasks : List Task) where
    screen_chain-All :
        (amr : ℕ) (chain : List ℤ)
        → All P chain
        → All P (screen_chain t tasks amr chain).0 × MoveAll (screen_chain t tasks amr chain).1
    unfolding screen_chain
    screen_chain-All amr [] h = (tt, tt)
    screen_chain-All amr (idx ∷ rest) h =
        let (valid, invalid) = screen_chain-All amr rest h.1 in
        elim (Bool-cases (in_range idx (length tasks) && can_follow t tasks amr none idx)) [
          | inl e ↦ rw (screen_chain, e) ((h.0, valid), invalid)
          | inr e ↦ rw (screen_chain, e) (valid, (h.0, invalid))
        ]

    pub screen-All :
        (n amr : ℕ) (amrs : List (Amr W)) (chains : List (List ℤ))
        → Fits n chains
        → Fits n (screen t tasks amr amrs chains).0 × MoveAll (screen t tasks amr amrs chains).1
    unfolding screen
    screen-All n amr [] chains h = (h, tt)
    screen-All n amr (a ∷ amrs) [] h = (h, tt)
    screen-All n amr (a ∷ amrs) (c ∷ chains) (len, h) =
        let (valid, invalid) = screen_chain-All amr c h.0 in
        let (rest, more) = screen-All (length chains) (suc amr) amrs chains (refl, h.1) in
        ((ap suc rest.0 ∙ len, (valid, rest.1)), All-append _ _ _ invalid more)

    overflow_chain-MoveAll :
        (amr : ℕ) (limit : W) (prev : Option ℤ) (acc : W) (chain : List ℤ)
        → All P chain
        → MoveAll (overflow_chain t tasks amr limit prev acc chain)
    unfolding overflow_chain
    overflow_chain-MoveAll amr limit prev acc [] h = tt
    overflow_chain-MoveAll amr limit prev acc (idx ∷ rest) h =
        let acc' = spent t tasks acc amr prev idx in
        let more = overflow_chain-MoveAll amr limit (some idx) acc' rest h.1 in
        elim (Bool-cases (d.lt limit acc')) [
          | inl e ↦ rw (overflow_chain, e) (h.0, more)
          | inr e ↦ rw (overflow_chain, e) more
        ]

    pub overflow-MoveAll :
        (amr : ℕ) (amrs : List (Amr W)) (chains : List (List ℤ))
        → HaveAll chains
        → MoveAll (overflow t tasks amr amrs chains)
    unfolding overflow
    overflow-MoveAll amr [] chains h = tt
    overflow-MoveAll amr (a ∷ amrs) [] h = tt
    overflow-MoveAll amr (a ∷ amrs) (c ∷ chains) h =
        All-append _ _ _ (overflow_chain-MoveAll amr _ none d.nought c h.0)
          (overflow-MoveAll (suc amr) amrs chains h.1)

    placed-Fits :
        (n : ℕ) (r : Repairing) (times : List W) (inv : Invalid) (best : Best W)
        (place : Option (ℕ × ℕ))
        → Fits n r.amr_tasks
        → P inv.task
        → Fits n (placed t tasks (r, times) inv best place).0.amr_tasks
    placed-Fits n r times inv best none h k = h
    placed-Fits n r times inv best (some (amr, p)) h k =
        moved_chains-Fits n r.amr_tasks inv.task inv.original_amr amr p h k

    place_among-Fits :
        (n : ℕ) (amrs : List (Amr W)) (r : Repairing) (times : List W) (inv : Invalid)
        (valid : List ℕ)
        → Fits n r.amr_tasks
        → P inv.task
        → Fits n (place_among t tasks amrs (r, times) inv valid).0.amr_tasks
    place_among-Fits n amrs r times inv [] h k = h
    place_among-Fits n amrs r times inv (amr ∷ rest) h k =
        let best =
          best_target t tasks amrs times r.amr_tasks inv.task (amr ∷ rest)
            (record { cost_delta = d.infinity; place = none }) in
        placed-Fits n r times inv best best.place h k

    pub reinsert_all-Fits :
        (n : ℕ) (amrs : List (Amr W)) (invalid : List Invalid) (r : Repairing) (times : List W)
        → Fits n r.amr_tasks
        → MoveAll invalid
        → Fits n (reinsert_all t tasks amrs invalid (r, times)).0.amr_tasks
    unfolding reinsert_all
    reinsert_all-Fits n amrs [] r times h k = h
    reinsert_all-Fits n amrs (inv ∷ rest) r times h k =
        let next =
          place_among t tasks amrs (r, times) inv (valid_amr_idxs t tasks 0 amrs inv.task) in
        reinsert_all-Fits n amrs rest next.0 next.1
          (place_among-Fits n amrs r times inv (valid_amr_idxs t tasks 0 amrs inv.task) h k.0) k.1

    clean_chain-All :
        (amr : ℕ) (prev : Option ℤ) (chain : List ℤ)
        → All P chain
        → All P (clean_chain t tasks amr prev chain).0
    unfolding clean_chain
    clean_chain-All amr prev [] h = tt
    clean_chain-All amr prev (idx ∷ rest) h = elim (Bool-cases (can_follow t tasks amr prev idx)) [
      | inl e ↦ rw (clean_chain, e) (h.0, clean_chain-All amr (some idx) rest h.1)
      | inr e ↦ rw (clean_chain, e) (clean_chain-All amr prev rest h.1)
    ]

    pub clean-Fits :
        (n amr : ℕ) (amrs : List (Amr W)) (chains : List (List ℤ))
        → Fits n chains
        → Fits n (clean t tasks amr amrs chains).0
    unfolding clean
    clean-Fits n amr [] chains h = h
    clean-Fits n amr (a ∷ amrs) [] h = h
    clean-Fits n amr (a ∷ amrs) (c ∷ chains) (len, h) =
        let (len', rest) = clean-Fits (length chains) (suc amr) amrs chains (refl, h.1) in
        (ap suc len' ∙ len, (clean_chain-All amr none c h.0, rest))
