-- ===== src/Sanitize/Insertion.antt =====
-- A chain that an AMR can drive stays one where the sanitizer inserts a task that fits.
use agvscheduling.Prelude.{
  ℕ, zero, suc, ◌≤◌, ◌≡◌, refl, ◌∙◌, sym, Bool, true, false, ℤ, List, [], ◌∷◌, arith, Bool-cases,
  length, insert_at, is_negative, ℤ_discrete, ◌⊎◌, inl, inr, elem, Double,
}
use agvscheduling.Fleet.{Task}
use agvscheduling.MapInfo.{MapInfo}
use agvscheduling.Sanitize.{
  Start, start_of, end_of, prev_end, next_start, is_reachable, sp_seconds_or_approx, can_take,
  fits_at, inserted_at,
}
use agvscheduling.Allocator.Repair.Complete.{is_assigned}

module _ {W : Type 0} ⦃d : Double W⦄ (m : MapInfo W) (use_spu : Bool) (query : ℤ → ℤ → ℤ → W) where
  can_take-first :
      (amr_type cur s e : ℤ)
      → can_take m use_spu query amr_type cur (s, e) ≡ true
      → is_reachable m use_spu query amr_type cur s ≡ true
  unfolding can_take
  can_take-first amr_type cur s e h = ground arith

  -- The way of an AMR's type between two nodes takes a finite time.
  abbrev pub HasWay : ℤ → ℤ → ℤ → Type 0
  HasWay amr_type from_node to_node =
      d.is_finite (sp_seconds_or_approx m use_spu query from_node to_node amr_type) ≡ true

  -- A task whose end is known and not its start has a way from its start to its end.
  abbrev pub HasWayThrough : ℤ → ℤ → ℤ → Type 0
  HasWayThrough amr_type s e = (is_negative e ≡ true) ⊎ ((s ≡ e) ⊎ HasWay amr_type s e)

  is_reachable-HasWay :
      (amr_type a b : ℤ) → is_reachable m use_spu query amr_type a b ≡ true → HasWay amr_type a b
  unfolding is_reachable
  is_reachable-HasWay amr_type a b h = h

  HasWay-known :
      (amr_type a b : ℤ)
      → d.is_finite d.infinity ≡ false
      → HasWay amr_type a b
      → is_negative b ≡ false
  unfolding sp_seconds_or_approx
  HasWay-known amr_type a b inf h = ground arith

  pub can_take-HasWayThrough :
      (amr_type cur s e : ℤ)
      → d.is_finite d.infinity ≡ false
      → can_take m use_spu query amr_type cur (s, e) ≡ true
      → HasWay amr_type cur s × HasWayThrough amr_type s e
  unfolding can_take
  can_take-HasWayThrough amr_type cur s e inf h =
      let first = is_reachable-HasWay amr_type cur s (can_take-first amr_type cur s e h) in
      let known = HasWay-known amr_type cur s inf first in
      (first, through (Bool-cases (is_negative e)) (ℤ_discrete s e) known)
    where
      through :
          (is_negative e ≡ true) ⊎ (is_negative e ≡ false)
          → Dec (s ≡ e)
          → is_negative s ≡ false
          → HasWayThrough amr_type s e
      through (inl n) dec known = inl n
      through (inr n) (yes same) known = inr (inl same)
      through (inr n) (no ne) known = inr (inr (is_reachable-HasWay amr_type s e (ground arith)))

  module _ (tasks : List Task) where
    -- From its node on the AMR has a way to every task of the chain, and through it.
    abbrev pub IsDrivable : ℤ → ℤ → List ℤ → Type 0
    IsDrivable amr_type cur [] = Unit
    IsDrivable amr_type cur (idx ∷ rest) =
        (HasWay amr_type cur (start_of tasks idx)
          × HasWayThrough amr_type (start_of tasks idx) (end_of tasks idx))
        × IsDrivable amr_type (end_of tasks idx) rest

    abbrev pub AreDrivable : List Start → List (List ℤ) → Type 0
    AreDrivable [] chains = Unit
    AreDrivable (v ∷ starts) [] = Unit
    AreDrivable (v ∷ starts) (chain ∷ chains) =
        IsDrivable v.amr_type v.node chain × AreDrivable starts chains

    -- A place in a chain at which a task fits.
    abbrev pub IsPlace : List Start → List (List ℤ) → ℤ → ℕ → ℕ → Type 0
    IsPlace [] chains idx amr p = ⊥
    IsPlace (v ∷ starts) [] idx amr p = ⊥
    IsPlace (v ∷ starts) (chain ∷ chains) idx zero p =
        (p ≤ length chain) × (fits_at m use_spu query tasks v chain idx p ≡ true)
    IsPlace (v ∷ starts) (chain ∷ chains) idx (suc amr) p = IsPlace starts chains idx amr p

    abbrev at_node : ℤ → ℤ → Start
    at_node amr_type cur = record { amr_type = amr_type; node = cur }

    fits_at-later :
        (amr_type cur x idx : ℤ) (chain : List ℤ) (p : ℕ)
        → fits_at m use_spu query tasks (at_node amr_type cur) (x ∷ chain) idx (suc p)
          ≡ fits_at m use_spu query tasks (at_node amr_type (end_of tasks x)) chain idx p
    unfolding fits_at prev_end next_start
    fits_at-later amr_type cur x idx chain zero = refl
    fits_at-later amr_type cur x idx chain (suc p) = refl

    insert_at-IsDrivable :
        (amr_type cur idx : ℤ) (chain : List ℤ) (p : ℕ)
        → d.is_finite d.infinity ≡ false
        → p ≤ length chain
        → fits_at m use_spu query tasks (at_node amr_type cur) chain idx p ≡ true
        → IsDrivable amr_type cur chain
        → IsDrivable amr_type cur (insert_at chain p idx)
    unfolding fits_at prev_end next_start
    insert_at-IsDrivable amr_type cur idx [] zero inf small fits h = (
      (
        is_reachable-HasWay amr_type cur (start_of tasks idx) (ground arith),
        inr (inr (is_reachable-HasWay amr_type _ (end_of tasks idx) (ground arith))),
      ),
      tt,
    )
    insert_at-IsDrivable amr_type cur idx (x ∷ chain) zero inf small fits h =
        let known = HasWay-known amr_type cur (start_of tasks x) inf h.0.0 in
        (
          (
            is_reachable-HasWay amr_type cur (start_of tasks idx) (ground arith),
            inr (inr (is_reachable-HasWay amr_type _ (end_of tasks idx) (ground arith))),
          ),
          (
            (
              is_reachable-HasWay amr_type (end_of tasks idx) (start_of tasks x) (ground arith),
              h.0.1,
            ),
            h.1,
          ),
        )
    insert_at-IsDrivable amr_type cur idx [] (suc p) inf small fits h = absurd (omega arith)
    insert_at-IsDrivable amr_type cur idx (x ∷ chain) (suc p) inf small fits h = (
      h.0,
      insert_at-IsDrivable amr_type (end_of tasks x) idx chain p inf (omega arith)
          (sym (fits_at-later amr_type cur x idx chain p) ∙ fits) h.1,
    )

    pub inserted_at-AreDrivable :
        (starts : List Start) (chains : List (List ℤ)) (idx : ℤ) (amr p : ℕ)
        → d.is_finite d.infinity ≡ false
        → IsPlace starts chains idx amr p
        → AreDrivable starts chains
        → AreDrivable starts (inserted_at m use_spu query tasks chains amr p idx)
    inserted_at-AreDrivable [] chains idx amr p inf place h = tt
    inserted_at-AreDrivable (v ∷ starts) [] idx amr p inf place h = absurd place
    inserted_at-AreDrivable (v ∷ starts) (chain ∷ chains) idx zero p inf place h =
        (insert_at-IsDrivable v.amr_type v.node idx chain p inf place.0 place.1 h.0, h.1)
    inserted_at-AreDrivable (v ∷ starts) (chain ∷ chains) idx (suc amr) p inf place h =
        (h.0, inserted_at-AreDrivable starts chains idx amr p inf place h.1)

elem-insert_at_here :
    (xs : List ℤ) (p : ℕ) (idx : ℤ) → elem ℤ_discrete idx (insert_at xs p idx) ≡ true
unfolding elem
elem-insert_at_here xs zero idx = ground arith
elem-insert_at_here [] (suc p) idx = ground arith
elem-insert_at_here (x ∷ xs) (suc p) idx = ground (arith, elem-insert_at_here xs p idx)

elem-insert_at_kept :
    (xs : List ℤ) (p : ℕ) (idx j : ℤ)
    → elem ℤ_discrete j xs ≡ true
    → elem ℤ_discrete j (insert_at xs p idx) ≡ true
unfolding elem
elem-insert_at_kept xs zero idx j h = ground arith
elem-insert_at_kept [] (suc p) idx j h = absurd (ground arith)
elem-insert_at_kept (x ∷ xs) (suc p) idx j h = ground (arith, elem-insert_at_kept xs p idx j)

-- A task that is inserted is in a chain, and every other one stays in its chain.
pub is_assigned-inserted_at :
    {W : Type 0} ⦃d : Double W⦄ (m : MapInfo W) (use_spu : Bool) (query : ℤ → ℤ → ℤ → W)
    (tasks : List Task) (starts : List Start) (chains : List (List ℤ)) (idx : ℤ) (amr p : ℕ)
    → IsPlace m use_spu query tasks starts chains idx amr p
    → is_assigned idx (inserted_at m use_spu query tasks chains amr p idx) ≡ true
unfolding is_assigned
is_assigned-inserted_at m use_spu query tasks [] chains idx amr p place = absurd place
is_assigned-inserted_at m use_spu query tasks (v ∷ starts) [] idx amr p place = absurd place
is_assigned-inserted_at m use_spu query tasks (v ∷ starts) (chain ∷ chains) idx zero p place =
    rw (elem-insert_at_here chain p idx) refl
is_assigned-inserted_at m use_spu query tasks (v ∷ starts) (chain ∷ chains) idx (suc amr) p place =
    ground (arith, is_assigned-inserted_at m use_spu query tasks starts chains idx amr p place)

pub is_assigned-inserted_at_kept :
    {W : Type 0} ⦃d : Double W⦄ (m : MapInfo W) (use_spu : Bool) (query : ℤ → ℤ → ℤ → W)
    (tasks : List Task) (chains : List (List ℤ)) (idx j : ℤ) (amr p : ℕ)
    → is_assigned j chains ≡ true
    → is_assigned j (inserted_at m use_spu query tasks chains amr p idx) ≡ true
unfolding is_assigned
is_assigned-inserted_at_kept m use_spu query tasks [] idx j amr p h = h
is_assigned-inserted_at_kept m use_spu query tasks (chain ∷ chains) idx j zero p h =
    ground (arith, elem-insert_at_kept chain p idx j)
is_assigned-inserted_at_kept m use_spu query tasks (chain ∷ chains) idx j (suc amr) p h =
    ground (arith, is_assigned-inserted_at_kept m use_spu query tasks chains idx j amr p)
