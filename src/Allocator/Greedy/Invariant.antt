-- ===== src/Allocator/Greedy/Invariant.antt =====
-- What the greedy loop keeps: a task is in no chain, or in one chain once, and every leg is finite.
use agvscheduling.Prelude.{
  ℕ, zero, suc, ◌<◌, ◌≡◌, ◌≢◌, ◌∙◌, sym, refl, ap, subst, Bool, true, false, ℤ, pos, negsuc,
  pos-injective, List, [], ◌∷◌, ◌++◌, Option, none, some, inl, inr, arith, length, length-set,
  length-replicate, get_or, set, replicate, ℕ_discrete, String, Double,
}
use agvscheduling.Fleet.{Task}
use agvscheduling.Cost.{SparseCost}
use agvscheduling.Allocator.Greedy.{
  Assigning, chain_of, give, give_all, offers, round, rounds, start_state, assign_greedily,
}
use agvscheduling.Allocator.Greedy.Rounds.{rounds-empty, rounds_cases}
use agvscheduling.Allocator.Greedy.Offers.{AreOthers, AreApart, AreOffers, CanTake, offers_lem}
use agvscheduling.Allocator.Greedy.Giving.{
  get_or-set, get_or-set_other, get_or-in_range, get_or-default, times, times-push, AreFinite,
  push-AreFinite,
}

abbrev pub one_if : Bool → ℕ
one_if true = 1
one_if false = 0

module _ {W : Type 0} where
  -- How often a task may stand in the chains: once if it is marked.
  abbrev pub marked : Assigning W → ℤ → ℕ
  marked s (pos i) = one_if (get_or s.is_allocated i false)
  marked s (negsuc n) = 0

module _ {W : Type 0} ⦃d : Double W⦄ (t : SparseCost W) (tasks : List Task)
    (parse_iso : String → Option W) (base_now coeff : W) (amr_num : ℕ) where
  pub record IsConsistent (s : Assigning W) : Type 0 where
    pub wide : length s.amr_tasks ≡ amr_num
    pub counted : (idx : ℤ) → times idx s.amr_tasks ≡ marked s idx
    pub finite : (amr : ℕ) → AreFinite t tasks amr none (get_or s.amr_tasks amr [])

  give-counted :
      (s : Assigning W) (task amr : ℕ) (idx : ℤ)
      → amr < length s.amr_tasks
      → get_or s.is_allocated task true ≡ false
      → times idx s.amr_tasks ≡ marked s idx
      → let s' = give t tasks parse_iso base_now coeff s task amr in
        times idx s'.amr_tasks ≡ marked s' idx
  unfolding give
  give-counted s task amr (negsuc n) small free h =
      ground (arith, h, times-push (negsuc n) (pos task) s.amr_tasks amr small)
  give-counted s task amr (pos i) small free h =
      let more = times-push (pos i) (pos task) s.amr_tasks amr small in
      elim (ℕ_discrete task i) [
        | yes e ↦
            let stored =
              subst (λ k. get_or (set s.is_allocated task true) k false ≡ true) e
                (get_or-set s.is_allocated task true false
                  (get_or-in_range s.is_allocated task free)) in
            let was =
              subst (λ k. get_or s.is_allocated k false ≡ false) e
                (get_or-default s.is_allocated task free) in
            let same : pos task ≡ pos i = ap pos e in ground (arith, more, h, stored, was, same)
        | no ne ↦
            let other = get_or-set_other s.is_allocated task i true false ne in
            let apart : ¬ (pos task ≡ pos i) = λ e. ne (pos-injective e) in
            ground (arith, more, h, other, apart)
      ]

  give-IsConsistent :
      (s : Assigning W) (task amr : ℕ)
      → amr < amr_num
      → CanTake t tasks parse_iso base_now coeff s amr task
      → IsConsistent s
      → IsConsistent (give t tasks parse_iso base_now coeff s task amr)
  unfolding give
  give-IsConsistent s task amr small (free, reach) c =
      let inside : amr < length s.amr_tasks = omega (arith, c.wide) in
      record {
        wide = length-set s.amr_tasks amr _ ∙ c.wide;
        counted = λ idx. give-counted s task amr idx inside free (c.counted idx);
        finite = λ b. elim (ℕ_discrete amr b) [
          | yes e ↦
              subst
                (λ k.
                  AreFinite t tasks k none
                    (get_or (set s.amr_tasks amr (chain_of s amr ++ pos task ∷ [])) k []))
                e
                (rw (get_or-set s.amr_tasks amr (chain_of s amr ++ pos task ∷ []) [] inside)
                  (push-AreFinite t tasks amr (chain_of s amr) (pos task) (c.finite amr) reach))
          | no ne ↦
              rw (get_or-set_other s.amr_tasks amr b (chain_of s amr ++ pos task ∷ []) [] ne)
                (c.finite b)
        ];
      }

  -- What an AMR can take, it can take after another has got a task.
  give-CanTake :
      (s : Assigning W) (task amr task' amr' : ℕ)
      → task ≢ task'
      → amr ≢ amr'
      → CanTake t tasks parse_iso base_now coeff s amr' task'
      → CanTake t tasks parse_iso base_now coeff
          (give t tasks parse_iso base_now coeff s task amr)
          amr'
          task'
  unfolding give
  give-CanTake s task amr task' amr' ne ne' (free, reach) = (
    get_or-set_other s.is_allocated task task' true true ne ∙ free,
    rw (get_or-set_other s.amr_tasks amr amr' (chain_of s amr ++ pos task ∷ []) [] ne') reach,
  )

  give-AreOffers :
      (s : Assigning W) (task amr j : ℕ) (temp : List (Option ℕ))
      → task < j
      → AreOthers amr temp
      → AreOffers t tasks parse_iso base_now coeff s amr_num j temp
      → AreOffers t tasks parse_iso base_now coeff
          (give t tasks parse_iso base_now coeff s task amr)
          amr_num
          j
          temp
  give-AreOffers s task amr j [] later o h = tt
  give-AreOffers s task amr j (none ∷ temp) later o h =
      (tt, give-AreOffers s task amr (suc j) temp (omega arith) o.1 h.1)
  give-AreOffers s task amr j (some b ∷ temp) later o ((small, can), h) = (
    (
      small,
      give-CanTake s task amr j b (λ e. omega (arith, later, e)) (λ e. o.0 (ap some (sym e))) can,
    ),
    give-AreOffers s task amr (suc j) temp (omega arith) o.1 h,
  )

  give_all-IsConsistent :
      (task : ℕ) (temp : List (Option ℕ)) (s : Assigning W)
      → AreOffers t tasks parse_iso base_now coeff s amr_num task temp
      → AreApart temp
      → IsConsistent s
      → IsConsistent (give_all t tasks parse_iso base_now coeff task temp s)
  unfolding give_all
  give_all-IsConsistent task [] s o a c = c
  give_all-IsConsistent task (none ∷ temp) s o a c =
      give_all-IsConsistent (suc task) temp s o.1 a.1 c
  give_all-IsConsistent task (some amr ∷ temp) s ((small, can), o) a c =
      give_all-IsConsistent (suc task) temp (give t tasks parse_iso base_now coeff s task amr)
        (give-AreOffers s task amr (suc task) temp (omega arith) a.0 o) a.1
        (give-IsConsistent s task amr small can c)

  round-IsConsistent :
      (s : Assigning W)
      → IsConsistent s
      → IsConsistent (round t tasks parse_iso base_now coeff amr_num s)
  unfolding round
  round-IsConsistent s c =
      let (o, a) = offers_lem t tasks parse_iso base_now coeff s amr_num in
      give_all-IsConsistent 0 (offers t tasks parse_iso base_now coeff amr_num s) s o a c

  some_injective : (a b : Assigning W) → some a ≡ some b → a ≡ b
  some_injective a b h = cc

  rounds-IsConsistent :
      (fuel : ℕ) (s s' : Assigning W)
      → rounds t tasks parse_iso base_now coeff amr_num fuel s ≡ some s'
      → IsConsistent s
      → IsConsistent s'
  rounds-IsConsistent zero s s' h c = cc (rounds-empty t tasks parse_iso base_now coeff amr_num s)
  rounds-IsConsistent (suc fuel) s s' h c =
      let next = round t tasks parse_iso base_now coeff amr_num s in
      elim (rounds_cases t tasks parse_iso base_now coeff amr_num fuel s) [
        | inl e ↦ subst IsConsistent (some_injective s s' (sym e ∙ h)) c
        | inr (inl e) ↦
            subst IsConsistent (some_injective next s' (sym e ∙ h)) (round-IsConsistent s c)
        | inr (inr e) ↦ rounds-IsConsistent fuel next s' (sym e ∙ h) (round-IsConsistent s c)
      ]

  start_state-IsConsistent : IsConsistent (start_state t tasks parse_iso base_now coeff amr_num)
  unfolding start_state times
  start_state-IsConsistent = record {
    wide = length-replicate amr_num [];
    counted = λ idx. times-replicate amr_num idx ∙ sym (nothing_marked idx);
    finite = λ amr. subst (λ c. AreFinite t tasks amr none c) (sym (empty_chain amr_num amr)) tt;
  }
    where
      times-replicate : (n : ℕ) (idx : ℤ) → times idx (replicate n []) ≡ 0
      times-replicate zero idx = refl
      times-replicate (suc n) idx = omega (arith, times-replicate n idx)

      unmarked : (n i : ℕ) → get_or (replicate n false) i false ≡ false
      unmarked zero i = refl
      unmarked (suc n) zero = refl
      unmarked (suc n) (suc i) = unmarked n i

      nothing_marked :
          (idx : ℤ) → marked (start_state t tasks parse_iso base_now coeff amr_num) idx ≡ 0
      nothing_marked (pos i) = ap one_if (unmarked (length tasks) i)
      nothing_marked (negsuc n) = refl

      empty_chain : (n i : ℕ) → get_or {A = List ℤ} (replicate n []) i [] ≡ []
      empty_chain zero i = refl
      empty_chain (suc n) zero = refl
      empty_chain (suc n) (suc i) = empty_chain n i

  -- The greedy loop gives a chain to each AMR. A number stands in the chains once if it is the index
  -- of a task that is marked as allocated, and nowhere otherwise; and each leg of each chain has a
  -- finite cost.
  pub assign_greedily-IsConsistent :
      (s : Assigning W)
      → assign_greedily t tasks parse_iso base_now coeff amr_num ≡ some s
      → IsConsistent s
  unfolding assign_greedily
  assign_greedily-IsConsistent s h =
      rounds-IsConsistent (suc (length tasks))
        (start_state t tasks parse_iso base_now coeff amr_num) s h start_state-IsConsistent
