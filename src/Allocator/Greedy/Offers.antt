-- ===== src/Allocator/Greedy/Offers.antt =====
-- The offers of a round: each goes to one AMR, which can drive to the task, and no AMR has two.
use agvscheduling.Prelude.{
  ℕ, zero, suc, ◌+◌, ◌<◌, ◌≡◌, ◌≢◌, refl, Bool, true, false, not, ◌&&◌, String, List, [], ◌∷◌,
  Option, none, some, inl, inr, arith, Bool-cases, length, get_or, set, replicate, All, subst,
  if◌then◌else◌, Double,
}
use agvscheduling.Fleet.{Task}
use agvscheduling.Cost.{SparseCost}
use agvscheduling.Allocator.Greedy.{
  Assigning, Choice, Round, cost_of, compare_task, choose, offered, choice_of, offer_all, offers,
}

-- No task is offered to the AMR.
abbrev pub AreOthers : ℕ → List (Option ℕ) → Type 0
AreOthers amr = All (λ x. x ≢ some amr)

abbrev pub IsApart : Option ℕ → List (Option ℕ) → Type 0
IsApart none rest = Unit
IsApart (some amr) rest = AreOthers amr rest

-- No AMR has two offers.
abbrev pub AreApart : List (Option ℕ) → Type 0
AreApart [] = Unit
AreApart (x ∷ rest) = IsApart x rest × AreApart rest

module _ {W : Type 0} ⦃d : Double W⦄ (t : SparseCost W) (tasks : List Task)
    (parse_iso : String → Option W) (base_now coeff : W) (s : Assigning W) where
  -- The task is free, and the AMR can drive to it from the last of its tasks.
  abbrev pub CanTake : ℕ → ℕ → Type 0
  CanTake amr task =
      (get_or s.is_allocated task true ≡ false)
      × (d.is_finite (cost_of t tasks parse_iso base_now coeff s amr task) ≡ true)

  abbrev pub IsOffer : ℕ → ℕ → Option ℕ → Type 0
  IsOffer bound task none = Unit
  IsOffer bound task (some amr) = (amr < bound) × CanTake amr task

  -- Each offer is to an AMR below the bound that can take the task.
  abbrev pub AreOffers : ℕ → ℕ → List (Option ℕ) → Type 0
  AreOffers bound task [] = Unit
  AreOffers bound task (x ∷ rest) = IsOffer bound task x × AreOffers bound (suc task) rest

  abbrev IsFine : ℕ → Option ℕ → Type 0
  IsFine amr none = Unit
  IsFine amr (some task) = CanTake amr task

  picked :
      (amr task : ℕ) (taken finite better : Bool) (cost : W) (best : Choice W)
      → (taken ≡ false → finite ≡ true → CanTake amr task)
      → IsFine amr best.best_task
      → IsFine amr
          (if not taken && finite && better
            then record { best_task = some task; best_cost = cost }
            else best).best_task
  picked amr task true finite better cost best can h = h
  picked amr task false false better cost best can h = h
  picked amr task false true true cost best can h = can refl refl
  picked amr task false true false cost best can h = h

  compare_task-IsFine :
      (r : Round W) (amr task : ℕ) (best : Choice W)
      → IsFine amr best.best_task
      → IsFine amr (compare_task t tasks parse_iso base_now coeff s r amr task best).best_task
  unfolding compare_task
  compare_task-IsFine r amr task best h =
      picked amr task (get_or s.is_allocated task true)
        (d.is_finite (cost_of t tasks parse_iso base_now coeff s amr task)) _ _ best (λ a b. (a, b))
        h

  choose-IsFine :
      (r : Round W) (amr task count : ℕ) (best : Choice W)
      → IsFine amr best.best_task
      → IsFine amr (choose t tasks parse_iso base_now coeff s r amr task count best).best_task
  unfolding choose
  choose-IsFine r amr task zero best h = h
  choose-IsFine r amr task (suc count) best h =
      choose-IsFine r amr (suc task) count _ (compare_task-IsFine r amr task best h)

  IsOffer-mono : (bound task : ℕ) (x : Option ℕ) → IsOffer bound task x → IsOffer (suc bound) task x
  IsOffer-mono bound task none h = tt
  IsOffer-mono bound task (some amr) (small, can) = (omega arith, can)

  AreOffers-mono :
      (bound task : ℕ) (temp : List (Option ℕ))
      → AreOffers bound task temp
      → AreOffers (suc bound) task temp
  AreOffers-mono bound task [] h = tt
  AreOffers-mono bound task (x ∷ rest) (here, later) =
      (IsOffer-mono bound task x here, AreOffers-mono bound (suc task) rest later)

  set-AreOffers :
      (amr task i : ℕ) (temp : List (Option ℕ))
      → AreOffers amr task temp
      → CanTake amr (task + i)
      → AreOffers (suc amr) task (set temp i (some amr))
  set-AreOffers amr task i [] h can = tt
  set-AreOffers amr task zero (x ∷ rest) h can = (
    (omega arith, subst (CanTake amr) {x = task + 0} (omega arith) can),
    AreOffers-mono amr (suc task) rest h.1,
  )
  set-AreOffers amr task (suc i) (x ∷ rest) h can = (
    IsOffer-mono amr task x h.0,
    set-AreOffers amr (suc task) i rest h.1
        (subst (CanTake amr) {x = task + suc i} (omega arith) can),
  )

  offers-AreOthers :
      (amr task : ℕ) (temp : List (Option ℕ)) → AreOffers amr task temp → AreOthers amr temp
  offers-AreOthers amr task [] h = tt
  offers-AreOthers amr task (none ∷ rest) h = (λ e. cc, offers-AreOthers amr (suc task) rest h.1)
  offers-AreOthers amr task (some b ∷ rest) ((small, can), later) =
      (λ e. ground (arith, small), offers-AreOthers amr (suc task) rest later)

  set-AreOthers :
      (a amr i : ℕ) (temp : List (Option ℕ))
      → a ≢ amr
      → AreOthers a temp
      → AreOthers a (set temp i (some amr))
  set-AreOthers a amr i [] ne h = tt
  set-AreOthers a amr zero (x ∷ rest) ne h = (λ e. ne (ground arith), h.1)
  set-AreOthers a amr (suc i) (x ∷ rest) ne h = (h.0, set-AreOthers a amr i rest ne h.1)

  set-AreApart :
      (amr task i : ℕ) (temp : List (Option ℕ))
      → AreOffers amr task temp
      → AreApart temp
      → AreApart (set temp i (some amr))
  set-AreApart amr task i [] h k = tt
  set-AreApart amr task zero (x ∷ rest) h k = (offers-AreOthers amr (suc task) rest h.1, k.1)
  set-AreApart amr task (suc i) (none ∷ rest) h k = (tt, set-AreApart amr (suc task) i rest h.1 k.1)
  set-AreApart amr task (suc i) (some b ∷ rest) ((small, can), later) k = (
    set-AreOthers b amr i rest (λ e. omega (arith, e)) k.0,
    set-AreApart amr (suc task) i rest later k.1,
  )

  record AreSound (bound : ℕ) (temp : List (Option ℕ)) : Type 0 where
    sound : AreOffers bound 0 temp
    apart : AreApart temp

  offered-AreSound :
      (r : Round W) (amr : ℕ) (best : Choice W) (task : Option ℕ)
      → IsFine amr task
      → AreSound amr r.temp_allocate
      → AreSound (suc amr) (offered t tasks parse_iso base_now coeff r amr best task).temp_allocate
  offered-AreSound r amr best none fine h = record {
    sound = AreOffers-mono amr 0 r.temp_allocate h.sound;
    apart = h.apart;
  }
  offered-AreSound r amr best (some task) fine h =
      elim (Bool-cases (d.lt best.best_cost (get_or r.temp_cost task d.greatest))) [
        | inl e ↦ rw e (record {
          sound =
              set-AreOffers amr 0 task r.temp_allocate h.sound
                (subst (CanTake amr) {x = task} (omega arith) fine);
          apart = set-AreApart amr 0 task r.temp_allocate h.sound h.apart;
        })
        | inr e ↦
            rw e (record { sound = AreOffers-mono amr 0 r.temp_allocate h.sound; apart = h.apart })
      ]

  offer_all-AreSound :
      (amr count bound : ℕ) (r : Round W)
      → amr + count ≡ bound
      → AreSound amr r.temp_allocate
      → AreSound bound (offer_all t tasks parse_iso base_now coeff s amr count r).temp_allocate
  unfolding offer_all
  offer_all-AreSound amr zero bound r e h = subst (λ b. AreSound b r.temp_allocate) (omega arith) h
  offer_all-AreSound amr (suc count) bound r e h =
      let best = choice_of t tasks parse_iso base_now coeff s r amr in
      offer_all-AreSound (suc amr) count bound _ (omega arith)
        (offered-AreSound r amr best best.best_task (choose-IsFine r amr 0 (length tasks) _ tt) h)

  none-AreSound : (n task : ℕ) → AreOffers 0 task (replicate n none) × AreApart (replicate n none)
  none-AreSound zero task = (tt, tt)
  none-AreSound (suc n) task = let (a, b) = none-AreSound n (suc task) in ((tt, a), (tt, b))

  -- The offers of a round are to AMRs that can take the tasks, and no AMR has two.
  pub offers_lem :
      (amr_num : ℕ)
      → let temp = offers t tasks parse_iso base_now coeff amr_num s in
        AreOffers amr_num 0 temp × AreApart temp
  unfolding offers
  offers_lem amr_num =
      let (a, b) = none-AreSound (length tasks) 0 in
      let r =
        offer_all-AreSound 0 amr_num amr_num _ (omega arith) (record { sound = a; apart = b }) in
      (r.sound, r.apart)
