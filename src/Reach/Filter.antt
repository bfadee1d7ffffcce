-- ===== src/Reach/Filter.antt =====
-- What the filter leaves: every task is kept or forced, and the indices name the kept tasks.
use agvscheduling.Prelude.{
  ℕ, suc, ◌+◌, ◌<◌, ◌≡◌, ◌≢◌, ◌∙◌, refl, sym, ap, subst, Bool, true, false, not, ℤ, pos,
  pos-injective, ℤ_discrete, ℕ_discrete, elem, map, get_or, replicate, minus_one, List, [], ◌∷◌,
  ◌++◌, Option, none, some, inl, inr, arith, Option-cases, length, length-append, All, Double,
}
use agvscheduling.Fleet.{Amr, Task, default_task}
use agvscheduling.Allocation.{in_range, at}
use agvscheduling.MapInfo.{MapInfo}
use agvscheduling.Reach.{
  FilterResult, Failure, Reason, no_amr, decided, force, keep, filter_task, filter_loop,
  filter_tasks_by_reachability,
}

-- The first `n` tasks are each kept or forced, not both and once; the indices are below `n`; and the
-- kept tasks are those that their indices name.
pub record IsSplit (all_tasks : List Task) (n : ℕ) (r : FilterResult) : Type 0 where
  pub all_met : length r.filtered_to_original + length r.forced_task_indices ≡ n
  pub once :
      (i : ℕ)
      → i < n
      → elem ℤ_discrete (pos i) r.forced_task_indices
        ≡ not (elem ℤ_discrete (pos i) r.filtered_to_original)
  pub named : r.filtered_tasks ≡ map (λ o. at all_tasks o default_task) r.filtered_to_original
  pub kept_below : All (λ o. in_range o n ≡ true) r.filtered_to_original
  pub forced_below : All (λ o. in_range o n ≡ true) r.forced_task_indices

elem-last_new : (n : ℤ) (os : List ℤ) → elem ℤ_discrete n (os ++ n ∷ []) ≡ true
unfolding elem
elem-last_new n [] = ground arith
elem-last_new n (o ∷ os) = ground (arith, elem-last_new n os)

elem-last_other :
    (n i : ℤ) (os : List ℤ) → n ≢ i → elem ℤ_discrete i (os ++ n ∷ []) ≡ elem ℤ_discrete i os
unfolding elem
elem-last_other n i [] ne = ground arith
elem-last_other n i (o ∷ os) ne = ground (arith, elem-last_other n i os ne)

not_below :
    (n : ℕ) (os : List ℤ) → All (λ o. in_range o n ≡ true) os → elem ℤ_discrete (pos n) os ≡ false
unfolding elem
not_below n [] h = refl
not_below n (o ∷ os) (h, hs) = elim (ℤ_discrete o (pos n)) [
  | yes e ↦ absurd (out (subst (λ k. in_range k n ≡ true) e h))
  | no ne ↦ ground (arith, not_below n os hs)
]
  where
    out : ¬ (in_range (pos n) n ≡ true)
    out h = ground arith

map-last :
    {A B : Type 0} (f : A → B) (xs : List A) (x : A) → map f (xs ++ x ∷ []) ≡ map f xs ++ f x ∷ []
map-last f [] x = refl
map-last f (y ∷ xs) x = ap (λ l. f y ∷ l) (map-last f xs x)

-- One list gets the index `n`, the other stays.
once_more :
    (n i : ℕ) (grown other : List ℤ)
    → All (λ o. in_range o n ≡ true) other
    → (i < n → elem ℤ_discrete (pos i) grown ≡ not (elem ℤ_discrete (pos i) other))
    → i < suc n
    → elem ℤ_discrete (pos i) (grown ++ pos n ∷ []) ≡ not (elem ℤ_discrete (pos i) other)
once_more n i grown other below before small = elim (ℕ_discrete n i) [
  | yes e ↦
      subst
        (λ k. elem ℤ_discrete (pos k) (grown ++ pos n ∷ []) ≡ not (elem ℤ_discrete (pos k) other)) e
        (elem-last_new (pos n) grown ∙ ap not (sym (not_below n other below)))
  | no ne ↦ elem-last_other (pos n) (pos i) grown (λ e. ne (pos-injective e)) ∙ before (omega arith)
]

not-swap : (a b : Bool) → a ≡ not b → b ≡ not a
not-swap a b h = ground arith

widen :
    (n : ℕ) (os : List ℤ)
    → All (λ o. in_range o n ≡ true) os
    → All (λ o. in_range o (suc n) ≡ true) os
widen n [] h = tt
widen n (pos i ∷ os) (h, hs) = (ground arith, widen n os hs)
widen n (ℤ.negsuc i ∷ os) (h, hs) = absurd (ground arith)

last_below :
    (n : ℕ) (os : List ℤ)
    → All (λ o. in_range o n ≡ true) os
    → All (λ o. in_range o (suc n) ≡ true) (os ++ pos n ∷ [])
last_below n [] h = (ground arith, tt)
last_below n (pos i ∷ os) (h, hs) = (ground arith, last_below n os hs)
last_below n (ℤ.negsuc i ∷ os) (h, hs) = absurd (ground arith)

module _ (all_tasks : List Task) where
  force-IsSplit :
      (n : ℕ) (r : FilterResult) (why : Reason)
      → IsSplit all_tasks n r
      → IsSplit all_tasks (suc n) (force r n why)
  unfolding force
  force-IsSplit n r why s = record {
    all_met = omega (arith, s.all_met, length-append r.forced_task_indices (pos n ∷ []));
    once = λ i. once_more n i r.forced_task_indices r.filtered_to_original s.kept_below (s.once i);
    named = s.named;
    kept_below = widen n r.filtered_to_original s.kept_below;
    forced_below = last_below n r.forced_task_indices s.forced_below;
  }

  keep-IsSplit :
      (n : ℕ) (r : FilterResult) (task : Task)
      → at all_tasks (pos n) default_task ≡ task
      → IsSplit all_tasks n r
      → IsSplit all_tasks (suc n) (keep r n task)
  unfolding keep
  keep-IsSplit n r task here s = record {
    all_met = omega (arith, s.all_met, length-append r.filtered_to_original (pos n ∷ []));
    once = λ i small. not-swap _ _ (
        once_more n i r.filtered_to_original r.forced_task_indices s.forced_below
          (λ k. not-swap _ _ (s.once i k)) small);
    named =
        ap (λ l. l ++ task ∷ []) s.named
        ∙ ap (λ x. map (λ o. at all_tasks o default_task) r.filtered_to_original ++ x ∷ [])
            (sym here)
        ∙ sym (map-last (λ o. at all_tasks o default_task) r.filtered_to_original (pos n));
    kept_below = last_below n r.filtered_to_original s.kept_below;
    forced_below = widen n r.forced_task_indices s.forced_below;
  }

some_injective : (a b : FilterResult) → some a ≡ some b → a ≡ b
some_injective a b e = cc

decided-IsSplit :
    (all_tasks : List Task) (n : ℕ) (r next : FilterResult) (task : Task) (f : Option Failure)
    (a : Option Bool)
    → at all_tasks (pos n) default_task ≡ task
    → IsSplit all_tasks n r
    → decided r n task f a ≡ some next
    → IsSplit all_tasks (suc n) next
decided-IsSplit all_tasks n r next task (some failure) a here s e =
    subst (IsSplit all_tasks (suc n)) (some_injective _ _ e)
      (force-IsSplit all_tasks n r failure.reason s)
decided-IsSplit all_tasks n r next task none none here s e = absurd (ground arith)
decided-IsSplit all_tasks n r next task none (some false) here s e =
    subst (IsSplit all_tasks (suc n)) (some_injective _ _ e) (force-IsSplit all_tasks n r no_amr s)
decided-IsSplit all_tasks n r next task none (some true) here s e =
    subst (IsSplit all_tasks (suc n)) (some_injective _ _ e)
      (keep-IsSplit all_tasks n r task here s)

module _ {W : Type 0} ⦃d : Double W⦄ (m : MapInfo W) (use_spu : Bool) (query : ℤ → ℤ → ℤ → W)
    (amrs : List (Amr W)) where
  -- `tasks` are the tasks of the whole list from the place `n` on.
  filter_loop-IsSplit :
      (all_tasks : List Task) (n : ℕ) (tasks : List Task) (r last : FilterResult)
      → ((i : ℕ) → get_or all_tasks (n + i) default_task ≡ get_or tasks i default_task)
      → IsSplit all_tasks n r
      → filter_loop m use_spu query amrs n tasks r ≡ some last
      → IsSplit all_tasks (n + length tasks) last
  unfolding filter_loop filter_task
  filter_loop-IsSplit all_tasks n [] r last rest s h =
      let same : n ≡ n + 0 = omega arith in
      subst (λ k. IsSplit all_tasks k last) same
        (subst (IsSplit all_tasks n) (some_injective _ _ h) s)
  filter_loop-IsSplit all_tasks n (task ∷ tasks) r last rest s h =
      let same : n + 0 ≡ n = omega arith in
      let here = subst (λ k. get_or all_tasks k default_task ≡ task) same (rest 0) in
      elim (Option-cases (filter_task m use_spu query amrs n task r)) [
        | inl thrown ↦ absurd (ground (arith, h, thrown))
        | inr (next, went) ↦
            let sum : suc n + length tasks ≡ n + suc (length tasks) = omega arith in
            subst (λ k. IsSplit all_tasks k last) sum
              (filter_loop-IsSplit all_tasks (suc n) tasks next last
                (λ i.
                  subst (λ k. get_or all_tasks k default_task ≡ get_or tasks i default_task)
                    (shift n i) (rest (suc i)))
                (decided-IsSplit all_tasks n r next task _ _ here s went) (ground (arith, h, went)))
      ]
    where
      shift : (n i : ℕ) → n + suc i ≡ suc n + i
      shift n i = omega arith

  -- Where `FilterTasksByReachability` does not throw: each index of the list of tasks is in exactly
  -- one of the lists of kept and of forced indices, once, and these hold nothing else; and the kept
  -- tasks are the tasks at the kept indices, in their order.
  pub filter_tasks_by_reachability-IsSplit :
      (tasks : List Task) (r : FilterResult)
      → filter_tasks_by_reachability m use_spu query tasks amrs ≡ some r
      → IsSplit tasks (length tasks) r
  unfolding filter_tasks_by_reachability elem
  filter_tasks_by_reachability-IsSplit tasks r h =
      let sum : 0 + length tasks ≡ length tasks = omega arith in
      let start : FilterResult = record {
        filtered_tasks = [];
        filtered_to_original = [];
        original_to_filtered = replicate (length tasks) minus_one;
        forced_task_indices = [];
        forced_reasons = replicate (length tasks) none;
      } in
      subst (λ k. IsSplit tasks k r) sum
        (filter_loop-IsSplit tasks 0 tasks start r
          (λ i. ap (λ k. get_or tasks k default_task) (plus i))
          (record {
            all_met = refl;
            once = λ i small. absurd (omega arith);
            named = refl;
            kept_below = tt;
            forced_below = tt;
          })
          h)
    where
      plus : (i : ℕ) → 0 + i ≡ i
      plus i = omega arith
