-- ===== src/Allocation/Remap.antt =====
-- `RemapAllocationToOriginal` and `AppendForcedTasks`.
use agvscheduling.Prelude.{
  ℕ, zero, suc, ◌+◌, ◌<◌, ◌≡◌, ◌≢◌, ◌⊎◌, ◌↔◌, ◌∙◌, refl, ap, sym, true, false, ℤ, pos, negsuc,
  ℤ_discrete, leb_ℤ, leb_ℤ-IsOrder, minus_one, is_negative, List, [], ◌∷◌, ◌++◌, map, inl, inr,
  arith, All, length, get_or, elem, elem-sort_unique, sort_unique-IsAscending, IsAscending,
  elem_append_cases, elem-append_left, elem-append_right, length-map, if◌then◌else◌,
}
use agvscheduling.Allocation.{
  AllocationResult, code_separator, in_range, chains_of, de_parse_solution, parse_solution,
  remap_index, remap_allocation_to_original, append_forced_tasks, non_negative,
}
use agvscheduling.Allocation.Codec.{
  IsChain, parse_solution-de_parse_solution, parse_solution_shape, count_separators,
  parse_from-ne-nil,
}

-- The filter's index map names original tasks only.
abbrev pub IsIndexMap : List ℤ → ℕ → Type 0
IsIndexMap f2o count = All (λ o. in_range o count ≡ true) f2o

-- How many of the indices lie outside the map.
unfoldable pub count_stray : ℕ → List ℤ → ℕ
count_stray n [] = 0
count_stray n (i ∷ is) = (if in_range i n then 0 else 1) + count_stray n is

unfoldable pub count_stray_all : ℕ → List (List ℤ) → ℕ
unfolding count_stray
count_stray_all n [] = 0
count_stray_all n (c ∷ cs) = count_stray n c + count_stray_all n cs

get_or-in_range :
    (f2o : List ℤ) (count i : ℕ)
    → IsIndexMap f2o count
    → i < length f2o
    → in_range (get_or f2o i minus_one) count ≡ true
get_or-in_range [] count i h lt = elim lt [ ]
get_or-in_range (o ∷ os) count zero h lt = h.0
get_or-in_range (o ∷ os) count (suc i) h lt = get_or-in_range os count i h.1 (omega arith)

-- An index of the map becomes an original task, and a stray one the number -1.
remap_index_cases :
    (f2o : List ℤ) (count : ℕ) (idx : ℤ)
    → IsIndexMap f2o count
    → ((in_range idx (length f2o) ≡ true) × (in_range (remap_index f2o idx) count ≡ true))
      ⊎ ((in_range idx (length f2o) ≡ false) × (remap_index f2o idx ≡ minus_one))
unfolding remap_index
remap_index_cases f2o count (pos i) h = ground (arith, get_or-in_range f2o count i h)
remap_index_cases f2o count (negsuc i) h = inr (refl, refl)

in_range-ne-separator : (o : ℤ) (n : ℕ) → in_range o n ≡ true → o ≢ code_separator
in_range-ne-separator (pos i) n h e = cc
in_range-ne-separator (negsuc i) n h e = cc

separators_of_remap :
    (f2o : List ℤ) (count : ℕ) (chain : List ℤ)
    → IsIndexMap f2o count
    → count_separators (map (remap_index f2o) chain) ≡ count_stray (length f2o) chain
unfolding count_separators count_stray
separators_of_remap f2o count [] h = refl
separators_of_remap f2o count (i ∷ is) h = elim (remap_index_cases f2o count i h) [
  | inl (inside, mapped) ↦
      ground (arith, separators_of_remap f2o count is h, in_range-ne-separator _ count mapped)
  | inr (outside, e) ↦ ground (arith, separators_of_remap f2o count is h)
]

count_separators-append :
    (xs ys : List ℤ) → count_separators (xs ++ ys) ≡ count_separators xs + count_separators ys
unfolding count_separators
count_separators-append [] ys = omega arith
count_separators-append (x ∷ xs) ys = ground (arith, count_separators-append xs ys)

count_separators-separator :
    (b : List ℤ) → count_separators (code_separator ∷ b) ≡ count_separators b + 1
unfolding count_separators
count_separators-separator b = ground arith

-- The code has a separator between two chains, and one for each stray index.
separators_of_code :
    (f2o : List ℤ) (count : ℕ) (c : List ℤ) (cs : List (List ℤ))
    → IsIndexMap f2o count
    → count_separators (de_parse_solution (map (map (remap_index f2o)) (c ∷ cs)))
      ≡ length cs + count_stray_all (length f2o) (c ∷ cs)
unfolding de_parse_solution count_stray_all
separators_of_code f2o count c [] h = omega (arith, separators_of_remap f2o count c h)
separators_of_code f2o count c (d ∷ ds) h =
    let front = map (remap_index f2o) c in
    let back = de_parse_solution (map (map (remap_index f2o)) (d ∷ ds)) in
    omega (
      arith,
      count_separators-append front (code_separator ∷ back),
      count_separators-separator back,
      separators_of_remap f2o count c h,
      separators_of_code f2o count d ds h,
    )

chains_of_cons :
    {W : Type 0} (r : AllocationResult W)
    → (c : List ℤ) × (cs : List (List ℤ)) × (chains_of r ≡ c ∷ cs)
unfolding chains_of parse_solution
chains_of_cons r = go r.amr_tasks (parse_solution r.code) (parse_from-ne-nil [] r.code)
  where
    go :
        (ts ps : List (List ℤ))
        → ps ≢ []
        → (c : List ℤ) × (cs : List (List ℤ)) × ((elim ts as (λ _. List (List ℤ)) [
          | [] ↦ ps
          | d ∷ ds ↦ d ∷ ds
        ])
            ≡ c ∷ cs)
    go [] [] h = absurd (h refl)
    go [] (p ∷ ps) h = (p, ps, refl)
    go (d ∷ ds) ps h = (d, ds, refl)

-- Each index of a result that the filter's map does not cover becomes the separator's number in
-- the code, so the code decodes to one chain more than the result has for each such index.
pub remap-chain_count :
    {W : Type 0} (r : AllocationResult W) (f2o : List ℤ) (count : ℕ)
    → IsIndexMap f2o count
    → let mapped = remap_allocation_to_original r f2o count in
      length (parse_solution mapped.code)
      ≡ length mapped.amr_tasks + count_stray_all (length f2o) (chains_of r)
unfolding remap_allocation_to_original
remap-chain_count r f2o count h =
    let (c, cs, e) = chains_of_cons r in
    rw e (
      omega (
        arith,
        (parse_solution_shape (de_parse_solution (map (map (remap_index f2o)) (c ∷ cs)))).0,
        separators_of_code f2o count c cs h,
        length-map cs (map (remap_index f2o)),
      ))

remap_chain_in_range :
    (f2o : List ℤ) (count : ℕ) (chain : List ℤ)
    → IsIndexMap f2o count
    → count_stray (length f2o) chain ≡ 0
    → All (λ o. in_range o count ≡ true) (map (remap_index f2o) chain)
unfolding count_stray
remap_chain_in_range f2o count [] h z = tt
remap_chain_in_range f2o count (i ∷ is) h z = elim (remap_index_cases f2o count i h) [
  | inl (inside, mapped) ↦ (mapped, remap_chain_in_range f2o count is h (ground arith))
  | inr (outside, _) ↦ absurd (ground arith)
]

remap_chains_in_range :
    (f2o : List ℤ) (count : ℕ) (ts : List (List ℤ))
    → IsIndexMap f2o count
    → count_stray_all (length f2o) ts ≡ 0
    → All (All (λ o. in_range o count ≡ true)) (map (map (remap_index f2o)) ts)
unfolding count_stray_all
remap_chains_in_range f2o count [] h z = tt
remap_chains_in_range f2o count (c ∷ cs) h z = (
  remap_chain_in_range f2o count c h (omega arith),
  remap_chains_in_range f2o count cs h (omega arith),
)

covered-IsChain : (count : ℕ) (os : List ℤ) → All (λ o. in_range o count ≡ true) os → IsChain os
covered-IsChain count [] h = tt
covered-IsChain count (o ∷ os) h = (in_range-ne-separator o count h.0, covered-IsChain count os h.1)

covered_chains :
    (count : ℕ) (ts : List (List ℤ)) → All (All (λ o. in_range o count ≡ true)) ts → All IsChain ts
covered_chains count [] h = tt
covered_chains count (t ∷ ts) h = (covered-IsChain count t h.0, covered_chains count ts h.1)

-- If the filter's map covers every index of the result, then all mapped indices are original tasks,
-- and the code decodes to the mapped chains.
pub remap-decodes :
    {W : Type 0} (r : AllocationResult W) (f2o : List ℤ) (count : ℕ)
    → IsIndexMap f2o count
    → count_stray_all (length f2o) (chains_of r) ≡ 0
    → let mapped = remap_allocation_to_original r f2o count in
      All (All (λ o. in_range o count ≡ true)) mapped.amr_tasks
      × (parse_solution mapped.code ≡ mapped.amr_tasks)
unfolding remap_allocation_to_original
remap-decodes r f2o count h z =
    let inside = remap_chains_in_range f2o count (chains_of r) h z in
    let (c, cs, e) = chains_of_cons r in
    (
      inside,
      parse_solution-de_parse_solution _ (λ empty. cc (ap (map (map (remap_index f2o))) e))
          (covered_chains count _ inside),
    )

elem-non_negative :
    (j : ℤ) (ids : List ℤ)
    → (elem ℤ_discrete j (non_negative ids) ≡ true)
      ↔ ((elem ℤ_discrete j ids ≡ true) × (is_negative j ≡ false))
unfolding elem non_negative
elem-non_negative j [] = (λ h. cc, λ h. cc)
elem-non_negative j (i ∷ is) = ground (arith, elem-non_negative j is)

-- The unallocated tasks of the result become the old ones and the forced ones that are no negative
-- numbers, in strictly ascending order.
pub append_forced_tasks_lem :
    {W : Type 0} (r : AllocationResult W) (forced : List ℤ)
    → let ids = (append_forced_tasks r forced).unallocated_task_ids in
      IsAscending leb_ℤ ids
      × ((j : ℤ)
          → (elem ℤ_discrete j ids ≡ true) ↔ (
              (elem ℤ_discrete j r.unallocated_task_ids ≡ true)
              ⊎ (elem ℤ_discrete j forced ≡ true) × (is_negative j ≡ false)))
unfolding append_forced_tasks
append_forced_tasks_lem r forced =
    let old = r.unallocated_task_ids in
    let both = old ++ non_negative forced in
    (
      sort_unique-IsAscending leb_ℤ ℤ_discrete leb_ℤ-IsOrder both,
      λ j.
          let law = elem-sort_unique ℤ_discrete leb_ℤ j both in
          let kept = elem-non_negative j forced in
          (
            λ m. elim (elem_append_cases ℤ_discrete j old _ (sym law ∙ m)) [
              | inl o ↦ inl o
              | inr f ↦ inr (kept.0 f)
            ],
            λ s. law ∙ elim s [
              | inl o ↦ elem-append_left ℤ_discrete j old _ o
              | inr f ↦ elem-append_right ℤ_discrete j old _ (kept.1 f)
            ],
          ),
    )
