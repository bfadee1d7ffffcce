-- ===== src/Allocation.antt =====
-- src/algorithm/base/TaskAllocationUtils.cpp (the codes of a solution) and the functions of
-- src/common/TaskReachabilityFilter.cpp that carry a result back to the full task list. A result
-- gives each AMR a chain of task indices; its code is the chains, put together with a separator.
pub mod Codec
pub mod Remap
mod Tests
use agvscheduling.Prelude.{
  ℕ, zero, suc, Bool, true, false, not, ◌&&◌, ℤ, pos, negsuc, minus_one, ℤ_discrete, leb_ℤ,
  is_negative, String, List, [], ◌∷◌, ◌++◌, map, ite, if◌then◌else◌, ltb, length, get_or,
  sort_unique, Option, none, some,
}

abbrev pub code_separator : ℤ
code_separator = minus_one

pub record AllocationResult (W : Type 0) : Type 0 where
  pub amr_tasks : List (List ℤ)
  pub code : List ℤ
  pub repair_log : String
  pub total_cost : W
  pub unallocated_task_ids : List ℤ

-- The loop of `parseSolution`, with the tasks of the current AMR.
pub parse_from : List ℤ → List ℤ → List (List ℤ)
parse_from current [] = current ∷ []
parse_from current (val ∷ rest) = elim (ℤ_discrete val code_separator) [
  | yes _ ↦ current ∷ parse_from [] rest
  | no _ ↦ parse_from (current ++ val ∷ []) rest
]

pub parse_solution : List ℤ → List (List ℤ)
unfolding parse_from
parse_solution code = parse_from [] code

unfoldable pub de_parse_solution : List (List ℤ) → List ℤ
de_parse_solution [] = []
de_parse_solution (chain ∷ []) = chain
de_parse_solution (chain ∷ next ∷ rest) =
    chain ++ (code_separator ∷ de_parse_solution (next ∷ rest))

-- `idx >= 0 && idx < n`
abbrev pub in_range : ℤ → ℕ → Bool
in_range (pos i) n = ltb i n
in_range (negsuc i) n = false

-- `v[idx]` behind the test `in_range`.
abbrev pub at {ℓ} : {A : Type ℓ} → List A → ℤ → A → A
at xs (pos i) d = get_or xs i d
at xs (negsuc i) d = d

pub remap_index : List ℤ → ℤ → ℤ
remap_index filtered_to_original idx =
    if in_range idx (length filtered_to_original)
    then at filtered_to_original idx minus_one
    else minus_one

pub remap_unallocated : List ℤ → ℕ → List ℤ → List ℤ
remap_unallocated filtered_to_original count [] = []
remap_unallocated filtered_to_original count (idx ∷ ids) =
    let rest = remap_unallocated filtered_to_original count ids in
    let mapped = at filtered_to_original idx minus_one in
    if in_range idx (length filtered_to_original) && in_range mapped count
    then mapped ∷ rest
    else rest

-- The chains of a result, decoded where only the code is given.
unfoldable pub chains_of : {W : Type 0} → AllocationResult W → List (List ℤ)
unfolding parse_solution
chains_of r = elim r.amr_tasks [ [] ↦ parse_solution r.code | c ∷ cs ↦ c ∷ cs ]

pub remap_allocation_to_original :
    {W : Type 0} → AllocationResult W → List ℤ → ℕ → AllocationResult W
unfolding chains_of remap_index remap_unallocated
remap_allocation_to_original filtered filtered_to_original count =
    let mapped = map (map (remap_index filtered_to_original)) (chains_of filtered) in
    record filtered {
      amr_tasks = mapped;
      code = de_parse_solution mapped;
      unallocated_task_ids =
          remap_unallocated filtered_to_original count filtered.unallocated_task_ids;
    }

non_negative : List ℤ → List ℤ
non_negative [] = []
non_negative (idx ∷ ids) =
    let rest = non_negative ids in if is_negative idx then rest else idx ∷ rest

pub append_forced_tasks : {W : Type 0} → AllocationResult W → List ℤ → AllocationResult W
unfolding non_negative
append_forced_tasks result forced = record result {
  unallocated_task_ids =
      sort_unique ℤ_discrete leb_ℤ (result.unallocated_task_ids ++ non_negative forced);
}
