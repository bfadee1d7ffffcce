-- ===== src/Allocation/Tests.antt =====
-- A result of two AMRs for three of four tasks.
use agvscheduling.Prelude.{
  ℕ, ◌≡◌, ◌↔◌, ◌⊎◌, ◌+◌, refl, true, false, ℤ, pos, minus_one, ℤ_discrete, leb_ℤ, is_negative, List,
  [], ◌∷◌, All, IsAscending, elem, length, arith,
}
use agvscheduling.Allocation.{
  AllocationResult, parse_solution, de_parse_solution, in_range, chains_of,
  remap_allocation_to_original, append_forced_tasks,
}
use agvscheduling.Allocation.Codec.{
  IsChain, de_parse_solution-parse_solution, parse_solution-de_parse_solution,
}
use agvscheduling.Allocation.Remap.{
  count_stray, count_stray_all, remap-chain_count, remap-decodes, append_forced_tasks_lem,
}

abbrev code : List ℤ
code = pos 0 ∷ pos 2 ∷ minus_one ∷ pos 1 ∷ []

abbrev chains : List (List ℤ)
chains = (pos 0 ∷ pos 2 ∷ []) ∷ (pos 1 ∷ []) ∷ []

abbrev result : AllocationResult ℕ
result = record {
  amr_tasks = chains;
  code = code;
  repair_log = "";
  total_cost = 0;
  unallocated_task_ids = pos 5 ∷ [];
}

-- The filter left task 1 out.
abbrev filtered_to_original : List ℤ
filtered_to_original = pos 0 ∷ pos 2 ∷ pos 3 ∷ []

de_parse_solution-parse_solution_example : de_parse_solution (parse_solution code) ≡ code
de_parse_solution-parse_solution_example = de_parse_solution-parse_solution code

chains-IsChain : All IsChain chains
chains-IsChain = ((λ e. ground arith, (λ e. ground arith, tt)), ((λ e. ground arith, tt), tt))

parse_solution-de_parse_solution_example : parse_solution (de_parse_solution chains) ≡ chains
parse_solution-de_parse_solution_example =
    parse_solution-de_parse_solution chains (λ e. cc) chains-IsChain

remap-decodes_example :
    let mapped = remap_allocation_to_original result filtered_to_original 4 in
    All (All (λ o. in_range o 4 ≡ true)) mapped.amr_tasks
    × (parse_solution mapped.code ≡ mapped.amr_tasks)
unfolding count_stray_all count_stray chains_of
remap-decodes_example = remap-decodes result filtered_to_original 4 (refl, (refl, (refl, tt))) refl

-- A result with an index that the map lacks: its code has one chain more than there are AMRs.
abbrev stray : AllocationResult ℕ
stray = record result { amr_tasks = (pos 0 ∷ pos 7 ∷ []) ∷ (pos 1 ∷ []) ∷ [] }

remap-chain_count_example :
    let mapped = remap_allocation_to_original stray filtered_to_original 4 in
    length (parse_solution mapped.code)
    ≡ length mapped.amr_tasks + count_stray_all 3 (chains_of stray)
remap-chain_count_example =
    remap-chain_count stray filtered_to_original 4 (refl, (refl, (refl, tt)))

stray_chains :
    (let mapped = remap_allocation_to_original stray filtered_to_original 4 in
      parse_solution mapped.code)
    ≡ (pos 0 ∷ []) ∷ [] ∷ (pos 2 ∷ []) ∷ []
unfolding remap_allocation_to_original parse_solution ℤ_discrete de_parse_solution
stray_chains = refl

append_forced_tasks_example :
    let ids = (append_forced_tasks result (pos 1 ∷ pos 5 ∷ [])).unallocated_task_ids in
    IsAscending leb_ℤ ids
    × ((j : ℤ)
        → (elem ℤ_discrete j ids ≡ true) ↔ (
            (elem ℤ_discrete j result.unallocated_task_ids ≡ true)
            ⊎ (elem ℤ_discrete j (pos 1 ∷ pos 5 ∷ []) ≡ true) × (is_negative j ≡ false)))
append_forced_tasks_example = append_forced_tasks_lem result (pos 1 ∷ pos 5 ∷ [])
