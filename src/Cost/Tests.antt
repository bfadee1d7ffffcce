-- ===== src/Cost/Tests.antt =====
-- Costs over the natural numbers with infinity, in place of `double`.
use agvscheduling.Prelude.{
  ℕ, ◌≡◌, refl, pos, minus_one, ℤ_discrete, [], ◌∷◌, Option, none, some, arith, ℕ_discrete, find,
  put, max,
}
use agvscheduling.Extended.{extended}
use agvscheduling.Allocation.{de_parse_solution}
use agvscheduling.Cost.{
  SparseCost, sparse_reset, sparse_put, get_cost, calculate_total_cost, leg_cost,
}
use agvscheduling.Cost.Keys.{make_key_sparse-injective, get_cost-sparse_put}
use agvscheduling.Cost.Total.{chains_cost, calculate_total_cost-chains}

-- Three tasks and two AMRs.
abbrev table : SparseCost (Option ℕ)
table =
    sparse_put
      (sparse_put
        (sparse_put (sparse_reset none (pos 3) (pos 2)) (pos 3) (pos 0) (pos 0) (some 4000)) (pos 0)
        (pos 2) (pos 0) (some 1000))
      (pos 3) (pos 1) (pos 1) (some 3000)

abbrev task_count : ℕ
task_count = 3

abbrev one : ℕ
one = 1

abbrev two : ℕ
two = 2

make_key_sparse-injective_example : (task_count ≡ task_count) × (one ≡ one) × (one ≡ one)
make_key_sparse-injective_example =
    make_key_sparse-injective 3 1 1 3 1 1 (omega arith, omega arith, omega arith)
      (omega arith, omega arith, omega arith) refl

get_cost-sparse_put_example :
    (get_cost (sparse_put table (pos 3) (pos 2) (pos 1) (some 7)) (pos 3) (pos 2) (pos 1) ≡ some 7)
    × (((task_count ≡ task_count) × (two ≡ one) × (one ≡ one) → ⊥)
        → get_cost (sparse_put table (pos 3) (pos 2) (pos 1) (some 7)) (pos 3) (pos 1) (pos 1)
          ≡ get_cost table (pos 3) (pos 1) (pos 1))
get_cost-sparse_put_example =
    get_cost-sparse_put table 3 2 1 3 1 1 (some 7) (omega arith, omega arith, omega arith)
      (omega arith, omega arith, omega arith)

calculate_total_cost-chains_example :
    calculate_total_cost table 2 3 (de_parse_solution ((pos 0 ∷ pos 2 ∷ []) ∷ (pos 1 ∷ []) ∷ []))
    ≡ elim (chains_cost table 2 3 0 ((pos 0 ∷ pos 2 ∷ []) ∷ (pos 1 ∷ []) ∷ []) (some 0) (some 0)) [
      | none ↦ none
      | some (total, worst) ↦
          extended.div
            (extended.add (extended.div total (extended.of_int (pos (max 1 2)))) worst)
            (extended.of_int (pos 1000))
    ]
unfolding extended
calculate_total_cost-chains_example =
    calculate_total_cost-chains table 2 3 (pos 0 ∷ pos 2 ∷ []) ((pos 1 ∷ []) ∷ [])
      ((λ e. ground arith, (λ e. ground arith, tt)), ((λ e. ground arith, tt), tt))

-- (4000 + 1000 + 3000) / 2 + 5000, over 1000
total_of_two : calculate_total_cost table 2 3 (pos 0 ∷ pos 2 ∷ minus_one ∷ pos 1 ∷ []) ≡ some 9
unfolding calculate_total_cost ℤ_discrete ℕ_discrete sparse_reset sparse_put extended leg_cost find
    put
total_of_two = refl
