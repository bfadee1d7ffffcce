-- ===== src/Cost/Total.antt =====
-- `calculateTotalCost` and `computeAmrDurations` walk the code; here they are compared with what
-- they mean, the costs of each AMR's chain.
use agvscheduling.Prelude.{
  ℕ, ◌+◌, ◌≡◌, ◌∙◌, refl, ap, sym, true, false, ℤ, pos, max, minus_one, List, [], ◌∷◌, ◌++◌, Option,
  none, some, inl, inr, arith, All, Double, Bool-cases, if◌then◌else◌, ltb, append-nil,
}
use agvscheduling.Allocation.{code_separator, de_parse_solution}
use agvscheduling.Allocation.Codec.{IsChain}
use agvscheduling.Cost.{
  SparseCost, Running, leg_cost, fmax, total_loop, total_start, objective, calculate_total_cost,
}

module _ {W : Type 0} ⦃d : Double W⦄ (t : SparseCost W) (amr_num task_num : ℕ) where
  -- The legs of a chain, added to the running total and to the AMR's own cost; `none` if one of them
  -- is not finite.
  pub chain_cost : ℕ → ℤ → List ℤ → W → W → Option (W × W)
  chain_cost amr prev [] total own = some (total, own)
  chain_cost amr prev (task ∷ chain) total own =
      let c = leg_cost t task_num prev task amr in
      elim (d.is_finite c) [
        | true ↦ chain_cost amr task chain (d.add total c) (d.add own c)
        | false ↦ none
      ]

  -- Chain after chain: the total of all legs, and the greatest cost of a chain. Chains past the last
  -- AMR are charged to it.
  pub chains_cost : ℕ → List (List ℤ) → W → W → Option (W × W)
  unfolding chain_cost
  chains_cost amr [] total worst = some (total, worst)
  chains_cost amr (chain ∷ chains) total worst =
      elim (chain_cost amr minus_one chain total d.nought) [
        | none ↦ none
        | some (total', own) ↦
            chains_cost (if ltb (amr + 1) amr_num then amr + 1 else amr) chains total'
              (fmax worst own)
      ]

  abbrev running : W → W → W → ℕ → ℤ → Running W
  running total own worst amr prev = record {
    total_cost = total;
    current_amr_cost = own;
    max_amr_cost = worst;
    current_amr_id = amr;
    prev_task = prev;
  }

  -- The loop after a chain, from the state that the chain leaves.
  abbrev after_chain : List ℤ → W → ℕ → ℤ → Option (W × W) → Option (Running W)
  after_chain rest worst amr prev none = none
  after_chain rest worst amr prev (some (total, own)) =
      total_loop t amr_num task_num rest (running total own worst amr prev)

  last_of : ℤ → List ℤ → ℤ
  last_of prev [] = prev
  last_of prev (task ∷ chain) = last_of task chain

  total_loop-chain :
      (chain rest : List ℤ) (total own worst : W) (amr : ℕ) (prev : ℤ)
      → IsChain chain
      → total_loop t amr_num task_num (chain ++ rest) (running total own worst amr prev)
        ≡ after_chain rest worst amr (last_of prev chain) (chain_cost amr prev chain total own)
  unfolding total_loop chain_cost last_of
  total_loop-chain [] rest total own worst amr prev h = refl
  total_loop-chain (task ∷ chain) rest total own worst amr prev h =
      let c = leg_cost t task_num prev task amr in
      elim (Bool-cases (d.is_finite c)) [
        | inl fin ↦
            ground
              (arith, total_loop-chain chain rest (d.add total c) (d.add own c) worst amr task h.1)
        | inr inf ↦ ground arith
      ]

  abbrev finish : Option (Running W) → Option (W × W)
  finish none = none
  finish (some r) = some (r.total_cost, fmax r.max_amr_cost r.current_amr_cost)

  total_loop-separator :
      (rest : List ℤ) (total own worst : W) (amr : ℕ) (prev : ℤ)
      → total_loop t amr_num task_num (code_separator ∷ rest) (running total own worst amr prev)
        ≡ total_loop t amr_num task_num rest (
            running total d.nought
              (fmax worst own)
              (if ltb (amr + 1) amr_num then amr + 1 else amr)
              minus_one)
  unfolding total_loop
  total_loop-separator rest total own worst amr prev = ground arith

  total_loop-nil : (r : Running W) → total_loop t amr_num task_num [] r ≡ some r
  unfolding total_loop
  total_loop-nil r = refl

  total_loop-chains :
      (chain : List ℤ) (chains : List (List ℤ)) (total worst : W) (amr : ℕ)
      → All IsChain (chain ∷ chains)
      → finish (
          total_loop t amr_num task_num
            (de_parse_solution (chain ∷ chains))
            (running total d.nought worst amr minus_one))
        ≡ chains_cost amr (chain ∷ chains) total worst
  unfolding de_parse_solution chains_cost
  total_loop-chains chain [] total worst amr h =
      ap
        (λ code.
          finish (total_loop t amr_num task_num code (running total d.nought worst amr minus_one)))
        (sym (append-nil chain))
      ∙ ap finish (total_loop-chain chain [] total d.nought worst amr minus_one h.0)
      ∙ last (chain_cost amr minus_one chain total d.nought)
    where
      last :
          (o : Option (W × W))
          → finish (after_chain [] worst amr (last_of minus_one chain) o)
            ≡ (elim o as (λ _. Option (W × W)) [
              | none ↦ none
              | some (total', own) ↦ some (total', fmax worst own)
            ])
      last none = refl
      last (some (total', own)) = ap finish (total_loop-nil _)
  total_loop-chains chain (next ∷ chains) total worst amr h =
      ap finish (
        total_loop-chain chain (code_separator ∷ de_parse_solution (next ∷ chains)) total d.nought
          worst amr minus_one h.0)
      ∙ onward (chain_cost amr minus_one chain total d.nought) (λ total' own.
        total_loop-chains next chains total' (fmax worst own)
          (if ltb (amr + 1) amr_num then amr + 1 else amr) h.1)
    where
      onward :
          (o : Option (W × W))
          → ((total' own : W)
              → finish (
                  total_loop t amr_num task_num (de_parse_solution (next ∷ chains)) (
                    running total' d.nought
                      (fmax worst own)
                      (if ltb (amr + 1) amr_num then amr + 1 else amr)
                      minus_one))
                ≡ chains_cost
                    (if ltb (amr + 1) amr_num then amr + 1 else amr)
                    (next ∷ chains)
                    total'
                    (fmax worst own))
          → finish (
              after_chain
                (code_separator ∷ de_parse_solution (next ∷ chains))
                worst
                amr
                (last_of minus_one chain)
                o)
            ≡ (elim o as (λ _. Option (W × W)) [
              | none ↦ none
              | some (total', own) ↦
                  chains_cost
                    (if ltb (amr + 1) amr_num then amr + 1 else amr)
                    (next ∷ chains)
                    total'
                    (fmax worst own)
            ])
      onward none ih = refl
      onward (some (total', own)) ih =
          ap finish (total_loop-separator _ total' own worst amr _) ∙ ih total' own

  -- For chains that hold no separator, one at least: the cost of their code is the sum of all legs over
  -- the number of AMRs (over 1 where there is none), plus the greatest cost of a chain, in seconds; each
  -- leg is charged to the AMR of its chain, and to the last AMR in chains past it. The cost is infinity
  -- if some leg is not finite.
  pub calculate_total_cost-chains :
      (chain : List ℤ) (chains : List (List ℤ))
      → All IsChain (chain ∷ chains)
      → calculate_total_cost t amr_num task_num (de_parse_solution (chain ∷ chains))
        ≡ elim (chains_cost 0 (chain ∷ chains) d.nought d.nought) [
          | none ↦ d.infinity
          | some (total, worst) ↦
              d.div
                (d.add (d.div total (d.of_int (pos (max 1 amr_num)))) worst)
                (d.of_int (pos 1000))
        ]
  unfolding calculate_total_cost objective
  calculate_total_cost-chains chain chains h =
      close (total_loop t amr_num task_num (de_parse_solution (chain ∷ chains)) total_start)
      ∙ ap answer (total_loop-chains chain chains d.nought d.nought 0 h)
    where
      answer : Option (W × W) → W
      answer none = d.infinity
      answer (some (total, worst)) =
          d.div (d.add (d.div total (d.of_int (pos (max 1 amr_num)))) worst) (d.of_int (pos 1000))

      close :
          (o : Option (Running W))
          → (elim o as (λ _. W) [
            | none ↦ d.infinity
            | some r ↦ objective amr_num r.total_cost (fmax r.max_amr_cost r.current_amr_cost)
          ])
            ≡ answer (finish o)
      close none = refl
      close (some r) = refl
