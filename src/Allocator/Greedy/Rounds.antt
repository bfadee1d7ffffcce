-- ===== src/Allocator/Greedy/Rounds.antt =====
-- The loop ends: each round but the last takes a task off.
use agvscheduling.Prelude.{
  ℕ, zero, suc, ◌≤◌, ◌<◌, ◌≡◌, refl, String, List, [], ◌∷◌, Option, none, some, ◌⊎◌, inl, inr,
  arith, Bool-cases, ltb, ◌==◌, length, Double,
}
use agvscheduling.Fleet.{Task}
use agvscheduling.Cost.{SparseCost}
use agvscheduling.Allocator.Greedy.{
  Assigning, give, give_all, round, rounds, start_state, assign_greedily, offers,
}

module _ {W : Type 0} ⦃d : Double W⦄ (t : SparseCost W) (tasks : List Task)
    (parse_iso : String → Option W) (base_now coeff : W) where
  give_all-fewer :
      (task : ℕ) (temp : List (Option ℕ)) (s : Assigning W)
      → (give_all t tasks parse_iso base_now coeff task temp s).unallocated_num ≤ s.unallocated_num
  unfolding give_all give
  give_all-fewer task [] s = omega arith
  give_all-fewer task (none ∷ rest) s = give_all-fewer (suc task) rest s
  give_all-fewer task (some amr ∷ rest) s =
      omega
        (arith, give_all-fewer (suc task) rest (give t tasks parse_iso base_now coeff s task amr))

  round-fewer :
      (amr_num : ℕ) (s : Assigning W)
      → (round t tasks parse_iso base_now coeff amr_num s).unallocated_num ≤ s.unallocated_num
  unfolding round
  round-fewer amr_num s = give_all-fewer 0 (offers t tasks parse_iso base_now coeff amr_num s) s

  pub rounds-empty :
      (amr_num : ℕ) (s : Assigning W)
      → rounds t tasks parse_iso base_now coeff amr_num zero s ≡ none
  unfolding rounds
  rounds-empty amr_num s = refl

  -- The loop stops before a round, stops after one, or goes on.
  pub rounds_cases :
      (amr_num fuel : ℕ) (s : Assigning W)
      → let next = round t tasks parse_iso base_now coeff amr_num s in
        let all = rounds t tasks parse_iso base_now coeff amr_num (suc fuel) s in
        (all ≡ some s)
        ⊎ (all ≡ some next)
        ⊎ (all ≡ rounds t tasks parse_iso base_now coeff amr_num fuel next)
  unfolding rounds
  rounds_cases amr_num fuel s =
      let next = round t tasks parse_iso base_now coeff amr_num s in
      elim (Bool-cases (ltb 0 s.unallocated_num)) [
        | inr e ↦ inl (rw (rounds, e) refl)
        | inl e ↦ elim (Bool-cases (next.unallocated_num == s.unallocated_num)) [
          | inl same ↦ inr (inl (rw (rounds, e, same) refl))
          | inr less ↦ inr (inr (rw (rounds, e, less) refl))
        ]
      ]

  -- With more fuel than unallocated tasks the loop ends.
  rounds-ends :
      (amr_num fuel : ℕ) (s : Assigning W)
      → s.unallocated_num < fuel
      → (s' : Assigning W) × (rounds t tasks parse_iso base_now coeff amr_num fuel s ≡ some s')
  unfolding rounds
  rounds-ends amr_num zero s h = absurd (omega arith)
  rounds-ends amr_num (suc fuel) s h =
      let next = round t tasks parse_iso base_now coeff amr_num s in
      let fewer = round-fewer amr_num s in
      elim (Bool-cases (ltb 0 s.unallocated_num)) [
        | inr e ↦ (s, rw (rounds, e) refl)
        | inl e ↦ elim (Bool-cases (next.unallocated_num == s.unallocated_num)) [
          | inl same ↦ (next, rw (rounds, e, same) refl)
          | inr less ↦
              rw (rounds, e, less) (rounds-ends amr_num fuel next (ground (arith, h, fewer, less)))
        ]
      ]

  -- So the greedy loop always gives an assignment.
  pub assign_greedily-ends :
      (amr_num : ℕ)
      → (s : Assigning W) × (assign_greedily t tasks parse_iso base_now coeff amr_num ≡ some s)
  unfolding assign_greedily start_state
  assign_greedily-ends amr_num =
      rounds-ends amr_num (suc (length tasks))
        (start_state t tasks parse_iso base_now coeff amr_num) (omega arith)
