-- ===== src/Cost/Keys.antt =====
-- The packed keys tell the legs apart, so the sparse table is a map from legs to costs.
use Prim.Native.Nat.{bit_xor}
use agvscheduling.Prelude.{
  ℕ, ◌+◌, ◌*◌, ◌^◌, ◌<◌, ◌≡◌, ◌∙◌, ap, pos, arith, find-put, ℕ_discrete, Double, bit_xor-disjoint,
}
use agvscheduling.Cost.{make_key_sparse, shifted, pattern_of, SparseCost, sparse_put, get_cost}

-- The task and AMR numbers that the packing was made for.
abbrev pub field_limit : ℕ
field_limit = 2 ^ 21

abbrev pub IsLeg : ℕ → ℕ → ℕ → Type 0
IsLeg prev cur amr = (prev < field_limit) × (cur < field_limit) × (amr < field_limit)

-- Below the limit the key is the three numbers side by side.
make_key_sparse-fields :
    (prev cur amr : ℕ)
    → IsLeg prev cur amr
    → make_key_sparse (pos prev) (pos cur) (pos amr) ≡ (prev * 2 ^ 21 + cur) * 2 ^ 21 + amr
unfolding make_key_sparse
make_key_sparse-fields prev cur amr h =
    let mid : shifted (pos cur) 21 ≡ cur * 2 ^ 21 = omega arith in
    let low : pattern_of (pos amr) ≡ amr = omega arith in
    let first = bit_xor-disjoint 42 prev (cur * 2 ^ 21) (omega arith) in
    let second = bit_xor-disjoint 21 (prev * 2 ^ 21 + cur) amr h.2 in
    let joined : prev * 2 ^ 42 + cur * 2 ^ 21 ≡ (prev * 2 ^ 21 + cur) * 2 ^ 21 = omega arith in
    let top : shifted (pos prev) 42 ≡ prev * 2 ^ 42 = omega arith in
    ap (λ x. bit_xor (bit_xor x (shifted (pos cur) 21)) (pattern_of (pos amr))) top
    ∙ ap (λ x. bit_xor (bit_xor (prev * 2 ^ 42) x) (pattern_of (pos amr))) mid
    ∙ ap (λ x. bit_xor (bit_xor (prev * 2 ^ 42) (cur * 2 ^ 21)) x) low
    ∙ ap (λ x. bit_xor x amr) (first ∙ joined)
    ∙ second

-- Below the limit two legs with one key are the same leg.
pub make_key_sparse-injective :
    (prev cur amr prev' cur' amr' : ℕ)
    → IsLeg prev cur amr
    → IsLeg prev' cur' amr'
    → make_key_sparse (pos prev) (pos cur) (pos amr)
      ≡ make_key_sparse (pos prev') (pos cur') (pos amr')
    → (prev ≡ prev') × (cur ≡ cur') × (amr ≡ amr')
make_key_sparse-injective prev cur amr prev' cur' amr' h h' e =
    omega
      (arith, e, make_key_sparse-fields prev cur amr h, make_key_sparse-fields prev' cur' amr' h')

-- After `sparsePut` the leg costs what was put, and every other leg of fewer than 2^21 tasks and
-- AMRs costs what it cost.
pub get_cost-sparse_put :
    {W : Type 0} ⦃d : Double W⦄ (t : SparseCost W) (prev cur amr prev' cur' amr' : ℕ) (value : W)
    → IsLeg prev cur amr
    → IsLeg prev' cur' amr'
    → let t' = sparse_put t (pos prev) (pos cur) (pos amr) value in
      (get_cost t' (pos prev) (pos cur) (pos amr) ≡ value)
      × (((prev ≡ prev') × (cur ≡ cur') × (amr ≡ amr') → ⊥)
          → get_cost t' (pos prev') (pos cur') (pos amr')
            ≡ get_cost t (pos prev') (pos cur') (pos amr'))
unfolding sparse_put get_cost
get_cost-sparse_put t prev cur amr prev' cur' amr' value h h' =
    let k = make_key_sparse (pos prev) (pos cur) (pos amr) in
    let k' = make_key_sparse (pos prev') (pos cur') (pos amr') in
    (
      ground (arith, find-put ℕ_discrete k k value t.cost),
      λ other. elim (ℕ_discrete k k') [
        | yes e ↦ absurd (other (make_key_sparse-injective prev cur amr prev' cur' amr' h h' e))
        | no ne ↦ ground (arith, find-put ℕ_discrete k k' value t.cost)
      ],
    )
