-- ===== src/Cost.antt =====
-- The costs of src/algorithm/base/TaskAllocationUtils.cpp: the sparse table of leg costs, under its
-- packed 64-bit keys, and the two loops that add the costs of a code up. The file's static variables
-- are the table, an argument here. A number shifted left is taken as its 64-bit pattern.
pub mod Keys
pub mod Total
mod Tests
use Prim.Native.Nat.{bit_xor}
use agvscheduling.Prelude.{
  ℕ, zero, suc, ◌+◌, ◌-◌, ◌*◌, ◌%◌, ◌^◌, min, max, Bool, true, false, ℤ, pos, negsuc, minus_one,
  ℤ_discrete, String, List, [], ◌∷◌, Option, none, some, ite, if◌then◌else◌, ltb, set, get_or,
  replicate, find, put, ℕ_discrete, Double, string_discrete, ◌||◌,
}
use agvscheduling.Allocation.{code_separator}

abbrev pub word : ℕ
word = 2 ^ 64

-- `static_cast<long long>` of an `int`, as a bit pattern.
abbrev pub pattern_of : ℤ → ℕ
pattern_of (pos n) = n % word
pattern_of (negsuc n) = word - 1 - n % word

abbrev pub shifted : ℤ → ℕ → ℕ
shifted a k = pattern_of a * 2 ^ k % word

unfoldable pub make_key_sparse : ℤ → ℤ → ℤ → ℕ
make_key_sparse prev cur amr = bit_xor (bit_xor (shifted prev 42) (shifted cur 21)) (pattern_of amr)

pub record SparseCost (W : Type 0) : Type 0 where
  pub enabled : Bool
  pub task_num : ℤ
  pub amr_num : ℤ
  pub cost : List (ℕ × W)

-- The value of ALLOC_COST_SPARSE switches the flag off.
abbrev pub says_no : Option String → Bool
says_no none = false
says_no (some v) =
    ite (string_discrete v "0") true false
    || ite (string_discrete v "false") true false
    || ite (string_discrete v "False") true false
    || ite (string_discrete v "FALSE") true false

-- The variables of `calculateTotalCost`.
pub record Running (W : Type 0) : Type 0 where
  pub total_cost : W
  pub current_amr_cost : W
  pub max_amr_cost : W
  pub current_amr_id : ℕ
  pub prev_task : ℤ

module _ {W : Type 0} ⦃d : Double W⦄ where
  unfoldable pub sparse_reset : Option String → ℤ → ℤ → SparseCost W
  sparse_reset env task_num amr_num = record {
    enabled = if says_no env then false else true;
    task_num = task_num;
    amr_num = amr_num;
    cost = [];
  }

  unfoldable pub sparse_put : SparseCost W → ℤ → ℤ → ℤ → W → SparseCost W
  unfolding make_key_sparse
  sparse_put t prev cur amr value = record t {
    cost = put ℕ_discrete (make_key_sparse prev cur amr) value t.cost;
  }

  unfoldable pub get_cost : SparseCost W → ℤ → ℤ → ℤ → W
  unfolding make_key_sparse
  get_cost t prev cur amr = elim (find ℕ_discrete (make_key_sparse prev cur amr) t.cost) [
    | some value ↦ value
    | none ↦ d.infinity
  ]

  -- `std::max`.
  abbrev pub fmax : W → W → W
  fmax a b = if d.lt a b then b else a

  -- The cost of the leg to a task: from the AMR's start, or from the task before.
  pub leg_cost : SparseCost W → ℕ → ℤ → ℤ → ℕ → W
  unfolding get_cost
  leg_cost t task_num prev cur amr =
      ite (ℤ_discrete prev minus_one) (get_cost t (pos task_num) cur (pos amr))
        (get_cost t prev cur (pos amr))

  switch_amr : ℕ → Running W → Running W
  switch_amr amr_num r = record {
    total_cost = r.total_cost;
    current_amr_cost = d.nought;
    max_amr_cost = fmax r.max_amr_cost r.current_amr_cost;
    current_amr_id =
        if ltb (r.current_amr_id + 1) amr_num then r.current_amr_id + 1 else r.current_amr_id;
    prev_task = minus_one;
  }

  take_task : Running W → ℤ → W → Running W
  take_task r task cost = record r {
    total_cost = d.add r.total_cost cost;
    current_amr_cost = d.add r.current_amr_cost cost;
    prev_task = task;
  }

  -- `none` is the early return of infinity.
  pub total_loop : SparseCost W → ℕ → ℕ → List ℤ → Running W → Option (Running W)
  unfolding switch_amr take_task
  total_loop t amr_num task_num [] r = some r
  total_loop t amr_num task_num (val ∷ rest) r = elim (ℤ_discrete val code_separator) [
    | yes _ ↦ total_loop t amr_num task_num rest (switch_amr amr_num r)
    | no _ ↦
        let c = leg_cost t task_num r.prev_task val r.current_amr_id in
        elim (d.is_finite c) [
          | true ↦ total_loop t amr_num task_num rest (take_task r val c)
          | false ↦ none
        ]
  ]

  pub total_start : Running W
  total_start = record {
    total_cost = d.nought;
    current_amr_cost = d.nought;
    max_amr_cost = d.nought;
    current_amr_id = 0;
    prev_task = minus_one;
  }

  -- Mean and worst cost of an AMR, in seconds.
  pub objective : ℕ → W → W → W
  objective amr_num total worst =
      d.div (d.add (d.div total (d.of_int (pos (max 1 amr_num)))) worst) (d.of_int (pos 1000))

  unfoldable pub calculate_total_cost : SparseCost W → ℕ → ℕ → List ℤ → W
  unfolding total_loop total_start objective
  calculate_total_cost t amr_num task_num code =
      elim (total_loop t amr_num task_num code total_start) [
        | none ↦ d.infinity
        | some r ↦ objective amr_num r.total_cost (fmax r.max_amr_cost r.current_amr_cost)
      ]

  -- `amrTime[id] += cost`.
  abbrev pub add_at : List W → ℕ → W → List W
  add_at times i c = set times i (d.add (get_or times i d.nought) c)

  -- The loop of `computeAmrDurations`; a leg that is not finite ends it.
  pub durations_loop : SparseCost W → ℕ → ℕ → List ℤ → ℕ → ℤ → List W → List W
  durations_loop t amr_num task_num [] amr prev times = times
  durations_loop t amr_num task_num (val ∷ rest) amr prev times =
      elim (ℤ_discrete val code_separator) [
        | yes _ ↦
            durations_loop t amr_num task_num rest (min (amr + 1) (amr_num - 1)) minus_one times
        | no _ ↦
            let c = leg_cost t task_num prev val amr in
            elim (d.is_finite c) [
              | true ↦ durations_loop t amr_num task_num rest amr val (add_at times amr c)
              | false ↦ times
            ]
      ]

  -- For one AMR at least.
  pub compute_amr_durations : SparseCost W → ℕ → ℕ → List ℤ → List W
  unfolding durations_loop
  compute_amr_durations t amr_num task_num code =
      durations_loop t amr_num task_num code 0 minus_one (replicate amr_num d.nought)
