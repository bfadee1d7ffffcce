-- ===== src/Allocation/Codec.antt =====
-- `parseSolution` and `deParseSolution` are inverse to each other.
use agvscheduling.Prelude.{
  ℕ, ◌+◌, ◌≡◌, ◌≢◌, refl, ap, sym, ◌∙◌, ℤ, ℤ_discrete, List, [], ◌∷◌, ◌++◌, ite, arith, All,
  All-append, length, append_assoc, append-nil,
}
use agvscheduling.Allocation.{code_separator, parse_from, parse_solution, de_parse_solution}

-- No task has the separator's number.
abbrev pub IsChain : List ℤ → Type 0
IsChain = All (λ t. t ≢ code_separator)

unfoldable pub count_separators : List ℤ → ℕ
count_separators [] = 0
count_separators (v ∷ vs) =
    ite (ℤ_discrete v code_separator) (count_separators vs + 1) (count_separators vs)

parse_from_nil : (current : List ℤ) → parse_from current [] ≡ current ∷ []
unfolding parse_from
parse_from_nil current = refl

parse_from_separator :
    (current vs : List ℤ) (v : ℤ)
    → v ≡ code_separator
    → parse_from current (v ∷ vs) ≡ current ∷ parse_from [] vs
unfolding parse_from
parse_from_separator current vs v e = ground arith

parse_from_task :
    (current vs : List ℤ) (v : ℤ)
    → v ≢ code_separator
    → parse_from current (v ∷ vs) ≡ parse_from (current ++ v ∷ []) vs
unfolding parse_from
parse_from_task current vs v ne = ground arith

pub parse_from-ne-nil : (current code : List ℤ) → parse_from current code ≢ []
unfolding parse_from
parse_from-ne-nil current [] h = cc
parse_from-ne-nil current (v ∷ vs) h = elim (ℤ_discrete v code_separator) [
  | yes e ↦ cc (parse_from_separator current vs v e)
  | no ne ↦ parse_from-ne-nil (current ++ v ∷ []) vs (sym (parse_from_task current vs v ne) ∙ h)
]

de_parse_solution-cons :
    (chain : List ℤ) (ts : List (List ℤ))
    → ts ≢ []
    → de_parse_solution (chain ∷ ts) ≡ chain ++ (code_separator ∷ de_parse_solution ts)
unfolding de_parse_solution
de_parse_solution-cons chain [] h = absurd (h refl)
de_parse_solution-cons chain (t ∷ ts) h = refl

de_parse_solution-parse_from :
    (current code : List ℤ) → de_parse_solution (parse_from current code) ≡ current ++ code
unfolding parse_from de_parse_solution
de_parse_solution-parse_from current [] = sym (append-nil current)
de_parse_solution-parse_from current (v ∷ vs) = elim (ℤ_discrete v code_separator) [
  | yes e ↦
      ap de_parse_solution (parse_from_separator current vs v e)
      ∙ de_parse_solution-cons current (parse_from [] vs) (parse_from-ne-nil [] vs)
      ∙ rw (de_parse_solution-parse_from [] vs, e)
  | no ne ↦
      ap de_parse_solution (parse_from_task current vs v ne)
      ∙ de_parse_solution-parse_from (current ++ v ∷ []) vs
      ∙ append_assoc current (v ∷ []) vs
]

-- Decoding a code and encoding the chains again gives the code back, whatever the code is.
pub de_parse_solution-parse_solution :
    (code : List ℤ) → de_parse_solution (parse_solution code) ≡ code
unfolding parse_solution
de_parse_solution-parse_solution code = de_parse_solution-parse_from [] code

parse_from_chain :
    (current chain rest : List ℤ)
    → IsChain chain
    → parse_from current (chain ++ rest) ≡ parse_from (current ++ chain) rest
parse_from_chain current [] rest h = ap (λ c. parse_from c rest) (sym (append-nil current))
parse_from_chain current (v ∷ vs) rest h =
    parse_from_task current (vs ++ rest) v h.0
    ∙ parse_from_chain (current ++ v ∷ []) vs rest h.1
    ∙ ap (λ c. parse_from c rest) (append_assoc current (v ∷ []) vs)

parse_from-de_parse_solution :
    (chain : List ℤ) (ts : List (List ℤ))
    → All IsChain (chain ∷ ts)
    → parse_from [] (de_parse_solution (chain ∷ ts)) ≡ chain ∷ ts
unfolding de_parse_solution
parse_from-de_parse_solution chain [] h =
    ap (parse_from []) (sym (append-nil chain))
    ∙ parse_from_chain [] chain [] h.0
    ∙ parse_from_nil chain
parse_from-de_parse_solution chain (next ∷ ts) h =
    parse_from_chain [] chain (code_separator ∷ de_parse_solution (next ∷ ts)) h.0
    ∙ parse_from_separator chain (de_parse_solution (next ∷ ts)) code_separator refl
    ∙ ap (◌∷◌ chain) (parse_from-de_parse_solution next ts h.1)

-- Encoding chains that hold no separator, one chain at least, and decoding the code gives the chains
-- back.
pub parse_solution-de_parse_solution :
    (ts : List (List ℤ)) → ts ≢ [] → All IsChain ts → parse_solution (de_parse_solution ts) ≡ ts
unfolding parse_solution
parse_solution-de_parse_solution [] h c = absurd (h refl)
parse_solution-de_parse_solution (chain ∷ ts) h c = parse_from-de_parse_solution chain ts c

parse_from-IsChain :
    (current code : List ℤ) → IsChain current → All IsChain (parse_from current code)
unfolding parse_from
parse_from-IsChain current [] h = (h, tt)
parse_from-IsChain current (v ∷ vs) h = elim (ℤ_discrete v code_separator) [
  | yes e ↦ rw (parse_from_separator current vs v e) (h, parse_from-IsChain [] vs tt)
  | no ne ↦
      rw (parse_from_task current vs v ne)
        (parse_from-IsChain (current ++ v ∷ []) vs (All-append _ current (v ∷ []) h (ne, tt)))
]

length-parse_from :
    (current code : List ℤ) → length (parse_from current code) ≡ count_separators code + 1
unfolding parse_from count_separators
length-parse_from current [] = refl
length-parse_from current (v ∷ vs) =
    ground (arith, length-parse_from [] vs, length-parse_from (current ++ v ∷ []) vs)

-- A code gives a chain for each separator, and one more; each of them holds no separator.
pub parse_solution_shape :
    (code : List ℤ)
    → (length (parse_solution code) ≡ count_separators code + 1) × All IsChain (parse_solution code)
unfolding parse_solution
parse_solution_shape code = (length-parse_from [] code, parse_from-IsChain [] code tt)
