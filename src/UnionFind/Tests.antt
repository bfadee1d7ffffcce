-- ===== src/UnionFind/Tests.antt =====
-- Four nodes, of which two are united.
use agvscheduling.Prelude.{ℕ, ◌≡◌, ◌≢◌, refl, true, false, none, arith, [], ◌∷◌}
use agvscheduling.UnionFind.{UnionFind, unite, find_root, find_compressing, is_connected}
use agvscheduling.UnionFind.Roots.{Leads, top, up, SameTree, find_compressing_lem, unite_lem}

-- 1 leads to 0, and 2 by 1.
abbrev chain : UnionFind
chain = record { parent = 0 ∷ 0 ∷ 1 ∷ 3 ∷ []; rank = 2 ∷ 1 ∷ 0 ∷ 0 ∷ [] }

zero-Leads : Leads chain.parent 0 0
zero-Leads = top (omega arith) refl

one-Leads : Leads chain.parent 1 0
one-Leads = up (omega arith) (λ e. ground arith) zero-Leads

find_compressing_example :
    ((find_compressing chain 2).1 ≡ find_root chain 2)
    × Leads (find_compressing chain 2).0.parent 1 0
find_compressing_example = find_compressing_lem chain 2 1 0 one-Leads

unite_example :
    ((z w : ℕ) → SameTree chain.parent z w → SameTree (unite chain 2 3).parent z w)
    × (find_root chain 2 ≢ none
        → find_root (find_compressing chain 2).0 3 ≢ none
        → SameTree (unite chain 2 3).parent 2 3)
unite_example = unite_lem chain 2 3

united :
    (is_connected chain 2 3 ≡ false)
    × (is_connected (unite chain 2 3) 1 3 ≡ true)
    × (unite chain 2 3 ≡ record { parent = 0 ∷ 0 ∷ 0 ∷ 0 ∷ []; rank = chain.rank })
unfolding is_connected unite
united = (refl, refl, refl)
