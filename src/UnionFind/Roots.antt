-- ===== src/UnionFind/Roots.antt =====
-- What the two loops of `find` and `unite` do to the forest of parents.
use agvscheduling.Prelude.{
  ℕ, zero, suc, ◌≡◌, ◌≢◌, ◌<◌, refl, sym, ◌∙◌, subst, ℕ_discrete, List, [], ◌∷◌, Option, none, some,
  inl, inr, ◌⊎◌, arith, Bool-cases, if◌then◌else◌, ltb, ◌==◌, length, get_or, set, length-set,
}
use agvscheduling.UnionFind.{
  UnionFind, parent_of, climb, find_root, compress, find_compressing, compressed, link, link_roots,
  unite,
}

get_or-set :
    (xs : List ℕ) (i j v : ℕ)
    → i < length xs
    → get_or (set xs i v) j 0 ≡ (if i == j then v else get_or xs j 0)
get_or-set [] i j v h = absurd (omega arith)
get_or-set (x ∷ xs) zero zero v h = refl
get_or-set (x ∷ xs) zero (suc j) v h = ground arith
get_or-set (x ∷ xs) (suc i) zero v h = ground arith
get_or-set (x ∷ xs) (suc i) (suc j) v h = ground (arith, get_or-set xs i j v (omega arith))

-- The parents lead from `x` to `r`, which is its own parent.
pub data Leads (parent : List ℕ) : ℕ → ℕ → Type 0 where
  top : {r : ℕ} → r < length parent → parent_of parent r ≡ r → Leads parent r r
  up :
      {x r : ℕ}
      → x < length parent
      → parent_of parent x ≢ x
      → Leads parent (parent_of parent x) r
      → Leads parent x r

pub Leads-root : (p : List ℕ) (x r : ℕ) → Leads p x r → (r < length p) × (parent_of p r ≡ r)
Leads-root p x r (top h e) = (h, e)
Leads-root p x r (up h ne l) = Leads-root p _ r l

at_top : (p : List ℕ) (x r : ℕ) → x < length p → parent_of p x ≡ x → x ≡ r → Leads p x r
at_top p x r h fixed e = subst (λ z. Leads p x z) e (top h fixed)

pub climb-Leads : (k : ℕ) (p : List ℕ) (x r : ℕ) → x < length p → climb k p x ≡ some r → Leads p x r
unfolding climb
climb-Leads zero p x r h e = elim (Bool-cases (parent_of p x == x)) [
  | inl here ↦ at_top p x r h (ground arith) (ground (arith, e))
  | inr away ↦ absurd (ground (arith, e))
]
climb-Leads (suc k) p x r h e = elim (Bool-cases (parent_of p x == x)) [
  | inl here ↦ at_top p x r h (ground arith) (ground (arith, e))
  | inr away ↦ elim (Bool-cases (ltb (parent_of p x) (length p))) [
    | inl fits ↦
        up h (ground arith) (climb-Leads k p (parent_of p x) r (ground arith) (ground (arith, e)))
    | inr out ↦ absurd (ground (arith, e))
  ]
]

Leads-unique : (p : List ℕ) (x r s : ℕ) → Leads p x r → Leads p x s → r ≡ s
Leads-unique p x r s (top h e) (top k f) = refl
Leads-unique p x r s (top h e) (up k ne l) = absurd (ne e)
Leads-unique p x r s (up h ne l) (top k f) = absurd (ne f)
Leads-unique p x r s (up h ne l) (up k ne' l') = Leads-unique p _ r s l l'

-- One new parent for `a`, which leads to `b` with or without it.
module _ (p : List ℕ) (a b : ℕ) (ha : a < length p) (hb : b < length p) (fixed : parent_of p b ≡ b)
    (apart : a ≢ b) where
  abbrev redirected : List ℕ
  redirected = set p a b

  inside : (x : ℕ) → x < length p → x < length redirected
  inside x h = rw (length-set p a b) h

  redirected_here : parent_of redirected a ≡ b
  redirected_here = ground (arith, get_or-set p a a b ha)

  redirected_elsewhere : (x : ℕ) → a ≢ x → parent_of redirected x ≡ parent_of p x
  redirected_elsewhere x ne = ground (arith, get_or-set p a x b ha)

  b_is_top : Leads redirected b b
  b_is_top = top (inside b hb) (redirected_elsewhere b apart ∙ fixed)

  a-Leads : Leads redirected a b
  a-Leads = up (inside a ha) (rw redirected_here (λ e. apart (sym e))) (rw redirected_here b_is_top)

  keep_up :
      (x r : ℕ)
      → x < length p
      → a ≢ x
      → parent_of p x ≢ x
      → Leads redirected (parent_of p x) r
      → Leads redirected x r
  keep_up x r h away ne l =
      up (inside x h) (rw (redirected_elsewhere x away) ne) (rw (redirected_elsewhere x away) l)

  -- A node that led to `a`, where `a` was a root, now leads to `b`, and any other keeps its root.
  redirect_root :
      parent_of p a ≡ a
      → (x r : ℕ) → Leads p x r
      → ((r ≢ a) × Leads redirected x r) ⊎ ((r ≡ a) × Leads redirected x b)
  redirect_root ra x r (top h e) = elim (ℕ_discrete a r) [
    | yes here ↦ inr (sym here, rw (← here) a-Leads)
    | no away ↦ inl ((λ q. away (sym q)), top (inside r h) (redirected_elsewhere r away ∙ e))
  ]
  redirect_root ra x r (up h ne l) =
      let away : a ≢ x = (λ q. ne (rw (← q) ra)) in
      elim (redirect_root ra _ r l) [
        | inl (other, l') ↦ inl (other, keep_up x r h away ne l')
        | inr (same, l') ↦ inr (same, keep_up x b h away ne l')
      ]

  -- Where `a` led to `b` before, every node keeps its root.
  redirect_path : parent_of p a ≢ a → Leads p a b → (x r : ℕ) → Leads p x r → Leads redirected x r
  redirect_path na la x r (top h e) =
      let away : a ≢ r = (λ q. na (rw q e)) in top (inside r h) (redirected_elsewhere r away ∙ e)
  redirect_path na la x r (up h ne l) = elim (ℕ_discrete a x) [
    | yes here ↦
        let same : r ≡ b = Leads-unique p x r b (up h ne l) (subst (λ z. Leads p z b) here la) in
        subst (λ z. Leads redirected z r) here
          (subst (λ s. Leads redirected a s) (sym same) a-Leads)
    | no away ↦ keep_up x r h away ne (redirect_path na la _ r l)
  ]

Leads-index : (p : List ℕ) (x r : ℕ) → Leads p x r → x < length p
Leads-index p x r (top h e) = h
Leads-index p x r (up h ne l) = h

Leads-next : (p : List ℕ) (x r : ℕ) → parent_of p x ≢ x → Leads p x r → Leads p (parent_of p x) r
Leads-next p x r na (top h e) = absurd (na e)
Leads-next p x r na (up h ne l) = l

Leads-apart : (p : List ℕ) (x r : ℕ) → parent_of p x ≢ x → Leads p x r → x ≢ r
Leads-apart p x r na l q = na (rw q (Leads-root p x r l).1)

compress-Leads :
    (k : ℕ) (p : List ℕ) (root x : ℕ)
    → Leads p x root
    → (y r : ℕ) → Leads p y r
    → Leads (compress k p root x) y r
unfolding compress
compress-Leads zero p root x lx y r ly = ly
compress-Leads (suc k) p root x lx y r ly = elim (Bool-cases (parent_of p x == x)) [
  | inl here ↦ rw here ly
  | inr away ↦ elim (Bool-cases (ltb (parent_of p x) (length p))) [
    | inl fits ↦
        let na : parent_of p x ≢ x = (λ q. ground (arith, q, away)) in
        let (hr, fixed) = Leads-root p x root lx in
        let keeps =
          redirect_path p x root (Leads-index p x root lx) hr fixed (Leads-apart p x root na lx) na
            lx in
        rw (away, fits)
          (compress-Leads k (set p x root) root (parent_of p x)
            (keeps (parent_of p x) root (Leads-next p x root na lx)) y r (keeps y r ly))
    | inr out ↦ rw (away, out) ly
  ]
]

find_root-Leads : (u : UnionFind) (x r : ℕ) → find_root u x ≡ some r → Leads u.parent x r
unfolding find_root
find_root-Leads u x r e = elim (Bool-cases (ltb x (length u.parent))) [
  | inl fits ↦ climb-Leads (length u.parent) u.parent x r (ground arith) (ground (arith, e))
  | inr out ↦ absurd (ground (arith, e))
]

compressed_lem :
    (u : UnionFind) (x y r : ℕ) (o : Option ℕ)
    → ((root : ℕ) → o ≡ some root → Leads u.parent x root)
    → Leads u.parent y r
    → ((compressed u x o).1 ≡ o) × Leads (compressed u x o).0.parent y r
compressed_lem u x y r none h l = (refl, l)
compressed_lem u x y r (some root) h l =
    (refl, compress-Leads (suc (length u.parent)) u.parent root x (h root refl) y r l)

-- Path compression answers as the read-only `find` does, and keeps the root of every node that has
-- one.
pub find_compressing_lem :
    (u : UnionFind) (x y r : ℕ)
    → Leads u.parent y r
    → ((find_compressing u x).1 ≡ find_root u x) × Leads (find_compressing u x).0.parent y r
unfolding find_compressing
find_compressing_lem u x y r l = compressed_lem u x y r (find_root u x) (find_root-Leads u x) l

-- Two nodes of one tree.
abbrev pub SameTree : List ℕ → ℕ → ℕ → Type 0
SameTree p x y = (r : ℕ) × Leads p x r × Leads p y r

set-SameTree :
    (p : List ℕ) (a b : ℕ)
    → a < length p
    → parent_of p a ≡ a
    → b < length p
    → parent_of p b ≡ b
    → a ≢ b
    → (x y : ℕ) → SameTree p x y
    → SameTree (set p a b) x y
set-SameTree p a b ha ra hb rb apart x y (r, lx, ly) =
    let moved = redirect_root p a b ha hb rb apart ra in
    elim (moved x r lx) [
      | inl (other, lx') ↦ elim (moved y r ly) [
        | inl (_, ly') ↦ (r, lx', ly')
        | inr (same, ly') ↦ absurd (other same)
      ]
      | inr (same, lx') ↦ elim (moved y r ly) [
        | inl (other, ly') ↦ absurd (other same)
        | inr (_, ly') ↦ (b, lx', ly')
      ]
    ]

link-SameTree :
    (u : UnionFind) (a b : ℕ)
    → a < length u.parent
    → parent_of u.parent a ≡ a
    → b < length u.parent
    → parent_of u.parent b ≡ b
    → a ≢ b
    → (x y : ℕ) → SameTree u.parent x y
    → SameTree (link u a b).parent x y
unfolding link
link-SameTree u a b ha ra hb rb apart x y s =
    elim (Bool-cases (ltb (get_or u.rank a 0) (get_or u.rank b 0))) [
      | inl lower ↦ rw lower (set-SameTree u.parent a b ha ra hb rb apart x y s)
      | inr higher ↦ rw higher (set-SameTree u.parent b a hb rb ha ra (λ q. apart (sym q)) x y s)
    ]

set-joins :
    (p : List ℕ) (a b : ℕ)
    → a < length p
    → parent_of p a ≡ a
    → b < length p
    → parent_of p b ≡ b
    → a ≢ b
    → (x y : ℕ) → Leads p x a
    → Leads p y b
    → SameTree (set p a b) x y
set-joins p a b ha ra hb rb apart x y lx ly =
    let moved = redirect_root p a b ha hb rb apart ra in
    elim (moved x a lx) [
      | inl (other, lx') ↦ absurd (other refl)
      | inr (_, lx') ↦ elim (moved y b ly) [
        | inl (_, ly') ↦ (b, lx', ly')
        | inr (same, ly') ↦ absurd (apart (sym same))
      ]
    ]

link-joins :
    (u : UnionFind) (a b : ℕ)
    → a < length u.parent
    → parent_of u.parent a ≡ a
    → b < length u.parent
    → parent_of u.parent b ≡ b
    → a ≢ b
    → (x y : ℕ) → Leads u.parent x a
    → Leads u.parent y b
    → SameTree (link u a b).parent x y
unfolding link
link-joins u a b ha ra hb rb apart x y lx ly =
    elim (Bool-cases (ltb (get_or u.rank a 0) (get_or u.rank b 0))) [
      | inl lower ↦ rw lower (set-joins u.parent a b ha ra hb rb apart x y lx ly)
      | inr higher ↦
          let (r, ly', lx') = set-joins u.parent b a hb rb ha ra (λ q. apart (sym q)) y x ly lx in
          rw higher (r, lx', ly')
    ]

-- The two roots that `unite` has found, each by the node that led to it.
abbrev FoundBy : UnionFind → ℕ → Option ℕ → Type 0
FoundBy u x o = (root : ℕ) → o ≡ some root → Leads u.parent x root

link_roots_lem :
    (u : UnionFind) (x y : ℕ) (rx ry : Option ℕ)
    → FoundBy u x rx
    → FoundBy u y ry
    → ((z w : ℕ) → SameTree u.parent z w → SameTree (link_roots u rx ry).parent z w)
      × (rx ≢ none → ry ≢ none → SameTree (link_roots u rx ry).parent x y)
link_roots_lem u x y none ry hx hy = ((λ z w s. s), λ n _. absurd (n refl))
link_roots_lem u x y (some a) none hx hy = ((λ z w s. s), λ _ n. absurd (n refl))
link_roots_lem u x y (some a) (some b) hx hy =
    let lx = hx a refl in
    let ly = hy b refl in
    let (ha, ra) = Leads-root u.parent x a lx in
    let (hb, rb) = Leads-root u.parent y b ly in
    elim (Bool-cases (a == b)) [
      | inl same ↦
          let q : a ≡ b = ground (arith, same) in
          rw same ((λ z w s. s), λ _ _. (b, rw (← q) lx, ly))
      | inr other ↦
          let apart : a ≢ b = (λ q. ground (arith, q, other)) in
          rw other (
            (λ z w s. link-SameTree u a b ha ra hb rb apart z w s),
            λ _ _. link-joins u a b ha ra hb rb apart x y lx ly,
          )
    ]

answer : (u : UnionFind) (x : ℕ) → (find_compressing u x).1 ≡ find_root u x
unfolding find_compressing
answer u x = go (find_root u x)
  where
    go : (o : Option ℕ) → (compressed u x o).1 ≡ o
    go none = refl
    go (some root) = refl

keeps : (u : UnionFind) (x y r : ℕ) → Leads u.parent y r → Leads (find_compressing u x).0.parent y r
keeps u x y r l = (find_compressing_lem u x y r l).1

found : (u : UnionFind) (x root : ℕ) → (find_compressing u x).1 ≡ some root → Leads u.parent x root
found u x root e = find_root-Leads u x root (sym (answer u x) ∙ e)

-- `unite` keeps two nodes of one tree in one tree, and brings its own two nodes into one tree where
-- both of its searches find a root.
pub unite_lem :
    (u : UnionFind) (x y : ℕ)
    → ((z w : ℕ) → SameTree u.parent z w → SameTree (unite u x y).parent z w)
      × (find_root u x ≢ none
          → find_root (find_compressing u x).0 y ≢ none
          → SameTree (unite u x y).parent x y)
unfolding unite
unite_lem u x y =
    let (ux, rx) = find_compressing u x in
    let (uy, ry) = find_compressing ux y in
    let (stays, joins) =
      link_roots_lem uy x y rx ry
        (λ root e. keeps ux y x root (keeps u x x root (found u x root e)))
        (λ root e. keeps ux y y root (found ux y root e)) in
    (
      (λ z w (r, lz, lw).
          stays z w (r, keeps ux y z r (keeps u x z r lz), keeps ux y w r (keeps u x w r lw))),
      λ nx ny. joins (λ q. nx (sym (answer u x) ∙ q)) (λ q. ny (sym (answer ux y) ∙ q)),
    )
