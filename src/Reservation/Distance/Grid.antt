-- ===== src/Reservation/Distance/Grid.antt =====
-- The grid of cells: which nodes a cell lists, and which cells meet.
use Prim.Native.Nat.{bit_xor}
use agvscheduling.Prelude.{
  ℕ, zero, suc, ◌+◌, ◌*◌, ◌%◌, ◌^◌, ◌≡◌, ◌∙◌, sym, ap, subst, refl, true, false, ℤ, pos, negsuc,
  minus_one, ◌+ℤ◌, ℤ_discrete, ℕ_discrete, is_negative, List, [], ◌∷◌, ◌++◌, some, find, find-put,
  elem, elem_append_cases, elem-append_left, elem-append_right, ◌⊎◌, ◌↔◌, inl, inr, arith, ite,
  if◌then◌else◌, Option-cases, Bool-cases, get_elem?, Double, bit_xor-disjoint,
}
use agvscheduling.Cost.{shifted}
use agvscheduling.MapInfo.{Node, push_at}
use agvscheduling.Reservation.Distance.{
  low_word, cell_key, listed_in, over_steps, cell_of, group_by_cell,
}

-- A step of the loops over the neighbouring cells.
abbrev pub IsStep : ℤ → Type 0
IsStep s = (s ≡ minus_one) ⊎ (s ≡ pos 0) ⊎ (s ≡ pos 1)

abbrev pub opposite : ℤ → ℤ
opposite (pos zero) = pos 0
opposite (pos (suc n)) = negsuc n
opposite (negsuc n) = pos (suc n)

pub opposite-IsStep : (s : ℤ) → IsStep s → IsStep (opposite s)
opposite-IsStep s h = elim h [
  | inl e ↦ rw e (inr (inr refl))
  | inr (inl e) ↦ rw e (inr (inl refl))
  | inr (inr e) ↦ rw e (inl refl)
]

-- The key is the two low words side by side.
cell_key-fields : (cx cy : ℤ) → cell_key cx cy ≡ low_word cx * 2 ^ 32 + low_word cy
unfolding cell_key
cell_key-fields cx cy =
    let top : shifted cx 32 ≡ low_word cx * 2 ^ 32 = omega arith in
    ap (λ x. bit_xor x (low_word cy)) top
    ∙ bit_xor-disjoint 32 (low_word cx) (low_word cy) (omega arith)

low_word-up : (c : ℤ) → low_word (c +ℤ pos 1) ≡ (low_word c + 1) % 2 ^ 32
unfolding ◌+ℤ◌
low_word-up (pos c) = ground arith
low_word-up (negsuc zero) = omega arith
low_word-up (negsuc (suc c)) = ground arith

low_word-down : (c : ℤ) → low_word (c +ℤ minus_one) ≡ (low_word c + 4294967295) % 2 ^ 32
unfolding ◌+ℤ◌
low_word-down (pos zero) = omega arith
low_word-down (pos (suc c)) = ground arith
low_word-down (negsuc c) = ground arith

low_word-same : (c : ℤ) → low_word (c +ℤ pos 0) ≡ low_word c
unfolding ◌+ℤ◌
low_word-same (pos c) = ground arith
low_word-same (negsuc c) = ground arith

module _ (c c' : ℤ) where
  abbrev Returns : ℤ → Type 0
  Returns s = low_word (c +ℤ s) ≡ low_word c' → low_word (c' +ℤ opposite s) ≡ low_word c

  low_word-opposite : (s : ℤ) → IsStep s → Returns s
  low_word-opposite s step = elim step [
    | inl e ↦ subst Returns (sym e) (λ h. omega (arith, low_word-up c', low_word-down c))
    | inr (inl e) ↦ subst Returns (sym e) (λ h. omega (arith, low_word-same c', low_word-same c))
    | inr (inr e) ↦ subst Returns (sym e) (λ h. omega (arith, low_word-up c, low_word-down c'))
  ]

-- A cell that is reached by two steps is left by the opposite steps.
pub cell_key-opposite :
    (cx cy cx' cy' dx dy : ℤ)
    → IsStep dx
    → IsStep dy
    → cell_key (cx +ℤ dx) (cy +ℤ dy) ≡ cell_key cx' cy'
    → cell_key (cx' +ℤ opposite dx) (cy' +ℤ opposite dy) ≡ cell_key cx cy
cell_key-opposite cx cy cx' cy' dx dy step step' h =
    let e = cell_key-fields (cx +ℤ dx) (cy +ℤ dy) in
    let e' = cell_key-fields cx' cy' in
    omega (
      arith,
      h,
      e,
      e',
      cell_key-fields cx cy,
      cell_key-fields (cx' +ℤ opposite dx) (cy' +ℤ opposite dy),
      low_word-opposite cx cx' dx step (omega (arith, h, e, e')),
      low_word-opposite cy cy' dy step' (omega (arith, h, e, e')),
    )

elem_append_iff :
    (b : ℤ) (xs ys : List ℤ)
    → (elem ℤ_discrete b (xs ++ ys) ≡ true)
      ↔ ((elem ℤ_discrete b xs ≡ true) ⊎ (elem ℤ_discrete b ys ≡ true))
elem_append_iff b xs ys = (
  elem_append_cases ℤ_discrete b xs ys,
  λ h. elim h [
    | inl l ↦ elem-append_left ℤ_discrete b xs ys l
    | inr r ↦ elem-append_right ℤ_discrete b xs ys r
  ],
)

pub elem-over_steps :
    (b : ℤ) (body : ℤ → List ℤ)
    → (elem ℤ_discrete b (over_steps body) ≡ true)
      ↔ ((s : ℤ) × IsStep s × (elem ℤ_discrete b (body s) ≡ true))
unfolding over_steps
elem-over_steps b body =
    let (split, join) = elem_append_iff b (body minus_one) (body (pos 0) ++ body (pos 1)) in
    let (split', join') = elem_append_iff b (body (pos 0)) (body (pos 1)) in
    (
      λ m. elim (split m) [
        | inl k ↦ (minus_one, inl refl, k)
        | inr r ↦ elim (split' r) [
          | inl k ↦ (pos 0, inr (inl refl), k)
          | inr k ↦ (pos 1, inr (inr refl), k)
        ]
      ],
      λ (s, step, k). elim step [
        | inl e ↦ join (inl (rw (← e) k))
        | inr (inl e) ↦ join (inr (join' (inl (rw (← e) k))))
        | inr (inr e) ↦ join (inr (join' (inr (rw (← e) k))))
      ],
    )

listed_in-push_at :
    (cells : List (ℕ × List ℕ)) (key k i : ℕ)
    → listed_in (push_at k i cells) key
      ≡ ite (ℕ_discrete k key) (listed_in cells key ++ i ∷ []) (listed_in cells key)
unfolding push_at
listed_in-push_at cells key k i = elim (Option-cases (find ℕ_discrete k cells)) [
  | inl e ↦ rw (push_at, e) (ground (arith, find-put ℕ_discrete k key (i ∷ []) cells))
  | inr (js, e) ↦ rw (push_at, e) (ground (arith, find-put ℕ_discrete k key (js ++ i ∷ []) cells))
]

elem-push_at :
    (cells : List (ℕ × List ℕ)) (key k j i : ℕ)
    → (elem ℕ_discrete j (listed_in (push_at k i cells) key) ≡ true)
      ↔ ((elem ℕ_discrete j (listed_in cells key) ≡ true) ⊎ ((k ≡ key) × (i ≡ j)))
unfolding elem
elem-push_at cells key k j i =
    let old = listed_in cells key in
    let last = elem_append_cases ℕ_discrete j old (i ∷ []) in
    let left = elem-append_left ℕ_discrete j old (i ∷ []) in
    let right = elem-append_right ℕ_discrete j old (i ∷ []) in
    elim (ℕ_discrete k key) [
      | yes e ↦ ground (arith, listed_in-push_at cells key k i, last, left, right)
      | no ne ↦ ground (arith, listed_in-push_at cells key k i)
    ]

module _ {W : Type 0} ⦃d : Double W⦄ (floor : W → ℤ) (size : W) where
  -- The node at a place of the map stands in the cell.
  pub record StandsIn (ns : List (Node W)) (idx key j : ℕ) : Type 0 where
    pub place : ℕ
    pub node : Node W
    pub listed : get_elem? ns place ≡ some node
    pub valid : is_negative node.id ≡ false
    pub inside : cell_of floor size node ≡ key
    pub numbered : idx + place ≡ j

  abbrev IsHead : Node W → ℕ → ℕ → ℕ → Type 0
  IsHead n idx key j = (is_negative n.id ≡ false) × (cell_of floor size n ≡ key) × (idx ≡ j)

  first-StandsIn :
      (n : Node W) (ns : List (Node W)) (idx key j : ℕ)
      → IsHead n idx key j
      → StandsIn (n ∷ ns) idx key j
  first-StandsIn n ns idx key j (fine, inside, at) = record {
    place = 0;
    node = n;
    listed = refl;
    valid = fine;
    inside = inside;
    numbered = omega (arith, at);
  }

  later-StandsIn :
      (n : Node W) (ns : List (Node W)) (idx key j : ℕ)
      → StandsIn ns (suc idx) key j
      → StandsIn (n ∷ ns) idx key j
  later-StandsIn n ns idx key j s = record {
    place = suc s.place;
    node = s.node;
    listed = s.listed;
    valid = s.valid;
    inside = s.inside;
    numbered = omega (arith, s.numbered);
  }

  StandsIn-cases :
      (n : Node W) (ns : List (Node W)) (idx key j place : ℕ) (o : Node W)
      → get_elem? (n ∷ ns) place ≡ some o
      → is_negative o.id ≡ false
      → cell_of floor size o ≡ key
      → idx + place ≡ j
      → IsHead n idx key j ⊎ StandsIn ns (suc idx) key j
  StandsIn-cases n ns idx key j zero o listed valid inside at =
      let e : n ≡ o = cc in inl (rw e valid, rw e inside, omega (arith, at))
  StandsIn-cases n ns idx key j (suc place) o listed valid inside at = inr (record {
    place = place;
    node = o;
    listed = listed;
    valid = valid;
    inside = inside;
    numbered = omega (arith, at);
  })

  elem-group_step :
      (n : Node W) (idx : ℕ) (cells : List (ℕ × List ℕ)) (key j : ℕ)
      → (elem ℕ_discrete j (
            listed_in
              (if is_negative n.id then cells else push_at (cell_of floor size n) idx cells)
              key)
          ≡ true)
        ↔ ((elem ℕ_discrete j (listed_in cells key) ≡ true) ⊎ IsHead n idx key j)
  elem-group_step n idx cells key j = elim (Bool-cases (is_negative n.id)) [
    | inl bad ↦ rw bad (inl, λ h. elim h [ inl m ↦ m | inr (e, _, _) ↦ cc ])
    | inr fine ↦ rw fine (
        let (split, join) = elem-push_at cells key (cell_of floor size n) j idx in
        (
          λ m. elim (split m) [ inl l ↦ inl l | inr (k, e) ↦ inr (refl, k, e) ],
          λ h. join (elim h [ inl l ↦ inl l | inr (_, k, e) ↦ inr (k, e) ]),
        ))
  ]

  -- A cell lists the places of its nodes.
  pub elem-group_by_cell :
      (ns : List (Node W)) (idx : ℕ) (cells : List (ℕ × List ℕ)) (key j : ℕ)
      → (elem ℕ_discrete j (listed_in (group_by_cell floor size idx ns cells) key) ≡ true)
        ↔ ((elem ℕ_discrete j (listed_in cells key) ≡ true) ⊎ StandsIn ns idx key j)
  unfolding group_by_cell
  elem-group_by_cell [] idx cells key j =
      (inl, λ h. elim h [ inl m ↦ m | inr s ↦ absurd (ground (arith, s.listed)) ])
  elem-group_by_cell (n ∷ ns) idx cells key j =
      let next = if is_negative n.id then cells else push_at (cell_of floor size n) idx cells in
      let (split, join) = elem-group_step n idx cells key j in
      let (split', join') = elem-group_by_cell ns (suc idx) next key j in
      (
        λ m. elim (split' m) [
          | inl old ↦ elim (split old) [
            | inl l ↦ inl l
            | inr h ↦ inr (first-StandsIn n ns idx key j h)
          ]
          | inr s ↦ inr (later-StandsIn n ns idx key j s)
        ],
        λ h. elim h [
          | inl l ↦ join' (inl (join (inl l)))
          | inr s ↦
              elim (StandsIn-cases n ns idx key j s.place s.node s.listed s.valid s.inside
                s.numbered) [
                  | inl first ↦ join' (inl (join (inr first)))
                  | inr later ↦ join' (inr later)
                ]
        ],
      )
