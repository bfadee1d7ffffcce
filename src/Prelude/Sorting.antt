-- ===== src/Prelude/Sorting.antt =====
-- `std::sort`, and the idiom `sort; erase(unique(...))`. The order is a Boolean test.
use mathlib.Core.Path.{◌≡◌, refl, sym, ap, ◌∙◌, subst}
use mathlib.Core.Logic.{◌≢◌, inl, inr, ite, if_pos, if_neg}
use mathlib.Core.Bool.{Bool, true, false}
use mathlib.Core.List.{List, [], ◌∷◌}
use native.Mathlib.Omega.{arith}
use agvscheduling.Prelude.Tests.{if◌then◌else◌, leb, Bool-cases}
use agvscheduling.Prelude.Ints.{leb_ℤ}
use agvscheduling.Prelude.Lists.{elem}

module _ {ℓ} {A : Type ℓ} (le : A → A → Bool) where
  unfoldable pub insert : A → List A → List A
  insert a [] = a ∷ []
  insert a (x ∷ xs) = if le a x then a ∷ x ∷ xs else x ∷ insert a xs

  unfoldable pub sort : List A → List A
  sort [] = []
  sort (x ∷ xs) = insert x (sort xs)

module _ {ℓ} {A : Type ℓ} (dec : Discrete A) where
  -- `std::unique` keeps the first of each run of equal elements.
  unfoldable pub unique_after : A → List A → List A
  unique_after a [] = []
  unique_after a (x ∷ xs) = ite (dec x a) (unique_after a xs) (x ∷ unique_after x xs)

  unfoldable pub unique : List A → List A
  unfolding unique_after
  unique [] = []
  unique (x ∷ xs) = x ∷ unique_after x xs

  module _ (le : A → A → Bool) where
    unfoldable pub sort_unique : List A → List A
    unfolding sort unique insert
    sort_unique xs = unique (sort le xs)

    elem-insert : (a x : A) (xs : List A) → elem dec a (insert le x xs) ≡ elem dec a (x ∷ xs)
    unfolding elem insert
    elem-insert a x [] = refl
    elem-insert a x (y ∷ ys) = ground (arith, elem-insert a x ys)

    elem-sort : (a : A) (xs : List A) → elem dec a (sort le xs) ≡ elem dec a xs
    unfolding elem sort
    elem-sort a [] = refl
    elem-sort a (x ∷ xs) = ground (arith, elem-insert a x (sort le xs), elem-sort a xs)

    elem-unique_after :
        (a b : A) (xs : List A) → elem dec a (b ∷ unique_after b xs) ≡ elem dec a (b ∷ xs)
    unfolding elem unique_after
    elem-unique_after a b [] = refl
    elem-unique_after a b (x ∷ xs) = elim (dec x b) [
      | yes e ↦
          rw (if_pos (dec x b) e (unique_after b xs) (x ∷ unique_after x xs))
            (elem-unique_after a b xs ∙ drop_equal (elem dec a xs) e)
      | no ne ↦
          rw (if_neg (dec x b) ne (unique_after b xs) (x ∷ unique_after x xs))
            (ap (ite (dec b a) true) (elem-unique_after a x xs))
    ]
      where
        drop_equal :
            (r : Bool) → x ≡ b → ite (dec b a) true r ≡ ite (dec b a) true (ite (dec x a) true r)
        drop_equal r e = ground arith

    elem-unique : (a : A) (xs : List A) → elem dec a (unique xs) ≡ elem dec a xs
    unfolding unique
    elem-unique a [] = refl
    elem-unique a (x ∷ xs) = elem-unique_after a x xs

    -- Sorting and removing duplicates keep the elements.
    pub elem-sort_unique : (a : A) (xs : List A) → elem dec a (sort_unique xs) ≡ elem dec a xs
    unfolding sort_unique
    elem-sort_unique a xs = ground (arith, elem-unique a (sort le xs), elem-sort a xs)

-- A total order given by a test.
pub record IsOrder {ℓ} {A : Type ℓ} (le : A → A → Bool) : Type ℓ where
  pub total : (a b : A) → le a b ≡ false → le b a ≡ true

module _ {ℓ} {A : Type ℓ} (le : A → A → Bool) where
  abbrev LeHead : A → List A → Type 0
  LeHead a [] = Unit
  LeHead a (x ∷ xs) = le a x ≡ true

  abbrev pub IsSorted : List A → Type 0
  IsSorted [] = Unit
  IsSorted (x ∷ xs) = LeHead x xs × IsSorted xs

  abbrev pub LtHead : A → List A → Type ℓ
  LtHead a [] = Unit
  LtHead a (x ∷ xs) = (le a x ≡ true) × (a ≢ x)

  -- Each element is strictly below the next.
  abbrev pub IsAscending : List A → Type ℓ
  IsAscending [] = Unit
  IsAscending (x ∷ xs) = LtHead x xs × IsAscending xs

  LeHead-insert : (b a : A) (xs : List A) → le b a ≡ true → LeHead b xs → LeHead b (insert le a xs)
  unfolding insert
  LeHead-insert b a [] h k = h
  LeHead-insert b a (x ∷ xs) h k = elim (Bool-cases (le a x)) [ inl e ↦ rw e h | inr e ↦ rw e k ]

  module _ (o : IsOrder le) where
    insert-IsSorted : (a : A) (xs : List A) → IsSorted xs → IsSorted (insert le a xs)
    unfolding insert
    insert-IsSorted a [] s = (tt, tt)
    insert-IsSorted a (x ∷ xs) s = elim (Bool-cases (le a x)) [
      | inl e ↦ rw e (e, s)
      | inr e ↦ rw e (LeHead-insert x a xs (o.total a x e) s.0, insert-IsSorted a xs s.1)
    ]

    pub sort-IsSorted : (xs : List A) → IsSorted (sort le xs)
    unfolding sort
    sort-IsSorted [] = tt
    sort-IsSorted (x ∷ xs) = insert-IsSorted x (sort le xs) (sort-IsSorted xs)

  module _ (dec : Discrete A) where
    unique_after-IsAscending :
        (b : A) (xs : List A) → LeHead b xs → IsSorted xs → IsAscending (b ∷ unique_after dec b xs)
    unfolding unique_after
    unique_after-IsAscending b [] h s = (tt, tt)
    unique_after-IsAscending b (x ∷ xs) h s = elim (dec x b) [
      | yes e ↦ rw (if_pos _ e) (unique_after-IsAscending b xs (subst (λ c. LeHead c xs) e s.0) s.1)
      | no ne ↦ rw (if_neg _ ne) ((h, λ e. ne (sym e)), unique_after-IsAscending x xs s.0 s.1)
    ]

    unique-IsAscending : (xs : List A) → IsSorted xs → IsAscending (unique dec xs)
    unfolding unique
    unique-IsAscending [] s = tt
    unique-IsAscending (x ∷ xs) s = unique_after-IsAscending x xs s.0 s.1

    -- The result is strictly ascending.
    pub sort_unique-IsAscending :
        (o : IsOrder le) (xs : List A) → IsAscending (sort_unique dec le xs)
    unfolding sort_unique
    sort_unique-IsAscending o xs = unique-IsAscending (sort le xs) (sort-IsSorted o xs)

pub leb-IsOrder : IsOrder leb
leb-IsOrder = record { total = λ a b h. ground arith }

pub leb_ℤ-IsOrder : IsOrder leb_ℤ
leb_ℤ-IsOrder = record { total = λ a b h. ground arith }
