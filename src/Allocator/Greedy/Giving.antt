-- ===== src/Allocator/Greedy/Giving.antt =====
-- How often a task stands in the chains, and which legs the chains have.
use agvscheduling.Prelude.{
  ℕ, zero, suc, ◌+◌, ◌<◌, ◌≡◌, ◌≢◌, refl, ap, Bool, true, false, ℤ, ℤ_discrete, List, [], ◌∷◌, ◌++◌,
  Option, none, some, arith, ite, length, get_or, set, Double,
}
use agvscheduling.Fleet.{Task}
use agvscheduling.Cost.{SparseCost}
use agvscheduling.Allocator.{leg}
use agvscheduling.Allocator.Greedy.{last_of}

module _ {ℓ} {A : Type ℓ} where
  pub get_or-set : (xs : List A) (i : ℕ) (v x : A) → i < length xs → get_or (set xs i v) i x ≡ v
  get_or-set [] i v x h = absurd (omega arith)
  get_or-set (y ∷ ys) zero v x h = refl
  get_or-set (y ∷ ys) (suc i) v x h = get_or-set ys i v x (omega arith)

  pub get_or-set_other :
      (xs : List A) (i j : ℕ) (v x : A) → i ≢ j → get_or (set xs i v) j x ≡ get_or xs j x
  get_or-set_other [] i j v x h = refl
  get_or-set_other (y ∷ ys) zero zero v x h = absurd (h refl)
  get_or-set_other (y ∷ ys) zero (suc j) v x h = refl
  get_or-set_other (y ∷ ys) (suc i) zero v x h = refl
  get_or-set_other (y ∷ ys) (suc i) (suc j) v x h = get_or-set_other ys i j v x (λ e. h (ap suc e))

-- Where the default is true, false is read in range only.
pub get_or-in_range : (bs : List Bool) (i : ℕ) → get_or bs i true ≡ false → i < length bs
get_or-in_range [] i h = cc
get_or-in_range (b ∷ bs) zero h = omega arith
get_or-in_range (b ∷ bs) (suc i) h = omega (arith, get_or-in_range bs i h)

pub get_or-default : (bs : List Bool) (i : ℕ) → get_or bs i true ≡ false → get_or bs i false ≡ false
get_or-default [] i h = refl
get_or-default (b ∷ bs) zero h = h
get_or-default (b ∷ bs) (suc i) h = get_or-default bs i h

-- How often a task stands in a chain, and in all of them.
unfoldable pub occurrences : ℤ → List ℤ → ℕ
occurrences idx [] = 0
occurrences idx (x ∷ xs) = ite (ℤ_discrete x idx) 1 0 + occurrences idx xs

unfoldable pub times : ℤ → List (List ℤ) → ℕ
unfolding occurrences
times idx [] = 0
times idx (c ∷ chains) = occurrences idx c + times idx chains

occurrences-append :
    (idx : ℤ) (xs ys : List ℤ)
    → occurrences idx (xs ++ ys) ≡ occurrences idx xs + occurrences idx ys
unfolding occurrences
occurrences-append idx [] ys = omega arith
occurrences-append idx (x ∷ xs) ys = omega (arith, occurrences-append idx xs ys)

-- A task that is put at the end of a chain is there once more.
pub times-push :
    (idx x : ℤ) (chains : List (List ℤ)) (a : ℕ)
    → a < length chains
    → times idx (set chains a (get_or chains a [] ++ x ∷ []))
      ≡ times idx chains + ite (ℤ_discrete x idx) 1 0
unfolding times occurrences
times-push idx x [] a h = absurd (omega arith)
times-push idx x (c ∷ chains) zero h = omega (arith, occurrences-append idx c (x ∷ []))
times-push idx x (c ∷ chains) (suc a) h = omega (arith, times-push idx x chains a (omega arith))

abbrev last_from : Option ℤ → List ℤ → Option ℤ
last_from prev [] = prev
last_from prev (x ∷ xs) = last_from (some x) xs

last_from-last_of : (x : ℤ) (xs : List ℤ) → last_from (some x) xs ≡ last_of (x ∷ xs)
unfolding last_of
last_from-last_of x [] = refl
last_from-last_of x (y ∷ ys) = last_from-last_of y ys

pub last_from_start : (xs : List ℤ) → last_from none xs ≡ last_of xs
unfolding last_of
last_from_start [] = refl
last_from_start (x ∷ xs) = last_from-last_of x xs

module _ {W : Type 0} ⦃d : Double W⦄ (t : SparseCost W) (tasks : List Task) (amr : ℕ) where
  -- The cost of each leg of a chain is finite, from the task before.
  abbrev pub AreFinite : Option ℤ → List ℤ → Type 0
  AreFinite prev [] = Unit
  AreFinite prev (x ∷ xs) = (d.is_finite (leg t tasks amr prev x) ≡ true) × AreFinite (some x) xs

  append-AreFinite :
      (prev : Option ℤ) (xs : List ℤ) (x : ℤ)
      → AreFinite prev xs
      → d.is_finite (leg t tasks amr (last_from prev xs) x) ≡ true
      → AreFinite prev (xs ++ x ∷ [])
  append-AreFinite prev [] x h k = (k, tt)
  append-AreFinite prev (y ∷ ys) x h k = (h.0, append-AreFinite (some y) ys x h.1 k)

  pub push-AreFinite :
      (xs : List ℤ) (x : ℤ)
      → AreFinite none xs
      → d.is_finite (leg t tasks amr (last_of xs) x) ≡ true
      → AreFinite none (xs ++ x ∷ [])
  push-AreFinite xs x h k = append-AreFinite none xs x h (rw (last_from_start xs) k)
