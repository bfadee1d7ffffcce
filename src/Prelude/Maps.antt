-- ===== src/Prelude/Maps.antt =====
-- `std::unordered_map` as an association list: its iteration order is unspecified, and nothing that
-- is proved depends on it. `erase` removes every entry of the key.
use Prim.Native.String.{String}
use mathlib.Core.Path.{◌≡◌, refl}
use mathlib.Core.Logic.{ite, inl, inr}
use mathlib.Core.Bool.{Bool, false}
use mathlib.Core.List.{List, [], ◌∷◌}
use mathlib.Core.Option.{Option, none, some}
use native.Mathlib.Omega.{arith}
use text.Mathlib.Text.{◌==◌ as str_eq}
use text.Mathlib.TextEquality.{eq_iff}
use agvscheduling.Prelude.Tests.{Bool-cases, if◌then◌else◌}

pub ne_of_test : (a b : String) → str_eq a b ≡ false → ¬ (a ≡ b)
ne_of_test a b h p = ground (arith, (eq_iff a b).1 p)

unfoldable pub string_discrete : Discrete String
string_discrete a b = elim (Bool-cases (str_eq a b)) [
  | inl e ↦ yes ((eq_iff a b).0 e)
  | inr e ↦ no (ne_of_test a b e)
]

module _ {ℓ} {K V : Type ℓ} (dec : Discrete K) where
  unfoldable pub find : K → List (K × V) → Option V
  find k [] = none
  find k ((j, v) ∷ m) = ite (dec j k) (some v) (find k m)

  unfoldable pub erase : K → List (K × V) → List (K × V)
  erase k [] = []
  erase k ((j, v) ∷ m) = ite (dec j k) (erase k m) ((j, v) ∷ erase k m)

  -- `m[k] = v`
  unfoldable pub put : K → V → List (K × V) → List (K × V)
  put k v [] = (k, v) ∷ []
  put k v ((j, w) ∷ m) = ite (dec j k) ((k, v) ∷ m) ((j, w) ∷ put k v m)

  -- The loop `for (it = ...) if (drop(*it)) it = m.erase(it); else ++it;`
  unfoldable pub erase_if : (K → V → Bool) → List (K × V) → List (K × V)
  erase_if drop [] = []
  erase_if drop ((j, v) ∷ m) = if drop j v then erase_if drop m else (j, v) ∷ erase_if drop m

  pub find-erase : (k j : K) (m : List (K × V)) → find j (erase k m) ≡ ite (dec k j) none (find j m)
  unfolding find erase
  find-erase k j [] = ground arith
  find-erase k j ((i, v) ∷ m) = ground (arith, find-erase k j m)

  pub find-put :
      (k j : K) (v : V) (m : List (K × V)) → find j (put k v m) ≡ ite (dec k j) (some v) (find j m)
  unfolding find put
  find-put k j v [] = ground arith
  find-put k j v ((i, w) ∷ m) = ground (arith, find-put k j v m)

  -- No key stands twice, as in every `unordered_map`.
  abbrev pub HasUniqueKeys : List (K × V) → Type ℓ
  HasUniqueKeys [] = Unit
  HasUniqueKeys ((j, v) ∷ m) = (find j m ≡ none) × HasUniqueKeys m

  abbrev pub keep_unless : (K → V → Bool) → K → Option V → Option V
  keep_unless drop k none = none
  keep_unless drop k (some v) = if drop k v then none else some v

  pub erase-HasUniqueKeys : (k : K) (m : List (K × V)) → HasUniqueKeys m → HasUniqueKeys (erase k m)
  unfolding erase
  erase-HasUniqueKeys k [] u = tt
  erase-HasUniqueKeys k ((i, v) ∷ m) u =
      ground (arith, find-erase k i m, erase-HasUniqueKeys k m u.1)

  pub put-HasUniqueKeys :
      (k : K) (v : V) (m : List (K × V)) → HasUniqueKeys m → HasUniqueKeys (put k v m)
  unfolding put find
  put-HasUniqueKeys k v [] u = (refl, tt)
  put-HasUniqueKeys k v ((i, w) ∷ m) u =
      ground (arith, find-put k i v m, put-HasUniqueKeys k v m u.1)

  find-erase_if_absent :
      (drop : K → V → Bool) (j : K) (m : List (K × V))
      → find j m ≡ none
      → find j (erase_if drop m) ≡ none
  unfolding find erase_if
  find-erase_if_absent drop j [] h = refl
  find-erase_if_absent drop j ((i, v) ∷ m) h = ground (arith, find-erase_if_absent drop j m)

  pub find-erase_if :
      (drop : K → V → Bool) (j : K) (m : List (K × V))
      → HasUniqueKeys m
      → find j (erase_if drop m) ≡ keep_unless drop j (find j m)
  unfolding find erase_if
  find-erase_if drop j [] u = refl
  find-erase_if drop j ((i, v) ∷ m) u = elim (dec i j) [
    | yes e ↦ ground (arith, find-erase_if_absent drop i m)
    | no ne ↦ ground (arith, find-erase_if drop j m)
  ]

  pub erase_if-HasUniqueKeys :
      (drop : K → V → Bool) (m : List (K × V)) → HasUniqueKeys m → HasUniqueKeys (erase_if drop m)
  unfolding erase_if
  erase_if-HasUniqueKeys drop [] u = tt
  erase_if-HasUniqueKeys drop ((i, v) ∷ m) u =
      ground (arith, find-erase_if_absent drop i m, erase_if-HasUniqueKeys drop m u.1)
