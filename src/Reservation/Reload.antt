-- ===== src/Reservation/Reload.antt =====
-- The table of the running service: a new map calls configureDistanceConflict on the table that is in
-- use, between the other calls.
use agvscheduling.Prelude.{ℕ, ◌≤◌, ◌≡◌, ℤ, String, List, [], ◌∷◌, ◌⊎◌, inl, inr, Double}
use agvscheduling.MapInfo.{MapInfo}
use agvscheduling.Reservation.{Table}
use agvscheduling.Reservation.Exclusion.{Conflicts, IsSymmetric, Holds}
use agvscheduling.Reservation.WellFormed.{IsWellFormed}
use agvscheduling.Reservation.History.{
  Call, step, step-IsWellFormed, step-IsSymmetric, step-IfConflicting,
}
use agvscheduling.Reservation.Distance.{configure_distance_conflict}
use agvscheduling.Reservation.Distance.Filled.{HasUniqueIds}
use agvscheduling.Reservation.Distance.Configured.{IsEven, configure_distance_conflict-IsSymmetric}

pub data Event (W : Type 0) : Type 0 where
  called : Call → Event W
  reloaded : MapInfo W → W → Event W

-- No event comes before the time of the last one, and no map names a node twice.
abbrev pub AreFit : {W : Type 0} → ℕ → List (ℕ × Event W) → Type 0
AreFit now [] = Unit
AreFit now ((at, called c) ∷ es) = (now ≤ at) × AreFit at es
AreFit now ((at, reloaded m mm) ∷ es) = (now ≤ at) × HasUniqueIds m.nodes × AreFit at es

abbrev pub last_time : {W : Type 0} → ℕ → List (ℕ × Event W) → ℕ
last_time now [] = now
last_time now ((at, e) ∷ es) = last_time at es

module _ {W : Type 0} ⦃d : Double W⦄ (floor : W → ℤ) (hash : ℤ → ℕ) where
  unfoldable pub handle : Table → ℕ → Event W → Table
  handle t now (called c) = step hash t now c
  handle t now (reloaded m mm) = configure_distance_conflict floor t m mm

  unfoldable pub serve : Table → List (ℕ × Event W) → Table
  unfolding handle
  serve t [] = t
  serve t ((at, e) ∷ es) = serve (handle t at e) es

  -- The table and the time right after the last change of the map, from those of the one before.
  unfoldable pub last_configured : Table × ℕ → Table → List (ℕ × Event W) → Table × ℕ
  unfolding handle
  last_configured last t [] = last
  last_configured last t ((at, called c) ∷ es) = last_configured last (handle t at (called c)) es
  last_configured last t ((at, reloaded m mm) ∷ es) =
      let u = handle t at (reloaded m mm) in last_configured (u, at) u es

  -- Two AGVs held two nodes that conflict.
  abbrev pub HeldTogether : Table × ℕ → ℤ → ℤ → String → String → Type 0
  HeldTogether (t, now) a b x y = Holds hash t now a x × Holds hash t now b y × Conflicts t a b

  -- Where AGVs hold conflicting nodes it is one AGV, or they held them so since a given moment.
  abbrev pub IsSettled : Table × ℕ → Table → ℕ → Type 0
  IsSettled last t now =
      (a b : ℤ) (x y : String)
      → Holds hash t now a x
      → Holds hash t now b y
      → Conflicts t a b
      → (x ≡ y) ⊎ HeldTogether last a b x y

  configure-IsWellFormed :
      (t : Table) (m : MapInfo W) (mm : W)
      → IsWellFormed hash t
      → IsWellFormed hash (configure_distance_conflict floor t m mm)
  unfolding configure_distance_conflict
  configure-IsWellFormed t m mm w = record { unique = w.unique; placed = w.placed }

  serve-IsSettled :
      (es : List (ℕ × Event W)) (last : Table × ℕ) (t : Table) (now : ℕ)
      → IsEven d
      → AreFit now es
      → IsWellFormed hash t
      → IsSymmetric t
      → IsSettled last t now
      → IsWellFormed hash (serve t es)
        × IsSettled (last_configured last t es) (serve t es) (last_time now es)
  unfolding serve last_configured handle
  serve-IsSettled [] last t now even fit w s h = (w, h)
  serve-IsSettled ((at, called c) ∷ es) last t now even fit w s h =
      serve-IsSettled es last (step hash t at c) at even fit.1 (step-IsWellFormed hash t at c w)
        (step-IsSymmetric hash t at c s)
        (λ a b x y.
          step-IfConflicting hash ((x ≡ y) ⊎ HeldTogether last a b x y) a b x y t now at c fit.0 w s
            (λ e. inl e) (h a b x y))
  serve-IsSettled ((at, reloaded m mm) ∷ es) last t now even fit w s h =
      let u = configure_distance_conflict floor t m mm in
      serve-IsSettled es (u, at) u at even fit.2 (configure-IsWellFormed t m mm w)
        (configure_distance_conflict-IsSymmetric floor m mm t even fit.1)
        (λ a b x y hx hy k. inr (hx, hy, k))

  -- Whatever events a table meets, changes of the map among them, at times that do not fall, where the
  -- square of a difference does not depend on its order, no map has a valid id twice, and the shards
  -- are well formed and the conflicts symmetric at the start: at the time of the last event the shards
  -- are well formed; and two different AGVs hold nodes that conflict only if they held them, and
  -- these conflicted, right after the last change of the map, or at the start where the map does not
  -- change.
  pub serve-keeps_apart :
      (es : List (ℕ × Event W)) (t : Table) (now : ℕ)
      → IsEven d
      → AreFit now es
      → IsWellFormed hash t
      → IsSymmetric t
      → IsWellFormed hash (serve t es)
        × ((a b : ℤ) (x y : String)
            → Holds hash (serve t es) (last_time now es) a x
            → Holds hash (serve t es) (last_time now es) b y
            → Conflicts (serve t es) a b
            → (x ≡ y) ⊎ HeldTogether (last_configured (t, now) t es) a b x y)
  serve-keeps_apart es t now even fit w s =
      serve-IsSettled es (t, now) t now even fit w s (λ a b x y hx hy k. inr (hx, hy, k))
