-- ===== src/UnionFind.antt =====
-- The class UnionFind of include/data/MapInfo.h and src/data/MapInfo.cpp. The map calls it with
-- node indices, which are not negative, so an index is a natural number and the -1 of `find` is
-- `none`. The counter `steps` of its loops is the fuel here: the code stops at the same step.
pub mod Roots
mod Tests
use agvscheduling.Prelude.{
  ℕ, zero, suc, ◌+◌, Bool, true, false, List, [], ◌∷◌, ◌++◌, Option, none, some, if◌then◌else◌, ltb,
  ◌==◌, length, get_or, set, replicate,
}

pub record UnionFind : Type 0 where
  pub parent : List ℕ
  pub rank : List ℕ

-- `parent[i] = i` for each index below `n`.
abbrev pub indices : ℕ → List ℕ
indices zero = []
indices (suc n) = indices n ++ n ∷ []

pub make : ℕ → UnionFind
make n = record { parent = indices n; rank = replicate n 0 }

-- `parent[x]`, for an index in range.
abbrev pub parent_of : List ℕ → ℕ → ℕ
parent_of parent x = get_or parent x 0

-- The first loop of `find`, with the steps that are left.
unfoldable pub climb : ℕ → List ℕ → ℕ → Option ℕ
climb zero parent root = if parent_of parent root == root then some root else none
climb (suc steps) parent root =
    let higher = climb steps parent (parent_of parent root) in
    if parent_of parent root == root
    then some root
    else if ltb (parent_of parent root) (length parent)
    then higher
    else none

-- `find` of a table that is not changed.
unfoldable pub find_root : UnionFind → ℕ → Option ℕ
unfolding climb
find_root u x = if ltb x (length u.parent) then climb (length u.parent) u.parent x else none

-- The second loop: each node of the path gets the root for its parent.
pub compress : ℕ → List ℕ → ℕ → ℕ → List ℕ
compress zero parent root x = parent
compress (suc steps) parent root x =
    let next = compress steps (set parent x root) root (parent_of parent x) in
    if parent_of parent x == x
    then parent
    else if ltb (parent_of parent x) (length parent)
    then next
    else parent

-- What `find` leaves and returns, for the root that it has found.
abbrev pub compressed : UnionFind → ℕ → Option ℕ → UnionFind × Option ℕ
compressed u x none = (u, none)
compressed u x (some root) =
    (record u { parent = compress (suc (length u.parent)) u.parent root x }, some root)

-- `find` while the map is built.
pub find_compressing : UnionFind → ℕ → UnionFind × Option ℕ
unfolding find_root compress
find_compressing u x = compressed u x (find_root u x)

-- The end of `unite`: the root of lower rank goes under the other.
pub link : UnionFind → ℕ → ℕ → UnionFind
link u x y =
    if ltb (get_or u.rank x 0) (get_or u.rank y 0)
    then record u { parent = set u.parent x y }
    else record u {
      parent = set u.parent y x;
      rank =
          if get_or u.rank x 0 == get_or u.rank y 0
          then set u.rank x (get_or u.rank x 0 + 1)
          else u.rank;
    }

-- Two roots that may be missing.
abbrev pub link_roots : UnionFind → Option ℕ → Option ℕ → UnionFind
link_roots u none ry = u
link_roots u (some rx) none = u
link_roots u (some rx) (some ry) = if rx == ry then u else link u rx ry

pub unite : UnionFind → ℕ → ℕ → UnionFind
unfolding find_compressing link
unite u x y =
    let (ux, rx) = find_compressing u x in
    let (uy, ry) = find_compressing ux y in link_roots uy rx ry

abbrev pub same_root : Option ℕ → Option ℕ → Bool
same_root none ry = false
same_root (some rx) none = false
same_root (some rx) (some ry) = rx == ry

unfoldable pub is_connected : UnionFind → ℕ → ℕ → Bool
unfolding find_root
is_connected u x y = same_root (find_root u x) (find_root u y)
