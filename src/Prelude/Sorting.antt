-- ===== src/Prelude/Sorting.antt =====
-- `sort.Slice` by a numeric key, and the duplicate-free sorted id list that the simulator
-- (backend/internal/algorithm/simulator.go, sortedUnique) and the services
-- (backend/internal/service/common.go, uniqueIDs) build by one and the same code.
use Prim.Native.Nat.{ℕ, ◌≤◌, ◌<◌}
use mathlib.Core.Bool.{Bool, true, false, not, ◌&&◌}
use mathlib.Core.List.{List, [], ◌∷◌, Memᴰ}
use cert_rollover_impact_ass.Prelude.Tests.{ltb, leb, if◌then◌else◌}
use cert_rollover_impact_ass.Prelude.Lists.{All}
use cert_rollover_impact_ass.Prelude.Maps.{IdSet, insert, has}
pub mod Laws

module _ {ℓ} {A : Type ℓ} (key : A → ℕ) where
  insert_by : A → List A → List A
  insert_by x [] = x ∷ []
  insert_by x (y ∷ ys) = if leb (key x) (key y) then x ∷ y ∷ ys else y ∷ insert_by x ys

  -- `sort.Slice(xs, func(i, j int) bool { return key(xs[i]) < key(xs[j]) })`. Go leaves the order of
  -- equal keys open; this sort keeps it. Where the keys are distinct the result is the only one.
  unfoldable pub sort_by : List A → List A
  unfolding insert_by
  sort_by [] = []
  sort_by (x ∷ xs) = insert_by x (sort_by xs)

-- the loop that skips 0 and what was seen before
unique : IdSet → List ℕ → List ℕ
unique seen [] = []
unique seen (value ∷ values) =
    let fresh = ltb 0 value && not (has seen value) in
    let rest = unique (if fresh then insert value true seen else seen) values in
    if fresh then value ∷ rest else rest

unfoldable pub sorted_unique : List ℕ → List ℕ
unfolding unique sort_by
sorted_unique values = sort_by (λ v. v) (unique [] values)

-- Each member is smaller than all that follow it.
abbrev pub IsIncreasing : List ℕ → Type 0
IsIncreasing [] = Unit
IsIncreasing (x ∷ xs) = All (λ y. x < y) xs × IsIncreasing xs

-- No member is larger than one that follows it.
abbrev pub IsSorted : List ℕ → Type 0
IsSorted [] = Unit
IsSorted (x ∷ xs) = All (λ y. x ≤ y) xs × IsSorted xs
