-- ===== src/Prelude/Maps.antt =====
-- A Go map with uint keys, as an association list: the newest entry of a key stands first.
use Prim.Native.Nat.{ℕ}
use mathlib.Core.Path.{◌≡◌, refl, sym}
use mathlib.Core.Bool.{Bool, true, false}
use mathlib.Core.Option.{Option, none, some}
use mathlib.Core.List.{List, [], ◌∷◌, map, Memᴰ}
use mathlib.Core.Logic.{◌≢◌, ◌↔◌, ◌⊎◌, inl, inr, ⊎_elim}
use native.Mathlib.Decide.{ℕ_discrete}
use native.Mathlib.Omega.{arith}
use cert_rollover_impact_ass.Prelude.Tests.{◌==◌, if◌then◌else◌}
use cert_rollover_impact_ass.Prelude.Lists.{Memᴰ-cons, Memᴰ-here, Memᴰ-there, not-Memᴰ-nil}

abbrev pub Map {ℓ} : Type ℓ → Type ℓ
Map V = List (ℕ × V)

module _ {ℓ} {V : Type ℓ} where
  -- `v, ok := m[k]`
  abbrev pub lookup : ℕ → Map V → Option V
  lookup k [] = none
  lookup k ((j, v) ∷ m) = if k == j then some v else lookup k m

  -- `m[k] = v`
  abbrev pub insert : ℕ → V → Map V → Map V
  insert k v m = (k, v) ∷ m

  -- `m[k]`, which is the zero value at a missing key
  abbrev pub get_or : V → ℕ → Map V → V
  get_or d k m = elim (lookup k m) [ none ↦ d | some v ↦ v ]

  abbrev pub keys : Map V → List ℕ
  keys m = map (λ e. e.0) m

  pub lookup_mem : (k : ℕ) (m : Map V) → lookup k m ≢ none → Memᴰ k (keys m)
  lookup_mem k [] h = absurd (h refl)
  lookup_mem k ((j, v) ∷ m) h = ground (arith, lookup_mem k m, Memᴰ-cons k j (keys m))

  pub lookup-none_of_not_mem : (k : ℕ) (m : Map V) → ¬ Memᴰ k (keys m) → lookup k m ≡ none
  lookup-none_of_not_mem k [] h = refl
  lookup-none_of_not_mem k ((j, v) ∷ m) h =
      ground (arith, lookup-none_of_not_mem k m, Memᴰ-cons k j (keys m))

-- A set of ids, `map[uint]bool`.
abbrev pub IdSet : Type 0
IdSet = Map Bool

abbrev pub has : IdSet → ℕ → Bool
has s k = get_or false k s

-- The loop `for _, x := range xs { m[key(x)] = value(x) }`.
module _ {ℓ κ} {A : Type ℓ} {V : Type κ} (key : A → ℕ) (value : A → V) where
  abbrev pub index_from : Map V → List A → Map V
  index_from m [] = m
  index_from m (x ∷ xs) = index_from (insert (key x) (value x) m) xs

  -- What the index holds comes from the list, or was there before.
  pub index_from_origin :
      (m : Map V) (xs : List A) (k : ℕ) (v : V)
      → lookup k (index_from m xs) ≡ some v
      → (lookup k m ≡ some v) ⊎ ((x : A) × Memᴰ x xs × (key x ≡ k) × (value x ≡ v))
  index_from_origin m [] k v h = inl h
  index_from_origin m (x ∷ xs) k v h =
      elim (index_from_origin (insert (key x) (value x) m) xs k v h) [
        | inl now ↦ elim (ℕ_discrete k (key x)) [
          | yes e ↦ inr (x, Memᴰ-here x xs, sym e, ground arith)
          | no e ↦ inl (ground arith)
        ]
        | inr (y, y_in, e, f) ↦ inr (y, Memᴰ-there x y_in, e, f)
      ]

  -- The keys of the index are those of the list and those that were there.
  pub mem-keys-index_from :
      (m : Map V) (xs : List A) (k : ℕ)
      → Memᴰ k (keys (index_from m xs)) ↔ (Memᴰ k (keys m) ⊎ Memᴰ k (map key xs))
  mem-keys-index_from m [] k = (inl, ⊎_elim (λ p. p) (λ n. absurd (not-Memᴰ-nil n)))
  mem-keys-index_from m (x ∷ xs) k = ground (
    arith,
    mem-keys-index_from (insert (key x) (value x) m) xs k,
    Memᴰ-cons k (key x) (keys m),
    Memᴰ-cons k (key x) (map key xs),
  )

pub has-index_from {ℓ} :
    {A : Type ℓ} (key : A → ℕ) (m : IdSet) (xs : List A) (k : ℕ)
    → (has (index_from key (λ _. true) m xs) k ≡ true) ↔ ((has m k ≡ true) ⊎ Memᴰ k (map key xs))
has-index_from key m [] k = (inl, ⊎_elim (λ p. p) (λ n. absurd (not-Memᴰ-nil n)))
has-index_from key m (x ∷ xs) k =
    ground
      (arith, has-index_from key (insert (key x) true m) xs k, Memᴰ-cons k (key x) (map key xs))
