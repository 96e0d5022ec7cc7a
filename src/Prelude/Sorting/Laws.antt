-- ===== src/Prelude/Sorting/Laws.antt =====
-- Sorting keeps the members, and a sorted duplicate-free list is determined by its members.
use Prim.Native.Nat.{ℕ, ◌≤◌, ◌<◌}
use mathlib.Core.Path.{◌≡◌, refl, ap₂}
use mathlib.Core.Logic.{◌↔◌, ◌⊎◌, inl, inr}
use mathlib.Core.Bool.{true, false}
use mathlib.Core.List.{List, [], ◌∷◌, Memᴰ}
use native.Mathlib.Omega.{arith}
use cert_rollover_impact_ass.Prelude.Tests.{leb, Bool-cases}
use cert_rollover_impact_ass.Prelude.Lists.{
  All, mem_of_All, Memᴰ-cons, Memᴰ-here, Memᴰ-there, not-Memᴰ-nil,
}
use cert_rollover_impact_ass.Prelude.Maps.{IdSet, insert, has}
use cert_rollover_impact_ass.Prelude.Sorting.{
  insert_by, sort_by, unique, sorted_unique, IsIncreasing, IsSorted,
}

module _ {ℓ} {A : Type ℓ} (key : A → ℕ) where
  mem-insert_by : (a x : A) (ys : List A) → Memᴰ a (insert_by key x ys) ↔ ((a ≡ x) ⊎ Memᴰ a ys)
  unfolding insert_by
  mem-insert_by a x [] = Memᴰ-cons a x []
  mem-insert_by a x (y ∷ ys) = ground (
    arith,
    mem-insert_by a x ys,
    Memᴰ-cons a x (y ∷ ys),
    Memᴰ-cons a y ys,
    Memᴰ-cons a y (insert_by key x ys),
  )

  pub mem-sort_by : (a : A) (xs : List A) → Memᴰ a (sort_by key xs) ↔ Memᴰ a xs
  unfolding sort_by
  mem-sort_by a [] = (λ m. m, λ m. m)
  mem-sort_by a (x ∷ xs) =
      ground (arith, mem-sort_by a xs, mem-insert_by a x (sort_by key xs), Memᴰ-cons a x xs)

  All-insert_by {κ} :
      (P : A → Type κ) (x : A) (ys : List A) → P x → All P ys → All P (insert_by key x ys)
  unfolding insert_by
  All-insert_by P x [] px pys = (px, tt)
  All-insert_by P x (y ∷ ys) px pys = elim (Bool-cases (leb (key x) (key y))) [
    | inl e ↦ rw e (px, pys)
    | inr e ↦ rw e (pys.0, All-insert_by P x ys px pys.1)
  ]

abbrev ascending : List ℕ → List ℕ
ascending = sort_by (λ v. v)

All-lt_trans : (x y : ℕ) (ys : List ℕ) → x < y → All (λ z. y < z) ys → All (λ z. x < z) ys
All-lt_trans x y [] h a = tt
All-lt_trans x y (z ∷ ys) h a = (omega arith, All-lt_trans x y ys h a.1)

insert_by-IsIncreasing :
    (x : ℕ) (ys : List ℕ) → ¬ Memᴰ x ys → IsIncreasing ys → IsIncreasing (insert_by (λ v. v) x ys)
unfolding insert_by
insert_by-IsIncreasing x [] new h = (tt, tt)
insert_by-IsIncreasing x (y ∷ ys) new h =
    let apart : ¬ (x ≡ y) = λ e. new (Memᴰ.head e) in
    elim (Bool-cases (leb x y)) [
      | inl e ↦ let below : x < y = ground arith in rw e ((below, All-lt_trans x y ys below h.0), h)
      | inr e ↦ rw e (
        All-insert_by (λ v. v) (λ z. y < z) x ys (ground arith) h.0,
        insert_by-IsIncreasing x ys (λ m. new (Memᴰ-there y m)) h.1,
      )
    ]

abbrev pub Distinct : List ℕ → Type 0
Distinct [] = Unit
Distinct (x ∷ xs) = (¬ Memᴰ x xs) × Distinct xs

pub sort_by-IsIncreasing : (xs : List ℕ) → Distinct xs → IsIncreasing (ascending xs)
unfolding sort_by
sort_by-IsIncreasing [] d = tt
sort_by-IsIncreasing (x ∷ xs) d =
    insert_by-IsIncreasing x (ascending xs) (λ m. d.0 ((mem-sort_by (λ v. v) x xs).0 m))
      (sort_by-IsIncreasing xs d.1)

mem-unique :
    (a : ℕ) (seen : IdSet) (xs : List ℕ)
    → Memᴰ a (unique seen xs) ↔ ((0 < a) × Memᴰ a xs × (has seen a ≡ false))
unfolding unique
mem-unique a seen [] = (λ m. absurd (not-Memᴰ-nil m), λ h. absurd (not-Memᴰ-nil h.1))
mem-unique a seen (x ∷ xs) = ground (
  arith,
  mem-unique a seen xs,
  mem-unique a (insert x true seen) xs,
  Memᴰ-cons a x xs,
  Memᴰ-cons a x (unique (insert x true seen) xs),
)

unique-Distinct : (seen : IdSet) (xs : List ℕ) → Distinct (unique seen xs)
unfolding unique
unique-Distinct seen [] = tt
unique-Distinct seen (x ∷ xs) = ground (
  arith,
  unique-Distinct seen xs,
  unique-Distinct (insert x true seen) xs,
  mem-unique x (insert x true seen) xs,
)

pub mem-sorted_unique : (a : ℕ) (xs : List ℕ) → Memᴰ a (sorted_unique xs) ↔ ((0 < a) × Memᴰ a xs)
unfolding sorted_unique
mem-sorted_unique a xs = ground (arith, mem-sort_by (λ v. v) a (unique [] xs), mem-unique a [] xs)

pub sorted_unique-IsIncreasing : (xs : List ℕ) → IsIncreasing (sorted_unique xs)
unfolding sorted_unique
sorted_unique-IsIncreasing xs = sort_by-IsIncreasing (unique [] xs) (unique-Distinct [] xs)

-- The least member comes first, so equal members make equal lists.
pub IsIncreasing-ext :
    (xs ys : List ℕ)
    → IsIncreasing xs
    → IsIncreasing ys
    → ((a : ℕ) → Memᴰ a xs ↔ Memᴰ a ys)
    → xs ≡ ys
IsIncreasing-ext [] [] hx hy same = refl
IsIncreasing-ext [] (y ∷ ys) hx hy same = absurd (not-Memᴰ-nil ((same y).1 (Memᴰ-here y ys)))
IsIncreasing-ext (x ∷ xs) [] hx hy same = absurd (not-Memᴰ-nil ((same x).0 (Memᴰ-here x xs)))
IsIncreasing-ext (x ∷ xs) (y ∷ ys) hx hy same =
    let below_x : (z : ℕ) → Memᴰ z xs → x < z = mem_of_All (λ z. x < z) xs hx.0 in
    let below_y : (z : ℕ) → Memᴰ z ys → y < z = mem_of_All (λ z. y < z) ys hy.0 in
    let x_in = (Memᴰ-cons x y ys).0 ((same x).0 (Memᴰ-here x xs)) in
    let y_in = (Memᴰ-cons y x xs).0 ((same y).1 (Memᴰ-here y ys)) in
    let e : x ≡ y = ground (arith, x_in, y_in, below_x y, below_y x) in
    ap₂ ◌∷◌ e (
      IsIncreasing-ext xs ys hx.1 hy.1
        (λ a. ground (arith, same a, Memᴰ-cons a x xs, Memᴰ-cons a y ys, below_x a, below_y a)))

All-le_trans : (x y : ℕ) (ys : List ℕ) → x ≤ y → All (λ z. y ≤ z) ys → All (λ z. x ≤ z) ys
All-le_trans x y [] h a = tt
All-le_trans x y (z ∷ ys) h a = (omega arith, All-le_trans x y ys h a.1)

insert_by-IsSorted : (x : ℕ) (ys : List ℕ) → IsSorted ys → IsSorted (insert_by (λ v. v) x ys)
unfolding insert_by
insert_by-IsSorted x [] h = (tt, tt)
insert_by-IsSorted x (y ∷ ys) h = elim (Bool-cases (leb x y)) [
  | inl e ↦ let below : x ≤ y = ground arith in rw e ((below, All-le_trans x y ys below h.0), h)
  | inr e ↦
      rw e
        (All-insert_by (λ v. v) (λ z. y ≤ z) x ys (ground arith) h.0, insert_by-IsSorted x ys h.1)
]

pub sort_by-IsSorted : (xs : List ℕ) → IsSorted (sort_by (λ v. v) xs)
unfolding sort_by
sort_by-IsSorted [] = tt
sort_by-IsSorted (x ∷ xs) = insert_by-IsSorted x (ascending xs) (sort_by-IsSorted xs)

-- The sorted id list is a canonical form: it is strictly rising, it has exactly the ids other than 0
-- of the list it is built from, and two lists with the same such ids have the same one.
pub sorted_unique_canonical :
    (xs ys : List ℕ)
    → IsIncreasing (sorted_unique xs)
      × ((a : ℕ) → Memᴰ a (sorted_unique xs) ↔ ((0 < a) × Memᴰ a xs))
      × (((a : ℕ) → 0 < a → Memᴰ a xs ↔ Memᴰ a ys) → sorted_unique xs ≡ sorted_unique ys)
sorted_unique_canonical xs ys = (
  sorted_unique-IsIncreasing xs,
  λ a. mem-sorted_unique a xs,
  λ same.
      IsIncreasing-ext (sorted_unique xs) (sorted_unique ys) (sorted_unique-IsIncreasing xs)
        (sorted_unique-IsIncreasing ys)
        (λ a. ground (arith, same a, mem-sorted_unique a xs, mem-sorted_unique a ys)),
)
