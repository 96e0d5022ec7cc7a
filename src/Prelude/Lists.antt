-- ===== src/Prelude/Lists.antt =====
-- Lists measured by native numbers, with membership as a family that can be matched.
use Prim.Native.Nat.{ℕ, suc, ◌+◌}
use mathlib.Core.Path.{◌≡◌, refl}
use mathlib.Core.Logic.{◌↔◌, ◌⊎◌, inl, inr, ⊎_elim}
use mathlib.Core.Bool.{Bool, true, false}
use mathlib.Core.List.{List, [], ◌∷◌, ◌++◌, Memᴰ}
use mathlib.Core.List.Memᴰ
use native.Mathlib.Omega.{arith}
use cert_rollover_impact_ass.Prelude.Tests.{◌==◌, if◌then◌else◌}

module _ {ℓ} {A : Type ℓ} where
  abbrev pub length : List A → ℕ
  length [] = 0
  length (x ∷ xs) = suc (length xs)

  pub length-append : (xs ys : List A) → length (xs ++ ys) ≡ length xs + length ys
  length-append [] ys = omega arith
  length-append (x ∷ xs) ys = omega (arith, length-append xs ys)

  pub List-cases : (xs : List A) → (xs ≡ []) ⊎ ((x : A) × (rest : List A) × (xs ≡ x ∷ rest))
  List-cases [] = inl refl
  List-cases (x ∷ xs) = inr (x, xs, refl)

  pub Memᴰ-cons : (a x : A) (xs : List A) → Memᴰ a (x ∷ xs) ↔ ((a ≡ x) ⊎ Memᴰ a xs)
  Memᴰ-cons a x xs = (Memᴰ.cases_cons, ⊎_elim Memᴰ.head Memᴰ.tail)

  pub not-Memᴰ-nil : {a : A} → ¬ Memᴰ a []
  not-Memᴰ-nil m = Memᴰ.not-nil m

  pub Memᴰ-here : (x : A) (xs : List A) → Memᴰ x (x ∷ xs)
  Memᴰ-here x xs = Memᴰ.head refl

  pub Memᴰ-there : {a : A} (x : A) {xs : List A} → Memᴰ a xs → Memᴰ a (x ∷ xs)
  Memᴰ-there x m = Memᴰ.tail m

module _ {ℓ κ} {A : Type ℓ} where
  -- A predicate on all members, by recursion, which the tactics read and build.
  abbrev pub All : (A → Type κ) → List A → Type κ
  All P [] = Unit
  All P (x ∷ xs) = P x × All P xs

  pub All-of_mem : (P : A → Type κ) (xs : List A) → ((x : A) → Memᴰ x xs → P x) → All P xs
  All-of_mem P [] h = tt
  All-of_mem P (x ∷ xs) h = (h x (Memᴰ-here x xs), All-of_mem P xs (λ y m. h y (Memᴰ-there x m)))

  pub mem_of_All : (P : A → Type κ) (xs : List A) → All P xs → (x : A) → Memᴰ x xs → P x
  mem_of_All P [] h x m = absurd (not-Memᴰ-nil m)
  mem_of_All P (y ∷ xs) h x (Memᴰ.head e) = subst_back e h.0
    where
      subst_back : {y x : A} → x ≡ y → P y → P x
      subst_back e p = rw e p
  mem_of_All P (y ∷ xs) h x (Memᴰ.tail m) = mem_of_All P xs h.1 x m

-- `contains` of the simulator: a linear scan.
unfoldable pub contains : List ℕ → ℕ → Bool
contains [] target = false
contains (value ∷ values) target = if value == target then true else contains values target

pub contains_iff :
    (values : List ℕ) (target : ℕ) → (contains values target ≡ true) ↔ Memᴰ target values
unfolding contains
contains_iff [] target = (λ e. cc, λ m. absurd (not-Memᴰ-nil m))
contains_iff (v ∷ vs) target = ground (arith, contains_iff vs target, Memᴰ-cons target v vs)
