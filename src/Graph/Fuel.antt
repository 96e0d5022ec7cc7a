-- ===== src/Graph/Fuel.antt =====
-- The search ends: each nested call paints one more key of the edge map, so one more than the number
-- of keys bounds the depth of the recursion.
use cert_rollover_impact_ass.Prelude.{
  ℕ, zero, suc, ◌≡◌, ◌≢◌, ◌≤◌, ◌<◌, refl, Bool, not, ◌&&◌, List, [], ◌∷◌, Memᴰ, Memᴰ-cons,
  not-Memᴰ-nil, insert, arith, inl, inr, Bool-cases, Option-cases, length, keys, lookup, lookup_mem,
  ◌==◌, if◌then◌else◌, subst, sym,
}
use native.Mathlib.Decide.{ℕ_discrete}
use cert_rollover_impact_ass.Graph.{
  Edges, targets, Colours, colour, Outcome, done, cycle_at, missing, out_of_fuel, and_then,
  visit_all, visit, visit_roots, search_cycle,
}
use cert_rollover_impact_ass.Graph.Colour.{
  Keeps, CallKeeps, visit_grey, visit_black, visit_white, visit-Keeps,
}

abbrev is_white : Colours → ℕ → Bool
is_white s k = not (colour s k == 1) && not (colour s k == 2)

-- how many of the keys are neither grey nor black
abbrev white : Colours → List ℕ → ℕ
white s [] = 0
white s (k ∷ ks) = let rest = white s ks in if is_white s k then suc rest else rest

white-Keeps : (s t : Colours) (ks : List ℕ) → Keeps s t → white t ks ≤ white s ks
white-Keeps s t [] h = omega arith
white-Keeps s t (k ∷ ks) h = ground (arith, white-Keeps s t ks h, h.grey k, h.black k)

white-insert-le : (s : Colours) (id : ℕ) (ks : List ℕ) → white (insert id 1 s) ks ≤ white s ks
white-insert-le s id [] = omega arith
white-insert-le s id (k ∷ ks) = ground (arith, white-insert-le s id ks)

white-insert :
    (s : Colours) (id : ℕ) (ks : List ℕ)
    → colour s id ≢ 1
    → colour s id ≢ 2
    → Memᴰ id ks
    → white (insert id 1 s) ks < white s ks
white-insert s id [] g b m = absurd (not-Memᴰ-nil m)
white-insert s id (k ∷ ks) g b m =
    ground (arith, white-insert s id ks, white-insert-le s id ks, Memᴰ-cons id k ks)

white-le-length : (s : Colours) (ks : List ℕ) → white s ks ≤ length ks
white-le-length s [] = omega arith
white-le-length s (k ∷ ks) = ground (arith, white-le-length s ks)

and_then_returns :
    (o : Outcome) (k : Colours → Outcome)
    → o ≢ out_of_fuel
    → ((r : Colours) → o ≡ done r → k r ≢ out_of_fuel)
    → and_then o k ≢ out_of_fuel
and_then_returns (done s) k h next = next s refl
and_then_returns (cycle_at c) k h next = h
and_then_returns (missing m) k h next = h
and_then_returns out_of_fuel k h next = h

module _ (known : ℕ → Bool) (edges : Edges) where
  visit_all_returns :
      (n : ℕ) (call : Colours → ℕ → Outcome)
      → ((s : Colours) (id : ℕ) → white s (keys edges) < n → call s id ≢ out_of_fuel)
      → CallKeeps call
      → (s : Colours) (ids : List ℕ) → white s (keys edges) < n
      → visit_all known call s ids ≢ out_of_fuel
  unfolding visit_all
  visit_all_returns n call ok keeps s [] h = λ e. cc
  visit_all_returns n call ok keeps s (next ∷ rest) h = elim (Bool-cases (known next)) [
    | inl e ↦ rw e (
        and_then_returns (call s next) (λ r. visit_all known call r rest) (ok s next h)
          (λ r called.
            visit_all_returns n call ok keeps r rest
              (omega (arith, white-Keeps s r (keys edges) (keeps s next r called).0))))
    | inr e ↦ rw e (λ bad. cc)
  ]

  inner_returns :
      (fuel : ℕ)
      → ((s : Colours) (id : ℕ)
          → white s (keys edges) < fuel
          → visit known edges fuel s id ≢ out_of_fuel)
      → (s : Colours) (id : ℕ) → white s (keys edges) < suc fuel
      → colour s id ≢ 1
      → colour s id ≢ 2
      → visit_all known (visit known edges fuel) (insert id 1 s) (targets edges id) ≢ out_of_fuel
  inner_returns fuel ih s id h g b = elim (Option-cases (lookup id edges)) [
    | inl no_key ↦
        let empty : targets edges id ≡ [] = ground arith in
        subst (λ ids. visit_all known (visit known edges fuel) (insert id 1 s) ids ≢ out_of_fuel)
          (sym empty) (unfold visit_all in λ e. cc)
    | inr (out, e) ↦
        let key : Memᴰ id (keys edges) = lookup_mem id edges (λ n. cc) in
        visit_all_returns fuel (visit known edges fuel) ih (visit-Keeps known edges fuel)
          (insert id 1 s) (targets edges id) (omega (arith, white-insert s id (keys edges) g b key))
  ]

  pub visit_returns :
      (fuel : ℕ) (s : Colours) (id : ℕ)
      → white s (keys edges) < fuel
      → visit known edges fuel s id ≢ out_of_fuel
  visit_returns zero s id h = elim h [ ]
  visit_returns (suc fuel) s id h = elim (ℕ_discrete (colour s id) 1) [
    | yes g ↦ rw (visit_grey known edges fuel s id g) (λ e. cc)
    | no g ↦ elim (ℕ_discrete (colour s id) 2) [
      | yes b ↦ rw (visit_black known edges fuel s id b) (λ e. cc)
      | no b ↦ rw (visit_white known edges fuel s id g b) (
          and_then_returns _ (λ r. done (insert id 2 r))
            (inner_returns fuel (visit_returns fuel) s id h g b) (λ r walked e. cc))
    ]
  ]

  visit_roots_returns :
      (fuel : ℕ) (s : Colours) (ids : List ℕ)
      → white s (keys edges) < fuel
      → visit_roots known edges fuel s ids ≢ out_of_fuel
  unfolding visit_roots
  visit_roots_returns fuel s [] h = λ e. cc
  visit_roots_returns fuel s (id ∷ ids) h =
      and_then_returns (visit known edges fuel s id) (λ r. visit_roots known edges fuel r ids)
        (visit_returns fuel s id h)
        (λ r called. visit_roots_returns fuel r ids (
          omega
            (arith, white-Keeps s r (keys edges) (visit-Keeps known edges fuel s id r called).0)))

  pub search_cycle_returns : (order : List ℕ) → search_cycle known edges order ≢ out_of_fuel
  unfolding search_cycle
  search_cycle_returns order =
      visit_roots_returns (suc (length (keys edges))) [] order
        (omega (arith, white-le-length [] (keys edges)))
