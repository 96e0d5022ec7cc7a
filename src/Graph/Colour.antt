-- ===== src/Graph/Colour.antt =====
-- What a successful search does to the colours: the grey nodes stay the grey nodes, a node that has
-- a colour keeps one, and the node asked for ends black.
use cert_rollover_impact_ass.Prelude.{
  ℕ, zero, suc, ◌≡◌, ◌≢◌, ◌↔◌, refl, Bool, true, false, List, [], ◌∷◌, Memᴰ, Memᴰ-cons,
  not-Memᴰ-nil, insert, ◌==◌, arith, inl, inr, Bool-cases, sym, ◌∙◌, ⊎_elim,
}
use native.Mathlib.Decide.{ℕ_discrete}
use cert_rollover_impact_ass.Graph.{
  Edges, targets, Colours, colour, Outcome, done, cycle_at, missing, out_of_fuel, and_then,
  visit_all, visit,
}

pub record Keeps (s t : Colours) : Type 0 where
  pub grey : (u : ℕ) → (colour t u ≡ 1) ↔ (colour s u ≡ 1)
  pub black : (u : ℕ) → colour s u ≡ 2 → colour t u ≡ 2

pub Keeps-refl : (s : Colours) → Keeps s s
Keeps-refl s = record { grey = λ u. (λ e. e, λ e. e); black = λ u e. e }

pub Keeps-trans : {s t r : Colours} → Keeps s t → Keeps t r → Keeps s r
Keeps-trans h k = record {
  grey = λ u. (λ e. (h.grey u).0 ((k.grey u).0 e), λ e. (k.grey u).1 ((h.grey u).1 e));
  black = λ u e. k.black u (h.black u e);
}

pub done-injective : {s t : Colours} → done s ≡ done t → s ≡ t
done-injective e = cc

-- What is asked of the call that the inner loop makes.
abbrev pub CallKeeps : (Colours → ℕ → Outcome) → Type 0
CallKeeps call =
    (s : Colours) (id : ℕ) (t : Colours) → call s id ≡ done t → Keeps s t × (colour t id ≡ 2)

pub and_then-eq-done :
    (o : Outcome) (k : Colours → Outcome) (t : Colours)
    → and_then o k ≡ done t
    → (s : Colours) × (o ≡ done s) × (k s ≡ done t)
and_then-eq-done (done s) k t h = (s, refl, h)
and_then-eq-done (cycle_at id) k t h = cc
and_then-eq-done (missing id) k t h = cc
and_then-eq-done out_of_fuel k t h = cc

module _ (known : ℕ → Bool) where
  pub visit_all-cons :
      (call : Colours → ℕ → Outcome) (s t : Colours) (next : ℕ) (rest : List ℕ)
      → visit_all known call s (next ∷ rest) ≡ done t
      → (known next ≡ true)
        × ((r : Colours) × (call s next ≡ done r) × (visit_all known call r rest ≡ done t))
  unfolding visit_all
  visit_all-cons call s t next rest h = elim (Bool-cases (known next)) [
    | inl e ↦ (
      e,
      and_then-eq-done (call s next) (λ r. visit_all known call r rest) t (rw (e, visit_all) at h),
    )
    | inr e ↦ let bad : missing next ≡ done t = rw (e, visit_all) at h in cc
  ]

  pub visit_all-Keeps :
      (call : Colours → ℕ → Outcome)
      → CallKeeps call
      → (s t : Colours) (ids : List ℕ) → visit_all known call s ids ≡ done t
      → Keeps s t × ((u : ℕ) → Memᴰ u ids → colour t u ≡ 2)
  unfolding visit_all
  visit_all-Keeps call ok s t [] h =
      (rw (← done-injective h) (Keeps-refl s), λ u m. absurd (not-Memᴰ-nil m))
  visit_all-Keeps call ok s t (next ∷ rest) h =
      let (_, (r, called, looped)) = visit_all-cons call s t next rest h in
      let (first, ends_black) = ok s next r called in
      let (others, all_black) = visit_all-Keeps call ok r t rest looped in
      (
        Keeps-trans first others,
        λ u m.
            ⊎_elim (λ e. others.black u (rw e ends_black)) (all_black u)
              ((Memᴰ-cons u next rest).0 m),
      )

  module _ (edges : Edges) where
    -- The three ways in which a call of `visit` that succeeds or not can go.
    pub visit_grey :
        (fuel : ℕ) (s : Colours) (id : ℕ)
        → colour s id ≡ 1
        → visit known edges (suc fuel) s id ≡ cycle_at id
    unfolding visit
    visit_grey fuel s id e = rw (e, visit)

    pub visit_black :
        (fuel : ℕ) (s : Colours) (id : ℕ)
        → colour s id ≡ 2
        → visit known edges (suc fuel) s id ≡ done s
    unfolding visit
    visit_black fuel s id e = rw (e, visit)

    pub visit_white :
        (fuel : ℕ) (s : Colours) (id : ℕ)
        → colour s id ≢ 1
        → colour s id ≢ 2
        → visit known edges (suc fuel) s id
          ≡ and_then
              (visit_all known (visit known edges fuel) (insert id 1 s) (targets edges id))
              (λ r. done (insert id 2 r))
    unfolding visit
    visit_white fuel s id g b =
        let p : (colour s id == 1) ≡ false = ground arith in
        let q : (colour s id == 2) ≡ false = ground arith in rw (p, q, visit)

    paint-Keeps :
        (s r : Colours) (id : ℕ)
        → colour s id ≢ 1
        → colour s id ≢ 2
        → Keeps (insert id 1 s) r
        → Keeps s (insert id 2 r)
    paint-Keeps s r id g b h = record {
      grey = λ u. ground (arith, h.grey u);
      black = λ u e. ground (arith, h.black u);
    }

    pub visit-Keeps : (fuel : ℕ) → CallKeeps (visit known edges fuel)
    visit-Keeps zero s id t h = let bad : out_of_fuel ≡ done t = unfold visit in h in cc
    visit-Keeps (suc fuel) s id t h = elim (ℕ_discrete (colour s id) 1) [
      | yes g ↦ let bad = visit_grey fuel s id g in cc
      | no g ↦ elim (ℕ_discrete (colour s id) 2) [
        | yes b ↦
            let same : s ≡ t = done-injective (sym (visit_black fuel s id b) ∙ h) in
            rw (← same) (Keeps-refl s, b)
        | no b ↦
            let (r, walked, painted) =
              and_then-eq-done _ (λ r. done (insert id 2 r)) t
                (sym (visit_white fuel s id g b) ∙ h) in
            let (kept, _) =
              visit_all-Keeps (visit known edges fuel) (visit-Keeps fuel) (insert id 1 s) r
                (targets edges id) walked in
            rw (← done-injective painted) (paint-Keeps s r id g b kept, ground arith)
      ]
    ]
