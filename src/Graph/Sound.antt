-- ===== src/Graph/Sound.antt =====
-- A search that succeeds has finished every node from its roots, so no walk from there is infinite.
use cert_rollover_impact_ass.Prelude.{
  ℕ, zero, suc, ◌≡◌, sym, ◌∙◌, Bool, true, List, [], ◌∷◌, Memᴰ, Memᴰ-cons, not-Memᴰ-nil, insert,
  arith, ⊎_elim,
}
use native.Mathlib.Decide.{ℕ_discrete}
use cert_rollover_impact_ass.Graph.{
  Edges, targets, Colours, colour, Outcome, done, out_of_fuel, visit_all, visit, visit_roots,
}
use cert_rollover_impact_ass.Graph.Walk.{Edge, Ends, ends}
use cert_rollover_impact_ass.Graph.Colour.{
  Keeps, Keeps-refl, Keeps-trans, done-injective, and_then-eq-done, visit_all-cons, visit_all-Keeps,
  visit_grey, visit_black, visit_white, visit-Keeps,
}

module _ (known : ℕ → Bool) (edges : Edges) where
  -- A black node is finished: all below it ends, and its targets are known.
  pub record IsFinished (u : ℕ) : Type 0 where
    pub below : Ends edges u
    pub closed : (v : ℕ) → Edge edges u v → known v ≡ true

  abbrev pub IsSound : Colours → Type 0
  IsSound s = (u : ℕ) → colour s u ≡ 2 → IsFinished u

  abbrev CallSound : (Colours → ℕ → Outcome) → Type 0
  CallSound call = (s : Colours) (id : ℕ) (t : Colours) → call s id ≡ done t → IsSound s → IsSound t

  visit_all-IsSound :
      (call : Colours → ℕ → Outcome)
      → CallSound call
      → (s t : Colours) (ids : List ℕ) → visit_all known call s ids ≡ done t
      → IsSound s
      → IsSound t × ((v : ℕ) → Memᴰ v ids → known v ≡ true)
  unfolding visit_all
  visit_all-IsSound call ok s t [] h sound =
      (rw (← done-injective h) sound, λ v m. absurd (not-Memᴰ-nil m))
  visit_all-IsSound call ok s t (next ∷ rest) h sound =
      let (exists, (r, called, looped)) = visit_all-cons known call s t next rest h in
      let (sound', all_known) =
        visit_all-IsSound call ok r t rest looped (ok s next r called sound) in
      (sound', λ v m. ⊎_elim (λ e. rw e exists) (all_known v) ((Memᴰ-cons v next rest).0 m))

  IsSound-grey : (s : Colours) (id : ℕ) → IsSound s → IsSound (insert id 1 s)
  IsSound-grey s id sound u e = sound u (ground arith)

  IsSound-black : (s : Colours) (id : ℕ) → IsSound s → IsFinished id → IsSound (insert id 2 s)
  IsSound-black s id sound fin u e = elim (ℕ_discrete u id) [
    | yes same ↦ rw same fin
    | no other ↦ sound u (ground arith)
  ]

  visit-IsSound : (fuel : ℕ) → CallSound (visit known edges fuel)
  visit-IsSound zero s id t h sound = let bad : out_of_fuel ≡ done t = unfold visit in h in cc
  visit-IsSound (suc fuel) s id t h sound = elim (ℕ_discrete (colour s id) 1) [
    | yes g ↦ let bad = visit_grey known edges fuel s id g in cc
    | no g ↦ elim (ℕ_discrete (colour s id) 2) [
      | yes b ↦
          let same : s ≡ t = done-injective (sym (visit_black known edges fuel s id b) ∙ h) in
          rw (← same) sound
      | no b ↦
          let (r, walked, painted) =
            and_then-eq-done _ (λ r. done (insert id 2 r)) t
              (sym (visit_white known edges fuel s id g b) ∙ h) in
          let (_, black) =
            visit_all-Keeps known (visit known edges fuel) (visit-Keeps known edges fuel)
              (insert id 1 s) r (targets edges id) walked in
          let (sound', all_known) =
            visit_all-IsSound (visit known edges fuel) (visit-IsSound fuel) (insert id 1 s) r
              (targets edges id) walked (IsSound-grey s id sound) in
          rw (← done-injective painted) (
            IsSound-black r id sound'
              (record { below = ends (λ v e. (sound' v (black v e)).below); closed = all_known }))
    ]
  ]

  visit_roots-IsSound :
      (fuel : ℕ) (s t : Colours) (ids : List ℕ)
      → visit_roots known edges fuel s ids ≡ done t
      → IsSound s
      → IsSound t × Keeps s t × ((u : ℕ) → Memᴰ u ids → colour t u ≡ 2)
  unfolding visit_roots
  visit_roots-IsSound fuel s t [] h sound = (
    rw (← done-injective h) sound,
    rw (← done-injective h) (Keeps-refl s),
    λ u m. absurd (not-Memᴰ-nil m),
  )
  visit_roots-IsSound fuel s t (id ∷ ids) h sound =
      let (r, called, looped) =
        and_then-eq-done (visit known edges fuel s id) (λ r. visit_roots known edges fuel r ids) t
          h in
      let (kept, black) = visit-Keeps known edges fuel s id r called in
      let (sound', kept', blacks) =
        visit_roots-IsSound fuel r t ids looped (visit-IsSound fuel s id r called sound) in
      (
        sound',
        Keeps-trans kept kept',
        λ u m. ⊎_elim (λ e. kept'.black u (rw e black)) (blacks u) ((Memᴰ-cons u id ids).0 m),
      )

  -- After a successful search over the roots `ids` each of them is finished.
  pub roots-IsFinished :
      (fuel : ℕ) (t : Colours) (ids : List ℕ)
      → visit_roots known edges fuel [] ids ≡ done t
      → (u : ℕ) → Memᴰ u ids
      → IsFinished u
  roots-IsFinished fuel t ids h u m =
      let (sound, _, black) = visit_roots-IsSound fuel [] t ids h (λ v e. absurd (omega arith)) in
      sound u (black u m)
