-- ===== src/Graph/Complete.antt =====
-- A search that fails tells the truth: the node it names lies on a cycle, or is the unknown target
-- of an edge.
use cert_rollover_impact_ass.Prelude.{
  ℕ, zero, suc, ◌≡◌, ◌⊎◌, refl, Bool, false, List, [], ◌∷◌, Memᴰ, Memᴰ-here, Memᴰ-there, insert,
  arith, ⊎_elim, inl, inr, Bool-cases,
}
use native.Mathlib.Decide.{ℕ_discrete}
use cert_rollover_impact_ass.Graph.{
  Edges, targets, Colours, colour, Outcome, done, cycle_at, missing, out_of_fuel, and_then,
  visit_all, visit, visit_roots,
}
use cert_rollover_impact_ass.Graph.Walk.{Edge, Walk, edge, step}
use cert_rollover_impact_ass.Graph.Colour.{
  CallKeeps, visit_grey, visit_black, visit_white, visit-Keeps,
}

module _ (known : ℕ → Bool) (edges : Edges) where
  -- what an error of the search claims
  abbrev pub Honest : Outcome → Type 0
  Honest (done s) = Unit
  Honest (cycle_at c) = Walk edges c c
  Honest (missing m) = (known m ≡ false) × ((u : ℕ) × Edge edges u m)
  Honest out_of_fuel = Unit

  Honest-and_then :
      (o : Outcome) (k : Colours → Outcome)
      → Honest o
      → ((r : Colours) → o ≡ done r → Honest (k r))
      → Honest (and_then o k)
  Honest-and_then (done s) k h next = next s refl
  Honest-and_then (cycle_at c) k h next = h
  Honest-and_then (missing m) k h next = h
  Honest-and_then out_of_fuel k h next = tt

  -- Every grey node leads to the node at hand.
  abbrev LeadsTo : Colours → ℕ → Type 0
  LeadsTo s id = (u : ℕ) → colour s u ≡ 1 → Walk edges u id

  abbrev CallHonest : (Colours → ℕ → Outcome) → Type 0
  CallHonest call = (s : Colours) (id : ℕ) → LeadsTo s id → Honest (call s id)

  abbrev OnPath : Colours → ℕ → Type 0
  OnPath s parent = (u : ℕ) → colour s u ≡ 1 → (u ≡ parent) ⊎ Walk edges u parent

  OnPath-Edge : (s : Colours) (parent v : ℕ) → OnPath s parent → Edge edges parent v → LeadsTo s v
  OnPath-Edge s parent v path e u g = ⊎_elim (λ same. rw same (edge e)) (λ w. step w e) (path u g)

  visit_all-Honest :
      (call : Colours → ℕ → Outcome)
      → CallHonest call
      → CallKeeps call
      → (parent : ℕ) (s : Colours) (ids : List ℕ) → ((v : ℕ) → Memᴰ v ids → Edge edges parent v)
      → OnPath s parent
      → Honest (visit_all known call s ids)
  unfolding visit_all
  visit_all-Honest call ok keeps parent s [] out path = tt
  visit_all-Honest call ok keeps parent s (next ∷ rest) out path =
      let edge_out = out next (Memᴰ-here next rest) in
      elim (Bool-cases (known next)) [
        | inl e ↦ rw e (
            Honest-and_then (call s next) (λ r. visit_all known call r rest)
              (ok s next (OnPath-Edge s parent next path edge_out))
              (λ r called.
                visit_all-Honest call ok keeps parent r rest (λ v m. out v (Memᴰ-there next m))
                  (λ u g. path u (((keeps s next r called).0.grey u).0 g))))
        | inr e ↦ rw e (e, (parent, edge_out))
      ]

  OnPath-grey : (s : Colours) (id : ℕ) → LeadsTo s id → OnPath (insert id 1 s) id
  OnPath-grey s id path u g = elim (ℕ_discrete u id) [
    | yes same ↦ inl same
    | no other ↦ inr (path u (ground arith))
  ]

  visit-Honest : (fuel : ℕ) → CallHonest (visit known edges fuel)
  visit-Honest zero s id path = unfold visit in tt
  visit-Honest (suc fuel) s id path = elim (ℕ_discrete (colour s id) 1) [
    | yes g ↦ rw (visit_grey known edges fuel s id g) (path id g)
    | no g ↦ elim (ℕ_discrete (colour s id) 2) [
      | yes b ↦ rw (visit_black known edges fuel s id b) tt
      | no b ↦ rw (visit_white known edges fuel s id g b) (
          Honest-and_then _ (λ r. done (insert id 2 r))
            (visit_all-Honest (visit known edges fuel) (visit-Honest fuel)
              (visit-Keeps known edges fuel) id (insert id 1 s) (targets edges id) (λ v m. m)
              (OnPath-grey s id path))
            (λ r walked. tt))
    ]
  ]

  visit_roots-Honest :
      (fuel : ℕ) (s : Colours) (ids : List ℕ)
      → ((u : ℕ) → ¬ (colour s u ≡ 1))
      → Honest (visit_roots known edges fuel s ids)
  unfolding visit_roots
  visit_roots-Honest fuel s [] none_grey = tt
  visit_roots-Honest fuel s (id ∷ ids) none_grey =
      Honest-and_then (visit known edges fuel s id) (λ r. visit_roots known edges fuel r ids)
        (visit-Honest fuel s id (λ u g. absurd (none_grey u g)))
        (λ r called.
          visit_roots-Honest fuel r ids
            (λ u g. none_grey u (((visit-Keeps known edges fuel s id r called).0.grey u).0 g)))

  pub roots-Honest : (fuel : ℕ) (ids : List ℕ) → Honest (visit_roots known edges fuel [] ids)
  roots-Honest fuel ids = visit_roots-Honest fuel [] ids (λ u g. omega arith)
