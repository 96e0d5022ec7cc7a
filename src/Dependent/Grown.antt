-- ===== src/Dependent/Grown.antt =====
-- The edge map of the services when one service is new: servicesContainCycle of
-- backend/internal/service/common.go on the list of all services and one more.
use cert_rollover_impact_ass.Prelude.{
  ℕ, ◌∷◌, ◌++◌, ◌∙◌, ◌≡◌, ◌≢◌, refl, sym, subst, true, false, none, some, List, [], insert, lookup,
  Memᴰ, Memᴰ-here, Memᴰ-there, Option-cases, inl, inr, arith, get_or,
}
use native.Mathlib.Decide.{ℕ_discrete}
use cert_rollover_impact_ass.Prelude.Sorting.{sorted_unique}
use cert_rollover_impact_ass.Graph.{Edges, targets}
use cert_rollover_impact_ass.Graph.Walk.{Edge, Walk, edge, step, IsAcyclic}
use cert_rollover_impact_ass.Graph.Verdict.{AllKnown}
use cert_rollover_impact_ass.Dependent.{DependentService, Codec, edges_from, is_key}
use cert_rollover_impact_ass.Dependent.EdgeMap.{HasSoundEdges}

-- the edges with those of a new node
pub record IsExtended (x : ℕ) (ids : List ℕ) (old new : Edges) : Type 0 where
  pub own : lookup x new ≡ some ids
  pub others : (y : ℕ) → y ≢ x → lookup y new ≡ lookup y old
  pub fresh : lookup x old ≡ none

module _ {x : ℕ} {ids : List ℕ} {old new : Edges} (extended : IsExtended x ids old new)
    (known : AllKnown (is_key old) old) (leads : (t : ℕ) → Memᴰ t ids → is_key old t ≡ true) where
  not_new_of_key : (v : ℕ) → is_key old v ≡ true → v ≢ x
  not_new_of_key v k e =
      let bad : is_key old v ≡ false =
        subst (λ y. is_key old y ≡ false) (sym e) (rw (is_key, extended.fresh) refl) in
      cc

  targets_old : (u : ℕ) → u ≢ x → targets new u ≡ targets old u
  targets_old u n = rw (targets, get_or, extended.others u n) refl

  targets_new : (u : ℕ) → u ≡ x → targets new u ≡ ids
  targets_new u e =
      subst (λ y. targets new y ≡ ids) (sym e) (rw (targets, get_or, extended.own) refl)

  key_of_Edge : (u v : ℕ) → Edge new u v → is_key old v ≡ true
  key_of_Edge u v m = elim (ℕ_discrete u x) [
    | yes e ↦ leads v (subst (Memᴰ v) (targets_new u e) m)
    | no n ↦ known u v (subst (Memᴰ v) (targets_old u n) m)
  ]

  pub extended-AllKnown : AllKnown (is_key new) new
  extended-AllKnown u v m =
      let k = key_of_Edge u v m in rw (is_key, extended.others v (not_new_of_key v k)) k

  key_of_Walk : {u v : ℕ} → Walk new u v → is_key old v ≡ true
  key_of_Walk {u} {v} (edge m) = key_of_Edge u v m
  key_of_Walk {v = w} (step {v} p m) = key_of_Edge v w m

  old-Walk : {u v : ℕ} → u ≢ x → Walk new u v → Walk old u v
  old-Walk {u} {v} n (edge m) = edge (subst (Memᴰ v) (targets_old u n) m)
  old-Walk {v = w} n (step {v} p m) =
      step (old-Walk n p) (subst (Memᴰ w) (targets_old v (not_new_of_key v (key_of_Walk p))) m)

  pub extended-IsAcyclic : IsAcyclic old → IsAcyclic new
  extended-IsAcyclic acyclic u p = acyclic u (old-Walk (not_new_of_key u (key_of_Walk p)) p)

-- Another row does not disturb a new node.
insert-IsExtended :
    (x : ℕ) (ids : List ℕ) (old new : Edges) (k : ℕ) (v : List ℕ)
    → k ≢ x
    → IsExtended x ids old new
    → IsExtended x ids (insert k v old) (insert k v new)
insert-IsExtended x ids old new k v n extended =
    let own = extended.own in
    let fresh = extended.fresh in
    record {
      own = ground arith;
      others = λ y m. let other = extended.others y m in ground arith;
      fresh = ground arith;
    }

module _ (codec : Codec) where
  edges_from-IsExtended :
      (x : ℕ) (ids : List ℕ) (old new edges : Edges) (services : List DependentService)
      → IsExtended x ids old new
      → ((s : DependentService) → Memᴰ s services → s.id ≢ x)
      → edges_from codec old services ≡ some edges
      → (edges' : Edges) × (edges_from codec new services ≡ some edges')
        × IsExtended x ids edges edges'
  unfolding edges_from
  edges_from-IsExtended x ids old new edges [] extended free h =
      let same : old ≡ edges = cc in (new, refl, subst (λ e. IsExtended x ids e new) same extended)
  edges_from-IsExtended x ids old new edges (s ∷ services) extended free h =
      elim (Option-cases (codec.decode_ids s.dependency_edges_json)) [
        | inl bad ↦ ground arith
        | inr (raw, e) ↦
            let row = sorted_unique raw in
            let (edges', f, done) =
              edges_from-IsExtended x ids (insert s.id row old) (insert s.id row new) edges services
                (insert-IsExtended x ids old new s.id row (free s (Memᴰ-here s services)) extended)
                (λ t m. free t (Memᴰ-there s m)) ground arith in
            (edges', ground arith, done)
      ]

  -- The last row is put in after all others.
  edges_from-snoc :
      (old edges : Edges) (services : List DependentService) (c : DependentService)
      → edges_from codec old (services ++ (c ∷ [])) ≡ some edges
      → (before : Edges) × (raw : List ℕ) × (edges_from codec old services ≡ some before)
        × (codec.decode_ids c.dependency_edges_json ≡ some raw)
        × (edges ≡ insert c.id (sorted_unique raw) before)
  unfolding edges_from
  edges_from-snoc old edges [] c h =
      elim (Option-cases (codec.decode_ids c.dependency_edges_json)) [
        | inl bad ↦ ground arith
        | inr (raw, e) ↦ (old, raw, refl, e, ground arith)
      ]
  edges_from-snoc old edges (s ∷ services) c h =
      elim (Option-cases (codec.decode_ids s.dependency_edges_json)) [
        | inl bad ↦ ground arith
        | inr (raw, e) ↦
            let (before, raw', f, g, last) =
              edges_from-snoc (insert s.id (sorted_unique raw) old) edges services c ground arith in
            (before, raw', ground arith, g, last)
      ]

-- encoding/json reads back the list of ids that it has written.
abbrev pub IsReadBack : Codec → Type 0
IsReadBack codec = (ids : List ℕ) → codec.decode_ids (codec.encode_ids ids) ≡ some ids

module _ (codec : Codec) (read_back : IsReadBack codec) (ids : List ℕ) (c s : DependentService)
    (c_ids : c.dependency_edges_json ≡ codec.encode_ids ids)
    (s_ids : s.dependency_edges_json ≡ codec.encode_ids ids) where
  abbrev row : List ℕ
  row = sorted_unique ids

  decoded :
      (t : DependentService)
      → t.dependency_edges_json ≡ codec.encode_ids ids
      → codec.decode_ids t.dependency_edges_json ≡ some ids
  decoded t e = rw e (read_back ids)

  -- A target of the candidate is a service that was there: the candidate itself would be a cycle.
  candidate_leads :
      (before : Edges)
      → IsAcyclic (insert c.id row before)
      → AllKnown (is_key (insert c.id row before)) (insert c.id row before)
      → (t : ℕ) → Memᴰ t row
      → is_key before t ≡ true
  candidate_leads before acyclic known t m =
      let all = insert c.id row before in
      let at : Edge all c.id t = subst (Memᴰ t) (ground arith) m in
      let other : t ≢ c.id = λ e. acyclic c.id (edge (subst (λ y. Edge all c.id y) e at)) in
      let key = known c.id t at in ground arith

  first-IsExtended : (x : ℕ) → IsExtended x row [] (insert x row [])
  first-IsExtended x = record { own = ground arith; others = λ y n. ground arith; fresh = refl }

  -- The candidate that was tried may be stored under an id of its own.
  pub grown-HasSoundEdges :
      (services : List DependentService)
      → ((t : DependentService) → Memᴰ t services → t.id ≢ s.id)
      → HasSoundEdges codec services
      → HasSoundEdges codec (services ++ (c ∷ []))
      → HasSoundEdges codec (s ∷ services)
  unfolding edges_from
  grown-HasSoundEdges services free (edges, e, acyclic, known) (all, f, all_acyclic, all_known) =
      let (before, raw, g, h, last) = edges_from-snoc codec [] all services c f in
      let same : before ≡ edges = cc in
      let same_ids : raw ≡ ids = let read = decoded c c_ids in cc in
      let shape : all ≡ insert c.id row edges =
        last ∙ (λ i. insert c.id (sorted_unique (same_ids i)) (same i)) in
      let leads =
        candidate_leads edges (subst IsAcyclic shape all_acyclic)
          (subst (λ x. AllKnown (is_key x) x) shape all_known) in
      let (edges', k, extended) =
        edges_from-IsExtended codec s.id row [] (insert s.id row []) edges services
          (first-IsExtended s.id) free e in
      (
        edges',
        let read = decoded s s_ids in ground arith,
        extended-IsAcyclic extended known leads acyclic,
        extended-AllKnown extended known leads,
      )
