-- ===== src/Dependent/Depends.antt =====
-- The dependencies of a list of services, and the edge map that servicesContainCycle of
-- backend/internal/service/common.go builds of it.
use cert_rollover_impact_ass.Prelude.{
  ℕ, ◌<◌, ◌≡◌, ◌≢◌, ◌⊎◌, refl, sym, subst, some, List, [], ◌∷◌, Memᴰ, Memᴰ-here, Memᴰ-there,
  Memᴰ-cons, not-Memᴰ-nil, Option-cases, inl, inr, arith, insert, lookup,
}
use native.Mathlib.Decide.{ℕ_discrete}
use cert_rollover_impact_ass.Prelude.Sorting.{sorted_unique}
use cert_rollover_impact_ass.Graph.{Edges}
use cert_rollover_impact_ass.Dependent.{DependentService, Codec, edges_from}

-- The row that counts for an id: the last one with it.
pub data LastRow (u : ℕ) : List DependentService → DependentService → Type 0 where
  here :
      {s : DependentService} {services : List DependentService}
      → s.id ≡ u
      → ((t : DependentService) → Memᴰ t services → t.id ≢ u)
      → LastRow u (s ∷ services) s
  there :
      {s t : DependentService} {services : List DependentService}
      → LastRow u services s
      → LastRow u (t ∷ services) s

pub LastRow-mem :
    {u : ℕ} {services : List DependentService} {s : DependentService}
    → LastRow u services s
    → Memᴰ s services × (s.id ≡ u)
LastRow-mem (here {s} {services} e free) = (Memᴰ-here s services, e)
LastRow-mem (there {t = t} l) = let (m, e) = LastRow-mem l in (Memᴰ-there t m, e)

pub LastRow-unique :
    {u : ℕ} {services : List DependentService} {s t : DependentService}
    → LastRow u services s
    → LastRow u services t
    → s ≡ t
LastRow-unique (here e free) (here f free') = refl
LastRow-unique (here e free) (there {s = t} l) = let (m, f) = LastRow-mem l in absurd (free t m f)
LastRow-unique (there {s = s} l) (here f free) = let (m, e) = LastRow-mem l in absurd (free s m e)
LastRow-unique (there l) (there k) = LastRow-unique l k

module _ (codec : Codec) where
  -- One service depends on another: its stored list has the other's id, and 0 is no id.
  abbrev pub Dependency : List DependentService → ℕ → ℕ → Type 0
  Dependency services u v =
      (s : DependentService) × LastRow u services s
      × ((ids : List ℕ) × (codec.decode_ids s.dependency_edges_json ≡ some ids)
          × (0 < v)
          × Memᴰ v ids)

  -- chains of dependencies
  pub data DependsOn (services : List DependentService) (u : ℕ) : ℕ → Type 0 where
    direct : {v : ℕ} → Dependency services u v → DependsOn services u v
    further : {v w : ℕ} → DependsOn services u v → Dependency services v w → DependsOn services u w

  -- The dependency lists can be decoded, every dependency is a service of the list, and no chain of
  -- dependencies returns to its start.
  pub record IsSound (services : List DependentService) : Type 0 where
    pub decodable :
        (s : DependentService)
        → Memᴰ s services
        → (ids : List ℕ) × (codec.decode_ids s.dependency_edges_json ≡ some ids)
    pub closed :
        (u v : ℕ) → Dependency services u v → (s : DependentService) × Memᴰ s services × (s.id ≡ v)
    pub acyclic : (u : ℕ) → ¬ DependsOn services u u

  -- what the map has under an id: the list of the last row with it, or what it had before
  abbrev pub Entry : Edges → List DependentService → Edges → ℕ → Type 0
  Entry old services edges u =
      ((s : DependentService) × LastRow u services s
        × ((ids : List ℕ) × (codec.decode_ids s.dependency_edges_json ≡ some ids)
            × (lookup u edges ≡ some (sorted_unique ids))))
      ⊎ (((t : DependentService) → Memᴰ t services → t.id ≢ u) × (lookup u edges ≡ lookup u old))

  Entry-cons :
      (old edges : Edges) (s : DependentService) (services : List DependentService) (ids : List ℕ)
      (u : ℕ)
      → codec.decode_ids s.dependency_edges_json ≡ some ids
      → Entry (insert s.id (sorted_unique ids) old) services edges u
      → Entry old (s ∷ services) edges u
  Entry-cons old edges s services ids u d (inl (t, l, found)) = inl (t, there l, found)
  Entry-cons old edges s services ids u d (inr (free, e)) = elim (ℕ_discrete s.id u) [
    | yes same ↦ inl (s, here same free, (ids, d, ground arith))
    | no other ↦ inr (
      λ t m. elim ((Memᴰ-cons t s services).0 m) [
        | inl q ↦ subst (λ (x : DependentService). x.id ≢ u) (sym q) other
        | inr n ↦ free t n
      ],
      ground arith,
    )
  ]

  pub edges_from-Entry :
      (old edges : Edges) (services : List DependentService) (u : ℕ)
      → edges_from codec old services ≡ some edges
      → Entry old services edges u
  unfolding edges_from
  edges_from-Entry old edges [] u h =
      let same : old ≡ edges = cc in
      inr (λ t m. absurd (not-Memᴰ-nil m), subst (λ x. lookup u x ≡ lookup u old) same refl)
  edges_from-Entry old edges (s ∷ services) u h =
      elim (Option-cases (codec.decode_ids s.dependency_edges_json)) [
        | inl bad ↦ ground arith
        | inr (ids, d) ↦
            Entry-cons old edges s services ids u d
              (edges_from-Entry (insert s.id (sorted_unique ids) old) edges services u ground arith)
      ]

  pub edges_from-decodable :
      (old edges : Edges) (services : List DependentService)
      → edges_from codec old services ≡ some edges
      → (s : DependentService) → Memᴰ s services
      → (ids : List ℕ) × (codec.decode_ids s.dependency_edges_json ≡ some ids)
  unfolding edges_from
  edges_from-decodable old edges [] h s m = absurd (not-Memᴰ-nil m)
  edges_from-decodable old edges (t ∷ services) h s m =
      elim (Option-cases (codec.decode_ids t.dependency_edges_json)) [
        | inl bad ↦ ground arith
        | inr (ids, d) ↦ elim ((Memᴰ-cons s t services).0 m) [
          | inl e ↦ (ids, rw e d)
          | inr n ↦
              edges_from-decodable (insert t.id (sorted_unique ids) old) edges services ground arith
                s n
        ]
      ]

  pub edges_from-some :
      (old : Edges) (services : List DependentService)
      → ((s : DependentService)
          → Memᴰ s services
          → (ids : List ℕ) × (codec.decode_ids s.dependency_edges_json ≡ some ids))
      → (edges : Edges) × (edges_from codec old services ≡ some edges)
  unfolding edges_from
  edges_from-some old [] decodes = (old, refl)
  edges_from-some old (s ∷ services) decodes =
      let (ids, d) = decodes s (Memᴰ-here s services) in
      let (edges, e) =
        edges_from-some (insert s.id (sorted_unique ids) old) services
          (λ t m. decodes t (Memᴰ-there s m)) in
      (edges, ground arith)
