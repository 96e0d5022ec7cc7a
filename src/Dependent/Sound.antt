-- ===== src/Dependent/Sound.antt =====
-- What servicesContainCycle of backend/internal/service/common.go accepts, said of the rows.
use cert_rollover_impact_ass.Prelude.{
  ℕ, ◌≡◌, ◌↔◌, sym, subst, true, some, List, [], Memᴰ, not-Memᴰ-nil, inl, inr, arith,
}
use cert_rollover_impact_ass.Prelude.Sorting.{sorted_unique}
use cert_rollover_impact_ass.Prelude.Sorting.Laws.{mem-sorted_unique}
use cert_rollover_impact_ass.Graph.{Edges, targets}
use cert_rollover_impact_ass.Graph.Walk.{Edge, Walk, edge, step}
use cert_rollover_impact_ass.Dependent.{DependentService, Codec, edges_from, is_key, check_services}
use cert_rollover_impact_ass.Dependent.EdgeMap.{IsRanging, HasSoundEdges, check_services_edges}
use cert_rollover_impact_ass.Dependent.Depends.{
  LastRow-mem, LastRow-unique, Dependency, DependsOn, direct, further, IsSound, Entry,
  edges_from-Entry, edges_from-decodable, edges_from-some,
}

module _ (codec : Codec) (services : List DependentService) (edges : Edges)
    (built : edges_from codec [] services ≡ some edges) where
  Edge-Dependency : (u v : ℕ) → Edge edges u v → Dependency codec services u v
  Edge-Dependency u v m = go (edges_from-Entry codec [] edges services u built)
    where
      go : Entry codec [] services edges u → Dependency codec services u v
      go (inl (s, l, (ids, d, e))) =
          let row : targets edges u ≡ sorted_unique ids = ground arith in
          let (positive, n) = (mem-sorted_unique v ids).0 (subst (Memᴰ v) row m) in
          (s, l, (ids, d, positive, n))
      go (inr (free, e)) =
          let row : targets edges u ≡ [] = ground arith in
          absurd (not-Memᴰ-nil (subst (Memᴰ v) row m))

  Dependency-Edge : (u v : ℕ) → Dependency codec services u v → Edge edges u v
  Dependency-Edge u v (s, l, (ids, d, positive, n)) =
      go (edges_from-Entry codec [] edges services u built)
    where
      go : Entry codec [] services edges u → Edge edges u v
      go (inl (t, k, (others, f, e))) =
          let same : s ≡ t = LastRow-unique l k in
          let g : codec.decode_ids t.dependency_edges_json ≡ some ids =
            subst (λ (x : DependentService). codec.decode_ids x.dependency_edges_json ≡ some ids)
              same d in
          let same_ids : ids ≡ others = cc in
          let row : targets edges u ≡ sorted_unique ids = ground arith in
          subst (Memᴰ v) (sym row) ((mem-sorted_unique v ids).1 (positive, n))
      go (inr (free, e)) = let (m, same) = LastRow-mem l in absurd (free s m same)

  key_row : (v : ℕ) → is_key edges v ≡ true → (s : DependentService) × Memᴰ s services × (s.id ≡ v)
  key_row v k = go (edges_from-Entry codec [] edges services v built)
    where
      go : Entry codec [] services edges v → (s : DependentService) × Memᴰ s services × (s.id ≡ v)
      go (inl (s, l, _)) = let (m, e) = LastRow-mem l in (s, m, e)
      go (inr (free, e)) = ground arith

  row_key : (v : ℕ) (s : DependentService) → Memᴰ s services → s.id ≡ v → is_key edges v ≡ true
  row_key v s m same = go (edges_from-Entry codec [] edges services v built)
    where
      go : Entry codec [] services edges v → is_key edges v ≡ true
      go (inl (t, l, (ids, d, e))) = ground arith
      go (inr (free, e)) = absurd (free s m same)

  Walk-DependsOn : {u v : ℕ} → Walk edges u v → DependsOn codec services u v
  Walk-DependsOn {u} {v} (edge m) = direct (Edge-Dependency u v m)
  Walk-DependsOn {v = w} (step {v} p m) = further (Walk-DependsOn p) (Edge-Dependency v w m)

  DependsOn-Walk : {u v : ℕ} → DependsOn codec services u v → Walk edges u v
  DependsOn-Walk {u} {v} (direct m) = edge (Dependency-Edge u v m)
  DependsOn-Walk {v = w} (further {v} p m) = step (DependsOn-Walk p) (Dependency-Edge v w m)

pub HasSoundEdges-iff :
    (codec : Codec) (services : List DependentService)
    → HasSoundEdges codec services ↔ IsSound codec services
HasSoundEdges-iff codec services = (
  λ (edges, built, acyclic, known). record {
    decodable = edges_from-decodable codec [] edges services built;
    closed = λ u v m.
        key_row codec services edges built v
          (known u v (Dependency-Edge codec services edges built u v m));
    acyclic = λ u p. acyclic u (DependsOn-Walk codec services edges built p);
  },
  λ sound.
      let (edges, built) = edges_from-some codec [] services sound.decodable in
      (
        edges,
        built,
        λ u p. sound.acyclic u (Walk-DependsOn codec services edges built p),
        λ u v m.
            let (s, n, e) = sound.closed u v (Edge-Dependency codec services edges built u v m) in
            row_key codec services edges built v s n e,
      ),
)

-- servicesContainCycle returns no error exactly if the dependency lists can be decoded, every
-- dependency is a service of the list, and no chain of dependencies returns to its start. A
-- dependency is an id other than 0 in the decoded list of a service, the last one if several have
-- one id.
pub check_services_iff :
    (codec : Codec) (services : List DependentService)
    → IsRanging codec
    → (check_services codec services ≡ true) ↔ IsSound codec services
check_services_iff codec services ranging =
    let (to, back) = check_services_edges codec services ranging in
    let (described, edges) = HasSoundEdges-iff codec services in
    (λ h. described (to h), λ s. back (edges s))
