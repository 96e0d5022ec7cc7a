-- ===== src/Scenario/Faithful/Services.antt =====
-- The services that a scenario freezes, described by their rows.
use cert_rollover_impact_ass.Prelude.{
  ℕ, ◌≡◌, ◌↔◌, refl, sym, ap, ◌∙◌, subst, List, [], ◌∷◌, map, Memᴰ, arith, some, String, inl, inr,
  Memᴰ-cons,
}
use mathlib.Core.List.Memᴰ
use cert_rollover_impact_ass.Prelude.Sorting.{sort_by, sorted_unique}
use cert_rollover_impact_ass.Prelude.Sorting.Laws.{
  mem-sort_by, mem-sorted_unique, sorted_unique_canonical,
}
use cert_rollover_impact_ass.Simulator.Snapshot.{ServiceSnapshot, clean_service}
use cert_rollover_impact_ass.Service.{unprocessable, ok, ◌>>=◌, some_or}
use cert_rollover_impact_ass.Service.Laws.{mem-map, map-mem, >>=-inv, some_or_lem}
use cert_rollover_impact_ass.Dependent.{DependentService}
use cert_rollover_impact_ass.Scenario.{Library}
use cert_rollover_impact_ass.Scenario.Create.{decode_id_list, freeze_service, freeze_services}

sorted_unique_idem : (xs : List ℕ) → sorted_unique (sorted_unique xs) ≡ sorted_unique xs
sorted_unique_idem xs =
    let (_, _, canonical) = sorted_unique_canonical (sorted_unique xs) xs in
    canonical (λ a positive. let same = mem-sorted_unique a xs in ground arith)

module _ (lib : Library) where
  decode_id_list_sorted :
      (raw : String) (ids : List ℕ) → decode_id_list lib raw ≡ ok ids → sorted_unique ids ≡ ids
  decode_id_list_sorted raw ids h =
      let (xs, _, e) =
        >>=-inv (some_or (lib.decode_ids raw) unprocessable) (λ xs. ok (sorted_unique xs)) ids h in
      let same : sorted_unique xs ≡ ids = cc in
      subst (λ x. sorted_unique x ≡ x) same (sorted_unique_idem xs)

  -- A frozen service has clean lists.
  clean_frozen :
      (s : DependentService) (x : ServiceSnapshot)
      → freeze_service lib s ≡ ok x
      → clean_service x ≡ x
  unfolding clean_service
  clean_frozen s x h =
      let (trust, t, h1) = >>=-inv (decode_id_list lib s.client_trust_refs_json) _ x h in
      let (dependencies, u, h2) = >>=-inv (decode_id_list lib s.dependency_edges_json) _ x h1 in
      let a = decode_id_list_sorted s.client_trust_refs_json trust t in
      let b = decode_id_list_sorted s.dependency_edges_json dependencies u in
      let same_trust : x.trust_anchor_ids ≡ trust = cc in
      let same_dependencies : x.dependency_ids ≡ dependencies = cc in
      rw (same_trust, same_dependencies, a, b, ← same_trust, ← same_dependencies) refl

  abbrev pub IsFrozenOne : List DependentService → ServiceSnapshot → Type 0
  IsFrozenOne services x = (s : DependentService) × Memᴰ s services × (freeze_service lib s ≡ ok x)

  freeze_cons :
      (s : DependentService) (services : List DependentService) (frozen : List ServiceSnapshot)
      → freeze_services lib (s ∷ services) ≡ ok frozen
      → (first : ServiceSnapshot) × (rest : List ServiceSnapshot) × (freeze_service lib s
          ≡ ok first)
        × (freeze_services lib services ≡ ok rest)
        × (first ∷ rest ≡ frozen)
  unfolding freeze_services
  freeze_cons s services frozen h =
      let (first, f, h1) =
        >>=-inv (freeze_service lib s) (λ x. freeze_services lib services >>= λ xs. ok (x ∷ xs))
          frozen h in
      let (rest, r, h2) =
        >>=-inv (freeze_services lib services) (λ xs. ok (first ∷ xs)) frozen h1 in
      (first, rest, f, r, of h2)
    where
      of : {xs ys : List ServiceSnapshot} → ok xs ≡ ok ys → xs ≡ ys
      of e = cc

  mem-frozen_cons :
      (s : DependentService) (services : List DependentService) (first : ServiceSnapshot)
      (rest : List ServiceSnapshot) (x : ServiceSnapshot)
      → freeze_service lib s ≡ ok first
      → Memᴰ x rest ↔ IsFrozenOne services x
      → Memᴰ x (first ∷ rest) ↔ IsFrozenOne (s ∷ services) x
  mem-frozen_cons s services first rest x f (to, back) = (
    λ m. elim ((Memᴰ-cons x first rest).0 m) [
      | inl e ↦ (s, Memᴰ.head refl, f ∙ ap ok (sym e))
      | inr k ↦ let (t, n, g) = to k in (t, Memᴰ.tail n, g)
    ],
    λ (t, m, g). elim ((Memᴰ-cons t s services).0 m) [
      | inl e ↦
          let g' : freeze_service lib s ≡ ok x = rw e at g in
          let same : x ≡ first = cc (f, g') in Memᴰ.head same
      | inr k ↦ Memᴰ.tail (back (t, k, g))
    ],
  )

  -- The loop freezes each service.
  mem-freeze_services :
      (services : List DependentService) (frozen : List ServiceSnapshot)
      → freeze_services lib services ≡ ok frozen
      → (x : ServiceSnapshot) → Memᴰ x frozen ↔ IsFrozenOne services x
  unfolding freeze_services
  mem-freeze_services [] frozen h x =
      let same : [] ≡ frozen = cc in
      rw (← same) (λ m. absurd (Memᴰ.not-nil m), λ (s, m, _). absurd (Memᴰ.not-nil m))
  mem-freeze_services (s ∷ services) frozen h x =
      let (first, rest, f, r, same) = freeze_cons s services frozen h in
      subst (λ xs. Memᴰ x xs ↔ IsFrozenOne (s ∷ services) x) same
        (mem-frozen_cons s services first rest x f (mem-freeze_services services rest r x))

  -- cleaning and sorting change nothing
  pub mem-clean :
      (services : List DependentService) (frozen : List ServiceSnapshot)
      → freeze_services lib services ≡ ok frozen
      → (x : ServiceSnapshot)
      → Memᴰ x (map clean_service (sort_by (λ (y : ServiceSnapshot). y.id) frozen))
        ↔ IsFrozenOne services x
  mem-clean services frozen h x =
      let key : ServiceSnapshot → ℕ = λ y. y.id in
      let (to, back) = mem-freeze_services services frozen h x in
      (
        λ m.
            let (y, k, e) = mem-map clean_service (sort_by key frozen) x m in
            let n = (mem-sort_by key y frozen).0 k in
            let (s, j, g) = (mem-freeze_services services frozen h y).0 n in
            (s, j, g ∙ ap ok (sym (e ∙ clean_frozen s y g))),
        λ (s, j, g).
            let k = (mem-sort_by key x frozen).1 (back (s, j, g)) in
            subst (λ z. Memᴰ z (map clean_service (sort_by key frozen))) (clean_frozen s x g)
              (map-mem clean_service (sort_by key frozen) x k),
      )

  -- A frozen service, described by its row: the id lists are the decoded ones, each id once, rising
  -- and without 0 (Prelude/Sorting/Laws).
  pub record IsFrozenAs (s : DependentService) (x : ServiceSnapshot) : Type 0 where
    pub same_id : x.id ≡ s.id
    pub same_code : x.code ≡ s.service_code
    pub same_chain : x.chain_id ≡ s.chain_id
    pub same_criticality : x.criticality ≡ s.criticality
    pub same_state : x.state ≡ s.service_state
    pub trust : List ℕ
    pub trust_decoded : lib.decode_ids s.client_trust_refs_json ≡ some trust
    pub trust_frozen : x.trust_anchor_ids ≡ sorted_unique trust
    pub edges : List ℕ
    pub edges_decoded : lib.decode_ids s.dependency_edges_json ≡ some edges
    pub edges_frozen : x.dependency_ids ≡ sorted_unique edges

  decode_id_list_lem :
      (raw : String) (ids : List ℕ)
      → decode_id_list lib raw ≡ ok ids
      → (decoded : List ℕ) × (lib.decode_ids raw ≡ some decoded) × (sorted_unique decoded ≡ ids)
  decode_id_list_lem raw ids h =
      let (xs, d, e) =
        >>=-inv (some_or (lib.decode_ids raw) unprocessable) (λ xs. ok (sorted_unique xs)) ids h in
      (xs, some_or_lem (lib.decode_ids raw) unprocessable xs d, of e)
    where
      of : {xs ys : List ℕ} → ok xs ≡ ok ys → xs ≡ ys
      of e = cc

  pub freeze_service_iff :
      (s : DependentService) (x : ServiceSnapshot) → (freeze_service lib s ≡ ok x) ↔ IsFrozenAs s x
  freeze_service_iff s x = (
    λ h.
        let (t, a, h1) = >>=-inv (decode_id_list lib s.client_trust_refs_json) _ x h in
        let (u, b, h2) = >>=-inv (decode_id_list lib s.dependency_edges_json) _ x h1 in
        let (trust, trust_decoded, c) = decode_id_list_lem s.client_trust_refs_json t a in
        let (edges, edges_decoded, e) = decode_id_list_lem s.dependency_edges_json u b in
        record {
          same_id = cc;
          same_code = cc;
          same_chain = cc;
          same_criticality = cc;
          same_state = cc;
          trust = trust;
          trust_decoded = trust_decoded;
          trust_frozen = cc;
          edges = edges;
          edges_decoded = edges_decoded;
          edges_frozen = cc;
        },
    λ f.
        let made : freeze_service lib s
            ≡ ok (record {
              id = s.id;
              code = s.service_code;
              chain_id = s.chain_id;
              trust_anchor_ids = sorted_unique f.trust;
              dependency_ids = sorted_unique f.edges;
              criticality = s.criticality;
              state = s.service_state;
            }) =
          rw (f.trust_decoded, f.edges_decoded) refl in
        made
        ∙ sym (λ i. ok (record {
          id = f.same_id i;
          code = f.same_code i;
          chain_id = f.same_chain i;
          trust_anchor_ids = f.trust_frozen i;
          dependency_ids = f.edges_frozen i;
          criticality = f.same_criticality i;
          state = f.same_state i;
        })),
  )
