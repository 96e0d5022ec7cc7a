-- ===== src/Dependent/References.antt =====
-- What validateReferences of backend/internal/service/dependent_service_service.go ensures.
use cert_rollover_impact_ass.Prelude.{
  ℕ, ◌==◌, ◌<◌, ◌≡◌, ◌≢◌, ◌⊎◌, refl, subst, true, Option, none, some, List, [], ◌∷◌, map, Memᴰ,
  Memᴰ-cons, not-Memᴰ-nil, has, has-index_from, IdSet, inl, inr, arith, length,
}
use cert_rollover_impact_ass.Prelude.Sorting.{sorted_unique}
use cert_rollover_impact_ass.Prelude.Sorting.Laws.{mem-sorted_unique}
use cert_rollover_impact_ass.Service.{validation, ok, guard}
use cert_rollover_impact_ass.Service.Laws.{>>=-inv, mem-map}
use cert_rollover_impact_ass.Dependent.{
  DependentService, Codec, Catalog, check_targets, known_ids, or_driver, found_chain,
  validate_references,
}

check_targets_lem :
    (known : IdSet) (id : ℕ) (edges : List ℕ) (u : Unit {0})
    → check_targets known id edges ≡ ok u
    → (v : ℕ) → Memᴰ v edges
    → (has known v ≡ true) × (v ≡ id → id ≡ 0)
unfolding check_targets
check_targets_lem known id [] u h v m = absurd (not-Memᴰ-nil m)
check_targets_lem known id (edge ∷ edges) u h v m = elim ((Memᴰ-cons v edge edges).0 m) [
  | inl e ↦ ground arith
  | inr n ↦ check_targets_lem known id edges u ground arith v n
]

or_driver_lem : {A : Type 0} (o : Option A) (a : A) → or_driver o ≡ ok a → o ≡ some a
or_driver_lem none a h = cc
or_driver_lem (some b) a h = cc

module _ (codec : Codec) {DB : Type 0} (catalog : Catalog DB) where
  -- Each dependency is a service that was read, and no service depends on itself.
  abbrev pub Leads : ℕ → List ℕ → DB → Type 0
  Leads id edges seen =
      (v : ℕ)
      → 0 < v
      → Memᴰ v edges
      → (v ≢ id)
        × ((services : List DependentService) × (catalog.all seen ≡ some services)
            × ((s : DependentService) × Memᴰ s services × (s.id ≡ v)))

  pub validate_references-Leads :
      (id chain_id : ℕ) (trust edges : List ℕ) (seen : DB) (u : Unit {0})
      → validate_references codec catalog id chain_id trust edges seen ≡ ok u
      → Leads id edges seen
  unfolding validate_references
  validate_references-Leads id chain_id trust edges seen u h v positive m =
      let (_, _, h1) = >>=-inv (found_chain (catalog.chain chain_id seen)) _ u h in
      let (anchors, _, h2) =
        >>=-inv (or_driver (catalog.anchors (sorted_unique trust) seen)) _ u h1 in
      let (_, _, h3) =
        >>=-inv (guard (length anchors == length (sorted_unique trust)) validation) _ u h2 in
      let (services, all, h4) = >>=-inv (or_driver (catalog.all seen)) _ u h3 in
      let target = (mem-sorted_unique v edges).1 (positive, m) in
      let (known, other) =
        check_targets_lem (known_ids services) id (sorted_unique edges) u h4 v target in
      let listed = (has-index_from (λ (s : DependentService). s.id) [] services v).0 known in
      (
        λ e. let zero_id = other e in absurd (omega arith),
        (services, or_driver_lem (catalog.all seen) services all, row services listed),
      )
    where
      row :
          (services : List DependentService)
          → (has [] v ≡ true) ⊎ Memᴰ v (map (λ (s : DependentService). s.id) services)
          → (s : DependentService) × Memᴰ s services × (s.id ≡ v)
      row services (inl bad) = cc
      row services (inr n) =
          let (s, k, e) = mem-map (λ (s : DependentService). s.id) services v n in
          (s, k, subst (λ x. x ≡ v) e refl)
