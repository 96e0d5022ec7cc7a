-- ===== src/Dependent/Guarded.antt =====
-- What an update of a service is guarded by.
use cert_rollover_impact_ass.Prelude.{
  List, some, Bool, false, ◌==◌, if◌then◌else◌, ℕ, ◌≡◌, ◌⊎◌, refl, ◌∙◌, ap, true, not, ◌&&◌, String,
  str_eq, eq_iff, map, inl, inr, arith, subst,
}
use cert_rollover_impact_ass.Simulator.Snapshot.{Instant}
use cert_rollover_impact_ass.Service.{
  Actor, is_pki, validation, forbidden, conflict, internal, Attempt, ok, err, ◌>>=◌, ◌>>◌, guard,
  Database, IsDatabase, change_where,
}
use cert_rollover_impact_ass.Service.Laws.{>>=-inv, guard_lem, audited-IsAtomic, answer_state}
use cert_rollover_impact_ass.Dependent.{
  DependentService, ServiceLog, UpdateRequest, Codec, Catalog, is_service_owner,
  require_service_ownership, check_services, validate_references, apply_update, with_update,
  all_or_none, has_service_id,
}
use cert_rollover_impact_ass.Dependent.Change.{
  read_service, service_entry, any_internal, prepare_update, update_prepared, update_service,
}
use cert_rollover_impact_ass.Dependent.EdgeMap.{
  IsRanging, HasSoundEdges, SameEdges, same-HasSoundEdges,
}
use cert_rollover_impact_ass.Dependent.Depends.{IsSound}
use cert_rollover_impact_ass.Dependent.Sound.{HasSoundEdges-iff, check_services_iff}
use cert_rollover_impact_ass.Dependent.References.{Leads, validate_references-Leads}
use cert_rollover_impact_ass.Prelude.Sorting.{sorted_unique}

module _ (codec : Codec) {DB : Type 0} (catalog : Catalog DB)
    (d : Database DB DependentService ServiceLog) (actor : Actor) (request_id : String)
    (now : Instant) where
  -- what the tests of an update ensure
  pub record IsGuarded (id : ℕ) (request : UpdateRequest) (seen again : DB)
      (current : DependentService) : Type 0 where
    pub owned : (is_pki actor.role ≡ true) ⊎ (actor.team ≡ current.owner_team)
    pub kept : is_service_owner actor.role ≡ true → request.owner_team ≡ actor.team
    pub leads : Leads codec catalog id request.dependency_edges seen
    pub sound :
        (services : List DependentService)
        → catalog.all again ≡ some services
        → IsSound codec (map (with_update codec catalog id request) services)

  prepare_update-IsGuarded :
      (id : ℕ) (request : UpdateRequest) (seen again : DB) (current : DependentService)
      → IsRanging codec
      → prepare_update codec catalog d actor request_id now id request seen again ≡ ok current
      → IsGuarded id request seen again current
  unfolding prepare_update
  prepare_update-IsGuarded id request seen again current ranging h =
      let (_, _, h1) =
        >>=-inv (guard (codec.accepts request) validation) (λ _. after_valid) current h in
      let (c, _, h2) =
        >>=-inv (read_service codec catalog d actor request_id now id seen) after_read current h1 in
      let (_, own, h3) =
        >>=-inv (require_service_ownership actor c.owner_team) (λ _. after_owner c) current h2 in
      let (_, keep, h4) =
        >>=-inv
          (guard (not (is_service_owner actor.role && not (str_eq request.owner_team actor.team)))
            forbidden)
          (λ _. after_keep c) current h3 in
      let (v, references, h5) =
        >>=-inv
          (validate_references codec catalog id request.chain_id request.client_trust_refs
            request.dependency_edges seen)
          (λ _. after_references c) current h4 in
      let (_, graph, h6) =
        >>=-inv
          (guard
            (check_services codec
              (map (with_update codec catalog id request) (all_or_none codec catalog again)))
            conflict)
          (λ _. ok c) current h5 in
      let same : c ≡ current = cc in
      let owned = guard_lem _ _ _ own in
      let kept = guard_lem _ _ _ keep in
      record {
        owned =
            subst
              (λ (x : DependentService). (is_pki actor.role ≡ true) ⊎ (actor.team ≡ x.owner_team))
              same (ground (arith, eq_iff actor.team c.owner_team));
        kept = λ o. ground (arith, eq_iff request.owner_team actor.team);
        leads =
            validate_references-Leads codec catalog id request.chain_id request.client_trust_refs
              request.dependency_edges seen v references;
        sound = λ services all.
            let read : all_or_none codec catalog again ≡ services = rw (all_or_none, all) refl in
            subst (λ xs. IsSound codec (map (with_update codec catalog id request) xs)) read
              ((check_services_iff codec _ ranging).0 (guard_lem _ _ _ graph));
      }
    where
      after_references : DependentService → Attempt DependentService
      after_references c = do
        guard
            (check_services codec
              (map (with_update codec catalog id request) (all_or_none codec catalog again)))
            conflict
        ok c

      after_keep : DependentService → Attempt DependentService
      after_keep c = do
        validate_references codec catalog id request.chain_id request.client_trust_refs
            request.dependency_edges seen
        after_references c

      after_owner : DependentService → Attempt DependentService
      after_owner c = do
        guard (not (is_service_owner actor.role && not (str_eq request.owner_team actor.team)))
            forbidden
        after_keep c

      after_read : DependentService → Attempt DependentService
      after_read c = do require_service_ownership actor c.owner_team; after_owner c

      after_valid : Attempt DependentService
      after_valid = do c ← read_service codec catalog d actor request_id now id seen; after_read c

  update_prepared-unchanged :
      (law : IsDatabase d) (id : ℕ) (request : UpdateRequest) (db : DB)
      (a : Attempt DependentService)
      → ((update_prepared codec catalog d actor request_id now id request db a).1 ≡ db)
        ⊎ ((current : DependentService) × (a ≡ ok current)
            × (d.rows (update_prepared codec catalog d actor request_id now id request db a).1
                ≡ map
                    (change_where
                      (has_service_id id)
                      (λ s. record (apply_update codec catalog request s) { updated_at = now }))
                    (d.rows db)))
  update_prepared-unchanged law id request db (err e) = inl refl
  update_prepared-unchanged law id request db (ok current) =
      elim (audited-IsAtomic d law (has_service_id id)
        (λ s. record (apply_update codec catalog request s) { updated_at = now }) internal internal
        (service_entry codec catalog d actor request_id now id "update" current
          (apply_update codec catalog request current))
        db) [
          | inl (_, same) ↦ inl (
              answer_state d law (any_internal codec catalog d actor request_id now)
                (has_service_id id) _
              ∙ same)
          | inr (_, made) ↦ inr (
            current,
            refl,
            ap (λ x. d.rows x)
                  (answer_state d law (any_internal codec catalog d actor request_id now)
                    (has_service_id id) _)
                ∙ made.changed_rows,
          )
        ]

  -- What an update stores has the edges that were checked.
  stored_same :
      (id : ℕ) (request : UpdateRequest) (s : DependentService)
      → SameEdges
          (change_where
            (has_service_id id)
            (λ t. record (apply_update codec catalog request t) { updated_at = now })
            s)
          (with_update codec catalog id request s)
  stored_same id request s = go (s.id == id)
    where
      go :
          (b : Bool)
          → let stored : DependentService =
              if b then record (apply_update codec catalog request s) { updated_at = now } else s in
            let checked : DependentService =
              if b
              then record s {
                chain_id = request.chain_id;
                client_trust_refs_json = codec.encode_ids (sorted_unique request.client_trust_refs);
                dependency_edges_json = codec.encode_ids (sorted_unique request.dependency_edges);
              }
              else s in
            SameEdges stored checked
      go true = (refl, refl)
      go false = (refl, refl)

  -- What was checked of a list of services holds of that list as the update stores it.
  pub stored-HasSoundEdges :
      (id : ℕ) (request : UpdateRequest) (services : List DependentService)
      → IsSound codec (map (with_update codec catalog id request) services)
      → HasSoundEdges codec (
          map
            (change_where
              (has_service_id id)
              (λ s. record (apply_update codec catalog request s) { updated_at = now }))
            services)
  stored-HasSoundEdges id request services sound =
      same-HasSoundEdges codec _ (with_update codec catalog id request) (stored_same id request)
        services
        ((HasSoundEdges-iff codec (map (with_update codec catalog id request) services)).1 sound)

  pub update_service-IsGuarded :
      (law : IsDatabase d) (id : ℕ) (request : UpdateRequest) (seen again db : DB)
      → IsRanging codec
      → let db' =
          (update_service codec catalog d actor request_id now id request seen again db).1 in
        (db' ≡ db)
        ⊎ ((current : DependentService) × IsGuarded id request seen again current
            × (d.rows db'
                ≡ map
                    (change_where
                      (has_service_id id)
                      (λ s. record (apply_update codec catalog request s) { updated_at = now }))
                    (d.rows db)))
  unfolding update_service
  update_service-IsGuarded law id request seen again db ranging =
      elim (update_prepared-unchanged law id request db
        (prepare_update codec catalog d actor request_id now id request seen again)) [
          | inl same ↦ inl same
          | inr (current, e, rows) ↦
              inr (current, prepare_update-IsGuarded id request seen again current ranging e, rows)
        ]
