-- ===== src/Dependent/Create.antt =====
-- The creation of a service: Create of backend/internal/service/dependent_service_service.go.
use cert_rollover_impact_ass.Prelude.{
  ℕ, ◌-◌, ◌^◌, ◌≡◌, ◌≢◌, ◌⊎◌, refl, sym, subst, true, none, List, [], ◌∷◌, ◌++◌, String, eq_iff,
  Memᴰ, inl, inr, arith,
}
use cert_rollover_impact_ass.Prelude.Sorting.{sorted_unique}
use cert_rollover_impact_ass.Simulator.Snapshot.{Instant}
use cert_rollover_impact_ass.Service.{
  Actor, is_pki, validation, conflict, Attempt, ok, err, ◌>>◌, guard, Database, IsDatabase,
  created_audited, load,
}
use cert_rollover_impact_ass.Service.Laws.{>>=-inv, guard_lem, created_audited-IsAtomic}
use cert_rollover_impact_ass.Dependent.{
  DependentService, ServiceLog, ServiceRequest, Codec, Catalog, require_service_ownership,
  check_services, validate_references, all_or_none, has_service_id,
}
use cert_rollover_impact_ass.Dependent.EdgeMap.{IsRanging}
use cert_rollover_impact_ass.Dependent.Depends.{IsSound}
use cert_rollover_impact_ass.Dependent.Sound.{check_services_iff}

-- `^uint(0)`, the id under which the new service is tried
abbrev pub candidate_id : ℕ
candidate_id = 2 ^ 64 - 1

module _ (codec : Codec) {DB : Type 0} (catalog : Catalog DB)
    (d : Database DB DependentService ServiceLog) (actor : Actor) (request_id : String)
    (now : Instant) where
  -- the new row
  abbrev pub new_service : ServiceRequest → ℕ → DependentService
  new_service request id = record {
    id = id;
    service_code = request.service_code;
    name = request.name;
    owner_team = request.owner_team;
    environment = request.environment;
    chain_id = request.chain_id;
    client_trust_refs_json = codec.encode_ids (sorted_unique request.client_trust_refs);
    protocol = request.protocol;
    criticality = request.criticality;
    dependency_edges_json = codec.encode_ids (sorted_unique request.dependency_edges);
    service_state = "active";
    created_at = now;
    updated_at = now;
  }

  -- all services that were read, and the new one
  abbrev pub candidates : ServiceRequest → DB → List DependentService
  candidates request again =
      all_or_none codec catalog again ++ (new_service request candidate_id ∷ [])

  -- The part of Create before its transaction, with the reads of validateReferences in the state
  -- `seen`, and the second read of all services, whose error is dropped, in `again`.
  unfoldable pub prepare_service : ServiceRequest → DB → DB → Attempt (Unit {0})
  unfolding validate_references check_services
  prepare_service request seen again = do
    guard (codec.accepts_new request) validation
    require_service_ownership actor request.owner_team
    validate_references codec catalog 0 request.chain_id request.client_trust_refs
        request.dependency_edges seen
    guard (check_services codec (candidates request again)) conflict

  abbrev pub creation_entry : DependentService → ServiceLog
  creation_entry s = record {
    request_id = request_id;
    actor = actor;
    entity_type = "dependent_service";
    entity_id = s.id;
    action = "create";
    before = none;
    after = s;
    input_hash = "";
    algorithm_version = "";
    simulation_time = none;
    duration_ms = 0;
    path_summary = "";
    created_at = now;
  }

  -- the answer of Create, once its transaction has ended
  abbrev pub service_answer : Attempt ℕ × DB → Attempt DependentService × DB
  service_answer (ok id, db) = (load d (has_service_id id) db, db)
  service_answer (err e, db) = (err e, db)

  -- the transaction of Create
  abbrev pub store_service :
      ServiceRequest → DB → Attempt (Unit {0}) → Attempt DependentService × DB
  store_service request db (err e) = (err e, db)
  store_service request db (ok _) =
      service_answer
        (created_audited d (new_service request) (λ id. creation_entry (new_service request id)) db)

  unfoldable pub create_service : ServiceRequest → DB → DB → DB → Attempt DependentService × DB
  unfolding prepare_service
  create_service request seen again db =
      store_service request db (prepare_service request seen again)

  -- what the tests of Create ensure
  pub record IsAllowed (request : ServiceRequest) (again : DB) : Type 0 where
    pub owned : (is_pki actor.role ≡ true) ⊎ (actor.team ≡ request.owner_team)
    pub sound : IsSound codec (candidates request again)

  prepare_service-IsAllowed :
      (request : ServiceRequest) (seen again : DB) (u : Unit {0})
      → IsRanging codec
      → prepare_service request seen again ≡ ok u
      → IsAllowed request again
  unfolding prepare_service
  prepare_service-IsAllowed request seen again u ranging h =
      let (_, _, h1) = >>=-inv (guard (codec.accepts_new request) validation) _ u h in
      let (v, own, h2) = >>=-inv (require_service_ownership actor request.owner_team) _ u h1 in
      let (_, _, h3) =
        >>=-inv
          (validate_references codec catalog 0 request.chain_id request.client_trust_refs
            request.dependency_edges seen)
          _ u h2 in
      let owned = guard_lem _ _ v own in
      record {
        owned = ground (arith, eq_iff actor.team request.owner_team);
        sound =
            (check_services_iff codec (candidates request again) ranging).0
              (guard_lem (check_services codec (candidates request again)) conflict u h3);
      }

  -- nothing, or a new service with one audit entry by the caller about it
  abbrev pub AddsOne : ServiceRequest → DB → DB → Attempt DependentService × DB → Type 0
  AddsOne request again db r =
      (r.1 ≡ db)
      ⊎ ((s : DependentService) × IsAllowed request again
          × (d.rows r.1 ≡ s ∷ d.rows db)
          × ((q : DependentService) → Memᴰ q (d.rows db) → d.key q ≢ s.id)
          × (s.owner_team ≡ request.owner_team)
          × (s.dependency_edges_json ≡ codec.encode_ids (sorted_unique request.dependency_edges))
          × (d.log r.1 ≡ creation_entry s ∷ d.log db))

  service_answer_state : (a : Attempt ℕ × DB) → (service_answer a).1 ≡ a.1
  service_answer_state (ok id, db) = refl
  service_answer_state (err e, db) = refl

  store_service-AddsOne :
      (law : IsDatabase d) (request : ServiceRequest) (again db : DB) (p : Attempt (Unit {0}))
      → ((u : Unit {0}) → p ≡ ok u → IsAllowed request again)
      → AddsOne request again db (store_service request db p)
  store_service-AddsOne law request again db (err e) allowed = inl refl
  store_service-AddsOne law request again db (ok u) allowed =
      subst (λ db'. AddsOne request again db ((store_service request db (ok u)).0, db'))
        (sym (service_answer_state _))
        (elim (created_audited-IsAtomic d law (new_service request)
          (λ id. creation_entry (new_service request id)) db) [
            | inl (_, same) ↦ inl same
            | inr (id, _, made) ↦ inr (
              new_service request id,
              allowed u refl,
              made.added_row,
              made.was_free,
              refl,
              refl,
              made.added_entry,
            )
          ])

  -- A creation leaves the database as it was, or it adds one service with its audit entry, and then
  -- the actor is a PKI administrator or of the team that is to own it, its id is one that no
  -- service had, and the dependencies of all services, as the second read of them gave them (none
  -- if it failed), with those of the new one, lead to services that exist and have no cycle.
  pub create_service-AddsOne :
      (law : IsDatabase d) (request : ServiceRequest) (seen again db : DB)
      → IsRanging codec
      → AddsOne request again db (create_service request seen again db)
  unfolding create_service
  create_service-AddsOne law request seen again db ranging =
      store_service-AddsOne law request again db (prepare_service request seen again)
        (λ u h. prepare_service-IsAllowed request seen again u ranging h)
