-- ===== src/Dependent/Change.antt =====
-- Update and Deactivate of backend/internal/service/dependent_service_service.go.
use cert_rollover_impact_ass.Prelude.{ℕ, not, ◌&&◌, none, some, map, String, str_eq}
use cert_rollover_impact_ass.Simulator.Snapshot.{Instant}
use cert_rollover_impact_ass.Service.{
  Actor, ServiceError, validation, forbidden, not_found, conflict, internal, driver, Attempt, ok,
  err, ◌>>=◌, ◌>>◌, guard, found, no_record, broken, found_or, Database, audited, answer,
}
use cert_rollover_impact_ass.Dependent.{
  DependentService, ServiceLog, UpdateRequest, Codec, Catalog, is_service_owner,
  require_service_ownership, check_services, validate_references, apply_update, with_update,
  all_or_none, has_service_id, active_with_id,
}

module _ (codec : Codec) {DB : Type 0} (catalog : Catalog DB)
    (d : Database DB DependentService ServiceLog) (actor : Actor) (request_id : String)
    (now : Instant) where
  abbrev pub service_entry : ℕ → String → DependentService → DependentService → ServiceLog
  service_entry id action s s' = record {
    request_id = request_id;
    actor = actor;
    entity_type = "dependent_service";
    entity_id = id;
    action = action;
    before = some s;
    after = s';
    input_hash = "";
    algorithm_version = "";
    simulation_time = none;
    duration_ms = 0;
    path_summary = "";
    created_at = now;
  }

  abbrev pub read_service : ℕ → DB → Attempt DependentService
  read_service id seen = elim (d.first (has_service_id id) seen) [
    | found s ↦ ok s
    | no_record ↦ err not_found
    | broken ↦ err driver
  ]

  -- The part of Update before its transaction, with its reads in the state `seen` up to
  -- validateReferences, and the second read of all services, whose error is dropped, in `again`.
  unfoldable pub prepare_update : ℕ → UpdateRequest → DB → DB → Attempt DependentService
  unfolding validate_references check_services
  prepare_update id request seen again = do
    guard (codec.accepts request) validation
    current ← read_service id seen
    require_service_ownership actor current.owner_team
    guard (not (is_service_owner actor.role && not (str_eq request.owner_team actor.team)))
        forbidden
    validate_references codec catalog id request.chain_id request.client_trust_refs
        request.dependency_edges seen
    guard
        (check_services codec
          (map (with_update codec catalog id request) (all_or_none codec catalog again)))
        conflict
    ok current

  -- an error of the transaction, of whatever kind
  abbrev pub any_internal : ServiceError → ServiceError
  any_internal e = internal

  abbrev pub update_prepared :
      ℕ → UpdateRequest → DB → Attempt DependentService → Attempt DependentService × DB
  update_prepared id request db (err e) = (err e, db)
  update_prepared id request db (ok current) = answer d any_internal (has_service_id id) (
      audited d (has_service_id id)
        (λ s. record (apply_update codec catalog request s) { updated_at = now }) internal internal
        (service_entry id "update" current (apply_update codec catalog request current)) db)

  unfoldable pub update_service : ℕ → UpdateRequest → DB → DB → DB → Attempt DependentService × DB
  unfolding prepare_update
  update_service id request seen again db =
      update_prepared id request db (prepare_update id request seen again)

  -- the part of Deactivate before its transaction
  unfoldable pub prepare_deactivate : ℕ → DB → Attempt DependentService
  prepare_deactivate id seen = do
    current ← found_or (d.first (has_service_id id) seen) not_found
    require_service_ownership actor current.owner_team
    guard (str_eq current.service_state "active") conflict
    ok current

  abbrev pub deactivate_prepared : ℕ → DB → Attempt DependentService → Attempt DependentService × DB
  deactivate_prepared id db (err e) = (err e, db)
  deactivate_prepared id db (ok current) =
      answer d (λ e. e) (has_service_id id)
        (audited d (active_with_id id)
          (λ s. record s { service_state = "inactive"; updated_at = now }) driver conflict
          (service_entry id "deactivate" current (record current { service_state = "inactive" }))
          db)

  unfoldable pub deactivate_service : ℕ → DB → DB → Attempt DependentService × DB
  unfolding prepare_deactivate
  deactivate_service id seen db = deactivate_prepared id db (prepare_deactivate id seen)
