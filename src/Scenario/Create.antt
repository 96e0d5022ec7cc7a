-- ===== src/Scenario/Create.antt =====
-- The creation of a scenario, which freezes what it reads: Create of
-- backend/internal/service/rollover_scenario_service.go, with buildSnapshot and decodeUintList of
-- backend/internal/service/common.go. What the other repositories answer is what the request reads.
use cert_rollover_impact_ass.Prelude.{
  ℕ, Bool, true, false, not, Option, none, some, List, [], ◌∷◌, map, String, ◌==◌, length,
}
use cert_rollover_impact_ass.Prelude.Sorting.{sorted_unique}
use cert_rollover_impact_ass.Simulator.Snapshot.{
  AnchorSnapshot, ChainSnapshot, ServiceSnapshot, ScenarioConfig, Snapshot, version, new_snapshot,
  validate_snapshot,
}
use cert_rollover_impact_ass.Constants.{draft, certificate_state_name, chain_state_name}
use cert_rollover_impact_ass.Service.{
  validation, unprocessable, internal, Attempt, ok, err, ◌>>=◌, ◌>>◌, guard, some_or, Database,
  created_audited,
}
use cert_rollover_impact_ass.Anchor.{TrustAnchor}
use cert_rollover_impact_ass.Chain.{CertificateChain}
use cert_rollover_impact_ass.Dependent.{DependentService}
use cert_rollover_impact_ass.Scenario.{Scenario, AuditLog, Library, Call, CreateRequest}
use cert_rollover_impact_ass.Scenario.Operations.{get}

-- The answers of the other repositories, `none` for an error. The reads are not in one transaction,
-- so that nothing relates them.
pub record Reads : Type 0 where
  pub anchors_by_ids : List ℕ → Option (List TrustAnchor)
  pub chains_by_ids : List ℕ → Option (List CertificateChain)
  -- the page of a number and a size
  pub chains_page : ℕ → ℕ → Option (List CertificateChain)
  pub all_services : Option (List DependentService)

-- what a snapshot is built from
pub record Material : Type 0 where
  pub anchors : List TrustAnchor
  pub chains : List CertificateChain
  pub services : List DependentService

abbrev pub is_some : {A : Type 0} → Option A → Bool
is_some none = false
is_some (some _) = true

abbrev pub freeze_anchor : TrustAnchor → AnchorSnapshot
freeze_anchor a = record {
  id = a.id;
  code = a.anchor_code;
  state = certificate_state_name a.certificate_state;
  not_before = a.not_before;
  not_after = a.not_after;
  revoked = is_some a.revoked_at;
}

abbrev pub config_of : CreateRequest → List ℕ → ScenarioConfig
config_of request ids = record {
  name = request.name;
  old_anchor_id = request.old_anchor_id;
  new_anchor_id = request.new_anchor_id;
  overlap_start = request.overlap_start;
  overlap_end = request.overlap_end;
  candidate_chain_ids = ids;
  simulation_time = request.simulation_time;
}

-- a snapshot that ValidateSnapshot accepts
abbrev pub validated_snapshot : Call → Snapshot → Attempt Snapshot
validated_snapshot call snapshot = elim (validate_snapshot (call.order snapshot) snapshot) [
  | none ↦ ok snapshot
  | some _ ↦ err unprocessable
]

-- a snapshot and its canonical text
abbrev pub Frozen : Type 0
Frozen = Snapshot × String

module _ (lib : Library) where
  abbrev pub freeze_chain : CertificateChain → ChainSnapshot
  freeze_chain c = record {
    id = c.id;
    code = c.chain_code;
    anchor_id = c.trust_anchor_id;
    leaf_subject = c.leaf_subject;
    valid_from = c.valid_from;
    valid_to = c.valid_to;
    state = chain_state_name c.chain_state;
    validation_valid = lib.decode_valid c.validation_result;
  }

  -- decodeUintList; Create makes every error of buildSnapshot `unprocessable`
  abbrev pub decode_id_list : String → Attempt (List ℕ)
  decode_id_list raw = do ids ← some_or (lib.decode_ids raw) unprocessable; ok (sorted_unique ids)

  abbrev pub freeze_service : DependentService → Attempt ServiceSnapshot
  freeze_service s = do
    trust ← decode_id_list s.client_trust_refs_json
    dependencies ← decode_id_list s.dependency_edges_json
    ok (record {
      id = s.id;
      code = s.service_code;
      chain_id = s.chain_id;
      trust_anchor_ids = trust;
      dependency_ids = dependencies;
      criticality = s.criticality;
      state = s.service_state;
    })

  -- the loop over the services
  unfoldable pub freeze_services : List DependentService → Attempt (List ServiceSnapshot)
  freeze_services [] = ok []
  freeze_services (s ∷ services) = do
    first ← freeze_service s
    rest ← freeze_services services
    ok (first ∷ rest)

  unfoldable pub build_snapshot :
      Call
      → CreateRequest
      → List ℕ
      → List TrustAnchor
      → List CertificateChain
      → List DependentService
      → Attempt Snapshot
  unfolding new_snapshot freeze_services
  build_snapshot call request ids anchors chains services = do
    frozen ← freeze_services services
    validated_snapshot call (
        new_snapshot (config_of request ids) (map freeze_anchor anchors) (map freeze_chain chains)
          frozen)

  -- the reads of Create, with the tests on what they give
  unfoldable pub gather : CreateRequest → Reads → Attempt Material
  unfolding sorted_unique
  gather request reads =
      let ids = sorted_unique request.candidate_chain_ids in
      let anchor_ids = sorted_unique (request.old_anchor_id ∷ request.new_anchor_id ∷ []) in
      do
        guard (lib.accepts_create request) validation
        guard (not (request.old_anchor_id == request.new_anchor_id)) validation
        anchors ← some_or (reads.anchors_by_ids anchor_ids) validation
        guard (length anchors == 2) validation
        candidates ← some_or (reads.chains_by_ids ids) validation
        guard (length candidates == length ids) validation
        chains ← some_or (reads.chains_page 1 200) internal
        services ← some_or reads.all_services internal
        ok (record { anchors = anchors; chains = chains; services = services })

  -- the snapshot, and its text
  unfoldable pub freeze : Call → CreateRequest → Material → Attempt Frozen
  unfolding build_snapshot sorted_unique
  freeze call request m = do
    snapshot ←
        build_snapshot call request (sorted_unique request.candidate_chain_ids) m.anchors m.chains
          m.services
    raw ← some_or (lib.encode_snapshot snapshot) internal
    ok (snapshot, raw)

  -- the part of Create before its transaction
  unfoldable pub prepare_create : Call → CreateRequest → Reads → Attempt Frozen
  unfolding gather freeze
  prepare_create call request reads = do m ← gather request reads; freeze call request m

  -- the new row
  abbrev pub new_draft : Call → CreateRequest → String → ℕ → Scenario
  new_draft call request raw id = record {
    id = id;
    name = lib.trim_space request.name;
    old_anchor_id = request.old_anchor_id;
    new_anchor_id = request.new_anchor_id;
    overlap_start = request.overlap_start;
    overlap_end = request.overlap_end;
    candidate_chain_ids = lib.encode_ids (sorted_unique request.candidate_chain_ids);
    algorithm_version = version;
    input_hash = lib.hash_string raw;
    input_snapshot = raw;
    simulation_time = request.simulation_time;
    affected_services_json = "[]";
    broken_paths_json = "[]";
    path_evidence_json = "[]";
    scenario_state = draft;
    explanation = "Frozen input is ready for offline simulation.";
    created_by = call.actor.user_id;
    created_by_name = call.actor.username;
    verified_by = none;
    verified_by_name = "";
    idempotency_key = "";
    replay_verified = false;
    duration_ms = 0;
    rollback_record = "";
    created_at = call.now;
    updated_at = call.now;
  }

  abbrev pub draft_entry : Call → Scenario → AuditLog
  draft_entry call s = record {
    request_id = call.request_id;
    actor = call.actor;
    entity_type = "rollover_scenario";
    entity_id = s.id;
    action = "create_frozen_draft";
    before = none;
    after = s;
    input_hash = s.input_hash;
    algorithm_version = version;
    simulation_time = some s.simulation_time;
    duration_ms = 0;
    path_summary = "frozen anchors, chains, and dependency graph";
    created_at = call.now;
  }

  module _ {DB : Type 0} (d : Database DB Scenario AuditLog) where
    -- the answer of Create, once its transaction has ended
    abbrev pub create_answer : Attempt ℕ × DB → Attempt Scenario × DB
    create_answer (ok id, db) = (get lib d id db, db)
    create_answer (err e, db) = (err e, db)

    -- the transaction of Create
    abbrev pub create_prepared : Call → CreateRequest → DB → Attempt Frozen → Attempt Scenario × DB
    create_prepared call request db (err e) = (err e, db)
    create_prepared call request db (ok (snapshot, raw)) = create_answer (
        created_audited d (new_draft call request raw)
          (λ id. draft_entry call (new_draft call request raw id)) db)

    unfoldable pub create_scenario : Call → CreateRequest → Reads → DB → Attempt Scenario × DB
    unfolding prepare_create
    create_scenario call request reads db =
        create_prepared call request db (prepare_create call request reads)
