-- ===== src/Scenario.antt =====
-- The rollover scenarios: backend/internal/service/rollover_scenario_service.go,
-- backend/internal/repository/rollover_scenario_repository.go,
-- backend/internal/model/rollover_scenario.go and the transition handler of
-- backend/internal/handler/rollover_scenario_handler.go.
use cert_rollover_impact_ass.Prelude.{
  ℕ, ◌≡◌, Bool, true, false, not, ◌||◌, ◌&&◌, Option, none, some, List, String, str_eq, ◌==◌, ltb,
  if◌then◌else◌,
}
use cert_rollover_impact_ass.Simulator.Snapshot.{Instant, Snapshot}
use cert_rollover_impact_ass.Simulator.Run.{
  AffectedService, BrokenPath, TimepointEvidence, Result, Simulation, simulate,
}
use cert_rollover_impact_ass.Constants.{
  Role, ScenarioState, draft, verified, rollback, can_transition_scenario, has_permission,
  scenario_write, scenario_verify,
}
use cert_rollover_impact_ass.Service.{
  Actor, AuditEntry, is_pki, ServiceError, validation, forbidden, not_found, conflict,
  illegal_transition, idempotency, reviewer_conflict, unprocessable, internal, driver, Attempt, ok,
  err, ◌>>=◌, ◌>>◌, guard, Fetch, found, no_record, broken, found_or, Database, audited,
}
pub mod Operations
pub mod Create
pub mod Frozen
pub mod Faithful
pub mod Opened
pub mod Change
pub mod Effect
pub mod Methods
pub mod Runs
pub mod Replayed
pub mod Progress

-- the model, less the two anchors that GORM loads beside it
pub record Scenario : Type 0 where
  pub id : ℕ
  pub name : String
  pub old_anchor_id : ℕ
  pub new_anchor_id : ℕ
  pub overlap_start : Instant
  pub overlap_end : Instant
  pub candidate_chain_ids : String
  pub algorithm_version : String
  pub input_hash : String
  pub input_snapshot : String
  pub simulation_time : Instant
  pub affected_services_json : String
  pub broken_paths_json : String
  pub path_evidence_json : String
  pub scenario_state : ScenarioState
  pub explanation : String
  pub created_by : ℕ
  pub created_by_name : String
  pub verified_by : Option ℕ
  pub verified_by_name : String
  pub idempotency_key : String
  pub replay_verified : Bool
  pub duration_ms : ℕ
  pub rollback_record : String
  pub created_at : Instant
  pub updated_at : Instant

abbrev pub reviewer_separated : Scenario → ℕ → Bool
reviewer_separated s user_id = not (s.created_by == user_id)

abbrev pub AuditLog : Type 0
AuditLog = AuditEntry Scenario

-- equality of the state strings
abbrev pub same_state : ScenarioState → ScenarioState → Bool
same_state draft draft = true
same_state ScenarioState.simulated ScenarioState.simulated = true
same_state ScenarioState.ready ScenarioState.ready = true
same_state ScenarioState.executing ScenarioState.executing = true
same_state verified verified = true
same_state rollback rollback = true
same_state _ _ = false

-- the body of a create request
pub record CreateRequest : Type 0 where
  pub name : String
  pub old_anchor_id : ℕ
  pub new_anchor_id : ℕ
  pub overlap_start : Instant
  pub overlap_end : Instant
  pub candidate_chain_ids : List ℕ
  pub simulation_time : Instant

-- What the services call that is not theirs: encoding/json, crypto/sha256, strings and the
-- validator.
pub record Library : Type 0 where
  pub decode_snapshot : String → Option Snapshot
  pub encode_affected : List AffectedService → String
  pub encode_paths : List BrokenPath → String
  pub encode_evidence : List TimepointEvidence → String
  pub trim_space : String → String
  pub byte_length : String → ℕ
  -- `validateRequest` of a transition request: its state and its comment
  pub accepts : ScenarioState → String → Bool
  -- `validateRequest` of a create request
  pub accepts_create : CreateRequest → Bool
  -- encoding/json fails on a year past 9999
  pub encode_snapshot : Snapshot → Option String
  pub hash_string : String → String
  pub encode_ids : List ℕ → String
  pub decode_ids : String → Option (List ℕ)
  -- the field `valid` of a validation result, which is false if the text cannot be decoded
  pub decode_valid : String → Bool

-- what a request brings: who calls, when, and in which order Go ranges over the edge map of a
-- snapshot
pub record Call : Type 0 where
  pub actor : Actor
  pub request_id : String
  pub now : Instant
  pub duration : ℕ
  pub order : Snapshot → List ℕ

abbrev pub require_ownership : Actor → Scenario → Attempt (Unit {0})
require_ownership actor s = guard (is_pki actor.role || (s.created_by == actor.user_id)) forbidden

abbrev pub has_id : ℕ → Scenario → Bool
has_id id s = s.id == id

-- `id = ? AND scenario_state = ?`
abbrev pub has_id_and_state : ℕ → ScenarioState → Scenario → Bool
has_id_and_state id from s = (s.id == id) && same_state s.scenario_state from

-- what CompleteSimulation stores
abbrev pub complete : Library → Call → String → Result → Scenario → Scenario
complete lib call key result s = record s {
  affected_services_json = lib.encode_affected result.affected_services;
  broken_paths_json = lib.encode_paths result.broken_paths;
  path_evidence_json = lib.encode_evidence result.evidence;
  scenario_state = ScenarioState.simulated;
  explanation = result.explanation;
  idempotency_key = key;
  duration_ms = call.duration;
  updated_at = call.now;
}

-- what Transition stores
abbrev pub move_to : Library → Call → ScenarioState → String → Scenario → Scenario
move_to lib call to comment s =
    let moved = record s { scenario_state = to; updated_at = call.now } in
    let signed =
      if same_state to verified
      then record moved {
        verified_by = some call.actor.user_id;
        verified_by_name = call.actor.username;
      }
      else moved in
    if same_state to rollback
    then record signed { rollback_record = lib.trim_space comment }
    else signed

-- what SetReplayVerified stores
abbrev pub mark_replayed : Call → Bool → Scenario → Scenario
mark_replayed call passed s = record s { replay_verified = passed; updated_at = call.now }

abbrev pub entry_of : Call → String → Scenario → Scenario → ℕ → String → AuditLog
entry_of call action s s' duration summary = record {
  request_id = call.request_id;
  actor = call.actor;
  entity_type = "rollover_scenario";
  entity_id = s.id;
  action = action;
  before = some s;
  after = s';
  input_hash = s.input_hash;
  algorithm_version = s.algorithm_version;
  simulation_time = some s.simulation_time;
  duration_ms = duration;
  path_summary = summary;
  created_at = call.now;
}

abbrev pub replay_matches : Library → Result → Scenario → Bool
replay_matches lib result s =
    str_eq (lib.encode_affected result.affected_services) s.affected_services_json
    && str_eq (lib.encode_paths result.broken_paths) s.broken_paths_json
    && str_eq (lib.encode_evidence result.evidence) s.path_evidence_json
    && str_eq result.explanation s.explanation

-- the end of Simulate; running out of fuel never happens: Simulator/Run/Total
abbrev pub outcome_of : Simulation → Attempt Result
outcome_of (Simulation.simulated result) = ok result
outcome_of (Simulation.failed _) = err unprocessable
outcome_of Simulation.out_of_fuel = err unprocessable

abbrev pub simulate_decoded : Call → Option Snapshot → Attempt Result
simulate_decoded call none = err unprocessable
simulate_decoded call (some snapshot) = outcome_of (simulate (call.order snapshot) snapshot)

-- DecodeSnapshot and Simulate
unfoldable pub simulate_frozen : Library → Call → Scenario → Attempt Result
simulate_frozen lib call s = simulate_decoded call (lib.decode_snapshot s.input_snapshot)

pub data Prepared : Type 0 where
  reused : Scenario → Prepared
  fresh : Scenario → Result → Prepared

-- the tests that Transition makes before its transaction
unfoldable pub authorize_transition :
    Library → Call → ScenarioState → String → Scenario → Attempt (Unit {0})
authorize_transition lib call to comment s = do
  (if same_state to verified then ok tt else require_ownership call.actor s)
  guard (can_transition_scenario s.scenario_state to) illegal_transition
  guard (not (same_state to verified) || reviewer_separated s call.actor.user_id) reviewer_conflict
