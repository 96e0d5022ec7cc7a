-- ===== src/Chain.antt =====
-- The certificate chains: Transition and Compare of
-- backend/internal/service/certificate_chain_service.go, with the calls of
-- backend/internal/repository/certificate_chain_repository.go. The number of services that an answer
-- adds is left out.
use cert_rollover_impact_ass.Prelude.{
  ℕ, ◌≡◌, Bool, true, false, not, ◌&&◌, Option, none, some, String, str_eq, ◌==◌, if◌then◌else◌,
}
use cert_rollover_impact_ass.Simulator.Snapshot.{Instant, before, after}
use cert_rollover_impact_ass.Constants.{
  ChainState, imported, validated, deprecated, can_transition_chain,
}
use cert_rollover_impact_ass.Service.{
  Actor, AuditEntry, ServiceError, validation, not_found, conflict, illegal_transition, internal,
  coded, Attempt, ok, err, Database, found_or, audited, load, answer,
}
pub mod Import
pub mod Imported
pub mod Legal

-- the model, less the anchor that GORM loads beside it
pub record CertificateChain : Type 0 where
  pub id : ℕ
  pub chain_code : String
  pub trust_anchor_id : ℕ
  pub leaf_subject : String
  pub certificate_refs_json : String
  pub chain_fingerprint : String
  pub valid_from : Instant
  pub valid_to : Instant
  pub validation_result : String
  pub chain_state : ChainState
  pub source_checksum : String
  pub public_chain_pem : String
  pub created_at : Instant
  pub updated_at : Instant

abbrev pub ChainLog : Type 0
ChainLog = AuditEntry CertificateChain

-- equality of the state strings
abbrev pub same_chain_state : ChainState → ChainState → Bool
same_chain_state imported imported = true
same_chain_state validated validated = true
same_chain_state deprecated deprecated = true
same_chain_state ChainState.revoked ChainState.revoked = true
same_chain_state _ _ = false

-- the validator's `oneof` of a transition request
abbrev pub is_target : ChainState → Bool
is_target imported = false
is_target _ = true

abbrev pub has_chain_id : ℕ → CertificateChain → Bool
has_chain_id id c = c.id == id

-- `id = ? AND chain_state = ?`
abbrev pub chain_in_state : ℕ → ChainState → CertificateChain → Bool
chain_in_state id from c = (c.id == id) && same_chain_state c.chain_state from

-- what the repository's Transition stores
abbrev pub set_chain_state : Instant → ChainState → CertificateChain → CertificateChain
set_chain_state now to c = record c { chain_state = to; updated_at = now }

module _ {DB : Type 0} (d : Database DB CertificateChain ChainLog) (actor : Actor)
    (request_id : String) (now : Instant) where
  -- the transaction of Transition
  abbrev pub store_chain : ℕ → ChainState → DB → CertificateChain → Attempt CertificateChain × DB
  store_chain id to db c = answer d coded (has_chain_id id) (
      audited d (chain_in_state id c.chain_state) (set_chain_state now to) internal conflict
        (record {
          request_id = request_id;
          actor = actor;
          entity_type = "certificate_chain";
          entity_id = id;
          action = "transition";
          before = some c;
          after = record c { chain_state = to };
          input_hash = c.source_checksum;
          algorithm_version = "x509-standard-library";
          simulation_time = none;
          duration_ms = 0;
          path_summary = "";
          created_at = now;
        })
        db)

  -- Transition with the chain that was read
  abbrev pub move_chain :
      ℕ → ChainState → DB → Attempt CertificateChain → Attempt CertificateChain × DB
  move_chain id to db (err e) = (err e, db)
  move_chain id to db (ok c) =
      if not (can_transition_chain c.chain_state to)
      then (err illegal_transition, db)
      else store_chain id to db c

  -- Transition: the chain is read in the state `seen`, and the transaction begins in `db`.
  unfoldable pub transition_chain : ℕ → ChainState → DB → DB → Attempt CertificateChain × DB
  transition_chain id to seen db =
      if not (is_target to)
      then (err validation, db)
      else move_chain id to db (load d (has_chain_id id) seen)

-- what Compare reports, less what it copies from the chains
pub record ChainComparison : Type 0 where
  pub same_leaf_subject : Bool
  pub anchor_changed : Bool
  pub overlap_start : Instant
  pub overlap_end : Instant
  pub has_valid_overlap : Bool

unfoldable pub compare_chains : CertificateChain → CertificateChain → ChainComparison
compare_chains first second =
    let start =
      if after second.valid_from first.valid_from then second.valid_from else first.valid_from in
    let end = if before second.valid_to first.valid_to then second.valid_to else first.valid_to in
    record {
      same_leaf_subject = str_eq first.leaf_subject second.leaf_subject;
      anchor_changed = not (first.trust_anchor_id == second.trust_anchor_id);
      overlap_start = start;
      overlap_end = end;
      has_valid_overlap = before start end;
    }
