-- ===== src/Anchor.antt =====
-- The life cycle of a trust anchor: Lifecycle of backend/internal/service/trust_anchor_service.go,
-- with SetLifecycle of backend/internal/repository/trust_anchor_repository.go. The number of chains
-- that an answer adds is left out.
use cert_rollover_impact_ass.Prelude.{ℕ, ◌≡◌, Bool, true, false, Option, none, some, String, ◌==◌}
use cert_rollover_impact_ass.Simulator.Snapshot.{Instant}
use cert_rollover_impact_ass.Constants.{CertificateState}
use cert_rollover_impact_ass.Service.{
  Actor, AuditEntry, ServiceError, conflict, internal, Attempt, ok, err, Database, audited, load,
  answer,
}
pub mod Import
pub mod Revoked

-- the model, less the chains that GORM loads beside it
pub record TrustAnchor : Type 0 where
  pub id : ℕ
  pub anchor_code : String
  pub subject_dn : String
  pub serial_number : String
  pub fingerprint_sha256 : String
  pub not_before : Instant
  pub not_after : Instant
  pub key_algorithm : String
  pub certificate_state : CertificateState
  pub pem_redacted : String
  pub revoked_at : Option Instant
  pub archived : Bool
  pub created_at : Instant
  pub updated_at : Instant

abbrev pub AnchorLog : Type 0
AnchorLog = AuditEntry TrustAnchor

-- the actions that the validator accepts
pub data LifecycleAction : Type 0 where
  revoke archive restore : LifecycleAction

abbrev pub action_name : LifecycleAction → String
action_name revoke = "revoke"
action_name archive = "archive"
action_name restore = "restore"

abbrev pub has_anchor_id : ℕ → TrustAnchor → Bool
has_anchor_id id a = a.id == id

-- what an action changes
abbrev pub act_on : Instant → LifecycleAction → TrustAnchor → TrustAnchor
act_on now revoke a = record a {
  revoked_at = some now;
  certificate_state = CertificateState.revoked;
}
act_on now archive a = record a { archived = true }
act_on now restore a = record a { archived = false }

-- what SetLifecycle stores
abbrev pub set_lifecycle : Instant → LifecycleAction → TrustAnchor → TrustAnchor
set_lifecycle now action a = record (act_on now action a) { updated_at = now }

-- the tests on an anchor that was revoked at `revoked_at`
unfoldable pub permits : LifecycleAction → Option Instant → Bool
permits revoke (some _) = false
permits restore (some _) = false
permits _ _ = true

-- an error of the transaction, of whatever kind
abbrev pub unable : ServiceError → ServiceError
unable e = internal

module _ {DB : Type 0} (d : Database DB TrustAnchor AnchorLog) (actor : Actor) (request_id : String)
    (now : Instant) where
  -- the transaction of Lifecycle
  abbrev pub store_anchor : ℕ → LifecycleAction → DB → TrustAnchor → Attempt TrustAnchor × DB
  store_anchor id action db a = answer d unable (has_anchor_id id) (
      audited d (has_anchor_id id) (set_lifecycle now action) internal internal
        (record {
          request_id = request_id;
          actor = actor;
          entity_type = "trust_anchor";
          entity_id = id;
          action = action_name action;
          before = some a;
          after = act_on now action a;
          input_hash = "";
          algorithm_version = "";
          simulation_time = none;
          duration_ms = 0;
          path_summary = "";
          created_at = now;
        })
        db)

  -- Lifecycle with the anchor that was read
  abbrev pub change_anchor :
      ℕ → LifecycleAction → DB → Attempt TrustAnchor → Attempt TrustAnchor × DB
  change_anchor id action db (err e) = (err e, db)
  change_anchor id action db (ok a) = elim (permits action a.revoked_at) [
    | false ↦ (err conflict, db)
    | true ↦ store_anchor id action db a
  ]

  -- Lifecycle: the anchor is read in the state `seen`, and the transaction begins in `db`.
  unfoldable pub lifecycle : ℕ → LifecycleAction → DB → DB → Attempt TrustAnchor × DB
  unfolding permits
  lifecycle id action seen db = change_anchor id action db (load d (has_anchor_id id) seen)
