-- ===== src/Constants.antt =====
-- backend/internal/constants: the states of certificates, chains and scenarios, and what each role
-- may do. Go spells these as strings; here they are enums, with `unknown` for a role outside the
-- list. The lookup in a map of maps is the clause that returns false for every other pair.
use cert_rollover_impact_ass.Prelude.{
  ℕ, ◌+◌, ◌*◌, Bool, true, false, not, if◌then◌else◌, List, [], ◌∷◌, String,
}
use cert_rollover_impact_ass.Simulator.Snapshot.{Instant, before}
pub mod Certificate
pub mod Scenario
pub mod Roles

-- CertificateState
pub data CertificateState : Type 0 where
  valid expiring expired revoked : CertificateState

abbrev pub certificate_state_name : CertificateState → String
certificate_state_name valid = "valid"
certificate_state_name expiring = "expiring"
certificate_state_name expired = "expired"
certificate_state_name CertificateState.revoked = "revoked"

-- 90 * 24 * time.Hour, in nanoseconds
abbrev pub notice : ℕ
notice = 90 * 24 * 3_600_000_000_000

unfoldable pub calculate_certificate_state : Instant → Instant → Bool → CertificateState
calculate_certificate_state now not_after is_revoked =
    if is_revoked
    then CertificateState.revoked
    else if not (before now not_after)
    then expired
    else if not (before (now + notice) not_after)
    then expiring
    else valid

-- ChainState
pub data ChainState : Type 0 where
  imported validated deprecated revoked : ChainState

abbrev pub chain_state_name : ChainState → String
chain_state_name imported = "imported"
chain_state_name validated = "validated"
chain_state_name deprecated = "deprecated"
chain_state_name ChainState.revoked = "revoked"

unfoldable pub can_transition_chain : ChainState → ChainState → Bool
can_transition_chain imported validated = true
can_transition_chain imported ChainState.revoked = true
can_transition_chain validated deprecated = true
can_transition_chain validated ChainState.revoked = true
can_transition_chain deprecated ChainState.revoked = true
can_transition_chain _ _ = false

-- ScenarioState
pub data ScenarioState : Type 0 where
  draft simulated ready executing verified rollback : ScenarioState

unfoldable pub can_transition_scenario : ScenarioState → ScenarioState → Bool
can_transition_scenario draft simulated = true
can_transition_scenario simulated ready = true
can_transition_scenario simulated draft = true
can_transition_scenario ready executing = true
can_transition_scenario ready draft = true
can_transition_scenario executing verified = true
can_transition_scenario executing rollback = true
can_transition_scenario _ _ = false

pub data Role : Type 0 where
  admin pki_operator service_owner security_reviewer auditor unknown : Role

pub data Permission : Type 0 where
  read anchor_write chain_write dependency_write scenario_write scenario_run scenario_verify
        audit_read :
      Permission

unfoldable pub has_permission : Role → Permission → Bool
has_permission admin permission = true
has_permission pki_operator scenario_verify = false
has_permission pki_operator audit_read = false
has_permission pki_operator _ = true
has_permission service_owner read = true
has_permission service_owner dependency_write = true
has_permission service_owner scenario_write = true
has_permission service_owner scenario_run = true
has_permission security_reviewer read = true
has_permission security_reviewer scenario_verify = true
has_permission security_reviewer audit_read = true
has_permission auditor read = true
has_permission auditor audit_read = true
has_permission _ _ = false
