-- ===== src/Constants/Certificate.antt =====
-- The state of a certificate over time.
use cert_rollover_impact_ass.Prelude.{◌+◌, ◌≤◌, ◌<◌, ◌≡◌, ◌↔◌, Bool, true, false, arith}
use cert_rollover_impact_ass.Simulator.Snapshot.{Instant}
use cert_rollover_impact_ass.Constants.{
  CertificateState, valid, expiring, expired, notice, calculate_certificate_state,
}

-- Each state stands for one region: revoked at any time, else expired from the end on, expiring in
-- the 90 days before it, and valid up to then.
pub calculate_certificate_state_regions :
    (now not_after : Instant) (is_revoked : Bool)
    → let state = calculate_certificate_state now not_after is_revoked in
      ((state ≡ CertificateState.revoked) ↔ (is_revoked ≡ true))
      × ((state ≡ expired) ↔ ((is_revoked ≡ false) × (not_after ≤ now)))
      × ((state ≡ expiring)
          ↔ ((is_revoked ≡ false) × (now < not_after) × (not_after ≤ now + notice)))
      × ((state ≡ valid) ↔ ((is_revoked ≡ false) × (now + notice < not_after)))
unfolding calculate_certificate_state
calculate_certificate_state_regions now not_after is_revoked =
    (ground arith, ground arith, ground arith, ground arith)
