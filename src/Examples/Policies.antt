-- ===== src/Examples/Policies.antt =====
-- The theorems about the states, the roles and the rate limiter at concrete inputs.
use cert_rollover_impact_ass.Prelude.{
  ◌+◌, ◌≡◌, ◌↔◌, ◌⊎◌, ◌≤◌, ◌<◌, refl, true, false, List, [], ◌∷◌, Memᴰ, String, arith, min, ltb,
  if◌then◌else◌,
}
use cert_rollover_impact_ass.Simulator.Snapshot.{Instant}
use cert_rollover_impact_ass.Constants.{
  CertificateState, valid, expiring, expired, notice, calculate_certificate_state, ScenarioState,
  draft, simulated, ready, executing, verified, can_transition_scenario, service_owner, admin,
  security_reviewer, auditor, unknown, scenario_write, scenario_run, scenario_verify, read,
  has_permission,
}
use cert_rollover_impact_ass.Constants.Certificate.{calculate_certificate_state_regions}
use cert_rollover_impact_ass.Constants.Scenario.{Course, rest, move, verified_after_all}
use cert_rollover_impact_ass.Constants.Roles.{IsReadOnly, duties_separated}
use cert_rollover_impact_ass.RateLimit.{new_rate_limiter, admitted, demand}
use cert_rollover_impact_ass.RateLimit.Quota.{quota}
use cert_rollover_impact_ass.Examples.Sample.{start, hour}

calculate_certificate_state_regions_example :
    let state = calculate_certificate_state start (start + hour) false in
    ((state ≡ CertificateState.revoked) ↔ (false ≡ true))
    × ((state ≡ expired) ↔ ((false ≡ false) × (start + hour ≤ start)))
    × ((state ≡ expiring)
        ↔ ((false ≡ false) × (start < start + hour) × (start + hour ≤ start + notice)))
    × ((state ≡ valid) ↔ ((false ≡ false) × (start + notice < start + hour)))
calculate_certificate_state_regions_example =
    calculate_certificate_state_regions start (start + hour) false

-- sent back to a draft once
abbrev history : List ScenarioState
history = draft ∷ simulated ∷ draft ∷ simulated ∷ ready ∷ executing ∷ verified ∷ []

history-Course : Course draft history verified
unfolding can_transition_scenario
history-Course = move refl (move refl (move refl (move refl (move refl (move refl rest)))))

verified_after_all_example : Memᴰ simulated history × Memᴰ ready history × Memᴰ executing history
verified_after_all_example = verified_after_all history history-Course

duties_separated_example :
    (has_permission service_owner scenario_verify ≡ true
      → (has_permission service_owner scenario_write ≡ true)
        ⊎ (has_permission service_owner scenario_run ≡ true)
      → service_owner ≡ admin)
    × (has_permission security_reviewer read ≡ true → (read ≡ scenario_verify) ⊎ IsReadOnly read)
    × ((has_permission auditor read ≡ true) ↔ IsReadOnly read)
    × (has_permission unknown read ≡ false)
    × (has_permission service_owner read ≡ true → has_permission service_owner read ≡ true)
duties_separated_example = duties_separated service_owner read

-- three requests of one client within a minute, and one of another
abbrev requests : List (String × Instant)
requests = ("a", start) ∷ ("b", start) ∷ ("a", start + 5) ∷ ("a", start + 1_000_000_000) ∷ []

quota_example :
    admitted "a" (new_rate_limiter 2) requests
    ≡ min (if ltb 2 1 then 1 else 2) (demand "a" requests)
quota_example = quota "a" 2 start requests (omega arith) (
  omega arith,
  omega arith,
  (omega arith, omega arith, (omega arith, omega arith, (omega arith, omega arith, tt))),
)
