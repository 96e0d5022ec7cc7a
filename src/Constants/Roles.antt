-- ===== src/Constants/Roles.antt =====
-- Separation of duties among the roles.
use cert_rollover_impact_ass.Prelude.{◌≡◌, ◌⊎◌, ◌↔◌, true, false, arith}
use cert_rollover_impact_ass.Constants.{
  Role, admin, security_reviewer, auditor, unknown, Permission, read, scenario_write, scenario_run,
  scenario_verify, audit_read, has_permission,
}

-- what an auditor's permissions are: none of them changes anything
abbrev pub IsReadOnly : Permission → Type 0
IsReadOnly permission = (permission ≡ read) ⊎ (permission ≡ audit_read)

-- Only the administrator can both write or run a scenario and verify one; the security reviewer
-- verifies and changes nothing else; the auditor only reads; a role outside the list can do nothing;
-- and whoever may do anything may read.
pub duties_separated :
    (role : Role) (permission : Permission)
    → (has_permission role scenario_verify ≡ true
        → (has_permission role scenario_write ≡ true) ⊎ (has_permission role scenario_run ≡ true)
        → role ≡ admin)
      × (has_permission security_reviewer permission ≡ true
          → (permission ≡ scenario_verify) ⊎ IsReadOnly permission)
      × ((has_permission auditor permission ≡ true) ↔ IsReadOnly permission)
      × (has_permission unknown permission ≡ false)
      × (has_permission role permission ≡ true → has_permission role read ≡ true)
unfolding has_permission
duties_separated role permission =
    (ground arith, ground arith, ground arith, ground arith, ground arith)
