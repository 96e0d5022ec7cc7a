-- ===== src/Scenario/Progress.antt =====
-- A draft can always be simulated.
use cert_rollover_impact_ass.Prelude.{
  ℕ, ◌≡◌, false, List, ◌∷◌, String, str_eq, ltb, inl, inr, ap, ◌∙◌,
}
use cert_rollover_impact_ass.Simulator.Run.{Result}
use cert_rollover_impact_ass.Simulator.Run.Total.{simulate_decides}
use cert_rollover_impact_ass.Constants.{draft}
use cert_rollover_impact_ass.Service.{ok, found, no_record, Database}
use cert_rollover_impact_ass.Scenario.{
  Scenario, AuditLog, Library, Call, has_id, fresh, require_ownership, simulate_decoded,
  simulate_frozen, outcome_of,
}
use cert_rollover_impact_ass.Scenario.Operations.{prepare_simulation}
use cert_rollover_impact_ass.Scenario.Frozen.{IsRanging, IsFrozen}
use cert_rollover_impact_ass.Scenario.Effect.{IsPlatform}
use cert_rollover_impact_ass.Scenario.Runs.{Run, IsStart}
use cert_rollover_impact_ass.Scenario.Runs.Invariant.{Run-invariant}

module _ (lib : Library) where
  -- a valid frozen input can be simulated
  frozen_simulates :
      (call : Call) (s : Scenario)
      → IsRanging call
      → IsFrozen lib s
      → (result : Result) × (simulate_frozen lib call s ≡ ok result)
  unfolding simulate_frozen
  frozen_simulates call s ranging (snapshot, e, valid) =
      elim (simulate_decides (call.order snapshot) snapshot (ranging snapshot)) [
        | inl (_, (result, run)) ↦ (result, ap (simulate_decoded call) e ∙ ap outcome_of run)
        | inr (bad, _) ↦ absurd (bad valid)
      ]

  module _ {DB : Type 0} (d : Database DB Scenario AuditLog) where
    -- After a run of requests, new scenarios included, from a start in which equal ids mean equal
    -- creators and inputs, verified scenarios are separated, results are stored and frozen inputs are
    -- valid, a draft that is found can be simulated by its creator or a PKI administrator under a
    -- key that is not empty, has at most 128 bytes and is bound to no scenario: Simulate gets as far
    -- as its transaction, with a result to store.
    pub drafts_simulate :
        (env : IsPlatform lib d) (start db : DB) (past : List DB)
        → IsStart lib d start
        → Run lib d start (db ∷ past)
        → (call : Call) (id : ℕ) (key : String) (s : Scenario) → IsRanging call
        → d.first (has_id id) db ≡ found s
        → d.first (λ r. str_eq r.idempotency_key key) db ≡ no_record
        → require_ownership call.actor s ≡ ok tt
        → s.scenario_state ≡ draft
        → str_eq key "" ≡ false
        → ltb 128 (lib.byte_length key) ≡ false
        → (result : Result) × (prepare_simulation lib d call id key db db ≡ ok (fresh s result))
    unfolding prepare_simulation
    drafts_simulate env start db past ok_start run call id key s ranging f free owner at given
          short =
        let (_, _, frozen) = Run-invariant lib d env start db past ok_start run in
        let (result, r) =
          frozen_simulates call s ranging (frozen s (env.law.first_found (has_id id) db s f).0) in
        (result, simp (f, free, owner, at, given, short, r))
