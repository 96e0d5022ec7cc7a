-- ===== src/Scenario/Replayed.antt =====
-- Replay finds what Simulate has stored.
use cert_rollover_impact_ass.Prelude.{
  ℕ, ◌≡◌, ◌≢◌, refl, ◌∙◌, true, not, List, ◌∷◌, String, str_eq, eq_iff, inl, inr, ap, Bool-cases,
}
use cert_rollover_impact_ass.Simulator.Snapshot.{Snapshot}
use cert_rollover_impact_ass.Simulator.Snapshot.Validate.{Ranges, IsValid}
use cert_rollover_impact_ass.Simulator.Run.{Result, Simulation, simulate}
use cert_rollover_impact_ass.Simulator.Run.Total.{simulate_decides, simulate_deterministic}
use cert_rollover_impact_ass.Constants.{ScenarioState, draft}
use cert_rollover_impact_ass.Service.{ok, found, Database}
use cert_rollover_impact_ass.Scenario.{
  Scenario, AuditLog, Library, Call, same_state, has_id, require_ownership, simulate_decoded,
  simulate_frozen, replay_matches, outcome_of,
}
use cert_rollover_impact_ass.Scenario.Operations.{prepare_replay}
use cert_rollover_impact_ass.Scenario.Change.{same_state-eq, HasResult}
use cert_rollover_impact_ass.Scenario.Frozen.{IsRanging}
use cert_rollover_impact_ass.Scenario.Effect.{IsPlatform}
use cert_rollover_impact_ass.Scenario.Runs.{Run, IsStart}
use cert_rollover_impact_ass.Scenario.Runs.Invariant.{Run-invariant}

IsValid-of_simulated :
    (order : List ℕ) (snapshot : Snapshot) (result : Result)
    → Ranges snapshot.services order
    → simulate order snapshot ≡ Simulation.simulated result
    → IsValid snapshot
IsValid-of_simulated order snapshot result r h = elim (simulate_decides order snapshot r) [
  | inl (valid, _) ↦ valid
  | inr (_, (error, e)) ↦ cc (h, e)
]

str_eq_refl : (s : String) → str_eq s s ≡ true
str_eq_refl s = (eq_iff s s).1 refl

not_draft : (s : ScenarioState) → s ≢ draft → not (same_state s draft) ≡ true
not_draft s n = elim (Bool-cases (same_state s draft)) [
  | inl e ↦ absurd (n (same_state-eq s draft e))
  | inr e ↦ rw e refl
]

module _ (lib : Library) where
  -- A later simulation of the same input has the same result, whatever the order of its range.
  simulate_again :
      (call : Call) (s : Scenario)
      → IsRanging call
      → (h : HasResult lib s) → simulate_frozen lib call s ≡ ok h.result
  unfolding simulate_frozen
  simulate_again call s ranging h =
      let valid = IsValid-of_simulated h.order h.snapshot h.result h.ranges h.computed in
      let again : simulate (call.order h.snapshot) h.snapshot ≡ Simulation.simulated h.result =
        simulate_deterministic (call.order h.snapshot) h.order h.snapshot (ranging h.snapshot)
          h.ranges valid
        ∙ h.computed in
      ap (simulate_decoded call) h.frozen ∙ ap outcome_of again

  matches : (s : Scenario) (h : HasResult lib s) → replay_matches lib h.result s ≡ true
  matches s h =
      rw
        (
          h.affected_stored, h.paths_stored, h.evidence_stored, h.explanation_stored, str_eq_refl,
          str_eq_refl, str_eq_refl, str_eq_refl,
        )
        refl

  module _ {DB : Type 0} (d : Database DB Scenario AuditLog) where
    prepare_replay_ok :
        (call : Call) (id : ℕ) (seen : DB) (s : Scenario)
        → IsRanging call
        → d.first (has_id id) seen ≡ found s
        → require_ownership call.actor s ≡ ok tt
        → s.scenario_state ≢ draft
        → (h : HasResult lib s) → prepare_replay lib d call id seen ≡ ok (s, h.result)
    unfolding prepare_replay
    prepare_replay_ok call id seen s ranging f o n h =
        simp (f, o, not_draft s.scenario_state n, simulate_again call s ranging h)

    -- After a run of requests from a start in which equal ids mean equal creators and inputs, verified
    -- scenarios are separated, results are stored and frozen inputs are valid, a replay by the creator or a PKI administrator of a scenario that is
    -- found and is no draft simulates again, with the results that are stored, whatever the order in
    -- which Go ranges over the edge map then and now.
    pub replay_passes :
        (env : IsPlatform lib d) (start db : DB) (past : List DB)
        → IsStart lib d start
        → Run lib d start (db ∷ past)
        → (call : Call) (id : ℕ) (s : Scenario) → IsRanging call
        → d.first (has_id id) db ≡ found s
        → require_ownership call.actor s ≡ ok tt
        → s.scenario_state ≢ draft
        → (result : Result) × (prepare_replay lib d call id db ≡ ok (s, result))
          × (replay_matches lib result s ≡ true)
    replay_passes env start db past ok_start run call id s ranging f o n =
        let (_, replayable, _) = Run-invariant lib d env start db past ok_start run in
        let h = replayable s (env.law.first_found (has_id id) db s f).0 n in
        (h.result, prepare_replay_ok call id db s ranging f o n h, matches s h)
