-- ===== src/Scenario/Operations.antt =====
-- The methods of the scenario service and the transition handler.
use cert_rollover_impact_ass.Prelude.{ℕ, Bool, not, String, str_eq, ◌==◌, ltb, if◌then◌else◌}
use cert_rollover_impact_ass.Simulator.Run.{Result}
use cert_rollover_impact_ass.Constants.{
  ScenarioState, draft, verified, has_permission, scenario_write, scenario_verify,
}
use cert_rollover_impact_ass.Service.{
  validation, forbidden, not_found, conflict, illegal_transition, idempotency, reviewer_conflict,
  internal, driver, Attempt, ok, err, ◌>>=◌, ◌>>◌, guard, Fetch, found, no_record, broken, found_or,
  Database, audited,
}
use cert_rollover_impact_ass.Scenario.{
  Scenario, AuditLog, Library, Call, same_state, require_ownership, has_id, has_id_and_state,
  complete, move_to, mark_replayed, entry_of, replay_matches, simulate_frozen, Prepared, reused,
  fresh, authorize_transition,
}

module _ (lib : Library) {DB : Type 0} (d : Database DB Scenario AuditLog) where
  -- Get
  abbrev pub get : ℕ → DB → Attempt Scenario
  get id db = elim (d.first (has_id id) db) [
    | found s ↦ ok s
    | no_record ↦ err not_found
    | broken ↦ err internal
  ]

  -- The answer of a method whose transaction has ended, read in the state that it left.
  abbrev pub respond : ℕ → Attempt DB × DB → Attempt Scenario × DB
  respond id (ok _, db) = (get id db, db)
  respond id (err e, db) = (err e, db)

  module _ (call : Call) (id : ℕ) (to : ScenarioState) (comment : String) (db : DB) where
    -- the transaction of Transition, after the tests
    abbrev pub transition_authorized : Scenario → Attempt (Unit {0}) → Attempt Scenario × DB
    transition_authorized s (err e) = (err e, db)
    transition_authorized s (ok _) = respond id (
        audited d (has_id_and_state id s.scenario_state) (move_to lib call to comment) driver
          conflict
          (entry_of call "transition" s
            (record (move_to lib call to comment s) { updated_at = s.updated_at }) 0 comment)
          db)

    -- Transition with the scenario that was read
    abbrev pub transition_seen : Attempt Scenario → Attempt Scenario × DB
    transition_seen (err e) = (err e, db)
    transition_seen (ok s) = transition_authorized s (authorize_transition lib call to comment s)

  -- Transition: the scenario is read in the state `seen`, and the transaction begins in `db`.
  unfoldable pub transition : Call → ℕ → ScenarioState → String → DB → DB → Attempt Scenario × DB
  transition call id to comment seen db =
      if not (lib.accepts to comment)
      then (err validation, db)
      else transition_seen call id to comment db (found_or (d.first (has_id id) seen) not_found)

  -- Simulate with what was found under its key
  abbrev pub simulate_keyed : Call → ℕ → Scenario → Fetch Scenario → Attempt Prepared
  simulate_keyed call id s (found prior) =
      if not (prior.id == id) then err idempotency else ok (reused prior)
  simulate_keyed call id s broken = err internal
  simulate_keyed call id s no_record = do
    guard (same_state s.scenario_state draft) illegal_transition
    result ← simulate_frozen lib call s
    ok (fresh s result)

  -- the tests that follow those on the key itself
  abbrev pub simulate_named : Call → ℕ → String → DB → DB → Attempt Prepared
  simulate_named call id key seen later = do
    s ← found_or (d.first (has_id id) seen) not_found
    require_ownership call.actor s
    simulate_keyed call id s (d.first (λ r. str_eq r.idempotency_key key) later)

  -- the part of Simulate before its transaction: the scenario is read in `seen`, the key in `later`
  unfoldable pub prepare_simulation : Call → ℕ → String → DB → DB → Attempt Prepared
  prepare_simulation call id key seen later =
      if str_eq key ""
      then err idempotency
      else if ltb 128 (lib.byte_length key)
      then err validation
      else simulate_named call id key seen later

  -- Simulate with what was prepared
  abbrev pub simulate_prepared : Call → ℕ → String → DB → Attempt Prepared → Attempt Scenario × DB
  simulate_prepared call id key db (err e) = (err e, db)
  simulate_prepared call id key db (ok (reused prior)) = (ok prior, db)
  simulate_prepared call id key db (ok (fresh s result)) = respond id (
      audited d (has_id_and_state id draft) (complete lib call key result) driver conflict
        (entry_of call "simulate" s
          (record (complete lib call key result s) { updated_at = s.updated_at }) call.duration
          result.explanation)
        db)

  -- Simulate: its transaction begins in `db`.
  unfoldable pub simulate_scenario : Call → ℕ → String → DB → DB → DB → Attempt Scenario × DB
  simulate_scenario call id header seen later db =
      let key = lib.trim_space header in
      simulate_prepared call id key db (prepare_simulation call id key seen later)

  -- the part of Replay before its transaction
  unfoldable pub prepare_replay : Call → ℕ → DB → Attempt (Scenario × Result)
  prepare_replay call id seen = do
    s ← found_or (d.first (has_id id) seen) not_found
    require_ownership call.actor s
    guard (not (same_state s.scenario_state draft)) illegal_transition
    result ← simulate_frozen lib call s
    ok (s, result)

  -- the answer of Replay
  abbrev pub replay_answer : ℕ → Bool → Attempt DB × DB → Attempt Scenario × DB
  replay_answer id passed (err e, db) = (err e, db)
  replay_answer id passed (ok _, db) = if passed then (get id db, db) else (err conflict, db)

  -- Replay with what was prepared; a mark on a row that is gone is an internal error.
  abbrev pub replay_prepared : Call → ℕ → DB → Attempt (Scenario × Result) → Attempt Scenario × DB
  replay_prepared call id db (err e) = (err e, db)
  replay_prepared call id db (ok (s, result)) =
      let passed = replay_matches lib result s in
      replay_answer id passed (
        audited d (has_id id) (mark_replayed call passed) internal internal
          (entry_of call "replay" s (record s { replay_verified = passed }) 0 result.explanation)
          db)

  unfoldable pub replay : Call → ℕ → DB → DB → Attempt Scenario × DB
  replay call id seen db = replay_prepared call id db (prepare_replay call id seen)

  -- the handler of a transition request, which asks for the permission first
  unfoldable pub handle_transition :
      Call → ℕ → ScenarioState → String → DB → DB → Attempt Scenario × DB
  unfolding transition
  handle_transition call id to comment seen db =
      let permission = if same_state to verified then scenario_verify else scenario_write in
      if has_permission call.actor.role permission
      then transition call id to comment seen db
      else if same_state to verified
      then elim (get id seen) [
        | err e ↦ (err e, db)
        | ok s ↦
            if s.created_by == call.actor.user_id
            then (err reviewer_conflict, db)
            else (err forbidden, db)
      ]
      else (err forbidden, db)
