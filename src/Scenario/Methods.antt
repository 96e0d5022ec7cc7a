-- ===== src/Scenario/Methods.antt =====
-- The effect of each method.
use cert_rollover_impact_ass.Prelude.{
  ℕ, ◌≡◌, ◌≢◌, refl, sym, subst, Bool, true, false, not, String, str_eq, inl, arith, ltb,
  if◌then◌else◌, Memᴰ, ◌==◌, ◌∙◌,
}
use cert_rollover_impact_ass.Simulator.Run.{Result}
use cert_rollover_impact_ass.Constants.{
  ScenarioState, draft, verified, has_permission, scenario_write, scenario_verify,
}
use cert_rollover_impact_ass.Service.{
  Attempt, ok, err, ◌>>=◌, ◌>>◌, guard, Fetch, found, no_record, broken, found_or, Database, driver,
  conflict, internal, not_found, validation, forbidden, reviewer_conflict, illegal_transition,
  idempotency,
}
use cert_rollover_impact_ass.Service.Laws.{>>=-inv}
use cert_rollover_impact_ass.Scenario.{
  Scenario, AuditLog, Library, Call, same_state, has_id, Prepared, reused, fresh, simulate_frozen,
  authorize_transition, require_ownership,
}
use cert_rollover_impact_ass.Scenario.Operations.{
  transition_authorized, transition_seen, transition, simulate_keyed, simulate_named,
  prepare_simulation, simulate_prepared, simulate_scenario, prepare_replay, replay_answer,
  replay_prepared, replay, handle_transition, get,
}
use cert_rollover_impact_ass.Scenario.Change.{
  mark_replayed-IsLegal, complete-IsLegal, move_to-IsLegal,
}
use cert_rollover_impact_ass.Scenario.Frozen.{IsRanging}
use cert_rollover_impact_ass.Scenario.Opened.{create_scenario-Opened}
use cert_rollover_impact_ass.Scenario.Effect.{
  Request, to_state, run_simulation, run_replay, open_draft, IsPlatform, Step, perform, Effect,
  audited-Effect, respond_state, found_lem, has_id_and_state_lem,
}

module _ (lib : Library) {DB : Type 0} (d : Database DB Scenario AuditLog)
    (env : IsPlatform lib d) where
  transition_seen-Effect :
      (call : Call) (id : ℕ) (to : ScenarioState) (comment : String) (seen db : DB)
      (a : Attempt Scenario)
      → to ≢ ScenarioState.simulated
      → ((s : Scenario) → a ≡ ok s → Memᴰ s (d.rows seen) × (s.id ≡ id))
      → Effect lib d env call id seen db (transition_seen lib d call id to comment db a).1
  transition_seen-Effect call id to comment seen db (err e) allowed from = inl refl
  transition_seen-Effect call id to comment seen db (ok s) allowed from =
      go (authorize_transition lib call to comment s) refl
    where
      go :
          (a : Attempt (Unit {0}))
          → authorize_transition lib call to comment s ≡ a
          → Effect lib d env call id seen db
              (transition_authorized lib d call id to comment db s a).1
      go (err e) h = inl refl
      go (ok _) h =
          let (m, here) = from s refl in
          subst (Effect lib d env call id seen db) (sym (respond_state lib d env id _)) (
            audited-Effect lib d env call id seen db _ _ driver conflict _ refl here (λ q known t.
              let (qid, at) = has_id_and_state_lem lib d env id s.scenario_state q t in
              move_to-IsLegal lib call to comment s q allowed h (known s m (here ∙ sym qid)) at))

  transition-Effect :
      (call : Call) (id : ℕ) (to : ScenarioState) (comment : String) (seen db : DB)
      → Effect lib d env call id seen db (transition lib d call id to comment seen db).1
  unfolding transition
  transition-Effect call id to comment seen db = go (lib.accepts to comment) refl
    where
      check : Bool → Attempt Scenario × DB
      check b =
          if not b
          then (err validation, db)
          else transition_seen lib d call id to comment db
              (found_or (d.first (has_id id) seen) not_found)

      go : (b : Bool) → lib.accepts to comment ≡ b → Effect lib d env call id seen db (check b).1
      go false e = inl refl
      go true e =
          transition_seen-Effect call id to comment seen db
            (found_or (d.first (has_id id) seen) not_found)
            (λ s.
              let h : lib.accepts ScenarioState.simulated comment ≡ true = rw s at e in
              cc (env.one_of comment))
            (λ s h. found_lem lib d env id seen not_found s h)

  simulate_keyed_fresh :
      (call : Call) (id : ℕ) (r s : Scenario) (f : Fetch Scenario) (result : Result)
      → simulate_keyed lib d call id r f ≡ ok (fresh s result)
      → (r ≡ s) × (simulate_frozen lib call s ≡ ok result)
  simulate_keyed_fresh call id r s (found prior) result h = ground arith
  simulate_keyed_fresh call id r s broken result h = cc
  simulate_keyed_fresh call id r s no_record result h =
      let (_, _, h1) =
        >>=-inv (guard (same_state r.scenario_state draft) illegal_transition)
          (λ _. simulate_frozen lib call r >>= λ x. ok (fresh r x)) (fresh s result) h in
      let (x, e, h2) =
        >>=-inv (simulate_frozen lib call r) (λ x. ok (fresh r x)) (fresh s result) h1 in
      let same : r ≡ s = cc in
      let same_result : x ≡ result = cc in (same, rw (← same, ← same_result) e)

  prepare_simulation_fresh :
      (call : Call) (id : ℕ) (key : String) (seen later : DB) (s : Scenario) (result : Result)
      → prepare_simulation lib d call id key seen later ≡ ok (fresh s result)
      → Memᴰ s (d.rows seen) × (s.id ≡ id) × (simulate_frozen lib call s ≡ ok result)
  unfolding prepare_simulation
  prepare_simulation_fresh call id key seen later s result h =
      go (str_eq key "") (ltb 128 (lib.byte_length key)) h
    where
      go :
          (b c : Bool)
          → (if b
              then err idempotency
              else if c
              then err validation
              else simulate_named lib d call id key seen later)
            ≡ ok (fresh s result)
          → Memᴰ s (d.rows seen) × (s.id ≡ id) × (simulate_frozen lib call s ≡ ok result)
      go true c h = cc
      go false true h = cc
      go false false h =
          let (r, e, h1) = >>=-inv (found_or (d.first (has_id id) seen) not_found) _ _ h in
          let (_, _, h2) = >>=-inv (require_ownership call.actor r) _ _ h1 in
          let (same, run) = simulate_keyed_fresh call id r s _ result h2 in
          let (m, here) = found_lem lib d env id seen not_found r e in
          (
            subst (λ x. Memᴰ x (d.rows seen)) same m,
            subst (λ (x : Scenario). x.id ≡ id) same here,
            run,
          )

  simulate_prepared-Effect :
      (call : Call) (id : ℕ) (key : String) (seen db : DB) (p : Attempt Prepared)
      → IsRanging call
      → ((s : Scenario) (result : Result)
          → p ≡ ok (fresh s result)
          → Memᴰ s (d.rows seen) × (s.id ≡ id) × (simulate_frozen lib call s ≡ ok result))
      → Effect lib d env call id seen db (simulate_prepared lib d call id key db p).1
  simulate_prepared-Effect call id key seen db (err e) ranging from = inl refl
  simulate_prepared-Effect call id key seen db (ok (reused prior)) ranging from = inl refl
  simulate_prepared-Effect call id key seen db (ok (fresh s result)) ranging from =
      let (m, here, run) = from s result refl in
      subst (Effect lib d env call id seen db) (sym (respond_state lib d env id _)) (
        audited-Effect lib d env call id seen db _ _ driver conflict _ refl here (λ q known t.
          let (qid, at) = has_id_and_state_lem lib d env id draft q t in
          complete-IsLegal lib call key s q result ranging run (known s m (here ∙ sym qid)) at))

  prepare_replay_lem :
      (call : Call) (id : ℕ) (seen : DB) (s : Scenario) (result : Result)
      → prepare_replay lib d call id seen ≡ ok (s, result)
      → Memᴰ s (d.rows seen) × (s.id ≡ id)
  unfolding prepare_replay
  prepare_replay_lem call id seen s result h =
      let (r, e, h1) =
        >>=-inv (found_or (d.first (has_id id) seen) not_found) after_read (s, result) h in
      let (_, _, h2) =
        >>=-inv (require_ownership call.actor r) (λ _. after_owner r) (s, result) h1 in
      let (_, _, h3) =
        >>=-inv (guard (not (same_state r.scenario_state draft)) illegal_transition)
          (λ _. after_guard r) (s, result) h2 in
      let (x, _, h4) = >>=-inv (simulate_frozen lib call r) (λ x. ok (r, x)) (s, result) h3 in
      let same : r ≡ s = cc in found_lem lib d env id seen not_found s (rw (← same) e)
    where
      after_guard : Scenario → Attempt (Scenario × Result)
      after_guard r = do x ← simulate_frozen lib call r; ok (r, x)

      after_owner : Scenario → Attempt (Scenario × Result)
      after_owner r = do
        guard (not (same_state r.scenario_state draft)) illegal_transition
        after_guard r

      after_read : Scenario → Attempt (Scenario × Result)
      after_read r = do require_ownership call.actor r; after_owner r

  replay_answer_state :
      (id : ℕ) (passed : Bool) (a : Attempt DB × DB) → (replay_answer lib d id passed a).1 ≡ a.1
  replay_answer_state id passed (err e, db) = refl
  replay_answer_state id true (ok _, db) = refl
  replay_answer_state id false (ok _, db) = refl

  replay_prepared-Effect :
      (call : Call) (id : ℕ) (seen db : DB) (p : Attempt (Scenario × Result))
      → ((s : Scenario) (result : Result) → p ≡ ok (s, result) → Memᴰ s (d.rows seen) × (s.id ≡ id))
      → Effect lib d env call id seen db (replay_prepared lib d call id db p).1
  replay_prepared-Effect call id seen db (err e) from = inl refl
  replay_prepared-Effect call id seen db (ok (s, result)) from =
      subst (Effect lib d env call id seen db) (sym (replay_answer_state id _ _)) (
        audited-Effect lib d env call id seen db _ _ internal internal _ refl (from s result refl).1
          (λ q known t. mark_replayed-IsLegal lib call _ q))

  -- the handler adds tests only
  handle_transition-Effect :
      (call : Call) (id : ℕ) (to : ScenarioState) (comment : String) (seen db : DB)
      → Effect lib d env call id seen db (handle_transition lib d call id to comment seen db).1
  unfolding handle_transition
  handle_transition-Effect call id to comment seen db =
      go
        (has_permission call.actor.role
          (if same_state to verified then scenario_verify else scenario_write))
        (same_state to verified) (get lib d id seen)
    where
      refusal : Attempt Scenario → Attempt Scenario × DB
      refusal a = elim a [
        | err e ↦ (err e, db)
        | ok s ↦
            if s.created_by == call.actor.user_id
            then (err reviewer_conflict, db)
            else (err forbidden, db)
      ]

      refused : (a : Attempt Scenario) → (refusal a).1 ≡ db
      refused (err e) = refl
      refused (ok s) = own (s.created_by == call.actor.user_id)
        where
          own :
              (b : Bool)
              → let r : Attempt Scenario × DB =
                  if b then (err reviewer_conflict, db) else (err forbidden, db) in
                r.1 ≡ db
          own true = refl
          own false = refl

      go :
          (allowed verifies : Bool) (a : Attempt Scenario)
          → let r : Attempt Scenario × DB =
              if allowed
              then transition lib d call id to comment seen db
              else if verifies
              then refusal a
              else (err forbidden, db) in
            Effect lib d env call id seen db r.1
      go true verifies a = transition-Effect call id to comment seen db
      go false true a = inl (refused a)
      go false false a = inl refl

  -- The methods implement the abstract steps of the service. Whatever is requested, and however old
  -- the states in which the request has read: it leaves the database as it was, or it makes one
  -- change, which is legal for each scenario that still is what it was when it was read, and adds one
  -- audit entry with the caller and the scenario; or, if the request is to create a scenario, it adds
  -- one draft of the caller, under an id that no scenario had, whose frozen input can be read and is
  -- valid, with its audit entry.
  pub perform-Step :
      (call : Call) (request : Request) (seen later db : DB)
      → IsRanging call
      → Step lib d env call request seen db (perform lib d call request seen later db)
  unfolding perform simulate_scenario replay
  perform-Step call (open_draft request reads) seen later db ranging =
      create_scenario-Opened lib d env call request reads db ranging
  perform-Step call (to_state id to comment) seen later db ranging =
      handle_transition-Effect call id to comment seen db
  perform-Step call (run_simulation id header) seen later db ranging =
      simulate_prepared-Effect call id (lib.trim_space header) seen db _ ranging (λ s result h.
        prepare_simulation_fresh call id (lib.trim_space header) seen later s result h)
  perform-Step call (run_replay id) seen later db ranging =
      replay_prepared-Effect call id seen db _
        (λ s result h. prepare_replay_lem call id seen s result h)
