-- ===== src/Scenario/Effect.antt =====
-- What a request does to the database: nothing, or one legal change or new draft with its audit
-- entry.
use cert_rollover_impact_ass.Prelude.{
  ℕ, ◌≡◌, ◌≢◌, ◌⊎◌, refl, Bool, true, false, ◌∷◌, map, Memᴰ, String, inl, inr, arith, ==_iff,
  if◌then◌else◌,
}
use cert_rollover_impact_ass.Constants.{ScenarioState, draft}
use cert_rollover_impact_ass.Service.{
  ServiceError, Attempt, ok, err, Fetch, found, no_record, broken, found_or, Database, IsDatabase,
  change_where, audited,
}
use cert_rollover_impact_ass.Service.Laws.{audited-IsAtomic}
use cert_rollover_impact_ass.Scenario.{
  Scenario, AuditLog, Library, Call, CreateRequest, has_id, has_id_and_state,
}
use cert_rollover_impact_ass.Scenario.Operations.{
  simulate_scenario, replay, handle_transition, respond,
}
use cert_rollover_impact_ass.Scenario.Create.{Reads, create_scenario}
use cert_rollover_impact_ass.Scenario.Frozen.{IsReadable, IsFrozen}
use cert_rollover_impact_ass.Scenario.Change.{same_state-eq, Same, IsOneOf, IsLegal, IsLegal-refl}

pub data Request : Type 0 where
  open_draft : CreateRequest → Reads → Request
  to_state : ℕ → ScenarioState → String → Request
  run_simulation : ℕ → String → Request
  run_replay : ℕ → Request

-- The documented behaviour of what the service calls.
pub record IsPlatform (lib : Library) {DB : Type 0} (d : Database DB Scenario AuditLog)
    : Type 0 where
  pub law : IsDatabase d
  pub keyed : (r : Scenario) → d.key r ≡ r.id
  pub one_of : IsOneOf lib
  pub readable : IsReadable lib

module _ (lib : Library) {DB : Type 0} (d : Database DB Scenario AuditLog) where
  -- The state that a request leaves. It reads in `seen` and `later`; its transaction begins in `db`.
  unfoldable pub perform : Call → Request → DB → DB → DB → DB
  unfolding create_scenario handle_transition simulate_scenario replay
  perform call (open_draft request reads) seen later db =
      (create_scenario lib d call request reads db).1
  perform call (to_state id to comment) seen later db =
      (handle_transition lib d call id to comment seen db).1
  perform call (run_simulation id key) seen later db =
      (simulate_scenario lib d call id key seen later db).1
  perform call (run_replay id) seen later db = (replay lib d call id seen db).1

  module _ (env : IsPlatform lib d) where
    -- what is known of `q` from the rows of an earlier state
    abbrev pub Known : DB → Scenario → Type 0
    Known seen q = (r : Scenario) → Memᴰ r (d.rows seen) → r.id ≡ q.id → Same r q

    -- A legal change of every row, with one audit entry by the caller about the scenario.
    pub record Acted (call : Call) (id : ℕ) (seen db db' : DB) : Type 0 where
      pub change : Scenario → Scenario
      pub entry : AuditLog
      pub changed : d.rows db' ≡ map change (d.rows db)
      pub legal : (q : Scenario) → Known seen q → IsLegal lib q (change q)
      pub logged : d.log db' ≡ entry ∷ d.log db
      pub by_actor : entry.actor ≡ call.actor
      pub about : entry.entity_id ≡ id

    abbrev pub Effect : Call → ℕ → DB → DB → DB → Type 0
    Effect call id seen db db' = (db' ≡ db) ⊎ Acted call id seen db db'

    -- A new draft of the caller with a valid input, under an id that no scenario had, and its audit
    -- entry.
    pub record Opened (call : Call) (db db' : DB) : Type 0 where
      pub row : Scenario
      pub entry : AuditLog
      pub added : d.rows db' ≡ row ∷ d.rows db
      pub was_free : (r : Scenario) → Memᴰ r (d.rows db) → r.id ≢ row.id
      pub at_draft : row.scenario_state ≡ draft
      pub by_caller : row.created_by ≡ call.actor.user_id
      pub frozen : IsFrozen lib row
      pub logged : d.log db' ≡ entry ∷ d.log db
      pub by_actor : entry.actor ≡ call.actor
      pub about : entry.entity_id ≡ row.id

    -- what a request may do: a step of the abstract description of the service
    abbrev pub Step : Call → Request → DB → DB → DB → Type 0
    Step call (open_draft request reads) seen db db' = (db' ≡ db) ⊎ Opened call db db'
    Step call (to_state id to comment) seen db db' = Effect call id seen db db'
    Step call (run_simulation id key) seen db db' = Effect call id seen db db'
    Step call (run_replay id) seen db db' = Effect call id seen db db'

    change_where-IsLegal :
        (test : Scenario → Bool) (change : Scenario → Scenario) (q : Scenario)
        → (test q ≡ true → IsLegal lib q (change q))
        → IsLegal lib q (change_where test change q)
    change_where-IsLegal test change q h = go (test q) refl
      where
        go : (b : Bool) → test q ≡ b → IsLegal lib q (if b then change q else q)
        go true e = h e
        go false e = IsLegal-refl lib q

    pub audited-Effect :
        (call : Call) (id : ℕ) (seen db : DB) (test : Scenario → Bool)
        (change : Scenario → Scenario) (refused unchanged : ServiceError) (entry : AuditLog)
        → entry.actor ≡ call.actor
        → entry.entity_id ≡ id
        → ((q : Scenario) → Known seen q → test q ≡ true → IsLegal lib q (change q))
        → Effect call id seen db (audited d test change refused unchanged entry db).1
    audited-Effect call id seen db test change refused unchanged entry actor about legal =
        elim (audited-IsAtomic d env.law test change refused unchanged entry db) [
          | inl (_, same) ↦ inl same
          | inr (_, made) ↦ inr (record {
            change = change_where test change;
            entry = entry;
            changed = made.changed_rows;
            legal = λ q known. change_where-IsLegal test change q (legal q known);
            logged = made.logged;
            by_actor = actor;
            about = about;
          })
        ]

    pub respond_state : (id : ℕ) (r : Attempt DB × DB) → (respond lib d id r).1 ≡ r.1
    respond_state id (ok _, db) = refl
    respond_state id (err e, db) = refl

    pub found_lem :
        (id : ℕ) (seen : DB) (e : ServiceError) (r : Scenario)
        → found_or (d.first (has_id id) seen) e ≡ ok r
        → Memᴰ r (d.rows seen) × (r.id ≡ id)
    found_lem id seen e r h =
        let (m, t) = env.law.first_found (has_id id) seen r (of (d.first (has_id id) seen) h) in
        (m, (==_iff r.id id).0 t)
      where
        of : (f : Fetch Scenario) → found_or f e ≡ ok r → f ≡ found r
        of (found s) h = cc
        of no_record h = cc
        of broken h = cc

    pub has_id_and_state_lem :
        (id : ℕ) (from : ScenarioState) (q : Scenario)
        → has_id_and_state id from q ≡ true
        → (q.id ≡ id) × (q.scenario_state ≡ from)
    has_id_and_state_lem id from q h =
        (ground arith, same_state-eq q.scenario_state from (ground arith))
