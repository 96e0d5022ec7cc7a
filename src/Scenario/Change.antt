-- ===== src/Scenario/Change.antt =====
-- What a request may do to the rows: the three changes, and that each of them is legal.
use cert_rollover_impact_ass.Prelude.{
  ℕ, ◌≡◌, ◌≢◌, ◌⊎◌, refl, sym, ◌∙◌, Bool, true, false, Option, none, some, List, String, inl, inr,
  arith, subst,
}
use cert_rollover_impact_ass.Simulator.Snapshot.{Snapshot}
use cert_rollover_impact_ass.Simulator.Snapshot.Validate.{Ranges}
use cert_rollover_impact_ass.Simulator.Run.{Result, Simulation, simulate}
use cert_rollover_impact_ass.Constants.{
  ScenarioState, draft, verified, rollback, can_transition_scenario,
}
use cert_rollover_impact_ass.Service.{ok}
use cert_rollover_impact_ass.Scenario.Frozen.{IsRanging}
use cert_rollover_impact_ass.Scenario.{
  Scenario, Library, Call, same_state, complete, move_to, mark_replayed, outcome_of,
  simulate_decoded, simulate_frozen, authorize_transition,
}

pub same_state-eq : (a b : ScenarioState) → same_state a b ≡ true → a ≡ b
same_state-eq draft draft h = refl
same_state-eq ScenarioState.simulated ScenarioState.simulated h = refl
same_state-eq ScenarioState.ready ScenarioState.ready h = refl
same_state-eq ScenarioState.executing ScenarioState.executing h = refl
same_state-eq verified verified h = refl
same_state-eq rollback rollback h = refl
same_state-eq _ _ h = cc

-- what no request changes
pub record Same (r q : Scenario) : Type 0 where
  pub creator : r.created_by ≡ q.created_by
  pub input : r.input_snapshot ≡ q.input_snapshot

-- A verified scenario was verified by someone who did not create it.
abbrev pub IsSeparated : Scenario → Type 0
IsSeparated q =
    q.scenario_state ≡ verified → (u : ℕ) × (q.verified_by ≡ some u) × (u ≢ q.created_by)

-- The stored results are those of the frozen input.
pub record IsResult (lib : Library) (input affected paths evidence explanation : String)
    : Type 0 where
  pub snapshot : Snapshot
  pub order : List ℕ
  pub result : Result
  pub frozen : lib.decode_snapshot input ≡ some snapshot
  pub ranges : Ranges snapshot.services order
  pub computed : simulate order snapshot ≡ Simulation.simulated result
  pub affected_stored : affected ≡ lib.encode_affected result.affected_services
  pub paths_stored : paths ≡ lib.encode_paths result.broken_paths
  pub evidence_stored : evidence ≡ lib.encode_evidence result.evidence
  pub explanation_stored : explanation ≡ result.explanation

abbrev pub HasResult : Library → Scenario → Type 0
HasResult lib q =
    IsResult lib q.input_snapshot q.affected_services_json q.broken_paths_json q.path_evidence_json
      q.explanation

-- A scenario that is no draft has its results.
abbrev pub IsReplayable : Library → Scenario → Type 0
IsReplayable lib q = q.scenario_state ≢ draft → HasResult lib q

-- the documented behaviour of the validator's `oneof`: no request names the state `simulated`
abbrev pub IsOneOf : Library → Type 0
IsOneOf lib = (comment : String) → lib.accepts ScenarioState.simulated comment ≡ false

module _ (lib : Library) where
  -- a legal change of a row `q` whose creator and input are known from `r`
  pub record IsLegal (q q' : Scenario) : Type 0 where
    pub same_id : q'.id ≡ q.id
    pub same : Same q q'
    pub legal :
        (q'.scenario_state ≡ q.scenario_state)
        ⊎ (can_transition_scenario q.scenario_state q'.scenario_state ≡ true)
    pub separated : IsSeparated q → IsSeparated q'
    pub replayable : IsReplayable lib q → IsReplayable lib q'

  pub IsLegal-refl : (q : Scenario) → IsLegal q q
  IsLegal-refl q = record {
    same_id = refl;
    same = record { creator = refl; input = refl };
    legal = inl refl;
    separated = λ s. s;
    replayable = λ r. r;
  }

  pub mark_replayed-IsLegal :
      (call : Call) (passed : Bool) (q : Scenario) → IsLegal q (mark_replayed call passed q)
  mark_replayed-IsLegal call passed q = record {
    same_id = refl;
    same = record { creator = refl; input = refl };
    legal = inl refl;
    separated = λ s. s;
    replayable = λ r. r;
  }

  -- what Simulate stores for `input`
  abbrev pub IsResultOf : String → Result → Type 0
  IsResultOf input result =
      IsResult lib input (lib.encode_affected result.affected_services)
        (lib.encode_paths result.broken_paths) (lib.encode_evidence result.evidence)
        result.explanation

  outcome_of_lem :
      (s : Simulation) (result : Result)
      → outcome_of s ≡ ok result
      → s ≡ Simulation.simulated result
  outcome_of_lem (Simulation.simulated x) result h = cc
  outcome_of_lem (Simulation.failed e) result h = cc
  outcome_of_lem Simulation.out_of_fuel result h = cc

  simulate_decoded_lem :
      (call : Call) (input : String) (o : Option Snapshot) (result : Result)
      → IsRanging call
      → lib.decode_snapshot input ≡ o
      → simulate_decoded call o ≡ ok result
      → IsResultOf input result
  simulate_decoded_lem call input none result ranging e h = cc
  simulate_decoded_lem call input (some snapshot) result ranging e h = record {
    snapshot = snapshot;
    order = call.order snapshot;
    result = result;
    frozen = e;
    ranges = ranging snapshot;
    computed = outcome_of_lem (simulate (call.order snapshot) snapshot) result h;
    affected_stored = refl;
    paths_stored = refl;
    evidence_stored = refl;
    explanation_stored = refl;
  }

  simulate_frozen_lem :
      (call : Call) (r : Scenario) (result : Result)
      → IsRanging call
      → simulate_frozen lib call r ≡ ok result
      → IsResultOf r.input_snapshot result
  unfolding simulate_frozen
  simulate_frozen_lem call r result ranging h =
      simulate_decoded_lem call r.input_snapshot (lib.decode_snapshot r.input_snapshot) result
        ranging refl h

  -- Simulate completes a draft.
  pub complete-IsLegal :
      (call : Call) (key : String) (r q : Scenario) (result : Result)
      → IsRanging call
      → simulate_frozen lib call r ≡ ok result
      → Same r q
      → q.scenario_state ≡ draft
      → IsLegal q (complete lib call key result q)
  unfolding can_transition_scenario
  complete-IsLegal call key r q result ranging h known at_draft = record {
    same_id = refl;
    same = record { creator = refl; input = refl };
    legal = inr (rw at_draft refl);
    separated = λ _ e. cc;
    replayable = λ _ _.
        subst (λ i. IsResultOf i result) known.input (simulate_frozen_lem call r result ranging h);
  }

  -- the fields that a transition leaves alone, and the new state
  abbrev Moves : ScenarioState → Scenario → Scenario → Type 0
  Moves to q q' =
      (q'.id ≡ q.id)
      × (q'.created_by ≡ q.created_by)
      × (q'.scenario_state ≡ to)
      × (HasResult lib q → HasResult lib q')
      × (q'.input_snapshot ≡ q.input_snapshot)

  move_to-Moves :
      (call : Call) (to : ScenarioState) (comment : String) (q : Scenario)
      → Moves to q (move_to lib call to comment q)
  move_to-Moves call draft comment q = (refl, refl, refl, (λ h. h), refl)
  move_to-Moves call ScenarioState.simulated comment q = (refl, refl, refl, (λ h. h), refl)
  move_to-Moves call ScenarioState.ready comment q = (refl, refl, refl, (λ h. h), refl)
  move_to-Moves call ScenarioState.executing comment q = (refl, refl, refl, (λ h. h), refl)
  move_to-Moves call verified comment q = (refl, refl, refl, (λ h. h), refl)
  move_to-Moves call rollback comment q = (refl, refl, refl, (λ h. h), refl)

  -- what the tests of a transition have shown
  abbrev Authorized : Call → ScenarioState → Scenario → Type 0
  Authorized call to r =
      (can_transition_scenario r.scenario_state to ≡ true)
      × (to ≡ verified → call.actor.user_id ≢ r.created_by)

  authorize_transition_lem :
      (call : Call) (to : ScenarioState) (comment : String) (r : Scenario)
      → authorize_transition lib call to comment r ≡ ok tt
      → Authorized call to r
  unfolding authorize_transition
  authorize_transition_lem call to comment r h = ground arith

  move_to-IsSeparated :
      (call : Call) (to : ScenarioState) (comment : String) (r q : Scenario)
      → Authorized call to r
      → Same r q
      → IsSeparated (move_to lib call to comment q)
  move_to-IsSeparated call verified comment r q (_, other) known e =
      (call.actor.user_id, refl, λ same. other refl (same ∙ sym known.creator))
  move_to-IsSeparated call draft comment r q auth known e = cc
  move_to-IsSeparated call ScenarioState.simulated comment r q auth known e = cc
  move_to-IsSeparated call ScenarioState.ready comment r q auth known e = cc
  move_to-IsSeparated call ScenarioState.executing comment r q auth known e = cc
  move_to-IsSeparated call rollback comment r q auth known e = cc

  left_draft :
      (to : ScenarioState)
      → to ≢ ScenarioState.simulated
      → can_transition_scenario draft to ≡ true
      → ⊥
  unfolding can_transition_scenario
  left_draft ScenarioState.simulated n h = n refl
  left_draft draft n h = cc
  left_draft _ n h = cc

  -- Transition moves a row that is in the state in which it was seen.
  pub move_to-IsLegal :
      (call : Call) (to : ScenarioState) (comment : String) (r q : Scenario)
      → to ≢ ScenarioState.simulated
      → authorize_transition lib call to comment r ≡ ok tt
      → Same r q
      → q.scenario_state ≡ r.scenario_state
      → IsLegal q (move_to lib call to comment q)
  move_to-IsLegal call to comment r q allowed h known at =
      let auth = authorize_transition_lem call to comment r h in
      let (id, creator, state, stored, input) = move_to-Moves call to comment q in
      let way : can_transition_scenario q.scenario_state to ≡ true = rw at auth.0 in
      record {
        same_id = id;
        same = record { creator = sym creator; input = sym input };
        legal = inr (rw state way);
        separated = λ _. move_to-IsSeparated call to comment r q auth known;
        replayable = λ ready _. stored (ready (λ d. left_draft to allowed (rw d at way)));
      }
