-- ===== src/Examples/Scenarios.antt =====
-- The theorems about scenarios over a database in memory.
use cert_rollover_impact_ass.Prelude.{
  ℕ, str_eq, ◌≡◌, refl, true, Option, some, none, [], ◌∷◌, map, Memᴰ,
}
use cert_rollover_impact_ass.Simulator.Run.{Result}
use cert_rollover_impact_ass.Constants.{
  ScenarioState, draft, verified, can_transition_scenario, admin,
}
use cert_rollover_impact_ass.Service.{ok, found, no_record, driver, conflict, audited}
use cert_rollover_impact_ass.Service.Laws.{IsAtomic, audited-IsAtomic}
use cert_rollover_impact_ass.Scenario.{Scenario, has_id, mark_replayed, entry_of, replay_matches}
use cert_rollover_impact_ass.Scenario.Operations.{prepare_replay, prepare_simulation}
use cert_rollover_impact_ass.Scenario.Change.{IsSeparated, IsReplayable}
use cert_rollover_impact_ass.Scenario.Effect.{Request, open_draft, to_state, perform, Step}
use cert_rollover_impact_ass.Scenario.Methods.{perform-Step}
use cert_rollover_impact_ass.Scenario.Frozen.{IsFrozen}
use cert_rollover_impact_ass.Scenario.Progress.{drafts_simulate}
use cert_rollover_impact_ass.Examples.InMemory.{find_row}
use cert_rollover_impact_ass.Scenario.Runs.{Run, begin, act, Everywhere}
use cert_rollover_impact_ass.Scenario.Runs.Invariant.{IsFollowed, Run-invariant, Run-legal}
use cert_rollover_impact_ass.Scenario.Replayed.{replay_passes}
use cert_rollover_impact_ass.Constants.{has_permission}
use cert_rollover_impact_ass.Scenario.{authorize_transition, fresh, move_to}
use cert_rollover_impact_ass.Examples.Opening.{creation, tables}
use cert_rollover_impact_ass.Examples.Memory.{
  Store, memory, memory-IsPlatform, library, scenario, initial, fresh_draft, initial-IsStart,
  review, operate, review-IsRanging, operate-IsRanging,
}

abbrev verify : Request
verify = to_state 1 verified "checked"

abbrev reviewed : Store
reviewed = perform library memory review verify initial initial initial

-- The reviewer's request verifies the scenario, that of its creator does not.
reviewed_state :
    map {B = ScenarioState × Option ℕ} (λ s. (s.scenario_state, s.verified_by)) reviewed.stored
    ≡ (verified, some 9) ∷ (draft, none) ∷ []
unfolding perform find_row has_permission authorize_transition can_transition_scenario
reviewed_state = refl

own_review_refused :
    perform library memory
      (record operate {
        actor = record {
          user_id = 7;
          username = "operator";
          display_name = "";
          team = "";
          role = admin;
        };
      })
      verify
      initial
      initial
      initial
    ≡ initial
unfolding perform find_row has_permission authorize_transition can_transition_scenario
own_review_refused = refl

reviewed-Run : Run library memory initial (reviewed ∷ initial ∷ [])
reviewed-Run =
    act begin review verify initial initial review-IsRanging (Memᴰ.head refl) (Memᴰ.head refl)

-- A scenario is created on what was read before the review.
abbrev opened : Store
opened = perform library memory operate (open_draft creation tables) initial initial reviewed

opened-Run : Run library memory initial (opened ∷ reviewed ∷ initial ∷ [])
opened-Run =
    act reviewed-Run operate (open_draft creation tables) initial initial operate-IsRanging
      (Memᴰ.tail (Memᴰ.head refl)) (Memᴰ.tail (Memᴰ.head refl))

Run-invariant_example :
    Everywhere library memory IsSeparated opened
    × Everywhere library memory (IsReplayable library) opened
    × Everywhere library memory (IsFrozen library) opened
Run-invariant_example =
    Run-invariant library memory memory-IsPlatform initial opened (reviewed ∷ initial ∷ [])
      initial-IsStart opened-Run

abbrev signed : Scenario
signed = move_to library review verified "checked" scenario

signed_stored :
    Memᴰ signed (memory.rows (perform library memory review verify initial initial initial))
unfolding perform find_row has_permission authorize_transition can_transition_scenario
signed_stored = Memᴰ.head refl

Run-legal_example :
    IsFollowed library memory memory-IsPlatform initial initial [] initial-IsStart begin review
      signed
Run-legal_example =
    Run-legal library memory memory-IsPlatform initial initial [] initial-IsStart begin review
      verify initial initial review-IsRanging (Memᴰ.head refl) signed signed_stored

perform-Step_example : Step library memory memory-IsPlatform review verify initial initial reviewed
perform-Step_example =
    perform-Step library memory memory-IsPlatform review verify initial initial initial
      review-IsRanging

audited-IsAtomic_example :
    IsAtomic memory memory-IsPlatform.law
      (has_id 1)
      (mark_replayed review true)
      (entry_of review "replay" scenario scenario 0 "")
      initial
      (audited memory
        (has_id 1)
        (mark_replayed review true)
        driver
        conflict
        (entry_of review "replay" scenario scenario 0 "")
        initial)
audited-IsAtomic_example =
    audited-IsAtomic memory memory-IsPlatform.law (has_id 1) (mark_replayed review true) driver
      conflict (entry_of review "replay" scenario scenario 0 "") initial

found_scenario : memory.first (has_id 1) initial ≡ found scenario
unfolding find_row
found_scenario = refl

replay_passes_example :
    (r : Result) × (prepare_replay library memory operate 1 initial ≡ ok (scenario, r))
    × (replay_matches library r scenario ≡ true)
replay_passes_example =
    replay_passes library memory memory-IsPlatform initial initial [] initial-IsStart begin operate
      1 scenario operate-IsRanging found_scenario refl (λ e. cc)

found_draft : memory.first (has_id 2) initial ≡ found fresh_draft
unfolding find_row
found_draft = refl

key_free : memory.first (λ r. str_eq r.idempotency_key "k2") initial ≡ no_record
unfolding find_row
key_free = refl

drafts_simulate_example :
    (r : Result) × (prepare_simulation library memory operate 2 "k2" initial initial
      ≡ ok (fresh fresh_draft r))
drafts_simulate_example =
    drafts_simulate library memory memory-IsPlatform initial initial [] initial-IsStart begin
      operate 2 "k2" fresh_draft operate-IsRanging found_draft key_free refl refl refl refl
