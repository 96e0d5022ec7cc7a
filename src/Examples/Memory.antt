-- ===== src/Examples/Memory.antt =====
-- A database in memory with one scenario, whose input is the sample snapshot.
use cert_rollover_impact_ass.Prelude.{
  ◌+◌, ◌≡◌, ◌⊎◌, refl, sym, ap, true, false, not, Option, some, none, [], ◌∷◌, Memᴰ, inl, inr,
  subst, ⊎_elim, String, str_eq, eq_iff, Bool-cases, ◌∙◌, if◌then◌else◌,
}
use mathlib.Core.List.Memᴰ
use mathlib.Core.List.{List-discrete}
use native.Mathlib.Decide.{ℕ_discrete}
use cert_rollover_impact_ass.Simulator.Snapshot.{Snapshot}
use cert_rollover_impact_ass.Simulator.Snapshot.Validate.{service_ids, validate_snapshot_iff}
use cert_rollover_impact_ass.Constants.{
  ScenarioState, draft, executing, pki_operator, security_reviewer,
}
use cert_rollover_impact_ass.Service.{Database}
use cert_rollover_impact_ass.Scenario.{Scenario, AuditLog, Library, Call, same_state}
use cert_rollover_impact_ass.Scenario.Frozen.{IsRanging, IsReadable, IsFrozen}
use cert_rollover_impact_ass.Scenario.Change.{Same, IsSeparated, IsReplayable, HasResult}
use cert_rollover_impact_ass.Scenario.Effect.{IsPlatform}
use cert_rollover_impact_ass.Scenario.Runs.{Everywhere, IsStart}
use cert_rollover_impact_ass.Examples.InMemory.{Table, table, table-IsDatabase}
use cert_rollover_impact_ass.Examples.Sample.{
  snapshot, start, hour, order, order-Ranges, result, snapshot_runs, snapshot_accepted,
}

abbrev pub Store : Type 0
Store = Table Scenario AuditLog

abbrev pub memory : Database Store Scenario AuditLog
memory = table (λ s. s.id)

pub String-discrete : Discrete String
String-discrete s t = elim (Bool-cases (str_eq s t)) [
  | inl e ↦ yes ((eq_iff s t).0 e)
  | inr e ↦ no (λ h. let same = (eq_iff s t).1 h in cc)
]

Snapshot-discrete : Discrete Snapshot
Snapshot-discrete = hlevel (ℕ_discrete, String-discrete, List-discrete)

-- the text of the sample, and of no other snapshot
pub encode_sample : Snapshot → Option String
encode_sample s = elim (Snapshot-discrete s snapshot) [ yes _ ↦ some "{}" | no _ ↦ none ]

abbrev pub library : Library
library = record {
  decode_snapshot = λ raw. some snapshot;
  encode_affected = λ items. "affected";
  encode_paths = λ paths. "paths";
  encode_evidence = λ evidence. "evidence";
  trim_space = λ s. s;
  byte_length = λ s. 1;
  accepts = λ to comment. not (same_state to ScenarioState.simulated);
  accepts_create = λ request. true;
  encode_snapshot = encode_sample;
  hash_string = λ raw. "hash";
  encode_ids = λ ids. "[10,11]";
  decode_ids = λ raw.
      if str_eq raw "[1,2]"
      then some (2 ∷ 1 ∷ [])
      else if str_eq raw "[1]"
      then some (1 ∷ [])
      else if str_eq raw "[101]"
      then some (101 ∷ [])
      else some [];
  decode_valid = λ raw. true;
}

library-IsReadable : IsReadable library
unfolding encode_sample
library-IsReadable s raw h = go (Snapshot-discrete s snapshot) h
  where
    go :
        (d : Dec (s ≡ snapshot))
        → let o : Option String = elim d [ yes _ ↦ some "{}" | no _ ↦ none ] in
          o ≡ some raw → some snapshot ≡ some s
    go (yes e) h = ap some (sym e)
    go (no _) h = cc

pub memory-IsPlatform : IsPlatform library memory
memory-IsPlatform = record {
  law = table-IsDatabase (λ s. s.id);
  keyed = λ r. refl;
  one_of = λ comment. refl;
  readable = library-IsReadable;
}

-- created by user 7, simulated, and now being executed
abbrev pub scenario : Scenario
scenario = record {
  id = 1;
  name = "Synthetic rollover";
  old_anchor_id = 1;
  new_anchor_id = 2;
  overlap_start = start;
  overlap_end = start + hour;
  candidate_chain_ids = "[10,11]";
  algorithm_version = "trust-path-window-v1.0.0";
  input_hash = "hash";
  input_snapshot = "{}";
  simulation_time = start;
  affected_services_json = "affected";
  broken_paths_json = "paths";
  path_evidence_json = "evidence";
  scenario_state = executing;
  explanation = result.explanation;
  created_by = 7;
  created_by_name = "operator";
  verified_by = none;
  verified_by_name = "";
  idempotency_key = "key";
  replay_verified = false;
  duration_ms = 3;
  rollback_record = "";
  created_at = start;
  updated_at = start;
}

-- a draft of the same user
abbrev pub fresh_draft : Scenario
fresh_draft = record scenario {
  id = 2;
  scenario_state = draft;
  affected_services_json = "[]";
  broken_paths_json = "[]";
  path_evidence_json = "[]";
  explanation = "Frozen input is ready for offline simulation.";
  idempotency_key = "";
}

abbrev pub initial : Store
initial = record { stored = scenario ∷ fresh_draft ∷ []; entries = [] }

scenario-HasResult : HasResult library scenario
scenario-HasResult = record {
  snapshot = snapshot;
  order = order;
  result = result;
  frozen = refl;
  ranges = order-Ranges;
  computed = snapshot_runs;
  affected_stored = refl;
  paths_stored = refl;
  evidence_stored = refl;
  explanation_stored = refl;
}

scenario-IsFrozen : IsFrozen library scenario
scenario-IsFrozen =
    (snapshot, refl, (validate_snapshot_iff snapshot order order-Ranges).0 snapshot_accepted)

cases : (q : Scenario) → Memᴰ q initial.stored → (q ≡ scenario) ⊎ (q ≡ fresh_draft)
cases q (Memᴰ.head e) = inl e
cases q (Memᴰ.tail m) = inr (Memᴰ.eq_of_singleton m)

-- a property of every scenario of the store
both_have :
    (P : Scenario → Type 0) → P scenario → P fresh_draft → Everywhere library memory P initial
both_have P here there q m =
    ⊎_elim (λ e. subst P (sym e) here) (λ e. subst P (sym e) there) (cases q m)

like : Everywhere library memory (λ r. Same r scenario) initial
like =
    both_have (λ r. Same r scenario) (record { creator = refl; input = refl })
      (record { creator = refl; input = refl })

pub initial-IsStart : IsStart library memory initial
initial-IsStart = (
  λ r q m n e.
      let a = like r m in
      let b = like q n in
      record { creator = a.creator ∙ sym b.creator; input = a.input ∙ sym b.input },
  both_have IsSeparated (λ e. cc) (λ e. cc),
  both_have (IsReplayable library) (λ _. scenario-HasResult) (λ n. absurd (n refl)),
  both_have (IsFrozen library) scenario-IsFrozen scenario-IsFrozen,
)

abbrev pub review : Call
review = record {
  actor = record {
    user_id = 9;
    username = "reviewer";
    display_name = "";
    team = "";
    role = security_reviewer;
  };
  request_id = "r1";
  now = start + hour;
  duration = 0;
  order = λ s. service_ids s.services;
}

abbrev pub operate : Call
operate = record review {
  actor = record {
    user_id = 7;
    username = "operator";
    display_name = "";
    team = "";
    role = pki_operator;
  };
}

pub review-IsRanging : IsRanging review
review-IsRanging s id m = m

pub operate-IsRanging : IsRanging operate
operate-IsRanging s id m = m
