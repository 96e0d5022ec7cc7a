-- ===== src/Examples/Race.antt =====
-- Two updates at once: each passes the check on what it has read, and together they leave a cycle.
-- And an update alone, whose second read of all services fails: it stores a cycle.
use cert_rollover_impact_ass.Prelude.{
  ℕ, ◌≡◌, refl, true, false, none, some, List, [], ◌∷◌, keys, map, String, str_eq, ◌==◌,
  if◌then◌else◌,
}
use cert_rollover_impact_ass.Prelude.Sorting.{sorted_unique}
use cert_rollover_impact_ass.Graph.{search_cycle}
use cert_rollover_impact_ass.Service.{Actor, found}
use cert_rollover_impact_ass.Constants.{pki_operator}
use cert_rollover_impact_ass.Dependent.{
  DependentService, ServiceLog, UpdateRequest, Codec, Catalog, edges_from, check_services,
  validate_references,
}
use cert_rollover_impact_ass.Dependent.Change.{prepare_update, update_service}
use cert_rollover_impact_ass.Examples.InMemory.{Table, find_row, table}
use cert_rollover_impact_ass.Examples.Sample.{start}

abbrev encode : List ℕ → String
encode [] = "[]"
encode (id ∷ ids) = if id == 1 then "[1]" else "[2]"

abbrev codec : Codec
codec = record {
  decode_ids = λ raw.
      if str_eq raw "[1]"
      then some (1 ∷ [])
      else if str_eq raw "[2]"
      then some (2 ∷ [])
      else some [];
  encode_ids = encode;
  accepts = λ request. true;
  accepts_new = λ request. true;
  order = λ edges. keys edges;
}

abbrev operator : Actor
operator = record {
  user_id = 7;
  username = "operator";
  display_name = "";
  team = "core";
  role = pki_operator;
}

abbrev row : ℕ → DependentService
row id = record {
  id = id;
  service_code = "service";
  name = "Service";
  owner_team = "core";
  environment = "test";
  chain_id = 10;
  client_trust_refs_json = "[1]";
  protocol = "tls";
  criticality = "high";
  dependency_edges_json = "[]";
  service_state = "active";
  created_at = start;
  updated_at = start;
}

abbrev initial : Table DependentService ServiceLog
initial = record { stored = row 1 ∷ row 2 ∷ []; entries = [] }

abbrev catalog : Catalog (Table DependentService ServiceLog)
catalog = record {
  chain = λ id db. found tt;
  anchors = λ ids db. some ids;
  all = λ db. some db.stored;
}

abbrev depend_on : ℕ → UpdateRequest
depend_on id = record {
  name = "Service";
  owner_team = "core";
  environment = "test";
  chain_id = 10;
  client_trust_refs = 1 ∷ [];
  protocol = "tls";
  criticality = "high";
  dependency_edges = id ∷ [];
}

-- the second update, whose reads came before the first one or after it
abbrev second_update : Table DependentService ServiceLog → Table DependentService ServiceLog
second_update seen =
    let first =
      (update_service codec catalog (table (λ s. s.id)) operator "r1" start 1 (depend_on 2) initial
        initial initial).1 in
    (update_service codec catalog (table (λ s. s.id)) operator "r2" start 2 (depend_on 1) seen seen
      first).1

abbrev dependencies : Table DependentService ServiceLog → List String
dependencies db = map (λ (s : DependentService). s.dependency_edges_json) db.stored

both_pass : dependencies (second_update initial) ≡ "[2]" ∷ "[1]" ∷ []
unfolding update_service prepare_update validate_references check_services edges_from search_cycle
    sorted_unique find_row
both_pass = refl

leaves_cycle : check_services codec (second_update initial).stored ≡ false
unfolding update_service prepare_update validate_references check_services edges_from search_cycle
    sorted_unique find_row
leaves_cycle = refl

later_refused :
    dependencies (
      second_update
        (update_service codec catalog
          (table (λ s. s.id))
          operator
          "r1"
          start
          1
          (depend_on 2)
          initial
          initial
          initial).1)
    ≡ "[2]" ∷ "[]" ∷ []
unfolding update_service prepare_update validate_references check_services edges_from search_cycle
    sorted_unique find_row
later_refused = refl

-- an empty table stands for a read that fails
abbrev failing : Catalog (Table DependentService ServiceLog)
failing = record catalog {
  all = λ db. elim db.stored [ [] ↦ none | s ∷ services ↦ some (s ∷ services) ];
}

abbrev second_depends : Table DependentService ServiceLog
second_depends = record {
  stored = row 1 ∷ record (row 2) { dependency_edges_json = "[1]" } ∷ [];
  entries = [];
}

-- the first update again, with both reads of all services or with the first one only
abbrev closing_update : Table DependentService ServiceLog → Table DependentService ServiceLog
closing_update again =
    (update_service codec failing (table (λ s. s.id)) operator "r1" start 1 (depend_on 2)
      second_depends again second_depends).1

stored_unchecked :
    dependencies (closing_update (record { stored = []; entries = [] })) ≡ "[2]" ∷ "[1]" ∷ []
unfolding update_service prepare_update validate_references check_services edges_from search_cycle
    sorted_unique find_row
stored_unchecked = refl

refused_checked : dependencies (closing_update second_depends) ≡ "[]" ∷ "[1]" ∷ []
unfolding update_service prepare_update validate_references check_services edges_from search_cycle
    sorted_unique find_row
refused_checked = refl
