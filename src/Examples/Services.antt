-- ===== src/Examples/Services.antt =====
-- The theorems about dependent services over a table in memory.
use cert_rollover_impact_ass.Prelude.{
  ◌≡◌, ◌↔◌, refl, true, some, [], ◌∷◌, map, str_eq, if◌then◌else◌,
}
use cert_rollover_impact_ass.Prelude.{keys}
use cert_rollover_impact_ass.Prelude.Sorting.{sorted_unique}
use cert_rollover_impact_ass.Graph.{search_cycle}
use cert_rollover_impact_ass.Constants.{pki_operator}
use cert_rollover_impact_ass.Service.{Actor, found}
use cert_rollover_impact_ass.Dependent.{
  ServiceRequest, DependentService, ServiceLog, UpdateRequest, Codec, Catalog, check_services,
  edges_from, validate_references,
}
use cert_rollover_impact_ass.Dependent.Change.{prepare_update, update_service}
use cert_rollover_impact_ass.Dependent.Create.{create_service, AddsOne, create_service-AddsOne}
use cert_rollover_impact_ass.Dependent.EdgeMap.{IsRanging}
use cert_rollover_impact_ass.Dependent.Depends.{IsSound}
use cert_rollover_impact_ass.Dependent.Sound.{check_services_iff}
use cert_rollover_impact_ass.Examples.InMemory.{Table, find_row, table, table-IsDatabase}
use cert_rollover_impact_ass.Examples.Sample.{start}

abbrev operator : Actor
operator = record {
  user_id = 7;
  username = "operator";
  display_name = "";
  team = "core";
  role = pki_operator;
}

abbrev codec : Codec
codec = record {
  decode_ids = λ raw. some (if str_eq raw "[101]" then 101 ∷ [] else []);
  encode_ids = λ ids. elim ids [ [] ↦ "[]" | id ∷ others ↦ "[101]" ];
  accepts = λ request. true;
  accepts_new = λ request. true;
  order = λ edges. keys edges;
}

codec-IsRanging : IsRanging codec
codec-IsRanging edges id m = m

abbrev api : DependentService
api = record {
  id = 101;
  service_code = "gateway";
  name = "Gateway";
  owner_team = "core";
  environment = "test";
  chain_id = 10;
  client_trust_refs_json = "[]";
  protocol = "https";
  criticality = "high";
  dependency_edges_json = "[]";
  service_state = "active";
  created_at = start;
  updated_at = start;
}

-- It depends on the other one.
abbrev client : DependentService
client = record api { id = 102; service_code = "client"; dependency_edges_json = "[101]" }

abbrev services : Table DependentService ServiceLog
services = record { stored = client ∷ api ∷ []; entries = [] }

abbrev catalog : Catalog (Table DependentService ServiceLog)
catalog = record {
  chain = λ id db. found tt;
  anchors = λ ids db. some ids;
  all = λ db. some db.stored;
}

abbrev request : UpdateRequest
request = record {
  name = "Client";
  owner_team = "core";
  environment = "test";
  chain_id = 10;
  client_trust_refs = 1 ∷ [];
  protocol = "https";
  criticality = "low";
  dependency_edges = 101 ∷ [];
}

check_services_iff_example :
    (check_services codec (client ∷ api ∷ []) ≡ true) ↔ IsSound codec (client ∷ api ∷ [])
check_services_iff_example = check_services_iff codec (client ∷ api ∷ []) codec-IsRanging

accepted : check_services codec (client ∷ api ∷ []) ≡ true
unfolding check_services edges_from search_cycle sorted_unique
accepted = refl

-- the criticality of the services after the update, which changes one of them
updated :
    map
      (λ (s : DependentService). s.criticality)
      (update_service codec catalog
        (table (λ s. s.id))
        operator
        "r"
        start
        102
        request
        services
        services
        services).1.stored
    ≡ "low" ∷ "high" ∷ []
unfolding update_service prepare_update validate_references check_services edges_from search_cycle
    sorted_unique find_row
updated = refl

abbrev new_request : ServiceRequest
new_request = record {
  service_code = "billing";
  name = "Billing";
  owner_team = "core";
  environment = "test";
  chain_id = 10;
  client_trust_refs = 1 ∷ [];
  protocol = "https";
  criticality = "low";
  dependency_edges = 101 ∷ [];
}

create_service-AddsOne_example :
    AddsOne codec catalog (table (λ s. s.id)) operator "r" start new_request services services (
      create_service codec catalog
        (table (λ s. s.id))
        operator
        "r"
        start
        new_request
        services
        services
        services)
create_service-AddsOne_example =
    create_service-AddsOne codec catalog (table (λ s. s.id)) operator "r" start
      (table-IsDatabase (λ s. s.id)) new_request services services services codec-IsRanging
