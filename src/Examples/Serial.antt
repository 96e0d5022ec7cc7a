-- ===== src/Examples/Serial.antt =====
-- A run of calls on services from an empty table, with a codec that reads back what it has written.
use cert_rollover_impact_ass.Prelude.{
  ℕ, zero, suc, ◌+◌, ◌∙◌, ◌≡◌, refl, sym, ap, not-Memᴰ-nil, true, some, List, [], ◌∷◌, keys, map,
  String, ◌==◌, if◌then◌else◌, arith,
}
use Prim.Native.Char.{code}
use cert_rollover_impact_ass.Prelude.Sorting.{sorted_unique, sort_by}
use cert_rollover_impact_ass.Graph.{search_cycle}
use cert_rollover_impact_ass.Constants.{pki_operator}
use cert_rollover_impact_ass.Service.{Database, found}
use cert_rollover_impact_ass.Dependent.{
  DependentService, ServiceLog, ServiceRequest, UpdateRequest, Codec, Catalog, edges_from,
  check_services, validate_references,
}
use cert_rollover_impact_ass.Dependent.Change.{
  prepare_update, update_service, prepare_deactivate, deactivate_service,
}
use cert_rollover_impact_ass.Dependent.Create.{prepare_service, create_service}
use cert_rollover_impact_ass.Dependent.EdgeMap.{IsRanging}
use cert_rollover_impact_ass.Dependent.Depends.{IsSound}
use cert_rollover_impact_ass.Dependent.Keyed.{IsKeyed}
use cert_rollover_impact_ass.Dependent.Sound.{check_services_iff}
use cert_rollover_impact_ass.Dependent.Grown.{IsReadBack}
use cert_rollover_impact_ass.Dependent.Calls.{
  Caller, ServiceCall, create, update, deactivate, call_service, Served, unserved, served,
  IsWellStored,
}
use cert_rollover_impact_ass.Dependent.Serial.{Served-IsWellStored}
use cert_rollover_impact_ass.Examples.InMemory.{Table, find_row, next_key, table, table-IsDatabase}
use cert_rollover_impact_ass.Examples.Sample.{start}

-- an id as that many strokes and a comma
write_id : ℕ → String → String
write_id zero rest = String.◌∷◌ "," rest
write_id (suc n) rest = String.◌∷◌ "1" (write_id n rest)

write_ids : List ℕ → String
write_ids [] = ""
write_ids (id ∷ ids) = write_id id (write_ids ids)

read_ids : ℕ → String → List ℕ
read_ids n String.[] = []
read_ids n (String.◌∷◌ c s) =
    let next = read_ids 0 s in
    let more = read_ids (suc n) s in if code c == 44 then n ∷ next else more

read_ids-write_id :
    (n k : ℕ) (rest : String) → read_ids n (write_id k rest) ≡ (n + k) ∷ read_ids 0 rest
unfolding write_id read_ids
read_ids-write_id n zero rest = ap (λ m. m ∷ read_ids 0 rest) (ground arith)
read_ids-write_id n (suc k) rest =
    read_ids-write_id (suc n) k rest ∙ ap (λ m. m ∷ read_ids 0 rest) (ground arith)

read_ids-write_ids : (ids : List ℕ) → read_ids 0 (write_ids ids) ≡ ids
unfolding write_ids read_ids
read_ids-write_ids [] = refl
read_ids-write_ids (id ∷ ids) =
    read_ids-write_id 0 id (write_ids ids)
    ∙ ap (λ m. m ∷ read_ids 0 (write_ids ids)) (ground arith)
    ∙ ap (λ m. id ∷ m) (read_ids-write_ids ids)

abbrev codec : Codec
codec = record {
  decode_ids = λ raw. some (read_ids 0 raw);
  encode_ids = write_ids;
  accepts = λ request. true;
  accepts_new = λ request. true;
  order = λ edges. keys edges;
}

codec-IsReadBack : IsReadBack codec
codec-IsReadBack ids = ap (λ read. some read) (read_ids-write_ids ids)

codec-IsRanging : IsRanging codec
codec-IsRanging edges id m = m

abbrev catalog : Catalog (Table DependentService ServiceLog)
catalog = record {
  chain = λ id db. found tt;
  anchors = λ ids db. some ids;
  all = λ db. some (sort_by (λ (s : DependentService). s.id) db.stored);
}

abbrev nothing : Table DependentService ServiceLog
nothing = record { stored = []; entries = [] }

nothing-IsKeyed : IsKeyed nothing.stored
nothing-IsKeyed s t m = absurd (not-Memᴰ-nil m)

nothing-IsSound : IsSound codec nothing.stored
unfolding check_services edges_from search_cycle
nothing-IsSound = (check_services_iff codec [] codec-IsRanging).0 refl

abbrev operator : Caller
operator = record {
  actor = record {
    user_id = 7;
    username = "operator";
    display_name = "";
    team = "core";
    role = pki_operator;
  };
  request_id = "r";
  now = start;
}

abbrev new_with : List ℕ → ServiceRequest
new_with edges = record {
  service_code = "service";
  name = "Service";
  owner_team = "core";
  environment = "test";
  chain_id = 10;
  client_trust_refs = 1 ∷ [];
  protocol = "tls";
  criticality = "high";
  dependency_edges = edges;
}

abbrev change_to : List ℕ → UpdateRequest
change_to edges = record {
  name = "Service";
  owner_team = "core";
  environment = "test";
  chain_id = 10;
  client_trust_refs = 1 ∷ [];
  protocol = "tls";
  criticality = "high";
  dependency_edges = edges;
}

abbrev rows : Database (Table DependentService ServiceLog) DependentService ServiceLog
rows = table (λ s. s.id)

-- a call, which reads all services twice as they are
abbrev next : ServiceCall → Table DependentService ServiceLog → Table DependentService ServiceLog
next call db = call_service codec catalog rows call db db

-- The third call would close a cycle, and is refused.
abbrev last_state : Table DependentService ServiceLog
last_state = next (deactivate operator 2) (
    next (update operator 1 (change_to (2 ∷ [])))
      (next (create operator (new_with (1 ∷ []))) (next (create operator (new_with [])) nothing)))

abbrev outline : DependentService → ℕ × String × String
outline s = (s.id, s.dependency_edges_json, s.service_state)

run_of_calls : map outline last_state.stored ≡ (2, "1,", "inactive") ∷ (1, "", "active") ∷ []
unfolding call_service create_service prepare_service update_service prepare_update
    deactivate_service prepare_deactivate validate_references check_services edges_from search_cycle
    sorted_unique sort_by find_row next_key write_ids write_id read_ids
run_of_calls = refl

serve :
    {db : Table DependentService ServiceLog}
    → Served codec catalog rows nothing db
    → (call : ServiceCall) → Served codec catalog rows nothing (next call db)
serve {db} before call =
    served before call db (sort_by (λ (s : DependentService). s.id) db.stored) refl refl

last_state-Served : Served codec catalog rows nothing last_state
last_state-Served =
    serve
      (serve
        (serve (serve unserved (create operator (new_with [])))
          (create operator (new_with (1 ∷ []))))
        (update operator 1 (change_to (2 ∷ []))))
      (deactivate operator 2)

Served-IsWellStored_example : IsWellStored codec last_state.stored
Served-IsWellStored_example =
    Served-IsWellStored codec catalog rows (table-IsDatabase (λ s. s.id)) codec-IsRanging
      codec-IsReadBack (λ s. refl)
      (λ db services e.
        let same : sort_by (λ (s : DependentService). s.id) db.stored ≡ services = cc in sym same)
      last_state-Served (nothing-IsKeyed, nothing-IsSound)
