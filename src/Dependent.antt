-- ===== src/Dependent.antt =====
-- The dependent services: backend/internal/service/dependent_service_service.go, with
-- servicesContainCycle of backend/internal/service/common.go and the calls of
-- backend/internal/repository/dependent_service_repository.go.
use cert_rollover_impact_ass.Prelude.{
  ℕ, ◌-◌, ◌^◌, ◌≡◌, Bool, true, false, not, ◌||◌, ◌&&◌, Option, none, some, List, [], ◌∷◌, ◌++◌,
  map, String, str_eq, ◌==◌, if◌then◌else◌, lookup, insert, length, has, index_from, IdSet,
}
use cert_rollover_impact_ass.Prelude.Sorting.{sorted_unique}
use cert_rollover_impact_ass.Graph.{
  Edges, Outcome, done, cycle_at, missing, out_of_fuel, search_cycle,
}
use cert_rollover_impact_ass.Simulator.Snapshot.{Instant}
use cert_rollover_impact_ass.Constants.{Role, service_owner}
use cert_rollover_impact_ass.Service.{
  Actor, AuditEntry, is_pki, ServiceError, validation, forbidden, not_found, conflict, internal,
  driver, coded, Attempt, ok, err, ◌>>=◌, ◌>>◌, guard, Fetch, found, no_record, broken, found_or,
  Database, audited, load, answer,
}
pub mod Change
pub mod EdgeMap
pub mod Depends
pub mod Sound
pub mod References
pub mod Keyed
pub mod Create
pub mod Guarded
pub mod Grown
pub mod Calls
pub mod Serial

-- the model, less the chain that GORM loads beside it; an active service is one in the state
-- `active`, the only other state is `inactive`
pub record DependentService : Type 0 where
  pub id : ℕ
  pub service_code : String
  pub name : String
  pub owner_team : String
  pub environment : String
  pub chain_id : ℕ
  pub client_trust_refs_json : String
  pub protocol : String
  pub criticality : String
  pub dependency_edges_json : String
  pub service_state : String
  pub created_at : Instant
  pub updated_at : Instant

abbrev pub ServiceLog : Type 0
ServiceLog = AuditEntry DependentService

-- the fields of an update request
pub record UpdateRequest : Type 0 where
  pub name : String
  pub owner_team : String
  pub environment : String
  pub chain_id : ℕ
  pub client_trust_refs : List ℕ
  pub protocol : String
  pub criticality : String
  pub dependency_edges : List ℕ

-- the fields of a create request
pub record ServiceRequest : Type 0 where
  pub service_code : String
  pub name : String
  pub owner_team : String
  pub environment : String
  pub chain_id : ℕ
  pub client_trust_refs : List ℕ
  pub protocol : String
  pub criticality : String
  pub dependency_edges : List ℕ

-- encoding/json and the validator, and the order in which Go ranges over an edge map
pub record Codec : Type 0 where
  pub decode_ids : String → Option (List ℕ)
  pub encode_ids : List ℕ → String
  pub accepts : UpdateRequest → Bool
  pub accepts_new : ServiceRequest → Bool
  pub order : Edges → List ℕ

-- the other tables that are read
pub record Catalog (DB : Type 0) : Type 0 where
  pub chain : ℕ → DB → Fetch (Unit {0})
  -- the ids of the anchors that `GetByIDs` finds
  pub anchors : List ℕ → DB → Option (List ℕ)
  pub all : DB → Option (List DependentService)

abbrev pub is_service_owner : Role → Bool
is_service_owner service_owner = true
is_service_owner _ = false

abbrev pub require_service_ownership : Actor → String → Attempt (Unit {0})
require_service_ownership actor owner_team =
    guard (is_pki actor.role || (is_service_owner actor.role && str_eq actor.team owner_team))
      forbidden

-- the loop that builds the edge map
unfoldable pub edges_from : Codec → Edges → List DependentService → Option Edges
edges_from codec edges [] = some edges
edges_from codec edges (service ∷ services) =
    elim (codec.decode_ids service.dependency_edges_json) [
      | none ↦ none
      | some ids ↦ edges_from codec (insert service.id (sorted_unique ids) edges) services
    ]

-- Whether the edge map has the id: an entry that is empty counts.
abbrev pub is_key : Edges → ℕ → Bool
is_key edges id = elim (lookup id edges) [ none ↦ false | some _ ↦ true ]

abbrev pub is_done : Outcome → Bool
is_done (done _) = true
is_done _ = false

abbrev pub check_edges : Codec → Option Edges → Bool
check_edges codec none = false
check_edges codec (some edges) = is_done (search_cycle (is_key edges) edges (codec.order edges))

-- servicesContainCycle returns no error
unfoldable pub check_services : Codec → List DependentService → Bool
unfolding edges_from
check_services codec services = check_edges codec (edges_from codec [] services)

-- the loop over the dependencies in validateReferences
check_targets : IdSet → ℕ → List ℕ → Attempt (Unit {0})
check_targets known id [] = ok tt
check_targets known id (edge ∷ edges) =
    let rest = check_targets known id edges in
    if (edge == id) && not (id == 0)
    then err conflict
    else if not (has known edge)
    then err validation
    else rest

abbrev pub known_ids : List DependentService → IdSet
known_ids services = index_from (λ (s : DependentService). s.id) (λ _. true) [] services

-- an error of the driver is passed on as it is
abbrev pub or_driver : {A : Type 0} → Option A → Attempt A
or_driver none = err driver
or_driver (some a) = ok a

abbrev pub found_chain : Fetch (Unit {0}) → Attempt (Unit {0})
found_chain (found _) = ok tt
found_chain no_record = err not_found
found_chain broken = err driver

abbrev pub has_service_id : ℕ → DependentService → Bool
has_service_id id s = s.id == id

abbrev pub active_with_id : ℕ → DependentService → Bool
active_with_id id s = (s.id == id) && str_eq s.service_state "active"

module _ (codec : Codec) {DB : Type 0} (catalog : Catalog DB) where
  unfoldable pub validate_references : ℕ → ℕ → List ℕ → List ℕ → DB → Attempt (Unit {0})
  unfolding check_targets sorted_unique
  validate_references id chain_id trust edges seen = do
    found_chain (catalog.chain chain_id seen)
    anchors ← or_driver (catalog.anchors (sorted_unique trust) seen)
    guard (length anchors == length (sorted_unique trust)) validation
    services ← or_driver (catalog.all seen)
    check_targets (known_ids services) id (sorted_unique edges)

  -- what Update stores
  abbrev pub apply_update : UpdateRequest → DependentService → DependentService
  apply_update request s = record s {
    name = request.name;
    owner_team = request.owner_team;
    environment = request.environment;
    chain_id = request.chain_id;
    client_trust_refs_json = codec.encode_ids (sorted_unique request.client_trust_refs);
    protocol = request.protocol;
    criticality = request.criticality;
    dependency_edges_json = codec.encode_ids (sorted_unique request.dependency_edges);
  }

  -- the loop that puts the new edges in the list of all services
  abbrev pub with_update : ℕ → UpdateRequest → DependentService → DependentService
  with_update id request s =
      if s.id == id
      then record s {
        chain_id = request.chain_id;
        client_trust_refs_json = codec.encode_ids (sorted_unique request.client_trust_refs);
        dependency_edges_json = codec.encode_ids (sorted_unique request.dependency_edges);
      }
      else s

  -- `all, _ := s.services.All(ctx)`: an error gives no services.
  abbrev pub all_or_none : DB → List DependentService
  all_or_none seen = elim (catalog.all seen) [ none ↦ [] | some services ↦ services ]
