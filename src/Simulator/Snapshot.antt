-- ===== src/Simulator/Snapshot.antt =====
-- The frozen input of backend/internal/algorithm/simulator.go, how it is built and validated.
-- A uint is a ℕ (ids are compared and stored, never computed with). A time.Time is the number of
-- nanoseconds since 1 January of the year -292277022399, at which Go's own absolute times begin, so
-- that every instant the service handles is a ℕ; the location it is printed in is left out.
use cert_rollover_impact_ass.Prelude.{
  ℕ, ◌+◌, ◌*◌, ◌≡◌, Bool, true, not, ◌||◌, Option, none, some, List, [], ◌∷◌, map, String, IdSet,
  index_from, has, ltb, ◌==◌, if◌then◌else◌,
}
use cert_rollover_impact_ass.Prelude.Sorting.{sort_by, sorted_unique}
use cert_rollover_impact_ass.Graph.{
  Edges, Outcome, done, cycle_at, missing, out_of_fuel, search_cycle,
}
pub mod Validate

abbrev pub Instant : Type 0
Instant = ℕ

-- `time.Time{}`, midnight of 1 January of year 1
abbrev pub zero_time : Instant
zero_time = 9223371966579724800 * 1_000_000_000

abbrev pub is_zero : Instant → Bool
is_zero t = t == zero_time

abbrev pub before : Instant → Instant → Bool
before t u = ltb t u

abbrev pub after : Instant → Instant → Bool
after t u = ltb u t

pub record AnchorSnapshot : Type 0 where
  pub id : ℕ
  pub code : String
  pub state : String
  pub not_before : Instant
  pub not_after : Instant
  pub revoked : Bool

pub record ChainSnapshot : Type 0 where
  pub id : ℕ
  pub code : String
  pub anchor_id : ℕ
  pub leaf_subject : String
  pub valid_from : Instant
  pub valid_to : Instant
  pub state : String
  pub validation_valid : Bool

pub record ServiceSnapshot : Type 0 where
  pub id : ℕ
  pub code : String
  pub chain_id : ℕ
  pub trust_anchor_ids : List ℕ
  pub dependency_ids : List ℕ
  pub criticality : String
  pub state : String

pub record ScenarioConfig : Type 0 where
  pub name : String
  pub old_anchor_id : ℕ
  pub new_anchor_id : ℕ
  pub overlap_start : Instant
  pub overlap_end : Instant
  pub candidate_chain_ids : List ℕ
  pub simulation_time : Instant

pub record Snapshot : Type 0 where
  pub algorithm_version : String
  pub config : ScenarioConfig
  pub anchors : List AnchorSnapshot
  pub chains : List ChainSnapshot
  pub services : List ServiceSnapshot

abbrev pub version : String
version = "trust-path-window-v1.0.0"

-- the loop that cleans the id lists of each service
unfoldable pub clean_service : ServiceSnapshot → ServiceSnapshot
unfolding sorted_unique
clean_service service = record service {
  trust_anchor_ids = sorted_unique service.trust_anchor_ids;
  dependency_ids = sorted_unique service.dependency_ids;
}

unfoldable pub new_snapshot :
    ScenarioConfig → List AnchorSnapshot → List ChainSnapshot → List ServiceSnapshot → Snapshot
unfolding clean_service sorted_unique sort_by
new_snapshot config anchors chains services = record {
  algorithm_version = version;
  config = record config { candidate_chain_ids = sorted_unique config.candidate_chain_ids };
  anchors = sort_by (λ (a : AnchorSnapshot). a.id) anchors;
  chains = sort_by (λ (c : ChainSnapshot). c.id) chains;
  services = map clean_service (sort_by (λ (s : ServiceSnapshot). s.id) services);
}

-- The errors of ValidateSnapshot, in the order of its tests. `stopped` would be a search that ran
-- out of fuel, and is never returned: Validate.
pub data SnapshotError : Type 0 where
  anchors_not_distinct overlap_not_ordered no_simulation_time anchors_missing : SnapshotError
  candidate_missing : ℕ → SnapshotError
  dependency_cycle : ℕ → SnapshotError
  stopped : SnapshotError

abbrev pub edge_map : List ServiceSnapshot → Edges
edge_map services = index_from (λ (s : ServiceSnapshot). s.id) (λ s. s.dependency_ids) [] services

abbrev pub cycle_error : Outcome → Option SnapshotError
cycle_error (done state) = none
cycle_error (cycle_at id) = some (dependency_cycle id)
cycle_error (missing id) = some stopped
cycle_error out_of_fuel = some stopped

-- `detectCycle`: any id may be the target of an edge. `order` is the order in which `range` gives
-- the keys of the edge map.
unfoldable pub detect_cycle : List ℕ → List ServiceSnapshot → Option SnapshotError
unfolding search_cycle
detect_cycle order services = cycle_error (search_cycle (λ _. true) (edge_map services) order)

-- the loop over the candidate chains
missing_candidate : IdSet → List ℕ → Option ℕ
missing_candidate seen [] = none
missing_candidate seen (id ∷ ids) = if has seen id then missing_candidate seen ids else some id

abbrev pub anchor_seen : Snapshot → IdSet
anchor_seen snapshot = index_from (λ (a : AnchorSnapshot). a.id) (λ _. true) [] snapshot.anchors

abbrev pub chain_seen : Snapshot → IdSet
chain_seen snapshot = index_from (λ (c : ChainSnapshot). c.id) (λ _. true) [] snapshot.chains

unfoldable pub validate_snapshot : List ℕ → Snapshot → Option SnapshotError
unfolding missing_candidate detect_cycle
validate_snapshot order snapshot =
    if (old_anchor_id == 0) || (new_anchor_id == 0) || (old_anchor_id == new_anchor_id)
    then some anchors_not_distinct
    else if not (before overlap_start overlap_end)
    then some overlap_not_ordered
    else if is_zero simulation_time
    then some no_simulation_time
    else if not (has (anchor_seen snapshot) old_anchor_id)
        || not (has (anchor_seen snapshot) new_anchor_id)
    then some anchors_missing
    else elim (missing_candidate (chain_seen snapshot) candidate_chain_ids) [
      | some id ↦ some (candidate_missing id)
      | none ↦ detect_cycle order snapshot.services
    ]
  where
    open snapshot.config use {
      old_anchor_id, new_anchor_id, overlap_start, overlap_end, simulation_time,
      candidate_chain_ids,
    }
