-- ===== src/Simulator/Run.antt =====
-- The simulation as a whole: Simulate and explain of backend/internal/algorithm/simulator.go.
use cert_rollover_impact_ass.Prelude.{
  ℕ, ◌+◌, Bool, true, false, not, Option, none, some, List, [], ◌∷◌, ◌++◌, map, String, str_eq,
  concat, join, decimal, Map, IdSet, insert, lookup, index_from, length, if◌then◌else◌, ltb,
}
use cert_rollover_impact_ass.Prelude.Sorting.{sort_by}
use cert_rollover_impact_ass.Simulator.Snapshot.{
  Instant, before, after, ChainSnapshot, ServiceSnapshot, ScenarioConfig, Snapshot, SnapshotError,
  validate_snapshot,
}
use cert_rollover_impact_ass.Simulator.Window.{critical_times, active_anchors, map_keys}
use cert_rollover_impact_ass.Simulator.Direct.{ServiceEvidence, evaluate_direct}
use cert_rollover_impact_ass.Simulator.Resolve.{Resolved, resolve_service}
pub mod Total
pub mod Index
pub mod Healthy
pub mod Report
pub mod Outcome
pub mod Evidence

pub record AffectedService : Type 0 where
  pub service_id : ℕ
  pub service_code : String
  pub criticality : String
  pub at : Instant
  pub reason : String

pub record BrokenPath : Type 0 where
  pub at : Instant
  pub service_codes : List String
  pub reason : String

pub record TimepointEvidence : Type 0 where
  pub at : Instant
  pub active_anchor_ids : List ℕ
  pub services : List ServiceEvidence

pub record Result : Type 0 where
  pub affected_services : List AffectedService
  pub broken_paths : List BrokenPath
  pub evidence : List TimepointEvidence
  pub explanation : String

-- how Simulate ends; `out_of_fuel` never happens: Run/Total
pub data Simulation : Type 0 where
  simulated : Result → Simulation
  failed : SnapshotError → Simulation
  out_of_fuel : Simulation

-- what the second loop over the services adds at one instant, in the order of the services
pub record PointReport : Type 0 where
  pub items : List ServiceEvidence
  pub affected : List AffectedService
  pub broken : List BrokenPath

abbrev pub is_active : ServiceSnapshot → Bool
is_active service = str_eq service.state "active"

-- `chainByID`, `serviceByID`
abbrev pub chain_by_id : Snapshot → Map ChainSnapshot
chain_by_id snapshot = index_from (λ (c : ChainSnapshot). c.id) (λ c. c) [] snapshot.chains

abbrev pub service_by_id : Snapshot → Map ServiceSnapshot
service_by_id snapshot = index_from (λ (s : ServiceSnapshot). s.id) (λ s. s) [] snapshot.services

abbrev pub evidence_at : Snapshot → Instant → ServiceSnapshot → ServiceEvidence
evidence_at snapshot at service =
    evaluate_direct service at (active_anchors snapshot.config at)
      snapshot.config.candidate_chain_ids (chain_by_id snapshot)

-- the first loop over the services
pub direct_from :
    (ServiceSnapshot → ServiceEvidence)
    → Map ServiceEvidence
    → List ServiceSnapshot
    → Map ServiceEvidence
direct_from evaluate direct [] = direct
direct_from evaluate direct (service ∷ services) =
    direct_from evaluate
      (if is_active service then insert service.id (evaluate service) direct else direct) services

unfoldable pub direct_at : Snapshot → Instant → Map ServiceEvidence
unfolding direct_from
direct_at snapshot at = direct_from (evidence_at snapshot at) [] snapshot.services

-- the codes of the services on a path
path_codes : Map ServiceSnapshot → List ℕ → List String
path_codes services [] = []
path_codes services (id ∷ path) =
    let codes = path_codes services path in
    elim (lookup id services) [ none ↦ codes | some entry ↦ entry.code ∷ codes ]

abbrev pub affect : ServiceSnapshot → Instant → ServiceEvidence → AffectedService
affect service at item = record {
  service_id = service.id;
  service_code = service.code;
  criticality = service.criticality;
  at = at;
  reason = item.reason;
}

-- one round of the second loop, before what the later rounds add
pub add_item :
    Map ServiceSnapshot
    → Instant
    → ServiceSnapshot
    → ServiceEvidence
    → List ℕ
    → PointReport
    → PointReport
unfolding path_codes
add_item services at service item path report =
    if not item.reachable
    then record {
      items = item ∷ report.items;
      affected = affect service at item ∷ report.affected;
      broken =
          record { at = at; service_codes = path_codes services path; reason = item.reason }
          ∷ report.broken;
    }
    else record report { items = item ∷ report.items }

-- the second loop over the services
pub resolve_active :
    Map ServiceSnapshot → (ℕ → Resolved) → Instant → List ServiceSnapshot → Option PointReport
unfolding add_item
resolve_active by_id call at [] = some (record { items = []; affected = []; broken = [] })
resolve_active by_id call at (service ∷ services) =
    let rest = resolve_active by_id call at services in
    let here : Option PointReport = elim (call service.id) [
      | none ↦ none
      | some (item, path) ↦ elim rest [
        | none ↦ none
        | some report ↦ some (add_item by_id at service item path report)
      ]
    ] in
    if is_active service then here else rest

unfoldable pub point_report : Snapshot → Instant → Option PointReport
unfolding resolve_active direct_at resolve_service
point_report snapshot at =
    resolve_active (service_by_id snapshot)
      (resolve_service (direct_at snapshot at) (service_by_id snapshot)) at snapshot.services

abbrev pub timepoint : Snapshot → Instant → PointReport → TimepointEvidence
timepoint snapshot at report = record {
  at = at;
  active_anchor_ids = map_keys (active_anchors snapshot.config at);
  services = sort_by (λ (e : ServiceEvidence). e.service_id) report.items;
}

abbrev pub add_point : Snapshot → Instant → PointReport → Result → Result
add_point snapshot at report result = record {
  affected_services = report.affected ++ result.affected_services;
  broken_paths = report.broken ++ result.broken_paths;
  evidence = timepoint snapshot at report ∷ result.evidence;
  explanation = result.explanation;
}

-- the loop over the time points
pub simulate_points : Snapshot → List Instant → Option Result
unfolding point_report
simulate_points snapshot [] =
    some (record { affected_services = []; broken_paths = []; evidence = []; explanation = "" })
simulate_points snapshot (at ∷ points) =
    let rest = simulate_points snapshot points in
    elim (point_report snapshot at) [
      | none ↦ none
      | some report ↦ elim rest [
        | none ↦ none
        | some result ↦ some (add_point snapshot at report result)
      ]
    ]

-- how many of the affected services stand at an instant that passes the test
count_at : (Instant → Bool) → List AffectedService → ℕ
count_at test [] = 0
count_at test (item ∷ items) =
    let rest = count_at test items in if test item.at then rest + 1 else rest

unfoldable pub explain : ScenarioConfig → Result → String
unfolding count_at join decimal
explain config result = elim result.affected_services [
  | [] ↦
      "All active service trust paths remain reachable before, during, and after the proposed overlap window."
  | first ∷ others ↦
      let early = count_at (λ t. before t config.overlap_start) result.affected_services in
      let late = count_at (λ t. after t config.overlap_end) result.affected_services in
      let summary = concat (
        decimal (length result.affected_services)
        ∷ " service-timepoint failures were found across "
        ∷ decimal (length result.broken_paths)
        ∷ " broken paths."
        ∷ []) in
      join " " (
        summary
          ∷ (if ltb 0 early
              then "Some paths fail before overlap, indicating the new trust path may be introduced too late."
                ∷ []
              else [])
        ++ (if ltb 0 late
            then "Some paths fail after overlap, indicating the old anchor may be removed before all clients trust the replacement."
              ∷ []
            else []))
]

-- `order` is the order in which `range` gives the keys of detectCycle's edge map.
unfoldable pub simulate : List ℕ → Snapshot → Simulation
unfolding validate_snapshot simulate_points explain critical_times
simulate order snapshot = elim (validate_snapshot order snapshot) [
  | some error ↦ failed error
  | none ↦ elim (simulate_points snapshot (critical_times snapshot.config)) [
    | none ↦ out_of_fuel
    | some result ↦ simulated (record result { explanation = explain snapshot.config result })
  ]
]
