-- ===== src/Examples/Simulation.antt =====
-- The theorems about the simulator at the sample snapshot.
use cert_rollover_impact_ass.Prelude.{
  ℕ, ◌+◌, ◌*◌, subst, ◌≡◌, ◌↔◌, ◌⊎◌, ◌≤◌, refl, true, false, some, none, List, [], ◌∷◌, Memᴰ,
  Memᴰ-here, Memᴰ-there, has, arith,
}
use cert_rollover_impact_ass.Prelude.Sorting.{IsIncreasing}
use cert_rollover_impact_ass.Graph.Walk.{IsAcyclic}
use cert_rollover_impact_ass.Simulator.Snapshot.{
  Instant, ServiceSnapshot, SnapshotError, edge_map, detect_cycle, validate_snapshot,
}
use cert_rollover_impact_ass.Simulator.Snapshot.Validate.{
  IsValid, detect_cycle_iff, validate_snapshot_iff,
}
use cert_rollover_impact_ass.Simulator.Window.{minute, critical_times, active_anchors, six_points}
use cert_rollover_impact_ass.Simulator.Window.Anchors.{active_anchors_iff, critical_times_cover}
use cert_rollover_impact_ass.Simulator.Direct.{evaluate_direct}
use cert_rollover_impact_ass.Simulator.Resolve.{resolve_service}
use cert_rollover_impact_ass.Simulator.Resolve.Reachable.{IsReachable}
use cert_rollover_impact_ass.Simulator.Resolve.Fuel.{resolve_service_decides}
use cert_rollover_impact_ass.Simulator.Run.{
  Result, AffectedService, simulated, failed, is_active, service_by_id, direct_at, simulate,
}
use cert_rollover_impact_ass.Simulator.Run.Total.{simulate_decides, simulate_deterministic}
use cert_rollover_impact_ass.Simulator.Run.Healthy.{IsHealthy}
use cert_rollover_impact_ass.Simulator.Run.Outcome.{
  Unhealthy, affected_sound, affected_complete, no_affected_iff,
}
use cert_rollover_impact_ass.Simulator.Run.Evidence.{
  stamps, expected, outline_affected, outline_broken, simulate_shape,
}
use cert_rollover_impact_ass.Examples.Sample.{
  config, gateway, client, snapshot, start, hour, order, order-Ranges, ids-Distinct, result,
  snapshot_accepted, snapshot_runs,
}

no_affected_iff_example : (result.affected_services ≡ []) ↔ (
    (at : Instant)
    → Memᴰ at (critical_times snapshot.config)
    → (service : ServiceSnapshot) → Memᴰ service snapshot.services
    → is_active service ≡ true
    → IsHealthy snapshot at service.id)
no_affected_iff_example = no_affected_iff snapshot ids-Distinct order result snapshot_runs

simulate_decides_example :
    IsValid snapshot × ((r : Result) × (simulate order snapshot ≡ simulated r))
    ⊎ (¬ IsValid snapshot) × ((error : SnapshotError) × (simulate order snapshot ≡ failed error))
simulate_decides_example = simulate_decides order snapshot order-Ranges

abbrev lost : AffectedService
lost = record {
  service_id = 102;
  service_code = "client";
  criticality = "high";
  at = start + 24 * hour + minute;
  reason =
      "old-chain anchor is unavailable at this timepoint; client trust set does not include anchor 2";
}

lost_reported : Memᴰ lost result.affected_services
unfolding result evaluate_direct active_anchors
lost_reported = Memᴰ-here lost []

affected_sound_example : Unhealthy snapshot ids-Distinct lost
affected_sound_example =
    affected_sound snapshot ids-Distinct order result snapshot_runs lost lost_reported

after_overlap : Memᴰ (start + 24 * hour + minute) (critical_times snapshot.config)
unfolding critical_times
after_overlap = Memᴰ-there _ (Memᴰ-there _ (Memᴰ-there _ (Memᴰ-there _ (Memᴰ-here _ _))))

client_unhealthy : ¬ IsHealthy snapshot (start + 24 * hour + minute) 102
client_unhealthy =
    let (_, (service, _, _, e, _, _, sick)) = affected_sound_example in
    λ well. sick (subst (IsHealthy snapshot (start + 24 * hour + minute)) e well)

affected_complete_example :
    (entry : AffectedService) × Memᴰ entry result.affected_services
    × (entry.service_id ≡ 102)
    × (entry.at ≡ start + 24 * hour + minute)
affected_complete_example =
    affected_complete snapshot ids-Distinct order result snapshot_runs (start + 24 * hour + minute)
      after_overlap client (Memᴰ-there gateway (Memᴰ-here client [])) refl client_unhealthy

simulate_shape_example :
    (stamps snapshot result ≡ expected snapshot (critical_times snapshot.config))
    × (outline_affected result.affected_services ≡ outline_broken result.broken_paths)
simulate_shape_example = simulate_shape snapshot order result snapshot_runs

snapshot-IsValid : IsValid snapshot
snapshot-IsValid = (validate_snapshot_iff snapshot order order-Ranges).0 snapshot_accepted

simulate_deterministic_example : simulate order snapshot ≡ simulate (101 ∷ 102 ∷ []) snapshot
simulate_deterministic_example =
    simulate_deterministic order (101 ∷ 102 ∷ []) snapshot order-Ranges (λ id m. m) snapshot-IsValid

validate_snapshot_iff_example : (validate_snapshot order snapshot ≡ none) ↔ IsValid snapshot
validate_snapshot_iff_example = validate_snapshot_iff snapshot order order-Ranges

detect_cycle_iff_example :
    (detect_cycle order snapshot.services ≡ none) ↔ IsAcyclic (edge_map snapshot.services)
detect_cycle_iff_example = detect_cycle_iff snapshot.services order order-Ranges

resolve_service_decides_example :
    (item : _) × (path : List ℕ) × (resolve_service
        (direct_at snapshot start)
        (service_by_id snapshot)
        102
      ≡ some (item, path))
    × ((item.reachable ≡ true)
        ↔ IsReachable (direct_at snapshot start) (service_by_id snapshot) 102)
resolve_service_decides_example =
    resolve_service_decides (direct_at snapshot start) (service_by_id snapshot) 102

active_anchors_iff_example : (has (active_anchors config start) 2 ≡ true) ↔ (
    (2 ≡ config.old_anchor_id) × (start ≤ config.overlap_end)
    ⊎ (2 ≡ config.new_anchor_id) × (config.overlap_start ≤ start))
active_anchors_iff_example = active_anchors_iff config start 2 (omega arith)

critical_times_cover_example :
    IsIncreasing (critical_times config)
    × ((t : Instant) → Memᴰ t (critical_times config) ↔ Memᴰ t (six_points config))
    × ((t : Instant) × Memᴰ t (critical_times config)
        × (has (active_anchors config t) config.old_anchor_id ≡ true)
        × (has (active_anchors config t) config.new_anchor_id ≡ false))
    × ((t : Instant) × Memᴰ t (critical_times config)
        × (has (active_anchors config t) config.old_anchor_id ≡ true)
        × (has (active_anchors config t) config.new_anchor_id ≡ true))
    × ((t : Instant) × Memᴰ t (critical_times config)
        × (has (active_anchors config t) config.old_anchor_id ≡ false)
        × (has (active_anchors config t) config.new_anchor_id ≡ true))
critical_times_cover_example = critical_times_cover config (omega arith) (omega arith) (omega arith)
