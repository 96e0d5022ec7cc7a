-- ===== src/Simulator/Run/Total.antt =====
-- Simulate never runs out of fuel, accepts what ValidateSnapshot accepts, and its result does not
-- depend on the order in which Go ranges over a map.
use cert_rollover_impact_ass.Prelude.{
  ℕ, ◌≡◌, ◌≢◌, ◌⊎◌, refl, none, some, List, [], ◌∷◌, Map, Option-cases, Bool-cases, inl, inr,
}
use cert_rollover_impact_ass.Simulator.Snapshot.{
  Instant, ServiceSnapshot, Snapshot, SnapshotError, validate_snapshot,
}
use cert_rollover_impact_ass.Simulator.Snapshot.Validate.{Ranges, IsValid, validate_snapshot_iff}
use cert_rollover_impact_ass.Simulator.Window.{critical_times}
use cert_rollover_impact_ass.Simulator.Resolve.{Resolved, resolve_service}
use cert_rollover_impact_ass.Simulator.Resolve.Fuel.{resolve_service_returns}
use cert_rollover_impact_ass.Simulator.Run.{
  Result, simulated, failed, PointReport, is_active, add_item, resolve_active, service_by_id,
  direct_at, point_report, add_point, simulate_points, explain, simulate,
}

module _ (by_id : Map ServiceSnapshot) (call : ℕ → Resolved) (returns : (id : ℕ) → call id ≢ none)
    (at : Instant) where
  resolve_active_returns :
      (services : List ServiceSnapshot)
      → (report : PointReport) × (resolve_active by_id call at services ≡ some report)
  unfolding resolve_active
  resolve_active_returns [] = (_, refl)
  resolve_active_returns (s ∷ services) =
      let (rest, e) = resolve_active_returns services in
      elim (Bool-cases (is_active s)) [
        | inl a ↦ elim (Option-cases (call s.id)) [
          | inl bad ↦ absurd (returns s.id bad)
          | inr ((item, path), c) ↦ (add_item by_id at s item path rest, simp (a, c, e))
        ]
        | inr a ↦ (rest, simp (a, e))
      ]

pub point_report_returns :
    (snapshot : Snapshot) (at : Instant)
    → (report : PointReport) × (point_report snapshot at ≡ some report)
unfolding point_report
point_report_returns snapshot at =
    resolve_active_returns (service_by_id snapshot)
      (resolve_service (direct_at snapshot at) (service_by_id snapshot))
      (resolve_service_returns (direct_at snapshot at) (service_by_id snapshot)) at
      snapshot.services

simulate_points_returns :
    (snapshot : Snapshot) (points : List Instant)
    → (result : Result) × (simulate_points snapshot points ≡ some result)
unfolding simulate_points
simulate_points_returns snapshot [] = (_, refl)
simulate_points_returns snapshot (at ∷ points) =
    let (report, e) = point_report_returns snapshot at in
    let (rest, f) = simulate_points_returns snapshot points in
    (add_point snapshot at report rest, rw (e, f, simulate_points))

-- the result of a simulation, for a snapshot that is accepted
pub simulate_accepted :
    (order : List ℕ) (snapshot : Snapshot)
    → validate_snapshot order snapshot ≡ none
    → (result : Result) × (simulate_points snapshot (critical_times snapshot.config) ≡ some result)
      × (simulate order snapshot
          ≡ simulated (record result { explanation = explain snapshot.config result }))
unfolding simulate
simulate_accepted order snapshot v =
    let (result, e) = simulate_points_returns snapshot (critical_times snapshot.config) in
    (result, e, rw (v, e, simulate))

pub simulate_refused :
    (order : List ℕ) (snapshot : Snapshot) (error : SnapshotError)
    → validate_snapshot order snapshot ≡ some error
    → simulate order snapshot ≡ failed error
unfolding simulate
simulate_refused order snapshot error v = rw (v, simulate)

-- Simulate returns a result exactly for the inputs that IsValid describes; on all others it returns
-- the error of ValidateSnapshot. In particular it always returns.
pub simulate_decides :
    (order : List ℕ) (snapshot : Snapshot)
    → Ranges snapshot.services order
    → IsValid snapshot × ((result : Result) × (simulate order snapshot ≡ simulated result))
      ⊎ (¬ IsValid snapshot) × ((error : SnapshotError) × (simulate order snapshot ≡ failed error))
simulate_decides order snapshot r = elim (Option-cases (validate_snapshot order snapshot)) [
  | inl v ↦
      let (result, _, e) = simulate_accepted order snapshot v in
      inl ((validate_snapshot_iff snapshot order r).0 v, (_, e))
  | inr (error, v) ↦ inr (
    λ valid. let ok = (validate_snapshot_iff snapshot order r).1 valid in cc,
    (error, simulate_refused order snapshot error v),
  )
]

-- Two runs over the same valid snapshot give the same result, in whatever order each of them ranges
-- over the services.
pub simulate_deterministic :
    (order other : List ℕ) (snapshot : Snapshot)
    → Ranges snapshot.services order
    → Ranges snapshot.services other
    → IsValid snapshot
    → simulate order snapshot ≡ simulate other snapshot
simulate_deterministic order other snapshot r s valid =
    let (first, e, f) =
      simulate_accepted order snapshot ((validate_snapshot_iff snapshot order r).1 valid) in
    let (second, g, h) =
      simulate_accepted other snapshot ((validate_snapshot_iff snapshot other s).1 valid) in
    cc (e, f, g, h)
