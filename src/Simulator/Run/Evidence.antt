-- ===== src/Simulator/Run/Evidence.antt =====
-- The shape of a result: the evidence has one entry for each critical time, and the broken paths
-- stand beside the affected services, one for one.
use cert_rollover_impact_ass.Prelude.{
  ℕ, ◌≡◌, refl, sym, ◌∙◌, some, List, [], ◌∷◌, ◌++◌, map, Map, String, Bool-cases, inl, inr, ap,
  ap₂,
}
use mathlib.Core.List.{map-append}
use cert_rollover_impact_ass.Simulator.Snapshot.{Instant, ServiceSnapshot, Snapshot}
use cert_rollover_impact_ass.Simulator.Window.{critical_times, active_anchors, map_keys}
use cert_rollover_impact_ass.Simulator.Direct.{ServiceEvidence}
use cert_rollover_impact_ass.Simulator.Resolve.{Resolved}
use cert_rollover_impact_ass.Simulator.Run.{
  AffectedService, BrokenPath, TimepointEvidence, Result, simulated, PointReport, is_active,
  add_item, resolve_active, service_by_id, point_report, simulate_points, simulate,
}
use cert_rollover_impact_ass.Simulator.Run.Report.{resolve_active_inactive, resolve_active_add}
use cert_rollover_impact_ass.Simulator.Run.Outcome.{simulate_points-cons, run_of_result}

-- the instant and the reason, which an affected service and its broken path share
abbrev pub outline_affected : List AffectedService → List (Instant × String)
outline_affected xs = map (λ (a : AffectedService). (a.at, a.reason)) xs

abbrev pub outline_broken : List BrokenPath → List (Instant × String)
outline_broken xs = map (λ (b : BrokenPath). (b.at, b.reason)) xs

abbrev IsAligned : PointReport → Type 0
IsAligned report = outline_affected report.affected ≡ outline_broken report.broken

module _ (by_id : Map ServiceSnapshot) (call : ℕ → Resolved) (at : Instant) where
  add_item-IsAligned :
      (s : ServiceSnapshot) (item : ServiceEvidence) (path : List ℕ) (rest : PointReport)
      → IsAligned rest
      → IsAligned (add_item by_id at s item path rest)
  unfolding add_item
  add_item-IsAligned s item path rest h = elim (Bool-cases item.reachable) [
    | inl r ↦ simp r h
    | inr r ↦ simp r (ap (λ l. (at, item.reason) ∷ l) h)
  ]

  resolve_active-IsAligned :
      (services : List ServiceSnapshot) (report : PointReport)
      → resolve_active by_id call at services ≡ some report
      → IsAligned report
  unfolding resolve_active
  resolve_active-IsAligned [] report h =
      let same : record { items = []; affected = []; broken = [] } ≡ report = cc in rw (← same) refl
  resolve_active-IsAligned (s ∷ services) report h = elim (Bool-cases (is_active s)) [
    | inr a ↦
        resolve_active-IsAligned services report
          (sym (resolve_active_inactive by_id call at s services a) ∙ h)
    | inl a ↦
        let (item, path, rest, _, e, same) =
          resolve_active_add by_id call at s services report a h in
        rw same (add_item-IsAligned s item path rest (resolve_active-IsAligned services rest e))
  ]

module _ (snapshot : Snapshot) where
  abbrev pub stamps : Result → List (Instant × List ℕ)
  stamps result = map (λ (e : TimepointEvidence). (e.at, e.active_anchor_ids)) result.evidence

  abbrev pub expected : List Instant → List (Instant × List ℕ)
  expected points = map (λ t. (t, map_keys (active_anchors snapshot.config t))) points

  shape :
      (points : List Instant) (result : Result)
      → simulate_points snapshot points ≡ some result
      → (stamps result ≡ expected points)
        × (outline_affected result.affected_services ≡ outline_broken result.broken_paths)
  unfolding simulate_points
  shape [] result h =
      let same : record {
        affected_services = [];
        broken_paths = [];
        evidence = [];
        explanation = "";
      }
          ≡ result =
        cc in
      rw (← same) (refl, refl)
  shape (at ∷ points) result h =
      let (report, rest, e, f, same) = simulate_points-cons snapshot at points result h in
      let (times, pairs) = shape points rest f in
      let aligned =
        resolve_active-IsAligned (service_by_id snapshot) _ at snapshot.services report
          (unfold point_report in e) in
      rw same (
        ap (λ l. (at, map_keys (active_anchors snapshot.config at)) ∷ l) times,
        rw (map-append, map-append) (ap₂ ◌++◌ aligned pairs),
      )

  -- A simulation gives evidence for each critical time, in order, with the anchors that are active
  -- then; and each affected service has the broken path beside it, with the same instant and reason.
  pub simulate_shape :
      (order : List ℕ) (result : Result)
      → simulate order snapshot ≡ simulated result
      → (stamps result ≡ expected (critical_times snapshot.config))
        × (outline_affected result.affected_services ≡ outline_broken result.broken_paths)
  simulate_shape order result h =
      let (raw, e, same) = run_of_result snapshot order result h in
      rw same (shape (critical_times snapshot.config) raw e)
