-- ===== src/Simulator/Run/Outcome.antt =====
-- What the result of a simulation says about the services of the snapshot.
use cert_rollover_impact_ass.Prelude.{
  ℕ, ◌≡◌, ◌↔◌, refl, sym, ◌∙◌, true, false, none, some, List, [], ◌∷◌, Memᴰ, Memᴰ-cons, Memᴰ-here,
  Memᴰ-there, not-Memᴰ-nil, Bool-cases, Option-cases, inl, inr, ⊎_elim, subst, ap, List-cases,
}
use mathlib.Core.Bool.{false≢true}
use mathlib.Core.List.Memᴰ
use cert_rollover_impact_ass.Prelude.Sorting.Laws.{Distinct}
use cert_rollover_impact_ass.Simulator.Snapshot.{
  Instant, ServiceSnapshot, Snapshot, validate_snapshot,
}
use cert_rollover_impact_ass.Simulator.Snapshot.Validate.{service_ids}
use cert_rollover_impact_ass.Simulator.Window.{critical_times}
use cert_rollover_impact_ass.Simulator.Direct.{ServiceEvidence}
use cert_rollover_impact_ass.Simulator.Resolve.{Resolved, resolve_service}
use cert_rollover_impact_ass.Simulator.Resolve.Fuel.{resolve_service_decides}
use cert_rollover_impact_ass.Simulator.Run.{
  AffectedService, Result, simulated, failed, PointReport, is_active, affect, service_by_id,
  direct_at, point_report, add_point, simulate_points, explain, simulate,
}
use cert_rollover_impact_ass.Simulator.Run.Total.{
  point_report_returns, simulate_accepted, simulate_refused,
}
use cert_rollover_impact_ass.Simulator.Run.Healthy.{IsHealthy, IsReachable-iff}
use cert_rollover_impact_ass.Simulator.Run.Report.{Reports, Reports-of_mem, mem_of_reports}

module _ (snapshot : Snapshot) where
  abbrev call_at : Instant → ℕ → Resolved
  call_at at = resolve_service (direct_at snapshot at) (service_by_id snapshot)

  pub simulate_points-cons :
      (at : Instant) (points : List Instant) (result : Result)
      → simulate_points snapshot (at ∷ points) ≡ some result
      → (report : PointReport) × (rest : Result) × (point_report snapshot at ≡ some report)
        × (simulate_points snapshot points ≡ some rest)
        × (result ≡ add_point snapshot at report rest)
  unfolding simulate_points
  simulate_points-cons at points result h =
      let (report, e) = point_report_returns snapshot at in
      elim (Option-cases (simulate_points snapshot points)) [
        | inl n ↦ let bad : none ≡ some result = rw (e, n, simulate_points) at h in cc
        | inr (rest, f) ↦
            let same : some (add_point snapshot at report rest) ≡ some result =
              rw (e, f, simulate_points) at h in
            (report, rest, e, f, cc)
      ]

  -- An entry of the result is an entry of the report at one of the points.
  report_of_entry :
      (points : List Instant) (result : Result)
      → simulate_points snapshot points ≡ some result
      → (entry : AffectedService) → Memᴰ entry result.affected_services
      → (at : Instant) × Memᴰ at points × Reports (call_at at) at snapshot.services entry
  unfolding simulate_points
  report_of_entry [] result h entry m =
      let empty : result.affected_services ≡ [] = cc in
      absurd (not-Memᴰ-nil (subst (Memᴰ entry) empty m))
  report_of_entry (at ∷ points) result h entry m =
      let (report, rest, e, f, same) = simulate_points-cons at points result h in
      let inside = subst (Memᴰ entry) (ap (λ (r : Result). r.affected_services) same) m in
      ⊎_elim
        (λ now. (
          at,
          Memᴰ-here at points,
          Reports-of_mem (service_by_id snapshot) (call_at at) at snapshot.services report
              (unfold point_report in e) entry now,
        ))
        (λ later.
          let (t, m', r) = report_of_entry points rest f entry later in (t, Memᴰ-there at m', r))
        (Memᴰ.append_cases report.affected inside)

  entry_of_report :
      (points : List Instant) (result : Result)
      → simulate_points snapshot points ≡ some result
      → (at : Instant) → Memᴰ at points
      → (service : ServiceSnapshot) (item : ServiceEvidence) (path : List ℕ)
      → Memᴰ service snapshot.services
      → is_active service ≡ true
      → call_at at service.id ≡ some (item, path)
      → item.reachable ≡ false
      → Memᴰ (affect service at item) result.affected_services
  entry_of_report [] result h at m service item path s a c r = absurd (not-Memᴰ-nil m)
  entry_of_report (t ∷ points) result h at m service item path s a c r =
      let (report, rest, e, f, same) = simulate_points-cons t points result h in
      let here =
        mem_of_reports (service_by_id snapshot) (call_at t) t snapshot.services report
          (unfold point_report in e) service item path s a in
      rw same (
        ⊎_elim
          (λ now.
            Memᴰ.append_left rest.affected_services
              (rw now (here (subst (λ x. call_at x service.id ≡ some (item, path)) now c) r)))
          (λ later.
            Memᴰ.append_right report.affected
              (entry_of_report points rest f at later service item path s a c r))
          ((Memᴰ-cons at t points).0 m))

  -- the points of a result that was returned
  pub run_of_result :
      (order : List ℕ) (result : Result)
      → simulate order snapshot ≡ simulated result
      → (raw : Result) × (simulate_points snapshot (critical_times snapshot.config) ≡ some raw)
        × (result ≡ record raw { explanation = explain snapshot.config raw })
  run_of_result order result h = elim (Option-cases (validate_snapshot order snapshot)) [
    | inl v ↦
        let (raw, e, f) = simulate_accepted order snapshot v in
        (raw, e, simulated-injective (sym h ∙ f))
    | inr (error, v) ↦
        let bad : failed error ≡ simulated result =
          sym (simulate_refused order snapshot error v) ∙ h in
        cc
  ]
    where
      simulated-injective : {x y : Result} → simulated x ≡ simulated y → x ≡ y
      simulated-injective e = cc

  module _ (unique : Distinct (service_ids snapshot.services)) where
    -- the walk of a service, whose verdict is health
    verdict :
        (at : Instant) (id : ℕ)
        → (item : ServiceEvidence) × (path : List ℕ) × (call_at at id ≡ some (item, path))
          × ((item.reachable ≡ true) ↔ IsHealthy snapshot at id)
    verdict at id =
        let (item, path, e, decides) =
          resolve_service_decides (direct_at snapshot at) (service_by_id snapshot) id in
        let (to, back) = IsReachable-iff snapshot at unique id in
        (item, path, e, (λ r. to (decides.0 r), λ h. decides.1 (back h)))

    -- what an entry of the report claims
    abbrev pub Unhealthy : AffectedService → Type 0
    Unhealthy entry =
        Memᴰ entry.at (critical_times snapshot.config)
        × ((service : ServiceSnapshot) × Memᴰ service snapshot.services
            × (is_active service ≡ true)
            × (entry.service_id ≡ service.id)
            × (entry.service_code ≡ service.code)
            × (entry.criticality ≡ service.criticality)
            × (¬ IsHealthy snapshot entry.at service.id))

    -- Every affected service that a simulation reports is an active service of the snapshot that is
    -- not healthy at the instant it is reported for, and that instant is a critical time.
    pub affected_sound :
        (order : List ℕ) (result : Result)
        → simulate order snapshot ≡ simulated result
        → (entry : AffectedService) → Memᴰ entry result.affected_services
        → Unhealthy entry
    affected_sound order result h entry m =
        let (raw, e, same) = run_of_result order result h in
        let (at, point, r) =
          report_of_entry (critical_times snapshot.config) raw e entry
            (subst (Memᴰ entry) (ap (λ (x : Result). x.affected_services) same) m) in
        let (item, path, c, decides) = verdict at r.service.id in
        let one : item ≡ r.item = cc (c, r.resolved) in
        subst Unhealthy (sym r.entry_is) (
          point,
          (
            r.service,
            r.member,
            r.active,
            refl,
            refl,
            refl,
            λ well. false≢true (
                sym r.unreachable
                ∙ subst (λ (x : ServiceEvidence). x.reachable ≡ true) one (decides.1 well)),
          ),
        )

    -- Every active service that is not healthy at a critical time is reported for that instant.
    pub affected_complete :
        (order : List ℕ) (result : Result)
        → simulate order snapshot ≡ simulated result
        → (at : Instant) → Memᴰ at (critical_times snapshot.config)
        → (service : ServiceSnapshot) → Memᴰ service snapshot.services
        → is_active service ≡ true
        → ¬ IsHealthy snapshot at service.id
        → (entry : AffectedService) × Memᴰ entry result.affected_services
          × (entry.service_id ≡ service.id)
          × (entry.at ≡ at)
    affected_complete order result h at point service s a sick =
        let (raw, e, same) = run_of_result order result h in
        let (item, path, c, decides) = verdict at service.id in
        let broken : item.reachable ≡ false =
          ⊎_elim (λ r. absurd (sick (decides.0 r))) (λ r. r) (Bool-cases item.reachable) in
        (
          affect service at item,
          subst (Memᴰ (affect service at item))
              (sym (ap (λ (x : Result). x.affected_services) same))
              (entry_of_report (critical_times snapshot.config) raw e at point service item path s a
                c broken),
          refl,
          refl,
        )

    -- A simulation reports no affected service exactly if every active service is healthy at every
    -- critical time.
    pub no_affected_iff :
        (order : List ℕ) (result : Result)
        → simulate order snapshot ≡ simulated result
        → (result.affected_services ≡ []) ↔ (
            (at : Instant)
            → Memᴰ at (critical_times snapshot.config)
            → (service : ServiceSnapshot) → Memᴰ service snapshot.services
            → is_active service ≡ true
            → IsHealthy snapshot at service.id)
    no_affected_iff order result h = (
      λ empty at point service s a.
          let (item, path, c, decides) = verdict at service.id in
          ⊎_elim decides.0
            (λ broken.
              let sick : ¬ IsHealthy snapshot at service.id =
                λ well. false≢true (sym broken ∙ decides.1 well) in
              let (entry, m, _, _) = affected_complete order result h at point service s a sick in
              absurd (not-Memᴰ-nil (subst (Memᴰ entry) empty m)))
            (Bool-cases item.reachable),
      λ all_well. elim (List-cases result.affected_services) [
        | inl empty ↦ empty
        | inr (entry, others, e) ↦
            let (point, (service, s, a, same_id, _, _, sick)) =
              affected_sound order result h entry (rw e (Memᴰ-here entry others)) in
            absurd (sick (all_well entry.at point service s a))
      ],
    )
