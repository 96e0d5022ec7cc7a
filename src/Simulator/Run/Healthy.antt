-- ===== src/Simulator/Run/Healthy.antt =====
-- The specification of the simulation: which services have a working trust path at an instant.
use cert_rollover_impact_ass.Prelude.{
  ℕ, ◌≡◌, ◌↔◌, true, Option, some, none, [], Memᴰ, inl, inr, subst, ap,
}
use cert_rollover_impact_ass.Prelude.Sorting.Laws.{Distinct}
use cert_rollover_impact_ass.Simulator.Snapshot.{Instant, ServiceSnapshot, Snapshot}
use cert_rollover_impact_ass.Simulator.Snapshot.Validate.{service_ids}
use cert_rollover_impact_ass.Simulator.Window.{active_anchors}
use cert_rollover_impact_ass.Simulator.Direct.Chosen.{Serves, evaluate_direct_iff}
use cert_rollover_impact_ass.Simulator.Resolve.{dependencies, no_service}
use cert_rollover_impact_ass.Simulator.Resolve.Reachable.{IsReachable, reached}
use cert_rollover_impact_ass.Simulator.Run.{
  is_active, chain_by_id, service_by_id, evidence_at, direct_at,
}
use cert_rollover_impact_ass.Simulator.Run.Index.{
  index_from_find, direct_from_origin, direct_from_find,
}

abbrev or_no_service : Option ServiceSnapshot → ServiceSnapshot
or_no_service o = elim o [ none ↦ no_service | some service ↦ service ]

module _ (snapshot : Snapshot) (at : Instant) where
  -- A chain serves the service at this instant, under the anchors that are active then.
  abbrev pub ServedOver : ServiceSnapshot → ℕ → ℕ → Type 0
  ServedOver service chain anchor =
      Serves service at (active_anchors snapshot.config at) snapshot.config.candidate_chain_ids
        (chain_by_id snapshot) chain anchor

  -- A service is healthy if it is active, some chain serves it, and all that it depends on are
  -- healthy.
  pub data IsHealthy : ℕ → Type 0 where
    healthy :
        {id : ℕ} (service : ServiceSnapshot)
        → Memᴰ service snapshot.services
        → is_active service ≡ true
        → service.id ≡ id
        → (chain anchor : ℕ) → ServedOver service chain anchor
        → ((d : ℕ) → Memᴰ d service.dependency_ids → IsHealthy d)
        → IsHealthy id

  module _ (unique : Distinct (service_ids snapshot.services)) where
    evidence_iff :
        (service : ServiceSnapshot)
        → ((evidence_at snapshot at service).reachable ≡ true)
          ↔ ((chain : ℕ) × (anchor : ℕ) × ServedOver service chain anchor)
    evidence_iff service =
        evaluate_direct_iff service at (active_anchors snapshot.config at)
          snapshot.config.candidate_chain_ids (chain_by_id snapshot)

    dependencies_lem :
        (service : ServiceSnapshot)
        → Memᴰ service snapshot.services
        → dependencies (direct_at snapshot at) (service_by_id snapshot) service.id
          ≡ service.dependency_ids
    dependencies_lem service m =
        let e =
          index_from_find (λ (s : ServiceSnapshot). s.id) (λ s. s) [] snapshot.services service
            unique m in
        ap (λ o. (or_no_service o).dependency_ids) e

    healthy_of_reachable :
        {id : ℕ} → IsReachable (direct_at snapshot at) (service_by_id snapshot) id → IsHealthy id
    unfolding direct_at
    healthy_of_reachable (reached {id} item e r below) =
        elim (direct_from_origin (evidence_at snapshot at) [] snapshot.services id item e) [
          | inl bad ↦ cc
          | inr (service, m, a, same, made) ↦
              let shown : (evidence_at snapshot at service).reachable ≡ true = rw made r in
              let (chain, anchor, served) = (evidence_iff service).0 shown in
              healthy service m a same chain anchor served (λ d t. healthy_of_reachable (
                below d (
                  subst
                    (λ i. Memᴰ d (dependencies (direct_at snapshot at) (service_by_id snapshot) i))
                    same (rw (dependencies_lem service m) t))))
        ]

    IsReachable-of_healthy :
        {id : ℕ} → IsHealthy id → IsReachable (direct_at snapshot at) (service_by_id snapshot) id
    unfolding direct_at
    IsReachable-of_healthy (healthy service m a same chain anchor served below) =
        subst (IsReachable (direct_at snapshot at) (service_by_id snapshot)) same (
          reached (evidence_at snapshot at service)
            (direct_from_find (evidence_at snapshot at) [] snapshot.services service unique m a)
            ((evidence_iff service).1 (chain, anchor, served))
            (λ d t. IsReachable-of_healthy (below d (rw (dependencies_lem service m) at t))))

    pub IsReachable-iff :
        (id : ℕ) → IsReachable (direct_at snapshot at) (service_by_id snapshot) id ↔ IsHealthy id
    IsReachable-iff id = (healthy_of_reachable, IsReachable-of_healthy)
