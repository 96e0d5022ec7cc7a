-- ===== src/Examples/Parts.antt =====
-- The theorems about the parts of the simulator at small inputs.
use cert_rollover_impact_ass.Prelude.{
  ℕ, ◌≡◌, ◌↔◌, ◌⊎◌, ◌<◌, refl, true, false, none, some, [], ◌∷◌, Memᴰ, Map, arith, Bool-cases, inl,
  inr, Bool, subst, if◌then◌else◌, ◌==◌, ==_iff,
}
use mathlib.Core.List.Memᴰ
use cert_rollover_impact_ass.Prelude.Sorting.{sorted_unique, IsIncreasing}
use cert_rollover_impact_ass.Prelude.Sorting.Laws.{sorted_unique_canonical}
use cert_rollover_impact_ass.Graph.{Colours, done, search_cycle}
use cert_rollover_impact_ass.Graph.Walk.{IsAcyclic}
use cert_rollover_impact_ass.Graph.Verdict.{AllKnown, search_cycle_decides}
use cert_rollover_impact_ass.Simulator.Snapshot.{ServiceSnapshot}
use cert_rollover_impact_ass.Simulator.Window.{active_anchors}
use cert_rollover_impact_ass.Simulator.Direct.{ServiceEvidence, evaluate_direct}
use cert_rollover_impact_ass.Simulator.Direct.Chosen.{Chooses, Serves, evaluate_direct_decides}
use cert_rollover_impact_ass.Simulator.Resolve.{absent, no_service, broken_by, resolve_service}
use cert_rollover_impact_ass.Simulator.Resolve.Reachable.{Dependency, DependsOn, one, more}
use cert_rollover_impact_ass.Simulator.Resolve.Path.{BreaksAlong, resolve_service_explains}
use cert_rollover_impact_ass.Simulator.Run.{chain_by_id}
use cert_rollover_impact_ass.Examples.Sample.{config, gateway, snapshot, start}

sorted_unique_canonical_example :
    IsIncreasing (sorted_unique (3 ∷ 0 ∷ 1 ∷ 3 ∷ []))
    × ((a : ℕ)
        → Memᴰ a (sorted_unique (3 ∷ 0 ∷ 1 ∷ 3 ∷ [])) ↔ ((0 < a) × Memᴰ a (3 ∷ 0 ∷ 1 ∷ 3 ∷ [])))
    × (((a : ℕ) → 0 < a → Memᴰ a (3 ∷ 0 ∷ 1 ∷ 3 ∷ []) ↔ Memᴰ a (1 ∷ 3 ∷ []))
        → sorted_unique (3 ∷ 0 ∷ 1 ∷ 3 ∷ []) ≡ sorted_unique (1 ∷ 3 ∷ []))
sorted_unique_canonical_example = sorted_unique_canonical (3 ∷ 0 ∷ 1 ∷ 3 ∷ []) (1 ∷ 3 ∷ [])

evaluate_direct_decides_example :
    let e =
      evaluate_direct gateway start
        (active_anchors config start)
        (10 ∷ 11 ∷ [])
        (chain_by_id snapshot) in
    (e.reachable ≡ true)
      × Chooses gateway start (active_anchors config start) (10 ∷ 11 ∷ []) (chain_by_id snapshot) e
    ⊎ (e.reachable ≡ false)
      × ((id a : ℕ)
          → ¬ Serves gateway start
              (active_anchors config start)
              (10 ∷ 11 ∷ [])
              (chain_by_id snapshot)
              id
              a)
evaluate_direct_decides_example =
    evaluate_direct_decides gateway start (active_anchors config start) (10 ∷ 11 ∷ [])
      (chain_by_id snapshot)

-- 1 depends on 2, which is inactive.
abbrev front : ServiceEvidence
front = record {
  service_id = 1;
  service_code = "front";
  reachable = true;
  selected_chain_id = 10;
  selected_anchor_id = 1;
  reason = "";
}

abbrev direct : Map ServiceEvidence
direct = (1, front) ∷ []

abbrev services : Map ServiceSnapshot
services = (1, record gateway { id = 1; dependency_ids = 2 ∷ [] }) ∷ []

only_edge : (u v : ℕ) → Dependency direct services u v → (u ≡ 1) × (v ≡ 2)
only_edge u v m = elim (Bool-cases (u == 1)) [
  | inl e ↦
      let h : Memᴰ v (2 ∷ []) = subst (λ b. Memᴰ v (served b).dependency_ids) e m in
      ((==_iff u 1).0 e, Memᴰ.eq_of_singleton h)
  | inr n ↦
      let h : Memᴰ v [] = subst (λ b. Memᴰ v (served b).dependency_ids) n m in
      absurd (Memᴰ.not-nil h)
]
  where
    served : Bool → ServiceSnapshot
    served b =
        elim (if b then some (record gateway { id = 1; dependency_ids = 2 ∷ [] }) else none) [
          | none ↦ no_service
          | some v ↦ v
        ]

only_chain : {u v : ℕ} → DependsOn direct services u v → (u ≡ 1) × (v ≡ 2)
only_chain {u} {v} (one d) = only_edge u v d
only_chain {u} {v} (more p d) =
    let (a, b) = only_chain p in let (c, e) = only_edge _ v d in absurd (omega arith)

no_cycle : (u : ℕ) → ¬ DependsOn direct services u u
no_cycle u p = let (a, b) = only_chain p in absurd (omega arith)

resolve_service_explains_example : BreaksAlong direct services 1 (1 ∷ 2 ∷ [])
resolve_service_explains_example =
    resolve_service_explains direct services no_cycle 1 (broken_by front (absent 2)) (1 ∷ 2 ∷ [])
      (unfold resolve_service in refl) refl

search_cycle_decides_example :
    ((t : Colours) × (search_cycle (λ v. v == 2) ((1, 2 ∷ []) ∷ []) (1 ∷ []) ≡ done t))
    ↔ (IsAcyclic ((1, 2 ∷ []) ∷ []) × AllKnown (λ v. v == 2) ((1, 2 ∷ []) ∷ []))
search_cycle_decides_example =
    search_cycle_decides (λ v. v == 2) ((1, 2 ∷ []) ∷ []) (1 ∷ []) (λ id m. m)
