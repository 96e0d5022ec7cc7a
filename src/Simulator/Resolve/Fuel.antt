-- ===== src/Simulator/Resolve/Fuel.antt =====
-- The walk over the dependencies ends on every graph, cyclic or not: each nested call puts one more
-- service that has evidence on the path.
use cert_rollover_impact_ass.Prelude.{
  ℕ, zero, suc, ◌≡◌, ◌≢◌, ◌≤◌, ◌<◌, true, false, none, some, List, [], ◌∷◌, ◌++◌, Memᴰ, Memᴰ-cons,
  not-Memᴰ-nil, Map, IdSet, insert, has, lookup, keys, length, lookup_mem, arith, Option-cases,
  Bool-cases, inl, inr, if◌then◌else◌, ◌↔◌, subst,
}
use mathlib.Core.Bool.{false≢true}
use cert_rollover_impact_ass.Simulator.Snapshot.{ServiceSnapshot}
use cert_rollover_impact_ass.Simulator.Direct.{ServiceEvidence}
use cert_rollover_impact_ass.Simulator.Resolve.{
  Resolved, resolve_all, dependencies, resolve, resolve_service,
}
use cert_rollover_impact_ass.Simulator.Resolve.Reachable.{
  IsReachable, resolve_all_broken, resolve_all_next, resolve-absent, resolve-enter, enter_visiting,
  enter_broken, enter_below, IsReachable-of_resolve, resolve_of_reachable, Succeeds,
}

-- how many of the keys are not on the path
abbrev unvisited : IdSet → List ℕ → ℕ
unvisited visiting [] = 0
unvisited visiting (k ∷ ks) =
    let rest = unvisited visiting ks in if has visiting k then rest else suc rest

unvisited-insert-le :
    (visiting : IdSet) (id : ℕ) (ks : List ℕ)
    → unvisited (insert id true visiting) ks ≤ unvisited visiting ks
unvisited-insert-le visiting id [] = omega arith
unvisited-insert-le visiting id (k ∷ ks) = ground (arith, unvisited-insert-le visiting id ks)

unvisited-insert :
    (visiting : IdSet) (id : ℕ) (ks : List ℕ)
    → has visiting id ≡ false
    → Memᴰ id ks
    → unvisited (insert id true visiting) ks < unvisited visiting ks
unvisited-insert visiting id [] v m = absurd (not-Memᴰ-nil m)
unvisited-insert visiting id (k ∷ ks) v m =
    ground (
      arith,
      unvisited-insert visiting id ks,
      unvisited-insert-le visiting id ks,
      Memᴰ-cons id k ks,
    )

unvisited-le-length : (visiting : IdSet) (ks : List ℕ) → unvisited visiting ks ≤ length ks
unvisited-le-length visiting [] = omega arith
unvisited-le-length visiting (k ∷ ks) = ground (arith, unvisited-le-length visiting ks)

resolve_all_returns :
    (call : ℕ → Resolved) (item : ServiceEvidence) (path : List ℕ) (ds : List ℕ)
    → ((d : ℕ) → call d ≢ none)
    → resolve_all call item path ds ≢ none
resolve_all_returns call item path [] ok = unfold resolve_all in λ e. cc
resolve_all_returns call item path (d ∷ ds) ok = elim (Option-cases (call d)) [
  | inl e ↦ absurd (ok d e)
  | inr ((dep, broken), e) ↦ elim (Bool-cases dep.reachable) [
    | inl r ↦
        rw (resolve_all_next call item path d ds dep broken e r)
          (resolve_all_returns call item path ds ok)
    | inr r ↦ rw (resolve_all_broken call item path d ds dep broken e r) (λ bad. cc)
  ]
]

module _ (direct : Map ServiceEvidence) (services : Map ServiceSnapshot) where
  resolve_returns :
      (fuel : ℕ) (visiting : IdSet) (path : List ℕ) (id : ℕ)
      → unvisited visiting (keys direct) < fuel
      → resolve direct services fuel visiting path id ≢ none
  resolve_returns zero visiting path id h = elim h [ ]
  resolve_returns (suc fuel) visiting path id h = elim (Option-cases (lookup id direct)) [
    | inl e ↦ rw (resolve-absent direct services fuel visiting path id e) (λ bad. cc)
    | inr (item, e) ↦
        rw (resolve-enter direct services fuel visiting path id item e)
          (elim (Bool-cases (has visiting id)) [
            | inl v ↦
                rw (enter_visiting direct services fuel item visiting (path ++ id ∷ []) id v)
                  (λ bad. cc)
            | inr v ↦ elim (Bool-cases item.reachable) [
              | inl r ↦
                  let key : Memᴰ id (keys direct) = lookup_mem id direct (λ n. cc) in
                  let fewer = unvisited-insert visiting id (keys direct) v key in
                  rw (enter_below direct services fuel item visiting (path ++ id ∷ []) id v r) (
                    resolve_all_returns _ item (path ++ id ∷ []) (dependencies direct services id)
                      (λ d.
                        resolve_returns fuel (insert id true visiting) (path ++ id ∷ []) d
                          (omega arith)))
              | inr r ↦
                  rw (enter_broken direct services fuel item visiting (path ++ id ∷ []) id v r)
                    (λ bad. cc)
            ]
          ])
  ]

  pub resolve_service_returns : (id : ℕ) → resolve_service direct services id ≢ none
  unfolding resolve_service
  resolve_service_returns id =
      resolve_returns (suc (length (keys direct))) [] [] id
        (omega (arith, unvisited-le-length [] (keys direct)))

  -- resolveService always returns, also on a cyclic graph, and it marks the service reachable
  -- exactly if the service and all that it depends on, at any depth, are directly reachable.
  pub resolve_service_decides :
      (id : ℕ)
      → (item : ServiceEvidence) × (path : List ℕ) × (resolve_service direct services id
          ≡ some (item, path))
        × ((item.reachable ≡ true) ↔ IsReachable direct services id)
  unfolding resolve_service
  resolve_service_decides id = elim (Option-cases (resolve_service direct services id)) [
    | inl e ↦ absurd (resolve_service_returns id e)
    | inr ((item, path), e) ↦
        let depth = suc (length (keys direct)) in
        (
          item,
          path,
          e,
          (
            λ r. IsReachable-of_resolve direct services depth [] [] id (rw e r),
            λ h. subst (Succeeds direct services) e (
                resolve_of_reachable direct services depth [] [] id (λ u v. absurd (false≢true v)) h
                  (resolve_service_returns id)),
          ),
        )
  ]
