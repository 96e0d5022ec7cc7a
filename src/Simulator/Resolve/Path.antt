-- ===== src/Simulator/Resolve/Path.antt =====
-- The path that is reported for an unreachable service leads along dependencies to a service that
-- is the cause.
use cert_rollover_impact_ass.Prelude.{
  ℕ, zero, suc, ◌≡◌, ◌⊎◌, refl, sym, ◌∙◌, true, false, none, some, List, [], ◌∷◌, ◌++◌, Memᴰ,
  Memᴰ-here, Memᴰ-there, Map, IdSet, insert, has, lookup, keys, length, Option-cases, Bool-cases,
  inl, inr, subst,
}
use mathlib.Core.Bool.{false≢true}
use mathlib.Core.List.{append_assoc}
use cert_rollover_impact_ass.Simulator.Snapshot.{ServiceSnapshot}
use cert_rollover_impact_ass.Simulator.Direct.{ServiceEvidence}
use cert_rollover_impact_ass.Simulator.Resolve.{
  Resolved, resolve_all, dependencies, resolve, resolve_service,
}
use cert_rollover_impact_ass.Simulator.Resolve.Reachable.{
  Dependency, DependsOn, LeadsTo, LeadsTo-next, resolve_all-none, resolve_all_broken,
  resolve_all_next, resolve-absent, resolve-enter, enter_broken, enter_below,
}

module _ (direct : Map ServiceEvidence) (services : Map ServiceSnapshot) where
  -- no evidence, because the service is absent or inactive, or evidence that it is unreachable
  abbrev pub IsCause : ℕ → Type 0
  IsCause id =
      (lookup id direct ≡ none)
      ⊎ ((item : ServiceEvidence) × (lookup id direct ≡ some item) × (item.reachable ≡ false))

  -- the path from a service along its dependencies to a cause
  pub data BreaksAlong : ℕ → List ℕ → Type 0 where
    at_cause : {id : ℕ} → IsCause id → BreaksAlong id (id ∷ [])
    below_it :
        {id d : ℕ} {rest : List ℕ}
        → Dependency direct services id d
        → BreaksAlong d rest
        → BreaksAlong id (id ∷ rest)

  -- A result that is unreachable reports such a path behind the path that was walked so far.
  abbrev Explains : List ℕ → ℕ → Resolved → Type 0
  Explains path id none = Unit
  Explains path id (some (item, p)) =
      item.reachable ≡ false → (rest : List ℕ) × (p ≡ path ++ rest) × BreaksAlong id rest

  -- the same of the loop over the dependencies `ds`
  abbrev ExplainsAll : List ℕ → List ℕ → Resolved → Type 0
  ExplainsAll path ds none = Unit
  ExplainsAll path ds (some (item, p)) =
      item.reachable ≡ false
      → (d : ℕ) × (rest : List ℕ) × Memᴰ d ds × (p ≡ path ++ rest) × BreaksAlong d rest

  ExplainsAll-there :
      (path : List ℕ) (x : ℕ) (ds : List ℕ) (r : Resolved)
      → ExplainsAll path ds r
      → ExplainsAll path (x ∷ ds) r
  ExplainsAll-there path x ds none h = tt
  ExplainsAll-there path x ds (some (item, p)) h =
      λ u. let (d, rest, m, e, b) = h u in (d, rest, Memᴰ-there x m, e, b)

  all_explained :
      (call : ℕ → Resolved) (item : ServiceEvidence) (path : List ℕ) (ds : List ℕ)
      → item.reachable ≡ true
      → ((d : ℕ) → Memᴰ d ds → Explains path d (call d))
      → ExplainsAll path ds (resolve_all call item path ds)
  all_explained call item path [] r h = unfold resolve_all in λ u. absurd (false≢true (sym u ∙ r))
  all_explained call item path (d ∷ ds) r h = elim (Option-cases (call d)) [
    | inl e ↦ rw (resolve_all-none call item path d ds e) tt
    | inr ((dep, broken), e) ↦ elim (Bool-cases dep.reachable) [
      | inl u ↦ rw (resolve_all_next call item path d ds dep broken e u) (
          ExplainsAll-there path d ds (resolve_all call item path ds)
            (all_explained call item path ds r (λ x m. h x (Memᴰ-there d m))))
      | inr u ↦ rw (resolve_all_broken call item path d ds dep broken e u) (λ _.
          let (rest, same, b) = subst (Explains path d) e (h d (Memᴰ-here d ds)) u in
          (d, rest, Memᴰ-here d ds, same, b))
    ]
  ]

  explain_below :
      (path : List ℕ) (id : ℕ) (r : Resolved)
      → ExplainsAll (path ++ id ∷ []) (dependencies direct services id) r
      → Explains path id r
  explain_below path id none h = tt
  explain_below path id (some (item, p)) h = λ u.
      let (d, rest, m, e, b) = h u in
      (id ∷ rest, e ∙ append_assoc path (id ∷ []) rest, below_it m b)

  resolve_explained :
      ((u : ℕ) → ¬ DependsOn direct services u u)
      → (fuel : ℕ) (visiting : IdSet) (path : List ℕ) (id : ℕ) → LeadsTo direct services visiting id
      → Explains path id (resolve direct services fuel visiting path id)
  resolve_explained acyclic zero visiting path id leads = unfold resolve in tt
  resolve_explained acyclic (suc fuel) visiting path id leads =
      elim (Option-cases (lookup id direct)) [
        | inl e ↦
            rw (resolve-absent direct services fuel visiting path id e)
              (λ u. (id ∷ [], refl, at_cause (inl e)))
        | inr (item, e) ↦
            rw (resolve-enter direct services fuel visiting path id item e)
              (elim (Bool-cases (has visiting id)) [
                | inl v ↦ absurd (acyclic id (leads id v))
                | inr v ↦ elim (Bool-cases item.reachable) [
                  | inl r ↦
                      rw (enter_below direct services fuel item visiting (path ++ id ∷ []) id v r) (
                        explain_below path id _ (
                          all_explained _ item (path ++ id ∷ []) (dependencies direct services id) r
                            (λ d m.
                              resolve_explained acyclic fuel (insert id true visiting)
                                (path ++ id ∷ []) d
                                (LeadsTo-next direct services visiting id d leads m))))
                  | inr r ↦
                      rw (enter_broken direct services fuel item visiting (path ++ id ∷ []) id v r)
                        (λ u. (id ∷ [], refl, at_cause (inr (item, e, r))))
                ]
              ])
      ]

  -- On an acyclic graph, a service that is resolved as unreachable comes with a path that starts at
  -- it, goes from each service to one of its dependencies, and ends at a service that has no
  -- evidence or is itself not directly reachable.
  pub resolve_service_explains :
      ((u : ℕ) → ¬ DependsOn direct services u u)
      → (id : ℕ) (item : ServiceEvidence) (path : List ℕ)
      → resolve_service direct services id ≡ some (item, path)
      → item.reachable ≡ false
      → BreaksAlong id path
  unfolding resolve_service
  resolve_service_explains acyclic id item path h u =
      let (rest, same, b) =
        subst (Explains [] id) h
          (resolve_explained acyclic (suc (length (keys direct))) [] [] id
            (λ w v. absurd (false≢true v)))
          u in
      rw same b
