-- ===== src/Simulator/Resolve/Reachable.antt =====
-- A service is resolved as reachable exactly if it and all it depends on, at any depth, have
-- evidence that is reachable; a service on a cycle is not.
use cert_rollover_impact_ass.Prelude.{
  ℕ, zero, suc, ◌≡◌, ◌≢◌, refl, true, false, none, some, List, [], ◌∷◌, ◌++◌, Memᴰ, Memᴰ-cons,
  Memᴰ-here, Memᴰ-there, not-Memᴰ-nil, Map, IdSet, insert, has, lookup, arith, Option-cases,
  Bool-cases, inl, inr, ⊎_elim, ◌∙◌, subst,
}
use native.Mathlib.Decide.{ℕ_discrete}
use cert_rollover_impact_ass.Simulator.Snapshot.{ServiceSnapshot}
use cert_rollover_impact_ass.Simulator.Direct.{ServiceEvidence}
use cert_rollover_impact_ass.Simulator.Resolve.{
  Resolved, absent, broken_by, on_cycle, resolve_all, dependencies, enter, resolve,
}

-- the three ways in which a round of the loop can go
pub resolve_all-none :
    (call : ℕ → Resolved) (item : ServiceEvidence) (path : List ℕ) (d : ℕ) (ds : List ℕ)
    → call d ≡ none
    → resolve_all call item path (d ∷ ds) ≡ none
unfolding resolve_all
resolve_all-none call item path d ds e = rw (e, resolve_all)

pub resolve_all_broken :
    (call : ℕ → Resolved) (item : ServiceEvidence) (path : List ℕ) (d : ℕ) (ds : List ℕ)
    (dep : ServiceEvidence) (broken : List ℕ)
    → call d ≡ some (dep, broken)
    → dep.reachable ≡ false
    → resolve_all call item path (d ∷ ds) ≡ some (broken_by item dep, broken)
unfolding resolve_all
resolve_all_broken call item path d ds dep broken e u = rw (e, u, resolve_all)

pub resolve_all_next :
    (call : ℕ → Resolved) (item : ServiceEvidence) (path : List ℕ) (d : ℕ) (ds : List ℕ)
    (dep : ServiceEvidence) (broken : List ℕ)
    → call d ≡ some (dep, broken)
    → dep.reachable ≡ true
    → resolve_all call item path (d ∷ ds) ≡ resolve_all call item path ds
unfolding resolve_all
resolve_all_next call item path d ds dep broken e u = rw (e, u, resolve_all)

module _ (direct : Map ServiceEvidence) (services : Map ServiceSnapshot) where
  abbrev pub Dependency : ℕ → ℕ → Type 0
  Dependency id d = Memᴰ d (dependencies direct services id)

  -- the specification: a finite tree of services that are all directly reachable
  pub data IsReachable : ℕ → Type 0 where
    reached :
        {id : ℕ} (item : ServiceEvidence)
        → lookup id direct ≡ some item
        → item.reachable ≡ true
        → ((d : ℕ) → Dependency id d → IsReachable d)
        → IsReachable id

  -- chains of dependencies of one step or more
  pub data DependsOn (u : ℕ) : ℕ → Type 0 where
    one : {v : ℕ} → Dependency u v → DependsOn u v
    more : {v w : ℕ} → DependsOn u v → Dependency v w → DependsOn u w

  first_step :
      {u w : ℕ}
      → DependsOn u w
      → (v : ℕ) × Dependency u v × ((x : ℕ) → Dependency w x → DependsOn v x)
  first_step {w = w} (one e) = (w, e, λ x f. one f)
  first_step (more p f) = let (v, e, rest) = first_step p in (v, e, λ x g. more (rest _ f) g)

  pub not_DependsOn_self : {u : ℕ} → IsReachable u → ¬ DependsOn u u
  not_DependsOn_self (reached item e r below) p =
      let (v, d, rest) = first_step p in not_DependsOn_self (below v d) (rest v d)

  -- What the walk returns is reachable.
  abbrev pub Succeeds : Resolved → Type 0
  Succeeds none = ⊥
  Succeeds (some (item, path)) = item.reachable ≡ true

  Succeeds-all :
      (call : ℕ → Resolved) (item : ServiceEvidence) (path : List ℕ) (ds : List ℕ)
      → Succeeds (resolve_all call item path ds)
      → (d : ℕ) → Memᴰ d ds
      → Succeeds (call d)
  Succeeds-all call item path [] h d m = absurd (not-Memᴰ-nil m)
  Succeeds-all call item path (x ∷ ds) h d m = elim (Option-cases (call x)) [
    | inl e ↦ absurd (rw (resolve_all-none call item path x ds e) at h)
    | inr ((dep, broken), e) ↦ elim (Bool-cases dep.reachable) [
      | inl u ↦
          ⊎_elim (λ same. rw same (rw e u))
            (Succeeds-all call item path ds
              (rw (resolve_all_next call item path x ds dep broken e u) at h) d)
            ((Memᴰ-cons d x ds).0 m)
      | inr u ↦
          let bad : false ≡ true =
            rw (resolve_all_broken call item path x ds dep broken e u) at h in
          cc
    ]
  ]

  all_succeed :
      (call : ℕ → Resolved) (item : ServiceEvidence) (path : List ℕ) (ds : List ℕ)
      → item.reachable ≡ true
      → ((d : ℕ) → Memᴰ d ds → call d ≢ none → Succeeds (call d))
      → resolve_all call item path ds ≢ none
      → Succeeds (resolve_all call item path ds)
  all_succeed call item path [] r h n = unfold resolve_all in r
  all_succeed call item path (x ∷ ds) r h n = elim (Option-cases (call x)) [
    | inl e ↦ absurd (n (resolve_all-none call item path x ds e))
    | inr ((dep, broken), e) ↦
        let u : dep.reachable ≡ true = rw e at (h x (Memᴰ-here x ds) (λ bad. cc)) in
        let same = resolve_all_next call item path x ds dep broken e u in
        rw same
          (all_succeed call item path ds r (λ d m. h d (Memᴰ-there x m)) (λ bad. n (same ∙ bad)))
  ]

  pub resolve-absent :
      (fuel : ℕ) (visiting : IdSet) (path : List ℕ) (id : ℕ)
      → lookup id direct ≡ none
      → resolve direct services (suc fuel) visiting path id ≡ some (absent id, path ++ id ∷ [])
  unfolding resolve
  resolve-absent fuel visiting path id e = rw (e, resolve)

  pub resolve-enter :
      (fuel : ℕ) (visiting : IdSet) (path : List ℕ) (id : ℕ) (item : ServiceEvidence)
      → lookup id direct ≡ some item
      → resolve direct services (suc fuel) visiting path id
        ≡ enter direct services (resolve direct services fuel) item visiting (path ++ id ∷ []) id
  unfolding resolve
  resolve-enter fuel visiting path id item e = rw (e, resolve)

  -- the loop of a call that went on to the dependencies
  abbrev pub below : ℕ → ServiceEvidence → IdSet → List ℕ → ℕ → Resolved
  below fuel item visiting path id =
      resolve_all (resolve direct services fuel (insert id true visiting) path) item path
        (dependencies direct services id)

  pub enter_visiting :
      (fuel : ℕ) (item : ServiceEvidence) (visiting : IdSet) (path : List ℕ) (id : ℕ)
      → has visiting id ≡ true
      → enter direct services (resolve direct services fuel) item visiting path id
        ≡ some (on_cycle item, path)
  enter_visiting fuel item visiting path id v = simp v

  pub enter_broken :
      (fuel : ℕ) (item : ServiceEvidence) (visiting : IdSet) (path : List ℕ) (id : ℕ)
      → has visiting id ≡ false
      → item.reachable ≡ false
      → enter direct services (resolve direct services fuel) item visiting path id
        ≡ some (item, path)
  enter_broken fuel item visiting path id v r = simp (v, r)

  pub enter_below :
      (fuel : ℕ) (item : ServiceEvidence) (visiting : IdSet) (path : List ℕ) (id : ℕ)
      → has visiting id ≡ false
      → item.reachable ≡ true
      → enter direct services (resolve direct services fuel) item visiting path id
        ≡ below fuel item visiting path id
  enter_below fuel item visiting path id v r = simp (v, r)

  enter-Succeeds :
      (fuel : ℕ) (item : ServiceEvidence) (visiting : IdSet) (path : List ℕ) (id : ℕ)
      → Succeeds (enter direct services (resolve direct services fuel) item visiting path id)
      → (item.reachable ≡ true) × Succeeds (below fuel item visiting path id)
  enter-Succeeds fuel item visiting path id h = elim (Bool-cases (has visiting id)) [
    | inl v ↦
        let bad : false ≡ true = subst Succeeds (enter_visiting fuel item visiting path id v) h in
        cc
    | inr v ↦ elim (Bool-cases item.reachable) [
      | inl r ↦ (r, subst Succeeds (enter_below fuel item visiting path id v r) h)
      | inr r ↦
          let bad : item.reachable ≡ true =
            subst Succeeds (enter_broken fuel item visiting path id v r) h in
          cc
    ]
  ]

  pub IsReachable-of_resolve :
      (fuel : ℕ) (visiting : IdSet) (path : List ℕ) (id : ℕ)
      → Succeeds (resolve direct services fuel visiting path id)
      → IsReachable id
  IsReachable-of_resolve zero visiting path id h = absurd (unfold resolve in h)
  IsReachable-of_resolve (suc fuel) visiting path id h = elim (Option-cases (lookup id direct)) [
    | inl e ↦ let bad : false ≡ true = rw (resolve-absent fuel visiting path id e) at h in cc
    | inr (item, e) ↦
        let (r, loop) =
          enter-Succeeds fuel item visiting (path ++ id ∷ []) id
            (rw (resolve-enter fuel visiting path id item e) at h) in
        reached item e r (λ d m.
          IsReachable-of_resolve fuel (insert id true visiting) (path ++ id ∷ []) d
            (Succeeds-all _ item (path ++ id ∷ []) (dependencies direct services id) loop d m))
  ]

  -- The services on the path all depend on the one at hand.
  abbrev pub LeadsTo : IdSet → ℕ → Type 0
  LeadsTo visiting id = (u : ℕ) → has visiting u ≡ true → DependsOn u id

  pub LeadsTo-next :
      (visiting : IdSet) (id d : ℕ)
      → LeadsTo visiting id
      → Dependency id d
      → LeadsTo (insert id true visiting) d
  LeadsTo-next visiting id d h e u v = elim (ℕ_discrete u id) [
    | yes same ↦ rw same (one e)
    | no other ↦ more (h u (ground arith)) e
  ]

  not_visiting :
      (visiting : IdSet) (id : ℕ) → LeadsTo visiting id → IsReachable id → has visiting id ≡ false
  not_visiting visiting id leads h =
      ⊎_elim (λ v. absurd (not_DependsOn_self h (leads id v))) (λ v. v)
        (Bool-cases (has visiting id))

  pub resolve_of_reachable :
      (fuel : ℕ) (visiting : IdSet) (path : List ℕ) (id : ℕ)
      → LeadsTo visiting id
      → IsReachable id
      → resolve direct services fuel visiting path id ≢ none
      → Succeeds (resolve direct services fuel visiting path id)
  resolve_of_reachable zero visiting path id leads h n = absurd (n (unfold resolve in refl))
  resolve_of_reachable (suc fuel) visiting path id leads (reached item e r deps) n =
      let fresh : has visiting id ≡ false =
        not_visiting visiting id leads (reached item e r deps) in
      let loop =
        resolve-enter fuel visiting path id item e
        ∙ enter_below fuel item visiting (path ++ id ∷ []) id fresh r in
      rw loop (
        all_succeed _ item (path ++ id ∷ []) (dependencies direct services id) r
          (λ d m.
            resolve_of_reachable fuel (insert id true visiting) (path ++ id ∷ []) d
              (LeadsTo-next visiting id d leads m) (deps d m))
          (λ bad. n (loop ∙ bad)))
