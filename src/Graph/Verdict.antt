-- ===== src/Graph/Verdict.antt =====
-- The search as a decision: it succeeds exactly on the acyclic graphs whose edges all lead to known
-- ids, in whatever order the roots are taken, as long as every key is among them.
use cert_rollover_impact_ass.Prelude.{
  ℕ, suc, ◌≡◌, ◌≢◌, ◌↔◌, refl, subst, Bool, true, List, [], Memᴰ, not-Memᴰ-nil, arith, inl, inr,
  Option-cases, length, keys, lookup, lookup_mem,
}
use cert_rollover_impact_ass.Graph.{
  Edges, targets, Colours, Outcome, done, cycle_at, missing, out_of_fuel, search_cycle,
}
use cert_rollover_impact_ass.Graph.Walk.{Edge, IsAcyclic, ends, not_Walk_self_of_Ends}
use cert_rollover_impact_ass.Graph.Sound.{IsFinished, roots-IsFinished}
use cert_rollover_impact_ass.Graph.Complete.{Honest, roots-Honest}
use cert_rollover_impact_ass.Graph.Fuel.{search_cycle_returns}

-- `range` gives every key of the map, in an order that Go leaves open.
abbrev pub Covers : Edges → List ℕ → Type 0
Covers edges order = (id : ℕ) → Memᴰ id (keys edges) → Memᴰ id order

abbrev pub AllKnown : (ℕ → Bool) → Edges → Type 0
AllKnown known edges = (u v : ℕ) → Edge edges u v → known v ≡ true

module _ (known : ℕ → Bool) (edges : Edges) where
  no_Edge : (u v : ℕ) → targets edges u ≡ [] → ¬ Edge edges u v
  no_Edge u v e m = not-Memᴰ-nil (subst (Memᴰ v) e m)

  all-IsFinished :
      (order : List ℕ) (t : Colours)
      → Covers edges order
      → search_cycle known edges order ≡ done t
      → (u : ℕ) → IsFinished known edges u
  unfolding search_cycle
  all-IsFinished order t covers h u = elim (Option-cases (lookup u edges)) [
    | inl no_key ↦
        let empty : targets edges u ≡ [] = ground arith in
        record {
          below = ends (λ v e. absurd (no_Edge u v empty e));
          closed = λ v e. absurd (no_Edge u v empty e);
        }
    | inr (out, e) ↦
        roots-IsFinished known edges (suc (length (keys edges))) t order h u
          (covers u (lookup_mem u edges (λ n. cc)))
  ]

  pub search_cycle-Honest : (order : List ℕ) → Honest known edges (search_cycle known edges order)
  unfolding search_cycle
  search_cycle-Honest order = roots-Honest known edges (suc (length (keys edges))) order

  refute :
      (o : Outcome)
      → Honest known edges o
      → o ≢ out_of_fuel
      → IsAcyclic edges
      → AllKnown known edges
      → (t : Colours) × (o ≡ done t)
  refute (done t) h r acyclic all_known = (t, refl)
  refute (cycle_at c) h r acyclic all_known = absurd (acyclic c h)
  refute (missing m) h r acyclic all_known =
      let (no_m, (u, e)) = h in let is_m = all_known u m e in cc
  refute out_of_fuel h r acyclic all_known = absurd (r refl)

  -- Over roots that cover the keys, the search ends without an error exactly if no walk along the
  -- edges returns to its start and every edge leads to a known id.
  pub search_cycle_decides :
      (order : List ℕ)
      → Covers edges order
      → ((t : Colours) × (search_cycle known edges order ≡ done t))
        ↔ (IsAcyclic edges × AllKnown known edges)
  search_cycle_decides order covers = (
    λ (t, h). (
      λ u. not_Walk_self_of_Ends (all-IsFinished order t covers h u).below,
      λ u v e. (all-IsFinished order t covers h u).closed v e,
    ),
    λ (acyclic, all_known).
        refute (search_cycle known edges order) (search_cycle-Honest order)
          (search_cycle_returns known edges order) acyclic all_known,
  )
