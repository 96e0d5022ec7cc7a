-- ===== src/Graph/Walk.antt =====
-- Walks along edges, and the nodes from which every walk ends.
use cert_rollover_impact_ass.Prelude.{ℕ, Memᴰ}
use cert_rollover_impact_ass.Graph.{Edges, targets}

abbrev pub Edge : Edges → ℕ → ℕ → Type 0
Edge edges u v = Memᴰ v (targets edges u)

-- walks of one edge or more
pub data Walk (edges : Edges) (u : ℕ) : ℕ → Type 0 where
  edge : {v : ℕ} → Edge edges u v → Walk edges u v
  step : {v w : ℕ} → Walk edges u v → Edge edges v w → Walk edges u w

-- No walk returns to its start.
abbrev pub IsAcyclic : Edges → Type 0
IsAcyclic edges = (u : ℕ) → ¬ Walk edges u u

-- a node below which there is no infinite walk
pub data Ends (edges : Edges) : ℕ → Type 0 where
  ends : {u : ℕ} → ((v : ℕ) → Edge edges u v → Ends edges v) → Ends edges u

module _ {edges : Edges} where
  pub cons-Walk : {u v w : ℕ} → Edge edges u v → Walk edges v w → Walk edges u w
  cons-Walk e (edge f) = step (edge e) f
  cons-Walk e (step p f) = step (cons-Walk e p) f

  pub join-Walk : {u v w : ℕ} → Walk edges u v → Walk edges v w → Walk edges u w
  join-Walk p (edge f) = step p f
  join-Walk p (step q f) = step (join-Walk p q) f

  -- the first edge of a walk, and what is left
  first-Edge :
      {u w : ℕ}
      → Walk edges u w
      → (v : ℕ) × Edge edges u v × ((x : ℕ) → Edge edges w x → Walk edges v x)
  first-Edge {w = w} (edge e) = (w, e, λ x f. edge f)
  first-Edge (step p f) = let (v, e, rest) = first-Edge p in (v, e, λ x g. step (rest _ f) g)

  pub not_Walk_self_of_Ends : {u : ℕ} → Ends edges u → ¬ Walk edges u u
  not_Walk_self_of_Ends (ends below) p =
      let (v, e, rest) = first-Edge p in not_Walk_self_of_Ends (below v e) (rest v e)

  pub Ends-next : {u : ℕ} → Ends edges u → (v : ℕ) → Edge edges u v → Ends edges v
  Ends-next (ends below) = below
