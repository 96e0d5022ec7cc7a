-- ===== src/Graph.antt =====
-- The depth-first searches for a dependency cycle: detectCycle in
-- backend/internal/algorithm/simulator.go and servicesContainCycle in
-- backend/internal/service/common.go. The two share the closure `visit`; the second also refuses an
-- edge to an id that is no key of the edge map, which is the test `known` here (always passed by the
-- first). The colour map is passed from call to call; an error ends the whole search, so the map it
-- leaves behind is never read.
use cert_rollover_impact_ass.Prelude.{
  ℕ, zero, suc, ◌+◌, ◌≡◌, Bool, true, false, List, [], ◌∷◌, Memᴰ, Map, insert, get_or, length, keys,
  ◌==◌, if◌then◌else◌,
}
pub mod Walk
pub mod Colour
pub mod Sound
pub mod Complete
pub mod Fuel
pub mod Verdict

-- `edges := map[uint][]uint{}`
abbrev pub Edges : Type 0
Edges = Map (List ℕ)

abbrev pub targets : Edges → ℕ → List ℕ
targets edges id = get_or [] id edges

-- `state := map[uint]int{}`: 0 is unvisited, 1 is on the current path, 2 is finished.
abbrev pub Colours : Type 0
Colours = Map ℕ

abbrev pub colour : Colours → ℕ → ℕ
colour state id = get_or 0 id state

pub data Outcome : Type 0 where
  done : Colours → Outcome
  cycle_at : ℕ → Outcome
  missing : ℕ → Outcome
  out_of_fuel : Outcome

abbrev pub and_then : Outcome → (Colours → Outcome) → Outcome
and_then (done state) k = k state
and_then (cycle_at id) k = cycle_at id
and_then (missing id) k = missing id
and_then out_of_fuel k = out_of_fuel

module _ (known : ℕ → Bool) where
  -- the loop over `edges[id]`, over the call of `visit` that it makes
  pub visit_all : (Colours → ℕ → Outcome) → Colours → List ℕ → Outcome
  visit_all call state [] = done state
  visit_all call state (next ∷ rest) =
      let after = and_then (call state next) (λ s. visit_all call s rest) in
      if known next then after else missing next

  module _ (edges : Edges) where
    -- The fuel bounds the depth of the recursion.
    pub visit : ℕ → Colours → ℕ → Outcome
    visit zero state id = out_of_fuel
    visit (suc fuel) state id =
        let walk =
          and_then (visit_all (visit fuel) (insert id 1 state) (targets edges id))
            (λ s. done (insert id 2 s)) in
        if colour state id == 1
        then cycle_at id
        else if colour state id == 2
        then done state
        else walk

    -- `for id := range edges`, in the order in which Go happens to give the keys
    pub visit_roots : ℕ → Colours → List ℕ → Outcome
    visit_roots fuel state [] = done state
    visit_roots fuel state (id ∷ ids) = and_then (visit fuel state id) (λ s. visit_roots fuel s ids)

    -- One more than the number of keys is depth enough: Graph/Fuel.
    unfoldable pub search_cycle : List ℕ → Outcome
    unfolding visit_roots visit visit_all
    search_cycle order = visit_roots (suc (length (keys edges))) [] order
