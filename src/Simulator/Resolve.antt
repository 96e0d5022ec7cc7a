-- ===== src/Simulator/Resolve.antt =====
-- The walk over the dependencies of a service: resolveService of
-- backend/internal/algorithm/simulator.go. Every call deletes from `visiting` what it has put in
-- before it returns, so its caller finds the map as it was, and the map is only passed down here.
use cert_rollover_impact_ass.Prelude.{
  ℕ, zero, suc, ◌≡◌, Bool, true, false, Option, none, some, List, [], ◌∷◌, ◌++◌, concat, Map, IdSet,
  insert, has, lookup, get_or, keys, length, if◌then◌else◌, not,
}
use cert_rollover_impact_ass.Simulator.Snapshot.{ServiceSnapshot}
use cert_rollover_impact_ass.Simulator.Direct.{ServiceEvidence}
pub mod Reachable
pub mod Path
pub mod Fuel

-- the evidence and the path; `none` is a walk that ran out of fuel, which Fuel excludes
abbrev pub Resolved : Type 0
Resolved = Option (ServiceEvidence × List ℕ)

-- the zero value of ServiceSnapshot
abbrev pub no_service : ServiceSnapshot
no_service = record {
  id = 0;
  code = "";
  chain_id = 0;
  trust_anchor_ids = [];
  dependency_ids = [];
  criticality = "";
  state = "";
}

abbrev pub absent : ℕ → ServiceEvidence
absent id = record {
  service_id = id;
  service_code = "";
  reachable = false;
  selected_chain_id = 0;
  selected_anchor_id = 0;
  reason = "dependency service is absent or inactive";
}

abbrev pub on_cycle : ServiceEvidence → ServiceEvidence
on_cycle item = record item {
  reachable = false;
  reason = "dependency cycle encountered in frozen graph";
}

abbrev pub broken_by : ServiceEvidence → ServiceEvidence → ServiceEvidence
broken_by item dep = record item {
  reachable = false;
  reason =
      concat ("upstream dependency " ∷ dep.service_code ∷ " is unreachable: " ∷ dep.reason ∷ []);
}

-- the loop over the dependencies, over the recursive call that it makes
pub resolve_all : (ℕ → Resolved) → ServiceEvidence → List ℕ → List ℕ → Resolved
resolve_all call item current_path [] = some (item, current_path)
resolve_all call item current_path (dependency ∷ rest) =
    let others = resolve_all call item current_path rest in
    elim (call dependency) [
      | none ↦ none
      | some (dep, broken_path) ↦
          if not dep.reachable then some (broken_by item dep, broken_path) else others
    ]

module _ (direct : Map ServiceEvidence) (services : Map ServiceSnapshot) where
  abbrev pub dependencies : ℕ → List ℕ
  dependencies id = (get_or no_service id services).dependency_ids

  -- a service whose direct evidence is `item`
  abbrev pub enter :
      (IdSet → List ℕ → ℕ → Resolved) → ServiceEvidence → IdSet → List ℕ → ℕ → Resolved
  enter call item visiting current_path id =
      let below =
        resolve_all (call (insert id true visiting) current_path) item current_path
          (dependencies id) in
      if has visiting id
      then some (on_cycle item, current_path)
      else if not item.reachable
      then some (item, current_path)
      else below

  -- The fuel bounds the depth of the recursion.
  pub resolve : ℕ → IdSet → List ℕ → ℕ → Resolved
  resolve zero visiting path id = none
  resolve (suc fuel) visiting path id = elim (lookup id direct) [
    | none ↦ some (absent id, path ++ id ∷ [])
    | some item ↦ enter (resolve fuel) item visiting (path ++ id ∷ []) id
  ]

  -- One more than the number of services that have evidence is depth enough: Fuel.
  unfoldable pub resolve_service : ℕ → Resolved
  unfolding resolve resolve_all
  resolve_service id = resolve (suc (length (keys direct))) [] [] id
