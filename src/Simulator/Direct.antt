-- ===== src/Simulator/Direct.antt =====
-- The choice of a certificate chain for one service at one instant: evaluateDirect of
-- backend/internal/algorithm/simulator.go.
use cert_rollover_impact_ass.Prelude.{
  ℕ, ◌≡◌, Bool, true, false, not, ◌||◌, Option, none, some, List, [], ◌∷◌, ◌++◌, String, str_eq,
  concat, join, decimal, Map, IdSet, has, lookup, contains, if◌then◌else◌,
}
use cert_rollover_impact_ass.Prelude.Sorting.{sorted_unique}
use cert_rollover_impact_ass.Simulator.Snapshot.{Instant, ChainSnapshot, ServiceSnapshot, before}
pub mod Usable
pub mod Chosen

pub record ServiceEvidence : Type 0 where
  pub service_id : ℕ
  pub service_code : String
  pub reachable : Bool
  pub selected_chain_id : ℕ
  pub selected_anchor_id : ℕ
  pub reason : String

-- what one round of the loop does with a candidate: `continue` in silence, `continue` with a reason,
-- or return
pub data Verdict : Type 0 where
  skip : Verdict
  reject : String → Verdict
  accept : ℕ → Verdict

module _ (service : ServiceSnapshot) (at : Instant) (active : IdSet) where
  -- the tests on a chain that exists and carries the leaf identity
  check_chain : ChainSnapshot → Verdict
  check_chain chain =
      if str_eq chain.state "revoked" || str_eq chain.state "deprecated"
      then reject (concat (chain.code ∷ " is not active" ∷ []))
      else if before at chain.valid_from || not (before at chain.valid_to)
      then reject (concat (chain.code ∷ " is outside its validity window" ∷ []))
      else if not chain.validation_valid
      then reject (concat (chain.code ∷ " did not pass offline signature validation" ∷ []))
      else if not (has active chain.anchor_id)
      then reject (concat (chain.code ∷ " anchor is unavailable at this timepoint" ∷ []))
      else if not (contains service.trust_anchor_ids chain.anchor_id)
      then reject (
          concat
            (service.code ∷ " trust set does not include anchor " ∷ decimal chain.anchor_id ∷ []))
      else accept chain.anchor_id

  module _ (current : ChainSnapshot) (chains : Map ChainSnapshot) where
    pub consider : ℕ → Verdict
    unfolding check_chain
    consider id = elim (lookup id chains) [
      | none ↦ skip
      | some chain ↦
          if not (str_eq chain.leaf_subject current.leaf_subject) then skip else check_chain chain
    ]

    pub reachable_by : ℕ → ℕ → ServiceEvidence
    reachable_by id anchor_id = record {
      service_id = service.id;
      service_code = service.code;
      reachable = true;
      selected_chain_id = id;
      selected_anchor_id = anchor_id;
      reason = "certificate path is reachable";
    }

    unreachable_for : List String → ServiceEvidence
    unreachable_for reasons = record {
      service_id = service.id;
      service_code = service.code;
      reachable = false;
      selected_chain_id = 0;
      selected_anchor_id = 0;
      reason = join "; " reasons;
    }

    -- what follows the loop
    give_up : List String → ServiceEvidence
    unfolding unreachable_for
    give_up [] = unreachable_for ("no candidate chain matches the configured leaf identity" ∷ [])
    give_up (reason ∷ reasons) = unreachable_for (reason ∷ reasons)

    -- the loop over the candidate ids, with the reasons collected so far
    pub try_chains : List String → List ℕ → ServiceEvidence
    unfolding give_up reachable_by
    try_chains reasons [] = give_up reasons
    try_chains reasons (id ∷ ids) = elim (consider id) [
      | skip ↦ try_chains reasons ids
      | reject reason ↦ try_chains (reasons ++ reason ∷ []) ids
      | accept anchor_id ↦ reachable_by id anchor_id
    ]

-- the ids that are tried: the configured chain and the candidates of the scenario
abbrev pub tried_ids : ServiceSnapshot → List ℕ → List ℕ
tried_ids service candidates = sorted_unique (service.chain_id ∷ candidates)

unfoldable pub evaluate_direct :
    ServiceSnapshot → Instant → IdSet → List ℕ → Map ChainSnapshot → ServiceEvidence
unfolding try_chains consider join decimal contains sorted_unique
evaluate_direct service at active candidates chains = elim (lookup service.chain_id chains) [
  | none ↦ record {
    service_id = service.id;
    service_code = service.code;
    reachable = false;
    selected_chain_id = 0;
    selected_anchor_id = 0;
    reason = "configured certificate chain is missing";
  }
  | some current ↦ try_chains service at active current chains [] (tried_ids service candidates)
]
