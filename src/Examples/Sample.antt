-- ===== src/Examples/Sample.antt =====
-- The synthetic snapshot of backend/internal/algorithm/simulator_test.go: a gateway that trusts both
-- anchors, and a client of it that trusts the old one only.
use cert_rollover_impact_ass.Prelude.{
  ℕ, ◌+◌, ◌-◌, ◌*◌, ◌≡◌, refl, true, false, List, [], ◌∷◌, Memᴰ, length, arith, none,
}
use mathlib.Core.List.Memᴰ
use cert_rollover_impact_ass.Prelude.Sorting.Laws.{Distinct}
use cert_rollover_impact_ass.Simulator.Snapshot.{
  Instant, zero_time, AnchorSnapshot, ChainSnapshot, ServiceSnapshot, ScenarioConfig, Snapshot,
  new_snapshot, validate_snapshot,
}
use cert_rollover_impact_ass.Simulator.Snapshot.Validate.{service_ids, Ranges}
use cert_rollover_impact_ass.Simulator.Window.{active_anchors}
use cert_rollover_impact_ass.Simulator.Direct.{evaluate_direct}
use cert_rollover_impact_ass.Simulator.Run.{Result, Simulation, simulated, simulate}

abbrev pub hour : ℕ
hour = 3_600_000_000_000

-- 1 September 2026
abbrev pub start : Instant
start = zero_time + 63923817600 * 1_000_000_000

abbrev pub config : ScenarioConfig
config = record {
  name = "Synthetic rollover";
  old_anchor_id = 1;
  new_anchor_id = 2;
  overlap_start = start;
  overlap_end = start + 24 * hour;
  candidate_chain_ids = 11 ∷ 10 ∷ 11 ∷ [];
  simulation_time = start + 12 * hour;
}

abbrev anchors : List AnchorSnapshot
anchors =
    record {
      id = 2;
      code = "new";
      state = "valid";
      not_before = start - hour;
      not_after = start + 17520 * hour;
      revoked = false;
    }
    ∷ record {
      id = 1;
      code = "old";
      state = "valid";
      not_before = start - 17520 * hour;
      not_after = start + 2184 * hour;
      revoked = false;
    }
    ∷ []

abbrev chains : List ChainSnapshot
chains =
    record {
      id = 11;
      code = "new-chain";
      anchor_id = 2;
      leaf_subject = "CN=api";
      valid_from = start - hour;
      valid_to = start + 8760 * hour;
      state = "validated";
      validation_valid = true;
    }
    ∷ record {
      id = 10;
      code = "old-chain";
      anchor_id = 1;
      leaf_subject = "CN=api";
      valid_from = start - 8760 * hour;
      valid_to = start + 1464 * hour;
      state = "validated";
      validation_valid = true;
    }
    ∷ []

abbrev pub gateway : ServiceSnapshot
gateway = record {
  id = 101;
  code = "gateway";
  chain_id = 10;
  trust_anchor_ids = 1 ∷ 2 ∷ [];
  dependency_ids = [];
  criticality = "critical";
  state = "active";
}

abbrev pub client : ServiceSnapshot
client = record {
  id = 102;
  code = "client";
  chain_id = 10;
  trust_anchor_ids = 1 ∷ [];
  dependency_ids = 101 ∷ [];
  criticality = "high";
  state = "active";
}

abbrev pub snapshot : Snapshot
snapshot = record {
  algorithm_version = "trust-path-window-v1.0.0";
  config = record config { candidate_chain_ids = 10 ∷ 11 ∷ [] };
  anchors = sorted_anchors;
  chains = sorted_chains;
  services = gateway ∷ client ∷ [];
}
  where
    sorted_anchors : List AnchorSnapshot
    sorted_anchors = elim anchors [ a ∷ (b ∷ rest) ↦ b ∷ a ∷ [] | other ↦ other ]

    sorted_chains : List ChainSnapshot
    sorted_chains = elim chains [ a ∷ (b ∷ rest) ↦ b ∷ a ∷ [] | other ↦ other ]

-- `NewSnapshot` sorts what it is given.
new_snapshot_sorts :
    new_snapshot config anchors chains (
      record client { trust_anchor_ids = 1 ∷ 0 ∷ 1 ∷ [] }
      ∷ record gateway { trust_anchor_ids = 2 ∷ 1 ∷ [] }
      ∷ [])
    ≡ snapshot
unfolding new_snapshot
new_snapshot_sorts = refl

abbrev pub order : List ℕ
order = 102 ∷ 101 ∷ []

pub order-Ranges : Ranges snapshot.services order
order-Ranges id (Memᴰ.head e) = Memᴰ.tail (Memᴰ.head e)
order-Ranges id (Memᴰ.tail m) = Memᴰ.head (Memᴰ.eq_of_singleton m)

pub ids-Distinct : Distinct (service_ids snapshot.services)
ids-Distinct = (
  λ m. let e : ◌≡◌ {A = ℕ} 101 102 = Memᴰ.eq_of_singleton m in absurd (omega arith),
  (λ m. absurd (Memᴰ.not-nil m), tt),
)

abbrev pub result_of : Simulation → Result
result_of (simulated result) = result
result_of _ = record { affected_services = []; broken_paths = []; evidence = []; explanation = "" }

unfoldable pub result : Result
unfolding simulate
result = result_of (simulate order snapshot)

pub snapshot_accepted : validate_snapshot order snapshot ≡ none
unfolding validate_snapshot
snapshot_accepted = refl

pub snapshot_runs : simulate order snapshot ≡ simulated result
unfolding simulate result evaluate_direct active_anchors
snapshot_runs = refl

-- After the overlap the client cannot be reached, at one instant.
one_failure : length result.affected_services ≡ 1
unfolding result evaluate_direct active_anchors
one_failure = refl
