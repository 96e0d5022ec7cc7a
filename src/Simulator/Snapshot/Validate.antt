-- ===== src/Simulator/Snapshot/Validate.antt =====
-- What ValidateSnapshot accepts.
use cert_rollover_impact_ass.Prelude.{
  ℕ, ◌≡◌, ◌≢◌, ◌<◌, ◌↔◌, refl, true, Option, none, some, List, [], ◌∷◌, map, Memᴰ, Memᴰ-cons,
  not-Memᴰ-nil, IdSet, has, has-index_from, arith, mem-keys-index_from, Bool-cases, ⊎_elim, inl,
  inr, Memᴰ-here, Memᴰ-there,
}
use cert_rollover_impact_ass.Graph.Complete.{Honest}
use cert_rollover_impact_ass.Graph.{
  Colours, Outcome, done, cycle_at, missing, out_of_fuel, search_cycle,
}
use cert_rollover_impact_ass.Graph.Walk.{IsAcyclic, Walk}
use cert_rollover_impact_ass.Graph.Verdict.{Covers, search_cycle_decides, search_cycle-Honest}
use cert_rollover_impact_ass.Graph.Fuel.{search_cycle_returns}
use cert_rollover_impact_ass.Simulator.Snapshot.{
  zero_time, AnchorSnapshot, ChainSnapshot, ServiceSnapshot, Snapshot, SnapshotError, edge_map,
  cycle_error, detect_cycle, missing_candidate, anchor_seen, chain_seen, validate_snapshot,
  dependency_cycle, stopped, anchors_not_distinct, overlap_not_ordered, no_simulation_time,
  anchors_missing, candidate_missing,
}

abbrev pub anchor_ids : Snapshot → List ℕ
anchor_ids snapshot = map (λ (a : AnchorSnapshot). a.id) snapshot.anchors

abbrev pub chain_ids : Snapshot → List ℕ
chain_ids snapshot = map (λ (c : ChainSnapshot). c.id) snapshot.chains

abbrev pub service_ids : List ServiceSnapshot → List ℕ
service_ids services = map (λ (s : ServiceSnapshot). s.id) services

-- `order` has the id of every service: it is what `range` gives over the edge map.
abbrev pub Ranges : List ServiceSnapshot → List ℕ → Type 0
Ranges services order = (id : ℕ) → Memᴰ id (service_ids services) → Memᴰ id order

Ranges-Covers :
    (services : List ServiceSnapshot) (order : List ℕ)
    → Ranges services order
    → Covers (edge_map services) order
Ranges-Covers services order r id m =
    ⊎_elim (λ n. absurd (not-Memᴰ-nil n)) (r id)
      ((mem-keys-index_from (λ (s : ServiceSnapshot). s.id) (λ s. s.dependency_ids) [] services
          id).0
        m)

-- What an error of the search says about the services.
abbrev CycleClaim : List ServiceSnapshot → Option SnapshotError → Type 0
CycleClaim services none = IsAcyclic (edge_map services)
CycleClaim services (some (dependency_cycle id)) = Walk (edge_map services) id id
CycleClaim services (some _) = ⊥

cycle_error-claim :
    (services : List ServiceSnapshot) (o : Outcome)
    → Honest (λ _. true) (edge_map services) o
    → o ≢ out_of_fuel
    → ((t : Colours) → o ≡ done t → IsAcyclic (edge_map services))
    → CycleClaim services (cycle_error o)
cycle_error-claim services (done t) h r ok = ok t refl
cycle_error-claim services (cycle_at id) h r ok = h
cycle_error-claim services (missing id) h r ok = cc
cycle_error-claim services out_of_fuel h r ok = r refl

-- The search accepts only acyclic dependencies, names a service on a cycle when it refuses, and has
-- no third way to end.
pub detect_cycle_claim :
    (services : List ServiceSnapshot) (order : List ℕ)
    → Ranges services order
    → CycleClaim services (detect_cycle order services)
unfolding detect_cycle
detect_cycle_claim services order r =
    cycle_error-claim services (search_cycle (λ _. true) (edge_map services) order)
      (search_cycle-Honest (λ _. true) (edge_map services) order)
      (search_cycle_returns (λ _. true) (edge_map services) order)
      (λ t e.
        ((search_cycle_decides (λ _. true) (edge_map services) order
            (Ranges-Covers services order r)).0
          (t, e)).0)

claim_iff :
    (services : List ServiceSnapshot) (o : Option SnapshotError)
    → CycleClaim services o
    → (o ≡ none) ↔ IsAcyclic (edge_map services)
claim_iff services none h = (λ _. h, λ _. refl)
claim_iff services (some (dependency_cycle id)) h = (λ e. cc, λ a. absurd (a id h))
claim_iff services (some anchors_not_distinct) h = absurd h
claim_iff services (some overlap_not_ordered) h = absurd h
claim_iff services (some no_simulation_time) h = absurd h
claim_iff services (some anchors_missing) h = absurd h
claim_iff services (some (candidate_missing id)) h = absurd h
claim_iff services (some stopped) h = absurd h

-- detectCycle returns no error exactly if no chain of dependencies leads from a service back to
-- itself, whatever order Go ranges over the edge map in, as long as every service is in it.
pub detect_cycle_iff :
    (services : List ServiceSnapshot) (order : List ℕ)
    → Ranges services order
    → (detect_cycle order services ≡ none) ↔ IsAcyclic (edge_map services)
detect_cycle_iff services order r =
    claim_iff services (detect_cycle order services) (detect_cycle_claim services order r)

missing_candidate_iff :
    (seen : IdSet) (ids : List ℕ)
    → (missing_candidate seen ids ≡ none) ↔ ((id : ℕ) → Memᴰ id ids → has seen id ≡ true)
unfolding missing_candidate
missing_candidate_iff seen [] = (λ _ id m. absurd (not-Memᴰ-nil m), λ _. refl)
missing_candidate_iff seen (x ∷ xs) = elim (Bool-cases (has seen x)) [
  | inl e ↦
      let (to, from) = missing_candidate_iff seen xs in
      rw e (
        λ h id m. ⊎_elim (λ same. rw same e) (to h id) ((Memᴰ-cons id x xs).0 m),
        λ h. from (λ id m. h id (Memᴰ-there x m)),
      )
  | inr e ↦ rw e (λ bad. cc, λ h. let yes_seen = h x (Memᴰ-here x xs) in cc)
]

-- the inputs that a simulation accepts
pub record IsValid (snapshot : Snapshot) : Type 0 where
  pub old_given : snapshot.config.old_anchor_id ≢ 0
  pub new_given : snapshot.config.new_anchor_id ≢ 0
  pub distinct : snapshot.config.old_anchor_id ≢ snapshot.config.new_anchor_id
  pub ordered : snapshot.config.overlap_start < snapshot.config.overlap_end
  pub timed : snapshot.config.simulation_time ≢ zero_time
  pub old_frozen : Memᴰ snapshot.config.old_anchor_id (anchor_ids snapshot)
  pub new_frozen : Memᴰ snapshot.config.new_anchor_id (anchor_ids snapshot)
  pub candidates_frozen :
      (id : ℕ) → Memᴰ id snapshot.config.candidate_chain_ids → Memᴰ id (chain_ids snapshot)
  pub acyclic : IsAcyclic (edge_map snapshot.services)

module _ (snapshot : Snapshot) where
  open snapshot.config use {
    old_anchor_id, new_anchor_id, overlap_start, overlap_end, simulation_time, candidate_chain_ids,
  }

  anchor_seen_iff :
      (id : ℕ) → (has (anchor_seen snapshot) id ≡ true) ↔ Memᴰ id (anchor_ids snapshot)
  anchor_seen_iff id =
      ground (arith, has-index_from (λ (a : AnchorSnapshot). a.id) [] snapshot.anchors id)

  chain_seen_iff : (id : ℕ) → (has (chain_seen snapshot) id ≡ true) ↔ Memᴰ id (chain_ids snapshot)
  chain_seen_iff id =
      ground (arith, has-index_from (λ (c : ChainSnapshot). c.id) [] snapshot.chains id)

  -- the tests that a snapshot passes
  record Passes (order : List ℕ) : Type 0 where
    old_given : old_anchor_id ≢ 0
    new_given : new_anchor_id ≢ 0
    distinct : old_anchor_id ≢ new_anchor_id
    ordered : overlap_start < overlap_end
    timed : simulation_time ≢ zero_time
    old_seen : has (anchor_seen snapshot) old_anchor_id ≡ true
    new_seen : has (anchor_seen snapshot) new_anchor_id ≡ true
    all_seen : missing_candidate (chain_seen snapshot) candidate_chain_ids ≡ none
    no_cycle : detect_cycle order snapshot.services ≡ none

  passes : (order : List ℕ) → validate_snapshot order snapshot ≡ none → Passes order
  unfolding validate_snapshot
  passes order h = ground arith

  Passes-back : (order : List ℕ) → Passes order → validate_snapshot order snapshot ≡ none
  unfolding validate_snapshot
  Passes-back order h = ground arith

  -- ValidateSnapshot returns no error exactly on the inputs described by IsValid: given and distinct
  -- anchors that are in the snapshot, an overlap that starts before it ends, a simulation time,
  -- candidate chains that are in the snapshot, and acyclic dependencies.
  pub validate_snapshot_iff :
      (order : List ℕ)
      → Ranges snapshot.services order
      → (validate_snapshot order snapshot ≡ none) ↔ IsValid snapshot
  validate_snapshot_iff order r = (
    λ h.
        let p = passes order h in
        record {
          old_given = p.old_given;
          new_given = p.new_given;
          distinct = p.distinct;
          ordered = p.ordered;
          timed = p.timed;
          old_frozen = (anchor_seen_iff old_anchor_id).0 p.old_seen;
          new_frozen = (anchor_seen_iff new_anchor_id).0 p.new_seen;
          candidates_frozen = λ id m.
              (chain_seen_iff id).0 (
                (missing_candidate_iff (chain_seen snapshot) candidate_chain_ids).0 p.all_seen id
                  m);
          acyclic = (detect_cycle_iff snapshot.services order r).0 p.no_cycle;
        },
    λ v. Passes-back order (record {
      old_given = v.old_given;
      new_given = v.new_given;
      distinct = v.distinct;
      ordered = v.ordered;
      timed = v.timed;
      old_seen = (anchor_seen_iff old_anchor_id).1 v.old_frozen;
      new_seen = (anchor_seen_iff new_anchor_id).1 v.new_frozen;
      all_seen =
          (missing_candidate_iff (chain_seen snapshot) candidate_chain_ids).1
            (λ id m. (chain_seen_iff id).1 (v.candidates_frozen id m));
      no_cycle = (detect_cycle_iff snapshot.services order r).1 v.acyclic;
    }),
  )
