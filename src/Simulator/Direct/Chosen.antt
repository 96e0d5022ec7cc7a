-- ===== src/Simulator/Direct/Chosen.antt =====
-- evaluateDirect finds a chain exactly if there is a usable one, and takes the one of least id.
use cert_rollover_impact_ass.Prelude.{
  ℕ, ◌≤◌, ◌<◌, ◌≡◌, ◌≢◌, ◌↔◌, ◌⊎◌, refl, true, false, some, List, [], ◌∷◌, ◌++◌, Memᴰ, Memᴰ-cons,
  Memᴰ-here, Memᴰ-there, not-Memᴰ-nil, String, Map, IdSet, lookup, arith, Option-cases, inl, inr,
  ⊎_elim, mem_of_All, subst,
}
use cert_rollover_impact_ass.Prelude.Sorting.{IsIncreasing}
use cert_rollover_impact_ass.Prelude.Sorting.Laws.{mem-sorted_unique, sorted_unique-IsIncreasing}
use cert_rollover_impact_ass.Simulator.Snapshot.{Instant, ChainSnapshot, ServiceSnapshot}
use cert_rollover_impact_ass.Simulator.Direct.{
  ServiceEvidence, Verdict, skip, reject, accept, consider, reachable_by, try_chains, tried_ids,
  evaluate_direct,
}
use cert_rollover_impact_ass.Simulator.Direct.Usable.{IsCandidate, consider_iff}

Verdict-cases :
    (v : Verdict) → (v ≡ skip) ⊎ ((r : String) × (v ≡ reject r)) ⊎ ((a : ℕ) × (v ≡ accept a))
Verdict-cases skip = inl refl
Verdict-cases (reject r) = inr (inl (r, refl))
Verdict-cases (accept a) = inr (inr (a, refl))

module _ (service : ServiceSnapshot) (at : Instant) (active : IdSet) (current : ChainSnapshot)
    (chains : Map ChainSnapshot) where
  abbrev verdict : ℕ → Verdict
  verdict id = consider service at active current chains id

  abbrev attempt : List String → List ℕ → ServiceEvidence
  attempt reasons ids = try_chains service at active current chains reasons ids

  -- The loop returned on `id`, and on no id before it.
  record Picked (ids : List ℕ) (e : ServiceEvidence) : Type 0 where
    id : ℕ
    anchor : ℕ
    member : Memᴰ id ids
    accepted : verdict id ≡ accept anchor
    least : (j b : ℕ) → Memᴰ j ids → verdict j ≡ accept b → id ≤ j
    evidence : e ≡ reachable_by service at active current chains id anchor

  record Exhausted (ids : List ℕ) (e : ServiceEvidence) : Type 0 where
    refused : (j b : ℕ) → Memᴰ j ids → verdict j ≢ accept b
    unreachable : e.reachable ≡ false

  Picked-there :
      (x : ℕ) (ids : List ℕ) (e : ServiceEvidence)
      → ((b : ℕ) → verdict x ≢ accept b)
      → Picked ids e
      → Picked (x ∷ ids) e
  Picked-there x ids e no_x p = record {
    id = p.id;
    anchor = p.anchor;
    member = Memᴰ-there x p.member;
    accepted = p.accepted;
    least = λ j b m h.
        ⊎_elim (λ same. absurd (no_x b (rw (← same) h))) (λ later. p.least j b later h)
          ((Memᴰ-cons j x ids).0 m);
    evidence = p.evidence;
  }

  Exhausted-there :
      (x : ℕ) (ids : List ℕ) (e : ServiceEvidence)
      → ((b : ℕ) → verdict x ≢ accept b)
      → Exhausted ids e
      → Exhausted (x ∷ ids) e
  Exhausted-there x ids e no_x p = record {
    refused = λ j b m h.
        ⊎_elim (λ same. no_x b (rw (← same) h)) (λ later. p.refused j b later h)
          ((Memᴰ-cons j x ids).0 m);
    unreachable = p.unreachable;
  }

  there :
      (x : ℕ) (ids : List ℕ) (e : ServiceEvidence)
      → ((b : ℕ) → verdict x ≢ accept b)
      → Picked ids e ⊎ Exhausted ids e
      → Picked (x ∷ ids) e ⊎ Exhausted (x ∷ ids) e
  there x ids e no_x (inl p) = inl (Picked-there x ids e no_x p)
  there x ids e no_x (inr p) = inr (Exhausted-there x ids e no_x p)

  here :
      (x a : ℕ) (ids : List ℕ) (e : ServiceEvidence)
      → verdict x ≡ accept a
      → IsIncreasing (x ∷ ids)
      → e ≡ reachable_by service at active current chains x a
      → Picked (x ∷ ids) e
  here x a ids e h inc shown = record {
    id = x;
    anchor = a;
    member = Memᴰ-here x ids;
    accepted = h;
    least = λ j b m _.
        ⊎_elim (λ same. omega arith)
          (λ later. let lt = mem_of_All (λ y. x < y) ids inc.0 j later in omega arith)
          ((Memᴰ-cons j x ids).0 m);
    evidence = shown;
  }

  give_up_unreachable : (reasons : List String) → Exhausted [] (attempt reasons [])
  unfolding try_chains
  give_up_unreachable [] = record { refused = λ j b m. absurd (not-Memᴰ-nil m); unreachable = refl }
  give_up_unreachable (r ∷ rs) = record {
    refused = λ j b m. absurd (not-Memᴰ-nil m);
    unreachable = refl;
  }

  try_chains_outcome :
      (reasons : List String) (ids : List ℕ)
      → IsIncreasing ids
      → Picked ids (attempt reasons ids) ⊎ Exhausted ids (attempt reasons ids)
  unfolding try_chains
  try_chains_outcome reasons [] inc = inr (give_up_unreachable reasons)
  try_chains_outcome reasons (x ∷ ids) inc = elim (Verdict-cases (verdict x)) [
    | inl skipped ↦
        rw (skipped, try_chains)
          (there x ids (attempt reasons ids) (λ b h. cc) (try_chains_outcome reasons ids inc.1))
    | inr (inl (r, rejected)) ↦
        rw (rejected, try_chains)
          (there x ids (attempt (reasons ++ r ∷ []) ids) (λ b h. cc)
            (try_chains_outcome (reasons ++ r ∷ []) ids inc.1))
    | inr (inr (a, accepted)) ↦
        inl (here x a ids (attempt reasons (x ∷ ids)) accepted inc (rw (accepted, try_chains)))
  ]

module _ (service : ServiceSnapshot) (at : Instant) (active : IdSet) (candidates : List ℕ)
    (chains : Map ChainSnapshot) where
  abbrev direct : ServiceEvidence
  direct = evaluate_direct service at active candidates chains

  -- the configured chain of the service or a candidate of the scenario; 0 is no id
  abbrev pub IsTried : ℕ → Type 0
  IsTried id = (0 < id) × ((id ≡ service.chain_id) ⊎ Memᴰ id candidates)

  -- Over the chain `id`, under the anchor `anchor`, the service can be reached.
  pub record Serves (id anchor : ℕ) : Type 0 where
    pub current : ChainSnapshot
    pub configured : lookup service.chain_id chains ≡ some current
    pub tried : IsTried id
    pub candidate : IsCandidate service at active current chains id anchor

  IsTried-iff : (id : ℕ) → Memᴰ id (tried_ids service candidates) ↔ IsTried id
  IsTried-iff id = ground (
    arith,
    mem-sorted_unique id (service.chain_id ∷ candidates),
    Memᴰ-cons id service.chain_id candidates,
  )

  -- What evaluateDirect decides: the service is reachable, over the chain of least id that serves
  -- it, or no chain serves it.
  pub record Chooses (e : ServiceEvidence) : Type 0 where
    pub serves : Serves e.selected_chain_id e.selected_anchor_id
    pub least : (id anchor : ℕ) → Serves id anchor → e.selected_chain_id ≤ id

  module _ (current : ChainSnapshot)
      (configured : lookup service.chain_id chains ≡ some current) where
    to_consider :
        (id a : ℕ)
        → Serves id a
        → Memᴰ id (tried_ids service candidates)
          × (consider service at active current chains id ≡ accept a)
    to_consider id a s =
        let same : s.current ≡ current = cc (s.configured, configured) in
        (
          (IsTried-iff id).1 s.tried,
          (consider_iff service at active current chains id a).1
              (subst (λ c. IsCandidate service at active c chains id a) same s.candidate),
        )

    chosen :
        (e : ServiceEvidence)
        → Picked service at active current chains (tried_ids service candidates) e
        → Chooses e
    chosen e p = rw p.evidence (
        unfold reachable_by in
        record {
          serves = record {
            current = current;
            configured = configured;
            tried = (IsTried-iff p.id).0 p.member;
            candidate = (consider_iff service at active current chains p.id p.anchor).0 p.accepted;
          };
          least = λ id a s. let (m, h) = to_consider id a s in p.least id a m h;
        })

    Picked-reachable :
        (e : ServiceEvidence)
        → Picked service at active current chains (tried_ids service candidates) e
        → e.reachable ≡ true
    Picked-reachable e p = rw p.evidence (unfold reachable_by in refl)

    decided :
        (e : ServiceEvidence)
        → Picked service at active current chains (tried_ids service candidates) e
          ⊎ Exhausted service at active current chains (tried_ids service candidates) e
        → (e.reachable ≡ true) × Chooses e ⊎ (e.reachable ≡ false) × ((id a : ℕ) → ¬ Serves id a)
    decided e (inl p) = inl (Picked-reachable e p, chosen e p)
    decided e (inr x) =
        inr (x.unreachable, λ id a s. let (m, h) = to_consider id a s in x.refused id a m h)

  -- evaluateDirect marks a service reachable and then selects, of the chains that serve it, the one
  -- of least id with its anchor; or it marks it unreachable, and then no chain serves it.
  pub evaluate_direct_decides :
      (direct.reachable ≡ true) × Chooses direct
      ⊎ (direct.reachable ≡ false) × ((id a : ℕ) → ¬ Serves id a)
  unfolding evaluate_direct
  evaluate_direct_decides = elim (Option-cases (lookup service.chain_id chains)) [
    | inl absent ↦ rw (absent, evaluate_direct) (inr (refl, λ id a s. cc (s.configured, absent)))
    | inr (current, found) ↦
        rw (found, evaluate_direct)
          (decided current found
            (try_chains service at active current chains [] (tried_ids service candidates))
            (try_chains_outcome service at active current chains [] (tried_ids service candidates)
              (sorted_unique-IsIncreasing (service.chain_id ∷ candidates))))
  ]

  pub evaluate_direct_iff : (direct.reachable ≡ true) ↔ ((id : ℕ) × (a : ℕ) × Serves id a)
  evaluate_direct_iff = elim evaluate_direct_decides [
    | inl (r, c) ↦ (λ _. (direct.selected_chain_id, direct.selected_anchor_id, c.serves), λ _. r)
    | inr (u, no_chain) ↦ (λ r. cc, λ (id, a, s). absurd (no_chain id a s))
  ]
