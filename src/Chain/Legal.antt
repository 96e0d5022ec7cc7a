-- ===== src/Chain/Legal.antt =====
-- What a transition does to the chains, and what a comparison says.
use cert_rollover_impact_ass.Prelude.{
  ℕ, ◌≡◌, ◌≤◌, ◌<◌, ◌↔◌, ◌⊎◌, refl, sym, Bool, true, false, not, ◌&&◌, String, Memᴰ, inl, inr,
  arith, ◌==◌, if◌then◌else◌, subst,
}
use cert_rollover_impact_ass.Simulator.Snapshot.{Instant}
use cert_rollover_impact_ass.Constants.{
  ChainState, imported, validated, deprecated, can_transition_chain,
}
use cert_rollover_impact_ass.Service.{
  Actor, ServiceError, validation, conflict, illegal_transition, internal, coded, Attempt, ok, err,
  Database, IsDatabase, audited, change_where, load,
}
use cert_rollover_impact_ass.Service.Laws.{mem-map, answer_state, audited-IsAtomic}
use cert_rollover_impact_ass.Chain.{
  CertificateChain, ChainLog, same_chain_state, is_target, has_chain_id, chain_in_state,
  set_chain_state, store_chain, move_chain, transition_chain, compare_chains,
}

same_chain_state-eq : (a b : ChainState) → same_chain_state a b ≡ true → a ≡ b
same_chain_state-eq imported imported h = refl
same_chain_state-eq validated validated h = refl
same_chain_state-eq deprecated deprecated h = refl
same_chain_state-eq ChainState.revoked ChainState.revoked h = refl
same_chain_state-eq _ _ h = cc

-- A row `q` that was `p`: the same row, or one that has taken a transition, and nothing else but
-- the time of the update has changed.
abbrev pub Moved : Instant → CertificateChain → CertificateChain → Type 0
Moved now p q =
    (q ≡ p)
    ⊎ (can_transition_chain p.chain_state q.chain_state ≡ true)
      × (q ≡ set_chain_state now q.chain_state p)

change-Moved :
    (id : ℕ) (from to : ChainState) (now : Instant) (p : CertificateChain)
    → can_transition_chain from to ≡ true
    → Moved now p (change_where (chain_in_state id from) (set_chain_state now to) p)
change-Moved id from to now p h = go ((p.id == id) && same_chain_state p.chain_state from) refl
  where
    go :
        (b : Bool)
        → ((p.id == id) && same_chain_state p.chain_state from) ≡ b
        → Moved now p (if b then set_chain_state now to p else p)
    go false e = inl refl
    go true e =
        let at = same_chain_state-eq p.chain_state from (ground arith) in inr (rw at h, refl)

module _ {DB : Type 0} (d : Database DB CertificateChain ChainLog) (law : IsDatabase d)
    (actor : Actor) (request_id : String) (now : Instant) where
  -- Each row after was a row before.
  abbrev pub AllMoved : DB → DB → Type 0
  AllMoved db db' =
      (q : CertificateChain)
      → Memᴰ q (d.rows db')
      → (p : CertificateChain) × Memᴰ p (d.rows db) × Moved now p q

  same-AllMoved : (db : DB) → AllMoved db db
  same-AllMoved db q m = (q, m, inl refl)

  audited-AllMoved :
      (id : ℕ) (from to : ChainState) (refused unchanged : ServiceError) (entry : ChainLog)
      (db : DB)
      → can_transition_chain from to ≡ true
      → AllMoved db
          (audited d (chain_in_state id from) (set_chain_state now to) refused unchanged entry db).1
  audited-AllMoved id from to refused unchanged entry db h =
      elim (audited-IsAtomic d law (chain_in_state id from) (set_chain_state now to) refused
        unchanged entry db) [
          | inl (_, same) ↦ subst (AllMoved db) (sym same) (same-AllMoved db)
          | inr (_, made) ↦ λ q m.
              let (p, k, e) = mem-map _ (d.rows db) q (subst (Memᴰ q) made.changed_rows m) in
              (p, k, subst (Moved now p) (sym e) (change-Moved id from to now p h))
        ]

  move_chain-AllMoved :
      (id : ℕ) (to : ChainState) (db : DB) (a : Attempt CertificateChain)
      → AllMoved db (move_chain d actor request_id now id to db a).1
  move_chain-AllMoved id to db (err e) = same-AllMoved db
  move_chain-AllMoved id to db (ok c) = go (can_transition_chain c.chain_state to) refl
    where
      go :
          (b : Bool)
          → can_transition_chain c.chain_state to ≡ b
          → let r : Attempt CertificateChain × DB =
              if not b
              then (err illegal_transition, db)
              else store_chain d actor request_id now id to db c in
            AllMoved db r.1
      go false e = same-AllMoved db
      go true e =
          subst (AllMoved db) (sym (answer_state d law coded (has_chain_id id) _))
            (audited-AllMoved id c.chain_state to internal conflict _ db e)

  -- A transition of a chain, however old the state in which it has read the chain, takes each chain
  -- along a transition of its life cycle or leaves it as it was, and changes nothing else of it.
  pub transition_chain-AllMoved :
      (id : ℕ) (to : ChainState) (seen db : DB)
      → AllMoved db (transition_chain d actor request_id now id to seen db).1
  unfolding transition_chain
  transition_chain-AllMoved id to seen db = go (is_target to)
    where
      go :
          (b : Bool)
          → let r : Attempt CertificateChain × DB =
              if not b
              then (err validation, db)
              else move_chain d actor request_id now id to db (load d (has_chain_id id) seen) in
            AllMoved db r.1
      go false = same-AllMoved db
      go true = move_chain-AllMoved id to db (load d (has_chain_id id) seen)

abbrev pub IsWithin : CertificateChain → Instant → Type 0
IsWithin c t = (c.valid_from ≤ t) × (t < c.valid_to)

-- Compare reports a valid overlap exactly if there is an instant at which both chains are valid, and
-- then the window that it reports has exactly these instants.
pub compare_chains-overlap :
    (first second : CertificateChain)
    → let c = compare_chains first second in
      ((c.has_valid_overlap ≡ true) ↔ ((t : Instant) × IsWithin first t × IsWithin second t))
      × ((t : Instant)
          → ((c.overlap_start ≤ t) × (t < c.overlap_end)) ↔ (IsWithin first t × IsWithin second t))
unfolding compare_chains
compare_chains-overlap first second = (
  (
    λ h. (
      (compare_chains first second).overlap_start,
      (ground arith, ground arith),
      (ground arith, ground arith),
    ),
    λ (t, a, b). ground arith,
  ),
  λ t. ground arith,
)
