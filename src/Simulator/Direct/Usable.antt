-- ===== src/Simulator/Direct/Usable.antt =====
-- What a chain must be like for a service to reach its peer over it.
use cert_rollover_impact_ass.Prelude.{
  ℕ, ◌≤◌, ◌<◌, ◌≡◌, ◌≢◌, ◌↔◌, true, some, Memᴰ, eq_iff, Map, IdSet, has, lookup, contains_iff,
  arith, Option-cases, inl, inr, subst,
}
use cert_rollover_impact_ass.Simulator.Snapshot.{Instant, ChainSnapshot, ServiceSnapshot}
use cert_rollover_impact_ass.Simulator.Direct.{skip, accept, check_chain, consider}

module _ (service : ServiceSnapshot) (at : Instant) (active : IdSet) where
  -- A chain that is neither revoked nor deprecated, at an instant in its validity window (the end
  -- excluded), validated offline, under an anchor that is active and that the service trusts.
  pub record IsUsable (chain : ChainSnapshot) : Type 0 where
    pub not_revoked : chain.state ≢ "revoked"
    pub not_deprecated : chain.state ≢ "deprecated"
    pub from : chain.valid_from ≤ at
    pub until : at < chain.valid_to
    pub validated : chain.validation_valid ≡ true
    pub anchored : has active chain.anchor_id ≡ true
    pub trusted : Memᴰ chain.anchor_id service.trust_anchor_ids

  check_chain_iff :
      (chain : ChainSnapshot) (a : ℕ)
      → (check_chain service at active chain ≡ accept a) ↔ (IsUsable chain × (a ≡ chain.anchor_id))
  unfolding check_chain
  check_chain_iff chain a = ground (
    arith,
    eq_iff chain.state "revoked",
    eq_iff chain.state "deprecated",
    contains_iff service.trust_anchor_ids chain.anchor_id,
  )

  module _ (current : ChainSnapshot) (chains : Map ChainSnapshot) where
    -- The id names a chain for the same leaf that the service can use, under the anchor `a`.
    pub record IsCandidate (id a : ℕ) : Type 0 where
      pub chain : ChainSnapshot
      pub found : lookup id chains ≡ some chain
      pub same_leaf : chain.leaf_subject ≡ current.leaf_subject
      pub usable : IsUsable chain
      pub anchor : a ≡ chain.anchor_id

    consider_found :
        (id a : ℕ) (chain : ChainSnapshot)
        → lookup id chains ≡ some chain
        → (consider service at active current chains id ≡ accept a)
          ↔ ((chain.leaf_subject ≡ current.leaf_subject) × IsUsable chain × (a ≡ chain.anchor_id))
    unfolding consider
    consider_found id a chain e =
        rw (e, consider)
          (ground (arith, eq_iff chain.leaf_subject current.leaf_subject, check_chain_iff chain a))

    pub consider_iff :
        (id a : ℕ) → (consider service at active current chains id ≡ accept a) ↔ IsCandidate id a
    unfolding consider
    consider_iff id a = elim (Option-cases (lookup id chains)) [
      | inl absent ↦
          (λ e. let bad : skip ≡ accept a = rw (absent, consider) at e in cc, λ c. cc (c.found))
      | inr (chain, e) ↦
          let (to, back) = consider_found id a chain e in
          (
            λ h.
                let (leaf, usable, anchor) = to h in
                record {
                  chain = chain;
                  found = e;
                  same_leaf = leaf;
                  usable = usable;
                  anchor = anchor;
                },
            λ c.
                let same : c.chain ≡ chain = cc (c.found, e) in
                back (rw (← same) c.same_leaf, subst IsUsable same c.usable, rw (← same) c.anchor),
          )
    ]
