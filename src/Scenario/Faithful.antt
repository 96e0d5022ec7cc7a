-- ===== src/Scenario/Faithful.antt =====
-- The snapshot of a scenario holds what was read, and nothing else.
use cert_rollover_impact_ass.Prelude.{
  ℕ, ◌<◌, ◌≡◌, ◌↔◌, refl, sym, ◌∙◌, subst, List, map, Memᴰ, arith, Option, none, some, true, false,
  inl, inr, Option-cases,
}
use cert_rollover_impact_ass.Prelude.Sorting.{sort_by, sorted_unique, IsIncreasing}
use cert_rollover_impact_ass.Prelude.Sorting.Laws.{
  mem-sort_by, mem-sorted_unique, sorted_unique_canonical,
}
use cert_rollover_impact_ass.Simulator.Snapshot.{
  Instant, AnchorSnapshot, ChainSnapshot, ServiceSnapshot, ScenarioConfig, Snapshot, SnapshotError,
  clean_service, new_snapshot, validate_snapshot,
}
use cert_rollover_impact_ass.Constants.{certificate_state_name, chain_state_name}
use cert_rollover_impact_ass.Service.{unprocessable, Attempt, ok, err, ◌>>=◌, some_or}
use cert_rollover_impact_ass.Service.Laws.{mem-map, map-mem, >>=-inv, some_or_lem}
use cert_rollover_impact_ass.Anchor.{TrustAnchor}
use cert_rollover_impact_ass.Chain.{CertificateChain}
use cert_rollover_impact_ass.Dependent.{DependentService}
use cert_rollover_impact_ass.Scenario.{Library, Call, CreateRequest}
use cert_rollover_impact_ass.Scenario.Create.{
  freeze_anchor, freeze_chain, decode_id_list, freeze_service, freeze_services, config_of,
  validated_snapshot, build_snapshot,
}
use cert_rollover_impact_ass.Scenario.Faithful.Services.{IsFrozenAs, mem-clean, freeze_service_iff}
mod Services

-- the members of a sorted image
mem-sorted_image :
    {A B : Type 0} (key : B → ℕ) (g : A → B) (xs : List A) (y : B)
    → Memᴰ y (sort_by key (map g xs)) ↔ ((x : A) × Memᴰ x xs × (y ≡ g x))
mem-sorted_image key g xs y = (
  λ m. mem-map g xs y ((mem-sort_by key y (map g xs)).0 m),
  λ (x, m, e).
      (mem-sort_by key y (map g xs)).1 (subst (λ z. Memᴰ z (map g xs)) (sym e) (map-mem g xs x m)),
)

validated_snapshot_same :
    (call : Call) (s snapshot : Snapshot) → validated_snapshot call s ≡ ok snapshot → s ≡ snapshot
validated_snapshot_same call s snapshot h = go (validate_snapshot (call.order s) s) h
  where
    go :
        (o : Option SnapshotError)
        → let r : Attempt Snapshot = elim o [ none ↦ ok s | some _ ↦ err unprocessable ] in
          r ≡ ok snapshot → s ≡ snapshot
    go none h = cc
    go (some _) h = cc

-- A frozen anchor, described by its row: it is revoked if the row has the time of a revocation.
pub record IsFrozenAnchor (a : TrustAnchor) (x : AnchorSnapshot) : Type 0 where
  pub same_id : x.id ≡ a.id
  pub same_code : x.code ≡ a.anchor_code
  pub same_state : x.state ≡ certificate_state_name a.certificate_state
  pub same_start : x.not_before ≡ a.not_before
  pub same_end : x.not_after ≡ a.not_after
  pub revoked_if : (t : Instant) → a.revoked_at ≡ some t → x.revoked ≡ true
  pub not_revoked_if : a.revoked_at ≡ none → x.revoked ≡ false

freeze_anchor-IsFrozenAnchor : (a : TrustAnchor) → IsFrozenAnchor a (freeze_anchor a)
freeze_anchor-IsFrozenAnchor a = record {
  same_id = refl;
  same_code = refl;
  same_state = refl;
  same_start = refl;
  same_end = refl;
  revoked_if = λ t e. rw e refl;
  not_revoked_if = λ e. rw e refl;
}

IsFrozenAnchor-revoked :
    (a : TrustAnchor) (x : AnchorSnapshot)
    → IsFrozenAnchor a x
    → x.revoked ≡ (freeze_anchor a).revoked
IsFrozenAnchor-revoked a x f = elim (Option-cases a.revoked_at) [
  | inl e ↦ f.not_revoked_if e ∙ sym ((freeze_anchor-IsFrozenAnchor a).not_revoked_if e)
  | inr (t, e) ↦ f.revoked_if t e ∙ sym ((freeze_anchor-IsFrozenAnchor a).revoked_if t e)
]

freeze_anchor_iff :
    (a : TrustAnchor) (x : AnchorSnapshot) → (x ≡ freeze_anchor a) ↔ IsFrozenAnchor a x
freeze_anchor_iff a x = (
  λ e. subst (IsFrozenAnchor a) (sym e) (freeze_anchor-IsFrozenAnchor a),
  λ f i. record {
    id = f.same_id i;
    code = f.same_code i;
    state = f.same_state i;
    not_before = f.same_start i;
    not_after = f.same_end i;
    revoked = IsFrozenAnchor-revoked a x f i;
  },
)

-- The frozen configuration, described by the request: the candidates are its candidate chains, each
-- once, rising and without 0.
pub record IsFrozenConfig (request : CreateRequest) (x : ScenarioConfig) : Type 0 where
  pub same_name : x.name ≡ request.name
  pub same_old : x.old_anchor_id ≡ request.old_anchor_id
  pub same_new : x.new_anchor_id ≡ request.new_anchor_id
  pub same_start : x.overlap_start ≡ request.overlap_start
  pub same_end : x.overlap_end ≡ request.overlap_end
  pub same_time : x.simulation_time ≡ request.simulation_time
  pub rising : IsIncreasing x.candidate_chain_ids
  pub candidates :
      (id : ℕ) → Memᴰ id x.candidate_chain_ids ↔ ((0 < id) × Memᴰ id request.candidate_chain_ids)

module _ (lib : Library) where
  -- A frozen chain, described by its row.
  pub record IsFrozenChain (c : CertificateChain) (x : ChainSnapshot) : Type 0 where
    pub same_id : x.id ≡ c.id
    pub same_code : x.code ≡ c.chain_code
    pub same_anchor : x.anchor_id ≡ c.trust_anchor_id
    pub same_leaf : x.leaf_subject ≡ c.leaf_subject
    pub same_start : x.valid_from ≡ c.valid_from
    pub same_end : x.valid_to ≡ c.valid_to
    pub same_state : x.state ≡ chain_state_name c.chain_state
    pub same_validation : x.validation_valid ≡ lib.decode_valid c.validation_result

  freeze_chain_iff :
      (c : CertificateChain) (x : ChainSnapshot) → (x ≡ freeze_chain lib c) ↔ IsFrozenChain c x
  freeze_chain_iff c x = (
    λ e. subst (IsFrozenChain c) (sym e) (record {
      same_id = refl;
      same_code = refl;
      same_anchor = refl;
      same_leaf = refl;
      same_start = refl;
      same_end = refl;
      same_state = refl;
      same_validation = refl;
    }),
    λ f i. record {
      id = f.same_id i;
      code = f.same_code i;
      anchor_id = f.same_anchor i;
      leaf_subject = f.same_leaf i;
      valid_from = f.same_start i;
      valid_to = f.same_end i;
      state = f.same_state i;
      validation_valid = f.same_validation i;
    },
  )

  -- Every row of a list is frozen, and nothing else is.
  abbrev pub HoldsFrozen : {A B : Type 0} → (A → B → Type 0) → List A → List B → Type 0
  HoldsFrozen {A} {B} P rows frozen = (x : B) → Memᴰ x frozen ↔ ((a : A) × Memᴰ a rows × P a x)

  HoldsFrozen-sorted_image :
      {A B : Type 0} (key : B → ℕ) (g : A → B) (P : A → B → Type 0) (rows : List A)
      → ((a : A) (x : B) → (x ≡ g a) ↔ P a x)
      → HoldsFrozen P rows (sort_by key (map g rows))
  HoldsFrozen-sorted_image key g P rows same x =
      let (to, back) = mem-sorted_image key g rows x in
      (
        λ m. let (a, n, e) = to m in (a, n, (same a x).0 e),
        λ (a, n, p). back (a, n, (same a x).1 p),
      )

  -- A snapshot of the algorithm's version has exactly the anchors, the chains and the services that
  -- were read, and the configuration of the request, each as its description says.
  pub record Freezes (request : CreateRequest) (anchors : List TrustAnchor)
      (chains : List CertificateChain) (services : List DependentService) (snapshot : Snapshot)
      : Type 0 where
    pub same_version : snapshot.algorithm_version ≡ "trust-path-window-v1.0.0"
    pub all_anchors : HoldsFrozen IsFrozenAnchor anchors snapshot.anchors
    pub all_chains : HoldsFrozen IsFrozenChain chains snapshot.chains
    pub all_services : HoldsFrozen (IsFrozenAs lib) services snapshot.services
    pub same_config : IsFrozenConfig request snapshot.config

  config-IsFrozenConfig :
      (request : CreateRequest)
      → let ids = sorted_unique (sorted_unique request.candidate_chain_ids) in
        IsFrozenConfig request (config_of request ids)
  config-IsFrozenConfig request =
      let once = sorted_unique request.candidate_chain_ids in
      let (rising, _, _) = sorted_unique_canonical once once in
      record {
        same_name = refl;
        same_old = refl;
        same_new = refl;
        same_start = refl;
        same_end = refl;
        same_time = refl;
        rising = rising;
        candidates = λ id.
            let a = mem-sorted_unique id request.candidate_chain_ids in
            let b = mem-sorted_unique id once in ground arith;
      }

  -- A snapshot that Create builds from the request and from what it has read has the version of the
  -- algorithm; exactly the anchors that were read, with their ids, codes, states and validity, and
  -- revoked if they have the time of a revocation; exactly the chains of the page that was read,
  -- with their ids, codes, anchors, leaves, validity and states, and valid if their validation
  -- result says so; exactly the services that were read, with their ids, codes, chains,
  -- criticalities and states and the ids of their decoded lists; and the name, the anchors, the
  -- overlap and the time of the request, with the ids of its candidate chains. Each id list is
  -- rising, without repeats and without 0.
  pub build_snapshot-Freezes :
      (call : Call) (request : CreateRequest) (anchors : List TrustAnchor)
      (chains : List CertificateChain) (services : List DependentService) (snapshot : Snapshot)
      → build_snapshot lib call request
          (sorted_unique request.candidate_chain_ids)
          anchors
          chains
          services
        ≡ ok snapshot
      → Freezes request anchors chains services snapshot
  unfolding build_snapshot new_snapshot
  build_snapshot-Freezes call request anchors chains services snapshot h =
      let (frozen, f, h1) = >>=-inv (freeze_services lib services) _ snapshot h in
      subst (Freezes request anchors chains services) (validated_snapshot_same call _ snapshot h1)
        (record {
          same_version = refl;
          all_anchors =
              HoldsFrozen-sorted_image (λ (a : AnchorSnapshot). a.id) freeze_anchor IsFrozenAnchor
                anchors freeze_anchor_iff;
          all_chains =
              HoldsFrozen-sorted_image (λ (c : ChainSnapshot). c.id) (freeze_chain lib)
                IsFrozenChain chains freeze_chain_iff;
          all_services = λ x.
              let (to, back) = mem-clean lib services frozen f x in
              (
                λ m. let (s, k, g) = to m in (s, k, (freeze_service_iff lib s x).0 g),
                λ (s, k, g). back (s, k, (freeze_service_iff lib s x).1 g),
              );
          same_config = config-IsFrozenConfig request;
        })
