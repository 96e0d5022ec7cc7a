-- ===== src/Scenario/Frozen.antt =====
-- What Create freezes, and that it freezes valid inputs only.
use cert_rollover_impact_ass.Prelude.{ℕ, ◌≡◌, refl, Option, none, some, List, String, subst}
use cert_rollover_impact_ass.Prelude.Sorting.{sorted_unique}
use cert_rollover_impact_ass.Simulator.Snapshot.{Snapshot, SnapshotError, validate_snapshot}
use cert_rollover_impact_ass.Simulator.Snapshot.Validate.{Ranges, IsValid, validate_snapshot_iff}
use cert_rollover_impact_ass.Service.{unprocessable, internal, Attempt, ok, err, ◌>>=◌, some_or}
use cert_rollover_impact_ass.Service.Laws.{>>=-inv, some_or_lem}
use cert_rollover_impact_ass.Anchor.{TrustAnchor}
use cert_rollover_impact_ass.Chain.{CertificateChain}
use cert_rollover_impact_ass.Dependent.{DependentService}
use cert_rollover_impact_ass.Scenario.{Scenario, Library, Call, CreateRequest}
use cert_rollover_impact_ass.Scenario.Create.{
  Reads, freeze_services, validated_snapshot, build_snapshot, Frozen, Material, gather, freeze,
  prepare_create,
}

-- A range over the edge map of a snapshot gives every service.
abbrev pub IsRanging : Call → Type 0
IsRanging call = (snapshot : Snapshot) → Ranges snapshot.services (call.order snapshot)

-- The documented behaviour of encoding/json: what was encoded is decoded.
abbrev pub IsReadable : Library → Type 0
IsReadable lib =
    (snapshot : Snapshot) (raw : String)
    → lib.encode_snapshot snapshot ≡ some raw
    → lib.decode_snapshot raw ≡ some snapshot

-- The frozen input can be read and is valid.
abbrev pub IsFrozen : Library → Scenario → Type 0
IsFrozen lib q =
    (snapshot : Snapshot) × (lib.decode_snapshot q.input_snapshot ≡ some snapshot)
    × IsValid snapshot

module _ (lib : Library) where
  validated_snapshot_lem :
      (call : Call) (s snapshot : Snapshot)
      → IsRanging call
      → validated_snapshot call s ≡ ok snapshot
      → IsValid snapshot
  validated_snapshot_lem call s snapshot ranging h = go (validate_snapshot (call.order s) s) refl h
    where
      go :
          (o : Option SnapshotError)
          → validate_snapshot (call.order s) s ≡ o
          → let r : Attempt Snapshot = elim o [ none ↦ ok s | some _ ↦ err unprocessable ] in
            r ≡ ok snapshot → IsValid snapshot
      go none e h =
          let same : s ≡ snapshot = cc in
          subst IsValid same ((validate_snapshot_iff s (call.order s) (ranging s)).0 e)
      go (some _) e h = cc

  build_snapshot-IsValid :
      (call : Call) (request : CreateRequest) (ids : List ℕ) (anchors : List TrustAnchor)
      (chains : List CertificateChain) (services : List DependentService) (snapshot : Snapshot)
      → IsRanging call
      → build_snapshot lib call request ids anchors chains services ≡ ok snapshot
      → IsValid snapshot
  unfolding build_snapshot
  build_snapshot-IsValid call request ids anchors chains services snapshot ranging h =
      let (_, _, h1) = >>=-inv (freeze_services lib services) _ _ h in
      validated_snapshot_lem call _ snapshot ranging h1

  freeze_lem :
      (call : Call) (request : CreateRequest) (m : Material) (snapshot : Snapshot) (raw : String)
      → IsRanging call
      → freeze lib call request m ≡ ok (snapshot, raw)
      → (lib.encode_snapshot snapshot ≡ some raw) × IsValid snapshot
  unfolding freeze
  freeze_lem call request m snapshot raw ranging h =
      let ids = sorted_unique request.candidate_chain_ids in
      let (s, b, h1) =
        >>=-inv (build_snapshot lib call request ids m.anchors m.chains m.services)
          (λ s. some_or (lib.encode_snapshot s) internal >>= λ r. ok (s, r)) (snapshot, raw) h in
      let (r, e, h2) =
        >>=-inv (some_or (lib.encode_snapshot s) internal) (λ r. ok (s, r)) (snapshot, raw) h1 in
      finish s r b (some_or_lem (lib.encode_snapshot s) internal r e) h2
    where
      finish :
          (s : Snapshot) (r : String)
          → build_snapshot lib call request
              (sorted_unique request.candidate_chain_ids)
              m.anchors
              m.chains
              m.services
            ≡ ok s
          → lib.encode_snapshot s ≡ some r
          → ◌≡◌ {A = Attempt Frozen} (ok (s, r)) (ok (snapshot, raw))
          → (lib.encode_snapshot snapshot ≡ some raw) × IsValid snapshot
      finish s r b e h2 =
          let same : s ≡ snapshot = cc in
          let same_raw : r ≡ raw = cc in
          (
            rw (same, same_raw) at e,
            build_snapshot-IsValid call request (sorted_unique request.candidate_chain_ids)
                m.anchors m.chains m.services snapshot ranging (rw same at b),
          )

  -- what Create has prepared is valid
  pub prepare_create_lem :
      (call : Call) (request : CreateRequest) (reads : Reads) (snapshot : Snapshot) (raw : String)
      → IsRanging call
      → prepare_create lib call request reads ≡ ok (snapshot, raw)
      → (lib.encode_snapshot snapshot ≡ some raw) × IsValid snapshot
  unfolding prepare_create
  prepare_create_lem call request reads snapshot raw ranging h =
      let (m, _, h1) =
        >>=-inv (gather lib request reads) (λ m. freeze lib call request m) (snapshot, raw) h in
      freeze_lem call request m snapshot raw ranging h1
