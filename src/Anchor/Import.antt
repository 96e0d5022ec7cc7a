-- ===== src/Anchor/Import.antt =====
-- The import of a trust anchor: Import of backend/internal/service/trust_anchor_service.go.
use cert_rollover_impact_ass.Prelude.{
  ℕ, ◌≡◌, ◌⊎◌, refl, Bool, false, none, String, inl, inr, arith, ◌∷◌,
}
use cert_rollover_impact_ass.Simulator.Snapshot.{Instant}
use cert_rollover_impact_ass.Constants.{valid, expiring, calculate_certificate_state}
use cert_rollover_impact_ass.Service.{
  Actor, validation, Attempt, ok, err, ◌>>=◌, ◌>>◌, guard, Database, IsDatabase, created_audited,
  answer_created,
}
use cert_rollover_impact_ass.Service.Laws.{>>=-inv, answer_created_lem}
use cert_rollover_impact_ass.Certificate.{
  Certificate, Crypto, fingerprint, normalize_pem, parse_certificate_pem, validate_trust_anchor,
}
use cert_rollover_impact_ass.Certificate.Trusted.{IsTrusted, validate_trust_anchor_lem}
use cert_rollover_impact_ass.Anchor.{TrustAnchor, AnchorLog}

pub record ImportAnchor : Type 0 where
  pub anchor_code : String
  pub certificate_pem : String

module _ (crypto : Crypto) (accepts : ImportAnchor → Bool) where
  -- the part of Import before its transaction
  unfoldable pub prepare_anchor : ImportAnchor → Instant → Attempt Certificate
  unfolding parse_certificate_pem validate_trust_anchor
  prepare_anchor request now = do
    guard (accepts request) validation
    certificate ← parse_certificate_pem crypto request.certificate_pem
    validate_trust_anchor crypto certificate now
    ok certificate

  -- the new row
  abbrev pub new_anchor : ImportAnchor → Instant → Certificate → ℕ → TrustAnchor
  new_anchor request now c id = record {
    id = id;
    anchor_code = crypto.trim_space request.anchor_code;
    subject_dn = c.subject;
    serial_number = c.serial_number;
    fingerprint_sha256 = fingerprint crypto c;
    not_before = c.not_before;
    not_after = c.not_after;
    key_algorithm = c.key_algorithm;
    certificate_state = calculate_certificate_state now c.not_after false;
    pem_redacted = normalize_pem crypto c;
    revoked_at = none;
    archived = false;
    created_at = now;
    updated_at = now;
  }

  prepare_anchor_lem :
      (request : ImportAnchor) (now : Instant) (c : Certificate)
      → prepare_anchor request now ≡ ok c
      → IsTrusted crypto now c
  unfolding prepare_anchor
  prepare_anchor_lem request now c h =
      let (_, _, h1) = >>=-inv (guard (accepts request) validation) _ c h in
      let (x, _, h2) = >>=-inv (parse_certificate_pem crypto request.certificate_pem) _ c h1 in
      let (u, v, h3) = >>=-inv (validate_trust_anchor crypto x now) (λ _. ok x) c h2 in
      let same : x ≡ c = cc in
      let trusted = validate_trust_anchor_lem crypto now x v in rw same at trusted

  module _ {DB : Type 0} (d : Database DB TrustAnchor AnchorLog) (actor : Actor)
      (request_id : String) (now : Instant) where
    abbrev pub anchor_entry : TrustAnchor → AnchorLog
    anchor_entry a = record {
      request_id = request_id;
      actor = actor;
      entity_type = "trust_anchor";
      entity_id = a.id;
      action = "import_public_certificate";
      before = none;
      after = a;
      input_hash = "";
      algorithm_version = "";
      simulation_time = none;
      duration_ms = 0;
      path_summary = "public certificate fingerprint verified; no private key accepted";
      created_at = now;
    }

    -- the transaction of Import
    abbrev pub store_import : ImportAnchor → DB → Attempt Certificate → Attempt TrustAnchor × DB
    store_import request db (err e) = (err e, db)
    store_import request db (ok c) = answer_created d (new_anchor request now c) (
        created_audited d (new_anchor request now c)
          (λ id. anchor_entry (new_anchor request now c id)) db)

    unfoldable pub import_anchor : ImportAnchor → DB → Attempt TrustAnchor × DB
    unfolding prepare_anchor
    import_anchor request db = store_import request db (prepare_anchor request now)

    -- an anchor that may be trusted at the time of the import
    pub record IsImported (a : TrustAnchor) : Type 0 where
      pub certificate : Certificate
      pub trusted : IsTrusted crypto now certificate
      pub window : (a.not_before ≡ certificate.not_before) × (a.not_after ≡ certificate.not_after)
      pub usable : (a.certificate_state ≡ valid) ⊎ (a.certificate_state ≡ expiring)
      pub not_revoked : a.revoked_at ≡ none

    new_anchor-IsImported :
        (request : ImportAnchor) (c : Certificate) (id : ℕ)
        → IsTrusted crypto now c
        → IsImported (new_anchor request now c id)
    unfolding calculate_certificate_state
    new_anchor-IsImported request c id t = record {
      certificate = c;
      trusted = t;
      window = (refl, refl);
      usable = let lasts = t.lasts in ground arith;
      not_revoked = refl;
    }

    store_import_lem :
        (law : IsDatabase d) (request : ImportAnchor) (db : DB) (p : Attempt Certificate)
        → ((c : Certificate) → p ≡ ok c → IsTrusted crypto now c)
        → let (result, db') = store_import request db p in
          (db' ≡ db)
          ⊎ ((a : TrustAnchor) × (result ≡ ok a)
              × IsImported a
              × (d.rows db' ≡ a ∷ d.rows db)
              × (d.log db' ≡ anchor_entry a ∷ d.log db))
    store_import_lem law request db (err e) from = inl refl
    store_import_lem law request db (ok c) from =
        elim (answer_created_lem d law (new_anchor request now c)
          (λ id. anchor_entry (new_anchor request now c id)) db) [
            | inl same ↦ inl same
            | inr (id, answered, made) ↦ inr (
              new_anchor request now c id,
              answered,
              new_anchor-IsImported request c id (from c refl),
              made.added_row,
              made.added_entry,
            )
          ]

    -- An import leaves the database as it was, or it adds one anchor with its audit entry and
    -- answers with it; the anchor has the validity of a self-signed certificate of a certificate
    -- authority that may sign certificates and is within its validity at the time of the import, it is
    -- valid or expiring, and it is not revoked.
    pub import_anchor-IsImported :
        (law : IsDatabase d) (request : ImportAnchor) (db : DB)
        → let (result, db') = import_anchor request db in
          (db' ≡ db)
          ⊎ ((a : TrustAnchor) × (result ≡ ok a)
              × IsImported a
              × (d.rows db' ≡ a ∷ d.rows db)
              × (d.log db' ≡ anchor_entry a ∷ d.log db))
    unfolding import_anchor
    import_anchor-IsImported law request db =
        store_import_lem law request db (prepare_anchor request now)
          (λ c h. prepare_anchor_lem request now c h)
