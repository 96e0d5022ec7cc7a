-- ===== src/Chain/Import.antt =====
-- The import of a certificate chain: Import of
-- backend/internal/service/certificate_chain_service.go.
use cert_rollover_impact_ass.Prelude.{
  ℕ, Bool, none, List, [], ◌∷◌, map, String, join, if◌then◌else◌,
}
use cert_rollover_impact_ass.Simulator.Snapshot.{Instant, before, after}
use cert_rollover_impact_ass.Constants.{validated}
use cert_rollover_impact_ass.Service.{
  Actor, validation, unprocessable, not_found, internal, Attempt, ok, err, ◌>>=◌, ◌>>◌, guard,
  Fetch, found, no_record, broken, Database, created_audited, answer_created,
}
use cert_rollover_impact_ass.Certificate.{
  Certificate, CertificateRef, ChainEvidence, Crypto, parse_certificate_bundle, validate_chain,
}
use cert_rollover_impact_ass.Anchor.{TrustAnchor}
use cert_rollover_impact_ass.Chain.{CertificateChain, ChainLog}

pub record ImportChain : Type 0 where
  pub chain_code : String
  pub trust_anchor_id : ℕ
  pub certificates_pem : List String

-- encoding/json and the validator
pub record ChainCodec : Type 0 where
  pub accepts : ImportChain → Bool
  pub encode_refs : List CertificateRef → String
  pub encode_evidence : ChainEvidence → String

-- one turn of the loop over the certificates
abbrev pub narrow : Instant × Instant → Certificate → Instant × Instant
narrow (from, to) c = (
  if after c.not_before from then c.not_before else from,
  if before c.not_after to then c.not_after else to,
)

unfoldable pub window_of : Instant × Instant → List Certificate → Instant × Instant
window_of window [] = window
window_of window (c ∷ cs) = window_of (narrow window c) cs

-- what is known of a chain before its row is made
pub record ChainMaterial : Type 0 where
  pub anchor : TrustAnchor
  pub evidence : ChainEvidence
  pub refs : List CertificateRef
  pub leaf : Certificate
  pub rest : List Certificate

module _ (crypto : Crypto) (codec : ChainCodec) where
  abbrev pub bundle_of : ImportChain → String
  bundle_of request = join "\n" request.certificates_pem

  -- GetByID of the anchor, with its errors
  abbrev pub fetched : Fetch TrustAnchor → Attempt TrustAnchor
  fetched (found a) = ok a
  fetched no_record = err not_found
  fetched broken = err internal

  abbrev pub with_leaf :
      TrustAnchor → ChainEvidence × List CertificateRef → List Certificate → Attempt ChainMaterial
  with_leaf anchor (evidence, refs) [] = err unprocessable
  with_leaf anchor (evidence, refs) (leaf ∷ rest) =
      ok (record { anchor = anchor; evidence = evidence; refs = refs; leaf = leaf; rest = rest })

  -- The part of Import before its transaction: `anchor` is what GetByID gives, and the chain is
  -- verified at the time `at`.
  unfoldable pub prepare_chain : ImportChain → Fetch TrustAnchor → Instant → Attempt ChainMaterial
  unfolding validate_chain parse_certificate_bundle join
  prepare_chain request anchor at = do
    guard (codec.accepts request) validation
    a ← fetched anchor
    verdict ← validate_chain crypto a.pem_redacted (bundle_of request) at
    certificates ← parse_certificate_bundle crypto (bundle_of request)
    with_leaf a verdict certificates

  -- the new row
  unfoldable pub new_chain : ImportChain → Instant → ChainMaterial → ℕ → CertificateChain
  unfolding join window_of
  new_chain request now m id =
      let window = window_of (m.anchor.not_before, m.anchor.not_after) (m.leaf ∷ m.rest) in
      record {
        id = id;
        chain_code = crypto.trim_space request.chain_code;
        trust_anchor_id = m.anchor.id;
        leaf_subject = m.leaf.subject;
        certificate_refs_json = codec.encode_refs m.refs;
        chain_fingerprint =
            crypto.sha256_hex
              (join ":" (map (λ (r : CertificateRef). r.fingerprint_sha256) m.refs));
        valid_from = window.0;
        valid_to = window.1;
        validation_result = codec.encode_evidence m.evidence;
        chain_state = validated;
        source_checksum = crypto.sha256_hex (bundle_of request);
        public_chain_pem = bundle_of request;
        created_at = now;
        updated_at = now;
      }

  module _ {DB : Type 0} (d : Database DB CertificateChain ChainLog) (actor : Actor)
      (request_id : String) (now : Instant) where
    abbrev pub chain_entry : ChainMaterial → CertificateChain → ChainLog
    chain_entry m c = record {
      request_id = request_id;
      actor = actor;
      entity_type = "certificate_chain";
      entity_id = c.id;
      action = "import_and_validate";
      before = none;
      after = c;
      input_hash = c.source_checksum;
      algorithm_version = "x509-standard-library";
      simulation_time = none;
      duration_ms = 0;
      path_summary = m.evidence.message;
      created_at = now;
    }

    -- the transaction of Import
    abbrev pub store_chain_import :
        ImportChain → DB → Attempt ChainMaterial → Attempt CertificateChain × DB
    store_chain_import request db (err e) = (err e, db)
    store_chain_import request db (ok m) = answer_created d (new_chain request now m) (
        created_audited d (new_chain request now m)
          (λ id. chain_entry m (new_chain request now m id)) db)

    unfoldable pub import_chain :
        ImportChain → Fetch TrustAnchor → Instant → DB → Attempt CertificateChain × DB
    unfolding prepare_chain new_chain
    import_chain request anchor at db =
        store_chain_import request db (prepare_chain request anchor at)
