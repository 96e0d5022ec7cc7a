-- ===== src/Certificate/Trusted.antt =====
-- What ValidateTrustAnchor and ValidateChain ensure.
use cert_rollover_impact_ass.Prelude.{◌≡◌, ◌≤◌, ◌<◌, true, some, List, [], ◌∷◌, String, arith}
use cert_rollover_impact_ass.Simulator.Snapshot.{Instant}
use cert_rollover_impact_ass.Service.{ok, some_or, unprocessable}
use cert_rollover_impact_ass.Service.Laws.{>>=-inv, some_or_lem}
use cert_rollover_impact_ass.Certificate.{
  Certificate, CertificateRef, ChainEvidence, Crypto, parse_certificate_pem,
  parse_certificate_bundle, validate_trust_anchor, verify_bundle, validate_chain,
}

module _ (crypto : Crypto) where
  -- the tests of ValidateTrustAnchor, passed
  pub record IsTrusted (now : Instant) (c : Certificate) : Type 0 where
    pub ca : c.is_ca ≡ true
    pub constrained : c.basic_constraints_valid ≡ true
    pub signs : c.signs_certificates ≡ true
    pub begun : c.not_before ≤ now
    pub lasts : now < c.not_after
    pub self_signed : crypto.is_signed_by c c ≡ true

  pub validate_trust_anchor_lem :
      (now : Instant) (c : Certificate)
      → validate_trust_anchor crypto c now ≡ ok tt
      → IsTrusted now c
  unfolding validate_trust_anchor
  validate_trust_anchor_lem now c h = ground arith

  -- a bundle whose first certificate is verified against the root
  pub record IsVerified (at : Instant) (anchor_pem bundle_pem : String) : Type 0 where
    pub root : Certificate
    pub leaf : Certificate
    pub rest : List Certificate
    pub path : List Certificate
    pub is_root : parse_certificate_pem crypto anchor_pem ≡ ok root
    pub trusted : IsTrusted at root
    pub is_bundle : parse_certificate_bundle crypto bundle_pem ≡ ok (leaf ∷ rest)
    pub verified : crypto.verify leaf (root ∷ []) rest at ≡ some path

  abbrev Checked : Type 0
  Checked = ChainEvidence × List CertificateRef

  verify_bundle_lem :
      (at : Instant) (anchor_pem bundle_pem : String) (root : Certificate) (cs : List Certificate)
      (r : Checked)
      → parse_certificate_pem crypto anchor_pem ≡ ok root
      → IsTrusted at root
      → parse_certificate_bundle crypto bundle_pem ≡ ok cs
      → verify_bundle crypto at root cs ≡ ok r
      → IsVerified at anchor_pem bundle_pem
  verify_bundle_lem at anchor_pem bundle_pem root [] r p t b h = cc
  verify_bundle_lem at anchor_pem bundle_pem root (leaf ∷ rest) r p t b h =
      let (path, v, _) =
        >>=-inv (some_or (crypto.verify leaf (root ∷ []) rest at) unprocessable) _ r h in
      record {
        root = root;
        leaf = leaf;
        rest = rest;
        path = path;
        is_root = p;
        trusted = t;
        is_bundle = b;
        verified = some_or_lem (crypto.verify leaf (root ∷ []) rest at) unprocessable path v;
      }

  pub validate_chain-IsVerified :
      (anchor_pem bundle_pem : String) (at : Instant) (r : Checked)
      → validate_chain crypto anchor_pem bundle_pem at ≡ ok r
      → IsVerified at anchor_pem bundle_pem
  unfolding validate_chain
  validate_chain-IsVerified anchor_pem bundle_pem at r h =
      let (root, p, h1) = >>=-inv (parse_certificate_pem crypto anchor_pem) _ r h in
      let (u, t, h2) = >>=-inv (validate_trust_anchor crypto root at) _ r h1 in
      let (cs, b, h3) = >>=-inv (parse_certificate_bundle crypto bundle_pem) _ r h2 in
      verify_bundle_lem at anchor_pem bundle_pem root cs r p (validate_trust_anchor_lem at root t) b
        h3
