-- ===== src/Certificate.antt =====
-- Reading and checking certificates: backend/internal/x509util/certificate.go. The packages
-- crypto/x509, crypto/sha256, encoding/pem and strings are the fields of Crypto. The demonstration
-- keys that the file generates too are left out.
use cert_rollover_impact_ass.Prelude.{
  ℕ, zero, suc, ◌+◌, ◌≡◌, Bool, true, false, not, ◌||◌, Option, none, some, List, [], ◌∷◌, map,
  String, str_eq, if◌then◌else◌,
}
use cert_rollover_impact_ass.Simulator.Snapshot.{Instant, before}
use cert_rollover_impact_ass.Service.{unprocessable, Attempt, ok, err, ◌>>=◌, ◌>>◌, guard, some_or}
pub mod Bundle
pub mod Trusted

-- what the code reads of an x509.Certificate
pub record Certificate : Type 0 where
  pub raw : String
  pub subject : String
  pub issuer : String
  pub serial_number : String
  pub not_before : Instant
  pub not_after : Instant
  pub is_ca : Bool
  pub basic_constraints_valid : Bool
  -- `KeyUsage & KeyUsageCertSign` is not 0
  pub signs_certificates : Bool
  pub key_algorithm : String

pub record CertificateRef : Type 0 where
  pub subject : String
  pub issuer : String
  pub serial_number : String
  pub fingerprint_sha256 : String
  pub not_before : Instant
  pub not_after : Instant
  pub is_ca : Bool

pub record ChainEvidence : Type 0 where
  pub valid : Bool
  pub verified_at : Instant
  pub leaf_subject : String
  pub root_subject : String
  pub path_subjects : List String
  pub message : String

-- a pem.Block
pub record Block : Type 0 where
  pub kind : String
  pub bytes : String

-- the packages; a `[]byte` is a String
pub record Crypto : Type 0 where
  pub to_upper : String → String
  pub contains : String → String → Bool
  pub trim_space : String → String
  pub byte_length : String → ℕ
  -- pem.Decode, `none` for a nil block
  pub decode : String → Option (Block × String)
  pub encode_pem : String → String
  pub parse_certificate : String → Option Certificate
  pub sha256_hex : String → String
  -- `certificate.CheckSignatureFrom(parent)` returns no error
  pub is_signed_by : Certificate → Certificate → Bool
  -- The first chain of `leaf.Verify` for server authentication, with the roots, the intermediates
  -- and the time: it returns an error or at least one chain.
  pub verify :
      Certificate → List Certificate → List Certificate → Instant → Option (List Certificate)
  -- sort.Slice by the subject
  pub sort_refs : List CertificateRef → List CertificateRef

-- how the loop of ParseCertificateBundle ends
pub data Parsed : Type 0 where
  parsed : List Certificate → Parsed
  malformed : Parsed
  out_of_fuel : Parsed

abbrev pub prepend : Certificate → Parsed → Parsed
prepend c (parsed cs) = parsed (c ∷ cs)
prepend c malformed = malformed
prepend c out_of_fuel = out_of_fuel

abbrev pub not_empty : Parsed → Attempt (List Certificate)
not_empty (parsed []) = err unprocessable
not_empty (parsed (c ∷ cs)) = ok (c ∷ cs)
not_empty malformed = err unprocessable
not_empty out_of_fuel = err unprocessable

module _ (crypto : Crypto) where
  abbrev pub mentions_key : String → Bool
  mentions_key raw = crypto.contains (crypto.to_upper raw) "PRIVATE KEY"

  -- `len(strings.TrimSpace(s)) == 0`
  abbrev pub is_blank : String → Bool
  is_blank s = str_eq (crypto.trim_space s) ""

  -- the certificate in a block, if it is one
  abbrev pub certificate_of : Block → Option Certificate
  certificate_of block =
      if str_eq block.kind "CERTIFICATE" then crypto.parse_certificate block.bytes else none

  -- the tests on the one block of ParseCertificatePEM
  abbrev pub only_block : Option (Block × String) → Attempt Certificate
  only_block none = err unprocessable
  only_block (some (block, rest)) =
      if not (str_eq block.kind "CERTIFICATE")
      then err unprocessable
      else if not (is_blank rest)
      then err unprocessable
      else some_or (crypto.parse_certificate block.bytes) unprocessable

  -- Every error of this file becomes `unprocessable` in the services.
  unfoldable pub parse_certificate_pem : String → Attempt Certificate
  parse_certificate_pem raw =
      if mentions_key raw
      then err unprocessable
      else only_block (crypto.decode (crypto.trim_space raw))

  -- one turn of the loop, with what the later turns give
  abbrev pub read_block : (String → Parsed) → Option (Block × String) → Parsed
  read_block later none = malformed
  read_block later (some (block, rest)) = elim (certificate_of block) [
    | none ↦ malformed
    | some c ↦ prepend c (later rest)
  ]

  -- The loop of ParseCertificateBundle: each turn takes a block off, so that the bytes are fuel
  -- enough: Bundle.
  unfoldable pub parse_blocks : ℕ → String → Parsed
  parse_blocks zero remaining = out_of_fuel
  parse_blocks (suc fuel) remaining =
      if is_blank remaining
      then parsed []
      else read_block (parse_blocks fuel) (crypto.decode remaining)

  unfoldable pub parse_certificate_bundle : String → Attempt (List Certificate)
  unfolding parse_blocks
  parse_certificate_bundle raw =
      if mentions_key raw
      then err unprocessable
      else let text = crypto.trim_space raw in
        not_empty (parse_blocks (crypto.byte_length text + 1) text)

  abbrev pub fingerprint : Certificate → String
  fingerprint c = crypto.sha256_hex c.raw

  abbrev pub normalize_pem : Certificate → String
  normalize_pem c = crypto.encode_pem c.raw

  abbrev pub ref : Certificate → CertificateRef
  ref c = record {
    subject = c.subject;
    issuer = c.issuer;
    serial_number = c.serial_number;
    fingerprint_sha256 = fingerprint c;
    not_before = c.not_before;
    not_after = c.not_after;
    is_ca = c.is_ca;
  }

  unfoldable pub validate_trust_anchor : Certificate → Instant → Attempt (Unit {0})
  validate_trust_anchor c at = do
    guard (not (not c.is_ca || not c.basic_constraints_valid)) unprocessable
    guard c.signs_certificates unprocessable
    guard (not (before at c.not_before || not (before at c.not_after))) unprocessable
    guard (crypto.is_signed_by c c) unprocessable

  abbrev pub evidence_of : Instant → Certificate → Certificate → List Certificate → ChainEvidence
  evidence_of at anchor leaf path = record {
    valid = true;
    verified_at = at;
    leaf_subject = leaf.subject;
    root_subject = anchor.subject;
    path_subjects = map (λ (c : Certificate). c.subject) path;
    message = "signature path and validity window verified offline";
  }

  -- `certificates[0]` and `certificates[1:]`, of a list that is not empty
  abbrev pub verify_bundle :
      Instant → Certificate → List Certificate → Attempt (ChainEvidence × List CertificateRef)
  verify_bundle at anchor [] = err unprocessable
  verify_bundle at anchor (leaf ∷ rest) = do
    path ← some_or (crypto.verify leaf (anchor ∷ []) rest at) unprocessable
    ok (evidence_of at anchor leaf path, crypto.sort_refs (map ref (leaf ∷ rest)))

  unfoldable pub validate_chain :
      String → String → Instant → Attempt (ChainEvidence × List CertificateRef)
  unfolding parse_certificate_pem validate_trust_anchor parse_certificate_bundle
  validate_chain anchor_pem bundle_pem at = do
    anchor ← parse_certificate_pem anchor_pem
    validate_trust_anchor anchor at
    certificates ← parse_certificate_bundle bundle_pem
    verify_bundle at anchor certificates
