-- ===== src/Examples/Imports.antt =====
-- The theorems about certificates and their import, with two certificates as texts.
use cert_rollover_impact_ass.Prelude.{
  ◌+◌, ◌*◌, ◌≡◌, ◌≢◌, ◌⊎◌, ◌↔◌, refl, true, false, Option, some, none, [], ◌∷◌, String, str_eq,
  if◌then◌else◌, Bool-cases, inl, inr, arith, ℕ,
}
use cert_rollover_impact_ass.Simulator.Snapshot.{Instant}
use cert_rollover_impact_ass.Constants.{expiring, pki_operator}
use cert_rollover_impact_ass.Service.{Actor, Attempt, ok, found}
use cert_rollover_impact_ass.Certificate.{
  Certificate, Block, Crypto, out_of_fuel, mentions_key, parse_blocks, parse_certificate_bundle,
  parse_certificate_pem, validate_trust_anchor,
}
use cert_rollover_impact_ass.Certificate.Bundle.{
  IsShrinking, IsBundle, parse_certificate_bundle_iff,
}
use cert_rollover_impact_ass.Anchor.{TrustAnchor, AnchorLog}
use cert_rollover_impact_ass.Anchor.Import.{
  ImportAnchor, prepare_anchor, import_anchor, anchor_entry, IsImported, import_anchor-IsImported,
}
use cert_rollover_impact_ass.Chain.{CertificateChain, ChainLog}
use cert_rollover_impact_ass.Chain.Import.{ImportChain, ChainCodec, import_chain}
use cert_rollover_impact_ass.Chain.Imported.{ImportsOne, import_chain-ImportsOne}
use cert_rollover_impact_ass.Examples.InMemory.{Table, table, table-IsDatabase}
use cert_rollover_impact_ass.Examples.Sample.{start, hour}

abbrev root : Certificate
root = record {
  raw = "R";
  subject = "CN=root";
  issuer = "CN=root";
  serial_number = "1";
  not_before = start;
  not_after = start + 100 * hour;
  is_ca = true;
  basic_constraints_valid = true;
  signs_certificates = true;
  key_algorithm = "ECDSA";
}

abbrev leaf : Certificate
leaf = record root {
  raw = "L";
  subject = "CN=api";
  serial_number = "2";
  not_before = start + hour;
  not_after = start + 9 * hour;
  is_ca = false;
  signs_certificates = false;
}

-- "L" and "R" are the blocks of the two certificates.
abbrev block_of : String → Block
block_of raw = record { kind = "CERTIFICATE"; bytes = raw }

decode_text : String → Option (Block × String)
decode_text s =
    if str_eq s "L\nR"
    then some (block_of "L", "R")
    else if str_eq s "R"
    then some (block_of "R", "")
    else none

text_length : String → ℕ
text_length s = if str_eq s "L\nR" then 3 else if str_eq s "R" then 1 else 0

unfoldable pub crypto : Crypto
unfolding decode_text text_length
crypto = record {
  to_upper = λ s. s;
  contains = λ s word. false;
  trim_space = λ s. s;
  byte_length = text_length;
  decode = decode_text;
  encode_pem = λ raw. raw;
  parse_certificate =
      λ raw. if str_eq raw "L" then some leaf else if str_eq raw "R" then some root else none;
  sha256_hex = λ s. s;
  is_signed_by = λ c parent. str_eq c.issuer parent.subject;
  verify = λ c roots intermediates at. some (c ∷ roots);
  sort_refs = λ refs. refs;
}

crypto-IsShrinking : IsShrinking crypto
unfolding crypto decode_text text_length
crypto-IsShrinking text rest b h = elim (Bool-cases (str_eq text "L\nR")) [
  | inl e ↦
      let two : ◌≡◌ {A = Option (Block × String)} (some (block_of "L", "R")) (some (b, rest)) =
        rw e at h in
      let same : "R" ≡ rest = cc in rw (e, ← same) (omega arith)
  | inr e ↦ elim (Bool-cases (str_eq text "R")) [
    | inl f ↦
        let one : ◌≡◌ {A = Option (Block × String)} (some (block_of "R", "")) (some (b, rest)) =
          rw (e, f) at h in
        let same : "" ≡ rest = cc in rw (e, f, ← same) (omega arith)
    | inr f ↦
        let bad : ◌≡◌ {A = Option (Block × String)} none (some (b, rest)) = rw (e, f) at h in cc
  ]
]

both_read : parse_certificate_bundle crypto "L\nR" ≡ ok (leaf ∷ root ∷ [])
unfolding parse_certificate_bundle crypto
both_read = refl

parse_certificate_bundle_iff_example :
    (parse_blocks crypto (crypto.byte_length "L\nR" + 1) "L\nR" ≢ out_of_fuel)
    × ((parse_certificate_bundle crypto "L\nR" ≡ ok (leaf ∷ root ∷ [])) ↔ (
        (mentions_key crypto "L\nR" ≡ false)
        × IsBundle crypto "L\nR" (leaf ∷ root ∷ [])
        × (leaf ∷ root ∷ [] ≢ [])))
unfolding crypto
parse_certificate_bundle_iff_example =
    parse_certificate_bundle_iff crypto crypto-IsShrinking "L\nR" (leaf ∷ root ∷ [])

abbrev importer : Actor
importer = record {
  user_id = 7;
  username = "operator";
  display_name = "";
  team = "core";
  role = pki_operator;
}

abbrev now : Instant
now = start + 2 * hour

abbrev no_anchors : Table TrustAnchor AnchorLog
no_anchors = record { stored = []; entries = [] }

abbrev anchor_request : ImportAnchor
anchor_request = record { anchor_code = "root-1"; certificate_pem = "R" }

abbrev anchor_result : Attempt TrustAnchor × Table TrustAnchor AnchorLog
anchor_result =
    import_anchor crypto (λ r. true) (table (λ a. a.id)) importer "r" now anchor_request no_anchors

import_anchor-IsImported_example :
    (anchor_result.1 ≡ no_anchors)
    ⊎ ((a : TrustAnchor) × (anchor_result.0 ≡ ok a)
        × IsImported crypto (λ r. true) (table (λ a. a.id)) importer "r" now a
        × (anchor_result.1.stored ≡ a ∷ [])
        × (anchor_result.1.entries
            ≡ anchor_entry crypto (λ r. true) (table (λ a. a.id)) importer "r" now a ∷ []))
import_anchor-IsImported_example =
    import_anchor-IsImported crypto (λ r. true) (table (λ a. a.id)) importer "r" now
      (table-IsDatabase (λ a. a.id)) anchor_request no_anchors

anchor_certificate : prepare_anchor crypto (λ r. true) anchor_request now ≡ ok root
unfolding prepare_anchor parse_certificate_pem validate_trust_anchor crypto
anchor_certificate = refl

abbrev imported_anchor : TrustAnchor
imported_anchor = record {
  id = 1;
  anchor_code = "root-1";
  subject_dn = "CN=root";
  serial_number = "1";
  fingerprint_sha256 = "R";
  not_before = start;
  not_after = start + 100 * hour;
  key_algorithm = "ECDSA";
  certificate_state = expiring;
  pem_redacted = "R";
  revoked_at = none;
  archived = false;
  created_at = start;
  updated_at = start;
}

abbrev codec : ChainCodec
codec = record {
  accepts = λ request. true;
  encode_refs = λ refs. "refs";
  encode_evidence = λ evidence. "evidence";
}

abbrev chain_request : ImportChain
chain_request = record {
  chain_code = "api-chain";
  trust_anchor_id = 1;
  certificates_pem = "L" ∷ "R" ∷ [];
}

abbrev no_chains : Table CertificateChain ChainLog
no_chains = record { stored = []; entries = [] }

import_chain-ImportsOne_example :
    ImportsOne crypto codec
      (table (λ c. c.id))
      importer
      "r"
      now
      chain_request
      (found imported_anchor)
      now
      no_chains
      (import_chain crypto codec
        (table (λ c. c.id))
        importer
        "r"
        now
        chain_request
        (found imported_anchor)
        now
        no_chains)
import_chain-ImportsOne_example =
    import_chain-ImportsOne crypto codec (table (λ c. c.id)) importer "r" now
      (table-IsDatabase (λ c. c.id)) chain_request (found imported_anchor) now no_chains
