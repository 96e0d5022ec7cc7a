-- ===== src/Examples/Tables.antt =====
-- The theorems about chains and anchors over a table in memory.
use cert_rollover_impact_ass.Prelude.{
  ◌+◌, ◌≡◌, ◌≤◌, ◌<◌, ◌↔◌, refl, true, false, none, [], ◌∷◌, Memᴰ,
}
use cert_rollover_impact_ass.Constants.{
  validated, deprecated, can_transition_chain, valid, pki_operator,
}
use cert_rollover_impact_ass.Service.{Actor}
use cert_rollover_impact_ass.Simulator.Snapshot.{Instant}
use cert_rollover_impact_ass.Chain.{
  set_chain_state, CertificateChain, ChainLog, transition_chain, compare_chains,
}
use cert_rollover_impact_ass.Chain.Legal.{
  Moved, transition_chain-AllMoved, IsWithin, compare_chains-overlap,
}
use cert_rollover_impact_ass.Anchor.{
  permits, set_lifecycle, TrustAnchor, AnchorLog, revoke, lifecycle,
}
use cert_rollover_impact_ass.Anchor.Revoked.{Continues, lifecycle-AllContinue}
use cert_rollover_impact_ass.Examples.InMemory.{Table, find_row, table, table-IsDatabase}
use cert_rollover_impact_ass.Examples.Sample.{start, hour}

abbrev operator : Actor
operator = record {
  user_id = 7;
  username = "operator";
  display_name = "";
  team = "core";
  role = pki_operator;
}

abbrev chain : CertificateChain
chain = record {
  id = 10;
  chain_code = "old-chain";
  trust_anchor_id = 1;
  leaf_subject = "CN=api";
  certificate_refs_json = "[]";
  chain_fingerprint = "f";
  valid_from = start;
  valid_to = start + hour;
  validation_result = "{}";
  chain_state = validated;
  source_checksum = "s";
  public_chain_pem = "";
  created_at = start;
  updated_at = start;
}

abbrev chains : Table CertificateChain ChainLog
chains = record { stored = chain ∷ []; entries = [] }

abbrev moved : CertificateChain
moved = set_chain_state (start + hour) deprecated chain

moved_stored :
    Memᴰ moved
      (transition_chain
        (table (λ c. c.id) {E = ChainLog})
        operator
        "r"
        (start + hour)
        10
        deprecated
        chains
        chains).1.stored
unfolding transition_chain find_row can_transition_chain
moved_stored = Memᴰ.head refl

transition_chain-AllMoved_example :
    (p : CertificateChain) × Memᴰ p chains.stored × Moved (start + hour) p moved
transition_chain-AllMoved_example =
    transition_chain-AllMoved (table (λ c. c.id)) (table-IsDatabase (λ c. c.id)) operator "r"
      (start + hour) 10 deprecated chains chains moved moved_stored

abbrev successor : CertificateChain
successor = record chain { id = 11; valid_from = start + 1; valid_to = start + 9 }

compare_chains-overlap_example :
    let c = compare_chains chain successor in
    ((c.has_valid_overlap ≡ true) ↔ ((t : Instant) × IsWithin chain t × IsWithin successor t))
    × ((t : Instant)
        → ((c.overlap_start ≤ t) × (t < c.overlap_end)) ↔ (IsWithin chain t × IsWithin successor t))
compare_chains-overlap_example = compare_chains-overlap chain successor

abbrev anchor : TrustAnchor
anchor = record {
  id = 1;
  anchor_code = "old";
  subject_dn = "CN=old";
  serial_number = "1";
  fingerprint_sha256 = "f";
  not_before = start;
  not_after = start + hour;
  key_algorithm = "ECDSA";
  certificate_state = valid;
  pem_redacted = "";
  revoked_at = none;
  archived = false;
  created_at = start;
  updated_at = start;
}

abbrev anchors : Table TrustAnchor AnchorLog
anchors = record { stored = anchor ∷ []; entries = [] }

abbrev revoked_anchor : TrustAnchor
revoked_anchor = set_lifecycle start revoke anchor

revoked_stored :
    Memᴰ revoked_anchor
      (lifecycle
        (table (λ a. a.id) {E = AnchorLog})
        operator
        "r"
        start
        1
        revoke
        anchors
        anchors).1.stored
unfolding lifecycle find_row permits
revoked_stored = Memᴰ.head refl

lifecycle-AllContinue_example :
    (p : TrustAnchor) × Memᴰ p anchors.stored × Continues p revoked_anchor
lifecycle-AllContinue_example =
    lifecycle-AllContinue (table (λ a. a.id)) (table-IsDatabase (λ a. a.id)) operator "r" start 1
      revoke anchors anchors revoked_anchor revoked_stored
