-- ===== src/Examples/Opening.antt =====
-- The creation of a scenario from the rows of the sample.
use cert_rollover_impact_ass.Prelude.{
  ◌+◌, ◌-◌, ◌*◌, ◌≡◌, refl, none, some, false, [], ◌∷◌, String, ℕ,
}
use cert_rollover_impact_ass.Prelude.Sorting.{sorted_unique}
use cert_rollover_impact_ass.Simulator.Snapshot.{new_snapshot, validate_snapshot}
use cert_rollover_impact_ass.Constants.{valid, validated}
use cert_rollover_impact_ass.Service.{ok}
use cert_rollover_impact_ass.Anchor.{TrustAnchor}
use cert_rollover_impact_ass.Chain.{CertificateChain}
use cert_rollover_impact_ass.Dependent.{DependentService}
use cert_rollover_impact_ass.Scenario.{CreateRequest}
use cert_rollover_impact_ass.Scenario.Create.{
  Reads, Material, freeze_services, build_snapshot, gather,
}
use cert_rollover_impact_ass.Scenario.Faithful.{Freezes, build_snapshot-Freezes}
use cert_rollover_impact_ass.Examples.Sample.{snapshot, start, hour}
use cert_rollover_impact_ass.Examples.Memory.{library, operate}

abbrev pub creation : CreateRequest
creation = record {
  name = "Synthetic rollover";
  old_anchor_id = 1;
  new_anchor_id = 2;
  overlap_start = start;
  overlap_end = start + 24 * hour;
  candidate_chain_ids = 11 ∷ 10 ∷ 11 ∷ [];
  simulation_time = start + 12 * hour;
}

first_anchor : TrustAnchor
first_anchor = record {
  id = 1;
  anchor_code = "old";
  subject_dn = "CN=old";
  serial_number = "1";
  fingerprint_sha256 = "f1";
  not_before = start - 17520 * hour;
  not_after = start + 2184 * hour;
  key_algorithm = "ECDSA";
  certificate_state = valid;
  pem_redacted = "";
  revoked_at = none;
  archived = false;
  created_at = start;
  updated_at = start;
}

second_anchor : TrustAnchor
unfolding first_anchor
second_anchor = record first_anchor {
  id = 2;
  anchor_code = "new";
  not_before = start - hour;
  not_after = start + 17520 * hour;
}

first_chain : CertificateChain
first_chain = record {
  id = 10;
  chain_code = "old-chain";
  trust_anchor_id = 1;
  leaf_subject = "CN=api";
  certificate_refs_json = "[]";
  chain_fingerprint = "f";
  valid_from = start - 8760 * hour;
  valid_to = start + 1464 * hour;
  validation_result = "{}";
  chain_state = validated;
  source_checksum = "s";
  public_chain_pem = "";
  created_at = start;
  updated_at = start;
}

second_chain : CertificateChain
unfolding first_chain
second_chain = record first_chain {
  id = 11;
  chain_code = "new-chain";
  trust_anchor_id = 2;
  valid_from = start - hour;
  valid_to = start + 8760 * hour;
}

service_row : ℕ → String → String → String → String → DependentService
service_row id code trust edges criticality = record {
  id = id;
  service_code = code;
  name = code;
  owner_team = "core";
  environment = "production";
  chain_id = 10;
  client_trust_refs_json = trust;
  protocol = "tls";
  criticality = criticality;
  dependency_edges_json = edges;
  service_state = "active";
  created_at = start;
  updated_at = start;
}

unfoldable pub tables : Reads
unfolding first_anchor second_anchor first_chain second_chain service_row
tables = record {
  anchors_by_ids = λ ids. some (first_anchor ∷ second_anchor ∷ []);
  chains_by_ids = λ ids. some (first_chain ∷ second_chain ∷ []);
  chains_page = λ page size. some (second_chain ∷ first_chain ∷ []);
  all_services = some (
      service_row 102 "client" "[1]" "[101]" "high"
      ∷ service_row 101 "gateway" "[1,2]" "[]" "critical"
      ∷ []);
}

unfoldable pub material : Material
unfolding first_anchor second_anchor first_chain second_chain service_row
material = record {
  anchors = first_anchor ∷ second_anchor ∷ [];
  chains = second_chain ∷ first_chain ∷ [];
  services =
      service_row 102 "client" "[1]" "[101]" "high"
      ∷ service_row 101 "gateway" "[1,2]" "[]" "critical"
      ∷ [];
}

-- What is gathered from the rows is frozen as the sample snapshot.
gathered : gather library creation tables ≡ ok material
unfolding gather tables material
gathered = refl

built :
    build_snapshot library operate creation
      (sorted_unique creation.candidate_chain_ids)
      material.anchors
      material.chains
      material.services
    ≡ ok snapshot
unfolding build_snapshot material validate_snapshot new_snapshot freeze_services sorted_unique
built = refl

build_snapshot-Freezes_example :
    Freezes library creation material.anchors material.chains material.services snapshot
build_snapshot-Freezes_example =
    build_snapshot-Freezes library operate creation material.anchors material.chains
      material.services snapshot built
