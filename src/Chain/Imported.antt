-- ===== src/Chain/Imported.antt =====
-- What an import of a chain stores.
use cert_rollover_impact_ass.Prelude.{
  ℕ, ◌≡◌, ◌⊎◌, ◌≤◌, ◌↔◌, refl, List, [], ◌∷◌, All, arith, inl, inr, String, subst,
}
use cert_rollover_impact_ass.Simulator.Snapshot.{Instant}
use cert_rollover_impact_ass.Constants.{validated}
use cert_rollover_impact_ass.Service.{
  Actor, validation, Attempt, ok, err, guard, Fetch, found, no_record, broken, Database, IsDatabase,
}
use cert_rollover_impact_ass.Service.Laws.{>>=-inv, answer_created_lem}
use cert_rollover_impact_ass.Certificate.{
  Certificate, CertificateRef, ChainEvidence, Crypto, parse_certificate_bundle, validate_chain,
}
use cert_rollover_impact_ass.Certificate.Trusted.{IsVerified, validate_chain-IsVerified}
use cert_rollover_impact_ass.Anchor.{TrustAnchor}
use cert_rollover_impact_ass.Chain.{CertificateChain, ChainLog}
use cert_rollover_impact_ass.Chain.Import.{
  ImportChain, ChainCodec, narrow, window_of, ChainMaterial, bundle_of, fetched, with_leaf,
  prepare_chain, new_chain, chain_entry, store_chain_import, import_chain,
}

abbrev pub IsIn : Instant × Instant → Instant → Type 0
IsIn (from, to) t = (from ≤ t) × (t ≤ to)

abbrev pub IsValidAt : Instant → Certificate → Type 0
IsValidAt t c = (c.not_before ≤ t) × (t ≤ c.not_after)

narrow_iff :
    (window : Instant × Instant) (c : Certificate) (t : Instant)
    → IsIn (narrow window c) t ↔ (IsIn window t × IsValidAt t c)
narrow_iff (from, to) c t = ground arith

-- The window is the common validity.
window_of_iff :
    (window : Instant × Instant) (cs : List Certificate) (t : Instant)
    → IsIn (window_of window cs) t ↔ (IsIn window t × All (IsValidAt t) cs)
unfolding window_of
window_of_iff window [] t = (λ h. (h, tt), λ h. h.0)
window_of_iff window (c ∷ cs) t =
    let (to, back) = window_of_iff (narrow window c) cs t in
    let (split, join) = narrow_iff window c t in
    (
      λ h. let (a, b) = to h in let (w, v) = split a in (w, (v, b)),
      λ (w, (v, b)). back (join (w, v), b),
    )

module _ (crypto : Crypto) (codec : ChainCodec) where
  -- what the tests of an import ensure
  record IsChecked (request : ImportChain) (anchor : Fetch TrustAnchor) (at : Instant)
      (m : ChainMaterial) : Type 0 where
    is_found : anchor ≡ found m.anchor
    verified : IsVerified crypto at m.anchor.pem_redacted (bundle_of crypto codec request)
    is_bundle :
        parse_certificate_bundle crypto (bundle_of crypto codec request) ≡ ok (m.leaf ∷ m.rest)

  fetched_lem :
      (f : Fetch TrustAnchor) (a : TrustAnchor) → fetched crypto codec f ≡ ok a → f ≡ found a
  fetched_lem (found x) a h = cc
  fetched_lem no_record a h = cc
  fetched_lem broken a h = cc

  with_leaf-IsChecked :
      (request : ImportChain) (f : Fetch TrustAnchor) (at : Instant) (a : TrustAnchor)
      (verdict : ChainEvidence × List CertificateRef) (cs : List Certificate) (m : ChainMaterial)
      → f ≡ found a
      → IsVerified crypto at a.pem_redacted (bundle_of crypto codec request)
      → parse_certificate_bundle crypto (bundle_of crypto codec request) ≡ ok cs
      → with_leaf crypto codec a verdict cs ≡ ok m
      → IsChecked request f at m
  with_leaf-IsChecked request f at a (evidence, refs) [] m e v b h = cc
  with_leaf-IsChecked request f at a (evidence, refs) (leaf ∷ rest) m e v b h =
      let made : ChainMaterial = record {
        anchor = a;
        evidence = evidence;
        refs = refs;
        leaf = leaf;
        rest = rest;
      } in
      let same : made ≡ m = cc in
      subst (IsChecked request f at) same (record { is_found = e; verified = v; is_bundle = b })

  prepare_chain-IsChecked :
      (request : ImportChain) (f : Fetch TrustAnchor) (at : Instant) (m : ChainMaterial)
      → prepare_chain crypto codec request f at ≡ ok m
      → IsChecked request f at m
  unfolding prepare_chain
  prepare_chain-IsChecked request f at m h =
      let (_, _, h1) = >>=-inv (guard (codec.accepts request) validation) _ m h in
      let (a, e, h2) = >>=-inv (fetched crypto codec f) _ m h1 in
      let (verdict, v, h3) =
        >>=-inv (validate_chain crypto a.pem_redacted (bundle_of crypto codec request) at) _ m h2 in
      let (cs, b, h4) =
        >>=-inv (parse_certificate_bundle crypto (bundle_of crypto codec request)) _ m h3 in
      with_leaf-IsChecked request f at a verdict cs m (fetched_lem f a e)
        (validate_chain-IsVerified crypto a.pem_redacted (bundle_of crypto codec request) at verdict
          v)
        b h4

  -- the row of an import that has passed its tests
  pub record IsImported (request : ImportChain) (f : Fetch TrustAnchor) (at : Instant)
      (c : CertificateChain) : Type 0 where
    pub anchor : TrustAnchor
    pub leaf : Certificate
    pub rest : List Certificate
    pub is_found : f ≡ found anchor
    pub verified : IsVerified crypto at anchor.pem_redacted (bundle_of crypto codec request)
    pub is_bundle :
        parse_certificate_bundle crypto (bundle_of crypto codec request) ≡ ok (leaf ∷ rest)
    pub of_anchor : c.trust_anchor_id ≡ anchor.id
    pub of_leaf : c.leaf_subject ≡ leaf.subject
    pub is_validated : c.chain_state ≡ validated
    pub window :
        (t : Instant)
        → IsIn (c.valid_from, c.valid_to) t
          ↔ (IsIn (anchor.not_before, anchor.not_after) t × All (IsValidAt t) (leaf ∷ rest))

  new_chain-IsImported :
      (request : ImportChain) (f : Fetch TrustAnchor) (at now : Instant) (m : ChainMaterial)
      (id : ℕ)
      → IsChecked request f at m
      → IsImported request f at (new_chain crypto codec request now m id)
  unfolding new_chain
  new_chain-IsImported request f at now m id checked = record {
    anchor = m.anchor;
    leaf = m.leaf;
    rest = m.rest;
    is_found = checked.is_found;
    verified = checked.verified;
    is_bundle = checked.is_bundle;
    of_anchor = refl;
    of_leaf = refl;
    is_validated = refl;
    window = λ t. window_of_iff (m.anchor.not_before, m.anchor.not_after) (m.leaf ∷ m.rest) t;
  }

  module _ {DB : Type 0} (d : Database DB CertificateChain ChainLog) (actor : Actor)
      (request_id : String) (now : Instant) where
    -- nothing, or a new chain with one audit entry by the caller about it
    abbrev pub ImportsOne :
        ImportChain → Fetch TrustAnchor → Instant → DB → Attempt CertificateChain × DB → Type 0
    ImportsOne request f at db r =
        (r.1 ≡ db)
        ⊎ ((c : CertificateChain) × (r.0 ≡ ok c)
            × IsImported request f at c
            × (d.rows r.1 ≡ c ∷ d.rows db)
            × ((entry : ChainLog) × (d.log r.1 ≡ entry ∷ d.log db)
                × (entry.actor ≡ actor)
                × (entry.entity_id ≡ c.id)))

    store_chain_import_lem :
        (law : IsDatabase d) (request : ImportChain) (f : Fetch TrustAnchor) (at : Instant)
        (db : DB) (p : Attempt ChainMaterial)
        → ((m : ChainMaterial) → p ≡ ok m → IsChecked request f at m)
        → ImportsOne request f at db
            (store_chain_import crypto codec d actor request_id now request db p)
    unfolding new_chain
    store_chain_import_lem law request f at db (err e) from = inl refl
    store_chain_import_lem law request f at db (ok m) from =
        elim (answer_created_lem d law (new_chain crypto codec request now m)
          (λ id.
            chain_entry crypto codec d actor request_id now m
              (new_chain crypto codec request now m id))
          db) [
            | inl same ↦ inl same
            | inr (id, answered, made) ↦ inr (
              new_chain crypto codec request now m id,
              answered,
              new_chain-IsImported request f at now m id (from m refl),
              made.added_row,
              (_, made.added_entry, refl, refl),
            )
          ]

    -- An import leaves the database as it was, or it adds one chain, with one audit entry by the
    -- caller about it, and answers with it. The chain belongs to the anchor that was found, its
    -- bundle is one whose first certificate is verified, at the time of the import, against the
    -- anchor's certificate, which may be trusted then, it is validated, and it is valid exactly
    -- while the anchor and every certificate of the bundle are.
    pub import_chain-ImportsOne :
        (law : IsDatabase d) (request : ImportChain) (f : Fetch TrustAnchor) (at : Instant)
        (db : DB)
        → ImportsOne request f at db
            (import_chain crypto codec d actor request_id now request f at db)
    unfolding import_chain
    import_chain-ImportsOne law request f at db =
        store_chain_import_lem law request f at db (prepare_chain crypto codec request f at)
          (λ m h. prepare_chain-IsChecked request f at m h)
