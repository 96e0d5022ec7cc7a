-- ===== src/Anchor/Revoked.antt =====
-- A revocation is final.
use cert_rollover_impact_ass.Prelude.{
  ℕ, ◌≡◌, ◌≢◌, refl, sym, Bool, true, false, String, none, Memᴰ, inl, inr, if◌then◌else◌, subst,
}
use cert_rollover_impact_ass.Simulator.Snapshot.{Instant}
use cert_rollover_impact_ass.Constants.{CertificateState}
use cert_rollover_impact_ass.Service.{
  Actor, conflict, internal, Attempt, ok, err, Database, IsDatabase, audited, change_where, load,
}
use cert_rollover_impact_ass.Service.Laws.{mem-map, answer_state, audited-IsAtomic}
use cert_rollover_impact_ass.Anchor.{
  TrustAnchor, AnchorLog, LifecycleAction, revoke, archive, restore, has_anchor_id, set_lifecycle,
  permits, unable, store_anchor, change_anchor, lifecycle,
}

-- An anchor has the state `revoked` exactly if it has the time of its revocation.
abbrev pub IsMarked : TrustAnchor → Type 0
IsMarked a =
    (a.certificate_state ≡ CertificateState.revoked → a.revoked_at ≢ none)
    × (a.revoked_at ≢ none → a.certificate_state ≡ CertificateState.revoked)

-- `q` was `p`: it is no less revoked, and as well marked.
pub record Continues (p q : TrustAnchor) : Type 0 where
  pub same_id : q.id ≡ p.id
  pub same_certificate : q.fingerprint_sha256 ≡ p.fingerprint_sha256
  pub still_revoked : p.revoked_at ≢ none → q.revoked_at ≢ none
  pub marked : IsMarked p → IsMarked q

Continues-refl : (p : TrustAnchor) → Continues p p
Continues-refl p = record {
  same_id = refl;
  same_certificate = refl;
  still_revoked = λ h. h;
  marked = λ m. m;
}

set_lifecycle-Continues :
    (now : Instant) (action : LifecycleAction) (p : TrustAnchor)
    → Continues p (set_lifecycle now action p)
set_lifecycle-Continues now revoke p = record {
  same_id = refl;
  same_certificate = refl;
  still_revoked = λ _ e. cc;
  marked = λ _. (λ _ e. cc, λ _. refl);
}
set_lifecycle-Continues now archive p = record {
  same_id = refl;
  same_certificate = refl;
  still_revoked = λ h. h;
  marked = λ m. m;
}
set_lifecycle-Continues now restore p = record {
  same_id = refl;
  same_certificate = refl;
  still_revoked = λ h. h;
  marked = λ m. m;
}

change-Continues :
    (test : TrustAnchor → Bool) (now : Instant) (action : LifecycleAction) (p : TrustAnchor)
    → Continues p (change_where test (set_lifecycle now action) p)
change-Continues test now action p = go (test p)
  where
    go : (b : Bool) → Continues p (if b then set_lifecycle now action p else p)
    go true = set_lifecycle-Continues now action p
    go false = Continues-refl p

module _ {DB : Type 0} (d : Database DB TrustAnchor AnchorLog) (law : IsDatabase d) (actor : Actor)
    (request_id : String) (now : Instant) where
  -- Each row after was a row before.
  abbrev pub AllContinue : DB → DB → Type 0
  AllContinue db db' =
      (q : TrustAnchor)
      → Memᴰ q (d.rows db')
      → (p : TrustAnchor) × Memᴰ p (d.rows db) × Continues p q

  same-AllContinue : (db : DB) → AllContinue db db
  same-AllContinue db q m = (q, m, Continues-refl q)

  audited-AllContinue :
      (id : ℕ) (action : LifecycleAction) (entry : AnchorLog) (db : DB)
      → AllContinue db
          (audited d (has_anchor_id id) (set_lifecycle now action) internal internal entry db).1
  audited-AllContinue id action entry db =
      elim (audited-IsAtomic d law (has_anchor_id id) (set_lifecycle now action) internal internal
        entry db) [
          | inl (_, same) ↦ subst (AllContinue db) (sym same) (same-AllContinue db)
          | inr (_, made) ↦ λ q m.
              let (p, k, e) = mem-map _ (d.rows db) q (subst (Memᴰ q) made.changed_rows m) in
              (p, k, subst (Continues p) (sym e) (change-Continues (has_anchor_id id) now action p))
        ]

  change_anchor-AllContinue :
      (id : ℕ) (action : LifecycleAction) (db : DB) (a : Attempt TrustAnchor)
      → AllContinue db (change_anchor d actor request_id now id action db a).1
  change_anchor-AllContinue id action db (err e) = same-AllContinue db
  change_anchor-AllContinue id action db (ok a) = go (permits action a.revoked_at)
    where
      go :
          (b : Bool)
          → let r : Attempt TrustAnchor × DB = elim b [
            | false ↦ (err conflict, db)
            | true ↦ store_anchor d actor request_id now id action db a
          ] in
            AllContinue db r.1
      go false = same-AllContinue db
      go true =
          subst (AllContinue db) (sym (answer_state d law unable (has_anchor_id id) _))
            (audited-AllContinue id action _ db)

  -- Whatever action is taken, on whatever it has read: every anchor is afterwards one that was there
  -- before, is still revoked if it was, and has its state and the time of its revocation in
  -- accordance if it had.
  pub lifecycle-AllContinue :
      (id : ℕ) (action : LifecycleAction) (seen db : DB)
      → AllContinue db (lifecycle d actor request_id now id action seen db).1
  unfolding lifecycle
  lifecycle-AllContinue id action seen db =
      change_anchor-AllContinue id action db (load d (has_anchor_id id) seen)
