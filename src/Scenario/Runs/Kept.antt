-- ===== src/Scenario/Runs/Kept.antt =====
-- Each way in which a request ends keeps a run consistent.
use cert_rollover_impact_ass.Prelude.{
  ℕ, ◌≡◌, ◌⊎◌, refl, sym, ◌∙◌, List, [], ◌∷◌, some, Memᴰ, Memᴰ-cons, inl, inr, subst, ⊎_elim,
}
use mathlib.Core.List.Memᴰ
use cert_rollover_impact_ass.Service.Laws.{mem-map, map-mem}
use cert_rollover_impact_ass.Service.{Database}
use cert_rollover_impact_ass.Scenario.{Scenario, AuditLog, Library, Call}
use cert_rollover_impact_ass.Scenario.Frozen.{IsFrozen}
use cert_rollover_impact_ass.Scenario.Change.{Same, IsSeparated, IsReplayable, IsLegal}
use cert_rollover_impact_ass.Scenario.Effect.{perform, IsPlatform, Acted, Opened}
use cert_rollover_impact_ass.Scenario.Methods.{perform-Step}
use cert_rollover_impact_ass.Scenario.Runs.{
  Run, begin, act, Agrees, Keeps, Everywhere, IsConsistent, IsStart, Step-Ending,
}

Same-trans : (r q p : Scenario) → Same r q → Same q p → Same r p
Same-trans r q p a b = record { creator = a.creator ∙ b.creator; input = a.input ∙ b.input }

Same-sym : (r q : Scenario) → Same r q → Same q r
Same-sym r q a = record { creator = sym a.creator; input = sym a.input }

Same-refl : (r q : Scenario) → r ≡ q → Same r q
Same-refl r q e = rw e (record { creator = refl; input = refl })

module _ (lib : Library) {DB : Type 0} (d : Database DB Scenario AuditLog)
    (env : IsPlatform lib d) where
  Keeps-refl : (db : DB) → Keeps lib d db db
  Keeps-refl db r m = (r, m, refl)

  -- A property of the passed states that the new one has too.
  passed_cases :
      (P : DB → Type 0) (db' : DB) (passed : List DB)
      → P db'
      → ((old : DB) → Memᴰ old passed → P old)
      → (old : DB) → Memᴰ old (db' ∷ passed)
      → P old
  passed_cases P db' passed here there old o =
      ⊎_elim (λ e. subst P (sym e) here) (there old) ((Memᴰ-cons old db' passed).0 o)

  module _ (call : Call) (id : ℕ) (seen db db' : DB) (past : List DB)
      (c : IsConsistent lib d db (db ∷ past)) (m : Memᴰ seen (db ∷ past))
      (acted : Acted lib d env call id seen db db') where
    -- where a row of the new state comes from
    pub origin :
        (q : Scenario)
        → Memᴰ q (d.rows db')
        → (p : Scenario) × Memᴰ p (d.rows db)
          × (q ≡ acted.change p)
          × IsLegal lib p (acted.change p)
    origin q n =
        let (p, k, e) = mem-map acted.change (d.rows db) q (subst (Memᴰ q) acted.changed n) in
        (p, k, e, acted.legal p (λ r j same. c.agrees seen m r p j k same))

    acted-Agrees : (old : DB) → Memᴰ old (db ∷ past) → Agrees lib d old db'
    acted-Agrees old o r q j n e =
        let (p, k, same, legal) = origin q n in
        let back : r.id ≡ p.id = cc (e, same, legal.same_id) in
        subst (Same r) (sym same)
          (Same-trans r p (acted.change p) (c.agrees old o r p j k back) legal.same)

    acted-Agrees_self : Agrees lib d db' db'
    acted-Agrees_self r q j n e =
        let (p, k, same, legal) = origin r j in
        let back : p.id ≡ q.id = cc (e, same, legal.same_id) in
        Same-trans r p q (subst (λ x. Same x p) (sym same) (Same-sym p (acted.change p) legal.same))
          (acted-Agrees db (Memᴰ.head refl) p q k n back)

    acted-Keeps : (old : DB) → Memᴰ old (db ∷ past) → Keeps lib d old db'
    acted-Keeps old o r j =
        let (p, k, e) = c.kept old o r j in
        let legal = acted.legal p (λ s i same. c.agrees seen m s p i k same) in
        (
          acted.change p,
          subst (Memᴰ (acted.change p)) (sym acted.changed) (map-mem acted.change (d.rows db) p k),
          legal.same_id ∙ e,
        )

    -- a property that a legal change keeps
    acted-Everywhere :
        (P : Scenario → Type 0)
        → ((p : Scenario) → IsLegal lib p (acted.change p) → P p → P (acted.change p))
        → Everywhere lib d P db
        → Everywhere lib d P db'
    acted-Everywhere P keep all q n =
        let (p, k, same, legal) = origin q n in subst P (sym same) (keep p legal (all p k))

    acted-IsConsistent : IsConsistent lib d db' (db' ∷ db ∷ past)
    acted-IsConsistent = record {
      agrees =
          passed_cases (λ x. Agrees lib d x db') db' (db ∷ past) acted-Agrees_self acted-Agrees;
      kept = passed_cases (λ x. Keeps lib d x db') db' (db ∷ past) (Keeps-refl db') acted-Keeps;
      separated = acted-Everywhere IsSeparated (λ p legal. legal.separated) c.separated;
      replayable = acted-Everywhere (IsReplayable lib) (λ p legal. legal.replayable) c.replayable;
      frozen =
          acted-Everywhere (IsFrozen lib)
            (λ p legal (snapshot, e, valid). (
              snapshot,
              subst (λ i. lib.decode_snapshot i ≡ some snapshot) legal.same.input e,
              valid,
            ))
            c.frozen;
    }

  module _ (call : Call) (db db' : DB) (past : List DB) (c : IsConsistent lib d db (db ∷ past))
      (opened : Opened lib d env call db db') where
    -- A row of the new state is the new one or an old one.
    pub new_or_old : (q : Scenario) → Memᴰ q (d.rows db') → (q ≡ opened.row) ⊎ Memᴰ q (d.rows db)
    new_or_old q n = (Memᴰ-cons q opened.row (d.rows db)).0 (subst (Memᴰ q) opened.added n)

    still : (q : Scenario) → Memᴰ q (d.rows db) → Memᴰ q (d.rows db')
    still q k = subst (Memᴰ q) (sym opened.added) (Memᴰ.tail k)

    opened-Agrees : (old : DB) → Memᴰ old (db ∷ past) → Agrees lib d old db'
    opened-Agrees old o r q j n e = elim (new_or_old q n) [
      | inr k ↦ c.agrees old o r q j k e
      | inl new ↦
          let (p, k, same) = c.kept old o r j in absurd (opened.was_free p k (cc (same, e, new)))
    ]

    opened-Agrees_self : Agrees lib d db' db'
    opened-Agrees_self r q j n e = elim (new_or_old r j) [
      | inr k ↦ opened-Agrees db (Memᴰ.head refl) r q k n e
      | inl new ↦ elim (new_or_old q n) [
        | inl new' ↦ Same-refl r q (new ∙ sym new')
        | inr k ↦ absurd (opened.was_free q k (cc (e, new)))
      ]
    ]

    opened-Keeps : (old : DB) → Memᴰ old (db ∷ past) → Keeps lib d old db'
    opened-Keeps old o r j = let (p, k, e) = c.kept old o r j in (p, still p k, e)

    opened-Everywhere :
        (P : Scenario → Type 0) → P opened.row → Everywhere lib d P db → Everywhere lib d P db'
    opened-Everywhere P new all q n = ⊎_elim (λ e. subst P (sym e) new) (all q) (new_or_old q n)

    opened-IsConsistent : IsConsistent lib d db' (db' ∷ db ∷ past)
    opened-IsConsistent = record {
      agrees =
          passed_cases (λ x. Agrees lib d x db') db' (db ∷ past) opened-Agrees_self opened-Agrees;
      kept = passed_cases (λ x. Keeps lib d x db') db' (db ∷ past) (Keeps-refl db') opened-Keeps;
      separated = opened-Everywhere IsSeparated (λ e. let at = opened.at_draft in cc) c.separated;
      replayable =
          opened-Everywhere (IsReplayable lib) (λ n. absurd (n opened.at_draft)) c.replayable;
      frozen = opened-Everywhere (IsFrozen lib) opened.frozen c.frozen;
    }

  same-IsConsistent :
      (db db' : DB) (past : List DB)
      → db' ≡ db
      → IsConsistent lib d db (db ∷ past)
      → IsConsistent lib d db' (db' ∷ db ∷ past)
  same-IsConsistent db db' past e c =
      subst (λ x. IsConsistent lib d x (x ∷ db ∷ past)) (sym e)
        (record {
          agrees =
              passed_cases (λ x. Agrees lib d x db) db (db ∷ past) (c.agrees db (Memᴰ.head refl))
                c.agrees;
          kept = passed_cases (λ x. Keeps lib d x db) db (db ∷ past) (Keeps-refl db) c.kept;
          separated = c.separated;
          replayable = c.replayable;
          frozen = c.frozen;
        })

  abbrev pub IsConsistentRun : List DB → Type 0
  IsConsistentRun [] = Unit
  IsConsistentRun (db ∷ past) = IsConsistent lib d db (db ∷ past)

  pub consistent :
      {start : DB} {passed : List DB}
      → IsStart lib d start
      → Run lib d start passed
      → IsConsistentRun passed
  consistent {start} (agrees, separated, replayable, frozen) begin = record {
    agrees = λ old o. subst (λ x. Agrees lib d x start) (sym (Memᴰ.eq_of_singleton o)) agrees;
    kept =
        λ old o. subst (λ x. Keeps lib d x start) (sym (Memᴰ.eq_of_singleton o)) (Keeps-refl start);
    separated = separated;
    replayable = replayable;
    frozen = frozen;
  }
  consistent ok_start (act {db} {past} run call request seen later ranging m _) =
      let c = consistent ok_start run in
      elim (Step-Ending lib d env call request seen db (perform lib d call request seen later db)
        (perform-Step lib d env call request seen later db ranging)) [
          | inl same ↦ same-IsConsistent db _ past same c
          | inr (inl (id, acted)) ↦ acted-IsConsistent call id seen db _ past c m acted
          | inr (inr opened) ↦ opened-IsConsistent call db _ past c opened
        ]
