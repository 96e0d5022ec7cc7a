-- ===== src/Scenario/Opened.antt =====
-- The effect of Create.
use cert_rollover_impact_ass.Prelude.{ℕ, ◌≡◌, ◌⊎◌, refl, sym, ◌∙◌, subst, String, inl, inr}
use cert_rollover_impact_ass.Service.{Attempt, ok, err, Database}
use cert_rollover_impact_ass.Service.Laws.{created_audited-IsAtomic}
use cert_rollover_impact_ass.Simulator.Snapshot.{Snapshot}
use cert_rollover_impact_ass.Scenario.{Scenario, AuditLog, Library, Call, CreateRequest}
use cert_rollover_impact_ass.Scenario.Create.{
  Reads, Frozen, prepare_create, new_draft, draft_entry, create_answer, create_prepared,
  create_scenario,
}
use cert_rollover_impact_ass.Scenario.Frozen.{IsRanging, IsFrozen, prepare_create_lem}
use cert_rollover_impact_ass.Scenario.Effect.{IsPlatform, Opened}

module _ (lib : Library) {DB : Type 0} (d : Database DB Scenario AuditLog)
    (env : IsPlatform lib d) where
  create_answer_state : (a : Attempt ℕ × DB) → (create_answer lib d a).1 ≡ a.1
  create_answer_state (ok id, db) = refl
  create_answer_state (err e, db) = refl

  create_prepared-Opened :
      (call : Call) (request : CreateRequest) (db : DB) (a : Attempt Frozen)
      → ((snapshot : Snapshot) (raw : String) (id : ℕ)
          → a ≡ ok (snapshot, raw)
          → IsFrozen lib (new_draft lib call request raw id))
      → let db' = (create_prepared lib d call request db a).1 in
        (db' ≡ db) ⊎ Opened lib d env call db db'
  create_prepared-Opened call request db (err e) valid = inl refl
  create_prepared-Opened call request db (ok (snapshot, raw)) valid =
      subst (λ db'. (db' ≡ db) ⊎ Opened lib d env call db db') (sym (create_answer_state _))
        (elim (created_audited-IsAtomic d env.law (new_draft lib call request raw)
          (λ id. draft_entry lib call (new_draft lib call request raw id)) db) [
            | inl (_, same) ↦ inl same
            | inr (id, _, made) ↦ inr (record {
              row = new_draft lib call request raw id;
              entry = draft_entry lib call (new_draft lib call request raw id);
              added = made.added_row;
              was_free = λ r m e. made.was_free r m (env.keyed r ∙ e);
              at_draft = refl;
              by_caller = refl;
              frozen = valid snapshot raw id refl;
              logged = made.added_entry;
              by_actor = refl;
              about = refl;
            })
          ])

  pub create_scenario-Opened :
      (call : Call) (request : CreateRequest) (reads : Reads) (db : DB)
      → IsRanging call
      → let db' = (create_scenario lib d call request reads db).1 in
        (db' ≡ db) ⊎ Opened lib d env call db db'
  unfolding create_scenario
  create_scenario-Opened call request reads db ranging =
      create_prepared-Opened call request db (prepare_create lib call request reads)
        λ snapshot raw id h.
          let (encoded, valid) = prepare_create_lem lib call request reads snapshot raw ranging h in
          (snapshot, env.readable snapshot raw encoded, valid)
