-- ===== src/Scenario/Runs/Invariant.antt =====
-- What a run of requests keeps, and what it does to each scenario.
use cert_rollover_impact_ass.Prelude.{
  ◌≡◌, ◌≢◌, ◌⊎◌, refl, sym, true, List, [], ◌∷◌, Memᴰ, inl, inr, subst,
}
use mathlib.Core.List.Memᴰ
use cert_rollover_impact_ass.Constants.{draft, can_transition_scenario}
use cert_rollover_impact_ass.Service.{Database}
use cert_rollover_impact_ass.Scenario.{Scenario, AuditLog, Library, Call}
use cert_rollover_impact_ass.Scenario.Frozen.{IsRanging, IsFrozen}
use cert_rollover_impact_ass.Scenario.Change.{Same, IsSeparated, IsReplayable}
use cert_rollover_impact_ass.Scenario.Effect.{Request, perform, IsPlatform}
use cert_rollover_impact_ass.Scenario.Methods.{perform-Step}
use cert_rollover_impact_ass.Scenario.Runs.{Run, Everywhere, IsStart, Step-Ending}
use cert_rollover_impact_ass.Scenario.Runs.Kept.{origin, new_or_old, consistent}

module _ (lib : Library) {DB : Type 0} (d : Database DB Scenario AuditLog) where
  -- A run may start on a database without scenarios.
  pub empty-IsStart : (db : DB) → d.rows db ≡ [] → IsStart lib d db
  empty-IsStart db e = (
    λ r q m. absurd (Memᴰ.not-nil (subst (Memᴰ r) e m)),
    λ q m. absurd (Memᴰ.not-nil (subst (Memᴰ q) e m)),
    λ q m. absurd (Memᴰ.not-nil (subst (Memᴰ q) e m)),
    λ q m. absurd (Memᴰ.not-nil (subst (Memᴰ q) e m)),
  )

  module _ (env : IsPlatform lib d) (start db : DB) (past : List DB)
      (ok_start : IsStart lib d start) (run : Run lib d start (db ∷ past)) where
    -- In a run of requests in any order, new scenarios included, each on what it has read at any
    -- earlier time, every verified scenario stays verified by someone who did not create it, every
    -- scenario that is no draft stores the results of its frozen input, and every frozen input can
    -- be read and is valid, if that is so at the start and equal ids mean equal creators and inputs
    -- there.
    pub Run-invariant :
        Everywhere lib d IsSeparated db
        × Everywhere lib d (IsReplayable lib) db
        × Everywhere lib d (IsFrozen lib) db
    Run-invariant =
        let c = consistent lib d env ok_start run in (c.separated, c.replayable, c.frozen)

    -- what a request may have made of the scenarios
    abbrev pub IsFollowed : Call → Scenario → Type 0
    IsFollowed call q =
        ((p : Scenario) × Memᴰ p (d.rows db)
          × (q.id ≡ p.id)
          × Same p q
          × ((q.scenario_state ≡ p.scenario_state)
              ⊎ (can_transition_scenario p.scenario_state q.scenario_state ≡ true)))
        ⊎ (q.scenario_state ≡ draft)
          × (q.created_by ≡ call.actor.user_id)
          × ((p : Scenario) → Memᴰ p (d.rows db) → p.id ≢ q.id)

    -- After a run of requests from a start in which equal ids mean equal creators and inputs, verified
    -- scenarios are separated, results are stored and frozen inputs are valid, a further request, on
    -- what it has read at any earlier time, takes each scenario along the transitions of the life
    -- cycle only, one at a time, and leaves its creator and its frozen input alone; a scenario that is
    -- new is a draft that the caller has created, under an id that no scenario had.
    pub Run-legal :
        (call : Call) (request : Request) (seen later : DB)
        → IsRanging call
        → Memᴰ seen (db ∷ past)
        → (q : Scenario) → Memᴰ q (d.rows (perform lib d call request seen later db))
        → IsFollowed call q
    Run-legal call request seen later ranging m q n =
        elim (Step-Ending lib d env call request seen db (perform lib d call request seen later db)
          (perform-Step lib d env call request seen later db ranging)) [
            | inl same ↦
                let n' = subst (λ x. Memᴰ q (d.rows x)) same n in
                inl (q, n', refl, record { creator = refl; input = refl }, inl refl)
            | inr (inl (id, acted)) ↦
                let (p, k, e, legal) =
                  origin lib d env call id seen db _ past (consistent lib d env ok_start run) m
                    acted q n in
                inl (
                  p,
                  k,
                  cc (e, legal.same_id),
                  subst (Same p) (sym e) legal.same,
                  subst
                      (λ (x : Scenario).
                        (x.scenario_state ≡ p.scenario_state)
                        ⊎ (can_transition_scenario p.scenario_state x.scenario_state ≡ true))
                      (sym e) legal.legal,
                )
            | inr (inr opened) ↦
                elim (new_or_old lib d env call db _ past (consistent lib d env ok_start run) opened
                  q n) [
                    | inr k ↦ inl (q, k, refl, record { creator = refl; input = refl }, inl refl)
                    | inl new ↦ inr (
                      cc (new, opened.at_draft),
                      cc (new, opened.by_caller),
                      λ p k e. opened.was_free p k (cc (e, new)),
                    )
                  ]
          ]
