-- ===== src/Scenario/Runs.antt =====
-- Requests that run one after the other, each on what it has read at any earlier time.
use cert_rollover_impact_ass.Prelude.{ℕ, ◌≡◌, ◌⊎◌, List, [], ◌∷◌, Memᴰ, inl, inr, refl}
use cert_rollover_impact_ass.Service.{Database}
use cert_rollover_impact_ass.Scenario.{Scenario, AuditLog, Library, Call}
use cert_rollover_impact_ass.Scenario.Frozen.{IsRanging, IsFrozen}
use cert_rollover_impact_ass.Scenario.Change.{Same, IsSeparated, IsReplayable}
use cert_rollover_impact_ass.Scenario.Effect.{
  Request, open_draft, to_state, run_simulation, run_replay, perform, IsPlatform, Acted, Opened,
  Step,
}
pub mod Kept
pub mod Invariant

module _ (lib : Library) {DB : Type 0} (d : Database DB Scenario AuditLog) where
  -- The states that were passed, the latest first. A request reads in any of them, its scenario in
  -- `seen` and its key in `later`, and its transaction begins in the latest.
  pub data Run (start : DB) : List DB → Type 0 where
    begin : Run start (start ∷ [])
    act :
        {db : DB} {past : List DB}
        → Run start (db ∷ past)
        → (call : Call) (request : Request) (seen later : DB) → IsRanging call
        → Memᴰ seen (db ∷ past)
        → Memᴰ later (db ∷ past)
        → Run start (perform lib d call request seen later db ∷ db ∷ past)

  -- Equal ids mean the same creator and the same frozen input.
  abbrev pub Agrees : DB → DB → Type 0
  Agrees old db =
      (r q : Scenario) → Memᴰ r (d.rows old) → Memᴰ q (d.rows db) → r.id ≡ q.id → Same r q

  -- No scenario has gone.
  abbrev pub Keeps : DB → DB → Type 0
  Keeps old db =
      (r : Scenario) → Memᴰ r (d.rows old) → (q : Scenario) × Memᴰ q (d.rows db) × (q.id ≡ r.id)

  -- A property of every scenario in a state.
  abbrev pub Everywhere : (Scenario → Type 0) → DB → Type 0
  Everywhere P db = (q : Scenario) → Memᴰ q (d.rows db) → P q

  -- what a run keeps
  pub record IsConsistent (db : DB) (passed : List DB) : Type 0 where
    pub agrees : (old : DB) → Memᴰ old passed → Agrees old db
    pub kept : (old : DB) → Memᴰ old passed → Keeps old db
    pub separated : Everywhere IsSeparated db
    pub replayable : Everywhere (IsReplayable lib) db
    pub frozen : Everywhere (IsFrozen lib) db

  -- where a run may start
  abbrev pub IsStart : DB → Type 0
  IsStart db =
      Agrees db db
      × Everywhere IsSeparated db
      × Everywhere (IsReplayable lib) db
      × Everywhere (IsFrozen lib) db

  module _ (env : IsPlatform lib d) where
    -- the three ways in which a request ends
    abbrev pub Ending : Call → DB → DB → DB → Type 0
    Ending call seen db db' =
        (db' ≡ db)
        ⊎ (((id : ℕ) × Acted lib d env call id seen db db') ⊎ Opened lib d env call db db')

    pub Step-Ending :
        (call : Call) (request : Request) (seen db db' : DB)
        → Step lib d env call request seen db db'
        → Ending call seen db db'
    Step-Ending call (open_draft request reads) seen db db' (inl same) = inl same
    Step-Ending call (open_draft request reads) seen db db' (inr opened) = inr (inr opened)
    Step-Ending call (to_state id to comment) seen db db' (inl same) = inl same
    Step-Ending call (to_state id to comment) seen db db' (inr acted) = inr (inl (id, acted))
    Step-Ending call (run_simulation id key) seen db db' (inl same) = inl same
    Step-Ending call (run_simulation id key) seen db db' (inr acted) = inr (inl (id, acted))
    Step-Ending call (run_replay id) seen db db' (inl same) = inl same
    Step-Ending call (run_replay id) seen db db' (inr acted) = inr (inl (id, acted))
