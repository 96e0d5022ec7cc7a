-- ===== src/Dependent/Calls.antt =====
-- Calls of the dependent-service service, one after another: Create, Update and Deactivate of
-- backend/internal/service/dependent_service_service.go. Each reads the state that the last has left,
-- and Create and Update read all services once more.
use cert_rollover_impact_ass.Prelude.{ℕ, ◌≡◌, sym, some, List, String, subst}
use cert_rollover_impact_ass.Simulator.Snapshot.{Instant}
use cert_rollover_impact_ass.Prelude.Sorting.{sort_by}
use cert_rollover_impact_ass.Prelude.Sorting.Laws.{mem-sort_by}
use cert_rollover_impact_ass.Service.{Actor, Database}
use cert_rollover_impact_ass.Dependent.{
  DependentService, ServiceLog, ServiceRequest, UpdateRequest, Codec, Catalog,
}
use cert_rollover_impact_ass.Dependent.Change.{update_service, deactivate_service}
use cert_rollover_impact_ass.Dependent.Create.{create_service}
use cert_rollover_impact_ass.Dependent.Depends.{IsSound}
use cert_rollover_impact_ass.Dependent.Keyed.{IsKeyed, SameMembers}

-- who calls, under which request id, and when
pub record Caller : Type 0 where
  pub actor : Actor
  pub request_id : String
  pub now : Instant

pub data ServiceCall : Type 0 where
  create : Caller → ServiceRequest → ServiceCall
  update : Caller → ℕ → UpdateRequest → ServiceCall
  deactivate : Caller → ℕ → ServiceCall

-- The ids are distinct, and the dependencies sound.
abbrev pub IsWellStored : Codec → List DependentService → Type 0
IsWellStored codec rows = IsKeyed rows × IsSound codec rows

module _ (codec : Codec) {DB : Type 0} (catalog : Catalog DB)
    (d : Database DB DependentService ServiceLog) where
  -- The state after the call. It reads all services again in the state `again`.
  unfoldable pub call_service : ServiceCall → DB → DB → DB
  call_service (create c request) again db =
      (create_service codec catalog d c.actor c.request_id c.now request db again db).1
  call_service (update c id request) again db =
      (update_service codec catalog d c.actor c.request_id c.now id request db again db).1
  call_service (deactivate c id) again db =
      (deactivate_service codec catalog d c.actor c.request_id c.now id db db).1

  -- Calls one after another. Nothing else changes the services between the reads of a call, and its
  -- second read of all services does not fail.
  pub data Served (start : DB) : DB → Type 0 where
    unserved : Served start start
    served :
        {db : DB}
        → Served start db
        → (call : ServiceCall) (again : DB) (services : List DependentService)
        → d.rows again ≡ d.rows db
        → catalog.all again ≡ some services
        → Served start (call_service call again db)

  -- The documented behaviour of `Order("id ASC").Find`, if it does not fail.
  abbrev pub IsOrdered : Type 0
  IsOrdered =
      (db : DB) (services : List DependentService)
      → catalog.all db ≡ some services
      → services ≡ sort_by (λ (s : DependentService). s.id) (d.rows db)

  pub ordered-SameMembers :
      IsOrdered
      → (db again : DB) (services : List DependentService) → d.rows again ≡ d.rows db
      → catalog.all again ≡ some services
      → SameMembers services (d.rows db)
  ordered-SameMembers ordered db again services same all =
      let key : DependentService → ℕ = λ s. s.id in
      let e = ordered again services all in
      subst (λ xs. SameMembers xs (d.rows db)) (sym e)
        (subst (λ rows. SameMembers (sort_by key rows) (d.rows db)) (sym same)
          (λ s. mem-sort_by key s (d.rows db)))
