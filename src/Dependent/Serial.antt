-- ===== src/Dependent/Serial.antt =====
-- What Create, Update and Deactivate of backend/internal/service/dependent_service_service.go keep,
-- one after another.
use cert_rollover_impact_ass.Prelude.{
  ℕ, ◌≡◌, ◌≢◌, ◌⊎◌, refl, sym, ◌∙◌, ap, Bool, true, false, some, List, [], ◌∷◌, ◌++◌, map, Memᴰ,
  inl, inr, map-id, subst, ◌==◌, ◌&&◌, str_eq, if◌then◌else◌,
}
use cert_rollover_impact_ass.Prelude.Sorting.{sorted_unique}
use cert_rollover_impact_ass.Service.{
  Attempt, ok, err, conflict, driver, Database, IsDatabase, change_where,
}
use cert_rollover_impact_ass.Service.Laws.{audited-IsAtomic, answer_state}
use cert_rollover_impact_ass.Dependent.{
  DependentService, ServiceLog, ServiceRequest, UpdateRequest, Codec, Catalog, apply_update,
  all_or_none, has_service_id, active_with_id,
}
use cert_rollover_impact_ass.Dependent.Change.{
  service_entry, prepare_deactivate, deactivate_prepared, deactivate_service,
}
use cert_rollover_impact_ass.Dependent.EdgeMap.{
  IsRanging, HasSoundEdges, SameEdges, same-HasSoundEdges,
}
use cert_rollover_impact_ass.Dependent.Depends.{IsSound}
use cert_rollover_impact_ass.Dependent.Sound.{HasSoundEdges-iff}
use cert_rollover_impact_ass.Dependent.Keyed.{
  IsKeyed, IsKeyed-members, IsKeyed-cons, IsKeyed-map, SameMembers, SameMembers-cons,
  SameMembers-map, IsSound-members,
}
use cert_rollover_impact_ass.Dependent.Create.{create_service-AddsOne, new_service, candidate_id}
use cert_rollover_impact_ass.Dependent.Guarded.{
  IsGuarded, update_service-IsGuarded, stored-HasSoundEdges,
}
use cert_rollover_impact_ass.Dependent.Grown.{IsReadBack, grown-HasSoundEdges}
use cert_rollover_impact_ass.Dependent.Calls.{
  Caller, ServiceCall, create, update, deactivate, call_service, Served, unserved, served,
  IsWellStored, IsOrdered, ordered-SameMembers,
}

-- whichever of two rows with one id it is
same_id_if : (b : Bool) (s t : DependentService) → t.id ≡ s.id → (if b then t else s).id ≡ s.id
same_id_if true s t e = e
same_id_if false s t e = refl

module _ (codec : Codec) {DB : Type 0} (catalog : Catalog DB)
    (d : Database DB DependentService ServiceLog) where
  module _ (law : IsDatabase d) (c : Caller) where
    abbrev inactive : DependentService → DependentService
    inactive s = record s { service_state = "inactive"; updated_at = c.now }

    deactivate_prepared_rows :
        (id : ℕ) (db : DB) (a : Attempt DependentService)
        → let db' = (deactivate_prepared codec catalog d c.actor c.request_id c.now id db a).1 in
          (db' ≡ db) ⊎ (d.rows db' ≡ map (change_where (active_with_id id) inactive) (d.rows db))
    deactivate_prepared_rows id db (err e) = inl refl
    deactivate_prepared_rows id db (ok current) =
        elim (audited-IsAtomic d law (active_with_id id) inactive driver conflict
          (service_entry codec catalog d c.actor c.request_id c.now id "deactivate" current
            (record current { service_state = "inactive" }))
          db) [
            | inl (_, same) ↦ inl (answer_state d law (λ e. e) (has_service_id id) _ ∙ same)
            | inr (_, made) ↦ inr (
                ap (λ x. d.rows x) (answer_state d law (λ e. e) (has_service_id id) _)
                ∙ made.changed_rows)
          ]

    inactive_same :
        (id : ℕ) (s : DependentService) → SameEdges (change_where (active_with_id id) inactive s) s
    inactive_same id s = go ((s.id == id) && str_eq s.service_state "active")
      where
        go : (b : Bool) → let t : DependentService = if b then inactive s else s in SameEdges t s
        go true = (refl, refl)
        go false = (refl, refl)

    deactivated-IsSound :
        (id : ℕ) (rows : List DependentService)
        → IsSound codec rows
        → IsSound codec (map (change_where (active_with_id id) inactive) rows)
    deactivated-IsSound id rows sound =
        let edges : HasSoundEdges codec (map (λ s. s) rows) =
          subst (HasSoundEdges codec) (sym (map-id rows))
            ((HasSoundEdges-iff codec rows).1 sound) in
        (HasSoundEdges-iff codec _).0 (
          same-HasSoundEdges codec (change_where (active_with_id id) inactive) (λ s. s)
            (inactive_same id) rows edges)

    deactivate_service-IsWellStored :
        (id : ℕ) (again db : DB)
        → IsWellStored codec (d.rows db)
        → IsWellStored codec (d.rows (call_service codec catalog d (deactivate c id) again db))
    unfolding call_service deactivate_service
    deactivate_service-IsWellStored id again db (keyed, sound) =
        elim (deactivate_prepared_rows id db
          (prepare_deactivate codec catalog d c.actor c.request_id c.now id db)) [
            | inl same ↦ subst (λ x. IsWellStored codec (d.rows x)) (sym same) (keyed, sound)
            | inr rows ↦ subst (IsWellStored codec) (sym rows) (
              IsKeyed-map (change_where (active_with_id id) inactive) (d.rows db)
                  (λ s. (inactive_same id s).0) keyed,
              deactivated-IsSound id (d.rows db) sound,
            )
          ]

    module _ (ranging : IsRanging codec) (again db : DB) (services : List DependentService)
        (members : SameMembers services (d.rows db)) (all : catalog.all again ≡ some services) where
      abbrev updated : ℕ → UpdateRequest → DependentService → DependentService
      updated id request =
          change_where (has_service_id id)
            (λ s. record (apply_update codec catalog request s) { updated_at = c.now })

      updated_id :
          (id : ℕ) (request : UpdateRequest) (s : DependentService)
          → (updated id request s).id ≡ s.id
      updated_id id request s = same_id_if (s.id == id) s _ refl

      updated-IsWellStored :
          (id : ℕ) (request : UpdateRequest) (old : DependentService)
          → IsKeyed (d.rows db)
          → IsGuarded codec catalog d c.actor c.request_id c.now id request db again old
          → IsWellStored codec (map (updated id request) (d.rows db))
      updated-IsWellStored id request old keyed guarded =
          let change = updated id request in
          let stored = (HasSoundEdges-iff codec (map change services)).0 (
            stored-HasSoundEdges codec catalog d c.actor c.request_id c.now id request services
              (guarded.sound services all)) in
          let same = SameMembers-map change services (d.rows db) members in
          let read_keyed =
            IsKeyed-members (d.rows db) services (λ s. ((members s).1, (members s).0)) keyed in
          (
            IsKeyed-map change (d.rows db) (updated_id id request) keyed,
            IsSound-members codec (map change services) (map change (d.rows db)) same
                (IsKeyed-map change services (updated_id id request) read_keyed) stored,
          )

      update_service-IsWellStored :
          (id : ℕ) (request : UpdateRequest)
          → IsWellStored codec (d.rows db)
          → IsWellStored codec
              (d.rows (call_service codec catalog d (update c id request) again db))
      unfolding call_service
      update_service-IsWellStored id request (keyed, sound) =
          elim (update_service-IsGuarded codec catalog d c.actor c.request_id c.now law id request
            db again db ranging) [
              | inl same ↦ subst (λ x. IsWellStored codec (d.rows x)) (sym same) (keyed, sound)
              | inr (old, guarded, rows) ↦
                  subst (IsWellStored codec) (sym rows)
                    (updated-IsWellStored id request old keyed guarded)
            ]

      abbrev candidate : ServiceRequest → DependentService
      candidate request =
          new_service codec catalog d c.actor c.request_id c.now request candidate_id

      created-IsWellStored :
          (request : ServiceRequest) (s : DependentService)
          → IsReadBack codec
          → s.dependency_edges_json ≡ codec.encode_ids (sorted_unique request.dependency_edges)
          → ((t : DependentService) → Memᴰ t (d.rows db) → t.id ≢ s.id)
          → IsSound codec (services ++ (candidate request ∷ []))
          → IsWellStored codec (d.rows db)
          → IsWellStored codec (s ∷ d.rows db)
      created-IsWellStored request s read_back ids free checked (keyed, sound) =
          let back : SameMembers (d.rows db) services = λ t. ((members t).1, (members t).0) in
          let read_keyed = IsKeyed-members (d.rows db) services back keyed in
          let read_sound = IsSound-members codec (d.rows db) services back keyed sound in
          let free_read =
            λ (t : DependentService) (m : Memᴰ t services). free t ((members t).0 m) in
          let grown =
            grown-HasSoundEdges codec read_back (sorted_unique request.dependency_edges)
              (candidate request) s refl ids services free_read
              ((HasSoundEdges-iff codec services).1 read_sound)
              ((HasSoundEdges-iff codec (services ++ (candidate request ∷ []))).1 checked) in
          (
            IsKeyed-cons s (d.rows db) free keyed,
            IsSound-members codec (s ∷ services) (s ∷ d.rows db)
                (SameMembers-cons s services (d.rows db) members)
                (IsKeyed-cons s services free_read read_keyed)
                ((HasSoundEdges-iff codec (s ∷ services)).0 grown),
          )

      create_service-IsWellStored :
          (request : ServiceRequest)
          → IsReadBack codec
          → ((s : DependentService) → d.key s ≡ s.id)
          → IsWellStored codec (d.rows db)
          → IsWellStored codec (d.rows (call_service codec catalog d (create c request) again db))
      unfolding call_service
      create_service-IsWellStored request read_back key_id well =
          elim (create_service-AddsOne codec catalog d c.actor c.request_id c.now law request db
            again db ranging) [
              | inl same ↦ subst (λ x. IsWellStored codec (d.rows x)) (sym same) well
              | inr (s, allowed, rows, free, _, ids, _) ↦
                  let read : all_or_none codec catalog again ≡ services =
                    rw (all_or_none, all) refl in
                  subst (IsWellStored codec) (sym rows) (
                    created-IsWellStored request s read_back ids (λ t m e. free t m (key_id t ∙ e))
                      (subst (λ xs. IsSound codec (xs ++ (candidate request ∷ []))) read
                        allowed.sound)
                      well)
            ]

  module _ (law : IsDatabase d) (ranging : IsRanging codec) (read_back : IsReadBack codec)
      (key_id : (s : DependentService) → d.key s ≡ s.id) (ordered : IsOrdered codec catalog d) where
    call_service-IsWellStored :
        (call : ServiceCall) (again db : DB) (services : List DependentService)
        → SameMembers services (d.rows db)
        → catalog.all again ≡ some services
        → IsWellStored codec (d.rows db)
        → IsWellStored codec (d.rows (call_service codec catalog d call again db))
    call_service-IsWellStored (create c request) again db services members all well =
        create_service-IsWellStored law c ranging again db services members all request read_back
          key_id well
    call_service-IsWellStored (update c id request) again db services members all well =
        update_service-IsWellStored law c ranging again db services members all id request well
    call_service-IsWellStored (deactivate c id) again db services members all well =
        deactivate_service-IsWellStored law c id again db well

    -- If the stored services have ids of their own, and their dependencies lead to services that
    -- exist and have no cycle, the same holds after any calls of Create, Update and Deactivate, one
    -- after another, by whatever callers and whatever their outcomes, as long as the second read of
    -- all services within a call does not fail. A read of all services that does not fail gives them
    -- in the order of their ids, and an id list that is encoded is decoded again. (Nothing else
    -- changes the services between the reads of a call; calls at the same time are not covered.)
    pub Served-IsWellStored :
        {start db : DB}
        → Served codec catalog d start db
        → IsWellStored codec (d.rows start)
        → IsWellStored codec (d.rows db)
    Served-IsWellStored unserved well = well
    Served-IsWellStored (served {db} before call again services same all) well =
        call_service-IsWellStored call again db services
          (ordered-SameMembers codec catalog d ordered db again services same all) all
          (Served-IsWellStored before well)
