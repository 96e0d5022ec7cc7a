-- ===== src/Service.antt =====
-- What the services of backend/internal/service share: the actor of backend/internal/util/http.go,
-- errors as values, and the database as an interface. GORM is a library, so that its operations are
-- fields of Database, and IsDatabase says what its documentation promises of them.
use cert_rollover_impact_ass.Prelude.{
  ℕ, zero, ◌+◌, ◌≡◌, ◌≢◌, ◌==◌, Bool, true, false, Option, none, some, List, [], ◌∷◌, map, Memᴰ,
  String, if◌then◌else◌,
}
use cert_rollover_impact_ass.Constants.{Role, admin, pki_operator}
pub mod Laws

pub record Actor : Type 0 where
  pub user_id : ℕ
  pub username : String
  pub display_name : String
  pub team : String
  pub role : Role

-- `actor.Role == admin || actor.Role == pki_operator`
abbrev pub is_pki : Role → Bool
is_pki admin = true
is_pki pki_operator = true
is_pki _ = false

-- the error codes of an APIError; `driver` is an error of the database that is passed on
pub data ServiceError : Type 0 where
  validation unauthorized forbidden not_found conflict illegal_transition idempotency
        reviewer_conflict unprocessable internal driver :
      ServiceError

-- the error codes that a service passes on; an error that has none becomes an internal error
abbrev pub coded : ServiceError → ServiceError
coded driver = internal
coded e = e

pub data Attempt (A : Type 0) : Type 0 where
  ok : A → Attempt A
  err : ServiceError → Attempt A

infixl 5 ◌>>=◌ ◌>>◌
abbrev pub ◌>>=◌ : {A B : Type 0} → Attempt A → (A → Attempt B) → Attempt B
ok a >>= f = f a
err e >>= f = err e

abbrev pub ◌>>◌ : {B : Type 0} → Attempt (Unit {0}) → Attempt B → Attempt B
m >> k = m >>= λ _. k

abbrev pub guard : Bool → ServiceError → Attempt (Unit {0})
guard true e = ok tt
guard false e = err e

-- The audit entry of a row, with the snapshots as values: what is stored is their redacted JSON, and
-- a compacted summary.
pub record AuditEntry (R : Type 0) : Type 0 where
  pub request_id : String
  pub actor : Actor
  pub entity_type : String
  pub entity_id : ℕ
  pub action : String
  pub before : Option R
  pub after : R
  pub input_hash : String
  pub algorithm_version : String
  pub simulation_time : Option ℕ
  pub duration_ms : ℕ
  pub path_summary : String
  pub created_at : ℕ

-- what `First` gives: a row, gorm.ErrRecordNotFound, or another error
pub data Fetch (R : Type 0) : Type 0 where
  found : R → Fetch R
  no_record : Fetch R
  broken : Fetch R

-- an error of any kind becomes `e`
abbrev pub found_or : {R : Type 0} → Fetch R → ServiceError → Attempt R
found_or (found r) e = ok r
found_or no_record e = err e
found_or broken e = err e

-- what `Create` gives: the id of the new row, gorm.ErrDuplicatedKey, or another error
pub data Created (DB : Type 0) : Type 0 where
  created : ℕ → DB → Created DB
  duplicated : Created DB
  not_created : Created DB

-- no value, of whatever kind the failure was, becomes `e`
abbrev pub some_or : {A : Type 0} → Option A → ServiceError → Attempt A
some_or (some a) e = ok a
some_or none e = err e

-- One table `R` and the audit log `E` in a database whose states are `DB`. `rows` and `log` are what
-- a state holds; `none` is an error of the driver.
pub record Database (DB R E : Type 0) : Type 0 where
  pub rows : DB → List R
  pub log : DB → List E
  -- `Where(test).First(&row)`
  pub first : (R → Bool) → DB → Fetch R
  -- `Where(test).Updates(change)`, with RowsAffected
  pub update : (R → Bool) → (R → R) → DB → Option (ℕ × DB)
  -- the primary key of a row
  pub key : R → ℕ
  -- `Create(&row)`, where the row is a function of the id that the database gives it
  pub create : (ℕ → R) → DB → Created DB
  -- `Create(&entry)` in the audit log
  pub append : E → DB → Option DB
  -- whether the state can be committed
  pub commits : DB → Bool

-- the rows that pass a test
abbrev pub count_where : {R : Type 0} → (R → Bool) → List R → ℕ
count_where test [] = 0
count_where test (r ∷ rows) =
    let others = count_where test rows in if test r then others + 1 else others

abbrev pub change_where : {R : Type 0} → (R → Bool) → (R → R) → R → R
change_where test change r = if test r then change r else r

pub record IsDatabase {DB R E : Type 0} (d : Database DB R E) : Type 0 where
  pub first_found :
      (test : R → Bool) (db : DB) (r : R)
      → d.first test db ≡ found r
      → Memᴰ r (d.rows db) × (test r ≡ true)
  pub update_rows :
      (test : R → Bool) (change : R → R) (db db' : DB) (n : ℕ)
      → d.update test change db ≡ some (n, db')
      → (d.rows db' ≡ map (change_where test change) (d.rows db))
        × (d.log db' ≡ d.log db)
        × (n ≡ count_where test (d.rows db))
  -- The key of a new row is one that no row has.
  pub create_row :
      (make : ℕ → R) (db db' : DB) (id : ℕ)
      → d.create make db ≡ created id db'
      → (d.rows db' ≡ make id ∷ d.rows db)
        × (d.log db' ≡ d.log db)
        × ((r : R) → Memᴰ r (d.rows db) → d.key r ≢ id)
  pub append_log :
      (entry : E) (db db' : DB)
      → d.append entry db ≡ some db'
      → (d.rows db' ≡ d.rows db) × (d.log db' ≡ entry ∷ d.log db)

module _ {DB R E : Type 0} (d : Database DB R E) where
  -- WithinTransaction: an error of the work, or of the commit, leaves the database as it was.
  abbrev pub within_transaction : DB → Attempt DB → Attempt DB × DB
  within_transaction db (err e) = (err e, db)
  within_transaction db (ok db') = if d.commits db' then (ok db', db') else (err driver, db)

  -- recordAudit
  abbrev pub record_audit : E → DB → Attempt DB
  record_audit entry db = elim (d.append entry db) [ none ↦ err internal | some db' ↦ ok db' ]

  -- An update that has to change one row (RowsAffected): the errors of the driver become `refused`.
  abbrev pub update_one : (R → Bool) → (R → R) → ServiceError → ServiceError → DB → Attempt DB
  update_one test change refused unchanged db = elim (d.update test change db) [
    | none ↦ err refused
    | some (n, db') ↦ if n == 1 then ok db' else err unchanged
  ]

  -- an update with its audit entry, in one transaction
  abbrev pub audited : (R → Bool) → (R → R) → ServiceError → ServiceError → E → DB → Attempt DB × DB
  audited test change refused unchanged entry db =
      within_transaction db
        (update_one test change refused unchanged db >>= λ changed. record_audit entry changed)

  -- A new row: a duplicate is a conflict, whatever else fails is internal.
  abbrev pub create_one : (ℕ → R) → DB → Attempt (ℕ × DB)
  create_one make db = elim (d.create make db) [
    | created id db' ↦ ok (id, db')
    | duplicated ↦ err conflict
    | not_created ↦ err internal
  ]

  -- WithinTransaction, for work that gives the id of a new row; an error of the commit is internal.
  abbrev pub within_creation : DB → Attempt (ℕ × DB) → Attempt ℕ × DB
  within_creation db (err e) = (err e, db)
  within_creation db (ok (id, db')) = if d.commits db' then (ok id, db') else (err internal, db)

  -- the work: the new row, and its audit entry
  abbrev pub create_logged : (ℕ → R) → (ℕ → E) → DB → Attempt (ℕ × DB)
  create_logged make entry db = do
    (id, db1) ← create_one make db
    db2 ← record_audit (entry id) db1
    ok (id, db2)

  -- a new row with its audit entry, in one transaction
  abbrev pub created_audited : (ℕ → R) → (ℕ → E) → DB → Attempt ℕ × DB
  created_audited make entry db = within_creation db (create_logged make entry db)

  -- The answer that is built of the new row itself.
  abbrev pub answer_created : (ℕ → R) → Attempt ℕ × DB → Attempt R × DB
  answer_created make (ok id, db) = (ok (make id), db)
  answer_created make (err e, db) = (err e, db)

  -- GetByID with its errors
  abbrev pub load : (R → Bool) → DB → Attempt R
  load test db = elim (d.first test db) [
    | found r ↦ ok r
    | no_record ↦ err not_found
    | broken ↦ err internal
  ]

  -- The answer of a method whose transaction has ended: the row that it left, or its error.
  abbrev pub answer : (ServiceError → ServiceError) → (R → Bool) → Attempt DB × DB → Attempt R × DB
  answer wrap test (ok _, db) = (load test db, db)
  answer wrap test (err e, db) = (err (wrap e), db)
