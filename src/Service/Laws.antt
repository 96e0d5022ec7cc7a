-- ===== src/Service/Laws.antt =====
-- An update, or a new row, with its audit entry is atomic.
use cert_rollover_impact_ass.Prelude.{
  List, [], ◌∷◌, map, Memᴰ, ℕ, ◌≡◌, ◌≢◌, ◌⊎◌, refl, sym, ap, subst, Bool, true, false, Option, none,
  some, inl, inr, arith, ◌==◌, ◌∙◌, if◌then◌else◌,
}
use mathlib.Core.List.Memᴰ
use cert_rollover_impact_ass.Service.{
  answer, Database, IsDatabase, ServiceError, Attempt, ok, err, driver, internal, ◌>>=◌, guard,
  some_or, change_where, count_where, within_transaction, record_audit, update_one, audited,
  Created, created, duplicated, not_created, conflict, create_one, create_logged, within_creation,
  created_audited, answer_created,
}

-- where a member of an image comes from
pub mem-map :
    {A B : Type 0} (g : A → B) (xs : List A) (y : B)
    → Memᴰ y (map g xs)
    → (x : A) × Memᴰ x xs × (y ≡ g x)
mem-map g [] y m = absurd (Memᴰ.not-nil m)
mem-map g (x ∷ xs) y (Memᴰ.head e) = (x, Memᴰ.head refl, e)
mem-map g (x ∷ xs) y (Memᴰ.tail m) = let (z, n, e) = mem-map g xs y m in (z, Memᴰ.tail n, e)

pub map-mem : {A B : Type 0} (g : A → B) (xs : List A) (x : A) → Memᴰ x xs → Memᴰ (g x) (map g xs)
map-mem g [] x m = absurd (Memᴰ.not-nil m)
map-mem g (y ∷ xs) x (Memᴰ.head e) = Memᴰ.head (ap g e)
map-mem g (y ∷ xs) x (Memᴰ.tail m) = Memᴰ.tail (map-mem g xs x m)

-- the parts of a chain that succeeded
pub >>=-inv :
    {A B : Type 0} (m : Attempt A) (f : A → Attempt B) (b : B)
    → (m >>= f) ≡ ok b
    → (a : A) × (m ≡ ok a) × (f a ≡ ok b)
>>=-inv (ok a) f b h = (a, refl, h)
>>=-inv (err e) f b h = cc

pub guard_lem : (b : Bool) (e : ServiceError) (u : Unit {0}) → guard b e ≡ ok u → b ≡ true
guard_lem true e u h = refl
guard_lem false e u h = cc

pub some_or_lem :
    {A : Type 0} (o : Option A) (e : ServiceError) (a : A) → some_or o e ≡ ok a → o ≡ some a
some_or_lem (some x) e a h = cc
some_or_lem none e a h = cc

module _ {DB R E : Type 0} (d : Database DB R E) (law : IsDatabase d) where
  -- the change made and logged, with one row changed
  pub record Changed (test : R → Bool) (change : R → R) (entry : E) (db db' : DB) : Type 0 where
    pub changed_rows : d.rows db' ≡ map (change_where test change) (d.rows db)
    pub one_row : count_where test (d.rows db) ≡ 1
    pub logged : d.log db' ≡ entry ∷ d.log db

  abbrev pub IsAtomic : (R → Bool) → (R → R) → E → DB → Attempt DB × DB → Type 0
  IsAtomic test change entry db (result, db') =
      ((e : ServiceError) × (result ≡ err e)) × (db' ≡ db)
      ⊎ (result ≡ ok db') × Changed test change entry db db'

  -- The answer leaves the state alone.
  pub answer_state :
      (wrap : ServiceError → ServiceError) (test : R → Bool) (r : Attempt DB × DB)
      → (answer d wrap test r).1 ≡ r.1
  answer_state wrap test (ok _, db) = refl
  answer_state wrap test (err e, db) = refl

  within_transaction-IsAtomic :
      (test : R → Bool) (change : R → R) (entry : E) (db : DB) (work : Attempt DB)
      → ((db' : DB) → work ≡ ok db' → Changed test change entry db db')
      → IsAtomic test change entry db (within_transaction d db work)
  within_transaction-IsAtomic test change entry db (err e) h = inl ((e, refl), refl)
  within_transaction-IsAtomic test change entry db (ok db') h = committed (d.commits db')
    where
      committed :
          (b : Bool) → IsAtomic test change entry db (if b then (ok db', db') else (err driver, db))
      committed true = inr (refl, h db' refl)
      committed false = inl ((driver, refl), refl)

  update_one_lem :
      (test : R → Bool) (change : R → R) (refused unchanged : ServiceError) (db db' : DB)
      → update_one d test change refused unchanged db ≡ ok db'
      → d.update test change db ≡ some (1, db')
  update_one_lem test change refused unchanged db db' h = of (d.update test change db) h
    where
      of :
          (o : Option (ℕ × DB))
          → (elim o [
            | none ↦ err refused
            | some (n, db1) ↦ if n == 1 then ok db1 else err unchanged
          ])
            ≡ ok db'
          → o ≡ some (1, db')
      of none h = cc
      of (some (n, db1)) h = ground arith

  record_audit_lem :
      (entry : E) (db db' : DB) → record_audit d entry db ≡ ok db' → d.append entry db ≡ some db'
  record_audit_lem entry db db' h = of (d.append entry db) h
    where
      of :
          (o : Option DB)
          → (elim o [ none ↦ err internal | some db1 ↦ ok db1 ]) ≡ ok db'
          → o ≡ some db'
      of none h = cc
      of (some db1) h = cc

  -- Either it failed and the database is as it was, or the change was made and logged.
  pub audited-IsAtomic :
      (test : R → Bool) (change : R → R) (refused unchanged : ServiceError) (entry : E) (db : DB)
      → IsAtomic test change entry db (audited d test change refused unchanged entry db)
  audited-IsAtomic test change refused unchanged entry db =
      within_transaction-IsAtomic test change entry db _ λ db' h.
        let (db1, u, a) =
          >>=-inv (update_one d test change refused unchanged db) (λ s. record_audit d entry s) db'
            h in
        let (rows1, log1, number) =
          law.update_rows test change db db1 1
            (update_one_lem test change refused unchanged db db1 u) in
        let (rows2, log2) = law.append_log entry db1 db' (record_audit_lem entry db1 db' a) in
        record { changed_rows = rows2 ∙ rows1; one_row = sym number; logged = rw (← log1) log2 }

  -- a row added and logged, under an id that was free
  pub record Added (make : ℕ → R) (entry : ℕ → E) (id : ℕ) (db db' : DB) : Type 0 where
    pub added_row : d.rows db' ≡ make id ∷ d.rows db
    pub added_entry : d.log db' ≡ entry id ∷ d.log db
    pub was_free : (r : R) → Memᴰ r (d.rows db) → d.key r ≢ id

  abbrev pub IsAtomicCreation : (ℕ → R) → (ℕ → E) → DB → Attempt ℕ × DB → Type 0
  IsAtomicCreation make entry db (result, db') =
      ((e : ServiceError) × (result ≡ err e)) × (db' ≡ db)
      ⊎ ((id : ℕ) × (result ≡ ok id) × Added make entry id db db')

  create_one_lem :
      (make : ℕ → R) (db db' : DB) (id : ℕ)
      → create_one d make db ≡ ok (id, db')
      → d.create make db ≡ created id db'
  create_one_lem make db db' id h = of (d.create make db) h
    where
      of :
          (c : Created DB)
          → let r : Attempt (ℕ × DB) = elim c [
            | created i s ↦ ok (i, s)
            | duplicated ↦ err conflict
            | not_created ↦ err internal
          ] in
            r ≡ ok (id, db') → c ≡ created id db'
      of (created i s) h = cc
      of duplicated h = cc
      of not_created h = cc

  create_logged-Added :
      (make : ℕ → R) (entry : ℕ → E) (db db' : DB) (id : ℕ)
      → create_logged d make entry db ≡ ok (id, db')
      → Added make entry id db db'
  create_logged-Added make entry db db' id h =
      let ((i, db1), c, h1) = >>=-inv (create_one d make db) _ (id, db') h in
      let (db2, a, h2) = >>=-inv (record_audit d (entry i) db1) _ (id, db') h1 in
      let (rows1, log1, free) = law.create_row make db db1 i (create_one_lem make db db1 i c) in
      let (rows2, log2) = law.append_log (entry i) db1 db2 (record_audit_lem (entry i) db1 db2 a) in
      let added : Added make entry i db db2 = record {
        added_row = rows2 ∙ rows1;
        added_entry = rw (← log1) log2;
        was_free = free;
      } in
      subst (λ x. Added make entry x.0 db x.1) (of h2) added
    where
      of : {x y : ℕ × DB} → ok x ≡ ok y → x ≡ y
      of e = cc

  -- Either it failed and the database is as it was, or the row was added and logged.
  pub created_audited-IsAtomic :
      (make : ℕ → R) (entry : ℕ → E) (db : DB)
      → IsAtomicCreation make entry db (created_audited d make entry db)
  created_audited-IsAtomic make entry db =
      go (create_logged d make entry db) (λ id db' h. create_logged-Added make entry db db' id h)
    where
      committed :
          (id : ℕ) (db' : DB) (b : Bool)
          → Added make entry id db db'
          → IsAtomicCreation make entry db (if b then (ok id, db') else (err internal, db))
      committed id db' true h = inr (id, refl, h)
      committed id db' false h = inl ((internal, refl), refl)

      go :
          (work : Attempt (ℕ × DB))
          → ((id : ℕ) (db' : DB) → work ≡ ok (id, db') → Added make entry id db db')
          → IsAtomicCreation make entry db (within_creation d db work)
      go (err e) h = inl ((e, refl), refl)
      go (ok (id, db')) h = committed id db' (d.commits db') (h id db' refl)

  -- What a creation leaves: the state as it was, or the new row, which is the answer.
  abbrev pub CreatedOr : (ℕ → R) → (ℕ → E) → DB → Attempt R × DB → Type 0
  CreatedOr make entry db (result, db') =
      (db' ≡ db) ⊎ ((id : ℕ) × (result ≡ ok (make id)) × Added make entry id db db')

  pub answer_created_lem :
      (make : ℕ → R) (entry : ℕ → E) (db : DB)
      → CreatedOr make entry db (answer_created d make (created_audited d make entry db))
  answer_created_lem make entry db =
      go (created_audited d make entry db) (created_audited-IsAtomic make entry db)
    where
      go :
          (r : Attempt ℕ × DB)
          → IsAtomicCreation make entry db r
          → CreatedOr make entry db (answer_created d make r)
      go (err e, db') (inl (_, same)) = inl same
      go (err e, db') (inr (id, bad, _)) = cc
      go (ok id, db') (inl ((e, bad), _)) = cc
      go (ok id, db') (inr (i, same, added)) =
          let here : id ≡ i = cc in inr (i, ap (λ n. ok (make n)) here, added)
