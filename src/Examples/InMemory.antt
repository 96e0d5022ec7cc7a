-- ===== src/Examples/InMemory.antt =====
-- A database in memory: a table and its audit log, as lists.
use cert_rollover_impact_ass.Prelude.{
  ℕ, ◌+◌, ◌≡◌, ◌<◌, refl, sym, Bool, true, some, List, [], ◌∷◌, map, Memᴰ, Memᴰ-cons, not-Memᴰ-nil,
  inl, inr, if◌then◌else◌, Bool-cases, arith, ltb,
}
use cert_rollover_impact_ass.Service.{
  Fetch, found, no_record, created, Database, IsDatabase, count_where, change_where,
}

pub record Table (R E : Type 0) : Type 0 where
  pub stored : List R
  pub entries : List E

module _ {R : Type 0} (key : R → ℕ) where
  unfoldable pub find_row : (R → Bool) → List R → Fetch R
  find_row test [] = no_record
  find_row test (r ∷ rest) = let others = find_row test rest in if test r then found r else others

  find_row_lem :
      (test : R → Bool) (rows : List R) (r : R)
      → find_row test rows ≡ found r
      → Memᴰ r rows × (test r ≡ true)
  unfolding find_row
  find_row_lem test [] r h = cc
  find_row_lem test (s ∷ rest) r h = elim (Bool-cases (test s)) [
    | inl e ↦
        let h' : found s ≡ found r = rw e at h in
        let same : s ≡ r = cc in (Memᴰ.head (sym same), rw (← same) e)
    | inr e ↦
        let h' : find_row test rest ≡ found r = rw e at h in
        let (m, t) = find_row_lem test rest r h' in (Memᴰ.tail m, t)
  ]

  -- a key above all that are taken
  unfoldable pub next_key : List R → ℕ
  next_key [] = 1
  next_key (r ∷ rows) = let rest = next_key rows in if ltb (key r) rest then rest else key r + 1

  next_key-above : (rows : List R) (r : R) → Memᴰ r rows → key r < next_key rows
  unfolding next_key
  next_key-above [] r m = absurd (not-Memᴰ-nil m)
  next_key-above (s ∷ rows) r m = elim ((Memᴰ-cons r s rows).0 m) [
    | inl e ↦ rw e (ground arith)
    | inr k ↦ let above = next_key-above rows r k in ground arith
  ]

  abbrev pub table : {E : Type 0} → Database (Table R E) R E
  table = record {
    rows = λ db. db.stored;
    log = λ db. db.entries;
    first = λ test db. find_row test db.stored;
    update = λ test change db. some (
      count_where test db.stored,
      record db { stored = map (change_where test change) db.stored },
    );
    key = key;
    create = λ make db.
        let id = next_key db.stored in created id (record db { stored = make id ∷ db.stored });
    append = λ entry db. some (record db { entries = entry ∷ db.entries });
    commits = λ db. true;
  }

  pub table-IsDatabase : {E : Type 0} → IsDatabase (table {E = E})
  table-IsDatabase {E} = record {
    first_found = λ test db r h. find_row_lem test db.stored r h;
    update_rows = λ test change db db' n h.
        let same : record db { stored = map (change_where test change) db.stored } ≡ db' = cc in
        let number : count_where test db.stored ≡ n = cc in rw (← same) (refl, refl, sym number);
    create_row = λ make db db' id h.
        let new : next_key db.stored ≡ id = cc in
        let same : record db { stored = make (next_key db.stored) ∷ db.stored } ≡ db' = cc in
        rw (← same, ← new)
          (refl, refl, λ r m e. let above = next_key-above db.stored r m in absurd (omega arith));
    append_log = λ entry db db' h.
        let same : record db { entries = entry ∷ db.entries } ≡ db' = cc in
        rw (← same) (refl, refl);
  }
