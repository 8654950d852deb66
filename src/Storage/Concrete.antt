-- ===== src/Storage/Concrete.antt =====
-- A database in memory for the examples of irrd/storage/database_handler.py: the objects by their keys, the journal, the rows
-- of the status table, and a clock.
use irrd.Base.{
  ℕ, String, Bool, false, ◌≡◌, refl, ap, ◌∙◌, Option, none, some, List, [], ◌∷◌, lookup, map,
  insert, lookup-insert, ◌==◌, string_eq, if◌then◌else◌, beq_refl, sym, ◌⊎◌, inl, inr, In, ◌++◌,
}
use irrd.Storage.{
  ObjectDict, CompositeKey, Removed, JournalEntry, StatusRow, Result, ok, fault, integrity_error,
}
use irrd.Storage.Holds.{Holds}
use irrd.Storage.Sql.{Sql}
use irrd.Storage.Tracker.{larger, smaller}
use irrd.Storage.Refine.{written, key_is, ObjectLaws}
use irrd.Storage.Journal.{JournalLaws}
use irrd.Storage.Seen.{StatusLaws}
use irrd.Storage.Known.{EntryLaws}
use irrd.Storage.Ranges.{RowLaws}
use irrd.Storage.Revalidate.{with_status}
use irrd.Rpki.All.{RouteRow}

pub record Tables : Type 0 where
  pub objects : CompositeKey → Option ObjectDict
  pub journal : List JournalEntry
  pub statuses : List (String × StatusRow)
  pub clock : ℕ
  pub routes : List RouteRow

abbrev pub find : CompositeKey → Tables → Option ObjectDict
find k db = db.objects k

abbrev write_rows : List ObjectDict → Tables → Result Tables
write_rows rows db = ok (record db { objects = λ k. written rows k (db.objects k) })

abbrev removed_of : Option ObjectDict → List Removed
removed_of none = []
removed_of (some d) = record { row = d; row_created = d.updated; row_updated = d.updated } ∷ []

abbrev delete_row : String → String → String → Tables → List Removed × Tables
delete_row pk object_class source db = (
  removed_of (db.objects (pk, (source, object_class))),
  record db { objects = λ k. if key_is k pk source object_class then none else db.objects k },
)

abbrev append_serial : Option ℕ → JournalEntry → Tables → Result (ℕ × Tables)
append_serial none entry db = fault integrity_error
append_serial (some n) entry db = ok (n, record db { journal = db.journal ++ entry ∷ [] })

abbrev append_entry : JournalEntry → Tables → Result (ℕ × Tables)
append_entry entry db = append_serial entry.serial_nrtm entry db

abbrev fold_serials : (ℕ → ℕ → ℕ) → String → List JournalEntry → Option ℕ
fold_serials f source [] = none
fold_serials f source (e ∷ entries) =
    let rest = fold_serials f source entries in
    if e.source == source
    then (elim e.serial_nrtm [
      | none ↦ rest
      | some n ↦ elim rest [ none ↦ some n | some m ↦ some (f n m) ]
    ])
    else rest

abbrev replace_row : Option StatusRow → String → (StatusRow → StatusRow) → Tables → Tables
replace_row none source f db = db
replace_row (some row) source f db = record db { statuses = insert source (f row) db.statuses }

abbrev set_row : String → (StatusRow → StatusRow) → Tables → Tables
set_row source f db = replace_row (lookup source db.statuses) source f db

abbrev new_row : Bool → StatusRow
new_row synchronised = record {
  serial_oldest_seen = none;
  serial_newest_seen = none;
  synchronised_serials = synchronised;
}

abbrev synchronised_row : Option StatusRow → Bool → StatusRow
synchronised_row none synchronised = new_row synchronised
synchronised_row (some row) synchronised = record row { synchronised_serials = synchronised }

abbrev upsert_row : String → Bool → Tables → Tables
upsert_row source synchronised db = record db {
  statuses = insert source (synchronised_row (lookup source db.statuses) synchronised) db.statuses;
}

abbrev pub tables_sql : Sql Tables
tables_sql = record {
  now = λ db. db.clock;
  insert_objects = write_rows;
  upsert_objects = write_rows;
  delete_object = delete_row;
  delete_object_by_uuid = λ pk db. ([], db);
  delete_objects_of_source = λ source db. record db {
    objects =
        λ k. let (pk, (source', class)) = k in if source' == source then none else db.objects k;
  };
  set_rpki_status = λ pks status db. record db { routes = map (with_status pks status) db.routes };
  set_scopefilter_status = λ pks status db. db;
  set_preference_status = λ pks status db. db;
  insert_suspended = λ o db. db;
  delete_suspended = λ pks db. db;
  insert_protected_name = λ pk source class db. db;
  copy_roas = λ roas db. db;
  delete_roas = λ db. db;
  lock_journal = λ db. db;
  max_serial_nrtm = λ source db. fold_serials larger source db.journal;
  min_serial_nrtm = λ source db. fold_serials smaller source db.journal;
  insert_journal = append_entry;
  delete_journal_before = λ time source db. db;
  delete_journal_of_source = λ source db. db;
  status = λ source db. lookup source db.statuses;
  upsert_status = upsert_row;
  set_data_updated = λ source db. db;
  set_serials = λ source a b c d.
      set_row source (λ row. record row { serial_oldest_seen = a; serial_newest_seen = b });
  set_last_error = λ source e db. db;
  set_newest_mirror = λ source n db. db;
  set_last_export = λ source n db. db;
  set_client_status = λ source c db. db;
  set_server_status = λ source c db. db;
  force_status_reload = λ source synchronised db. db;
  delete_status_of_source = λ source db. db;
  commit_transaction = λ db. db;
}

append_serial-find :
    (n : Option ℕ) (entry : JournalEntry) (db : Tables) (k : CompositeKey)
    → Holds (λ (m, db'). find k db' ≡ find k db) (append_serial n entry db)
append_serial-find none entry db k = tt
append_serial-find (some n) entry db k = refl

append_serial-given :
    (s : Option ℕ) (entry : JournalEntry) (n : ℕ) (db : Tables)
    → s ≡ some n
    → Holds (λ (m, db'). m ≡ n) (append_serial s entry db)
append_serial-given none entry n db e = tt
append_serial-given (some m) entry n db e = cc

pub tables_objects : ObjectLaws tables_sql find
tables_objects = record {
  upserted = λ rows db unique.
      (record db { objects = λ k. written rows k (db.objects k) }, refl, (λ k. refl));
  deleted = λ pk class source db k. refl;
  locked = λ db k. refl;
  journaled = λ entry db k. append_serial-find entry.serial_nrtm entry db k;
  protected = λ pk source class db k. refl;
}

pub tables_journal : JournalLaws tables_sql
tables_journal = record {
  inserted = λ entry n db e. append_serial-given entry.serial_nrtm entry n db e;
}

abbrev some_of : (StatusRow → StatusRow) → Option StatusRow → Option StatusRow
some_of f none = none
some_of f (some r) = some (f r)

replace_row-same :
    (o : Option StatusRow) (s : String) (f : StatusRow → StatusRow) (db : Tables) (row : StatusRow)
    → o ≡ some row
    → lookup s (replace_row o s f db).statuses ≡ some (f row)
replace_row-same none s f db row e = cc
replace_row-same (some r) s f db row e =
    lookup-insert s s (f r) db.statuses
    ∙ ap (λ b. if b then some (f r) else lookup s db.statuses) (beq_refl s)
    ∙ ap (λ o. some_of f o) e

replace_row-other :
    (o : Option StatusRow) (s s' : String) (f : StatusRow → StatusRow) (db : Tables)
    → (s == s') ≡ false
    → lookup s' (replace_row o s f db).statuses ≡ lookup s' db.statuses
replace_row-other none s s' f db e = refl
replace_row-other (some r) s s' f db e =
    lookup-insert s s' (f r) db.statuses
    ∙ ap (λ b. if b then some (f r) else lookup s' db.statuses) e

some_same : (a b : ℕ) → some a ≡ some b → a ≡ b
some_same a b e = cc

pub tables_status : StatusLaws tables_sql
tables_status = record {
  set_same = λ s a b c d db row e. replace_row-same (lookup s db.statuses) s _ db row e;
  set_other = λ s s' a b c d db e. replace_row-other (lookup s db.statuses) s s' _ db e;
}

-- The serials of the journal, by source
abbrev pub journal_serials : List JournalEntry → List (String × ℕ)
journal_serials [] = []
journal_serials (e ∷ entries) =
    let rest = journal_serials entries in
    elim e.serial_nrtm [ none ↦ rest | some n ↦ (e.source, n) ∷ rest ]

abbrev pub entries : Tables → List (String × ℕ)
entries db = journal_serials db.journal

abbrev cons_given : String → Option ℕ → List (String × ℕ) → List (String × ℕ)
cons_given s o rest = elim o [ none ↦ rest | some n ↦ (s, n) ∷ rest ]

given-In :
    (s : String) (o : Option ℕ) (n : ℕ) (p : String × ℕ)
    → o ≡ some n
    → In p (cons_given s o [])
    → (s ≡ p.0) × (n ≡ p.1)
given-In s none n p e m = cc
given-In s (some k) n p e (inl same) =
    (ap (λ q. q.0) same, sym (some_same k n e) ∙ ap (λ q. q.1) same)
given-In s (some k) n p e (inr none_left) = absurd none_left

-- One more entry in front
cons_given-In :
    (s : String) (o : Option ℕ) (xs ys : List (String × ℕ)) (p : String × ℕ)
    (new : List (String × ℕ))
    → (In p xs → In p ys ⊎ In p new)
    → In p (cons_given s o xs)
    → In p (cons_given s o ys) ⊎ In p new
cons_given-In s none xs ys p new h m = h m
cons_given-In s (some n) xs ys p new h (inl e) = inl (inl e)
cons_given-In s (some n) xs ys p new h (inr m) = elim (h m) [
  | inl old ↦ inl (inr old)
  | inr k ↦ inr k
]

journal_serials-append :
    (entries : List JournalEntry) (e : JournalEntry) (p : String × ℕ)
    → In p (journal_serials (entries ++ e ∷ []))
    → In p (journal_serials entries) ⊎ In p (cons_given e.source e.serial_nrtm [])
journal_serials-append [] e p m = inr m
journal_serials-append (x ∷ entries) e p m =
    cons_given-In x.source x.serial_nrtm _ _ p (cons_given e.source e.serial_nrtm [])
      (journal_serials-append entries e p) m

inserted-entry :
    (o : Option ℕ) (entry : JournalEntry) (db : Tables)
    → entry.serial_nrtm ≡ o
    → Holds
        (λ (n, db').
          (s : String) (k : ℕ)
          → In (s, k) (entries db')
          → In (s, k) (entries db) ⊎ ((entry.source ≡ s) × (n ≡ k)))
        (append_serial o entry db)
inserted-entry none entry db e = tt
inserted-entry (some n) entry db e = λ s k m.
    elim (journal_serials-append db.journal entry (s, k) m) [
      | inl old ↦ inl old
      | inr new ↦ inr (given-In entry.source entry.serial_nrtm n (s, k) e new)
    ]

pub tables_entries : EntryLaws tables_sql entries
tables_entries = record {
  inserted = λ entry db. inserted-entry entry.serial_nrtm entry db refl;
  locked = λ db. refl;
}

insert-same :
    (s : String) (row : StatusRow) (rows : List (String × StatusRow))
    → lookup s (insert s row rows) ≡ some row
insert-same s row rows =
    lookup-insert s s row rows ∙ ap (λ c. if c then some row else lookup s rows) (beq_refl s)

insert-other :
    (s s' : String) (row : StatusRow) (rows : List (String × StatusRow))
    → (s == s') ≡ false
    → lookup s' (insert s row rows) ≡ lookup s' rows
insert-other s s' row rows e =
    lookup-insert s s' row rows ∙ ap (λ c. if c then some row else lookup s' rows) e

pub tables_rows : RowLaws tables_sql
tables_rows = record {
  upserted = λ s b db. (
    synchronised_row (lookup s db.statuses) b,
    insert-same s (synchronised_row (lookup s db.statuses) b) db.statuses,
  );
  upserted_other =
      λ s s' b db e. insert-other s s' (synchronised_row (lookup s db.statuses) b) db.statuses e;
  dated = λ s s' db. refl;
  failed = λ s s' e db. refl;
  mirrored = λ s s' n db. refl;
  exported = λ s s' n db. refl;
  client = λ s s' c db. refl;
  server = λ s s' c db. refl;
}
