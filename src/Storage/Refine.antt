-- ===== src/Storage/Refine.antt =====
-- irrd/storage/database_handler.py: the buffered writes of `DatabaseHandler` against a table that is written at once.
pub mod Kept
pub mod Flush
pub mod Run
use irrd.Base.{
  ℕ, String, Bool, true, false, not, ◌&&◌, ◌||◌, ◌≡◌, refl, sym, ap, subst, ◌∙◌, Option, none, some,
  List, [], ◌∷◌, ◌++◌, map, length, ltb, is_nil, contains, distinct, distinct-add, ◌==◌, string_eq,
  if◌then◌else◌, Bool-cases, inl, inr, arith,
}
use irrd.NrtmOperation.{DatabaseOperation, add_or_update, delete}
use irrd.Storage.{
  Result, ok, fault, ◌>>=◌, ObjectDict, CompositeKey, composite_key, RpslObject, JournalEntry,
  JournalEntryOrigin, Removed,
}
use irrd.Storage.Holds.{
  Holds-ok, Holds, Holds-bind, Holds-last, Holds-if, Holds_mono, Holds-all, Holds_both,
}
use irrd.Storage.Sql.{Sql, HandlerSettings}
use irrd.Storage.Tracker.{Tracker, record_operation, write_journal, lock}
use irrd.Storage.Handler.{
  Handler, Buffered, max_records_buffer, journal, journal_buffer, object_dict, pk_source, schedule,
  flush_rpsl_object_writing_buffer, upsert_rpsl_object, check_write_permitted,
  check_single_row_match, write_objects, is_visible_dict,
}
use irrd.Storage.Operations.{
  delete_rpsl_object, or_of, protects, after_delete, protect_name, flushed,
}
use irrd.Storage.Buffer.{
  buffered_key, Cleared, flush-Cleared, check-keeps, join-pending, map-append_one,
}
use irrd.Storage.Reachable.{Unique, row_of, distinct-Unique}

-- Whether a row has a key
abbrev pub key_is : CompositeKey → String → String → String → Bool
key_is (pk, (source, object_class)) pk' source' object_class' =
    pk == pk' && (source == source' && object_class == object_class')

abbrev pub has_key : CompositeKey → ObjectDict → Bool
has_key k d = key_is k d.rpsl_pk d.source d.object_class

-- What a table has for a key after rows are written, the last one over the others
abbrev pub written : List ObjectDict → CompositeKey → Option ObjectDict → Option ObjectDict
written [] k old = old
written (d ∷ rows) k old = written rows k (if has_key k d then some d else old)

-- What the statements do to the table of the objects, where `find` is the query for one row by its key: an upsert
-- of rows with different keys writes all of them, a deletion removes one row, and the other statements leave
-- the table as it is.
pub record ObjectLaws {Db : Type 0} (sql : Sql Db) (find : CompositeKey → Db → Option ObjectDict)
    : Type 0 where
  pub upserted :
      (rows : List ObjectDict) (db : Db)
      → Unique (map composite_key rows)
      → (db' : Db) × (sql.upsert_objects rows db ≡ ok db')
        × ((k : CompositeKey) → find k db' ≡ written rows k (find k db))
  pub deleted :
      (pk object_class source : String) (db : Db) (k : CompositeKey)
      → (let (rows, db') = sql.delete_object pk object_class source db in
          find k db' ≡ (if key_is k pk source object_class then none else find k db))
  pub locked : (db : Db) (k : CompositeKey) → find k (sql.lock_journal db) ≡ find k db
  pub journaled :
      (entry : JournalEntry) (db : Db) (k : CompositeKey)
      → Holds (λ (n, db'). find k db' ≡ find k db) (sql.insert_journal entry db)
  pub protected :
      (pk source object_class : String) (db : Db) (k : CompositeKey)
      → find k (sql.insert_protected_name pk source object_class db) ≡ find k db

-- The table that is written at once: the object of each key
abbrev pub Table : Type 0
Table = CompositeKey → Option RpslObject

-- A row holds an object as it was at some time.
abbrev pub Stored : Option ObjectDict → Option RpslObject → Type 0
Stored none none = Unit
Stored none (some o) = ⊥
Stored (some d) none = ⊥
Stored (some d) (some o) = (created : Option ℕ) × (time : ℕ) × (d ≡ object_dict o created time)

pub data Write : Type 0 where
  upsert : RpslObject → JournalEntryOrigin → Option ℕ → Option ℕ → Write
  remove :
      JournalEntryOrigin → Option RpslObject → String → String → String → Option ℕ → Bool → Write

abbrev pub written_at_once : Write → Table → Table
written_at_once (upsert o origin serial created) table k =
    if key_is k o.pk o.source o.rpsl_object_class then some o else table k
written_at_once (remove origin o source pk object_class serial protect) table k =
    if key_is k (or_of pk o (λ o'. o'.pk)) (or_of source o (λ o'. o'.source))
      (or_of object_class o (λ o'. o'.rpsl_object_class))
    then none
    else table k

abbrev pub all_at_once : List Write → Table → Table
all_at_once [] table = table
all_at_once (w ∷ writes) table = all_at_once writes (written_at_once w table)

module _ {Db : Type 0} (sql : Sql Db) (conf : HandlerSettings) where
  abbrev pub write : Write → Handler Db → Result (Handler Db)
  write (upsert o origin serial created) = upsert_rpsl_object sql conf o origin false serial created
  write (remove origin o source pk object_class serial protect) =
      delete_rpsl_object sql conf origin o source pk object_class serial protect

  unfoldable pub run_writes : List Write → Handler Db → Result (Handler Db)
  run_writes [] h = ok h
  run_writes (w ∷ writes) h = write w h >>= run_writes writes

pub written-append_one :
    (rows : List ObjectDict) (d : ObjectDict) (k : CompositeKey) (old : Option ObjectDict)
    → written (rows ++ d ∷ []) k old ≡ (if has_key k d then some d else written rows k old)
written-append_one [] d k old = refl
written-append_one (r ∷ rows) d k old = written-append_one rows d k _
