-- ===== src/Storage/Handler.antt =====
-- irrd/storage/database_handler.py: `DatabaseHandler`, without the updates of statuses.
use irrd.Base.{
  ℕ, String, Bool, true, not, ◌&&◌, ◌||◌, Option, none, some, List, [], ◌∷◌, ◌++◌, is_nil, map, ◌+◌,
  ◌-◌, string_eq, ltb, if◌then◌else◌, contains, add, length,
}
use irrd.Text.{append}
use irrd.NrtmOperation.{DatabaseOperation, add_or_update}
use irrd.Storage.{
  JournalEntryOrigin, RpslObject, ObjectDict, Address, Removed, Roa, Result, ok, fault,
  readonly_handler, multiple_rows, ◌>>=◌, object_is_visible,
}
use irrd.Storage.Sql.{Sql, HandlerSettings}
use irrd.Storage.Tracker as Tracking
use irrd.Storage.Tracker.{
  Tracker, ChangedObjects, no_changes, object_modified, record_operation, finalise_transaction,
}

abbrev pub Buffered : Type 0
Buffered = ObjectDict × (JournalEntryOrigin × Option ℕ)

-- The handler with the database as its transaction sees it, and as it was when the transaction started
pub record Handler (Db : Type 0) : Type 0 where
  pub readonly : Bool
  pub journaling_enabled : Bool
  pub status_tracker : Tracker
  pub changed_objects_tracker : ChangedObjects
  pub rpsl_pk_source_seen : List String
  pub rpsl_upsert_buffer : List Buffered
  pub roa_insert_buffer : List Roa
  pub rpsl_guaranteed_no_existing : Bool
  pub db : Db
  pub committed : Db

-- `MAX_RECORDS_BUFFER_BEFORE_INSERT`
abbrev pub max_records_buffer : ℕ
max_records_buffer = 15000

-- What a commit tells other processes: the sources with new serials, and the classes to preload again
pub record Published : Type 0 where
  pub event_stream : List String
  pub signal_reload : List String

abbrev pub is_visible_dict : ObjectDict → Bool
is_visible_dict d = object_is_visible d.rpki d.scopefilter d.preference

abbrev pub pk_source : String → String → String
pk_source pk source = append pk (append "-" source)

abbrev pub address_text : Option Address → Option String
address_text none = none
address_text (some a) = some a.text

abbrev pub size_between : Option Address → Option Address → Option ℕ
size_between (some first) (some last) = some (last.int - first.int + 1)
size_between _ _ = none

abbrev pub object_dict : RpslObject → Option ℕ → ℕ → ObjectDict
object_dict o created update_time = record {
  rpsl_pk = o.pk;
  source = o.source;
  object_class = o.rpsl_object_class;
  mnt_by = o.mnt_by;
  object_text = o.render_rpsl_text update_time;
  ip_version = o.ip_version;
  ip_first = address_text o.ip_first;
  ip_last = address_text o.ip_last;
  ip_size = size_between o.ip_first o.ip_last;
  prefix = o.prefix;
  prefix_length = o.prefix_length;
  asn_first = o.asn_first;
  asn_last = o.asn_last;
  rpki = o.rpki;
  scopefilter = o.scopefilter;
  preference = o.preference;
  updated = update_time;
  created = created;
}

-- Whether one row matched; more than one is a `ValueError`.
abbrev pub check_single_row_match : List Removed → Result (Option Removed)
check_single_row_match [] = ok none
check_single_row_match (r ∷ []) = ok (some r)
check_single_row_match (r ∷ s ∷ rest) = fault multiple_rows

module _ {Db : Type 0} where
  abbrev pub check_write_permitted : Handler Db → Result (Handler Db)
  check_write_permitted h = if h.readonly then fault readonly_handler else ok h

  abbrev pub start_transaction : Handler Db → Handler Db
  start_transaction h = record h {
    status_tracker = Tracking.fresh h.journaling_enabled;
    rpsl_pk_source_seen = [];
    rpsl_upsert_buffer = [];
    roa_insert_buffer = [];
    rpsl_guaranteed_no_existing = true;
    committed = h.db;
  }

  -- A reading handler starts no transaction.
  unfoldable pub init : HandlerSettings → Bool → Db → Handler Db
  init conf readonly db = record {
    readonly = conf.readonly_standby || readonly;
    journaling_enabled = not readonly;
    status_tracker = Tracking.fresh (not readonly);
    changed_objects_tracker = no_changes;
    rpsl_pk_source_seen = [];
    rpsl_upsert_buffer = [];
    roa_insert_buffer = [];
    rpsl_guaranteed_no_existing = true;
    db = db;
    committed = db;
  }

  unfoldable pub set_journaling : Bool → Handler Db → Handler Db
  set_journaling enabled h = record h {
    journaling_enabled = enabled;
    status_tracker = record (h.status_tracker) { journaling_enabled = enabled };
  }

  -- `rollback`, with `start_transaction`
  unfoldable pub rollback : Handler Db → Handler Db
  rollback h = start_transaction (record h {
    rpsl_upsert_buffer = [];
    rpsl_pk_source_seen = [];
    status_tracker = Tracking.reset h.status_tracker;
    changed_objects_tracker = no_changes;
    db = h.committed;
  })

  abbrev pub track : (Tracker → Tracker) → Handler Db → Result (Handler Db)
  track f h =
      check_write_permitted h >>= λ h'. ok (record h' { status_tracker = f h'.status_tracker })

  abbrev pub modified :
      String → String → Option String → Option JournalEntryOrigin → Handler Db → Handler Db
  modified object_class source prefix origin h = record h {
    changed_objects_tracker =
        object_modified object_class source prefix origin h.changed_objects_tracker;
  }

  unfoldable pub insert_roa_object : Roa → Handler Db → Result (Handler Db)
  insert_roa_object roa h = check_write_permitted h >>= λ h'.
      ok (record h' { roa_insert_buffer = h'.roa_insert_buffer ++ roa ∷ [] })

module _ {Db : Type 0} (sql : Sql Db) (conf : HandlerSettings) where
  abbrev pub on_db : (Db → Db) → Handler Db → Handler Db
  on_db f h = record h { db = f h.db }

  unfoldable pub journal :
      DatabaseOperation
      → String
      → String
      → String
      → String
      → JournalEntryOrigin
      → Option ℕ
      → Handler Db
      → Result (Handler Db)
  journal operation rpsl_pk source object_class object_text origin source_serial h =
      record_operation sql conf operation rpsl_pk source object_class object_text origin
        source_serial h.status_tracker h.db
      >>= λ (t, db). ok (record h { status_tracker = t; db = db })

  unfoldable pub journal_buffer : List Buffered → Handler Db → Result (Handler Db)
  journal_buffer [] h = ok h
  journal_buffer ((d, (origin, source_serial)) ∷ rest) h =
      if is_visible_dict d
      then journal add_or_update d.rpsl_pk d.source d.object_class d.object_text origin
          source_serial h
        >>= journal_buffer rest
      else journal_buffer rest h

  abbrev pub write_objects : Bool → List ObjectDict → Db → Result Db
  write_objects guaranteed rows db =
      if guaranteed then sql.insert_objects rows db else sql.upsert_objects rows db

  unfoldable pub flush_rpsl_object_writing_buffer : Handler Db → Result (Handler Db)
  flush_rpsl_object_writing_buffer h =
      if is_nil h.rpsl_upsert_buffer
      then ok h
      else check_write_permitted h
        >>= (λ h'.
            write_objects h'.rpsl_guaranteed_no_existing (map (λ (d, o). d) h'.rpsl_upsert_buffer)
              h'.db)
        >>= (λ db. journal_buffer h.rpsl_upsert_buffer (record h { db = db }))
        >>= (λ h'. ok (record h' { rpsl_pk_source_seen = []; rpsl_upsert_buffer = [] }))

  unfoldable pub flush_roa_writing_buffer : Handler Db → Result (Handler Db)
  flush_roa_writing_buffer h =
      if is_nil h.roa_insert_buffer
      then ok h
      else check_write_permitted h >>= λ h'.
          ok (record (on_db (sql.copy_roas h'.roa_insert_buffer) h') { roa_insert_buffer = [] })

  -- The row, its key and its class join the buffer and the two trackers.
  unfoldable pub schedule :
      RpslObject → JournalEntryOrigin → Option ℕ → Option ℕ → Handler Db → Handler Db
  schedule o origin source_serial created h =
      modified o.rpsl_object_class o.source o.prefix none (record h {
        rpsl_upsert_buffer =
            h.rpsl_upsert_buffer
            ++ (object_dict o created (sql.now h.db), (origin, source_serial)) ∷ [];
        rpsl_pk_source_seen = add (pk_source o.pk o.source) h.rpsl_pk_source_seen;
      })

  unfoldable pub upsert_rpsl_object :
      RpslObject
      → JournalEntryOrigin
      → Bool
      → Option ℕ
      → Option ℕ
      → Handler Db
      → Result (Handler Db)
  upsert_rpsl_object o origin guaranteed source_serial created h =
      check_write_permitted h
      >>= (λ h'.
          let g = record h' {
            rpsl_guaranteed_no_existing = guaranteed && h'.rpsl_guaranteed_no_existing;
          } in
          if contains g.rpsl_pk_source_seen (pk_source o.pk o.source)
          then flush_rpsl_object_writing_buffer g
          else ok g)
      >>= (λ g.
          let s = schedule o origin source_serial created g in
          if ltb max_records_buffer (length s.rpsl_upsert_buffer)
          then flush_rpsl_object_writing_buffer s
          else ok s)
