-- ===== src/Storage/Operations.antt =====
-- irrd/storage/database_handler.py: the deletions, suspensions, records and commits of `DatabaseHandler`.
use irrd.Base.{
  ℕ, String, Bool, false, not, ◌&&◌, Option, none, some, List, [], ◌∷◌, is_nil, ◌==◌, string_eq,
  if◌then◌else◌, contains,
}
use irrd.Nrtm4.Status.{ClientStatus}
use irrd.NrtmOperation.{delete}
use irrd.Storage.{
  JournalEntryOrigin, suspension, RpslObject, ObjectDict, Removed, SuspendedObject, ServerStatus,
  Result, ok, fault, no_such_object, ◌>>=◌,
}
use irrd.Storage.Sql.{Sql, HandlerSettings, settings_synchronised}
use irrd.Storage.Tracker as Tracking
use irrd.Storage.Tracker.{Tracker, no_changes, finalise_transaction, publish_event_stream}
use irrd.Storage.Handler.{
  Handler, Published, check_write_permitted, check_single_row_match, modified, on_db, journal,
  track, flush_rpsl_object_writing_buffer, flush_roa_writing_buffer, start_transaction,
}

-- `PROTECTED_NAME_OBJECT_CLASSES`
abbrev pub protected_name_classes : List String
protected_name_classes = "person" ∷ "role" ∷ "mntner" ∷ []

-- `source`, `rpsl_pk` or `object_class`: what was given, or else what the object has
abbrev pub or_of : String → Option RpslObject → (RpslObject → String) → String
or_of given none f = given
or_of given (some o) f = if given == "" then f o else given

abbrev pub protects : Bool → Option RpslObject → Bool
protects protect none = false
protects protect (some o) = protect && contains protected_name_classes o.rpsl_object_class

module _ {Db : Type 0} (sql : Sql Db) (conf : HandlerSettings) where
  abbrev pub flushed : Handler Db → Result (Handler Db)
  flushed h = check_write_permitted h >>= flush_rpsl_object_writing_buffer sql conf

  -- A query within the transaction, which sees the objects of the buffer after a flush of it
  unfoldable pub execute_query :
      {R : Type 0} → (Db → List R) → Bool → Handler Db → Result (Handler Db × List R)
  execute_query query flush_rpsl_buffer h =
      (if not h.readonly && flush_rpsl_buffer
        then flush_rpsl_object_writing_buffer sql conf h
        else ok h)
      >>= λ h'. ok (h', query h'.db)

  -- The name of an object stays protected after its deletion.
  abbrev pub protect_name : Bool → ObjectDict → Handler Db → Handler Db
  protect_name b d h =
      if b
      then on_db sql conf (sql.insert_protected_name d.rpsl_pk d.source d.object_class) h
      else h

  abbrev pub after_delete :
      Bool → JournalEntryOrigin → Option ℕ → Option Removed → Handler Db → Result (Handler Db)
  after_delete protect origin source_serial none h = ok h
  after_delete protect origin source_serial (some r) h =
      let d = r.row in
      journal sql conf delete d.rpsl_pk d.source d.object_class d.object_text origin source_serial h
      >>= λ h'.
          ok (protect_name protect d (modified d.object_class d.source d.prefix (some origin) h'))

  -- A text that is not given is empty.
  unfoldable pub delete_rpsl_object :
      JournalEntryOrigin
      → Option RpslObject
      → String
      → String
      → String
      → Option ℕ
      → Bool
      → Handler Db
      → Result (Handler Db)
  delete_rpsl_object origin o source rpsl_pk object_class source_serial protect_rpsl_name h =
      let source' = or_of source o (λ o'. o'.source) in
      let rpsl_pk' = or_of rpsl_pk o (λ o'. o'.pk) in
      let object_class' = or_of object_class o (λ o'. o'.rpsl_object_class) in
      flushed h >>= λ h'.
      let (rows, db) = sql.delete_object rpsl_pk' object_class' source' h'.db in
      check_single_row_match rows >>= λ row.
      after_delete (protects protect_rpsl_name o) origin source_serial row (record h' { db = db })

  abbrev pub suspended_of : Removed → SuspendedObject
  suspended_of r =
      let d = r.row in
      record {
        rpsl_pk = d.rpsl_pk;
        source = d.source;
        object_class = d.object_class;
        object_text = d.object_text;
        mntners = d.mnt_by;
        original_created = r.row_created;
        original_updated = r.row_updated;
      }

  abbrev pub after_suspend : Option Removed → Handler Db → Result (Handler Db)
  after_suspend none h = fault no_such_object
  after_suspend (some r) h =
      let d = r.row in
      journal sql conf delete d.rpsl_pk d.source d.object_class d.object_text suspension none
        (on_db sql conf (sql.insert_suspended (suspended_of r)) h)
      >>= λ h'. ok (modified d.object_class d.source d.prefix (some suspension) h')

  unfoldable pub suspend_rpsl_object : String → Handler Db → Result (Handler Db)
  suspend_rpsl_object pk_uuid h = flushed h >>= λ h'.
      let (rows, db) = sql.delete_object_by_uuid pk_uuid h'.db in
      check_single_row_match rows >>= λ row. after_suspend row (record h' { db = db })

  unfoldable pub delete_suspended_rpsl_objects : List String → Handler Db → Result (Handler Db)
  delete_suspended_rpsl_objects pk_uuids h =
      flushed h >>= λ h'. ok (on_db sql conf (sql.delete_suspended pk_uuids) h')

  unfoldable pub delete_journal_entries_before_date : ℕ → String → Handler Db → Result (Handler Db)
  delete_journal_entries_before_date timestamp source h =
      flushed h >>= λ h'. ok (on_db sql conf (sql.delete_journal_before timestamp source) h')

  -- `mapping` has the classes of `OBJECT_CLASS_MAPPING`.
  unfoldable pub delete_all_rpsl_objects_with_journal :
      List String → String → Bool → Handler Db → Result (Handler Db)
  delete_all_rpsl_objects_with_journal mapping source journal_guaranteed_empty h =
      flushed h >>= λ h'.
      let objects = sql.delete_objects_of_source source h'.db in
      let journals =
        if journal_guaranteed_empty then objects else sql.delete_journal_of_source source objects in
      ok (record h' {
        db = sql.delete_status_of_source source journals;
        changed_objects_tracker =
            Tracking.all_object_classes_updated mapping h'.changed_objects_tracker;
      })

  unfoldable pub delete_all_roa_objects : Handler Db → Result (Handler Db)
  delete_all_roa_objects h = check_write_permitted h >>= λ h'.
      ok (record (on_db sql conf sql.delete_roas h') { roa_insert_buffer = [] })

  -- The serials that were seen are forgotten with it.
  unfoldable pub set_force_reload : String → Handler Db → Result (Handler Db)
  set_force_reload source h = check_write_permitted h >>= λ h'.
      ok (on_db sql conf (sql.force_status_reload source (settings_synchronised conf source)) h')

  unfoldable pub record_serial_newest_mirror : String → ℕ → Handler Db → Result (Handler Db)
  record_serial_newest_mirror source serial =
      track (Tracking.record_serial_newest_mirror source serial)

  unfoldable pub record_serial_seen : String → ℕ → Handler Db → Result (Handler Db)
  record_serial_seen source serial = track (Tracking.record_serial_seen source serial)

  unfoldable pub record_mirror_error : String → String → Handler Db → Result (Handler Db)
  record_mirror_error source error = track (Tracking.record_mirror_error source error)

  unfoldable pub record_serial_exported : String → ℕ → Handler Db → Result (Handler Db)
  record_serial_exported source serial = track (Tracking.record_serial_exported source serial)

  unfoldable pub record_nrtm4_client_status :
      String → ClientStatus → Handler Db → Result (Handler Db)
  record_nrtm4_client_status source status =
      track (Tracking.record_nrtm4_client_status source status)

  unfoldable pub record_nrtm4_server_status :
      String → ServerStatus → Handler Db → Result (Handler Db)
  record_nrtm4_server_status source status =
      track (Tracking.record_nrtm4_server_status source status)

  abbrev pub finalise : Handler Db → Handler Db
  finalise h =
      let (t, db) = finalise_transaction sql conf h.status_tracker h.db in
      record h { status_tracker = t; db = db }

  -- The first of the two commits where journaling is disabled
  abbrev pub intermediate_commit : Handler Db → Handler Db
  intermediate_commit h =
      if h.journaling_enabled
      then h
      else (let db = sql.commit_transaction h.db in record h { db = db; committed = db })

  -- `update` is `update_route_preference_status` of irrd/routepref/routepref.py.
  abbrev pub pre_commit :
      (List String → Handler Db → Result (Handler Db)) → Handler Db → Result (Handler Db)
  pre_commit update h =
      let prefixes = h.changed_objects_tracker.prefixes_for_routepref in
      if is_nil prefixes then ok h else update prefixes h

  abbrev pub close_transaction : Handler Db → Handler Db × Published
  close_transaction h =
      let told : Published = record {
        event_stream = publish_event_stream sql conf h.status_tracker;
        signal_reload = h.changed_objects_tracker.object_classes;
      } in
      (
        start_transaction
            (record h { db = sql.commit_transaction h.db; changed_objects_tracker = no_changes }),
        told,
      )

  unfoldable pub commit :
      (List String → Handler Db → Result (Handler Db))
      → Handler Db
      → Result (Handler Db × Published)
  commit update h =
      flushed h
      >>= flush_roa_writing_buffer sql conf
      >>= (λ h'. pre_commit update (intermediate_commit (finalise h')))
      >>= λ h'. ok (close_transaction h')
