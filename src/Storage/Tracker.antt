-- ===== src/Storage/Tracker.antt =====
-- irrd/storage/database_handler.py: `DatabaseStatusTracker` and `SessionChangedObjectsTracker`.
use irrd.Base.{
  ℕ, String, Bool, true, false, not, ◌&&◌, Option, none, some, List, [], ◌∷◌, map, ◌+◌, ◌==◌,
  string_eq, nat_eq, leb, if◌then◌else◌, lookup, insert, remove, contains, add, update, take,
}
use irrd.Nrtm4.Status.{ClientStatus}
use irrd.NrtmOperation.{DatabaseOperation}
use irrd.Conf.{source_settings}
use irrd.Storage.{
  JournalEntryOrigin, route_preference, JournalEntry, ServerStatus, Result, ok, ◌>>=◌,
}
use irrd.Storage.Sql.{
  Sql, HandlerSettings, is_serial_synchronised, next_serial, newest_seen, oldest_seen,
}

pub record Tracker : Type 0 where
  pub journaling_enabled : Bool
  pub journal_table_locked : Bool
  pub new_serials_per_source : List (String × List ℕ)
  pub sources_seen : List String
  pub sources_rpsl_data_updated : List String
  pub newest_mirror_serials : List (String × ℕ)
  pub mirroring_error : List (String × String)
  pub exported_serials : List (String × ℕ)
  pub nrtm4_client_status : List (String × ClientStatus)
  pub nrtm4_server_status : List (String × ServerStatus)
  -- The cache of `_is_serial_synchronised`, the entry of the latest use first
  pub synchronised_cache : List (String × Bool)

-- `reset`
abbrev pub fresh : Bool → Tracker
fresh journaling = record {
  journaling_enabled = journaling;
  journal_table_locked = false;
  new_serials_per_source = [];
  sources_seen = [];
  sources_rpsl_data_updated = [];
  newest_mirror_serials = [];
  mirroring_error = [];
  exported_serials = [];
  nrtm4_client_status = [];
  nrtm4_server_status = [];
  synchronised_cache = [];
}

abbrev pub reset : Tracker → Tracker
reset t = fresh t.journaling_enabled

-- `d[source]` of the `defaultdict(set)`
abbrev pub serials_of : String → List (String × List ℕ) → List ℕ
serials_of source serials = elim (lookup source serials) [ none ↦ [] | some s ↦ s ]

abbrev pub add_serial : String → ℕ → List (String × List ℕ) → List (String × List ℕ)
add_serial source n serials = insert source (add n (serials_of source serials)) serials

abbrev pub see : String → Tracker → Tracker
see source t = record t { sources_seen = add source t.sources_seen }

unfoldable pub record_serial_newest_mirror : String → ℕ → Tracker → Tracker
record_serial_newest_mirror source serial t = record (see source t) {
  newest_mirror_serials = insert source serial t.newest_mirror_serials;
}

unfoldable pub record_serial_seen : String → ℕ → Tracker → Tracker
record_serial_seen source serial t = record (see source t) {
  new_serials_per_source = add_serial source serial t.new_serials_per_source;
}

unfoldable pub record_mirror_error : String → String → Tracker → Tracker
record_mirror_error source error t = record (see source t) {
  mirroring_error = insert source error t.mirroring_error;
}

unfoldable pub record_serial_exported : String → ℕ → Tracker → Tracker
record_serial_exported source serial t = record (see source t) {
  exported_serials = insert source serial t.exported_serials;
}

unfoldable pub record_nrtm4_client_status : String → ClientStatus → Tracker → Tracker
record_nrtm4_client_status source status t = record (see source t) {
  nrtm4_client_status = insert source status t.nrtm4_client_status;
}

unfoldable pub record_nrtm4_server_status : String → ServerStatus → Tracker → Tracker
record_nrtm4_server_status source status t = record (see source t) {
  nrtm4_server_status = insert source status t.nrtm4_server_status;
}

-- `max(serials)` and `min(serials)` of a set that is not empty
abbrev pub larger : ℕ → ℕ → ℕ
larger m n = if leb m n then n else m

abbrev pub smaller : ℕ → ℕ → ℕ
smaller m n = if leb m n then m else n

abbrev pub largest : ℕ → List ℕ → ℕ
largest m [] = m
largest m (n ∷ ns) = largest (larger m n) ns

abbrev pub smallest : ℕ → List ℕ → ℕ
smallest m [] = m
smallest m (n ∷ ns) = smallest (smaller m n) ns

-- `GREATEST` and `LEAST`, which pass over `NULL`
abbrev pub greatest : Option ℕ → ℕ → ℕ
greatest none n = n
greatest (some m) n = larger m n

abbrev pub least : Option ℕ → ℕ → ℕ
least none n = n
least (some m) n = smaller m n

abbrev pub known_or : Option Bool → Bool → Bool
known_or none b = b
known_or (some a) b = a

module _ {Db : Type 0} (sql : Sql Db) (conf : HandlerSettings) where
  -- `_is_serial_synchronised` behind its `lru_cache` of 100 entries
  abbrev pub cached_synchronised : String → Tracker → Db → Bool × Tracker
  cached_synchronised source t db =
      let answer =
        known_or (lookup source t.synchronised_cache) (is_serial_synchronised sql conf source db) in
      (
        answer,
        record t {
          synchronised_cache = take 100 ((source, answer) ∷ remove source t.synchronised_cache);
        },
      )

  abbrev pub serial_for : String → Option ℕ → Bool → List ℕ → Db → Option ℕ
  serial_for source source_serial true serials db = source_serial
  serial_for source source_serial false [] db = some (next_serial sql source db)
  serial_for source source_serial false (n ∷ ns) db = some (largest n ns + 1)

  abbrev pub lock : Tracker → Db → Db
  lock t db = if t.journal_table_locked then db else sql.lock_journal db

  -- The part of `record_operation` under its condition
  unfoldable pub write_journal :
      DatabaseOperation
      → String
      → String
      → String
      → String
      → JournalEntryOrigin
      → Option ℕ
      → Tracker
      → Db
      → Result (Tracker × Db)
  write_journal operation rpsl_pk source object_class object_text origin source_serial t db =
      let locked = lock t db in
      let (synchronised, t') =
        cached_synchronised source (record t { journal_table_locked = true }) locked in
      let entry : JournalEntry = record {
        rpsl_pk = rpsl_pk;
        source = source;
        operation = operation;
        object_class = object_class;
        object_text = object_text;
        serial_nrtm =
            serial_for source source_serial synchronised
              (serials_of source t.new_serials_per_source) locked;
        origin = origin;
      } in
      sql.insert_journal entry locked >>= λ (serial, db'). ok (
        record t' { new_serials_per_source = add_serial source serial t'.new_serials_per_source },
        db',
      )

  abbrev pub note_update : String → Tracker → Tracker
  note_update source t = record (see source t) {
    sources_rpsl_data_updated = add source t.sources_rpsl_data_updated;
  }

  unfoldable pub record_operation :
      DatabaseOperation
      → String
      → String
      → String
      → String
      → JournalEntryOrigin
      → Option ℕ
      → Tracker
      → Db
      → Result (Tracker × Db)
  record_operation operation rpsl_pk source object_class object_text origin source_serial t db =
      let seen = note_update source t in
      let s = source_settings conf.sources source in
      if t.journaling_enabled && s.keep_journal
      then write_journal operation rpsl_pk source object_class object_text origin source_serial seen
          db
      else ok (seen, db)

  -- The loops of `finalise_transaction`
  unfoldable pub finalise_sources : List String → Tracker → Db → Tracker × Db
  finalise_sources [] t db = (t, db)
  finalise_sources (source ∷ sources) t db =
      let (synchronised, t') = cached_synchronised source t db in
      finalise_sources sources t' (sql.upsert_status source synchronised db)

  abbrev pub record_serials : String → ℕ → List ℕ → Db → Db
  record_serials source n ns db =
      let row = sql.status source db in
      let oldest_journal = sql.min_serial_nrtm source db in
      let newest_journal = sql.max_serial_nrtm source db in
      sql.set_serials source (some (least (oldest_seen row) (least oldest_journal (smallest n ns))))
        (some (greatest (newest_seen row) (greatest newest_journal (largest n ns)))) oldest_journal
        newest_journal db

  -- No set of serials is empty; `min` of an empty one would be a `ValueError`.
  unfoldable pub finalise_serials : List (String × List ℕ) → Db → Db
  finalise_serials [] db = db
  finalise_serials ((source, []) ∷ rest) db = finalise_serials rest db
  finalise_serials ((source, n ∷ ns) ∷ rest) db =
      finalise_serials rest (record_serials source n ns db)

  abbrev pub each : {A : Type 0} → (A → Db → Db) → List A → Db → Db
  each f [] db = db
  each f (a ∷ rest) db = each f rest (f a db)

  unfoldable pub finalise_transaction : Tracker → Db → Tracker × Db
  finalise_transaction t db =
      let (t', statuses) = finalise_sources t.sources_seen t db in
      let dated = each sql.set_data_updated t.sources_rpsl_data_updated statuses in
      let serials = finalise_serials t.new_serials_per_source dated in
      let errors = each (λ (s, e). sql.set_last_error s e) t.mirroring_error serials in
      let mirrors = each (λ (s, n). sql.set_newest_mirror s n) t.newest_mirror_serials errors in
      let exports = each (λ (s, n). sql.set_last_export s n) t.exported_serials mirrors in
      let clients = each (λ (s, c). sql.set_client_status s c) t.nrtm4_client_status exports in
      (t', each (λ (s, c). sql.set_server_status s c) t.nrtm4_server_status clients)

  -- The sources whose listeners are told, right after the commit
  abbrev pub publish_event_stream : Tracker → List String
  publish_event_stream t = map (λ (s, n). s) t.new_serials_per_source

-- `SessionChangedObjectsTracker`
pub record ChangedObjects : Type 0 where
  pub object_classes : List String
  pub prefixes_for_routepref : List String

abbrev pub no_changes : ChangedObjects
no_changes = record { object_classes = []; prefixes_for_routepref = [] }

abbrev pub is_route_preference : Option JournalEntryOrigin → Bool
is_route_preference (some route_preference) = true
is_route_preference _ = false

-- `RPKI_RELEVANT_OBJECT_CLASSES`: the classes with `is_route`
abbrev pub rpki_relevant : List String
rpki_relevant = "route" ∷ "route6" ∷ []

abbrev pub concerns_routepref : String → String → Option JournalEntryOrigin → Bool
concerns_routepref object_class source origin =
    contains rpki_relevant object_class
    && (not (is_route_preference origin) && not (source == "RPKI"))

unfoldable pub object_modified :
    String → String → Option String → Option JournalEntryOrigin → ChangedObjects → ChangedObjects
object_modified object_class source none origin c = record c {
  object_classes = add object_class c.object_classes;
}
object_modified object_class source (some prefix) origin c = record {
  object_classes = add object_class c.object_classes;
  prefixes_for_routepref =
      if concerns_routepref object_class source origin
      then add prefix c.prefixes_for_routepref
      else c.prefixes_for_routepref;
}

-- `all_object_classes_updated`, for the classes of `OBJECT_CLASS_MAPPING`
abbrev pub all_object_classes_updated : List String → ChangedObjects → ChangedObjects
all_object_classes_updated mapping c = record c { object_classes = update c.object_classes mapping }
