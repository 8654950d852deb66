-- ===== src/Storage/Examples.antt =====
-- Runs of the operations of irrd/storage/database_handler.py on small databases.
use irrd.Base.{
  ℕ, String, true, false, ◌≡◌, refl, ap, sym, Option, none, some, List, [], ◌∷◌, length, map,
  lookup, string_eq, ◌≤◌, inl, inr, In, arith,
}
use irrd.Conf.{SourceSettings, bare_source}
use irrd.Rpki.{RpkiStatus, valid, invalid, not_found}
use irrd.Rpki as Rpki
use irrd.ScopeFilter.{ScopeFilterStatus, in_scope, out_scope_as, out_scope_prefix}
use irrd.ScopeFilter as ScopeFilter
use irrd.Text.{append}
use irrd.RoutePref as RoutePref
use irrd.RoutePref.Radix.{visible}
use irrd.NrtmOperation.{add_or_update}
use irrd.Storage.{
  auth_change, RpslObject, StatusRow, Result, ok, fault, ◌>>=◌, readonly_handler, object_is_visible,
  composite_key, ObjectDict, rpki_status, scope_filter,
}
use irrd.Storage.Sql.{HandlerSettings, settings_synchronised, is_serial_synchronised, next_serial}
use irrd.Storage.Tracker.{
  Tracker, fresh, serials_of, write_journal, record_operation, object_modified, finalise_serials,
  finalise_sources, finalise_transaction, record_serial_seen,
}
use irrd.Storage.Handler.{
  Handler, init, schedule, journal, journal_buffer, check_write_permitted, on_db,
}
use irrd.Storage.Handler as Buffering
use irrd.Storage.Operations as Operations
use irrd.Storage.Operations.{flushed}
use irrd.Storage.Statuses.{
  StatusChange, rpki_visible_previously, scope_visible_previously, update_rpki_status,
  update_scopefilter_status, chunks, chunked_iterable, write_rpki_statuses, write_scope_statuses,
}
use irrd.Storage.Commands.{Command, perform, upsert_rpsl_object, delete_all_roa_objects}
use irrd.Storage.Readonly.{perform-readonly}
use irrd.Storage.Reachable.{initial, performed, Unique, row_of, Reachable-Unique}
use irrd.Storage.Refine.{Table, Stored, Write, upsert, all_at_once, run_writes}
use irrd.Storage.Refine.Run.{run_writes-written_at_once}
use irrd.Storage.Journal.{Operation, record_all, Gapless, changes_of, record_all-Gapless}
use irrd.Storage.Visibility.{
  announce, update_rpki_status-announce, update_scopefilter_status-announce,
}
use irrd.Storage.Seen.{Covers}
use irrd.Storage.Known as Known
use irrd.Storage.Known.{Step, serial_seen, run_steps}
use irrd.Storage.Ranges.{finalise_transaction-Covers}
use irrd.Storage.Chunks.{join, chunked_iterable-join}
use irrd.Storage.Concrete.{
  Tables, find, tables_sql, tables_objects, tables_journal, tables_status, tables_rows,
  tables_entries, entries,
}

abbrev journaled_source : SourceSettings
journaled_source = record bare_source { keep_journal = true }

abbrev conf : HandlerSettings
conf = record {
  readonly_standby = false;
  scopefilter = false;
  roa_source = false;
  sources = ("TEST", journaled_source) ∷ [];
  nrtm_host = λ source. none;
}

abbrev no_tables : Tables
no_tables = record { objects = λ k. none; journal = []; statuses = []; clock = 7; routes = [] }

abbrev person : String → RpslObject
person text = record {
  pk = "PERSON-TEST";
  source = "TEST";
  rpsl_object_class = "person";
  mnt_by = "TEST-MNT" ∷ [];
  render_rpsl_text = λ time. text;
  ip_version = none;
  ip_first = none;
  ip_last = none;
  prefix = none;
  prefix_length = none;
  asn_first = none;
  asn_last = none;
  rpki = not_found;
  scopefilter = in_scope;
  preference = visible;
}

abbrev no_update : List String → Handler Tables → Result (Handler Tables)
no_update prefixes h = ok h

perform-readonly_example :
    (perform tables_sql conf delete_all_roa_objects (init conf true no_tables)
      ≡ fault readonly_handler)
    × (Operations.commit tables_sql conf no_update (init conf true no_tables)
        ≡ fault readonly_handler)
unfolding init
perform-readonly_example =
    perform-readonly tables_sql conf delete_all_roa_objects no_update (init conf true no_tables)
      refl

abbrev or_start : Result (Handler Tables) → Handler Tables
or_start (ok h) = h
or_start (fault e) = init conf false no_tables

abbrev add_person : Command
add_person = upsert_rpsl_object (person "old") auth_change false none none

abbrev with_person : Handler Tables
with_person = or_start (perform tables_sql conf add_person (init conf false no_tables))

one_waits : length with_person.rpsl_upsert_buffer ≡ 1
unfolding init perform Buffering.upsert_rpsl_object Buffering.flush_rpsl_object_writing_buffer
    schedule object_modified
one_waits = refl

Reachable-Unique_example :
    (length with_person.rpsl_upsert_buffer ≤ 15000)
    × Unique (map composite_key (map row_of with_person.rpsl_upsert_buffer))
unfolding init perform Buffering.upsert_rpsl_object Buffering.flush_rpsl_object_writing_buffer
    schedule object_modified
Reachable-Unique_example =
    Reachable-Unique tables_sql conf with_person
      (performed (init conf false no_tables) with_person add_person (initial false no_tables) refl)

-- The second upsert has the same key, so that it flushes the first.
abbrev twice : List Write
twice =
    upsert (person "old") auth_change none none ∷ upsert (person "new") auth_change none none ∷ []

abbrev nothing : Table
nothing k = none

abbrev written_twice : Handler Tables
written_twice =
    or_start
      (run_writes tables_sql conf twice (init conf false no_tables) >>= flushed tables_sql conf)

abbrev person_key : String × (String × String)
person_key = ("PERSON-TEST", ("TEST", "person"))

run_writes-written_at_once_example :
    Stored (find person_key written_twice.db) (all_at_once twice nothing person_key)
unfolding init run_writes Buffering.upsert_rpsl_object Buffering.flush_rpsl_object_writing_buffer
    schedule object_modified journal_buffer journal object_is_visible Rpki.is_visible
    ScopeFilter.is_visible RoutePref.is_visible record_operation write_journal settings_synchronised
    is_serial_synchronised next_serial append
run_writes-written_at_once_example =
    run_writes-written_at_once tables_sql conf find tables_objects twice (init conf false no_tables)
      written_twice nothing (refl, refl) (λ k. tt) refl person_key

abbrev text_of : Option ObjectDict → Option String
text_of none = none
text_of (some d) = some d.object_text

new_text : text_of (find person_key written_twice.db) ≡ some "new"
unfolding init run_writes Buffering.upsert_rpsl_object Buffering.flush_rpsl_object_writing_buffer
    schedule object_modified journal_buffer journal object_is_visible Rpki.is_visible
    ScopeFilter.is_visible RoutePref.is_visible record_operation write_journal settings_synchronised
    is_serial_synchronised next_serial append
new_text = refl

abbrev change : String → String → Operation
change source pk = record {
  operation = add_or_update;
  rpsl_pk = pk;
  source = source;
  object_class = "person";
  object_text = "";
  origin = auth_change;
  source_serial = none;
}

abbrev changes : List Operation
changes = change "TEST" "A" ∷ change "OTHER" "B" ∷ change "TEST" "C" ∷ []

-- The journal is at 41 already.
abbrev at_41 : Tables
at_41 = record no_tables {
  journal =
      record {
        rpsl_pk = "Z";
        source = "TEST";
        operation = add_or_update;
        object_class = "person";
        object_text = "";
        serial_nrtm = some 41;
        origin = auth_change;
      }
      ∷ [];
  statuses =
      (
        "TEST",
        record {
          serial_oldest_seen = some 41;
          serial_newest_seen = some 41;
          synchronised_serials = false;
        },
      )
      ∷ [];
}

abbrev recorded : Result (Tracker × Tables) → Tracker × Tables
recorded (ok r) = r
recorded (fault e) = (fresh false, no_tables)

abbrev all_recorded : Tracker × Tables
all_recorded = recorded (record_all tables_sql conf changes (fresh true) at_41)

serials_42_43 :
    (let (t, db) = all_recorded in serials_of "TEST" t.new_serials_per_source) ≡ 42 ∷ 43 ∷ []
unfolding record_all record_operation write_journal settings_synchronised is_serial_synchronised
    next_serial
serials_42_43 = refl

record_all-Gapless_example :
    (let (t, db) = all_recorded in
      Gapless (serials_of "TEST" t.new_serials_per_source)
      × (length (serials_of "TEST" t.new_serials_per_source) ≡ changes_of "TEST" changes))
unfolding record_all record_operation write_journal settings_synchronised is_serial_synchronised
    next_serial
record_all-Gapless_example =
    let (t, db) = all_recorded in
    record_all-Gapless tables_sql conf tables_journal "TEST" refl refl changes t at_41 db refl

abbrev row_41 : StatusRow
row_41 = record {
  serial_oldest_seen = some 41;
  serial_newest_seen = some 41;
  synchronised_serials = false;
}

abbrev steps : List Step
steps = serial_seen "TEST" 44 ∷ map (λ o. Known.recorded o) changes

abbrev all_steps : Tracker × Tables
all_steps = recorded (run_steps tables_sql conf steps (fresh true) at_41)

steps-recorded : run_steps tables_sql conf steps (fresh true) at_41 ≡ ok all_steps
unfolding run_steps record_serial_seen record_operation write_journal settings_synchronised
    is_serial_synchronised next_serial
steps-recorded = refl

finalise_transaction-Covers_example :
    (let (t, db) = all_steps in
      Covers tables_sql conf tables_status "TEST" 44
        ((finalise_transaction tables_sql conf t db).1))
finalise_transaction-Covers_example =
    finalise_transaction-Covers tables_sql conf tables_status tables_rows "TEST" entries
      tables_entries steps true (all_steps.0) at_41 (all_steps.1) 44 steps-recorded (inr (inl refl))

-- The range has the serials of the new entries and the one that was seen.
range_41_46 :
    (let (t, db) = all_steps in
      lookup "TEST" ((finalise_transaction tables_sql conf t db).1).statuses)
    ≡ some (record {
      serial_oldest_seen = some 41;
      serial_newest_seen = some 46;
      synchronised_serials = false;
    })
unfolding run_steps record_serial_seen record_operation write_journal settings_synchronised
    is_serial_synchronised next_serial finalise_transaction finalise_sources finalise_serials
range_41_46 = refl

abbrev five : List ℕ
five = 1 ∷ 2 ∷ 3 ∷ 4 ∷ 5 ∷ []

chunked_iterable-join_example :
    (join (chunked_iterable five 2) ≡ five)
    × ((c : List ℕ) → In c (chunked_iterable five 2) → (1 ≤ length c) × (length c ≤ 2))
chunked_iterable-join_example = chunked_iterable-join five 2 (omega arith)

three_chunks : chunked_iterable five 2 ≡ (1 ∷ 2 ∷ []) ∷ (3 ∷ 4 ∷ []) ∷ (5 ∷ []) ∷ []
unfolding chunks
three_chunks = refl

abbrev rpki_row : RpkiStatus → RpkiStatus → StatusChange RpkiStatus
rpki_row before now = record {
  pk = "1";
  rpsl_pk = "192.0.2.0/24AS65530";
  source = "TEST";
  object_class = "route";
  object_text = "";
  prefix = some "192.0.2.0/24";
  old_status = before;
  rpki = now;
  scopefilter = in_scope;
  preference = visible;
}

abbrev scope_row : ScopeFilterStatus → ScopeFilterStatus → StatusChange ScopeFilterStatus
scope_row before now = record {
  pk = "1";
  rpsl_pk = "192.0.2.0/24AS65530";
  source = "TEST";
  object_class = "route";
  object_text = "";
  prefix = some "192.0.2.0/24";
  old_status = before;
  rpki = valid;
  scopefilter = now;
  preference = visible;
}

update_rpki_status-announce_example :
    update_rpki_status tables_sql conf
      (rpki_row invalid valid ∷ [])
      (rpki_row valid invalid ∷ [])
      []
      (init conf false no_tables)
    ≡ (check_write_permitted (init conf false no_tables) >>= λ g.
        announce tables_sql conf rpki_status rpki_visible_previously
          (rpki_row invalid valid ∷ rpki_row valid invalid ∷ [])
          (on_db tables_sql conf
            (write_rpki_statuses tables_sql conf
              (rpki_row invalid valid ∷ [])
              (rpki_row valid invalid ∷ [])
              [])
            g))
update_rpki_status-announce_example =
    update_rpki_status-announce tables_sql conf (rpki_row invalid valid ∷ [])
      (rpki_row valid invalid ∷ []) [] (init conf false no_tables)
      (λ o m. elim m [ inl e ↦ ap (λ r. r.rpki) (sym e) | inr n ↦ absurd n ])
      (λ o m. elim m [ inl e ↦ ap (λ r. r.rpki) (sym e) | inr n ↦ absurd n ]) (λ o m. absurd m)

update_scopefilter_status-announce_example :
    update_scopefilter_status tables_sql conf
      (scope_row out_scope_as in_scope ∷ [])
      []
      (scope_row in_scope out_scope_prefix ∷ [])
      (init conf false no_tables)
    ≡ (check_write_permitted (init conf false no_tables) >>= λ g.
        announce tables_sql conf scope_filter scope_visible_previously
          (scope_row out_scope_as in_scope ∷ scope_row in_scope out_scope_prefix ∷ [])
          (on_db tables_sql conf
            (write_scope_statuses tables_sql conf
              (scope_row out_scope_as in_scope ∷ [])
              []
              (scope_row in_scope out_scope_prefix ∷ []))
            g))
update_scopefilter_status-announce_example =
    update_scopefilter_status-announce tables_sql conf (scope_row out_scope_as in_scope ∷ []) []
      (scope_row in_scope out_scope_prefix ∷ []) (init conf false no_tables)
      (λ o m. elim m [ inl e ↦ ap (λ r. r.scopefilter) (sym e) | inr n ↦ absurd n ])
      (λ o m. absurd m)
      (λ o m. elim m [ inl e ↦ ap (λ r. r.scopefilter) (sym e) | inr n ↦ absurd n ])
