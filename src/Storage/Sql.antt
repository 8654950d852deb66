-- ===== src/Storage/Sql.antt =====
-- The statements that irrd/storage/database_handler.py has PostgreSQL execute, as operations on a
-- database, and `is_serial_synchronised`.
use irrd.Base.{
  ℕ, String, Bool, true, false, not, ◌&&◌, ◌||◌, Option, none, some, List, is_some, ◌+◌, string_eq,
  eqb,
}
use irrd.Rpki.{RpkiStatus}
use irrd.ScopeFilter.{ScopeFilterStatus}
use irrd.RoutePref.Radix.{RoutePreferenceStatus}
use irrd.Nrtm4.Status.{ClientStatus}
use irrd.Conf.{SourceSettings, Sources, source_settings}
use irrd.Storage.{
  ObjectDict, Removed, JournalEntry, SuspendedObject, Roa, ServerStatus, StatusRow, Result,
}

-- Statements by the table that they write. Those of the clock (`datetime.now`) read it themselves, and those of
-- a journal entry return its serial.
pub record Sql (Db : Type 0) : Type 0 where
  pub now : Db → ℕ
  -- `rpsl_objects`
  pub insert_objects : List ObjectDict → Db → Result Db
  pub upsert_objects : List ObjectDict → Db → Result Db
  pub delete_object : String → String → String → Db → List Removed × Db
  pub delete_object_by_uuid : String → Db → List Removed × Db
  pub delete_objects_of_source : String → Db → Db
  pub set_rpki_status : List String → RpkiStatus → Db → Db
  pub set_scopefilter_status : List String → ScopeFilterStatus → Db → Db
  pub set_preference_status : List String → RoutePreferenceStatus → Db → Db
  -- `rpsl_objects_suspended`, `protected_rpsl_name` and `roa_object`
  pub insert_suspended : SuspendedObject → Db → Db
  pub delete_suspended : List String → Db → Db
  pub insert_protected_name : String → String → String → Db → Db
  pub copy_roas : List Roa → Db → Db
  pub delete_roas : Db → Db
  -- `rpsl_database_journal`
  pub lock_journal : Db → Db
  pub max_serial_nrtm : String → Db → Option ℕ
  pub min_serial_nrtm : String → Db → Option ℕ
  pub insert_journal : JournalEntry → Db → Result (ℕ × Db)
  pub delete_journal_before : ℕ → String → Db → Db
  pub delete_journal_of_source : String → Db → Db
  -- `database_status`
  pub status : String → Db → Option StatusRow
  pub upsert_status : String → Bool → Db → Db
  pub set_data_updated : String → Db → Db
  pub set_serials : String → Option ℕ → Option ℕ → Option ℕ → Option ℕ → Db → Db
  pub set_last_error : String → String → Db → Db
  pub set_newest_mirror : String → ℕ → Db → Db
  pub set_last_export : String → ℕ → Db → Db
  pub set_client_status : String → ClientStatus → Db → Db
  pub set_server_status : String → ServerStatus → Db → Db
  pub force_status_reload : String → Bool → Db → Db
  pub delete_status_of_source : String → Db → Db
  -- The transaction; `rollback` is given the database at its start.
  pub commit_transaction : Db → Db

-- The settings that the handler reads
pub record HandlerSettings : Type 0 where
  pub readonly_standby : Bool
  pub scopefilter : Bool
  pub roa_source : Bool
  pub sources : Sources
  -- `sources.….nrtm_host`
  pub nrtm_host : String → Option String

abbrev pub has_preference : SourceSettings → Bool
has_preference s = elim s.route_object_preference [ none ↦ false | some n ↦ not (eqb n 0) ]

-- `settings_status`
unfoldable pub settings_synchronised : HandlerSettings → String → Bool
settings_synchronised conf source =
    let s = source_settings conf.sources source in
    (not conf.scopefilter || s.scopefilter_excluded)
    && ((not conf.roa_source || s.rpki_excluded)
        && (not (has_preference s) && is_some (conf.nrtm_host source)))

module _ {Db : Type 0} (sql : Sql Db) (conf : HandlerSettings) where
  -- The flag of the database, which is set where there is no row
  abbrev pub synchronised_flag : String → Db → Bool
  synchronised_flag source db = elim (sql.status source db) [
    | none ↦ true
    | some row ↦ row.synchronised_serials
  ]

  unfoldable pub is_serial_synchronised : String → Db → Bool
  is_serial_synchronised source db =
      synchronised_flag source db && settings_synchronised conf source

abbrev pub coalesce : {A : Type 0} → Option A → Option A → Option A
coalesce none b = b
coalesce (some a) b = some a

abbrev pub newest_seen : Option StatusRow → Option ℕ
newest_seen none = none
newest_seen (some row) = row.serial_newest_seen

abbrev pub oldest_seen : Option StatusRow → Option ℕ
oldest_seen none = none
oldest_seen (some row) = row.serial_oldest_seen

-- `COALESCE(MAX(serial_nrtm), MAX(serial_newest_seen), 0) + 1` over the row of the source in `database_status` and its
-- outer join with the journal: without that row nothing is joined.
unfoldable pub next_serial : {Db : Type 0} → Sql Db → String → Db → ℕ
next_serial sql source db =
    let row = sql.status source db in
    let journal : Option ℕ = (elim row [ none ↦ none | some r ↦ sql.max_serial_nrtm source db ]) in
    elim (coalesce journal (newest_seen row)) [ none ↦ 1 | some n ↦ n + 1 ]
