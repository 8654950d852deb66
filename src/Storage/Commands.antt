-- ===== src/Storage/Commands.antt =====
-- irrd/storage/database_handler.py: the writing methods of `DatabaseHandler` as one type, and their runs.
use irrd.Base.{ℕ, String, Bool, Option, List}
use irrd.Rpki.{RpkiStatus}
use irrd.ScopeFilter.{ScopeFilterStatus}
use irrd.Nrtm4.Status.{ClientStatus}
use irrd.Storage.{JournalEntryOrigin, RpslObject, Roa, ServerStatus, Result}
use irrd.Storage.Sql.{Sql, HandlerSettings}
use irrd.Storage.Handler.{Handler}
use irrd.Storage.Handler as Buffering
use irrd.Storage.Operations as Operations
use irrd.Storage.Statuses.{StatusChange}
use irrd.Storage.Statuses as Statuses

-- The methods that check that writing is permitted, with their arguments
pub data Command : Type 0 where
  upsert_rpsl_object : RpslObject → JournalEntryOrigin → Bool → Option ℕ → Option ℕ → Command
  insert_roa_object : Roa → Command
  update_rpki_status :
      List (StatusChange RpkiStatus)
      → List (StatusChange RpkiStatus)
      → List (StatusChange RpkiStatus)
      → Command
  update_scopefilter_status :
      List (StatusChange ScopeFilterStatus)
      → List (StatusChange ScopeFilterStatus)
      → List (StatusChange ScopeFilterStatus)
      → Command
  update_route_preference_status : List (StatusChange Unit) → List (StatusChange Unit) → Command
  delete_rpsl_object :
      JournalEntryOrigin → Option RpslObject → String → String → String → Option ℕ → Bool → Command
  suspend_rpsl_object : String → Command
  delete_suspended_rpsl_objects : List String → Command
  delete_journal_entries_before_date : ℕ → String → Command
  delete_all_rpsl_objects_with_journal : List String → String → Bool → Command
  delete_all_roa_objects : Command
  set_force_reload : String → Command
  record_serial_newest_mirror record_serial_seen record_serial_exported : String → ℕ → Command
  record_mirror_error : String → String → Command
  record_nrtm4_client_status : String → ClientStatus → Command
  record_nrtm4_server_status : String → ServerStatus → Command

module _ {Db : Type 0} (sql : Sql Db) (conf : HandlerSettings) where
  unfoldable pub perform : Command → Handler Db → Result (Handler Db)
  perform (upsert_rpsl_object o origin guaranteed serial created) =
      Buffering.upsert_rpsl_object sql conf o origin guaranteed serial created
  perform (insert_roa_object roa) = Buffering.insert_roa_object roa
  perform (update_rpki_status v i n) = Statuses.update_rpki_status sql conf v i n
  perform (update_scopefilter_status i a p) = Statuses.update_scopefilter_status sql conf i a p
  perform (update_route_preference_status v s) =
      Statuses.update_route_preference_status sql conf v s
  perform (delete_rpsl_object origin o source pk class serial protect) =
      Operations.delete_rpsl_object sql conf origin o source pk class serial protect
  perform (suspend_rpsl_object pk) = Operations.suspend_rpsl_object sql conf pk
  perform (delete_suspended_rpsl_objects pks) =
      Operations.delete_suspended_rpsl_objects sql conf pks
  perform (delete_journal_entries_before_date time source) =
      Operations.delete_journal_entries_before_date sql conf time source
  perform (delete_all_rpsl_objects_with_journal mapping source empty) =
      Operations.delete_all_rpsl_objects_with_journal sql conf mapping source empty
  perform delete_all_roa_objects = Operations.delete_all_roa_objects sql conf
  perform (set_force_reload source) = Operations.set_force_reload sql conf source
  perform (record_serial_newest_mirror source n) =
      Operations.record_serial_newest_mirror sql conf source n
  perform (record_serial_seen source n) = Operations.record_serial_seen sql conf source n
  perform (record_serial_exported source n) = Operations.record_serial_exported sql conf source n
  perform (record_mirror_error source e) = Operations.record_mirror_error sql conf source e
  perform (record_nrtm4_client_status source c) =
      Operations.record_nrtm4_client_status sql conf source c
  perform (record_nrtm4_server_status source c) =
      Operations.record_nrtm4_server_status sql conf source c
