-- ===== src/Storage/Readonly.antt =====
-- irrd/storage/database_handler.py: `_check_write_permitted`.
use irrd.Base.{String, true, ◌≡◌, List}
use irrd.Storage.{Result, fault, readonly_handler}
use irrd.Storage.Sql.{Sql, HandlerSettings}
use irrd.Storage.Handler as Buffering
use irrd.Storage.Handler.{Handler}
use irrd.Storage.Operations as Operations
use irrd.Storage.Statuses as Statuses
use irrd.Storage.Commands.{
  Command, perform, upsert_rpsl_object, insert_roa_object, update_rpki_status,
  update_scopefilter_status, update_route_preference_status, delete_rpsl_object,
  suspend_rpsl_object, delete_suspended_rpsl_objects, delete_journal_entries_before_date,
  delete_all_rpsl_objects_with_journal, delete_all_roa_objects, set_force_reload,
  record_serial_newest_mirror, record_serial_seen, record_serial_exported, record_mirror_error,
  record_nrtm4_client_status, record_nrtm4_server_status,
}

module _ {Db : Type 0} (sql : Sql Db) (conf : HandlerSettings) where
  perform-refused :
      (c : Command) (h : Handler Db)
      → h.readonly ≡ true
      → perform sql conf c h ≡ fault readonly_handler
  unfolding perform Buffering.upsert_rpsl_object Buffering.insert_roa_object
      Statuses.update_rpki_status Statuses.update_scopefilter_status
      Statuses.update_route_preference_status Operations.delete_rpsl_object
      Operations.suspend_rpsl_object Operations.delete_suspended_rpsl_objects
      Operations.delete_journal_entries_before_date Operations.delete_all_rpsl_objects_with_journal
      Operations.delete_all_roa_objects Operations.set_force_reload
      Operations.record_serial_newest_mirror Operations.record_serial_seen
      Operations.record_serial_exported Operations.record_mirror_error
      Operations.record_nrtm4_client_status Operations.record_nrtm4_server_status
  perform-refused (upsert_rpsl_object o origin guaranteed serial created) h e = rw (e)
  perform-refused (insert_roa_object roa) h e = rw (e)
  perform-refused (update_rpki_status v i n) h e = rw (e)
  perform-refused (update_scopefilter_status i a p) h e = rw (e)
  perform-refused (update_route_preference_status v s) h e = rw (e)
  perform-refused (delete_rpsl_object origin o source pk class serial protect) h e = rw (e)
  perform-refused (suspend_rpsl_object pk) h e = rw (e)
  perform-refused (delete_suspended_rpsl_objects pks) h e = rw (e)
  perform-refused (delete_journal_entries_before_date time source) h e = rw (e)
  perform-refused (delete_all_rpsl_objects_with_journal mapping source empty) h e = rw (e)
  perform-refused delete_all_roa_objects h e = rw (e)
  perform-refused (set_force_reload source) h e = rw (e)
  perform-refused (record_serial_newest_mirror source n) h e = rw (e)
  perform-refused (record_serial_seen source n) h e = rw (e)
  perform-refused (record_serial_exported source n) h e = rw (e)
  perform-refused (record_mirror_error source m) h e = rw (e)
  perform-refused (record_nrtm4_client_status source c) h e = rw (e)
  perform-refused (record_nrtm4_server_status source c) h e = rw (e)

  commit-refused :
      (update : List String → Handler Db → Result (Handler Db)) (h : Handler Db)
      → h.readonly ≡ true
      → Operations.commit sql conf update h ≡ fault readonly_handler
  unfolding Operations.commit
  commit-refused update h e = rw (e)

  -- On a handler that only reads, every writing method and the commit end with the exception of such a
  -- handler, whatever they are given.
  pub perform-readonly :
      (c : Command) (update : List String → Handler Db → Result (Handler Db)) (h : Handler Db)
      → h.readonly ≡ true
      → (perform sql conf c h ≡ fault readonly_handler)
        × (Operations.commit sql conf update h ≡ fault readonly_handler)
  perform-readonly c update h e = (perform-refused c h e, commit-refused update h e)
