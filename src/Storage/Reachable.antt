-- ===== src/Storage/Reachable.antt =====
-- irrd/storage/database_handler.py: every handler that a program can have, by the calls of its methods.
use irrd.Base.{
  ℕ, ◌≤◌, String, Bool, true, false, not, ◌&&◌, ◌≡◌, ap, subst, ◌∙◌, Option, none, some, List, [],
  ◌∷◌, ◌++◌, map, length, distinct, contains, string_eq, arith, In, In-map, map-In, In-contains,
}
use irrd.NrtmOperation.{DatabaseOperation, delete}
use irrd.Storage.{
  Result, ok, ◌>>=◌, ObjectDict, CompositeKey, composite_key, JournalEntryOrigin, suspension,
  Removed,
}
use irrd.Storage.Holds.{Holds, Holds-ok, Holds-bind, Holds-last, Holds-if}
use irrd.Storage.Sql.{Sql, HandlerSettings}
use irrd.Storage.Handler.{
  Handler, Buffered, Published, max_records_buffer, init, rollback, set_journaling,
  check_write_permitted, journal, pk_source, flush_rpsl_object_writing_buffer,
  check_single_row_match, modified, on_db, track,
}
use irrd.Storage.Handler as Buffering
use irrd.Storage.Operations as Operations
use irrd.Storage.Operations.{
  commit, execute_query, flushed, protects, protect_name, after_delete, after_suspend, suspended_of,
}
use irrd.Storage.Statuses as Statuses
use irrd.Storage.Statuses.{StatusChange, record_changes}
use irrd.Storage.Commands.{
  Command, perform, upsert_rpsl_object, insert_roa_object, update_rpki_status,
  update_scopefilter_status, update_route_preference_status, delete_rpsl_object,
  suspend_rpsl_object, delete_suspended_rpsl_objects, delete_journal_entries_before_date,
  delete_all_rpsl_objects_with_journal, delete_all_roa_objects, set_force_reload,
  record_serial_newest_mirror, record_serial_seen, record_serial_exported, record_mirror_error,
  record_nrtm4_client_status, record_nrtm4_server_status,
}
use irrd.Storage.Buffer.{
  Consistent, HandlerConsistent, buffered_key, empty-Consistent, journal-keeps, flush-keeps,
  check-keeps, upsert-Consistent,
}

-- No element stands twice.
abbrev pub Unique : {A : Type 0} → List A → Type 0
Unique [] = Unit
Unique (x ∷ xs) = (¬ In x xs) × Unique xs

abbrev pub row_of : Buffered → ObjectDict
row_of (d, o) = d

abbrev key_of_composite : CompositeKey → String
key_of_composite (pk, (source, object_class)) = pk_source pk source

seen_again :
    (b : Buffered) (buffer : List Buffered)
    → In (composite_key (row_of b)) (map composite_key (map row_of buffer))
    → contains (map buffered_key buffer) (buffered_key b) ≡ true
seen_again b buffer m =
    let (d, member, same) = map-In composite_key _ (map row_of buffer) m in
    let (c, origin, row) = map-In row_of d buffer member in
    In-contains (buffered_key b) (map buffered_key buffer) (
      subst (λ k. In k (map buffered_key buffer))
        (ap (λ r. key_of_composite (composite_key r)) row ∙ ap key_of_composite same)
        (In-map buffered_key c buffer origin))

-- Rows with different texts of key and source have different keys.
pub distinct-Unique :
    (buffer : List Buffered)
    → distinct (map buffered_key buffer) ≡ true
    → Unique (map composite_key (map row_of buffer))
distinct-Unique [] e = tt
distinct-Unique (b ∷ buffer) e =
    ((λ m. ground (arith, seen_again b buffer m)), distinct-Unique buffer (ground arith))

module _ {Db : Type 0} (sql : Sql Db) (conf : HandlerSettings) where
  pub data Reachable : Handler Db → Type 0 where
    initial : (readonly : Bool) (db : Db) → Reachable (init conf readonly db)
    performed :
        (h h' : Handler Db) (c : Command)
        → Reachable h
        → perform sql conf c h ≡ ok h'
        → Reachable h'
    queried :
        (h h' : Handler Db) (query : Db → List ObjectDict) (rows : List ObjectDict) (flush : Bool)
        → Reachable h
        → execute_query sql conf query flush h ≡ ok (h', rows)
        → Reachable h'
    committed :
        (h h' : Handler Db) (update : List String → Handler Db → Result (Handler Db))
        (told : Published)
        → Reachable h
        → commit sql conf update h ≡ ok (h', told)
        → Reachable h'
    rolled_back : (h : Handler Db) → Reachable h → Reachable (rollback h)
    journaling_set :
        (h : Handler Db) (enabled : Bool) → Reachable h → Reachable (set_journaling enabled h)

  flushed-keeps :
      (h : Handler Db) → HandlerConsistent h → Holds HandlerConsistent (flushed sql conf h)
  flushed-keeps h p =
      Holds-bind HandlerConsistent HandlerConsistent (check_write_permitted h) _
        (check-keeps sql conf HandlerConsistent h p)
        (λ h' q. flush-keeps sql conf Consistent h' empty-Consistent q)

  -- A flush, and then steps that leave the buffer
  flushed_then :
      (h : Handler Db) (f : Handler Db → Result (Handler Db))
      → HandlerConsistent h
      → ((h' : Handler Db) → HandlerConsistent h' → Holds HandlerConsistent (f h'))
      → Holds HandlerConsistent (flushed sql conf h >>= f)
  flushed_then h f p k =
      Holds-bind HandlerConsistent HandlerConsistent (flushed sql conf h) f (flushed-keeps h p) k

  record_changes-keeps :
      {S : Type 0} (operation : DatabaseOperation) (origin : JournalEntryOrigin)
      (condition : StatusChange S → Bool) (rows : List (StatusChange S)) (h : Handler Db)
      → HandlerConsistent h
      → Holds HandlerConsistent (record_changes sql conf operation origin condition rows h)
  unfolding record_changes
  record_changes-keeps operation origin condition [] h p = p
  record_changes-keeps operation origin condition (o ∷ rows) h p =
      Holds-if HandlerConsistent (condition o) _ _
        (λ e.
          Holds-bind HandlerConsistent HandlerConsistent _
            (record_changes sql conf operation origin condition rows)
            (Holds-bind HandlerConsistent HandlerConsistent _ _
              (journal-keeps sql conf Consistent operation o.rpsl_pk o.source o.object_class
                o.object_text origin none h p)
              (λ h' q. q))
            (λ h' q. record_changes-keeps operation origin condition rows h' q))
        (λ e. record_changes-keeps operation origin condition rows h p)

  protected-keeps :
      (protect : Bool) (d : ObjectDict) (h : Handler Db)
      → HandlerConsistent h
      → HandlerConsistent (protect_name sql conf protect d h)
  protected-keeps true d h p = p
  protected-keeps false d h p = p

  checked_then :
      (h : Handler Db) (f : Handler Db → Result (Handler Db))
      → HandlerConsistent h
      → ((h' : Handler Db) → HandlerConsistent h' → Holds HandlerConsistent (f h'))
      → Holds HandlerConsistent (check_write_permitted h >>= f)
  checked_then h f p k =
      Holds-bind HandlerConsistent HandlerConsistent (check_write_permitted h) f
        (check-keeps sql conf HandlerConsistent h p) k

  deleted-keeps :
      (protect : Bool) (origin : JournalEntryOrigin) (serial : Option ℕ) (row : Option Removed)
      (h : Handler Db)
      → HandlerConsistent h
      → Holds HandlerConsistent (after_delete sql conf protect origin serial row h)
  deleted-keeps protect origin serial none h p = p
  deleted-keeps protect origin serial (some r) h p =
      let d = r.row in
      Holds-bind HandlerConsistent HandlerConsistent _ _
        (journal-keeps sql conf Consistent delete d.rpsl_pk d.source d.object_class d.object_text
          origin serial h p)
        (λ h' q. protected-keeps protect r.row _ q)

  suspended-keeps :
      (row : Option Removed) (h : Handler Db)
      → HandlerConsistent h
      → Holds HandlerConsistent (after_suspend sql conf row h)
  suspended-keeps none h p = tt
  suspended-keeps (some r) h p =
      let d = r.row in
      Holds-bind HandlerConsistent HandlerConsistent _ _
        (journal-keeps sql conf Consistent delete d.rpsl_pk d.source d.object_class d.object_text
          suspension none (on_db sql conf (sql.insert_suspended (suspended_of sql conf r)) h) p)
        (λ h' q. q)

  -- One statement that returns rows, and the check that only one matched
  removed-keeps :
      (answer : List Removed × Db) (h : Handler Db)
      (f : Option Removed → Handler Db → Result (Handler Db))
      → ((row : Option Removed) (db : Db) → Holds HandlerConsistent (f row (record h { db = db })))
      → Holds HandlerConsistent (
          let (rows, db) = answer in
          check_single_row_match rows >>= λ row. f row (record h { db = db }))
  removed-keeps (rows, db) h f k =
      Holds-last HandlerConsistent (check_single_row_match rows) _ (λ row. k row db)

  perform-Consistent :
      (c : Command) (h : Handler Db)
      → HandlerConsistent h
      → Holds HandlerConsistent (perform sql conf c h)
  unfolding perform Buffering.insert_roa_object Statuses.update_rpki_status
      Statuses.update_scopefilter_status Statuses.update_route_preference_status
      Operations.delete_rpsl_object Operations.suspend_rpsl_object
      Operations.delete_suspended_rpsl_objects Operations.delete_journal_entries_before_date
      Operations.delete_all_rpsl_objects_with_journal Operations.delete_all_roa_objects
      Operations.set_force_reload Operations.record_serial_newest_mirror
      Operations.record_serial_seen Operations.record_serial_exported Operations.record_mirror_error
      Operations.record_nrtm4_client_status Operations.record_nrtm4_server_status
  perform-Consistent (upsert_rpsl_object o origin guaranteed serial created) h p =
      upsert-Consistent sql conf o origin guaranteed serial created h p
  perform-Consistent (insert_roa_object roa) h p = checked_then h _ p (λ h' q. q)
  perform-Consistent (update_rpki_status v i n) h p =
      Holds-bind HandlerConsistent HandlerConsistent _ _
        (checked_then h _ p (λ h' q. record_changes-keeps _ _ _ (v ++ n) _ q))
        (λ h' q. record_changes-keeps _ _ _ i h' q)
  perform-Consistent (update_scopefilter_status i a x) h p =
      Holds-bind HandlerConsistent HandlerConsistent _ _
        (checked_then h _ p (λ h' q. record_changes-keeps _ _ _ i _ q))
        (λ h' q. record_changes-keeps _ _ _ (a ++ x) h' q)
  perform-Consistent (update_route_preference_status v s) h p =
      Holds-bind HandlerConsistent HandlerConsistent _ _
        (Holds-bind HandlerConsistent HandlerConsistent _ _
          (checked_then h _ p (λ h' q. record_changes-keeps _ _ _ v h' q))
          (λ h' q. record_changes-keeps _ _ _ s h' q))
        (λ h' q. q)
  perform-Consistent (delete_rpsl_object origin o source pk class serial protect) h p =
      flushed_then h _ p (λ h' q.
        removed-keeps (sql.delete_object _ _ _ h'.db) h'
          (after_delete sql conf (protects protect o) origin serial)
          (λ row db.
            deleted-keeps (protects protect o) origin serial row (record h' { db = db }) q))
  perform-Consistent (suspend_rpsl_object pk) h p = flushed_then h _ p (λ h' q.
      removed-keeps (sql.delete_object_by_uuid pk h'.db) h' (after_suspend sql conf)
        (λ row db. suspended-keeps row (record h' { db = db }) q))
  perform-Consistent (delete_suspended_rpsl_objects pks) h p = flushed_then h _ p (λ h' q. q)
  perform-Consistent (delete_journal_entries_before_date time source) h p =
      flushed_then h _ p (λ h' q. q)
  perform-Consistent (delete_all_rpsl_objects_with_journal mapping source none_kept) h p =
      flushed_then h _ p (λ h' q. q)
  perform-Consistent delete_all_roa_objects h p = checked_then h _ p (λ h' q. q)
  perform-Consistent (set_force_reload source) h p = checked_then h _ p (λ h' q. q)
  perform-Consistent (record_serial_newest_mirror source n) h p = checked_then h _ p (λ h' q. q)
  perform-Consistent (record_serial_seen source n) h p = checked_then h _ p (λ h' q. q)
  perform-Consistent (record_serial_exported source n) h p = checked_then h _ p (λ h' q. q)
  perform-Consistent (record_mirror_error source m) h p = checked_then h _ p (λ h' q. q)
  perform-Consistent (record_nrtm4_client_status source c) h p = checked_then h _ p (λ h' q. q)
  perform-Consistent (record_nrtm4_server_status source c) h p = checked_then h _ p (λ h' q. q)

  commit-Consistent :
      (update : List String → Handler Db → Result (Handler Db)) (h : Handler Db)
      → Holds (λ (h', told). HandlerConsistent h') (commit sql conf update h)
  unfolding commit
  commit-Consistent update h =
      Holds-last _ (flushed sql conf h >>= _ >>= _) _ (λ h'. empty-Consistent)

  execute_query-Consistent :
      (query : Db → List ObjectDict) (flush : Bool) (h : Handler Db)
      → HandlerConsistent h
      → Holds (λ (h', rows). HandlerConsistent h') (execute_query sql conf query flush h)
  unfolding execute_query
  execute_query-Consistent query flush h p =
      Holds-bind HandlerConsistent _ _ _
        (Holds-if HandlerConsistent (not h.readonly && flush) _ _
          (λ e. flush-keeps sql conf Consistent h empty-Consistent p) (λ e. p))
        (λ h' q. q)

  pub Reachable-Consistent : (h : Handler Db) → Reachable h → HandlerConsistent h
  unfolding init rollback set_journaling
  Reachable-Consistent _ (initial readonly db) = empty-Consistent
  Reachable-Consistent _ (performed h h' c r e) =
      Holds-ok HandlerConsistent _ h' (perform-Consistent c h (Reachable-Consistent h r)) e
  Reachable-Consistent _ (queried h h' query rows flush r e) =
      Holds-ok (λ (h'', rows'). HandlerConsistent h'') _ (h', rows)
        (execute_query-Consistent query flush h (Reachable-Consistent h r)) e
  Reachable-Consistent _ (committed h h' update told r e) =
      Holds-ok (λ (h'', told'). HandlerConsistent h'') _ (h', told) (commit-Consistent update h) e
  Reachable-Consistent _ (rolled_back h r) = empty-Consistent
  Reachable-Consistent _ (journaling_set h enabled r) = Reachable-Consistent h r

  -- Whatever methods a program calls, the buffer never has more than 15000 rows when a method returns, and
  -- no two of its rows have the same primary key, source and class.
  pub Reachable-Unique :
      (h : Handler Db)
      → Reachable h
      → (length h.rpsl_upsert_buffer ≤ 15000)
        × Unique (map composite_key (map row_of h.rpsl_upsert_buffer))
  Reachable-Unique h r =
      let c = Reachable-Consistent h r in
      (
        c.small,
        distinct-Unique h.rpsl_upsert_buffer (subst (λ s. distinct s ≡ true) c.pending c.apart),
      )
