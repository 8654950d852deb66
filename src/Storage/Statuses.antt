-- ===== src/Storage/Statuses.antt =====
-- irrd/storage/database_handler.py: the updates of the RPKI, scope filter and route preference statuses, with the journal
-- entries for the objects that they show or hide; `chunked_iterable` of irrd/utils/misc.py.
use irrd.Base.{
  ℕ, zero, suc, String, Bool, not, ◌&&◌, Option, none, some, List, [], ◌∷◌, ◌++◌, is_nil, map,
  length, take, drop, string_eq, if◌then◌else◌, update,
}
use irrd.Rpki.{RpkiStatus, valid, invalid, not_found}
use irrd.ScopeFilter.{ScopeFilterStatus, in_scope, out_scope_as, out_scope_prefix}
use irrd.RoutePref.Radix.{RoutePreferenceStatus, visible, suppressed}
use irrd.NrtmOperation.{DatabaseOperation, add_or_update, delete}
use irrd.Storage.{
  JournalEntryOrigin, rpki_status, scope_filter, route_preference, Result, ok, ◌>>=◌,
  object_is_visible,
}
use irrd.Storage.Sql.{Sql, HandlerSettings}
use irrd.Storage.Handler.{Handler, check_write_permitted, modified, on_db, journal}

-- A row with a changed status, and its old one
pub record StatusChange (S : Type 0) : Type 0 where
  pub pk : String
  pub rpsl_pk : String
  pub source : String
  pub object_class : String
  pub object_text : String
  pub prefix : Option String
  pub old_status : S
  pub rpki : RpkiStatus
  pub scopefilter : ScopeFilterStatus
  pub preference : RoutePreferenceStatus

abbrev pub visible_now : {S : Type 0} → StatusChange S → Bool
visible_now o = object_is_visible o.rpki o.scopefilter o.preference

abbrev pub rpki_visible_previously : StatusChange RpkiStatus → Bool
rpki_visible_previously o = object_is_visible o.old_status o.scopefilter o.preference

abbrev pub scope_visible_previously : StatusChange ScopeFilterStatus → Bool
scope_visible_previously o = object_is_visible o.rpki o.old_status o.preference

-- The preference is the default, which is visible.
abbrev pub visible_but_for_preference : {S : Type 0} → StatusChange S → Bool
visible_but_for_preference o = object_is_visible o.rpki o.scopefilter visible

-- The fuel is the length of what is left. A slice of size zero is empty, which ends the iteration at once.
unfoldable pub chunks : {A : Type 0} → ℕ → ℕ → List A → List (List A)
chunks zero size xs = []
chunks (suc fuel) size [] = []
chunks (suc fuel) size (x ∷ xs) = take size (x ∷ xs) ∷ chunks fuel size (drop size (x ∷ xs))

abbrev pub chunked_iterable : {A : Type 0} → List A → ℕ → List (List A)
chunked_iterable xs zero = []
chunked_iterable xs (suc n) = chunks (length xs) (suc n) xs

-- `ROUTEPREF_STATUS_UPDATE_CHUNK_SIZE`
abbrev pub chunk_size : ℕ
chunk_size = 5000

-- The set of the keys of rows
abbrev pub keys_of : {S : Type 0} → (StatusChange S → String) → List (StatusChange S) → List String
keys_of key rows = update [] (map key rows)

module _ {Db : Type 0} (sql : Sql Db) (conf : HandlerSettings) {S : Type 0} where
  abbrev pub record_change :
      DatabaseOperation → JournalEntryOrigin → StatusChange S → Handler Db → Result (Handler Db)
  record_change operation origin o h =
      journal sql conf operation o.rpsl_pk o.source o.object_class o.object_text origin none h
      >>= λ h'. ok (modified o.object_class o.source o.prefix (some origin) h')

  -- A loop over rows, with its condition
  unfoldable pub record_changes :
      DatabaseOperation
      → JournalEntryOrigin
      → (StatusChange S → Bool)
      → List (StatusChange S)
      → Handler Db
      → Result (Handler Db)
  record_changes operation origin condition [] h = ok h
  record_changes operation origin condition (o ∷ rows) h =
      if condition o
      then record_change operation origin o h >>= record_changes operation origin condition rows
      else record_changes operation origin condition rows h

  abbrev pub set_status :
      (List String → Db → Db) → (StatusChange S → String) → List (StatusChange S) → Db → Db
  set_status statement key rows db = if is_nil rows then db else statement (keys_of key rows) db

  abbrev pub set_in_chunks : (List String → Db → Db) → List (List (StatusChange S)) → Db → Db
  set_in_chunks statement [] db = db
  set_in_chunks statement (chunk ∷ rest) db =
      set_in_chunks statement rest (statement (keys_of (λ o. o.pk) chunk) db)

module _ {Db : Type 0} (sql : Sql Db) (conf : HandlerSettings) where
  abbrev pub write_rpki : RpkiStatus → List (StatusChange RpkiStatus) → Db → Db
  write_rpki status = set_status sql conf (λ pks. sql.set_rpki_status pks status) (λ o. o.pk)

  abbrev pub write_rpki_statuses :
      List (StatusChange RpkiStatus)
      → List (StatusChange RpkiStatus)
      → List (StatusChange RpkiStatus)
      → Db
      → Db
  write_rpki_statuses now_valid now_invalid now_not_found db =
      write_rpki not_found now_not_found
        (write_rpki invalid now_invalid (write_rpki valid now_valid db))

  unfoldable pub update_rpki_status :
      List (StatusChange RpkiStatus)
      → List (StatusChange RpkiStatus)
      → List (StatusChange RpkiStatus)
      → Handler Db
      → Result (Handler Db)
  update_rpki_status now_valid now_invalid now_not_found h =
      check_write_permitted h
      >>= (λ h'.
          record_changes sql conf add_or_update rpki_status
            (λ o. visible_now o && not (rpki_visible_previously o)) (now_valid ++ now_not_found)
            (on_db sql conf (write_rpki_statuses now_valid now_invalid now_not_found) h'))
      >>= record_changes sql conf delete rpki_status
          (λ o. not (visible_now o) && rpki_visible_previously o) now_invalid

  -- The statements choose the rows by `rpsl_pk`.
  abbrev pub write_scope : ScopeFilterStatus → List (StatusChange ScopeFilterStatus) → Db → Db
  write_scope status =
      set_status sql conf (λ pks. sql.set_scopefilter_status pks status) (λ o. o.rpsl_pk)

  abbrev pub write_scope_statuses :
      List (StatusChange ScopeFilterStatus)
      → List (StatusChange ScopeFilterStatus)
      → List (StatusChange ScopeFilterStatus)
      → Db
      → Db
  write_scope_statuses now_in_scope now_out_scope_as now_out_scope_prefix db =
      write_scope out_scope_prefix now_out_scope_prefix
        (write_scope out_scope_as now_out_scope_as (write_scope in_scope now_in_scope db))

  unfoldable pub update_scopefilter_status :
      List (StatusChange ScopeFilterStatus)
      → List (StatusChange ScopeFilterStatus)
      → List (StatusChange ScopeFilterStatus)
      → Handler Db
      → Result (Handler Db)
  update_scopefilter_status now_in_scope now_out_scope_as now_out_scope_prefix h =
      check_write_permitted h
      >>= (λ h'.
          record_changes sql conf add_or_update scope_filter
            (λ o. visible_now o && not (scope_visible_previously o)) now_in_scope
            (on_db sql conf
              (write_scope_statuses now_in_scope now_out_scope_as now_out_scope_prefix) h'))
      >>= record_changes sql conf delete scope_filter
          (λ o. not (visible_now o) && scope_visible_previously o)
          (now_out_scope_as ++ now_out_scope_prefix)

  abbrev pub write_preference : RoutePreferenceStatus → List (StatusChange Unit) → Db → Db
  write_preference status rows =
      set_in_chunks sql conf (λ pks. sql.set_preference_status pks status)
        (chunked_iterable rows chunk_size)

  unfoldable pub update_route_preference_status :
      List (StatusChange Unit) → List (StatusChange Unit) → Handler Db → Result (Handler Db)
  update_route_preference_status now_visible now_suppressed h =
      check_write_permitted h
      >>= record_changes sql conf add_or_update route_preference visible_but_for_preference
          now_visible
      >>= record_changes sql conf delete route_preference visible_but_for_preference now_suppressed
      >>= λ h'. ok (
          on_db sql conf
            (λ db.
              write_preference suppressed now_suppressed (write_preference visible now_visible db))
            h')
