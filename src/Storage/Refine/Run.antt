-- ===== src/Storage/Refine/Run.antt =====
-- irrd/storage/database_handler.py: sequences of upserts and deletions.
use irrd.Base.{
  ℕ, String, Bool, true, false, ◌≡◌, sym, subst, ◌∙◌, Option, none, some, List, [], ◌∷◌, string_eq,
  if◌then◌else◌,
}
use irrd.NrtmOperation.{delete}
use irrd.Storage.{ok, ◌>>=◌, ObjectDict, CompositeKey, RpslObject, JournalEntryOrigin, Removed}
use irrd.Storage.Holds.{Holds-ok, Holds, Holds-bind, Holds-last, Holds_mono}
use irrd.Storage.Sql.{Sql, HandlerSettings}
use irrd.Storage.Handler.{Handler, check_single_row_match}
use irrd.Storage.Operations.{
  delete_rpsl_object, or_of, protects, after_delete, protect_name, flushed,
}
use irrd.Storage.Buffer.{Cleared}
use irrd.Storage.Refine.{
  key_is, ObjectLaws, Table, Stored, Write, upsert, remove, written_at_once, all_at_once, write,
  run_writes,
}
use irrd.Storage.Refine.Kept.{Same, journal-Same}
use irrd.Storage.Refine.Flush.{Sim, Cleared-Sim, Sim-found, upsert-Sim, flushed-Sim}

module _ {Db : Type 0} (sql : Sql Db) (conf : HandlerSettings)
    (find : CompositeKey → Db → Option ObjectDict) (laws : ObjectLaws sql find) where
  -- An empty buffer, and a database that has the table
  abbrev Holding : Table → Handler Db → Type 0
  Holding table g = Cleared g × ((k : CompositeKey) → Stored (find k g.db) (table k))

  Same-Holding :
      (table : Table) (g h : Handler Db)
      → Same sql conf find laws g h
      → Holding table h
      → Holding table g
  Same-Holding table g h s ((seen, buffer), found) = (
    (s.same_seen ∙ seen, s.same_buffer ∙ buffer),
    (λ k. subst (λ d. Stored d (table k)) (sym (s.same_found k)) (found k)),
  )

  protect_name-Holding :
      (table : Table) (b : Bool) (d : ObjectDict) (h : Handler Db)
      → Holding table h
      → Holding table (protect_name sql conf b d h)
  protect_name-Holding table true d h (cleared, found) = (
    cleared,
    (λ k.
        subst (λ r. Stored r (table k))
          (sym (laws.protected d.rpsl_pk d.source d.object_class h.db k)) (found k)),
  )
  protect_name-Holding table false d h holding = holding

  after_delete-Holding :
      (table : Table) (b : Bool) (origin : JournalEntryOrigin) (serial : Option ℕ)
      (row : Option Removed) (h : Handler Db)
      → Holding table h
      → Holds (Holding table) (after_delete sql conf b origin serial row h)
  after_delete-Holding table b origin serial none h holding = holding
  after_delete-Holding table b origin serial (some r) h holding =
      let d = r.row in
      Holds-bind (λ g. Same sql conf find laws g h) (Holding table) _ _
        (journal-Same sql conf find laws delete d.rpsl_pk d.source d.object_class d.object_text
          origin serial h)
        (λ g s. protect_name-Holding table b r.row _ (Same-Holding table g h s holding))

  if_none-Stored :
      (c : Bool) (old : Option ObjectDict) (before : Option RpslObject)
      → Stored old before
      → Stored (if c then none else old) (if c then none else before)
  if_none-Stored true old before h = tt
  if_none-Stored false old before h = h

  delete-Holding :
      (origin : JournalEntryOrigin) (o : Option RpslObject) (source pk class : String)
      (serial : Option ℕ) (protect : Bool) (h : Handler Db) (table : Table)
      → Sim sql conf find laws h table
      → Holds
          (Holding (written_at_once (remove origin o source pk class serial protect) table))
          (delete_rpsl_object sql conf origin o source pk class serial protect h)
  unfolding delete_rpsl_object
  delete-Holding origin o source pk class serial protect h table s =
      let source' = or_of source o (λ o'. o'.source) in
      let pk' = or_of pk o (λ o'. o'.pk) in
      let class' = or_of class o (λ o'. o'.rpsl_object_class) in
      let table' : Table = written_at_once (remove origin o source pk class serial protect) table in
      Holds-bind (λ g. Sim sql conf find laws g table × Cleared g) (Holding table') _ _
        (flushed-Sim sql conf find laws h table s)
        (λ g (sim, cleared).
          let (rows, db) = sql.delete_object pk' class' source' g.db in
          Holds-last (Holding table') (check_single_row_match rows) _ (λ row.
            after_delete-Holding table' (protects protect o) origin serial row
              (record g { db = db })
              (
                cleared,
                (λ k.
                    subst (λ d. Stored d (table' k)) (sym (laws.deleted pk' class' source' g.db k))
                      (if_none-Stored (key_is k pk' source' class') (find k g.db) (table k)
                        (Sim-found sql conf find laws g table sim cleared k))),
              )))

  write-Sim :
      (w : Write) (h : Handler Db) (table : Table)
      → Sim sql conf find laws h table
      → Holds (λ g. Sim sql conf find laws g (written_at_once w table)) (write sql conf w h)
  write-Sim (upsert o origin serial created) h table s =
      upsert-Sim sql conf find laws o origin serial created h table s
  write-Sim (remove origin o source pk class serial protect) h table s =
      Holds_mono (Holding (written_at_once (remove origin o source pk class serial protect) table))
        _ _ (delete-Holding origin o source pk class serial protect h table s)
        (λ g (cleared, found). Cleared-Sim sql conf find laws g _ cleared found)

  run_writes-Sim :
      (writes : List Write) (h : Handler Db) (table : Table)
      → Sim sql conf find laws h table
      → Holds
          (λ g. Sim sql conf find laws g (all_at_once writes table))
          (run_writes sql conf writes h)
  unfolding run_writes
  run_writes-Sim [] h table s = s
  run_writes-Sim (w ∷ writes) h table s =
      Holds-bind (λ g. Sim sql conf find laws g (written_at_once w table)) _ (write sql conf w h)
        (run_writes sql conf writes) (write-Sim w h table s)
        (λ g t. run_writes-Sim writes g (written_at_once w table) t)

  -- Let a handler with an empty buffer have a database that holds a table of objects. Once any sequence of upserts,
  -- without a promise that rows are new, and of deletions has run and the buffer is flushed, the database holds the
  -- table that the same sequence gives when each of them is written at once.
  pub run_writes-written_at_once :
      (writes : List Write) (h h' : Handler Db) (table : Table)
      → Cleared h
      → ((k : CompositeKey) → Stored (find k h.db) (table k))
      → (run_writes sql conf writes h >>= flushed sql conf) ≡ ok h'
      → (k : CompositeKey) → Stored (find k h'.db) (all_at_once writes table k)
  run_writes-written_at_once writes h h' table cleared found e =
      let final : Table = all_at_once writes table in
      let (sim, done) =
        Holds-ok (λ g. Sim sql conf find laws g final × Cleared g) _ h'
          (Holds-bind (λ g. Sim sql conf find laws g final) _ (run_writes sql conf writes h)
            (flushed sql conf)
            (run_writes-Sim writes h table (Cleared-Sim sql conf find laws h table cleared found))
            (λ g s. flushed-Sim sql conf find laws g final s))
          e in
      Sim-found sql conf find laws h' final sim done
