-- ===== src/Storage/Refine/Kept.antt =====
-- The journal of irrd/storage/database_handler.py leaves the table of the objects as it is.
use irrd.Base.{
  ℕ, String, ◌&&◌, ◌≡◌, refl, ◌∙◌, Option, List, [], ◌∷◌, string_eq, Bool-cases, inl, inr,
}
use irrd.NrtmOperation.{DatabaseOperation, add_or_update}
use irrd.Storage.{ObjectDict, CompositeKey, JournalEntryOrigin}
use irrd.Storage.Holds.{Holds, Holds-bind, Holds-if, Holds_mono, Holds-all}
use irrd.Storage.Sql.{Sql, HandlerSettings}
use irrd.Storage.Tracker.{Tracker, record_operation, write_journal, lock}
use irrd.Storage.Handler.{Handler, Buffered, journal, journal_buffer, is_visible_dict}
use irrd.Storage.Refine.{ObjectLaws}

module _ {Db : Type 0} (sql : Sql Db) (conf : HandlerSettings)
    (find : CompositeKey → Db → Option ObjectDict) (laws : ObjectLaws sql find) where
  -- A handler with the same buffer, and a database with the same objects
  pub record Same (g h : Handler Db) : Type 0 where
    pub same_seen : g.rpsl_pk_source_seen ≡ h.rpsl_pk_source_seen
    pub same_buffer : g.rpsl_upsert_buffer ≡ h.rpsl_upsert_buffer
    pub same_flag : g.rpsl_guaranteed_no_existing ≡ h.rpsl_guaranteed_no_existing
    pub same_found : (k : CompositeKey) → find k g.db ≡ find k h.db

  lock-find : (t : Tracker) (db : Db) (k : CompositeKey) → find k (lock sql conf t db) ≡ find k db
  lock-find t db k = elim (Bool-cases t.journal_table_locked) [
    | inl e ↦ rw (e)
    | inr e ↦ rw (e, laws.locked db k)
  ]

  -- Journal entries leave the table of the objects as it is.
  abbrev Kept : CompositeKey → Db → Tracker × Db → Type 0
  Kept k db (t', db') = find k db' ≡ find k db

  write_journal-find :
      (operation : DatabaseOperation) (pk source class text : String) (origin : JournalEntryOrigin)
      (serial : Option ℕ) (t : Tracker) (db : Db) (k : CompositeKey)
      → Holds (Kept k db) (write_journal sql conf operation pk source class text origin serial t db)
  unfolding write_journal
  write_journal-find operation pk source class text origin serial t db k =
      Holds-bind (λ (n, db'). find k db' ≡ find k (lock sql conf t db)) (Kept k db) _ _
        (laws.journaled _ (lock sql conf t db) k) (λ (n, db') e. e ∙ lock-find t db k)

  record_operation-find :
      (operation : DatabaseOperation) (pk source class text : String) (origin : JournalEntryOrigin)
      (serial : Option ℕ) (t : Tracker) (db : Db) (k : CompositeKey)
      → Holds
          (Kept k db)
          (record_operation sql conf operation pk source class text origin serial t db)
  unfolding record_operation
  record_operation-find operation pk source class text origin serial t db k =
      Holds-if (Kept k db) (t.journaling_enabled && _) _ _
        (λ e. write_journal-find operation pk source class text origin serial _ db k) (λ e. refl)

  pub journal-Same :
      (operation : DatabaseOperation) (pk source class text : String) (origin : JournalEntryOrigin)
      (serial : Option ℕ) (h : Handler Db)
      → Holds (λ g. Same g h) (journal sql conf operation pk source class text origin serial h)
  unfolding journal
  journal-Same operation pk source class text origin serial h =
      Holds-bind (λ r. (k : CompositeKey) → Kept k h.db r) (λ g. Same g h)
        (record_operation sql conf operation pk source class text origin serial h.status_tracker
          h.db)
        _
        (Holds-all (λ k. Kept k h.db) _
          (record_operation-find operation pk source class text origin serial h.status_tracker
            h.db))
        (λ r e. record { same_seen = refl; same_buffer = refl; same_flag = refl; same_found = e })

  Same-trans : (f g h : Handler Db) → Same g h → Same f g → Same f h
  Same-trans f g h s t = record {
    same_seen = t.same_seen ∙ s.same_seen;
    same_buffer = t.same_buffer ∙ s.same_buffer;
    same_flag = t.same_flag ∙ s.same_flag;
    same_found = λ k. t.same_found k ∙ s.same_found k;
  }

  pub journal_buffer-Same :
      (buffer : List Buffered) (h : Handler Db)
      → Holds (λ g. Same g h) (journal_buffer sql conf buffer h)
  unfolding journal_buffer
  journal_buffer-Same [] h = record {
    same_seen = refl;
    same_buffer = refl;
    same_flag = refl;
    same_found = λ k. refl;
  }
  journal_buffer-Same ((d, (origin, serial)) ∷ rest) h =
      Holds-if (λ g. Same g h) (is_visible_dict d) _ _
        (λ e.
          Holds-bind (λ g. Same g h) (λ f. Same f h) _ (journal_buffer sql conf rest)
            (journal-Same add_or_update d.rpsl_pk d.source d.object_class d.object_text origin
              serial h)
            (λ g s.
              Holds_mono (λ f. Same f g) (λ f. Same f h) _ (journal_buffer-Same rest g)
                (λ f t. Same-trans f g h s t)))
        (λ e. journal_buffer-Same rest h)
