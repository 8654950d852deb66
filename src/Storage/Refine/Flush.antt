-- ===== src/Storage/Refine/Flush.antt =====
-- irrd/storage/database_handler.py: the buffer and the database together hold the table, also after a flush and an upsert.
use irrd.Base.{
  ℕ, String, Bool, true, false, not, ◌||◌, ◌≡◌, refl, sym, ap, subst, ◌∙◌, Option, some, List, [],
  ◌∷◌, ◌++◌, map, length, ltb, is_nil, contains, distinct, distinct-add, string_eq, if◌then◌else◌,
  arith,
}
use irrd.Storage.{ok, ObjectDict, CompositeKey, RpslObject, JournalEntryOrigin}
use irrd.Storage.Holds.{Holds, Holds-bind, Holds-if, Holds_mono, Holds_both}
use irrd.Storage.Sql.{Sql, HandlerSettings}
use irrd.Storage.Handler.{
  Handler, Buffered, max_records_buffer, journal_buffer, object_dict, pk_source, schedule,
  flush_rpsl_object_writing_buffer, upsert_rpsl_object, check_write_permitted, write_objects,
}
use irrd.Storage.Operations.{flushed}
use irrd.Storage.Buffer.{
  buffered_key, Cleared, flush-Cleared, check-keeps, join-pending, map-append_one,
}
use irrd.Storage.Reachable.{row_of, distinct-Unique}
use irrd.Storage.Refine.{
  has_key, written, ObjectLaws, Table, Stored, upsert, written_at_once, written-append_one,
}
use irrd.Storage.Refine.Kept.{Same, journal_buffer-Same}

module _ {Db : Type 0} (sql : Sql Db) (conf : HandlerSettings)
    (find : CompositeKey → Db → Option ObjectDict) (laws : ObjectLaws sql find) where
  -- The table as a query would see it after a flush
  abbrev view : Handler Db → CompositeKey → Option ObjectDict
  view h k = written (map row_of h.rpsl_upsert_buffer) k (find k h.db)

  pub record Sim (h : Handler Db) (table : Table) : Type 0 where
    pending : h.rpsl_pk_source_seen ≡ map buffered_key h.rpsl_upsert_buffer
    apart : distinct h.rpsl_pk_source_seen ≡ true
    flagged : (is_nil h.rpsl_upsert_buffer || not h.rpsl_guaranteed_no_existing) ≡ true
    stored : (k : CompositeKey) → Stored (view h k) (table k)

  -- A flush of rows that were not promised to be new writes them all.
  write_objects-written :
      (guaranteed : Bool) (buffer : List Buffered) (db : Db)
      → guaranteed ≡ false
      → distinct (map buffered_key buffer) ≡ true
      → (db' : Db) × (write_objects sql conf guaranteed (map row_of buffer) db ≡ ok db')
        × ((k : CompositeKey) → find k db' ≡ written (map row_of buffer) k (find k db))
  write_objects-written true buffer db e u = cc
  write_objects-written false buffer db e u =
      laws.upserted (map row_of buffer) db (distinct-Unique buffer u)

  -- The database has what a query after a flush of this handler would see.
  abbrev Flushed : Handler Db → Db → Type 0
  Flushed h db = (k : CompositeKey) → find k db ≡ view h k

  flag_unset : (b c : Bool) → b ≡ false → (b || not c) ≡ true → c ≡ false
  flag_unset b c e f = ground arith

  write_buffer-Flushed :
      (h : Handler Db) (table : Table)
      → Sim h table
      → is_nil h.rpsl_upsert_buffer ≡ false
      → Holds (Flushed h) (
          write_objects sql conf h.rpsl_guaranteed_no_existing
            (map row_of h.rpsl_upsert_buffer)
            h.db)
  write_buffer-Flushed h table s e =
      let (db', same, found) =
        write_objects-written h.rpsl_guaranteed_no_existing h.rpsl_upsert_buffer h.db
          (flag_unset _ _ e s.flagged) (subst (λ seen. distinct seen ≡ true) s.pending s.apart) in
      subst (λ r. Holds (Flushed h) r) (sym same) found

  -- The same table, and the same promise about the rows
  abbrev Carried : Table → Handler Db → Handler Db → Type 0
  Carried table h g = Sim g table × (g.rpsl_guaranteed_no_existing ≡ h.rpsl_guaranteed_no_existing)

  flush-Sim :
      (h : Handler Db) (table : Table)
      → Sim h table
      → Holds (Carried table h) (flush_rpsl_object_writing_buffer sql conf h)
  unfolding flush_rpsl_object_writing_buffer
  flush-Sim h table s =
      let P : Handler Db → Type 0 =
        (λ g. Flushed h g.db × (g.rpsl_guaranteed_no_existing ≡ h.rpsl_guaranteed_no_existing)) in
      Holds-if (Carried table h) (is_nil h.rpsl_upsert_buffer) _ _ (λ e. (s, refl))
        (λ e.
          Holds-bind P (Carried table h) _
            (λ g. ok (record g { rpsl_pk_source_seen = []; rpsl_upsert_buffer = [] }))
            (Holds-bind (Flushed h) P _
              (λ db. journal_buffer sql conf h.rpsl_upsert_buffer (record h { db = db }))
              (Holds-bind (λ g. g ≡ h) (Flushed h) (check_write_permitted h) _
                (check-keeps sql conf (λ g. g ≡ h) h refl)
                (λ g same.
                  subst
                    (λ f. Holds (Flushed h) (
                      write_objects sql conf f.rpsl_guaranteed_no_existing
                        (map row_of f.rpsl_upsert_buffer) f.db))
                    (sym same) (write_buffer-Flushed h table s e)))
              (λ db found.
                Holds_mono (λ g. Same sql conf find laws g (record h { db = db })) P _
                  (journal_buffer-Same sql conf find laws h.rpsl_upsert_buffer
                    (record h { db = db }))
                  (λ g t. ((λ k. t.same_found k ∙ found k), t.same_flag))))
            (λ g (found, flag).
              (let sim : Sim (record g { rpsl_pk_source_seen = []; rpsl_upsert_buffer = [] })
                    table =
                  record {
                    pending = refl;
                    apart = refl;
                    flagged = refl;
                    stored = λ k. subst (λ d. Stored d (table k)) (sym (found k)) (s.stored k);
                  } in
                (sim, flag))))

  or_true : (b : Bool) → (b || true) ≡ true
  or_true true = refl
  or_true false = refl

  abbrev Unseen : Table → String → Handler Db → Type 0
  Unseen table key g =
      Sim g table
      × (g.rpsl_guaranteed_no_existing ≡ false)
      × (contains g.rpsl_pk_source_seen key ≡ false)

  first_half-Unseen :
      (key : String) (h : Handler Db) (table : Table)
      → Sim h table
      → (let g = record h { rpsl_guaranteed_no_existing = false } in
          Holds (Unseen table key) (
            if contains g.rpsl_pk_source_seen key
            then flush_rpsl_object_writing_buffer sql conf g
            else ok g))
  first_half-Unseen key h table s =
      let g : Handler Db = record h { rpsl_guaranteed_no_existing = false } in
      let sim : Sim g table = record {
        pending = s.pending;
        apart = s.apart;
        flagged = or_true (is_nil h.rpsl_upsert_buffer);
        stored = s.stored;
      } in
      Holds-if (Unseen table key) (contains g.rpsl_pk_source_seen key) _ _
        (λ e.
          Holds_mono (λ f. Carried table g f × Cleared f) (Unseen table key) _
            (Holds_both (Carried table g) Cleared _ (flush-Sim g table sim)
              (flush-Cleared sql conf g s.pending))
            (λ f ((carried, flag), (seen, buffer)). (carried, flag, ap (λ t. contains t key) seen)))
        (λ e. (sim, refl, e))

  if-Stored :
      (c : Bool) (d : ObjectDict) (o : RpslObject) (old : Option ObjectDict)
      (before : Option RpslObject)
      → Stored (some d) (some o)
      → Stored old before
      → Stored (if c then some d else old) (if c then some o else before)
  if-Stored true d o old before h k = h
  if-Stored false d o old before h k = k

  scheduled-Stored :
      (o : RpslObject) (origin : JournalEntryOrigin) (serial created : Option ℕ) (h : Handler Db)
      (table : Table)
      → Sim h table
      → (k : CompositeKey)
      → Stored
          (view (schedule sql conf o origin serial created h) k)
          (written_at_once (upsert o origin serial created) table k)
  unfolding schedule
  scheduled-Stored o origin serial created h table s k =
      let d : ObjectDict = object_dict o created (sql.now h.db) in
      let b : Buffered = (d, (origin, serial)) in
      let rows : List ObjectDict = map row_of h.rpsl_upsert_buffer in
      subst (λ v. Stored v (written_at_once (upsert o origin serial created) table k))
        (sym (
          ap (λ r. written r k (find k h.db)) (map-append_one row_of h.rpsl_upsert_buffer b)
          ∙ written-append_one rows d k (find k h.db)))
        (if-Stored (has_key k d) d o (view h k) (table k) (created, sql.now h.db, refl)
          (s.stored k))

  schedule-Sim :
      (o : RpslObject) (origin : JournalEntryOrigin) (serial created : Option ℕ) (h : Handler Db)
      (table : Table)
      → Unseen table (pk_source o.pk o.source) h
      → Sim
          (schedule sql conf o origin serial created h)
          (written_at_once (upsert o origin serial created) table)
  unfolding schedule
  schedule-Sim o origin serial created h table (s, flag, new) =
      let b : Buffered = (object_dict o created (sql.now h.db), (origin, serial)) in
      record {
        pending = join-pending h.rpsl_pk_source_seen h.rpsl_upsert_buffer b s.pending new;
        apart = distinct-add (pk_source o.pk o.source) h.rpsl_pk_source_seen s.apart;
        flagged = ap (λ c. is_nil (h.rpsl_upsert_buffer ++ b ∷ []) || not c) flag ∙ or_true _;
        stored = λ k. scheduled-Stored o origin serial created h table s k;
      }

  pub upsert-Sim :
      (o : RpslObject) (origin : JournalEntryOrigin) (serial created : Option ℕ) (h : Handler Db)
      (table : Table)
      → Sim h table
      → Holds
          (λ g. Sim g (written_at_once (upsert o origin serial created) table))
          (upsert_rpsl_object sql conf o origin false serial created h)
  unfolding upsert_rpsl_object
  upsert-Sim o origin serial created h table s =
      let table' : Table = written_at_once (upsert o origin serial created) table in
      Holds-bind (Unseen table (pk_source o.pk o.source)) (λ g. Sim g table') _ _
        (Holds-bind (λ g. Sim g table) _ (check_write_permitted h) _
          (check-keeps sql conf (λ g. Sim g table) h s)
          (λ g t. first_half-Unseen (pk_source o.pk o.source) g table t))
        (λ g u.
          let sim = schedule-Sim o origin serial created g table u in
          Holds-if (λ f. Sim f table')
            (ltb max_records_buffer
              (length (schedule sql conf o origin serial created g).rpsl_upsert_buffer))
            _ (ok (schedule sql conf o origin serial created g))
            (λ many.
              Holds_mono (Carried table' (schedule sql conf o origin serial created g)) _ _
                (flush-Sim (schedule sql conf o origin serial created g) table' sim)
                (λ f (t, flag). t))
            (λ few. sim))

  pub flushed-Sim :
      (h : Handler Db) (table : Table)
      → Sim h table
      → Holds (λ g. Sim g table × Cleared g) (flushed sql conf h)
  flushed-Sim h table s =
      Holds-bind (λ g. Sim g table) _ (check_write_permitted h) _
        (check-keeps sql conf (λ g. Sim g table) h s)
        (λ g t.
          Holds_mono (λ f. Carried table g f × Cleared f) _ _
            (Holds_both (Carried table g) Cleared _ (flush-Sim g table t)
              (flush-Cleared sql conf g t.pending))
            (λ f ((carried, flag), cleared). (carried, cleared)))

  -- With an empty buffer, the table is what the database has.
  pub Cleared-Sim :
      (h : Handler Db) (table : Table)
      → Cleared h
      → ((k : CompositeKey) → Stored (find k h.db) (table k))
      → Sim h table
  Cleared-Sim h table (seen, buffer) found = record {
    pending = seen ∙ ap (map buffered_key) (sym buffer);
    apart = ap distinct seen;
    flagged = ap (λ b. is_nil b || not h.rpsl_guaranteed_no_existing) buffer;
    stored = λ k.
        subst (λ b. Stored (written (map row_of b) k (find k h.db)) (table k)) (sym buffer)
          (found k);
  }

  pub Sim-found :
      (h : Handler Db) (table : Table)
      → Sim h table
      → Cleared h
      → (k : CompositeKey) → Stored (find k h.db) (table k)
  Sim-found h table s (seen, buffer) k =
      subst (λ b. Stored (written (map row_of b) k (find k h.db)) (table k)) buffer (s.stored k)
