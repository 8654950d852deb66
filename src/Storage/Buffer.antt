-- ===== src/Storage/Buffer.antt =====
-- irrd/storage/database_handler.py: the buffer of the objects that wait to be written, over all runs of `DatabaseHandler`.
use irrd.Base.{
  ℕ, ◌+◌, ◌≤◌, String, Bool, true, false, ◌≡◌, refl, sym, ap, subst, Option, List, [], ◌∷◌, ◌++◌,
  map, length, length-append, contains, distinct, distinct-add, add, is_nil, ltb, string_eq, arith,
}
use irrd.Storage.{ok, ◌>>=◌, JournalEntryOrigin, RpslObject}
use irrd.Storage.Holds.{Holds, Holds-bind, Holds-last, Holds-if, Holds_mono}
use irrd.Storage.Sql.{Sql, HandlerSettings}
use irrd.Storage.Tracker.{record_operation}
use irrd.Storage.Handler.{
  Handler, Buffered, max_records_buffer, pk_source, journal, schedule, check_write_permitted,
  flush_rpsl_object_writing_buffer, upsert_rpsl_object, object_dict,
}
use irrd.NrtmOperation.{DatabaseOperation}

abbrev pub buffered_key : Buffered → String
buffered_key (d, o) = pk_source d.rpsl_pk d.source

-- The keys that were seen are those of the buffer, which has no two rows of one key and keeps to the bound.
pub record Consistent (seen : List String) (buffer : List Buffered) : Type 0 where
  pub pending : seen ≡ map buffered_key buffer
  pub apart : distinct seen ≡ true
  pub small : length buffer ≤ max_records_buffer

abbrev pub HandlerConsistent : {Db : Type 0} → Handler Db → Type 0
HandlerConsistent h = Consistent h.rpsl_pk_source_seen h.rpsl_upsert_buffer

abbrev pub Cleared : {Db : Type 0} → Handler Db → Type 0
Cleared h = (h.rpsl_pk_source_seen ≡ []) × (h.rpsl_upsert_buffer ≡ [])

pub empty-Consistent : Consistent [] []
empty-Consistent = record { pending = refl; apart = refl; small = omega arith }

pub map-append_one :
    {A B : Type 0} (f : A → B) (xs : List A) (a : A) → map f (xs ++ a ∷ []) ≡ map f xs ++ f a ∷ []
map-append_one f [] a = refl
map-append_one f (x ∷ xs) a = ap (λ ys. f x ∷ ys) (map-append_one f xs a)

length-append_one : {A : Type 0} (xs : List A) (a : A) → length (xs ++ a ∷ []) ≡ length xs + 1
length-append_one xs a = length-append xs (a ∷ [])

-- A row with a key that was not seen joins the buffer.
pub join-pending :
    (seen : List String) (buffer : List Buffered) (b : Buffered)
    → seen ≡ map buffered_key buffer
    → contains seen (buffered_key b) ≡ false
    → add (buffered_key b) seen ≡ map buffered_key (buffer ++ b ∷ [])
join-pending seen buffer b p e = rw (e, p, map-append_one buffered_key buffer b)

module _ {Db : Type 0} (sql : Sql Db) (conf : HandlerSettings) where
  -- Journal entries leave the buffer as it is.
  pub journal-keeps :
      (P : List String → List Buffered → Type 0) (operation : DatabaseOperation)
      (pk source class text : String) (origin : JournalEntryOrigin) (serial : Option ℕ)
      (h : Handler Db)
      → P h.rpsl_pk_source_seen h.rpsl_upsert_buffer
      → Holds
          (λ h'. P h'.rpsl_pk_source_seen h'.rpsl_upsert_buffer)
          (journal sql conf operation pk source class text origin serial h)
  unfolding journal
  journal-keeps P operation pk source class text origin serial h p =
      Holds-last _
        (record_operation sql conf operation pk source class text origin serial h.status_tracker
          h.db)
        _ (λ (t, db). p)

  is_nil-map :
      (seen : List String) (buffer : List Buffered)
      → is_nil buffer ≡ true
      → seen ≡ map buffered_key buffer
      → (seen ≡ []) × (buffer ≡ [])
  is_nil-map seen [] e p = (p, refl)
  is_nil-map seen (b ∷ buffer) e p = cc

  -- A flush leaves nothing in the buffer.
  pub flush-Cleared :
      (h : Handler Db)
      → h.rpsl_pk_source_seen ≡ map buffered_key h.rpsl_upsert_buffer
      → Holds Cleared (flush_rpsl_object_writing_buffer sql conf h)
  unfolding flush_rpsl_object_writing_buffer
  flush-Cleared h p =
      Holds-if _ (is_nil h.rpsl_upsert_buffer) (ok h) _
        (λ e. is_nil-map h.rpsl_pk_source_seen h.rpsl_upsert_buffer e p)
        (λ e. Holds-last _ (check_write_permitted h >>= _ >>= _) _ (λ h'. (refl, refl)))

  -- What holds of the buffer and of an empty one holds after a flush.
  pub flush-keeps :
      (P : List String → List Buffered → Type 0) (h : Handler Db)
      → P [] []
      → P h.rpsl_pk_source_seen h.rpsl_upsert_buffer
      → Holds
          (λ h'. P h'.rpsl_pk_source_seen h'.rpsl_upsert_buffer)
          (flush_rpsl_object_writing_buffer sql conf h)
  unfolding flush_rpsl_object_writing_buffer
  flush-keeps P h empty p =
      Holds-if _ (is_nil h.rpsl_upsert_buffer) (ok h) _ (λ e. p)
        (λ e. Holds-last _ (check_write_permitted h >>= _ >>= _) _ (λ h'. empty))

  pub check-keeps :
      (P : Handler Db → Type 0) (h : Handler Db) → P h → Holds P (check_write_permitted h)
  check-keeps P h p = Holds-if P h.readonly _ _ (λ e. tt) (λ e. p)

  Cleared-Consistent : (h : Handler Db) → Cleared h → HandlerConsistent h
  Cleared-Consistent h (e, f) =
      subst (λ s. Consistent s h.rpsl_upsert_buffer) (sym e)
        (subst (λ b. Consistent [] b) (sym f) empty-Consistent)

  -- After the first half of an upsert the key has not been seen.
  abbrev Unseen : String → Handler Db → Type 0
  Unseen key h = HandlerConsistent h × (contains h.rpsl_pk_source_seen key ≡ false)

  Cleared-Unseen : (key : String) (h : Handler Db) → Cleared h → Unseen key h
  Cleared-Unseen key h (e, f) = (Cleared-Consistent h (e, f), ap (λ s. contains s key) e)

  schedule-pending :
      (o : RpslObject) (origin : JournalEntryOrigin) (serial created : Option ℕ) (h : Handler Db)
      → Unseen (pk_source o.pk o.source) h
      → (let s = schedule sql conf o origin serial created h in
          s.rpsl_pk_source_seen ≡ map buffered_key s.rpsl_upsert_buffer)
  unfolding schedule
  schedule-pending o origin serial created h (c, e) =
      join-pending h.rpsl_pk_source_seen h.rpsl_upsert_buffer
        (object_dict o created (sql.now h.db), (origin, serial)) c.pending e

  schedule-Consistent :
      (o : RpslObject) (origin : JournalEntryOrigin) (serial created : Option ℕ) (h : Handler Db)
      → Unseen (pk_source o.pk o.source) h
      → (let s = schedule sql conf o origin serial created h in
          ltb max_records_buffer (length s.rpsl_upsert_buffer) ≡ false → HandlerConsistent s)
  unfolding schedule
  schedule-Consistent o origin serial created h (c, e) few = record {
    pending = schedule-pending o origin serial created h (c, e);
    apart = distinct-add (pk_source o.pk o.source) h.rpsl_pk_source_seen c.apart;
    small = ground arith;
  }

  pub upsert-Consistent :
      (o : RpslObject) (origin : JournalEntryOrigin) (guaranteed : Bool) (serial created : Option ℕ)
      (h : Handler Db)
      → HandlerConsistent h
      → Holds HandlerConsistent (upsert_rpsl_object sql conf o origin guaranteed serial created h)
  unfolding upsert_rpsl_object
  upsert-Consistent o origin guaranteed serial created h c =
      Holds-bind (Unseen (pk_source o.pk o.source)) HandlerConsistent _ _
        (Holds-bind HandlerConsistent _ (check_write_permitted h) _
          (check-keeps HandlerConsistent h c)
          (λ h' c'.
            Holds-if _ (contains h'.rpsl_pk_source_seen (pk_source o.pk o.source)) _ _
              (λ seen.
                Holds_mono Cleared _ _ (flush-Cleared _ c'.pending)
                  (Cleared-Unseen (pk_source o.pk o.source)))
              (λ new. (c', new))))
        (λ g u.
          Holds-if HandlerConsistent _ _ _
            (λ many.
              Holds_mono Cleared _ _
                (flush-Cleared _ (schedule-pending o origin serial created g u)) Cleared-Consistent)
            (λ few. schedule-Consistent o origin serial created g u few))
