-- ===== src/Storage/Ranges.antt =====
-- irrd/storage/database_handler.py: the range of serials that `finalise_transaction` records.
use irrd.Base.{
  ℕ, String, Bool, false, ◌≡◌, refl, sym, ap, ◌∙◌, some, List, [], ◌∷◌, ◌==◌, string_eq, nat_eq,
  Bool-cases, ◌⊎◌, inl, inr, In, beq_iff,
}
use irrd.Storage.{StatusRow, ok}
use irrd.Storage.Sql.{Sql, HandlerSettings}
use irrd.Storage.Tracker.{
  Tracker, fresh, serials_of, cached_synchronised, each, finalise_sources, finalise_transaction,
}
use irrd.Storage.Seen.{StatusLaws, Covers, HasRow, finalise_serials-Covers}
use irrd.Storage.Known.{
  Step, seen_serials, run_steps, EntryLaws, serials_of-In, run_steps-known, true-false,
}

-- What the other statements of `finalise_transaction` do to the serials of a status row
pub record RowLaws {Db : Type 0} (sql : Sql Db) : Type 0 where
  pub upserted :
      (s : String) (b : Bool) (db : Db)
      → (row : StatusRow) × (sql.status s (sql.upsert_status s b db) ≡ some row)
  pub upserted_other :
      (s s' : String) (b : Bool) (db : Db)
      → (s == s') ≡ false
      → sql.status s' (sql.upsert_status s b db) ≡ sql.status s' db
  pub dated :
      (s s' : String) (db : Db) → sql.status s' (sql.set_data_updated s db) ≡ sql.status s' db
  pub failed :
      (s s' e : String) (db : Db) → sql.status s' (sql.set_last_error s e db) ≡ sql.status s' db
  pub mirrored :
      (s s' : String) (n : ℕ) (db : Db)
      → sql.status s' (sql.set_newest_mirror s n db) ≡ sql.status s' db
  pub exported :
      (s s' : String) (n : ℕ) (db : Db)
      → sql.status s' (sql.set_last_export s n db) ≡ sql.status s' db
  pub client :
      (s s' : String) (c : _) (db : Db)
      → sql.status s' (sql.set_client_status s c db) ≡ sql.status s' db
  pub server :
      (s s' : String) (c : _) (db : Db)
      → sql.status s' (sql.set_server_status s c db) ≡ sql.status s' db

module _ {Db : Type 0} (sql : Sql Db) (conf : HandlerSettings) (laws : StatusLaws sql)
    (rows : RowLaws sql) (source : String) where
  upsert_status-HasRow :
      (s : String) (b : Bool) (db : Db)
      → (s ≡ source) ⊎ HasRow sql conf laws source db
      → HasRow sql conf laws source (sql.upsert_status s b db)
  upsert_status-HasRow s b db h = elim (Bool-cases (s == source)) [
    | inl same ↦
        let (row, e) = rows.upserted s b db in
        (
          row,
          ap (λ x. sql.status x (sql.upsert_status s b db)) (sym ((beq_iff s source).0 same)) ∙ e,
        )
    | inr other ↦ elim h [
      | inl same ↦ absurd (true-false (s == source) ((beq_iff s source).1 same) other)
      | inr (row, e) ↦ (row, rows.upserted_other s source b db other ∙ e)
    ]
  ]

  finalise_sources-HasRow :
      (sources : List String) (t : Tracker) (db : Db)
      → In source sources ⊎ HasRow sql conf laws source db
      → HasRow sql conf laws source ((finalise_sources sql conf sources t db).1)
  unfolding finalise_sources
  finalise_sources-HasRow [] t db (inl m) = absurd m
  finalise_sources-HasRow [] t db (inr h) = h
  finalise_sources-HasRow (s ∷ sources) t db h =
      let (b, t') = cached_synchronised sql conf s t db in
      finalise_sources-HasRow sources t' (sql.upsert_status s b db) (elim h [
        | inl (inl same) ↦ inr (upsert_status-HasRow s b db (inl same))
        | inl (inr m) ↦ inl m
        | inr row ↦ inr (upsert_status-HasRow s b db (inr row))
      ])

  -- A loop over statements that keep the row
  each-status :
      {A : Type 0} (f : A → Db → Db)
      → ((a : A) (db : Db) → sql.status source (f a db) ≡ sql.status source db)
      → (as_list : List A) (db : Db)
      → sql.status source (each sql conf f as_list db) ≡ sql.status source db
  each-status f h [] db = refl
  each-status f h (a ∷ rest) db = each-status f h rest (f a db) ∙ h a db

  Covers-same :
      (k : ℕ) (db db' : Db)
      → sql.status source db' ≡ sql.status source db
      → Covers sql conf laws source k db
      → Covers sql conf laws source k db'
  Covers-same k db db' e (row, f, between) = (row, e ∙ f, between)

  finalise_transaction-known :
      (t : Tracker) (db : Db) (k : ℕ)
      → In k (serials_of source t.new_serials_per_source)
      → In source t.sources_seen
      → Covers sql conf laws source k ((finalise_transaction sql conf t db).1)
  unfolding finalise_transaction
  finalise_transaction-known t db k m seen =
      let (t', statuses) = finalise_sources sql conf t.sources_seen t db in
      let dated = each sql conf sql.set_data_updated t.sources_rpsl_data_updated statuses in
      let (row, e) = finalise_sources-HasRow t.sources_seen t db (inl seen) in
      let kept =
        each-status sql.set_data_updated (λ s d. rows.dated s source d) t.sources_rpsl_data_updated
          statuses in
      let covered =
        finalise_serials-Covers sql conf laws source t.new_serials_per_source row k dated (kept ∙ e)
          (inl (serials_of-In source k t.new_serials_per_source m)) in
      Covers-same k _ _
        (each-status (λ (s, c). sql.set_server_status s c) (λ (s, c) d. rows.server s source c d)
            t.nrtm4_server_status _
          ∙ each-status (λ (s, c). sql.set_client_status s c) (λ (s, c) d. rows.client s source c d)
              t.nrtm4_client_status _
          ∙ each-status (λ (s, n). sql.set_last_export s n) (λ (s, n) d. rows.exported s source n d)
              t.exported_serials _
          ∙ each-status (λ (s, n). sql.set_newest_mirror s n)
              (λ (s, n) d. rows.mirrored s source n d) t.newest_mirror_serials _
          ∙ each-status (λ (s, e'). sql.set_last_error s e')
              (λ (s, e') d. rows.failed s source e' d) t.mirroring_error _)
        covered

  -- Given what the statements do to the status rows and the journal: when `finalise_transaction` ends, the range of serials
  -- of a source that is recorded in its status row has the serial of every journal entry that the
  -- changes recorded before it added for the source, and every serial that `record_serial_seen` was called with before it.
  pub finalise_transaction-Covers :
      (entries : Db → List (String × ℕ)) (inserts : EntryLaws sql entries) (steps : List Step)
      (journaling : Bool) (t : Tracker) (db0 db : Db) (k : ℕ)
      → run_steps sql conf steps (fresh journaling) db0 ≡ ok (t, db)
      → (In (source, k) (entries db) × ¬ In (source, k) (entries db0))
        ⊎ In (source, k) (seen_serials steps)
      → Covers sql conf laws source k ((finalise_transaction sql conf t db).1)
  finalise_transaction-Covers entries inserts steps journaling t db0 db k e came =
      let (known, seen) =
        run_steps-known sql conf entries inserts db0 steps journaling t db source k e came in
      finalise_transaction-known t db k known seen
