-- ===== src/Storage/Known.antt =====
-- irrd/storage/database_handler.py: what DatabaseStatusTracker knows of the serials that come up in a transaction.
use irrd.Base.{
  ℕ, String, Bool, true, false, ◌≡◌, refl, sym, subst, List, [], ◌∷◌, ◌++◌, ◌==◌, ◌&&◌, string_eq,
  nat_eq, add, Bool-cases, ◌⊎◌, inl, inr, In, In-append, In-append_left, In-append_right,
  In-add_old, In-add_new, if◌then◌else◌, beq_refl, beq_iff, arith,
}
use irrd.Conf.{source_settings}
use irrd.Storage.{JournalEntry, Result, ok, ◌>>=◌}
use irrd.Storage.Holds.{Holds, Holds-ok, Holds-bind, Holds-if, Holds_mono}
use irrd.Storage.Sql.{Sql, HandlerSettings}
use irrd.Storage.Tracker.{
  Tracker, fresh, serials_of, add_serial, record_serial_seen, lock, write_journal, record_operation,
  note_update,
}
use irrd.Storage.Journal.{Operation, serials-insert_same, serials-insert_other}

-- The calls that bring up serials
pub data Step : Type 0 where
  recorded : Operation → Step
  serial_seen : String → ℕ → Step

-- The serials that `record_serial_seen` is called with
abbrev pub seen_serials : List Step → List (String × ℕ)
seen_serials [] = []
seen_serials (recorded o ∷ steps) = seen_serials steps
seen_serials (serial_seen source n ∷ steps) = (source, n) ∷ seen_serials steps

module _ {Db : Type 0} (sql : Sql Db) (conf : HandlerSettings) where
  abbrev pub run_step : Step → Tracker → Db → Result (Tracker × Db)
  run_step (recorded o) t db =
      record_operation sql conf o.operation o.rpsl_pk o.source o.object_class o.object_text o.origin
        o.source_serial t db
  run_step (serial_seen source n) t db = ok (record_serial_seen source n t, db)

  unfoldable pub run_steps : List Step → Tracker → Db → Result (Tracker × Db)
  run_steps [] t db = ok (t, db)
  run_steps (s ∷ steps) t db = run_step s t db >>= λ (t', db'). run_steps steps t' db'

-- The serials of the journal, by source: an insert adds the one that it returns.
pub record EntryLaws {Db : Type 0} (sql : Sql Db) (entries : Db → List (String × ℕ)) : Type 0 where
  pub inserted :
      (entry : JournalEntry) (db : Db)
      → Holds
          (λ (n, db').
            (s : String) (k : ℕ)
            → In (s, k) (entries db')
            → In (s, k) (entries db) ⊎ ((entry.source ≡ s) × (n ≡ k)))
          (sql.insert_journal entry db)
  pub locked : (db : Db) → entries (sql.lock_journal db) ≡ entries db

pub true-false : (b : Bool) → b ≡ true → b ≡ false → ⊥
true-false b e f = cc

pair_of : (a b : String) (c d : List ℕ) → a ≡ b → c ≡ d → ◌≡◌ {A = String × List ℕ} (a, c) (b, d)
pair_of a b c d e f = rw (e, f)

pub serials_of-In :
    (s : String) (k : ℕ) (all : List (String × List ℕ))
    → In k (serials_of s all)
    → (ns : List ℕ) × In (s, ns) all × In k ns
serials_of-In s k [] m = absurd m
serials_of-In s k ((j, v) ∷ all) m = elim (Bool-cases (j == s)) [
  | inl same ↦
      let own : serials_of s ((j, v) ∷ all) ≡ v = ground arith in
      (v, inl (pair_of j s v v ((beq_iff j s).0 same) refl), subst (λ ns. In k ns) own m)
  | inr other ↦
      let rest : serials_of s ((j, v) ∷ all) ≡ serials_of s all = ground arith in
      let (ns, i, n) = serials_of-In s k all (subst (λ ns. In k ns) rest m) in (ns, inr i, n)
]

In-add_serial_old :
    (s s' : String) (n k : ℕ) (all : List (String × List ℕ))
    → In k (serials_of s all)
    → In k (serials_of s (add_serial s' n all))
In-add_serial_old s s' n k all m = elim (Bool-cases (s' == s)) [
  | inl same ↦
      subst (λ ns. In k ns) (sym (serials-insert_same s' s (add n (serials_of s' all)) all same))
        (In-add_old k n (serials_of s' all)
          (subst (λ x. In k (serials_of x all)) (sym ((beq_iff s' s).0 same)) m))
  | inr other ↦
      subst (λ ns. In k ns) (sym (serials-insert_other s' s (add n (serials_of s' all)) all other))
        m
]

In-add_serial_new :
    (s : String) (n : ℕ) (all : List (String × List ℕ)) → In n (serials_of s (add_serial s n all))
In-add_serial_new s n all =
    subst (λ ns. In n ns)
      (sym (serials-insert_same s s (add n (serials_of s all)) all (beq_refl s)))
      (In-add_new n (serials_of s all))

add_serial-In :
    (s s' : String) (n k : ℕ) (all : List (String × List ℕ))
    → In k (serials_of s (add_serial s' n all))
    → In k (serials_of s all) ⊎ (s' ≡ s)
add_serial-In s s' n k all m = elim (Bool-cases (s' == s)) [
  | inl same ↦ inr ((beq_iff s' s).0 same)
  | inr other ↦
      inl
        (subst (λ ns. In k ns) (serials-insert_other s' s (add n (serials_of s' all)) all other) m)
]

module _ {Db : Type 0} (sql : Sql Db) (conf : HandlerSettings) (entries : Db → List (String × ℕ))
    (laws : EntryLaws sql entries) (db0 : Db) where
  -- What the tracker knows of the serials that came up since `db0`
  record Tracks (seen : List (String × ℕ)) (t : Tracker) (db : Db) : Type 0 where
    journaled :
        (s : String) (k : ℕ)
        → In (s, k) (entries db)
        → In (s, k) (entries db0) ⊎ In k (serials_of s t.new_serials_per_source)
    known : (s : String) (k : ℕ) → In (s, k) seen → In k (serials_of s t.new_serials_per_source)
    in_sources :
        (s : String) (k : ℕ) → In k (serials_of s t.new_serials_per_source) → In s t.sources_seen

  -- A serial is added, for a source that has been seen.
  added-Tracks :
      (seen : List (String × ℕ)) (t t' : Tracker) (db db' : Db) (source : String) (n : ℕ)
      → Tracks seen t db
      → t'.new_serials_per_source ≡ add_serial source n t.new_serials_per_source
      → t'.sources_seen ≡ add source t.sources_seen
      → ((s : String) (k : ℕ)
          → In (s, k) (entries db')
          → In (s, k) (entries db) ⊎ ((source ≡ s) × (n ≡ k)))
      → Tracks seen t' db'
  added-Tracks seen t t' db db' source n c e f h = record {
    journaled = λ s k m. elim (h s k m) [
      | inl old ↦ elim (c.journaled s k old) [
        | inl before ↦ inl before
        | inr kept ↦ inr (
            subst (λ all. In k (serials_of s all)) (sym e)
              (In-add_serial_old s source n k t.new_serials_per_source kept))
      ]
      | inr (here, same) ↦ inr (
          subst (λ all. In k (serials_of s all)) (sym e)
            (subst (λ x. In x (serials_of s (add_serial source n t.new_serials_per_source))) same
              (subst (λ x. In n (serials_of x (add_serial source n t.new_serials_per_source))) here
                (In-add_serial_new source n t.new_serials_per_source))))
    ];
    known = λ s k m.
        subst (λ all. In k (serials_of s all)) (sym e)
          (In-add_serial_old s source n k t.new_serials_per_source (c.known s k m));
    in_sources = λ s k m.
        subst (λ all. In s all) (sym f)
          (elim (add_serial-In s source n k t.new_serials_per_source
            (subst (λ all. In k (serials_of s all)) e m)) [
              | inl old ↦ In-add_old s source t.sources_seen (c.in_sources s k old)
              | inr same ↦
                  subst (λ x. In x (add source t.sources_seen)) same
                    (In-add_new source t.sources_seen)
            ]);
  }

  locked-Tracks :
      (b : Bool) (seen : List (String × ℕ)) (t : Tracker) (db : Db)
      → Tracks seen t db
      → Tracks seen t (if b then db else sql.lock_journal db)
  locked-Tracks true seen t db c = c
  locked-Tracks false seen t db c = record {
    journaled = λ s k m. c.journaled s k (subst (λ es. In (s, k) es) (laws.locked db) m);
    known = c.known;
    in_sources = c.in_sources;
  }

  weaker-Tracks :
      (seen more : List (String × ℕ)) (t : Tracker) (db : Db)
      → ((p : String × ℕ) → In p seen → In p more)
      → Tracks more t db
      → Tracks seen t db
  weaker-Tracks seen more t db h c = record {
    journaled = c.journaled;
    known = λ s k m. c.known s k (h (s, k) m);
    in_sources = c.in_sources;
  }

  run_step-Tracks :
      (step : Step) (seen : List (String × ℕ)) (t : Tracker) (db : Db)
      → Tracks seen t db
      → Holds
          (λ (t', db'). Tracks (seen_serials (step ∷ []) ++ seen) t' db')
          (run_step sql conf step t db)
  unfolding record_serial_seen record_operation write_journal
  run_step-Tracks (serial_seen source n) seen t db c =
      let t' : Tracker = record_serial_seen source n t in
      let kept : Tracks seen t' db =
        added-Tracks seen t t' db db source n c refl refl (λ s k m. inl m) in
      record {
        journaled = kept.journaled;
        known = λ s k m. elim m [
          | inl same ↦
              subst (λ p. In (p.1) (serials_of (p.0) t'.new_serials_per_source)) same
                (In-add_serial_new source n t.new_serials_per_source)
          | inr old ↦ kept.known s k old
        ];
        in_sources = kept.in_sources;
      }
  run_step-Tracks (recorded o) seen t db c =
      let P : Tracker × Db → Type 0 = (λ (t', db'). Tracks seen t' db') in
      let noted : Tracker = note_update sql conf o.source t in
      Holds-if P (t.journaling_enabled && (source_settings conf.sources o.source).keep_journal) _ _
        (λ e.
          Holds-bind _ P (sql.insert_journal _ (lock sql conf noted db)) _
            (laws.inserted _ (lock sql conf noted db))
            (λ (n, db') h.
              added-Tracks seen t _ (lock sql conf noted db) db' o.source n
                (locked-Tracks noted.journal_table_locked seen t db c) refl refl h))
        (λ e. record {
          journaled = c.journaled;
          known = c.known;
          in_sources = λ s k m. In-add_old s o.source t.sources_seen (c.in_sources s k m);
        })

  moved-In :
      (step : Step) (rest seen : List (String × ℕ)) (steps : List Step) (p : String × ℕ)
      → In p (seen_serials (step ∷ steps) ++ seen)
      → In p (seen_serials steps ++ (seen_serials (step ∷ []) ++ seen))
  moved-In (recorded o) rest seen steps p m = m
  moved-In (serial_seen source n) rest seen steps p (inl e) =
      In-append_right p (seen_serials steps) ((source, n) ∷ seen) (inl e)
  moved-In (serial_seen source n) rest seen steps p (inr m) =
      elim (In-append p (seen_serials steps) seen m) [
        | inl new ↦ In-append_left p (seen_serials steps) ((source, n) ∷ seen) new
        | inr old ↦ In-append_right p (seen_serials steps) ((source, n) ∷ seen) (inr old)
      ]

  run_steps-Tracks :
      (steps : List Step) (seen : List (String × ℕ)) (t : Tracker) (db : Db)
      → Tracks seen t db
      → Holds
          (λ (t', db'). Tracks (seen_serials steps ++ seen) t' db')
          (run_steps sql conf steps t db)
  unfolding run_steps
  run_steps-Tracks [] seen t db c = c
  run_steps-Tracks (step ∷ steps) seen t db c =
      let P : Tracker × Db → Type 0 =
        (λ (t', db'). Tracks (seen_serials (step ∷ []) ++ seen) t' db') in
      let Q : Tracker × Db → Type 0 =
        (λ (t', db'). Tracks (seen_serials (step ∷ steps) ++ seen) t' db') in
      Holds-bind P Q (run_step sql conf step t db) _ (run_step-Tracks step seen t db c)
        (λ (t', db') d.
          Holds_mono
            (λ (t'', db'').
              Tracks (seen_serials steps ++ (seen_serials (step ∷ []) ++ seen)) t'' db'')
            Q (run_steps sql conf steps t' db')
            (run_steps-Tracks steps (seen_serials (step ∷ []) ++ seen) t' db' d)
            (λ (t'', db'') f. weaker-Tracks _ _ t'' db'' (moved-In step [] seen steps) f))

  -- Every serial that came up is in the tracker.
  pub run_steps-known :
      (steps : List Step) (journaling : Bool) (t : Tracker) (db : Db) (s : String) (k : ℕ)
      → run_steps sql conf steps (fresh journaling) db0 ≡ ok (t, db)
      → (In (s, k) (entries db) × ¬ In (s, k) (entries db0)) ⊎ In (s, k) (seen_serials steps)
      → In k (serials_of s t.new_serials_per_source) × In s t.sources_seen
  run_steps-known steps journaling t db s k e came =
      let start : Tracks [] (fresh journaling) db0 = record {
        journaled = λ s k m. inl m;
        known = λ s k m. absurd m;
        in_sources = λ s k m. absurd m;
      } in
      let c =
        Holds-ok (λ (t', db'). Tracks (seen_serials steps ++ []) t' db') _ (t, db)
          (run_steps-Tracks steps [] (fresh journaling) db0 start) e in
      let found : In k (serials_of s t.new_serials_per_source) = elim came [
        | inl (new, old) ↦ elim (c.journaled s k new) [
          | inl before ↦ absurd (old before)
          | inr known ↦ known
        ]
        | inr seen ↦ c.known s k (In-append_left (s, k) (seen_serials steps) [] seen)
      ] in
      (found, c.in_sources s k found)
