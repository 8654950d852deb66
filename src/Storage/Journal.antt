-- ===== src/Storage/Journal.antt =====
-- irrd/storage/database_handler.py: the serials that `DatabaseStatusTracker` gives to the journal entries of one transaction.
use irrd.Base.{
  ℕ, zero, suc, ◌+◌, ◌≤◌, String, Bool, true, false, ◌&&◌, ◌≡◌, refl, sym, ap, subst, ◌∙◌, Option,
  some, List, [], ◌∷◌, ◌++◌, length, length-append, filter, contains, add, take, remove, lookup,
  insert, lookup-insert, ◌==◌, string_eq, nat_eq, if◌then◌else◌, Bool-cases, Option-cases, inl, inr,
  In, arith, beq_iff,
}
use irrd.NrtmOperation.{DatabaseOperation}
use irrd.Conf.{source_settings}
use irrd.Storage.{Result, ok, ◌>>=◌, JournalEntry, JournalEntryOrigin}
use irrd.Storage.Holds.{Holds, Holds-ok, Holds-bind, Holds-if, Holds_mono, Holds_always}
use irrd.Storage.Sql.{
  Sql, HandlerSettings, settings_synchronised, is_serial_synchronised, next_serial,
  synchronised_flag,
}
use irrd.Storage.Tracker.{
  Tracker, fresh, known_or, serials_of, add_serial, largest, larger, serial_for,
  cached_synchronised, write_journal, record_operation, lock, note_update,
}

-- Each number is one more than the one before it.
abbrev pub Consecutive : ℕ → List ℕ → Type 0
Consecutive n [] = Unit
Consecutive n (m ∷ ms) = (m ≡ n) × Consecutive (n + 1) ms

abbrev pub Gapless : List ℕ → Type 0
Gapless [] = Unit
Gapless (n ∷ ns) = Consecutive (n + 1) ns

larger_next : (n m : ℕ) → m ≡ n + 1 → larger n m ≡ m
larger_next n m e = ground arith

-- The largest of them is the last one.
largest-Consecutive : (n : ℕ) (ns : List ℕ) → Consecutive (n + 1) ns → largest n ns ≡ n + length ns
largest-Consecutive n [] c = omega arith
largest-Consecutive n (m ∷ ms) (e, c) =
    let ih = largest-Consecutive m ms (subst (λ k. Consecutive (k + 1) ms) (sym e) c) in
    ap (λ k. largest k ms) (larger_next n m e) ∙ ih ∙ (omega arith)

Consecutive-append_one :
    (n k : ℕ) (ns : List ℕ) → Consecutive n ns → k ≡ n + length ns → Consecutive n (ns ++ k ∷ [])
Consecutive-append_one n k [] c f = (omega arith, tt)
Consecutive-append_one n k (m ∷ ms) (e, c) f =
    (e, Consecutive-append_one (n + 1) k ms c (omega arith))

Consecutive-contains :
    (n k : ℕ) (ns : List ℕ) → Consecutive n ns → n + length ns ≤ k → contains ns k ≡ false
Consecutive-contains n k [] c l = refl
Consecutive-contains n k (m ∷ ms) (e, c) l = ground (arith, Consecutive-contains (n + 1) k ms c)

-- The serials so far, and how many they are
record Serials (ns : List ℕ) (count : ℕ) : Type 0 where
  pub gapless : Gapless ns
  pub counted : length ns ≡ count

abbrev next_serial_for : List ℕ → ℕ → ℕ
next_serial_for [] first = first
next_serial_for (n ∷ ns) first = largest n ns + 1

add-new : (k : ℕ) (ns : List ℕ) → contains ns k ≡ false → add k ns ≡ ns ++ k ∷ []
add-new k ns e = rw (e)

Serials-add :
    (k first : ℕ) (ns : List ℕ) (count : ℕ)
    → Serials ns count
    → k ≡ next_serial_for ns first
    → Serials (add k ns) (count + 1)
Serials-add k first [] count s e = record { gapless = tt; counted = ground (arith, s.counted) }
Serials-add k first (n ∷ ns) count s e =
    let last : k ≡ n + length ns + 1 = e ∙ (ap (λ m. m + 1) (largest-Consecutive n ns s.gapless)) in
    let new : contains (n ∷ ns) k ≡ false =
      Consecutive-contains n k (n ∷ ns) (refl, s.gapless) (ground arith) in
    subst (λ xs. Serials xs (count + 1)) (sym (add-new k (n ∷ ns) new))
      (record {
        gapless = Consecutive-append_one (n + 1) k ns s.gapless (omega arith);
        counted = ap suc (length-append ns (k ∷ [])) ∙ (ground (arith, s.counted));
      })

pub serials-insert_same :
    (s source : String) (v : List ℕ) (all : List (String × List ℕ))
    → (s == source) ≡ true
    → serials_of source (insert s v all) ≡ v
serials-insert_same s source v all e = ground (arith, lookup-insert s source v all)

pub serials-insert_other :
    (s source : String) (v : List ℕ) (all : List (String × List ℕ))
    → (s == source) ≡ false
    → serials_of source (insert s v all) ≡ serials_of source all
serials-insert_other s source v all e = ground (arith, lookup-insert s source v all)

counted_on :
    {A : Type 0} (b : Bool) (count : ℕ) (o : A) (rest : List A)
    → (if b then count + 1 else count) + length rest ≡ count + length (if b then o ∷ rest else rest)
counted_on true count o rest = omega arith
counted_on false count o rest = refl

-- One call of `record_operation`
pub record Operation : Type 0 where
  pub operation : DatabaseOperation
  pub rpsl_pk : String
  pub source : String
  pub object_class : String
  pub object_text : String
  pub origin : JournalEntryOrigin
  pub source_serial : Option ℕ

-- How many of the changes are of a source
abbrev pub changes_of : String → List Operation → ℕ
changes_of source ops = length (filter (λ o. o.source == source) ops)

-- The journal takes a serial as it is given.
pub record JournalLaws {Db : Type 0} (sql : Sql Db) : Type 0 where
  pub inserted :
      (entry : JournalEntry) (n : ℕ) (db : Db)
      → entry.serial_nrtm ≡ some n
      → Holds (λ (m, db'). m ≡ n) (sql.insert_journal entry db)

pair_eq : (a b : String) (c d : Bool) → a ≡ b → c ≡ d → ◌≡◌ {A = String × Bool} (a, c) (b, d)
pair_eq a b c d e f = rw (e, f)

true-false : (b : Bool) → b ≡ true → b ≡ false → ⊥
true-false b e f = cc

both_true : (a b : Bool) → a ≡ true → b ≡ true → (a && b) ≡ false → ⊥
both_true a b e f g = ground arith

and_false : (b : Bool) → (b && false) ≡ false
and_false true = refl
and_false false = refl

-- The cache as a list of pairs
lookup-In :
    (b : Bool) (s : String) (cache : List (String × Bool))
    → lookup s cache ≡ some b
    → In (s, b) cache
lookup-In b s [] e = cc
lookup-In b s ((j, v) ∷ cache) e = elim (Bool-cases (j == s)) [
  | inl same ↦ inl (pair_eq j s v b ((beq_iff j s).0 same) (ground arith))
  | inr other ↦ inr (lookup-In b s cache (ground arith))
]

take-In : {A : Type 0} (n : ℕ) (a : A) (xs : List A) → In a (take n xs) → In a xs
take-In zero a xs m = absurd m
take-In (suc n) a [] m = m
take-In (suc n) a (x ∷ xs) (inl e) = inl e
take-In (suc n) a (x ∷ xs) (inr m) = inr (take-In n a xs m)

if_cons-In :
    {A : Type 0} (b : Bool) (a x : A) (r xs : List A)
    → (In a r → In a xs)
    → In a (if b then r else x ∷ r)
    → In a (x ∷ xs)
if_cons-In true a x r xs h m = inr (h m)
if_cons-In false a x r xs h (inl e) = inl e
if_cons-In false a x r xs h (inr m) = inr (h m)

remove-In :
    (s : String) (x : String × Bool) (cache : List (String × Bool))
    → In x (remove s cache)
    → In x cache
remove-In s x [] m = m
remove-In s x ((j, v) ∷ cache) m =
    if_cons-In (j == s) x (j, v) (remove s cache) cache (remove-In s x cache) m

module _ {Db : Type 0} (sql : Sql Db) (conf : HandlerSettings) where
  unfoldable pub record_all : List Operation → Tracker → Db → Result (Tracker × Db)
  record_all [] t db = ok (t, db)
  record_all (o ∷ ops) t db =
      record_operation sql conf o.operation o.rpsl_pk o.source o.object_class o.object_text o.origin
        o.source_serial t db
      >>= λ (t', db'). record_all ops t' db'

module _ {Db : Type 0} (sql : Sql Db) (conf : HandlerSettings) (laws : JournalLaws sql)
    (source : String) (keeps : (source_settings conf.sources source).keep_journal ≡ true)
    (free : settings_synchronised conf source ≡ false) where
  -- What holds of the tracker after `count` changes of the source
  record Tracked (count : ℕ) (t : Tracker) : Type 0 where
    journaling : t.journaling_enabled ≡ true
    serials : Serials (serials_of source t.new_serials_per_source) count
    uncached : ¬ In (source, true) t.synchronised_cache

  not_synchronised : (db : Db) → is_serial_synchronised sql conf source db ≡ false
  unfolding is_serial_synchronised
  not_synchronised db = ap (λ b. synchronised_flag sql conf source db && b) free ∙ and_false _

  abbrev answer_of : String → Tracker → Db → Bool
  answer_of s t db = let (answer, t') = cached_synchronised sql conf s t db in answer

  -- The cached answer for the source is no as well.
  answer-false :
      (t : Tracker) (db : Db)
      → ¬ In (source, true) t.synchronised_cache
      → (let (answer, t') = cached_synchronised sql conf source t db in answer ≡ false)
  answer-false t db uncached = elim (Option-cases (lookup source t.synchronised_cache)) [
    | inl e ↦
        ap (λ h. known_or h (is_serial_synchronised sql conf source db)) e ∙ not_synchronised db
    | inr (true, e) ↦ absurd (uncached (lookup-In true source t.synchronised_cache e))
    | inr (false, e) ↦ ap (λ h. known_or h (is_serial_synchronised sql conf source db)) e
  ]

  cached-uncached :
      (s : String) (t : Tracker) (db : Db)
      → ¬ In (source, true) t.synchronised_cache
      → (let (answer, t') = cached_synchronised sql conf s t db in
          ¬ In (source, true) t'.synchronised_cache)
  cached-uncached s t db uncached m =
      elim (take-In 100 (source, true) ((s, answer_of s t db) ∷ remove s t.synchronised_cache) m) [
        | inl e ↦
            true-false (answer_of source t db)
              (subst (λ x. answer_of x t db ≡ true) (ap (λ p. p.0) e) (ap (λ p. p.1) e))
              (answer-false t db uncached)
        | inr old ↦ uncached (remove-In s (source, true) t.synchronised_cache old)
      ]

  -- The serials of the source after an entry of a source
  after_entry-Serials :
      (s : String) (k first count : ℕ) (all : List (String × List ℕ))
      → Serials (serials_of source all) count
      → ((s == source) ≡ true → k ≡ next_serial_for (serials_of source all) first)
      → Serials (serials_of source (add_serial s k all)) (if s == source then count + 1 else count)
  after_entry-Serials s k first count all c e = elim (Bool-cases (s == source)) [
    | inl same ↦
        subst
          (λ b. Serials (serials_of source (add_serial s k all)) (if b then count + 1 else count))
          (sym same)
          (subst (λ ns. Serials ns (count + 1))
            (sym (
              serials-insert_same s source (add k (serials_of s all)) all same
              ∙ ap (λ j. add k (serials_of j all)) ((beq_iff s source).0 same)))
            (Serials-add k first (serials_of source all) count c (e same)))
    | inr other ↦
        subst
          (λ b. Serials (serials_of source (add_serial s k all)) (if b then count + 1 else count))
          (sym other)
          (subst (λ ns. Serials ns count)
            (sym (serials-insert_other s source (add k (serials_of s all)) all other)) c)
  ]

  serial_for-free :
      (s : String) (given : Option ℕ) (answer : Bool) (ns : List ℕ) (db : Db)
      → answer ≡ false
      → serial_for sql conf s given answer ns db ≡ some (next_serial_for ns (next_serial sql s db))
  serial_for-free s given true ns db e = cc
  serial_for-free s given false [] db e = refl
  serial_for-free s given false (n ∷ ns) db e = refl

  -- An entry of the source gets the next serial.
  Next : String → Tracker → Db → ℕ × Db → Type 0
  Next s t db (n, db') =
      (s == source) ≡ true
      → n ≡ next_serial_for (serials_of source t.new_serials_per_source) (next_serial sql source db)

  inserted-Next :
      (s : String) (t : Tracker) (db : Db) (entry : JournalEntry)
      → ((s == source) ≡ true
          → entry.serial_nrtm
            ≡ some (
                next_serial_for
                  (serials_of source t.new_serials_per_source)
                  (next_serial sql source db)))
      → Holds (Next s t db) (sql.insert_journal entry db)
  unfolding Next
  inserted-Next s t db entry e = elim (Bool-cases (s == source)) [
    | inl same ↦
        Holds_mono _ _ (sql.insert_journal entry db) (laws.inserted entry _ db (e same))
          (λ (n, db') same_n at. same_n)
    | inr other ↦
        Holds_always (Next s t db) (sql.insert_journal entry db)
          (λ r same. absurd (true-false (s == source) same other))
  ]

  write_journal-Tracked :
      (operation : DatabaseOperation) (pk s class text : String) (origin : JournalEntryOrigin)
      (given : Option ℕ) (count : ℕ) (t : Tracker) (db : Db)
      → Tracked count t
      → Holds
          (λ (t', db'). Tracked (if s == source then count + 1 else count) t')
          (write_journal sql conf operation pk s class text origin given t db)
  unfolding write_journal Next
  write_journal-Tracked operation pk s class text origin given count t db c =
      let locked = lock sql conf t db in
      let t' : Tracker = record t { journal_table_locked = true } in
      let P : Tracker × Db → Type 0 =
        (λ (t'', db'). Tracked (if s == source then count + 1 else count) t'') in
      Holds-bind (Next s t locked) P _ _
        (inserted-Next s t locked _ (λ same.
          let here = (beq_iff s source).0 same in
          subst
            (λ x.
              serial_for sql conf x given (answer_of x t' locked)
                (serials_of x t.new_serials_per_source) locked
              ≡ some (
                  next_serial_for (serials_of source t.new_serials_per_source)
                    (next_serial sql source locked)))
            (sym here)
            (serial_for-free source given (answer_of source t' locked)
              (serials_of source t.new_serials_per_source) locked
              (answer-false t' locked c.uncached))))
        (λ (n, db') next. record {
          journaling = c.journaling;
          serials =
              after_entry-Serials s n (next_serial sql source locked) count t.new_serials_per_source
                c.serials next;
          uncached = cached-uncached s t' locked c.uncached;
        })

  -- One change keeps what holds of the tracker.
  record_operation-Tracked :
      (o : Operation) (count : ℕ) (t : Tracker) (db : Db)
      → Tracked count t
      → Holds
          (λ (t', db'). Tracked (if o.source == source then count + 1 else count) t')
          (record_operation sql conf o.operation o.rpsl_pk o.source o.object_class o.object_text
            o.origin o.source_serial t db)
  unfolding record_operation
  record_operation-Tracked o count t db c =
      let P : Tracker × Db → Type 0 =
        (λ (t', db'). Tracked (if o.source == source then count + 1 else count) t') in
      let seen : Tracker = note_update sql conf o.source t in
      let noted : Tracked count seen = record {
        journaling = c.journaling;
        serials = c.serials;
        uncached = c.uncached;
      } in
      Holds-if P (t.journaling_enabled && (source_settings conf.sources o.source).keep_journal) _ _
        (λ e.
          write_journal-Tracked o.operation o.rpsl_pk o.source o.object_class o.object_text o.origin
            o.source_serial count seen db noted)
        (λ e. elim (Bool-cases (o.source == source)) [
          | inl same ↦ absurd (
              both_true _ _ c.journaling
                (subst (λ x. (source_settings conf.sources x).keep_journal ≡ true)
                  (sym ((beq_iff o.source source).0 same)) keeps)
                e)
          | inr other ↦ subst (λ b. Tracked (if b then count + 1 else count) seen) (sym other) noted
        ])

  record_all-Tracked :
      (ops : List Operation) (count : ℕ) (t : Tracker) (db : Db)
      → Tracked count t
      → Holds
          (λ (t', db'). Tracked (count + changes_of source ops) t')
          (record_all sql conf ops t db)
  unfolding record_all
  record_all-Tracked [] count t db c = subst (λ n. Tracked n t) (omega arith) c
  record_all-Tracked (o ∷ ops) count t db c =
      let P : Tracker × Db → Type 0 =
        (λ (t', db'). Tracked (if o.source == source then count + 1 else count) t') in
      let Q : Tracker × Db → Type 0 =
        (λ (t', db'). Tracked (count + changes_of source (o ∷ ops)) t') in
      Holds-bind P Q _ _ (record_operation-Tracked o count t db c) (λ (t', db') d.
        Holds_mono _ Q (record_all sql conf ops t' db')
          (record_all-Tracked ops (if o.source == source then count + 1 else count) t' db' d)
          (λ (t'', db'') f.
            subst (λ n. Tracked n t'')
              (counted_on (o.source == source) count o (filter (λ p. p.source == source) ops)) f))

  -- Let a source keep a journal, and let its settings not take the serials of a mirrored source. Then the serials that
  -- it got in a transaction have no gap: each is one more than the one before, and they are as many as the
  -- changes of the source that were recorded, whatever other sources changed in between.
  pub record_all-Gapless :
      (ops : List Operation) (t : Tracker) (db db' : Db)
      → record_all sql conf ops (fresh true) db ≡ ok (t, db')
      → Gapless (serials_of source t.new_serials_per_source)
        × (length (serials_of source t.new_serials_per_source) ≡ changes_of source ops)
  record_all-Gapless ops t db db' e =
      let start : Tracked 0 (fresh true) = record {
        journaling = refl;
        serials = record { gapless = tt; counted = refl };
        uncached = λ m. m;
      } in
      let tracked =
        Holds-ok (λ (t', d). Tracked (0 + changes_of source ops) t') _ (t, db')
          (record_all-Tracked ops 0 (fresh true) db start) e in
      (tracked.serials.gapless, tracked.serials.counted ∙ (omega arith))
