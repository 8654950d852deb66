-- ===== src/Storage/Seen.antt =====
-- irrd/storage/database_handler.py: the range of serials that `finalise_transaction` records for a source.
use irrd.Base.{
  ℕ, ◌≤◌, String, true, false, ◌≡◌, sym, ap, subst, ◌∙◌, Option, none, some, List, [], ◌∷◌, ◌==◌,
  string_eq, Bool-cases, ◌⊎◌, inl, inr, In, arith, beq_iff,
}
use irrd.Storage.{StatusRow}
use irrd.Storage.Sql.{Sql, HandlerSettings, oldest_seen, newest_seen}
use irrd.Storage.Tracker.{
  larger, smaller, largest, smallest, greatest, least, record_serials, finalise_serials,
}

larger-le : (m n : ℕ) → (m ≤ larger m n) × (n ≤ larger m n)
larger-le m n = ground arith

smaller-le : (m n : ℕ) → (smaller m n ≤ m) × (smaller m n ≤ n)
smaller-le m n = ground arith

largest-first : (m : ℕ) (ns : List ℕ) → m ≤ largest m ns
largest-first m [] = omega arith
largest-first m (n ∷ ns) = ground (arith, larger-le m n, largest-first (larger m n) ns)

largest-In : (k m : ℕ) (ns : List ℕ) → In k (m ∷ ns) → k ≤ largest m ns
largest-In k m ns (inl e) = ground (arith, largest-first m ns)
largest-In k m [] (inr i) = absurd i
largest-In k m (n ∷ ns) (inr (inl e)) = ground (arith, larger-le m n, largest-first (larger m n) ns)
largest-In k m (n ∷ ns) (inr (inr i)) = largest-In k (larger m n) ns (inr i)

smallest-first : (m : ℕ) (ns : List ℕ) → smallest m ns ≤ m
smallest-first m [] = omega arith
smallest-first m (n ∷ ns) = ground (arith, smaller-le m n, smallest-first (smaller m n) ns)

smallest-In : (k m : ℕ) (ns : List ℕ) → In k (m ∷ ns) → smallest m ns ≤ k
smallest-In k m ns (inl e) = ground (arith, smallest-first m ns)
smallest-In k m [] (inr i) = absurd i
smallest-In k m (n ∷ ns) (inr (inl e)) =
    ground (arith, smaller-le m n, smallest-first (smaller m n) ns)
smallest-In k m (n ∷ ns) (inr (inr i)) = smallest-In k (smaller m n) ns (inr i)

greatest-le : (o : Option ℕ) (n : ℕ) → n ≤ greatest o n
greatest-le none n = omega arith
greatest-le (some m) n = ground (arith, larger-le m n)

least-le : (o : Option ℕ) (n : ℕ) → least o n ≤ n
least-le none n = omega arith
least-le (some m) n = ground (arith, smaller-le m n)

least-old : (r : Option ℕ) (a k x : ℕ) → r ≡ some a → a ≤ k → least r x ≤ k
least-old r a k x e l = subst (λ o. least o x ≤ k) (sym e) (ground (arith, smaller-le a x))

greatest-old : (r : Option ℕ) (b k x : ℕ) → r ≡ some b → k ≤ b → k ≤ greatest r x
greatest-old r b k x e l = subst (λ o. k ≤ greatest o x) (sym e) (ground (arith, larger-le b x))

-- What an update of the serials of a source does to the rows of `database_status`
pub record StatusLaws {Db : Type 0} (sql : Sql Db) : Type 0 where
  pub set_same :
      (s : String) (a b c d : Option ℕ) (db : Db) (row : StatusRow)
      → sql.status s db ≡ some row
      → sql.status s (sql.set_serials s a b c d db)
        ≡ some (record row { serial_oldest_seen = a; serial_newest_seen = b })
  pub set_other :
      (s s' : String) (a b c d : Option ℕ) (db : Db)
      → (s == s') ≡ false
      → sql.status s' (sql.set_serials s a b c d db) ≡ sql.status s' db

-- A serial in the range that a row has
abbrev pub Between : StatusRow → ℕ → Type 0
Between row k =
    (a : ℕ) × (b : ℕ) × (row.serial_oldest_seen ≡ some a)
    × (row.serial_newest_seen ≡ some b)
    × (a ≤ k)
    × (k ≤ b)

module _ {Db : Type 0} (sql : Sql Db) (conf : HandlerSettings) (laws : StatusLaws sql)
    (source : String) where
  abbrev pub Covers : ℕ → Db → Type 0
  Covers k db = (row : StatusRow) × (sql.status source db ≡ some row) × Between row k

  abbrev pub HasRow : Db → Type 0
  HasRow db = (row : StatusRow) × (sql.status source db ≡ some row)

  -- The row after the serials of the source itself are recorded
  own_row :
      (s : String) (n : ℕ) (ns : List ℕ) (db : Db) (row : StatusRow)
      → (s == source) ≡ true
      → sql.status source db ≡ some row
      → (row' : StatusRow) × (sql.status source (record_serials sql conf s n ns db) ≡ some row')
        × (row'.serial_oldest_seen
            ≡ some
                (least row.serial_oldest_seen (least (sql.min_serial_nrtm s db) (smallest n ns))))
        × (row'.serial_newest_seen
            ≡ some (
                greatest row.serial_newest_seen
                  (greatest (sql.max_serial_nrtm s db) (largest n ns))))
  own_row s n ns db row same e =
      let here : s ≡ source = (beq_iff s source).0 same in
      let own : sql.status s db ≡ some row = ap (λ x. sql.status x db) here ∙ e in
      let found = laws.set_same s _ _ _ _ db row own in
      (
        _,
        ap (λ x. sql.status x (record_serials sql conf s n ns db)) (sym here) ∙ found,
        ap (λ r. some (least (oldest_seen r) (least (sql.min_serial_nrtm s db) (smallest n ns))))
            own,
        ap
            (λ r.
              some (greatest (newest_seen r) (greatest (sql.max_serial_nrtm s db) (largest n ns))))
            own,
      )

  record_serials-new :
      (s : String) (n k : ℕ) (ns : List ℕ) (db : Db)
      → (s == source) ≡ true
      → HasRow db
      → In k (n ∷ ns)
      → Covers k (record_serials sql conf s n ns db)
  record_serials-new s n k ns db same (row, e) m =
      let (row', found, old, new) = own_row s n ns db row same e in
      (
        row',
        found,
        (
          _,
          _,
          old,
          new,
          ground (
            arith,
            smallest-In k n ns m,
            least-le (sql.min_serial_nrtm s db) (smallest n ns),
            least-le row.serial_oldest_seen (least (sql.min_serial_nrtm s db) (smallest n ns)),
          ),
          ground (
            arith,
            largest-In k n ns m,
            greatest-le (sql.max_serial_nrtm s db) (largest n ns),
            greatest-le row.serial_newest_seen (greatest (sql.max_serial_nrtm s db) (largest n ns)),
          ),
        ),
      )

  record_serials-old :
      (s : String) (n k : ℕ) (ns : List ℕ) (db : Db)
      → Covers k db
      → Covers k (record_serials sql conf s n ns db)
  record_serials-old s n k ns db (row, e, (a, b, o, w, l, u)) = elim (Bool-cases (s == source)) [
    | inl same ↦
        let (row', found, old, new) = own_row s n ns db row same e in
        (row', found, (_, _, old, new, least-old _ a k _ o l, greatest-old _ b k _ w u))
    | inr other ↦ (row, laws.set_other s source _ _ _ _ db other ∙ e, (a, b, o, w, l, u))
  ]

  record_serials-HasRow :
      (s : String) (n : ℕ) (ns : List ℕ) (db : Db)
      → HasRow db
      → HasRow (record_serials sql conf s n ns db)
  record_serials-HasRow s n ns db (row, e) = elim (Bool-cases (s == source)) [
    | inl same ↦ let (row', found, old, new) = own_row s n ns db row same e in (row', found)
    | inr other ↦ (row, laws.set_other s source _ _ _ _ db other ∙ e)
  ]

  -- A serial in the recorded range stays in it, whatever serials are recorded next.
  finalise_serials-old :
      (all : List (String × List ℕ)) (k : ℕ) (db : Db)
      → Covers k db
      → Covers k (finalise_serials sql conf all db)
  unfolding finalise_serials
  finalise_serials-old [] k db c = c
  finalise_serials-old ((s, []) ∷ rest) k db c = finalise_serials-old rest k db c
  finalise_serials-old ((s, n ∷ ns) ∷ rest) k db c =
      finalise_serials-old rest k (record_serials sql conf s n ns db)
        (record_serials-old s n k ns db c)

  finalise_serials-new :
      (all : List (String × List ℕ)) (ns : List ℕ) (k : ℕ) (db : Db)
      → HasRow db
      → In (source, ns) all
      → In k ns
      → Covers k (finalise_serials sql conf all db)
  unfolding finalise_serials
  finalise_serials-new [] ns k db row m i = absurd m
  finalise_serials-new ((s, []) ∷ rest) ns k db row (inl e) i =
      absurd (subst (λ xs. In k xs) (sym (ap (λ p. p.1) e)) i)
  finalise_serials-new ((s, []) ∷ rest) ns k db row (inr m) i =
      finalise_serials-new rest ns k db row m i
  finalise_serials-new ((s, n ∷ ms) ∷ rest) ns k db row (inl e) i =
      finalise_serials-old rest k (record_serials sql conf s n ms db) (
        record_serials-new s n k ms db ((beq_iff s source).1 (ap (λ p. p.0) e)) row
          (subst (λ xs. In k xs) (sym (ap (λ p. p.1) e)) i))
  finalise_serials-new ((s, n ∷ ms) ∷ rest) ns k db row (inr m) i =
      finalise_serials-new rest ns k (record_serials sql conf s n ms db)
        (record_serials-HasRow s n ms db row) m i

  pub finalise_serials-Covers :
      (all : List (String × List ℕ)) (row : StatusRow) (k : ℕ) (db : Db)
      → sql.status source db ≡ some row
      → ((ns : List ℕ) × In (source, ns) all × In k ns) ⊎ Between row k
      → Covers k (finalise_serials sql conf all db)
  finalise_serials-Covers all row k db e (inl (ns, m, i)) =
      finalise_serials-new all ns k db (row, e) m i
  finalise_serials-Covers all row k db e (inr b) = finalise_serials-old all k db (row, e, b)
