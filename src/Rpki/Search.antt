-- ===== src/Rpki/Search.antt =====
-- The search of the trees: the items under the prefixes of a key hold the entries of the covering
-- ROAs, and no others.
use irrd.Base.{
  ℕ, ◌≡◌, refl, ◌∙◌, sym, Bool, true, false, some, List, [], ◌∷◌, arith, bool_eq, list_eq,
  string_eq, beq_iff, Bool-cases, inl, inr, any, is_nil, filter, In, filter-In, In-filter, In-map,
  map-In, any-In, In-any, subst, beq_refl, is_nil-In, is_nil_head, eq_of_imp, if◌then◌else◌,
}
use irrd.Rpki.Trie.{Key, Entry, TrieLib, IsTrie, is_prefix}
use irrd.Rpki.Reference.{PlacedRoa, covers}
use irrd.Rpki.Tree.{Holds, entries_at, at_key, some_list}
use irrd.Rpki.{valid, invalid, Trees, entry_matches, scan_items}

some_list_of_In : (e : Entry) (es : List Entry) → In e es → some_list es ≡ some es
some_list_of_In e [] m = absurd m
some_list_of_In e (x ∷ es) m = refl

some_list_inj : (xs es : List Entry) → some_list xs ≡ some es → xs ≡ es
some_list_inj [] es h = cc
some_list_inj (x ∷ xs) es h = cc

is_nil-some_list : (xs es : List Entry) → some_list xs ≡ some es → is_nil es ≡ false
is_nil-some_list [] es h = cc
is_nil-some_list (x ∷ xs) es h = ground arith

covers_of_at_key :
    (v6 : Bool) (j k : Key) (p : PlacedRoa)
    → at_key v6 j p ≡ true
    → is_prefix j k ≡ true
    → covers v6 k p ≡ true
covers_of_at_key v6 j k p h q = ground (arith, beq_iff p.key j)

at_key_self :
    (v6 : Bool) (k : Key) (p : PlacedRoa) → covers v6 k p ≡ true → at_key v6 p.key p ≡ true
at_key_self v6 k p h = ground (arith, beq_refl p.key)

is_prefix_of_covers :
    (v6 : Bool) (k : Key) (p : PlacedRoa) → covers v6 k p ≡ true → is_prefix p.key k ≡ true
is_prefix_of_covers v6 k p h = ground arith

module _ {T : TrieLib} (law : IsTrie T) (ts : Trees T) (ps : List PlacedRoa)
    (h : Holds law ts ps) where
  abbrev pub tree_of : Bool → T.Trie
  tree_of true = ts.tree6
  tree_of false = ts.tree4

  get-tree_of : (v6 : Bool) (k : Key) → T.get (tree_of v6) k ≡ some_list (entries_at ps v6 k)
  get-tree_of true k = h.at6 k
  get-tree_of false k = h.at4 k

  abbrev pub items : Bool → Key → List (Key × List Entry)
  items v6 k = T.prefix_items (tree_of v6) k

  item_entries :
      (v6 : Bool) (k j : Key) (es : List Entry)
      → In (j, es) (items v6 k)
      → (is_prefix j k ≡ true) × (some_list (entries_at ps v6 j) ≡ some es)
  item_entries v6 k j es i =
      let (pre, got) = (law.prefix_items_iff (tree_of v6) k j es).0 i in
      (pre, sym (get-tree_of v6 j) ∙ got)

  -- Every item holds an entry, and each entry is that of a covering ROA.
  item_roa :
      (v6 : Bool) (k j : Key) (es : List Entry) (e : Entry)
      → In (j, es) (items v6 k)
      → In e es
      → (p : PlacedRoa) × In p (filter (covers v6 k) ps) × (p.entry ≡ e)
  unfolding entries_at
  item_roa v6 k j es e i m =
      let (pre, got) = item_entries v6 k j es i in
      let m' : In e (entries_at ps v6 j) = subst (In e) (sym (some_list_inj _ es got)) m in
      let (p, there, same) = map-In (λ (q : PlacedRoa). q.entry) e (filter (at_key v6 j) ps) m' in
      let (m'', at) = filter-In (at_key v6 j) p ps there in
      (p, In-filter (covers v6 k) p ps m'' (covers_of_at_key v6 j k p at pre), same)

  -- Each covering ROA has its entry among the items.
  roa_item :
      (v6 : Bool) (k : Key) (p : PlacedRoa)
      → In p (filter (covers v6 k) ps)
      → In (p.key, entries_at ps v6 p.key) (items v6 k) × In p.entry (entries_at ps v6 p.key)
  unfolding entries_at
  roa_item v6 k p m =
      let (m', c) = filter-In (covers v6 k) p ps m in
      let here : In p.entry (entries_at ps v6 p.key) =
        In-map (λ (q : PlacedRoa). q.entry) p (filter (at_key v6 p.key) ps)
          (In-filter (at_key v6 p.key) p ps m' (at_key_self v6 k p c)) in
      (
        (law.prefix_items_iff (tree_of v6) k p.key (entries_at ps v6 p.key)).1
            (is_prefix_of_covers v6 k p c, get-tree_of v6 p.key ∙ some_list_of_In p.entry _ here),
        here,
      )

  pub is_nil-items : (v6 : Bool) (k : Key) → is_nil (items v6 k) ≡ is_nil (filter (covers v6 k) ps)
  is_nil-items v6 k = eq_of_imp _ _ no_roas no_items
    where
      no_roas : is_nil (items v6 k) ≡ true → is_nil (filter (covers v6 k) ps) ≡ true
      no_roas e = elim (Bool-cases (is_nil (filter (covers v6 k) ps))) [
        | inl q ↦ q
        | inr q ↦
            let (p, m) = is_nil_head _ q in
            let (i, _) = roa_item v6 k p m in cc (e, is_nil-In _ _ i)
      ]

      no_items : is_nil (filter (covers v6 k) ps) ≡ true → is_nil (items v6 k) ≡ true
      no_items e = elim (Bool-cases (is_nil (items v6 k))) [
        | inl q ↦ q
        | inr q ↦
            let ((j, es), i) = is_nil_head _ q in
            let (_, got) = item_entries v6 k j es i in
            let (x, m) = is_nil_head _ (is_nil-some_list _ es got) in
            let (p, there, _) = item_roa v6 k j es x i m in cc (e, is_nil-In _ _ there)
      ]

  pub any-items :
      (v6 : Bool) (k : Key) (asn length : ℕ)
      → any (λ (_, es). any (entry_matches asn length) es) (items v6 k)
        ≡ any (λ p. entry_matches asn length p.entry) (filter (covers v6 k) ps)
  any-items v6 k asn length = eq_of_imp _ _ to_roas to_items
    where
      some_match : Key × List Entry → Bool
      some_match (_, es) = any (entry_matches asn length) es

      to_roas :
          any some_match (items v6 k) ≡ true
          → any (λ p. entry_matches asn length p.entry) (filter (covers v6 k) ps) ≡ true
      to_roas e =
          let ((j, es), i, found) = any-In _ _ e in
          let (x, m, good) = any-In (entry_matches asn length) es found in
          let (p, there, same) = item_roa v6 k j es x i m in
          In-any (λ q. entry_matches asn length q.entry) p _ there
            (subst (λ y. entry_matches asn length y ≡ true) (sym same) good)

      to_items :
          any (λ p. entry_matches asn length p.entry) (filter (covers v6 k) ps) ≡ true
          → any some_match (items v6 k) ≡ true
      to_items e =
          let (p, there, good) = any-In _ _ e in
          let (i, m) = roa_item v6 k p there in
          In-any some_match (p.key, entries_at ps v6 p.key) _ i (In-any _ p.entry _ m good)

pub scan_items-any :
    (asn length : ℕ) (xs : List (Key × List Entry))
    → scan_items asn length xs
      ≡ (if any (λ (_, es). any (entry_matches asn length) es) xs then valid else invalid)
unfolding scan_items
scan_items-any asn length [] = refl
scan_items-any asn length ((_, es) ∷ xs) = ground (arith, scan_items-any asn length xs)
