-- ===== src/Rpki/Tree.antt =====
-- What the two trees hold after ROAs have been added: under each key the entries of the ROAs
-- placed there, in the order of their addition.
use irrd.Base.{
  ℕ, ◌≡◌, refl, ◌∙◌, Bool, true, false, ◌&&◌, Option, none, some, List, [], ◌∷◌, ◌++◌, map, eqb,
  append-nil, append_assoc, arith, ◌==◌, bool_eq, list_eq, beq_iff, filter, if◌then◌else◌,
}
use irrd.Rpki.Trie.{Key, Entry, TrieLib, IsTrie}
use irrd.Rpki.Reference.{PlacedRoa}
use irrd.Rpki.{Trees, empty_trees, add_entry, add_roa}

abbrev pub at_key : Bool → Key → PlacedRoa → Bool
at_key v6 k p = p.v6 == v6 && p.key == k

-- The entries placed under a key, in order
unfoldable pub entries_at : List PlacedRoa → Bool → Key → List Entry
entries_at roas v6 k = map (λ p. p.entry) (filter (at_key v6 k) roas)

-- A key is in the tree only with an entry.
abbrev pub some_list : List Entry → Option (List Entry)
some_list [] = none
some_list (e ∷ es) = some (e ∷ es)

some_list-append : (es : List Entry) (e : Entry) → some_list (es ++ e ∷ []) ≡ some (es ++ e ∷ [])
some_list-append [] e = refl
some_list-append (x ∷ es) e = refl

entries_at-append :
    (roas : List PlacedRoa) (p : PlacedRoa) (v6 : Bool) (k : Key)
    → entries_at (roas ++ p ∷ []) v6 k
      ≡ (if at_key v6 k p then entries_at roas v6 k ++ p.entry ∷ [] else entries_at roas v6 k)
unfolding entries_at
entries_at-append [] p v6 k = ground arith
entries_at-append (q ∷ roas) p v6 k = ground (arith, entries_at-append roas p v6 k)

module _ (T : TrieLib) where
  abbrev pub add_at : (v6 : Bool) (ts : Trees T) (k : Key) (e : Entry) → Trees T
  add_at true ts k e = record ts { tree6 = add_entry T ts.tree6 k e }
  add_at false ts k e = record ts { tree4 = add_entry T ts.tree4 k e }

  pub add_roa-eq-add_at :
      (ts : Trees T) (version : ℕ) (k : Key) (e : Entry)
      → add_roa T ts version k e ≡ add_at (eqb version 6) ts k e
  add_roa-eq-add_at ts version k e = ground arith

  -- All of a list of placed ROAs, added in order
  abbrev pub add_all : Trees T → List PlacedRoa → Trees T
  add_all ts [] = ts
  add_all ts (p ∷ ps) = add_all (add_at p.v6 ts p.key p.entry) ps

module _ {T : TrieLib} (law : IsTrie T) where
  get-add_entry :
      (t : T.Trie) (k j : Key) (e : Entry) (es : List Entry)
      → T.get t k ≡ some_list es
      → T.get (add_entry T t k e) j ≡ (if k == j then some_list (es ++ e ∷ []) else T.get t j)
  get-add_entry t k j e [] h = ground (arith, law.get-set t k j (e ∷ []))
  get-add_entry t k j e (x ∷ es) h = ground (arith, law.get-set t k j (x ∷ (es ++ e ∷ [])))

  -- The trees hold the placed ROAs, and nothing else.
  pub record Holds (ts : Trees T) (roas : List PlacedRoa) : Type 0 where
    pub at4 : (k : Key) → T.get ts.tree4 k ≡ some_list (entries_at roas false k)
    pub at6 : (k : Key) → T.get ts.tree6 k ≡ some_list (entries_at roas true k)

  Holds-empty : Holds (empty_trees T) []
  unfolding entries_at
  Holds-empty = record { at4 = law.get-empty; at6 = law.get-empty }

  Holds-add_at :
      (v6 : Bool) (ts : Trees T) (roas : List PlacedRoa) (k : Key) (e : Entry)
      → Holds ts roas
      → Holds (add_at T v6 ts k e) (roas ++ record { v6 = v6; key = k; entry = e } ∷ [])
  Holds-add_at true ts roas k e h = record {
    at4 = λ j.
        h.at4 j
        ∙ ground (arith, entries_at-append roas (record { v6 = true; key = k; entry = e }) false j);
    at6 = λ j. ground (
      arith,
      get-add_entry ts.tree6 k j e (entries_at roas true k) (h.at6 k),
      entries_at-append roas (record { v6 = true; key = k; entry = e }) true j,
      h.at6 j,
      beq_iff k j,
    );
  }
  Holds-add_at false ts roas k e h = record {
    at4 = λ j. ground (
      arith,
      get-add_entry ts.tree4 k j e (entries_at roas false k) (h.at4 k),
      entries_at-append roas (record { v6 = false; key = k; entry = e }) false j,
      h.at4 j,
      beq_iff k j,
    );
    at6 = λ j.
        h.at6 j
        ∙ ground (arith, entries_at-append roas (record { v6 = false; key = k; entry = e }) true j);
  }

  Holds-add_all :
      (qs : List PlacedRoa) (ts : Trees T) (ps : List PlacedRoa)
      → Holds ts ps
      → Holds (add_all T ts qs) (ps ++ qs)
  Holds-add_all [] ts ps h = rw append-nil h
  Holds-add_all (q ∷ qs) ts ps h =
      rw append_assoc at
        (Holds-add_all qs _ (ps ++ q ∷ []) (Holds-add_at q.v6 ts ps q.key q.entry h))

  -- Trees that were built from nothing hold just the ROAs that were added.
  pub Holds-build : (qs : List PlacedRoa) → Holds (add_all T (empty_trees T) qs) qs
  Holds-build qs = Holds-add_all qs (empty_trees T) [] Holds-empty
