-- ===== src/Rpki/Bulk.antt =====
-- `BulkRouteROAValidator`: the search of its trees gives what the reference gives on the list of
-- ROAs that they were built from.
use irrd.Base.{
  ℕ, String, ◌≡◌, refl, ◌∙◌, ap, Bool, true, false, Option, none, some, List, [], ◌∷◌, map, take,
  eqb, bool_eq, list_eq, string_eq, Option-cases, inl, inr, contains, if◌then◌else◌,
}
use mathlib.Core.Option
use mathlib.Core.Option.{some-injective}
use irrd.Conf.{Sources}
use irrd.Ip.{IpLib}
use irrd.Rpki.Trie.{Key, Entry, TrieLib, IsTrie}
use irrd.Rpki.Reference.{PlacedRoa, judge, rov}
use irrd.Rpki.Search.{tree_of, is_nil-items, any-items, scan_items-any}
use irrd.Rpki.Tree.{Holds, Holds-build, add_all, add_roa-eq-add_at}
use irrd.Rpki.{
  RpkiStatus, not_found, Trees, Roa, BulkValidator, add_roa, empty_trees, excluded_sources,
  ip_to_binary_str, split_prefix, build_roa_tree_from_roa_objs, build_roa_tree_from_db,
  bulk_validator, validate_route,
}

module _ (L : IpLib) where
  -- Where a ROA of the importer stands
  abbrev pub place_roa : Roa L → PlacedRoa
  place_roa roa = record {
    v6 = eqb (L.version roa.prefix) 6;
    key = take (L.prefixlen roa.prefix) (L.str_bin roa.prefix);
    entry = record { prefix = roa.prefix_str; asn = roa.asn; max_length = roa.max_length };
  }

  -- Where a row of the ROA table stands, if its prefix can be read
  abbrev pub place_rows : List Entry → Option (List PlacedRoa)
  place_rows [] = some []
  place_rows (row ∷ rows) = elim (split_prefix row.prefix) [
    | none ↦ none
    | some (first_ip, length) ↦ elim (place_rows rows) [
      | none ↦ none
      | some roas ↦ some (
          record {
            v6 = eqb (ip_to_binary_str L first_ip).0 6;
            key = take length (ip_to_binary_str L first_ip).1;
            entry = row;
          }
          ∷ roas)
    ]
  ]

module _ (L : IpLib) (T : TrieLib) where
  build-objs-eq-add_all :
      (roas : List (Roa L)) (ts : Trees T)
      → build_roa_tree_from_roa_objs L T roas ts ≡ add_all T ts (map (place_roa L) roas)
  unfolding build_roa_tree_from_roa_objs
  build-objs-eq-add_all [] ts = refl
  build-objs-eq-add_all (roa ∷ roas) ts =
      build-objs-eq-add_all roas _
      ∙ ap (λ t. add_all T t (map (place_roa L) roas)) (add_roa-eq-add_at T ts _ _ _)

  map-add_all :
      (ts : Trees T) (version : ℕ) (k : Key) (row : Entry) (o : Option (List PlacedRoa))
      → Option.map (add_all T (add_roa T ts version k row)) o
        ≡ Option.map
            (add_all T ts)
            (Option.map (λ roas. record { v6 = eqb version 6; key = k; entry = row } ∷ roas) o)
  map-add_all ts version k row none = refl
  map-add_all ts version k row (some ps) =
      ap (λ t. some (add_all T t ps)) (add_roa-eq-add_at T ts version k row)

  build-db-eq-add_all :
      (rows : List Entry) (ts : Trees T)
      → build_roa_tree_from_db L T rows ts ≡ Option.map (add_all T ts) (place_rows L rows)
  unfolding build_roa_tree_from_db
  build-db-eq-add_all [] ts = refl
  build-db-eq-add_all (row ∷ rows) ts = elim (Option-cases (split_prefix row.prefix)) [
    | inl e ↦ rw (e, build_roa_tree_from_db, place_rows)
    | inr ((ip, length), e) ↦
        rw (e, build_roa_tree_from_db, place_rows)
          (build-db-eq-add_all rows _ ∙ map-add_all ts _ _ row (place_rows L rows))
  ]

-- The verdict that the settings and a list of placed ROAs call for
unfoldable pub rov_for : Sources → List PlacedRoa → String → Bool → Key → ℕ → ℕ → RpkiStatus
rov_for sources ps source v6 key asn length =
    if contains (excluded_sources sources) source then not_found else rov ps v6 key asn length

tree_of-if :
    {T : TrieLib} (law : IsTrie T) (ts : Trees T) (ps : List PlacedRoa) (h : Holds law ts ps)
    (v6 : Bool)
    → (if v6 then ts.tree6 else ts.tree4) ≡ tree_of law ts ps h v6
tree_of-if law ts ps h true = refl
tree_of-if law ts ps h false = refl

module _ (L : IpLib) {T : TrieLib} (law : IsTrie T) where
  validate_route-Holds :
      (excluded : List String) (ts : Trees T) (ps : List PlacedRoa)
      → Holds law ts ps
      → (ip : String) (length asn : ℕ) (source : String)
      → validate_route L T (record { excluded = excluded; trees = ts }) ip length asn source ≡ (
          if contains excluded source
          then not_found
          else rov ps
              (eqb (ip_to_binary_str L ip).0 6)
              (take length (ip_to_binary_str L ip).1)
              asn
              length)
  unfolding validate_route rov judge
  validate_route-Holds excluded ts ps h ip length asn source =
      rw (tree_of-if law ts ps h (eqb (ip_to_binary_str L ip).0 6))
        (simp (is_nil-items law ts ps h, scan_items-any, any-items law ts ps h))

  -- ROA objects of the importer build a validator, whatever the database holds, and it gives the
  -- reference's verdict on them.
  pub validate_route-objs :
      (sources : Sources) (rows : List Entry) (roas : List (Roa L))
      → (b : BulkValidator T) × (bulk_validator L T sources rows (some roas) ≡ some b)
        × ((ip : String) (length asn : ℕ) (source : String)
            → validate_route L T b ip length asn source
              ≡ rov_for sources
                  (map (place_roa L) roas)
                  source
                  (eqb (ip_to_binary_str L ip).0 6)
                  (take length (ip_to_binary_str L ip).1)
                  asn
                  length)
  unfolding bulk_validator rov_for
  validate_route-objs sources rows roas = (
    record {
      excluded = excluded_sources sources;
      trees = build_roa_tree_from_roa_objs L T roas (empty_trees T);
    },
    refl,
    validate_route-Holds _ _ (map (place_roa L) roas)
        (rw build-objs-eq-add_all (Holds-build law (map (place_roa L) roas))),
  )

  -- Rows of the ROA table whose prefixes can be read build a validator, and it gives the
  -- reference's verdict on them.
  pub validate_route-db :
      (sources : Sources) (rows : List Entry) (ps : List PlacedRoa)
      → place_rows L rows ≡ some ps
      → (b : BulkValidator T) × (bulk_validator L T sources rows none ≡ some b)
        × ((ip : String) (length asn : ℕ) (source : String)
            → validate_route L T b ip length asn source
              ≡ rov_for sources ps source
                  (eqb (ip_to_binary_str L ip).0 6)
                  (take length (ip_to_binary_str L ip).1)
                  asn
                  length)
  unfolding bulk_validator rov_for
  validate_route-db sources rows ps placed = (
    record { excluded = excluded_sources sources; trees = add_all T (empty_trees T) ps },
    rw (build-db-eq-add_all, placed, bulk_validator),
    validate_route-Holds _ _ ps (Holds-build law ps),
  )
