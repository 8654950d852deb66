-- ===== src/Rpki/Single.antt =====
-- `SingleRouteROAValidator` of irrd/rpki/validators.py, and its agreement with the bulk validator.
use mathlib.Core.Option.{some-injective}
use irrd.Base.{
  ℕ, String, ◌≡◌, refl, ◌∙◌, sym, subst, Bool, true, false, none, some, List, [], ◌∷◌, take, any,
  is_nil, contains, filter, lookup, eqb, arith, string_eq, beq_iff, Bool-cases, inl, inr, In,
  any-In, In-any, is_nil-In, is_nil_head, eq_of_imp, if◌then◌else◌,
}
use irrd.Conf.{Sources, source_settings}
use irrd.Ip.{IpLib}
use irrd.Rpki.Trie.{Entry, TrieLib, IsTrie}
use irrd.Rpki.Reference.{PlacedRoa, covers, judge, rov}
use irrd.Rpki.Bulk.{place_rows, rov_for, validate_route-db}
use irrd.Rpki.{
  RpkiStatus, valid, invalid, not_found, BulkValidator, entry_matches, excluded_sources,
  ip_to_binary_str, bulk_validator, validate_route,
}

-- The loop over the covering rows: it returns at the first match.
unfoldable pub scan_rows : ℕ → ℕ → List Entry → RpkiStatus
scan_rows asn length [] = invalid
scan_rows asn length (row ∷ rows) =
    let rest = scan_rows asn length rows in if entry_matches asn length row then valid else rest

module _ (L : IpLib) (less_specific_or_exact : L.IP → List Entry) where
  -- The query `ip_less_specific_or_exact` is a parameter.
  unfoldable pub validate_single : Sources → L.IP → ℕ → String → RpkiStatus
  validate_single sources route asn source =
      let roas_covering = less_specific_or_exact route in
      if (source_settings sources source).rpki_excluded
      then not_found
      else if is_nil roas_covering
      then not_found
      else scan_rows asn (L.prefixlen route) roas_covering

scan_rows-any :
    (asn length : ℕ) (rows : List Entry)
    → scan_rows asn length rows ≡ (if any (entry_matches asn length) rows then valid else invalid)
unfolding scan_rows
scan_rows-any asn length [] = refl
scan_rows-any asn length (row ∷ rows) = ground (arith, scan_rows-any asn length rows)

-- No source has two entries in the settings.
abbrev pub DistinctSources : Sources → Type 0
DistinctSources [] = Unit
DistinctSources ((source, _) ∷ sources) = (lookup source sources ≡ none) × DistinctSources sources

contains-excluded_absent :
    (sources : Sources) (source : String)
    → lookup source sources ≡ none
    → contains (excluded_sources sources) source ≡ false
contains-excluded_absent [] source h = refl
contains-excluded_absent ((j, settings) ∷ sources) source h =
    ground (arith, contains-excluded_absent sources source)

contains-excluded_sources :
    (sources : Sources) (source : String)
    → DistinctSources sources
    → contains (excluded_sources sources) source ≡ (source_settings sources source).rpki_excluded
contains-excluded_sources [] source d = refl
contains-excluded_sources ((j, settings) ∷ sources) source (fresh, d) = ground (
  arith,
  contains-excluded_sources sources source d,
  contains-excluded_absent sources source,
  beq_iff j source,
)

-- The database's answer: the rows of just those ROAs that cover the route.
pub record IsAnswer (v6 : Bool) (key : List Bool) (ps : List PlacedRoa) (rows : List Entry)
    : Type 0 where
  pub complete : (p : PlacedRoa) → In p (filter (covers v6 key) ps) → In p.entry rows
  pub correct :
      (e : Entry) → In e rows → (p : PlacedRoa) × In p (filter (covers v6 key) ps) × (p.entry ≡ e)

module _ {v6 : Bool} {key : List Bool} {ps : List PlacedRoa} {rows : List Entry}
    (answer : IsAnswer v6 key ps rows) where
  is_nil-rows : is_nil rows ≡ is_nil (filter (covers v6 key) ps)
  is_nil-rows = eq_of_imp _ _ no_roas no_rows
    where
      no_roas : is_nil rows ≡ true → is_nil (filter (covers v6 key) ps) ≡ true
      no_roas e = elim (Bool-cases (is_nil (filter (covers v6 key) ps))) [
        | inl q ↦ q
        | inr q ↦ let (p, m) = is_nil_head _ q in cc (e, is_nil-In _ _ (answer.complete p m))
      ]

      no_rows : is_nil (filter (covers v6 key) ps) ≡ true → is_nil rows ≡ true
      no_rows e = elim (Bool-cases (is_nil rows)) [
        | inl q ↦ q
        | inr q ↦
            let (x, m) = is_nil_head _ q in
            let (p, there, _) = answer.correct x m in cc (e, is_nil-In _ _ there)
      ]

  any-rows :
      (asn length : ℕ)
      → any (entry_matches asn length) rows
        ≡ any (λ p. entry_matches asn length p.entry) (filter (covers v6 key) ps)
  any-rows asn length = eq_of_imp _ _ to_roas to_rows
    where
      to_roas :
          any (entry_matches asn length) rows ≡ true
          → any (λ p. entry_matches asn length p.entry) (filter (covers v6 key) ps) ≡ true
      to_roas e =
          let (x, m, good) = any-In _ _ e in
          let (p, there, same) = answer.correct x m in
          In-any (λ q. entry_matches asn length q.entry) p _ there
            (subst (λ y. entry_matches asn length y ≡ true) (sym same) good)

      to_rows :
          any (λ p. entry_matches asn length p.entry) (filter (covers v6 key) ps) ≡ true
          → any (entry_matches asn length) rows ≡ true
      to_rows e =
          let (p, there, good) = any-In _ _ e in In-any _ p.entry _ (answer.complete p there) good

-- Where the database answers a query with the rows of just the covering ROAs, the single-route
-- validator gives the reference's verdict.
pub validate_single-rov :
    (L : IpLib) (query : L.IP → List Entry) (sources : Sources) (ps : List PlacedRoa) (route : L.IP)
    (asn : ℕ) (source : String)
    → DistinctSources sources
    → IsAnswer
        (eqb (L.version route) 6)
        (take (L.prefixlen route) (L.str_bin route))
        ps
        (query route)
    → validate_single L query sources route asn source
      ≡ rov_for sources ps source
          (eqb (L.version route) 6)
          (take (L.prefixlen route) (L.str_bin route))
          asn
          (L.prefixlen route)
unfolding validate_single rov_for rov judge
validate_single-rov L query sources ps route asn source d answer =
    simp (
      contains-excluded_sources sources source d,
      scan_rows-any,
      any-rows answer,
      is_nil-rows answer,
    )

-- On the same ROA table the two validators agree: on a route whose address text stands for the
-- address of the route, in a source that the settings name once at most, if the database
-- answers the query with the rows of just the covering ROAs.
pub validate_single-eq-validate_route :
    (L : IpLib) {T : TrieLib} (law : IsTrie T) (query : L.IP → List Entry) (sources : Sources)
    (rows : List Entry) (ps : List PlacedRoa) (b : BulkValidator T) (route : L.IP) (ip : String)
    (asn : ℕ) (source : String)
    → DistinctSources sources
    → place_rows L rows ≡ some ps
    → bulk_validator L T sources rows none ≡ some b
    → (ip_to_binary_str L ip).0 ≡ L.version route
    → take (L.prefixlen route) (ip_to_binary_str L ip).1
      ≡ take (L.prefixlen route) (L.str_bin route)
    → IsAnswer
        (eqb (L.version route) 6)
        (take (L.prefixlen route) (L.str_bin route))
        ps
        (query route)
    → validate_single L query sources route asn source
      ≡ validate_route L T b ip (L.prefixlen route) asn source
validate_single-eq-validate_route L {T} law query sources rows ps b route ip asn source d placed
      built version bits answer =
    let (b', built', verdict) = validate_route-db L law sources rows ps placed in
    let same : b' ≡ b = some-injective _ _ (sym built' ∙ built) in
    validate_single-rov L query sources ps route asn source d answer
    ∙ sym (
        subst
          (λ c.
            validate_route L T c ip (L.prefixlen route) asn source
            ≡ rov_for sources ps source (eqb (L.version route) 6)
                (take (L.prefixlen route) (L.str_bin route)) asn (L.prefixlen route))
          same (rw (← version, ← bits) (verdict ip (L.prefixlen route) asn source)))
