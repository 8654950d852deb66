-- ===== src/Rpki/Verdict.antt =====
-- When the reference calls a route valid, and when it calls it unknown.
use irrd.Base.{
  none, some, subst, sym, ◌∙◌, eqb, take, ℕ, String, ◌≡◌, ◌≢◌, ◌≤◌, ◌↔◌, Bool, true, false, List,
  [], ◌∷◌, contains, filter, arith, string_eq, In, any, filter-In, In-filter, any-In, In-any,
}
use irrd.Conf.{Sources}
use mathlib.Core.Option.{some-injective}
use irrd.Ip.{IpLib}
use irrd.Rpki.Trie.{Key, Entry, TrieLib, IsTrie}
use irrd.Rpki.Reference.{PlacedRoa, covers, judge, rov}
use irrd.Rpki.Bulk.{rov_for, place_rows, validate_route-db}
use irrd.Rpki.{
  BulkValidator, bulk_validator, validate_route, ip_to_binary_str, valid, entry_matches,
  excluded_sources,
}

-- A ROA that covers the route and allows its origin and its length
pub record Permits (v6 : Bool) (key : Key) (asn length : ℕ) (p : PlacedRoa) : Type 0 where
  pub covering : covers v6 key p ≡ true
  pub origin : p.entry.asn ≡ asn
  pub length_allowed : length ≤ p.entry.max_length

entry_matches_iff :
    (asn length : ℕ) (e : Entry)
    → (entry_matches asn length e ≡ true) ↔ ((asn ≢ 0) × (e.asn ≡ asn) × (length ≤ e.max_length))
entry_matches_iff asn length e = ground arith

judge-valid :
    (ps : List PlacedRoa) (asn length : ℕ)
    → judge ps asn length ≡ valid
    → any (λ p. entry_matches asn length p.entry) ps ≡ true
unfolding judge
judge-valid ps asn length h = ground arith

judge-any :
    (ps : List PlacedRoa) (asn length : ℕ)
    → any (λ p. entry_matches asn length p.entry) ps ≡ true
    → judge ps asn length ≡ valid
unfolding judge
judge-any [] asn length h = cc
judge-any (p ∷ ps) asn length h = ground arith

-- The reference calls a route valid exactly when its source is not excluded, its origin is not AS 0, and some ROA
-- of the list covers it and permits its origin and its length.
pub rov_for-valid_iff :
    (sources : Sources) (ps : List PlacedRoa) (source : String) (v6 : Bool) (key : Key)
    (asn length : ℕ)
    → (rov_for sources ps source v6 key asn length ≡ valid) ↔ (
        (contains (excluded_sources sources) source ≡ false)
        × (asn ≢ 0)
        × ((p : PlacedRoa) × In p ps × Permits v6 key asn length p))
unfolding rov_for rov
rov_for-valid_iff sources ps source v6 key asn length = (to, from)
  where
    to :
        rov_for sources ps source v6 key asn length ≡ valid
        → (contains (excluded_sources sources) source ≡ false)
          × (asn ≢ 0)
          × ((p : PlacedRoa) × In p ps × Permits v6 key asn length p)
    to h =
        let (p, m, good) =
          any-In _ _ (judge-valid (filter (covers v6 key) ps) asn length (ground arith)) in
        let (there, c) = filter-In (covers v6 key) p ps m in
        let (nonzero, origin, allowed) = (entry_matches_iff asn length p.entry).0 good in
        (
          ground arith,
          nonzero,
          (p, there, record { covering = c; origin = origin; length_allowed = allowed }),
        )

    from :
        (contains (excluded_sources sources) source ≡ false)
          × (asn ≢ 0)
          × ((p : PlacedRoa) × In p ps × Permits v6 key asn length p)
        → rov_for sources ps source v6 key asn length ≡ valid
    from (included, nonzero, (p, m, permits)) = rw included (
        judge-any (filter (covers v6 key) ps) asn length (
          In-any _ p _ (In-filter (covers v6 key) p ps m permits.covering) (
            (entry_matches_iff asn length p.entry).1
              (nonzero, permits.origin, permits.length_allowed))))

-- The bulk validator that is built from rows whose prefixes can be read calls a route valid exactly
-- when its source is not excluded, its origin is not AS 0, and some ROA of the table covers it
-- and permits its origin and its length.
pub validate_route-valid_iff :
    (L : IpLib) {T : TrieLib} (law : IsTrie T) (sources : Sources) (rows : List Entry)
    (ps : List PlacedRoa) (b : BulkValidator T) (ip : String) (length asn : ℕ) (source : String)
    → place_rows L rows ≡ some ps
    → bulk_validator L T sources rows none ≡ some b
    → (validate_route L T b ip length asn source ≡ valid) ↔ (
        (contains (excluded_sources sources) source ≡ false)
        × (asn ≢ 0)
        × ((p : PlacedRoa) × In p ps
            × Permits
                (eqb (ip_to_binary_str L ip).0 6)
                (take length (ip_to_binary_str L ip).1)
                asn
                length
                p))
validate_route-valid_iff L law sources rows ps b ip length asn source placed built =
    let (b', built', verdict) = validate_route-db L law sources rows ps placed in
    let same : b' ≡ b = some-injective _ _ (sym built' ∙ built) in
    let v6 = eqb (ip_to_binary_str L ip).0 6 in
    let key = take length (ip_to_binary_str L ip).1 in
    let (to, from) = rov_for-valid_iff sources ps source v6 key asn length in
    subst
      (λ c. (validate_route L _ c ip length asn source ≡ valid) ↔ (
        (contains (excluded_sources sources) source ≡ false)
        × (asn ≢ 0)
        × ((p : PlacedRoa) × In p ps × Permits v6 key asn length p)))
      same
      (λ h. to (sym (verdict ip length asn source) ∙ h), λ h. verdict ip length asn source ∙ from h)
