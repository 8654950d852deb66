-- ===== src/ScopeFilter/Laws.antt =====
-- What the scope filter rejects: prefixes by overlap, AS numbers by the configured items.
use irrd.Base.{
  ℕ, String, ◌≡◌, refl, ◌≢◌, inl, inr, Bool, true, false, not, ltb, ◌&&◌, ◌||◌, Option, none, some,
  List, [], ◌∷◌, any, is_some, eqb, ◌==◌, nat_eq, string_eq, arith, Option-cases, if◌then◌else◌,
}
use irrd.Conf.{Sources, source_settings}
use irrd.Ip.{IpLib}
use irrd.Text.{split, has_char, int}
use irrd.ScopeFilter.{
  ScopeFilterStatus, in_scope, out_scope_as, out_scope_prefix, AsnFilter, number, text, AsnFilters,
  Filters, two_ints, load_asn_filter, load_asn_filters, load_filters, load_prefixes, asn_filtered,
  check_prefix, validate, Explanation, validate_rpsl_data, scoped_class,
}

abbrev no_filters : AsnFilters
no_filters = record { filtered_asns = []; filtered_asn_ranges = [] }

-- The item of the setting names the AS number, alone or in a range.
abbrev pub names_asn : AsnFilter → ℕ → Bool
names_asn (number n) asn = n == asn
names_asn (text s) asn =
    if has_char b'-' s
    then (elim (two_ints (split b'-' s)) [
      | none ↦ false
      | some (low, high) ↦ not (ltb asn low) && not (ltb high asn)
    ])
    else (elim (int s) [ none ↦ false | some n ↦ n == asn ])

load_asn_filter-asn_filtered :
    (item : AsnFilter) (f f' : AsnFilters) (asn : ℕ)
    → load_asn_filter item f ≡ some f'
    → asn_filtered f' asn ≡ (names_asn item asn || asn_filtered f asn)
unfolding load_asn_filter
load_asn_filter-asn_filtered (number n) f f' asn h = ground arith
load_asn_filter-asn_filtered (text s) f f' asn h = ground arith

load_asn_filters-asn_filtered :
    (items : List AsnFilter) (f f' : AsnFilters) (asn : ℕ)
    → load_asn_filters items f ≡ some f'
    → asn_filtered f' asn ≡ (any (λ item. names_asn item asn) items || asn_filtered f asn)
unfolding load_asn_filters
load_asn_filters-asn_filtered [] f f' asn h = ground arith
load_asn_filters-asn_filtered (item ∷ items) f f' asn h =
    elim (Option-cases (load_asn_filter item f)) [
      | inl e ↦ ground arith
      | inr (g, e) ↦ ground (
        arith,
        load_asn_filters-asn_filtered items g f' asn,
        load_asn_filter-asn_filtered item f g asn,
      )
    ]

abbrev pub asn_named : List AsnFilter → Option ℕ → Bool
asn_named items none = false
asn_named items (some asn) = any (λ item. names_asn item asn) items

module _ (L : IpLib) where
  abbrev pub overlaps_some : List L.IP → Option L.IP → Bool
  overlaps_some ps none = false
  overlaps_some ps (some p) = any (λ q. eqb (L.version p) (L.version q) && L.overlaps q p) ps

  -- What the configuration says of a prefix and an AS number
  abbrev pub verdict : List L.IP → List AsnFilter → Option L.IP → Option ℕ → ScopeFilterStatus
  verdict ps items prefix asn =
      if overlaps_some ps prefix
      then out_scope_prefix
      else if asn_named items asn
      then out_scope_as
      else in_scope

  check_prefix-verdict :
      (prefixes : List String) (items : List AsnFilter) (ps : List L.IP) (f : Filters L)
      (prefix : Option L.IP) (asn : Option ℕ)
      → load_prefixes L prefixes ≡ some ps
      → load_filters L prefixes items ≡ some f
      → check_prefix L f prefix asn ≡ verdict ps items prefix asn
  unfolding load_filters
  check_prefix-verdict prefixes items ps f none none e h = refl
  check_prefix-verdict prefixes items ps f none (some asn) e h =
      ground (arith, load_asn_filters-asn_filtered items no_filters f.asns asn)
  check_prefix-verdict prefixes items ps f (some p) none e h = ground arith
  check_prefix-verdict prefixes items ps f (some p) (some asn) e h =
      ground (arith, load_asn_filters-asn_filtered items no_filters f.asns asn)

  -- With loaded filters, a call with a prefix or an AS number gives what the configuration says: in
  -- scope for an excluded source; otherwise out of scope by prefix if a configured prefix of
  -- the same address family overlaps it, else out of scope by AS number if an item is that
  -- number or a range that holds it, else in scope. A call with neither is an error.
  pub validate-verdict :
      (prefixes : List String) (items : List AsnFilter) (ps : List L.IP) (f : Filters L)
      (sources : Sources) (source : String) (prefix : Option L.IP) (asn : Option ℕ)
      → load_prefixes L prefixes ≡ some ps
      → load_filters L prefixes items ≡ some f
      → validate L f sources source prefix asn ≡ (
          if is_some prefix || is_some asn
          then some (
              if (source_settings sources source).scopefilter_excluded
              then in_scope
              else verdict ps items prefix asn)
          else none)
  unfolding validate
  validate-verdict prefixes items ps f sources source prefix asn e h =
      ground (arith, check_prefix-verdict prefixes items ps f prefix asn e h)

  abbrev pub status_of : Option (ScopeFilterStatus × Explanation L) → Option ScopeFilterStatus
  status_of none = none
  status_of (some (status, _)) = some status

  -- For a route, route6 or aut-num with a prefix or an AS number, the two separate checks
  -- of the object's data give the status that one check of both gives.
  pub validate_rpsl_data-eq-validate :
      (f : Filters L) (sources : Sources) (source object_class : String) (prefix : Option L.IP)
      (asn : Option ℕ)
      → scoped_class object_class ≡ true
      → (is_some prefix || is_some asn) ≡ true
      → status_of (validate_rpsl_data L f sources source object_class prefix asn)
        ≡ validate L f sources source prefix asn
  unfolding validate_rpsl_data validate
  validate_rpsl_data-eq-validate f sources source object_class none none scoped h = cc
  validate_rpsl_data-eq-validate f sources source object_class none (some asn) scoped h =
      ground arith
  validate_rpsl_data-eq-validate f sources source object_class (some p) none scoped h = ground arith
  validate_rpsl_data-eq-validate f sources source object_class (some p) (some asn) scoped h =
      ground arith

  -- The check of an object's data never runs into the error of `validate`, whatever the object.
  pub validate_rpsl_data-ne-none :
      (f : Filters L) (sources : Sources) (source object_class : String) (prefix : Option L.IP)
      (asn : Option ℕ)
      → validate_rpsl_data L f sources source object_class prefix asn ≢ none
  unfolding validate_rpsl_data validate
  validate_rpsl_data-ne-none f sources source object_class none none = ground arith
  validate_rpsl_data-ne-none f sources source object_class none (some asn) = ground arith
  validate_rpsl_data-ne-none f sources source object_class (some p) none = ground arith
  validate_rpsl_data-ne-none f sources source object_class (some p) (some asn) = ground arith
