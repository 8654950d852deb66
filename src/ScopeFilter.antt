-- ===== src/ScopeFilter.antt =====
-- irrd/scopefilter: whether prefixes, AS numbers and RPSL objects fall within the configured scope
-- (irrd/scopefilter/status.py and `ScopeFilterValidator` of irrd/scopefilter/validators.py).
pub mod Laws
pub mod All
mod Examples
use irrd.Base.{
  ℕ, ◌≤◌, String, Bool, true, false, not, ◌&&◌, ◌||◌, Option, none, some, List, [], ◌∷◌, any,
  contains, is_some, leb, eqb, ◌==◌, nat_eq, string_eq, if◌then◌else◌,
}
use irrd.Conf.{Sources, source_settings}
use irrd.Ip.{IpLib}
use irrd.Text.{split, has_char, int}

pub data ScopeFilterStatus : Type 0 where
  in_scope out_scope_as out_scope_prefix : ScopeFilterStatus

unfoldable pub is_visible : ScopeFilterStatus → Bool
is_visible in_scope = true
is_visible out_scope_as = false
is_visible out_scope_prefix = false

-- An item of the setting `scopefilter.asns`: YAML gives a number or a text.
pub data AsnFilter : Type 0 where
  number : ℕ → AsnFilter
  text : String → AsnFilter

-- `start, end = asn_filter.split("-")`
abbrev pub two_ints : List String → Option (ℕ × ℕ)
two_ints (start ∷ end ∷ []) = elim (int start) [
  | none ↦ none
  | some n ↦ elim (int end) [ none ↦ none | some m ↦ some (n, m) ]
]
two_ints _ = none

pub record AsnFilters : Type 0 where
  pub filtered_asns : List ℕ
  pub filtered_asn_ranges : List (ℕ × ℕ)

abbrev pub add_asn : ℕ → AsnFilters → AsnFilters
add_asn n f = record f { filtered_asns = n ∷ f.filtered_asns }

abbrev pub add_range : ℕ × ℕ → AsnFilters → AsnFilters
add_range r f = record f { filtered_asn_ranges = r ∷ f.filtered_asn_ranges }

-- One item: a range if it holds a dash, otherwise a number. `none` stands for the `ValueError`.
unfoldable pub load_asn_filter : AsnFilter → AsnFilters → Option AsnFilters
load_asn_filter (number n) f = some (add_asn n f)
load_asn_filter (text s) f =
    if has_char b'-' s
    then (elim (two_ints (split b'-' s)) [ none ↦ none | some r ↦ some (add_range r f) ])
    else (elim (int s) [ none ↦ none | some n ↦ some (add_asn n f) ])

-- Both attributes are sets in the source; the order of their items is not looked at.
unfoldable pub load_asn_filters : List AsnFilter → AsnFilters → Option AsnFilters
load_asn_filters [] f = some f
load_asn_filters (item ∷ items) f = elim (load_asn_filter item f) [
  | none ↦ none
  | some f' ↦ load_asn_filters items f'
]

abbrev pub in_range : ℕ → ℕ × ℕ → Bool
in_range asn (start, end) = leb start asn && leb asn end

abbrev pub asn_filtered : AsnFilters → ℕ → Bool
asn_filtered f asn = contains f.filtered_asns asn || any (in_range asn) f.filtered_asn_ranges

abbrev pub scoped_class : String → Bool
scoped_class object_class = contains ("route" ∷ "route6" ∷ "aut-num" ∷ []) object_class

abbrev pub is_out : ScopeFilterStatus → Bool
is_out in_scope = false
is_out out_scope_as = true
is_out out_scope_prefix = true

module _ (L : IpLib) where
  pub record Filters : Type 0 where
    pub filtered_prefixes : List L.IP
    pub asns : AsnFilters

  unfoldable pub load_prefixes : List String → Option (List L.IP)
  load_prefixes [] = some []
  load_prefixes (prefix ∷ prefixes) = elim (L.parse prefix) [
    | none ↦ none
    | some p ↦ elim (load_prefixes prefixes) [ none ↦ none | some ps ↦ some (p ∷ ps) ]
  ]

  unfoldable pub load_filters : List String → List AsnFilter → Option Filters
  load_filters prefixes asn_filters = elim (load_prefixes prefixes) [
    | none ↦ none
    | some ps ↦
        elim (load_asn_filters asn_filters
          (record { filtered_asns = []; filtered_asn_ranges = [] })) [
            | none ↦ none
            | some f ↦ some (record { filtered_prefixes = ps; asns = f })
          ]
  ]

  -- The loop over the filtered prefixes
  abbrev pub prefix_filtered : Filters → L.IP → Bool
  prefix_filtered f p =
      any (λ q. eqb (L.version p) (L.version q) && L.overlaps q p) f.filtered_prefixes

  abbrev pub check_asn : Filters → Option ℕ → ScopeFilterStatus
  check_asn f none = in_scope
  check_asn f (some asn) = if asn_filtered f.asns asn then out_scope_as else in_scope

  abbrev pub check_prefix : Filters → Option L.IP → Option ℕ → ScopeFilterStatus
  check_prefix f none asn = check_asn f asn
  check_prefix f (some p) asn = if prefix_filtered f p then out_scope_prefix else check_asn f asn

  -- `none` stands for the `ValueError` of a call with neither a prefix nor an AS number.
  unfoldable pub validate :
      Filters → Sources → String → Option L.IP → Option ℕ → Option ScopeFilterStatus
  validate f sources source prefix asn =
      if not (is_some prefix) && not (is_some asn)
      then none
      else if (source_settings sources source).scopefilter_excluded
      then some in_scope
      else some (check_prefix f prefix asn)

  -- The explanation of a verdict by its parts; the source makes a sentence of them.
  pub data Explanation : Type 0 where
    no_explanation : Explanation
    prefix_out : L.IP → Explanation
    asn_out : ℕ → Explanation

  abbrev pub rpsl_asn :
      Filters → Sources → String → Option ℕ → Option (ScopeFilterStatus × Explanation)
  rpsl_asn f sources source none = some (in_scope, no_explanation)
  rpsl_asn f sources source (some asn) = elim (validate f sources source none (some asn)) [
    | none ↦ none
    | some state ↦ some (if is_out state then (state, asn_out asn) else (in_scope, no_explanation))
  ]

  abbrev pub rpsl_prefix :
      Filters → Sources → String → Option L.IP → Option ℕ → Option (ScopeFilterStatus × Explanation)
  rpsl_prefix f sources source none asn = rpsl_asn f sources source asn
  rpsl_prefix f sources source (some p) asn = elim (validate f sources source (some p) none) [
    | none ↦ none
    | some state ↦
        if is_out state then some (state, prefix_out p) else rpsl_asn f sources source asn
  ]

  -- `_validate_rpsl_data`, with the `ValueError` that a call of `validate` could raise
  unfoldable pub validate_rpsl_data :
      Filters
      → Sources
      → String
      → String
      → Option L.IP
      → Option ℕ
      → Option (ScopeFilterStatus × Explanation)
  validate_rpsl_data f sources source object_class prefix asn_first =
      if not (scoped_class object_class)
      then some (in_scope, no_explanation)
      else rpsl_prefix f sources source prefix asn_first
