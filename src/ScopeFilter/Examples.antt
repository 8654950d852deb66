-- ===== src/ScopeFilter/Examples.antt =====
-- Tests of the scope filter, and its theorems at concrete data.
use irrd.Base.{◌≡◌, refl, ◌≢◌, Bool, true, false, Option, none, some, List, [], ◌∷◌}
use irrd.Conf.{Sources, bare_source}
use irrd.Enrich.{with_extra}
use irrd.Ip.Concrete.{Network, ipv4, parse}
use irrd.ScopeFilter.{
  in_scope, out_scope_as, out_scope_prefix, AsnFilter, number, text, Filters, load_filters,
  load_prefixes, load_asn_filters, load_asn_filter, validate, validate_rpsl_data,
}
use irrd.ScopeFilter.Laws.{
  validate-verdict, verdict, validate_rpsl_data-eq-validate, validate_rpsl_data-ne-none, status_of,
}
use irrd.ScopeFilter.All.{
  ObjectRow, pk_of, new_status, Readable, changed_to, validate_all_rpsl_objects,
  validate_all_rpsl_objects_lem,
}
use irrd.Text.{split, int, has_char}

abbrev sources : Sources
sources = ("RIPE", bare_source) ∷ ("OLD", record bare_source { scopefilter_excluded = true }) ∷ []

abbrev items : List AsnFilter
items = number 23456 ∷ text "64496-64511" ∷ text "65535" ∷ []

-- What the parts of the configuration are read as
loaded : Option (Filters ipv4)
unfolding load_filters load_prefixes parse load_asn_filters load_asn_filter split int has_char
loaded = load_filters ipv4 ("10.0.0.0/8" ∷ []) items

abbrev bits32 : List Bool
bits32 =
    false ∷ false ∷ false ∷ false ∷ true ∷ false ∷ true ∷ false ∷ false ∷ false ∷ false ∷ false
    ∷ false ∷ false ∷ false ∷ false ∷ false ∷ false ∷ false ∷ false ∷ false ∷ false ∷ false ∷ false
    ∷ false ∷ false ∷ false ∷ false ∷ false ∷ false ∷ false ∷ false ∷ []

abbrev ten : Network
ten = record { length = 8; bits = bits32 }

abbrev filters : Filters ipv4
filters = record {
  filtered_prefixes = ten ∷ [];
  asns = record { filtered_asns = 65535 ∷ 23456 ∷ []; filtered_asn_ranges = (64496, 64511) ∷ [] };
}

load_filters-items : load_filters ipv4 ("10.0.0.0/8" ∷ []) items ≡ some filters
unfolding loaded
load_filters-items = refl

load_prefixes-items : load_prefixes ipv4 ("10.0.0.0/8" ∷ []) ≡ some (ten ∷ [])
unfolding loaded
load_prefixes-items = refl

bad_range : load_filters ipv4 [] (text "1-2-3" ∷ []) ≡ none
unfolding loaded
bad_range = refl

range_end : validate ipv4 filters sources "RIPE" none (some 64511) ≡ some out_scope_as
unfolding validate
range_end = refl

excluded : validate ipv4 filters sources "OLD" (some ten) (some 64511) ≡ some in_scope
unfolding validate
excluded = refl

neither : validate ipv4 filters sources "RIPE" none none ≡ none
unfolding validate
neither = refl

validate-verdict_example :
    validate ipv4 filters sources "RIPE" (some ten) (some 1)
    ≡ some (verdict ipv4 (ten ∷ []) items (some ten) (some 1))
validate-verdict_example =
    validate-verdict ipv4 ("10.0.0.0/8" ∷ []) items (ten ∷ []) filters sources "RIPE" (some ten)
      (some 1) load_prefixes-items load_filters-items

validate_rpsl_data-eq-validate_example :
    status_of ipv4 (validate_rpsl_data ipv4 filters sources "RIPE" "route" (some ten) (some 1))
    ≡ validate ipv4 filters sources "RIPE" (some ten) (some 1)
validate_rpsl_data-eq-validate_example =
    validate_rpsl_data-eq-validate ipv4 filters sources "RIPE" "route" (some ten) (some 1) refl refl

validate_rpsl_data-ne-none_example :
    validate_rpsl_data ipv4 filters sources "RIPE" "aut-num" none none ≢ none
validate_rpsl_data-ne-none_example =
    validate_rpsl_data-ne-none ipv4 filters sources "RIPE" "aut-num" none none

abbrev rows : List ObjectRow
rows =
    record {
      pk = "1";
      rpsl_pk = "AS64496";
      prefix = none;
      asn_first = some 64496;
      source = "RIPE";
      object_class = "aut-num";
      scopefilter_status = in_scope;
    }
    ∷ []

rows-Readable : Readable ipv4 filters sources rows
unfolding new_status validate_rpsl_data validate
rows-Readable = ((out_scope_as, refl), tt)

validate_all_rpsl_objects_lem_example :
    validate_all_rpsl_objects ipv4 filters sources (λ pk. some pk) rows
    ≡ some (
      with_extra pk_of (λ pk. pk) (changed_to ipv4 filters sources in_scope rows),
      with_extra pk_of (λ pk. pk) (changed_to ipv4 filters sources out_scope_as rows),
      with_extra pk_of (λ pk. pk) (changed_to ipv4 filters sources out_scope_prefix rows),
    )
validate_all_rpsl_objects_lem_example =
    validate_all_rpsl_objects_lem ipv4 filters sources (λ pk. pk) rows rows-Readable
