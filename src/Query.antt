-- ===== src/Query.antt =====
-- irrd/server/query_resolver.py: `QuerySourceManager`, and the filters that `_prepare_query` puts on
-- every query of the database.
pub mod Laws
mod Examples
use irrd.Base.{
  String, Bool, true, false, not, ◌&&◌, Option, none, some, List, [], ◌∷◌, ◌++◌, all, is_nil,
  contains, lookup, map, string_eq, add, update, if◌then◌else◌,
}
use irrd.Rpki.{RpkiStatus, valid, not_found}
use irrd.RoutePref.Radix.{RoutePreferenceStatus, visible}
use irrd.ScopeFilter.{ScopeFilterStatus, in_scope}

-- The settings that are read here; `source_names` are the keys of the setting `sources`.
pub record QuerySettings : Type 0 where
  pub source_names : List String
  pub has_roa_source : Bool
  pub source_aliases : List (String × List String)
  pub sources_default : List String

pub record QuerySourceManager : Type 0 where
  pub all_valid_real_sources : List String
  pub all_valid_sources : List String
  pub default_sources : List String
  pub sources : List String

abbrev pub rpki_irr_pseudo_source : String
rpki_irr_pseudo_source = "RPKI"

abbrev pub name_of : String × List String → String
name_of (name, _) = name

abbrev pub or_else : List String → List String → List String
or_else xs ys = if is_nil xs then ys else xs

unfoldable pub new_manager : QuerySettings → QuerySourceManager
new_manager s =
    let real =
      if s.has_roa_source then s.source_names ++ rpki_irr_pseudo_source ∷ [] else s.source_names in
    let every = real ++ map name_of s.source_aliases in
    record {
      all_valid_real_sources = real;
      all_valid_sources = every;
      default_sources = s.sources_default;
      sources = or_else s.sources_default every;
    }

-- `none` as the result stands for the `InvalidQueryException`.
unfoldable pub set_query_sources :
    Option (List String) → QuerySourceManager → Option QuerySourceManager
set_query_sources none m =
    some (record m { sources = or_else m.default_sources m.all_valid_sources })
set_query_sources (some asked) m =
    if all (contains m.all_valid_sources) asked then some (record m { sources = asked }) else none

abbrev pub alias_members : List (String × List String) → String → List String
alias_members aliases source = elim (lookup source aliases) [ none ↦ [] | some members ↦ members ]

abbrev pub resolve_source :
    List String → List (String × List String) → String → List String → List String
resolve_source real aliases source acc =
    update (if contains real source then add source acc else acc) (alias_members aliases source)

unfoldable pub resolve_sources :
    List String → List (String × List String) → List String → List String → List String
resolve_sources real aliases [] acc = acc
resolve_sources real aliases (source ∷ sources) acc =
    resolve_sources real aliases sources (resolve_source real aliases source acc)

-- The aliases are read from the settings anew.
unfoldable pub sources_resolved : QuerySettings → QuerySourceManager → List String
sources_resolved s m = resolve_sources m.all_valid_real_sources s.source_aliases m.sources []

-- The filters of one query of the RPSL objects; `none` where the query is not restricted.
pub record QueryFilters : Type 0 where
  pub by_sources : Option (List String)
  pub by_object_classes : Option (List String)
  pub by_rpki_status : Option (List RpkiStatus)
  pub by_scopefilter_status : Option (List ScopeFilterStatus)
  pub by_route_preference_status : Option (List RoutePreferenceStatus)

pub record QueryResolver : Type 0 where
  pub source_manager : QuerySourceManager
  pub object_class_filter : List String
  pub rpki_invalid_filter_enabled : Bool
  pub out_scope_filter_enabled : Bool
  pub route_preference_filter_enabled : Bool

abbrev pub unless_nil : List String → Option (List String)
unless_nil [] = none
unless_nil (x ∷ xs) = some (x ∷ xs)

abbrev pub when {ℓ} : {A : Type ℓ} → Bool → A → Option A
when true a = some a
when false a = none

unfoldable pub prepare_query : QuerySettings → QueryResolver → QueryFilters × QueryResolver
prepare_query s r = (
  record {
    by_sources = unless_nil (sources_resolved s r.source_manager);
    by_object_classes = unless_nil r.object_class_filter;
    by_rpki_status = when r.rpki_invalid_filter_enabled (not_found ∷ valid ∷ []);
    by_scopefilter_status = when r.out_scope_filter_enabled (in_scope ∷ []);
    by_route_preference_status = when r.route_preference_filter_enabled (visible ∷ []);
  },
  record r { object_class_filter = [] },
)
