-- ===== src/Query/Examples.antt =====
-- Tests of the sources of queries, and the theorems at concrete data.
use irrd.Base.{◌≡◌, refl, ◌↔◌, ◌&&◌, String, true, none, some, [], ◌∷◌, In, distinct, string_eq}
use irrd.Query.{
  QuerySettings, QuerySourceManager, QueryResolver, new_manager, set_query_sources,
  sources_resolved, resolve_sources, prepare_query,
}
use irrd.Query.Laws.{StandsFor, sources_resolved_iff, permits, prepare_query-is_visible}
use irrd.Rpki.{invalid, is_visible as rpki_visible}
use irrd.Rpki.All.{status_beq as rpki_beq}
use irrd.RoutePref.{status_beq as preference_beq, is_visible as preference_visible}
use irrd.RoutePref.Radix.{visible}
use irrd.ScopeFilter.{in_scope, is_visible as scope_visible}
use irrd.ScopeFilter.All.{status_beq as scope_beq}

abbrev settings : QuerySettings
settings = record {
  source_names = "RIPE" ∷ "ARIN" ∷ [];
  has_roa_source = true;
  source_aliases = ("ALL", "ARIN" ∷ "RIPE" ∷ []) ∷ [];
  sources_default = [];
}

abbrev manager : QuerySourceManager
manager = record {
  all_valid_real_sources = "RIPE" ∷ "ARIN" ∷ "RPKI" ∷ [];
  all_valid_sources = "RIPE" ∷ "ARIN" ∷ "RPKI" ∷ "ALL" ∷ [];
  default_sources = [];
  sources = "RPKI" ∷ "ALL" ∷ "RIPE" ∷ [];
}

selected :
    set_query_sources (some ("RPKI" ∷ "ALL" ∷ "RIPE" ∷ [])) (new_manager settings) ≡ some manager
unfolding set_query_sources new_manager
selected = refl

unknown : set_query_sources (some ("RIPE" ∷ "NTT" ∷ [])) manager ≡ none
unfolding set_query_sources
unknown = refl

resolved : sources_resolved settings manager ≡ "RPKI" ∷ "ARIN" ∷ "RIPE" ∷ []
unfolding sources_resolved resolve_sources
resolved = refl

sources_resolved_iff_example :
    (distinct (sources_resolved settings manager) ≡ true)
    × ((x : String)
        → In x (sources_resolved settings manager)
          ↔ ((source : String) × In source manager.sources × StandsFor settings manager source x))
sources_resolved_iff_example = sources_resolved_iff settings manager

abbrev resolver : QueryResolver
resolver = record {
  source_manager = manager;
  object_class_filter = [];
  rpki_invalid_filter_enabled = true;
  out_scope_filter_enabled = true;
  route_preference_filter_enabled = true;
}

prepare_query-is_visible_example :
    (permits rpki_beq (prepare_query settings resolver).0.by_rpki_status invalid
      && (permits scope_beq (prepare_query settings resolver).0.by_scopefilter_status in_scope
          && permits preference_beq
              (prepare_query settings resolver).0.by_route_preference_status
              visible))
    ≡ (rpki_visible invalid && (scope_visible in_scope && preference_visible visible))
prepare_query-is_visible_example =
    prepare_query-is_visible settings resolver invalid in_scope visible refl refl refl
