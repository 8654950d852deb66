-- ===== src/Conf.antt =====
-- irrd/conf/__init__.py: the settings that the modelled code reads through `get_setting`. A setting
-- that is not set is `none`, `false` or the empty list, which is what Python's truth tests see.
use irrd.Base.{ℕ, String, Bool, false, Option, none, some, List, lookup, string_eq}

pub record SourceSettings : Type 0 where
  pub rpki_excluded : Bool
  pub scopefilter_excluded : Bool
  pub route_object_preference : Option ℕ
  pub keep_journal : Bool
  pub nrtm_query_serial_range_limit : Option ℕ
  pub nrtm_query_serial_days_limit : Option ℕ
  pub nrtm_response_header : Option String
  pub is_mirror : Bool
  pub import_timer : Option ℕ
  pub has_nrtm4_initial_public_key : Bool
  pub runs_rpsl_export : Bool
  pub export_timer : Option ℕ
  pub runs_nrtm4_server : Bool

-- A source for which nothing is set.
abbrev pub bare_source : SourceSettings
bare_source = record {
  rpki_excluded = false;
  scopefilter_excluded = false;
  route_object_preference = none;
  keep_journal = false;
  nrtm_query_serial_range_limit = none;
  nrtm_query_serial_days_limit = none;
  nrtm_response_header = none;
  is_mirror = false;
  import_timer = none;
  has_nrtm4_initial_public_key = false;
  runs_rpsl_export = false;
  export_timer = none;
  runs_nrtm4_server = false;
}

abbrev pub Sources : Type 0
Sources = List (String × SourceSettings)

-- `get_setting(f"sources.{source}.…")`: what an unknown source has is what a bare one has.
abbrev pub source_settings : Sources → String → SourceSettings
source_settings sources source = elim (lookup source sources) [
  | none ↦ bare_source
  | some settings ↦ settings
]
