-- ===== src/RoutePref.antt =====
-- irrd/routepref: which route objects are suppressed by overlapping routes of a source with a higher
-- preference (irrd/routepref/status.py and `RoutePreferenceValidator` of
-- irrd/routepref/routepref.py). The radix tree (py-radix) is a parameter.
pub mod Radix
mod Tree
mod Decide
pub mod Outcome
mod Examples
use irrd.Base.{
  ℕ, ◌<◌, String, Bool, true, false, not, ◌&&◌, Option, none, some, List, [], ◌∷◌, ◌++◌, max, any,
  is_nil, is_some, contains, leb, ltb, eqb, ◌==◌, length, string_eq, lookup, insert, if◌then◌else◌,
}
use irrd.Conf.{SourceSettings, Sources}
use Radix.{RoutePreferenceStatus, visible, suppressed, Data, RadixLib}

abbrev pub status_beq : RoutePreferenceStatus → RoutePreferenceStatus → Bool
status_beq visible visible = true
status_beq suppressed suppressed = true
status_beq _ _ = false

unfoldable pub is_visible : RoutePreferenceStatus → Bool
is_visible status = status_beq status visible

-- A route object as a row with the four columns that the validator reads
pub record RouteObject : Type 0 where
  pub prefix : String
  pub source : String
  pub pk : String
  pub status : RoutePreferenceStatus

abbrev pub Preferences : Type 0
Preferences = List (String × ℕ)

abbrev pub preference_entry : String → Option ℕ → Preferences → Preferences
preference_entry source none rest = rest
preference_entry source (some n) rest = (source, n) ∷ rest

-- `{source_name: int(…) for … if … is not None}`
unfoldable pub source_preferences : Sources → Preferences
source_preferences [] = []
source_preferences ((source, settings) ∷ sources) =
    preference_entry source settings.route_object_preference (source_preferences sources)

abbrev pub max_of : ℕ → Preferences → ℕ
max_of n [] = n
max_of n ((_, m) ∷ rest) = max_of (max n m) rest

-- `max(self.source_preferences.values()) if self.source_preferences else None`
unfoldable pub max_preference : Preferences → Option ℕ
max_preference [] = none
max_preference ((_, n) ∷ rest) = some (max_of n rest)

abbrev pub is_max : Option ℕ → ℕ → Bool
is_max none n = false
is_max (some m) n = eqb n m

-- The two lists of keys: to become visible, to be suppressed
abbrev pub Decisions : Type 0
Decisions = List String × List String

abbrev pub decide : RoutePreferenceStatus → RoutePreferenceStatus → String → Decisions → Decisions
decide suppressed visible pk (shown, hidden) = (shown, hidden ++ pk ∷ [])
decide visible suppressed pk (shown, hidden) = (shown ++ pk ∷ [], hidden)
decide _ _ pk d = d

module _ (R : RadixLib) where
  pub record Validator : Type 0 where
    pub preferences : Preferences
    pub rtree : R.Tree
    pub excluded_currently_suppressed : List String

  abbrev pub data_of : Option Data → Data
  data_of none = []
  data_of (some d) = d

  -- `rnode = self.rtree.add(…)`, `rnode.data[pk] = (preference, status)`
  abbrev pub add_route : R.Tree → RouteObject → ℕ → R.Tree
  add_route t r preference =
      let net = R.net_of r.prefix in
      R.put t net (insert r.pk (preference, r.status) (data_of (R.data_at t net)))

  abbrev pub build_step : Validator → RouteObject → Validator
  build_step v r = elim (lookup r.source v.preferences) [
    | none ↦
        if not (status_beq r.status visible)
        then record v {
          excluded_currently_suppressed = v.excluded_currently_suppressed ++ r.pk ∷ [];
        }
        else v
    | some preference ↦ record v { rtree = add_route v.rtree r preference }
  ]

  unfoldable pub build_tree : List RouteObject → Validator → Validator
  build_tree [] v = v
  build_tree (r ∷ rows) v = build_tree rows (build_step v r)

  unfoldable pub init : Sources → List RouteObject → Validator
  init sources rows = build_tree rows (record {
    preferences = source_preferences sources;
    rtree = R.empty;
    excluded_currently_suppressed = [];
  })

  -- The loops over the overlapping nodes and the values of their data
  abbrev pub beaten : R.Tree → ℕ → List R.Net → Bool
  beaten t preference nets =
      any (λ n. any (λ (_, (p, _)). ltb preference p) (data_of (R.data_at t n))) nets

  unfoldable pub evaluate_route : Validator → ℕ → List R.Net → RoutePreferenceStatus
  evaluate_route v preference overlapping =
      if is_max (max_preference v.preferences) preference
      then visible
      else if beaten v.rtree preference overlapping
      then suppressed
      else visible

  unfoldable pub decide_node : Validator → List R.Net → Data → Decisions → Decisions
  decide_node v overlapping [] d = d
  decide_node v overlapping ((pk, (preference, current)) ∷ items) d =
      decide_node v overlapping items
        (decide (evaluate_route v preference overlapping) current pk d)

  unfoldable pub decide_nodes : Validator → List R.Net → Decisions → Decisions
  decide_nodes v [] d = d
  decide_nodes v (n ∷ nets) d = decide_nodes v nets (
      decide_node v (R.search_covered v.rtree n ++ R.search_covering v.rtree n)
        (data_of (R.data_at v.rtree n)) d)

  unfoldable pub validate_known_routes : Validator → Decisions
  validate_known_routes v =
      if is_nil v.preferences then ([], []) else decide_nodes v (R.nodes v.rtree) ([], [])
