-- ===== src/Preload.antt =====
-- irrd/storage/preload.py: the in-memory store of set members and of the routes of an origin, as
-- queries read it. The store is what was last loaded from Redis.
pub mod Laws
use irrd.Base.{
  ℕ, String, Bool, true, false, not, ◌&&◌, ◌||◌, Option, none, some, List, [], ◌∷◌, any, is_nil,
  lookup, string_eq, eqb, update, if◌then◌else◌,
}
use irrd.Text.{split, upper}

pub data SetClass : Type 0 where
  as_set route_set : SetClass

abbrev pub same_class : SetClass → SetClass → Bool
same_class as_set as_set = true
same_class as_set route_set = false
same_class route_set as_set = false
same_class route_set route_set = true

-- Source, then key, to the contents, which are joined by commas
abbrev pub Store : Type 0
Store = List (String × List (String × String))

pub record Stores : Type 0 where
  pub as_set_store : Store
  pub route_set_store : Store
  pub origin_route4_store : Store
  pub origin_route6_store : Store

-- `store[source][key].split(",")`; `none` stands for the `KeyError`.
unfoldable pub contents : Store → String → String → Option (List String)
contents store source key = elim (lookup source store) [
  | none ↦ none
  | some keys ↦ elim (lookup key keys) [ none ↦ none | some text ↦ some (split b',' text) ]
]

-- The first source that knows the set
unfoldable pub first_members : Store → String → List String → Option (List String)
first_members store set_pk [] = none
first_members store set_pk (source ∷ sources) =
    let rest = first_members store set_pk sources in
    elim (contents store source set_pk) [ none ↦ rest | some members ↦ some members ]

-- `not object_classes or name in object_classes`
abbrev pub class_asked : SetClass → List SetClass → Bool
class_asked c classes = is_nil classes || any (same_class c) classes

abbrev pub members_if :
    Bool → Store → SetClass → String → List String → Option (List String × SetClass)
members_if asked store c set_pk sources =
    if asked
    then (elim (first_members store set_pk sources) [ none ↦ none | some ms ↦ some (ms, c) ])
    else none

unfoldable pub set_members :
    Stores → String → List String → List SetClass → Option (List String × SetClass)
set_members s set_pk sources classes =
    let pk = upper set_pk in
    elim (members_if (class_asked as_set classes) s.as_set_store as_set pk sources) [
      | some found ↦ some found
      | none ↦ members_if (class_asked route_set classes) s.route_set_store route_set pk sources
    ]

-- `not ip_version or ip_version == n`
abbrev pub version_asked : ℕ → Option ℕ → Bool
version_asked n none = true
version_asked n (some v) = eqb v 0 || eqb v n

-- `ip_version and ip_version not in [4, 6]`
abbrev pub bad_version : Option ℕ → Bool
bad_version none = false
bad_version (some v) = not (eqb v 0) && not (eqb v 4 || eqb v 6)

abbrev pub or_empty : Option (List String) → List String
or_empty none = []
or_empty (some xs) = xs

abbrev pub add_prefixes : Bool → Store → String → String → List String → List String
add_prefixes asked store source origin prefix_sets =
    if asked then update prefix_sets (or_empty (contents store source origin)) else prefix_sets

unfoldable pub visit_origins : Stores → Option ℕ → String → List String → List String → List String
visit_origins s ip_version source [] prefix_sets = prefix_sets
visit_origins s ip_version source (origin ∷ origins) prefix_sets =
    visit_origins s ip_version source origins (
      add_prefixes (version_asked 6 ip_version) s.origin_route6_store source origin
        (add_prefixes (version_asked 4 ip_version) s.origin_route4_store source origin prefix_sets))

unfoldable pub visit_sources :
    Stores → Option ℕ → List String → List String → List String → List String
visit_sources s ip_version origins [] prefix_sets = prefix_sets
visit_sources s ip_version origins (source ∷ sources) prefix_sets =
    visit_sources s ip_version origins sources
      (visit_origins s ip_version source origins prefix_sets)

-- `none` stands for the `ValueError` of an IP version that is not 4 or 6.
unfoldable pub routes_for_origins :
    Stores → List String → List String → Option ℕ → Option (List String)
routes_for_origins s origins sources ip_version =
    if bad_version ip_version
    then none
    else if is_nil origins || is_nil sources
    then some []
    else some (visit_sources s ip_version origins sources [])
