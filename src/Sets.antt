-- ===== src/Sets.antt =====
-- irrd/server/query_resolver.py: resolving the members of as-sets and route-sets.
pub mod Found
pub mod Fuel
pub mod Closure
pub mod Reach
pub mod Routes
mod Examples
use irrd.Base.{
  ℕ, zero, suc, ◌+◌, String, Bool, true, false, not, ◌&&◌, ◌||◌, Option, none, some, List, [], ◌∷◌,
  ◌++◌, all, filter, is_nil, contains, length, map, string_eq, update, add, if◌then◌else◌, remove,
  lookup, is_some, ◌==◌,
}
use irrd.AsNumber.{parse_as_number, text}
use irrd.Ip.{IpLib}
use irrd.Preload.{
  SetClass, as_set, route_set, same_class, Store, Stores, set_members, routes_for_origins, or_empty,
}
use irrd.Text.{split, first}

-- `_current_set_maximum_depth` counts down and may go below 0.
pub data Depth : Type 0 where
  pos : ℕ → Depth
  negsuc : ℕ → Depth

abbrev pub decrement : Depth → Depth
decrement (pos zero) = negsuc zero
decrement (pos (suc n)) = pos n
decrement (negsuc n) = negsuc (suc n)

abbrev pub is_zero : Depth → Bool
is_zero (pos zero) = true
is_zero (pos (suc n)) = false
is_zero (negsuc n) = false

-- What stays as it is while one query is resolved
pub record Resolver : Type 0 where
  pub stores : Stores
  pub resolved_sources : List String
  pub current_excluded_sets : List String

-- What changes: the attributes of the resolver, and the set `sets_seen`, which all calls share
pub record State : Type 0 where
  pub current_set_root_object_class : Option SetClass
  pub current_set_maximum_depth : Depth
  pub sets_seen : List String

abbrev pub asked_classes : Option SetClass → List SetClass
asked_classes (some as_set) = as_set ∷ []
asked_classes (some route_set) = route_set ∷ as_set ∷ []
asked_classes none = route_set ∷ as_set ∷ []

pub record FoundMembers : Type 0 where
  pub members : List String
  pub leaf_members : List String
  pub root_class : Option SetClass

abbrev pub or_class : Option SetClass → SetClass → Option SetClass
or_class none c = some c
or_class (some root) c = some root

abbrev pub note_set : String → Option (List String × SetClass) → FoundMembers → FoundMembers
note_set set_name none f = record f { leaf_members = add set_name f.leaf_members }
note_set set_name (some (members, c)) f = record f {
  members = update f.members members;
  root_class = or_class f.root_class c;
}

unfoldable pub visit_sets :
    Stores → List String → List SetClass → List String → FoundMembers → FoundMembers
visit_sets s sources classes [] f = f
visit_sets s sources classes (set_name ∷ set_names) f =
    visit_sets s sources classes set_names
      (note_set set_name (set_members s set_name sources classes) f)

abbrev pub limited : Option String → List String → List String
limited none sources = sources
limited (some source) sources = if source == "" then sources else source ∷ []

unfoldable pub find_set_members :
    Resolver → Option SetClass → List String → Option String → FoundMembers
find_set_members r root set_names limit_source =
    visit_sets r.stores (limited limit_source r.resolved_sources) (asked_classes root) set_names
      (record { members = []; leaf_members = []; root_class = root })

abbrev pub prefixes_allowed : Option SetClass → Bool
prefixes_allowed none = true
prefixes_allowed (some as_set) = false
prefixes_allowed (some route_set) = true

abbrev pub is_route_set : Option SetClass → Bool
is_route_set none = false
is_route_set (some as_set) = false
is_route_set (some route_set) = true

-- `set_members` and `resolved_as_members`
pub record Classified : Type 0 where
  pub set_members : List String
  pub resolved_as_members : List String

abbrev pub unclassified : Classified
unclassified = record { set_members = []; resolved_as_members = [] }

abbrev pub as_number_of : String → Option (String × ℕ)
as_number_of member = parse_as_number false false (text member)

abbrev pub classify_as :
    Resolver → Option SetClass → String → Option (String × ℕ) → Classified → Classified
classify_as r root member none c = c
classify_as r root member (some (formatted, n)) c =
    let prefixes =
      or_empty (routes_for_origins r.stores (formatted ∷ []) r.resolved_sources none) in
    if is_route_set root
    then record {
      set_members = update c.set_members prefixes;
      resolved_as_members = add member c.resolved_as_members;
    }
    else record c { set_members = add member c.set_members }

abbrev pub texts_of : List (String × String) → List String
texts_of [] = []
texts_of ((key, contents) ∷ keys) = split b',' contents ++ texts_of keys

-- All names in a store
abbrev pub names_in : Store → List String
names_in [] = []
names_in ((source, keys) ∷ store) = texts_of keys ++ names_in store

-- All names that a query for these sets can come to
abbrev pub universe : Stores → List String → List String
universe s roots = roots ++ (names_in s.as_set_store ++ names_in s.route_set_store)

abbrev pub enough_fuel : Stores → List String → ℕ
enough_fuel s roots = suc (length (universe s roots))

abbrev pub fresh_state : Option SetClass → ℕ → State
fresh_state root depth = record {
  current_set_root_object_class = root;
  current_set_maximum_depth = pos depth;
  sets_seen = [];
}

abbrev pub needs_resolving : Resolver → Classified → List String → String → Bool
needs_resolving r c sets_seen member =
    not (contains c.set_members member)
    && (not (contains sets_seen member)
        && (not (contains c.resolved_as_members member)
            && not (contains r.current_excluded_sets member)))

module _ (L : IpLib) where
  abbrev pub is_ip : String → Bool
  is_ip member = is_some (L.parse (first (split b'^' member)))

  abbrev pub classify_member : Resolver → Option SetClass → String → Classified → Classified
  classify_member r root member c =
      if prefixes_allowed root && is_ip member
      then record c { set_members = add member c.set_members }
      else classify_as r root member (as_number_of member) c

  unfoldable pub classify_members :
      Resolver → Option SetClass → List String → Classified → Classified
  classify_members r root [] c = c
  classify_members r root (member ∷ members) c =
      classify_members r root members (classify_member r root member c)

  -- The result and the state after the call. Each call of itself, but for the last, has seen one more
  -- set; `none` stands for a call that has no fuel.
  unfoldable pub recursive_set_resolve :
      ℕ → Resolver → State → List String → Option String → Option (List String × State)
  recursive_set_resolve zero r st members root_source = none
  recursive_set_resolve (suc fuel) r st members root_source =
      let seen = update st.sets_seen members in
      let found = find_set_members r st.current_set_root_object_class members root_source in
      let c = classify_members r found.root_class found.members unclassified in
      let st' : State = record {
        current_set_root_object_class = found.root_class;
        current_set_maximum_depth = decrement st.current_set_maximum_depth;
        sets_seen = seen;
      } in
      let rest =
        recursive_set_resolve fuel r st' (filter (needs_resolving r c seen) found.members) none in
      if all (contains st.sets_seen) members
      then some ([], st)
      else if is_zero (decrement st.current_set_maximum_depth)
      then some (update (update c.set_members found.members) found.leaf_members, st')
      else (elim rest [
        | none ↦ none
        | some (new_members, st'') ↦ some (update c.set_members new_members, st'')
      ])

  -- The error of the preloader on a wrong IP version is `none` too.
  unfoldable pub routes_for_as_set :
      Stores → List String → String → Option ℕ → List String → Option (List String)
  routes_for_as_set s sources set_name ip_version exclude_sets =
      let r : Resolver = record {
        stores = s;
        resolved_sources = sources;
        current_excluded_sets = exclude_sets;
      } in
      elim (recursive_set_resolve (enough_fuel s (set_name ∷ [])) r (fresh_state (some as_set) 0)
        (set_name ∷ []) none) [
          | none ↦ none
          | some (members, st) ↦ routes_for_origins s members sources ip_version
        ]
