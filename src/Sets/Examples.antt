-- ===== src/Sets/Examples.antt =====
-- Tests of the resolving of sets, and its theorems at concrete data: two as-sets that refer to each
-- other, one of them with an AS number that has routes.
use irrd.Base.{ℕ, String, ◌≡◌, refl, ◌↔◌, Option, none, some, List, [], ◌∷◌, In}
use irrd.AsNumber.{parse_as_number, as_value_int}
use irrd.Ip.Concrete.{ipv4}
use irrd.Preload.{
  Stores, contents, first_members, set_members, visit_origins, visit_sources, routes_for_origins,
}
use irrd.Sets.{
  Resolver, State, enough_fuel, recursive_set_resolve, find_set_members, visit_sets,
  classify_members, routes_for_as_set, fresh_state,
}
use irrd.Sets.Closure.{IsLeaf}
use irrd.Sets.Fuel.{recursive_set_resolve-ends}
use irrd.Sets.Routes.{resolver, IsRegistered, routes_for_as_set_iff}
use irrd.Text.{split, upper, has_char, int, digits_from, str, digits_of, append, strip_prefix}

abbrev stores : Stores
stores = record {
  as_set_store =
      ("RIPE", ("AS-ONE", "AS-TWO,AS64496") ∷ ("AS-TWO", "AS-ONE,AS64497,AS-GONE") ∷ []) ∷ [];
  route_set_store = [];
  origin_route4_store =
      ("RIPE", ("AS64496", "192.0.2.0/24") ∷ ("AS64497", "198.51.100.0/24,192.0.2.0/24") ∷ []) ∷ [];
  origin_route6_store = ("RIPE", ("AS64497", "2001:db8::/32") ∷ []) ∷ [];
}

abbrev r : Resolver
r = resolver stores ("RIPE" ∷ []) []

abbrev answer : Option ℕ → Option (List String)
answer v = routes_for_as_set ipv4 stores ("RIPE" ∷ []) "as-one" v []

both_versions : answer none ≡ some ("192.0.2.0/24" ∷ "198.51.100.0/24" ∷ "2001:db8::/32" ∷ [])
unfolding routes_for_as_set recursive_set_resolve find_set_members visit_sets classify_members
    set_members first_members contents routes_for_origins visit_sources visit_origins
    parse_as_number as_value_int split upper has_char int digits_from str digits_of append
    strip_prefix
both_versions = refl

only_ipv6 : answer (some 6) ≡ some ("2001:db8::/32" ∷ [])
unfolding both_versions
only_ipv6 = refl

wrong_version : answer (some 5) ≡ none
unfolding both_versions
wrong_version = refl

routes_for_as_set_iff_example :
    (found : List String) × (answer (some 6) ≡ some found)
    × ((p : String)
        → In p found ↔ (
            (origin : String) × IsLeaf r ("as-one" ∷ []) origin
            × IsRegistered stores ("RIPE" ∷ []) (some 6) p origin))
routes_for_as_set_iff_example =
    routes_for_as_set_iff ipv4 stores ("RIPE" ∷ []) [] "as-one" (some 6) refl

recursive_set_resolve-ends_example :
    (found : List String) × (st' : State) × (recursive_set_resolve ipv4
        (enough_fuel stores ("AS-ONE" ∷ []))
        r
        (fresh_state none 0)
        ("AS-ONE" ∷ [])
        none
      ≡ some (found, st'))
recursive_set_resolve-ends_example =
    recursive_set_resolve-ends ipv4 r ("AS-ONE" ∷ []) (fresh_state none 0) none refl
