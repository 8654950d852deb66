-- ===== src/Sets/Routes.antt =====
-- What `QueryResolver.routes_for_as_set` answers.
use irrd.Base.{
  ℕ, String, ◌≡◌, refl, ◌↔◌, inl, inr, false, Option, some, List, [], ◌∷◌, In, In-append_left,
  missing-length, string_eq, arith,
}
use irrd.Ip.{IpLib}
use irrd.Preload.{Stores, bad_version}
use irrd.Preload.Laws.{Originates, routes_for_origins_iff}
use irrd.Sets.{Resolver, pos, universe, enough_fuel, routes_for_as_set}
use irrd.Sets.Closure.{Reach, root, step, IsLeaf}
use irrd.Sets.Reach.{Inv, resolve-Inv}

Reach-seen :
    (r : Resolver) (roots found seen : List String) (t : String)
    → Inv r roots [] found seen
    → Reach r roots t
    → In t seen
Reach-seen r roots found seen t inv (root i) = inv.sees t i
Reach-seen r roots found seen t inv (step {t = s} h k) =
    elim (inv.done s (Reach-seen r roots found seen s inv h)) [
      | inl nothing ↦ absurd nothing
      | inr (_, (sub, _)) ↦ sub t k
    ]

IsLeaf-found :
    (r : Resolver) (roots found seen : List String) (x : String)
    → Inv r roots [] found seen
    → IsLeaf r roots x
    → In x found
IsLeaf-found r roots found seen x inv (t, h, i, k) =
    elim (inv.done t (Reach-seen r roots found seen t inv h)) [
      | inl nothing ↦ absurd nothing
      | inr (_, (_, leaf)) ↦ leaf x i k
    ]

-- A route is registered for an origin, in one of the sources and for an IP version that was asked for.
abbrev pub IsRegistered : Stores → List String → Option ℕ → String → String → Type 0
IsRegistered s sources ip_version p origin =
    (source : String) × In source sources × Originates s ip_version p source origin

abbrev pub resolver : Stores → List String → List String → Resolver
resolver s sources exclude_sets = record {
  stores = s;
  resolved_sources = sources;
  current_excluded_sets = exclude_sets;
}

module _ (L : IpLib) (s : Stores) (sources exclude_sets : List String) where
  -- For an IP version that is 4, 6 or not given, the query for the routes of an as-set always
  -- answers, also where as-sets refer to each other, and it answers with exactly the prefixes
  -- registered in the sources, in that IP version, for an AS number that is a member of an as-set
  -- which the asked one leads to through members that are not excluded.
  pub routes_for_as_set_iff :
      (set_name : String) (ip_version : Option ℕ)
      → bad_version ip_version ≡ false
      → (found : List String) × (routes_for_as_set L s sources set_name ip_version exclude_sets
          ≡ some found)
        × ((p : String)
            → In p found ↔ (
                (origin : String) × IsLeaf (resolver s sources exclude_sets) (set_name ∷ []) origin
                × IsRegistered s sources ip_version p origin))
  unfolding routes_for_as_set
  routes_for_as_set_iff set_name v ok =
      let roots : List String = set_name ∷ [] in
      let (members, st, e, inv) =
        resolve-Inv L (resolver s sources exclude_sets) roots (enough_fuel s roots) (pos 0) [] roots
          refl (λ x i. In-append_left x roots _ i)
          (omega (arith, missing-length (universe s roots) [])) in
      let (found, k, iff) = routes_for_origins_iff s v members sources ok in
      (
        found,
        rw (e, routes_for_as_set) k,
        λ p. (
          λ i.
              let (source, j, (origin, l, h)) = (iff p).0 i in
              (origin, inv.leaves origin l, (source, j, h)),
          λ (origin, leaf, (source, j, h)). (iff p).1 (
            source,
            j,
            (
              origin,
              IsLeaf-found (resolver s sources exclude_sets) roots members st.sets_seen origin inv
                  leaf,
              h,
            ),
          ),
        ),
      )
