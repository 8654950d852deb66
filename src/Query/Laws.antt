-- ===== src/Query/Laws.antt =====
-- The sources that a query looks in, and the objects that its filters let through.
use irrd.Base.{
  String, ◌≡◌, refl, subst, sym, ◌↔◌, ◌⊎◌, inl, inr, Bool, true, false, Option, none, some, List,
  [], ◌∷◌, In, In-update_old, In-update_new, update-In, In-add_old, In-add_new, add-In, add,
  distinct, distinct-add, distinct-update, contains, string_eq, arith, if◌then◌else◌, any, ◌&&◌,
}
use irrd.Rpki.{RpkiStatus, is_visible as rpki_visible}
use irrd.Rpki.All.{status_beq as rpki_beq}
use irrd.RoutePref.{status_beq as preference_beq, is_visible as preference_visible}
use irrd.RoutePref.Radix.{RoutePreferenceStatus}
use irrd.ScopeFilter.{ScopeFilterStatus, is_visible as scope_visible}
use irrd.ScopeFilter.All.{status_beq as scope_beq}
use irrd.Query.{
  QuerySettings, QuerySourceManager, alias_members, resolve_source, resolve_sources,
  sources_resolved, QueryResolver, prepare_query,
}

-- What one of the selected names stands for: itself if it is a real source, and the members of the
-- alias of that name
abbrev pub StandsFor : QuerySettings → QuerySourceManager → String → String → Type 0
StandsFor s m source x =
    ((contains m.all_valid_real_sources source ≡ true) × (source ≡ x))
    ⊎ In x (alias_members s.source_aliases source)

if_add_old :
    (b : Bool) (x a : String) (acc : List String) → In x acc → In x (if b then add a acc else acc)
if_add_old true x a acc h = In-add_old x a acc h
if_add_old false x a acc h = h

if_add_new :
    (b : Bool) (a : String) (acc : List String) → b ≡ true → In a (if b then add a acc else acc)
if_add_new true a acc h = In-add_new a acc
if_add_new false a acc h = cc

if_add_cases :
    (b : Bool) (x a : String) (acc : List String)
    → In x (if b then add a acc else acc)
    → In x acc ⊎ ((b ≡ true) × (a ≡ x))
if_add_cases true x a acc h = elim (add-In x a acc h) [ inl k ↦ inl k | inr k ↦ inr (refl, k) ]
if_add_cases false x a acc h = inl h

distinct-if_add :
    (b : Bool) (a : String) (acc : List String)
    → distinct acc ≡ true
    → distinct (if b then add a acc else acc) ≡ true
distinct-if_add true a acc h = distinct-add a acc h
distinct-if_add false a acc h = h

module _ (s : QuerySettings) (m : QuerySourceManager) where
  abbrev resolve_one : String → List String → List String
  resolve_one source acc = resolve_source m.all_valid_real_sources s.source_aliases source acc

  one-old : (x source : String) (acc : List String) → In x acc → In x (resolve_one source acc)
  one-old x source acc h =
      In-update_old x _ (alias_members s.source_aliases source)
        (if_add_old (contains m.all_valid_real_sources source) x source acc h)

  one-new :
      (x source : String) (acc : List String)
      → StandsFor s m source x
      → In x (resolve_one source acc)
  one-new x source acc (inl (real, same)) =
      subst (λ z. In z (resolve_one source acc)) same
        (In-update_old source _ (alias_members s.source_aliases source)
          (if_add_new (contains m.all_valid_real_sources source) source acc real))
  one-new x source acc (inr h) = In-update_new x _ (alias_members s.source_aliases source) h

  one-cases :
      (x source : String) (acc : List String)
      → In x (resolve_one source acc)
      → In x acc ⊎ StandsFor s m source x
  one-cases x source acc h =
      elim (update-In x (if contains m.all_valid_real_sources source then add source acc else acc)
        (alias_members s.source_aliases source) h) [
          | inl k ↦ elim (if_add_cases (contains m.all_valid_real_sources source) x source acc k) [
            | inl old ↦ inl old
            | inr real ↦ inr (inl real)
          ]
          | inr k ↦ inr (inr k)
        ]

  abbrev resolve_all : List String → List String → List String
  resolve_all sources acc = resolve_sources m.all_valid_real_sources s.source_aliases sources acc

  all-old : (x : String) (ss acc : List String) → In x acc → In x (resolve_all ss acc)
  unfolding resolve_sources
  all-old x [] acc h = h
  all-old x (y ∷ ss) acc h = all-old x ss (resolve_one y acc) (one-old x y acc h)

  all-new :
      (x source : String) (ss acc : List String)
      → In source ss
      → StandsFor s m source x
      → In x (resolve_all ss acc)
  unfolding resolve_sources
  all-new x source [] acc i h = absurd i
  all-new x source (y ∷ ss) acc (inl same) h =
      all-old x ss (resolve_one y acc)
        (one-new x y acc (subst (λ z. StandsFor s m z x) (sym same) h))
  all-new x source (y ∷ ss) acc (inr i) h = all-new x source ss (resolve_one y acc) i h

  all-cases :
      (x : String) (ss acc : List String)
      → In x (resolve_all ss acc)
      → In x acc ⊎ ((source : String) × In source ss × StandsFor s m source x)
  unfolding resolve_sources
  all-cases x [] acc h = inl h
  all-cases x (y ∷ ss) acc h = elim (all-cases x ss (resolve_one y acc) h) [
    | inl k ↦ elim (one-cases x y acc k) [ inl old ↦ inl old | inr new ↦ inr (y, inl refl, new) ]
    | inr (source, i, new) ↦ inr (source, inr i, new)
  ]

  distinct-resolve_all :
      (ss acc : List String) → distinct acc ≡ true → distinct (resolve_all ss acc) ≡ true
  unfolding resolve_sources
  distinct-resolve_all [] acc h = h
  distinct-resolve_all (y ∷ ss) acc h = distinct-resolve_all ss (resolve_one y acc) (
      distinct-update _ (alias_members s.source_aliases y)
        (distinct-if_add (contains m.all_valid_real_sources y) y acc h))

  -- The resolved sources name no source twice, and they are exactly the real sources that are
  -- selected and the members of the aliases that are selected.
  pub sources_resolved_iff :
      (distinct (sources_resolved s m) ≡ true)
      × ((x : String)
          → In x (sources_resolved s m)
            ↔ ((source : String) × In source m.sources × StandsFor s m source x))
  unfolding sources_resolved
  sources_resolved_iff = (
    distinct-resolve_all m.sources [] refl,
    λ x. (
      λ h. elim (all-cases x m.sources [] h) [ inl k ↦ absurd k | inr k ↦ k ],
      λ (source, i, h). all-new x source m.sources [] i h,
    ),
  )

abbrev pub permits {ℓ} : {A : Type ℓ} → (A → A → Bool) → Option (List A) → A → Bool
permits same none a = true
permits same (some allowed) a = any (same a) allowed

-- With its three filters enabled, a query lets through exactly the objects that the RPKI, the scope
-- filter and the route preference each call visible.
pub prepare_query-is_visible :
    (s : QuerySettings) (r : QueryResolver) (rpki : RpkiStatus) (scope : ScopeFilterStatus)
    (preference : RoutePreferenceStatus)
    → r.rpki_invalid_filter_enabled ≡ true
    → r.out_scope_filter_enabled ≡ true
    → r.route_preference_filter_enabled ≡ true
    → (permits rpki_beq (prepare_query s r).0.by_rpki_status rpki
        && (permits scope_beq (prepare_query s r).0.by_scopefilter_status scope
            && permits preference_beq (prepare_query s r).0.by_route_preference_status preference))
      ≡ (rpki_visible rpki && (scope_visible scope && preference_visible preference))
unfolding prepare_query rpki_visible scope_visible preference_visible
prepare_query-is_visible s r rpki scope preference a b c = ground arith
