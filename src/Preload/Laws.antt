-- ===== src/Preload/Laws.antt =====
-- Which prefixes `Preloader.routes_for_origins` returns.
use irrd.Base.{
  ℕ, String, ◌≡◌, refl, ◌↔◌, ◌⊎◌, inl, inr, Bool, true, false, Option, some, List, [], ◌∷◌, In,
  In-update_old, In-update_new, update-In, distinct, distinct-update, update, string_eq, arith,
  subst, sym, if◌then◌else◌,
}
use irrd.Preload.{
  Stores, contents, version_asked, bad_version, or_empty, add_prefixes, visit_origins,
  visit_sources, routes_for_origins,
}

-- The prefix is in what one of the two stores holds for the source and the origin, in a store of an
-- IP version that was asked for.
abbrev pub Originates : Stores → Option ℕ → String → String → String → Type 0
Originates s ip_version p source origin =
    ((version_asked 4 ip_version ≡ true)
      × In p (or_empty (contents s.origin_route4_store source origin)))
    ⊎ ((version_asked 6 ip_version ≡ true)
        × In p (or_empty (contents s.origin_route6_store source origin)))

add_if_old :
    (b : Bool) (p : String) (acc xs : List String)
    → In p acc
    → In p (if b then update acc xs else acc)
add_if_old true p acc xs h = In-update_old p acc xs h
add_if_old false p acc xs h = h

add_if_new :
    (b : Bool) (p : String) (acc xs : List String)
    → b ≡ true
    → In p xs
    → In p (if b then update acc xs else acc)
add_if_new true p acc xs e h = In-update_new p acc xs h
add_if_new false p acc xs e h = cc

add_if_cases :
    (b : Bool) (p : String) (acc xs : List String)
    → In p (if b then update acc xs else acc)
    → In p acc ⊎ ((b ≡ true) × In p xs)
add_if_cases true p acc xs h = elim (update-In p acc xs h) [ inl k ↦ inl k | inr k ↦ inr (refl, k) ]
add_if_cases false p acc xs h = inl h

distinct-add_if :
    (b : Bool) (acc xs : List String)
    → distinct acc ≡ true
    → distinct (if b then update acc xs else acc) ≡ true
distinct-add_if true acc xs h = distinct-update acc xs h
distinct-add_if false acc xs h = h

module _ (s : Stores) (v : Option ℕ) where
  abbrev four : String → String → List String
  four source origin = or_empty (contents s.origin_route4_store source origin)

  abbrev six : String → String → List String
  six source origin = or_empty (contents s.origin_route6_store source origin)

  abbrev after4 : String → String → List String → List String
  after4 source origin acc =
      add_prefixes (version_asked 4 v) s.origin_route4_store source origin acc

  abbrev after6 : String → String → List String → List String
  after6 source origin acc =
      add_prefixes (version_asked 6 v) s.origin_route6_store source origin acc

  step-old :
      (p source origin : String) (acc : List String)
      → In p acc
      → In p (after6 source origin (after4 source origin acc))
  step-old p source origin acc h =
      add_if_old (version_asked 6 v) p (after4 source origin acc) (six source origin)
        (add_if_old (version_asked 4 v) p acc (four source origin) h)

  step-new :
      (p source origin : String) (acc : List String)
      → Originates s v p source origin
      → In p (after6 source origin (after4 source origin acc))
  step-new p source origin acc (inl (e, h)) =
      add_if_old (version_asked 6 v) p (after4 source origin acc) (six source origin)
        (add_if_new (version_asked 4 v) p acc (four source origin) e h)
  step-new p source origin acc (inr (e, h)) =
      add_if_new (version_asked 6 v) p (after4 source origin acc) (six source origin) e h

  step-cases :
      (p source origin : String) (acc : List String)
      → In p (after6 source origin (after4 source origin acc))
      → In p acc ⊎ Originates s v p source origin
  step-cases p source origin acc h =
      elim (add_if_cases (version_asked 6 v) p (after4 source origin acc) (six source origin) h) [
        | inl k ↦ elim (add_if_cases (version_asked 4 v) p acc (four source origin) k) [
          | inl old ↦ inl old
          | inr new ↦ inr (inl new)
        ]
        | inr new ↦ inr (inr new)
      ]

  origins-old :
      (p source : String) (os acc : List String) → In p acc → In p (visit_origins s v source os acc)
  unfolding visit_origins
  origins-old p source [] acc h = h
  origins-old p source (o ∷ os) acc h =
      origins-old p source os (after6 source o (after4 source o acc)) (step-old p source o acc h)

  origins-new :
      (p source o : String) (os acc : List String)
      → In o os
      → Originates s v p source o
      → In p (visit_origins s v source os acc)
  unfolding visit_origins
  origins-new p source o [] acc i h = absurd i
  origins-new p source o (x ∷ os) acc (inl same) h =
      origins-old p source os (after6 source x (after4 source x acc))
        (step-new p source x acc (subst (λ z. Originates s v p source z) (sym same) h))
  origins-new p source o (x ∷ os) acc (inr i) h =
      origins-new p source o os (after6 source x (after4 source x acc)) i h

  origins-cases :
      (p source : String) (os acc : List String)
      → In p (visit_origins s v source os acc)
      → In p acc ⊎ ((o : String) × In o os × Originates s v p source o)
  unfolding visit_origins
  origins-cases p source [] acc h = inl h
  origins-cases p source (x ∷ os) acc h =
      elim (origins-cases p source os (after6 source x (after4 source x acc)) h) [
        | inl k ↦ elim (step-cases p source x acc k) [
          | inl old ↦ inl old
          | inr new ↦ inr (x, inl refl, new)
        ]
        | inr (o, i, new) ↦ inr (o, inr i, new)
      ]

  sources-old :
      (p : String) (os ss acc : List String) → In p acc → In p (visit_sources s v os ss acc)
  unfolding visit_sources
  sources-old p os [] acc h = h
  sources-old p os (x ∷ ss) acc h =
      sources-old p os ss (visit_origins s v x os acc) (origins-old p x os acc h)

  sources-new :
      (p source o : String) (os ss acc : List String)
      → In source ss
      → In o os
      → Originates s v p source o
      → In p (visit_sources s v os ss acc)
  unfolding visit_sources
  sources-new p source o os [] acc j i h = absurd j
  sources-new p source o os (x ∷ ss) acc (inl same) i h =
      sources-old p os ss (visit_origins s v x os acc)
        (origins-new p x o os acc i (subst (λ z. Originates s v p z o) (sym same) h))
  sources-new p source o os (x ∷ ss) acc (inr j) i h =
      sources-new p source o os ss (visit_origins s v x os acc) j i h

  sources-cases :
      (p : String) (os ss acc : List String)
      → In p (visit_sources s v os ss acc)
      → In p acc
        ⊎ ((source : String) × In source ss × ((o : String) × In o os × Originates s v p source o))
  unfolding visit_sources
  sources-cases p os [] acc h = inl h
  sources-cases p os (x ∷ ss) acc h = elim (sources-cases p os ss (visit_origins s v x os acc) h) [
    | inl k ↦ elim (origins-cases p x os acc k) [
      | inl old ↦ inl old
      | inr new ↦ inr (x, inl refl, new)
    ]
    | inr (source, j, new) ↦ inr (source, inr j, new)
  ]

  abbrev pub Found : List String → List String → String → Type 0
  Found origins sources p =
      (source : String) × In source sources
      × ((o : String) × In o origins × Originates s v p source o)

  -- The prefixes that a call with an allowed IP version returns
  pub routes_for_origins_iff :
      (origins sources : List String)
      → bad_version v ≡ false
      → (found : List String) × (routes_for_origins s origins sources v ≡ some found)
        × ((p : String) → In p found ↔ Found origins sources p)
  unfolding routes_for_origins visit_sources visit_origins
  routes_for_origins_iff [] sources ok =
      ([], ground arith, λ p. (absurd, λ (_, _, (_, i, _)). absurd i))
  routes_for_origins_iff (o ∷ os) [] ok = ([], ground arith, λ p. (absurd, λ (_, j, _). absurd j))
  routes_for_origins_iff (o ∷ os) (x ∷ ss) ok = (
    visit_sources s v (o ∷ os) (x ∷ ss) [],
    ground arith,
    λ p. (
      λ h. elim (sources-cases p (o ∷ os) (x ∷ ss) [] h) [ inl k ↦ absurd k | inr k ↦ k ],
      λ (source, j, (origin, i, h)). sources-new p source origin (o ∷ os) (x ∷ ss) [] j i h,
    ),
  )
