-- ===== src/RoutePref/Tree.antt =====
-- What the tree of route objects holds: at each network the routes placed there, each once.
use irrd.Base.{
  contains, map, In-map, In-contains, ℕ, String, ◌≡◌, refl, ◌≢◌, ◌↔◌, ◌⊎◌, inl, inr, sym, ◌∙◌, ap,
  subst, false, none, some, List, [], ◌∷◌, In, Option-cases, Bool-cases, arith, lookup, insert,
  string_eq, PyEq, ◌==◌, beq_iff, if◌then◌else◌,
}
use irrd.RoutePref.Radix.{RoutePreferenceStatus, RadixLib, IsRadix}
use irrd.RoutePref.{RouteObject, Preferences, Validator, data_of, add_route, build_step, build_tree}

module _ {K V : Type 0} ⦃e : PyEq K⦄ where
  insert-In :
      (k : K) (v : V) (x : K × V) (d : List (K × V)) → In x (insert k v d) → ((k, v) ≡ x) ⊎ In x d
  insert-In k v x [] h = h
  insert-In k v x ((j, w) ∷ d) h = elim (Bool-cases (j == k)) [
    | inl same ↦ at_key (subst (λ b. In x (if b then (k, v) ∷ d else (j, w) ∷ insert k v d)) same h)
    | inr other ↦
        past (insert-In k v x d)
          (subst (λ b. In x (if b then (k, v) ∷ d else (j, w) ∷ insert k v d)) other h)
  ]
    where
      at_key : In x ((k, v) ∷ d) → ((k, v) ≡ x) ⊎ In x ((j, w) ∷ d)
      at_key (inl q) = inl q
      at_key (inr m) = inr (inr m)

      past :
          (In x (insert k v d) → ((k, v) ≡ x) ⊎ In x d)
          → In x ((j, w) ∷ insert k v d)
          → ((k, v) ≡ x) ⊎ In x ((j, w) ∷ d)
      past rec (inl q) = inr (inl q)
      past rec (inr m) = elim (rec m) [ inl q ↦ inl q | inr m' ↦ inr (inr m') ]

  In-insert_self : (k : K) (v : V) (d : List (K × V)) → In (k, v) (insert k v d)
  In-insert_self k v [] = inl refl
  In-insert_self k v ((j, w) ∷ d) = elim (Bool-cases (j == k)) [
    | inl same ↦
        subst (λ b. In (k, v) (if b then (k, v) ∷ d else (j, w) ∷ insert k v d)) (sym same)
          (inl refl)
    | inr other ↦
        subst (λ b. In (k, v) (if b then (k, v) ∷ d else (j, w) ∷ insert k v d)) (sym other)
          (inr (In-insert_self k v d))
  ]

  In-insert_ne :
      (k : K) (v : V) (x : K × V) (d : List (K × V)) → In x d → x.0 ≢ k → In x (insert k v d)
  In-insert_ne k v x [] m ne = absurd m
  In-insert_ne k v x ((j, w) ∷ d) m ne = elim (Bool-cases (j == k)) [
    | inl same ↦
        subst (λ b. In x (if b then (k, v) ∷ d else (j, w) ∷ insert k v d)) (sym same)
          (at_key ((beq_iff j k).0 same) m)
    | inr other ↦
        subst (λ b. In x (if b then (k, v) ∷ d else (j, w) ∷ insert k v d)) (sym other)
          (past (λ m'. In-insert_ne k v x d m' ne) m)
  ]
    where
      at_key : j ≡ k → In x ((j, w) ∷ d) → In x ((k, v) ∷ d)
      at_key same (inl q) = absurd (ne (sym (ap (λ (y : K × V). y.0) q) ∙ same))
      at_key same (inr m') = inr m'

      past : (In x d → In x (insert k v d)) → In x ((j, w) ∷ d) → In x ((j, w) ∷ insert k v d)
      past rec (inl q) = inl q
      past rec (inr m') = inr (rec m')

-- The keys of the route objects are distinct.
abbrev pub DistinctPks : List RouteObject → Type 0
DistinctPks [] = Unit
DistinctPks (r ∷ rows) = (contains (map (λ q. q.pk) rows) r.pk ≡ false) × DistinctPks rows

Distinct-ne :
    (r q : RouteObject) (rows : List RouteObject)
    → contains (map (λ q. q.pk) rows) r.pk ≡ false
    → In q rows
    → r.pk ≢ q.pk
Distinct-ne r q rows h m = λ e.
    let there : In q.pk (map (λ (z : RouteObject). z.pk) rows) =
      In-map (λ (z : RouteObject). z.pk) q rows m in
    cc (
      In-contains r.pk _ (subst (λ k. In k (map (λ (z : RouteObject). z.pk) rows)) (sym e) there),
      h,
    )

module _ {R : RadixLib} (law : IsRadix R) (prefs : Preferences) where
  -- The route object of a source with a preference that an item of a node's data stands for
  pub record Stands (n : R.Net) (x : String × (ℕ × RoutePreferenceStatus)) (r : RouteObject)
      : Type 0 where
    pub key : r.pk ≡ x.0
    pub net : R.net_of r.prefix ≡ n
    pub preference : lookup r.source prefs ≡ some x.1.0
    pub status : r.status ≡ x.1.1

  -- The items of the nodes stand for just the route objects that were seen.
  pub record Holds (t : R.Tree) (seen : RouteObject → Type 0) : Type 0 where
    pub complete :
        (n : R.Net) (x : String × (ℕ × RoutePreferenceStatus)) (r : RouteObject)
        → seen r
        → Stands n x r
        → In x (data_of R (R.data_at t n))
    pub correct :
        (n : R.Net) (x : String × (ℕ × RoutePreferenceStatus))
        → In x (data_of R (R.data_at t n))
        → (r : RouteObject) × seen r × Stands n x r

  item-Stands :
      (n : R.Net) (x : String × (ℕ × RoutePreferenceStatus)) (r : RouteObject) (p : ℕ)
      → Stands n x r
      → lookup r.source prefs ≡ some p
      → (r.pk, (p, r.status)) ≡ x
  item-Stands n x r p st pref = cc (st.key, st.preference, st.status, pref)

  Stands-item :
      (n : R.Net) (x : String × (ℕ × RoutePreferenceStatus)) (r : RouteObject) (p : ℕ)
      → R.net_of r.prefix ≡ n
      → lookup r.source prefs ≡ some p
      → (r.pk, (p, r.status)) ≡ x
      → Stands n x r
  Stands-item n x r p net pref e =
      subst (λ y. Stands n y r) e
        (record { key = refl; net = net; preference = pref; status = refl })

  module _ (t : R.Tree) (r : RouteObject) (p : ℕ) (n : R.Net) where
    data-add_route_self :
        R.net_of r.prefix ≡ n
        → data_of R (R.data_at (add_route R t r p) n)
          ≡ insert r.pk (p, r.status) (data_of R (R.data_at t n))
    data-add_route_self e =
        subst
          (λ m.
            data_of R (R.data_at (add_route R t r p) m)
            ≡ insert r.pk (p, r.status) (data_of R (R.data_at t m)))
          e (ap (data_of R) (law.data_at-put_self t _ _))

    data-add_route_ne :
        R.net_of r.prefix ≢ n
        → data_of R (R.data_at (add_route R t r p) n) ≡ data_of R (R.data_at t n)
    data-add_route_ne ne = ap (data_of R) (law.data_at-put_ne t _ n _ ne)

  module _ (t : R.Tree) (seen : RouteObject → Type 0) (r : RouteObject) (p : ℕ) (h : Holds t seen)
      (fresh : (q : RouteObject) → seen q → q.pk ≢ r.pk)
      (pref : lookup r.source prefs ≡ some p) where
    complete-add_route :
        (n : R.Net) (x : String × (ℕ × RoutePreferenceStatus)) (q : RouteObject)
        → seen q ⊎ (r ≡ q)
        → Stands n x q
        → In x (data_of R (R.data_at (add_route R t r p) n))
    complete-add_route n x q (inl old) st = elim (law.net_discrete (R.net_of r.prefix) n) [
      | yes e ↦ subst (In x) (sym (data-add_route_self t r p n e)) (
          In-insert_ne r.pk (p, r.status) x _ (h.complete n x q old st)
            (λ same. fresh q old (st.key ∙ same)))
      | no ne ↦ subst (In x) (sym (data-add_route_ne t r p n ne)) (h.complete n x q old st)
    ]
    complete-add_route n x q (inr same) st =
        let st' : Stands n x r = subst (Stands n x) (sym same) st in
        subst (In x) (sym (data-add_route_self t r p n st'.net)) (
          subst (λ y. In y (insert r.pk (p, r.status) (data_of R (R.data_at t n))))
            (item-Stands n x r p st' pref)
            (In-insert_self r.pk (p, r.status) (data_of R (R.data_at t n))))

    correct-add_route :
        (n : R.Net) (x : String × (ℕ × RoutePreferenceStatus))
        → In x (data_of R (R.data_at (add_route R t r p) n))
        → (q : RouteObject) × (seen q ⊎ (r ≡ q)) × Stands n x q
    correct-add_route n x m = elim (law.net_discrete (R.net_of r.prefix) n) [
      | yes e ↦
          elim (insert-In r.pk (p, r.status) x _ (subst (In x) (data-add_route_self t r p n e) m)) [
            | inl q ↦ (r, inr refl, Stands-item n x r p e pref q)
            | inr old ↦ let (q, s, st) = h.correct n x old in (q, inl s, st)
          ]
      | no ne ↦
          let (q, s, st) = h.correct n x (subst (In x) (data-add_route_ne t r p n ne) m) in
          (q, inl s, st)
    ]

    Holds-add_route : Holds (add_route R t r p) (λ q. seen q ⊎ (r ≡ q))
    Holds-add_route = record { complete = complete-add_route; correct = correct-add_route }

  pub Holds-mono :
      (t : R.Tree) (seen seen' : RouteObject → Type 0)
      → ((q : RouteObject) → seen q ↔ seen' q)
      → Holds t seen
      → Holds t seen'
  Holds-mono t seen seen' same h = record {
    complete = λ n x q s st. h.complete n x q ((same q).1 s) st;
    correct = λ n x m. let (q, s, st) = h.correct n x m in (q, (same q).0 s, st);
  }

  Holds-skip :
      (t : R.Tree) (seen : RouteObject → Type 0) (r : RouteObject)
      → lookup r.source prefs ≡ none
      → Holds t seen
      → Holds t (λ q. seen q ⊎ (r ≡ q))
  Holds-skip t seen r absent h = record {
    complete = λ n x q s st. elim s [
      | inl old ↦ h.complete n x q old st
      | inr same ↦ cc ((subst (Stands n x) (sym same) st).preference, absent)
    ];
    correct = λ n x m. let (q, s, st) = h.correct n x m in (q, inl s, st);
  }

  regroup : {P Q S : Type 0} → (P ⊎ Q) ⊎ S ↔ (P ⊎ (Q ⊎ S))
  regroup = (
    λ a. elim a [ inl b ↦ elim b [ inl p ↦ inl p | inr q ↦ inr (inl q) ] | inr s ↦ inr (inr s) ],
    λ a. elim a [ inl p ↦ inl (inl p) | inr b ↦ elim b [ inl q ↦ inl (inr q) | inr s ↦ inr s ] ],
  )

  abbrev pub Fresh : (seen : RouteObject → Type 0) → List RouteObject → Type 0
  Fresh seen rows = (q r : RouteObject) → seen q → In r rows → q.pk ≢ r.pk

  Fresh-step :
      (seen : RouteObject → Type 0) (r : RouteObject) (rows : List RouteObject)
      → DistinctPks (r ∷ rows)
      → Fresh seen (r ∷ rows)
      → Fresh (λ q. seen q ⊎ (r ≡ q)) rows
  Fresh-step seen r rows d fresh q r' (inl old) m = fresh q r' old (inr m)
  Fresh-step seen r rows d fresh q r' (inr same) m =
      subst (λ (z : RouteObject). z.pk ≢ r'.pk) same (Distinct-ne r r' rows d.0 m)

  rtree_skip :
      (v : Validator R) (r : RouteObject)
      → lookup r.source v.preferences ≡ none
      → (build_step R v r).rtree ≡ v.rtree
  rtree_skip v r e = ground arith

  rtree_add :
      (v : Validator R) (r : RouteObject) (p : ℕ)
      → lookup r.source v.preferences ≡ some p
      → (build_step R v r).rtree ≡ add_route R v.rtree r p
  rtree_add v r p e = ground arith

  preferences-build_step :
      (v : Validator R) (r : RouteObject) → (build_step R v r).preferences ≡ v.preferences
  preferences-build_step v r = ground arith

  Holds-build_step :
      (v : Validator R) (seen : RouteObject → Type 0) (r : RouteObject)
      → v.preferences ≡ prefs
      → Holds v.rtree seen
      → ((q : RouteObject) → seen q → q.pk ≢ r.pk)
      → Holds (build_step R v r).rtree (λ q. seen q ⊎ (r ≡ q))
        × ((build_step R v r).preferences ≡ prefs)
  Holds-build_step v seen r e h fresh = elim (Option-cases (lookup r.source v.preferences)) [
    | inl absent ↦ (
      subst (λ t. Holds t (λ q. seen q ⊎ (r ≡ q))) (sym (rtree_skip v r absent))
          (Holds-skip v.rtree seen r (rw e at absent) h),
      preferences-build_step v r ∙ e,
    )
    | inr (p, found) ↦ (
      subst (λ t. Holds t (λ q. seen q ⊎ (r ≡ q))) (sym (rtree_add v r p found))
          (Holds-add_route v.rtree seen r p h fresh (rw e at found)),
      preferences-build_step v r ∙ e,
    )
  ]

  pub Holds-build_tree :
      (rows : List RouteObject) (v : Validator R) (seen : RouteObject → Type 0)
      → v.preferences ≡ prefs
      → Holds v.rtree seen
      → DistinctPks rows
      → Fresh seen rows
      → Holds (build_tree R rows v).rtree (λ q. seen q ⊎ In q rows)
        × ((build_tree R rows v).preferences ≡ prefs)
  unfolding build_tree
  Holds-build_tree [] v seen e h d fresh =
      (Holds-mono _ _ _ (λ q. (λ s. inl s, λ s. elim s [ inl t ↦ t | inr f ↦ absurd f ])) h, e)
  Holds-build_tree (r ∷ rows) v seen e h d fresh =
      let (h', e') = Holds-build_step v seen r e h (λ q s. fresh q r s (inl refl)) in
      let (h'', e'') =
        Holds-build_tree rows (build_step R v r) _ e' h' d.1 (Fresh-step seen r rows d fresh) in
      (Holds-mono _ _ _ (λ q. regroup) h'', e'')
