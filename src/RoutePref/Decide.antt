-- ===== src/RoutePref/Decide.antt =====
-- The lists of decisions: what is on them after the loops over nodes and their items.
use irrd.Base.{
  ℕ, ◌≤◌, max, String, ◌≡◌, refl, ◌≢◌, ◌⊎◌, inl, inr, sym, subst, true, some, List, [], ◌∷◌, ◌++◌,
  In, In-append, In-append_left, In-append_right, arith, lookup, string_eq,
}
use irrd.RoutePref.Radix.{RoutePreferenceStatus, visible, suppressed, Data, RadixLib}
use irrd.RoutePref.{
  Preferences, Validator, max_of, max_preference, is_max, data_of, evaluate_route, Decisions,
  decide, decide_node, decide_nodes,
}

le-max_of : (n : ℕ) (rest : Preferences) → n ≤ max_of n rest
le-max_of n [] = omega arith
le-max_of n ((_, m) ∷ rest) = omega (arith, le-max_of (max n m) rest)

lookup-le-max_of :
    (n : ℕ) (source : String) (p : ℕ) (prefs : Preferences)
    → lookup source prefs ≡ some p
    → p ≤ max_of n prefs
lookup-le-max_of n source p [] h = cc
lookup-le-max_of n source p ((s, m) ∷ rest) h =
    ground (arith, le-max_of (max n m) rest, lookup-le-max_of (max n m) source p rest)

-- No source has a preference above the maximum.
pub is_max-le :
    (prefs : Preferences) (source : String) (p q : ℕ)
    → is_max (max_preference prefs) q ≡ true
    → lookup source prefs ≡ some p
    → p ≤ q
unfolding max_preference
is_max-le [] source p q m h = cc
is_max-le ((s, n) ∷ rest) source p q m h =
    ground (arith, le-max_of n rest, lookup-le-max_of n source p rest)

-- One of the two lists
abbrev pub list_of : RoutePreferenceStatus → Decisions → List String
list_of visible d = d.0
list_of suppressed d = d.1

In-snoc : (k pk : String) (xs : List String) → In k (xs ++ pk ∷ []) → In k xs ⊎ (pk ≡ k)
In-snoc k pk xs m = elim (In-append k xs (pk ∷ []) m) [
  | inl old ↦ inl old
  | inr new ↦ elim new [ inl e ↦ inr e | inr f ↦ absurd f ]
]

snoc-In : (k pk : String) (xs : List String) → In k xs ⊎ (pk ≡ k) → In k (xs ++ pk ∷ [])
snoc-In k pk xs (inl old) = In-append_left k xs (pk ∷ []) old
snoc-In k pk xs (inr e) = In-append_right k xs (pk ∷ []) (inl e)

-- What a decision adds to a list
abbrev pub Adds : RoutePreferenceStatus → RoutePreferenceStatus → RoutePreferenceStatus → Type 0
Adds w new current = (new ≡ w) × (current ≢ w)

decide-In :
    (w new current : RoutePreferenceStatus) (pk k : String) (d : Decisions)
    → In k (list_of w (decide new current pk d))
    → In k (list_of w d) ⊎ ((pk ≡ k) × Adds w new current)
decide-In visible visible suppressed pk k d m = elim (In-snoc k pk d.0 m) [
  | inl old ↦ inl old
  | inr e ↦ inr (e, (refl, ground arith))
]
decide-In suppressed suppressed visible pk k d m = elim (In-snoc k pk d.1 m) [
  | inl old ↦ inl old
  | inr e ↦ inr (e, (refl, ground arith))
]
decide-In visible visible visible pk k d m = inl m
decide-In visible suppressed visible pk k d m = inl m
decide-In visible suppressed suppressed pk k d m = inl m
decide-In suppressed visible visible pk k d m = inl m
decide-In suppressed visible suppressed pk k d m = inl m
decide-In suppressed suppressed suppressed pk k d m = inl m

In-decide :
    (w new current : RoutePreferenceStatus) (pk k : String) (d : Decisions)
    → In k (list_of w d) ⊎ ((pk ≡ k) × Adds w new current)
    → In k (list_of w (decide new current pk d))
In-decide visible visible suppressed pk k d (inl m) = snoc-In k pk d.0 (inl m)
In-decide visible visible suppressed pk k d (inr (e, _)) = snoc-In k pk d.0 (inr e)
In-decide suppressed suppressed visible pk k d (inl m) = snoc-In k pk d.1 (inl m)
In-decide suppressed suppressed visible pk k d (inr (e, _)) = snoc-In k pk d.1 (inr e)
In-decide visible visible visible pk k d (inl m) = m
In-decide visible visible visible pk k d (inr (_, (_, c))) = absurd (c refl)
In-decide visible suppressed visible pk k d (inl m) = m
In-decide visible suppressed visible pk k d (inr (_, (n, _))) = cc
In-decide visible suppressed suppressed pk k d (inl m) = m
In-decide visible suppressed suppressed pk k d (inr (_, (n, _))) = cc
In-decide suppressed visible visible pk k d (inl m) = m
In-decide suppressed visible visible pk k d (inr (_, (n, _))) = cc
In-decide suppressed visible suppressed pk k d (inl m) = m
In-decide suppressed visible suppressed pk k d (inr (_, (n, _))) = cc
In-decide suppressed suppressed suppressed pk k d (inl m) = m
In-decide suppressed suppressed suppressed pk k d (inr (_, (_, c))) = absurd (c refl)

module _ {R : RadixLib} (v : Validator R) (w : RoutePreferenceStatus) (k : String) where
  -- The item puts its key on the list.
  abbrev pub ItemAdds : List R.Net → String × (ℕ × RoutePreferenceStatus) → Type 0
  ItemAdds overlapping x = (x.0 ≡ k) × Adds w (evaluate_route R v x.1.0 overlapping) x.1.1

  decide_node-In :
      (overlapping : List R.Net) (items : Data) (d : Decisions)
      → In k (list_of w (decide_node R v overlapping items d))
      → In k (list_of w d)
        ⊎ ((x : String × (ℕ × RoutePreferenceStatus)) × In x items × ItemAdds overlapping x)
  unfolding decide_node
  decide_node-In o [] d m = inl m
  decide_node-In o ((pk, (p, c)) ∷ items) d m = elim (decide_node-In o items _ m) [
    | inl before ↦ elim (decide-In w (evaluate_route R v p o) c pk k d before) [
      | inl old ↦ inl old
      | inr (e, a) ↦ inr ((pk, (p, c)), inl refl, (e, a))
    ]
    | inr (x, there, a) ↦ inr (x, inr there, a)
  ]

  In-decide_node :
      (overlapping : List R.Net) (items : Data) (d : Decisions)
      → In k (list_of w d)
        ⊎ ((x : String × (ℕ × RoutePreferenceStatus)) × In x items × ItemAdds overlapping x)
      → In k (list_of w (decide_node R v overlapping items d))
  unfolding decide_node
  In-decide_node o [] d (inl m) = m
  In-decide_node o [] d (inr (x, m, _)) = absurd m
  In-decide_node o ((pk, (p, c)) ∷ items) d (inl m) =
      In-decide_node o items _ (inl (In-decide w (evaluate_route R v p o) c pk k d (inl m)))
  In-decide_node o ((pk, (p, c)) ∷ items) d (inr (x, inl e, a)) =
      In-decide_node o items _
        (inl (In-decide w (evaluate_route R v p o) c pk k d (inr (subst (ItemAdds o) (sym e) a))))
  In-decide_node o ((pk, (p, c)) ∷ items) d (inr (x, inr m, a)) =
      In-decide_node o items _ (inr (x, m, a))

  abbrev pub overlaps : R.Net → List R.Net
  overlaps n = R.search_covered v.rtree n ++ R.search_covering v.rtree n

  abbrev pub NodeAdds : R.Net → Type 0
  NodeAdds n =
      (x : String × (ℕ × RoutePreferenceStatus)) × In x (data_of R (R.data_at v.rtree n))
      × ItemAdds (overlaps n) x

  pub decide_nodes-In :
      (nets : List R.Net) (d : Decisions)
      → In k (list_of w (decide_nodes R v nets d))
      → In k (list_of w d) ⊎ ((n : R.Net) × In n nets × NodeAdds n)
  unfolding decide_nodes
  decide_nodes-In [] d m = inl m
  decide_nodes-In (n ∷ nets) d m = elim (decide_nodes-In nets _ m) [
    | inl before ↦ elim (decide_node-In (overlaps n) _ d before) [
      | inl old ↦ inl old
      | inr a ↦ inr (n, inl refl, a)
    ]
    | inr (n', there, a) ↦ inr (n', inr there, a)
  ]

  pub In-decide_nodes :
      (nets : List R.Net) (d : Decisions)
      → In k (list_of w d) ⊎ ((n : R.Net) × In n nets × NodeAdds n)
      → In k (list_of w (decide_nodes R v nets d))
  unfolding decide_nodes
  In-decide_nodes [] d (inl m) = m
  In-decide_nodes [] d (inr (n, m, _)) = absurd m
  In-decide_nodes (n ∷ nets) d (inl m) =
      In-decide_nodes nets _ (inl (In-decide_node (overlaps n) _ d (inl m)))
  In-decide_nodes (n ∷ nets) d (inr (n', inl e, a)) =
      In-decide_nodes nets _
        (inl (In-decide_node (overlaps n) _ d (inr (subst NodeAdds (sym e) a))))
  In-decide_nodes (n ∷ nets) d (inr (n', inr m, a)) = In-decide_nodes nets _ (inr (n', m, a))
