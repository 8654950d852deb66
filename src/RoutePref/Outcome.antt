-- ===== src/RoutePref/Outcome.antt =====
-- Which route objects the validator lists for suppression, and which to be made visible again.
use irrd.Base.{
  ℕ, ◌<◌, String, ◌≡◌, refl, ◌≢◌, ◌↔◌, ◌⊎◌, inl, inr, sym, ◌∙◌, subst, true, Option, none, some,
  List, [], ◌∷◌, ◌++◌, In, In-append, In-append_left, In-append_right, any-In, In-any, is_nil,
  Bool-cases, arith, lookup, string_eq, ltb→lt, lt→ltb,
}
use irrd.Conf.{Sources}
use irrd.RoutePref.Radix.{RoutePreferenceStatus, visible, suppressed, Data, RadixLib, IsRadix}
use irrd.RoutePref.Tree.{Holds, Holds-mono, Holds-build_tree, DistinctPks}
use irrd.RoutePref.Decide.{is_max-le, list_of, decide_nodes-In, In-decide_nodes}
use irrd.RoutePref.{
  RouteObject, Preferences, Validator, source_preferences, max_preference, is_max, data_of, init,
  beaten, evaluate_route, decide_nodes, validate_known_routes,
}

-- One of the two networks lies in the other, or they are equal.
abbrev pub Overlap : (R : RadixLib) → R.Net → R.Net → Type 0
Overlap R n m = (R.within m n ≡ true) ⊎ (R.within n m ≡ true)

-- Another route object overlaps this one, and its source has a higher preference.
pub record Outranked (R : RadixLib) (prefs : Preferences) (rows : List RouteObject) (n : R.Net)
    (p : ℕ) : Type 0 where
  pub other : RouteObject
  pub preference : ℕ
  pub listed : In other rows
  pub prefers : lookup other.source prefs ≡ some preference
  pub higher : p < preference
  pub overlapping : Overlap R n (R.net_of other.prefix)

-- The status that a route object should have
abbrev pub Warrants :
    RoutePreferenceStatus → (R : RadixLib) → Preferences → List RouteObject → R.Net → ℕ → Type 0
Warrants suppressed R prefs rows n p = Outranked R prefs rows n p
Warrants visible R prefs rows n p = ¬ Outranked R prefs rows n p

some_of_In :
    (x : String × (ℕ × RoutePreferenceStatus)) (R : RadixLib) (o : Option Data)
    → In x (data_of R o)
    → o ≢ none
some_of_In x R none m = absurd m
some_of_In x R (some d) m = λ e. cc

module _ {R : RadixLib} (law : IsRadix R) (prefs : Preferences) (rows : List RouteObject)
    (v : Validator R) (h : Holds law prefs v.rtree (λ q. In q rows)) where
  found-Overlap :
      (n m : R.Net)
      → In m (R.search_covered v.rtree n ++ R.search_covering v.rtree n)
      → Overlap R n m
  found-Overlap n m i = elim (In-append m (R.search_covered v.rtree n) _ i) [
    | inl c ↦ inl ((law.search_covered_iff v.rtree n m).0 c).1
    | inr c ↦ inr ((law.search_covering_iff v.rtree n m).0 c).1
  ]

  Overlap-found :
      (n m : R.Net)
      → R.data_at v.rtree m ≢ none
      → Overlap R n m
      → In m (R.search_covered v.rtree n ++ R.search_covering v.rtree n)
  Overlap-found n m there (inl c) =
      In-append_left m _ _
        ((law.search_covered_iff v.rtree n m).1 ((law.nodes_iff v.rtree m).1 there, c))
  Overlap-found n m there (inr c) =
      In-append_right m _ _
        ((law.search_covering_iff v.rtree n m).1 ((law.nodes_iff v.rtree m).1 there, c))

  beaten-Outranked :
      (n : R.Net) (p : ℕ)
      → beaten R v.rtree p (R.search_covered v.rtree n ++ R.search_covering v.rtree n) ≡ true
      → Outranked R prefs rows n p
  beaten-Outranked n p b =
      let (m, i, found) = any-In _ _ b in
      let (x, there, above) = any-In _ _ found in
      let (q, listed, st) = h.correct m x there in
      record {
        other = q;
        preference = x.1.0;
        listed = listed;
        prefers = st.preference;
        higher = ltb→lt p x.1.0 above;
        overlapping = subst (Overlap R n) (sym st.net) (found-Overlap n m i);
      }

  Outranked-beaten :
      (n : R.Net) (p : ℕ)
      → Outranked R prefs rows n p
      → beaten R v.rtree p (R.search_covered v.rtree n ++ R.search_covering v.rtree n) ≡ true
  Outranked-beaten n p o =
      let m = R.net_of o.other.prefix in
      let x : String × (ℕ × RoutePreferenceStatus) = (o.other.pk, (o.preference, o.other.status)) in
      let there : In x (data_of R (R.data_at v.rtree m)) =
        h.complete m x o.other o.listed
          (record { key = refl; net = refl; preference = o.prefers; status = refl }) in
      In-any _ m _ (Overlap-found n m (some_of_In x R _ there) o.overlapping)
        (In-any _ x _ there (lt→ltb p o.preference o.higher))

  -- The route with the highest preference is beaten by none.
  max-not-beaten :
      (n : R.Net) (p : ℕ)
      → v.preferences ≡ prefs
      → is_max (max_preference v.preferences) p ≡ true
      → ¬ Outranked R prefs rows n p
  max-not-beaten n p e m o =
      absurd (
        omega
          (arith, is_max-le prefs o.other.source o.preference p (rw e at m) o.prefers, o.higher))

  evaluate-Warrants :
      (w : RoutePreferenceStatus) (n : R.Net) (p : ℕ)
      → v.preferences ≡ prefs
      → evaluate_route R v p (R.search_covered v.rtree n ++ R.search_covering v.rtree n) ≡ w
      → Warrants w R prefs rows n p
  unfolding evaluate_route
  evaluate-Warrants suppressed n p e s = beaten-Outranked n p (ground arith)
  evaluate-Warrants visible n p e s = elim (Bool-cases (is_max (max_preference v.preferences) p)) [
    | inl top ↦ max-not-beaten n p e top
    | inr below ↦ λ o. ground (arith, Outranked-beaten n p o)
  ]

  Warrants-evaluate :
      (w : RoutePreferenceStatus) (n : R.Net) (p : ℕ)
      → v.preferences ≡ prefs
      → Warrants w R prefs rows n p
      → evaluate_route R v p (R.search_covered v.rtree n ++ R.search_covering v.rtree n) ≡ w
  unfolding evaluate_route
  Warrants-evaluate suppressed n p e o =
      elim (Bool-cases (is_max (max_preference v.preferences) p)) [
        | inl top ↦ absurd (max-not-beaten n p e top o)
        | inr below ↦ ground (arith, Outranked-beaten n p o)
      ]
  Warrants-evaluate visible n p e o =
      elim (Bool-cases
        (beaten R v.rtree p (R.search_covered v.rtree n ++ R.search_covering v.rtree n))) [
          | inl b ↦ absurd (o (beaten-Outranked n p b))
          | inr b ↦ ground arith
        ]

-- The row is due for a change to the status: its source has a preference, the status is warranted by
-- the rows, and it has not that status yet.
pub record Due (w : RoutePreferenceStatus) (R : RadixLib) (prefs : Preferences)
    (rows : List RouteObject) (k : String) : Type 0 where
  pub row : RouteObject
  pub listed : In row rows
  pub key : row.pk ≡ k
  pub preference : ℕ
  pub prefers : lookup row.source prefs ≡ some preference
  pub warranted : Warrants w R prefs rows (R.net_of row.prefix) preference
  pub differs : row.status ≢ w

nothing : (w : RoutePreferenceStatus) (k : String) → ¬ In k (list_of w ([], []))
nothing visible k f = f
nothing suppressed k f = f

not-Due-nil :
    (w : RoutePreferenceStatus) (R : RadixLib) (prefs : Preferences) (rows : List RouteObject)
    (k : String)
    → is_nil prefs ≡ true
    → ¬ Due w R prefs rows k
not-Due-nil w R [] rows k e d = cc (d.prefers)
not-Due-nil w R (p ∷ prefs) rows k e d = cc

module _ {R : RadixLib} (law : IsRadix R) (sources : Sources) (rows : List RouteObject)
    (distinct : DistinctPks rows) where
  start : Validator R
  start = record {
    preferences = source_preferences sources;
    rtree = R.empty;
    excluded_currently_suppressed = [];
  }

  Holds-start : Holds law (source_preferences sources) start.rtree (λ q. ⊥)
  unfolding start
  Holds-start = record {
    complete = λ n x q s st. absurd s;
    correct = λ n x m. absurd (subst (λ o. In x (data_of R o)) (law.data_at-empty n) m);
  }

  init-Holds :
      Holds law (source_preferences sources) (init R sources rows).rtree (λ q. In q rows)
      × ((init R sources rows).preferences ≡ source_preferences sources)
  unfolding init start
  init-Holds =
      let (h, e) =
        Holds-build_tree law _ rows start (λ q. ⊥) refl Holds-start distinct
          (λ q r s m. absurd s) in
      (
        Holds-mono law _ _ _ _ (λ q. (λ s. elim s [ inl f ↦ absurd f | inr m ↦ m ], λ m. inr m)) h,
        e,
      )

  decided-Due :
      (w : RoutePreferenceStatus) (k : String)
      → In k (
          list_of w
            (decide_nodes R (init R sources rows) (R.nodes (init R sources rows).rtree) ([], [])))
      → Due w R (source_preferences sources) rows k
  decided-Due w k m =
      let v = init R sources rows in
      let (h, e) = init-Holds in
      elim (decide_nodes-In v w k (R.nodes v.rtree) ([], []) m) [
        | inl none_yet ↦ absurd (nothing w k none_yet)
        | inr (n, there, (x, item, (key, (verdict, differs)))) ↦
            let (q, listed, st) = h.correct n x item in
            record {
              row = q;
              listed = listed;
              key = st.key ∙ key;
              preference = x.1.0;
              prefers = st.preference;
              warranted =
                  subst (λ net. Warrants w R (source_preferences sources) rows net x.1.0)
                    (sym st.net) (evaluate-Warrants law _ rows v h w n x.1.0 e verdict);
              differs = λ same. differs (sym st.status ∙ same);
            }
      ]

  Due-decided :
      (w : RoutePreferenceStatus) (k : String)
      → Due w R (source_preferences sources) rows k
      → In k (
          list_of w
            (decide_nodes R (init R sources rows) (R.nodes (init R sources rows).rtree) ([], [])))
  Due-decided w k d =
      let v = init R sources rows in
      let (h, e) = init-Holds in
      let n = R.net_of d.row.prefix in
      let x : String × (ℕ × RoutePreferenceStatus) = (d.row.pk, (d.preference, d.row.status)) in
      let item : In x (data_of R (R.data_at v.rtree n)) =
        h.complete n x d.row d.listed
          (record { key = refl; net = refl; preference = d.prefers; status = refl }) in
      In-decide_nodes v w k (R.nodes v.rtree) ([], [])
        (inr (
          n,
          (law.nodes_iff v.rtree n).1 (some_of_In x R _ item),
          (
            x,
            item,
            (d.key, (Warrants-evaluate law _ rows v h w n d.preference e d.warranted, d.differs)),
          ),
        ))

  -- Of route objects with distinct keys, the validation of the known routes lists for suppression exactly
  -- the keys of those that are not suppressed yet and that some listed object of a source
  -- with a higher preference overlaps, and lists as to be made visible exactly the keys of
  -- those of a source with a preference that are suppressed and that no such object overlaps.
  pub validate_known_routes_iff :
      (w : RoutePreferenceStatus) (k : String)
      → In k (list_of w (validate_known_routes R (init R sources rows)))
        ↔ Due w R (source_preferences sources) rows k
  unfolding validate_known_routes
  validate_known_routes_iff w k = elim (Bool-cases (is_nil (init R sources rows).preferences)) [
    | inl e ↦
        let none_known : validate_known_routes R (init R sources rows) ≡ ([], []) =
          rw (e, validate_known_routes) in
        (
          λ m. absurd (nothing w k (subst (λ d. In k (list_of w d)) none_known m)),
          λ d. absurd (not-Due-nil w R _ rows k (subst (λ ps. is_nil ps ≡ true) init-Holds.1 e) d),
        )
    | inr e ↦
        let v = init R sources rows in
        let known : validate_known_routes R v ≡ decide_nodes R v (R.nodes v.rtree) ([], []) =
          rw (e, validate_known_routes) in
        (
          λ m. decided-Due w k (subst (λ d. In k (list_of w d)) known m),
          λ d. subst (λ d'. In k (list_of w d')) (sym known) (Due-decided w k d),
        )
  ]
