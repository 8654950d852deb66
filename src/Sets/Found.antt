-- ===== src/Sets/Found.antt =====
-- What `QueryResolver._find_set_members` finds, and that it comes from the stores.
use irrd.Base.{
  String, ◌≡◌, refl, subst, sym, ◌⊎◌, inl, inr, Bool, true, false, Option, none, some, List, [],
  ◌∷◌, In, In-append_left, In-append_right, In-update_old, In-update_new, update-In, lookup,
  string_eq, arith, Bool-cases, Option-cases, ◌==◌, ◌∙◌,
}
use irrd.Preload.{
  SetClass, as_set, route_set, Store, Stores, contents, first_members, members_if, set_members,
  class_asked,
}
use irrd.Sets.{
  FoundMembers, note_set, visit_sets, texts_of, names_in, universe, Resolver, find_set_members,
  limited, asked_classes,
}
use irrd.Text.{split, upper}

abbrev pub found_members : Option (List String × SetClass) → List String
found_members none = []
found_members (some (members, c)) = members

same-In : (x : String) (xs ys : List String) → xs ≡ ys → In x xs → In x ys
same-In x xs ys h i = subst (λ z. In x z) h i

some-same : (s t : String) → some s ≡ some t → s ≡ t
some-same s t h = ground arith

some-keys : (s t : List (String × String)) → some s ≡ some t → s ≡ t
some-keys s t h = ground arith

texts_of-lookup :
    (x key text : String) (keys : List (String × String))
    → lookup key keys ≡ some text
    → In x (split b',' text)
    → In x (texts_of keys)
texts_of-lookup x key text [] h i = cc
texts_of-lookup x key text ((k, t) ∷ keys) h i = elim (Bool-cases (k == key)) [
  | inl e ↦
      In-append_left x (split b',' t) (texts_of keys)
        (subst (λ z. In x (split b',' z)) (sym (some-same t text (ground arith))) i)
  | inr e ↦
      In-append_right x (split b',' t) (texts_of keys)
        (texts_of-lookup x key text keys (ground arith) i)
]

names_in-lookup :
    (x source : String) (keys : List (String × String)) (store : Store)
    → lookup source store ≡ some keys
    → In x (texts_of keys)
    → In x (names_in store)
names_in-lookup x source keys [] h i = cc
names_in-lookup x source keys ((s, ks) ∷ store) h i = elim (Bool-cases (s == source)) [
  | inl e ↦
      In-append_left x (texts_of ks) (names_in store)
        (subst (λ z. In x (texts_of z)) (some-keys keys ks (ground arith)) i)
  | inr e ↦
      In-append_right x (texts_of ks) (names_in store)
        (names_in-lookup x source keys store (ground arith) i)
]

contents-names_in :
    (store : Store) (source key x : String) (xs : List String)
    → contents store source key ≡ some xs
    → In x xs
    → In x (names_in store)
unfolding contents
contents-names_in store source key x xs h i = elim (Option-cases (lookup source store)) [
  | inl e ↦ ground arith
  | inr (keys, e) ↦ elim (Option-cases (lookup key keys)) [
    | inl e' ↦ ground arith
    | inr (text, e') ↦
        names_in-lookup x source keys store e
          (texts_of-lookup x key text keys e' (same-In x xs (split b',' text) (ground arith) i))
  ]
]

first_members-names_in :
    (store : Store) (pk x : String) (sources xs : List String)
    → first_members store pk sources ≡ some xs
    → In x xs
    → In x (names_in store)
unfolding first_members
first_members-names_in store pk x [] xs h i = cc
first_members-names_in store pk x (source ∷ sources) xs h i =
    elim (Option-cases (contents store source pk)) [
      | inl e ↦ first_members-names_in store pk x sources xs (ground arith) i
      | inr (ys, e) ↦ contents-names_in store source pk x xs (e ∙ ground arith) i
    ]

members_if-names_in :
    (b : Bool) (store : Store) (c : SetClass) (pk x : String) (sources : List String)
    → In x (found_members (members_if b store c pk sources))
    → In x (names_in store)
members_if-names_in false store c pk x sources i = absurd i
members_if-names_in true store c pk x sources i =
    elim (Option-cases (first_members store pk sources)) [
      | inl e ↦
          absurd (
            subst (λ o. In x (found_members (elim o [ none ↦ none | some ms ↦ some (ms, c) ]))) e i)
      | inr (ms, e) ↦
          first_members-names_in store pk x sources ms e (
            subst (λ o. In x (found_members (elim o [ none ↦ none | some ms ↦ some (ms, c) ]))) e i)
    ]

either-found :
    (x : String) (o p : Option (List String × SetClass))
    → In x (found_members (elim o [ some found ↦ some found | none ↦ p ]))
    → In x (found_members o) ⊎ In x (found_members p)
either-found x none p i = inr i
either-found x (some f) p i = inl i

-- The members of a set are names in the stores.
pub set_members-universe :
    (s : Stores) (roots : List String) (x set_name : String) (sources : List String)
    (classes : List SetClass)
    → In x (found_members (set_members s set_name sources classes))
    → In x (universe s roots)
unfolding set_members
set_members-universe s roots x set_name sources classes i =
    elim (either-found x
      (members_if (class_asked as_set classes) s.as_set_store as_set (upper set_name) sources)
      (members_if (class_asked route_set classes) s.route_set_store route_set (upper set_name)
        sources)
      i) [
        | inl k ↦ In-append_right x roots _ (
            In-append_left x (names_in s.as_set_store) (names_in s.route_set_store) (
              members_if-names_in (class_asked as_set classes) s.as_set_store as_set
                (upper set_name) x sources k))
        | inr k ↦ In-append_right x roots _ (
            In-append_right x (names_in s.as_set_store) (names_in s.route_set_store) (
              members_if-names_in (class_asked route_set classes) s.route_set_store route_set
                (upper set_name) x sources k))
      ]

note_set-old :
    (x n : String) (o : Option (List String × SetClass)) (f : FoundMembers)
    → In x f.members
    → In x (note_set n o f).members
note_set-old x n none f i = i
note_set-old x n (some (ms, c)) f i = In-update_old x f.members ms i

note_set-new :
    (x n : String) (o : Option (List String × SetClass)) (f : FoundMembers)
    → In x (found_members o)
    → In x (note_set n o f).members
note_set-new x n none f i = absurd i
note_set-new x n (some (ms, c)) f i = In-update_new x f.members ms i

note_set-cases :
    (x n : String) (o : Option (List String × SetClass)) (f : FoundMembers)
    → In x (note_set n o f).members
    → In x f.members ⊎ In x (found_members o)
note_set-cases x n none f i = inl i
note_set-cases x n (some (ms, c)) f i = update-In x f.members ms i

note_set-root :
    (c : SetClass) (n : String) (o : Option (List String × SetClass)) (f : FoundMembers)
    → f.root_class ≡ some c
    → (note_set n o f).root_class ≡ some c
note_set-root c n none f h = h
note_set-root c n (some (ms, d)) f h = rw (h) refl

module _ (s : Stores) (sources : List String) (classes : List SetClass) where
  abbrev subs_of : String → List String
  subs_of n = found_members (set_members s n sources classes)

  visit-old :
      (x : String) (names : List String) (f : FoundMembers)
      → In x f.members
      → In x (visit_sets s sources classes names f).members
  unfolding visit_sets
  visit-old x [] f i = i
  visit-old x (n ∷ names) f i =
      visit-old x names _ (note_set-old x n (set_members s n sources classes) f i)

  pub visit-new :
      (x n : String) (names : List String) (f : FoundMembers)
      → In n names
      → In x (subs_of n)
      → In x (visit_sets s sources classes names f).members
  unfolding visit_sets
  visit-new x n [] f j i = absurd j
  visit-new x n (m ∷ names) f (inl same) i = visit-old x names _ (
      note_set-new x m (set_members s m sources classes) f
        (subst (λ z. In x (subs_of z)) (sym same) i))
  visit-new x n (m ∷ names) f (inr j) i = visit-new x n names _ j i

  pub visit-cases :
      (x : String) (names : List String) (f : FoundMembers)
      → In x (visit_sets s sources classes names f).members
      → In x f.members ⊎ ((n : String) × In n names × In x (subs_of n))
  unfolding visit_sets
  visit-cases x [] f i = inl i
  visit-cases x (n ∷ names) f i =
      elim (visit-cases x names (note_set n (set_members s n sources classes) f) i) [
        | inl k ↦ elim (note_set-cases x n (set_members s n sources classes) f k) [
          | inl old ↦ inl old
          | inr new ↦ inr (n, inl refl, new)
        ]
        | inr (m, j, new) ↦ inr (m, inr j, new)
      ]

  pub visit-root :
      (c : SetClass) (names : List String) (f : FoundMembers)
      → f.root_class ≡ some c
      → (visit_sets s sources classes names f).root_class ≡ some c
  unfolding visit_sets
  visit-root c [] f h = h
  visit-root c (n ∷ names) f h =
      visit-root c names _ (note_set-root c n (set_members s n sources classes) f h)

-- Whatever is found is a name in the stores.
pub find_set_members-universe :
    (r : Resolver) (roots : List String) (root : Option SetClass) (names : List String)
    (limit : Option String) (x : String)
    → In x (find_set_members r root names limit).members
    → In x (universe r.stores roots)
unfolding find_set_members
find_set_members-universe r roots root names limit x i =
    elim (visit-cases r.stores (limited limit r.resolved_sources) (asked_classes root) x names _
      i) [
        | inl k ↦ absurd k
        | inr (n, j, k) ↦
            set_members-universe r.stores roots x n (limited limit r.resolved_sources)
              (asked_classes root) k
      ]
