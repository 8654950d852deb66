-- ===== src/Sets/Closure.antt =====
-- Which AS numbers the resolving of an as-set finds: the search of
-- `QueryResolver._recursive_set_resolve` as a reachability relation.
use irrd.Base.{
  ℕ, String, ◌≡◌, refl, subst, sym, ◌∙◌, ◌⊎◌, inl, inr, Bool, true, false, Option, none, some, List,
  [], ◌∷◌, In, In-add_old, In-add_new, add-In, contains, string_eq, is_some,
}
use irrd.Ip.{IpLib}
use irrd.Preload.{as_set, set_members}
use irrd.Sets.{Resolver, Classified, classify_as, classify_members, as_number_of}
use irrd.Sets.Found.{found_members}

abbrev pub is_as_number : String → Bool
is_as_number name = is_some (as_number_of name)

-- The members of an as-set, in the first source that has it
abbrev pub subs : Resolver → String → List String
subs r set_name = found_members (set_members r.stores set_name r.resolved_sources (as_set ∷ []))

-- A member that is to be resolved itself: not an AS number, and not excluded
abbrev pub IsSub : Resolver → String → String → Type 0
IsSub r set_name member =
    In member (subs r set_name)
    × (is_as_number member ≡ false)
    × (contains r.current_excluded_sets member ≡ false)

pub data Reach (r : Resolver) (roots : List String) : String → Type 0 where
  root : {t : String} → In t roots → Reach r roots t
  step : {t u : String} → Reach r roots t → IsSub r t u → Reach r roots u

-- An AS number that is a member of a set that the roots lead to
abbrev pub IsLeaf : Resolver → List String → String → Type 0
IsLeaf r roots x = (t : String) × Reach r roots t × In x (subs r t) × (is_as_number x ≡ true)

classify_as-old :
    (r : Resolver) (x m : String) (o : Option (String × ℕ)) (c : Classified)
    → In x c.set_members
    → In x (classify_as r (some as_set) m o c).set_members
classify_as-old r x m none c i = i
classify_as-old r x m (some (f, n)) c i = In-add_old x m c.set_members i

classify_as-new :
    (r : Resolver) (m : String) (o : Option (String × ℕ)) (c : Classified)
    → is_some o ≡ true
    → In m (classify_as r (some as_set) m o c).set_members
classify_as-new r m none c h = cc
classify_as-new r m (some (f, n)) c h = In-add_new m c.set_members

classify_as-cases :
    (r : Resolver) (x m : String) (o : Option (String × ℕ)) (c : Classified)
    → In x (classify_as r (some as_set) m o c).set_members
    → In x c.set_members ⊎ ((m ≡ x) × (is_some o ≡ true))
classify_as-cases r x m none c i = inl i
classify_as-cases r x m (some (f, n)) c i = elim (add-In x m c.set_members i) [
  | inl k ↦ inl k
  | inr same ↦ inr (same, refl)
]

classify_as-resolved :
    (r : Resolver) (m : String) (o : Option (String × ℕ)) (c : Classified)
    → (classify_as r (some as_set) m o c).resolved_as_members ≡ c.resolved_as_members
classify_as-resolved r m none c = refl
classify_as-resolved r m (some (f, n)) c = refl

module _ (L : IpLib) (r : Resolver) where
  abbrev classified : List String → Classified → Classified
  classified members c = classify_members L r (some as_set) members c

  classified-old :
      (x : String) (ms : List String) (c : Classified)
      → In x c.set_members
      → In x (classified ms c).set_members
  unfolding classify_members
  classified-old x [] c i = i
  classified-old x (m ∷ ms) c i = classified-old x ms _ (classify_as-old r x m (as_number_of m) c i)

  pub classified-new :
      (x : String) (ms : List String) (c : Classified)
      → In x ms
      → is_as_number x ≡ true
      → In x (classified ms c).set_members
  unfolding classify_members
  classified-new x [] c i h = absurd i
  classified-new x (m ∷ ms) c (inl same) h = classified-old x ms _ (
      subst (λ z. In z (classify_as r (some as_set) m (as_number_of m) c).set_members) same
        (classify_as-new r m (as_number_of m) c (subst (λ z. is_as_number z ≡ true) (sym same) h)))
  classified-new x (m ∷ ms) c (inr i) h = classified-new x ms _ i h

  pub classified-cases :
      (x : String) (ms : List String) (c : Classified)
      → In x (classified ms c).set_members
      → In x c.set_members ⊎ (In x ms × (is_as_number x ≡ true))
  unfolding classify_members
  classified-cases x [] c i = inl i
  classified-cases x (m ∷ ms) c i =
      elim (classified-cases x ms (classify_as r (some as_set) m (as_number_of m) c) i) [
        | inl k ↦ elim (classify_as-cases r x m (as_number_of m) c k) [
          | inl old ↦ inl old
          | inr (same, h) ↦ inr (inl same, subst (λ z. is_as_number z ≡ true) same h)
        ]
        | inr (j, h) ↦ inr (inr j, h)
      ]

  pub classified-resolved :
      (ms : List String) (c : Classified)
      → (classified ms c).resolved_as_members ≡ c.resolved_as_members
  unfolding classify_members
  classified-resolved [] c = refl
  classified-resolved (m ∷ ms) c =
      classified-resolved ms _ ∙ classify_as-resolved r m (as_number_of m) c
