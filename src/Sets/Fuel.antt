-- ===== src/Sets/Fuel.antt =====
-- The recursion of `QueryResolver._recursive_set_resolve` ends, also where sets refer to each other.
use irrd.Base.{
  ℕ, zero, suc, ◌<◌, String, ◌≡◌, refl, inl, inr, Bool, true, false, Option, none, some, List, [],
  ◌∷◌, In, In-append_left, In-contains, contains-In, In-update_old, In-update_new, filter-In,
  update, missing, missing-lt, missing-length, contains, all, filter, string_eq, arith, Bool-cases,
}
use irrd.Ip.{IpLib}
use irrd.Sets.{
  Resolver, State, recursive_set_resolve, universe, enough_fuel, find_set_members, classify_members,
  unclassified, needs_resolving, decrement, is_zero,
}
use irrd.Sets.Found.{find_set_members-universe}

not_all_head :
    (p : String → Bool) (xs : List String)
    → all p xs ≡ false
    → (x : String) × In x xs × (p x ≡ false)
not_all_head p [] h = cc
not_all_head p (x ∷ xs) h = elim (Bool-cases (p x)) [
  | inl e ↦ let (y, i, k) = not_all_head p xs (ground arith) in (y, inr i, k)
  | inr e ↦ (x, inl refl, e)
]

contains-update :
    (x : String) (s xs : List String) → contains s x ≡ true → contains (update s xs) x ≡ true
contains-update x s xs h = In-contains x (update s xs) (In-update_old x s xs (contains-In x s h))

-- A level with a set that was not seen leaves fewer unseen.
pub missing-update :
    (u s members : List String)
    → ((x : String) → In x members → In x u)
    → all (contains s) members ≡ false
    → missing u (update s members) < missing u s
missing-update u s members within h =
    let (m, i, k) = not_all_head (contains s) members h in
    missing-lt m u s (update s members) (λ x. contains-update x s members) (within m i) k
      (In-contains m (update s members) (In-update_new m s members i))

module _ (L : IpLib) (r : Resolver) (roots : List String) where
  abbrev Ends : ℕ → State → List String → Option String → Type 0
  Ends fuel st members limit =
      (members' : List String) × (st' : State) × (recursive_set_resolve L fuel r st members limit
        ≡ some (members', st'))

  resolve-Ends :
      (fuel : ℕ) (st : State) (members : List String) (limit : Option String)
      → ((x : String) → In x members → In x (universe r.stores roots))
      → missing (universe r.stores roots) st.sets_seen < fuel
      → Ends fuel st members limit
  unfolding recursive_set_resolve
  resolve-Ends zero st members limit within h = absurd (omega arith)
  resolve-Ends (suc fuel) st members limit within h =
      elim (Bool-cases (all (contains st.sets_seen) members)) [
        | inl e ↦ ([], st, rw (e) refl)
        | inr e ↦ elim (Bool-cases (is_zero (decrement st.current_set_maximum_depth))) [
          | inl z ↦
              let found = find_set_members r st.current_set_root_object_class members limit in
              let c = classify_members L r found.root_class found.members unclassified in
              let last : State = record {
                current_set_root_object_class = found.root_class;
                current_set_maximum_depth = decrement st.current_set_maximum_depth;
                sets_seen = update st.sets_seen members;
              } in
              (update (update c.set_members found.members) found.leaf_members, last, rw (e, z) refl)
          | inr z ↦
              let found = find_set_members r st.current_set_root_object_class members limit in
              let c = classify_members L r found.root_class found.members unclassified in
              let seen = update st.sets_seen members in
              let st' : State = record {
                current_set_root_object_class = found.root_class;
                current_set_maximum_depth = decrement st.current_set_maximum_depth;
                sets_seen = seen;
              } in
              let (new, last, k) =
                resolve-Ends fuel st' (filter (needs_resolving r c seen) found.members) none
                  (λ x i.
                    find_set_members-universe r roots st.current_set_root_object_class members limit
                      x (filter-In (needs_resolving r c seen) x found.members i).0)
                  (omega (
                    arith,
                    h,
                    missing-update (universe r.stores roots) st.sets_seen members within e,
                  )) in
              (update c.set_members new, last, rw (e, z, k) refl)
        ]
      ]

  -- Whatever the stores hold, the class and the depth: the resolving of sets ends with a result on
  -- the fuel that is given.
  pub recursive_set_resolve-ends :
      (st : State) (limit : Option String)
      → st.sets_seen ≡ []
      → (found : List String) × (st' : State) × (recursive_set_resolve L
            (enough_fuel r.stores roots)
            r
            st
            roots
            limit
          ≡ some (found, st'))
  recursive_set_resolve-ends st limit h =
      resolve-Ends (enough_fuel r.stores roots) st roots limit (λ x i. In-append_left x roots _ i)
        (omega (arith, missing-length (universe r.stores roots) st.sets_seen))
