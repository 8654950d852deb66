-- ===== src/Sets/Reach.antt =====
-- The search through the as-sets keeps an invariant, level by level.
use irrd.Base.{
  ℕ, zero, suc, ◌<◌, String, ◌≡◌, refl, ◌⊎◌, inl, inr, Bool, true, false, none, some, List, [], ◌∷◌,
  In, In-contains, contains-In, In-update_old, In-update_new, update-In, In-filter, filter-In,
  all-In, update, missing, contains, all, filter, string_eq, arith, Bool-cases,
}
use irrd.Ip.{IpLib}
use irrd.Preload.{as_set}
use irrd.Sets.{
  Resolver, State, Depth, pos, negsuc, recursive_set_resolve, universe, find_set_members,
  FoundMembers, Classified, classify_members, unclassified, needs_resolving, decrement, is_zero,
}
use irrd.Sets.Found.{visit-new, visit-cases, visit-root, find_set_members-universe}
use irrd.Sets.Fuel.{missing-update}
use irrd.Sets.Closure.{
  is_as_number, subs, IsSub, Reach, root, step, IsLeaf, classified-new, classified-cases,
  classified-resolved,
}

-- The members of the set are dealt with: the sets are seen, and the AS numbers are in the result.
abbrev pub Done : Resolver → List String → List String → String → Type 0
Done r seen found t =
    ((u : String) → IsSub r t u → In u seen)
    × ((x : String) → In x (subs r t) → is_as_number x ≡ true → In x found)

pub record Inv (r : Resolver) (members old found seen : List String) : Type 0 where
  pub keeps : (x : String) → In x old → In x seen
  pub sees : (x : String) → In x members → In x seen
  pub done : (t : String) → In t seen → In t old ⊎ (Reach r members t × Done r seen found t)
  pub leaves : (x : String) → In x found → IsLeaf r members x

-- The depth of a query without a limit, at its start and below it
abbrev pub unlimited : Depth → Bool
unlimited (pos zero) = true
unlimited (pos (suc n)) = false
unlimited (negsuc n) = true

unlimited-decrement : (d : Depth) → unlimited d ≡ true → is_zero (decrement d) ≡ false
unlimited-decrement (pos zero) h = refl
unlimited-decrement (pos (suc n)) h = cc
unlimited-decrement (negsuc n) h = refl

unlimited-next : (d : Depth) → unlimited d ≡ true → unlimited (decrement d) ≡ true
unlimited-next (pos zero) h = refl
unlimited-next (pos (suc n)) h = cc
unlimited-next (negsuc n) h = refl

module _ (L : IpLib) (r : Resolver) where
  abbrev level : List String → FoundMembers
  level members = find_set_members r (some as_set) members none

  abbrev direct : List String → Classified
  direct members = classify_members L r (some as_set) (level members).members unclassified

  abbrev further : List String → List String → List String
  further seen members = filter (needs_resolving r (direct members) seen) (level members).members

  level-In :
      (x t : String) (members : List String)
      → In t members
      → In x (subs r t)
      → In x (level members).members
  unfolding find_set_members
  level-In x t members i j = visit-new r.stores r.resolved_sources (as_set ∷ []) x t members _ i j

  In-level :
      (x : String) (members : List String)
      → In x (level members).members
      → (t : String) × In t members × In x (subs r t)
  unfolding find_set_members
  In-level x members i =
      elim (visit-cases r.stores r.resolved_sources (as_set ∷ []) x members _ i) [
        | inl k ↦ absurd k
        | inr k ↦ k
      ]

  level-root : (members : List String) → (level members).root_class ≡ some as_set
  unfolding find_set_members
  level-root members = visit-root r.stores r.resolved_sources (as_set ∷ []) as_set members _ refl

  In-direct :
      (x : String) (members : List String)
      → In x (direct members).set_members
      → In x (level members).members × (is_as_number x ≡ true)
  In-direct x members i = elim (classified-cases L r x (level members).members unclassified i) [
    | inl k ↦ absurd k
    | inr k ↦ k
  ]

  direct-IsLeaf :
      (x : String) (members : List String) → In x (direct members).set_members → IsLeaf r members x
  direct-IsLeaf x members i =
      let (j, h) = In-direct x members i in
      let (t, k, l) = In-level x members j in (t, root k, l, h)

  not_contains : (x : String) (xs : List String) → (In x xs → ⊥) → contains xs x ≡ false
  not_contains x xs h = elim (Bool-cases (contains xs x)) [
    | inl e ↦ absurd (h (contains-In x xs e))
    | inr e ↦ e
  ]

  -- A set that a seen one names is seen by now, or it is looked at next.
  sub-next :
      (t u : String) (members seen : List String)
      → In t members
      → IsSub r t u
      → In u seen ⊎ In u (further seen members)
  sub-next t u members seen i (j, plain, kept) = elim (Bool-cases (contains seen u)) [
    | inl e ↦ inl (contains-In u seen e)
    | inr e ↦ inr (
        In-filter (needs_resolving r (direct members) seen) u (level members).members
          (level-In u t members i j)
          (ground (
            arith,
            e,
            kept,
            classified-resolved L r (level members).members unclassified,
            not_contains u (direct members).set_members
                (λ k. plain-clash u plain (In-direct u members k).1),
          )))
  ]
    where
      plain-clash : (u : String) → is_as_number u ≡ false → is_as_number u ≡ true → ⊥
      plain-clash u a b = absurd (ground arith)

  further-Sub :
      (u : String) (members seen : List String)
      → In u (further seen members)
      → (t : String) × In t members × IsSub r t u
  further-Sub u members seen i =
      let (j, h) =
        filter-In (needs_resolving r (direct members) seen) u (level members).members i in
      let (t, k, l) = In-level u members j in (t, k, (l, further-plain u members j h, ground arith))
    where
      further-plain :
          (u : String) (members : List String)
          → In u (level members).members
          → needs_resolving r (direct members) seen u ≡ true
          → is_as_number u ≡ false
      further-plain u members j h = elim (Bool-cases (is_as_number u)) [
        | inl e ↦ ground (
          arith,
          In-contains u (direct members).set_members
              (classified-new L r u (level members).members unclassified j e),
        )
        | inr e ↦ e
      ]

  Reach-further :
      (members seen : List String) (t : String)
      → Reach r (further seen members) t
      → Reach r members t
  Reach-further members seen t (root i) =
      let (s, j, k) = further-Sub t members seen i in step (root j) k
  Reach-further members seen t (step h k) = step (Reach-further members seen _ h) k

  Inv-level :
      (members old new last : List String)
      → Inv r (further (update old members) members) (update old members) new last
      → Inv r members old (update (direct members).set_members new) last
  Inv-level members old new last inv = record {
    keeps = λ x i. inv.keeps x (In-update_old x old members i);
    sees = λ x i. inv.keeps x (In-update_new x old members i);
    done = λ t i. elim (inv.done t i) [
      | inl k ↦ elim (update-In t old members k) [
        | inl j ↦ inl j
        | inr j ↦ inr (
          root j,
          (
            λ u h. elim (sub-next t u members (update old members) j h) [
              | inl seen ↦ inv.keeps u seen
              | inr next ↦ inv.sees u next
            ],
            λ x l h. In-update_old x (direct members).set_members new (
                classified-new L r x (level members).members unclassified (level-In x t members j l)
                  h),
          ),
        )
      ]
      | inr (reached, (sub, leaf)) ↦ inr (
        Reach-further members (update old members) t reached,
        (sub, λ x l h. In-update_new x (direct members).set_members new (leaf x l h)),
      )
    ];
    leaves = λ x i. elim (update-In x (direct members).set_members new i) [
      | inl j ↦ direct-IsLeaf x members j
      | inr j ↦
          let (t, reached, l, h) = inv.leaves x j in
          (t, Reach-further members (update old members) t reached, l, h)
    ];
  }

  Inv-all_seen :
      (members old : List String) → all (contains old) members ≡ true → Inv r members old [] old
  Inv-all_seen members old h = record {
    keeps = λ x i. i;
    sees = λ x i. contains-In x old (all-In (contains old) x members h i);
    done = λ t i. inl i;
    leaves = λ x i. absurd i;
  }

  pub resolve-Inv :
      (roots : List String) (fuel : ℕ) (d : Depth) (old members : List String)
      → unlimited d ≡ true
      → ((x : String) → In x members → In x (universe r.stores roots))
      → missing (universe r.stores roots) old < fuel
      → (found : List String) × (st' : State) × (recursive_set_resolve L fuel r
            (record {
              current_set_root_object_class = some as_set;
              current_set_maximum_depth = d;
              sets_seen = old;
            })
            members
            none
          ≡ some (found, st'))
        × Inv r members old found st'.sets_seen
  unfolding recursive_set_resolve
  resolve-Inv roots zero d old members free within h = absurd (omega arith)
  resolve-Inv roots (suc fuel) d old members free within h =
      elim (Bool-cases (all (contains old) members)) [
        | inl e ↦
            let st : State = record {
              current_set_root_object_class = some as_set;
              current_set_maximum_depth = d;
              sets_seen = old;
            } in
            ([], st, rw (e) refl, Inv-all_seen members old e)
        | inr e ↦
            let (new, last, k, inv) =
              resolve-Inv roots fuel (decrement d) (update old members)
                (further (update old members) members) (unlimited-next d free)
                (λ x i.
                  find_set_members-universe r roots (some as_set) members none x
                    (filter-In (needs_resolving r (direct members) (update old members)) x
                      (level members).members i).0)
                (omega (arith, h, missing-update (universe r.stores roots) old members within e)) in
            (
              update (direct members).set_members new,
              last,
              simp (e, unlimited-decrement d free, level-root members, k),
              Inv-level members old new last.sets_seen inv,
            )
      ]
