-- ===== src/Updates/Auth/Mntners.antt =====
-- irrd/updates/validators.py: `AuthValidator._check_mntners` gives the same verdict with its cache as without it.
use irrd.Base.{
  String, Bool, true, false, not, ◌||◌, ◌≡◌, refl, sym, ap, ◌∙◌, subst, Option, none, some, List,
  [], ◌∷◌, ◌++◌, is_nil, is_some, map, contains, update, string_eq, if◌then◌else◌, Bool-cases, ◌⊎◌,
  inl, inr, ◌↔◌, In, In-append, In-append_left, In-append_right, filter-In, In-filter, map-In,
  contains-In, In-contains, update-In, In-update_new, beq_iff, arith,
}
use irrd.Updates.Auth.{
  RpslMntner, NewObject, Environment, AuthValidator, MntnerCheckResult, first_of, or_else,
  mntner_matches_internal_auth, api_key_match_for_mntner, cached_mntners, pks_to_resolve,
  retrieved_mntners, name_result, verify_result, result_or_failed, check_mntners,
}

true-false : (b : Bool) → b ≡ true → b ≡ false → ⊥
true-false b e f = cc

abbrev Exists : {A B : Type 0} → (A → Option B) → List A → Type 0
Exists f xs = (x : _) × In x xs × (is_some (f x) ≡ true)

first_of-step :
    {B : Type 0} (o rest : Option B)
    → is_some (elim o [ none ↦ rest | some b ↦ some b ]) ≡ (is_some o || is_some rest)
first_of-step none rest = refl
first_of-step (some b) rest = refl

first_of-Exists :
    {A B : Type 0} (f : A → Option B) (xs : List A) → is_some (first_of f xs) ≡ true → Exists f xs
first_of-Exists f [] e = cc
first_of-Exists f (x ∷ xs) e = elim (Bool-cases (is_some (f x))) [
  | inl here ↦ (x, inl refl, here)
  | inr other ↦
      let (y, m, k) = first_of-Exists f xs (ground (arith, first_of-step (f x) (first_of f xs))) in
      (y, inr m, k)
]

Exists-first_of :
    {A B : Type 0} (f : A → Option B) (x : A) (xs : List A)
    → In x xs
    → is_some (f x) ≡ true
    → is_some (first_of f xs) ≡ true
Exists-first_of f x [] m e = absurd m
Exists-first_of f x (y ∷ xs) (inl same) e =
    ground (arith, first_of-step (f y) (first_of f xs), ap (λ z. is_some (f z)) same)
Exists-first_of f x (y ∷ xs) (inr m) e =
    ground (arith, first_of-step (f y) (first_of f xs), Exists-first_of f x xs m e)

or_else-is_some : {A : Type 0} (o p : Option A) → is_some (or_else o p) ≡ (is_some o || is_some p)
or_else-is_some none p = refl
or_else-is_some (some a) p = refl

In-not_nil : {A : Type 0} (x : A) (xs : List A) → In x xs → is_nil xs ≡ false
In-not_nil x [] h = absurd h
In-not_nil x (y ∷ xs) h = refl

-- A search gives results that are valid.
abbrev AllValid : Option MntnerCheckResult → Type 0
AllValid o = (r : MntnerCheckResult) → o ≡ some r → r.valid ≡ true

some_valid : (r : MntnerCheckResult) → r.valid ≡ true → AllValid (some r)
some_valid r ok q e = cc

first_of-AllValid :
    {A : Type 0} (f : A → Option MntnerCheckResult)
    → ((x : A) → AllValid (f x))
    → (xs : List A) → AllValid (first_of f xs)
first_of-AllValid f h [] = λ q e. cc
first_of-AllValid f h (x ∷ xs) = step (f x) (first_of f xs) (h x) (first_of-AllValid f h xs)
  where
    step :
        (o rest : Option MntnerCheckResult)
        → AllValid o
        → AllValid rest
        → AllValid (elim o [ none ↦ rest | some b ↦ some b ])
    step none rest h k = k
    step (some r) rest h k = h

or_else-AllValid :
    (o p : Option MntnerCheckResult) → AllValid o → AllValid p → AllValid (or_else o p)
or_else-AllValid none p h k = k
or_else-AllValid (some r) p h k = h

module _ (E : Environment) where
  result_or_failed-valid :
      (o : Option MntnerCheckResult) (found : List RpslMntner)
      → AllValid o
      → (result_or_failed E o found).valid ≡ is_some o
  result_or_failed-valid none found h = refl
  result_or_failed-valid (some r) found h = h r refl

  verify_result-AllValid :
      (v : AuthValidator) (found : List RpslMntner) (m : RpslMntner)
      → AllValid (verify_result E v found m)
  verify_result-AllValid v found m r e = ground arith

  name_result-AllValid :
      (o : NewObject) (source : String) (v : AuthValidator) (found : List RpslMntner)
      (name : String)
      → AllValid (name_result E o source v found name)
  name_result-AllValid o source v found name r e = ground arith

  verify_result-is_some :
      (v : AuthValidator) (found : List RpslMntner) (m : RpslMntner)
      → is_some (verify_result E v found m) ≡ is_some (m.verify_auth v.passwords v.keycert_obj_pk)
  verify_result-is_some v found m = ground arith

  -- A name is approved without a password or a key.
  abbrev pub approved : NewObject → String → AuthValidator → String → Bool
  approved o source v name =
      contains v.pre_approved name
      || (is_some (mntner_matches_internal_auth v.internal_authenticated_user o name source)
          || is_some (api_key_match_for_mntner E v.api_keys o name source))

  name_result-is_some :
      (o : NewObject) (source : String) (v : AuthValidator) (found : List RpslMntner)
      (name : String)
      → is_some (name_result E o source v found name) ≡ approved o source v name
  name_result-is_some o source v found name = ground arith

  -- `table` has the maintainers in the database, which the query looks up.
  module _ (table : List RpslMntner)
      (answers : (source : String) (names : List String) (m : RpslMntner)
        → In m (E.find_mntners source names)
          ↔ (In m table × (m.source ≡ source) × In m.pk names)) where
    -- The cache has maintainers of the database, and with one of them all of its name.
    pub record CacheOk (v : AuthValidator) : Type 0 where
      pub sound : (m : RpslMntner) → In m v.mntner_db_cache → In m table
      pub full :
          (m m' : RpslMntner)
          → In m v.mntner_db_cache
          → In m' table
          → m'.pk ≡ m.pk
          → m'.source ≡ m.source
          → In m' v.mntner_db_cache

    found_mntners : List String → String → AuthValidator → List RpslMntner
    found_mntners names source v =
        cached_mntners E names source v ++ retrieved_mntners E names source v

    retrieved-In :
        (names : List String) (source : String) (v : AuthValidator) (m : RpslMntner)
        → In m (retrieved_mntners E names source v)
        → In m table
          × (m.source ≡ source)
          × In m.pk (pks_to_resolve E names (cached_mntners E names source v))
    retrieved-In names source v m h =
        let missing = pks_to_resolve E names (cached_mntners E names source v) in
        elim (Bool-cases (is_nil missing)) [
          | inl nothing ↦
              absurd (subst (λ b. In m (if b then [] else E.find_mntners source missing)) nothing h)
          | inr some_missing ↦
              (answers source missing m).0
                (subst (λ b. In m (if b then [] else E.find_mntners source missing)) some_missing h)
        ]

    In-retrieved :
        (names : List String) (source : String) (v : AuthValidator) (m : RpslMntner)
        → In m table
        → m.source ≡ source
        → In m.pk (pks_to_resolve E names (cached_mntners E names source v))
        → In m (retrieved_mntners E names source v)
    In-retrieved names source v m stored here missed =
        let missing = pks_to_resolve E names (cached_mntners E names source v) in
        subst (λ b. In m (if b then [] else E.find_mntners source missing))
          (sym (In-not_nil m.pk missing missed))
          ((answers source missing m).1 (stored, here, missed))

    missing-In :
        (names : List String) (found : List RpslMntner) (name : String)
        → In name (pks_to_resolve E names found)
        → In name names
    missing-In names found name h =
        elim (update-In name [] names (filter-In _ name (update [] names) h).0) [
          | inl old ↦ absurd old
          | inr m ↦ m
        ]

    found-In :
        (names : List String) (source : String) (v : AuthValidator) (m : RpslMntner)
        → CacheOk v
        → In m (found_mntners names source v)
        → In m table × (m.source ≡ source) × In m.pk names
    unfolding found_mntners
    found-In names source v m ok h =
        elim (In-append m (cached_mntners E names source v) (retrieved_mntners E names source v)
          h) [
            | inl cached ↦
                let (k, q) = filter-In _ m v.mntner_db_cache cached in
                (
                  ok.sound m k,
                  (beq_iff m.source source).0 (ground arith),
                  contains-In m.pk names (ground arith),
                )
            | inr fresh ↦
                let (stored, here, missed) = retrieved-In names source v m fresh in
                (stored, here, missing-In names _ m.pk missed)
          ]

    In-found :
        (names : List String) (source : String) (v : AuthValidator) (m : RpslMntner)
        → CacheOk v
        → In m table
        → m.source ≡ source
        → In m.pk names
        → In m (found_mntners names source v)
    unfolding found_mntners
    In-found names source v m ok stored here named =
        let cached = cached_mntners E names source v in
        elim (Bool-cases (contains (map (λ c. c.pk) cached) m.pk)) [
          | inl known ↦
              let (c, k, same) = map-In (λ c. c.pk) m.pk cached (contains-In m.pk _ known) in
              let (kept, q) = filter-In _ c v.mntner_db_cache k in
              In-append_left m cached _ (
                In-filter _ m v.mntner_db_cache
                  (ok.full c m kept stored (sym same)
                    (here ∙ sym ((beq_iff c.source source).0 (ground arith))))
                  (ground (arith, In-contains m.pk names named, (beq_iff m.source source).1 here)))
          | inr unknown ↦ In-append_right m cached _ (
              In-retrieved names source v m stored here (
                In-filter _ m.pk (update [] names) (In-update_new m.pk [] names named)
                  (ap not unknown)))
        ]

    -- What authenticates a name, without a word on the cache
    abbrev pub Passes : NewObject → String → AuthValidator → String → Type 0
    Passes o source v name =
        (approved o source v name ≡ true)
        ⊎ ((m : RpslMntner) × In m table
            × (m.source ≡ source)
            × (m.pk ≡ name)
            × (is_some (m.verify_auth v.passwords v.keycert_obj_pk) ≡ true))

    check_mntners-is_some :
        (o : NewObject) (names : List String) (source : String) (v : AuthValidator)
        → (let found = found_mntners names source v in
            (check_mntners E o names source v).0.valid ≡ (
              is_some (first_of (name_result E o source v found) names)
              || is_some (first_of (verify_result E v found) found)))
    unfolding check_mntners found_mntners
    check_mntners-is_some o names source v =
        let found = found_mntners names source v in
        result_or_failed-valid
          (or_else (first_of (name_result E o source v found) names)
            (first_of (verify_result E v found) found))
          found
          (or_else-AllValid (first_of (name_result E o source v found) names)
            (first_of (verify_result E v found) found)
            (first_of-AllValid (name_result E o source v found)
              (name_result-AllValid o source v found) names)
            (first_of-AllValid (verify_result E v found) (verify_result-AllValid v found) found))
        ∙ or_else-is_some (first_of (name_result E o source v found) names)
            (first_of (verify_result E v found) found)

    check-Passes :
        (o : NewObject) (names : List String) (source : String) (v : AuthValidator)
        → CacheOk v
        → (check_mntners E o names source v).0.valid ≡ true
        → (name : String) × In name names × Passes o source v name
    check-Passes o names source v ok e =
        let found = found_mntners names source v in
        elim (Bool-cases (is_some (first_of (name_result E o source v found) names))) [
          | inl by_name ↦
              let (name, m, k) = first_of-Exists (name_result E o source v found) names by_name in
              (name, m, inl (sym (name_result-is_some o source v found name) ∙ k))
          | inr other ↦
              let (m, k, q) =
                first_of-Exists (verify_result E v found) found
                  (ground (arith, check_mntners-is_some o names source v)) in
              let (stored, here, named) = found-In names source v m ok k in
              (m.pk, named, inr (m, stored, here, refl, sym (verify_result-is_some v found m) ∙ q))
        ]

    Passes-check :
        (o : NewObject) (names : List String) (source : String) (v : AuthValidator) (name : String)
        → CacheOk v
        → In name names
        → Passes o source v name
        → (check_mntners E o names source v).0.valid ≡ true
    Passes-check o names source v name ok m (inl by_name) =
        let found = found_mntners names source v in
        let hit =
          Exists-first_of (name_result E o source v found) name names m
            (name_result-is_some o source v found name ∙ by_name) in
        check_mntners-is_some o names source v
        ∙ ap (λ b. b || is_some (first_of (verify_result E v found) found)) hit
    Passes-check o names source v name ok n (inr (m, stored, here, same, q)) =
        let found = found_mntners names source v in
        let hit =
          Exists-first_of (verify_result E v found) m found
            (In-found names source v m ok stored here (subst (λ x. In x names) (sym same) n))
            (verify_result-is_some v found m ∙ q) in
        ground (arith, check_mntners-is_some o names source v, hit)

    -- Where the cache has maintainers of the database, and all of a name and source that it has one of, a check of maintainers passes exactly where one of the names is approved, or a maintainer in the database of that source and one of these names verifies the passwords or the key; and the cache is like that again after the check.
    pub check_mntners-valid_iff :
        (o : NewObject) (names : List String) (source : String) (v : AuthValidator)
        → CacheOk v
        → (let (check, v') = check_mntners E o names source v in
            ((check.valid ≡ true) ↔ ((name : String) × In name names × Passes o source v name))
            × CacheOk v')
    unfolding check_mntners
    check_mntners-valid_iff o names source v ok = (
      (
        check-Passes o names source v ok,
        λ h. let (name, m, p) = h in Passes-check o names source v name ok m p,
      ),
      record {
        sound = λ m h. elim (In-append m v.mntner_db_cache (retrieved_mntners E names source v) h) [
          | inl old ↦ ok.sound m old
          | inr fresh ↦ (retrieved-In names source v m fresh).0
        ];
        full = λ m m' h stored same here.
            elim (In-append m v.mntner_db_cache (retrieved_mntners E names source v) h) [
              | inl old ↦ In-append_left m' v.mntner_db_cache _ (ok.full m m' old stored same here)
              | inr fresh ↦
                  let (k, s, missed) = retrieved-In names source v m fresh in
                  In-append_right m' v.mntner_db_cache _ (
                    In-retrieved names source v m' stored (here ∙ s) (
                      subst (λ x. In x (pks_to_resolve E names (cached_mntners E names source v)))
                        (sym same) missed))
            ];
      },
    )
