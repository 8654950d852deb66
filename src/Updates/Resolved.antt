-- ===== src/Updates/Resolved.antt =====
-- irrd/updates/validators.py: a check of references without errors has resolved each of them.
use irrd.Base.{
  String, Bool, true, false, ◌≡◌, refl, sym, subst, Option, none, some, List, [], ◌∷◌, is_nil,
  contains, map, string_eq, Bool-cases, ◌⊎◌, inl, inr, In, contains-In, In-contains, update-In,
  map-In, is_nil_head, In-add_new, arith,
}
use irrd.Updates.{Reference, RpslObject, ObjectKey, key_eq, verdict_is_valid, Row, World}
use irrd.Updates.References.{
  ReferenceValidator, key_for, known_reference, cache_rows, decide_reference, check_reference,
  add_unless, not_found, check_pks, check_fields, check_references_to_others,
}

true-false : (b : Bool) → b ≡ true → b ≡ false → ⊥
true-false b e f = cc

is_nil_only : (xs : List String) → is_nil xs ≡ true → xs ≡ []
is_nil_only [] e = refl
is_nil_only (x ∷ xs) e = cc

-- The keys of the objects that the valid requests of a submission make, and those they delete
pub record Preloaded : Type 0 where
  pub new : List ObjectKey
  pub deleted : List ObjectKey

module _ (W : World) where
  -- The database has an object of this key, which is not to be deleted.
  abbrev pub Known : Preloaded → ObjectKey → Type 0
  Known keys k =
      (In k keys.deleted → ⊥)
      × (classes : List String) × (row : Row) × In row (W.find_objects k.source classes k.object_pk)
      × (row.object_class ≡ k.object_class)

  abbrev pub Sound : Preloaded → ReferenceValidator → Type 0
  Sound keys v = (k : ObjectKey) → In k v.cache → Known keys k

  -- The cache is right, and these are the keys that are preloaded.
  abbrev pub Good : Preloaded → ReferenceValidator → Type 0
  Good keys v = Sound keys v × (v.preloaded_new ≡ keys.new) × (v.preloaded_deleted ≡ keys.deleted)

  -- A reference leads to an object that stays in the database or to a new one.
  abbrev pub Resolved : Preloaded → List String → String → String → Type 0
  Resolved keys classes pk source =
      (c : String) × In c classes
      × (Known keys (key_for c pk source) ⊎ In (key_for c pk source) keys.new)

  wider :
      (keys : Preloaded) (c : String) (classes : List String) (pk source : String)
      → Resolved keys classes pk source
      → Resolved keys (c ∷ classes) pk source
  wider keys c classes pk source (d, m, r) = (d, inr m, r)

  known_reference-Resolved :
      (keys : Preloaded) (v : ReferenceValidator) (classes : List String) (pk source : String)
      → Good keys v
      → known_reference v classes pk source ≡ some true
      → Resolved keys classes pk source
  known_reference-Resolved keys v [] pk source g e = cc
  known_reference-Resolved keys v (c ∷ classes) pk source (sound, same, gone) e =
      let key = key_for c pk source in
      elim (Bool-cases (contains v.cache key)) [
        | inl cached ↦ (c, inl refl, inl (sound key (contains-In key v.cache cached)))
        | inr uncached ↦ elim (Bool-cases (contains v.preloaded_new key)) [
          | inl is_new ↦ (
            c,
            inl refl,
            inr (subst (λ n. In key n) same (contains-In key v.preloaded_new is_new)),
          )
          | inr old ↦
              wider keys c classes pk source (
                known_reference-Resolved keys v classes pk source (sound, same, gone)
                  (ground arith))
        ]
      ]

  -- Where the loop decides nothing, no class has the key among those to be deleted.
  known_reference-none :
      (keys : Preloaded) (v : ReferenceValidator) (classes : List String) (pk source : String)
      → Good keys v
      → known_reference v classes pk source ≡ none
      → (c : String) → In c classes
      → In (key_for c pk source) keys.deleted
      → ⊥
  known_reference-none keys v [] pk source g e c m n = absurd m
  known_reference-none keys v (d ∷ classes) pk source (sound, same, gone) e c m n =
      let key = key_for d pk source in
      let undecided : (contains v.preloaded_deleted key ≡ false)
          × (known_reference v classes pk source ≡ none) =
        ground arith in
      elim m [
        | inl here ↦
            true-false (contains v.preloaded_deleted key)
              (In-contains key v.preloaded_deleted (
                subst (λ ks. In key ks) (sym gone)
                  (subst (λ x. In (key_for x pk source) keys.deleted) (sym here) n)))
              undecided.0
        | inr later ↦
            known_reference-none keys v classes pk source (sound, same, gone) undecided.1 c later n
      ]

  -- The query gives rows of the classes that it is asked for.
  module _
      (answers : (source : String) (classes : List String) (pk : String) (row : Row)
        → In row (W.find_objects source classes pk)
        → In row.object_class classes) where
    abbrev Kept : Preloaded → List String → String → String → Type 0
    Kept keys classes pk source =
        (c : String) → In c classes → In (key_for c pk source) keys.deleted → ⊥

    cache_rows-Sound :
        (keys : Preloaded) (classes : List String) (pk source : String) (v : ReferenceValidator)
        → Sound keys v
        → Kept keys classes pk source
        → Sound keys (cache_rows (W.find_objects source classes pk) pk source v)
    cache_rows-Sound keys classes pk source v sound kept k m =
        elim (update-In k v.cache
          (map (λ r. key_for r.object_class pk source) (W.find_objects source classes pk)) m) [
            | inl old ↦ sound k old
            | inr fresh ↦
                let (row, found, same) =
                  map-In (λ r. key_for r.object_class pk source) k
                    (W.find_objects source classes pk) fresh in
                subst (λ x. Known keys x) same
                  (
                    kept row.object_class (answers source classes pk row found),
                    classes,
                    row,
                    found,
                    refl,
                  )
          ]

    decide-Resolved :
        (keys : Preloaded) (known : Option Bool) (classes : List String) (pk source : String)
        (v : ReferenceValidator)
        → Good keys v
        → (known ≡ some true → Resolved keys classes pk source)
        → (known ≡ none → Kept keys classes pk source)
        → (let (b, v') = decide_reference W known classes pk source v in
            Good keys v' × (b ≡ true → Resolved keys classes pk source))
    decide-Resolved keys (some true) classes pk source v g h k = (g, λ e. h refl)
    decide-Resolved keys (some false) classes pk source v g h k = (g, λ e. cc)
    decide-Resolved keys none classes pk source v (sound, same, gone) h k = (
      (cache_rows-Sound keys classes pk source v sound (k refl), same, gone),
      λ e.
          let (row, found) = is_nil_head (W.find_objects source classes pk) (ground arith) in
          let asked = answers source classes pk row found in
          (row.object_class, asked, inl (k refl row.object_class asked, classes, row, found, refl)),
    )

    pub check_reference-Resolved :
        (keys : Preloaded) (classes : List String) (pk source : String) (v : ReferenceValidator)
        → Good keys v
        → (let (b, v') = check_reference W classes pk source v in
            Good keys v' × (b ≡ true → Resolved keys classes pk source))
    check_reference-Resolved keys classes pk source v g =
        decide-Resolved keys (known_reference v classes pk source) classes pk source v g
          (known_reference-Resolved keys v classes pk source g)
          (known_reference-none keys v classes pk source g)

    add_unless-nil :
        (b : Bool) (text : String) (errors : List String)
        → add_unless W b text errors ≡ []
        → (b ≡ true) × (errors ≡ [])
    add_unless-nil true text errors e = (refl, e)
    add_unless-nil false text errors e =
        absurd (subst (λ xs. In text xs) e (In-add_new text errors))

    -- The checks add to the errors.
    check_pks-nil :
        (r : Reference) (source : String) (pks errors : List String) (v : ReferenceValidator)
        → (check_pks W r source pks errors v).0 ≡ []
        → errors ≡ []
    check_pks-nil r source [] errors v e = e
    check_pks-nil r source (pk ∷ pks) errors v e =
        let (found, v') = check_reference W r.objects_referred pk source v in
        (add_unless-nil found (not_found W r pk source) errors
          (check_pks-nil r source pks _ v' e)).1

    check_pks-Resolved :
        (keys : Preloaded) (r : Reference) (source : String) (pks errors : List String)
        (v : ReferenceValidator)
        → Good keys v
        → (let (errors', v') = check_pks W r source pks errors v in
            Good keys v'
            × (errors' ≡ []
                → (pk : String) → In pk pks
                → Resolved keys r.objects_referred pk source))
    check_pks-Resolved keys r source [] errors v g = (g, λ e pk m. absurd m)
    check_pks-Resolved keys r source (pk ∷ pks) errors v g =
        let (found, v') = check_reference W r.objects_referred pk source v in
        let (g', here) = check_reference-Resolved keys r.objects_referred pk source v g in
        let errors' : List String = add_unless W found (not_found W r pk source) errors in
        let (g'', rest) = check_pks-Resolved keys r source pks errors' v' g' in
        (
          g'',
          λ e pk' m. elim m [
            | inl same ↦
                subst (λ p. Resolved keys r.objects_referred p source) same
                  (here
                    (add_unless-nil found (not_found W r pk source) errors
                      (check_pks-nil r source pks errors' v' e)).0)
            | inr later ↦ rest e pk' later
          ],
        )

    check_fields-nil :
        (source : String) (references : List Reference) (errors : List String)
        (v : ReferenceValidator)
        → (check_fields W source references errors v).0 ≡ []
        → errors ≡ []
    check_fields-nil source [] errors v e = e
    check_fields-nil source (r ∷ references) errors v e =
        let (errors', v') = check_pks W r source r.object_pks errors v in
        check_pks-nil r source r.object_pks errors v
          (check_fields-nil source references errors' v' e)

    check_fields-Resolved :
        (keys : Preloaded) (source : String) (references : List Reference) (errors : List String)
        (v : ReferenceValidator)
        → Good keys v
        → (let (errors', v') = check_fields W source references errors v in
            Good keys v'
            × (errors' ≡ []
                → (r : Reference) (pk : String) → In r references
                → In pk r.object_pks
                → Resolved keys r.objects_referred pk source))
    check_fields-Resolved keys source [] errors v g = (g, λ e r pk m n. absurd m)
    check_fields-Resolved keys source (f ∷ references) errors v g =
        let (errors', v') = check_pks W f source f.object_pks errors v in
        let (g', here) = check_pks-Resolved keys f source f.object_pks errors v g in
        let (g'', rest) = check_fields-Resolved keys source references errors' v' g' in
        (
          g'',
          λ e r pk m n. elim m [
            | inl same ↦
                subst (λ q. Resolved keys q.objects_referred pk source) same
                  (here (check_fields-nil source references errors' v' e) pk
                    (subst (λ q. In pk q.object_pks) (sym same) n))
            | inr later ↦ rest e r pk later n
          ],
        )

    -- All strong references of an object
    abbrev pub AllResolved : Preloaded → RpslObject → Type 0
    AllResolved keys o =
        (r : Reference) (pk : String)
        → In r o.referred_strong_objects
        → In pk r.object_pks
        → Resolved keys r.objects_referred pk o.source

    pub check_references_to_others-Resolved :
        (keys : Preloaded) (o : RpslObject) (v : ReferenceValidator)
        → Good keys v
        → (let (verdict, v') = check_references_to_others W o v in
            Good keys v' × (verdict_is_valid verdict ≡ true → AllResolved keys o))
    unfolding check_references_to_others
    check_references_to_others-Resolved keys o v g =
        let (g', all) = check_fields-Resolved keys o.source o.referred_strong_objects [] v g in
        (g', λ e. all (is_nil_only _ e))
