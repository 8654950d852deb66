-- ===== src/Updates/Told.antt =====
-- irrd/updates/parser.py: a request that is valid after its validation has its references resolved.
use irrd.Base.{
  String, Bool, true, false, not, ◌≡◌, refl, sym, ap, ◌∙◌, subst, Option, none, some, List, [], ◌∷◌,
  nat_eq, list_eq, if◌then◌else◌, Bool-cases, inl, inr, In, arith,
}
use irrd.Updates.{
  UpdateRequestType, create, modify, delete, UpdateRequestStatus, RpslObject, Verdict,
  verdict_is_valid, Row, World, error_reference,
}
use irrd.Updates.References.{ReferenceValidator}
use irrd.Updates.Request.{
  ChangeRequest, is_valid, status_is_valid, is_delete, validate, validate_new, validate_cleaning,
  validate_clean, check_rest, check_auth, check_rules, check_references, settle, cleaning, rules_of,
  references_of, override_of,
}
use irrd.Updates.Handler.{validate_valid, validate_if_valid}
use irrd.Updates.Partial.{OnSome, OnSome-some, OnSome-if, OnSome-mono, OnSome-both, OnSome-chain}
use irrd.Updates.Later.{
  First, Later-trans, check_rules-Later, check_auth-Later, validate_cleaning-Later, Later-valid,
  check_rest-Later, true-false,
}
use irrd.Updates.Resolved.{Preloaded, Good, AllResolved, check_references_to_others-Resolved}

settle-valid :
    (s : UpdateRequestStatus) (v : Verdict) (r : ChangeRequest)
    → status_is_valid s ≡ false
    → is_valid (settle s v r) ≡ true
    → verdict_is_valid v ≡ true
settle-valid s v r e h = elim (Bool-cases (verdict_is_valid v)) [
  | inl ok ↦ ok
  | inr bad ↦ ground (arith, e, h, bad)
]

if-refused :
    (b : Bool) (x y : ChangeRequest)
    → not b ≡ true
    → is_valid y ≡ false
    → is_valid (if b then x else y) ≡ false
if-refused true x y e h = cc
if-refused false x y e h = h

none-some : {A : Type 0} (n : Option A) (a : A) → n ≡ none → n ≡ some a → ⊥
none-some n a e f = cc

some_same : {A : Type 0} (a b : A) → some a ≡ some b → a ≡ b
some_same a b e = cc

module _ (W : World)
    (answers : (source : String) (classes : List String) (pk : String) (row : Row)
      → In row (W.find_objects source classes pk)
      → In row.object_class classes) where
  -- A request that is neither a deletion nor in the mode that is not strict has all its references resolved.
  abbrev pub Checked : Preloaded → ChangeRequest → Type 0
  Checked keys r =
      (o : RpslObject)
      → r.rpsl_obj_new ≡ some o
      → r.non_strict_mode ≡ false
      → is_delete r.request_type ≡ false
      → AllResolved W answers keys o

  Outcome :
      Preloaded → RpslObject → Option UpdateRequestType → Verdict × ReferenceValidator → Type 0
  Outcome keys o t (verdict, v') =
      Good W keys v'
      × (verdict_is_valid verdict ≡ true → is_delete t ≡ false → AllResolved W answers keys o)

  references_of-Outcome :
      (keys : Preloaded) (o : RpslObject) (current : Option RpslObject)
      (t : Option UpdateRequestType) (override : Bool) (v : ReferenceValidator)
      → Good W keys v
      → Outcome keys o t (references_of W o current t override v)
  unfolding Outcome
  references_of-Outcome keys o (some c) (some delete) override v g = (g, λ e f. cc)
  references_of-Outcome keys o none t override v g =
      let (g', all) = check_references_to_others-Resolved W answers keys o v g in (g', λ e f. all e)
  references_of-Outcome keys o (some c) none override v g =
      let (g', all) = check_references_to_others-Resolved W answers keys o v g in (g', λ e f. all e)
  references_of-Outcome keys o (some c) (some create) override v g =
      let (g', all) = check_references_to_others-Resolved W answers keys o v g in (g', λ e f. all e)
  references_of-Outcome keys o (some c) (some modify) override v g =
      let (g', all) = check_references_to_others-Resolved W answers keys o v g in (g', λ e f. all e)

  -- What a validation of a request tells, if the request is valid after it
  Told : Preloaded → RpslObject → ChangeRequest → ChangeRequest × ReferenceValidator → Type 0
  Told keys o r (r', v') =
      Good W keys v'
      × (is_valid r' ≡ true
          → r.non_strict_mode ≡ false
          → is_delete r.request_type ≡ false
          → AllResolved W answers keys o)

  if-Told :
      (keys : Preloaded) (o : RpslObject) (r : ChangeRequest) (b : Bool)
      (p q : ChangeRequest × ReferenceValidator)
      → (b ≡ true → Told keys o r p)
      → (b ≡ false → Told keys o r q)
      → Told keys o r (if b then p else q)
  if-Told keys o r true p q h k = h refl
  if-Told keys o r false p q h k = k refl

  check_references-Told :
      (keys : Preloaded) (o : RpslObject) (r : ChangeRequest) (v : ReferenceValidator)
      → Good W keys v
      → Told keys o r (check_references W o r v)
  unfolding check_references Told Outcome
  check_references-Told keys o r v g =
      let (verdict, v') =
        references_of W o r.rpsl_obj_current r.request_type (override_of r.auth_result) v in
      let (g', all) =
        references_of-Outcome keys o r.rpsl_obj_current r.request_type (override_of r.auth_result) v
          g in
      if-Told keys o r r.non_strict_mode (r, v) (settle error_reference verdict r, v')
        (λ lax. (g, λ e strict f. absurd (true-false r.non_strict_mode lax strict)))
        (λ strict. (g', λ e m f. all (settle-valid error_reference verdict r refl e) f))

  check_rest-Told :
      (keys : Preloaded) (o : RpslObject) (r : ChangeRequest) (v : ReferenceValidator)
      → Good W keys v
      → OnSome (Told keys o r) (check_rest W o r v)
  unfolding Told
  check_rest-Told keys o r v g =
      let (g', all) = check_references-Told keys o r v g in
      OnSome-mono _ (Told keys o r) (check_rest W o r v) (check_rest-Later W o r v)
        (λ (r'', v'') (l, kept).
          (subst (Good W keys) (sym kept) g', λ e. all (Later-valid W _ r'' l e)))

  validate_clean-Told :
      (keys : Preloaded) (approved : List String) (o : RpslObject) (r : ChangeRequest)
      (v : ReferenceValidator)
      → Good W keys v
      → OnSome (Told keys o r) (validate_clean W approved o r v)
  unfolding Told check_auth
  validate_clean-Told keys approved o r v g =
      let ruled = check_rules W o r in
      let authorised = check_auth W approved o ruled in
      OnSome-if (Told keys o r) (not (verdict_is_valid (rules_of W o r.request_type)))
        (some (ruled, v)) _
        (λ bad. (
          g,
          λ e. absurd (
              true-false (is_valid ruled) e
                (if-refused (verdict_is_valid (rules_of W o r.request_type)) _ _ bad refl)),
        ))
        (λ ruled_ok.
          OnSome-if (Told keys o r)
            (not (verdict_is_valid (W.process_auth approved o ruled.rpsl_obj_current).verdict))
            (some (authorised, v)) _
            (λ bad. (
              g,
              λ e. absurd (
                  true-false (is_valid authorised) e (
                    if-refused
                      (verdict_is_valid (W.process_auth approved o ruled.rpsl_obj_current).verdict)
                      _ _ bad refl)),
            ))
            (λ auth_ok.
              let later =
                Later-trans r ruled authorised (check_rules-Later W o r)
                  (check_auth-Later W approved o ruled) in
              OnSome-mono (Told keys o authorised) (Told keys o r) (check_rest W o authorised v)
                (check_rest-Told keys o authorised v g)
                (λ (r'', v'') (g', told). (
                  g',
                  λ e strict kept.
                      told e (later.same_mode ∙ strict) (ap is_delete later.same_type ∙ kept),
                ))))

  validate_cleaning-Told :
      (keys : Preloaded) (c : Option (List String)) (approved : List String) (o : RpslObject)
      (r : ChangeRequest) (v : ReferenceValidator)
      → Good W keys v
      → OnSome (Told keys o r) (validate_cleaning W c approved o r v)
  unfolding Told
  validate_cleaning-Told keys none approved o r v g = validate_clean-Told keys approved o r v g
  validate_cleaning-Told keys (some errors) approved o r v g = (g, λ e. cc)

  -- What holds of one request and the reference validator after a step of a pass
  After : Preloaded → ChangeRequest × ReferenceValidator → Type 0
  After keys (r', v') = Good W keys v' × (is_valid r' ≡ true → Checked keys r')

  validate_new-After :
      (keys : Preloaded) (n : Option RpslObject) (approved : List String) (r : ChangeRequest)
      (v : ReferenceValidator)
      → Good W keys v
      → r.rpsl_obj_new ≡ n
      → OnSome (After keys) (validate_new W n approved r v)
  unfolding After Told
  validate_new-After keys none approved r v g e =
      (g, λ ok o f. absurd (none-some r.rpsl_obj_new o e f))
  validate_new-After keys (some o) approved r v g e =
      let c = cleaning W o r.request_type in
      OnSome-mono _ (After keys) (validate_cleaning W c approved o r v)
        (OnSome-both (First W r) (Told keys o r) (validate_cleaning W c approved o r v)
          (validate_cleaning-Later W c approved o r v)
          (validate_cleaning-Told keys c approved o r v g))
        (λ (r', v') (later, (g', told)). (
          g',
          λ ok o' f strict kept.
              subst (λ q. AllResolved W answers keys q)
                (some_same o o' (sym e ∙ sym later.same_new ∙ f))
                (told ok (sym later.same_mode ∙ strict)
                  (sym (ap is_delete later.same_type) ∙ kept)),
        ))

  step-After :
      (keys : Preloaded) (approved : List String) (r : ChangeRequest) (v : ReferenceValidator)
      → Good W keys v
      → OnSome (After keys) (validate_if_valid W approved r v)
  unfolding After validate
  step-After keys approved r v g =
      OnSome-if (After keys) (is_valid r) (validate W approved r v) (some (r, v))
        (λ ok. validate_new-After keys r.rpsl_obj_new approved r v g refl)
        (λ bad. (g, λ ok. absurd (true-false (is_valid r) ok bad)))

  AllAfter : Preloaded → List ChangeRequest × ReferenceValidator → Type 0
  AllAfter keys (requests', v') =
      Good W keys v' × ((r : ChangeRequest) → In r requests' → is_valid r ≡ true → Checked keys r)

  all-After :
      (keys : Preloaded) (approved : List String) (requests : List ChangeRequest)
      (v : ReferenceValidator)
      → Good W keys v
      → OnSome (AllAfter keys) (validate_valid W approved requests v)
  unfolding After AllAfter
  all-After keys approved [] v g = (g, λ r m. absurd m)
  all-After keys approved (r ∷ requests) v g =
      OnSome-chain (After keys) (AllAfter keys) (validate_if_valid W approved r v) _
        (step-After keys approved r v g)
        (λ (r', v') (g', here).
          OnSome-chain (AllAfter keys) (AllAfter keys) (validate_valid W approved requests v') _
            (all-After keys approved requests v' g')
            (λ (requests', v'') (g'', rest). (
              g'',
              λ q m. elim m [
                | inl same ↦ subst (λ x. is_valid x ≡ true → Checked keys x) same here
                | inr later ↦ rest q later
              ],
            )))

  -- A pass leaves the valid requests checked against the keys that were preloaded for it.
  pub validate_valid-Checked :
      (keys : Preloaded) (approved : List String) (requests : List ChangeRequest)
      (v : ReferenceValidator)
      → Good W keys v
      → (requests' : List ChangeRequest) (v' : ReferenceValidator)
      → validate_valid W approved requests v ≡ some (requests', v')
      → Good W keys v' × ((r : ChangeRequest) → In r requests' → is_valid r ≡ true → Checked keys r)
  unfolding AllAfter
  validate_valid-Checked keys approved requests v g requests' v' e =
      OnSome-some (AllAfter keys) (validate_valid W approved requests v) (requests', v')
        (all-After keys approved requests v g) e
