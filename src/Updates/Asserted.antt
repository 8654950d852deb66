-- ===== src/Updates/Asserted.antt =====
-- irrd/updates/parser.py: a validation has a result where the assertion of `_check_conflicting_roa` holds.
use irrd.Base.{
  String, Bool, true, false, not, ◌||◌, ◌≡◌, refl, ap, ◌∙◌, Option, none, some, List, [], ◌∷◌,
  is_some, if◌then◌else◌, inl, inr, In, arith,
}
use irrd.NrtmOperation.{is_set}
use irrd.Updates.{RpslObject, UpdateRequestType, verdict_is_valid, World}
use irrd.Updates.Partial.{OnSome-unit, chain-is_some}
use irrd.Updates.References.{ReferenceValidator}
use irrd.Updates.Request.{
  ChangeRequest, is_valid, is_delete, validate, validate_new, validate_cleaning, validate_clean,
  check_rest, check_auth, check_rules, check_references, check_protected_names,
  check_conflicting_roa, cleaning, rules_of,
}
use irrd.Updates.Handler.{validate_if_valid, validate_valid}
use irrd.Updates.Later.{
  Later, Later-trans, check_references-Later, check_protected_names-Later, check_rules-Later,
  check_auth-Later, step-Later, First,
}

if-is_some :
    {A : Type 0} (b : Bool) (x y : Option A)
    → is_some x ≡ true
    → is_some y ≡ true
    → is_some (if b then x else y) ≡ true
if-is_some true x y h k = h
if-is_some false x y h k = k

module _ (W : World) where
  -- RPKI is not in use, or the object is no route or is to be deleted, or it has an AS number other than 0.
  abbrev pub origin_given : Option RpslObject → Option UpdateRequestType → Bool
  origin_given none t = true
  origin_given (some o) t =
      not W.rpki_aware || (not o.is_route || is_delete t) || is_set o.asn_first

  abbrev pub OriginGiven : ChangeRequest → Type 0
  OriginGiven r = origin_given r.rpsl_obj_new r.request_type ≡ true

  pub Later-OriginGiven : (r r' : ChangeRequest) → Later r r' → OriginGiven r → OriginGiven r'
  Later-OriginGiven r r' l g =
      ap (λ n. origin_given n r'.request_type) l.same_new
      ∙ ap (λ t. origin_given r.rpsl_obj_new t) l.same_type
      ∙ g

  check_conflicting_roa-is_some :
      (o : RpslObject) (r : ChangeRequest)
      → origin_given (some o) r.request_type ≡ true
      → is_some (check_conflicting_roa W o r) ≡ true
  unfolding check_conflicting_roa
  check_conflicting_roa-is_some o r g = ground arith

  check_rest-is_some :
      (o : RpslObject) (r : ChangeRequest) (v : ReferenceValidator)
      → origin_given (some o) r.request_type ≡ true
      → is_some (check_rest W o r v) ≡ true
  check_rest-is_some o r v g =
      let (r', v') = check_references W o r v in
      let named = check_protected_names W o r' v' in
      let later : Later r named =
        Later-trans r r' named (check_references-Later W o r v)
          (check_protected_names-Later W o r' v') in
      chain-is_some (check_conflicting_roa W o named) _ (λ q. Unit)
        (OnSome-unit (check_conflicting_roa W o named))
        (check_conflicting_roa-is_some o named
          (ap (λ t. origin_given (some o) t) later.same_type ∙ g))
        (λ q h. refl)

  validate_clean-is_some :
      (approved : List String) (o : RpslObject) (r : ChangeRequest) (v : ReferenceValidator)
      → origin_given (some o) r.request_type ≡ true
      → is_some (validate_clean W approved o r v) ≡ true
  validate_clean-is_some approved o r v g =
      let ruled = check_rules W o r in
      let authorised = check_auth W approved o ruled in
      let later : Later r authorised =
        Later-trans r ruled authorised (check_rules-Later W o r)
          (check_auth-Later W approved o ruled) in
      if-is_some (not (verdict_is_valid (rules_of W o r.request_type))) (some (ruled, v)) _ refl (
        if-is_some
          (not (verdict_is_valid (W.process_auth approved o ruled.rpsl_obj_current).verdict))
          (some (authorised, v)) (check_rest W o authorised v) refl
          (check_rest-is_some o authorised v
            (ap (λ t. origin_given (some o) t) later.same_type ∙ g)))

  validate_cleaning-is_some :
      (c : Option (List String)) (approved : List String) (o : RpslObject) (r : ChangeRequest)
      (v : ReferenceValidator)
      → origin_given (some o) r.request_type ≡ true
      → is_some (validate_cleaning W c approved o r v) ≡ true
  validate_cleaning-is_some none approved o r v g = validate_clean-is_some approved o r v g
  validate_cleaning-is_some (some errors) approved o r v g = refl

  validate_new-is_some :
      (n : Option RpslObject) (approved : List String) (r : ChangeRequest) (v : ReferenceValidator)
      → origin_given n r.request_type ≡ true
      → is_some (validate_new W n approved r v) ≡ true
  validate_new-is_some none approved r v g = refl
  validate_new-is_some (some o) approved r v g =
      validate_cleaning-is_some (cleaning W o r.request_type) approved o r v g

  step-is_some :
      (approved : List String) (r : ChangeRequest) (v : ReferenceValidator)
      → OriginGiven r
      → is_some (validate_if_valid W approved r v) ≡ true
  unfolding validate
  step-is_some approved r v g =
      if-is_some (is_valid r) (validate W approved r v) (some (r, v))
        (validate_new-is_some r.rpsl_obj_new approved r v g) refl

  pub validate_valid-is_some :
      (approved : List String) (requests : List ChangeRequest) (v : ReferenceValidator)
      → ((r : ChangeRequest) → In r requests → OriginGiven r)
      → is_some (validate_valid W approved requests v) ≡ true
  validate_valid-is_some approved [] v g = refl
  validate_valid-is_some approved (r ∷ requests) v g =
      chain-is_some (validate_if_valid W approved r v) _ (First W r) (step-Later W approved r v)
        (step-is_some approved r v (g r (inl refl)))
        (λ (r', v') l.
          chain-is_some (validate_valid W approved requests v') _ (λ q. Unit)
            (OnSome-unit (validate_valid W approved requests v'))
            (validate_valid-is_some approved requests v' (λ q m. g q (inr m))) (λ q h. refl))
