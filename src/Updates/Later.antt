-- ===== src/Updates/Later.antt =====
-- irrd/updates/parser.py: a validation of a change request changes its status to an error or not at all.
use irrd.Base.{
  is_some, ◌||◌, String, Bool, true, false, not, ◌≡◌, refl, sym, ap, ◌∙◌, subst, Option, none, some,
  List, [], ◌∷◌, nat_eq, list_eq, if◌then◌else◌, Bool-cases, ◌⊎◌, inl, inr,
}
use irrd.Updates.{
  UpdateRequestType, UpdateRequestStatus, RpslObject, Verdict, verdict_is_valid, World,
  error_reference, error_protected_name, error_scopefilter, error_roa, create, modify, delete,
}
use irrd.Updates.References.{ReferenceValidator, check_protected_name}
use irrd.NrtmOperation.{is_set}
use irrd.Updates.Partial.{OnSome, OnSome-if, OnSome-mono, OnSome-chain}
use irrd.Updates.Handler.{validate_if_valid}
use irrd.Updates.Request.{
  ChangeRequest, is_valid, status_is_valid, validate, validate_new, validate_cleaning,
  validate_clean, check_rest, check_auth, check_rules, check_references, check_protected_names,
  check_conflicting_roa, roa_conflicts, roa_agrees, conflicts, is_delete, check_scopefilter,
  out_of_scope, settle, fail_first, note, report, cleaning, rules_of, is_create, override_of,
}

-- A later state of a request: its object and type are the same, and so is its status, unless it is an error now.
pub record Later (r r' : ChangeRequest) : Type 0 where
  pub same_new : r'.rpsl_obj_new ≡ r.rpsl_obj_new
  pub same_current : r'.rpsl_obj_current ≡ r.rpsl_obj_current
  pub same_type : r'.request_type ≡ r.request_type
  pub same_mode : r'.non_strict_mode ≡ r.non_strict_mode
  pub status_kept : (r'.status ≡ r.status) ⊎ (is_valid r' ≡ false)

pub Later-refl : (r : ChangeRequest) → Later r r
Later-refl r = record {
  same_new = refl;
  same_current = refl;
  same_type = refl;
  same_mode = refl;
  status_kept = inl refl;
}

status_trans :
    (a b c : UpdateRequestStatus)
    → (b ≡ a) ⊎ (status_is_valid b ≡ false)
    → (c ≡ b) ⊎ (status_is_valid c ≡ false)
    → (c ≡ a) ⊎ (status_is_valid c ≡ false)
status_trans a b c h (inr k) = inr k
status_trans a b c (inl e) (inl f) = inl (f ∙ e)
status_trans a b c (inr k) (inl f) = inr (ap status_is_valid f ∙ k)

pub Later-trans : (p q r : ChangeRequest) → Later p q → Later q r → Later p r
Later-trans p q r h k = record {
  same_new = k.same_new ∙ h.same_new;
  same_current = k.same_current ∙ h.same_current;
  same_type = k.same_type ∙ h.same_type;
  same_mode = k.same_mode ∙ h.same_mode;
  status_kept = status_trans p.status q.status r.status h.status_kept k.status_kept;
}

fail_first-Later :
    (s : UpdateRequestStatus) (r : ChangeRequest)
    → status_is_valid s ≡ false
    → Later r (fail_first s r)
fail_first-Later s r e = elim (Bool-cases (is_valid r)) [
  | inl v ↦
      subst (λ x. Later r x) (sym (ap (λ b. if b then record r { status = s } else r) v))
        (record {
          same_new = refl;
          same_current = refl;
          same_type = refl;
          same_mode = refl;
          status_kept = inr e;
        })
  | inr n ↦
      subst (λ x. Later r x) (sym (ap (λ b. if b then record r { status = s } else r) n))
        (Later-refl r)
]

told-Later : (r : ChangeRequest) (xs ys : List String) → Later r (report xs (note ys r))
told-Later r xs ys = record {
  same_new = refl;
  same_current = refl;
  same_type = refl;
  same_mode = refl;
  status_kept = inl refl;
}

reported-Later : (r : ChangeRequest) (xs : List String) → Later r (report xs r)
reported-Later r xs = record {
  same_new = refl;
  same_current = refl;
  same_type = refl;
  same_mode = refl;
  status_kept = inl refl;
}

noted-Later : (r : ChangeRequest) (ys : List String) → Later r (note ys r)
noted-Later r ys = record {
  same_new = refl;
  same_current = refl;
  same_type = refl;
  same_mode = refl;
  status_kept = inl refl;
}

pub if-Later :
    (r : ChangeRequest) (b : Bool) (x y : ChangeRequest)
    → Later r x
    → Later r y
    → Later r (if b then x else y)
if-Later r true x y h k = h
if-Later r false x y h k = k

settle-Later :
    (s : UpdateRequestStatus) (v : Verdict) (r : ChangeRequest)
    → status_is_valid s ≡ false
    → Later r (settle s v r)
settle-Later s v r e = if-Later r (verdict_is_valid v) _ _ (noted-Later r v.info_messages) (
    Later-trans r (report v.error_messages (note v.info_messages r)) _
      (told-Later r v.error_messages v.info_messages)
      (fail_first-Later s (report v.error_messages (note v.info_messages r)) e))

pub true-false : (b : Bool) → b ≡ true → b ≡ false → ⊥
true-false b e f = cc

module _ (W : World) where
  out_of_scope-Later :
      (text : String) (t : Option UpdateRequestType) (r : ChangeRequest)
      → Later r (out_of_scope W text t r)
  out_of_scope-Later text none r = Later-refl r
  out_of_scope-Later text (some create) r =
      Later-trans r (fail_first error_scopefilter r) _ (fail_first-Later error_scopefilter r refl)
        (reported-Later (fail_first error_scopefilter r) (text ∷ []))
  out_of_scope-Later text (some modify) r = noted-Later r (text ∷ [])
  out_of_scope-Later text (some delete) r = Later-refl r

  check_scopefilter-Later : (o : RpslObject) (r : ChangeRequest) → Later r (check_scopefilter W o r)
  unfolding check_scopefilter
  check_scopefilter-Later o r =
      if-Later r _ r _ (Later-refl r) (out_of_scope-Later _ r.request_type r)

  roa_conflicts-Later : (r : ChangeRequest) → Later r (roa_conflicts W r)
  roa_conflicts-Later r =
      Later-trans r (fail_first error_roa r) _ (fail_first-Later error_roa r refl) (record {
        same_new = refl;
        same_current = refl;
        same_type = refl;
        same_mode = refl;
        status_kept = inl refl;
      })

  roa_agrees-Later : (r : ChangeRequest) → Later r (roa_agrees W r)
  roa_agrees-Later r = record {
    same_new = refl;
    same_current = refl;
    same_type = refl;
    same_mode = refl;
    status_kept = inl refl;
  }

  check_conflicting_roa-Later :
      (o : RpslObject) (r : ChangeRequest) → OnSome (Later r) (check_conflicting_roa W o r)
  unfolding check_conflicting_roa
  check_conflicting_roa-Later o r =
      OnSome-if (Later r)
        (is_some r.cached_roa_validity
          || not W.rpki_aware
          || (not o.is_route || is_delete r.request_type))
        (some r) _ (λ skipped. Later-refl r)
        (λ checked.
          OnSome-if (Later r) (not (is_set o.asn_first)) none _ (λ failed. tt)
            (λ given.
              OnSome-if (Later r) (conflicts W (W.validate_route o)) (some (roa_conflicts W r))
                (some (roa_agrees W r)) (λ conflict. roa_conflicts-Later r)
                (λ clear. roa_agrees-Later r)))

  pub check_protected_names-Later :
      (o : RpslObject) (r : ChangeRequest) (v : ReferenceValidator)
      → Later r (check_protected_names W o r v)
  unfolding check_protected_names
  check_protected_names-Later o r v =
      if-Later r (is_create r.request_type) _ r
        (settle-Later error_protected_name (check_protected_name W o (override_of r.auth_result) v)
          r refl)
        (Later-refl r)

  abbrev pub First : ChangeRequest → ChangeRequest × ReferenceValidator → Type 0
  First r (r', v') = Later r r'

  if-First :
      (r : ChangeRequest) (b : Bool) (p q : ChangeRequest × ReferenceValidator)
      → First r p
      → First r q
      → First r (if b then p else q)
  if-First r true p q h k = h
  if-First r false p q h k = k

  pub check_references-Later :
      (o : RpslObject) (r : ChangeRequest) (v : ReferenceValidator)
      → Later r ((check_references W o r v).0)
  unfolding check_references
  check_references-Later o r v =
      if-First r r.non_strict_mode _ _ (Later-refl r) (settle-Later error_reference _ r refl)

  -- The last checks leave the reference validator alone.
  pub check_rest-Later :
      (o : RpslObject) (r : ChangeRequest) (v : ReferenceValidator)
      → OnSome
          (λ (r'', v'').
            Later ((check_references W o r v).0) r'' × (v'' ≡ (check_references W o r v).1))
          (check_rest W o r v)
  check_rest-Later o r v =
      let (r', v') = check_references W o r v in
      let named = check_protected_names W o r' v' in
      OnSome-chain (Later named) (λ (r'', v''). Later r' r'' × (v'' ≡ v'))
        (check_conflicting_roa W o named) _ (check_conflicting_roa-Later o named)
        (λ clear l. (
          Later-trans r' clear _
              (Later-trans r' named clear (check_protected_names-Later o r' v') l)
              (check_scopefilter-Later o clear),
          refl,
        ))

  pub check_rules-Later : (o : RpslObject) (r : ChangeRequest) → Later r (check_rules W o r)
  check_rules-Later o r = if-Later r _ _ _ (told-Later r _ _) (record {
    same_new = refl;
    same_current = refl;
    same_type = refl;
    same_mode = refl;
    status_kept = inr refl;
  })

  pub check_auth-Later :
      (approved : List String) (o : RpslObject) (r : ChangeRequest)
      → Later r (check_auth W approved o r)
  unfolding check_auth
  check_auth-Later approved o r =
      if-Later r _ _ _
        (record {
          same_new = refl;
          same_current = refl;
          same_type = refl;
          same_mode = refl;
          status_kept = inl refl;
        })
        (record {
          same_new = refl;
          same_current = refl;
          same_type = refl;
          same_mode = refl;
          status_kept = inr refl;
        })

  validate_clean-Later :
      (approved : List String) (o : RpslObject) (r : ChangeRequest) (v : ReferenceValidator)
      → OnSome (First r) (validate_clean W approved o r v)
  validate_clean-Later approved o r v =
      let ruled = check_rules W o r in
      let authorised = check_auth W approved o ruled in
      let auth : Later r authorised =
        Later-trans r ruled authorised (check_rules-Later o r)
          (check_auth-Later approved o ruled) in
      OnSome-if (First r) (not (verdict_is_valid (rules_of W o r.request_type))) _ _
        (λ refused. check_rules-Later o r)
        (λ ruled_ok.
          OnSome-if (First r)
            (not (verdict_is_valid (W.process_auth approved o ruled.rpsl_obj_current).verdict)) _ _
            (λ refused. auth)
            (λ auth_ok.
              OnSome-mono _ (First r) (check_rest W o authorised v)
                (check_rest-Later o authorised v)
                (λ (r'', v'') (l, kept). Later-trans r authorised r'' auth (
                  Later-trans authorised ((check_references W o authorised v).0) r''
                    (check_references-Later o authorised v) l))))

  pub validate_cleaning-Later :
      (c : Option (List String)) (approved : List String) (o : RpslObject) (r : ChangeRequest)
      (v : ReferenceValidator)
      → OnSome (First r) (validate_cleaning W c approved o r v)
  validate_cleaning-Later none approved o r v = validate_clean-Later approved o r v
  validate_cleaning-Later (some errors) approved o r v = record {
    same_new = refl;
    same_current = refl;
    same_type = refl;
    same_mode = refl;
    status_kept = inr refl;
  }

  validate_new-Later :
      (new : Option RpslObject) (approved : List String) (r : ChangeRequest)
      (v : ReferenceValidator)
      → OnSome (First r) (validate_new W new approved r v)
  validate_new-Later none approved r v = Later-refl r
  validate_new-Later (some o) approved r v =
      validate_cleaning-Later (cleaning W o r.request_type) approved o r v

  pub validate-Later :
      (approved : List String) (r : ChangeRequest) (v : ReferenceValidator)
      → OnSome (First r) (validate W approved r v)
  unfolding validate
  validate-Later approved r v = validate_new-Later r.rpsl_obj_new approved r v

  pub Later-valid : (r r' : ChangeRequest) → Later r r' → is_valid r' ≡ true → is_valid r ≡ true
  Later-valid r r' l e = elim l.status_kept [
    | inl same ↦ sym (ap status_is_valid same) ∙ e
    | inr bad ↦ absurd (true-false (is_valid r') e bad)
  ]

  pub step-Later :
      (approved : List String) (r : ChangeRequest) (v : ReferenceValidator)
      → OnSome (First r) (validate_if_valid W approved r v)
  step-Later approved r v =
      OnSome-if (First r) (is_valid r) _ _ (λ ok. validate-Later approved r v) (λ bad. Later-refl r)
