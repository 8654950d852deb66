-- ===== src/Updates/Processing.antt =====
-- irrd/updates/parser.py: a change request that is valid has an object and is being processed.
use irrd.Base.{
  ℕ, zero, suc, String, Bool, true, false, not, ◌&&◌, ◌||◌, ◌≡◌, refl, sym, ap, ◌∙◌, subst, Option,
  none, some, List, [], ◌∷◌, is_nil, is_some, contains, string_eq, if◌then◌else◌, ◌==◌, inl, inr,
  In, nat_eq, list_eq,
}
use irrd.Text.{lower}
use irrd.Updates.{
  RpslObject, World, UpdateRequestType, processing, create, modify, delete, error_parsing,
}
use irrd.Updates.References.{ReferenceValidator}
use irrd.Updates.Request.{
  ChangeRequest, is_valid, status_is_valid, is_delete, Intake, change_request, parsed, admit, start,
  unknown, reject, check_deletion, with_versions, type_or, parsed_again, parsed_first,
  check_deletion_of,
}
use irrd.Updates.Handler.{
  valid_positions, validate_valid, one_pass, validity_loop, valid_potential_new_mntners, preload,
  request_before, change_requests, validate_if_valid,
}
use irrd.Updates.Partial.{chain, chain-some, OnSome, OnSome-some, OnSome-chain}
use irrd.Updates.Later.{First, Later, step-Later, true-false}
use irrd.Updates.Settled.{choice, none_is_some, some_same}

-- A request that is valid is being processed, and has its object.
abbrev pub Processing : ChangeRequest → Type 0
Processing r =
    is_valid r ≡ true → (r.status ≡ processing) × (o : RpslObject) × (r.rpsl_obj_new ≡ some o)

Later-Processing : (r r' : ChangeRequest) → Later r r' → Processing r → Processing r'
Later-Processing r r' l p ok = elim l.status_kept [
  | inl same ↦
      let (s, o, e) = p (sym (ap status_is_valid same) ∙ ok) in (same ∙ s, o, l.same_new ∙ e)
  | inr bad ↦ absurd (true-false (is_valid r') ok bad)
]

-- A result that is a request is one that `P` holds of.
abbrev Given : Option ChangeRequest → Type 0
Given o = (r : ChangeRequest) → o ≡ some r → Processing r

just-Given : (r : ChangeRequest) → Processing r → Given (some r)
just-Given r p q e = subst Processing (some_same r q e) p

if-Given :
    (b : Bool) (o o' : Option ChangeRequest) → Given o → Given o' → Given (if b then o else o')
if-Given true o o' h k = h
if-Given false o o' h k = k

if-Processing :
    (b : Bool) (r r' : ChangeRequest)
    → Processing r
    → Processing r'
    → Processing (if b then r else r')
if-Processing true r r' h k = h
if-Processing false r r' h k = k

fresh_status :
    (b : Bool)
    → status_is_valid (if b then processing else error_parsing) ≡ true
    → (if b then processing else error_parsing) ≡ processing
fresh_status true e = refl
fresh_status false e = cc

invalid-Processing : (r : ChangeRequest) → is_valid r ≡ false → Processing r
invalid-Processing r bad ok = absurd (true-false (is_valid r) ok bad)

module _ (I : Intake) where
  start-Processing :
      (t : Option UpdateRequestType) (b : Bool) (o : RpslObject) → Processing (start I t b o)
  start-Processing t b o ok = (fresh_status (is_nil o.errors) ok, o, refl)

  parsed_again-Processing :
      (n : Option RpslObject) (t : Option UpdateRequestType) (b : Bool) (text : String)
      → Processing (parsed_again I n t b text)
  parsed_again-Processing none t b text = invalid-Processing (unknown I b text) refl
  parsed_again-Processing (some o) t b text = start-Processing t b o

  parsed_first-Processing :
      (n : Option RpslObject) (t : Option UpdateRequestType) (text : String)
      → Processing (parsed_first I n t text)
  parsed_first-Processing none t text = invalid-Processing (unknown I false text) refl
  parsed_first-Processing (some o) t text =
      let b = I.non_strict o.source in
      if-Processing (b || is_delete t) _ _ (parsed_again-Processing (I.parse text false) t b text)
        (start-Processing t b o)

  check_deletion-Processing : (r : ChangeRequest) → Processing r → Processing (check_deletion I r)
  check_deletion-Processing r p =
      if-Processing (is_delete r.request_type && not (is_some r.rpsl_obj_current))
        (reject I error_parsing
          "Can not delete object: no object found for this key in this database." r)
        r (λ ok. cc) p

  check_deletion_of-Given : (o : Option ChangeRequest) → Given o → Given (check_deletion_of I o)
  check_deletion_of-Given none g = λ q e. absurd (none_is_some e)
  check_deletion_of-Given (some r) g =
      just-Given (check_deletion I r) (check_deletion-Processing r (g r refl))

  with_versions-Given :
      (rows : List RpslObject) (r : ChangeRequest) → Processing r → Given (with_versions I rows r)
  with_versions-Given [] r p =
      just-Given (record r { request_type = type_or I create r.request_type }) p
  with_versions-Given (c ∷ []) r p =
      just-Given
        (record r { request_type = type_or I modify r.request_type; rpsl_obj_current = some c }) p
  with_versions-Given (c ∷ d ∷ rows) r p = λ q e. absurd (none_is_some e)

  admit-Given : (n : Option RpslObject) (r : ChangeRequest) → Processing r → Given (admit I n r)
  admit-Given none r p = just-Given (check_deletion I r) (check_deletion-Processing r p)
  admit-Given (some o) r p =
      if-Given (not (is_valid r)) _ _
        (just-Given (check_deletion I r) (check_deletion-Processing r p))
        (if-Given (not (I.authoritative o.source)) _ _ (just-Given _ (λ ok. cc)) (
          if-Given
            (not (is_nil (I.object_class_filter o.source))
              && not (contains (I.object_class_filter o.source) (lower o.rpsl_object_class)))
            _ _ (just-Given _ (λ ok. cc))
            (check_deletion_of-Given (with_versions I (I.current_versions o) r)
              (with_versions-Given (I.current_versions o) r p))))

  change_request-Given :
      (text : String) (delete_reason : Bool) → Given (change_request I text delete_reason)
  unfolding change_request
  change_request-Given text delete_reason =
      let t = if delete_reason then some delete else none in
      let r = parsed I t text in
      admit-Given r.rpsl_obj_new r (parsed_first-Processing (I.parse text true) t text)

-- All of the requests
abbrev pub AllProcessing : List ChangeRequest → Type 0
AllProcessing requests = (r : ChangeRequest) → In r requests → Processing r

request_before-AllProcessing :
    (o : Option ChangeRequest) (os : Option (List ChangeRequest)) (requests : List ChangeRequest)
    → request_before o os ≡ some requests
    → Given o
    → ((rest : List ChangeRequest) → os ≡ some rest → AllProcessing rest)
    → AllProcessing requests
request_before-AllProcessing none none requests e h k = absurd (none_is_some e)
request_before-AllProcessing none (some rest) requests e h k = absurd (none_is_some e)
request_before-AllProcessing (some r) none requests e h k = absurd (none_is_some e)
request_before-AllProcessing (some r) (some rest) requests e h k =
    subst AllProcessing (some_same (r ∷ rest) requests e) (λ q m. elim m [
      | inl same ↦ subst Processing same (h r refl)
      | inr later ↦ k rest refl q later
    ])

pub change_requests-AllProcessing :
    (I : Intake) (objects : List (String × Bool)) (requests : List ChangeRequest)
    → change_requests I objects ≡ some requests
    → AllProcessing requests
unfolding change_requests
change_requests-AllProcessing I [] requests e =
    subst AllProcessing (some_same [] requests e) (λ q m. absurd m)
change_requests-AllProcessing I ((text, reason) ∷ objects) requests e =
    request_before-AllProcessing (change_request I text reason) (change_requests I objects) requests
      e (change_request-Given I text reason) (change_requests-AllProcessing I objects)

module _ (W : World) where
  validate_valid-AllProcessing :
      (approved : List String) (requests : List ChangeRequest) (v : ReferenceValidator)
      → AllProcessing requests
      → OnSome (λ (requests', v'). AllProcessing requests') (validate_valid W approved requests v)
  validate_valid-AllProcessing approved [] v p = p
  validate_valid-AllProcessing approved (r ∷ requests) v p =
      let P : List ChangeRequest × ReferenceValidator → Type 0 =
        (λ (requests', v'). AllProcessing requests') in
      OnSome-chain (First W r) P (validate_if_valid W approved r v) _ (step-Later W approved r v)
        (λ (r', v') l.
          OnSome-chain P P (validate_valid W approved requests v') _
            (validate_valid-AllProcessing approved requests v' (λ x n. p x (inr n)))
            (λ (requests', v'') rest q m. elim m [
              | inl same ↦ subst Processing same (Later-Processing r r' l (p r (inl refl)))
              | inr later ↦ rest q later
            ]))

  pub loop-AllProcessing :
      (left : ℕ) (previous : List ℕ) (requests settled : List ChangeRequest)
      (v : ReferenceValidator)
      → AllProcessing requests
      → validity_loop W left previous requests v ≡ some settled
      → AllProcessing settled
  unfolding validity_loop one_pass
  loop-AllProcessing zero previous requests settled v p e =
      choice AllProcessing (valid_positions 0 requests == previous) requests settled none e (λ _. p)
        (λ other f. absurd (none_is_some f))
  loop-AllProcessing (suc left) previous requests settled v p e =
      let valid = valid_positions 0 requests in
      choice AllProcessing (valid == previous) requests settled
        (chain (one_pass W requests v) (λ (rs, w). validity_loop W left valid rs w)) e (λ _. p)
        (λ other f.
          let ((requests', v'), ran, g) = chain-some (one_pass W requests v) _ settled f in
          loop-AllProcessing left valid requests' settled v'
            (OnSome-some (λ (rs, w). AllProcessing rs) _ (requests', v')
              (validate_valid-AllProcessing (valid_potential_new_mntners requests) requests
                (preload requests v) p)
              ran)
            g)
