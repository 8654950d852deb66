-- ===== src/Updates/Saved.antt =====
-- irrd/updates/handler.py: a submission is handled to its end, and what it saved refers to objects that exist.
use irrd.Base.{
  ◌+◌, String, Bool, true, false, ◌≡◌, refl, sym, ap, ◌∙◌, subst, Option, none, some, List, [], ◌∷◌,
  ◌++◌, length, string_eq, if◌then◌else◌, Bool-cases, ◌==◌, inl, inr, In, nat_eq, list_eq,
}
use irrd.Updates.{RpslObject, ObjectKey, Row, World, saved}
use irrd.Updates.References.{new_validator}
use irrd.Updates.Request.{
  ChangeRequest, is_valid, is_delete, is_processing, Intake, SaveCall, save, save_new, save_object,
  saved_by, delete_rpsl_object, upsert_rpsl_object,
}
use irrd.Updates.Handler.{
  validity_loop, new_key, deleted_key, save_one, save_valid, save_in_order, save_settled,
  handle_change_requests, change_requests,
}
use irrd.Updates.Later.{true-false}
use irrd.Updates.Resolved.{Preloaded}
use irrd.Updates.Told.{Checked}
use irrd.Updates.Settled.{keys_of, keys_eq, handled-Settled, none_is_some, some_same}
use irrd.Updates.Processing.{
  Processing, AllProcessing, change_requests-AllProcessing, loop-AllProcessing,
}

-- What saving makes of a request
record SavedFrom (r r' : ChangeRequest) : Type 0 where
  same_validity : is_valid r' ≡ is_valid r
  same_new : r'.rpsl_obj_new ≡ r.rpsl_obj_new
  same_type : r'.request_type ≡ r.request_type
  same_mode : r'.non_strict_mode ≡ r.non_strict_mode
  is_saved : is_valid r ≡ true → r'.status ≡ saved

saved_status : (r : ChangeRequest) → is_valid r ≡ true → SavedFrom r (record r { status = saved })
saved_status r ok = record {
  same_validity = sym ok;
  same_new = refl;
  same_type = refl;
  same_mode = refl;
  is_saved = λ e. refl;
}

left_alone : (r : ChangeRequest) → is_valid r ≡ false → SavedFrom r r
left_alone r bad = record {
  same_validity = refl;
  same_new = refl;
  same_type = refl;
  same_mode = refl;
  is_saved = λ ok. absurd (true-false (is_valid r) ok bad);
}

Ends : ChangeRequest → List SaveCall × ChangeRequest → Type 0
Ends r (calls, r') = SavedFrom r r'

if-Ends :
    (r : ChangeRequest) (b : Bool) (p q : List SaveCall × ChangeRequest)
    → Ends r p
    → Ends r q
    → Ends r (if b then p else q)
if-Ends r true p q h k = h
if-Ends r false p q h k = k

save_object-Ends :
    (current : Option RpslObject) (o : RpslObject) (r : ChangeRequest)
    → is_valid r ≡ true
    → Ends r (save_object current o r)
unfolding Ends
save_object-Ends none o r ok = saved_status r ok
save_object-Ends (some c) o r ok =
    if-Ends r (is_delete r.request_type) (saved_by (delete_rpsl_object c) o r) _ (saved_status r ok)
      (if-Ends r (o.text == c.text) _ (saved_by (upsert_rpsl_object o) o r)
        (record {
          same_validity = sym ok;
          same_new = refl;
          same_type = refl;
          same_mode = refl;
          is_saved = λ e. refl;
        })
        (saved_status r ok))

-- Saving one request has a result.
save_one-Ends :
    (r : ChangeRequest)
    → Processing r
    → (out : List SaveCall × ChangeRequest) × (save_one r ≡ some out) × Ends r out
unfolding Ends save
save_one-Ends r p = elim (Bool-cases (is_valid r)) [
  | inl ok ↦
      let (status, o, new) = p ok in
      (
        save_object r.rpsl_obj_current o r,
        ap (λ b. if b then save_new r.rpsl_obj_new r else some ([], r)) ok
            ∙ ap (λ n. save_new n r) new
            ∙ ap (λ b. if b then some (save_object r.rpsl_obj_current o r) else none)
                (ap is_processing status),
        save_object-Ends r.rpsl_obj_current o r ok,
      )
  | inr bad ↦ (([], r), ap (λ b. if b then save r else some ([], r)) bad, left_alone r bad)
]

-- The keys that are new do not change with a request that is saved.
keys_cong :
    (b b' : Bool) (here here' rest rest' : List ObjectKey)
    → b' ≡ b
    → here' ≡ here
    → rest' ≡ rest
    → (if b' then here' ++ rest' else rest') ≡ (if b then here ++ rest else rest)
keys_cong b b' here here' rest rest' e f g = cc

-- What saving a list of requests ends with
record AllSaved (requests results : List ChangeRequest) : Type 0 where
  same_keys : keys_of results ≡ keys_of requests
  each_from :
      (r' : ChangeRequest) → In r' results → (r : ChangeRequest) × In r requests × SavedFrom r r'

AllSaved-cons :
    (r r' : ChangeRequest) (requests results : List ChangeRequest)
    → SavedFrom r r'
    → AllSaved requests results
    → AllSaved (r ∷ requests) (r' ∷ results)
AllSaved-cons r r' requests results one all = record {
  same_keys =
      keys_eq _ _
        (keys_cong (is_valid r) (is_valid r') _ _ _ _ one.same_validity
          (ap (λ n. new_key n r'.request_type) one.same_new
            ∙ ap (λ t. new_key r.rpsl_obj_new t) one.same_type)
          (ap (λ keys. keys.new) all.same_keys))
        (keys_cong (is_valid r) (is_valid r') _ _ _ _ one.same_validity
          (ap (λ n. deleted_key n r'.request_type) one.same_new
            ∙ ap (λ t. deleted_key r.rpsl_obj_new t) one.same_type)
          (ap (λ keys. keys.deleted) all.same_keys));
  each_from = λ q m. elim m [
    | inl same ↦ (r, inl refl, subst (SavedFrom r) same one)
    | inr later ↦ let (p, n, from) = all.each_from q later in (p, inr n, from)
  ];
}

save_valid-AllSaved :
    (requests : List ChangeRequest)
    → AllProcessing requests
    → (calls : List SaveCall) × (results : List ChangeRequest) × (save_valid requests
        ≡ some (calls, results))
      × AllSaved requests results
unfolding Ends
save_valid-AllSaved [] p = ([], [], refl, record { same_keys = refl; each_from = λ q m. absurd m })
save_valid-AllSaved (r ∷ requests) p =
    let ((calls, r'), e, one) = save_one-Ends r (p r (inl refl)) in
    let (more, results, f, all) = save_valid-AllSaved requests (λ q m. p q (inr m)) in
    (
      calls ++ more,
      r' ∷ results,
      ap (λ x. save_in_order x (save_valid requests)) e
          ∙ ap (λ y. save_in_order (some (calls, r')) y) f,
      AllSaved-cons r r' requests results one all,
    )

settled_before :
    (o : Option (List ChangeRequest)) (out : List SaveCall × List ChangeRequest)
    → save_settled o ≡ some out
    → (settled : List ChangeRequest) × (o ≡ some settled) × (save_valid settled ≡ some out)
settled_before none out e = absurd (none_is_some e)
settled_before (some settled) out e = (settled, refl, e)

module _ (W : World) where
  loop_of : List ChangeRequest → Option (List ChangeRequest)
  loop_of requests = validity_loop W (length requests + 10) [] requests new_validator

  -- What the loop ends with is saved.
  settled-AllSaved :
      (I : Intake) (objects : List (String × Bool)) (requests settled : List ChangeRequest)
      → change_requests I objects ≡ some requests
      → loop_of requests ≡ some settled
      → (calls : List SaveCall) × (results : List ChangeRequest) × (save_valid settled
          ≡ some (calls, results))
        × AllSaved settled results
  unfolding loop_of
  settled-AllSaved I objects requests settled made e = save_valid-AllSaved settled (
      loop-AllProcessing W (length requests + 10) [] requests settled new_validator
        (change_requests-AllProcessing I objects requests made) e)

  -- A submission that is handled was settled, and its results are what was saved.
  results-AllSaved :
      (I : Intake) (objects : List (String × Bool)) (requests results : List ChangeRequest)
      (calls : List SaveCall)
      → change_requests I objects ≡ some requests
      → handle_change_requests W requests ≡ some (calls, results)
      → (settled : List ChangeRequest) × (loop_of requests ≡ some settled)
        × AllSaved settled results
  unfolding handle_change_requests loop_of
  results-AllSaved I objects requests results calls made e =
      let (settled, ran, f) = settled_before (loop_of requests) (calls, results) e in
      let (calls', results', g, all) = settled-AllSaved I objects requests settled made ran in
      (
        settled,
        ran,
        subst (AllSaved settled)
            (ap (λ out. out.1) (some_same (calls', results') (calls, results) (sym g ∙ f))) all,
      )

  module _
      (answers : (source : String) (classes : List String) (pk : String) (row : Row)
        → In row (W.find_objects source classes pk)
        → In row.object_class classes) where
    saved-Checked :
        (keys : Preloaded) (r r' : ChangeRequest)
        → SavedFrom r r'
        → Checked W answers keys r
        → Checked W answers keys r'
    saved-Checked keys r r' from checked o e strict kept =
        checked o (sym from.same_new ∙ e) (sym from.same_mode ∙ strict)
          (ap is_delete (sym from.same_type) ∙ kept)

    -- What a submission saved refers to objects that exist: given that the query of the reference validator answers with rows of the classes asked for, a request that is valid in the end, no deletion and not in the mode that is not strict, has each key of its strong references, under a class that the field may refer to, either in the database and not deleted by a valid request, or among the keys that the valid requests create or modify.
    pub handle_change_requests-Checked :
        (I : Intake) (objects : List (String × Bool)) (requests results : List ChangeRequest)
        (calls : List SaveCall)
        → change_requests I objects ≡ some requests
        → handle_change_requests W requests ≡ some (calls, results)
        → (r : ChangeRequest) → In r results
        → is_valid r ≡ true
        → Checked W answers (keys_of results) r
    unfolding loop_of
    handle_change_requests-Checked I objects requests results calls made e r m ok =
        let (settled, ran, all) = results-AllSaved I objects requests results calls made e in
        let (q, n, from) = all.each_from r m in
        let checked : Checked W answers (keys_of settled) q =
          handled-Settled W answers (length requests + 10) requests settled ran q n
            (sym from.same_validity ∙ ok) in
        subst (λ keys. Checked W answers keys r) (sym all.same_keys)
          (saved-Checked (keys_of settled) q r from checked)
