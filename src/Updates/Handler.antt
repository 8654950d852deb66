-- ===== src/Updates/Handler.antt =====
-- irrd/updates/handler.py: `ChangeSubmissionHandler._handle_change_requests`, with the preloading of the validators.
use irrd.Base.{
  ℕ, zero, suc, ◌+◌, String, Bool, true, false, Option, none, some, List, [], ◌∷◌, ◌++◌, length,
  ◌==◌, nat_eq, list_eq, string_eq, if◌then◌else◌, all,
}
use irrd.Updates.{
  UpdateRequestType, create, modify, delete, UpdateRequestStatus, saved, RpslObject, ObjectKey,
  key_eq, key_of, World,
}
use irrd.Updates.Partial.{chain}
use irrd.Updates.References.{ReferenceValidator, new_validator}
use irrd.Updates.Request.{ChangeRequest, is_valid, validate, SaveCall, save, Intake, change_request}

-- `[r for r in change_requests if r.is_valid()]` by the positions of the requests
abbrev pub valid_positions : ℕ → List ChangeRequest → List ℕ
valid_positions n [] = []
valid_positions n (r ∷ requests) =
    let rest = valid_positions (suc n) requests in if is_valid r then n ∷ rest else rest

-- The sets of `preload`: what one request adds, and all valid requests
abbrev pub new_key : Option RpslObject → Option UpdateRequestType → List ObjectKey
new_key (some o) (some create) = key_of o ∷ []
new_key (some o) (some modify) = key_of o ∷ []
new_key _ _ = []

abbrev pub deleted_key : Option RpslObject → Option UpdateRequestType → List ObjectKey
deleted_key (some o) (some delete) = key_of o ∷ []
deleted_key _ _ = []

abbrev pub collect : (ChangeRequest → List ObjectKey) → List ChangeRequest → List ObjectKey
collect f [] = []
collect f (r ∷ requests) = let rest = collect f requests in if is_valid r then f r ++ rest else rest

abbrev pub new_keys : List ChangeRequest → List ObjectKey
new_keys = collect (λ r. new_key r.rpsl_obj_new r.request_type)

abbrev pub deleted_keys : List ChangeRequest → List ObjectKey
deleted_keys = collect (λ r. deleted_key r.rpsl_obj_new r.request_type)

unfoldable pub preload : List ChangeRequest → ReferenceValidator → ReferenceValidator
preload requests v = record v {
  preloaded_new = new_keys requests;
  preloaded_deleted = deleted_keys requests;
}

-- `valid_potential_new_mntners`, by their keys, which `pre_approve` keeps
abbrev pub new_mntner : Option RpslObject → Option UpdateRequestType → List String
new_mntner (some o) (some create) = if o.is_mntner then o.pk ∷ [] else []
new_mntner _ _ = []

abbrev pub valid_potential_new_mntners : List ChangeRequest → List String
valid_potential_new_mntners [] = []
valid_potential_new_mntners (r ∷ requests) =
    let rest = valid_potential_new_mntners requests in
    if is_valid r then new_mntner r.rpsl_obj_new r.request_type ++ rest else rest

abbrev pub save_one : ChangeRequest → Option (List SaveCall × ChangeRequest)
save_one r = if is_valid r then save r else some ([], r)

abbrev pub save_in_order :
    Option (List SaveCall × ChangeRequest)
    → Option (List SaveCall × List ChangeRequest)
    → Option (List SaveCall × List ChangeRequest)
save_in_order (some (calls, r)) (some (more, requests)) = some (calls ++ more, r ∷ requests)
save_in_order _ _ = none

abbrev pub save_valid : List ChangeRequest → Option (List SaveCall × List ChangeRequest)
save_valid [] = some ([], [])
save_valid (r ∷ requests) = save_in_order (save_one r) (save_valid requests)

abbrev pub save_settled : Option (List ChangeRequest) → Option (List SaveCall × List ChangeRequest)
save_settled none = none
save_settled (some settled) = save_valid settled

module _ (W : World) where
  abbrev pub validate_if_valid :
      List String → ChangeRequest → ReferenceValidator → Option (ChangeRequest × ReferenceValidator)
  validate_if_valid approved r v = if is_valid r then validate W approved r v else some (r, v)

  -- The validation of the requests that were valid; one request does not change another. An exception ends it.
  abbrev pub validate_valid :
      List String
      → List ChangeRequest
      → ReferenceValidator
      → Option (List ChangeRequest × ReferenceValidator)
  validate_valid approved [] v = some ([], v)
  validate_valid approved (r ∷ requests) v = chain (validate_if_valid approved r v) (λ (r', v').
      chain (validate_valid approved requests v') (λ (requests', v''). some (r' ∷ requests', v'')))

  unfoldable pub one_pass :
      List ChangeRequest → ReferenceValidator → Option (List ChangeRequest × ReferenceValidator)
  one_pass requests v =
      validate_valid (valid_potential_new_mntners requests) requests (preload requests v)

  -- The loop with what is left of `loop_max`; `none` is the `ValueError` of an excessive number of loops, or an exception of a
  -- validation.
  unfoldable pub validity_loop :
      ℕ → List ℕ → List ChangeRequest → ReferenceValidator → Option (List ChangeRequest)
  validity_loop zero previous requests v =
      if valid_positions 0 requests == previous then some requests else none
  validity_loop (suc left) previous requests v =
      let valid = valid_positions 0 requests in
      let rest =
        chain (one_pass requests v) (λ (requests', v'). validity_loop left valid requests' v') in
      if valid == previous then some requests else rest

  unfoldable pub handle_change_requests :
      List ChangeRequest → Option (List SaveCall × List ChangeRequest)
  handle_change_requests requests =
      save_settled (validity_loop (length requests + 10) [] requests new_validator)

abbrev pub request_before :
    Option ChangeRequest → Option (List ChangeRequest) → Option (List ChangeRequest)
request_before (some r) (some requests) = some (r ∷ requests)
request_before _ _ = none

-- The requests of a submission, each a text and whether it is to be deleted; `none` is the exception of one of them.
unfoldable pub change_requests : Intake → List (String × Bool) → Option (List ChangeRequest)
change_requests I [] = some []
change_requests I ((text, delete_reason) ∷ objects) =
    request_before (change_request I text delete_reason) (change_requests I objects)

abbrev pub is_saved : UpdateRequestStatus → Bool
is_saved saved = true
is_saved _ = false

unfoldable pub submission_status : List ChangeRequest → String
submission_status results = if all (λ r. is_saved r.status) results then "SUCCESS" else "FAILED"
