-- ===== src/Updates/Request.antt =====
-- irrd/updates/parser.py: `ChangeRequest`.
use irrd.Base.{
  String, Bool, true, false, not, ◌&&◌, ◌||◌, Option, none, some, List, [], ◌∷◌, ◌++◌, is_nil,
  is_some, contains, ◌==◌, string_eq, if◌then◌else◌,
}
use irrd.Text.{lower}
use irrd.Rpki.{RpkiStatus, invalid}
use irrd.ScopeFilter.{is_visible as is_in_scope}
use irrd.Updates.{
  UpdateRequestType, create, modify, delete, UpdateRequestStatus, saved, processing,
  error_unknown_class, error_parsing, error_auth, error_rules, error_reference,
  error_protected_name, error_roa, error_scopefilter, error_non_authoritive, error_object_filter,
  RpslObject, Verdict, verdict_is_valid, AuthResult, World, concat,
}
use irrd.NrtmOperation.{is_set}
use irrd.Updates.Partial.{chain}
use irrd.Updates.References.{
  ReferenceValidator, check_references_to_others, check_references_from_others_for_deletion,
  check_protected_name,
}

pub record ChangeRequest : Type 0 where
  pub rpsl_obj_new : Option RpslObject
  pub rpsl_obj_current : Option RpslObject
  pub status : UpdateRequestStatus
  pub request_type : Option UpdateRequestType
  pub error_messages : List String
  pub info_messages : List String
  pub auth_result : Option AuthResult
  pub cached_roa_validity : Option Bool
  pub non_strict_mode : Bool

abbrev pub status_is_valid : UpdateRequestStatus → Bool
status_is_valid saved = true
status_is_valid processing = true
status_is_valid _ = false

abbrev pub is_valid : ChangeRequest → Bool
is_valid r = status_is_valid r.status

abbrev pub is_delete : Option UpdateRequestType → Bool
is_delete (some delete) = true
is_delete _ = false

abbrev pub is_create : Option UpdateRequestType → Bool
is_create (some create) = true
is_create _ = false

-- What the constructor asks of other code: the parser (`none` for an unknown class, with its message), the settings,
-- and the query for the current version, whose rows are parsed again
pub record Intake : Type 0 where
  pub parse : String → Bool → Option RpslObject
  pub unknown_class : String → String
  pub non_strict : String → Bool
  pub authoritative : String → Bool
  pub object_class_filter : String → List String
  pub current_versions : RpslObject → List RpslObject

module _ (I : Intake) where
  abbrev pub start : Option UpdateRequestType → Bool → RpslObject → ChangeRequest
  start request_type non_strict o = record {
    rpsl_obj_new = some o;
    rpsl_obj_current = none;
    status = if is_nil o.errors then processing else error_parsing;
    request_type = request_type;
    error_messages = o.errors;
    info_messages = o.infos;
    auth_result = none;
    cached_roa_validity = none;
    non_strict_mode = non_strict;
  }

  abbrev pub unknown : Bool → String → ChangeRequest
  unknown non_strict text = record {
    rpsl_obj_new = none;
    rpsl_obj_current = none;
    status = error_unknown_class;
    request_type = none;
    error_messages = I.unknown_class text ∷ [];
    info_messages = [];
    auth_result = none;
    cached_roa_validity = none;
    non_strict_mode = non_strict;
  }

  -- The second parse, which a deletion or the setting calls for, is not strict.
  abbrev pub parsed_again :
      Option RpslObject → Option UpdateRequestType → Bool → String → ChangeRequest
  parsed_again none request_type non_strict text = unknown non_strict text
  parsed_again (some o) request_type non_strict text = start request_type non_strict o

  abbrev pub parsed_first : Option RpslObject → Option UpdateRequestType → String → ChangeRequest
  parsed_first none request_type text = unknown false text
  parsed_first (some o) request_type text =
      let non_strict = I.non_strict o.source in
      if non_strict || is_delete request_type
      then parsed_again (I.parse text false) request_type non_strict text
      else start request_type non_strict o

  abbrev pub parsed : Option UpdateRequestType → String → ChangeRequest
  parsed request_type text = parsed_first (I.parse text true) request_type text

  abbrev pub reject : UpdateRequestStatus → String → ChangeRequest → ChangeRequest
  reject status message r = record r {
    status = status;
    error_messages = r.error_messages ++ message ∷ [];
  }

  abbrev pub type_or : UpdateRequestType → Option UpdateRequestType → Option UpdateRequestType
  type_or t none = some t
  type_or t (some s) = some s

  -- `none` is the `ValueError` of more than one row.
  abbrev pub with_versions : List RpslObject → ChangeRequest → Option ChangeRequest
  with_versions [] r = some (record r { request_type = type_or create r.request_type })
  with_versions (current ∷ []) r =
      some
        (record r { request_type = type_or modify r.request_type; rpsl_obj_current = some current })
  with_versions (_ ∷ _ ∷ _) r = none

  abbrev pub retrieve_existing_version : RpslObject → ChangeRequest → Option ChangeRequest
  retrieve_existing_version o r = with_versions (I.current_versions o) r

  -- A deletion needs a current version.
  abbrev pub check_deletion : ChangeRequest → ChangeRequest
  check_deletion r =
      if is_delete r.request_type && not (is_some r.rpsl_obj_current)
      then reject error_parsing
          "Can not delete object: no object found for this key in this database." r
      else r

  abbrev pub check_deletion_of : Option ChangeRequest → Option ChangeRequest
  check_deletion_of none = none
  check_deletion_of (some r) = some (check_deletion r)

  abbrev pub admit : Option RpslObject → ChangeRequest → Option ChangeRequest
  admit none r = some (check_deletion r)
  admit (some o) r =
      if not (is_valid r)
      then some (check_deletion r)
      else if not (I.authoritative o.source)
      then some (
          reject error_non_authoritive
            (concat ("This instance is not authoritative for source " ∷ o.source ∷ [])) r)
      else if not (is_nil (I.object_class_filter o.source))
          && not (contains (I.object_class_filter o.source) (lower o.rpsl_object_class))
      then some (
          reject error_object_filter
            (concat (
              "Can not make changes to "
              ∷ lower o.rpsl_object_class
              ∷ " objects in this database"
              ∷ []))
            r)
      else check_deletion_of (retrieve_existing_version o r)

  unfoldable pub change_request : String → Bool → Option ChangeRequest
  change_request text delete_reason =
      let r = parsed (if delete_reason then some delete else none) text in admit r.rpsl_obj_new r

-- The status is that of the first check that fails.
abbrev pub fail_first : UpdateRequestStatus → ChangeRequest → ChangeRequest
fail_first status r = if is_valid r then record r { status = status } else r

abbrev pub note : List String → ChangeRequest → ChangeRequest
note infos r = record r { info_messages = r.info_messages ++ infos }

abbrev pub report : List String → ChangeRequest → ChangeRequest
report errors r = record r { error_messages = r.error_messages ++ errors }

abbrev pub settle : UpdateRequestStatus → Verdict → ChangeRequest → ChangeRequest
settle status v r =
    let noted = note v.info_messages r in
    if verdict_is_valid v then noted else fail_first status (report v.error_messages noted)

abbrev pub override_of : Option AuthResult → Bool
override_of none = false
override_of (some a) = a.used_override

module _ (W : World) where
  abbrev pub references_of :
      RpslObject
      → Option RpslObject
      → Option UpdateRequestType
      → Bool
      → ReferenceValidator
      → Verdict × ReferenceValidator
  references_of o (some current) (some delete) override v =
      (check_references_from_others_for_deletion W current override v, v)
  references_of o current request_type override v = check_references_to_others W o v

  unfoldable pub check_references :
      RpslObject → ChangeRequest → ReferenceValidator → ChangeRequest × ReferenceValidator
  check_references o r v =
      let (verdict, v') =
        references_of o r.rpsl_obj_current r.request_type (override_of r.auth_result) v in
      if r.non_strict_mode then (r, v) else (settle error_reference verdict r, v')

  unfoldable pub check_protected_names :
      RpslObject → ChangeRequest → ReferenceValidator → ChangeRequest
  check_protected_names o r v =
      if is_create r.request_type
      then settle error_protected_name (check_protected_name W o (override_of r.auth_result) v) r
      else r

  abbrev pub conflicts : RpkiStatus → Bool
  conflicts invalid = true
  conflicts _ = false

  abbrev pub roa_conflicts : ChangeRequest → ChangeRequest
  roa_conflicts r = record (report (W.roa_message ∷ []) (fail_first error_roa r)) {
    cached_roa_validity = some false;
  }

  abbrev pub roa_agrees : ChangeRequest → ChangeRequest
  roa_agrees r = record r { cached_roa_validity = some true }

  -- `none` is the `AssertionError` of a route without an AS number, or with AS 0.
  unfoldable pub check_conflicting_roa : RpslObject → ChangeRequest → Option ChangeRequest
  check_conflicting_roa o r =
      if is_some r.cached_roa_validity
        || not W.rpki_aware
        || (not o.is_route || is_delete r.request_type)
      then some r
      else if not (is_set o.asn_first)
      then none
      else if conflicts (W.validate_route o)
      then some (roa_conflicts r)
      else some (roa_agrees r)

  abbrev pub out_of_scope : String → Option UpdateRequestType → ChangeRequest → ChangeRequest
  out_of_scope text (some create) r = report (text ∷ []) (fail_first error_scopefilter r)
  out_of_scope text (some modify) r = note (text ∷ []) r
  out_of_scope text _ r = r

  unfoldable pub check_scopefilter : RpslObject → ChangeRequest → ChangeRequest
  check_scopefilter o r =
      let (result, comment) = W.validate_scope o in
      if is_delete r.request_type || is_in_scope result
      then r
      else out_of_scope (concat ("Contains out of scope information: " ∷ comment ∷ []))
          r.request_type r

  abbrev pub check_rest :
      RpslObject → ChangeRequest → ReferenceValidator → Option (ChangeRequest × ReferenceValidator)
  check_rest o r v =
      let (r', v') = check_references o r v in
      chain (check_conflicting_roa o (check_protected_names o r' v'))
        (λ r''. some (check_scopefilter o r'', v'))

  unfoldable pub check_auth : List String → RpslObject → ChangeRequest → ChangeRequest
  check_auth approved o r =
      let result = W.process_auth approved o r.rpsl_obj_current in
      let noted = note result.verdict.info_messages (record r { auth_result = some result }) in
      if verdict_is_valid result.verdict
      then noted
      else report result.verdict.error_messages (record noted { status = error_auth })

  abbrev pub rules_of : RpslObject → Option UpdateRequestType → Verdict
  rules_of o (some create) = W.rules o create
  rules_of o (some modify) = W.rules o modify
  rules_of o _ = record { error_messages = []; info_messages = [] }

  abbrev pub check_rules : RpslObject → ChangeRequest → ChangeRequest
  check_rules o r =
      let verdict = rules_of o r.request_type in
      let told = report verdict.error_messages (note verdict.info_messages r) in
      if verdict_is_valid verdict then told else record told { status = error_rules }

  abbrev pub cleaning : RpslObject → Option UpdateRequestType → Option (List String)
  cleaning o (some create) = W.clean_for_create o
  cleaning o _ = none

  -- Each of the first three checks ends the validation where it fails.
  abbrev pub validate_clean :
      List String
      → RpslObject
      → ChangeRequest
      → ReferenceValidator
      → Option (ChangeRequest × ReferenceValidator)
  validate_clean approved o r v =
      let ruled = check_rules o r in
      let authorised = check_auth approved o ruled in
      let rest = check_rest o authorised v in
      if not (verdict_is_valid (rules_of o r.request_type))
      then some (ruled, v)
      else if not (verdict_is_valid (W.process_auth approved o ruled.rpsl_obj_current).verdict)
      then some (authorised, v)
      else rest

  abbrev pub validate_cleaning :
      Option (List String)
      → List String
      → RpslObject
      → ChangeRequest
      → ReferenceValidator
      → Option (ChangeRequest × ReferenceValidator)
  validate_cleaning (some errors) approved o r v =
      some (record (report errors r) { status = error_parsing }, v)
  validate_cleaning none approved o r v = validate_clean approved o r v

  abbrev pub validate_new :
      Option RpslObject
      → List String
      → ChangeRequest
      → ReferenceValidator
      → Option (ChangeRequest × ReferenceValidator)
  validate_new none approved r v = some (r, v)
  validate_new (some o) approved r v = validate_cleaning (cleaning o r.request_type) approved o r v

  unfoldable pub validate :
      List String → ChangeRequest → ReferenceValidator → Option (ChangeRequest × ReferenceValidator)
  validate approved r v = validate_new r.rpsl_obj_new approved r v

-- What the log of changes gets, beside what the request came with
pub record ChangeLog : Type 0 where
  pub auth_result : AuthResult
  pub rpsl_target_request_type : Option UpdateRequestType
  pub rpsl_target_pk : String
  pub rpsl_target_source : String
  pub rpsl_target_object_class : String
  pub rpsl_target_object_text_old : Option String
  pub rpsl_target_object_text_new : Option String

-- The calls of the database handler, and what is added in its session
pub data SaveCall : Type 0 where
  delete_rpsl_object upsert_rpsl_object : RpslObject → SaveCall
  add_change_log : ChangeLog → SaveCall

abbrev pub old_text : Option RpslObject → Option String
old_text none = none
old_text (some current) = some current.rendered

abbrev pub log_change : Option AuthResult → RpslObject → ChangeRequest → List SaveCall
log_change none o r = []
log_change (some result) o r =
    add_change_log (record {
      auth_result = result;
      rpsl_target_request_type = r.request_type;
      rpsl_target_pk = o.pk;
      rpsl_target_source = o.source;
      rpsl_target_object_class = o.rpsl_object_class;
      rpsl_target_object_text_old = old_text r.rpsl_obj_current;
      rpsl_target_object_text_new = if is_delete r.request_type then none else some o.rendered;
    })
    ∷ []

abbrev pub saved_by : SaveCall → RpslObject → ChangeRequest → List SaveCall × ChangeRequest
saved_by call o r = (call ∷ log_change r.auth_result o r, record r { status = saved })

-- An object that is identical is neither changed nor logged.
abbrev pub save_object :
    Option RpslObject → RpslObject → ChangeRequest → List SaveCall × ChangeRequest
save_object none o r = saved_by (upsert_rpsl_object o) o r
save_object (some current) o r =
    if is_delete r.request_type
    then saved_by (delete_rpsl_object current) o r
    else if o.text == current.text
    then (
      [],
      record (note ("Submitted object was identical to current object, no change recorded." ∷ [])
          r) { status = saved },
    )
    else saved_by (upsert_rpsl_object o) o r

abbrev pub is_processing : UpdateRequestStatus → Bool
is_processing processing = true
is_processing _ = false

abbrev pub save_new : Option RpslObject → ChangeRequest → Option (List SaveCall × ChangeRequest)
save_new none r = none
save_new (some o) r =
    if is_processing r.status then some (save_object r.rpsl_obj_current o r) else none

-- `none` is the `ValueError` of a request that is not being processed.
unfoldable pub save : ChangeRequest → Option (List SaveCall × ChangeRequest)
save r = save_new r.rpsl_obj_new r
