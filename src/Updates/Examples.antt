-- ===== src/Updates/Examples.antt =====
-- Runs of a submission (irrd/updates/handler.py) on a database with one person.
use irrd.Base.{
  String, Bool, true, false, ◌≡◌, refl, sym, subst, Option, none, some, List, [], ◌∷◌, map,
  contains, string_eq, In, inl, inr, contains-In, if◌then◌else◌, ◌==◌, ap,
}
use irrd.Rpki.{not_found}
use irrd.ScopeFilter.{in_scope, is_visible}
use irrd.Updates.{
  create, UpdateRequestStatus, saved, error_reference, error_unknown_class, Reference, RpslObject,
  no_messages, Row, World,
}
use irrd.Updates.Request.{
  ChangeRequest, Intake, SaveCall, upsert_rpsl_object, delete_rpsl_object, add_change_log,
}
use irrd.Updates.Request as Request
use irrd.Updates.References.{
  check_references_to_others, check_protected_name, check_references_from_others_for_deletion,
}
use irrd.Updates.Told.{Checked}
use irrd.Updates.Settled.{keys_of}
use irrd.Updates.Handler.{
  validity_loop, one_pass, preload, handle_change_requests, change_requests, submission_status,
}
use irrd.Updates.Saved.{handle_change_requests-Checked}

abbrev object_of : String → String → List Reference → RpslObject
object_of object_class pk references = record {
  rpsl_object_class = object_class;
  pk = pk;
  source = "TEST";
  text = pk;
  rendered = pk;
  is_route = false;
  asn_first = none;
  is_mntner = object_class == "mntner";
  errors = [];
  infos = [];
  referred_strong_objects = references;
  references_strong_inbound = "admin-c" ∷ [];
}

abbrev contacts : List String → List Reference
contacts pks =
    record { field_name = "admin-c"; objects_referred = "role" ∷ "person" ∷ []; object_pks = pks }
    ∷ []

-- The texts are the primary keys.
abbrev read : String → Bool → Option RpslObject
read text strict =
    if text == "NEW-PERSON"
    then some (object_of "person" text [])
    else if text == "OLD-PERSON"
    then some (object_of "person" text [])
    else if text == "NEW-MNT"
    then some (object_of "mntner" text (contacts ("NEW-PERSON" ∷ "OLD-PERSON" ∷ [])))
    else if text == "OLD-MNT"
    then some (object_of "mntner" text (contacts ("OLD-PERSON" ∷ [])))
    else if text == "NEW-ROUTE"
    then some (record (object_of "route" text []) { is_route = true; asn_first = some 64500 })
    else if text == "AS0-ROUTE"
    then some (record (object_of "route" text []) { is_route = true; asn_first = some 0 })
    else if text == "LOST-MNT"
    then some (object_of "mntner" text (contacts ("NO-PERSON" ∷ [])))
    else none

abbrev intake : Intake
intake = record {
  parse = read;
  unknown_class = λ text. "unrecognised object class";
  non_strict = λ source. false;
  authoritative = λ source. true;
  object_class_filter = λ source. [];
  current_versions =
      λ o. if o.pk == "OLD-PERSON" then object_of "person" "OLD-PERSON" [] ∷ [] else [];
}

abbrev rows_if : Bool → String → List Row
rows_if persons pk =
    if persons
    then (if pk == "OLD-PERSON"
        then record { object_class = "person"; rpsl_pk = pk; source = "TEST" } ∷ []
        else [])
    else []

abbrev world : World
world = record {
  find_objects = λ source classes pk. rows_if (contains classes "person") pk;
  find_referring = λ source attributes pk. [];
  name_is_protected = λ o. false;
  clean_for_create = λ o. none;
  rules = λ o t. no_messages;
  process_auth = λ approved o current. record { verdict = no_messages; used_override = false };
  rpki_aware = true;
  validate_route = λ o. not_found;
  roa_message = "";
  validate_scope = λ o. (in_scope, "");
}

person_row-In :
    (b : Bool) (pk : String) (row : Row)
    → In row
        (if b then record { object_class = "person"; rpsl_pk = pk; source = "TEST" } ∷ [] else [])
    → row.object_class ≡ "person"
person_row-In true pk row (inl e) = ap (λ r. r.object_class) (sym e)
person_row-In true pk row (inr m) = absurd m
person_row-In false pk row m = absurd m

rows_if-In :
    (b : Bool) (pk : String) (row : Row)
    → In row (rows_if b pk)
    → (b ≡ true) × (row.object_class ≡ "person")
rows_if-In false pk row m = absurd m
rows_if-In true pk row m = (refl, person_row-In (pk == "OLD-PERSON") pk row m)

world_answers :
    (source : String) (classes : List String) (pk : String) (row : Row)
    → In row (world.find_objects source classes pk)
    → In row.object_class classes
world_answers source classes pk row m =
    let (asked, same) = rows_if-In (contains classes "person") pk row m in
    subst (λ c. In c classes) (sym same) (contains-In "person" classes asked)

-- A maintainer is created with the person that it refers to, and another refers to a person that does not exist.
abbrev submitted : List (String × Bool)
submitted = ("NEW-MNT", false) ∷ ("LOST-MNT", false) ∷ ("NEW-PERSON", false) ∷ ("?", false) ∷ []

-- A route, a maintainer that refers to a person that does not exist, and a text that no class reads
abbrev routed : List (String × Bool)
routed = ("NEW-ROUTE", false) ∷ ("LOST-MNT", false) ∷ ("?", false) ∷ []

abbrev made : List (String × Bool) → List ChangeRequest
made objects = elim (change_requests intake objects) [ none ↦ [] | some requests ↦ requests ]

abbrev handled_of : List (String × Bool) → List SaveCall × List ChangeRequest
handled_of objects = elim (handle_change_requests world (made objects)) [
  | none ↦ ([], [])
  | some out ↦ out
]

-- Without the log
abbrev writes : List SaveCall → List SaveCall
writes [] = []
writes (add_change_log log ∷ calls) = writes calls
writes (delete_rpsl_object o ∷ calls) = delete_rpsl_object o ∷ writes calls
writes (upsert_rpsl_object o ∷ calls) = upsert_rpsl_object o ∷ writes calls

abbrev outcome : List (String × Bool) → List SaveCall × List UpdateRequestStatus × String
outcome objects =
    let (calls, results) = handled_of objects in
    (writes calls, map (λ r. r.status) results, submission_status results)

outcome-submitted : outcome submitted ≡ (
  upsert_rpsl_object (object_of "mntner" "NEW-MNT" (contacts ("NEW-PERSON" ∷ "OLD-PERSON" ∷ [])))
      ∷ upsert_rpsl_object (object_of "person" "NEW-PERSON" [])
      ∷ [],
  saved ∷ error_reference ∷ saved ∷ error_unknown_class ∷ [],
  "FAILED",
)
unfolding handle_change_requests change_requests submission_status Request.change_request
    validity_loop one_pass preload Request.validate Request.check_references
    check_references_to_others Request.check_protected_names check_protected_name
    Request.check_conflicting_roa Request.check_scopefilter Request.check_auth Request.save
    is_visible
outcome-submitted = refl

-- An object that one submission both modifies and deletes can be referred to in it, but is gone in the end.
abbrev crossed : List (String × Bool)
crossed = ("OLD-PERSON", false) ∷ ("OLD-PERSON", true) ∷ ("OLD-MNT", false) ∷ []

outcome-crossed : outcome crossed ≡ (
  delete_rpsl_object (object_of "person" "OLD-PERSON" [])
      ∷ upsert_rpsl_object (object_of "mntner" "OLD-MNT" (contacts ("OLD-PERSON" ∷ [])))
      ∷ [],
  saved ∷ saved ∷ saved ∷ [],
  "SUCCESS",
)
unfolding handle_change_requests change_requests submission_status Request.change_request
    validity_loop one_pass preload Request.validate Request.check_references
    check_references_to_others check_references_from_others_for_deletion
    Request.check_protected_names check_protected_name Request.check_conflicting_roa
    Request.check_scopefilter Request.check_auth Request.save is_visible
outcome-crossed = refl

-- A new route of AS 0 ends the submission with the `AssertionError` of the RPKI check.
handle_change_requests-as0 : handle_change_requests world (made (("AS0-ROUTE", false) ∷ [])) ≡ none
unfolding handle_change_requests change_requests Request.change_request validity_loop one_pass
    preload Request.validate Request.check_references check_references_to_others
    Request.check_protected_names check_protected_name Request.check_conflicting_roa
    Request.check_scopefilter Request.check_auth Request.save is_visible
handle_change_requests-as0 = refl

change_requests-submitted : change_requests intake submitted ≡ some (made submitted)
unfolding change_requests Request.change_request
change_requests-submitted = refl

handle_change_requests-submitted :
    handle_change_requests world (made submitted) ≡ some (handled_of submitted)
unfolding handle_change_requests change_requests Request.change_request validity_loop one_pass
    preload Request.validate Request.check_references check_references_to_others
    Request.check_protected_names check_protected_name Request.check_conflicting_roa
    Request.check_scopefilter Request.check_auth Request.save is_visible
handle_change_requests-submitted = refl

-- The maintainer, when all is done
abbrev new_mnt : ChangeRequest
new_mnt = record {
  rpsl_obj_new = some (object_of "mntner" "NEW-MNT" (contacts ("NEW-PERSON" ∷ "OLD-PERSON" ∷ [])));
  rpsl_obj_current = none;
  status = saved;
  request_type = some create;
  error_messages = [];
  info_messages = [];
  auth_result = some (record { verdict = no_messages; used_override = false });
  cached_roa_validity = none;
  non_strict_mode = false;
}

new_mnt-In : In new_mnt ((handled_of submitted).1)
unfolding handle_change_requests change_requests Request.change_request validity_loop one_pass
    preload Request.validate Request.check_references check_references_to_others
    Request.check_protected_names check_protected_name Request.check_conflicting_roa
    Request.check_scopefilter Request.check_auth Request.save is_visible
new_mnt-In = inl refl

handle_change_requests-Checked_example :
    Checked world world_answers (keys_of ((handled_of submitted).1)) new_mnt
handle_change_requests-Checked_example =
    handle_change_requests-Checked world world_answers intake submitted (made submitted)
      ((handled_of submitted).1) ((handled_of submitted).0) change_requests-submitted
      handle_change_requests-submitted new_mnt new_mnt-In refl
