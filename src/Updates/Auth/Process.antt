-- ===== src/Updates/Auth/Process.antt =====
-- irrd/updates/validators.py: `AuthValidator.process_auth` and the related objects.
use irrd.Base.{
  String, Bool, true, false, not, ◌||◌, Option, none, some, List, [], ◌∷◌, is_some, add, ◌==◌,
  string_eq, if◌then◌else◌,
}
use irrd.Updates.{concat}
use irrd.Updates.References.{comma_separated}
use irrd.Updates.Auth.{
  AuthMethod, override_internal_auth, mntner_internal_auth, no_method,
  RpslSetAutnumAuthenticationMode, disabled, required, RpslMntner, AuthMntner, AuthApiToken,
  AuthUser, RelatedObject, NewObject, Environment, AuthValidator, MntnerCheckResult, or_else,
  mntner_matches_internal_auth, check_override, check_mntners,
}

-- `forced_password` is the one that replaces all hashes of the new object.
pub record ValidatorResult : Type 0 where
  pub error_messages : List String
  pub info_messages : List String
  pub mntners_notify : List RpslMntner
  pub auth_method : AuthMethod
  pub auth_through_mntner : Option String
  pub auth_through_internal_mntner : Option AuthMntner
  pub auth_through_api_key : Option AuthApiToken
  pub auth_through_internal_user : Option AuthUser
  pub forced_password : Option String

abbrev pub new_result : ValidatorResult
new_result = record {
  error_messages = [];
  info_messages = [];
  mntners_notify = [];
  auth_method = no_method;
  auth_through_mntner = none;
  auth_through_internal_mntner = none;
  auth_through_api_key = none;
  auth_through_internal_user = none;
  forced_password = none;
}

abbrev pub is_override : AuthMethod → Bool
is_override no_method = false
is_override _ = true

abbrev pub overriding_user : AuthMethod → Option AuthUser → Option AuthUser
overriding_user override_internal_auth user = user
overriding_user _ user = none

abbrev pub internal_user : AuthMethod → Option AuthUser → Option AuthUser
internal_user mntner_internal_auth user = user
internal_user _ user = none

abbrev pub from_parent : Option RelatedObject → List String
from_parent none = []
from_parent (some r) = " - from parent " ∷ r.object_class ∷ " " ∷ r.rpsl_pk ∷ []

abbrev pub failure_message : List String → NewObject → Option RelatedObject → String
failure_message failed o related = concat (
    "Authorisation for "
    ∷ o.rpsl_object_class
    ∷ " "
    ∷ o.new_pk
    ∷ " failed: must be authenticated by one of: "
    ∷ comma_separated failed
    ∷ from_parent related)

abbrev pub add_error : String → ValidatorResult → ValidatorResult
add_error message r = record r { error_messages = add message r.error_messages }

-- A check that failed is an error.
abbrev pub require_check : Bool → String → ValidatorResult → ValidatorResult
require_check passed message r = if passed then r else add_error message r

module _ (E : Environment) where
  abbrev pub related_route : String → NewObject → Option RelatedObject
  related_route inetnum_class o =
      if not E.authenticate_parents_route_creation
      then none
      else or_else (or_else (E.find_exact inetnum_class o) (E.find_less_specific inetnum_class o))
          (E.find_less_specific o.rpsl_object_class o)

  abbrev pub for_set_name : Option RpslSetAutnumAuthenticationMode → RpslSetAutnumAuthenticationMode
  for_set_name none = E.common_autnum_authentication
  for_set_name (some mode) = mode

  abbrev pub missing_aut_num :
      RpslSetAutnumAuthenticationMode → String → ValidatorResult → ValidatorResult
  missing_aut_num required segment r =
      add_error
        (concat ("Creating this object requires an aut-num for " ∷ segment ∷ " to exist." ∷ [])) r
  missing_aut_num _ segment r = r

  abbrev pub aut_num_or_error :
      Option RelatedObject
      → RpslSetAutnumAuthenticationMode
      → String
      → ValidatorResult
      → Option RelatedObject × ValidatorResult
  aut_num_or_error (some a) mode segment r = (some a, r)
  aut_num_or_error none mode segment r = (none, missing_aut_num mode segment r)

  abbrev pub is_disabled : RpslSetAutnumAuthenticationMode → Bool
  is_disabled disabled = true
  is_disabled _ = false

  abbrev pub related_set :
      Option String → NewObject → ValidatorResult → Option RelatedObject × ValidatorResult
  related_set none o r = (none, r)
  related_set (some segment) o r =
      let mode = for_set_name (E.autnum_authentication o.rpsl_object_class) in
      if is_disabled mode
      then (none, r)
      else aut_num_or_error (E.find_aut_num segment o) mode segment r

  unfoldable pub find_related_mntners :
      NewObject → ValidatorResult → Option RelatedObject × ValidatorResult
  find_related_mntners o r =
      if o.is_set
      then related_set o.pk_asn_segment o r
      else if o.rpsl_object_class == "route"
      then (related_route "inetnum" o, r)
      else if o.rpsl_object_class == "route6"
      then (related_route "inet6num" o, r)
      else (none, r)

  -- The checks of the current object, or else of the related one, with the check that the log of changes shows
  abbrev pub check_related :
      Option RelatedObject
      → NewObject
      → MntnerCheckResult
      → AuthValidator
      → ValidatorResult
      → ValidatorResult × (AuthValidator × MntnerCheckResult)
  check_related none o shown v r = (r, (v, shown))
  check_related (some related) o shown v r =
      let (check, v') = check_mntners E o related.related_mnt_by o.new_source v in
      (
        if check.valid
            then r
            else record (add_error (failure_message related.related_mnt_by o (some related)) r) {
              mntners_notify = check.associated_mntners;
            },
        (v', check),
      )

  abbrev pub check_existing :
      Option (List String)
      → NewObject
      → MntnerCheckResult
      → AuthValidator
      → ValidatorResult
      → ValidatorResult × (AuthValidator × MntnerCheckResult)
  check_existing (some names) o new v r =
      let (check, v') = check_mntners E o names o.new_source v in
      (
        record (require_check check.valid (failure_message names o none) r) {
          mntners_notify = check.associated_mntners;
        },
        (v', check),
      )
  check_existing none o new v r =
      let (related, r') =
        find_related_mntners o (record r { mntners_notify = new.associated_mntners }) in
      check_related related o new v r'

  -- Dummy values of a maintainer are replaced by the one password; other values must verify the change.
  abbrev pub replace_dummy : List String → ValidatorResult → ValidatorResult
  replace_dummy (password ∷ []) r = record r {
    info_messages =
        add
          "As you submitted dummy hash values, all password hashes on this object were replaced with a new BCRYPT-PW hash of the password you provided for authentication."
          r.info_messages;
    forced_password = some password;
  }
  replace_dummy _ r =
      add_error
        "Object submitted with dummy hash values, but multiple or no passwords submitted. Either submit only full hashes, or a single password."
        r

  abbrev pub verifies_itself : RpslMntner → NewObject → AuthValidator → Bool
  verifies_itself m o v =
      is_some (m.verify_auth v.passwords v.keycert_obj_pk)
      || is_some
          (mntner_matches_internal_auth v.internal_authenticated_user o o.new_pk o.new_source)

  abbrev pub check_new_mntner :
      Bool × RpslMntner → NewObject → AuthValidator → ValidatorResult → ValidatorResult
  check_new_mntner (dummy, m) o v r =
      if dummy
      then replace_dummy v.passwords r
      else require_check (verifies_itself m o v)
          "Authorisation failed for the auth methods on this mntner object." r

  abbrev pub record_method : MntnerCheckResult → AuthValidator → ValidatorResult → ValidatorResult
  record_method check v r = record r {
    auth_method = check.auth_method;
    auth_through_mntner = check.mntner_pk;
    auth_through_api_key = check.api_key;
    auth_through_internal_mntner = check.auth_mntner;
    auth_through_internal_user = internal_user check.auth_method v.internal_authenticated_user;
  }

  abbrev pub finish_auth :
      Option (Bool × RpslMntner)
      → Option (List String)
      → NewObject
      → MntnerCheckResult
      → AuthValidator
      → ValidatorResult
      → ValidatorResult
  finish_auth none current o check v r = record_method check v r
  finish_auth (some m) none o check v r =
      add_error "New mntner objects must be added by an administrator." r
  finish_auth (some m) (some names) o check v r = record_method check v (check_new_mntner m o v r)

  -- The new object, and the maintainers of the current one
  unfoldable pub process_auth :
      NewObject → Option (List String) → AuthValidator → ValidatorResult × AuthValidator
  process_auth o current v =
      let method = check_override E v in
      let (new, v1) = check_mntners E o o.mnt_by o.new_source v in
      let r1 = require_check new.valid (failure_message o.mnt_by o none) new_result in
      let (r2, (v2, shown)) = check_existing current o new v1 r1 in
      if is_override method
      then (
        record new_result {
          auth_method = method;
          auth_through_internal_user = overriding_user method v.internal_authenticated_user;
        },
        v,
      )
      else (finish_auth o.as_mntner current o shown v2 r2, v2)
