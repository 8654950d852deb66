-- ===== src/Updates/Auth/Examples.antt =====
-- Runs of the authentication of irrd/updates/validators.py on a database with two maintainers.
use irrd.Base.{
  String, true, false, ◌&&◌, ◌≡◌, refl, none, some, List, [], ◌∷◌, filter, contains, ◌==◌,
  string_eq, if◌then◌else◌, In, ◌↔◌, filter-In, In-filter, contains-In, In-contains, beq_iff, arith,
}
use irrd.Text.{append}
use irrd.Updates.Auth.{
  RpslMntner, NewObject, Environment, AuthValidator, disabled, mntner_password,
  mntner_in_same_request, no_method, check_override, check_mntners, pre_approve,
}
use irrd.Updates.Auth.Process.{process_auth, find_related_mntners}
use irrd.Updates.Auth.Mntners.{CacheOk, Passes, check_mntners-valid_iff}
use irrd.Updates.Auth.Passed.{Authorised, process_auth-Authorised}

abbrev mntner_with : String → String → RpslMntner
mntner_with pk password = record {
  pk = pk;
  source = "TEST";
  verify_auth = λ passwords key. if contains passwords password then some false else none;
}

abbrev stored : List RpslMntner
stored = mntner_with "TEST-MNT" "secret" ∷ mntner_with "OTHER-MNT" "other" ∷ []

abbrev environment : Environment
environment = record {
  override_hash = none;
  bcrypt_verify = λ password hash. none;
  md5_crypt_verify = λ password hash. none;
  find_mntners = λ source names. filter (λ m. m.source == source && contains names m.pk) stored;
  find_tokens = λ pk source keys. [];
  authenticate_parents_route_creation = true;
  find_exact = λ object_class o. none;
  find_less_specific = λ object_class o. none;
  find_aut_num = λ segment o. none;
  autnum_authentication = λ set_name. none;
  common_autnum_authentication = disabled;
}

stored_answers :
    (source : String) (names : List String) (m : RpslMntner)
    → In m (environment.find_mntners source names)
      ↔ (In m stored × (m.source ≡ source) × In m.pk names)
stored_answers source names m = (
  λ h.
      let (k, q) = filter-In (λ c. c.source == source && contains names c.pk) m stored h in
      (k, (beq_iff m.source source).0 (ground arith), contains-In m.pk names (ground arith)),
  λ h.
      let (k, here, named) = h in
      In-filter (λ c. c.source == source && contains names c.pk) m stored k
        (ground (arith, (beq_iff m.source source).1 here, In-contains m.pk names named)),
)

abbrev validator : AuthValidator
validator = record {
  passwords = "secret" ∷ [];
  overrides = [];
  api_keys = [];
  keycert_obj_pk = none;
  internal_authenticated_user = none;
  mntner_db_cache = [];
  pre_approved = [];
}

abbrev person : List String → NewObject
person mnt_by = record {
  rpsl_object_class = "person";
  new_pk = "PERSON-TEST";
  new_source = "TEST";
  mnt_by = mnt_by;
  is_set = false;
  pk_asn_segment = none;
  as_mntner = none;
}

abbrev names : List String
names = "OTHER-MNT" ∷ "TEST-MNT" ∷ []

-- A password of the second maintainer, and one of a maintainer that is not there
method_of_names :
    (process_auth environment (person names) none validator).0.auth_method ≡ mntner_password
unfolding process_auth check_mntners check_override find_related_mntners
method_of_names = refl

errors_of_unknown :
    (process_auth environment (person ("NO-MNT" ∷ [])) none validator).0.error_messages
    ≡ "Authorisation for person PERSON-TEST failed: must be authenticated by one of: NO-MNT" ∷ []
unfolding process_auth check_mntners check_override find_related_mntners append
errors_of_unknown = refl

-- A maintainer of the same submission
method_of_approved :
    (process_auth environment
      (person ("NO-MNT" ∷ []))
      none
      (pre_approve (mntner_with "NO-MNT" "new" ∷ []) validator)).0.auth_method
    ≡ mntner_in_same_request
unfolding process_auth check_mntners check_override find_related_mntners pre_approve
method_of_approved = refl

validator-CacheOk : CacheOk environment stored stored_answers validator
validator-CacheOk = record { sound = λ m h. absurd h; full = λ m m' h. absurd h }

check_mntners-valid_iff_example :
    (let (check, v') = check_mntners environment (person names) names "TEST" validator in
      ((check.valid ≡ true) ↔ (
        (name : String) × In name names
        × Passes environment stored stored_answers (person names) "TEST" validator name))
      × CacheOk environment stored stored_answers v')
check_mntners-valid_iff_example =
    check_mntners-valid_iff environment stored stored_answers (person names) names "TEST" validator
      validator-CacheOk

nothing_overrides : check_override environment validator ≡ no_method
unfolding check_override
nothing_overrides = refl

no_errors :
    (process_auth environment (person names) (some ("TEST-MNT" ∷ [])) validator).0.error_messages
    ≡ []
unfolding process_auth check_mntners check_override find_related_mntners
no_errors = refl

process_auth-Authorised_example :
    Authorised environment stored stored_answers (person names) (some ("TEST-MNT" ∷ [])) validator
process_auth-Authorised_example =
    process_auth-Authorised environment stored stored_answers (person names)
      (some ("TEST-MNT" ∷ [])) validator validator-CacheOk nothing_overrides no_errors
