-- ===== src/Updates/Auth.antt =====
-- irrd/updates/validators.py: `AuthValidator`.
pub mod Process
pub mod Mntners
pub mod Passed
mod Examples
use irrd.Base.{
  ℕ, String, Bool, true, false, not, ◌&&◌, ◌||◌, Option, none, some, List, [], ◌∷◌, ◌++◌, is_nil,
  is_some, any, filter, map, contains, add, update, ◌==◌, string_eq, if◌then◌else◌,
}
use irrd.Updates.{concat}
use irrd.Updates.References.{comma_separated}

pub data AuthMethod : Type 0 where
  override_password override_internal_auth mntner_password mntner_pgp_key : AuthMethod
  mntner_internal_auth mntner_api_key mntner_in_same_request no_method : AuthMethod

pub data RpslSetAutnumAuthenticationMode : Type 0 where
  disabled opportunistic required : RpslSetAutnumAuthenticationMode

-- `verify_auth` gives the scheme that verifies, by whether it is a PGP key.
pub record RpslMntner : Type 0 where
  pub pk : String
  pub source : String
  pub verify_auth : List String → Option String → Option Bool

pub record AuthMntner : Type 0 where
  pub rpsl_mntner_pk : String
  pub rpsl_mntner_source : String

-- `valid_for` with the origin and the address of the validator
pub record AuthApiToken : Type 0 where
  pub token : String
  pub mntner : AuthMntner
  pub valid_for : Bool

pub record AuthUser : Type 0 where
  pub user_override : Bool
  pub mntners_user_management : List AuthMntner
  pub mntners : List AuthMntner

-- A row for the related object
pub record RelatedObject : Type 0 where
  pub object_class : String
  pub rpsl_pk : String
  pub related_mnt_by : List String

-- What the checks use of a new object; `mntner` is there for a maintainer, by whether it has dummy values, and its own verification.
pub record NewObject : Type 0 where
  pub rpsl_object_class : String
  pub new_pk : String
  pub new_source : String
  pub mnt_by : List String
  pub is_set : Bool
  pub pk_asn_segment : Option String
  pub as_mntner : Option (Bool × RpslMntner)

-- The settings, the verification of hashes (`none` is its `ValueError`), and the queries, each with its first row where it asks for no more
pub record Environment : Type 0 where
  pub override_hash : Option String
  pub bcrypt_verify : String → String → Option Bool
  pub md5_crypt_verify : String → String → Option Bool
  pub find_mntners : String → List String → List RpslMntner
  pub find_tokens : String → String → List String → List AuthApiToken
  pub authenticate_parents_route_creation : Bool
  pub find_exact : String → NewObject → Option RelatedObject
  pub find_less_specific : String → NewObject → Option RelatedObject
  pub find_aut_num : String → NewObject → Option RelatedObject
  pub autnum_authentication : String → Option RpslSetAutnumAuthenticationMode
  pub common_autnum_authentication : RpslSetAutnumAuthenticationMode

pub record AuthValidator : Type 0 where
  pub passwords : List String
  pub overrides : List String
  pub api_keys : List String
  pub keycert_obj_pk : Option String
  pub internal_authenticated_user : Option AuthUser
  pub mntner_db_cache : List RpslMntner
  pub pre_approved : List String

pub record MntnerCheckResult : Type 0 where
  pub valid : Bool
  pub associated_mntners : List RpslMntner
  pub auth_method : AuthMethod
  pub mntner_pk : Option String
  pub auth_mntner : Option AuthMntner
  pub api_key : Option AuthApiToken

-- The first that a search gives
abbrev pub first_of : {A B : Type 0} → (A → Option B) → List A → Option B
first_of f [] = none
first_of f (x ∷ xs) = let rest = first_of f xs in elim (f x) [ none ↦ rest | some b ↦ some b ]

abbrev pub or_else : {A : Type 0} → Option A → Option A → Option A
or_else none o = o
or_else (some a) o = some a

abbrev pub guarded : {A : Type 0} → Bool → A → Option A
guarded b a = if b then some a else none

unfoldable pub pre_approve : List RpslMntner → AuthValidator → AuthValidator
pre_approve presumed v = record v { pre_approved = update [] (map (λ m. m.pk) presumed) }

abbrev pub user_mntners : NewObject → String → String → AuthUser → List AuthMntner
user_mntners o rpsl_pk source user =
    if o.new_pk == rpsl_pk && o.new_source == source
    then user.mntners_user_management
    else user.mntners

abbrev pub mntner_matches_internal_auth :
    Option AuthUser → NewObject → String → String → Option AuthMntner
mntner_matches_internal_auth none o rpsl_pk source = none
mntner_matches_internal_auth (some user) o rpsl_pk source =
    first_of (λ m. guarded (rpsl_pk == m.rpsl_mntner_pk && source == m.rpsl_mntner_source) m)
      (user_mntners o rpsl_pk source user)

module _ (E : Environment) where
  abbrev pub api_key_match_for_mntner :
      List String → NewObject → String → String → Option AuthApiToken
  api_key_match_for_mntner api_keys o rpsl_pk source =
      if is_nil api_keys || is_some o.as_mntner
      then none
      else first_of (λ t. guarded t.valid_for t) (E.find_tokens rpsl_pk source api_keys)

  abbrev pub override_matches : String → String → Bool
  override_matches hash override = elim (E.bcrypt_verify override hash) [
    | some same ↦ same
    | none ↦ elim (E.md5_crypt_verify override hash) [ some same ↦ same | none ↦ false ]
  ]

  abbrev pub check_overrides : Option String → List String → AuthMethod
  check_overrides none overrides = no_method
  check_overrides (some hash) overrides =
      if any (override_matches hash) overrides then override_password else no_method

  abbrev pub user_overrides : Option AuthUser → Bool
  user_overrides none = false
  user_overrides (some user) = user.user_override

  unfoldable pub check_override : AuthValidator → AuthMethod
  check_override v =
      if user_overrides v.internal_authenticated_user
      then override_internal_auth
      else check_overrides E.override_hash v.overrides

  -- The maintainers of these names: those in the cache, and then those of the query for the others, which the cache gets too
  abbrev pub cached_mntners : List String → String → AuthValidator → List RpslMntner
  cached_mntners names source v =
      filter (λ m. contains names m.pk && m.source == source) v.mntner_db_cache

  abbrev pub pks_to_resolve : List String → List RpslMntner → List String
  pks_to_resolve names found =
      filter (λ name. not (contains (map (λ m. m.pk) found) name)) (update [] names)

  abbrev pub retrieved_mntners : List String → String → AuthValidator → List RpslMntner
  retrieved_mntners names source v =
      let missing = pks_to_resolve names (cached_mntners names source v) in
      if is_nil missing then [] else E.find_mntners source missing

  abbrev pub name_result :
      NewObject → String → AuthValidator → List RpslMntner → String → Option MntnerCheckResult
  name_result o source v found name =
      let by : AuthMethod → Option AuthMntner → Option AuthApiToken → MntnerCheckResult =
        λ method mntner key. record {
          valid = true;
          associated_mntners = found;
          auth_method = method;
          mntner_pk = some name;
          auth_mntner = mntner;
          api_key = key;
        } in
      if contains v.pre_approved name
      then some (by mntner_in_same_request none none)
      else elim (mntner_matches_internal_auth v.internal_authenticated_user o name source) [
        | some m ↦ some (by mntner_internal_auth (some m) none)
        | none ↦ elim (api_key_match_for_mntner v.api_keys o name source) [
          | some key ↦ some (by mntner_api_key (some key.mntner) (some key))
          | none ↦ none
        ]
      ]

  abbrev pub verify_result : AuthValidator → List RpslMntner → RpslMntner → Option MntnerCheckResult
  verify_result v found m = elim (m.verify_auth v.passwords v.keycert_obj_pk) [
    | none ↦ none
    | some pgp ↦ some (record {
      valid = true;
      associated_mntners = found;
      auth_method = if pgp then mntner_pgp_key else mntner_password;
      mntner_pk = some m.pk;
      auth_mntner = none;
      api_key = none;
    })
  ]

  abbrev pub failed_check : List RpslMntner → MntnerCheckResult
  failed_check found = record {
    valid = false;
    associated_mntners = found;
    auth_method = no_method;
    mntner_pk = none;
    auth_mntner = none;
    api_key = none;
  }

  abbrev pub result_or_failed : Option MntnerCheckResult → List RpslMntner → MntnerCheckResult
  result_or_failed (some r) found = r
  result_or_failed none found = failed_check found

  unfoldable pub check_mntners :
      NewObject → List String → String → AuthValidator → MntnerCheckResult × AuthValidator
  check_mntners o names source v =
      let retrieved = retrieved_mntners names source v in
      let found = cached_mntners names source v ++ retrieved in
      (
        result_or_failed
            (or_else (first_of (name_result o source v found) names)
              (first_of (verify_result v found) found))
            found,
        record v { mntner_db_cache = v.mntner_db_cache ++ retrieved },
      )
