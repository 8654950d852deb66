-- ===== src/Updates.antt =====
-- irrd/updates/parser_state.py and validators.py: what a submission of changes works on, with `ValidatorResult`.
pub mod Partial
pub mod References
pub mod Auth
pub mod Suspension
pub mod Request
pub mod Handler
pub mod Later
pub mod Asserted
pub mod Passes
pub mod Resolved
pub mod Told
pub mod Settled
pub mod Processing
pub mod Saved
mod Examples
use irrd.Base.{
  ℕ, String, Bool, true, false, not, ◌&&◌, Option, none, some, List, [], ◌∷◌, is_nil, ◌==◌,
  string_eq, PyEq, ◌↔◌, ◌≡◌, refl, arith, beq_iff,
}
use irrd.Rpki.{RpkiStatus}
use irrd.ScopeFilter.{ScopeFilterStatus}
use irrd.Text.{append}

pub data UpdateRequestType : Type 0 where
  create modify delete : UpdateRequestType

pub data UpdateRequestStatus : Type 0 where
  saved processing error_unknown_class error_parsing error_auth error_rules error_reference :
      UpdateRequestStatus
  error_protected_name error_roa error_scopefilter error_non_authoritive error_object_filter :
      UpdateRequestStatus

-- A field with its name, the classes that it may refer to, and the keys in it
pub record Reference : Type 0 where
  pub field_name : String
  pub objects_referred : List String
  pub object_pks : List String

-- What is used of a parsed object
pub record RpslObject : Type 0 where
  pub rpsl_object_class : String
  pub pk : String
  pub source : String
  -- `render_rpsl_text`, with a fixed time and with its own
  pub text : String
  pub rendered : String
  pub is_route : Bool
  pub asn_first : Option ℕ
  pub is_mntner : Bool
  pub errors : List String
  pub infos : List String
  pub referred_strong_objects : List Reference
  pub references_strong_inbound : List String

pub record ObjectKey : Type 0 where
  pub object_class : String
  pub object_pk : String
  pub source : String

abbrev pub key_beq : ObjectKey → ObjectKey → Bool
key_beq a b =
    a.object_class == b.object_class && (a.object_pk == b.object_pk && a.source == b.source)

pub key_beq_iff : (a b : ObjectKey) → (key_beq a b ≡ true) ↔ (a ≡ b)
key_beq_iff a b = ground (
  arith,
  beq_iff a.object_class b.object_class,
  beq_iff a.object_pk b.object_pk,
  beq_iff a.source b.source,
)

instance abbrev pub key_eq : PyEq ObjectKey
key_eq = record { same = key_beq; agrees = key_beq_iff }

-- `(class, pk, source)`
abbrev pub key_of : RpslObject → ObjectKey
key_of o = record { object_class = o.rpsl_object_class; object_pk = o.pk; source = o.source }

-- The messages of a `ValidatorResult`
pub record Verdict : Type 0 where
  pub error_messages : List String
  pub info_messages : List String

abbrev pub no_messages : Verdict
no_messages = record { error_messages = []; info_messages = [] }

abbrev pub verdict_is_valid : Verdict → Bool
verdict_is_valid v = is_nil v.error_messages

-- The result of authentication: its messages and whether an override was used
pub record AuthResult : Type 0 where
  pub verdict : Verdict
  pub used_override : Bool

-- A row of a query for objects
pub record Row : Type 0 where
  pub object_class : String
  pub rpsl_pk : String
  pub source : String

-- What the checks ask of other code, with the database as it is while the checks run: the queries of the reference
-- validator, the cleaning of an object to be created (with its errors, if it fails), the rules, the
-- authentication with the maintainers that are approved beforehand, and the two filters
pub record World : Type 0 where
  pub find_objects : String → List String → String → List Row
  pub find_referring : String → List String → String → List Row
  pub name_is_protected : RpslObject → Bool
  pub clean_for_create : RpslObject → Option (List String)
  pub rules : RpslObject → UpdateRequestType → Verdict
  pub process_auth : List String → RpslObject → Option RpslObject → AuthResult
  pub rpki_aware : Bool
  pub validate_route : RpslObject → RpkiStatus
  pub roa_message : String
  pub validate_scope : RpslObject → ScopeFilterStatus × String

abbrev pub concat : List String → String
concat [] = ""
concat (s ∷ texts) = append s (concat texts)
