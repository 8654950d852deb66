-- ===== src/Updates/References.antt =====
-- irrd/updates/validators.py: `ReferenceValidator`.
use irrd.Base.{
  String, Bool, true, false, not, ◌&&◌, Option, none, some, List, [], ◌∷◌, is_nil, contains, add,
  update, map, string_eq, if◌then◌else◌,
}
use irrd.Storage.Operations.{protected_name_classes}
use irrd.Updates.{Reference, RpslObject, ObjectKey, key_eq, Verdict, Row, World, concat}

pub record ReferenceValidator : Type 0 where
  pub cache : List ObjectKey
  pub preloaded_new : List ObjectKey
  pub preloaded_deleted : List ObjectKey

abbrev pub new_validator : ReferenceValidator
new_validator = record { cache = []; preloaded_new = []; preloaded_deleted = [] }

abbrev pub key_for : String → String → String → ObjectKey
key_for object_class object_pk source = record {
  object_class = object_class;
  object_pk = object_pk;
  source = source;
}

-- The loop over the classes, with `none` where it decides nothing
abbrev pub known_reference : ReferenceValidator → List String → String → String → Option Bool
known_reference v [] object_pk source = none
known_reference v (object_class ∷ classes) object_pk source =
    let key = key_for object_class object_pk source in
    let rest = known_reference v classes object_pk source in
    if contains v.cache key
    then some true
    else if contains v.preloaded_new key
    then some true
    else if contains v.preloaded_deleted key
    then some false
    else rest

abbrev pub cache_rows : List Row → String → String → ReferenceValidator → ReferenceValidator
cache_rows rows object_pk source v = record v {
  cache = update v.cache (map (λ r. key_for r.object_class object_pk source) rows);
}

-- `", ".join(texts)`
abbrev pub comma_separated : List String → String
comma_separated [] = ""
comma_separated (s ∷ []) = s
comma_separated (s ∷ t ∷ texts) = concat (s ∷ ", " ∷ comma_separated (t ∷ texts) ∷ [])

module _ (W : World) where
  -- The decision of the loop, or else the query
  abbrev pub decide_reference :
      Option Bool → List String → String → String → ReferenceValidator → Bool × ReferenceValidator
  decide_reference (some known) classes object_pk source v = (known, v)
  decide_reference none classes object_pk source v =
      let rows = W.find_objects source classes object_pk in
      (not (is_nil rows), cache_rows rows object_pk source v)

  abbrev pub check_reference :
      List String → String → String → ReferenceValidator → Bool × ReferenceValidator
  check_reference classes object_pk source v =
      decide_reference (known_reference v classes object_pk source) classes object_pk source v

  abbrev pub referred_text : List String → String
  referred_text [] = ""
  referred_text (s ∷ []) = s
  referred_text (s ∷ t ∷ texts) = concat ("one of " ∷ comma_separated (s ∷ t ∷ texts) ∷ [])

  abbrev pub not_found : Reference → String → String → String
  not_found r object_pk source = concat (
      "Object "
      ∷ object_pk
      ∷ " referenced in field "
      ∷ r.field_name
      ∷ " not found in database "
      ∷ source
      ∷ " - must reference "
      ∷ referred_text r.objects_referred
      ∷ "."
      ∷ [])

  abbrev pub add_unless : Bool → String → List String → List String
  add_unless b text errors = if b then errors else add text errors

  -- The keys of one field, and then the fields; the errors so far come first.
  abbrev pub check_pks :
      Reference
      → String
      → List String
      → List String
      → ReferenceValidator
      → List String × ReferenceValidator
  check_pks r source [] errors v = (errors, v)
  check_pks r source (object_pk ∷ pks) errors v =
      let (found, v') = check_reference r.objects_referred object_pk source v in
      check_pks r source pks (add_unless found (not_found r object_pk source) errors) v'

  abbrev pub check_fields :
      String → List Reference → List String → ReferenceValidator → List String × ReferenceValidator
  check_fields source [] errors v = (errors, v)
  check_fields source (r ∷ references) errors v =
      let (errors', v') = check_pks r source r.object_pks errors v in
      check_fields source references errors' v'

  unfoldable pub check_references_to_others :
      RpslObject → ReferenceValidator → Verdict × ReferenceValidator
  check_references_to_others o v =
      let (errors, v') = check_fields o.source o.referred_strong_objects [] v in
      (record { error_messages = errors; info_messages = [] }, v')

  -- The referring objects that are not about to be deleted
  abbrev pub add_referring : (Row → String) → List Row → List ObjectKey → List String → List String
  add_referring message [] deleted messages = messages
  add_referring message (r ∷ rows) deleted messages =
      let key = key_for r.object_class r.rpsl_pk r.source in
      add_referring message rows deleted (add_unless (contains deleted key) (message r) messages)

  abbrev pub check_references_from_others :
      RpslObject → (Row → String) → ReferenceValidator → List String
  check_references_from_others o message v =
      if is_nil o.references_strong_inbound
      then []
      else add_referring message (W.find_referring o.source o.references_strong_inbound o.pk)
          v.preloaded_deleted []

  -- The messages are errors, or notes where the check is bypassed.
  abbrev pub as_verdict : Bool → List String → Verdict
  as_verdict note messages =
      if note
      then record { error_messages = []; info_messages = messages }
      else record { error_messages = messages; info_messages = [] }

  abbrev pub still_referenced : Bool → RpslObject → Row → String
  still_referenced note o r =
      if note
      then concat (
          "NOTE: object " ∷ o.pk ∷ " still referenced by " ∷ r.object_class ∷ " " ∷ r.rpsl_pk
          ∷ ". Delete permitted due to override. This creates a broken reference." ∷ [])
      else concat (
          "Object " ∷ o.pk ∷ " to be deleted, but still referenced by " ∷ r.object_class ∷ " "
          ∷ r.rpsl_pk ∷ [])

  unfoldable pub check_references_from_others_for_deletion :
      RpslObject → Bool → ReferenceValidator → Verdict
  check_references_from_others_for_deletion o used_override v =
      let note = used_override && contains protected_name_classes o.rpsl_object_class in
      as_verdict note (check_references_from_others o (still_referenced note o) v)

  abbrev pub existing_references : Bool → RpslObject → Row → String
  existing_references note o r =
      if note
      then concat (
          "NOTE: existing references to " ∷ o.pk ∷ " exist from " ∷ r.object_class ∷ " " ∷ r.rpsl_pk
          ∷ ", permitted due to override" ∷ [])
      else concat (
          "Object " ∷ o.pk ∷ " to be created, but existing references exist from " ∷ r.object_class
          ∷ " " ∷ r.rpsl_pk ∷ [])

  abbrev pub protected_name : Bool → RpslObject → String
  protected_name note o =
      if note
      then concat (
          "NOTE: object " ∷ o.pk ∷ " has a protected name, creation permitted due to override."
          ∷ [])
      else concat (
          "Object " ∷ o.pk
          ∷ " has a protected name that can not be reused. Create the object under a different name."
          ∷ [])

  unfoldable pub check_protected_name : RpslObject → Bool → ReferenceValidator → Verdict
  check_protected_name o used_override v =
      let messages = check_references_from_others o (existing_references used_override o) v in
      as_verdict used_override
        (add_unless (not (W.name_is_protected o)) (protected_name used_override o) messages)
