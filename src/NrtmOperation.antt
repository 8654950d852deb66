-- ===== src/NrtmOperation.antt =====
-- irrd/mirroring/nrtm_operation.py: `NRTMOperation.save`, which brings one change of a mirrored source into
-- the database.
pub mod Laws
mod Examples
use irrd.Base.{
  ℕ, String, Bool, true, false, not, ◌&&◌, ◌||◌, Option, none, some, List, [], ◌∷◌, is_nil,
  contains, eqb, ◌==◌, string_eq, if◌then◌else◌,
}
use irrd.Rpki.{RpkiStatus}
use irrd.ScopeFilter.{ScopeFilterStatus}
use irrd.Text.{upper, lower}

pub data DatabaseOperation : Type 0 where
  add_or_update delete : DatabaseOperation

-- What is used of a parsed object
pub record RpslObject : Type 0 where
  pub pk : String
  pub rpsl_object_class : String
  pub is_key_cert : Bool
  pub errors : List String
  pub parsed_source : Option String
  pub is_route : Bool
  pub has_prefix : Bool
  pub asn_first : Option ℕ

-- `rpsl_object_from_text`, or the class of an `UnknownRPSLObjectClassException`
pub data Parsed : Type 0 where
  unknown_class : String → Parsed
  object : RpslObject → Parsed

pub record NrtmOperation : Type 0 where
  pub source : String
  pub operation : DatabaseOperation
  pub object_text : Option String
  pub rpsl_pk : Option String
  pub object_class : Option String
  pub strict_validation_key_cert : Bool
  pub rpki_aware : Bool
  pub object_class_filter : List String

-- The calls of the database handler; an upserted object carries its new statuses, the first one if it was set.
pub data SaveCall : Type 0 where
  record_mirror_error : SaveCall
  upsert_rpsl_object : RpslObject → Option RpkiStatus → ScopeFilterStatus → SaveCall
  delete_rpsl_object : Option String → String → SaveCall

-- The calls, and the result, which is `none` for the `RuntimeError`
abbrev pub Saved : Type 0
Saved = List SaveCall × Option Bool

-- `self.object_class_filter and … not in self.object_class_filter`
abbrev pub filtered_out : NrtmOperation → String → Bool
filtered_out op c =
    not (is_nil op.object_class_filter) && not (contains op.object_class_filter (lower c))

abbrev pub other_source : NrtmOperation → RpslObject → Bool
other_source op o = elim o.parsed_source [ none ↦ false | some s ↦ not (upper s == op.source) ]

abbrev pub is_set : Option ℕ → Bool
is_set none = false
is_set (some n) = not (eqb n 0)

-- The parser of a text that is stripped first, with its strictness and its default source, and the two validators
module _ (parse : Bool → Option String → String → Parsed) (rpki : RpslObject → RpkiStatus)
    (scope : RpslObject → ScopeFilterStatus) where
  abbrev pub default_source : NrtmOperation → Option String
  default_source op = elim op.operation [ add_or_update ↦ none | delete ↦ some op.source ]

  abbrev pub parse_again : NrtmOperation → String → Parsed → Parsed
  parse_again op text (unknown_class c) = unknown_class c
  parse_again op text (object o) =
      if op.strict_validation_key_cert && o.is_key_cert
      then parse true (default_source op) text
      else object o

  abbrev pub rpki_status_of : NrtmOperation → RpslObject → Option RpkiStatus
  rpki_status_of op o =
      if op.rpki_aware && (o.is_route && (o.has_prefix && is_set o.asn_first))
      then some (rpki o)
      else none

  unfoldable pub save_object : NrtmOperation → RpslObject → Saved
  save_object op o =
      if filtered_out op (lower o.rpsl_object_class)
      then ([], some false)
      else if not (is_nil o.errors)
      then (record_mirror_error ∷ [], some false)
      else if other_source op o
      then (record_mirror_error ∷ [], some false)
      else (elim op.operation [
        | add_or_update ↦ (upsert_rpsl_object o (rpki_status_of op o) (scope o) ∷ [], some true)
        | delete ↦ (delete_rpsl_object (some o.pk) (lower o.rpsl_object_class) ∷ [], some true)
      ])

  -- Without a text, an addition makes no call and still counts as done.
  unfoldable pub save_key : NrtmOperation → Saved
  save_key op = elim op.object_class [
    | none ↦ ([], none)
    | some c ↦
        if c == ""
        then ([], none)
        else if filtered_out op c
        then ([], some false)
        else (elim op.operation [
          | add_or_update ↦ ([], some true)
          | delete ↦ (delete_rpsl_object op.rpsl_pk c ∷ [], some true)
        ])
  ]

  abbrev pub save_parsed : NrtmOperation → Parsed → Saved
  save_parsed op (unknown_class c) = ([], some false)
  save_parsed op (object o) = save_object op o

  abbrev pub save_text : NrtmOperation → Option String → Saved
  save_text op none = save_key op
  save_text op (some text) =
      if text == ""
      then save_key op
      else save_parsed op (parse_again op text (parse false (default_source op) text))

  unfoldable pub save : NrtmOperation → Saved
  save op = save_text op op.object_text
