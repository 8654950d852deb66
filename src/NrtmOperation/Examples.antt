-- ===== src/NrtmOperation/Examples.antt =====
-- Tests of saving an operation, and its theorem at concrete data.
use irrd.Base.{String, ◌≡◌, refl, Bool, true, false, Option, none, some, [], ◌∷◌}
use irrd.NrtmOperation.{
  add_or_update, delete, RpslObject, Parsed, object, NrtmOperation, record_mirror_error,
  upsert_rpsl_object, delete_rpsl_object, save_object, save_key, save,
}
use irrd.NrtmOperation.Laws.{Sound, save-Sound}
use irrd.Rpki.{RpkiStatus, valid}
use irrd.ScopeFilter.{ScopeFilterStatus, in_scope}
use irrd.Text.{upper, lower}

abbrev route : RpslObject
route = record {
  pk = "192.0.2.0/24AS64496";
  rpsl_object_class = "route";
  is_key_cert = false;
  errors = [];
  parsed_source = some "ripe";
  is_route = true;
  has_prefix = true;
  asn_first = some 64496;
}

abbrev parse : Bool → Option String → String → Parsed
parse strict source text = object route

abbrev rpki : RpslObject → RpkiStatus
rpki o = valid

abbrev scope : RpslObject → ScopeFilterStatus
scope o = in_scope

abbrev add : NrtmOperation
add = record {
  source = "RIPE";
  operation = add_or_update;
  object_text = some "route: …";
  rpsl_pk = none;
  object_class = none;
  strict_validation_key_cert = false;
  rpki_aware = true;
  object_class_filter = [];
}

added : save parse rpki scope add ≡ (upsert_rpsl_object route (some valid) in_scope ∷ [], some true)
unfolding save save_object save_key upper lower
added = refl

foreign :
    save parse rpki scope (record add { source = "ARIN" }) ≡ (record_mirror_error ∷ [], some false)
unfolding added
foreign = refl

filtered :
    save parse rpki scope (record add { object_class_filter = "as-set" ∷ [] }) ≡ ([], some false)
unfolding added
filtered = refl

deleted :
    save parse rpki scope (record add {
      operation = delete;
      object_text = none;
      rpsl_pk = some "AS-ONE";
      object_class = some "as-set";
    })
    ≡ (delete_rpsl_object (some "AS-ONE") "as-set" ∷ [], some true)
unfolding added
deleted = refl

save-Sound_example : Sound parse rpki scope add (save parse rpki scope add)
save-Sound_example = save-Sound parse rpki scope add
