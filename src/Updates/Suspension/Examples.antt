-- ===== src/Updates/Suspension/Examples.antt =====
-- A run of a reactivation (irrd/updates/suspension.py) on a database that is a list of keys.
use irrd.Base.{
  ℕ, String, Bool, true, false, ◌&&◌, ◌||◌, ◌≡◌, refl, Option, none, List, [], ◌∷◌, ◌==◌, string_eq,
  if◌then◌else◌, ◌⊎◌, inl, inr, ◌↔◌, beq_iff, arith,
}
use irrd.Rpki.{RpkiStatus, valid}
use irrd.ScopeFilter.{ScopeFilterStatus, in_scope}
use irrd.Text.{append}
use irrd.Updates.Suspension.{Restorable, SuspendedRow, Suspensions, reactivate_for_mntner}
use irrd.Updates.Suspension.Restored.{Keyed, Adds, reactivate_for_mntner-Adds}

abbrev Keys : Type 0
Keys = List (String × String)

abbrev has_key : Keys → String → String → Bool
has_key [] pk object_class = false
has_key ((k, c) ∷ keys) pk object_class =
    k == pk && c == object_class || has_key keys pk object_class

abbrev restorable : String → String → Restorable
restorable object_class pk = record {
  rpsl_object_class = object_class;
  object_pk = pk;
  is_route = false;
  asn_first = none;
  shown = pk;
}

abbrev row : String → String → SuspendedRow
row uuid text = record { row_pk = uuid; object_text = text; original_created = 3 }

abbrev suspensions : Suspensions Keys
suspensions = record {
  source = "TEST";
  authoritative = true;
  rpki_aware = true;
  pk_exists = has_key;
  suspended_mntners = λ db pk. row "1" "TEST-MNT" ∷ [];
  suspended_for_mntner = λ db pk. row "1" "TEST-MNT" ∷ row "2" "PERSON-TEST" ∷ row "3" "TAKEN" ∷ [];
  read = λ text. restorable (if text == "TEST-MNT" then "mntner" else "person") text;
  scope_of = λ o. in_scope;
  rpki_of = λ o. valid;
  upsert_rpsl_object = λ o scope rpki created db. (o.object_pk, o.rpsl_object_class) ∷ db;
  delete_suspended_rpsl_objects = λ pks db. db;
}

upserts :
    (o : Restorable) (scope : ScopeFilterStatus) (rpki : Option RpkiStatus) (created : ℕ)
    (db : Keys) (pk object_class : String)
    → (has_key ((o.object_pk, o.rpsl_object_class) ∷ db) pk object_class ≡ true)
      ↔ ((has_key db pk object_class ≡ true) ⊎ Keyed o pk object_class)
upserts o scope rpki created db pk object_class =
    ground (arith, beq_iff o.object_pk pk, beq_iff o.rpsl_object_class object_class)

abbrev before : Keys
before = ("TAKEN", "person") ∷ []

abbrev restored : List Restorable
restored = restorable "mntner" "TEST-MNT" ∷ restorable "person" "PERSON-TEST" ∷ []

abbrev after : Keys
after = ("PERSON-TEST", "person") ∷ ("TEST-MNT", "mntner") ∷ before

abbrev messages : List String
messages = "Skipping restore of object TAKEN - an object already exists with the same key" ∷ []

reactivate-before :
    reactivate_for_mntner suspensions "TEST-MNT" before ≡ inr (after, restored, messages)
unfolding reactivate_for_mntner append
reactivate-before = refl

-- A maintainer that is active is not restored.
reactivate-after :
    reactivate_for_mntner suspensions "TEST-MNT" after
    ≡ inl "source TEST has a currently active mntner TEST-MNT - can not restore the suspended one"
unfolding reactivate_for_mntner append
reactivate-after = refl

reactivate_for_mntner-Adds_example :
    Adds suspensions upserts (λ pks db pk c. refl) before restored after
reactivate_for_mntner-Adds_example =
    reactivate_for_mntner-Adds suspensions upserts (λ pks db pk c. refl) "TEST-MNT" before after
      restored messages reactivate-before
