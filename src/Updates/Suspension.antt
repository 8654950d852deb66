-- ===== src/Updates/Suspension.antt =====
-- irrd/updates/suspension.py: `reactivate_for_mntner`.
pub mod Restored
mod Examples
use irrd.Base.{
  ℕ, zero, suc, String, Bool, true, false, not, ◌&&◌, ◌⊎◌, inl, inr, Option, none, some, List, [],
  ◌∷◌, ◌++◌, is_nil, contains, add, string_eq, if◌then◌else◌,
}
use irrd.Rpki.{RpkiStatus}
use irrd.ScopeFilter.{ScopeFilterStatus}
use irrd.Updates.{concat}

-- A mntner or another object, with its text for messages
pub record Restorable : Type 0 where
  pub rpsl_object_class : String
  pub object_pk : String
  pub is_route : Bool
  pub asn_first : Option ℕ
  pub shown : String

pub record SuspendedRow : Type 0 where
  pub row_pk : String
  pub object_text : String
  pub original_created : ℕ

-- The settings, the validators and the statements, for the source of the mntner
pub record Suspensions (Db : Type 0) : Type 0 where
  pub source : String
  pub authoritative : Bool
  pub rpki_aware : Bool
  pub pk_exists : Db → String → String → Bool
  pub suspended_mntners : Db → String → List SuspendedRow
  pub suspended_for_mntner : Db → String → List SuspendedRow
  pub read : String → Restorable
  pub scope_of : Restorable → ScopeFilterStatus
  pub rpki_of : Restorable → RpkiStatus
  pub upsert_rpsl_object : Restorable → ScopeFilterStatus → Option RpkiStatus → ℕ → Db → Db
  pub delete_suspended_rpsl_objects : List String → Db → Db

pub record Restoring (Db : Type 0) : Type 0 where
  pub db : Db
  pub restored_row_pk_uuids : List String
  pub restored_objects : List Restorable
  pub info_messages : List String

abbrev pub is_nonzero : Option ℕ → Bool
is_nonzero none = false
is_nonzero (some zero) = false
is_nonzero (some (suc n)) = true

module _ {Db : Type 0} (S : Suspensions Db) where
  abbrev pub restored_rpki_status : Restorable → Option RpkiStatus
  restored_rpki_status o =
      if S.rpki_aware && (o.is_route && is_nonzero o.asn_first) then some (S.rpki_of o) else none

  abbrev pub skip_restore : Restorable → Restoring Db → Restoring Db
  skip_restore o s = record s {
    info_messages =
        s.info_messages
        ++ concat (
            "Skipping restore of object " ∷ o.shown
            ∷ " - an object already exists with the same key" ∷ [])
          ∷ [];
  }

  abbrev pub restore : SuspendedRow → Restorable → Restoring Db → Restoring Db
  restore row o s = record s {
    db = S.upsert_rpsl_object o (S.scope_of o) (restored_rpki_status o) row.original_created s.db;
    restored_row_pk_uuids = add row.row_pk s.restored_row_pk_uuids;
    restored_objects = s.restored_objects ++ o ∷ [];
  }

  abbrev pub restore_row : SuspendedRow → Restoring Db → Restoring Db
  restore_row row s =
      let o = S.read row.object_text in
      if contains s.restored_row_pk_uuids row.row_pk
      then s
      else if S.pk_exists s.db o.object_pk o.rpsl_object_class
      then skip_restore o s
      else restore row o s

  abbrev pub restore_rows : List SuspendedRow → Restoring Db → Restoring Db
  restore_rows [] s = s
  restore_rows (row ∷ rows) s = restore_rows rows (restore_row row s)

  abbrev pub finish_restore : Restoring Db → Db × List Restorable × List String
  finish_restore s = (
    S.delete_suspended_rpsl_objects s.restored_row_pk_uuids s.db,
    s.restored_objects,
    s.info_messages,
  )

  -- The message of the `ValueError`, or the database with what was restored and the messages
  unfoldable pub reactivate_for_mntner : String → Db → String ⊎ (Db × List Restorable × List String)
  reactivate_for_mntner mntner_pk db =
      let results = S.suspended_mntners db mntner_pk in
      if not S.authoritative
      then inl (concat ("Not authoritative for source " ∷ S.source ∷ []))
      else if S.pk_exists db mntner_pk "mntner"
      then inl (
          concat (
            "source " ∷ S.source ∷ " has a currently active mntner " ∷ mntner_pk
            ∷ " - can not restore the suspended one" ∷ []))
      else if is_nil results
      then inl (
          concat
            ("mntner " ∷ mntner_pk ∷ " not found in suspended store for source " ∷ S.source ∷ []))
      else inr (
          finish_restore (
            restore_rows (results ++ S.suspended_for_mntner db mntner_pk) (record {
              db = db;
              restored_row_pk_uuids = [];
              restored_objects = [];
              info_messages = [];
            })))
