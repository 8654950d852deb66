-- ===== src/Updates/Suspension/Restored.antt =====
-- irrd/updates/suspension.py: a reactivation adds the restored objects and replaces none.
use irrd.Base.{
  ℕ, String, Bool, true, false, not, ◌≡◌, refl, sym, ◌∙◌, subst, Option, List, [], ◌∷◌, ◌++◌,
  is_nil, contains, string_eq, if◌then◌else◌, ◌⊎◌, inl, inr, ◌↔◌, In, In-append, In-append_left,
  In-append_right, arith,
}
use irrd.Rpki.{RpkiStatus}
use irrd.ScopeFilter.{ScopeFilterStatus}
use irrd.Updates.Suspension.{
  Restorable, SuspendedRow, Suspensions, Restoring, skip_restore, restore, restore_row,
  restore_rows, finish_restore, reactivate_for_mntner,
}

-- The object has this key.
abbrev pub Keyed : Restorable → String → String → Type 0
Keyed o pk object_class = (o.object_pk ≡ pk) × (o.rpsl_object_class ≡ object_class)

module _ {Db : Type 0} (S : Suspensions Db)
    (upserts : (o : Restorable) (scope : ScopeFilterStatus) (rpki : Option RpkiStatus) (created : ℕ)
        (db : Db) (pk object_class : String)
      → (S.pk_exists (S.upsert_rpsl_object o scope rpki created db) pk object_class ≡ true)
        ↔ ((S.pk_exists db pk object_class ≡ true) ⊎ Keyed o pk object_class))
    (keeps : (pks : List String) (db : Db) (pk object_class : String)
      → S.pk_exists (S.delete_suspended_rpsl_objects pks db) pk object_class
        ≡ S.pk_exists db pk object_class) where
  -- The database has what it had, and the objects, which it had not.
  pub record Adds (db : Db) (objects : List Restorable) (db' : Db) : Type 0 where
    pub kept :
        (pk object_class : String)
        → S.pk_exists db pk object_class ≡ true
        → S.pk_exists db' pk object_class ≡ true
    pub source_of :
        (pk object_class : String)
        → S.pk_exists db' pk object_class ≡ true
        → (S.pk_exists db pk object_class ≡ true)
          ⊎ ((o : Restorable) × In o objects × Keyed o pk object_class)
    pub added :
        (o : Restorable)
        → In o objects
        → (S.pk_exists db o.object_pk o.rpsl_object_class ≡ false)
          × (S.pk_exists db' o.object_pk o.rpsl_object_class ≡ true)

  not_before : (b b' : Bool) → (b ≡ true → b' ≡ true) → b' ≡ false → b ≡ false
  not_before true b' h e = absurd (ground (arith, h refl))
  not_before false b' h e = refl

  restore-Adds :
      (db : Db) (row : SuspendedRow) (o : Restorable) (s : Restoring Db)
      → S.pk_exists s.db o.object_pk o.rpsl_object_class ≡ false
      → Adds db s.restored_objects s.db
      → Adds db ((restore S row o s).restored_objects) ((restore S row o s).db)
  restore-Adds db row o s fresh a = record {
    kept = λ pk c e. (upserts o _ _ row.original_created s.db pk c).1 (inl (a.kept pk c e));
    source_of = λ pk c e. elim ((upserts o _ _ row.original_created s.db pk c).0 e) [
      | inl old ↦ elim (a.source_of pk c old) [
        | inl before ↦ inl before
        | inr known ↦
            let (q, m, k) = known in inr (q, In-append_left q s.restored_objects (o ∷ []) m, k)
      ]
      | inr here ↦ inr (o, In-append_right o s.restored_objects (o ∷ []) (inl refl), here)
    ];
    added = λ q m. elim (In-append q s.restored_objects (o ∷ []) m) [
      | inl old ↦
          let (e, f) = a.added q old in (e, (upserts o _ _ row.original_created s.db _ _).1 (inl f))
      | inr (inl same) ↦
          subst
            (λ x.
              (S.pk_exists db x.object_pk x.rpsl_object_class ≡ false)
              × (S.pk_exists ((restore S row o s).db) x.object_pk x.rpsl_object_class ≡ true))
            same
            (
              not_before _ _ (a.kept o.object_pk o.rpsl_object_class) fresh,
              (upserts o _ _ row.original_created s.db _ _).1 (inr (refl, refl)),
            )
      | inr (inr none_left) ↦ absurd none_left
    ];
  }

  if-Adds :
      (db : Db) (b : Bool) (s t : Restoring Db)
      → Adds db s.restored_objects s.db
      → (b ≡ false → Adds db t.restored_objects t.db)
      → Adds db ((if b then s else t).restored_objects) ((if b then s else t).db)
  if-Adds db true s t h k = h
  if-Adds db false s t h k = k refl

  rows-Adds :
      (db : Db) (rows : List SuspendedRow) (s : Restoring Db)
      → Adds db s.restored_objects s.db
      → Adds db ((restore_rows S rows s).restored_objects) ((restore_rows S rows s).db)
  rows-Adds db [] s a = a
  rows-Adds db (row ∷ rows) s a =
      let o = S.read row.object_text in
      rows-Adds db rows (restore_row S row s) (
        if-Adds db (contains s.restored_row_pk_uuids row.row_pk) s
          (if S.pk_exists s.db o.object_pk o.rpsl_object_class
            then skip_restore S o s
            else restore S row o s)
          a
          (λ new.
            if-Adds db (S.pk_exists s.db o.object_pk o.rpsl_object_class) (skip_restore S o s)
              (restore S row o s) a (λ fresh. restore-Adds db row o s fresh a)))

  deleted-Adds :
      (pks : List String) (db db' : Db) (objects : List Restorable)
      → Adds db objects db'
      → Adds db objects (S.delete_suspended_rpsl_objects pks db')
  deleted-Adds pks db db' objects a = record {
    kept = λ pk c e. keeps pks db' pk c ∙ a.kept pk c e;
    source_of = λ pk c e. a.source_of pk c (sym (keeps pks db' pk c) ∙ e);
    added =
        λ o m. let (e, f) = a.added o m in (e, keeps pks db' o.object_pk o.rpsl_object_class ∙ f);
  }

  abbrev Adding : Db → String ⊎ (Db × List Restorable × List String) → Type 0
  Adding db (inl message) = Unit
  Adding db (inr (db', objects, messages)) = Adds db objects db'

  if-Adding :
      (db : Db) (b : Bool) (message : String) (out : String ⊎ (Db × List Restorable × List String))
      → Adding db out
      → Adding db (if b then inl message else out)
  if-Adding db true message out h = tt
  if-Adding db false message out h = h

  reactivate-Adding :
      (mntner_pk : String) (db : Db) → Adding db (reactivate_for_mntner S mntner_pk db)
  unfolding reactivate_for_mntner
  reactivate-Adding mntner_pk db =
      let results : List SuspendedRow = S.suspended_mntners db mntner_pk in
      let start : Restoring Db = record {
        db = db;
        restored_row_pk_uuids = [];
        restored_objects = [];
        info_messages = [];
      } in
      let s : Restoring Db =
        restore_rows S (results ++ S.suspended_for_mntner db mntner_pk) start in
      if-Adding db (not S.authoritative) _ _ (
        if-Adding db (S.pk_exists db mntner_pk "mntner") _ _ (
          if-Adding db (is_nil results) _ (inr (finish_restore S s)) (
            deleted-Adds s.restored_row_pk_uuids db s.db s.restored_objects (
              rows-Adds db (results ++ S.suspended_for_mntner db mntner_pk) start (record {
                kept = λ pk c e. e;
                source_of = λ pk c e. inl e;
                added = λ o m. absurd m;
              })))))

  -- Given that an upsert adds the key of its object to those in the database, and that the deletion of suspended rows leaves these: after a reactivation that succeeds, the database has exactly the keys it had and those of the objects that are returned as restored, and of these objects it had none before.
  pub reactivate_for_mntner-Adds :
      (mntner_pk : String) (db db' : Db) (objects : List Restorable) (messages : List String)
      → reactivate_for_mntner S mntner_pk db ≡ inr (db', objects, messages)
      → Adds db objects db'
  reactivate_for_mntner-Adds mntner_pk db db' objects messages e =
      subst (Adding db) e (reactivate-Adding mntner_pk db)
