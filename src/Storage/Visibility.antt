-- ===== src/Storage/Visibility.antt =====
-- irrd/storage/database_handler.py: the updates of the RPKI and scope filter statuses against the rule that each change of the visibility of an
-- object is recorded.
use irrd.Base.{
  Bool, true, false, not, ◌&&◌, ◌≡◌, refl, sym, ap, ◌∙◌, Option, none, some, List, [], ◌∷◌, ◌++◌,
  if◌then◌else◌, inl, inr, In, In-append, arith, fun_ext,
}
use irrd.Rpki.{RpkiStatus, valid, invalid, not_found}
use irrd.Rpki as Rpki
use irrd.ScopeFilter.{ScopeFilterStatus, in_scope, out_scope_as, out_scope_prefix}
use irrd.ScopeFilter as ScopeFilter
use irrd.NrtmOperation.{DatabaseOperation, add_or_update, delete}
use irrd.Storage.{
  JournalEntryOrigin, rpki_status, scope_filter, Result, ok, fault, ◌>>=◌, object_is_visible,
}
use irrd.Storage.Sql.{Sql, HandlerSettings}
use irrd.Storage.Handler.{Handler, check_write_permitted, on_db}
use irrd.Storage.Statuses.{
  StatusChange, visible_now, rpki_visible_previously, scope_visible_previously, record_change,
  record_changes, write_rpki_statuses, write_scope_statuses, update_rpki_status,
  update_scopefilter_status,
}

-- What is recorded of an object: that it appeared or that it went away
abbrev pub change_of : Bool → Bool → Option DatabaseOperation
change_of true false = some add_or_update
change_of false true = some delete
change_of _ _ = none

bind_assoc :
    {A B C : Type 0} (m : Result A) (f : A → Result B) (g : B → Result C)
    → (m >>= f >>= g) ≡ (m >>= λ a. f a >>= g)
bind_assoc (ok a) f g = refl
bind_assoc (fault e) f g = refl

module _ {Db : Type 0} (sql : Sql Db) (conf : HandlerSettings) {S : Type 0}
    (origin : JournalEntryOrigin) (previously : StatusChange S → Bool) where
  abbrev pub announce_one :
      Option DatabaseOperation → StatusChange S → Handler Db → Result (Handler Db)
  announce_one none o h = ok h
  announce_one (some operation) o h = record_change sql conf operation origin o h

  -- The rule: each object is recorded by how its visibility changed.
  unfoldable pub announce : List (StatusChange S) → Handler Db → Result (Handler Db)
  announce [] h = ok h
  announce (o ∷ rows) h =
      announce_one (change_of (visible_now o) (previously o)) o h >>= announce rows

  pub announce-append :
      (xs ys : List (StatusChange S)) (h : Handler Db)
      → announce (xs ++ ys) h ≡ (announce xs h >>= announce ys)
  unfolding announce
  announce-append [] ys h = refl
  announce-append (o ∷ xs) ys h =
      ap (λ f. announce_one (change_of (visible_now o) (previously o)) o h >>= f)
        (fun_ext (λ g. announce-append xs ys g))
      ∙ sym (
          bind_assoc (announce_one (change_of (visible_now o) (previously o)) o h) (announce xs)
            (announce ys))

  one_step :
      (operation : DatabaseOperation) (o : StatusChange S) (h : Handler Db) (b : Bool)
      (change : Option DatabaseOperation) (f g : Handler Db → Result (Handler Db))
      → change ≡ (if b then some operation else none)
      → f ≡ g
      → (if b then record_change sql conf operation origin o h >>= f else f h)
        ≡ (announce_one change o h >>= g)
  one_step operation o h true change f g e p =
      ap (λ k. record_change sql conf operation origin o h >>= k) p
      ∙ ap (λ c. announce_one c o h >>= g) (sym e)
  one_step operation o h false change f g e p =
      ap (λ k. k h) p ∙ ap (λ c. announce_one c o h >>= g) (sym e)

  -- A loop whose condition says that the change is its operation
  pub record_changes-announce :
      (operation : DatabaseOperation) (condition : StatusChange S → Bool)
      (rows : List (StatusChange S)) (h : Handler Db)
      → ((o : StatusChange S)
          → In o rows
          → change_of (visible_now o) (previously o)
            ≡ (if condition o then some operation else none))
      → record_changes sql conf operation origin condition rows h ≡ announce rows h
  unfolding record_changes announce
  record_changes-announce operation condition [] h e = refl
  record_changes-announce operation condition (o ∷ rows) h e =
      one_step operation o h (condition o) (change_of (visible_now o) (previously o))
        (record_changes sql conf operation origin condition rows) (announce rows) (e o (inl refl))
        (fun_ext (λ g. record_changes-announce operation condition rows g (λ p m. e p (inr m))))

impossible : false ≡ true → ⊥
impossible e = cc

-- With a status that shows an object now, the object can only appear.
shown :
    (now before : Bool)
    → (before ≡ true → now ≡ true)
    → change_of now before ≡ (if now && not before then some add_or_update else none)
shown true true e = refl
shown true false e = refl
shown false true e = absurd (impossible (e refl))
shown false false e = refl

hidden :
    (now before : Bool)
    → now ≡ false
    → change_of now before ≡ (if not now && before then some delete else none)
hidden true before e = cc
hidden false true e = refl
hidden false false e = refl

rpki-shown :
    (o : StatusChange RpkiStatus)
    → Rpki.is_visible o.rpki ≡ true
    → rpki_visible_previously o ≡ true
    → visible_now o ≡ true
unfolding object_is_visible
rpki-shown o e p = ground (arith, e, p)

rpki-hidden : (o : StatusChange RpkiStatus) → Rpki.is_visible o.rpki ≡ false → visible_now o ≡ false
unfolding object_is_visible
rpki-hidden o e = ground (arith, e)

scope-shown :
    (o : StatusChange ScopeFilterStatus)
    → ScopeFilter.is_visible o.scopefilter ≡ true
    → scope_visible_previously o ≡ true
    → visible_now o ≡ true
unfolding object_is_visible
scope-shown o e p = ground (arith, e, p)

scope-hidden :
    (o : StatusChange ScopeFilterStatus)
    → ScopeFilter.is_visible o.scopefilter ≡ false
    → visible_now o ≡ false
unfolding object_is_visible
scope-hidden o e = ground (arith, e)

valid-visible : (s : RpkiStatus) → s ≡ valid → Rpki.is_visible s ≡ true
unfolding Rpki.is_visible
valid-visible s e = ap Rpki.is_visible e

not_found-visible : (s : RpkiStatus) → s ≡ not_found → Rpki.is_visible s ≡ true
unfolding Rpki.is_visible
not_found-visible s e = ap Rpki.is_visible e

invalid-hidden : (s : RpkiStatus) → s ≡ invalid → Rpki.is_visible s ≡ false
unfolding Rpki.is_visible
invalid-hidden s e = ap Rpki.is_visible e

in-visible : (s : ScopeFilterStatus) → s ≡ in_scope → ScopeFilter.is_visible s ≡ true
unfolding ScopeFilter.is_visible
in-visible s e = ap ScopeFilter.is_visible e

as-hidden : (s : ScopeFilterStatus) → s ≡ out_scope_as → ScopeFilter.is_visible s ≡ false
unfolding ScopeFilter.is_visible
as-hidden s e = ap ScopeFilter.is_visible e

prefix-hidden : (s : ScopeFilterStatus) → s ≡ out_scope_prefix → ScopeFilter.is_visible s ≡ false
unfolding ScopeFilter.is_visible
prefix-hidden s e = ap ScopeFilter.is_visible e

module _ {Db : Type 0} (sql : Sql Db) (conf : HandlerSettings) where
  -- Two loops after the check, each of which follows the rule
  two_loops :
      {S : Type 0} (origin : JournalEntryOrigin) (previously : StatusChange S → Bool)
      (xs ys : List (StatusChange S)) (start : Handler Db → Handler Db)
      (first second : Handler Db → Result (Handler Db)) (h : Handler Db)
      → ((g : Handler Db) → first g ≡ announce sql conf origin previously xs g)
      → ((g : Handler Db) → second g ≡ announce sql conf origin previously ys g)
      → (check_write_permitted h >>= (λ g. first (start g)) >>= second) ≡ (
          check_write_permitted h >>= λ g. announce sql conf origin previously (xs ++ ys) (start g))
  two_loops origin previously xs ys start first second h e f =
      bind_assoc (check_write_permitted h) (λ g. first (start g)) second
      ∙ ap (λ k. check_write_permitted h >>= k)
          (fun_ext (λ g.
            ap (λ m. m >>= second) (e (start g))
            ∙ ap (λ k. announce sql conf origin previously xs (start g) >>= k) (fun_ext f)
            ∙ sym (announce-append sql conf origin previously xs ys (start g))))

  -- Where the rows of the three lists have the statuses of their lists, the update of the RPKI status writes these
  -- statuses, and then records each object by the rule: as added where it was hidden and is now visible, as
  -- deleted where it was visible and is now hidden, and not at all where its visibility is the same.
  pub update_rpki_status-announce :
      (now_valid now_invalid now_not_found : List (StatusChange RpkiStatus)) (h : Handler Db)
      → ((o : StatusChange RpkiStatus) → In o now_valid → o.rpki ≡ valid)
      → ((o : StatusChange RpkiStatus) → In o now_invalid → o.rpki ≡ invalid)
      → ((o : StatusChange RpkiStatus) → In o now_not_found → o.rpki ≡ not_found)
      → update_rpki_status sql conf now_valid now_invalid now_not_found h ≡ (
          check_write_permitted h >>= λ g.
          announce sql conf rpki_status rpki_visible_previously
            ((now_valid ++ now_not_found) ++ now_invalid)
            (on_db sql conf (write_rpki_statuses sql conf now_valid now_invalid now_not_found) g))
  unfolding update_rpki_status
  update_rpki_status-announce v i n h is_valid is_invalid is_not_found =
      two_loops rpki_status rpki_visible_previously (v ++ n) i
        (on_db sql conf (write_rpki_statuses sql conf v i n)) _ _ h
        (λ g.
          record_changes-announce sql conf rpki_status rpki_visible_previously add_or_update _
            (v ++ n) g
            (λ o m. shown (visible_now o) (rpki_visible_previously o) (
              rpki-shown o (elim (In-append o v n m) [
                | inl k ↦ valid-visible o.rpki (is_valid o k)
                | inr k ↦ not_found-visible o.rpki (is_not_found o k)
              ]))))
        (λ g.
          record_changes-announce sql conf rpki_status rpki_visible_previously delete _ i g (λ o m.
            hidden (visible_now o) (rpki_visible_previously o)
              (rpki-hidden o (invalid-hidden o.rpki (is_invalid o m)))))

  -- Where the rows of the three lists have the statuses of their lists, the update of the scope filter status writes these
  -- statuses, by their primary keys, and then records each object by the same rule.
  pub update_scopefilter_status-announce :
      (now_in_scope now_out_scope_as now_out_scope_prefix : List (StatusChange ScopeFilterStatus))
      (h : Handler Db)
      → ((o : StatusChange ScopeFilterStatus) → In o now_in_scope → o.scopefilter ≡ in_scope)
      → ((o : StatusChange ScopeFilterStatus)
          → In o now_out_scope_as
          → o.scopefilter ≡ out_scope_as)
      → ((o : StatusChange ScopeFilterStatus)
          → In o now_out_scope_prefix
          → o.scopefilter ≡ out_scope_prefix)
      → update_scopefilter_status sql conf now_in_scope now_out_scope_as now_out_scope_prefix h ≡ (
          check_write_permitted h >>= λ g.
          announce sql conf scope_filter scope_visible_previously
            (now_in_scope ++ (now_out_scope_as ++ now_out_scope_prefix))
            (on_db sql conf
              (write_scope_statuses sql conf now_in_scope now_out_scope_as now_out_scope_prefix)
              g))
  unfolding update_scopefilter_status
  update_scopefilter_status-announce i a p h is_in is_as is_prefix =
      two_loops scope_filter scope_visible_previously i (a ++ p)
        (on_db sql conf (write_scope_statuses sql conf i a p)) _ _ h
        (λ g.
          record_changes-announce sql conf scope_filter scope_visible_previously add_or_update _ i g
            (λ o m.
              shown (visible_now o) (scope_visible_previously o)
                (scope-shown o (in-visible o.scopefilter (is_in o m)))))
        (λ g.
          record_changes-announce sql conf scope_filter scope_visible_previously delete _ (a ++ p) g
            (λ o m. hidden (visible_now o) (scope_visible_previously o) (
              scope-hidden o (elim (In-append o a p m) [
                | inl k ↦ as-hidden o.scopefilter (is_as o k)
                | inr k ↦ prefix-hidden o.scopefilter (is_prefix o k)
              ]))))
