-- ===== src/ScopeFilter/All.antt =====
-- `ScopeFilterValidator.validate_all_rpsl_objects`: which objects change status, and in which of the
-- three lists each is returned.
use irrd.Base.{
  ℕ, String, ◌≡◌, ◌∙◌, Bool, true, false, not, ◌&&◌, Option, none, some, List, [], ◌∷◌, ◌++◌, map,
  filter, ◌==◌, PyEq, arith, append-nil, append_assoc, if◌then◌else◌, ◌↔◌,
}
use irrd.Conf.{Sources}
use irrd.Enrich.{enrich, three, with_extra, enrich-found}
use irrd.Ip.{IpLib}
use irrd.ScopeFilter.{
  ScopeFilterStatus, in_scope, out_scope_as, out_scope_prefix, Filters, validate_rpsl_data,
}

abbrev pub status_beq : ScopeFilterStatus → ScopeFilterStatus → Bool
status_beq in_scope in_scope = true
status_beq out_scope_as out_scope_as = true
status_beq out_scope_prefix out_scope_prefix = true
status_beq _ _ = false

pub status_beq_iff : (a b : ScopeFilterStatus) → (status_beq a b ≡ true) ↔ (a ≡ b)
status_beq_iff a b = ground arith

instance abbrev pub status_eq : PyEq ScopeFilterStatus
status_eq = record { same = status_beq; agrees = status_beq_iff }

-- A row of the query for all route(6) and aut-num objects
pub record ObjectRow : Type 0 where
  pub pk : String
  pub rpsl_pk : String
  pub prefix : Option String
  pub asn_first : Option ℕ
  pub source : String
  pub object_class : String
  pub scopefilter_status : ScopeFilterStatus

pub record ChangedRow : Type 0 where
  pub row : ObjectRow
  pub old_status : ScopeFilterStatus

abbrev pub pk_of : ChangedRow → String
pk_of c = c.row.pk

-- The `defaultdict` of changed rows by their new status
pub record Changes : Type 0 where
  pub to_in_scope : List ChangedRow
  pub to_out_as : List ChangedRow
  pub to_out_prefix : List ChangedRow

abbrev pub no_changes : Changes
no_changes = record { to_in_scope = []; to_out_as = []; to_out_prefix = [] }

unfoldable pub append_change : Changes → ScopeFilterStatus → ChangedRow → Changes
append_change c in_scope r = record c { to_in_scope = c.to_in_scope ++ r ∷ [] }
append_change c out_scope_as r = record c { to_out_as = c.to_out_as ++ r ∷ [] }
append_change c out_scope_prefix r = record c { to_out_prefix = c.to_out_prefix ++ r ∷ [] }

abbrev pub mark : ScopeFilterStatus → ObjectRow → ChangedRow
mark status r = record {
  row = record r { scopefilter_status = status };
  old_status = r.scopefilter_status;
}

module _ (L : IpLib) (f : Filters L) (sources : Sources) where
  -- `if result.get("prefix"): prefix = IP(result["prefix"])`, then the verdict on the row's data;
  -- `none` stands for a `ValueError`.
  abbrev pub verdict_of : ObjectRow → Option L.IP → Option ScopeFilterStatus
  verdict_of r prefix =
      elim (validate_rpsl_data L f sources r.source r.object_class prefix r.asn_first) [
        | none ↦ none
        | some (status, _) ↦ some status
      ]

  unfoldable pub new_status : ObjectRow → Option ScopeFilterStatus
  new_status r = elim r.prefix [
    | none ↦ verdict_of r none
    | some text ↦ elim (L.parse text) [ none ↦ none | some p ↦ verdict_of r (some p) ]
  ]

  unfoldable pub collect_changes : List ObjectRow → Changes → Option Changes
  unfolding append_change
  collect_changes [] c = some c
  collect_changes (r ∷ rows) c = elim (new_status r) [
    | none ↦ none
    | some status ↦
        collect_changes rows
          (if status == r.scopefilter_status then c else append_change c status (mark status r))
  ]

module _ {E : Type 0} (L : IpLib) (f : Filters L) (sources : Sources)
    (rows_per_pk : String → Option E) where
  -- The rows are the database's answer for all route(6) and aut-num objects.
  unfoldable pub validate_all_rpsl_objects :
      List ObjectRow
      → Option (List (ChangedRow × E) × List (ChangedRow × E) × List (ChangedRow × E))
  validate_all_rpsl_objects rows = elim (collect_changes L f sources rows no_changes) [
    | none ↦ none
    | some c ↦
        three (enrich pk_of rows_per_pk c.to_in_scope) (enrich pk_of rows_per_pk c.to_out_as)
          (enrich pk_of rows_per_pk c.to_out_prefix)
  ]

module _ (L : IpLib) (f : Filters L) (sources : Sources) where
  -- Every row has a verdict: the prefixes in the database can be read.
  abbrev pub Readable : List ObjectRow → Type 0
  Readable [] = Unit
  Readable (r ∷ rows) =
      ((s : ScopeFilterStatus) × (new_status L f sources r ≡ some s)) × Readable rows

  abbrev pub is_status : Option ScopeFilterStatus → ScopeFilterStatus → Bool
  is_status none s = false
  is_status (some t) s = t == s

  -- The rows whose verdict is the status and differs from the status in the database
  abbrev pub becomes : ScopeFilterStatus → ObjectRow → Bool
  becomes status r =
      is_status (new_status L f sources r) status && not (r.scopefilter_status == status)

  abbrev pub changed_to : ScopeFilterStatus → List ObjectRow → List ChangedRow
  changed_to status rows = map (mark status) (filter (becomes status) rows)

  collect_changes_from :
      (rows : List ObjectRow) (c : Changes)
      → Readable rows
      → collect_changes L f sources rows c
        ≡ some (record {
          to_in_scope = c.to_in_scope ++ changed_to in_scope rows;
          to_out_as = c.to_out_as ++ changed_to out_scope_as rows;
          to_out_prefix = c.to_out_prefix ++ changed_to out_scope_prefix rows;
        })
  unfolding collect_changes
  collect_changes_from [] c h = simp append-nil
  collect_changes_from (r ∷ rows) c ((s, e), h) =
      rw (e, collect_changes)
        (collect_changes_from rows _ h
          ∙ ground (
            arith,
            e,
            append_assoc c.to_in_scope (mark in_scope r ∷ []) (changed_to in_scope rows),
            append_assoc c.to_out_as (mark out_scope_as r ∷ []) (changed_to out_scope_as rows),
            append_assoc c.to_out_prefix (mark out_scope_prefix r ∷ [])
                (changed_to out_scope_prefix rows),
          ))

  -- Where the prefixes in the database can be read and the rows of all keys can be read again, the
  -- validation of all objects returns three lists: for each status, in the order of the
  -- database's answer, exactly the rows whose verdict is that status and differs from the status
  -- in the database, with the old status kept and the extra columns added.
  pub validate_all_rpsl_objects_lem :
      {E : Type 0} (extra : String → E) (rows : List ObjectRow)
      → Readable rows
      → validate_all_rpsl_objects L f sources (λ pk. some (extra pk)) rows
        ≡ some (
          with_extra pk_of extra (changed_to in_scope rows),
          with_extra pk_of extra (changed_to out_scope_as rows),
          with_extra pk_of extra (changed_to out_scope_prefix rows),
        )
  unfolding validate_all_rpsl_objects
  validate_all_rpsl_objects_lem extra rows h =
      rw (collect_changes_from rows no_changes h, validate_all_rpsl_objects)
        (simp (enrich-found pk_of extra))
