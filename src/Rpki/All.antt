-- ===== src/Rpki/All.antt =====
-- `BulkRouteROAValidator.validate_all_routes`: which routes change status, and in which of the three
-- lists each is returned.
use irrd.Base.{
  ℕ, String, ◌≡◌, ◌∙◌, Bool, true, false, not, ◌&&◌, Option, some, List, [], ◌∷◌, ◌++◌, map, filter,
  ◌==◌, PyEq, string_eq, arith, append-nil, append_assoc, if◌then◌else◌, ◌↔◌,
}
use irrd.Enrich.{enrich, three, with_extra, enrich-found}
use irrd.Ip.{IpLib}
use irrd.RoutePref.Radix.{RoutePreferenceStatus}
use irrd.ScopeFilter.{ScopeFilterStatus}
use irrd.Rpki.Trie.{TrieLib}
use irrd.Rpki.{RpkiStatus, valid, invalid, not_found, BulkValidator, validate_route}

abbrev pub status_beq : RpkiStatus → RpkiStatus → Bool
status_beq valid valid = true
status_beq invalid invalid = true
status_beq not_found not_found = true
status_beq _ _ = false

pub status_beq_iff : (a b : RpkiStatus) → (status_beq a b ≡ true) ↔ (a ≡ b)
status_beq_iff a b = ground arith

instance abbrev pub status_eq : PyEq RpkiStatus
status_eq = record { same = status_beq; agrees = status_beq_iff }

-- A row of the query for all route(6) objects
pub record RouteRow : Type 0 where
  pub pk : String
  pub rpsl_pk : String
  pub ip_first : String
  pub prefix_length : ℕ
  pub asn_first : ℕ
  pub source : String
  pub rpki_status : RpkiStatus

-- The columns that are only read for rows with a changed status
pub record Extra : Type 0 where
  pub prefix : String
  pub object_text : String
  pub object_class : String
  pub scopefilter_status : ScopeFilterStatus
  pub route_preference_status : RoutePreferenceStatus

pub record ChangedRow : Type 0 where
  pub row : RouteRow
  pub old_status : RpkiStatus

-- The `defaultdict` of changed rows by their new status
pub record Changes : Type 0 where
  pub to_valid : List ChangedRow
  pub to_invalid : List ChangedRow
  pub to_not_found : List ChangedRow

abbrev pub no_changes : Changes
no_changes = record { to_valid = []; to_invalid = []; to_not_found = [] }

abbrev pub pseudo_source : String
pseudo_source = "RPKI"

-- `objs_changed[new_status].append(result)`
unfoldable pub append_change : Changes → RpkiStatus → ChangedRow → Changes
append_change c valid r = record c { to_valid = c.to_valid ++ r ∷ [] }
append_change c invalid r = record c { to_invalid = c.to_invalid ++ r ∷ [] }
append_change c not_found r = record c { to_not_found = c.to_not_found ++ r ∷ [] }

module _ (L : IpLib) (T : TrieLib) (b : BulkValidator T) where
  abbrev pub new_status : RouteRow → RpkiStatus
  new_status r = validate_route L T b r.ip_first r.prefix_length r.asn_first r.source

  unfoldable pub collect_changes : List RouteRow → Changes → Changes
  unfolding append_change
  collect_changes [] c = c
  collect_changes (r ∷ rows) c =
      let status = new_status r in
      collect_changes rows (
        if r.source == pseudo_source
        then c
        else if status == r.rpki_status
        then c
        else append_change c status
            (record { row = record r { rpki_status = status }; old_status = r.rpki_status }))

abbrev pub pk_of : ChangedRow → String
pk_of c = c.row.pk

abbrev pub Enriched : Type 0
Enriched = List (ChangedRow × Extra)

module _ (L : IpLib) (T : TrieLib) (b : BulkValidator T) (rows_per_pk : String → Option Extra) where
  -- The rows are the database's answer for the route(6) objects of the asked sources.
  unfoldable pub validate_all_routes : List RouteRow → Option (Enriched × Enriched × Enriched)
  validate_all_routes rows =
      let c = collect_changes L T b rows no_changes in
      three (enrich pk_of rows_per_pk c.to_valid) (enrich pk_of rows_per_pk c.to_invalid)
        (enrich pk_of rows_per_pk c.to_not_found)

module _ (L : IpLib) (T : TrieLib) (b : BulkValidator T) where
  -- The rows whose status is to become `status`: those of real sources whose verdict is `status` and
  -- differs from the status in the database
  abbrev pub becomes : RpkiStatus → RouteRow → Bool
  becomes status r =
      not (r.source == pseudo_source)
      && (new_status L T b r == status && not (r.rpki_status == status))

  abbrev pub mark : RpkiStatus → RouteRow → ChangedRow
  mark status r = record { row = record r { rpki_status = status }; old_status = r.rpki_status }

  abbrev pub changed_to : RpkiStatus → List RouteRow → List ChangedRow
  changed_to status rows = map (mark status) (filter (becomes status) rows)

  collect_changes_from :
      (rows : List RouteRow) (c : Changes)
      → collect_changes L T b rows c ≡ record {
        to_valid = c.to_valid ++ changed_to valid rows;
        to_invalid = c.to_invalid ++ changed_to invalid rows;
        to_not_found = c.to_not_found ++ changed_to not_found rows;
      }
  unfolding collect_changes
  collect_changes_from [] c = simp append-nil
  collect_changes_from (r ∷ rows) c =
      collect_changes_from rows _
      ∙ ground (
        arith,
        append_assoc c.to_valid (mark valid r ∷ []) (changed_to valid rows),
        append_assoc c.to_invalid (mark invalid r ∷ []) (changed_to invalid rows),
        append_assoc c.to_not_found (mark not_found r ∷ []) (changed_to not_found rows),
      )

  -- Each of the three lists holds exactly the rows of real sources whose verdict is its status
  -- and differs from the status in the database, in the order of the database's answer, with
  -- the old status kept.
  pub collect_changes_lem :
      (rows : List RouteRow)
      → collect_changes L T b rows no_changes ≡ record {
        to_valid = changed_to valid rows;
        to_invalid = changed_to invalid rows;
        to_not_found = changed_to not_found rows;
      }
  collect_changes_lem rows = collect_changes_from rows no_changes

module _ (L : IpLib) (T : TrieLib) (b : BulkValidator T) where
  -- Where the rows of all keys can be read again, the validation of all routes returns three lists:
  -- for each status, in the order of the database's answer, exactly the rows of real sources whose
  -- verdict is that status and differs from the status in the database, with the old status
  -- kept and the extra columns added.
  pub validate_all_routes_lem :
      (extra : String → Extra) (rows : List RouteRow)
      → validate_all_routes L T b (λ pk. some (extra pk)) rows
        ≡ some (
          with_extra pk_of extra (changed_to L T b valid rows),
          with_extra pk_of extra (changed_to L T b invalid rows),
          with_extra pk_of extra (changed_to L T b not_found rows),
        )
  unfolding validate_all_routes
  validate_all_routes_lem extra rows = rw collect_changes_lem (simp (enrich-found pk_of extra))
