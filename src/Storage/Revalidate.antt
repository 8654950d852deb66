-- ===== src/Storage/Revalidate.antt =====
-- irrd/rpki/validators.py and irrd/storage/database_handler.py: the statuses of `validate_all_routes`, written back.
use irrd.Base.{
  String, Bool, true, false, not, ◌&&◌, ◌≡◌, refl, sym, ap, ◌∙◌, subst, some, List, [], ◌∷◌, map,
  contains, ◌==◌, string_eq, if◌then◌else◌, Bool-cases, ◌⊎◌, inl, inr, In, map-In, In-map,
  filter-In, In-filter, contains-In, In-contains, update-In, In-update_new, arith,
}
use irrd.Enrich.{enrich, with_extra}
use irrd.Ip.{IpLib}
use irrd.Rpki.Trie.{TrieLib}
use irrd.Rpki.{RpkiStatus, valid, invalid, not_found, BulkValidator}
use irrd.Rpki.All.{
  status_eq, RouteRow, Extra, ChangedRow, Enriched, pk_of, pseudo_source, new_status,
  collect_changes, no_changes, becomes, mark, changed_to, validate_all_routes,
  validate_all_routes_lem,
}
use irrd.Storage.Sql.{Sql, HandlerSettings}
use irrd.Storage.Statuses.{StatusChange, keys_of, write_rpki, write_rpki_statuses}

-- A returned row, as it is passed to the database handler
abbrev pub status_change : ChangedRow × Extra → StatusChange RpkiStatus
status_change (c, extra) = record {
  pk = c.row.pk;
  rpsl_pk = c.row.rpsl_pk;
  source = c.row.source;
  object_class = extra.object_class;
  object_text = extra.object_text;
  prefix = some extra.prefix;
  old_status = c.old_status;
  rpki = c.row.rpki_status;
  scopefilter = extra.scopefilter_status;
  preference = extra.route_preference_status;
}

abbrev pub status_changes : Enriched → List (StatusChange RpkiStatus)
status_changes = map status_change

-- `UPDATE rpsl_objects SET rpki_status = … WHERE pk IN …`
abbrev pub with_status : List String → RpkiStatus → RouteRow → RouteRow
with_status pks status r = record r {
  rpki_status = if contains pks r.pk then status else r.rpki_status;
}

-- No two rows have the same primary key.
abbrev pub DistinctPks : List RouteRow → Type 0
DistinctPks rows = (r r' : RouteRow) → In r rows → In r' rows → r.pk ≡ r'.pk → r ≡ r'

map-same :
    (f : RouteRow → RouteRow) (rows : List RouteRow)
    → ((r : RouteRow) → f r ≡ r)
    → map f rows ≡ rows
map-same f [] h = refl
map-same f (r ∷ rows) h = rw (h r, map-same f rows h)

true-false : (b : Bool) → b ≡ true → b ≡ false → ⊥
true-false b e f = cc

some_same : {A : Type 0} (a b : A) → some a ≡ some b → a ≡ b
some_same a b e = cc

after_eq :
    (c1 c2 c3 b1 b2 b3 : Bool) (t : RpkiStatus)
    → c1 ≡ b1
    → c2 ≡ b2
    → c3 ≡ b3
    → (if c1 then not_found else if c2 then invalid else if c3 then valid else t)
      ≡ (if b1 then not_found else if b2 then invalid else if b3 then valid else t)
after_eq c1 c2 c3 b1 b2 b3 t e f g = rw (e, f, g)

-- After the three statements, a status of a row that was in no list is its verdict.
chosen :
    (pseudo : Bool) (s t : RpkiStatus)
    → pseudo ≡ false
    → (let becoming : RpkiStatus → Bool = λ x. not pseudo && (s == x && not (t == x)) in
        s == (
          if becoming not_found
          then not_found
          else if becoming invalid
          then invalid
          else if becoming valid
          then valid
          else t))
      ≡ true
chosen pseudo s t e = ground arith

module _ (L : IpLib) (T : TrieLib) (b : BulkValidator T) where
  -- A row that the validation leaves as it is
  abbrev Settled : RouteRow → Type 0
  Settled r = ((r.source == pseudo_source) ≡ true) ⊎ ((new_status L T b r == r.rpki_status) ≡ true)

  collect-Settled :
      (rows : List RouteRow)
      → ((r : RouteRow) → In r rows → Settled r)
      → collect_changes L T b rows no_changes ≡ no_changes
  unfolding collect_changes
  collect-Settled [] h = refl
  collect-Settled (r ∷ rows) h =
      let rest = collect-Settled rows (λ q m. h q (inr m)) in
      elim (h r (inl refl)) [
        | inl pseudo ↦ rw (pseudo) rest
        | inr same ↦ elim (Bool-cases (r.source == pseudo_source)) [
          | inl pseudo ↦ rw (pseudo) rest
          | inr real ↦ rw (real, same) rest
        ]
      ]

  -- The keys of a returned list are those of the rows that are to get its status.
  abbrev keys_for : (String → Extra) → RpkiStatus → List RouteRow → List String
  keys_for extra status rows =
      keys_of (λ o. o.pk) (status_changes (with_extra pk_of extra (changed_to L T b status rows)))

  keys_for-becomes :
      (extra : String → Extra) (status : RpkiStatus) (rows : List RouteRow) (r : RouteRow)
      → DistinctPks rows
      → In r rows
      → contains (keys_for extra status rows) r.pk ≡ becomes L T b status r
  keys_for-becomes extra status rows r distinct m =
      let changed = changed_to L T b status rows in
      let returned = with_extra pk_of extra changed in
      elim (Bool-cases (becomes L T b status r)) [
        | inl changes ↦
            In-contains r.pk (keys_for extra status rows) (
              In-update_new r.pk [] _ (
                In-map (λ o. o.pk) _ (status_changes returned)
                  (In-map status_change _ returned (
                    In-map (λ c. (c, extra (pk_of c))) _ changed
                      (In-map (mark L T b status) r _
                        (In-filter (becomes L T b status) r rows m changes))))))
            ∙ sym changes
        | inr settled ↦ elim (Bool-cases (contains (keys_for extra status rows) r.pk)) [
          | inr absent ↦ absent ∙ sym settled
          | inl listed ↦
              elim (update-In r.pk [] _ (contains-In r.pk (keys_for extra status rows) listed)) [
                | inl none_yet ↦ absurd none_yet
                | inr k ↦
                    let (o, k1, e1) = map-In (λ o. o.pk) r.pk (status_changes returned) k in
                    let (p, k2, e2) = map-In status_change o returned k1 in
                    let (c, k3, e3) = map-In (λ c. (c, extra (pk_of c))) p changed k2 in
                    let (q, k4, e4) = map-In (mark L T b status) c _ k3 in
                    let (n, due) = filter-In (becomes L T b status) q rows k4 in
                    let same : q ≡ r =
                      distinct q r n m (
                        ap (λ x. x.row.pk) e4 ∙ ap (λ x. x.0.row.pk) e3 ∙ ap (λ x. x.pk) e2 ∙ e1) in
                    absurd (true-false _ (ap (becomes L T b status) (sym same) ∙ due) settled)
              ]
        ]
      ]

  module _ {Db : Type 0} (sql : Sql Db) (conf : HandlerSettings) (routes : Db → List RouteRow)
      (sets : (pks : List String) (status : RpkiStatus) (db : Db)
        → routes (sql.set_rpki_status pks status db)
          ≡ map (with_status pks status) (routes db)) where
    write_rpki-routes :
        (status : RpkiStatus) (rows : List (StatusChange RpkiStatus)) (db : Db)
        → routes (write_rpki sql conf status rows db)
          ≡ map (with_status (keys_of (λ o. o.pk) rows) status) (routes db)
    write_rpki-routes status [] db = sym (map-same (with_status [] status) (routes db) (λ r. refl))
    write_rpki-routes status (o ∷ rows) db = sets (keys_of (λ x. x.pk) (o ∷ rows)) status db

    written-routes :
        (v i n : List (StatusChange RpkiStatus)) (db : Db)
        → routes (write_rpki_statuses sql conf v i n db)
          ≡ map (with_status (keys_of (λ o. o.pk) n) not_found) (
              map
                (with_status (keys_of (λ o. o.pk) i) invalid)
                (map (with_status (keys_of (λ o. o.pk) v) valid) (routes db)))
    written-routes v i n db =
        write_rpki-routes not_found n _
        ∙ ap (map (with_status (keys_of (λ o. o.pk) n) not_found)) (
            write_rpki-routes invalid i _
            ∙ ap (map (with_status (keys_of (λ o. o.pk) i) invalid)) (write_rpki-routes valid v db))

    row-Settled :
        (extra : String → Extra) (rows : List RouteRow) (r : RouteRow)
        → DistinctPks rows
        → In r rows
        → Settled (
            with_status (keys_for extra not_found rows) not_found (
              with_status
                (keys_for extra invalid rows)
                invalid
                (with_status (keys_for extra valid rows) valid r)))
    row-Settled extra rows r distinct m = elim (Bool-cases (r.source == pseudo_source)) [
      | inl pseudo ↦ inl pseudo
      | inr real ↦ inr (
          subst (λ x. (new_status L T b r == x) ≡ true)
            (sym (
              after_eq _ _ _ _ _ _ r.rpki_status
                (keys_for-becomes extra not_found rows r distinct m)
                (keys_for-becomes extra invalid rows r distinct m)
                (keys_for-becomes extra valid rows r distinct m)))
            (chosen (r.source == pseudo_source) (new_status L T b r) r.rpki_status real))
    ]

    all-Settled :
        (extra : String → Extra) (rows : List RouteRow)
        → DistinctPks rows
        → (r : RouteRow)
        → In r (
            map (with_status (keys_for extra not_found rows) not_found) (
              map
                (with_status (keys_for extra invalid rows) invalid)
                (map (with_status (keys_for extra valid rows) valid) rows)))
        → Settled r
    all-Settled extra rows distinct r m =
        let (p, k1, e1) = map-In (with_status (keys_for extra not_found rows) not_found) r _ m in
        let (q, k2, e2) = map-In (with_status (keys_for extra invalid rows) invalid) p _ k1 in
        let (o, k3, e3) = map-In (with_status (keys_for extra valid rows) valid) q rows k2 in
        subst Settled
          (ap
              (λ x.
                with_status (keys_for extra not_found rows) not_found
                  (with_status (keys_for extra invalid rows) invalid x))
              e3
            ∙ ap (with_status (keys_for extra not_found rows) not_found) e2
            ∙ e1)
          (row-Settled extra rows o distinct k3)

    nothing_changed :
        (extra : String → Extra) (rows : List RouteRow)
        → ((r : RouteRow) → In r rows → Settled r)
        → validate_all_routes L T b (λ pk. some (extra pk)) rows ≡ some ([], [], [])
    unfolding validate_all_routes enrich
    nothing_changed extra rows h = rw (collect-Settled rows h)

    -- Once the three lists of a validation of all routes have been written back, with the statements that the database handler
    -- executes for them, and if the rows of all keys could be read again and no two rows have the same primary key,
    -- the validation of all routes finds nothing to change.
    pub validate_all_routes-written_back :
        (extra : String → Extra) (db : Db) (now_valid now_invalid now_not_found : Enriched)
        → DistinctPks (routes db)
        → validate_all_routes L T b (λ pk. some (extra pk)) (routes db)
          ≡ some (now_valid, now_invalid, now_not_found)
        → validate_all_routes L T b
            (λ pk. some (extra pk))
            (routes (
              write_rpki_statuses sql conf
                (status_changes now_valid)
                (status_changes now_invalid)
                (status_changes now_not_found)
                db))
          ≡ some ([], [], [])
    validate_all_routes-written_back extra db now_valid now_invalid now_not_found distinct e =
        let rows : List RouteRow = routes db in
        let now : RpkiStatus → List (StatusChange RpkiStatus) =
          λ status. status_changes (with_extra pk_of extra (changed_to L T b status rows)) in
        let same = some_same _ _ (sym (validate_all_routes_lem L T b extra rows) ∙ e) in
        subst
          (λ (v, i, n).
            validate_all_routes L T b (λ pk. some (extra pk))
              (routes (
                write_rpki_statuses sql conf (status_changes v) (status_changes i)
                  (status_changes n) db))
            ≡ some ([], [], []))
          same
          (nothing_changed extra _ (
            subst (λ written. (r : RouteRow) → In r written → Settled r)
              (sym (written-routes (now valid) (now invalid) (now not_found) db))
              (all-Settled extra rows distinct)))
