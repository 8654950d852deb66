-- ===== src/Rpki/Examples.antt =====
-- A trie that meets the laws, tests of both validators, and the theorems at concrete data.
use irrd.Base.{
  ℕ, String, ◌≡◌, refl, ◌↔◌, Bool, true, false, Option, none, some, List, [], ◌∷◌, map, take, arith,
  ◌==◌, bool_eq, list_eq, beq_iff, inl, inr, ◌⊎◌, ◌≢◌, eqb, contains, filter, In, In-map, map-In,
  if◌then◌else◌, string_eq, sym, subst, ap, ◌∙◌,
}
use irrd.Conf.{bare_source, Sources}
use irrd.Enrich.{with_extra}
use irrd.Ip.Concrete.{ipv4, Network, inet_pton, all_bits}
use irrd.Rpki.Trie.{Key, Entry, TrieLib, IsTrie, is_prefix}
use irrd.Rpki.Reference.{PlacedRoa, covers}
use irrd.Rpki.Bulk.{place_roa, place_rows, rov_for, validate_route-objs, validate_route-db}
use irrd.Rpki.Single.{
  DistinctSources, IsAnswer, validate_single, validate_single-rov,
  validate_single-eq-validate_route,
}
use irrd.Rpki.Verdict.{Permits, validate_route-valid_iff}
use irrd.RoutePref.Radix.{visible}
use irrd.ScopeFilter.{in_scope}
use irrd.Storage.Sql.{HandlerSettings}
use irrd.Storage.Statuses.{write_rpki_statuses}
use irrd.Storage.Concrete.{Tables, tables_sql}
use irrd.Storage.Revalidate.{status_changes, DistinctPks, validate_all_routes-written_back}
use irrd.Rpki.All.{
  Enriched, RouteRow, Extra, pk_of, changed_to, validate_all_routes, validate_all_routes_lem,
}
use irrd.Rpki.{
  excluded_sources, RpkiStatus, valid, invalid, not_found, bulk_validator, build_roa_tree_from_db,
  split_prefix, ip_to_binary_str, validate_route, scan_items, Roa, BulkValidator,
}

-- A trie as a function from keys; its items are looked up at each prefix of the key.
abbrev Table : Type 0
Table = Key → Option (List Entry)

abbrev prefixes : Key → List Key
prefixes [] = [] ∷ []
prefixes (x ∷ k) = [] ∷ map (λ j. x ∷ j) (prefixes k)

abbrev put : Key → Option (List Entry) → List (Key × List Entry) → List (Key × List Entry)
put j none items = items
put j (some v) items = (j, v) ∷ items

abbrev present : Table → List Key → List (Key × List Entry)
present t [] = []
present t (j ∷ js) = put j (t j) (present t js)

abbrev table : TrieLib
table = record {
  Trie = Table;
  empty = λ k. none;
  get = λ t k. t k;
  set = λ t k v j. if k == j then some v else t j;
  prefix_items = λ t k. present t (prefixes k);
}

In-prefixes : (j k : Key) → In j (prefixes k) → is_prefix j k ≡ true
In-prefixes [] k h = refl
In-prefixes (x ∷ j) [] (inl e) = cc
In-prefixes (x ∷ j) [] (inr m) = absurd m
In-prefixes (x ∷ j) (y ∷ k) (inl e) = cc
In-prefixes (x ∷ j) (y ∷ k) (inr m) =
    let (i, there, e) = map-In (λ (l : Key). y ∷ l) (x ∷ j) (prefixes k) m in
    ground (arith, In-prefixes j k (subst (λ l. In l (prefixes k)) (cc) there), beq_iff x y)

prefixes-In : (j k : Key) → is_prefix j k ≡ true → In j (prefixes k)
prefixes-In [] [] h = inl refl
prefixes-In [] (y ∷ k) h = inl refl
prefixes-In (x ∷ j) [] h = cc
prefixes-In (x ∷ j) (y ∷ k) h =
    let here : In (y ∷ j) (map (λ l. y ∷ l) (prefixes k)) =
      In-map (λ (l : Key). y ∷ l) j (prefixes k) (prefixes-In j k (ground arith)) in
    let same : x ≡ y = (beq_iff x y).0 (ground arith) in
    inr (subst (λ z. In (z ∷ j) (map (λ l. y ∷ l) (prefixes k))) (sym same) here)

put-In :
    (i j : Key) (o : Option (List Entry)) (v : List Entry) (items : List (Key × List Entry))
    → In (j, v) (put i o items)
    → ((i ≡ j) × (o ≡ some v)) ⊎ In (j, v) items
put-In i j none v items m = inr m
put-In i j (some w) v items (inl e) = inl (cc, cc)
put-In i j (some w) v items (inr m) = inr m

In-put :
    (i j : Key) (o : Option (List Entry)) (v : List Entry) (items : List (Key × List Entry))
    → ((i ≡ j) × (o ≡ some v)) ⊎ In (j, v) items
    → In (j, v) (put i o items)
In-put i j none v items (inl (_, e)) = cc
In-put i j none v items (inr m) = m
In-put i j (some w) v items (inl (e, e')) = inl (cc)
In-put i j (some w) v items (inr m) = inr m

present-In :
    (t : Table) (j : Key) (v : List Entry) (js : List Key)
    → In (j, v) (present t js)
    → In j js × (t j ≡ some v)
present-In t j v [] m = absurd m
present-In t j v (i ∷ js) m = elim (put-In i j (t i) v (present t js) m) [
  | inl (e, q) ↦ (inl e, subst (λ l. t l ≡ some v) e q)
  | inr k ↦ let (there, q) = present-In t j v js k in (inr there, q)
]

In-present :
    (t : Table) (j : Key) (v : List Entry) (js : List Key)
    → In j js
    → t j ≡ some v
    → In (j, v) (present t js)
In-present t j v [] m q = absurd m
In-present t j v (i ∷ js) (inl e) q =
    In-put i j (t i) v (present t js) (inl (e, subst (λ l. t l ≡ some v) (sym e) q))
In-present t j v (i ∷ js) (inr m) q =
    In-put i j (t i) v (present t js) (inr (In-present t j v js m q))

table-IsTrie : IsTrie table
table-IsTrie = record {
  get-empty = λ k. refl;
  get-set = λ t k j v. refl;
  prefix_items_iff = λ t k j v. (
    λ m. let (there, q) = present-In t j v (prefixes k) m in (In-prefixes j k there, q),
    λ (pre, q). In-present t j v (prefixes k) (prefixes-In j k pre) q,
  );
}

abbrev sources : Sources
sources = ("RIPE", bare_source) ∷ ("OLD", record bare_source { rpki_excluded = true }) ∷ []

abbrev rows : List Entry
rows =
    record { prefix = "192.0.2.0/24"; asn = 64496; max_length = 25 }
    ∷ record { prefix = "192.0.0.0/16"; asn = 0; max_length = 32 }
    ∷ []

-- A run on the rows above, or `not_found` where they cannot be read
run : String → ℕ → ℕ → String → RpkiStatus
unfolding bulk_validator build_roa_tree_from_db split_prefix ip_to_binary_str validate_route
    scan_items inet_pton
run ip length asn source = elim (bulk_validator ipv4 table sources rows none) [
  | none ↦ not_found
  | some b ↦ validate_route ipv4 table b ip length asn source
]

run_valid : run "192.0.2.128" 25 64496 "RIPE" ≡ valid
unfolding run
run_valid = refl

run_too_long : run "192.0.2.128" 26 64496 "RIPE" ≡ invalid
unfolding run
run_too_long = refl

run_as0 : run "192.0.3.0" 24 0 "RIPE" ≡ invalid
unfolding run
run_as0 = refl

run_uncovered : run "198.51.100.0" 24 64496 "RIPE" ≡ not_found
unfolding run
run_uncovered = refl

run_excluded : run "192.0.2.0" 24 1 "OLD" ≡ not_found
unfolding run
run_excluded = refl

abbrev net : ℕ → List ℕ → Network
net n bytes = record { length = n; bits = all_bits bytes }

abbrev placed : List PlacedRoa
placed =
    record {
      v6 = false;
      key = take 24 (all_bits (192 ∷ 0 ∷ 2 ∷ 0 ∷ []));
      entry = record { prefix = "192.0.2.0/24"; asn = 64496; max_length = 25 };
    }
    ∷ record {
      v6 = false;
      key = take 16 (all_bits (192 ∷ 0 ∷ 0 ∷ 0 ∷ []));
      entry = record { prefix = "192.0.0.0/16"; asn = 0; max_length = 32 };
    }
    ∷ []

place_rows-rows : place_rows ipv4 rows ≡ some placed
unfolding split_prefix ip_to_binary_str inet_pton all_bits
place_rows-rows = refl

abbrev roas : List (Roa ipv4)
roas =
    record {
      prefix = net 24 (192 ∷ 0 ∷ 2 ∷ 0 ∷ []);
      prefix_str = "192.0.2.0/24";
      asn = 64496;
      max_length = 25;
    }
    ∷ []

validate_route-objs_example :
    (b : BulkValidator table) × (bulk_validator ipv4 table sources rows (some roas) ≡ some b)
    × ((ip : String) (length asn : ℕ) (source : String)
        → validate_route ipv4 table b ip length asn source
          ≡ rov_for sources
              (map (place_roa ipv4) roas)
              source
              (eqb (ip_to_binary_str ipv4 ip).0 6)
              (take length (ip_to_binary_str ipv4 ip).1)
              asn
              length)
validate_route-objs_example = validate_route-objs ipv4 table-IsTrie sources rows roas

validate_route-db_example :
    (b : BulkValidator table) × (bulk_validator ipv4 table sources rows none ≡ some b)
    × ((ip : String) (length asn : ℕ) (source : String)
        → validate_route ipv4 table b ip length asn source
          ≡ rov_for sources placed source
              (eqb (ip_to_binary_str ipv4 ip).0 6)
              (take length (ip_to_binary_str ipv4 ip).1)
              asn
              length)
validate_route-db_example = validate_route-db ipv4 table-IsTrie sources rows placed place_rows-rows

-- The database answers with the covering rows.
abbrev query : Network → List Entry
query r = map (λ p. p.entry) (filter (covers false (take r.length r.bits)) placed)

query-IsAnswer : (r : Network) → IsAnswer false (take r.length r.bits) placed (query r)
query-IsAnswer r = record {
  complete = λ p m. In-map (λ (q : PlacedRoa). q.entry) p _ m;
  correct = λ e m. map-In (λ (q : PlacedRoa). q.entry) e _ m;
}

abbrev route : Network
route = net 25 (192 ∷ 0 ∷ 2 ∷ 128 ∷ [])

sources-Distinct : DistinctSources sources
sources-Distinct = (refl, (refl, tt))

validate_single-rov_example :
    validate_single ipv4 query sources route 64496 "RIPE"
    ≡ rov_for sources placed "RIPE" false (take 25 route.bits) 64496 25
validate_single-rov_example =
    validate_single-rov ipv4 query sources placed route 64496 "RIPE" sources-Distinct
      (query-IsAnswer route)

abbrev built : BulkValidator table
built = (validate_route-db ipv4 table-IsTrie sources rows placed place_rows-rows).0

ip_version : (ip_to_binary_str ipv4 "192.0.2.128").0 ≡ 4
unfolding ip_to_binary_str
ip_version = refl

ip_bits : take 25 (ip_to_binary_str ipv4 "192.0.2.128").1 ≡ take 25 route.bits
unfolding ip_to_binary_str inet_pton all_bits
ip_bits = refl

validate_single-eq-validate_route_example :
    validate_single ipv4 query sources route 64496 "RIPE"
    ≡ validate_route ipv4 table built "192.0.2.128" 25 64496 "RIPE"
validate_single-eq-validate_route_example =
    validate_single-eq-validate_route ipv4 table-IsTrie query sources rows placed built route
      "192.0.2.128" 64496 "RIPE" sources-Distinct place_rows-rows
      (validate_route-db ipv4 table-IsTrie sources rows placed place_rows-rows).1 ip_version ip_bits
      (query-IsAnswer route)

validate_route-valid_iff_example :
    (validate_route ipv4 table built "192.0.2.128" 25 64496 "RIPE" ≡ valid) ↔ (
      (contains (excluded_sources sources) "RIPE" ≡ false)
      × ◌≢◌ {A = ℕ} 64496 0
      × ((p : PlacedRoa) × In p placed
          × Permits
              (eqb (ip_to_binary_str ipv4 "192.0.2.128").0 6)
              (take 25 (ip_to_binary_str ipv4 "192.0.2.128").1)
              64496
              25
              p))
validate_route-valid_iff_example =
    validate_route-valid_iff ipv4 table-IsTrie sources rows placed built "192.0.2.128" 25 64496
      "RIPE" place_rows-rows
      (validate_route-db ipv4 table-IsTrie sources rows placed place_rows-rows).1

abbrev route_rows : List RouteRow
route_rows =
    record {
      pk = "1";
      rpsl_pk = "192.0.2.0/24AS64496";
      ip_first = "192.0.2.0";
      prefix_length = 24;
      asn_first = 64496;
      source = "RIPE";
      rpki_status = not_found;
    }
    ∷ record {
      pk = "2";
      rpsl_pk = "192.0.2.0/24AS1";
      ip_first = "192.0.2.0";
      prefix_length = 24;
      asn_first = 1;
      source = "RPKI";
      rpki_status = not_found;
    }
    ∷ []

abbrev extra : String → Extra
extra pk = record {
  prefix = "192.0.2.0/24";
  object_text = "text";
  object_class = "route";
  scopefilter_status = in_scope;
  route_preference_status = visible;
}

validate_all_routes_lem_example :
    validate_all_routes ipv4 table built (λ pk. some (extra pk)) route_rows
    ≡ some (
      with_extra pk_of extra (changed_to ipv4 table built valid route_rows),
      with_extra pk_of extra (changed_to ipv4 table built invalid route_rows),
      with_extra pk_of extra (changed_to ipv4 table built not_found route_rows),
    )
validate_all_routes_lem_example = validate_all_routes_lem ipv4 table built extra route_rows

true-false : ◌≡◌ {A = Bool} true false → ⊥
true-false e = cc

one_two : ◌≡◌ {A = String} "1" "2" → ⊥
one_two e = true-false (ap (λ s. s == "1") e)

route_rows-Distinct : DistinctPks route_rows
route_rows-Distinct r r' (inl e) (inl f) same = sym e ∙ f
route_rows-Distinct r r' (inl e) (inr (inl f)) same =
    absurd (one_two (ap (λ x. x.pk) e ∙ same ∙ sym (ap (λ x. x.pk) f)))
route_rows-Distinct r r' (inr (inl e)) (inl f) same =
    absurd (one_two (sym (ap (λ x. x.pk) e ∙ same ∙ sym (ap (λ x. x.pk) f))))
route_rows-Distinct r r' (inr (inl e)) (inr (inl f)) same = sym e ∙ f
route_rows-Distinct r r' (inr (inr none_left)) m same = absurd none_left
route_rows-Distinct r r' m (inr (inr none_left)) same = absurd none_left

abbrev handler_settings : HandlerSettings
handler_settings = record {
  readonly_standby = false;
  scopefilter = false;
  roa_source = true;
  sources = [];
  nrtm_host = λ source. none;
}

abbrev route_tables : Tables
route_tables = record {
  objects = λ k. none;
  journal = [];
  statuses = [];
  clock = 7;
  routes = route_rows;
}

abbrev returned : RpkiStatus → Enriched
returned status = with_extra pk_of extra (changed_to ipv4 table built status route_rows)

validate_all_routes-written_back_example :
    validate_all_routes ipv4 table built
      (λ pk. some (extra pk))
      ((write_rpki_statuses tables_sql handler_settings
        (status_changes (returned valid))
        (status_changes (returned invalid))
        (status_changes (returned not_found))
        route_tables).routes)
    ≡ some ([], [], [])
validate_all_routes-written_back_example =
    validate_all_routes-written_back ipv4 table built tables_sql handler_settings (λ db. db.routes)
      (λ pks status db. refl) extra route_tables (returned valid) (returned invalid)
      (returned not_found) route_rows-Distinct
      (validate_all_routes_lem ipv4 table built extra route_rows)
