-- ===== src/Nrtm4/Examples.antt =====
-- Tests of the NRTMv4 client, and its theorems at concrete data.
use irrd.Base.{
  arith, ℕ, suc, String, ◌≡◌, refl, true, false, Option, none, some, [], ◌∷◌, In, map,
  if◌then◌else◌, ◌==◌, string_eq,
}
use irrd.Nrtm4.{
  FileReference, UpdateNotificationFile, version_of, range, check_version_consistency, validate_unf,
}
use irrd.Nrtm4.Client.{
  FileHeader, DeltaItem, delete, save, delete_all_rpsl_objects_with_journal, disable_journaling,
  enable_journaling, upsert_rpsl_object, record_nrtm4_client_status, process_delta_item,
  process_items, Remote, load_delta, load_deltas, import_items, load_snapshot, retrieve_unf,
  new_status, finish, run_client,
}
use irrd.Nrtm4.Status.{
  older_version, snapshot_key, delta_key, Hashes, ClientStatus, ok, error, rewriting_history,
  find_next_version, try_keys, deserialize_unf, add_deltas, history_kept,
  aggregate_previous_file_hashes,
}
use irrd.Nrtm4.History.{aggregate_previous_file_hashes-kept}
use irrd.Nrtm4.Keys.{trusted, deserialize_unf-trusted}
use irrd.Nrtm4.Recorded.{Records, run_client-Records}
use irrd.Nrtm4.Versions.{load_each, to_load, load_deltas-find_next_version, run_client-no_deltas}
use irrd.Text.{upper, lower}

abbrev file : ℕ → String → FileReference
file version name = record { version = version; url = name; hash = "h" }

abbrev unf : UpdateNotificationFile
unf = record {
  source = "RIPE";
  session_id = "s";
  version = 4;
  snapshot = file 2 "snapshot.2";
  deltas = file 3 "delta.3" ∷ file 4 "delta.4" ∷ [];
  next_signing_key = none;
}

abbrev item : DeltaItem
item = record {
  action = some "delete";
  object = none;
  primary_key = some "as-one";
  object_class = some "AS-SET";
}

abbrev header : String → ℕ → FileHeader
header type version = record {
  nrtm_version = 4;
  type = type;
  source = "RIPE";
  session_id = "s";
  version = version;
}

abbrev verify : String → String → Option String
verify content key = if key == "K" then some content else none

abbrev remote : UpdateNotificationFile → Remote String String String
remote u = record {
  retrieve_unf = some "jws";
  verify = verify;
  parse_unf = λ _. some u;
  fresh = λ _. true;
  valid_key = λ _. true;
  open_snapshot = λ f. some (some (header "snapshot" f.version), some (some "as-set: AS-ONE") ∷ []);
  open_delta = λ f. some (some (header "delta" f.version), some item ∷ []);
  parse_object = λ text. some text;
}

abbrev known : ℕ → ClientStatus
known version = record {
  session_id = some "s";
  version = some version;
  current_key = some "K";
  next_key = none;
  previous_file_hashes = none;
}

abbrev unknown : ClientStatus
unknown = record {
  session_id = none;
  version = none;
  current_key = none;
  next_key = none;
  previous_file_hashes = none;
}

abbrev files : Hashes
files =
    (snapshot_key 2, ("snapshot.2", "h"))
    ∷ (delta_key 3, ("delta.3", "h"))
    ∷ (delta_key 4, ("delta.4", "h"))
    ∷ []

one_delta : run_client (remote unf) "RIPE" false (known 3) none false ≡ (
  save 4 (delete "AS-ONE" "as-set")
      ∷ record_nrtm4_client_status (new_status (remote unf) "RIPE" unf "K" false files)
      ∷ [],
  ok false,
)
unfolding run_client finish load_deltas load_delta process_items process_delta_item retrieve_unf
    deserialize_unf try_keys validate_unf check_version_consistency find_next_version
    aggregate_previous_file_hashes add_deltas upper lower load_snapshot import_items history_kept
one_delta = refl

snapshot_first : run_client (remote unf) "RIPE" false unknown (some "K") false ≡ (
  delete_all_rpsl_objects_with_journal
      ∷ disable_journaling
      ∷ upsert_rpsl_object "as-set: AS-ONE"
      ∷ enable_journaling
      ∷ record_nrtm4_client_status (new_status (remote unf) "RIPE" unf "K" true files)
      ∷ [],
  ok true,
)
unfolding one_delta
snapshot_first = refl

going_back : run_client (remote unf) "RIPE" false (known 5) none false ≡ ([], error older_version)
unfolding one_delta
going_back = refl

rewritten :
    aggregate_previous_file_hashes
      (record (known 3) { previous_file_hashes = some ((delta_key 3, ("delta.3", "other")) ∷ []) })
      unf
    ≡ error rewriting_history
unfolding one_delta
rewritten = refl

load_deltas-find_next_version_example :
    (last : ℕ) × (some 2 ≡ some last)
    × (load_deltas (remote unf) "RIPE" unf 3 unf.deltas
        ≡ load_each (remote unf) "RIPE" unf (to_load 3 unf.deltas))
    × (map version_of (to_load 3 unf.deltas) ≡ range (suc last) 5)
unfolding check_version_consistency find_next_version
load_deltas-find_next_version_example =
    load_deltas-find_next_version (remote unf) "RIPE" false (known 2) unf 3 4 refl refl refl
      (omega arith)

-- The snapshot is at version 5, and the client stays at version 3.
abbrev bare : UpdateNotificationFile
bare = record {
  source = "RIPE";
  session_id = "s";
  version = 5;
  snapshot = file 5 "snapshot.5";
  deltas = [];
  next_signing_key = none;
}

abbrev bare_files : Hashes
bare_files = (snapshot_key 5, ("snapshot.5", "h")) ∷ []

run_client-no_deltas_example : run_client (remote bare) "RIPE" false (known 3) none false ≡ (
  record_nrtm4_client_status (new_status (remote bare) "RIPE" bare "K" false bare_files) ∷ [],
  ok false,
)
unfolding retrieve_unf deserialize_unf try_keys validate_unf check_version_consistency
    aggregate_previous_file_hashes add_deltas
run_client-no_deltas_example =
    run_client-no_deltas (remote bare) "RIPE" (known 3) none false bare "K" 3 bare_files refl refl
      refl refl refl (omega arith) (omega arith) refl

deserialize_unf-trusted_example :
    In (some "K") (trusted verify (λ _. true) (known 3) none) × (verify "jws" "K" ≡ some "jws")
unfolding deserialize_unf try_keys
deserialize_unf-trusted_example =
    deserialize_unf-trusted verify (λ _. true) (known 3) none "jws" "jws" "K" refl

abbrev third : String × String
third = ("delta.3", "h")

abbrev after_three : ClientStatus
after_three = record (known 3) {
  previous_file_hashes = some ((delta_key 3, ("delta.3", "h")) ∷ []);
}

aggregate_previous_file_hashes-kept_example : third ≡ third
unfolding aggregate_previous_file_hashes add_deltas history_kept
aggregate_previous_file_hashes-kept_example =
    aggregate_previous_file_hashes-kept after_three unf files ((delta_key 3, third) ∷ [])
      (delta_key 3) third third refl refl refl refl

run_client-Records_example :
    Records
      (remote unf)
      "RIPE"
      (known 3)
      none
      (run_client (remote unf) "RIPE" false (known 3) none false)
run_client-Records_example = run_client-Records (remote unf) "RIPE" false (known 3) none false
