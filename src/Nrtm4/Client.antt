-- ===== src/Nrtm4/Client.antt =====
-- irrd/mirroring/nrtm4/nrtm4_client.py: the run of `NRTM4Client`.
use irrd.Base.{
  ℕ, String, Bool, true, false, not, ◌&&◌, ◌||◌, Option, none, some, List, [], ◌∷◌, ◌++◌, is_nil,
  leb, ltb, eqb, ◌==◌, string_eq, nat_eq, list_eq, option_eq, if◌then◌else◌,
}
use irrd.Nrtm4.{FileReference, UpdateNotificationFile, max_delta_version, validate_unf}
use irrd.Text.{upper, lower}
use irrd.Nrtm4.Status.{
  ClientStatus, Hashes, Result, aggregate_previous_file_hashes, deserialize_unf, error, falsy,
  find_next_version, key_eq, no_version, ok, or_zero, invalid_json, not_an_operation, invalid_entry,
  retrieval_failed, no_header, invalid_header, empty_delta, invalid_unf,
}

pub record FileHeader : Type 0 where
  pub nrtm_version : ℕ
  pub type : String
  pub source : String
  pub session_id : String
  pub version : ℕ

-- The pydantic validation with the expected values
abbrev pub valid_header : String → String → UpdateNotificationFile → ℕ → FileHeader → Bool
valid_header type source u version h =
    (eqb h.nrtm_version 4 && h.type == type && ltb 0 h.version)
    && (h.source == source && (h.session_id == u.session_id && eqb h.version version))

-- A decoded entry of a delta file: `none` where a key is missing
pub record DeltaItem : Type 0 where
  pub action : Option String
  pub object : Option String
  pub primary_key : Option String
  pub object_class : Option String

pub data NrtmOperation : Type 0 where
  add_or_update : String → NrtmOperation
  delete : String → String → NrtmOperation

-- The calls of the database handler. `save` is a call of `NRTMOperation.save`, whose identifier of origin
-- holds the version of the delta file.
pub data DbCall (O : Type 0) : Type 0 where
  delete_all_rpsl_objects_with_journal disable_journaling enable_journaling : DbCall O
  upsert_rpsl_object : O → DbCall O
  save : ℕ → NrtmOperation → DbCall O
  record_nrtm4_client_status : ClientStatus → DbCall O

-- The calls in their order, and the result or the exception that ends the run
abbrev pub Run : Type 0 → Type 0 → Type 0
Run O A = List (DbCall O) × Result A

module _ {O : Type 0} where
  abbrev pub after : {A : Type 0} → List (DbCall O) → Run O A → Run O A
  after calls (more, result) = (calls ++ more, result)

  abbrev pub then_run : {A B : Type 0} → Run O A → (A → Run O B) → Run O B
  then_run (calls, error e) f = (calls, error e)
  then_run (calls, ok a) f = after calls (f a)

  -- `NRTMOperation` refuses an operation without a text or a key.
  abbrev pub save_add : ℕ → String → Run O Unit
  save_add version text =
      if text == ""
      then ([], error not_an_operation)
      else (save version (add_or_update text) ∷ [], ok tt)

  abbrev pub save_delete : ℕ → Option String → Option String → Run O Unit
  save_delete version (some pk) (some object_class) =
      if pk == "" || object_class == ""
      then ([], error not_an_operation)
      else (save version (delete (upper pk) (lower object_class)) ∷ [], ok tt)
  save_delete version _ _ = ([], error invalid_entry)

  -- The `KeyError` of a missing key or an unknown action is `invalid_entry`.
  unfoldable pub process_delta_item : ℕ → DeltaItem → Run O Unit
  process_delta_item version item = elim item.action [
    | none ↦ ([], error invalid_entry)
    | some action ↦
        if action == "add_modify"
        then (elim item.object [
          | none ↦ ([], error invalid_entry)
          | some text ↦ save_add version text
        ])
        else if action == "delete"
        then save_delete version item.primary_key item.object_class
        else ([], error invalid_entry)
  ]

  -- The entries are decoded one by one; `none` is one that cannot be decoded.
  unfoldable pub process_items : ℕ → List (Option DeltaItem) → Run O Unit
  process_items version [] = ([], ok tt)
  process_items version (none ∷ items) = ([], error invalid_json)
  process_items version (some item ∷ items) =
      let rest = process_items version items in
      then_run (process_delta_item version item) (λ _. rest)

-- What is fetched and decoded by other code: the notification file, the signature check, the snapshot and the
-- delta files as their header and entries, and the parser of objects. `none` stands for an exception; for the
-- parser, for an object that is not imported.
pub record Remote (O C P : Type 0) : Type 0 where
  pub retrieve_unf : Option C
  pub verify : C → String → Option P
  pub parse_unf : P → Option UpdateNotificationFile
  pub fresh : P → Bool
  pub valid_key : String → Bool
  pub open_snapshot : FileReference → Option (Option FileHeader × List (Option (Option String)))
  pub open_delta : FileReference → Option (Option FileHeader × List (Option DeltaItem))
  pub parse_object : String → Option O

module _ {O C P : Type 0} (R : Remote O C P) (source : String) where
  -- One delta file: the header, the entries, of which there is at least one
  unfoldable pub load_delta : UpdateNotificationFile → FileReference → Run O Unit
  load_delta u d = elim (R.open_delta d) [
    | none ↦ ([], error retrieval_failed)
    | some (none, items) ↦ ([], error no_header)
    | some (some header, items) ↦
        if not (valid_header "delta" source u d.version header)
        then ([], error invalid_header)
        else then_run (process_items d.version items)
            (λ _. if is_nil items then ([], error empty_delta) else ([], ok tt))
  ]

  unfoldable pub load_deltas : UpdateNotificationFile → ℕ → List FileReference → Run O Unit
  load_deltas u next_version [] = ([], ok tt)
  load_deltas u next_version (d ∷ ds) =
      let rest = load_deltas u next_version ds in
      if ltb d.version next_version then rest else then_run (load_delta u d) (λ _. rest)

  abbrev pub upsert_parsed : Option O → List (DbCall O)
  upsert_parsed none = []
  upsert_parsed (some o) = upsert_rpsl_object o ∷ []

  -- An entry without an object is a `KeyError`.
  unfoldable pub import_items : List (Option (Option String)) → Run O Unit
  import_items [] = ([], ok tt)
  import_items (none ∷ items) = ([], error invalid_json)
  import_items (some none ∷ items) = ([], error invalid_entry)
  import_items (some (some text) ∷ items) =
      after (upsert_parsed (R.parse_object text)) (import_items items)

  unfoldable pub load_snapshot : UpdateNotificationFile → Run O Unit
  load_snapshot u = elim (R.open_snapshot u.snapshot) [
    | none ↦ ([], error retrieval_failed)
    | some (none, items) ↦ ([], error no_header)
    | some (some header, items) ↦
        if not (valid_header "snapshot" source u u.snapshot.version header)
        then ([], error invalid_header)
        else after (delete_all_rpsl_objects_with_journal ∷ disable_journaling ∷ [])
            (then_run (import_items items) (λ _. (enable_journaling ∷ [], ok tt)))
  ]

  -- `_retrieve_unf` and the validation of the model
  unfoldable pub retrieve_unf :
      ClientStatus → Option String → Result (UpdateNotificationFile × String)
  retrieve_unf status config_key = elim R.retrieve_unf [
    | none ↦ error retrieval_failed
    | some content ↦ elim (deserialize_unf R.verify R.valid_key status config_key content) [
      | error e ↦ error e
      | ok (payload, key) ↦ elim (R.parse_unf payload) [
        | none ↦ error invalid_unf
        | some u ↦
            if validate_unf (R.fresh payload) R.valid_key source u
            then ok (u, key)
            else error invalid_unf
      ]
    ]
  ]

  -- The deltas after a snapshot or a known version. A comparison with `None` is `no_version`.
  abbrev pub update_from_deltas : UpdateNotificationFile → Bool → Option ℕ → Run O Unit
  update_from_deltas u true next = ([], ok tt)
  update_from_deltas u false next =
      if falsy (max_delta_version u) then ([], ok tt) else (elim next [
        | none ↦ ([], error no_version)
        | some n ↦
            if leb n (or_zero (max_delta_version u)) then load_deltas u n u.deltas else ([], ok tt)
      ])

  abbrev pub new_status : UpdateNotificationFile → String → Bool → Hashes → ClientStatus
  new_status u key deferred hashes = record {
    session_id = some u.session_id;
    version = some (if deferred then u.snapshot.version else u.version);
    current_key = some key;
    next_key = u.next_signing_key;
    previous_file_hashes = some hashes;
  }

  -- The part after the snapshot
  unfoldable pub finish :
      ClientStatus → UpdateNotificationFile → String → Bool → Bool → Option ℕ → Run O Bool
  finish status u key loaded deferred next = then_run (update_from_deltas u deferred next) (λ _.
      elim (aggregate_previous_file_hashes status u) [
        | error e ↦ ([], error e)
        | ok hashes ↦
            (record_nrtm4_client_status (new_status u key deferred hashes) ∷ [], ok loaded)
      ])

  unfoldable pub run_client : Bool → ClientStatus → Option String → Bool → Run O Bool
  run_client force_reload status config_key force_load_delta =
      elim (retrieve_unf status config_key) [
        | error e ↦ ([], error e)
        | ok (u, key) ↦ elim (find_next_version force_reload status u none) [
          | error e ↦ ([], error e)
          | ok (some next) ↦ finish status u key false false (some next)
          | ok none ↦ then_run (load_snapshot u) (λ _.
              elim (find_next_version force_reload status u (some u.snapshot.version)) [
                | error e ↦ ([], error e)
                | ok next ↦ finish status u key true (not force_load_delta) next
              ])
        ]
      ]
