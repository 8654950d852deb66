-- ===== src/Nrtm4/Recorded.antt =====
-- What a run of `NRTM4Client` records in the database.
use irrd.Base.{
  ℕ, String, ◌≡◌, refl, ap, inl, inr, Bool, true, false, not, ◌||◌, Option, none, some, List, [],
  ◌∷◌, ◌++◌, is_nil, leb, ◌==◌, string_eq, Bool-cases, Option-cases, ltb,
}
use irrd.Nrtm4.{FileReference, UpdateNotificationFile, max_delta_version}
use irrd.Nrtm4.Client.{
  DbCall, delete_all_rpsl_objects_with_journal, disable_journaling, enable_journaling,
  upsert_rpsl_object, save, record_nrtm4_client_status, DeltaItem, Run, after, then_run, save_add,
  save_delete, process_delta_item, process_items, Remote, valid_header, load_delta, load_deltas,
  upsert_parsed, import_items, load_snapshot, update_from_deltas, new_status, finish, run_client,
  retrieve_unf,
}
use irrd.Nrtm4.Status.{
  key_eq, Hashes, ClientStatus, Result, ok, error, aggregate_previous_file_hashes,
  find_next_version, falsy, or_zero,
}

module _ {O : Type 0} where
  -- The statuses that are recorded
  abbrev pub recorded : List (DbCall O) → List ClientStatus
  recorded [] = []
  recorded (delete_all_rpsl_objects_with_journal ∷ calls) = recorded calls
  recorded (disable_journaling ∷ calls) = recorded calls
  recorded (enable_journaling ∷ calls) = recorded calls
  recorded (upsert_rpsl_object o ∷ calls) = recorded calls
  recorded (save version op ∷ calls) = recorded calls
  recorded (record_nrtm4_client_status status ∷ calls) = status ∷ recorded calls

  recorded-append : (xs ys : List (DbCall O)) → recorded (xs ++ ys) ≡ recorded xs ++ recorded ys
  recorded-append [] ys = refl
  recorded-append (delete_all_rpsl_objects_with_journal ∷ xs) ys = recorded-append xs ys
  recorded-append (disable_journaling ∷ xs) ys = recorded-append xs ys
  recorded-append (enable_journaling ∷ xs) ys = recorded-append xs ys
  recorded-append (upsert_rpsl_object o ∷ xs) ys = recorded-append xs ys
  recorded-append (save version op ∷ xs) ys = recorded-append xs ys
  recorded-append (record_nrtm4_client_status status ∷ xs) ys =
      ap (λ r. status ∷ r) (recorded-append xs ys)

  abbrev Silent : {A : Type 0} → Run O A → Type 0
  Silent (calls, result) = recorded calls ≡ []

  then_run-Silent :
      {A B : Type 0} (r : Run O A) (f : A → Run O B)
      → Silent r
      → ((a : A) → Silent (f a))
      → Silent (then_run r f)
  then_run-Silent (calls, error e) f h k = h
  then_run-Silent (calls, ok a) f h k = rw (recorded-append calls (f a).0, h) (k a)

module _ (O : Type 0) where
  process_delta_item-Silent :
      (version : ℕ) (item : DeltaItem) → Silent {O = O} (process_delta_item version item)
  unfolding process_delta_item
  process_delta_item-Silent version item = elim (Option-cases item.action) [
    | inl a ↦ rw (a, process_delta_item) refl
    | inr (action, a) ↦ elim (Bool-cases (action == "add_modify")) [
      | inl e ↦ elim (Option-cases item.object) [
        | inl o ↦ rw (a, process_delta_item, e, o) refl
        | inr (text, o) ↦ rw (a, process_delta_item, e, o) (save_add-Silent version text)
      ]
      | inr e ↦ elim (Bool-cases (action == "delete")) [
        | inl d ↦
            rw (a, process_delta_item, e, d)
              (save_delete-Silent version item.primary_key item.object_class)
        | inr d ↦ rw (a, process_delta_item, e, d) refl
      ]
    ]
  ]
    where
      save_add-Silent : (version : ℕ) (text : String) → Silent {O = O} (save_add version text)
      save_add-Silent version text = elim (Bool-cases (text == "")) [
        | inl e ↦ rw (e) refl
        | inr e ↦ rw (e) refl
      ]

      save_delete-Silent :
          (version : ℕ) (pk object_class : Option String)
          → Silent {O = O} (save_delete version pk object_class)
      save_delete-Silent version none c = refl
      save_delete-Silent version (some pk) none = refl
      save_delete-Silent version (some pk) (some c) = elim (Bool-cases (pk == "" || c == "")) [
        | inl e ↦ rw (e) refl
        | inr e ↦ rw (e) refl
      ]

  process_items-Silent :
      (version : ℕ) (items : List (Option DeltaItem)) → Silent {O = O} (process_items version items)
  unfolding process_items
  process_items-Silent version [] = refl
  process_items-Silent version (none ∷ items) = refl
  process_items-Silent version (some item ∷ items) =
      then_run-Silent (process_delta_item version item) _ (process_delta_item-Silent version item)
        (λ _. process_items-Silent version items)

module _ {O C P : Type 0} (R : Remote O C P) (source : String) where
  load_delta-Silent :
      (u : UpdateNotificationFile) (d : FileReference) → Silent (load_delta R source u d)
  unfolding load_delta
  load_delta-Silent u d = elim (Option-cases (R.open_delta d)) [
    | inl o ↦ rw (o, load_delta) refl
    | inr ((none, items), o) ↦ rw (o, load_delta) refl
    | inr ((some header, items), o) ↦
        elim (Bool-cases (valid_header "delta" source u d.version header)) [
          | inl e ↦
              rw (o, load_delta, e)
                (then_run-Silent (process_items d.version items) _
                  (process_items-Silent O d.version items)
                  (λ _. elim (Bool-cases (is_nil items)) [
                    | inl k ↦ rw (k) refl
                    | inr k ↦ rw (k) refl
                  ]))
          | inr e ↦ rw (o, load_delta, e) refl
        ]
  ]

  load_deltas-Silent :
      (u : UpdateNotificationFile) (next : ℕ) (ds : List FileReference)
      → Silent (load_deltas R source u next ds)
  unfolding load_deltas
  load_deltas-Silent u next [] = refl
  load_deltas-Silent u next (d ∷ ds) = elim (Bool-cases (ltb d.version next)) [
    | inl e ↦ rw (e) (load_deltas-Silent u next ds)
    | inr e ↦ rw (e) (
        then_run-Silent (load_delta R source u d) _ (load_delta-Silent u d)
          (λ _. load_deltas-Silent u next ds))
  ]

  after-upsert :
      (o : Option O) (r : Run O Unit) → Silent r → Silent (after (upsert_parsed R source o) r)
  after-upsert none r h = h
  after-upsert (some o) r h = h

  import_items-Silent :
      (items : List (Option (Option String))) → Silent (import_items R source items)
  unfolding import_items
  import_items-Silent [] = refl
  import_items-Silent (none ∷ items) = refl
  import_items-Silent (some none ∷ items) = refl
  import_items-Silent (some (some text) ∷ items) =
      after-upsert (R.parse_object text) (import_items R source items) (import_items-Silent items)

  load_snapshot-Silent : (u : UpdateNotificationFile) → Silent (load_snapshot R source u)
  unfolding load_snapshot
  load_snapshot-Silent u = elim (Option-cases (R.open_snapshot u.snapshot)) [
    | inl o ↦ rw (o, load_snapshot) refl
    | inr ((none, items), o) ↦ rw (o, load_snapshot) refl
    | inr ((some header, items), o) ↦
        elim (Bool-cases (valid_header "snapshot" source u u.snapshot.version header)) [
          | inl e ↦
              rw (o, load_snapshot, e)
                (then_run-Silent (import_items R source items) _ (import_items-Silent items)
                  (λ _. refl))
          | inr e ↦ rw (o, load_snapshot, e) refl
        ]
  ]

  update_from_deltas-Silent :
      (u : UpdateNotificationFile) (deferred : Bool) (next : Option ℕ)
      → Silent (update_from_deltas R source u deferred next)
  update_from_deltas-Silent u true next = refl
  update_from_deltas-Silent u false none = elim (Bool-cases (falsy (max_delta_version u))) [
    | inl e ↦ rw (e) refl
    | inr e ↦ rw (e) refl
  ]
  update_from_deltas-Silent u false (some n) = elim (Bool-cases (falsy (max_delta_version u))) [
    | inl e ↦ rw (e) refl
    | inr e ↦ elim (Bool-cases (leb n (or_zero (max_delta_version u)))) [
      | inl k ↦ rw (e, k) (load_deltas-Silent u n u.deltas)
      | inr k ↦ rw (e, k) refl
    ]
  ]

  -- What a run records: nothing if it fails, otherwise one status, for the accepted notification file.
  abbrev pub Records : ClientStatus → Option String → Run O Bool → Type 0
  Records status config_key (calls, error e) = recorded calls ≡ []
  Records status config_key (calls, ok loaded) =
      (u : UpdateNotificationFile) × (key : String) × (deferred : Bool) × (files : Hashes)
      × (retrieve_unf R source status config_key ≡ ok (u, key))
      × (aggregate_previous_file_hashes status u ≡ ok files)
      × (recorded calls ≡ new_status R source u key deferred files ∷ [])

  then_run-Records :
      {A : Type 0} (status : ClientStatus) (config_key : Option String) (r : Run O A)
      (f : A → Run O Bool)
      → Silent r
      → ((a : A) → Records status config_key (f a))
      → Records status config_key (then_run r f)
  then_run-Records status config_key (calls, error e) f h k = h
  then_run-Records status config_key (calls, ok a) f h k = after-Records calls (f a) h (k a)
    where
      after-Records :
          (calls : List (DbCall O)) (r : Run O Bool)
          → recorded calls ≡ []
          → Records status config_key r
          → Records status config_key (after calls r)
      after-Records calls (more, error e) h k = rw (recorded-append calls more, h) k
      after-Records calls (more, ok b) h (u, key, d, files, r, a, same) =
          (u, key, d, files, r, a, rw (recorded-append calls more, h) same)

  finish-Records :
      (status : ClientStatus) (config_key : Option String) (u : UpdateNotificationFile)
      (key : String) (loaded deferred : Bool) (next : Option ℕ)
      → retrieve_unf R source status config_key ≡ ok (u, key)
      → Records status config_key (finish R source status u key loaded deferred next)
  unfolding finish
  finish-Records status config_key u key loaded deferred next r =
      then_run-Records status config_key (update_from_deltas R source u deferred next) _
        (update_from_deltas-Silent u deferred next)
        (λ _. recording (aggregate_previous_file_hashes status u) refl)
    where
      recording :
          (hashes : Result Hashes)
          → aggregate_previous_file_hashes status u ≡ hashes
          → Records status config_key (elim hashes [
            | error e ↦ ([], error e)
            | ok files ↦ (
              record_nrtm4_client_status (new_status R source u key deferred files) ∷ [],
              ok loaded,
            )
          ])
      recording (error e) h = refl
      recording (ok files) h = (u, key, deferred, files, r, h, refl)

  -- A run of the client that fails records no status, and a run that succeeds records exactly one: that of the
  -- notification file whose signature and form were accepted, with the key that it was signed with,
  -- and with the files of a history that was kept.
  pub run_client-Records :
      (force : Bool) (status : ClientStatus) (config_key : Option String) (load_delta_too : Bool)
      → Records status config_key (run_client R source force status config_key load_delta_too)
  unfolding run_client
  run_client-Records force status config_key load_delta_too =
      retrieved (retrieve_unf R source status config_key) refl
    where
      after_snapshot :
          (u : UpdateNotificationFile) (key : String) (next : Result (Option ℕ))
          → retrieve_unf R source status config_key ≡ ok (u, key)
          → Records status config_key (elim next [
            | error e ↦ ([], error e)
            | ok n ↦ finish R source status u key true (not load_delta_too) n
          ])
      after_snapshot u key (error e) r = refl
      after_snapshot u key (ok n) r =
          finish-Records status config_key u key true (not load_delta_too) n r

      versioned :
          (u : UpdateNotificationFile) (key : String) (next : Result (Option ℕ))
          → retrieve_unf R source status config_key ≡ ok (u, key)
          → Records status config_key (elim next [
            | error e ↦ ([], error e)
            | ok (some n) ↦ finish R source status u key false false (some n)
            | ok none ↦ then_run (load_snapshot R source u) (λ _.
                elim (find_next_version force status u (some u.snapshot.version)) [
                  | error e ↦ ([], error e)
                  | ok n ↦ finish R source status u key true (not load_delta_too) n
                ])
          ])
      versioned u key (error e) r = refl
      versioned u key (ok (some n)) r =
          finish-Records status config_key u key false false (some n) r
      versioned u key (ok none) r =
          then_run-Records status config_key (load_snapshot R source u) _ (load_snapshot-Silent u)
            (λ _.
              after_snapshot u key (find_next_version force status u (some u.snapshot.version)) r)

      retrieved :
          (found : Result (UpdateNotificationFile × String))
          → retrieve_unf R source status config_key ≡ found
          → Records status config_key (elim found [
            | error e ↦ ([], error e)
            | ok (u, key) ↦ elim (find_next_version force status u none) [
              | error e ↦ ([], error e)
              | ok (some n) ↦ finish R source status u key false false (some n)
              | ok none ↦ then_run (load_snapshot R source u) (λ _.
                  elim (find_next_version force status u (some u.snapshot.version)) [
                    | error e ↦ ([], error e)
                    | ok n ↦ finish R source status u key true (not load_delta_too) n
                  ])
            ]
          ])
      retrieved (error e) h = refl
      retrieved (ok (u, key)) h = versioned u key (find_next_version force status u none) h
