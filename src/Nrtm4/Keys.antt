-- ===== src/Nrtm4/Keys.antt =====
-- Which keys `NRTM4Client._deserialize_unf` trusts.
use irrd.Base.{
  String, ◌≡◌, inl, inr, Option, none, some, List, [], ◌∷◌, In, ◌==◌, ◌&&◌, Bool, string_eq, arith,
  Bool-cases, Option-cases, if◌then◌else◌,
}
use irrd.Nrtm4.Status.{
  only_initial_key_valid, no_valid_signature, ClientStatus, ok, Result, error, initial_key_valid,
  ClientError, nonempty, try_keys, deserialize_unf,
}

module _ {C P : Type 0} (verify : C → String → Option P) (valid_key : String → Bool) where
  try_keys-In :
      (content : C) (keys : List (Option String)) (payload : P) (key : String)
      → try_keys verify valid_key content keys ≡ ok (some (payload, key))
      → In (some key) keys × (verify content key ≡ some payload)
  unfolding try_keys
  try_keys-In content [] payload key h = ground arith
  try_keys-In content (none ∷ keys) payload key h =
      let (i, v) = try_keys-In content keys payload key h in (inr i, v)
  try_keys-In content (some k ∷ keys) payload key h = elim (Bool-cases (k == "")) [
    | inl e ↦ let (i, v) = try_keys-In content keys payload key (ground arith) in (inr i, v)
    | inr e ↦ elim (Option-cases (verify content k)) [
      | inl v ↦ let (i, w) = try_keys-In content keys payload key (ground arith) in (inr i, w)
      | inr (p, v) ↦ (inl (ground arith), ground arith)
    ]
  ]

  -- The keys that a client trusts
  abbrev pub trusted : ClientStatus → Option String → List (Option String)
  trusted status config_key =
      if nonempty status.current_key
      then status.current_key ∷ status.next_key ∷ []
      else config_key ∷ []

  found_key :
      (o : Result (Option (P × String))) (otherwise : ClientError) (payload : P) (key : String)
      → elim o [ error e ↦ error e | ok (some found) ↦ ok found | ok none ↦ error otherwise ]
        ≡ ok (payload, key)
      → o ≡ ok (some (payload, key))
  found_key (error e) otherwise payload key h = ground arith
  found_key (ok none) otherwise payload key h = ground arith
  found_key (ok (some found)) otherwise payload key h = ground arith

  -- A notification file is accepted only with a valid signature by a trusted key: the current or the next key
  -- once a current key is known, and the configured key before that.
  pub deserialize_unf-trusted :
      (status : ClientStatus) (config_key : Option String) (content : C) (payload : P)
      (key : String)
      → deserialize_unf verify valid_key status config_key content ≡ ok (payload, key)
      → In (some key) (trusted status config_key) × (verify content key ≡ some payload)
  unfolding deserialize_unf
  deserialize_unf-trusted status config_key content payload key h =
      try_keys-In content (trusted status config_key) payload key
        (elim (Bool-cases
          (nonempty status.current_key && initial_key_valid verify valid_key content config_key)) [
            | inl e ↦
                found_key (try_keys verify valid_key content (trusted status config_key))
                  only_initial_key_valid payload key (ground arith)
            | inr e ↦
                found_key (try_keys verify valid_key content (trusted status config_key))
                  no_valid_signature payload key (ground arith)
          ])
