-- ===== src/Nrtm4/Status.antt =====
-- irrd/mirroring/nrtm4/nrtm4_client.py: the recorded status of `NRTM4Client`, the keys that it trusts, the next version, and the
-- files that it has seen.
use irrd.Base.{
  ℕ, suc, String, Bool, true, false, not, ◌&&◌, ◌||◌, Option, none, some, List, [], ◌∷◌, is_nil,
  is_some, ltb, eqb, ◌==◌, lookup, string_eq, nat_eq, list_eq, option_eq, insert, if◌then◌else◌,
  PyEq, ◌↔◌, ◌≡◌, arith,
}
use irrd.Nrtm4.{FileReference, UpdateNotificationFile, min_delta_version}

-- `snapshot-…` and `delta-…`
pub data FileKey : Type 0 where
  snapshot_key delta_key : ℕ → FileKey

abbrev pub key_beq : FileKey → FileKey → Bool
key_beq (snapshot_key m) (snapshot_key n) = eqb m n
key_beq (snapshot_key m) (delta_key n) = false
key_beq (delta_key m) (snapshot_key n) = false
key_beq (delta_key m) (delta_key n) = eqb m n

pub key_beq_iff : (a b : FileKey) → (key_beq a b ≡ true) ↔ (a ≡ b)
key_beq_iff a b = ground arith

instance abbrev pub key_eq : PyEq FileKey
key_eq = record { same = key_beq; agrees = key_beq_iff }

-- The URL and the hash of each file
abbrev pub Hashes : Type 0
Hashes = List (FileKey × (String × String))

pub record ClientStatus : Type 0 where
  pub session_id : Option String
  pub version : Option ℕ
  pub current_key : Option String
  pub next_key : Option String
  pub previous_file_hashes : Option Hashes

pub data ClientError : Type 0 where
  no_valid_signature only_initial_key_valid invalid_key invalid_unf older_version
        rewriting_history :
      ClientError
  retrieval_failed invalid_header no_header empty_delta invalid_entry invalid_json not_an_operation
        no_version :
      ClientError

pub data Result {ℓ} (A : Type ℓ) : Type ℓ where
  ok : A → Result A
  error : ClientError → Result A

abbrev pub nonempty : Option String → Bool
nonempty none = false
nonempty (some s) = not (s == "")

-- The signature: `verify content key` is the payload, or `none` for the `ValueError` of a signature that
-- is not valid for the key. `valid_key` says whether the text of a key can be read.
module _ {C P : Type 0} (verify : C → String → Option P) (valid_key : String → Bool) where
  -- The loop over the keys, which a key that cannot be read ends with its error
  unfoldable pub try_keys : C → List (Option String) → Result (Option (P × String))
  try_keys content [] = ok none
  try_keys content (none ∷ keys) = try_keys content keys
  try_keys content (some key ∷ keys) =
      let rest = try_keys content keys in
      if key == ""
      then rest
      else if not (valid_key key)
      then error invalid_key
      else (elim (verify content key) [ none ↦ rest | some payload ↦ ok (some (payload, key)) ])

  abbrev pub initial_key_valid : C → Option String → Bool
  initial_key_valid content none = false
  initial_key_valid content (some key) =
      not (key == "") && (valid_key key && is_some (verify content key))

  unfoldable pub deserialize_unf : ClientStatus → Option String → C → Result (P × String)
  deserialize_unf status config_key content =
      let keys =
        if nonempty status.current_key
        then status.current_key ∷ status.next_key ∷ []
        else config_key ∷ [] in
      elim (try_keys content keys) [
        | error e ↦ error e
        | ok (some found) ↦ ok found
        | ok none ↦
            if nonempty status.current_key && initial_key_valid content config_key
            then error only_initial_key_valid
            else error no_valid_signature
      ]

-- `not last_version`
abbrev pub falsy : Option ℕ → Bool
falsy none = true
falsy (some n) = eqb n 0

abbrev pub or_zero : Option ℕ → ℕ
or_zero none = 0
or_zero (some n) = n

-- The second half: `none` asks for a snapshot.
abbrev pub next_after : UpdateNotificationFile → ℕ → Result (Option ℕ)
next_after u last =
    if ltb u.version last then error older_version else (elim (min_delta_version u) [
      | none ↦ ok (some (suc last))
      | some v ↦ if not (eqb v 0) && ltb (suc last) v then ok none else ok (some (suc last))
    ])

unfoldable pub find_next_version :
    Bool → ClientStatus → UpdateNotificationFile → Option ℕ → Result (Option ℕ)
find_next_version force_reload status u last_version =
    if not (falsy last_version)
    then next_after u (or_zero last_version)
    else if force_reload
    then ok none
    else if not (nonempty status.session_id) || falsy status.version
    then ok none
    else if not (status.session_id == some u.session_id)
    then ok none
    else next_after u (or_zero status.version)

abbrev pub details : FileReference → String × String
details f = (f.url, f.hash)

unfoldable pub add_deltas : List FileReference → Hashes → Hashes
add_deltas [] files = files
add_deltas (d ∷ ds) files = add_deltas ds (insert (delta_key d.version) (details d) files)

abbrev pub current_files : UpdateNotificationFile → Hashes
current_files u = add_deltas u.deltas ((snapshot_key u.snapshot.version, details u.snapshot) ∷ [])

abbrev pub same_details : String × String → Option (String × String) → Bool
same_details (url, hash) none = true
same_details (url, hash) (some (old_url, old_hash)) = url == old_url && hash == old_hash

-- Whether no file differs from what was seen before under its name
unfoldable pub history_kept : Hashes → Hashes → Bool
history_kept previous [] = true
history_kept previous ((key, found) ∷ files) =
    same_details found (lookup key previous) && history_kept previous files

unfoldable pub aggregate_previous_file_hashes :
    ClientStatus → UpdateNotificationFile → Result Hashes
aggregate_previous_file_hashes status u = elim status.previous_file_hashes [
  | none ↦ ok (current_files u)
  | some previous ↦
      if is_nil previous || history_kept previous (current_files u)
      then ok (current_files u)
      else error rewriting_history
]
