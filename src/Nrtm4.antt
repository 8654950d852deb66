-- ===== src/Nrtm4.antt =====
-- irrd/mirroring/nrtm4: the Update Notification File (nrtm4_types.py) and the client that follows a
-- repository (nrtm4_client.py).
pub mod Status
pub mod Client
mod Versions
mod Keys
mod History
mod Recorded
mod Examples
use irrd.Base.{
  ℕ, zero, suc, ◌+◌, ◌-◌, String, Bool, true, false, not, ◌&&◌, ◌||◌, Option, none, some, List, [],
  ◌∷◌, ◌++◌, max, all, is_nil, map, is_some, leb, ltb, eqb, ◌==◌, lookup, string_eq, nat_eq,
  list_eq, option_eq, insert, if◌then◌else◌,
}

pub record FileReference : Type 0 where
  pub version : ℕ
  pub url : String
  pub hash : String

pub record UpdateNotificationFile : Type 0 where
  pub source : String
  pub session_id : String
  pub version : ℕ
  pub snapshot : FileReference
  pub deltas : List FileReference
  pub next_signing_key : Option String

abbrev pub version_of : FileReference → ℕ
version_of f = f.version

abbrev pub first_version : List FileReference → Option ℕ
first_version [] = none
first_version (d ∷ ds) = some d.version

-- `deltas[-1]`
abbrev pub last_version_of : List FileReference → Option ℕ
last_version_of [] = none
last_version_of (d ∷ []) = some d.version
last_version_of (d ∷ e ∷ ds) = last_version_of (e ∷ ds)

abbrev pub min_delta_version : UpdateNotificationFile → Option ℕ
min_delta_version u = first_version u.deltas

abbrev pub max_delta_version : UpdateNotificationFile → Option ℕ
max_delta_version u = last_version_of u.deltas

-- As many numbers, from the first one on
abbrev pub count_from : ℕ → ℕ → List ℕ
count_from start zero = []
count_from start (suc n) = start ∷ count_from (suc start) n

-- `range(start, stop)`
abbrev pub range : ℕ → ℕ → List ℕ
range start stop = count_from start (stop - start)

abbrev pub expected_unf_version : UpdateNotificationFile → ℕ
expected_unf_version u = elim (max_delta_version u) [
  | none ↦ u.snapshot.version
  | some v ↦ if eqb v 0 then u.snapshot.version else max u.snapshot.version v
]

abbrev pub contiguous : List FileReference → Bool
contiguous [] = true
contiguous (d ∷ ds) = elim (last_version_of (d ∷ ds)) [
  | none ↦ false
  | some top ↦ map version_of (d ∷ ds) == range d.version (suc top)
]

-- Whether the check passes; a failure is a `ValueError`.
unfoldable pub check_version_consistency : UpdateNotificationFile → Bool
check_version_consistency u = eqb u.version (expected_unf_version u) && contiguous u.deltas

abbrev pub positive : FileReference → Bool
positive f = ltb 0 f.version

-- What `model_validate_json` accepts of a text that has the fields: `PositiveInt` for the versions, the
-- expected source, and the consistency of the versions. The age of the timestamp and the form of the next
-- key are what `fresh` and `valid_key` say.
unfoldable pub validate_unf : Bool → (String → Bool) → String → UpdateNotificationFile → Bool
validate_unf fresh valid_key source u =
    (ltb 0 u.version && (positive u.snapshot && all positive u.deltas))
    && (fresh && (elim u.next_signing_key [ none ↦ true | some k ↦ k == "" || valid_key k ]))
    && (u.source == source && check_version_consistency u)
