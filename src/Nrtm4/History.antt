-- ===== src/Nrtm4/History.antt =====
-- Files do not change under their names: `_validate_aggregate_previous_file_hashes_from_unf`.
use irrd.Base.{
  String, ◌≡◌, refl, inl, inr, true, false, some, [], ◌∷◌, is_nil, ◌==◌, lookup, string_eq, beq_iff,
  arith, Bool-cases,
}
use irrd.Nrtm4.{UpdateNotificationFile}
use irrd.Nrtm4.Status.{
  FileKey, key_eq, Hashes, ClientStatus, ok, current_files, same_details, history_kept,
  aggregate_previous_file_hashes,
}

key_same : (a b : FileKey) → (a == b) ≡ true → a ≡ b
key_same a b h = (beq_iff a b).0 h

pair_same : (a b : String × String) → same_details a (some b) ≡ true → a ≡ b
pair_same (u, h) (v, k) e = ground (arith, beq_iff u v, beq_iff h k)

history_kept-lookup :
    (previous files : Hashes) (key : FileKey) (old new : String × String)
    → history_kept previous files ≡ true
    → lookup key previous ≡ some old
    → lookup key files ≡ some new
    → new ≡ old
unfolding history_kept
history_kept-lookup previous [] key old new h p f = cc
history_kept-lookup previous ((k, d) ∷ files) key old new h p f = elim (Bool-cases (k == key)) [
  | inl e ↦ ground (arith, key_same k key e, pair_same d old)
  | inr e ↦ history_kept-lookup previous files key old new (ground arith) p (ground arith)
]

is_nil-lookup :
    (previous : Hashes) (key : FileKey) (old : String × String)
    → lookup key previous ≡ some old
    → is_nil previous ≡ false
is_nil-lookup [] key old h = cc
is_nil-lookup (x ∷ previous) key old h = refl

-- Where the client accepts the files of a notification file, every file that the last accepted notification
-- file named too, under the same kind and version, has kept its URL and its hash.
pub aggregate_previous_file_hashes-kept :
    (status : ClientStatus) (u : UpdateNotificationFile) (files previous : Hashes) (key : FileKey)
    (old new : String × String)
    → aggregate_previous_file_hashes status u ≡ ok files
    → status.previous_file_hashes ≡ some previous
    → lookup key previous ≡ some old
    → lookup key files ≡ some new
    → new ≡ old
unfolding aggregate_previous_file_hashes
aggregate_previous_file_hashes-kept status u files previous key old new h p o n =
    elim (Bool-cases (history_kept previous (current_files u))) [
      | inl e ↦
          history_kept-lookup previous (current_files u) key old new e o
            (ground (arith, is_nil-lookup previous key old o))
      | inr e ↦ ground (arith, is_nil-lookup previous key old o)
    ]
