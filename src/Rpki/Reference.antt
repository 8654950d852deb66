-- ===== src/Rpki/Reference.antt =====
-- Route origin validation, stated without a tree: the ROAs are a list, and a route is judged by
-- those whose network bits are a prefix of its own.
use irrd.Base.{ℕ, Bool, ◌&&◌, List, any, filter, is_nil, ◌==◌, bool_eq, if◌then◌else◌}
use irrd.Rpki.Trie.{Key, Entry, is_prefix}
use irrd.Rpki.{RpkiStatus, valid, invalid, not_found, entry_matches}

-- A ROA at its place in the address space
pub record PlacedRoa : Type 0 where
  pub v6 : Bool
  pub key : Key
  pub entry : Entry

abbrev pub covers : Bool → Key → PlacedRoa → Bool
covers v6 key p = p.v6 == v6 && is_prefix p.key key

unfoldable pub judge : List PlacedRoa → ℕ → ℕ → RpkiStatus
judge covering asn length =
    if is_nil covering
    then not_found
    else if any (λ p. entry_matches asn length p.entry) covering
    then valid
    else invalid

unfoldable pub rov : List PlacedRoa → Bool → Key → ℕ → ℕ → RpkiStatus
unfolding judge
rov roas v6 key asn length = judge (filter (covers v6 key) roas) asn length
