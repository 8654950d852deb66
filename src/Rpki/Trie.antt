-- ===== src/Rpki/Trie.antt =====
-- The trie that `BulkRouteROAValidator` keeps ROAs in (the third-party `datrie.Trie`), and what its
-- documentation says of the operations that are used.
use irrd.Base.{
  ℕ, String, ◌≡◌, ◌↔◌, Bool, true, false, ◌&&◌, Option, none, some, List, [], ◌∷◌, In, ◌==◌,
  bool_eq, list_eq, if◌then◌else◌,
}

-- A binary string of network bits
abbrev pub Key : Type 0
Key = List Bool

-- `(roa_prefix, roa_asn, roa_max_length)`
pub record Entry : Type 0 where
  pub prefix : String
  pub asn : ℕ
  pub max_length : ℕ

-- The first key is a prefix of the second.
abbrev pub is_prefix : Key → Key → Bool
is_prefix [] k = true
is_prefix (x ∷ j) [] = false
is_prefix (x ∷ j) (y ∷ k) = x == y && is_prefix j k

pub record TrieLib : Type 1 where
  pub Trie : Type 0
  pub empty : Trie
  pub get : Trie → Key → Option (List Entry)
  pub set : Trie → Key → List Entry → Trie
  pub prefix_items : Trie → Key → List (Key × List Entry)

pub record IsTrie (T : TrieLib) : Type 0 where
  pub get-empty : (k : Key) → T.get T.empty k ≡ none
  pub get-set :
      (t : T.Trie) (k j : Key) (v : List Entry)
      → T.get (T.set t k v) j ≡ (if k == j then some v else T.get t j)
  -- `prefix_items(k)` lists the items whose keys are prefixes of `k`.
  pub prefix_items_iff :
      (t : T.Trie) (k j : Key) (v : List Entry)
      → In (j, v) (T.prefix_items t k) ↔ ((is_prefix j k ≡ true) × (T.get t j ≡ some v))
