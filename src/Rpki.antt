-- ===== src/Rpki.antt =====
-- irrd/rpki: validation of routes against ROAs. This module has irrd/rpki/status.py and
-- `BulkRouteROAValidator` of irrd/rpki/validators.py; the trie (datrie) and the address code are
-- parameters.
pub mod Trie
pub mod Reference
mod Tree
mod Search
pub mod Bulk
pub mod Verdict
pub mod All
pub mod Single
mod Examples
use irrd.Base.{
  ℕ, zero, suc, ◌/◌, ◌%◌, ◌^◌, ◌≤◌, String, Bool, true, false, not, ◌&&◌, Option, none, some, List,
  [], ◌∷◌, ◌++◌, map, length, take, any, is_nil, filter, contains, leb, eqb, ◌==◌, string_eq,
  if◌then◌else◌,
}
use irrd.Conf.{SourceSettings, Sources}
use irrd.Ip.{IpLib}
use irrd.Text.{split, has_char, int}
use Trie.{Key, Entry, TrieLib}

pub data RpkiStatus : Type 0 where
  valid invalid not_found : RpkiStatus

unfoldable pub is_visible : RpkiStatus → Bool
is_visible valid = true
is_visible invalid = false
is_visible not_found = true

-- `BYTE_BIN[b]`: the lowest `n` bits of `b`, the highest of them first
unfoldable pub byte_bits : ℕ → ℕ → Key
byte_bits zero b = []
byte_bits (suc n) b = eqb (b / 2 ^ n % 2) 1 ∷ byte_bits n b

unfoldable pub join_bytes : List ℕ → Key
unfolding byte_bits
join_bytes [] = []
join_bytes (b ∷ bs) = byte_bits 8 b ++ join_bytes bs

-- `roa_asn != 0 and roa_asn == prefix_asn and prefix_length <= roa_max_length`
abbrev pub entry_matches : ℕ → ℕ → Entry → Bool
entry_matches asn length e = not (eqb e.asn 0) && (eqb e.asn asn && leb length e.max_length)

-- The loop over the covering ROAs: it returns at the first match.
unfoldable pub scan_items : ℕ → ℕ → List (Key × List Entry) → RpkiStatus
scan_items asn length [] = invalid
scan_items asn length ((_, entries) ∷ items) =
    let rest = scan_items asn length items in
    if any (entry_matches asn length) entries then valid else rest

abbrev pub excluded_sources : Sources → List String
excluded_sources sources =
    map (λ (source, _). source) (filter (λ (_, settings). settings.rpki_excluded) sources)

-- `first_ip, length = roa["prefix"].split("/")` with `int(length)`; `none` stands for the
-- `ValueError`
unfoldable pub split_prefix : String → Option (String × ℕ)
unfolding split int
split_prefix prefix = elim (split b'/' prefix) [
  | first_ip ∷ length ∷ [] ↦ elim (int length) [ none ↦ none | some n ↦ some (first_ip, n) ]
  | _ ↦ none
]

module _ (L : IpLib) where
  -- A ROA of the importer, as an object
  pub record Roa : Type 0 where
    pub prefix : L.IP
    pub prefix_str : String
    pub asn : ℕ
    pub max_length : ℕ

  -- The addresses are ones that `inet_pton` reads: its error on any other text is not modelled.
  unfoldable pub ip_to_binary_str : String → ℕ × Key
  unfolding join_bytes has_char
  ip_to_binary_str ip =
      let v6 = has_char b':' ip in
      (if v6 then 6 else 4, join_bytes (L.inet_pton v6 ip) ++ false ∷ [])

module _ (T : TrieLib) where
  pub record Trees : Type 0 where
    pub tree4 : T.Trie
    pub tree6 : T.Trie

  abbrev pub empty_trees : Trees
  empty_trees = record { tree4 = T.empty; tree6 = T.empty }

  -- `if key in roa_tree: roa_tree[key].append(…) else: roa_tree[key] = […]`
  abbrev pub add_entry : T.Trie → Key → Entry → T.Trie
  add_entry t k e = elim (T.get t k) [
    | none ↦ T.set t k (e ∷ [])
    | some entries ↦ T.set t k (entries ++ e ∷ [])
  ]

  abbrev pub add_roa : Trees → ℕ → Key → Entry → Trees
  add_roa ts version k e =
      if eqb version 6
      then record ts { tree6 = add_entry ts.tree6 k e }
      else record ts { tree4 = add_entry ts.tree4 k e }

  pub record BulkValidator : Type 0 where
    pub excluded : List String
    pub trees : Trees

module _ (L : IpLib) (T : TrieLib) where
  unfoldable pub build_roa_tree_from_roa_objs : List (Roa L) → Trees T → Trees T
  build_roa_tree_from_roa_objs [] ts = ts
  build_roa_tree_from_roa_objs (roa ∷ roas) ts = build_roa_tree_from_roa_objs roas (
      add_roa T ts (L.version roa.prefix) (take (L.prefixlen roa.prefix) (L.str_bin roa.prefix))
        (record { prefix = roa.prefix_str; asn = roa.asn; max_length = roa.max_length }))

  -- A row of the ROA table is an `Entry`: its prefix as a text, AS number and maximum length.
  unfoldable pub build_roa_tree_from_db : List Entry → Trees T → Option (Trees T)
  build_roa_tree_from_db [] ts = some ts
  build_roa_tree_from_db (roa ∷ roas) ts = elim (split_prefix roa.prefix) [
    | none ↦ none
    | some (first_ip, length) ↦ build_roa_tree_from_db roas (
        add_roa T ts (ip_to_binary_str L first_ip).0 (take length (ip_to_binary_str L first_ip).1)
          roa)
  ]

  -- `BulkRouteROAValidator(dh, roas)`: the tree is built from the database where no ROAs are given.
  unfoldable pub bulk_validator :
      Sources → List Entry → Option (List (Roa L)) → Option (BulkValidator T)
  bulk_validator sources rows none = elim (build_roa_tree_from_db rows (empty_trees T)) [
    | none ↦ none
    | some ts ↦ some (record { excluded = excluded_sources sources; trees = ts })
  ]
  bulk_validator sources rows (some roas) = some (record {
    excluded = excluded_sources sources;
    trees = build_roa_tree_from_roa_objs roas (empty_trees T);
  })

  unfoldable pub validate_route : BulkValidator T → String → ℕ → ℕ → String → RpkiStatus
  validate_route b prefix_ip prefix_length prefix_asn source =
      let (version, bits) = ip_to_binary_str L prefix_ip in
      let tree = if eqb version 6 then b.trees.tree6 else b.trees.tree4 in
      let items = T.prefix_items tree (take prefix_length bits) in
      if contains b.excluded source
      then not_found
      else if is_nil items
      then not_found
      else scan_items prefix_asn prefix_length items
