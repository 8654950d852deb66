-- ===== src/RoutePref/Radix.antt =====
-- The radix tree of networks (the third-party py-radix) whose nodes carry a dictionary, and what
-- its documentation says of the operations that are used.
use irrd.Base.{ℕ, String, ◌≡◌, ◌≢◌, ◌↔◌, Bool, true, Option, none, some, List, In}

-- irrd/routepref/status.py
pub data RoutePreferenceStatus : Type 0 where
  visible suppressed : RoutePreferenceStatus

-- The data of a node: `{pk: (preference, status)}`
abbrev pub Data : Type 0
Data = List (String × (ℕ × RoutePreferenceStatus))

pub record RadixLib : Type 1 where
  pub Tree : Type 0
  -- A packed network with its mask length
  pub Net : Type 0
  pub net_of : String → Net
  -- The first network lies in the second, or they are equal.
  pub within : Net → Net → Bool
  pub empty : Tree
  pub data_at : Tree → Net → Option Data
  -- `add`, followed by an assignment to the node's data
  pub put : Tree → Net → Data → Tree
  pub nodes : Tree → List Net
  pub search_covered : Tree → Net → List Net
  pub search_covering : Tree → Net → List Net

pub record IsRadix (R : RadixLib) : Type 0 where
  pub data_at-empty : (n : R.Net) → R.data_at R.empty n ≡ none
  pub data_at-put_self : (t : R.Tree) (n : R.Net) (d : Data) → R.data_at (R.put t n d) n ≡ some d
  pub data_at-put_ne :
      (t : R.Tree) (n m : R.Net) (d : Data) → n ≢ m → R.data_at (R.put t n d) m ≡ R.data_at t m
  pub net_discrete : Discrete R.Net
  pub nodes_iff : (t : R.Tree) (n : R.Net) → In n (R.nodes t) ↔ (R.data_at t n ≢ none)
  -- The two searches find the nodes that lie in a network and those that it lies in.
  pub search_covered_iff :
      (t : R.Tree) (n m : R.Net)
      → In m (R.search_covered t n) ↔ (In m (R.nodes t) × (R.within m n ≡ true))
  pub search_covering_iff :
      (t : R.Tree) (n m : R.Net)
      → In m (R.search_covering t n) ↔ (In m (R.nodes t) × (R.within n m ≡ true))
