-- ===== src/RoutePref/Examples.antt =====
-- A radix tree that meets the laws, tests, and the theorem at concrete data.
use Prim.Native.Char.{code}
use irrd.Base.{
  String, ◌≡◌, refl, ◌≢◌, ◌↔◌, inl, inr, Bool, true, false, ◌&&◌, none, some, List, [], ◌∷◌, map,
  filter, In, In-filter, filter-In, arith, lookup, insert, lookup-insert, ◌==◌, bool_eq, list_eq,
  beq_iff, beq_refl, eqb, Bool-cases,
}
use irrd.Conf.{Sources, bare_source}
use irrd.RoutePref.Radix.{visible, suppressed, Data, RadixLib, IsRadix}
use irrd.RoutePref.Tree.{DistinctPks}
use irrd.RoutePref.Decide.{list_of}
use irrd.RoutePref.Outcome.{Due, validate_known_routes_iff}
use irrd.RoutePref.{
  RouteObject, source_preferences, max_preference, build_tree, init, evaluate_route, decide_node,
  decide_nodes, validate_known_routes,
}

abbrev Net : Type 0
Net = List Bool

-- A network written by its bits
abbrev bits : String → Net
bits String.[] = []
bits (String.◌∷◌ c s) = eqb (code c) b'1' ∷ bits s

-- The first network lies in the second.
abbrev starts : Net → Net → Bool
starts k [] = true
starts [] (y ∷ j) = false
starts (x ∷ k) (y ∷ j) = x == y && starts k j

abbrev Tree : Type 0
Tree = List (Net × Data)

abbrev nodes : Tree → List Net
nodes t = map (λ (n, _). n) t

abbrev assoc : RadixLib
assoc = record {
  Tree = Tree;
  Net = Net;
  net_of = bits;
  within = starts;
  empty = [];
  data_at = λ t n. lookup n t;
  put = λ t n d. insert n d t;
  nodes = nodes;
  search_covered = λ t n. filter (λ m. starts m n) (nodes t);
  search_covering = λ t n. filter (λ m. starts n m) (nodes t);
}

Net-discrete : Discrete Net
Net-discrete = hlevel

In-nodes : (t : Tree) (n : Net) → In n (nodes t) → lookup n t ≢ none
In-nodes [] n m = absurd m
In-nodes ((j, d) ∷ t) n (inl e) = ground (arith, beq_iff j n)
In-nodes ((j, d) ∷ t) n (inr m) = ground (arith, In-nodes t n m)

nodes-In : (t : Tree) (n : Net) → lookup n t ≢ none → In n (nodes t)
nodes-In [] n h = absurd (h refl)
nodes-In ((j, d) ∷ t) n h = elim (Bool-cases (j == n)) [
  | inl same ↦ inl ((beq_iff j n).0 same)
  | inr other ↦ inr (nodes-In t n (ground arith))
]

assoc-IsRadix : IsRadix assoc
assoc-IsRadix = record {
  data_at-empty = λ n. refl;
  data_at-put_self = λ t n d. ground (arith, lookup-insert n n d t, beq_refl n);
  data_at-put_ne = λ t n m d ne. ground (arith, lookup-insert n m d t, beq_iff n m);
  net_discrete = Net-discrete;
  nodes_iff = λ t n. (In-nodes t n, nodes-In t n);
  search_covered_iff = λ t n m. (
    filter-In (λ l. starts l n) m (nodes t),
    λ (i, w). In-filter (λ l. starts l n) m (nodes t) i w,
  );
  search_covering_iff = λ t n m. (
    filter-In (λ l. starts n l) m (nodes t),
    λ (i, w). In-filter (λ l. starts n l) m (nodes t) i w,
  );
}

abbrev sources : Sources
sources =
    ("HIGH", record bare_source { route_object_preference = some 900 })
    ∷ ("LOW", record bare_source { route_object_preference = some 100 })
    ∷ ("OTHER", bare_source)
    ∷ []

abbrev rows : List RouteObject
rows =
    record { prefix = "1100"; source = "LOW"; pk = "a"; status = visible }
    ∷ record { prefix = "11"; source = "HIGH"; pk = "b"; status = visible }
    ∷ record { prefix = "0"; source = "LOW"; pk = "c"; status = suppressed }
    ∷ record { prefix = "1"; source = "OTHER"; pk = "d"; status = suppressed }
    ∷ []

decided : validate_known_routes assoc (init assoc sources rows) ≡ ("c" ∷ [], "a" ∷ [])
unfolding validate_known_routes init build_tree source_preferences decide_nodes decide_node
    evaluate_route max_preference
decided = refl

released : (init assoc sources rows).excluded_currently_suppressed ≡ "d" ∷ []
unfolding init build_tree source_preferences
released = refl

rows-Distinct : DistinctPks rows
rows-Distinct = (refl, (refl, (refl, (refl, tt))))

validate_known_routes_iff_example :
    In "a" (list_of suppressed (validate_known_routes assoc (init assoc sources rows)))
    ↔ Due suppressed assoc (source_preferences sources) rows "a"
validate_known_routes_iff_example =
    validate_known_routes_iff assoc-IsRadix sources rows rows-Distinct suppressed "a"
