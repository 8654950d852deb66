-- ===== src/Ip/Concrete.antt =====
-- A concrete instance of the address parameters for IPv4 texts, with which definitions run in
-- tests and witnesses. An IPv6 text cannot be parsed by it.
use irrd.Base.{
  ℕ, zero, suc, ◌/◌, ◌%◌, ◌^◌, String, Bool, false, ◌&&◌, ◌||◌, Option, none, some, List, [], ◌∷◌,
  ◌++◌, take, eqb, ◌==◌, bool_eq,
}
use irrd.Ip.{IpLib}
use irrd.Text.{split, int}

pub record Network : Type 0 where
  pub length : ℕ
  pub bits : List Bool

unfoldable pub numbers : List String → List ℕ
unfolding int
numbers [] = []
numbers (part ∷ parts) = elim (int part) [ none ↦ [] | some n ↦ n ∷ numbers parts ]

unfoldable pub bits_of : ℕ → ℕ → List Bool
bits_of zero b = []
bits_of (suc n) b = eqb (b / 2 ^ n % 2) 1 ∷ bits_of n b

unfoldable pub all_bits : List ℕ → List Bool
unfolding bits_of
all_bits [] = []
all_bits (b ∷ bs) = bits_of 8 b ++ all_bits bs

abbrev starts : List Bool → List Bool → Bool
starts [] k = Bool.true
starts (x ∷ j) [] = false
starts (x ∷ j) (y ∷ k) = x == y && starts j k

unfoldable pub within : Network → Network → Bool
within a b = starts (take b.length b.bits) (take a.length a.bits)

unfoldable pub parse : String → Option Network
unfolding split numbers all_bits
parse text = elim (split b'/' text) [
  | [] ↦ none
  | address ∷ [] ↦ some (record { length = 32; bits = all_bits (numbers (split b'.' address)) })
  | address ∷ length ∷ rest ↦ elim (int length) [
    | none ↦ none
    | some n ↦ some (record { length = n; bits = all_bits (numbers (split b'.' address)) })
  ]
]

unfoldable pub inet_pton : Bool → String → List ℕ
unfolding split numbers
inet_pton v6 text = numbers (split b'.' text)

abbrev pub ipv4 : IpLib
ipv4 = record {
  IP = Network;
  parse = parse;
  version = λ a. 4;
  prefixlen = λ a. a.length;
  str_bin = λ a. a.bits;
  overlaps = λ a b. within a b || within b a;
  within = within;
  v46map = λ a. none;
  inet_pton = inet_pton;
}
