-- ===== src/AccessCheck/Laws.antt =====
-- Whom an access list lets in.
use irrd.Base.{
  String, ◌≡◌, ◌↔◌, refl, inl, inr, Bool, true, false, some, List, [], ◌∷◌, In, is_nil, arith,
  Bool-cases, Option-cases, if◌then◌else◌,
}
use irrd.Ip.{IpLib}
use irrd.AccessCheck.{AccessSettings, access_list, unmapped, in_access_list, is_client_permitted}

module _ (L : IpLib) where
  -- Every entry can be read.
  abbrev pub Readable : List String → Type 0
  Readable [] = Unit
  Readable (allowed ∷ items) =
      ((network : L.IP) × (L.parse allowed ≡ some network)) × Readable items

  -- Some entry is a network that holds the address.
  abbrev pub Listed : L.IP → List String → Type 0
  Listed ip items =
      (allowed : String) × (network : L.IP) × In allowed items
      × (L.parse allowed ≡ some network)
      × (L.within ip network ≡ true)

  in_access_list-Readable :
      (ip : L.IP) (items : List String)
      → Readable items
      → (b : Bool) × (in_access_list L ip items ≡ some b)
  unfolding in_access_list
  in_access_list-Readable ip [] h = (false, refl)
  in_access_list-Readable ip (allowed ∷ items) ((network, e), h) =
      let (b, k) = in_access_list-Readable ip items h in
      ((if L.within ip network then true else b), rw (e, in_access_list, k) refl)

  in_access_list-Listed :
      (ip : L.IP) (items : List String)
      → Readable items
      → in_access_list L ip items ≡ some true
      → Listed ip items
  unfolding in_access_list
  in_access_list-Listed ip [] r h = ground arith
  in_access_list-Listed ip (allowed ∷ items) ((network, e), r) h =
      elim (Bool-cases (L.within ip network)) [
        | inl w ↦ (allowed, network, inl refl, e, w)
        | inr w ↦
            let (b, k) = in_access_list-Readable ip items r in
            let found : in_access_list L ip items ≡ some true = ground arith in
            let (other, net, i, p, q) = in_access_list-Listed ip items r found in
            (other, net, inr i, p, q)
      ]

  Listed-in_access_list :
      (ip : L.IP) (items : List String)
      → Readable items
      → Listed ip items
      → in_access_list L ip items ≡ some true
  unfolding in_access_list
  Listed-in_access_list ip [] r (allowed, network, i, p, q) = absurd i
  Listed-in_access_list ip (a ∷ items) ((net, e), r) (allowed, network, inl same, p, q) =
      let (b, k) = in_access_list-Readable ip items r in ground (arith, e, k, same, p, q)
  Listed-in_access_list ip (a ∷ items) ((net, e), r) (allowed, network, inr i, p, q) =
      let k = Listed-in_access_list ip items r (allowed, network, i, p, q) in ground (arith, e, k)

  -- With an access list that is set, not empty and readable, a client is let in exactly if its address can be
  -- read and, once an IPv4 address that is mapped to IPv6 has been unmapped, lies in one of the
  -- networks of the list, whatever the default is.
  pub is_client_permitted_iff :
      (s : AccessSettings) (ip : String) (default_deny : Bool)
      → is_nil (access_list s) ≡ false
      → Readable (access_list s)
      → (is_client_permitted L s ip default_deny ≡ some true) ↔ (
          (client : L.IP) × (L.parse ip ≡ some client) × Listed (unmapped L client) (access_list s))
  unfolding is_client_permitted
  is_client_permitted_iff s ip default_deny set r = elim (Option-cases (L.parse ip)) [
    | inl e ↦ ((λ h. ground arith), (λ (client, p, l). ground arith))
    | inr (client, e) ↦ (
      (λ h.
          (client, e, in_access_list-Listed (unmapped L client) (access_list s) r (ground arith))),
      (λ (other, p, l).
          let k = Listed-in_access_list (unmapped L other) (access_list s) r l in
          let same : client ≡ other = ground arith in ground (arith, e, set, k, same)),
    )
  ]
