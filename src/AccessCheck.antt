-- ===== src/AccessCheck.antt =====
-- irrd/server/access_check.py: whether a client may use an interface.
pub mod Laws
mod Examples
use irrd.Base.{
  ℕ, String, Bool, true, false, not, ◌&&◌, Option, none, some, List, [], ◌∷◌, is_nil, lookup,
  string_eq, eqb, ◌==◌, if◌then◌else◌,
}
use irrd.Ip.{IpLib}

-- `access_lists`, and the name of the list that the setting of the interface holds
pub record AccessSettings : Type 0 where
  pub access_lists : List (String × List String)
  pub access_list_name : Option String

-- The list, which is empty where no name is set or no list has it
unfoldable pub access_list : AccessSettings → List String
access_list s = elim s.access_list_name [
  | none ↦ []
  | some name ↦
      if name == ""
      then []
      else (elim (lookup name s.access_lists) [ none ↦ [] | some items ↦ items ])
]

module _ (L : IpLib) where
  -- An IPv4 address that is mapped to IPv6 is taken for the IPv4 address.
  unfoldable pub unmapped : L.IP → L.IP
  unmapped ip =
      if eqb (L.version ip) 6 then (elim (L.v46map ip) [ none ↦ ip | some ipv4 ↦ ipv4 ]) else ip

  -- `[client_ip in IP(allowed) for allowed in access_list]`, all of which is evaluated before `any` looks at it;
  -- `none` stands for the `ValueError` of an entry that cannot be read.
  unfoldable pub in_access_list : L.IP → List String → Option Bool
  in_access_list ip [] = some false
  in_access_list ip (allowed ∷ items) =
      let rest = in_access_list ip items in
      elim (L.parse allowed) [
        | none ↦ none
        | some network ↦ elim rest [
          | none ↦ none
          | some found ↦ some (if L.within ip network then true else found)
        ]
      ]

  -- The address that the test client of the HTTP server uses while tests run is let in elsewhere.
  unfoldable pub is_client_permitted : AccessSettings → String → Bool → Option Bool
  is_client_permitted s ip default_deny = elim (L.parse ip) [
    | none ↦ some false
    | some client_ip ↦
        if is_nil (access_list s)
        then some (not default_deny)
        else in_access_list (unmapped client_ip) (access_list s)
  ]
