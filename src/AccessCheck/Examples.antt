-- ===== src/AccessCheck/Examples.antt =====
-- Tests of the access check, and its theorem at concrete data.
use irrd.Base.{◌≡◌, ◌↔◌, refl, Bool, true, false, some, none, List, [], ◌∷◌}
use irrd.Ip.Concrete.{Network, ipv4, parse, within}
use irrd.AccessCheck.{AccessSettings, access_list, unmapped, in_access_list, is_client_permitted}
use irrd.AccessCheck.Laws.{Listed, is_client_permitted_iff}

abbrev settings : AccessSettings
settings = record {
  access_lists = ("http", "192.0.2.0/24" ∷ []) ∷ [];
  access_list_name = some "http";
}

abbrev open_settings : AccessSettings
open_settings = record { access_lists = []; access_list_name = none }

inside : is_client_permitted ipv4 settings "192.0.2.77" true ≡ some true
unfolding is_client_permitted access_list unmapped in_access_list parse within
inside = refl

outside : is_client_permitted ipv4 settings "198.51.100.1" false ≡ some false
unfolding inside
outside = refl

no_list : is_client_permitted ipv4 open_settings "198.51.100.1" true ≡ some false
unfolding inside
no_list = refl

abbrev bits24 : List Bool
bits24 =
    true ∷ true ∷ false ∷ false ∷ false ∷ false ∷ false ∷ false ∷ false ∷ false ∷ false ∷ false
    ∷ false ∷ false ∷ false ∷ false ∷ false ∷ false ∷ false ∷ false ∷ false ∷ false ∷ true ∷ false
    ∷ false ∷ false ∷ false ∷ false ∷ false ∷ false ∷ false ∷ false ∷ []

abbrev network : Network
network = record { length = 24; bits = bits24 }

read_list : parse "192.0.2.0/24" ≡ some network
unfolding parse
read_list = refl

is_client_permitted_iff_example :
    (is_client_permitted ipv4 settings "192.0.2.77" true ≡ some true) ↔ (
      (client : Network) × (parse "192.0.2.77" ≡ some client)
      × Listed ipv4 (unmapped ipv4 client) (access_list settings))
unfolding access_list
is_client_permitted_iff_example =
    is_client_permitted_iff ipv4 settings "192.0.2.77" true refl ((network, read_list), tt)
