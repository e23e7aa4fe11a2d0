-- ===== src/Vtep/Ports/Address.antt =====
-- Addresses in go_vtep/commonapi.go: `addressParser` and `ipToCIDR`.
use govtep.Base.{
  ℕ, Option, none, some, List, [], ◌∷◌, ◌++◌, ◌==◌, if◌then◌else◌, Str, str, length, Error,
}
use govtep.Golang.Text.{contains, split}
use govtep.Golang.Net.{parse_ip, parse_cidr, is_ipv4}

-- What a port has of addresses.
pub record Addresses : Type 0 where
  pub macs : List Str
  pub ipv4s : List Str
  pub ipv6s : List Str

-- `len(ip) == net.IPv6len`, and the family
add_ip : List ℕ → Str → Addresses → Addresses
unfolding is_ipv4
add_ip ip addr a =
    if is_ipv4 ip
    then record a { ipv4s = a.ipv4s ++ (addr ∷ []) }
    else record a { ipv6s = a.ipv6s ++ (addr ∷ []) }

add_cidr : Option (List ℕ) → Str → Addresses → Addresses
unfolding add_ip
add_cidr none addr a = a
add_cidr (some ip) addr a = if length ip == 16 then add_ip ip addr a else a

add_mac : Str → Addresses → Addresses
add_mac addr a = record a { macs = a.macs ++ (addr ∷ []) }

-- What is no IP address is taken for a MAC.
add_host : Option (List ℕ) → Str → Addresses → Addresses
unfolding add_ip add_mac
add_host none addr a = add_mac addr a
add_host (some ip) addr a = if length ip == 16 then add_ip ip addr a else add_mac addr a

add_address : Str → Addresses → Addresses
unfolding add_cidr add_host contains parse_cidr parse_ip
add_address addr a =
    if contains addr (str "/")
    then add_cidr (parse_cidr addr) addr a
    else add_host (parse_ip addr) addr a

add_addresses : List Str → Addresses → Addresses
unfolding add_address
add_addresses [] a = a
add_addresses (addr ∷ addrs) a = add_addresses addrs (add_address addr a)

add_sets : List Str → Addresses → Addresses
unfolding add_addresses split
add_sets [] a = a
add_sets (set ∷ sets) a = add_sets sets (add_addresses (split b' ' set) a)

-- `addressParser`
unfoldable pub address_parser : List Str → Addresses
unfolding add_sets
address_parser sets = add_sets sets (record { macs = []; ipv4s = []; ipv6s = [] })

unfoldable pub cidr_of : Option (List ℕ) → Str → Str
cidr_of none s = []
cidr_of (some ip) s =
    if length ip == 4 then s ++ str "/32" else if length ip == 16 then s ++ str "/128" else []

-- `ipToCIDR`: the error is always nil.
unfoldable pub ip_to_cidr : Str → Str × Error
unfolding cidr_of parse_ip
ip_to_cidr s = (cidr_of (parse_ip s) s, none)
