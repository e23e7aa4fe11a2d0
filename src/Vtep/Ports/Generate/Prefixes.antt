-- ===== src/Vtep/Ports/Generate/Prefixes.antt =====
-- The prefixes of the routes that `portGenRouteSet` asks for.
use govtep.Base.{
  ℕ, ◌≡◌, refl, sym, ap, ap₂, ◌∙◌, inl, inr, Option, none, some, List, [], ◌∷◌, ◌++◌, map,
  Option-cases, Str, str, map-append,
}
use govtep.Golang.Net.{parse_ip}
use govtep.Golang.Net.Length.{parse_ip-length}
use govtep.Vtep.Ports.Address.{cidr_of, ip_to_cidr}
use govtep.Vtep.Ports.Route.{Route}
use govtep.Vtep.Ports.Info.{PortInfo}
use govtep.Vtep.Ports.Generate.{route_unless, routes_for, port_gen_route_set}

host_of : Option (List ℕ) → Str → Str
host_of none s = []
host_of (some _) s = s ++ str "/128"

-- The prefix of a host route: empty for what is no address.
pub host_prefix : Str → Str
unfolding host_of
host_prefix s = host_of (parse_ip s) s

ip_to_cidr-host : (s : Str) → ip_to_cidr s ≡ (host_prefix s, none)
unfolding ip_to_cidr cidr_of host_prefix host_of
ip_to_cidr-host s = elim (Option-cases (parse_ip s)) [
  | inl e ↦ rw e refl
  | inr (ip, e) ↦ rw (e, parse_ip-length s ip e) refl
]

routes_for-prefixes :
    (port : PortInfo) (ips : List Str)
    → map (λ (rt : Route). rt.ip_prefix) (routes_for port ips) ≡ map host_prefix ips
unfolding routes_for route_unless
routes_for-prefixes port [] = refl
routes_for-prefixes port (ip ∷ ips) =
    rw (ip_to_cidr-host ip) (ap (λ ps. host_prefix ip ∷ ps) (routes_for-prefixes port ips))

-- A port asks for one route for each of its addresses, the IPv4 ones first: the prefix of an
-- address that `ParseIP` reads has length 128, also that of an IPv4 address, and the prefix of any
-- other text, such as an address with a prefix length, is empty.
pub port_gen_route_set-prefixes :
    (port : PortInfo)
    → map (λ (rt : Route). rt.ip_prefix) (port_gen_route_set port)
      ≡ map host_prefix (port.ipv4addr ++ port.ipv6addr)
unfolding port_gen_route_set
port_gen_route_set-prefixes port =
    map-append (λ (rt : Route). rt.ip_prefix) (routes_for port port.ipv4addr)
      (routes_for port port.ipv6addr)
    ∙ ap₂ ◌++◌ (routes_for-prefixes port port.ipv4addr) (routes_for-prefixes port port.ipv6addr)
    ∙ sym (map-append host_prefix port.ipv4addr port.ipv6addr)
