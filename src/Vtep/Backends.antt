-- ===== src/Vtep/Backends.antt =====
-- go_vtep/load_balancer.go: the virtual addresses and the backends of a load balancer, as they are
-- written and as a policy based route wants them.
pub mod Parse
use govtep.Base.{String, none, some, List, [], ◌∷◌, Str, Error, errorf}
use govtep.Golang.Int.{ℤ, pos}
use govtep.Golang.Decimal.{Parsed, atoi, parsed, failed}
use govtep.Golang.Text.{split}

-- An `interface{}`: a string or anything else.
pub data Dynamic : Type 0 where
  text : Str → Dynamic
  no_text : Dynamic

pub record IpPort : Type 0 where
  pub ip : Str
  pub port : ℤ
  pub error : Error

port_of : Str → Str → Parsed → IpPort
port_of ip p (parsed z) = record { ip = ip; port = z; error = none }
port_of ip p (failed z) = record { ip = []; port = pos 0; error = some (errorf "invalid port %s") }

-- What `strings.Split` returns has a first element.
ip_and_port : List Str → IpPort
unfolding port_of
ip_and_port (ip ∷ p ∷ []) = port_of ip p (atoi p)
ip_and_port (ip ∷ _) = record { ip = ip; port = pos 0; error = none }
ip_and_port [] = record { ip = []; port = pos 0; error = none }

-- `loadBalancerParserIP`
unfoldable pub parser_ip : Str → IpPort
unfolding ip_and_port split
parser_ip vip = ip_and_port (split b':' vip)

-- What `loadBalancerPreparePBR` returns.
pub record Prepared : Type 0 where
  pub external_ip : Str
  pub port : ℤ
  pub logical_ips : List Str
  pub error : Error

cons_parsed : IpPort → List Str → List Str
cons_parsed p rest = elim p.error [ none ↦ p.ip ∷ rest | some e ↦ [] ]

-- `for _, backend := range backendsSet { … }`. The loop ends at the first backend that does not
-- parse, but the error that it then sets is a variable of the loop's own.
pub backend_ips : List Str → List Str
unfolding cons_parsed
backend_ips [] = []
backend_ips (b ∷ bs) = cons_parsed (parser_ip b) (backend_ips bs)

invalid : Str → ℤ → String → Prepared
invalid ip port message = record {
  external_ip = ip;
  port = port;
  logical_ips = [];
  error = some (errorf message);
}

prepare_text : IpPort → Str → Prepared
unfolding invalid backend_ips split
prepare_text p backends = elim p.error [
  | some e ↦ invalid p.ip p.port "invalid vip %v"
  | none ↦ record {
    external_ip = p.ip;
    port = p.port;
    logical_ips = backend_ips (split b',' backends);
    error = none;
  }
]

-- `loadBalancerPreparePBR`
unfoldable pub prepare_pbr : Dynamic → Dynamic → Prepared
unfolding invalid prepare_text
prepare_pbr no_text backends = invalid [] (pos 0) "invalid vip %v"
prepare_pbr (text vip) no_text = invalid [] (pos 0) "invalid backends %v"
prepare_pbr (text vip) (text backends) = prepare_text (parser_ip vip) backends
