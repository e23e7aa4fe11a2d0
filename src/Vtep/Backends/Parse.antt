-- ===== src/Vtep/Backends/Parse.antt =====
-- The addresses of load balancers as they are written, and what becomes of bad ones.
use govtep.Base.{
  ℕ, ◌≤◌, ◌≡◌, refl, ap, ◌∙◌, false, none, some, List, [], ◌∷◌, ◌++◌, map, arith, ◌==◌, Str, All,
  GoError,
}
use govtep.Golang.Int.{pos}
use govtep.Golang.Decimal.{itoa, max_int, atoi-itoa, itoa-Lacks}
use govtep.Golang.Text.{split, split_lem}
use govtep.Vtep.Backends.{
  text, port_of, ip_and_port, parser_ip, cons_parsed, backend_ips, prepare_text, prepare_pbr,
}

-- `loadBalancerParserIP` takes apart an address without a colon that is followed by a colon and a
-- port, and gives port 0 to such an address alone, for every port up to the largest `int`.
pub parser_ip-print :
    (ip : Str) (port : ℕ)
    → All (λ c. (c == b':') ≡ false) ip
    → port ≤ max_int
    → (parser_ip (ip ++ (b':' ∷ itoa port)) ≡ record { ip = ip; port = pos port; error = none })
      × (parser_ip ip ≡ record { ip = ip; port = pos 0; error = none })
unfolding parser_ip ip_and_port port_of
parser_ip-print ip port a h =
    let s = split_lem b':' ip (itoa port) a (itoa-Lacks b':' port (omega arith)) in
    (ap ip_and_port s.0 ∙ ap (port_of ip (itoa port)) (atoi-itoa port h), ap ip_and_port s.1)

backend_ips-append :
    (good rest : List Str) (bad : Str) (e : GoError)
    → All (λ b. (parser_ip b).error ≡ none) good
    → (parser_ip bad).error ≡ some e
    → backend_ips (good ++ (bad ∷ rest)) ≡ map (λ b. (parser_ip b).ip) good
unfolding backend_ips cons_parsed
backend_ips-append [] rest bad e a h = rw h refl
backend_ips-append (b ∷ good) rest bad e a h =
    rw a.0 (ap (λ bs. (parser_ip b).ip ∷ bs) (backend_ips-append good rest bad e a.1 h))

-- When the virtual address parses and some backend does not, the preparation returns no error, and
-- the addresses of the backends before the first that does not parse.
pub prepare_pbr_bad_backend :
    (vip backends : Str) (good rest : List Str) (bad : Str) (e : GoError)
    → (parser_ip vip).error ≡ none
    → split b',' backends ≡ good ++ (bad ∷ rest)
    → All (λ b. (parser_ip b).error ≡ none) good
    → (parser_ip bad).error ≡ some e
    → prepare_pbr (text vip) (text backends) ≡ record {
      external_ip = (parser_ip vip).ip;
      port = (parser_ip vip).port;
      logical_ips = map (λ b. (parser_ip b).ip) good;
      error = none;
    }
unfolding prepare_pbr prepare_text
prepare_pbr_bad_backend vip backends good rest bad e ok same a h =
    rw (ok, same, backend_ips-append good rest bad e a h) refl
