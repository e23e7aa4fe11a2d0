-- ===== src/Vtep/Acl/Rule.antt =====
-- The rule that `aclCreate` of go_vtep/acl.go makes of the fields of a match.
pub mod Fields
use govtep.Base.{Option, none, some, List, [], ◌∷◌, Str, str}
use govtep.Golang.Int.{ℤ, pos}
use govtep.Golang.Decimal.{Parsed, atoi, parsed, failed}
use govtep.Vtep.Diff.{find}

pub record TableAclRule : Type 0 where
  pub acl_name : Str
  pub sequence : ℤ
  pub action : Str
  pub ethertype : List Str
  pub protocol : List ℤ
  pub source_mac : List Str
  pub dest_mac : List Str
  pub source_ip : List Str
  pub dest_ip : List Str
  pub source_port_min : List ℤ
  pub source_port_max : List ℤ
  pub dest_port_min : List ℤ
  pub dest_port_max : List ℤ

abbrev pub empty_rule : TableAclRule
empty_rule = record {
  acl_name = [];
  sequence = pos 0;
  action = [];
  ethertype = [];
  protocol = [];
  source_mac = [];
  dest_mac = [];
  source_ip = [];
  dest_ip = [];
  source_port_min = [];
  source_port_max = [];
  dest_port_min = [];
  dest_port_max = [];
}

-- `OVSMatchInPort` to `OVSMatchICMP6Code`
pub data MatchKey : Type 0 where
  in_port out_port ip ipv6 arp icmp4 icmp6 tcp udp : MatchKey
  protocol ethertype mac_src mac_dst ip_src ip_dst ipv6_src ipv6_dst : MatchKey
  tcp_src tcp_dst udp_src udp_dst : MatchKey
  icmp4_type icmp4_code icmp6_type icmp6_code : MatchKey

abbrev match_keys : List (Str × MatchKey)
match_keys =
    (str "inport", in_port)
    ∷ (str "outport", out_port)
    ∷ (str "ip4", ip)
    ∷ (str "ip6", ipv6)
    ∷ (str "arp", arp)
    ∷ (str "icmp4", icmp4)
    ∷ (str "icmp6", icmp6)
    ∷ (str "tcp", tcp)
    ∷ (str "udp", udp)
    ∷ (str "protocol", protocol)
    ∷ (str "ethertype", ethertype)
    ∷ (str "eth.src", mac_src)
    ∷ (str "eth.dst", mac_dst)
    ∷ (str "ip4.src", ip_src)
    ∷ (str "ip4.dst", ip_dst)
    ∷ (str "ip6.src", ipv6_src)
    ∷ (str "ip6.dst", ipv6_dst)
    ∷ (str "tcp.src", tcp_src)
    ∷ (str "tcp.dst", tcp_dst)
    ∷ (str "udp.src", udp_src)
    ∷ (str "udp.dst", udp_dst)
    ∷ (str "icmp4.type", icmp4_type)
    ∷ (str "icmp4.code", icmp4_code)
    ∷ (str "icmp6.type", icmp6_type)
    ∷ (str "icmp6.code", icmp6_code)
    ∷ []

value_of : Parsed → ℤ
value_of (parsed z) = z
value_of (failed z) = z

number : Str → List ℤ
unfolding value_of atoi
number s = value_of (atoi s) ∷ []

-- One case of the `switch`.
apply_key : MatchKey → Str → TableAclRule → TableAclRule
unfolding number
apply_key in_port v r = r
apply_key out_port v r = r
apply_key ip v r = record r { ethertype = str "0x0800" ∷ [] }
apply_key ipv6 v r = record r { ethertype = str "0x86DD" ∷ [] }
apply_key arp v r = record r { ethertype = str "0x0806" ∷ [] }
apply_key icmp4 v r = record r { protocol = pos 1 ∷ [] }
apply_key icmp6 v r = record r { protocol = pos 58 ∷ [] }
apply_key tcp v r = record r { protocol = pos 6 ∷ [] }
apply_key udp v r = record r { protocol = pos 17 ∷ [] }
apply_key protocol v r = record r { protocol = number v }
apply_key ethertype v r = record r { ethertype = v ∷ [] }
apply_key mac_src v r = record r { source_mac = v ∷ [] }
apply_key mac_dst v r = record r { dest_mac = v ∷ [] }
apply_key ip_src v r = record r { source_ip = v ∷ [] }
apply_key ip_dst v r = record r { dest_ip = v ∷ [] }
apply_key ipv6_src v r = record r { source_ip = v ∷ [] }
apply_key ipv6_dst v r = record r { dest_ip = v ∷ [] }
apply_key tcp_src v r = record r { dest_port_min = number v; dest_port_max = number v }
apply_key tcp_dst v r = record r { dest_port_min = number v; dest_port_max = number v }
apply_key udp_src v r = record r { dest_port_min = number v; dest_port_max = number v }
apply_key udp_dst v r = record r { dest_port_min = number v; dest_port_max = number v }
apply_key icmp4_type v r = r
apply_key icmp4_code v r = r
apply_key icmp6_type v r = r
apply_key icmp6_code v r = r

-- An unknown key ends the creation before the rule is added.
apply_found : Option MatchKey → Str → TableAclRule → Option TableAclRule
unfolding apply_key
apply_found none v r = none
apply_found (some key) v r = some (apply_key key v r)

after_field : Option TableAclRule → (TableAclRule → Option TableAclRule) → Option TableAclRule
after_field none rest = none
after_field (some r) rest = rest r

apply_fields : List (Str × Str) → TableAclRule → Option TableAclRule
unfolding apply_found find after_field
apply_fields [] r = some r
apply_fields ((k, v) ∷ fields) r =
    after_field (apply_found (find k match_keys) v r) (apply_fields fields)

-- The loop over the fields.
unfoldable pub rule_of : List (Str × Str) → Option TableAclRule
unfolding apply_fields
rule_of fields = apply_fields fields empty_rule
