-- ===== src/Vtep/Acl/Rule/Fields.antt =====
-- The rule of all fields of a match.
use govtep.Base.{
  ◌≡◌, refl, ap, ap₂, ◌∙◌, Bool, true, false, ◌&&◌, Option, none, some, List, [], ◌∷◌,
  if◌then◌else◌, Str,
}
use govtep.Golang.Int.{ℤ}
use govtep.Vtep.Diff.{find}
use govtep.Vtep.Acl.Rule.{
  TableAclRule, empty_rule, MatchKey, match_keys, apply_key, apply_found, after_field, apply_fields,
  rule_of, in_port, out_port, ip, ipv6, arp, icmp4, icmp6, tcp, udp, protocol, ethertype, mac_src,
  mac_dst, ip_src, ip_dst, ipv6_src, ipv6_dst, tcp_src, tcp_dst, udp_src, udp_dst, icmp4_type,
  icmp4_code, icmp6_type, icmp6_code,
}

is_key : Option MatchKey → Bool
is_key none = false
is_key (some _) = true

-- Each key is one of `OVSMatchInPort` to `OVSMatchICMP6Code`.
unfoldable pub all_known : List (Str × Str) → Bool
unfolding find is_key
all_known [] = true
all_known ((k, v) ∷ fields) = is_key (find k match_keys) && all_known fields

pub record SameSource (r r' : TableAclRule) : Type 0 where
  pub min : r'.source_port_min ≡ r.source_port_min
  pub max : r'.source_port_max ≡ r.source_port_max

SameSource-refl : (r : TableAclRule) → SameSource r r
SameSource-refl r = record { min = refl; max = refl }

apply_key-same : (key : MatchKey) (v : Str) (r : TableAclRule) → SameSource r (apply_key key v r)
unfolding apply_key
apply_key-same in_port v r = SameSource-refl r
apply_key-same out_port v r = SameSource-refl r
apply_key-same ip v r = record { min = refl; max = refl }
apply_key-same ipv6 v r = record { min = refl; max = refl }
apply_key-same arp v r = record { min = refl; max = refl }
apply_key-same icmp4 v r = record { min = refl; max = refl }
apply_key-same icmp6 v r = record { min = refl; max = refl }
apply_key-same tcp v r = record { min = refl; max = refl }
apply_key-same udp v r = record { min = refl; max = refl }
apply_key-same protocol v r = record { min = refl; max = refl }
apply_key-same ethertype v r = record { min = refl; max = refl }
apply_key-same mac_src v r = record { min = refl; max = refl }
apply_key-same mac_dst v r = record { min = refl; max = refl }
apply_key-same ip_src v r = record { min = refl; max = refl }
apply_key-same ip_dst v r = record { min = refl; max = refl }
apply_key-same ipv6_src v r = record { min = refl; max = refl }
apply_key-same ipv6_dst v r = record { min = refl; max = refl }
apply_key-same tcp_src v r = record { min = refl; max = refl }
apply_key-same tcp_dst v r = record { min = refl; max = refl }
apply_key-same udp_src v r = record { min = refl; max = refl }
apply_key-same udp_dst v r = record { min = refl; max = refl }
apply_key-same icmp4_type v r = SameSource-refl r
apply_key-same icmp4_code v r = SameSource-refl r
apply_key-same icmp6_type v r = SameSource-refl r
apply_key-same icmp6_code v r = SameSource-refl r

-- The result of the loop, from the rule that it starts with.
Applied : Bool → TableAclRule → Option TableAclRule → Type 0
Applied true r found = (r' : TableAclRule) × (found ≡ some r') × SameSource r r'
Applied false r found = found ≡ none

Applied-trans :
    (b : Bool) (r s : TableAclRule) (found : Option TableAclRule)
    → SameSource r s
    → Applied b s found
    → Applied b r found
unfolding Applied
Applied-trans true r s found h (r', e, k) =
    (r', e, record { min = k.min ∙ h.min; max = k.max ∙ h.max })
Applied-trans false r s found h e = e

after_field-Applied :
    (key : Option MatchKey) (b : Bool) (rest : TableAclRule → Option TableAclRule) (v : Str)
    (r : TableAclRule)
    → ((s : TableAclRule) → Applied b s (rest s))
    → Applied (is_key key && b) r (after_field (apply_found key v r) rest)
unfolding is_key after_field apply_found Applied
after_field-Applied none b rest v r h = refl
after_field-Applied (some key) b rest v r h =
    Applied-trans b r (apply_key key v r) (rest (apply_key key v r)) (apply_key-same key v r)
      (h (apply_key key v r))

apply_fields-Applied :
    (fields : List (Str × Str)) (r : TableAclRule)
    → Applied (all_known fields) r (apply_fields fields r)
unfolding apply_fields all_known Applied
apply_fields-Applied [] r = (r, refl, SameSource-refl r)
apply_fields-Applied ((k, v) ∷ fields) r =
    after_field-Applied (find k match_keys) (all_known fields) (apply_fields fields) v r
      (apply_fields-Applied fields)

unfoldable pub source_ports : Option TableAclRule → Option (List ℤ × List ℤ)
source_ports none = none
source_ports (some rule) = some (rule.source_port_min, rule.source_port_max)

as_ports :
    (b : Bool) (found : Option TableAclRule)
    → Applied b empty_rule found
    → source_ports found ≡ (if b then some ([], []) else none)
unfolding Applied source_ports
as_ports true found (rule, e, same) =
    ap source_ports e ∙ ap some (ap₂ (λ x y. (x, y)) same.min same.max)
as_ports false found e = ap source_ports e

-- Fields make a rule exactly when all their keys are known, and the ranges of source ports of the
-- rule are empty, also when the fields have `tcp.src` or `udp.src`.
pub rule_of_lem :
    (fields : List (Str × Str))
    → source_ports (rule_of fields) ≡ (if all_known fields then some ([], []) else none)
unfolding rule_of
rule_of_lem fields =
    as_ports (all_known fields) (apply_fields fields empty_rule)
      (apply_fields-Applied fields empty_rule)
