-- ===== src/Examples/Acls.antt =====
-- ACL matches and their rules, at which the theorems on go_vtep/acl.go apply.
use govtep.Base.{
  ℕ, ◌≡◌, refl, Bool, true, false, not, ◌&&◌, none, some, List, [], ◌∷◌, arith, ◌==◌, if◌then◌else◌,
  Str, str,
}
use govtep.Vtep.Diff.{find}
use govtep.Vtep.Acl.Match.{str_parse_to_acl_field}
use govtep.Vtep.Acl.Match.Syntax.{
  Clause, print_match, IsPlain, AllPlain, last_value, str_parse_to_acl_field-print_match, flag,
  equals,
}
use govtep.Vtep.Acl.Rule.{rule_of}
use govtep.Vtep.Acl.Rule.Fields.{all_known, source_ports, rule_of_lem}

plain_byte : ℕ → Bool
plain_byte c = not (c == b' ') && not (c == b'"') && not (c == b'&') && not (c == b'=')

plain_byte-not :
    (c : ℕ)
    → plain_byte c ≡ true
    → ((c == b' ') ≡ false) × ((c == b'"') ≡ false) × ((c == b'&') ≡ false) × ((c == b'=') ≡ false)
unfolding plain_byte
plain_byte-not c h = ground (arith, h)

all_plain : Str → Bool
unfolding plain_byte
all_plain [] = true
all_plain (c ∷ s) = plain_byte c && all_plain s

all_plain-IsPlain : (s : Str) → all_plain s ≡ true → IsPlain s
unfolding all_plain
all_plain-IsPlain [] h = tt
all_plain-IsPlain (c ∷ s) h =
    (plain_byte-not c (ground (arith, h)), all_plain-IsPlain s (ground (arith, h)))

-- `inport == "lp1" && ip4 && tcp.dst == 80`
abbrev clauses : List Clause
clauses = flag (str "ip4") ∷ equals false (str "tcp.dst") (str "80") ∷ []

match_text :
    print_match (equals true (str "inport") (str "lp1")) clauses
    ≡ str "inport == \"lp1\" && ip4 && tcp.dst == 80"
unfolding print_match
match_text = refl

clauses-AllPlain : AllPlain (equals true (str "inport") (str "lp1")) clauses
unfolding all_plain
clauses-AllPlain = (
  (all_plain-IsPlain (str "inport") refl, all_plain-IsPlain (str "lp1") refl),
  (
    all_plain-IsPlain (str "ip4") refl,
    (all_plain-IsPlain (str "tcp.dst") refl, all_plain-IsPlain (str "80") refl),
  ),
)

str_parse_to_acl_field-print_match_example :
    find
      (str "tcp.dst")
      (str_parse_to_acl_field (print_match (equals true (str "inport") (str "lp1")) clauses))
    ≡ last_value (str "tcp.dst") (equals true (str "inport") (str "lp1") ∷ clauses) none
str_parse_to_acl_field-print_match_example =
    str_parse_to_acl_field-print_match (str "tcp.dst") (equals true (str "inport") (str "lp1"))
      clauses clauses-AllPlain

abbrev from_port : List (Str × Str)
from_port = (str "udp", []) ∷ (str "udp.src", str "53") ∷ []

rule_of_example :
    source_ports (rule_of from_port) ≡ (if all_known from_port then some ([], []) else none)
rule_of_example = rule_of_lem from_port
