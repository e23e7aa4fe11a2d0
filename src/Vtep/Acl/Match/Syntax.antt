-- ===== src/Vtep/Acl/Match/Syntax.antt =====
-- `strParseToACLField` on matches in OVN's syntax: `inport == "lp1" && ip4 && tcp.dst == 80`.
use govtep.Base.{
  ℕ, ◌≡◌, refl, ap, ap₂, ◌∙◌, Bool, true, false, Option, none, some, List, [], ◌∷◌, ◌++◌, map,
  append-nil, arith, ◌==◌, if◌then◌else◌, ==_refl, Str, str, str_eq, All, All-append,
}
use govtep.Golang.Text.{cons_first}
use govtep.Vtep.Diff.{find, put}
use govtep.Vtep.Diff.Members.{find-put}
use govtep.Vtep.Acl.Match.{without, split_pair, put_field, put_fields, str_parse_to_acl_field}

-- A test of a key, or of a key's value, in quotes or not.
pub data Clause : Type 0 where
  flag : Str → Clause
  equals : Bool → Str → Str → Clause

unfoldable pub key_of : Clause → Str
key_of (flag k) = k
key_of (equals q k v) = k

unfoldable pub value_in : Clause → Str
value_in (flag k) = []
value_in (equals q k v) = v

print_value : Bool → Str → Str
print_value true v = b'"' ∷ (v ++ (b'"' ∷ []))
print_value false v = v

print_clause : Clause → Str
unfolding print_value
print_clause (flag k) = k
print_clause (equals q k v) = k ++ (str " == " ++ print_value q v)

unfoldable pub print_match : Clause → List Clause → Str
unfolding print_clause
print_match c [] = print_clause c
print_match c (d ∷ cs) = print_clause c ++ (str " && " ++ print_match d cs)

-- No space, quote or operator.
abbrev pub IsPlain : Str → Type 0
IsPlain s =
    All
      (λ c.
        ((c == b' ') ≡ false)
        × ((c == b'"') ≡ false)
        × ((c == b'&') ≡ false)
        × ((c == b'=') ≡ false))
      s

abbrev pub IsPlainClause : Clause → Type 0
IsPlainClause (flag k) = IsPlain k
IsPlainClause (equals q k v) = IsPlain k × IsPlain v

strip : Str → Str
strip s = without b'"' (without b' ' s)

without-append : (c : ℕ) (xs ys : Str) → without c (xs ++ ys) ≡ without c xs ++ without c ys
unfolding without
without-append c [] ys = refl
without-append c (x ∷ xs) ys = ground (arith, without-append c xs ys)

strip-append : (xs ys : Str) → strip (xs ++ ys) ≡ strip xs ++ strip ys
unfolding strip
strip-append xs ys =
    ap (without b'"') (without-append b' ' xs ys)
    ∙ without-append b'"' (without b' ' xs) (without b' ' ys)

strip-plain : (s : Str) → IsPlain s → strip s ≡ s
unfolding strip without
strip-plain [] h = refl
strip-plain (c ∷ s) ((space, quote, _, _), h) =
    rw (space, quote) (ap (λ t. c ∷ t) (strip-plain s h))

-- A clause without its spaces and quotes.
bare : Clause → Str
bare (flag k) = k
bare (equals q k v) = k ++ (b'=' ∷ b'=' ∷ v)

bare_match : Clause → List Clause → Str
unfolding bare
bare_match c [] = bare c
bare_match c (d ∷ cs) = bare c ++ (b'&' ∷ b'&' ∷ bare_match d cs)

strip-value : (q : Bool) (v : Str) → IsPlain v → strip (print_value q v) ≡ v
unfolding print_value strip without
strip-value true v h =
    strip-append v (b'"' ∷ []) ∙ ap (λ s. s ++ []) (strip-plain v h) ∙ append-nil v
strip-value false v h = strip-plain v h

strip-clause : (c : Clause) → IsPlainClause c → strip (print_clause c) ≡ bare c
unfolding print_clause bare
strip-clause (flag k) h = strip-plain k h
strip-clause (equals q k v) (hk, hv) =
    strip-append k (str " == " ++ print_value q v)
    ∙ ap₂ ◌++◌ (strip-plain k hk)
        (strip-append (str " == ") (print_value q v) ∙ ap₂ ◌++◌ equals_sign (strip-value q v hv))
  where
    equals_sign : strip (str " == ") ≡ b'=' ∷ b'=' ∷ []
    equals_sign = unfold strip without in refl

abbrev pub AllPlain : Clause → List Clause → Type 0
AllPlain c [] = IsPlainClause c
AllPlain c (d ∷ cs) = IsPlainClause c × AllPlain d cs

strip-match :
    (c : Clause) (cs : List Clause) → AllPlain c cs → strip (print_match c cs) ≡ bare_match c cs
unfolding print_match bare_match
strip-match c [] h = strip-clause c h
strip-match c (d ∷ cs) (h, hs) =
    strip-append (print_clause c) (str " && " ++ print_match d cs)
    ∙ ap₂ ◌++◌ (strip-clause c h)
        (strip-append (str " && ") (print_match d cs) ∙ ap₂ ◌++◌ and_sign (strip-match d cs hs))
  where
    and_sign : strip (str " && ") ≡ b'&' ∷ b'&' ∷ []
    and_sign = unfold strip without in refl

split_pair-append :
    (a b : ℕ) (xs ys : Str)
    → All (λ c. (c == a) ≡ false) xs
    → split_pair a b (xs ++ (a ∷ b ∷ ys)) ≡ xs ∷ split_pair a b ys
unfolding split_pair cons_first
split_pair-append a b [] ys h = rw (==_refl a, ==_refl b, split_pair) refl
split_pair-append a b (x ∷ []) ys h =
    rw (h.0, split_pair) (ap (cons_first x) (split_pair-append a b [] ys h.1))
split_pair-append a b (x ∷ y ∷ xs) ys h =
    rw (h.0, split_pair) (ap (cons_first x) (split_pair-append a b (y ∷ xs) ys h.1))

split_pair-single :
    (a b : ℕ) (xs : Str) → All (λ c. (c == a) ≡ false) xs → split_pair a b xs ≡ xs ∷ []
unfolding split_pair cons_first
split_pair-single a b [] h = refl
split_pair-single a b (x ∷ []) h = refl
split_pair-single a b (x ∷ y ∷ xs) h =
    rw (h.0, split_pair) (ap (cons_first x) (split_pair-single a b (y ∷ xs) h.1))

IsPlain-IsNot :
    (s : Str) → IsPlain s → All (λ c. (c == b'&') ≡ false) s × All (λ c. (c == b'=') ≡ false) s
IsPlain-IsNot [] h = (tt, tt)
IsPlain-IsNot (c ∷ s) ((_, _, and, eq), h) =
    let rest = IsPlain-IsNot s h in ((and, rest.0), (eq, rest.1))

bare-IsNot : (c : Clause) → IsPlainClause c → All (λ b. (b == b'&') ≡ false) (bare c)
unfolding bare
bare-IsNot (flag k) h = (IsPlain-IsNot k h).0
bare-IsNot (equals q k v) (hk, hv) =
    All-append (λ b. (b == b'&') ≡ false) k (b'=' ∷ b'=' ∷ v) (IsPlain-IsNot k hk).0
      (refl, (refl, (IsPlain-IsNot v hv).0))

-- The parts between `&&`.
split_pair-bare_match :
    (c : Clause) (cs : List Clause)
    → AllPlain c cs
    → split_pair b'&' b'&' (bare_match c cs) ≡ bare c ∷ map bare cs
unfolding bare_match
split_pair-bare_match c [] h = split_pair-single b'&' b'&' (bare c) (bare-IsNot c h)
split_pair-bare_match c (d ∷ cs) (h, hs) =
    split_pair-append b'&' b'&' (bare c) (bare_match d cs) (bare-IsNot c h)
    ∙ ap (λ w. bare c ∷ w) (split_pair-bare_match d cs hs)

put_field-bare :
    (c : Clause) (fields : List (Str × Str))
    → IsPlainClause c
    → put_field (split_pair b'=' b'=' (bare c)) fields ≡ put (key_of c) (value_in c) fields
unfolding bare put_field key_of value_in
put_field-bare (flag k) fields h =
    ap (λ w. put_field w fields) (split_pair-single b'=' b'=' k (IsPlain-IsNot k h).1)
put_field-bare (equals q k v) fields (hk, hv) =
    ap (λ w. put_field w fields)
      (split_pair-append b'=' b'=' k v (IsPlain-IsNot k hk).1
        ∙ ap (λ w. k ∷ w) (split_pair-single b'=' b'=' v (IsPlain-IsNot v hv).1))

-- The value of the last clause of a key.
unfoldable pub last_value : Str → List Clause → Option Str → Option Str
last_value k [] found = found
last_value k (c ∷ cs) found =
    last_value k cs (if str_eq (key_of c) k then some (value_in c) else found)

find-put_fields :
    (k : Str) (c : Clause) (cs : List Clause) (fields : List (Str × Str))
    → AllPlain c cs
    → find k (put_fields (bare c ∷ map bare cs) fields) ≡ last_value k (c ∷ cs) (find k fields)
unfolding put_fields last_value
find-put_fields k c [] fields h =
    ap (find k) (put_field-bare c fields h) ∙ find-put (key_of c) k (value_in c) fields
find-put_fields k c (d ∷ cs) fields (h, hs) =
    ap (λ f. find k (put_fields (bare d ∷ map bare cs) f)) (put_field-bare c fields h)
    ∙ find-put_fields k d cs (put (key_of c) (value_in c) fields) hs
    ∙ ap (last_value k (d ∷ cs)) (find-put (key_of c) k (value_in c) fields)

-- In a match written from clauses without spaces, quotes or operators in their keys and values, each
-- key has the value of its last clause, the empty one for a clause without a value.
pub str_parse_to_acl_field-print_match :
    (k : Str) (c : Clause) (cs : List Clause)
    → AllPlain c cs
    → find k (str_parse_to_acl_field (print_match c cs)) ≡ last_value k (c ∷ cs) none
unfolding str_parse_to_acl_field strip find
str_parse_to_acl_field-print_match k c cs h =
    ap (λ s. find k (put_fields (split_pair b'&' b'&' s) [])) (strip-match c cs h)
    ∙ ap (λ parts. find k (put_fields parts [])) (split_pair-bare_match c cs h)
    ∙ find-put_fields k c cs [] h
