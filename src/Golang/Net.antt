-- ===== src/Golang/Net.antt =====
-- `net.ParseIP`, `net.ParseCIDR` and `IP.To4` of Go 1.14. An `IP` is a list of bytes, `none` where
-- the library returns nil or an error.
pub mod Length
pub mod Mac
use govtep.Base.{
  ℕ, zero, suc, ◌+◌, ◌-◌, ◌*◌, ◌/◌, ◌%◌, Bool, true, false, ◌&&◌, ◌||◌, Option, none, some, List,
  [], ◌∷◌, ◌++◌, ltb, leb, ◌==◌, if◌then◌else◌, Str, length,
}
use govtep.Golang.Text.{split}

decimal : ℕ → Str → Option ℕ
decimal n [] = some n
decimal n (c ∷ s) =
    let rest = decimal (n * 10 + (c - b'0')) s in if leb b'0' c && leb c b'9' then rest else none

-- A decimal number from 0 to `most`.
up_to : ℕ → Str → Option ℕ
unfolding decimal
up_to most [] = none
up_to most (c ∷ s) = elim (decimal 0 (c ∷ s)) [
  | none ↦ none
  | some n ↦ if leb n most then some n else none
]

abbrev zeros : ℕ → List ℕ
zeros zero = []
zeros (suc n) = 0 ∷ zeros n

-- An address of four bytes in its form of 16.
abbrev ipv4 : ℕ → ℕ → ℕ → ℕ → List ℕ
ipv4 a b c d = zeros 10 ++ (255 ∷ 255 ∷ a ∷ b ∷ c ∷ d ∷ [])

four_numbers : Option ℕ → Option ℕ → Option ℕ → Option ℕ → Option (List ℕ)
four_numbers (some a) (some b) (some c) (some d) = some (ipv4 a b c d)
four_numbers _ _ _ _ = none

four_parts : List Str → Option (List ℕ)
unfolding four_numbers up_to
four_parts (a ∷ b ∷ c ∷ d ∷ []) =
    four_numbers (up_to 255 a) (up_to 255 b) (up_to 255 c) (up_to 255 d)
four_parts _ = none

-- `parseIPv4`
parse_ipv4 : Str → Option (List ℕ)
unfolding four_parts split
parse_ipv4 s = four_parts (split b'.' s)

hex_value : ℕ → Option ℕ
hex_value c =
    if leb b'0' c && leb c b'9'
    then some (c - b'0')
    else if leb b'a' c && leb c b'f'
    then some (c - b'a' + 10)
    else if leb b'A' c && leb c b'F'
    then some (c - b'A' + 10)
    else none

-- `xtoi`: the number that the leading hexadecimal digits make, whether there are any, and the rest.
xtoi : ℕ → Bool → Str → ℕ × Bool × Str
unfolding hex_value
xtoi n any [] = (n, any, [])
xtoi n any (c ∷ s) = elim (hex_value c) [
  | none ↦ (n, any, c ∷ s)
  | some v ↦ xtoi (n * 16 + v) true s
]

-- What the loop of `parseIPv6` has found: the bytes that precede the ellipsis and those that follow
-- it.
pub record Groups : Type 0 where
  pub leading : List ℕ
  pub trailing : Option (List ℕ)

empty_groups : Option (List ℕ) → Groups
empty_groups trailing = record { leading = []; trailing = trailing }

add_bytes : List ℕ → Groups → Groups
add_bytes bytes g = elim g.trailing [
  | none ↦ record g { leading = g.leading ++ bytes }
  | some trailing ↦ record g { trailing = some (trailing ++ bytes) }
]

count_bytes : Groups → ℕ
count_bytes g = elim g.trailing [ none ↦ length g.leading | some a ↦ length g.leading + length a ]

has_ellipsis : Groups → Bool
has_ellipsis g = elim g.trailing [ none ↦ false | some _ ↦ true ]

-- The last lines of `parseIPv6`, once the text is read to its end.
expanded : List ℕ → Option (List ℕ) → Option (List ℕ)
expanded bytes none = if length bytes == 16 then some bytes else none
expanded bytes (some rest) =
    let n = length bytes + length rest in
    if ltb n 16 then some (bytes ++ (zeros (16 - n) ++ rest)) else none

expand : Groups → Option (List ℕ)
unfolding expanded
expand g = expanded g.leading g.trailing

last_four : List ℕ → List ℕ
last_four (_ ∷ _ ∷ _ ∷ _ ∷ _ ∷ _ ∷ _ ∷ _ ∷ _ ∷ _ ∷ _ ∷ _ ∷ bytes) = bytes
last_four bytes = bytes

ipv4_tail : Option (List ℕ) → Groups → Option (List ℕ)
unfolding add_bytes expand last_four
ipv4_tail none g = none
ipv4_tail (some ip) g = expand (add_bytes (last_four ip) g)

-- A trailing IPv4 address ends the text.
trailing_ipv4 : Str → Groups → Option (List ℕ)
unfolding parse_ipv4 count_bytes has_ellipsis ipv4_tail
trailing_ipv4 s g =
    if (has_ellipsis g || count_bytes g == 12) && leb (count_bytes g) 12
    then ipv4_tail (parse_ipv4 s) g
    else none

-- The text that follows a group.
pub data Next : Type 0 where
  stop dot : Next
  go_on : Str → Next
  ellipsis : Str → Next
  bad : Next

next_group : Str → Next
next_group [] = stop
next_group (c ∷ []) = if c == b'.' then dot else bad
next_group (c ∷ d ∷ s) =
    if c == b'.'
    then dot
    else if c == b':'
    then if d == b':' then ellipsis s else go_on (d ∷ s)
    else bad

-- An ellipsis, the first one, at the end of the text or before more groups.
at_ellipsis : (Str → Groups → Option (List ℕ)) → Bool → Str → Groups → Option (List ℕ)
unfolding expand
at_ellipsis more true s g = none
at_ellipsis more false [] g = expand (record g { trailing = some [] })
at_ellipsis more false (c ∷ s) g = more (c ∷ s) (record g { trailing = some [] })

-- `text` is where the group begins, `g` what precedes it and `g'` the same with it.
after_group : (Str → Groups → Option (List ℕ)) → Next → Str → Groups → Groups → Option (List ℕ)
unfolding expand trailing_ipv4 at_ellipsis has_ellipsis
after_group more stop text g g' = expand g'
after_group more dot text g g' = trailing_ipv4 text g
after_group more (go_on s) text g g' = more s g'
after_group more (ellipsis s) text g g' = at_ellipsis more (has_ellipsis g) s g'
after_group more bad text g g' = none

add_group : ℕ → Groups → Groups
unfolding add_bytes
add_group n g = add_bytes (n / 256 ∷ n % 256 ∷ []) g

one_group : (Str → Groups → Option (List ℕ)) → ℕ × Bool × Str → Str → Groups → Option (List ℕ)
unfolding after_group add_group next_group
one_group more (n, any, rest) s g =
    if any && leb n 65535 then after_group more (next_group rest) s g (add_group n g) else none

-- The loop of `parseIPv6`, by the rounds that are left: each adds two bytes.
ipv6_groups : ℕ → Str → Groups → Option (List ℕ)
unfolding xtoi expand one_group
ipv6_groups zero [] g = expand g
ipv6_groups zero (c ∷ s) g = none
ipv6_groups (suc rounds) s g = one_group (ipv6_groups rounds) (xtoi 0 false s) s g

-- `parseIPv6`
parse_ipv6 : Str → Option (List ℕ)
unfolding empty_groups expand ipv6_groups
parse_ipv6 (c ∷ d ∷ []) =
    if c == b':' && d == b':'
    then some (zeros 16)
    else ipv6_groups 8 (c ∷ d ∷ []) (empty_groups none)
parse_ipv6 (c ∷ d ∷ e ∷ s) =
    if c == b':' && d == b':'
    then ipv6_groups 8 (e ∷ s) (empty_groups (some []))
    else ipv6_groups 8 (c ∷ d ∷ e ∷ s) (empty_groups none)
parse_ipv6 s = ipv6_groups 8 s (empty_groups none)

-- `ParseIP` goes by the first dot or colon.
by_first : Str → Str → Option (List ℕ)
unfolding parse_ipv4 parse_ipv6
by_first [] s = none
by_first (c ∷ rest) s =
    if c == b'.' then parse_ipv4 s else if c == b':' then parse_ipv6 s else by_first rest s

-- `net.ParseIP(s)`
unfoldable pub parse_ip : Str → Option (List ℕ)
unfolding by_first
parse_ip s = by_first s s

-- The address of a network that `net.ParseCIDR(s)` returns, by the text at each side of the slash;
-- the prefix has at most the bits of the address.
cidr_parts : List Str → Option (List ℕ)
unfolding parse_ipv4 parse_ipv6 up_to
cidr_parts (addr ∷ mask ∷ []) = elim (parse_ipv4 addr) [
  | some ip ↦ elim (up_to 32 mask) [ none ↦ none | some _ ↦ some ip ]
  | none ↦ elim (up_to 128 mask) [ none ↦ none | some _ ↦ parse_ipv6 addr ]
]
cidr_parts _ = none

-- `net.ParseCIDR(s)`
unfoldable pub parse_cidr : Str → Option (List ℕ)
unfolding cidr_parts split
parse_cidr s = cidr_parts (split b'/' s)

all_zero : List ℕ → Bool
all_zero [] = true
all_zero (b ∷ bytes) = b == 0 && all_zero bytes

-- `ip.To4() != nil`, for an `IP` of 16 bytes
unfoldable pub is_ipv4 : List ℕ → Bool
unfolding all_zero
is_ipv4 (a ∷ b ∷ c ∷ d ∷ e ∷ f ∷ g ∷ h ∷ i ∷ j ∷ k ∷ l ∷ _) =
    all_zero (a ∷ b ∷ c ∷ d ∷ e ∷ f ∷ g ∷ h ∷ i ∷ j ∷ []) && k == 255 && l == 255
is_ipv4 _ = false
