-- ===== src/Vtep/Ports/Belong.antt =====
-- `isBelong` and `ipAddrToInt` of go_vtep/port.go: whether an address lies in a network. A panic of
-- an index out of range is `none`.
pub mod Networks
use govtep.Base.{
  ℕ, ◌+◌, ◌-◌, ◌*◌, ◌%◌, ◌^◌, ◌≡◌, refl, Bool, true, false, Option, none, some, List, ◌∷◌, ltb,
  if◌then◌else◌, Str, str, length,
}
use govtep.Golang.Int.{ℤ, pos, negsuc}
use govtep.Golang.Decimal.{Parsed, atoi, parsed, failed}
use govtep.Golang.Text.{split}
use govtep.Golang.Binary.{format_binary, same_bytes}

-- The value of `Atoi`, its error dropped.
pub value_of : Parsed → ℤ
value_of (parsed z) = z
value_of (failed z) = z

-- A number modulo 2 ^ 64, and the `int64` with that residue.
residue : ℤ → ℕ
residue (pos n) = n % 2 ^ 64
residue (negsuc n) = 2 ^ 64 - 1 - n % 2 ^ 64

int64 : ℕ → ℤ
int64 r = if ltb r (2 ^ 63) then pos r else negsuc (2 ^ 64 - 1 - r)

-- `int64(b0) << 24 + int64(b1) << 16 + int64(b2) << 8 + int64(b3)`
sum_octets : ℤ → ℤ → ℤ → ℤ → ℤ
unfolding residue int64
sum_octets b0 b1 b2 b3 =
    int64 ((residue b0 * 2 ^ 24 + residue b1 * 2 ^ 16 + residue b2 * 2 ^ 8 + residue b3) % 2 ^ 64)

octets_to_int : List Str → Option ℤ
unfolding sum_octets value_of atoi
octets_to_int (a ∷ b ∷ c ∷ d ∷ _) =
    some
      (sum_octets (value_of (atoi a)) (value_of (atoi b)) (value_of (atoi c)) (value_of (atoi d)))
octets_to_int _ = none

-- `ipAddrToInt`
pub ip_addr_to_int : Str → Option ℤ
unfolding octets_to_int split
ip_addr_to_int ip = octets_to_int (split b'.' ip)

-- The rounds of a loop up to an `int`.
rounds : ℤ → ℕ
rounds (pos n) = n
rounds (negsuc n) = 0

-- `len + mask - 32`, as the number of rounds it allows
compared : ℕ → ℤ → ℕ
compared len (pos mask) = len + mask - 32
compared len (negsuc mask) = len - 33 - mask

compare_numerals : Option ℤ → Option ℤ → ℤ → Option Bool
unfolding format_binary same_bytes compared
compare_numerals none b mask = none
compare_numerals (some a) none mask = none
compare_numerals (some a) (some b) mask =
    let s = format_binary a in same_bytes (compared (length s) mask) s (format_binary b)

in_network : Str → List Str → Option Bool
unfolding ip_addr_to_int compare_numerals value_of atoi
in_network ip (network ∷ mask ∷ _) =
    compare_numerals (ip_addr_to_int ip) (ip_addr_to_int network) (value_of (atoi mask))
in_network ip _ = some false

-- `isBelong`
unfoldable pub is_belong : Str → Str → Option Bool
unfolding in_network split
is_belong ip cidr =
    if ltb (length (split b'.' ip)) 4 then some false else in_network ip (split b'/' cidr)

is_belong_runs :
    (is_belong (str "10.1.2.3") (str "10.1.0.0/16") ≡ some true)
    × (is_belong (str "10.1.2.3") (str "20.0.0.0/8") ≡ some true)
    × (is_belong (str "10.1.2.3") (str "11.1.2.3/8") ≡ some false)
    × (is_belong (str "10.1.2.3") (str "1/8") ≡ none)
unfolding is_belong
is_belong_runs = (refl, refl, refl, refl)
