-- ===== src/Vtep/Ports/Belong/Networks.antt =====
-- When `isBelong` tells whether an address lies in a network, and when it does not.
use govtep.Base.{
  ℕ, ◌+◌, ◌-◌, ◌*◌, ◌/◌, ◌^◌, ◌≤◌, ◌<◌, ◌≡◌, refl, ◌↔◌, true, false, some, [], ◌∷◌, ◌++◌, arith,
  ◌==◌, Str, length, All, All-append,
}
use govtep.Golang.Int.{pos}
use govtep.Golang.Decimal.{itoa, atoi, atoi-itoa, itoa-Lacks_below}
use govtep.Golang.Text.{split, split-append, split-single, split_lem}
use govtep.Golang.Binary.{binary_rounds, format_binary, same_bytes}
use govtep.Vtep.Ports.Belong.{
  value_of, residue, int64, sum_octets, octets_to_int, ip_addr_to_int, compared, compare_numerals,
  in_network, is_belong,
}
use govtep.Golang.Binary.Prefix.{binary-Agree, same_bytes-double, binary_more}

-- An address of four octets, its text and its value.
pub record Octets : Type 0 where
  pub a : ℕ
  pub b : ℕ
  pub c : ℕ
  pub d : ℕ

abbrev pub AreOctets : Octets → Type 0
AreOctets o = (o.a < 256) × (o.b < 256) × (o.c < 256) × (o.d < 256)

pub dotted : Octets → Str
dotted o = itoa o.a ++ (b'.' ∷ (itoa o.b ++ (b'.' ∷ (itoa o.c ++ (b'.' ∷ itoa o.d)))))

abbrev pub value : Octets → ℕ
value o = o.a * 2 ^ 24 + o.b * 2 ^ 16 + o.c * 2 ^ 8 + o.d

pub cidr : Octets → ℕ → Str
unfolding dotted
cidr o mask = dotted o ++ (b'/' ∷ itoa mask)

abbrev Lacks : ℕ → Str → Type 0
Lacks c s = All (λ d. (d == c) ≡ false) s

split-dotted : (o : Octets) → split b'.' (dotted o) ≡ itoa o.a ∷ itoa o.b ∷ itoa o.c ∷ itoa o.d ∷ []
unfolding dotted
split-dotted o =
    rw
      (
        split-append b'.' (itoa o.a) (itoa o.b ++ (b'.' ∷ (itoa o.c ++ (b'.' ∷ itoa o.d))))
            (itoa-Lacks_below b'.' o.a (omega arith)),
        split-append b'.' (itoa o.b) (itoa o.c ++ (b'.' ∷ itoa o.d))
            (itoa-Lacks_below b'.' o.b (omega arith)),
        split-append b'.' (itoa o.c) (itoa o.d) (itoa-Lacks_below b'.' o.c (omega arith)),
        split-single b'.' (itoa o.d) (itoa-Lacks_below b'.' o.d (omega arith)),
      )
      refl

Lacks-join : (s t : Str) → Lacks b'/' s → Lacks b'/' t → Lacks b'/' (s ++ (b'.' ∷ t))
Lacks-join s t h k = All-append (λ d. (d == b'/') ≡ false) s (b'.' ∷ t) h (refl, k)

dotted-Lacks : (o : Octets) → Lacks b'/' (dotted o)
unfolding dotted
dotted-Lacks o =
    let octet = λ (n : ℕ). itoa-Lacks_below b'/' n (omega arith) in
    Lacks-join (itoa o.a) _ (octet o.a)
      (Lacks-join (itoa o.b) _ (octet o.b) (Lacks-join (itoa o.c) _ (octet o.c) (octet o.d)))

split-cidr : (o : Octets) (mask : ℕ) → split b'/' (cidr o mask) ≡ dotted o ∷ itoa mask ∷ []
unfolding cidr
split-cidr o mask =
    (split_lem b'/' (dotted o) (itoa mask) (dotted-Lacks o)
      (itoa-Lacks_below b'/' mask (omega arith))).0

value_of-itoa : (n : ℕ) → n < 256 → value_of (atoi (itoa n)) ≡ pos n
unfolding value_of
value_of-itoa n h = rw (atoi-itoa n (omega arith)) refl

sum_octets_lem :
    (a b c d : ℕ)
    → a < 256
    → b < 256
    → c < 256
    → d < 256
    → sum_octets (pos a) (pos b) (pos c) (pos d) ≡ pos (a * 2 ^ 24 + b * 2 ^ 16 + c * 2 ^ 8 + d)
unfolding sum_octets residue int64
sum_octets_lem a b c d ha hb hc hd = ground arith

ip_addr_to_int-dotted :
    (o : Octets) → AreOctets o → ip_addr_to_int (dotted o) ≡ some (pos (value o))
unfolding ip_addr_to_int octets_to_int
ip_addr_to_int-dotted o (ha, hb, hc, hd) =
    rw
      (
        split-dotted o,
        value_of-itoa o.a ha,
        value_of-itoa o.b hb,
        value_of-itoa o.c hc,
        value_of-itoa o.d hd,
        sum_octets_lem o.a o.b o.c o.d ha hb hc hd,
      )
      refl

is_belong-numerals :
    (ip network : Octets) (mask : ℕ)
    → AreOctets ip
    → AreOctets network
    → mask < 256
    → is_belong (dotted ip) (cidr network mask)
      ≡ same_bytes
          (length (binary_rounds 64 (value ip)) + mask - 32)
          (binary_rounds 64 (value ip))
          (binary_rounds 64 (value network))
unfolding is_belong in_network compare_numerals compared format_binary
is_belong-numerals ip network mask hi hn hm =
    rw
      (
        split-dotted ip,
        split-cidr network mask,
        ip_addr_to_int-dotted ip hi,
        ip_addr_to_int-dotted network hn,
        value_of-itoa mask hm,
      )
      refl

value_bound : (o : Octets) → AreOctets o → value o < 2 ^ 62
value_bound o (ha, hb, hc, hd) = omega arith

-- Where the numerals of an address and of a network's address have as many binary digits as each
-- other, `isBelong` returns true exactly when the two agree in their leading `mask` bits of 32.
pub is_belong_lem :
    (ip network : Octets) (mask : ℕ)
    → AreOctets ip
    → AreOctets network
    → mask ≤ 32
    → length (format_binary (pos (value ip))) ≡ length (format_binary (pos (value network)))
    → (is_belong (dotted ip) (cidr network mask) ≡ some true)
      ↔ (value ip / 2 ^ (32 - mask) ≡ value network / 2 ^ (32 - mask))
unfolding format_binary
is_belong_lem ip network mask hi hn hm same =
    rw (is_belong-numerals ip network mask hi hn (omega arith), rest _ mask hm)
      (binary-Agree 64 (32 - mask) (value ip) (value network) (bound_64 ip hi) (bound_64 network hn)
        same)
  where
    rest : (len mask : ℕ) → mask ≤ 32 → len + mask - 32 ≡ len - (32 - mask)
    rest len mask h = omega arith

    bound_64 : (o : Octets) → AreOctets o → value o < 2 ^ 64
    bound_64 o h = omega (arith, value_bound o h)

-- The numerals are compared from their first digits, and these stand for different bits where one
-- numeral is longer: every address but 0.0.0.0 is taken to lie in each network of twice its value,
-- whatever the length of the prefix.
pub is_belong_double :
    (ip network : Octets) (mask : ℕ)
    → AreOctets ip
    → AreOctets network
    → mask ≤ 32
    → 0 < value ip
    → value network ≡ 2 * value ip
    → is_belong (dotted ip) (cidr network mask) ≡ some true
is_belong_double ip network mask hi hn hm h twice =
    rw
      (
        is_belong-numerals ip network mask hi hn (omega arith),
        twice,
        binary_more 62 (value ip) (omega (arith, value_bound ip hi)),
      )
      (same_bytes-double 63 (length (binary_rounds 63 (value ip)) + mask - 32) (value ip) h
        (omega arith))
