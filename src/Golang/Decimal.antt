-- ===== src/Golang/Decimal.antt =====
-- `strconv.Itoa` on the non-negative numbers that the program prints, and `strconv.Atoi`.
use govtep.Base.{
  ℕ, zero, suc, ◌+◌, ◌-◌, ◌*◌, ◌/◌, ◌%◌, ◌^◌, ◌≤◌, ◌<◌, ◌≡◌, ◌⊎◌, inl, inr, Bool, false, ◌&&◌,
  Option, none, some, [], ◌∷◌, ◌++◌, arith, ltb, leb, ◌==◌, if◌then◌else◌, Bool-cases, Str, All,
  All-append,
}
use govtep.Golang.Int.{ℤ, pos, negsuc}

itoa_fuel : ℕ → ℕ → Str
itoa_fuel zero n = []
itoa_fuel (suc f) n =
    let longer = itoa_fuel f (n / 10) ++ ((b'0' + n % 10) ∷ []) in
    if ltb n 10 then (b'0' + n) ∷ [] else longer

-- `strconv.Itoa(n)` for 0 ≤ n
unfoldable pub itoa : ℕ → Str
unfolding itoa_fuel
itoa n = itoa_fuel (suc n) n

is_digit : ℕ → Bool
is_digit c = leb b'0' c && leb c b'9'

digits : ℕ → Str → Option ℕ
digits n [] = some n
digits n (c ∷ s) = let rest = digits (n * 10 + (c - b'0')) s in if is_digit c then rest else none

unsigned : Str → Option ℕ
unsigned [] = none
unsigned (c ∷ s) = digits 0 (c ∷ s)

abbrev pub max_int : ℕ
max_int = 2 ^ 63 - 1

-- The value that `Atoi` returns, and whether it returns an error with it: 0 on a syntax error, the
-- nearest `int` on a number out of range.
pub data Parsed : Type 0 where
  parsed : ℤ → Parsed
  failed : ℤ → Parsed

positive : Option ℕ → Parsed
positive none = failed (pos 0)
positive (some n) = if leb n max_int then parsed (pos n) else failed (pos max_int)

negative : Option ℕ → Parsed
negative none = failed (pos 0)
negative (some zero) = parsed (pos 0)
negative (some (suc n)) = if leb n max_int then parsed (negsuc n) else failed (negsuc max_int)

-- `strconv.Atoi(s)`
unfoldable pub atoi : Str → Parsed
unfolding is_digit digits unsigned positive negative
atoi [] = failed (pos 0)
atoi (c ∷ s) =
    if c == b'-'
    then negative (unsigned s)
    else if c == b'+'
    then positive (unsigned s)
    else positive (unsigned (c ∷ s))

digits-append :
    (n : ℕ) (xs ys : Str) (m : ℕ) → digits n xs ≡ some m → digits n (xs ++ ys) ≡ digits m ys
unfolding digits
digits-append n [] ys m h = ground arith
digits-append n (c ∷ s) ys m h = ground (arith, digits-append (n * 10 + (c - b'0')) s ys m)

digits-itoa_fuel : (f n : ℕ) → n < f → digits 0 (itoa_fuel f n) ≡ some n
unfolding itoa_fuel digits is_digit
digits-itoa_fuel zero n h = elim h [ ]
digits-itoa_fuel (suc f) n h = ground (
  arith,
  digits-itoa_fuel f (n / 10),
  digits-append 0 (itoa_fuel f (n / 10)) ((b'0' + n % 10) ∷ []) (n / 10),
)

-- The first byte is no sign.
abbrev StartsNumber : Str → Type 0
StartsNumber [] = ⊥
StartsNumber (c ∷ s) = b'0' ≤ c

StartsNumber-append : (xs ys : Str) → StartsNumber xs → StartsNumber (xs ++ ys)
StartsNumber-append [] ys h = absurd h
StartsNumber-append (c ∷ s) ys h = h

itoa_fuel-StartsNumber : (f n : ℕ) → n < f → StartsNumber (itoa_fuel f n)
unfolding itoa_fuel
itoa_fuel-StartsNumber zero n h = elim h [ ]
itoa_fuel-StartsNumber (suc f) n h = elim (Bool-cases (ltb n 10)) [
  | inl small ↦ rw small (omega arith)
  | inr large ↦ rw large (
      StartsNumber-append (itoa_fuel f (n / 10)) _
        (itoa_fuel-StartsNumber f (n / 10) (ground arith)))
]

atoi-digits :
    (s : Str) (n : ℕ) → StartsNumber s → digits 0 s ≡ some n → n ≤ max_int → atoi s ≡ parsed (pos n)
unfolding atoi unsigned positive
atoi-digits [] n h d m = absurd h
atoi-digits (c ∷ s) n h d m = elim (Bool-cases (c == b'-')) [
  | inl minus ↦ absurd (ground arith)
  | inr _ ↦ ground arith
]

-- `Atoi` reads back what `Itoa` prints, up to the largest `int`.
pub atoi-itoa : (n : ℕ) → n ≤ max_int → atoi (itoa n) ≡ parsed (pos n)
unfolding itoa
atoi-itoa n m =
    atoi-digits (itoa n) n (itoa_fuel-StartsNumber (suc n) n (omega arith))
      (digits-itoa_fuel (suc n) n (omega arith)) m

-- A digit.
abbrev IsDigit : ℕ → Type 0
IsDigit d = (b'0' ≤ d) × (d ≤ b'9')

itoa_fuel-IsDigit : (f n : ℕ) → n < f → All IsDigit (itoa_fuel f n)
unfolding itoa_fuel
itoa_fuel-IsDigit zero n l = tt
itoa_fuel-IsDigit (suc f) n l = elim (Bool-cases (ltb n 10)) [
  | inl small ↦ rw small ((omega arith, ground arith), tt)
  | inr large ↦ rw large (
      All-append IsDigit (itoa_fuel f (n / 10)) _ (itoa_fuel-IsDigit f (n / 10) (ground arith))
        ((omega arith, omega arith), tt))
]

lacks : (c : ℕ) (s : Str) → (c < b'0') ⊎ (b'9' < c) → All IsDigit s → All (λ d. (d == c) ≡ false) s
lacks c [] h a = tt
lacks c (d ∷ s) h a = (other_digit c d h a.0, lacks c s h a.1)
  where
    other_digit : (c d : ℕ) → (c < b'0') ⊎ (b'9' < c) → IsDigit d → (d == c) ≡ false
    other_digit c d (inl below) (l, u) = ground arith
    other_digit c d (inr above) (l, u) = ground arith

-- What `Itoa` prints has no byte above the digits.
pub itoa-Lacks : (c n : ℕ) → b'9' < c → All (λ d. (d == c) ≡ false) (itoa n)
unfolding itoa
itoa-Lacks c n h = lacks c (itoa n) (inr h) (itoa_fuel-IsDigit (suc n) n (omega arith))

-- Nor one below them.
pub itoa-Lacks_below : (c n : ℕ) → c < b'0' → All (λ d. (d == c) ≡ false) (itoa n)
unfolding itoa
itoa-Lacks_below c n h = lacks c (itoa n) (inl h) (itoa_fuel-IsDigit (suc n) n (omega arith))
