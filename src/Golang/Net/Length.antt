-- ===== src/Golang/Net/Length.antt =====
-- The size of the addresses that `ParseIP` returns.
use govtep.Base.{
  ℕ, zero, suc, ◌+◌, ◌-◌, ◌≡◌, refl, subst, inl, inr, Bool, true, false, ◌&&◌, Option, none, some,
  List, [], ◌∷◌, ◌++◌, arith, ltb, ◌==◌, if◌then◌else◌, ==_iff, Bool-cases, Str, length,
}
use govtep.Golang.Text.{split}
use govtep.Golang.Net.{
  up_to, zeros, four_numbers, four_parts, parse_ipv4, xtoi, Groups, empty_groups, add_bytes,
  has_ellipsis, expanded, expand, last_four, ipv4_tail, trailing_ipv4, Next, go_on, ellipsis, bad,
  next_group, at_ellipsis, after_group, one_group, ipv6_groups, parse_ipv6, by_first, parse_ip,
  stop, dot,
}

abbrev Full : Option (List ℕ) → Type 0
Full none = Unit
Full (some ip) = length ip ≡ 16

length-append : (xs ys : List ℕ) → length (xs ++ ys) ≡ length xs + length ys
length-append [] ys = omega arith
length-append (x ∷ xs) ys = omega (arith, length-append xs ys)

length-zeros : (n : ℕ) → length (zeros n) ≡ n
length-zeros zero = refl
length-zeros (suc n) = omega (arith, length-zeros n)

four_numbers-Full : (a b c d : Option ℕ) → Full (four_numbers a b c d)
unfolding four_numbers
four_numbers-Full (some a) (some b) (some c) (some d) = refl
four_numbers-Full none b c d = tt
four_numbers-Full (some a) none c d = tt
four_numbers-Full (some a) (some b) none d = tt
four_numbers-Full (some a) (some b) (some c) none = tt

four_parts-Full : (parts : List Str) → Full (four_parts parts)
unfolding four_parts
four_parts-Full [] = tt
four_parts-Full (a ∷ []) = tt
four_parts-Full (a ∷ b ∷ []) = tt
four_parts-Full (a ∷ b ∷ c ∷ []) = tt
four_parts-Full (a ∷ b ∷ c ∷ d ∷ []) =
    four_numbers-Full (up_to 255 a) (up_to 255 b) (up_to 255 c) (up_to 255 d)
four_parts-Full (a ∷ b ∷ c ∷ d ∷ e ∷ rest) = tt

expanded-Full : (bytes : List ℕ) (rest : Option (List ℕ)) → Full (expanded bytes rest)
unfolding expanded
expanded-Full bytes none = elim (Bool-cases (length bytes == 16)) [
  | inl e ↦ rw e (omega (arith, (==_iff (length bytes) 16).0 e))
  | inr e ↦ rw e tt
]
expanded-Full bytes (some rest) = elim (Bool-cases (ltb (length bytes + length rest) 16)) [
  | inl e ↦ rw e (
      ground (
        arith,
        length-append bytes (zeros (16 - (length bytes + length rest)) ++ rest),
        length-append (zeros (16 - (length bytes + length rest))) rest,
        length-zeros (16 - (length bytes + length rest)),
      ))
  | inr e ↦ rw e tt
]

if-Full : (b : Bool) (x y : Option (List ℕ)) → Full x → Full y → Full (if b then x else y)
if-Full true x y hx hy = hx
if-Full false x y hx hy = hy

if_none-Full : (b : Bool) (x : Option (List ℕ)) → Full x → Full (if b then x else none)
if_none-Full true x h = h
if_none-Full false x h = tt

expand-Full : (g : Groups) → Full (expand g)
unfolding expand
expand-Full g = expanded-Full g.leading g.trailing

ipv4_tail-Full : (o : Option (List ℕ)) (g : Groups) → Full (ipv4_tail o g)
unfolding ipv4_tail
ipv4_tail-Full none g = tt
ipv4_tail-Full (some ip) g = expand-Full (add_bytes (last_four ip) g)

trailing_ipv4-Full : (s : Str) (g : Groups) → Full (trailing_ipv4 s g)
unfolding trailing_ipv4
trailing_ipv4-Full s g = if_none-Full _ _ (ipv4_tail-Full (parse_ipv4 s) g)

module _ (more : Str → Groups → Option (List ℕ))
    (full : (s : Str) (g : Groups) → Full (more s g)) where
  at_ellipsis-Full : (b : Bool) (s : Str) (g : Groups) → Full (at_ellipsis more b s g)
  unfolding at_ellipsis
  at_ellipsis-Full true s g = tt
  at_ellipsis-Full false [] g = expand-Full (record g { trailing = some [] })
  at_ellipsis-Full false (c ∷ s) g = full _ _

  after_group-Full : (next : Next) (s : Str) (g g' : Groups) → Full (after_group more next s g g')
  unfolding after_group
  after_group-Full stop s g g' = expand-Full g'
  after_group-Full dot s g g' = trailing_ipv4-Full s g
  after_group-Full (go_on t) s g g' = full t g'
  after_group-Full (ellipsis t) s g g' = at_ellipsis-Full (has_ellipsis g) t g'
  after_group-Full bad s g g' = tt

  one_group-Full : (x : ℕ × Bool × Str) (s : Str) (g : Groups) → Full (one_group more x s g)
  unfolding one_group
  one_group-Full (n, any, rest) s g = if_none-Full _ _ (after_group-Full (next_group rest) s g _)

ipv6_groups-Full : (rounds : ℕ) (s : Str) (g : Groups) → Full (ipv6_groups rounds s g)
unfolding ipv6_groups
ipv6_groups-Full zero [] g = expand-Full g
ipv6_groups-Full zero (c ∷ s) g = tt
ipv6_groups-Full (suc rounds) s g =
    one_group-Full (ipv6_groups rounds) (ipv6_groups-Full rounds) (xtoi 0 false s) s g

from_start : (s : Str) → Full (ipv6_groups 8 s (empty_groups none))
from_start s = ipv6_groups-Full 8 s (empty_groups none)

parse_ipv6-Full : (s : Str) → Full (parse_ipv6 s)
unfolding parse_ipv6
parse_ipv6-Full [] = from_start []
parse_ipv6-Full (c ∷ []) = from_start (c ∷ [])
parse_ipv6-Full (c ∷ d ∷ []) = if-Full (c == b':' && d == b':') _ _ refl (from_start (c ∷ d ∷ []))
parse_ipv6-Full (c ∷ d ∷ e ∷ s) =
    if-Full (c == b':' && d == b':') _ _ (ipv6_groups-Full 8 (e ∷ s) (empty_groups (some [])))
      (from_start (c ∷ d ∷ e ∷ s))

parse_ipv4-Full : (s : Str) → Full (parse_ipv4 s)
unfolding parse_ipv4
parse_ipv4-Full s = four_parts-Full (split b'.' s)

by_first-Full : (rest s : Str) → Full (by_first rest s)
unfolding by_first
by_first-Full [] s = tt
by_first-Full (c ∷ rest) s =
    if-Full (c == b'.') _ _ (parse_ipv4-Full s)
      (if-Full (c == b':') _ _ (parse_ipv6-Full s) (by_first-Full rest s))

-- An address that `ParseIP` reads, of four bytes or of sixteen, is returned in sixteen.
pub parse_ip-length : (s : Str) (ip : List ℕ) → parse_ip s ≡ some ip → length ip ≡ 16
unfolding parse_ip
parse_ip-length s ip h = subst Full h (by_first-Full s s)
