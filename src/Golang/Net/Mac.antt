-- ===== src/Golang/Net/Mac.antt =====
-- `net.ParseMAC` of Go 1.14, without the bytes: only whether a text is an address.
use govtep.Base.{
  ℕ, ◌+◌, ◌*◌, ◌/◌, ◌%◌, Bool, true, false, ◌&&◌, ◌||◌, none, some, [], ◌∷◌, ltb, ◌==◌,
  if◌then◌else◌, Str, length,
}
use govtep.Golang.Net.{hex_value}

is_digit : ℕ → Bool
unfolding hex_value
is_digit c = elim (hex_value c) [ none ↦ false | some _ ↦ true ]

-- Bytes of two digits, with one and the same byte between them.
is_pairs : ℕ → Str → Bool
unfolding is_digit
is_pairs sep (a ∷ b ∷ []) = is_digit a && is_digit b
is_pairs sep (a ∷ b ∷ c ∷ s) = is_digit a && is_digit b && c == sep && is_pairs sep s
is_pairs sep _ = false

-- Groups of four digits, with dots between them.
is_fours : Str → Bool
unfolding is_digit
is_fours (a ∷ b ∷ c ∷ d ∷ []) = is_digit a && is_digit b && is_digit c && is_digit d
is_fours (a ∷ b ∷ c ∷ d ∷ e ∷ s) =
    is_digit a && is_digit b && is_digit c && is_digit d && e == b'.' && is_fours s
is_fours _ = false

-- Of 6, 8 or 20 bytes.
is_size : ℕ → Bool
is_size n = n == 6 || n == 8 || n == 20

by_separator : Str → Str → Bool
unfolding is_pairs is_fours is_size
by_separator (_ ∷ _ ∷ c ∷ _ ∷ e ∷ _) s =
    if c == b':' || c == b'-'
    then (length s + 1) % 3 == 0 && is_size ((length s + 1) / 3) && is_pairs c s
    else if e == b'.'
    then (length s + 1) % 5 == 0 && is_size (2 * (length s + 1) / 5) && is_fours s
    else false
by_separator _ s = false

-- Whether `net.ParseMAC(s)` returns no error
unfoldable pub is_mac : Str → Bool
unfolding by_separator
is_mac s = if ltb (length s) 14 then false else by_separator s s
