-- ===== src/Golang/Binary.antt =====
-- `strconv.FormatInt(n, 2)`, for |n| < 2 ^ 64.
pub mod Prefix
use govtep.Base.{
  ℕ, zero, suc, ◌+◌, ◌/◌, ◌%◌, Bool, true, false, Option, none, some, [], ◌∷◌, ◌++◌, ltb, ◌==◌,
  if◌then◌else◌, Str,
}
use govtep.Golang.Int.{ℤ, pos, negsuc}

pub binary_rounds : ℕ → ℕ → Str
binary_rounds zero n = []
binary_rounds (suc f) n =
    let longer = binary_rounds f (n / 2) ++ ((b'0' + n % 2) ∷ []) in
    if ltb n 2 then (b'0' + n) ∷ [] else longer

-- `strconv.FormatInt(n, 2)`
unfoldable pub format_binary : ℤ → Str
unfolding binary_rounds
format_binary (pos n) = binary_rounds 64 n
format_binary (negsuc n) = b'-' ∷ binary_rounds 64 (suc n)

-- `for i := 0; i < n; i++ { if s[i] != t[i] { return false } }`, none where an index is out of range.
unfoldable pub same_bytes : ℕ → Str → Str → Option Bool
same_bytes zero s t = some true
same_bytes (suc n) (x ∷ s) (y ∷ t) = if x == y then same_bytes n s t else some false
same_bytes (suc n) [] t = none
same_bytes (suc n) (x ∷ s) [] = none
