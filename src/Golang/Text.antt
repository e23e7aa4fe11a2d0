-- ===== src/Golang/Text.antt =====
-- `strings.Contains` and `strings.Split` (with a one-byte separator).
use govtep.Base.{
  ℕ, ◌≡◌, refl, ap, ◌∙◌, Bool, true, false, ◌&&◌, ◌||◌, List, [], ◌∷◌, ◌++◌, arith, ◌==◌,
  if◌then◌else◌, ==_refl, Str, All,
}

unfoldable pub has_prefix : Str → Str → Bool
has_prefix s [] = true
has_prefix [] (y ∷ ys) = false
has_prefix (x ∷ xs) (y ∷ ys) = x == y && has_prefix xs ys

-- `strings.Contains(s, t)`
unfoldable pub contains : Str → Str → Bool
unfolding has_prefix
contains [] t = has_prefix [] t
contains (x ∷ xs) t = has_prefix (x ∷ xs) t || contains xs t

unfoldable pub cons_first : ℕ → List Str → List Str
cons_first c [] = (c ∷ []) ∷ []
cons_first c (w ∷ ws) = (c ∷ w) ∷ ws

-- `strings.Split(s, sep)`: never empty.
unfoldable pub split : ℕ → Str → List Str
unfolding cons_first
split sep [] = [] ∷ []
split sep (c ∷ s) = let rest = split sep s in if c == sep then [] ∷ rest else cons_first c rest

-- `strings.Split(s, sep)[0]`
unfoldable pub before : ℕ → Str → Str
before sep [] = []
before sep (c ∷ s) = let rest = before sep s in if c == sep then [] else c ∷ rest

pub split-append :
    (sep : ℕ) (xs ys : Str)
    → All (λ c. (c == sep) ≡ false) xs
    → split sep (xs ++ (sep ∷ ys)) ≡ xs ∷ split sep ys
unfolding split cons_first
split-append sep [] ys a = ground (arith, ==_refl sep)
split-append sep (x ∷ xs) ys a = rw (a.0, split-append sep xs ys a.1) refl

pub split-single : (sep : ℕ) (xs : Str) → All (λ c. (c == sep) ≡ false) xs → split sep xs ≡ xs ∷ []
unfolding split cons_first
split-single sep [] a = refl
split-single sep (x ∷ xs) a = rw (a.0, split-single sep xs a.1) refl

-- `Split` at a separator that neither half has, and at one that is not there.
pub split_lem :
    (sep : ℕ) (xs ys : Str)
    → All (λ c. (c == sep) ≡ false) xs
    → All (λ c. (c == sep) ≡ false) ys
    → (split sep (xs ++ (sep ∷ ys)) ≡ xs ∷ ys ∷ []) × (split sep xs ≡ xs ∷ [])
split_lem sep xs ys a b =
    (split-append sep xs ys a ∙ ap (λ w. xs ∷ w) (split-single sep ys b), split-single sep xs a)
