-- ===== src/Golang/Binary/Prefix.antt =====
-- The leading bytes of two binary numerals of one length are those of the numbers shifted right.
use govtep.Base.{
  ℕ, zero, suc, ◌+◌, ◌-◌, ◌*◌, ◌/◌, ◌%◌, ◌^◌, ◌≤◌, ◌<◌, ◌≡◌, refl, sym, ap, ◌∙◌, ◌≢◌, ◌↔◌, inl, inr,
  true, some, [], ◌∷◌, ◌++◌, arith, ltb, ==_refl, Bool-cases, Str, length,
}
use govtep.Golang.Binary.{binary_rounds, same_bytes}
use native.Mathlib.Nat.{div-div-eq-div-mul, pow-succ', zero-div}

length-snoc : (s : Str) (d : ℕ) → length (s ++ (d ∷ [])) ≡ suc (length s)
length-snoc [] d = refl
length-snoc (x ∷ s) d = ap suc (length-snoc s d)

-- A byte at the end that is not reached.
same_bytes-snoc :
    (k : ℕ) (s t : Str) (d e : ℕ)
    → k ≤ length s
    → length s ≡ length t
    → same_bytes k (s ++ (d ∷ [])) (t ++ (e ∷ [])) ≡ same_bytes k s t
unfolding same_bytes
same_bytes-snoc zero s t d e h l = refl
same_bytes-snoc (suc k) [] t d e h l = absurd (omega arith)
same_bytes-snoc (suc k) (x ∷ s) [] d e h l = absurd (omega arith)
same_bytes-snoc (suc k) (x ∷ s) (y ∷ t) d e h l =
    rw (same_bytes-snoc k s t d e (omega arith) (omega arith)) refl

-- All the bytes, and one more.
same_bytes-last :
    (s t : Str) (d e : ℕ)
    → length s ≡ length t
    → (same_bytes (suc (length s)) (s ++ (d ∷ [])) (t ++ (e ∷ [])) ≡ some true)
      ↔ ((same_bytes (length s) s t ≡ some true) × (d ≡ e))
unfolding same_bytes
same_bytes-last [] [] d e l = ground arith
same_bytes-last [] (y ∷ t) d e l = absurd (omega arith)
same_bytes-last (x ∷ s) [] d e l = absurd (omega arith)
same_bytes-last (x ∷ s) (y ∷ t) d e l = ground (arith, same_bytes-last s t d e)

binary-small : (f n : ℕ) → n < 2 → binary_rounds (suc f) n ≡ (b'0' + n) ∷ []
unfolding binary_rounds
binary-small f n h = ground arith

binary-large :
    (f n : ℕ) → 2 ≤ n → binary_rounds (suc f) n ≡ binary_rounds f (n / 2) ++ ((b'0' + n % 2) ∷ [])
unfolding binary_rounds
binary-large f n h = ground arith

double_half : (n : ℕ) → 2 * n / 2 ≡ n
double_half n = omega arith

-- A string and the same with more bytes.
same_bytes_self : (k : ℕ) (s t : Str) → k ≤ length s → same_bytes k s (s ++ t) ≡ some true
unfolding same_bytes
same_bytes_self zero s t h = refl
same_bytes_self (suc k) [] t h = absurd (omega arith)
same_bytes_self (suc k) (x ∷ s) t h = ground (arith, ==_refl x, same_bytes_self k s t)

half : (f n : ℕ) → n < 2 ^ suc f → n / 2 < 2 ^ f
half f n h = omega arith

halves : (a b : ℕ) → a / 2 ≡ b / 2 → a % 2 ≡ b % 2 → a ≡ b
halves a b h k = omega arith

half_shift : (j n : ℕ) → n / 2 ^ suc j ≡ n / 2 / 2 ^ j
half_shift j n = ap (λ k. n / k) (pow-succ' 2 j) ∙ sym (div-div-eq-div-mul n 2 (2 ^ j))

half_zero : (n : ℕ) → n < 2 → n / 2 ≡ 0
half_zero n h = omega arith

zero_shift : (j n : ℕ) → n < 2 → n / 2 ^ suc j ≡ 0
zero_shift j n h = half_shift j n ∙ ap (λ k. k / 2 ^ j) (half_zero n h) ∙ zero-div (2 ^ j)

length-large :
    (f n : ℕ) → 2 ≤ n → length (binary_rounds (suc f) n) ≡ suc (length (binary_rounds f (n / 2)))
length-large f n h = rw (binary-large f n h) (length-snoc _ _)

nonempty : (f n : ℕ) → 0 < n → n < 2 ^ f → 0 < length (binary_rounds f n)
nonempty zero n h l = absurd (omega arith)
nonempty (suc f) n h l = elim (Bool-cases (ltb n 2)) [
  | inl small ↦ rw (binary-small f n (ground arith)) (omega arith)
  | inr large ↦ rw (length-large f n (ground arith)) (omega arith)
]

-- The digits of two numbers at the same distance from the end.
abbrev pub Agree : ℕ → ℕ → ℕ → ℕ → Type 0
Agree f j a b =
    (same_bytes (length (binary_rounds f a) - j) (binary_rounds f a) (binary_rounds f b)
      ≡ some true)
    ↔ (a / 2 ^ j ≡ b / 2 ^ j)

one_minus : (j : ℕ) → 1 - suc j ≡ 0
one_minus j = omega arith

small-Agree : (f j a b : ℕ) → a < 2 → b < 2 → Agree (suc f) j a b
unfolding same_bytes
small-Agree f zero a b p q = rw (binary-small f a p, binary-small f b q) (ground arith)
small-Agree f (suc j) a b p q =
    rw (binary-small f a p, binary-small f b q, zero_shift j a p, zero_shift j b q, one_minus j)
      (λ _. refl, λ _. refl)

suc_minus : (n j : ℕ) → suc n - suc j ≡ n - j
suc_minus n j = omega arith

large-Agree :
    (f j a b : ℕ)
    → 2 ≤ a
    → 2 ≤ b
    → length (binary_rounds f (a / 2)) ≡ length (binary_rounds f (b / 2))
    → ((i : ℕ) → Agree f i (a / 2) (b / 2))
    → Agree (suc f) j a b
large-Agree f zero a b p q l ih =
    rw (binary-large f a p, binary-large f b q)
      (ground (
        arith,
        same_bytes-last (binary_rounds f (a / 2)) (binary_rounds f (b / 2)) (b'0' + a % 2)
            (b'0' + b % 2) l,
        length-snoc (binary_rounds f (a / 2)) (b'0' + a % 2),
        ih 0,
      ))
large-Agree f (suc j) a b p q l ih =
    rw
      (
        half_shift j a,
        half_shift j b,
        binary-large f a p,
        binary-large f b q,
        length-snoc (binary_rounds f (a / 2)) (b'0' + a % 2),
        suc_minus (length (binary_rounds f (a / 2))) j,
        same_bytes-snoc (length (binary_rounds f (a / 2)) - j) (binary_rounds f (a / 2))
            (binary_rounds f (b / 2)) (b'0' + a % 2) (b'0' + b % 2) (omega arith) l,
      )
      (ih j)

below_one : (a : ℕ) → a < 2 ^ 0 → a ≡ 0
below_one a p = omega arith

zero_minus : (j : ℕ) → 0 - j ≡ 0
zero_minus j = omega arith

zero-Agree : (j a b : ℕ) → a < 2 ^ 0 → b < 2 ^ 0 → Agree zero j a b
unfolding binary_rounds same_bytes
zero-Agree j a b p q = rw (below_one a p, below_one b q, zero_minus j) (λ _. refl, λ _. refl)

-- Numerals of one length are both of one digit or both of more.
unequal :
    (f a b : ℕ)
    → a < 2
    → 2 ≤ b
    → b < 2 ^ suc f
    → length (binary_rounds (suc f) a) ≢ length (binary_rounds (suc f) b)
unequal f a b p q h l = omega (
  arith,
  l,
  ap length (binary-small f a p),
  length-large f b q,
  nonempty f (b / 2) (omega arith) (half f b h),
)

-- The leading digits of two numbers whose numerals have one length, all but the last `j`, are the
-- same exactly when the numbers without their last `j` digits are.
pub binary-Agree :
    (f j a b : ℕ)
    → a < 2 ^ f
    → b < 2 ^ f
    → length (binary_rounds f a) ≡ length (binary_rounds f b)
    → Agree f j a b
binary-Agree zero j a b p q l = zero-Agree j a b p q
binary-Agree (suc f) j a b p q l = elim (Bool-cases (ltb a 2)) [
  | inl x ↦ elim (Bool-cases (ltb b 2)) [
    | inl y ↦ small-Agree f j a b (ground arith) (ground arith)
    | inr y ↦ absurd (unequal f a b (ground arith) (ground arith) q l)
  ]
  | inr x ↦ elim (Bool-cases (ltb b 2)) [
    | inl y ↦ absurd (unequal f b a (ground arith) (ground arith) p (sym l))
    | inr y ↦
        let shorter : length (binary_rounds f (a / 2)) ≡ length (binary_rounds f (b / 2)) =
          omega (arith, l, length-large f a (ground arith), length-large f b (ground arith)) in
        large-Agree f j a b (ground arith) (ground arith) shorter
          (λ i. binary-Agree f i (a / 2) (b / 2) (half f a p) (half f b q) shorter)
  ]
]

-- The numeral of twice a number is that of the number and a zero, so all its leading bytes are those.
pub same_bytes-double :
    (f k n : ℕ)
    → 0 < n
    → k ≤ length (binary_rounds f n)
    → same_bytes k (binary_rounds f n) (binary_rounds (suc f) (2 * n)) ≡ some true
same_bytes-double f k n h l =
    rw (binary-large f (2 * n) (omega arith), double_half n)
      (same_bytes_self k (binary_rounds f n) _ l)

-- More rounds than the digits take change nothing.
pub binary_more :
    (f n : ℕ) → n < 2 ^ suc f → binary_rounds (suc (suc f)) n ≡ binary_rounds (suc f) n
binary_more zero n h = binary-small 1 n (omega arith) ∙ sym (binary-small 0 n (omega arith))
binary_more (suc f) n h = elim (Bool-cases (ltb n 2)) [
  | inl x ↦
      binary-small (suc (suc f)) n (ground arith) ∙ sym (binary-small (suc f) n (ground arith))
  | inr x ↦
      binary-large (suc (suc f)) n (ground arith)
      ∙ ap (λ s. s ++ ((b'0' + n % 2) ∷ [])) (binary_more f (n / 2) (half (suc f) n h))
      ∙ sym (binary-large (suc f) n (ground arith))
]
