-- ===== src/Vtep/Names/Strip.antt =====
-- What `deletePreAndSufSpace` cuts off.
use govtep.Base.{
  ℕ, zero, suc, ◌-◌, ◌≤◌, ◌≡◌, refl, sym, ap, subst, ◌∙◌, ◌⊎◌, inl, inr, Bool, false, [], ◌∷◌, ◌++◌,
  arith, ◌==◌, ==_iff, Bool-cases, Str, length, drop, take, take-drop, All,
}
use govtep.Vtep.Names.{leading_spaces, trailing_spaces, cut_trailing, delete_pre_and_suf_space}

abbrev pub AllSpaces : Str → Type 0
AllSpaces = All (λ c. c ≡ 32)

-- Whether a string begins, or ends, with a space.
pub begins_with_space : Str → Bool
begins_with_space [] = false
begins_with_space (c ∷ s) = c == 32

pub ends_with_space : Str → Bool
ends_with_space [] = false
ends_with_space (c ∷ []) = c == 32
ends_with_space (c ∷ d ∷ s) = ends_with_space (d ∷ s)

leading_lem :
    (s : Str)
    → AllSpaces (take (leading_spaces s) s)
      × (s ≡ take (leading_spaces s) s ++ drop (leading_spaces s) s)
      × (begins_with_space (drop (leading_spaces s) s) ≡ false)
unfolding leading_spaces begins_with_space
leading_lem [] = (tt, refl, refl)
leading_lem (c ∷ s) =
    let ih = leading_lem s in
    elim (Bool-cases (c == 32)) [
      | inl e ↦ rw e (((==_iff c 32).0 e, ih.0), ap (λ t. c ∷ t) ih.1, ih.2)
      | inr e ↦ rw e (tt, refl, e)
    ]

trailing_bound : (s : Str) → trailing_spaces s ≤ length s
unfolding trailing_spaces
trailing_bound [] = omega arith
trailing_bound (c ∷ s) = ground (arith, trailing_bound s)

-- A byte in front is kept, unless it is a space and so are all bytes behind it.
abbrev Kept : ℕ → Str → Type 0
Kept c s =
    (trailing_spaces (c ∷ s) ≡ trailing_spaces s)
    × (trailing_spaces s ≡ length s → (c == 32) ≡ false)

abbrev Dropped : ℕ → Str → Type 0
Dropped c s = (trailing_spaces (c ∷ s) ≡ suc (length s)) × (c ≡ 32) × (trailing_spaces s ≡ length s)

trailing_cases : (c : ℕ) (s : Str) → Kept c s ⊎ Dropped c s
unfolding trailing_spaces
trailing_cases c s = elim (Bool-cases (trailing_spaces s == length s)) [
  | inl e ↦ elim (Bool-cases (c == 32)) [
    | inl f ↦ rw (e, f) (inr (ground (arith, e), (==_iff c 32).0 f, (==_iff _ _).0 e))
    | inr f ↦ rw (e, f) (inl (refl, λ _. refl))
  ]
  | inr e ↦ rw e (inl (refl, λ h. absurd (ground (arith, h, e))))
]

kept_length : (n t : ℕ) → t ≤ n → suc n - t ≡ suc (n - t)
kept_length n t h = omega arith

trailing-AllSpaces : (s : Str) → AllSpaces (drop (length s - trailing_spaces s) s)
unfolding trailing_spaces
trailing-AllSpaces [] = tt
trailing-AllSpaces (c ∷ s) = elim (trailing_cases c s) [
  | inl k ↦
      rw (k.0, kept_length (length s) (trailing_spaces s) (trailing_bound s)) (trailing-AllSpaces s)
  | inr d ↦
      let none_left : length s - trailing_spaces s ≡ 0 = omega (arith, d.2) in
      let all : AllSpaces s = subst (λ n. AllSpaces (drop n s)) none_left (trailing-AllSpaces s) in
      let whole : suc (length s) - suc (length s) ≡ 0 = omega arith in rw (d.0, whole) (d.1, all)
]

cut-append : (s : Str) → s ≡ cut_trailing s ++ drop (length s - trailing_spaces s) s
unfolding cut_trailing
cut-append s = sym (take-drop (length s - trailing_spaces s) s)

take_none : (n : ℕ) (s : Str) → n ≤ length s → take n s ≡ [] → n ≡ 0
take_none zero s h e = refl
take_none (suc n) [] h e = omega arith
take_none (suc n) (c ∷ s) h e = cc

ends-cons :
    (c : ℕ) (r : Str)
    → ends_with_space r ≡ false
    → (r ≡ [] → (c == 32) ≡ false)
    → ends_with_space (c ∷ r) ≡ false
unfolding ends_with_space
ends-cons c [] h e = e refl
ends-cons c (d ∷ r) h e = h

cut-end : (s : Str) → ends_with_space (cut_trailing s) ≡ false
unfolding cut_trailing ends_with_space
cut-end [] = refl
cut-end (c ∷ s) = elim (trailing_cases c s) [
  | inl k ↦
      rw (k.0, kept_length (length s) (trailing_spaces s) (trailing_bound s))
        (ends-cons c (take (length s - trailing_spaces s) s) (cut-end s)
          (λ e. k.1 (omega (arith, take_none _ s (omega arith) e, trailing_bound s))))
  | inr d ↦ let whole : suc (length s) - suc (length s) ≡ 0 = omega arith in rw (d.0, whole)
]

begins-take : (n : ℕ) (s : Str) → begins_with_space s ≡ false → begins_with_space (take n s) ≡ false
unfolding begins_with_space
begins-take zero s h = refl
begins-take (suc n) [] h = refl
begins-take (suc n) (c ∷ s) h = h

-- What is left of a string neither begins nor ends with a space, and what was cut off in front of it
-- and behind it are spaces only.
pub delete_pre_and_suf_space_lem :
    (s : Str)
    → (pre : Str) × (post : Str) × (s ≡ pre ++ (delete_pre_and_suf_space s ++ post))
      × AllSpaces pre
      × AllSpaces post
      × (begins_with_space (delete_pre_and_suf_space s) ≡ false)
      × (ends_with_space (delete_pre_and_suf_space s) ≡ false)
unfolding delete_pre_and_suf_space cut_trailing
delete_pre_and_suf_space_lem s =
    let n = leading_spaces s in
    let r = drop n s in
    let lead = leading_lem s in
    let post = drop (length r - trailing_spaces r) r in
    (
      take n s,
      post,
      lead.1 ∙ ap (λ t. take n s ++ t) (cut-append r),
      lead.0,
      trailing-AllSpaces r,
      begins-take _ r lead.2,
      cut-end r,
    )
