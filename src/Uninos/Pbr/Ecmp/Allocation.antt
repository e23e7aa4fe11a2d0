-- ===== src/Uninos/Pbr/Ecmp/Allocation.antt =====
-- Which identifier an allocation returns.
use govtep.Base.{
  ℕ, zero, suc, ◌+◌, ◌≤◌, ◌<◌, ◌≡◌, refl, sym, ap, subst, ◌∙◌, ◌≢◌, ◌⊎◌, inl, inr, Bool, true,
  false, none, arith, ◌==◌, if◌then◌else◌, ==_iff, Bool-cases,
}
use govtep.Uninos.Pbr.Ecmp.{
  Pool, store, ecmp_group_id_min, ecmp_group_id_max, in_use, search_id, check_id, get_ecmp_group_id,
}

-- Free in the pool and in the database.
abbrev pub IsFree : (ℕ → Bool) → Pool → ℕ → Type 0
IsFree exists_in_db pool i = (in_use (pool i) ≡ false) × (exists_in_db i ≡ false)

-- The last identifier that the pool does not hold, among `n` from `i` on; `id` if it holds all.
last_unheld : Pool → ℕ → ℕ → ℕ → ℕ
last_unheld pool zero i id = id
last_unheld pool (suc n) i id = last_unheld pool n (suc i) (if in_use (pool i) then id else i)

-- The pool holds every identifier from `i` on and below `j`.
abbrev pub AllHeld : Pool → ℕ → ℕ → Type 0
AllHeld pool i j = (k : ℕ) → i ≤ k → k < j → in_use (pool k) ≡ true

abbrev Unheld : Pool → ℕ → ℕ → ℕ → Type 0
Unheld pool i j id = (i ≤ id) × (id < j) × (in_use (pool id) ≡ false)

last_unheld_cases :
    (pool : Pool) (n i id : ℕ)
    → ((last_unheld pool n i id ≡ id) × AllHeld pool i (i + n))
      ⊎ Unheld pool i (i + n) (last_unheld pool n i id)
unfolding last_unheld
last_unheld_cases pool zero i id = inl (refl, λ k a b. absurd (omega arith))
last_unheld_cases pool (suc n) i id = elim (Bool-cases (in_use (pool i))) [
  | inl used ↦ rw used (elim (last_unheld_cases pool n (suc i) id) [
    | inl (same, held) ↦ inl (
      same,
      λ k a b. elim (Bool-cases (i == k)) [
        | inl e ↦ subst (λ x. in_use (pool x) ≡ true) ((==_iff i k).0 e) used
        | inr e ↦ held k (ground arith) (omega arith)
      ],
    )
    | inr u ↦ inr (omega (arith, u.0), omega (arith, u.1), u.2)
  ])
  | inr unused ↦ rw unused (elim (last_unheld_cases pool n (suc i) i) [
    | inl (same, held) ↦ inr (
      omega (arith, same),
      omega (arith, same),
      subst (λ x. in_use (pool x) ≡ false) (sym same) unused,
    )
    | inr u ↦ inr (omega (arith, u.0), omega (arith, u.1), u.2)
  ])
]

check_id_in_range :
    (id : ℕ) (pool : Pool)
    → ecmp_group_id_min ≤ id
    → id ≤ ecmp_group_id_max
    → check_id (id, pool) ≡ ((id, none), pool)
unfolding check_id
check_id_in_range id pool low high = ground arith

check_id-id : (r : ℕ × Pool) → (check_id r).0.0 ≡ r.0
unfolding check_id
check_id-id (id, pool) = ground arith

check_id_low : (r : ℕ × Pool) → r.0 ≡ 0 → (check_id r).0.1 ≢ none
unfolding check_id
check_id_low (id, pool) z e = ground arith

check_id_zero : (pool : Pool) → (check_id (0, pool)).0.1 ≢ none
unfolding check_id
check_id_zero pool e = cc

module _ (exists_in_db : ℕ → Bool) (pool : Pool) where
  get_as_search :
      get_ecmp_group_id exists_in_db pool
      ≡ check_id (search_id exists_in_db pool ecmp_group_id_max 1 0)
  unfolding get_ecmp_group_id
  get_as_search = refl

  -- No identifier from `i` on and below `j` is free.
  abbrev NoneFree : ℕ → ℕ → Type 0
  NoneFree i j = (k : ℕ) → i ≤ k → k < j → ¬ IsFree exists_in_db pool k

  -- The loop stops at the first free identifier.
  search_id_free :
      (n i j id : ℕ)
      → i ≤ j
      → j < i + n
      → IsFree exists_in_db pool j
      → NoneFree i j
      → search_id exists_in_db pool n i id ≡ (j, store pool j 1)
  unfolding search_id
  search_id_free zero i j id le lt free none_free = absurd (omega arith)
  search_id_free (suc n) i j id le lt free none_free = elim (Bool-cases (i == j)) [
    | inl e ↦ let same : i ≡ j = (==_iff i j).0 e in rw (same, free.0, free.1)
    | inr e ↦
        let less : suc i ≤ j = ground arith in
        let after : NoneFree (suc i) j = λ k a b. none_free k (omega arith) b in
        elim (Bool-cases (in_use (pool i))) [
          | inl used ↦ rw used (search_id_free n (suc i) j id less (omega arith) free after)
          | inr unused ↦ elim (Bool-cases (exists_in_db i)) [
            | inl found ↦
                rw (unused, found) (search_id_free n (suc i) j i less (omega arith) free after)
            | inr missing ↦ absurd (none_free i (omega arith) less (unused, missing))
          ]
        ]
  ]

  -- If none is free the loop runs to its end, and keeps the last identifier that it tried.
  search_id_full :
      (n i id : ℕ)
      → NoneFree i (i + n)
      → search_id exists_in_db pool n i id ≡ (last_unheld pool n i id, pool)
  unfolding search_id last_unheld
  search_id_full zero i id none_free = refl
  search_id_full (suc n) i id none_free =
      let after : NoneFree (suc i) (suc i + n) = λ k a b. none_free k (omega arith) (omega arith) in
      elim (Bool-cases (in_use (pool i))) [
        | inl used ↦ rw used (search_id_full n (suc i) id after)
        | inr unused ↦ elim (Bool-cases (exists_in_db i)) [
          | inl found ↦ rw (unused, found) (search_id_full n (suc i) i after)
          | inr missing ↦ absurd (none_free i (omega arith) (omega arith) (unused, missing))
        ]
      ]

  -- As long as an identifier is free in the pool and in the database, an allocation returns the
  -- least such identifier and no error, and marks it, and it alone, in the pool.
  pub get_ecmp_group_id_free :
      (j : ℕ)
      → ecmp_group_id_min ≤ j
      → j ≤ ecmp_group_id_max
      → IsFree exists_in_db pool j
      → ((k : ℕ) → ecmp_group_id_min ≤ k → k < j → ¬ IsFree exists_in_db pool k)
      → get_ecmp_group_id exists_in_db pool ≡ ((j, none), store pool j 1)
  get_ecmp_group_id_free j low high free below =
      get_as_search
      ∙ ap check_id (search_id_free ecmp_group_id_max 1 j 0 low (omega arith) free below)
      ∙ check_id_in_range j (store pool j 1) low high

  -- When no identifier is free, an allocation reports an error only if the pool holds all of them.
  -- Otherwise it returns, without an error, an identifier that a group in the database already has,
  -- and marks nothing.
  pub get_ecmp_group_id_full :
      ((k : ℕ) → ecmp_group_id_min ≤ k → k < suc ecmp_group_id_max → ¬ IsFree exists_in_db pool k)
      → (AllHeld pool ecmp_group_id_min (suc ecmp_group_id_max)
          × ((get_ecmp_group_id exists_in_db pool).0.1 ≢ none))
        ⊎ ((id : ℕ) × (ecmp_group_id_min ≤ id)
            × (id ≤ ecmp_group_id_max)
            × (exists_in_db id ≡ true)
            × (get_ecmp_group_id exists_in_db pool ≡ ((id, none), pool)))
  get_ecmp_group_id_full none_free =
      let run = get_as_search ∙ ap check_id (search_id_full ecmp_group_id_max 1 0 none_free) in
      elim (last_unheld_cases pool ecmp_group_id_max 1 0) [
        | inl (same, held) ↦ inl (
          held,
          λ e.
              check_id_zero pool
                (ap (λ r. r.0.1) (sym (run ∙ ap (λ x. check_id (x, pool)) same)) ∙ e),
        )
        | inr u ↦
            let id = last_unheld pool ecmp_group_id_max 1 0 in
            let high : id ≤ ecmp_group_id_max = omega (arith, u.1) in
            inr (
              id,
              u.0,
              high,
              elim (Bool-cases (exists_in_db id)) [
                | inl found ↦ found
                | inr missing ↦ absurd (none_free id u.0 (omega (arith, u.1)) (u.2, missing))
              ],
              run ∙ check_id_in_range id pool u.0 high,
            )
      ]

  search_id-unheld :
      (n i id : ℕ)
      → ((search_id exists_in_db pool n i id).0 ≡ id)
        ⊎ (in_use (pool (search_id exists_in_db pool n i id).0) ≡ false)
  unfolding search_id
  search_id-unheld zero i id = inl refl
  search_id-unheld (suc n) i id = elim (Bool-cases (in_use (pool i))) [
    | inl used ↦ rw used (search_id-unheld n (suc i) id)
    | inr unused ↦ elim (Bool-cases (exists_in_db i)) [
      | inl found ↦
          rw (unused, found)
            (elim (search_id-unheld n (suc i) i) [
              | inl same ↦ inr (subst (λ x. in_use (pool x) ≡ false) (sym same) unused)
              | inr u ↦ inr u
            ])
      | inr missing ↦ rw (unused, missing) (inr unused)
    ]
  ]

  -- An identifier that the pool holds is never returned without an error.
  pub get_ecmp_group_id_held :
      (id : ℕ) → in_use (pool id) ≡ true → (get_ecmp_group_id exists_in_db pool).0 ≢ (id, none)
  get_ecmp_group_id_held id held e =
      let r = search_id exists_in_db pool ecmp_group_id_max 1 0 in
      let returned : (check_id r).0 ≡ (id, none) = ap (λ x. x.0) (sym get_as_search) ∙ e in
      let same : r.0 ≡ id = sym (check_id-id r) ∙ ap (λ x. x.0) returned in
      elim (search_id-unheld ecmp_group_id_max 1 0) [
        | inl zero_id ↦ check_id_low r zero_id (ap (λ x. x.1) returned)
        | inr unheld ↦ cc (held, unheld, ap (λ x. in_use (pool x)) same)
      ]
