-- ===== src/Ovsdb/Client/Safety.antt =====
-- When a transaction is accepted, and what the row functions make of the reply.
use govtep.Base.{
  ℕ, suc, ◌+◌, ◌≤◌, String, ◌≡◌, refl, ◌≢◌, ◌↔◌, inl, inr, none, some, List, [], ◌∷◌, arith,
  Bool-cases, Option-cases, str_eq, str_eq_iff, length, All,
}
use govtep.Ovsdb.Rows.{Op, mutate, delete, select_op, update}
use govtep.Ovsdb.Client.{
  OperationResult, Operation, Reply, Server, first_error, short_reply, check_reply, first_count,
  rows_of, transact, update_rows, mutate_rows, delete_rows, select_rows,
}

module _ {V : Type 0} where
  abbrev pub HasNoError : OperationResult V → Type 0
  HasNoError o = o.error ≡ []

  first_error_iff :
      (i n : ℕ) (os : List (OperationResult V)) → (first_error i n os ≡ none) ↔ All HasNoError os
  unfolding first_error
  first_error_iff i n [] = (λ _. tt, λ _. refl)
  first_error_iff i n (o ∷ os) = elim (Bool-cases (str_eq o.error [])) [
    | inl e ↦
        let ih = first_error_iff (i + 1) n os in
        (λ h. ((str_eq_iff o.error []).0 e, ih.0 (rw e at h)), λ h. rw e (ih.1 h.1))
    | inr e ↦ (λ h. absurd (ground arith), λ h. absurd (ground (arith, str_eq_iff o.error [])))
  ]

  -- What `check_reply` accepts, and what it hands on.
  check_reply_accepts :
      (r : Reply V) (n : ℕ)
      → (check_reply r n).1 ≡ none
      → (r.1 ≡ none) × All HasNoError r.0 × (n ≤ length r.0) × ((check_reply r n).0 ≡ r.0)
  unfolding check_reply short_reply
  check_reply_accepts (reply, some e) n h = cc
  check_reply_accepts (reply, none) n h = elim (Option-cases (first_error 0 n reply)) [
    | inl clean ↦
        let ok = (first_error_iff 0 n reply).0 clean in (refl, ok, ground arith, ground arith)
    | inr (e, found) ↦ absurd (ground arith)
  ]

  check_reply_complete :
      (r : Reply V) (n : ℕ)
      → r.1 ≡ none
      → All HasNoError r.0
      → n ≤ length r.0
      → (check_reply r n).1 ≡ none
  unfolding check_reply short_reply
  check_reply_complete (reply, some e) n h all le = h
  check_reply_complete (reply, none) n h all le =
      let clean = (first_error_iff 0 n reply).1 all in rw (clean, check_reply) (ground arith)

  -- With at least one operation an accepted reply has a first result.
  first_count_some : (r : Reply V) (n : ℕ) → first_count (check_reply r (suc n)) ≢ none
  unfolding first_count check_reply short_reply
  first_count_some (reply, some e) n h = cc
  first_count_some ([], none) n h = ground arith
  first_count_some (o ∷ os, none) n h = ground arith

  rows_of_some : (r : Reply V) (n : ℕ) → rows_of (check_reply r (suc n)) ≢ none
  unfolding rows_of check_reply short_reply
  rows_of_some (reply, some e) n h = cc
  rows_of_some ([], none) n h = ground arith
  rows_of_some (o ∷ os, none) n h = ground arith

module _ {W P V : Type 0} (server : Server W P V) where
  -- A transaction returns without an error exactly if the server did, every reply has an empty error
  -- and there are at least as many replies as operations; it then returns the replies as they are.
  pub transact_accepts_iff :
      (ops : List (Operation P)) (w : W)
      → ((transact server ops w).0.1 ≡ none) ↔ (
          ((server ops w).0.1 ≡ none)
          × All HasNoError (server ops w).0.0
          × (length ops ≤ length (server ops w).0.0)
          × ((transact server ops w).0.0 ≡ (server ops w).0.0))
  unfolding transact
  transact_accepts_iff ops w = (
    check_reply_accepts (server ops w).0 (length ops),
    λ (clean, all, enough, same).
        check_reply_complete (server ops w).0 (length ops) clean all enough,
  )

  -- Updating, mutating, deleting and selecting rows never index an empty reply, whatever the server
  -- answers.
  pub rows_never_panic :
      (table : String) (body : P) (w : W)
      → ((update_rows server table body w).0 ≢ none)
        × ((mutate_rows server table body w).0 ≢ none)
        × ((delete_rows server table body w).0 ≢ none)
        × ((select_rows server table body w).0 ≢ none)
  unfolding update_rows mutate_rows delete_rows select_rows transact
  rows_never_panic table body w =
      let reply : Op → Reply V =
        λ o. (server (record { op = o; table = table; body = body } ∷ []) w).0 in
      (
        first_count_some (reply update) 0,
        first_count_some (reply mutate) 0,
        first_count_some (reply delete) 0,
        rows_of_some (reply select_op) 0,
      )
