-- ===== src/Ovsdb/Client.antt =====
-- The transactions of lib/ovsdb_client/client.go. The server is a parameter: what
-- `libovsdb.OvsdbClient.Transact` replies to a list of operations, and the error it returns.
-- `Transact` holds its mutex for the whole call, so a call is one step.
pub mod Safety
use govtep.Base.{
  ℕ, ◌+◌, String, Option, none, some, List, [], ◌∷◌, ltb, if◌then◌else◌, Str, str_eq, length,
  GoError, Error, Action, errorf,
}
use govtep.Ovsdb.Rows.{Op, mutate, delete, select_op, update}

pub record OperationResult (V : Type 0) : Type 0 where
  pub count : ℕ
  pub error : Str
  pub rows : List V

-- libovsdb.Operation: `P` stands for the row, mutations and conditions that it carries.
pub record Operation (P : Type 0) : Type 0 where
  pub op : Op
  pub table : String
  pub body : P

abbrev pub Reply : Type 0 → Type 0
Reply V = List (OperationResult V) × Error

-- What the server and its connection do.
abbrev pub Server : Type 0 → Type 0 → Type 0 → Type 0
Server W P V = List (Operation P) → Action W (Reply V)

-- The message says which operation failed, if there is one at this place.
reply_error : ℕ → ℕ → GoError
reply_error i n =
    if ltb i n
    then errorf "Transaction Failed due to an error : %v details: %v in %v"
    else errorf "Transaction Failed due to an error : %v details: %v"

module _ {V : Type 0} where
  -- `for i, o := range reply`, with `n` operations: the first error ends it.
  first_error : ℕ → ℕ → List (OperationResult V) → Error
  first_error i n [] = none
  first_error i n (o ∷ os) =
      let rest = first_error (i + 1) n os in
      if str_eq o.error [] then rest else some (reply_error i n)

  short_reply : List (OperationResult V) → ℕ → Reply V
  short_reply reply n =
      if ltb (length reply) n
      then (
        reply,
        some (errorf "Number of Replies should be atleast equal to number of operations"),
      )
      else (reply, none)

  pub check_reply : Reply V → ℕ → Reply V
  unfolding first_error short_reply reply_error
  check_reply (reply, some e) n = (reply, some e)
  check_reply (reply, none) n = elim (first_error 0 n reply) [
    | some e ↦ ([], some e)
    | none ↦ short_reply reply n
  ]

  -- `results[0].Count`, 0 if the transaction failed; `none` is the panic of an index out of range.
  first_count : Reply V → Option ℕ
  first_count (results, some e) = some 0
  first_count ([], none) = none
  first_count (o ∷ _, none) = some o.count

  rows_of : Reply V → Option (List V × ℕ)
  rows_of (results, some e) = some ([], 0)
  rows_of ([], none) = none
  rows_of (o ∷ _, none) =
      if ltb 0 (length o.rows) then some (o.rows, length o.rows) else some ([], 0)

module _ {W P V : Type 0} (server : Server W P V) where
  -- `Transact`
  pub transact : List (Operation P) → Action W (Reply V)
  unfolding check_reply
  transact ops w = let (reply, w') = server ops w in (check_reply reply (length ops), w')

  -- `UpdateRows`
  pub update_rows : String → P → Action W (Option ℕ)
  unfolding transact first_count
  update_rows table body w =
      let (r, w') = transact (record { op = update; table = table; body = body } ∷ []) w in
      (first_count r, w')

  -- `MutateRows`
  pub mutate_rows : String → P → Action W (Option ℕ)
  unfolding transact first_count
  mutate_rows table body w =
      let (r, w') = transact (record { op = mutate; table = table; body = body } ∷ []) w in
      (first_count r, w')

  -- `DeleteRows`
  pub delete_rows : String → P → Action W (Option ℕ)
  unfolding transact first_count
  delete_rows table body w =
      let (r, w') = transact (record { op = delete; table = table; body = body } ∷ []) w in
      (first_count r, w')

  -- `SelectRows`
  pub select_rows : String → P → Action W (Option (List V × ℕ))
  unfolding transact rows_of
  select_rows table body w =
      let (r, w') = transact (record { op = select_op; table = table; body = body } ∷ []) w in
      (rows_of r, w')
