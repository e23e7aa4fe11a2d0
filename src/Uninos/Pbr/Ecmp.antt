-- ===== src/Uninos/Pbr/Ecmp.antt =====
-- `getEcmpGroupID` and `releaseEcmpGroupID`, over the package variable `ecmpGroupIDPool`.
pub mod Allocation
pub mod Release
use govtep.Base.{
  ℕ, zero, suc, Bool, false, not, ◌||◌, Option, none, some, ltb, ◌==◌, if◌then◌else◌, Error, errorf,
}

-- `map[int]int`; the program stores 0 (free again) and 1 (in use).
abbrev pub Pool : Type 0
Pool = ℕ → Option ℕ

-- `ecmpGroupIDPool` at the start of the program.
pub empty_pool : Pool
empty_pool i = none

unfoldable pub store : Pool → ℕ → ℕ → Pool
store pool i v j = if i == j then some v else pool j

-- `EcmpGroupIDMin` and `EcmpGroupIDMax`, from cmd/odbgen/schema/configdb.ovsschema
abbrev pub ecmp_group_id_min : ℕ
ecmp_group_id_min = 1

abbrev pub ecmp_group_id_max : ℕ
ecmp_group_id_max = 512

-- Whether the pool says that an identifier is in use.
unfoldable pub in_use : Option ℕ → Bool
in_use none = false
in_use (some n) = not (n == 0)

-- `for i := 1; i <= EcmpGroupIDMax; i++` from `i`, with `n` rounds left; `id` is `ecmpGroupID`, and
-- `exists_in_db` whether `EcmpGroupGetByIndex` finds a group.
search_id : (ℕ → Bool) → Pool → ℕ → ℕ → ℕ → ℕ × Pool
unfolding in_use store
search_id exists_in_db pool zero i id = (id, pool)
search_id exists_in_db pool (suc n) i id =
    let skip = search_id exists_in_db pool n (suc i) id in
    let tried = search_id exists_in_db pool n (suc i) i in
    if in_use (pool i) then skip else if exists_in_db i then tried else (i, store pool i 1)

check_id : ℕ × Pool → (ℕ × Error) × Pool
check_id (id, pool) =
    if ltb id ecmp_group_id_min || ltb ecmp_group_id_max id
    then ((id, some (errorf "No invalid ECMP Group ID")), pool)
    else ((id, none), pool)

-- `getEcmpGroupID`
unfoldable pub get_ecmp_group_id : (ℕ → Bool) → Pool → (ℕ × Error) × Pool
unfolding search_id check_id
get_ecmp_group_id exists_in_db pool = check_id (search_id exists_in_db pool ecmp_group_id_max 1 0)

release_id : Option ℕ → ℕ → Pool → Pool
unfolding store
release_id none id pool = pool
release_id (some _) id pool = store pool id 0

-- `releaseEcmpGroupID`
unfoldable pub release_ecmp_group_id : ℕ → Pool → Pool
unfolding release_id
release_ecmp_group_id id pool = release_id (pool id) id pool
