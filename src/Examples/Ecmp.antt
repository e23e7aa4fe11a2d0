-- ===== src/Examples/Ecmp.antt =====
-- The identifiers of driver/uninos/unos_pbr.go at small pools.
-- Group 1 is in the database, and nothing is in the pool.
use govtep.Base.{ℕ, ◌≤◌, ◌<◌, ◌≡◌, refl, ◌≢◌, ◌⊎◌, Bool, true, none, arith, ◌==◌}
use govtep.Uninos.Pbr.Ecmp.Release.{release_ecmp_group_id-get_ecmp_group_id}
use govtep.Uninos.Pbr.Ecmp.{Pool, store, in_use, get_ecmp_group_id, release_ecmp_group_id}
use govtep.Uninos.Pbr.Ecmp.Allocation.{
  IsFree, AllHeld, get_ecmp_group_id_free, get_ecmp_group_id_full,
}

abbrev one_group : ℕ → Bool
one_group i = i == 1

abbrev no_ids : Pool
no_ids i = none

below_two : (k : ℕ) → 1 ≤ k → k < 2 → ¬ IsFree one_group no_ids k
below_two k a b free = absurd (ground (arith, free.1))

two-IsFree : IsFree one_group no_ids 2
unfolding in_use
two-IsFree = (refl, refl)

get_ecmp_group_id_free_example : get_ecmp_group_id one_group no_ids ≡ ((2, none), store no_ids 2 1)
get_ecmp_group_id_free_example =
    get_ecmp_group_id_free one_group no_ids 2 (omega arith) (omega arith) two-IsFree below_two

-- Every group is in the database: the last identifier is handed out although it is taken.
abbrev all_groups : ℕ → Bool
all_groups i = true

none-IsFree : (k : ℕ) → 1 ≤ k → k < 513 → ¬ IsFree all_groups no_ids k
none-IsFree k a b free = cc (free.1)

get_ecmp_group_id_full_example :
    (AllHeld no_ids 1 513 × ((get_ecmp_group_id all_groups no_ids).0.1 ≢ none))
    ⊎ ((id : ℕ) × (1 ≤ id)
        × (id ≤ 512)
        × (all_groups id ≡ true)
        × (get_ecmp_group_id all_groups no_ids ≡ ((id, none), no_ids)))
get_ecmp_group_id_full_example = get_ecmp_group_id_full all_groups no_ids none-IsFree

release_ecmp_group_id-get_ecmp_group_id_example :
    (in_use (release_ecmp_group_id 2 (get_ecmp_group_id one_group no_ids).1 2) ≡ in_use (no_ids 2))
    × ((get_ecmp_group_id one_group
          (release_ecmp_group_id 2 (get_ecmp_group_id one_group no_ids).1)).0
        ≡ (2, none))
release_ecmp_group_id-get_ecmp_group_id_example =
    release_ecmp_group_id-get_ecmp_group_id one_group no_ids 2 2 (omega arith) (omega arith)
      two-IsFree below_two
