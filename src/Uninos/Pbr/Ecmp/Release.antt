-- ===== src/Uninos/Pbr/Ecmp/Release.antt =====
-- What a release gives back.
use govtep.Base.{ℕ, ◌≤◌, ◌<◌, ◌≡◌, sym, ap, subst, ◌∙◌, Bool, false, none, arith, ==_iff, ==_refl}
use govtep.Uninos.Pbr.Ecmp.{
  Pool, store, ecmp_group_id_min, ecmp_group_id_max, in_use, get_ecmp_group_id,
  release_ecmp_group_id,
}
use govtep.Uninos.Pbr.Ecmp.Allocation.{IsFree, get_ecmp_group_id_free}

-- Two pools hold the same identifiers.
abbrev pub SameHeld : Pool → Pool → Type 0
SameHeld p q = (k : ℕ) → in_use (p k) ≡ in_use (q k)

-- An identifier that is marked and released again is free, and no other has changed.
pub release-store :
    (pool : Pool) (id : ℕ)
    → in_use (pool id) ≡ false
    → SameHeld (release_ecmp_group_id id (store pool id 1)) pool
unfolding release_ecmp_group_id store in_use
release-store pool id free k = ground (arith, ==_refl id, ==_iff id k)

-- Releasing the identifier of an allocation, the least free one, gives back a pool that holds the
-- same identifiers as before the allocation, and the next allocation returns the identifier again.
pub release_ecmp_group_id-get_ecmp_group_id :
    (exists_in_db : ℕ → Bool) (pool : Pool) (j k : ℕ)
    → ecmp_group_id_min ≤ j
    → j ≤ ecmp_group_id_max
    → IsFree exists_in_db pool j
    → ((k : ℕ) → ecmp_group_id_min ≤ k → k < j → ¬ IsFree exists_in_db pool k)
    → let released : Pool = release_ecmp_group_id j (get_ecmp_group_id exists_in_db pool).1 in
      (in_use (released k) ≡ in_use (pool k))
      × ((get_ecmp_group_id exists_in_db released).0 ≡ (j, none))
release_ecmp_group_id-get_ecmp_group_id exists_in_db pool j k low high free below =
    let got = get_ecmp_group_id_free exists_in_db pool j low high free below in
    let same = release-store pool j free.0 in
    let again =
      get_ecmp_group_id_free exists_in_db (release_ecmp_group_id j (store pool j 1)) j low high
        (same j ∙ free.0, free.1) (λ i a b f. below i a b (sym (same i) ∙ f.0, f.1)) in
    subst
      (λ p.
        (in_use (release_ecmp_group_id j p k) ≡ in_use (pool k))
        × ((get_ecmp_group_id exists_in_db (release_ecmp_group_id j p)).0 ≡ (j, none)))
      (sym (ap (λ r. r.1) got)) (same k, ap (λ r. r.0) again)
