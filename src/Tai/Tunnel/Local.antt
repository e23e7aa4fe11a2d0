-- ===== src/Tai/Tunnel/Local.antt =====
-- Which locators have a tunnel, and what it is called.
use govtep.Base.{
  ℕ, zero, suc, ◌≤◌, ◌≡◌, refl, ap, ◌≢◌, ◌⊎◌, inl, inr, Bool, true, Option, none, some, List, [],
  ◌∷◌, arith, Bool-cases, Str, length, take,
}
use govtep.Tai.Tunnel.{
  LocatorRow, TunnelObj, TunnelAttrs, tunnel_name, anycast_of, one_ip, row_to_tunnel_obj,
}

length-take : (n : ℕ) (s : Str) → length (take n s) ≤ n
length-take zero s = omega arith
length-take (suc n) [] = omega arith
length-take (suc n) (c ∷ s) = omega (arith, length-take n s)

tunnel_name_bound : (s : Str) → length (tunnel_name s) ≤ 17
unfolding tunnel_name
tunnel_name_bound s = ground (arith, length-take 6 s)

-- The row of a locator has a tunnel exactly if the locator is local and has exactly one address.
pub HasTunnel : {M : Type 0} → LocatorRow M → Type 0
HasTunnel row = (row.local_locator ≡ true) × (length row.ipaddr ≡ 1)

one_ip_cases :
    {M : Type 0} (row : LocatorRow M) (group : Option Bool) (ips : List Str) (local_name : Str)
    → ((ip : Str) × (ips ≡ ip ∷ []))
      ⊎ ((length ips ≢ 1) × (one_ip row group ips local_name ≡ (none, local_name)))
unfolding one_ip
one_ip_cases row group [] local_name = inr (λ e. omega (arith, e), refl)
one_ip_cases row group (ip ∷ []) local_name = inl (ip, refl)
one_ip_cases row group (ip ∷ second ∷ ips) local_name = inr (λ e. omega (arith, e), refl)

-- A local locator with exactly one address has a tunnel object with that address, whose name has at
-- most 17 bytes and is then the name of the local tunnel. Any other locator has none, and leaves the
-- name of the local tunnel as it was.
pub row_to_tunnel_obj_lem :
    {M : Type 0} (row : LocatorRow M) (group : Option Bool) (local_name : Str)
    → ((obj : TunnelObj) × (attrs : TunnelAttrs M) × HasTunnel row
        × (row.ipaddr ≡ obj.ipaddr ∷ [])
        × (length obj.name ≤ 17)
        × (row_to_tunnel_obj row group local_name ≡ (some (obj, attrs), obj.name)))
      ⊎ ((¬ HasTunnel row) × (row_to_tunnel_obj row group local_name ≡ (none, local_name)))
unfolding row_to_tunnel_obj HasTunnel one_ip
row_to_tunnel_obj_lem row group local_name = elim (Bool-cases row.local_locator) [
  | inl local ↦ elim (one_ip_cases row group row.ipaddr local_name) [
    | inl (ip, one) ↦
        let obj : TunnelObj = record {
          name = tunnel_name row.chassis_name;
          type = row.type;
          ipaddr = ip;
          anycast = anycast_of group;
        } in
        inl (
          obj,
          record { tunnel_key = some row.tunnel_key; ipaddr = none; rmac_map = some row.rmac_map },
          (local, ap length one),
          one,
          tunnel_name_bound row.chassis_name,
          rw local (ap (λ ips. one_ip row group ips local_name) one),
        )
    | inr (more, nothing) ↦ inr (λ h. more h.1, rw local nothing)
  ]
  | inr remote ↦ inr (λ h. cc (h.0, remote), rw remote refl)
]
