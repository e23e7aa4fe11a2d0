-- ===== src/Uninos/Names.antt =====
-- The VNIs that driver/uninos reads from the names of bridges (unos_bridge.go) and VRFs
-- (unos_vrf.go).
use govtep.Base.{Option, none, some, ltb, if◌then◌else◌, Str, length, drop}
use govtep.Golang.Int.{ℤ, pos}
use govtep.Golang.Decimal.{Parsed, atoi, parsed, failed}

-- 0 in place of an error of `Atoi`
unfoldable pub vni_or_zero : Parsed → ℤ
vni_or_zero (parsed z) = z
vni_or_zero (failed z) = pos 0

-- `getVniByBdName`; `none` is the panic of `bdName[2:]` on a shorter name.
unfoldable pub vni_by_bd_name : Str → Option ℤ
unfolding vni_or_zero atoi
vni_by_bd_name name = if ltb (length name) 2 then none else some (vni_or_zero (atoi (drop 2 name)))

-- `getVniByVrfName`; `none` is the panic of `vrfName[3:]` on a shorter name.
unfoldable pub vni_by_vrf_name : Str → Option ℤ
unfolding vni_or_zero atoi
vni_by_vrf_name name = if ltb (length name) 3 then none else some (vni_or_zero (atoi (drop 3 name)))
