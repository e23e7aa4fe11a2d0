-- ===== src/Vtep/Names/RoundTrip.antt =====
-- The names that go_vtep makes against the VNIs that the driver reads from them.
use govtep.Base.{ℕ, ◌≤◌, ◌≡◌, refl, sym, ap, ◌∙◌, ◌≢◌, some, [], ◌∷◌, ◌++◌, arith, Str, str}
use govtep.Golang.Int.{pos}
use govtep.Golang.Decimal.{itoa, max_int, atoi, atoi-itoa}
use govtep.Vtep.Names.{bd_name_by_vni, vrf_name_by_vni}
use govtep.Uninos.Names.{vni_or_zero, vni_by_bd_name, vni_by_vrf_name}

bd_vni : (s : Str) → vni_by_bd_name (str "Bd" ++ s) ≡ some (vni_or_zero (atoi s))
unfolding vni_by_bd_name
bd_vni s = ground arith

vrf_vni : (s : Str) → vni_by_vrf_name (str "Vrf" ++ s) ≡ some (vni_or_zero (atoi s))
unfolding vni_by_vrf_name
vrf_vni s = ground arith

bd_name_form : (vni : ℕ) → bd_name_by_vni vni ≡ str "Bd" ++ itoa vni
unfolding bd_name_by_vni
bd_name_form vni = refl

vrf_name_form : (vni : ℕ) → vrf_name_by_vni vni ≡ str "Vrf" ++ itoa vni
unfolding vrf_name_by_vni
vrf_name_form vni = refl

read_back : (vni : ℕ) → vni ≤ max_int → vni_or_zero (atoi (itoa vni)) ≡ pos vni
unfolding vni_or_zero
read_back vni h = ap vni_or_zero (atoi-itoa vni h)

first_byte : Str → ℕ
first_byte [] = 0
first_byte (c ∷ s) = c

names_apart : (s t : Str) → str "Bd" ++ s ≢ str "Vrf" ++ t
unfolding first_byte
names_apart s t e = omega (arith, ap first_byte e)

-- From the name of a bridge or a VRF the driver reads the VNI of which the name was made, for every
-- VNI up to the largest `int`, and no bridge has the name of a VRF.
pub vni_by_name_lem :
    (vni other : ℕ)
    → vni ≤ max_int
    → (vni_by_bd_name (bd_name_by_vni vni) ≡ some (pos vni))
      × (vni_by_vrf_name (vrf_name_by_vni vni) ≡ some (pos vni))
      × (bd_name_by_vni vni ≢ vrf_name_by_vni other)
vni_by_name_lem vni other h = (
  ap vni_by_bd_name (bd_name_form vni) ∙ bd_vni (itoa vni) ∙ ap some (read_back vni h),
  ap vni_by_vrf_name (vrf_name_form vni) ∙ vrf_vni (itoa vni) ∙ ap some (read_back vni h),
  λ e. names_apart (itoa vni) (itoa other) (sym (bd_name_form vni) ∙ e ∙ vrf_name_form other),
)
