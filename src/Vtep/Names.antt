-- ===== src/Vtep/Names.antt =====
-- The names of networks and ports in go_vtep/commonapi.go. A VNI, a VLAN tag or a tunnel key is not
-- negative.
pub mod Strip
pub mod RoundTrip
use govtep.Base.{
  ℕ, suc, ◌-◌, ◌&&◌, none, some, List, [], ◌∷◌, ◌++◌, ◌==◌, if◌then◌else◌, Str, str, length, drop,
  take, Error, errorf,
}
use govtep.Golang.Decimal.{itoa}

-- The type of a logical network: `DatapathTypeLS`, `DatapathTypeLR` or another string.
pub data DatapathType : Type 0 where
  logical_switch logical_router other_datapath : DatapathType

-- `getBdNameByVni`
unfoldable pub bd_name_by_vni : ℕ → Str
unfolding itoa
bd_name_by_vni vni = str "Bd" ++ itoa vni

-- `getVrfNameByVni`
unfoldable pub vrf_name_by_vni : ℕ → Str
unfolding itoa
vrf_name_by_vni vni = str "Vrf" ++ itoa vni

-- `getVnetName`
vnet_name : DatapathType → ℕ → Str × Error
unfolding bd_name_by_vni vrf_name_by_vni
vnet_name logical_switch vni = (bd_name_by_vni vni, none)
vnet_name logical_router vni = (vrf_name_by_vni vni, none)
vnet_name other_datapath vni = ([], some (errorf "Invalid Logical network type"))

-- `getSubportName`
unfoldable pub subport_name : Str → List ℕ → Str
unfolding itoa
subport_name parent [] = parent
subport_name parent (outer ∷ []) = parent ++ (str "." ++ itoa outer)
subport_name parent (outer ∷ inner ∷ []) =
    parent ++ (str "." ++ (itoa outer ++ (str "." ++ itoa inner)))
subport_name parent _ = []

-- `getVethportName`
unfoldable pub vethport_name : ℕ → ℕ → Str
unfolding itoa
vethport_name vnet port = str "veth" ++ (itoa vnet ++ (str "-" ++ itoa port))

-- How many spaces a string begins with.
leading_spaces : Str → ℕ
leading_spaces [] = 0
leading_spaces (c ∷ s) = let rest = leading_spaces s in if c == 32 then suc rest else 0

-- How many spaces a string ends with: the loop from the last byte down to the first other byte.
trailing_spaces : Str → ℕ
trailing_spaces [] = 0
trailing_spaces (c ∷ s) =
    let rest = trailing_spaces s in if rest == length s && c == 32 then suc rest else rest

-- `strList[:count-spaceCount]`
cut_trailing : Str → Str
unfolding trailing_spaces
cut_trailing s = take (length s - trailing_spaces s) s

-- `deletePreAndSufSpace`
pub delete_pre_and_suf_space : Str → Str
unfolding leading_spaces cut_trailing
delete_pre_and_suf_space s = cut_trailing (drop (leading_spaces s) s)
