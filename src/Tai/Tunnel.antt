-- ===== src/Tai/Tunnel.antt =====
-- tai/tai_locator.go: the tunnel object of a locator's row, and the package variable
-- `LocalPhsicalSwitchTunnelName`, which the modules of bridges and VRFs read. Logging is left out.
pub mod Local
use govtep.Base.{
  Bool, false, Option, none, some, List, [], ◌∷◌, ◌++◌, ltb, if◌then◌else◌, Str, str, length, take,
}
use govtep.Golang.Int.{ℤ}

-- The columns of a converted locator that are read; `M` is the type of router MAC maps.
pub record LocatorRow (M : Type 0) : Type 0 where
  pub chassis_name : Str
  pub type : Str
  pub ipaddr : List Str
  pub local_locator : Bool
  pub tunnel_key : ℤ
  pub rmac_map : M

pub record TunnelObj : Type 0 where
  pub name : Str
  pub type : Str
  pub ipaddr : Str
  pub anycast : Bool

-- The attributes `TunnelAttrTunnelKey`, `TunnelAttrIpaddr` and `TunnelAttrRmacMap`, as far as they
-- are there.
pub record TunnelAttrs (M : Type 0) : Type 0 where
  pub tunnel_key : Option ℤ
  pub ipaddr : Option Str
  pub rmac_map : Option M

-- `getTunnelName`
unfoldable pub tunnel_name : Str → Str
tunnel_name chassis =
    str "vxlan-" ++ (str "vtep-" ++ (if ltb 6 (length chassis) then take 6 chassis else chassis))

-- `err == nil && tablePS.GatewayGroup`, for the physical switch of the chassis, if there is one.
anycast_of : Option Bool → Bool
anycast_of none = false
anycast_of (some gateway_group) = gateway_group

one_ip :
    {M : Type 0}
    → LocatorRow M
    → Option Bool
    → List Str
    → Str
    → Option (TunnelObj × TunnelAttrs M) × Str
unfolding tunnel_name anycast_of
one_ip row group (ip ∷ []) local_name =
    let obj : TunnelObj = record {
      name = tunnel_name row.chassis_name;
      type = row.type;
      ipaddr = ip;
      anycast = anycast_of group;
    } in
    (
      some (
        obj,
        record { tunnel_key = some row.tunnel_key; ipaddr = none; rmac_map = some row.rmac_map },
      ),
      tunnel_name row.chassis_name,
    )
one_ip row group _ local_name = (none, local_name)

-- `rowToTunnelObj`, with `LocalPhsicalSwitchTunnelName` before and after; `group` is whether the
-- physical switch of the chassis is a gateway group.
unfoldable pub row_to_tunnel_obj :
    {M : Type 0} → LocatorRow M → Option Bool → Str → Option (TunnelObj × TunnelAttrs M) × Str
unfolding one_ip
row_to_tunnel_obj row group local_name =
    if row.local_locator then one_ip row group row.ipaddr local_name else (none, local_name)
