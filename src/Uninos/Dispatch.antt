-- ===== src/Uninos/Dispatch.antt =====
-- driver/uninos/unos_driver_init.go and unos_tai.go: the driver that is registered, and its table of
-- modules by object. `O` is the type of objects, `V` of attribute values.
pub mod Supported
use govtep.Base.{String, Option, none, some, List, [], Error, Action, errorf}
use govtep.Ovsdb.Rows.{Fields}
use govtep.Tai.Object.{
  ObjId, bridge, vrf, l2_port, l3_port, fdb, neighbour, route, tunnel, mcast_fdb, acl, acl_rule,
  pbr, auto_gateway_conf,
}
use govtep.Tai.Registry.{TaiDriver, register_tai_driver_handler}
use govtep.Tai.Handler.{DriverHandler}

-- `moduleAPI`. An object is nil where an object's attributes are deleted and its row did not convert.
pub record ModuleApi (W O V : Type 0) : Type 0 where
  pub create : O → Action W Error
  pub remove : O → Action W Error
  pub add_attr : O → Fields V → Action W Error
  pub del_attr : Option O → Fields V → Action W Error
  pub set_attr : O → Fields V → Action W Error
  pub get_attr : O → List String → Action W (Fields V × Error)
  pub list : Action W (List O × Error)

-- The modules that `Init` puts into the table.
pub record ModuleApis (W O V : Type 0) : Type 0 where
  pub bridge_api : ModuleApi W O V
  pub vrf_api : ModuleApi W O V
  pub l2_port_api : ModuleApi W O V
  pub l3_port_api : ModuleApi W O V
  pub fdb_api : ModuleApi W O V
  pub neighbour_api : ModuleApi W O V
  pub route_api : ModuleApi W O V
  pub tunnel_api : ModuleApi W O V
  pub acl_api : ModuleApi W O V
  pub acl_rule_api : ModuleApi W O V
  pub pbr_api : ModuleApi W O V
  pub auto_gateway_conf_api : ModuleApi W O V

module _ {W O V : Type 0} (apis : ModuleApis W O V) where
  -- `unosDriverHandler.ModuleAPIs`
  unfoldable pub module_api : ObjId → Option (ModuleApi W O V)
  module_api bridge = some apis.bridge_api
  module_api vrf = some apis.vrf_api
  module_api l2_port = some apis.l2_port_api
  module_api l3_port = some apis.l3_port_api
  module_api fdb = some apis.fdb_api
  module_api neighbour = some apis.neighbour_api
  module_api route = some apis.route_api
  module_api tunnel = some apis.tunnel_api
  module_api acl = some apis.acl_api
  module_api acl_rule = some apis.acl_rule_api
  module_api pbr = some apis.pbr_api
  module_api auto_gateway_conf = some apis.auto_gateway_conf_api
  module_api mcast_fdb = none

  -- `if unosDriverHandler.ModuleAPIs[objID] == nil { return … }`
  supported : Option (ModuleApi W O V) → (ModuleApi W O V → Action W Error) → Action W Error
  supported none call w = (some (errorf "[Driver] unspported object %v"), w)
  supported (some api) call w = call api w

  attrs_if_supported : Option (ModuleApi W O V) → O → List String → Action W (Fields V × Error)
  attrs_if_supported none obj attrs w = (([], some (errorf "[Driver] unspported object %v")), w)
  attrs_if_supported (some api) obj attrs w = api.get_attr obj attrs w

  list_if_supported : Option (ModuleApi W O V) → Action W (List O × Error)
  list_if_supported none w = (([], some (errorf "[Driver] unspported object %v")), w)
  list_if_supported (some api) w = api.list w

  -- The methods of `unosDriver`.
  pub unos_driver : DriverHandler W O V
  unfolding module_api supported attrs_if_supported list_if_supported
  unos_driver = record {
    tai_create_object = λ id obj. supported (module_api id) (λ api. api.create obj);
    tai_remove_object = λ id obj. supported (module_api id) (λ api. api.remove obj);
    tai_add_object_attr = λ id obj attrs. supported (module_api id) (λ api. api.add_attr obj attrs);
    tai_del_object_attr = λ id obj attrs. supported (module_api id) (λ api. api.del_attr obj attrs);
    tai_set_object_attr = λ id obj attrs. supported (module_api id) (λ api. api.set_attr obj attrs);
    tai_get_object_attr = λ id obj attrs. attrs_if_supported (module_api id) obj attrs;
    tai_list_object = λ id. list_if_supported (module_api id);
  }

  -- The registration that `Init` makes.
  pub init_driver : TaiDriver (DriverHandler W O V) → TaiDriver (DriverHandler W O V)
  unfolding unos_driver
  init_driver tai = register_tai_driver_handler "UNOS" unos_driver tai
