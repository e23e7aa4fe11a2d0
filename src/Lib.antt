-- ===== src/Lib.antt =====
-- A verification library for govtep, the controller of a VXLAN gateway switch. The program follows the
-- OVN databases (go_vtep/), keeps a VTEP database, follows that in turn (tai/), turns its rows into
-- objects of a switch abstraction interface, and hands these to the driver that is registered
-- (driver/uninos/), which writes the switch's configuration database. All databases are OVSDB
-- servers, reached through lib/ovsdb_client.
--
-- Which file is about which code:
--   Base        the shared tests, lists, errors and state; Go's loop over a slice is `for_each`
--   Golang      Go's int, strconv.Itoa, Atoi and FormatInt, strings.Contains and Split, and
--               net.ParseIP, ParseCIDR and ParseMAC
--   Ovsdb       lib/ovsdb_client: Rows is common.go (Float64ToInt, RowUpdateOptimize,
--               GetRowUpdateOp), Client is client.go (Transact, UpdateRows, MutateRows, DeleteRows,
--               SelectRows)
--   Tai         tai/tai.go and tai/tai_common.go: Object has the identifiers and their tables,
--               Registry the drivers (RegisterTaiDriverHandler, UnRegisterTaiDriverHandler,
--               activeTaiDriver), Attrs and Handler one row's update (taiCreateObj, taiRemoveObj,
--               taiUpdateObj), Initial the updates of tables (taiProcessInitial, taiNotifyUpdate);
--               Tunnel is rowToTunnelObj of tai/tai_locator.go, Rows the conversions of rows in
--               the other files
--   Uninos      driver/uninos: Pbr is unos_pbr.go, with Ecmp for the group identifiers
--               (getEcmpGroupID, releaseEcmpGroupID), Sequence for the rule numbers
--               (getSequenceFromPBR, externalIPProcess), Acl for the ACL of a VRF (pbrAclCreate,
--               pbrUpdateGateway) and Route for the driver's operations (CreateObject,
--               RemoveObject, AddObjectAttr, SetObjectAttr); Names and Networks are
--               unos_bridge.go and unos_vrf.go, Dispatch unos_driver_init.go and unos_tai.go;
--               Forwarding is unos_fdb.go, unos_neighbour.go and unos_tunnel.go, Ports unos_l2port.go
--               and unos_l3port.go, StaticRoute unos_route.go, AclObjects unos_acl.go and
--               unos_acl_rule.go, Gateway unos_auto_gateway_conf.go
--   Vtep        go_vtep: Diff the comparison of old and new lists, PolicyRoute is
--               policy_based_route.go, Backends and LoadBalancer are load_balancer.go, Nat is nat.go,
--               Locator locator.go, Vnet vnet.go, Names has the names of commonapi.go, and Databases
--               getVrfFromLR of logical_router.go; Acl is acl.go, with Match for strParseToACLField and
--               Rule for the rule of a match; Switches is physical_switch.go, LogicalRouter
--               logical_router.go, Notify the updates of vtep.go, and ProcessAll vnetProcessAll of
--               vnet.go; Ports is port.go with route.go, fdb.go, neighbour.go,
--               l2port.go, l3port.go and the lookups and addresses of commonapi.go (its comment lists
--               the files)
--   Examples    concrete databases and drivers, at which the theorems apply
--
-- State. A handler is a function from the state of the world to the world it leaves, with its result.
-- The world is a parameter: the table functions that cmd/odbgen generates are records (Databases) of
-- reads of the world and of writes that return an error and the new world. What a theorem relies on
-- of them is a hypothesis under a name, such as NhGroupLaws. The package variables ecmpGroupIDPool,
-- GatewayInitDone, portInfoMap and portType go along with the world. A mutex that is held for a whole
-- call makes the call one step.
--
-- Values. A Go string is a list of bytes where its text matters, and a native string where it is a
-- name of the schema. An int is an integer without bounds; the numbers that are computed here stay
-- below 2 ^ 63 when those of the database do. A Go map is a list of entries, and a loop over a map
-- goes through the list; where the order matters a theorem names it. An error keeps its format string
-- only, and log output is left out. A panic of an index or a slice out of range is `none`.
--
-- Bounds. The searches for a group identifier and for a rule number are recursions on the number of
-- rounds that are left, 512 and 4000, the bounds of the loops themselves. Itoa has as fuel the number
-- it prints and one more, which is more than it has digits; FormatInt to base 2 has 64 rounds, the
-- digits of a 64-bit number. The loop of ParseIP over the groups of an IPv6 address has 8 rounds of two
-- bytes each, as its counter of 16 bytes allows.
--
-- Not modelled: connections, monitoring and the configuration of both in the table Global; the
-- conversion of ACL rows in tai/ (all conversions are parameters of Tai.Handler); GetObjectAttr of
-- driver/uninos/. The files of cmd/ generate code or start processes.
pub mod Base
pub mod Examples
pub mod Golang
pub mod Ovsdb
pub mod Tai
pub mod Uninos
pub mod Vtep
