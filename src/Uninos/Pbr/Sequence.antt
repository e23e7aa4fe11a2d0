-- ===== src/Uninos/Pbr/Sequence.antt =====
-- `getSequenceFromPBR` and `externalIPProcess`: the priority of the ACL rule of a policy based
-- route, and the counting of the routes that share an external address.
pub mod Slots
pub mod Gateway
use govtep.Base.{
  ℕ, zero, suc, Bool, false, ◌||◌, Option, none, some, List, [], ◌∷◌, ◌++◌, ◌==◌, if◌then◌else◌,
  Str, str, str_eq, Error, errorf,
}
use govtep.Golang.Int.{ℤ, plus, minus_one, is_nat, at_most, pos}
use govtep.Golang.Decimal.{itoa}
use govtep.Golang.Text.{contains, before}
use govtep.Uninos.Databases.{
  ExternalIpIndex, TableExternalIp, TableAutoGatewayConf, Vtepdb, TableInterface, Configdb,
}

-- The `type` of a policy based route: the strings of the schema, and any other.
pub data PbrType : Type 0 where
  lb dnat_and_snat dnat snat other_type : PbrType

pub data Protocol : Type 0 where
  tcp udp sctp ignore other_protocol : Protocol

-- tai.PBRObj
pub record PbrObj : Type 0 where
  pub type : PbrType
  pub vrf : Str
  pub ip : Str
  pub port : ℕ
  pub protocol : Protocol

pub data EipOp : Type 0 where
  no_eip_op eip_op_add eip_op_del : EipOp

abbrev sequence_lb_offset : ℕ
sequence_lb_offset = 0

abbrev sequence_lb_no_port_offset : ℕ
sequence_lb_no_port_offset = 4000

abbrev sequence_dnat_offset : ℕ
sequence_dnat_offset = 8000

abbrev sequence_snat_offset : ℕ
sequence_snat_offset = 12000

-- The last switch of `getSequenceFromPBR`.
unfoldable pub offset : PbrType → ℕ → ℕ
offset lb port = if port == 0 then sequence_lb_no_port_offset else sequence_lb_offset
offset dnat_and_snat port = sequence_dnat_offset
offset dnat port = sequence_dnat_offset
offset snat port = sequence_snat_offset
offset other_type port = 0

pub ext_ip_index : PbrObj → ExternalIpIndex
ext_ip_index pbr = record {
  ip = if pbr.port == 0 then pbr.ip else pbr.ip ++ str ":" ++ itoa pbr.port;
  vrf = pbr.vrf;
}

-- The address of a row, without its port: `strings.Split(ip, ":")[0]`, or all of it.
unfoldable pub eip_address : Str → Str
unfolding before contains
eip_address ip = if contains ip (str ":") then before b':' ip else ip

-- `for _, row := range rows { … eipExist = true; break }`
eip_exists : Str → List TableExternalIp → Bool
unfolding eip_address
eip_exists ip [] = false
eip_exists ip (row ∷ rows) = str_eq (eip_address row.ip) ip || eip_exists ip rows

pub sequence_used : ℕ → List TableExternalIp → Bool
sequence_used i [] = false
sequence_used i (row ∷ rows) = is_nat row.sequence i || sequence_used i rows

-- `for i := 1; i <= 4000; i++` from `i`, with `n` rounds left: the first number that no row has.
pub unused_sequence : ℕ → ℕ → List TableExternalIp → Option ℕ
unfolding sequence_used
unused_sequence zero i rows = none
unused_sequence (suc n) i rows =
    let rest = unused_sequence n (suc i) rows in if sequence_used i rows then rest else some i

module _ {W : Type 0} (vtepdb : Vtepdb W) (cdb : Configdb W) where
  -- The write to the sub-interface; its error is assigned to a variable that shadows the result.
  change_eip : Option TableInterface → Str → Str → EipOp → W → Error × W
  change_eip none name eip op w = (some (errorf "Sub interface %s not found"), w)
  change_eip (some _) name eip eip_op_add w =
      (none, (cdb.interface_update_ip_addvalue name ((eip ++ str "/32") ∷ []) w).1)
  change_eip (some _) name eip eip_op_del w =
      (none, (cdb.interface_update_ip_delvalue name ((eip ++ str "/32") ∷ []) w).1)
  change_eip (some _) name eip no_eip_op w = (none, w)

  process_eip : Option TableAutoGatewayConf → Str → EipOp → W → Error × W
  unfolding change_eip contains
  process_eip none eip op w = (some (errorf "Gateway port for vrf %s not found"), w)
  process_eip (some gateway) eip op w =
      let name = gateway.physical_port ++ str "." ++ itoa gateway.vlan in
      if contains gateway.ip eip
      then (none, w)
      else change_eip (cdb.interface_get_by_index w name) name eip op w

  -- `externalIPProcess`
  unfoldable pub external_ip_process : Str → Str → EipOp → W → Error × W
  unfolding process_eip
  external_ip_process eip vrf op w =
      process_eip (vtepdb.auto_gateway_conf_get_by_index w vrf) eip op w

  -- The row of a new external address, once it is in the table.
  add_eip : PbrObj → TableExternalIp → Error × W → Option TableExternalIp × W
  unfolding external_ip_process ext_ip_index
  add_eip pbr table (some e, w) = (none, w)
  add_eip pbr table (none, w) =
      let w1 = (vtepdb.external_ip_set_ref_count (ext_ip_index pbr) (pos 1) w).1 in
      (some table, (external_ip_process pbr.ip table.vrf eip_op_add w1).1)

  -- The last reference to an external address is gone.
  drop_eip : PbrObj → TableExternalIp → W → W
  unfolding eip_exists external_ip_process
  drop_eip pbr table w =
      let w1 = (vtepdb.vrf_update_external_ips_delvalue pbr.vrf table.uuid w).1 in
      if eip_exists pbr.ip (vtepdb.external_ip_get w1 table.vrf)
      then w1
      else (external_ip_process pbr.ip table.vrf eip_op_del w1).1

  -- The first half of `getSequenceFromPBR`: the row to number, or `none` where it returns an error.
  locate_eip : PbrObj → EipOp → Option TableExternalIp → W → Option TableExternalIp × W
  unfolding add_eip drop_eip ext_ip_index
  locate_eip pbr eip_op_add none w =
      let index = ext_ip_index pbr in
      let table : TableExternalIp = record {
        uuid = [];
        ip = index.ip;
        vrf = index.vrf;
        sequence = pos 0;
        ref_count = pos 0;
      } in
      add_eip pbr table (vtepdb.vrf_update_add_external_ips pbr.vrf table w)
  locate_eip pbr _ none w = (none, w)
  locate_eip pbr eip_op_add (some table) w = (
    some table,
    (vtepdb.external_ip_set_ref_count (ext_ip_index pbr) (plus table.ref_count 1) w).1,
  )
  locate_eip pbr eip_op_del (some table) w =
      let w1 =
        (vtepdb.external_ip_set_ref_count (ext_ip_index pbr) (minus_one table.ref_count) w).1 in
      (some table, if at_most table.ref_count 1 then drop_eip pbr table w1 else w1)
  locate_eip pbr no_eip_op (some table) w = (some table, w)

  -- `if 0 == tableExtIP.Sequence { … }`: the sequence afterwards.
  save_sequence : PbrObj → Option ℕ → W → ℤ × W
  unfolding ext_ip_index
  save_sequence pbr none w = (pos 0, w)
  save_sequence pbr (some i) w =
      (pos i, (vtepdb.external_ip_set_sequence (ext_ip_index pbr) (pos i) w).1)

  pub number_eip : PbrObj → TableExternalIp → W → ℤ × W
  unfolding save_sequence
  number_eip pbr table w =
      if is_nat table.sequence 0
      then save_sequence pbr (unused_sequence 4000 1 (vtepdb.external_ip_get w table.vrf)) w
      else (table.sequence, w)

  finish_sequence : PbrObj → Option TableExternalIp × W → Option ℤ × W
  unfolding number_eip offset
  finish_sequence pbr (none, w) = (none, w)
  finish_sequence pbr (some table, w) =
      let (sequence, w1) = number_eip pbr table w in
      (some (plus sequence (offset pbr.type pbr.port)), w1)

  -- `getSequenceFromPBR`; `none` is one of its two errors.
  unfoldable pub get_sequence_from_pbr : PbrObj → EipOp → W → Option ℤ × W
  unfolding locate_eip finish_sequence ext_ip_index
  get_sequence_from_pbr pbr op w =
      finish_sequence pbr
        (locate_eip pbr op (vtepdb.external_ip_get_by_index w (ext_ip_index pbr)) w)
