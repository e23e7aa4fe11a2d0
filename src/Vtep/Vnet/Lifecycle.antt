-- ===== src/Vtep/Vnet/Lifecycle.antt =====
-- Which networks there are after a notification of a datapath.
use govtep.Base.{
  ◌≡◌, refl, sym, ap, ◌∙◌, Bool, true, false, not, ◌&&◌, ◌||◌, Option, none, some, ◌++◌,
  if◌then◌else◌, Str, str, str_eq, str_eq_iff, or_false, and_true, or_absorbs,
}
use govtep.Golang.Decimal.{itoa}
use govtep.Ovsdb.Rows.{Op, insert, mutate, delete, select_op, update, no_op}
use govtep.Vtep.Vnet.{
  TableDatapathBinding, NetworkRow, Vnetdb, bridge_domain_add, bridge_domain_del, vrf_add, vrf_del,
  by_router, by_switch, vnet_create, remove_router, remove_switch, vnet_remove,
  datapath_notify_update,
}
use govtep.Vtep.Names.{bd_name_by_vni, vrf_name_by_vni}

-- A server that takes the writes: which bridge domains and VRFs there are afterwards. A row of one
-- table is none of the other, and the configuration of a gateway is neither.
pub record NetworkLaws {W : Type 0} (db : Vnetdb W) : Type 0 where
  pub bridge_added :
      (row : NetworkRow) (n : Str) (w : W)
      → db.bridge_domain_exists (db.bridge_domain_add row w).1 n
        ≡ (db.bridge_domain_exists w n || str_eq n row.name)
  pub bridge_removed :
      (name n : Str) (w : W)
      → db.bridge_domain_exists (db.bridge_domain_del_by_index name w).1 n
        ≡ (db.bridge_domain_exists w n && not (str_eq n name))
  pub bridge_vrf_added :
      (row : NetworkRow) (n : Str) (w : W)
      → db.bridge_domain_exists (db.vrf_add_row row w).1 n ≡ db.bridge_domain_exists w n
  pub bridge_vrf_removed :
      (name n : Str) (w : W)
      → db.bridge_domain_exists (db.vrf_del_by_index name w).1 n ≡ db.bridge_domain_exists w n
  pub bridge_gateway :
      (name port vrf n : Str) (w : W)
      → db.bridge_domain_exists (db.vrf_update_add_gateway_conf name port vrf w).1 n
        ≡ db.bridge_domain_exists w n
  pub vrf_added :
      (row : NetworkRow) (n : Str) (w : W)
      → db.vrf_exists (db.vrf_add_row row w).1 n ≡ (db.vrf_exists w n || str_eq n row.name)
  pub vrf_removed :
      (name n : Str) (w : W)
      → db.vrf_exists (db.vrf_del_by_index name w).1 n ≡ (db.vrf_exists w n && not (str_eq n name))
  pub vrf_bridge_added :
      (row : NetworkRow) (n : Str) (w : W)
      → db.vrf_exists (db.bridge_domain_add row w).1 n ≡ db.vrf_exists w n
  pub vrf_bridge_removed :
      (name n : Str) (w : W)
      → db.vrf_exists (db.bridge_domain_del_by_index name w).1 n ≡ db.vrf_exists w n
  pub vrf_gateway :
      (name port vrf n : Str) (w : W)
      → db.vrf_exists (db.vrf_update_add_gateway_conf name port vrf w).1 n ≡ db.vrf_exists w n

is_named : Option Str → Bool
is_named none = false
is_named (some _) = true

-- A datapath is a switch if it has the name of a logical switch, and a router if it has that of a
-- logical router only.
unfoldable pub is_switch : TableDatapathBinding → Bool
unfolding is_named
is_switch dp = is_named dp.ls_name

unfoldable pub is_router : TableDatapathBinding → Bool
unfolding is_named
is_router dp = not (is_named dp.ls_name) && is_named dp.lr_name

-- Whether a network is there after an operation, if it was `before`, and if it is the one that the
-- operation is about.
unfoldable pub network_after : Op → Bool → Bool → Bool
network_after insert before meant = before || meant
network_after delete before meant = before && not meant
network_after _ before meant = before

module _ {W : Type 0} (db : Vnetdb W) (laws : NetworkLaws db) where
  -- What an operation on a bridge domain and a VRF leaves of the network with a name: whether the
  -- operation is about it as a bridge domain, and as a VRF.
  Changed : Op → Bool → Bool → Str → W → W → Type 0
  Changed op bridge vrf n w changed =
      (db.bridge_domain_exists changed n ≡ network_after op (db.bridge_domain_exists w n) bridge)
      × (db.vrf_exists changed n ≡ network_after op (db.vrf_exists w n) vrf)

  unchanged : (op : Op) (n : Str) (w : W) → Changed op false false n w w
  unfolding Changed network_after
  unchanged insert n w =
      (sym (or_false (db.bridge_domain_exists w n)), sym (or_false (db.vrf_exists w n)))
  unchanged delete n w =
      (sym (and_true (db.bridge_domain_exists w n)), sym (and_true (db.vrf_exists w n)))
  unchanged mutate n w = (refl, refl)
  unchanged select_op n w = (refl, refl)
  unchanged update n w = (refl, refl)
  unchanged no_op n w = (refl, refl)

  bridge_unless-Changed :
      (found : Bool) (row : NetworkRow) (n : Str) (w : W)
      → db.bridge_domain_exists w row.name ≡ found
      → Changed insert
          (str_eq n row.name)
          false
          n
          w
          (if found then (none, w) else db.bridge_domain_add row w).1
  unfolding Changed network_after
  bridge_unless-Changed true row n w e = (
    sym (
        or_absorbs (db.bridge_domain_exists w n) (str_eq n row.name)
          (λ h. ap (db.bridge_domain_exists w) ((str_eq_iff n row.name).0 h) ∙ e)),
    sym (or_false (db.vrf_exists w n)),
  )
  bridge_unless-Changed false row n w e = (
    laws.bridge_added row n w,
    laws.vrf_bridge_added row n w ∙ sym (or_false (db.vrf_exists w n)),
  )

  vrf_unless-Changed :
      (found : Bool) (row : NetworkRow) (port n : Str) (w : W)
      → db.vrf_exists w row.name ≡ found
      → Changed insert false
          (str_eq n row.name)
          n
          w
          (if found
            then (none, w)
            else db.vrf_update_add_gateway_conf row.name port row.name (db.vrf_add_row row w).1).1
  unfolding Changed network_after
  vrf_unless-Changed true row port n w e = (
    sym (or_false (db.bridge_domain_exists w n)),
    sym (
        or_absorbs (db.vrf_exists w n) (str_eq n row.name)
          (λ h. ap (db.vrf_exists w) ((str_eq_iff n row.name).0 h) ∙ e)),
  )
  vrf_unless-Changed false row port n w e =
      let w1 = (db.vrf_add_row row w).1 in
      (
        laws.bridge_gateway row.name port row.name n w1
            ∙ laws.bridge_vrf_added row n w
            ∙ sym (or_false (db.bridge_domain_exists w n)),
        laws.vrf_gateway row.name port row.name n w1 ∙ laws.vrf_added row n w,
      )

  bridge_name : TableDatapathBinding → Str
  bridge_name dp = str "Bd" ++ itoa dp.tunnel_key

  vrf_name : TableDatapathBinding → Str
  vrf_name dp = str "Vrf" ++ itoa dp.tunnel_key

  by_router-Changed :
      (o : Option Str) (dp : TableDatapathBinding) (n : Str) (w : W)
      → Changed insert false (is_named o && str_eq n (vrf_name dp)) n w (by_router db dp o w)
  unfolding by_router vrf_add vrf_name_by_vni is_named vrf_name
  by_router-Changed none dp n w = unchanged insert n w
  by_router-Changed (some lr) dp n w =
      let row : NetworkRow = record {
        name = vrf_name dp;
        vni = dp.tunnel_key;
        datapath = dp.dp_uuid;
        logical_name = lr;
      } in
      vrf_unless-Changed (db.vrf_exists w row.name) row (str "ep60") n w refl

  by_switch-Changed :
      (o : Option Str) (dp : TableDatapathBinding) (n : Str) (w : W)
      → Changed insert
          (is_named o && str_eq n (bridge_name dp))
          ((not (is_named o) && is_named dp.lr_name) && str_eq n (vrf_name dp))
          n
          w
          (by_switch db dp o w)
  unfolding by_switch bridge_domain_add bd_name_by_vni is_named bridge_name
  by_switch-Changed none dp n w = by_router-Changed dp.lr_name dp n w
  by_switch-Changed (some ls) dp n w =
      let row : NetworkRow = record {
        name = bridge_name dp;
        vni = dp.tunnel_key;
        datapath = dp.dp_uuid;
        logical_name = ls;
      } in
      bridge_unless-Changed (db.bridge_domain_exists w row.name) row n w refl

  remove_router-Changed :
      (o : Option Str) (dp : TableDatapathBinding) (n : Str) (w : W)
      → Changed delete false (is_named o && str_eq n (vrf_name dp)) n w (remove_router db dp o w)
  unfolding remove_router vrf_del vrf_name_by_vni is_named vrf_name Changed network_after
  remove_router-Changed none dp n w = unchanged delete n w
  remove_router-Changed (some lr) dp n w = (
    laws.bridge_vrf_removed (vrf_name dp) n w ∙ sym (and_true (db.bridge_domain_exists w n)),
    laws.vrf_removed (vrf_name dp) n w,
  )

  remove_switch-Changed :
      (o : Option Str) (dp : TableDatapathBinding) (n : Str) (w : W)
      → Changed delete
          (is_named o && str_eq n (bridge_name dp))
          ((not (is_named o) && is_named dp.lr_name) && str_eq n (vrf_name dp))
          n
          w
          (remove_switch db dp o w)
  unfolding remove_switch bridge_domain_del bd_name_by_vni is_named bridge_name Changed
      network_after
  remove_switch-Changed none dp n w = remove_router-Changed dp.lr_name dp n w
  remove_switch-Changed (some ls) dp n w = (
    laws.bridge_removed (bridge_name dp) n w,
    laws.vrf_bridge_removed (bridge_name dp) n w ∙ sym (and_true (db.vrf_exists w n)),
  )

  notified :
      (done : Bool) (op : Op) (dp : TableDatapathBinding) (n : Str) (w : W)
      → Changed op
          (done && (is_switch dp && str_eq n (bridge_name dp)))
          (done && (is_router dp && str_eq n (vrf_name dp)))
          n
          w
          (datapath_notify_update db done op dp w)
  unfolding datapath_notify_update vnet_create vnet_remove is_switch is_router Changed network_after
  notified false op dp n w = unchanged op n w
  notified true insert dp n w = by_switch-Changed dp.ls_name dp n w
  notified true delete dp n w = remove_switch-Changed dp.ls_name dp n w
  notified true mutate dp n w = (refl, refl)
  notified true select_op dp n w = (refl, refl)
  notified true update dp n w = (refl, refl)
  notified true no_op dp n w = (refl, refl)

  -- Where a server takes the writes, a notification of a datapath while the gateway is initialised
  -- adds or removes the bridge domain with its VNI if the datapath is a switch, and the VRF with its
  -- VNI if it is a router, whether the network is there already or not; all other networks stay, and
  -- nothing is added or removed before the gateway is initialised, nor by an operation other than an
  -- insertion or a deletion.
  pub datapath_notify_update_lem :
      (done : Bool) (op : Op) (dp : TableDatapathBinding) (n : Str) (w : W)
      → (db.bridge_domain_exists (datapath_notify_update db done op dp w) n
          ≡ network_after op
              (db.bridge_domain_exists w n)
              (done && (is_switch dp && str_eq n (str "Bd" ++ itoa dp.tunnel_key))))
        × (db.vrf_exists (datapath_notify_update db done op dp w) n
            ≡ network_after op
                (db.vrf_exists w n)
                (done && (is_router dp && str_eq n (str "Vrf" ++ itoa dp.tunnel_key))))
  unfolding Changed bridge_name vrf_name
  datapath_notify_update_lem done op dp n w = notified done op dp n w
