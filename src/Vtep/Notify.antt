-- ===== src/Vtep/Notify.antt =====
-- go_vtep/vtep.go: which handler the updates of the databases reach, and in which order. Connecting
-- is left out. A table update is a list of tables with their rows, in the order in which Go's loop
-- over the map visits them, and so is the update of a table. Converting an update, and reading its
-- operation, are functions of lib/ovsdb_client (Ovsdb.Rows), and arguments here.
pub mod Order
use govtep.Base.{Bool, true, false, not, ◌&&◌, List, [], ◌∷◌, if◌then◌else◌, Str, for_each}
use govtep.Ovsdb.Rows.{Op, get_row_update_op, float64_to_int, row_update_optimize}

pub data SbTable : Type 0 where
  chassis encap datapath_binding port_binding mac_binding other_sb : SbTable

pub data NbTable : Type 0 where
  logical_switch logical_router load_balancer nat acl other_nb : NbTable

pub data VtepTable : Type 0 where
  global physical_switch other_vtep : VtepTable

abbrev pub Updates : Type 0 → Type 0 → Type 0
Updates T R = List (T × List (Str × R))

-- A handler of an update of a row, with its identifier.
abbrev pub Handler : Type 0 → Type 0 → Type 0
Handler S R = Op → R → Str → S → S

-- lib/ovsdb_client: `Float64ToInt` of both rows, `RowUpdateOptimize` and `GetRowUpdateOp`
pub record RowFunctions (R : Type 0) : Type 0 where
  pub float64_to_int : R → R
  pub row_update_optimize : R → Str → R
  pub get_row_update_op : R → Op

pub record SbHandlers (S R : Type 0) : Type 0 where
  pub locator_notify_update : Handler S R
  pub encap_notify_update : Handler S R
  pub datapath_notify_update : Handler S R
  pub portbinding_notify_update : Handler S R
  pub macbinding_notify_update : Handler S R

pub record NbHandlers (S R : Type 0) : Type 0 where
  pub logical_router_notify_update : Handler S R
  pub load_balancer_notify_update : Handler S R
  pub nat_notify_update : Handler S R
  pub acl_notify_update : Handler S R

pub record VtepHandlers (S R : Type 0) : Type 0 where
  pub vtep_global_notify_update : Handler S R
  pub physical_switch_notify_update : Handler S R

is_physical : SbTable → Bool
is_physical chassis = true
is_physical encap = true
is_physical _ = false

is_datapath : SbTable → Bool
is_datapath datapath_binding = true
is_datapath _ = false

is_binding : SbTable → Bool
is_binding port_binding = true
is_binding mac_binding = true
is_binding _ = false

is_global : VtepTable → Bool
is_global global = true
is_global _ = false

-- `updates.Updates[ovnsb.DatapathBinding]`
datapath_rows : {R : Type 0} → Updates SbTable R → List (Str × R)
unfolding is_datapath
datapath_rows [] = []
datapath_rows (t ∷ updates) = if is_datapath t.0 then t.1 else datapath_rows updates

-- `ovnsb.SelectRows` of each table that is monitored; a table without rows is left out
selected : {R : Type 0} → (SbTable → List (Str × R)) → List SbTable → Updates SbTable R
selected rows_of [] = []
selected rows_of (t ∷ tables) =
    let rest = selected rows_of tables in
    elim (rows_of t) [ [] ↦ rest | u ∷ us ↦ (t, u ∷ us) ∷ rest ]

module _ {S R : Type 0} (row : RowFunctions R) where
  -- The `switch` over the tables of the southbound database.
  sb_dispatch : SbHandlers S R → SbTable → Handler S R
  sb_dispatch h chassis = h.locator_notify_update
  sb_dispatch h encap = h.encap_notify_update
  sb_dispatch h datapath_binding = h.datapath_notify_update
  sb_dispatch h port_binding = h.portbinding_notify_update
  sb_dispatch h mac_binding = h.macbinding_notify_update
  sb_dispatch h other_sb = λ op u id s. s

  unfoldable pub initial_row : SbHandlers S R → SbTable → Str × R → S → S
  unfolding sb_dispatch
  initial_row h table (id, u) s =
      let u' = row.float64_to_int u in sb_dispatch h table (row.get_row_update_op u') u' id s

  -- A loop over the tables, with those that it takes.
  pass : SbHandlers S R → (SbTable → Bool) → Updates SbTable R → S → S
  unfolding for_each initial_row
  pass h takes updates s =
      for_each updates (λ t s. if takes t.0 then for_each t.1 (initial_row h t.0) s else s) s

  -- `ovnSbProcessInitial`
  unfoldable pub ovn_sb_process_initial : SbHandlers S R → Updates SbTable R → S → S
  unfolding pass is_physical is_binding datapath_rows for_each initial_row
  ovn_sb_process_initial h updates s =
      let s1 = pass h is_physical updates s in
      let s2 = for_each (datapath_rows updates) (initial_row h datapath_binding) s1 in
      pass h is_binding updates s2

  -- `ovnSbReComputeAll`
  unfoldable pub ovn_sb_recompute_all :
      SbHandlers S R → (S → SbTable → List (Str × R)) → List SbTable → S → S
  unfolding selected ovn_sb_process_initial
  ovn_sb_recompute_all h select_rows tables s =
      ovn_sb_process_initial h (selected (select_rows s) tables) s

  -- A row's update in the notifications.
  optimized : Handler S R → Str × R → S → S
  optimized handler (id, u) s =
      let u' = row.row_update_optimize u id in handler (row.get_row_update_op u') u' id s

  -- `ovnSbNotifyUpdate`: everything is computed again in the end.
  unfoldable pub ovn_sb_notify_update :
      SbHandlers S R → (S → SbTable → List (Str × R)) → List SbTable → Updates SbTable R → S → S
  unfolding for_each optimized sb_dispatch ovn_sb_recompute_all
  ovn_sb_notify_update h select_rows tables updates s =
      ovn_sb_recompute_all h select_rows tables
        (for_each updates (λ t. for_each t.1 (optimized (sb_dispatch h t.0))) s)

  nb_dispatch : NbHandlers S R → NbTable → Handler S R
  nb_dispatch h logical_router = h.logical_router_notify_update
  nb_dispatch h load_balancer = h.load_balancer_notify_update
  nb_dispatch h nat = h.nat_notify_update
  nb_dispatch h acl = h.acl_notify_update
  nb_dispatch h logical_switch = λ op u id s. s
  nb_dispatch h other_nb = λ op u id s. s

  -- `ovnNbNotifyUpdate`
  unfoldable pub ovn_nb_notify_update : NbHandlers S R → Updates NbTable R → S → S
  unfolding for_each optimized nb_dispatch
  ovn_nb_notify_update h updates s =
      for_each updates (λ t. for_each t.1 (optimized (nb_dispatch h t.0))) s

  vtep_dispatch : VtepHandlers S R → VtepTable → Handler S R
  vtep_dispatch h global = h.vtep_global_notify_update
  vtep_dispatch h physical_switch = h.physical_switch_notify_update
  vtep_dispatch h other_vtep = λ op u id s. s

  -- Before `OvnCentralSet`, which the handler of `Global` sets, only that table counts.
  vtep_row : VtepHandlers S R → (S → Bool) → VtepTable → Str × R → S → S
  unfolding is_global vtep_dispatch optimized
  vtep_row h ovn_central_set table u s =
      if not (ovn_central_set s) && not (is_global table)
      then s
      else optimized (vtep_dispatch h table) u s

  -- `vtepDbNotifyUpdate`
  unfoldable pub vtep_db_notify_update : VtepHandlers S R → (S → Bool) → Updates VtepTable R → S → S
  unfolding for_each vtep_row
  vtep_db_notify_update h ovn_central_set updates s =
      for_each updates (λ t. for_each t.1 (vtep_row h ovn_central_set t.0)) s
