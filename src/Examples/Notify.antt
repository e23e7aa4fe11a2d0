-- ===== src/Examples/Notify.antt =====
-- Handlers that log the rows they are called with.
use govtep.Base.{ℕ, ◌≡◌, refl, true, List, [], ◌∷◌, str, for_each}
use govtep.Vtep.Notify.{
  SbTable, Updates, Handler, RowFunctions, SbHandlers, initial_row, ovn_sb_process_initial, chassis,
  datapath_binding, port_binding,
}
use govtep.Vtep.Notify.Order.{ordered, datapaths_once, ovn_sb_process_initial_order}
use govtep.Ovsdb.Rows.{insert}

abbrev logged : Handler (List ℕ) ℕ
logged op u id s = u ∷ s

abbrev handlers : SbHandlers (List ℕ) ℕ
handlers = record {
  locator_notify_update = logged;
  encap_notify_update = logged;
  datapath_notify_update = logged;
  portbinding_notify_update = logged;
  macbinding_notify_update = logged;
}

abbrev functions : RowFunctions ℕ
functions = record {
  float64_to_int = λ u. u;
  row_update_optimize = λ u id. u;
  get_row_update_op = λ u. insert;
}

abbrev contents : Updates SbTable ℕ
contents =
    (port_binding, (str "p1", 4) ∷ [])
    ∷ (datapath_binding, (str "d1", 2) ∷ (str "d2", 3) ∷ [])
    ∷ (chassis, (str "c1", 1) ∷ [])
    ∷ []

in_order : ovn_sb_process_initial functions handlers contents [] ≡ 4 ∷ 3 ∷ 2 ∷ 1 ∷ []
unfolding ovn_sb_process_initial
in_order = refl

contents_once : datapaths_once contents ≡ true
unfolding datapaths_once
contents_once = refl

ovn_sb_process_initial_order_example :
    ovn_sb_process_initial functions handlers contents []
    ≡ for_each (ordered contents) (λ x. initial_row functions handlers x.0 x.1) []
ovn_sb_process_initial_order_example =
    ovn_sb_process_initial_order functions handlers contents [] contents_once
