-- ===== src/Examples/Tai.antt =====
-- A driver that records its calls, and the updates of a small database.
use govtep.Base.{
  ℕ, String, ◌≡◌, refl, Bool, Option, none, some, List, [], ◌∷◌, ◌++◌, ◌==◌, Error, Action,
  for_each,
}
use govtep.Golang.Int.{pos, negsuc}
use govtep.Ovsdb.Rows.{Value, Fields, Row, RowUpdate, lookup, int}
use govtep.Tai.Registry.{TaiDriver, init, active_tai_driver}
use govtep.Tai.Registry.History.{
  Call, run, last_registered, Agrees, active_tai_driver-run, register, unregister,
}
use govtep.Tai.Attrs.{attr_changes}
use govtep.Tai.Attrs.Diff.{IsMap, added, changed, attr_changes_lem}
use govtep.Tai.Handler.{DriverHandler, RowModule, RowModules, Env}
use govtep.Tai.Initial.{TableUpdates, initial_row, tai_process_initial}
use govtep.Tai.Initial.Order.{known_rows, of_rank, tai_process_initial_order}

-- The world is the log of the driver's calls.
abbrev Log : Type 0
Log = List (String × String)

abbrev log : String → String → Action Log Error
log call obj w = (none, (call, obj) ∷ w)

abbrev recorder : DriverHandler Log String ℕ
recorder = record {
  tai_create_object = λ id obj. log "create" obj;
  tai_remove_object = λ id obj. log "remove" obj;
  tai_add_object_attr = λ id obj attrs. log "add" obj;
  tai_del_object_attr = λ id obj attrs. log "del" (elim obj [ none ↦ "" | some o ↦ o ]);
  tai_set_object_attr = λ id obj attrs. log "set" obj;
  tai_get_object_attr = λ id obj attrs w. (([], none), w);
  tai_list_object = λ id w. (([], none), w);
}

abbrev Cell : Type 0
Cell = Value ℕ Bool

-- An integer is an attribute, anything else is not.
abbrev attrs_of : Fields Cell → Fields ℕ
attrs_of [] = []
attrs_of ((k, int (pos n)) ∷ m) = (k, n) ∷ attrs_of m
attrs_of (_ ∷ m) = attrs_of m

abbrev row_object : Row Cell → Option String × Fields ℕ
row_object none = (none, [])
row_object (some m) = (some "Bd10", attrs_of m)

abbrev any_module : RowModule Log Cell String ℕ
any_module = record {
  row_to_obj = λ row w. (row_object row, w);
  row_to_attrs = λ row w. ((row_object row).1, w);
}

abbrev all_modules : RowModules Log Cell String ℕ
all_modules = record {
  bridge_module = any_module;
  vrf_module = any_module;
  l2_port_module = any_module;
  l3_port_module = any_module;
  route_module = any_module;
  tunnel_module = any_module;
  fdb_module = any_module;
  neighbour_module = any_module;
  acl_module = any_module;
  acl_rule_module = any_module;
  mcast_fdb_module = any_module;
  pbr_module = any_module;
  auto_gateway_conf_module = any_module;
}

abbrev env : Env Log ℕ Bool String ℕ
env = record {
  truncate = λ f. pos f;
  of_int = λ z. elim z [ pos n ↦ n | negsuc n ↦ 0 ];
  same = λ a b. a == b;
  deep_equal = λ a b. a == b;
  modules = all_modules;
}

abbrev registered : TaiDriver (DriverHandler Log String ℕ)
registered = record { active_driver = "unos"; handlers = ("unos", recorder) ∷ [] }

abbrev new_cells : Fields Cell
new_cells = ("vni", int (pos 10)) ∷ ("mtu", int (pos 9)) ∷ []

abbrev old_cells : Fields Cell
old_cells = ("vni", int (pos 11)) ∷ ("mac", int (pos 3)) ∷ []

abbrev bridge_update : RowUpdate Cell
bridge_update = record { new = some new_cells; old = some old_cells }

abbrev new_attrs : Fields ℕ
new_attrs = ("vni", 10) ∷ ("mtu", 9) ∷ []

new_attrs-IsMap : IsMap new_attrs
unfolding lookup
new_attrs-IsMap = (refl, (refl, tt))

abbrev equal : ℕ → ℕ → Bool
equal a b = a == b

attr_changes_example :
    let old : Fields ℕ = ("vni", 11) ∷ ("mac", 3) ∷ [] in
    (lookup "vni" (attr_changes equal new_attrs old).add
      ≡ added equal (lookup "vni" new_attrs) (lookup "vni" old))
    × (lookup "vni" (attr_changes equal new_attrs old).set
        ≡ changed equal (lookup "vni" new_attrs) (lookup "vni" old))
    × ((attr_changes equal new_attrs old).del ≡ [])
attr_changes_example =
    attr_changes_lem equal new_attrs (("vni", 11) ∷ ("mac", 3) ∷ []) "vni" new_attrs-IsMap

abbrev calls : List (Call ℕ)
calls = register "a" 1 ∷ register "b" 2 ∷ unregister "a" ∷ []

active_tai_driver-run_example :
    Agrees (last_registered none calls) (active_tai_driver (run init calls))
active_tai_driver-run_example = active_tai_driver-run calls

-- A bridge, a tunnel and a table that holds no object.
abbrev initial : TableUpdates Cell
initial =
    ("Bridge_Domain", ("b1", bridge_update) ∷ [])
    ∷ ("Locator", ("t1", bridge_update) ∷ [])
    ∷ ("Global", ("g1", bridge_update) ∷ [])
    ∷ []

tai_process_initial_order_example :
    tai_process_initial env registered initial initial initial []
    ≡ for_each
        (of_rank 0 (known_rows initial)
          ++ of_rank 1 (known_rows initial)
          ++ of_rank 2 (known_rows initial))
        (λ r. initial_row env registered r.0 r.1)
        []
tai_process_initial_order_example =
    tai_process_initial_order env registered initial initial initial []
