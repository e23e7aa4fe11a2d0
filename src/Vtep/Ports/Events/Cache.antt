-- ===== src/Vtep/Ports/Events/Cache.antt =====
-- The maps `portInfoMap` and `portType` over a history of notifications.
use govtep.Base.{
  ℕ, ◌≡◌, refl, sym, ap, subst, ◌∙◌, inl, inr, Bool, true, false, ◌||◌, Option, none, some, List,
  [], ◌∷◌, arith, ◌==◌, if◌then◌else◌, ==_iff, Bool-cases, Str, str, str_eq, str_eq_iff, text_laws,
  Error, ◌>>=◌,
}
use govtep.Vtep.Diff.{find, put}
use govtep.Vtep.Diff.Members.{find-put}
use govtep.Vtep.Ports.Info.{
  PortInfo, ProcBranch, define_port_proc_branch, no_branch, lsp_ac_local, lsp_ac_remote,
  lsp_patch_lsp, lsp_patch_lrp, lsp_localnet, lrp_ac_local, lrp_ac_remote, lrp_patch_lsp,
  lrp_patch_lrp,
}
use govtep.Vtep.Ports.State.{
  PortState, remove_key, branch_number, same_branch, type_of, info_of, set_port,
}
use govtep.Vtep.Ports.Databases.{Portdb, TablePortBinding, Bindingdb}
use govtep.Vtep.Ports.Parser.{portbinding_parser}
use govtep.Vtep.Ports.Events.{
  OldMac, OldField, old_type, old_mac, old_chassis, old_options, other_field, keep_world,
  replace_port, portbinding_update_port_branch, enter_port, portbinding_create, forget_port,
  portbinding_remove, update_chassis_to, portbinding_update_chassis, local_net_if,
  portbinding_update_type, portbinding_update_mac, update_field, update_fields, portbinding_update,
  portbinding_notify_update,
}
use govtep.Ovsdb.Rows.{Op, insert, mutate, delete, select_op, update, no_op}

branch_of_number : ℕ → ProcBranch
branch_of_number n =
    if n == 1
    then lsp_ac_local
    else if n == 2
    then lsp_ac_remote
    else if n == 3
    then lsp_patch_lsp
    else if n == 4
    then lsp_patch_lrp
    else if n == 5
    then lsp_localnet
    else if n == 6
    then lrp_ac_local
    else if n == 7
    then lrp_ac_remote
    else if n == 8
    then lrp_patch_lsp
    else if n == 9
    then lrp_patch_lrp
    else no_branch

branch_of-number : (b : ProcBranch) → branch_of_number (branch_number b) ≡ b
unfolding branch_of_number branch_number
branch_of-number no_branch = refl
branch_of-number lsp_ac_local = refl
branch_of-number lsp_ac_remote = refl
branch_of-number lsp_patch_lsp = refl
branch_of-number lsp_patch_lrp = refl
branch_of-number lsp_localnet = refl
branch_of-number lrp_ac_local = refl
branch_of-number lrp_ac_remote = refl
branch_of-number lrp_patch_lsp = refl
branch_of-number lrp_patch_lrp = refl

pub same_branch_sound : (a b : ProcBranch) → same_branch a b ≡ true → a ≡ b
unfolding same_branch
same_branch_sound a b h =
    sym (branch_of-number a)
    ∙ ap branch_of_number ((==_iff (branch_number a) (branch_number b)).0 h)
    ∙ branch_of-number b

find-remove_key :
    {V : Type 0} (j k : Str) (m : List (Str × V))
    → find k (remove_key j m) ≡ (if str_eq j k then none else find k m)
unfolding find remove_key
find-remove_key j k [] = ground arith
find-remove_key j k ((i, v) ∷ m) = grind (text_laws, find-remove_key j k m)

module _ {W : Type 0} where
  -- Each port has the branch of its record, a missing one that of the empty record.
  abbrev pub IsConsistent : PortState W → Type 0
  IsConsistent s = (k : Str) → type_of k s ≡ define_port_proc_branch (info_of k s)

  pub type_of-set_port :
      (j k : Str) (port : PortInfo) (b : ProcBranch) (s : PortState W)
      → type_of k (set_port j port b s) ≡ (if str_eq j k then b else type_of k s)
  unfolding type_of set_port
  type_of-set_port j k port b s = rw (find-put j k b s.port_type) (ground (arith))

  info_of-put :
      (j k : Str) (port : PortInfo) (s : PortState W) (w : W)
      → info_of k (record s { port_info_map = put j port s.port_info_map; world = w })
        ≡ (if str_eq j k then port else info_of k s)
  unfolding info_of
  info_of-put j k port s w = rw (find-put j k port s.port_info_map) (ground (arith))

  info_of-set_port :
      (j k : Str) (port : PortInfo) (b : ProcBranch) (s : PortState W)
      → info_of k (set_port j port b s) ≡ (if str_eq j k then port else info_of k s)
  unfolding info_of set_port
  info_of-set_port j k port b s = rw (find-put j k port s.port_info_map) (ground (arith))

  -- The key that is set, and the others.
  chosen :
      (j k : Str) (port : PortInfo) (b : ProcBranch) (s : PortState W)
      → IsConsistent s
      → b ≡ define_port_proc_branch port
      → (if str_eq j k then b else type_of k s)
        ≡ define_port_proc_branch (if str_eq j k then port else info_of k s)
  chosen j k port b s h e = elim (Bool-cases (str_eq j k)) [ inl q ↦ rw q e | inr q ↦ rw q (h k) ]

  set_port-IsConsistent :
      (j : Str) (port : PortInfo) (s : PortState W)
      → IsConsistent s
      → IsConsistent (set_port j port (define_port_proc_branch port) s)
  set_port-IsConsistent j port s h k =
      type_of-set_port j k port (define_port_proc_branch port) s
      ∙ chosen j k port (define_port_proc_branch port) s h refl
      ∙ ap define_port_proc_branch
          (sym (info_of-set_port j k port (define_port_proc_branch port) s))

  put-IsConsistent :
      (j : Str) (port : PortInfo) (s : PortState W) (w : W)
      → IsConsistent s
      → type_of j s ≡ define_port_proc_branch port
      → IsConsistent (record s { port_info_map = put j port s.port_info_map; world = w })
  unfolding type_of
  put-IsConsistent j port s w h e k = elim (Bool-cases (str_eq j k)) [
    | inl q ↦
        rw (info_of-put j k port s w, q)
          (subst (λ i. type_of i s ≡ define_port_proc_branch port) ((str_eq_iff j k).0 q) e)
    | inr q ↦ rw (info_of-put j k port s w, q) (h k)
  ]

  remove-IsConsistent :
      (j : Str) (s : PortState W) (w : W)
      → IsConsistent s
      → IsConsistent (record {
        port_info_map = remove_key j s.port_info_map;
        port_type = remove_key j s.port_type;
        world = w;
      })
  unfolding type_of info_of define_port_proc_branch
  remove-IsConsistent j s w h k = elim (Bool-cases (str_eq j k)) [
    | inl q ↦ rw (find-remove_key j k s.port_info_map, find-remove_key j k s.port_type, q) refl
    | inr q ↦ rw (find-remove_key j k s.port_info_map, find-remove_key j k s.port_type, q) (h k)
  ]

  world-IsConsistent :
      (s : PortState W) (w : W) → IsConsistent s → IsConsistent (record s { world = w })
  unfolding type_of info_of
  world-IsConsistent s w h = h

  -- A handler that does not panic keeps the maps consistent.
  abbrev Keeps : Option (PortState W) → Type 0
  Keeps none = Unit
  Keeps (some s) = IsConsistent s

  Keeps-bind :
      {A : Type 0} (m : Option A) (f : A → Option (PortState W))
      → ((a : A) → Keeps (f a))
      → Keeps (m >>= f)
  unfolding ◌>>=◌
  Keeps-bind none f h = tt
  Keeps-bind (some a) f h = h a

  Keeps-then :
      (m : Option (PortState W)) (f : PortState W → Option (PortState W))
      → Keeps m
      → ((s : PortState W) → IsConsistent s → Keeps (f s))
      → Keeps (m >>= f)
  unfolding ◌>>=◌
  Keeps-then none f k h = tt
  Keeps-then (some s) f k h = h s k

  Keeps-if :
      (b : Bool) (x y : Option (PortState W))
      → (b ≡ true → Keeps x)
      → Keeps y
      → Keeps (if b then x else y)
  Keeps-if true x y hx hy = hx refl
  Keeps-if false x y hx hy = hy

  keep_world-Keeps :
      (s : PortState W) (r : Option (Error × W)) → IsConsistent s → Keeps (keep_world s r)
  unfolding keep_world
  keep_world-Keeps s none h = tt
  keep_world-Keeps s (some (e, w)) h = world-IsConsistent s w h

module _ {W : Type 0} (sb : Bindingdb W) (db : Portdb W) (nh : W → W) where
  abbrev parsed_world : TablePortBinding → PortState W → PortState W
  parsed_world row s = record s { world = (portbinding_parser sb db row s.world).1 }

  parsed-IsConsistent :
      (row : TablePortBinding) (s : PortState W)
      → IsConsistent s
      → IsConsistent (parsed_world row s)
  parsed-IsConsistent row s h = world-IsConsistent s (portbinding_parser sb db row s.world).1 h

  replace_port-Keeps :
      (k : Str) (port : PortInfo) (s : PortState W)
      → IsConsistent s
      → Keeps (replace_port sb db nh k port (define_port_proc_branch port) s)
  unfolding replace_port
  replace_port-Keeps k port s h = Keeps-bind _ _ λ removed. Keeps-bind _ _ λ created.
      set_port-IsConsistent k port (record s { world = created }) (world-IsConsistent s created h)

  update_port_branch-Keeps :
      (row : TablePortBinding) (k : Str) (s : PortState W)
      → IsConsistent s
      → Keeps (portbinding_update_port_branch sb db nh row k s)
  unfolding portbinding_update_port_branch
  update_port_branch-Keeps row k s h =
      let port = (portbinding_parser sb db row s.world).0 in
      let parsed = parsed-IsConsistent row s h in
      Keeps-if (same_branch (type_of k s) (define_port_proc_branch port))
        (some (parsed_world row s)) _ (λ _. parsed)
        (replace_port-Keeps k port (parsed_world row s) parsed)

  enter_port-Keeps :
      (o : Option PortInfo) (row : TablePortBinding) (k : Str) (port : PortInfo) (s : PortState W)
      → IsConsistent s
      → Keeps (enter_port sb db nh o row k port s)
  unfolding enter_port
  enter_port-Keeps none row k port s h = set_port-IsConsistent k port s h
  enter_port-Keeps (some _) row k port s h = update_port_branch-Keeps row k s h

  create-Keeps :
      (row : TablePortBinding) (k : Str) (s : PortState W)
      → IsConsistent s
      → Keeps (portbinding_create sb db nh row k s)
  unfolding portbinding_create
  create-Keeps row k s h =
      Keeps-then _ _
        (enter_port-Keeps (find k s.port_info_map) row k _ (parsed_world row s)
          (parsed-IsConsistent row s h))
        λ entered e. Keeps-bind _ _ λ created. world-IsConsistent entered created e

  forget_port-Keeps :
      (o : Option PortInfo) (k : Str) (s : PortState W)
      → IsConsistent s
      → Keeps (forget_port sb db nh o k s)
  unfolding forget_port
  forget_port-Keeps none k s h = h
  forget_port-Keeps (some port) k s h = Keeps-bind _ _ λ removed. remove-IsConsistent k s removed h

  update_chassis-Keeps :
      (row : TablePortBinding) (k : Str) (s : PortState W)
      → IsConsistent s
      → Keeps (portbinding_update_chassis sb db nh row k s)
  unfolding portbinding_update_chassis update_chassis_to
  update_chassis-Keeps row k s h =
      let port = (portbinding_parser sb db row s.world).0 in
      Keeps-if _ _ _
        (λ e.
          put-IsConsistent k port s (portbinding_parser sb db row s.world).1 h
            (same_branch_sound (type_of k s) (define_port_proc_branch port) e))
        (Keeps-bind _ _ λ removed. Keeps-bind _ _ λ created.
          set_port-IsConsistent k port (record s { world = created })
            (world-IsConsistent s created h))

  either-IsConsistent :
      (b : Bool) (x y : PortState W)
      → IsConsistent x
      → IsConsistent y
      → IsConsistent (if b then x else y)
  either-IsConsistent true x y hx hy = hx
  either-IsConsistent false x y hx hy = hy

  update_mac-IsConsistent :
      (row : TablePortBinding) (old : OldMac) (k : Str) (s : PortState W)
      → IsConsistent s
      → IsConsistent (portbinding_update_mac sb db nh row old k s)
  unfolding portbinding_update_mac
  update_mac-IsConsistent row old k s h =
      let port = (portbinding_parser sb db row s.world).0 in
      either-IsConsistent (same_branch (define_port_proc_branch port) lsp_ac_remote) _ _
        (set_port-IsConsistent k port (record s { world = _ }) (world-IsConsistent s _ h))
        (parsed-IsConsistent row s h)

  local_net_if-Keeps :
      (b : Bool) (port : PortInfo) (s : PortState W)
      → IsConsistent s
      → Keeps (local_net_if sb db nh b port s)
  unfolding local_net_if
  local_net_if-Keeps true port s h = keep_world-Keeps s _ h
  local_net_if-Keeps false port s h = h

  update_field-Keeps :
      (row : TablePortBinding) (field : OldField) (k : Str) (s : PortState W)
      → IsConsistent s
      → Keeps (update_field sb db nh row field k s)
  unfolding update_field portbinding_update_type
  update_field-Keeps row (old_type old) k s h =
      let port = (portbinding_parser sb db row s.world).0 in
      local_net_if-Keeps
        (str_eq old (str "localnet") || same_branch (define_port_proc_branch port) lsp_localnet)
        port (parsed_world row s) (parsed-IsConsistent row s h)
  update_field-Keeps row (old_mac old) k s h = update_mac-IsConsistent row old k s h
  update_field-Keeps row old_chassis k s h = update_chassis-Keeps row k s h
  update_field-Keeps row (old_options old) k s h = world-IsConsistent s _ h
  update_field-Keeps row other_field k s h = h

  update_fields-Keeps :
      (row : TablePortBinding) (fields : List OldField) (k : Str) (s : PortState W)
      → IsConsistent s
      → Keeps (update_fields sb db nh row fields k s)
  unfolding update_fields
  update_fields-Keeps row [] k s h = h
  update_fields-Keeps row (field ∷ fields) k s h =
      Keeps-then _ _ (update_field-Keeps row field k s h)
        λ updated. update_fields-Keeps row fields k updated

  notify-Keeps :
      (b : Bool) (op : Op) (row : TablePortBinding) (fields : List OldField) (k : Str)
      (s : PortState W)
      → IsConsistent s
      → Keeps (portbinding_notify_update sb db nh b op row fields k s)
  unfolding portbinding_notify_update portbinding_update portbinding_remove
  notify-Keeps false op row fields k s h = h
  notify-Keeps true insert row fields k s h = create-Keeps row k s h
  notify-Keeps true delete row fields k s h = forget_port-Keeps (find k s.port_info_map) k s h
  notify-Keeps true update row fields k s h =
      Keeps-then _ _ (update_fields-Keeps row fields k s h)
        λ updated. update_port_branch-Keeps row k updated
  notify-Keeps true mutate row fields k s h = h
  notify-Keeps true select_op row fields k s h = h
  notify-Keeps true no_op row fields k s h = h

  -- Notifications one after the other, the world changed by others between them.
  pub data Reach (s : PortState W) : PortState W → Type 0 where
    here : Reach s s
    notified :
        {t u : PortState W} (b : Bool) (op : Op) (row : TablePortBinding) (fields : List OldField)
        (k : Str)
        → Reach s t
        → portbinding_notify_update sb db nh b op row fields k t ≡ some u
        → Reach s u
    elsewhere : {t : PortState W} (w : W) → Reach s t → Reach s (record t { world = w })

  -- After any history of notifications that starts with empty maps and does not panic, with the
  -- databases changed in any way between them, the branch that `portType` has for a port is the one
  -- that `definePortProcBranch` gives for the record that `portInfoMap` has.
  pub Reach-IsConsistent :
      (w : W) {s : PortState W}
      → Reach (record { port_info_map = []; port_type = []; world = w }) s
      → (k : Str) → type_of k s ≡ define_port_proc_branch (info_of k s)
  unfolding find type_of info_of define_port_proc_branch
  Reach-IsConsistent w here k = refl
  Reach-IsConsistent w (notified {t = t} b op row fields j r e) k =
      subst Keeps e (notify-Keeps b op row fields j t (Reach-IsConsistent w r)) k
  Reach-IsConsistent w (elsewhere w' r) k = Reach-IsConsistent w r k
