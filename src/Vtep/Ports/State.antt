-- ===== src/Vtep/Ports/State.antt =====
-- The package variables `portInfoMap` and `portType` of go_vtep/port.go, along with the world. A map
-- yields the zero value for a missing key.
use govtep.Base.{ℕ, Bool, Option, none, some, List, [], ◌∷◌, ◌==◌, if◌then◌else◌, Str, str_eq}
use govtep.Vtep.Diff.{find, put}
use govtep.Vtep.Ports.Info.{
  PortInfo, no_port, ProcBranch, no_branch, lsp_ac_local, lsp_ac_remote, lsp_patch_lsp,
  lsp_patch_lrp, lsp_localnet, lrp_ac_local, lrp_ac_remote, lrp_patch_lsp, lrp_patch_lrp,
}

pub record PortState (W : Type 0) : Type 0 where
  pub port_info_map : List (Str × PortInfo)
  pub port_type : List (Str × ProcBranch)
  pub world : W

-- `delete(m, k)`
unfoldable pub remove_key : {V : Type 0} → Str → List (Str × V) → List (Str × V)
remove_key k [] = []
remove_key k ((j, v) ∷ m) = if str_eq j k then remove_key k m else (j, v) ∷ remove_key k m

abbrev pub or_no_branch : Option ProcBranch → ProcBranch
or_no_branch none = no_branch
or_no_branch (some b) = b

abbrev pub or_no_port : Option PortInfo → PortInfo
or_no_port none = no_port
or_no_port (some port) = port

-- The constants of the branches, from `iota`
unfoldable pub branch_number : ProcBranch → ℕ
branch_number no_branch = 0
branch_number lsp_ac_local = 1
branch_number lsp_ac_remote = 2
branch_number lsp_patch_lsp = 3
branch_number lsp_patch_lrp = 4
branch_number lsp_localnet = 5
branch_number lrp_ac_local = 6
branch_number lrp_ac_remote = 7
branch_number lrp_patch_lsp = 8
branch_number lrp_patch_lrp = 9

-- `portType[pbUUID] == procBranch`
unfoldable pub same_branch : ProcBranch → ProcBranch → Bool
unfolding branch_number
same_branch a b = branch_number a == branch_number b

module _ {W : Type 0} where
  -- `portType[k]` and `portInfoMap[k]`
  unfoldable pub type_of : Str → PortState W → ProcBranch
  unfolding find
  type_of k s = or_no_branch (find k s.port_type)

  unfoldable pub info_of : Str → PortState W → PortInfo
  unfolding find
  info_of k s = or_no_port (find k s.port_info_map)

  -- `portInfoMap[k] = port` and `portType[k] = branch`
  unfoldable pub set_port : Str → PortInfo → ProcBranch → PortState W → PortState W
  unfolding put
  set_port k port proc s = record s {
    port_info_map = put k port s.port_info_map;
    port_type = put k proc s.port_type;
  }
