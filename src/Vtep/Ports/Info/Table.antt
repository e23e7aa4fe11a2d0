-- ===== src/Vtep/Ports/Info/Table.antt =====
-- Which ports each branch of `definePortProcBranch` takes.
use govtep.Base.{
  ◌≡◌, refl, subst, ◌≢◌, ◌↔◌, Bool, true, false, [], if◌then◌else◌, Str, str, str_eq, str_eq_iff,
}
use govtep.Vtep.Names.{DatapathType, logical_switch, logical_router, other_datapath}
use govtep.Vtep.Ports.Info.{
  Location, PortInfo, port_ltype_lsp, port_ltype_lrp, ProcBranch, patch_branch, lsp_branch,
  lrp_branch, by_location, by_network, define_port_proc_branch, unknown, local, remote, no_branch,
  lsp_ac_local, lsp_ac_remote, lsp_patch_lsp, lsp_patch_lrp, lsp_localnet, lrp_ac_local,
  lrp_ac_remote, lrp_patch_lsp, lrp_patch_lrp,
}

-- What a branch asks of the network, the type, the location and the kind of the peer.
abbrev pub Meets : ProcBranch → DatapathType → Str → Location → Str → Type 0
Meets no_branch n t l p = ⊥
Meets lsp_ac_local n t l p = (n ≡ logical_switch) × (t ≡ []) × (l ≡ local)
Meets lsp_ac_remote n t l p = (n ≡ logical_switch) × (t ≡ []) × (l ≡ remote)
Meets lsp_patch_lsp n t l p = (n ≡ logical_switch) × (t ≡ str "patch") × (p ≡ port_ltype_lsp)
Meets lsp_patch_lrp n t l p = (n ≡ logical_switch) × (t ≡ str "patch") × (p ≡ port_ltype_lrp)
Meets lsp_localnet n t l p = (n ≡ logical_switch) × (t ≡ str "localnet")
Meets lrp_ac_local n t l p = (n ≡ logical_router) × (l ≡ local)
Meets lrp_ac_remote n t l p = (n ≡ logical_router) × (l ≡ remote)
Meets lrp_patch_lsp n t l p =
    (n ≡ logical_router) × (l ≡ unknown) × (t ≡ str "patch") × (p ≡ port_ltype_lsp)
Meets lrp_patch_lrp n t l p =
    (n ≡ logical_router) × (l ≡ unknown) × (t ≡ str "patch") × (p ≡ port_ltype_lrp)

-- The same, with nothing asked where there is no branch.
abbrev Asks : ProcBranch → DatapathType → Str → Location → Str → Type 0
Asks no_branch n t l p = Unit
Asks b n t l p = Meets b n t l p

if_cases :
    (P : ProcBranch → Type 0) (b : Bool) (x y : ProcBranch)
    → (b ≡ true → P x)
    → P y
    → P (if b then x else y)
if_cases P true x y hx hy = hx refl
if_cases P false x y hx hy = hy

location_cases :
    (P : ProcBranch → Type 0) (l : Location) (a b rest : ProcBranch)
    → (l ≡ local → P a)
    → (l ≡ remote → P b)
    → (l ≡ unknown → P rest)
    → P (by_location l a b rest)
unfolding by_location
location_cases P local a b rest ha hb hr = ha refl
location_cases P remote a b rest ha hb hr = hb refl
location_cases P unknown a b rest ha hb hr = hr refl

patch_cases :
    (P : ProcBranch → Type 0) (ltype : Str) (x y : ProcBranch)
    → (ltype ≡ port_ltype_lsp → P x)
    → (ltype ≡ port_ltype_lrp → P y)
    → P no_branch
    → P (patch_branch ltype x y)
unfolding patch_branch
patch_cases P ltype x y hx hy hn =
    if_cases P (str_eq ltype port_ltype_lsp) _ _ (λ q. hx ((str_eq_iff ltype port_ltype_lsp).0 q))
      (if_cases P (str_eq ltype port_ltype_lrp) _ _
        (λ q. hy ((str_eq_iff ltype port_ltype_lrp).0 q)) hn)

module _ (port : PortInfo) where
  abbrev Fits : DatapathType → ProcBranch → Type 0
  Fits n b = Asks b n port.type port.location port.peer_ltype

  lsp_branch-Fits : Fits logical_switch (lsp_branch port)
  unfolding lsp_branch
  lsp_branch-Fits =
      if_cases (Fits logical_switch) (str_eq port.type (str "patch")) _ _
        (λ q.
          let patch = (str_eq_iff port.type (str "patch")).0 q in
          patch_cases (Fits logical_switch) port.peer_ltype lsp_patch_lsp lsp_patch_lrp
            (λ e. (refl, patch, e)) (λ e. (refl, patch, e)) tt)
        (if_cases (Fits logical_switch) (str_eq port.type (str "localnet")) _ _
          (λ q. (refl, (str_eq_iff port.type (str "localnet")).0 q)) tt)

  lrp_branch-Fits : port.location ≡ unknown → Fits logical_router (lrp_branch port)
  unfolding lrp_branch
  lrp_branch-Fits l =
      if_cases (Fits logical_router) (str_eq port.type (str "patch")) _ _
        (λ q.
          let patch = (str_eq_iff port.type (str "patch")).0 q in
          patch_cases (Fits logical_router) port.peer_ltype lrp_patch_lsp lrp_patch_lrp
            (λ e. (refl, l, patch, e)) (λ e. (refl, l, patch, e)) tt)
        tt

  by_network-Fits : (n : DatapathType) → Fits n (by_network n port)
  unfolding by_network
  by_network-Fits logical_switch =
      if_cases (Fits logical_switch) (str_eq port.type []) _ _
        (λ q.
          let ac = (str_eq_iff port.type []).0 q in
          location_cases (Fits logical_switch) port.location _ _ _ (λ e. (refl, ac, e))
            (λ e. (refl, ac, e)) (λ _. lsp_branch-Fits))
        lsp_branch-Fits
  by_network-Fits logical_router =
      location_cases (Fits logical_router) port.location _ _ _ (λ e. (refl, e)) (λ e. (refl, e))
        lrp_branch-Fits
  by_network-Fits other_datapath = tt

  asked :
      (b : ProcBranch)
      → b ≢ no_branch
      → Asks b port.ln_type port.type port.location port.peer_ltype
      → Meets b port.ln_type port.type port.location port.peer_ltype
  asked no_branch h m = absurd (h refl)
  asked lsp_ac_local h m = m
  asked lsp_ac_remote h m = m
  asked lsp_patch_lsp h m = m
  asked lsp_patch_lrp h m = m
  asked lsp_localnet h m = m
  asked lrp_ac_local h m = m
  asked lrp_ac_remote h m = m
  asked lrp_patch_lsp h m = m
  asked lrp_patch_lrp h m = m

  met :
      (b : ProcBranch)
      → Meets b port.ln_type port.type port.location port.peer_ltype
      → define_port_proc_branch port ≡ b
  unfolding define_port_proc_branch by_network lsp_branch lrp_branch patch_branch by_location str_eq
  met no_branch m = absurd m
  met lsp_ac_local (n, t, l) = rw (n, t, l) refl
  met lsp_ac_remote (n, t, l) = rw (n, t, l) refl
  met lsp_patch_lsp (n, t, p) = rw (n, t, p) refl
  met lsp_patch_lrp (n, t, p) = rw (n, t, p) refl
  met lsp_localnet (n, t) = rw (n, t) refl
  met lrp_ac_local (n, l) = rw (n, l) refl
  met lrp_ac_remote (n, l) = rw (n, l) refl
  met lrp_patch_lsp (n, l, t, p) = rw (n, l, t, p) refl
  met lrp_patch_lrp (n, l, t, p) = rw (n, l, t, p) refl

-- A branch other than `no_branch` is that of a port exactly when the port has the branch's network,
-- type, location and peer: a port of a router goes by its location, whatever its type, and is a
-- patch port only where the location is unknown.
pub define_port_proc_branch_lem :
    (port : PortInfo) (b : ProcBranch)
    → b ≢ no_branch
    → (define_port_proc_branch port ≡ b)
      ↔ Meets b port.ln_type port.type port.location port.peer_ltype
unfolding define_port_proc_branch
define_port_proc_branch_lem port b h = (
  λ e. asked port b h (subst (Fits port port.ln_type) e (by_network-Fits port port.ln_type)),
  met port b,
)
