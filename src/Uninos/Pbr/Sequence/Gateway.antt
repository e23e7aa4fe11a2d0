-- ===== src/Uninos/Pbr/Sequence/Gateway.antt =====
-- When the address of a route is written to the gateway's sub-interface.
use govtep.Base.{
  ℕ, ◌≡◌, refl, sym, ap, ap₂, subst, ◌∙◌, ◌↔◌, ◌⊎◌, inl, inr, Bool, true, false, not, ◌&&◌, ◌||◌,
  none, some, [], ◌∷◌, ◌++◌, arith, ==_refl, Bool-cases, Str, str, str_eq, Error,
}
use govtep.Golang.Text.{has_prefix, contains, before}
use govtep.Golang.Decimal.{itoa}
use govtep.Uninos.Databases.{TableAutoGatewayConf, Vtepdb, TableInterface, Configdb}
use govtep.Uninos.Pbr.Sequence.{
  EipOp, change_eip, process_eip, external_ip_process, no_eip_op, eip_op_add, eip_op_del,
}

has_prefix-append : (s t : Str) → has_prefix (s ++ t) s ≡ true
unfolding has_prefix
has_prefix-append [] [] = refl
has_prefix-append [] (c ∷ t) = refl
has_prefix-append (c ∷ s) t = ground (arith, ==_refl c, has_prefix-append s t)

contains_prefix : (s t : Str) → has_prefix s t ≡ true → contains s t ≡ true
unfolding contains
contains_prefix [] t h = h
contains_prefix (c ∷ s) t h = ground arith

contains-append : (pre s post : Str) → contains (pre ++ (s ++ post)) s ≡ true
unfolding contains
contains-append [] s post = contains_prefix (s ++ post) s (has_prefix-append s post)
contains-append (c ∷ pre) s post = ground (arith, contains-append pre s post)

-- `s` stands somewhere in `t`.
abbrev pub Inside : Str → Str → Type 0
Inside s t = (pre : Str) × (post : Str) × (t ≡ pre ++ (s ++ post))

rest_after : (t s : Str) → has_prefix t s ≡ true → (post : Str) × (t ≡ s ++ post)
unfolding has_prefix
rest_after t [] h = (t, refl)
rest_after [] (y ∷ s) h = cc
rest_after (x ∷ t) (y ∷ s) h =
    let same : x ≡ y = ground (arith, h) in
    let more = rest_after t s (ground (arith, h)) in (more.0, ap₂ (λ c l. c ∷ l) same more.1)

Inside-cons : (c : ℕ) (t s : Str) → Inside s t → Inside s (c ∷ t)
Inside-cons c t s (pre, post, e) = (c ∷ pre, post, ap (λ l. c ∷ l) e)

contains-Inside : (t s : Str) → contains t s ≡ true → Inside s t
unfolding contains
contains-Inside [] s h = let found = rest_after [] s h in ([], found.0, found.1)
contains-Inside (c ∷ t) s h = elim (Bool-cases (has_prefix (c ∷ t) s)) [
  | inl here ↦ let found = rest_after (c ∷ t) s here in ([], found.0, found.1)
  | inr not_here ↦ Inside-cons c t s (contains-Inside t s (ground (arith, h, not_here)))
]

contains_iff : (t s : Str) → (contains t s ≡ true) ↔ Inside s t
contains_iff t s =
    (contains-Inside t s, λ (pre, post, e). ap (λ l. contains l s) e ∙ contains-append pre s post)

abbrev pub sub_interface : TableAutoGatewayConf → Str
sub_interface gateway = gateway.physical_port ++ str "." ++ itoa gateway.vlan

-- Whether an address is there after an operation, if it was `before`, and if it is the one that the
-- operation is about.
unfoldable pub address_after : EipOp → Bool → Bool → Bool
address_after no_eip_op before meant = before
address_after eip_op_add before meant = before || meant
address_after eip_op_del before meant = before && not meant

-- A server that takes the writes to the addresses of an interface, by its name.
pub record AddressLaws {W : Type 0} (cdb : Configdb W) (has_ip : W → Str → Str → Bool)
    : Type 0 where
  pub added :
      (name ip n a : Str) (w : W)
      → has_ip (cdb.interface_update_ip_addvalue name (ip ∷ []) w).1 n a
        ≡ (has_ip w n a || (str_eq n name && str_eq a ip))
  pub removed :
      (name ip n a : Str) (w : W)
      → has_ip (cdb.interface_update_ip_delvalue name (ip ∷ []) w).1 n a
        ≡ (has_ip w n a && not (str_eq n name && str_eq a ip))

module _ {W : Type 0} (vtepdb : Vtepdb W) (cdb : Configdb W) (has_ip : W → Str → Str → Bool)
    (laws : AddressLaws cdb has_ip) where
  -- What an operation on a host address leaves of the addresses of all interfaces.
  Operated : Str → Str → EipOp → Str → Str → W → Error × W → Type 0
  Operated name eip op n a w result =
      (result.0 ≡ none)
      × (has_ip result.1 n a
          ≡ address_after op (has_ip w n a) (str_eq n name && str_eq a (eip ++ str "/32")))

  change_eip-Operated :
      (row : TableInterface) (name eip : Str) (op : EipOp) (n a : Str) (w : W)
      → Operated name eip op n a w (change_eip vtepdb cdb (some row) name eip op w)
  unfolding Operated change_eip address_after
  change_eip-Operated row name eip no_eip_op n a w = (refl, refl)
  change_eip-Operated row name eip eip_op_add n a w =
      (refl, laws.added name (eip ++ str "/32") n a w)
  change_eip-Operated row name eip eip_op_del n a w =
      (refl, laws.removed name (eip ++ str "/32") n a w)

  external_ip_process-Operated :
      (eip vrf : Str) (op : EipOp) (gateway : TableAutoGatewayConf) (row : TableInterface)
      (n a : Str) (w : W)
      → vtepdb.auto_gateway_conf_get_by_index w vrf ≡ some gateway
      → cdb.interface_get_by_index w (sub_interface gateway) ≡ some row
      → contains gateway.ip eip ≡ false
      → Operated (sub_interface gateway) eip op n a w (external_ip_process vtepdb cdb eip vrf op w)
  unfolding external_ip_process process_eip
  external_ip_process-Operated eip vrf op gateway row n a w found there fails =
      subst (Operated (sub_interface gateway) eip op n a w)
        (sym (ap (λ o. process_eip vtepdb cdb o eip op w) found ∙ rw (fails, there) refl))
        (change_eip-Operated row (sub_interface gateway) eip op n a w)

  -- Where a server takes the writes, the VRF has a gateway and its sub-interface is there,
  -- `externalIPProcess` reports no error; it changes nothing if the external address stands anywhere
  -- inside the text of the gateway's own address, as 10.0.0.1 does in 10.0.0.12/24, and otherwise
  -- adds the external address with the mask 32 to the sub-interface, or removes it there, and
  -- leaves all other addresses.
  pub external_ip_process_lem :
      (eip vrf : Str) (op : EipOp) (gateway : TableAutoGatewayConf) (row : TableInterface)
      (n a : Str) (w : W)
      → vtepdb.auto_gateway_conf_get_by_index w vrf ≡ some gateway
      → cdb.interface_get_by_index w (sub_interface gateway) ≡ some row
      → (Inside eip gateway.ip × (external_ip_process vtepdb cdb eip vrf op w ≡ (none, w)))
        ⊎ ((¬ Inside eip gateway.ip)
            × ((external_ip_process vtepdb cdb eip vrf op w).0 ≡ none)
            × (has_ip (external_ip_process vtepdb cdb eip vrf op w).1 n a
                ≡ address_after op
                    (has_ip w n a)
                    (str_eq n (sub_interface gateway) && str_eq a (eip ++ str "/32"))))
  unfolding external_ip_process process_eip Operated
  external_ip_process_lem eip vrf op gateway row n a w found there =
      elim (Bool-cases (contains gateway.ip eip)) [
        | inl holds ↦ inl (
          contains-Inside gateway.ip eip holds,
          ap (λ o. process_eip vtepdb cdb o eip op w) found ∙ rw holds refl,
        )
        | inr fails ↦
            let done =
              external_ip_process-Operated eip vrf op gateway row n a w found there fails in
            inr (λ inside. cc ((contains_iff gateway.ip eip).1 inside, fails), done.0, done.1)
      ]
