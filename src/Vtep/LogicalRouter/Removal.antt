-- ===== src/Vtep/LogicalRouter/Removal.antt =====
-- The routers to which a load balancer is applied, after a router has gone.
use govtep.Base.{
  ◌≡◌, refl, sym, ap, ◌∙◌, Bool, true, false, not, ◌&&◌, ◌||◌, List, [], ◌∷◌, Str, str_eq, and_true,
  for_each,
}
use govtep.Vtep.Databases.{Vtepdb, Ovnnb}
use govtep.Vtep.Diff.{member}
use govtep.Vtep.LogicalRouter.{logical_router_remove}

-- Deleting a value from the column `applied_lr` of a load balancer takes just that value away;
-- `applies w lb lr` tells whether the column has it.
abbrev pub DelLaw : {W : Type 0} → Ovnnb W → (W → Str → Str → Bool) → Type 0
DelLaw {W} nb applies =
    (lb lr lb' lr' : Str) (w : W)
    → applies (nb.load_balancer_update_applied_lr_delvalue lb (lr ∷ []) w).1 lb' lr'
      ≡ (applies w lb' lr' && not (str_eq lb lb' && str_eq lr lr'))

and_not_or : (a b c d : Bool) → ((a && not (b && d)) && not (c && d)) ≡ (a && not ((b || c) && d))
and_not_or false b c d = refl
and_not_or true true true true = refl
and_not_or true true true false = refl
and_not_or true true false true = refl
and_not_or true true false false = refl
and_not_or true false c d = refl

module _ {W : Type 0} (vtepdb : Vtepdb W) (nb : Ovnnb W) (load_balancer_get : W → List Str)
    (applies : W → Str → Str → Bool) (law : DelLaw nb applies) where
  applies-for_each :
      (lbs : List Str) (uuid lb lr : Str) (w : W)
      → applies
          (for_each lbs
            (λ lb w. (nb.load_balancer_update_applied_lr_delvalue lb (uuid ∷ []) w).1)
            w)
          lb
          lr
        ≡ (applies w lb lr && not (member lb lbs && str_eq uuid lr))
  unfolding for_each member
  applies-for_each [] uuid lb lr w = sym (and_true (applies w lb lr))
  applies-for_each (x ∷ lbs) uuid lb lr w =
      applies-for_each lbs uuid lb lr
        (nb.load_balancer_update_applied_lr_delvalue x (uuid ∷ []) w).1
      ∙ ap (λ b. b && not (member lb lbs && str_eq uuid lr)) (law x uuid lb lr w)
      ∙ and_not_or (applies w lb lr) (str_eq x lb) (member lb lbs) (str_eq uuid lr)

  -- Where a deletion takes just its value away, the removal of a router takes it from all load
  -- balancers that there are, and nothing else from any.
  pub logical_router_remove_lem :
      (uuid lb lr : Str) (w : W)
      → applies (logical_router_remove vtepdb nb load_balancer_get uuid w) lb lr
        ≡ (applies w lb lr && not (member lb (load_balancer_get w) && str_eq uuid lr))
  unfolding logical_router_remove
  logical_router_remove_lem uuid lb lr w = applies-for_each (load_balancer_get w) uuid lb lr w
