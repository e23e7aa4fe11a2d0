-- ===== src/Vtep/Notify/Order.antt =====
-- The order in which the initial contents of the southbound database are handled.
use govtep.Base.{
  ℕ, ◌≡◌, refl, sym, ap, ◌∙◌, Bool, true, false, not, ◌&&◌, List, [], ◌∷◌, ◌++◌, map, append-nil,
  arith, ◌==◌, if◌then◌else◌, Str, for_each, for_each-append, for_each-map,
}
use govtep.Vtep.Notify.{
  SbTable, Updates, RowFunctions, SbHandlers, is_physical, is_datapath, is_binding, datapath_rows,
  initial_row, pass, ovn_sb_process_initial, chassis, encap, datapath_binding, port_binding,
  mac_binding, other_sb,
}

tag : {T R : Type 0} → T → List (Str × R) → List (T × (Str × R))
tag t rows = map (λ r. (t, r)) rows

-- The rows of the tables that satisfy a test, each with its table.
unfoldable pub rows_where : {T R : Type 0} → (T → Bool) → Updates T R → List (T × (Str × R))
unfolding tag
rows_where takes [] = []
rows_where takes ((t, rows) ∷ updates) =
    let rest = rows_where takes updates in if takes t then tag t rows ++ rest else rest

-- Chassis and their encapsulations are physical; a datapath needs none of the others to be there, a
-- port or MAC binding needs both.
unfoldable pub rank : SbTable → ℕ
rank chassis = 0
rank encap = 0
rank datapath_binding = 1
rank port_binding = 2
rank mac_binding = 2
rank other_sb = 3

-- The rows of the tables of a rank.
unfoldable pub ranked : {R : Type 0} → ℕ → Updates SbTable R → List (SbTable × (Str × R))
unfolding rows_where rank
ranked n updates = rows_where (λ t. rank t == n) updates

unfoldable pub ordered : {R : Type 0} → Updates SbTable R → List (SbTable × (Str × R))
unfolding ranked
ordered updates = ranked 0 updates ++ (ranked 1 updates ++ ranked 2 updates)

no_datapaths : {R : Type 0} → Updates SbTable R → Bool
unfolding rank
no_datapaths [] = true
no_datapaths (t ∷ updates) = not (rank t.0 == 1) && no_datapaths updates

-- A map has no key twice: the datapaths are there at most once.
unfoldable pub datapaths_once : {R : Type 0} → Updates SbTable R → Bool
unfolding rank no_datapaths
datapaths_once [] = true
datapaths_once (t ∷ updates) =
    if rank t.0 == 1 then no_datapaths updates else datapaths_once updates

physical-rank : (t : SbTable) → is_physical t ≡ (rank t == 0)
unfolding is_physical rank
physical-rank chassis = refl
physical-rank encap = refl
physical-rank datapath_binding = refl
physical-rank port_binding = refl
physical-rank mac_binding = refl
physical-rank other_sb = refl

binding-rank : (t : SbTable) → is_binding t ≡ (rank t == 2)
unfolding is_binding rank
binding-rank chassis = refl
binding-rank encap = refl
binding-rank datapath_binding = refl
binding-rank port_binding = refl
binding-rank mac_binding = refl
binding-rank other_sb = refl

module _ {S R : Type 0} (row : RowFunctions R) (h : SbHandlers S R) where
  handle : SbTable × (Str × R) → S → S
  handle x = initial_row row h x.0 x.1

  for_each-tag :
      (t : SbTable) (rows : List (Str × R)) (rest : List (SbTable × (Str × R))) (s : S)
      → for_each (tag t rows ++ rest) handle s
        ≡ for_each rest handle (for_each rows (initial_row row h t) s)
  unfolding tag handle
  for_each-tag t rows rest s =
      for_each-append (map (λ r. (t, r)) rows) rest (λ x. initial_row row h x.0 x.1) s
      ∙ ap (for_each rest (λ x. initial_row row h x.0 x.1))
          (for_each-map (λ r. (t, r)) rows (λ x. initial_row row h x.0 x.1) s)

  -- A table that a loop takes or passes over, before the others.
  with_table :
      (takes : Bool) (t : SbTable) (rows : List (Str × R)) (rest : List (SbTable × (Str × R)))
      (more : S → S) (s : S)
      → ((s' : S) → more s' ≡ for_each rest handle s')
      → more (if takes then for_each rows (initial_row row h t) s else s)
        ≡ for_each (if takes then tag t rows ++ rest else rest) handle s
  with_table true t rows rest more s e =
      e (for_each rows (initial_row row h t) s) ∙ sym (for_each-tag t rows rest s)
  with_table false t rows rest more s e = e s

  pass-ranked :
      (takes : SbTable → Bool) (n : ℕ)
      → ((t : SbTable) → takes t ≡ (rank t == n))
      → (updates : Updates SbTable R) (s : S)
      → pass row h takes updates s ≡ for_each (ranked n updates) handle s
  unfolding pass ranked rows_where for_each
  pass-ranked takes n same [] s = refl
  pass-ranked takes n same ((t, rows) ∷ updates) s =
      with_table (takes t) t rows (ranked n updates) (pass row h takes updates) s
        (pass-ranked takes n same updates)
      ∙ ap (λ b. for_each (if b then tag t rows ++ ranked n updates else ranked n updates) handle s)
          (same t)

  ranked-no_datapaths :
      (updates : Updates SbTable R) → no_datapaths updates ≡ true → ranked 1 updates ≡ []
  unfolding no_datapaths ranked rows_where rank
  ranked-no_datapaths [] e = refl
  ranked-no_datapaths ((datapath_binding, rows) ∷ updates) e = ground (arith, e)
  ranked-no_datapaths ((chassis, rows) ∷ updates) e = ranked-no_datapaths updates e
  ranked-no_datapaths ((encap, rows) ∷ updates) e = ranked-no_datapaths updates e
  ranked-no_datapaths ((port_binding, rows) ∷ updates) e = ranked-no_datapaths updates e
  ranked-no_datapaths ((mac_binding, rows) ∷ updates) e = ranked-no_datapaths updates e
  ranked-no_datapaths ((other_sb, rows) ∷ updates) e = ranked-no_datapaths updates e

  -- The rows of the one table of datapaths.
  datapaths-ranked :
      (updates : Updates SbTable R)
      → datapaths_once updates ≡ true
      → ranked 1 updates ≡ tag datapath_binding (datapath_rows updates)
  unfolding datapaths_once ranked rows_where rank is_datapath datapath_rows tag
  datapaths-ranked [] e = refl
  datapaths-ranked ((datapath_binding, rows) ∷ updates) e =
      ap (λ rest. map (λ r. (datapath_binding, r)) rows ++ rest) (ranked-no_datapaths updates e)
      ∙ append-nil (map (λ r. (datapath_binding, r)) rows)
  datapaths-ranked ((chassis, rows) ∷ updates) e = datapaths-ranked updates e
  datapaths-ranked ((encap, rows) ∷ updates) e = datapaths-ranked updates e
  datapaths-ranked ((port_binding, rows) ∷ updates) e = datapaths-ranked updates e
  datapaths-ranked ((mac_binding, rows) ∷ updates) e = datapaths-ranked updates e
  datapaths-ranked ((other_sb, rows) ∷ updates) e = datapaths-ranked updates e

  -- The initial contents of the southbound database, with the datapaths at most once among the
  -- tables, are handled row by row: all chassis and encapsulations, then all datapaths, then all
  -- port and MAC bindings, and no row of another table.
  pub ovn_sb_process_initial_order :
      (updates : Updates SbTable R) (s : S)
      → datapaths_once updates ≡ true
      → ovn_sb_process_initial row h updates s
        ≡ for_each (ordered updates) (λ x. initial_row row h x.0 x.1) s
  unfolding ovn_sb_process_initial ordered handle tag
  ovn_sb_process_initial_order updates s once =
      let s1 = pass row h is_physical updates s in
      let s2 = for_each (datapath_rows updates) (initial_row row h datapath_binding) s1 in
      pass-ranked is_binding 2 binding-rank updates s2
      ∙ sym (
          for_each-append (ranked 0 updates) (ranked 1 updates ++ ranked 2 updates) handle s
          ∙ ap (for_each (ranked 1 updates ++ ranked 2 updates) handle)
              (sym (pass-ranked is_physical 0 physical-rank updates s))
          ∙ ap (λ d. for_each (d ++ ranked 2 updates) handle s1) (datapaths-ranked updates once)
          ∙ for_each-tag datapath_binding (datapath_rows updates) (ranked 2 updates) s1)
