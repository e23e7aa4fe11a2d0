-- ===== src/Uninos/Pbr/Sequence/Slots.antt =====
-- The numbers of the rules: which one is chosen, and the ranges of the kinds of routes.
use govtep.Base.{
  ℕ, zero, suc, ◌+◌, ◌≤◌, ◌<◌, ◌≡◌, refl, ap, subst, ◌∙◌, ◌≢◌, ◌↔◌, ◌⊎◌, inl, inr, true, false,
  Option, none, some, List, [], ◌∷◌, arith, ◌==◌, if◌then◌else◌, ==_iff, Bool-cases, Option-cases,
  All,
}
use govtep.Golang.Int.{plus, is_nat, pos}
use govtep.Uninos.Databases.{TableExternalIp, Vtepdb, Configdb}
use govtep.Uninos.Pbr.Sequence.{
  PbrType, PbrObj, EipOp, offset, ext_ip_index, sequence_used, unused_sequence, locate_eip,
  save_sequence, number_eip, finish_sequence, get_sequence_from_pbr, lb, dnat_and_snat, dnat, snat,
  other_type, no_eip_op, eip_op_add,
}

-- The four ranges of rule numbers.
pub data Range : Type 0 where
  with_port without_port to_dnat to_snat : Range

abbrev pub range : PbrType → ℕ → Range
range lb port = if port == 0 then without_port else with_port
range dnat_and_snat port = to_dnat
range dnat port = to_dnat
range snat port = to_snat
range other_type port = with_port

base : Range → ℕ
base with_port = 0
base without_port = 4000
base to_dnat = 8000
base to_snat = 12000

offset-base : (t : PbrType) (p : ℕ) → offset t p ≡ base (range t p)
unfolding offset base
offset-base lb p = ground arith
offset-base _ p = refl

base_disjoint :
    (r s : Range) (m n : ℕ)
    → 1 ≤ m
    → m ≤ 4000
    → 1 ≤ n
    → n ≤ 4000
    → (m + base r ≡ n + base s) ↔ ((m ≡ n) × (r ≡ s))
unfolding base
base_disjoint with_port with_port m n a b c d = (λ e. (omega arith, refl), λ h. omega arith)
base_disjoint _ _ m n a b c d = (λ e. ground arith, λ h. ground arith)

-- Two routes with external addresses numbered from 1 to 4000 have the same rule number exactly if
-- they have the same range and the same address number. So a destination NAT and a full NAT of one
-- address share their number, and so do a load balancer with a port and a route of no known type.
pub offset_disjoint :
    (t u : PbrType) (p q m n : ℕ)
    → 1 ≤ m
    → m ≤ 4000
    → 1 ≤ n
    → n ≤ 4000
    → (m + offset t p ≡ n + offset u q) ↔ ((m ≡ n) × (range t p ≡ range u q))
offset_disjoint t u p q m n a b c d =
    rw (offset-base t p, offset-base u q) (base_disjoint (range t p) (range u q) m n a b c d)

-- No row has the number `i`.
abbrev pub Unused : List TableExternalIp → ℕ → Type 0
Unused rows i = All (λ row. row.sequence ≢ pos i) rows

sequence_used_iff :
    (i : ℕ) (rows : List TableExternalIp) → (sequence_used i rows ≡ false) ↔ Unused rows i
unfolding sequence_used
sequence_used_iff i [] = (λ _. tt, λ _. refl)
sequence_used_iff i (row ∷ rows) =
    let ih = sequence_used_iff i rows in
    (λ h. (λ e. ground arith, ih.0 (ground arith)), λ h. ground (arith, h.0, ih.1 h.1))

-- The outcome of the search among `n` numbers from `i` on.
Found : List TableExternalIp → ℕ → ℕ → Option ℕ → Type 0
Found rows n i none = (k : ℕ) → i ≤ k → k < i + n → ¬ Unused rows k
Found rows n i (some j) =
    (i ≤ j) × (j < i + n) × Unused rows j × ((k : ℕ) → i ≤ k → k < j → ¬ Unused rows k)

-- What holds of the numbers from `i + 1` on and of `i` holds of the numbers from `i` on.
extend_down :
    (rows : List TableExternalIp) (i j : ℕ)
    → ¬ Unused rows i
    → ((k : ℕ) → suc i ≤ k → k < j → ¬ Unused rows k)
    → (k : ℕ) → i ≤ k
    → k < j
    → ¬ Unused rows k
extend_down rows i j here above k a b = elim (Bool-cases (i == k)) [
  | inl e ↦ subst (λ x. ¬ Unused rows x) ((==_iff i k).0 e) here
  | inr e ↦ above k (ground arith) b
]

Found-suc :
    (rows : List TableExternalIp) (n i : ℕ) (o : Option ℕ)
    → ¬ Unused rows i
    → Found rows n (suc i) o
    → Found rows (suc n) i o
unfolding Found
Found-suc rows n i none here h = λ k a b. extend_down rows i (suc i + n) here h k a (omega arith)
Found-suc rows n i (some j) here h =
    (omega (arith, h.0), omega (arith, h.1), h.2, extend_down rows i j here h.3)

unused_sequence-Found :
    (n i : ℕ) (rows : List TableExternalIp) → Found rows n i (unused_sequence n i rows)
unfolding unused_sequence Found
unused_sequence-Found zero i rows = λ k a b. absurd (omega arith)
unused_sequence-Found (suc n) i rows = elim (Bool-cases (sequence_used i rows)) [
  | inl used ↦
      rw (used, unused_sequence)
        (Found-suc rows n i _ (λ u. cc (used, (sequence_used_iff i rows).1 u))
          (unused_sequence-Found n (suc i) rows))
  | inr free ↦
      rw (free, unused_sequence)
        (omega arith, omega arith, (sequence_used_iff i rows).0 free, λ k a b. absurd (omega arith))
]

module _ {W : Type 0} (vtepdb : Vtepdb W) (cdb : Configdb W) where
  number_new :
      (pbr : PbrObj) (table : TableExternalIp) (w : W)
      → is_nat table.sequence 0 ≡ true
      → number_eip vtepdb cdb pbr table w
        ≡ save_sequence vtepdb cdb pbr
            (unused_sequence 4000 1 (vtepdb.external_ip_get w table.vrf))
            w
  unfolding number_eip
  number_new pbr table w h = rw h

  -- A row without a number gets the least one from 1 to 4000 that no row of its VRF has, and the
  -- number is written to the database. If all are taken it is numbered 0, with no error and no write.
  pub number_eip_new :
      (pbr : PbrObj) (table : TableExternalIp) (w : W)
      → table.sequence ≡ pos 0
      → let rows = vtepdb.external_ip_get w table.vrf in
        ((i : ℕ) × (1 ≤ i)
          × (i ≤ 4000)
          × Unused rows i
          × ((k : ℕ) → 1 ≤ k → k < i → ¬ Unused rows k)
          × (number_eip vtepdb cdb pbr table w
              ≡ (pos i, (vtepdb.external_ip_set_sequence (ext_ip_index pbr) (pos i) w).1)))
        ⊎ (((k : ℕ) → 1 ≤ k → k ≤ 4000 → ¬ Unused rows k)
            × (number_eip vtepdb cdb pbr table w ≡ (pos 0, w)))
  unfolding Found save_sequence
  number_eip_new pbr table w zero_seq =
      let rows = vtepdb.external_ip_get w table.vrf in
      let new = number_new pbr table w (rw zero_seq) in
      let found = unused_sequence-Found 4000 1 rows in
      elim (Option-cases (unused_sequence 4000 1 rows)) [
        | inl e ↦
            let f = subst (Found rows 4000 1) e found in
            inr (λ k a b. f k a (omega arith), new ∙ ap (λ o. save_sequence vtepdb cdb pbr o w) e)
        | inr (i, e) ↦
            let f = subst (Found rows 4000 1) e found in
            inl (
              i,
              f.0,
              omega (arith, f.1),
              f.2,
              f.3,
              new ∙ ap (λ o. save_sequence vtepdb cdb pbr o w) e,
            )
      ]

  number_kept :
      (pbr : PbrObj) (table : TableExternalIp) (w : W)
      → is_nat table.sequence 0 ≡ false
      → number_eip vtepdb cdb pbr table w ≡ (table.sequence, w)
  unfolding number_eip
  number_kept pbr table w h = rw h

  finish_kept :
      (pbr : PbrObj) (table : TableExternalIp) (x : Option TableExternalIp × W)
      → is_nat table.sequence 0 ≡ false
      → x.0 ≡ some table
      → finish_sequence vtepdb cdb pbr x
        ≡ (some (plus table.sequence (offset pbr.type pbr.port)), x.1)
  unfolding finish_sequence
  finish_kept pbr table (none, w) h e = cc
  finish_kept pbr table (some t, w) h e =
      let same : t ≡ table = cc in
      ap (λ t. finish_sequence vtepdb cdb pbr (some t, w)) same
      ∙ ap (λ r. (some (plus r.0 (offset pbr.type pbr.port)), r.1)) (number_kept pbr table w h)

  locate_kept :
      (pbr : PbrObj) (op : EipOp) (table : TableExternalIp) (w : W)
      → (locate_eip vtepdb cdb pbr op (some table) w).0 ≡ some table
  unfolding locate_eip
  locate_kept pbr eip_op_add table w = refl
  locate_kept pbr _ table w = refl

  get_found :
      (pbr : PbrObj) (op : EipOp) (table : TableExternalIp) (w : W)
      → vtepdb.external_ip_get_by_index w (ext_ip_index pbr) ≡ some table
      → is_nat table.sequence 0 ≡ false
      → get_sequence_from_pbr vtepdb cdb pbr op w ≡ (
        some (plus table.sequence (offset pbr.type pbr.port)),
        (locate_eip vtepdb cdb pbr op (some table) w).1,
      )
  unfolding get_sequence_from_pbr
  get_found pbr op table w found seq =
      ap (λ o. finish_sequence vtepdb cdb pbr (locate_eip vtepdb cdb pbr op o w)) found
      ∙ finish_kept pbr table _ seq (locate_kept pbr op table w)

  -- A route whose external address has a number keeps it: whatever the operation, the rule number is
  -- that number in the range of the route's type. Looking it up changes nothing, and adding a route
  -- only counts one more reference.
  pub get_sequence_from_pbr_kept :
      (pbr : PbrObj) (op : EipOp) (table : TableExternalIp) (w : W)
      → vtepdb.external_ip_get_by_index w (ext_ip_index pbr) ≡ some table
      → is_nat table.sequence 0 ≡ false
      → ((get_sequence_from_pbr vtepdb cdb pbr op w).0
          ≡ some (plus table.sequence (offset pbr.type pbr.port)))
        × (get_sequence_from_pbr vtepdb cdb pbr no_eip_op w
            ≡ (some (plus table.sequence (offset pbr.type pbr.port)), w))
        × ((get_sequence_from_pbr vtepdb cdb pbr eip_op_add w).1
            ≡ (vtepdb.external_ip_set_ref_count (ext_ip_index pbr) (plus table.ref_count 1) w).1)
  unfolding locate_eip
  get_sequence_from_pbr_kept pbr op table w found seq = (
    ap (λ r. r.0) (get_found pbr op table w found seq),
    get_found pbr no_eip_op table w found seq,
    ap (λ r. r.1) (get_found pbr eip_op_add table w found seq),
  )
