-- ===== src/Reference/Grows.antt =====
-- Every call keeps what `verify_invariants` of the reference engine checks.
use cpp_orderbook_engine.Prelude.{
  ℕ, ◌<◌, ◌^◌, ◌-◌, ◌≡◌, ◌≢◌, refl, sym, subst, ◌∙◌, ap, pos, ◌≤ℤ◌, leb_ℤ, true, false, ◌||◌, none,
  arith, ◌==◌, Bool-cases, Option-cases, ◌⊎◌, inl, inr,
}
use cpp_orderbook_engine.Types.{OrderId, Side, buy, sell, limit, IncomingOrder, Quantity}
use cpp_orderbook_engine.Map.{find}
use cpp_orderbook_engine.Engine.{opposite}
use cpp_orderbook_engine.Engine.Match.{crosses}
use cpp_orderbook_engine.Reference.{ReferenceEngine, RefOrder, side_levels, reference_engine}
use cpp_orderbook_engine.Reference.Calls.{
  verify_invariants, process_order, cancel_order, finish_order, insert_order, rest_of, push_node,
}
use cpp_orderbook_engine.Reference.Shelf.{all_levels, IsAhead, listed}
use cpp_orderbook_engine.Reference.Insert.{insert_order-IsShelved}
use cpp_orderbook_engine.Reference.Push.{
  listed-push_node, grown, grown_cases, side_levels-insert_order,
}
use cpp_orderbook_engine.Reference.Process.{
  match_result, engine_matched, accepted, refused, reference_levels, reference_engine-IsShelved,
}
use cpp_orderbook_engine.Reference.Cancel.{
  cancel_order-IsShelved, reference_unknown, levels_kept, cancel_order_found,
}
use cpp_orderbook_engine.Reference.Verify.{IsWell, verify_invariants-IsWell}
use cpp_orderbook_engine.Reference.Remains.{
  finish_cases, none_crosses, unmapped_matched, matched-IsWell,
}

-- A level after an insertion is the new one or an old one.
insert_listed :
    (e : ReferenceEngine) (o : RefOrder) (i : ℕ) (side : Side) (j : ℕ)
    → o.price ≡ pos i
    → listed (all_levels (insert_order e o) side) j ≡ true
    → ((side ≡ o.side) × (j ≡ i)) ⊎ (listed (all_levels e side) j ≡ true)
insert_listed e o i side j price h =
    let ls = push_node o.side (pos i) e.fresh (side_levels o.side e) in
    let h' : listed (grown o.side (all_levels e) ls side) j ≡ true =
      ap
        (λ p.
          listed
            (grown o.side (all_levels e) (push_node o.side p e.fresh (side_levels o.side e)) side)
            j)
        (sym price)
      ∙ ap (λ l. listed l j) (sym (side_levels-insert_order e o side))
      ∙ h in
    elim (grown_cases o.side (all_levels e) ls side) [
      | inl (same, p) ↦
          elim (listed-push_node o.side i e.fresh (side_levels o.side e) j
            (ap (λ l. listed l j) (sym p) ∙ h')) [
              | inl new ↦ inl (same, new)
              | inr old ↦ inr (subst (λ t. listed (all_levels e t) j ≡ true) (sym same) old)
            ]
      | inr (ne, p) ↦ inr (ap (λ l. listed l j) (sym p) ∙ h')
    ]

-- An order that crosses no level of the other side keeps the sides apart.
rest_apart :
    (s : Side) (e : ReferenceEngine) (o : IncomingOrder) (i : ℕ)
    → o.price ≡ pos i
    → o.type ≡ limit
    → ((j : ℕ) → listed (all_levels e (opposite s)) j ≡ true → crosses s o (pos j) ≡ false)
    → (j : ℕ) → listed (all_levels e (opposite s)) j ≡ true
    → IsAhead s j i
unfolding crosses
rest_apart buy e o i price type c j h = let k = rw (type, price) at (c j h) in ground arith
rest_apart sell e o i price type c j h = let k = rw (type, price) at (c j h) in ground arith

abbrev Clears : Side → ReferenceEngine → IncomingOrder → Type 0
Clears s e o = (j : ℕ) → listed (all_levels e (opposite s)) j ≡ true → crosses s o (pos j) ≡ false

rest-IsWell :
    (e : ReferenceEngine) (o : IncomingOrder) (left : Quantity) (i : ℕ)
    → IsWell e
    → find o.id e.order_map ≡ none
    → o.type ≡ limit
    → o.price ≡ pos i
    → (0 < i) × (i < 2 ^ 63 - 1)
    → Clears o.side e o
    → IsWell (insert_order e (rest_of o left))
rest-IsWell e o left i w fresh type price range c = record {
  shelved = (insert_order-IsShelved e (rest_of o left) i w.shelved price refl fresh).0;
  priced = λ side j h. elim (insert_listed e (rest_of o left) i side j price h) [
    | inl (e1, e2) ↦ subst (λ k. (0 < k) × (k < 2 ^ 63 - 1)) (sym e2) range
    | inr old ↦ w.priced side j old
  ];
  apart = λ i' j hb ha. elim (insert_listed e (rest_of o left) i buy i' price hb) [
    | inl (b1, b2) ↦ elim (insert_listed e (rest_of o left) i sell j price ha) [
      | inl (a1, a2) ↦ absurd (buy_sell (b1 ∙ sym a1))
      | inr old ↦
          subst (λ k. k < j) (sym b2)
            (rest_apart buy e o i price type (subst (λ s. Clears s e o) (sym b1) c) j old)
    ]
    | inr old ↦ elim (insert_listed e (rest_of o left) i sell j price ha) [
      | inl (a1, a2) ↦
          subst (λ k. i' < k) (sym a2)
            (rest_apart sell e o i price type (subst (λ s. Clears s e o) (sym a1) c) i' old)
      | inr old' ↦ w.apart i' j old old'
    ]
  ];
}
  where
    buy_sell : buy ≢ sell
    buy_sell e = cc

-- If the order may rest its price is one of 1 to 2 ^ 63 - 2.
abbrev pub IsPriced : IncomingOrder → Type 0
IsPriced o = o.type ≡ limit → (i : ℕ) × (o.price ≡ pos i) × (0 < i) × (i < 2 ^ 63 - 1)

accepted-IsWell :
    (e : ReferenceEngine) (o : IncomingOrder)
    → IsWell e
    → pos 0 ≤ℤ o.quantity
    → find o.id e.order_map ≡ none
    → IsPriced o
    → IsWell
        (finish_order o
          (engine_matched e o)
          (match_result e o).1.order.quantity
          (match_result e o).1.event).1
accepted-IsWell e o w n fresh range =
    let after = matched-IsWell e o w.shelved n w in
    elim (finish_cases o (engine_matched e o) (match_result e o).1.order.quantity
      (match_result e o).1.event) [
        | inl p ↦ subst IsWell (sym p) after
        | inr (ne, type, p) ↦
            let (i, price, low, high) = range type in
            subst IsWell (sym p) (
              rest-IsWell (engine_matched e o) o (match_result e o).1.order.quantity i after
                (unmapped_matched e o w.shelved n fresh) type price (low, high)
                (none_crosses e o w.shelved n ne))
      ]

process_order-IsWell :
    (e : ReferenceEngine) (o : IncomingOrder)
    → IsWell e
    → find o.id e.order_map ≡ none
    → IsPriced o
    → IsWell (process_order e o).1
process_order-IsWell e o w fresh range =
    elim (Bool-cases (leb_ℤ o.quantity (pos 0) || (o.id == 0))) [
      | inl h ↦ rw (refused e o h) w
      | inr h ↦
          let n : pos 0 ≤ℤ o.quantity = ground arith in
          rw (accepted e o h) (accepted-IsWell e o w n fresh range)
    ]

cancel_order-IsWell : (e : ReferenceEngine) (id : OrderId) → IsWell e → IsWell (cancel_order e id).1
cancel_order-IsWell e id w = elim (Option-cases (find id e.order_map)) [
  | inl f ↦ rw (reference_unknown e id f) w
  | inr (a, f) ↦
      let v = (cancel_order-IsShelved e id a w.shelved f).0 in
      let p = ap (λ r. r.1) (cancel_order_found e id a f) in
      let q = ap all_levels p ∙ levels_kept e _ _ in
      record {
        shelved = v;
        priced = λ side j h. w.priced side j (ap (λ l. listed (l side) j) (sym q) ∙ h);
        apart = λ i j hb ha.
            w.apart i j (ap (λ l. listed (l buy) i) (sym q) ∙ hb)
              (ap (λ l. listed (l sell) j) (sym q) ∙ ha);
      }
]

-- The engines that a sequence of calls leads to. An order has an id that is not in use, and, if it is a
-- limit order, a price from 1 to 2 ^ 63 - 2; it may be one that is refused.
pub data Grows : ReferenceEngine → Type 0 where
  begins : Grows reference_engine
  processes :
      {e : ReferenceEngine} (o : IncomingOrder)
      → Grows e
      → find o.id e.order_map ≡ none
      → IsPriced o
      → Grows (process_order e o).1
  cancels : {e : ReferenceEngine} (id : OrderId) → Grows e → Grows (cancel_order e id).1

reference_engine-IsWell : IsWell reference_engine
unfolding reference_engine
reference_engine-IsWell = record {
  shelved = reference_engine-IsShelved;
  priced = λ side j h. let h' = rw (reference_levels side) at h in absurd (cc);
  apart = λ i j hb ha. absurd (cc);
}

pub Grows-IsWell : {e : ReferenceEngine} → Grows e → IsWell e
Grows-IsWell begins = reference_engine-IsWell
Grows-IsWell (processes {e} o g fresh range) = process_order-IsWell e o (Grows-IsWell g) fresh range
Grows-IsWell (cancels {e} id g) = cancel_order-IsWell e id (Grows-IsWell g)

-- After every sequence of cancellations and orders, refused ones among them, each with an id that
-- is not in use and, if it is a limit order, a price from 1 to 2 ^ 63 - 2, the check
-- `verify_invariants` of the reference engine succeeds, also counting the levels whose orders are
-- all cancelled.
pub verify_invariants-Grows : (e : ReferenceEngine) → Grows e → verify_invariants e ≡ true
verify_invariants-Grows e g = verify_invariants-IsWell e (Grows-IsWell g)
