-- ===== src/Reference/Remains.antt =====
-- The levels that are left after the matching of the reference engine, and what becomes of the rest.
use cpp_orderbook_engine.Prelude.{
  ℕ, ◌≡◌, ◌≢◌, refl, sym, subst, ◌∙◌, ap, pos, ◌-ℤ◌, ◌≤ℤ◌, ◌==ℤ◌, ltb_ℤ, true, false, none, arith,
  Bool-cases, ◌⊎◌, inl, inr,
}
use cpp_orderbook_engine.Types.{
  Side, buy, sell, OrderType, limit, market, ioc, fok, IncomingOrder, Quantity, MatchEvent,
}
use cpp_orderbook_engine.Order.{is_limit}
use cpp_orderbook_engine.Map.{find}
use cpp_orderbook_engine.Engine.{opposite}
use cpp_orderbook_engine.Engine.Match.{crosses}
use cpp_orderbook_engine.Engine.Trace.{crosses-quantity}
use cpp_orderbook_engine.Reference.{ReferenceEngine, Levels, side_levels}
use cpp_orderbook_engine.Reference.Calls.{
  opposite_levels, finish_order, closing_report, insert_order, rest_of,
}
use cpp_orderbook_engine.Reference.Shelf.{all_levels, IsShelved, IsShelf, listed, shelves}
use cpp_orderbook_engine.Reference.Outer.{Matched, match_levels-Matched}
use cpp_orderbook_engine.Reference.Process.{
  match_result, engine_matched, matched_run, all_levels-matched, shelves-side_levels, begin,
}
use cpp_orderbook_engine.Reference.Verify.{IsWell}

is_limit-limit : (type : OrderType) → is_limit type ≡ true → type ≡ limit
is_limit-limit limit h = refl
is_limit-limit market h = absurd (cc)
is_limit-limit ioc h = absurd (cc)
is_limit-limit fok h = absurd (cc)

-- The end of `process_order`: nothing changes, or a limit order rests.
pub finish_cases :
    (o : IncomingOrder) (e : ReferenceEngine) (left : Quantity) (ev : MatchEvent)
    → ((finish_order o e left ev).1 ≡ e)
      ⊎ ((left ≢ pos 0)
          × (o.type ≡ limit)
          × ((finish_order o e left ev).1 ≡ insert_order e (rest_of o left)))
unfolding finish_order closing_report
finish_cases o e left ev = elim (Bool-cases (left ==ℤ pos 0)) [
  | inl z ↦ inl (rw (finish_order, z) refl)
  | inr z ↦ elim (Bool-cases (is_limit o.type)) [
    | inl l ↦ inr (
      λ e0. (let z' : (pos 0 ==ℤ pos 0) ≡ false = rw e0 at z in absurd (ground arith)),
      is_limit-limit o.type l,
      elim (Bool-cases (ltb_ℤ (pos 0) (o.quantity -ℤ left))) [
        | inl k ↦ rw (finish_order, z, k, l) refl
        | inr k ↦ rw (finish_order, z, k, l) refl
      ],
    )
    | inr l ↦ inl (elim (Bool-cases (ltb_ℤ (pos 0) (o.quantity -ℤ left))) [
      | inl k ↦ rw (finish_order, z, k, l) refl
      | inr k ↦ rw (finish_order, z, k, l) refl
    ])
  ]
]

shelves-listed :
    (s : Side) (other ls ls' : Levels)
    → ((j : ℕ) → listed ls' j ≡ true → listed ls j ≡ true)
    → (side : Side) (j : ℕ) → listed (shelves s other ls' side) j ≡ true
    → listed (shelves s other ls side) j ≡ true
shelves-listed buy other ls ls' sub buy j h = h
shelves-listed buy other ls ls' sub sell j h = sub j h
shelves-listed sell other ls ls' sub buy j h = sub j h
shelves-listed sell other ls ls' sub sell j h = h

shelves-opposite : (s : Side) (other ls : Levels) → shelves s other ls (opposite s) ≡ ls
shelves-opposite buy other ls = refl
shelves-opposite sell other ls = refl

-- The levels after the matching: some are gone, and none is left that an order that is not exhausted
-- crosses.
module _ (e : ReferenceEngine) (o : IncomingOrder) (v : IsShelved e) (n : pos 0 ≤ℤ o.quantity) where
  d :
      Matched o.side
        (side_levels o.side e)
        (opposite_levels o.side e)
        e.fresh
        (begin e o)
        (match_result e o)
  d =
      match_levels-Matched o.side (side_levels o.side e) e.fresh (opposite_levels o.side e)
        (begin e o)
        (subst (IsShelf e.nodes e.fresh e.order_map) (sym (shelves-side_levels o.side e)) v) n

  fewer_levels :
      (side : Side) (j : ℕ)
      → listed (all_levels (engine_matched e o) side) j ≡ true
      → listed (all_levels e side) j ≡ true
  fewer_levels side j h =
      let k : listed (shelves o.side (side_levels o.side e) (match_result e o).0 side) j ≡ true =
        ap (λ f. listed (f side) j) (sym (all_levels-matched o.side e (match_result e o))) ∙ h in
      ap (λ f. listed (f side) j) (sym (shelves-side_levels o.side e))
      ∙ shelves-listed o.side (side_levels o.side e) (opposite_levels o.side e) (match_result e o).0
          d.fewer side j k

  pub none_crosses :
      (match_result e o).1.order.quantity ≢ pos 0
      → (j : ℕ) → listed (all_levels (engine_matched e o) (opposite o.side)) j ≡ true
      → crosses o.side o (pos j) ≡ false
  none_crosses ne j h = elim d.emptied [
    | inl z ↦ absurd (ne z)
    | inr c ↦
        let k : listed (match_result e o).0 j ≡ true =
          ap (λ ls. listed ls j)
            (sym (shelves-opposite o.side (side_levels o.side e) (match_result e o).0))
          ∙ ap (λ f. listed (f (opposite o.side)) j)
              (sym (all_levels-matched o.side e (match_result e o)))
          ∙ h in
        sym (crosses-quantity o.side o (match_result e o).1.order.quantity (pos j))
        ∙ ap (λ m. crosses o.side m (pos j)) (sym d.kept)
        ∙ c j k
  ]

  pub unmapped_matched :
      find o.id e.order_map ≡ none → find o.id (engine_matched e o).order_map ≡ none
  unmapped_matched f = d.unmapped o.id f

  pub matched-IsWell : IsWell e → IsWell (engine_matched e o)
  matched-IsWell w = record {
    shelved = let (_, _, v') = matched_run e o v n in v';
    priced = λ side j h. w.priced side j (fewer_levels side j h);
    apart = λ i j hb ha. w.apart i j (fewer_levels buy i hb) (fewer_levels sell j ha);
  }
