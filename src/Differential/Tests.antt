-- ===== src/Differential/Tests.antt =====
-- The two engines at work together, and the depth, the snapshot and the volume of the book that they
-- agree on.
use cpp_orderbook_engine.Prelude.{
  ℕ, ◌^◌, ◌≡◌, refl, sym, subst, ap, ◌∙◌, pos, ◌<ℤ◌, ◌==ℤ◌, ◌-ℤ◌, ◌+ℤ◌, false, some, List, [], ◌∷◌,
  arith, Option, Bool-cases, inl, inr,
}
use cpp_orderbook_engine.Types.{Side, buy, sell, limit, IncomingOrder, MatchEvent}
use cpp_orderbook_engine.Engine
use cpp_orderbook_engine.Engine.Requests
use cpp_orderbook_engine.Engine.{MatchingEngine}
use cpp_orderbook_engine.Engine.Tests.{
  order, result, new_engine, sell_order, after_sell, buy_order, buy_valid, buy_fresh, buy-InRange,
  ten_in_range, sell_returns, buy_returns, sell_valid, sell_fresh, sell-InRange, new_room,
  sold_room,
}
use cpp_orderbook_engine.Engine.Sound.{result_eq}
use cpp_orderbook_engine.Engine.Abstract.{entries, entries_of}
use cpp_orderbook_engine.Engine.Verify.{Uncrossed}
use cpp_orderbook_engine.Engine.Depth.{quantity_left, left_at, resting_quantity_lem}
use cpp_orderbook_engine.Order.{Slot, Orders}
use cpp_orderbook_engine.Ladder.Side.{nonempty}
use cpp_orderbook_engine.Map.{find, assign}
use cpp_orderbook_engine.MarketData.{TopOfBook, get_top_of_book, market_data_handler}
use cpp_orderbook_engine.MarketData.Volume.{Counted, on_match_event-process_order}
use cpp_orderbook_engine.MarketData.Top.{IsTop, IsSpread, Fits, get_top_of_book_lem}
use cpp_orderbook_engine.Reference.Shelf.{book_of}
use cpp_orderbook_engine.Reference.Matching.{match_levels}
use cpp_orderbook_engine.Reference.Calls.{finish_order, closing_report, insert_order, push_node}
use cpp_orderbook_engine.Reference
use cpp_orderbook_engine.Reference.Calls
use cpp_orderbook_engine.Reference.{ReferenceEngine, reference_engine}
use cpp_orderbook_engine.Differential.{Agrees}
use cpp_orderbook_engine.Differential.Ids.{cancel_order-Agrees}
use cpp_orderbook_engine.Differential.Orders.{process_order-Agrees, process_order-rejects_both}
use cpp_orderbook_engine.Differential.Depth.{resting_quantity-Agrees}
use cpp_orderbook_engine.Differential.Stream.{
  Request, submit, withdraw, serve, serve_reference, Admits, ends, refuses, submits, withdraws,
  matching_engine-Agrees, serve-reference_engine,
}

abbrev sold_reference : ReferenceEngine
sold_reference = (Calls.process_order reference_engine sell_order).1

-- Both engines with the sell of 5 at 10.
sold-Agrees : Agrees after_sell.1 sold_reference
sold-Agrees =
    let new = matching_engine-Agrees (pos 100) 10 (omega arith) (omega arith) in
    let (ev, e, p, told, s) =
      process_order-Agrees new_engine reference_engine sell_order new sell_valid sell_fresh
        sell-InRange (λ _. new_room) in
    subst (λ w. Agrees w sold_reference) (sym (ap (λ w. (result w).1) p)) s

process_order-Agrees_example :
    (ev : MatchEvent) × (e : MatchingEngine) × (Requests.process_order after_sell.1 buy_order
      ≡ some (ev, e))
    × ((Calls.process_order sold_reference buy_order).0 ≡ ev)
    × Agrees e (Calls.process_order sold_reference buy_order).1
process_order-Agrees_example =
    process_order-Agrees after_sell.1 sold_reference buy_order sold-Agrees buy_valid buy_fresh
      buy-InRange (λ _. sold_room)

cancel_order-Agrees_example :
    ((Calls.cancel_order sold_reference 1).0 ≡ (Requests.cancel_order after_sell.1 1).0)
    × Agrees (Requests.cancel_order after_sell.1 1).1 (Calls.cancel_order sold_reference 1).1
cancel_order-Agrees_example = cancel_order-Agrees after_sell.1 sold_reference 1 sold-Agrees

resting_quantity-Agrees_example :
    Engine.resting_quantity after_sell.1 sell (pos 10)
    ≡ some (Reference.resting_quantity sold_reference sell (pos 10))
resting_quantity-Agrees_example =
    resting_quantity-Agrees after_sell.1 sold_reference sell 10 sold-Agrees ten_in_range

-- The book of the reference engine with the sell: less than 2 ^ 63 at each price, and no bids.
sold_left : (side : Side) (i : ℕ) → quantity_left (book_of sold_reference side i) <ℤ pos (2 ^ 63)
unfolding reference_engine find Calls.process_order match_levels finish_order closing_report
    insert_order push_node assign ◌-ℤ◌ ◌+ℤ◌
sold_left buy i = omega arith
sold_left sell i = elim (Bool-cases (pos 10 ==ℤ pos i)) [
  | inl at ↦ rw at (omega arith)
  | inr off ↦ rw off (omega arith)
]

no_bids : (i : ℕ) → book_of sold_reference buy i ≡ []
unfolding reference_engine find Calls.process_order match_levels finish_order closing_report
    insert_order push_node assign ◌-ℤ◌
no_bids i = refl

sold-Fits : Fits after_sell.1.pool.pool sold-Agrees.book
sold-Fits side i =
    subst (λ b. quantity_left (b side i) <ℤ pos (2 ^ 63)) (sym sold-Agrees.same) (sold_left side i)

without_entries : (mem : Orders) (xs : List Slot) → entries_of mem xs ≡ [] → nonempty xs ≡ false
without_entries mem [] e = refl
without_entries mem (x ∷ xs) e = absurd (cc)

sold-Uncrossed : Uncrossed sold-Agrees.book
sold-Uncrossed i j bid ask =
    let none_left =
      without_entries after_sell.1.pool.pool (sold-Agrees.book buy i)
        (ap (λ b. b buy i) sold-Agrees.same ∙ no_bids i) in
    absurd (cc)

resting_quantity_lem_example :
    Engine.resting_quantity after_sell.1 sell (pos 10)
    ≡ some (left_at (entries after_sell.1.pool.pool sold-Agrees.book) sell (pos 10))
resting_quantity_lem_example =
    resting_quantity_lem after_sell.1 sold-Agrees.free sold-Agrees.book sell (pos 10)
      sold-Agrees.booked sold-Agrees.positive (sold-Fits sell 10)

get_top_of_book_lem_example :
    (t : TopOfBook) × (get_top_of_book after_sell.1 ≡ some t)
    × IsTop buy after_sell.1.pool.pool sold-Agrees.book t.best_ask t.ask_quantity
    × IsTop sell after_sell.1.pool.pool sold-Agrees.book t.best_bid t.bid_quantity
    × IsSpread t.best_bid t.best_ask t.spread
get_top_of_book_lem_example =
    get_top_of_book_lem after_sell.1 sold-Agrees.free sold-Agrees.book sold-Agrees.booked
      sold-Agrees.positive sold-Uncrossed sold-Fits

-- A handler that adds up volumes, which has counted 7.
on_match_event-process_order_example :
    Counted market_data_handler (pos 7) buy_order (Requests.process_order after_sell.1 buy_order)
on_match_event-process_order_example =
    on_match_event-process_order market_data_handler (pos 7) after_sell.1 sold-Agrees.free
      sold-Agrees.book buy_order sold-Agrees.booked sold-Agrees.positive buy_valid buy_fresh
      buy-InRange

-- An order for nothing.
abbrev no_order : IncomingOrder
no_order = order 3 buy limit 12 0

process_order-rejects_both_example :
    (Requests.process_order after_sell.1 no_order
      ≡ some ((Calls.process_order sold_reference no_order).0, after_sell.1))
    × ((Calls.process_order sold_reference no_order).1 ≡ sold_reference)
process_order-rejects_both_example =
    process_order-rejects_both after_sell.1 sold_reference no_order refl

-- A sell of 5 at 10, a buy of 8 at 12, an order for nothing, and the cancellation of the buy.
abbrev stream : List Request
stream = submit sell_order ∷ submit buy_order ∷ submit no_order ∷ withdraw 2 ∷ []

-- What a result admits, by the engine that the run shows.
returned_in :
    {x : Option (MatchEvent × MatchingEngine)} {r : MatchEvent × MatchingEngine} {ev : MatchEvent}
    {e : MatchingEngine} {rs : List Request}
    → x ≡ some r
    → x ≡ some (ev, e)
    → Admits r.1 rs
    → Admits e rs
returned_in {rs} p q a = subst (λ w. Admits w rs) (ap (λ w. w.1) (result_eq p q)) a

stream-Admits : Admits new_engine stream
stream-Admits =
    submits sell_valid sell_fresh sell-InRange (λ _. new_room)
      (λ ev e p. returned_in sell_returns p (
        submits buy_valid buy_fresh buy-InRange (λ _. sold_room)
          (λ ev' e' p'. returned_in buy_returns p' (refuses refl (withdraws ends)))))

serve-reference_engine_example :
    (e : MatchingEngine) × (serve new_engine stream
      ≡ some ((serve_reference reference_engine stream).0, e))
serve-reference_engine_example =
    serve-reference_engine (pos 100) 10 stream (omega arith) (omega arith) stream-Admits
