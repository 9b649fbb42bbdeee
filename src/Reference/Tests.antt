-- ===== src/Reference/Tests.antt =====
-- The reference engine at work, and the theorems at its states.
use cpp_orderbook_engine.Prelude.{◌≡◌, refl, sym, subst, ◌-ℤ◌, true, none, arith}
use cpp_orderbook_engine.Types.{buy, sell, limit, IncomingOrder}
use cpp_orderbook_engine.Map.{find, assign}
use cpp_orderbook_engine.Engine.Tests.{order}
use cpp_orderbook_engine.Reference.{ReferenceEngine, reference_engine}
use cpp_orderbook_engine.Reference.Matching.{match_levels}
use cpp_orderbook_engine.Reference.Calls.{
  process_order, cancel_order, verify_invariants, finish_order, closing_report, insert_order,
  push_node,
}
use cpp_orderbook_engine.Reference.Grows.{
  Grows, begins, processes, cancels, Grows-IsWell, verify_invariants-Grows,
}
use cpp_orderbook_engine.Reference.Shelf.{IsShelf}
use cpp_orderbook_engine.Reference.Process.{begin, shelves-side_levels}
use cpp_orderbook_engine.Reference.Outer.{Matched, match_levels-Matched}

-- A sell of 5 at 10, then a buy of 8 at 12 that takes it and rests with 3, which is then cancelled.
abbrev sold : ReferenceEngine
sold = (process_order reference_engine (order 1 sell limit 10 5)).1

abbrev buy_order : IncomingOrder
buy_order = order 2 buy limit 12 8

abbrev bought : ReferenceEngine
bought = (process_order sold buy_order).1

sold-Grows : Grows sold
unfolding reference_engine find
sold-Grows =
    processes (order 1 sell limit 10 5) begins refl (λ _. (10, refl, omega arith, omega arith))

sold_fresh : find 2 sold.order_map ≡ none
unfolding reference_engine find process_order match_levels finish_order closing_report insert_order
    push_node assign ◌-ℤ◌
sold_fresh = refl

bought-Grows : Grows (cancel_order bought 2).1
bought-Grows =
    cancels 2
      (processes buy_order sold-Grows sold_fresh (λ _. (12, refl, omega arith, omega arith)))

verify_invariants-Grows_example : verify_invariants (cancel_order bought 2).1 ≡ true
verify_invariants-Grows_example = verify_invariants-Grows (cancel_order bought 2).1 bought-Grows

match_levels-Matched_example :
    Matched buy sold.bids sold.asks sold.fresh
      (begin sold buy_order)
      (match_levels buy sold.asks (begin sold buy_order))
match_levels-Matched_example =
    match_levels-Matched buy sold.bids sold.fresh sold.asks (begin sold buy_order)
      (subst (IsShelf sold.nodes sold.fresh sold.order_map) (sym (shelves-side_levels buy sold))
        (Grows-IsWell sold-Grows).shelved)
      (omega arith)
