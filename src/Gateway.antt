-- ===== src/Gateway.antt =====
-- include/matching/order_gateway.h and src/order_gateway.cpp: the gateway that checks incoming orders,
-- numbers them and puts them into the queue.
pub mod Accepts
pub mod Numbers
mod Tests
use cpp_orderbook_engine.Prelude.{
  ℕ, ◌+◌, ◌%◌, ◌^◌, ℤ, pos, leb_ℤ, ◌==ℤ◌, Bool, not, ◌&&◌, ◌==◌, if◌then◌else◌, Option, List, [],
  ◌∷◌, ◌++◌,
}
use cpp_orderbook_engine.Types.{IncomingOrder, MatchEvent}
use cpp_orderbook_engine.Order.{is_limit, is_market}
use cpp_orderbook_engine.Queue.{SpscQueue, try_push}
use cpp_orderbook_engine.Engine.{MatchingEngine}
use cpp_orderbook_engine.Engine.Requests.{process_order}

-- The messages of `validate`: the source returns their concatenation.
pub data ValidationError : Type 0 where
  zero_id : ValidationError
  quantity_not_positive : ValidationError
  limit_price_not_positive : ValidationError
  market_with_price : ValidationError

abbrev pub report_if : Bool → ValidationError → List ValidationError
report_if wrong error = if wrong then error ∷ [] else []

unfoldable pub validate : IncomingOrder → List ValidationError
validate o =
    report_if (o.id == 0) zero_id
    ++ report_if (leb_ℤ o.quantity (pos 0)) quantity_not_positive
    ++ report_if (leb_ℤ o.price (pos 0) && is_limit o.type) limit_price_not_positive
    ++ report_if (is_market o.type && not (o.price ==ℤ pos 0)) market_with_price

-- The queue is shared with the consumer; the gateway holds a reference to it. Its capacity is 65536.
pub record OrderGateway : Type 0 where
  pub queue : SpscQueue IncomingOrder
  pub next_sequence : ℕ

unfoldable pub order_gateway : SpscQueue IncomingOrder → OrderGateway
order_gateway queue = record { queue = queue; next_sequence = 1 }

-- The order with the next sequence number as its timestamp.
abbrev pub sequenced : OrderGateway → IncomingOrder → IncomingOrder
sequenced g o = record o { timestamp = g.next_sequence }

unfoldable pub submit : OrderGateway → IncomingOrder → Bool × OrderGateway
submit g o =
    let (ok, queue) = try_push 16 g.queue (sequenced g o) in
    (ok, record { queue = queue; next_sequence = (g.next_sequence + 1) % 2 ^ 64 })

unfoldable pub submit_direct :
    OrderGateway
    → MatchingEngine
    → IncomingOrder
    → Option (MatchEvent × MatchingEngine) × OrderGateway
submit_direct g e o =
    (process_order e (sequenced g o), record g { next_sequence = (g.next_sequence + 1) % 2 ^ 64 })

unfoldable pub sequence_number : OrderGateway → ℕ
sequence_number g = g.next_sequence
