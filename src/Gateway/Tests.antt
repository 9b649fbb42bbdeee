-- ===== src/Gateway/Tests.antt =====
-- The theorems on the gateway at an order and a new queue.
use cpp_orderbook_engine.Prelude.{
  ◌+◌, ◌<◌, ◌^◌, ◌≡◌, ◌↔◌, refl, pos, true, List, [], ◌∷◌, length, arith,
}
use cpp_orderbook_engine.Types.{buy, limit, market, IncomingOrder}
use cpp_orderbook_engine.Queue.{spsc_queue}
use cpp_orderbook_engine.Queue.Window.{IsQueue, spsc_queue-IsQueue}
use cpp_orderbook_engine.Engine.Requests.{validate_order}
use cpp_orderbook_engine.Gateway.{OrderGateway, order_gateway, validate}
use cpp_orderbook_engine.Gateway.Accepts.{validate-validate_order}
use cpp_orderbook_engine.Gateway.Numbers.{Submitted, submit_all, submit_all-Submitted}

abbrev order : IncomingOrder
order = record { id = 1; side = buy; type = limit; price = pos 10; quantity = pos 5; timestamp = 0 }

abbrev gateway : OrderGateway
gateway = order_gateway (spsc_queue order)

validate-validate_order_example :
    (validate order ≡ [])
    ↔ ((validate_order order ≡ true) × ((order.type ≡ market) → order.price ≡ pos 0))
validate-validate_order_example = validate-validate_order order

abbrev two_orders : List IncomingOrder
two_orders = order ∷ order ∷ []

gateway-IsQueue : IsQueue 16 gateway.queue []
unfolding order_gateway
gateway-IsQueue = spsc_queue-IsQueue 16 order

tail_in_range : gateway.queue.tail + length two_orders < 2 ^ 64
unfolding order_gateway spsc_queue
tail_in_range = omega arith

sequence_in_range : gateway.next_sequence + length two_orders < 2 ^ 64
unfolding order_gateway
sequence_in_range = omega arith

submit_all-Submitted_example :
    Submitted gateway [] 65536 two_orders
      (submit_all gateway two_orders).0
      (submit_all gateway two_orders).1
submit_all-Submitted_example =
    submit_all-Submitted gateway [] 65536 two_orders gateway-IsQueue refl tail_in_range
      sequence_in_range
