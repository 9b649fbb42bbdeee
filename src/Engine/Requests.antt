-- ===== src/Engine/Requests.antt =====
-- src/matching_engine.cpp: the calls of the engine, `insert_order`, `remove_order_from_book` and
-- the check.
use cpp_orderbook_engine.Prelude.{
  pos, negsuc, ◌-ℤ◌, ltb_ℤ, leb_ℤ, ◌==ℤ◌, Bool, true, false, not, ◌&&◌, ◌==◌, if◌then◌else◌, update,
  Option, none, some, List, [], ◌∷◌,
}
use cpp_orderbook_engine.Types.{
  OrderId, Quantity, OrderType, limit, market, ioc, fok, OrderStatus, resting, partially_filled,
  filled, cancelled, ExecutionReport, IncomingOrder, MatchEvent, no_event,
}
use cpp_orderbook_engine.Order.{Slot, Order, Orders, is_limit}
use cpp_orderbook_engine.Level
use cpp_orderbook_engine.Pool.{allocate, deallocate}
use cpp_orderbook_engine.Ladder
use cpp_orderbook_engine.Ladder.{price_to_index, level_at, set_level, mark_occupied, mark_empty}
use cpp_orderbook_engine.Map
use cpp_orderbook_engine.Map.{find, assign}
use cpp_orderbook_engine.Engine.{MatchingEngine, best_bid, best_ask, ladder, set_ladder, set_orders}
use cpp_orderbook_engine.Engine.Match.{Matching, add_report, match_order}

unfoldable pub validate_order : IncomingOrder → Bool
validate_order o =
    if leb_ℤ o.quantity (pos 0)
    then false
    else if leb_ℤ o.price (pos 0) && is_limit o.type
    then false
    else if o.id == 0
    then false
    else true

unfoldable pub after_fill : OrderType → Bool × OrderStatus
after_fill ioc = (false, cancelled)
after_fill fok = (false, cancelled)
after_fill limit = (true, resting)
after_fill market = (false, cancelled)

unfoldable pub without_fill : OrderType → Bool × OrderStatus
without_fill market = (false, cancelled)
without_fill ioc = (false, cancelled)
without_fill fok = (false, cancelled)
without_fill limit = (true, resting)

-- Whether what is left of an incoming order rests, and its final status.
unfoldable pub final_status : OrderType → Quantity → Quantity → Bool × OrderStatus
unfolding after_fill without_fill
final_status type left done =
    if left ==ℤ pos 0
    then (false, filled)
    else if ltb_ℤ (pos 0) done
    then after_fill type
    else without_fill type

-- `insert_order`. A price out of range sets the order's status and nothing else.
unfoldable pub insert_order : MatchingEngine → Slot → MatchingEngine
insert_order e o =
    let r = e.pool.pool o in
    elim (price_to_index (ladder r.side e) r.price) [
      | negsuc _ ↦ set_orders e (update e.pool.pool o (record r { status = cancelled }))
      | pos idx ↦
          let (mem, level) = Level.push_back e.pool.pool (level_at (ladder r.side e) idx) o in
          let l = mark_occupied (set_level (ladder r.side e) idx level) idx in
          record (set_orders (set_ladder r.side e l) mem) {
            order_map = assign (mem o).id o e.order_map;
          }
    ]

-- The members of a slot that `process_order` writes for a resting order.
abbrev pub resting_order : Order → IncomingOrder → Quantity → OrderStatus → Order
resting_order r o left status = record r {
  id = o.id;
  side = o.side;
  type = o.type;
  price = o.price;
  quantity = o.quantity;
  remaining = left;
  timestamp = o.timestamp;
  status = status;
}

-- Rests what is left of an order, and gives the final status; a full pool cancels it.
unfoldable pub rest_order :
    MatchingEngine → IncomingOrder → Quantity → OrderStatus → OrderStatus × MatchingEngine
unfolding insert_order
rest_order e o left status =
    let (slot, pool) = allocate e.pool in
    let e = record e { pool = pool } in
    elim slot [
      | none ↦ (cancelled, e)
      | some s ↦
          let e = set_orders e (update pool.pool s (resting_order (pool.pool s) o left status)) in
          let e = insert_order e s in
          (status, record e { order_map = assign (e.pool.pool s).id s e.order_map })
    ]

abbrev pub report_of : IncomingOrder → OrderStatus → Quantity → Quantity → ExecutionReport
report_of o status done left = record {
  order_id = o.id;
  status = status;
  side = o.side;
  price = o.price;
  filled_quantity = done;
  remaining_quantity = left;
}

-- What `process_order` does after the matching.
unfoldable pub finish_order : IncomingOrder → Matching → MatchEvent × MatchingEngine
unfolding final_status rest_order
finish_order order m =
    let left = m.order.quantity in
    let done = order.quantity -ℤ left in
    let (should_rest, status) = final_status order.type left done in
    let (status, engine) =
      if should_rest then rest_order m.engine order left status else (status, m.engine) in
    (add_report m.event (report_of order status done left), engine)

-- `none` if a loop runs out of fuel.
unfoldable pub process_order : MatchingEngine → IncomingOrder → Option (MatchEvent × MatchingEngine)
unfolding validate_order match_order finish_order
process_order e order =
    if not (validate_order order)
    then some (add_report no_event (report_of order cancelled (pos 0) order.quantity), e)
    else elim (match_order order.side (record { engine = e; order = order; event = no_event })) [
      | none ↦ none
      | some m ↦ some (finish_order order m)
    ]

unfoldable pub remove_order_from_book : MatchingEngine → Slot → MatchingEngine
remove_order_from_book e o =
    let r = e.pool.pool o in
    elim (price_to_index (ladder r.side e) r.price) [
      | negsuc _ ↦ e
      | pos idx ↦
          let (mem, level) = Level.remove e.pool.pool (level_at (ladder r.side e) idx) o in
          let l = mark_empty (set_level (ladder r.side e) idx level) idx in
          record (set_orders (set_ladder r.side e l) mem) {
            order_map = Map.erase (mem o).id e.order_map;
          }
    ]

abbrev pub cancel_report : Order → ExecutionReport
cancel_report r = record {
  order_id = r.id;
  status = cancelled;
  side = r.side;
  price = r.price;
  filled_quantity = r.quantity -ℤ r.remaining;
  remaining_quantity = r.remaining;
}

unfoldable pub cancel_order : MatchingEngine → OrderId → MatchEvent × MatchingEngine
unfolding remove_order_from_book
cancel_order e id = elim (find id e.order_map) [
  | none ↦ (no_event, e)
  | some o ↦
      let e = remove_order_from_book e o in
      (add_report no_event (cancel_report (e.pool.pool o)), record e { pool = deallocate e.pool o })
]

abbrev pub in_book : OrderStatus → Bool
in_book resting = true
in_book partially_filled = true
in_book _ = false

unfoldable pub verify_map : Orders → List (OrderId × Slot) → Bool
verify_map mem [] = true
verify_map mem ((id, o) ∷ map) = ((mem o).id == id) && in_book (mem o).status && verify_map mem map

unfoldable pub verify_invariants : MatchingEngine → Bool
unfolding best_bid best_ask verify_map
verify_invariants e =
    let bb = best_bid e in
    let ba = best_ask e in
    not (ltb_ℤ (pos 0) bb && ltb_ℤ (pos 0) ba && leb_ℤ ba bb)
    && Ladder.verify_invariants e.bids
    && Ladder.verify_invariants e.asks
    && verify_map e.pool.pool e.order_map
