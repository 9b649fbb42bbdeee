-- ===== src/Engine/Match.antt =====
-- src/matching_engine.cpp: `match_buy` and `match_sell`.
use cpp_orderbook_engine.Prelude.{
  ℕ, zero, suc, ℤ, pos, negsuc, ◌-ℤ◌, ltb_ℤ, leb_ℤ, ◌==ℤ◌, min_ℤ, Bool, true, false, if◌then◌else◌,
  update, Option, none, some, [], ◌∷◌, ◌++◌,
}
use cpp_orderbook_engine.Types.{
  Price, Quantity, Side, buy, sell, partially_filled, filled, Trade, ExecutionReport, IncomingOrder,
  MatchEvent,
}
use cpp_orderbook_engine.Order.{Slot, Order, is_market}
use cpp_orderbook_engine.Level
use cpp_orderbook_engine.Pool.{deallocate}
use cpp_orderbook_engine.Ladder.{
  index_to_price, level_at, set_level, mark_empty, find_best_bid, find_best_ask,
}
use cpp_orderbook_engine.Map
use cpp_orderbook_engine.Engine.{MatchingEngine, ladder, set_ladder, opposite, set_orders}

-- What a matching loop works on: the engine, the incoming order and the event.
pub record Matching : Type 0 where
  pub engine : MatchingEngine
  pub order : IncomingOrder
  pub event : MatchEvent

-- The best resting price for an incoming order of a side: `find_best_ask` for a buy,
-- `find_best_bid` for a sell.
unfoldable pub best_index : Side → MatchingEngine → ℤ
best_index buy e = find_best_ask e.asks
best_index sell e = find_best_bid e.bids

unfoldable pub crosses : Side → IncomingOrder → Price → Bool
crosses buy o best = if is_market o.type then true else leb_ℤ best o.price
crosses sell o best = if is_market o.type then true else leb_ℤ o.price best

abbrev pub trade_of : Side → IncomingOrder → Order → Quantity → Trade
trade_of buy o r fill = record {
  buy_order_id = o.id;
  sell_order_id = r.id;
  price = r.price;
  quantity = fill;
  timestamp = o.timestamp;
}
trade_of sell o r fill = record {
  buy_order_id = r.id;
  sell_order_id = o.id;
  price = r.price;
  quantity = fill;
  timestamp = o.timestamp;
}

abbrev pub add_trade : MatchEvent → Trade → MatchEvent
add_trade ev t = record ev { trades = ev.trades ++ t ∷ [] }

abbrev pub add_report : MatchEvent → ExecutionReport → MatchEvent
add_report ev r = record ev { reports = ev.reports ++ r ∷ [] }

-- The report for a resting order on side `s` that is fully filled.
abbrev pub filled_report : Side → Order → ExecutionReport
filled_report s r = record {
  order_id = r.id;
  status = filled;
  side = s;
  price = r.price;
  filled_quantity = r.quantity;
  remaining_quantity = pos 0;
}

-- A fully filled resting order leaves its level, the map and the pool.
unfoldable pub drop_filled : Side → ℕ → Slot → MatchingEngine → MatchingEngine
drop_filled s idx o e =
    let (mem, level) = Level.remove e.pool.pool (level_at (ladder s e) idx) o in
    let l = mark_empty (set_level (ladder s e) idx level) idx in
    let mem' = update mem o (record (mem o) { status = filled }) in
    let e' = set_orders (set_ladder s e l) mem' in
    record e' { order_map = Map.erase (mem' o).id e.order_map; pool = deallocate e'.pool o }

-- One round of the inner loop, against the order at the front of level `idx`; the incoming order
-- is on side `s`.
unfoldable pub fill_front : Side → ℕ → Slot → Matching → Matching
unfolding drop_filled
fill_front s idx o m =
    let r = m.engine.pool.pool o in
    let fill = min_ℤ m.order.quantity r.remaining in
    let r' = record r { remaining = r.remaining -ℤ fill } in
    let order = record m.order { quantity = m.order.quantity -ℤ fill } in
    let event = add_trade m.event (trade_of s m.order r fill) in
    let engine = set_orders m.engine (update m.engine.pool.pool o r') in
    if r'.remaining ==ℤ pos 0
    then record {
      engine = drop_filled (opposite s) idx o engine;
      order = order;
      event = add_report event (filled_report (opposite s) r);
    }
    else record {
      engine =
          set_orders m.engine
            (update m.engine.pool.pool o (record r' { status = partially_filled }));
      order = order;
      event = event;
    }

-- The inner loop; `none` if the fuel runs out.
unfoldable pub match_level : ℕ → Side → ℕ → Matching → Option Matching
match_level zero s idx m = none
match_level (suc fuel) s idx m = elim (ltb_ℤ (pos 0) m.order.quantity) [
  | false ↦ some m
  | true ↦ elim (Level.front (level_at (ladder (opposite s) m.engine) idx)) [
    | none ↦ some m
    | some o ↦ match_level fuel s idx (fill_front s idx o m)
  ]
]

-- A level of n orders is left within n + 1 tests of the inner loop's condition.
unfoldable pub level_fuel : Side → ℕ → Matching → ℕ
level_fuel s idx m = suc (level_at (ladder (opposite s) m.engine) idx).size

-- The outer loop: `match_buy` for an incoming buy, `match_sell` for an incoming sell.
unfoldable pub match_loop : ℕ → Side → Matching → Option Matching
match_loop zero s m = none
match_loop (suc fuel) s m = elim (ltb_ℤ (pos 0) m.order.quantity) [
  | false ↦ some m
  | true ↦ elim (best_index s m.engine) [
    | negsuc _ ↦ some m
    | pos idx ↦ elim (crosses s m.order (index_to_price (ladder (opposite s) m.engine) (pos idx))) [
      | false ↦ some m
      | true ↦ elim (match_level (level_fuel s idx m) s idx m) [
        | none ↦ none
        | some m' ↦ match_loop fuel s m'
      ]
    ]
  ]
]

-- At most `max_levels` levels are emptied.
unfoldable pub match_order : Side → Matching → Option Matching
match_order s m = match_loop (suc (suc (ladder (opposite s) m.engine).max_levels)) s m
