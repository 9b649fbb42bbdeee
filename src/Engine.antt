-- ===== src/Engine.antt =====
-- include/matching/matching_engine.h and src/matching_engine.cpp: the price-time priority matching
-- engine, its data and the calls that read it. An operation takes the engine and returns the new one.
pub mod Match
pub mod Requests
pub mod Book
pub mod Unbook
pub mod Fill
pub mod Round
pub mod Trace
pub mod Loop
pub mod Total
pub mod Trades
pub mod Subset
pub mod Rest
pub mod Cancel
pub mod Insert
pub mod Process
pub mod Verify
pub mod Outcomes
pub mod Sound
pub mod Depth
pub mod Abstract
pub mod Entries
pub mod Bounds
pub mod Room
pub mod Roundtrip
pub mod Tests
use cpp_orderbook_engine.Prelude.{
  ℕ, ◌+◌, ℤ, pos, negsuc, ◌+ℤ◌, int64, ◌-ℤ◌, ◌==ℤ◌, ◌||◌, ◌==◌, if◌then◌else◌, Option, none, some,
  List, [], ◌∷◌, length,
}
use cpp_orderbook_engine.Types.{OrderId, Price, Quantity, Side, buy, sell}
use cpp_orderbook_engine.Order.{Slot, Orders}
use cpp_orderbook_engine.Level
use cpp_orderbook_engine.Level.{walk}
use cpp_orderbook_engine.Pool.{OrderPool, order_pool}
use cpp_orderbook_engine.Ladder.{
  PriceLadder, price_ladder, default_max_levels, set_base_price, price_to_index, level_at,
  best_bid_price, best_ask_price,
}

pub record MatchingEngine : Type 0 where
  pub pool : OrderPool
  pub bids : PriceLadder
  pub asks : PriceLadder
  pub tick_size : Price
  pub order_map : List (OrderId × Slot)

-- max_price_levels > 0 ? max_price_levels : 20000
abbrev pub levels_of : ℤ → ℕ
levels_of (pos n) = if n == 0 then default_max_levels else n
levels_of (negsuc _) = default_max_levels

-- The constructor.
unfoldable pub matching_engine : ℤ → ℕ → MatchingEngine
matching_engine max_price_levels pool_capacity = record {
  pool = order_pool pool_capacity;
  bids = set_base_price (price_ladder (levels_of max_price_levels)) (pos 0);
  asks = set_base_price (price_ladder (levels_of max_price_levels)) (pos 0);
  tick_size = pos 1;
  order_map = [];
}

unfoldable pub best_bid : MatchingEngine → Price
best_bid e = best_bid_price e.bids

unfoldable pub best_ask : MatchingEngine → Price
best_ask e = best_ask_price e.asks

unfoldable pub spread : MatchingEngine → Price
unfolding best_bid best_ask
spread e =
    let bb = best_bid e in
    let ba = best_ask e in if (bb ==ℤ pos 0) || (ba ==ℤ pos 0) then pos 0 else ba -ℤ bb

-- The ladder on which orders of a side rest.
abbrev pub ladder : Side → MatchingEngine → PriceLadder
ladder buy e = e.bids
ladder sell e = e.asks

abbrev pub set_ladder : Side → MatchingEngine → PriceLadder → MatchingEngine
set_ladder buy e l = record e { bids = l }
set_ladder sell e l = record e { asks = l }

abbrev pub opposite : Side → Side
opposite buy = sell
opposite sell = buy

abbrev pub set_orders : MatchingEngine → Orders → MatchingEngine
set_orders e mem = record e { pool = record e.pool { pool = mem } }

-- The walk of `resting_quantity` with the value of `total`.
unfoldable pub sum_remaining : Orders → Quantity → List Slot → Quantity
sum_remaining mem total [] = total
sum_remaining mem total (o ∷ os) = sum_remaining mem (int64 (total +ℤ (mem o).remaining)) os

-- `none` if the walk over the level runs out of fuel.
unfoldable pub resting_quantity : MatchingEngine → Side → Price → Option Quantity
resting_quantity e side price = elim (price_to_index (ladder side e) price) [
  | negsuc _ ↦ some (pos 0)
  | pos idx ↦ elim (Level.for_each e.pool.pool (level_at (ladder side e) idx)) [
    | none ↦ none
    | some os ↦ some (sum_remaining e.pool.pool (pos 0) os)
  ]
]

unfoldable pub pool_capacity : MatchingEngine → ℕ
pool_capacity e = e.pool.capacity

unfoldable pub active_order_count : MatchingEngine → ℕ
active_order_count e = length e.order_map
