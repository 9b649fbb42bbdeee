-- ===== src/Reference.antt =====
-- include/matching/reference_engine.h and src/reference_engine.cpp: the engine that the other one is
-- compared with. An element of a std::list is a node: an address in the store `nodes`, so that the map
-- of ids aliases the elements of the lists. `fresh` is the next address that is not in use. A std::map
-- of prices is the list of its elements in the map's order. Nodes that are erased keep their contents.
pub mod Matching
pub mod Calls
pub mod Shelf
pub mod Front
pub mod Match
pub mod Drop
pub mod Inner
pub mod Worse
pub mod Outer
pub mod Push
pub mod Insert
pub mod Cancel
pub mod Process
pub mod Verify
pub mod Remains
pub mod Grows
mod Tests
use cpp_orderbook_engine.Prelude.{
  ℕ, ◌+◌, ◌-◌, ℤ, pos, ◌+ℤ◌, int64, ◌-ℤ◌, ◌==ℤ◌, Bool, true, false, not, ◌||◌, ◌==◌, if◌then◌else◌,
  Option, none, some, List, [], ◌∷◌, ◌++◌,
}
use cpp_orderbook_engine.Types.{
  OrderId, Price, Quantity, Timestamp, Side, buy, sell, OrderType, limit, OrderStatus, new, filled,
  cancelled, ExecutionReport, MatchEvent,
}
use cpp_orderbook_engine.Map.{find}

pub record RefOrder : Type 0 where
  pub id : OrderId
  pub side : Side
  pub type : OrderType
  pub price : Price
  pub quantity : Quantity
  pub remaining : Quantity
  pub timestamp : Timestamp
  pub status : OrderStatus

abbrev pub Node : Type 0
Node = ℕ

abbrev pub Nodes : Type 0
Nodes = Node → RefOrder

-- std::map<Price, std::list<RefOrder>>
abbrev pub Levels : Type 0
Levels = List (Price × List Node)

pub record ReferenceEngine : Type 0 where
  pub nodes : Nodes
  pub fresh : Node
  pub bids : Levels
  pub asks : Levels
  pub order_map : List (OrderId × Node)

-- The contents of addresses that are not in use.
abbrev blank : RefOrder
blank = record {
  id = 0;
  side = buy;
  type = limit;
  price = pos 0;
  quantity = pos 0;
  remaining = pos 0;
  timestamp = 0;
  status = new;
}

unfoldable pub reference_engine : ReferenceEngine
reference_engine = record { nodes = λ _. blank; fresh = 0; bids = []; asks = []; order_map = [] }

abbrev pub first_price : Levels → Price
first_price [] = pos 0
first_price ((p, _) ∷ _) = p

unfoldable pub best_bid : ReferenceEngine → Price
best_bid e = first_price e.bids

unfoldable pub best_ask : ReferenceEngine → Price
best_ask e = first_price e.asks

unfoldable pub spread : ReferenceEngine → Price
unfolding best_bid best_ask
spread e =
    let bb = best_bid e in
    let ba = best_ask e in if (bb ==ℤ pos 0) || (ba ==ℤ pos 0) then pos 0 else ba -ℤ bb

abbrev pub side_levels : Side → ReferenceEngine → Levels
side_levels buy e = e.bids
side_levels sell e = e.asks

-- Filled or Cancelled.
abbrev pub is_done : OrderStatus → Bool
is_done filled = true
is_done cancelled = true
is_done _ = false

-- std::map::find
unfoldable pub find_level : Price → Levels → Option (List Node)
find_level p [] = none
find_level p ((p', level) ∷ ls) = if p' ==ℤ p then some level else find_level p ls

-- The loops of `resting_quantity` with the value of `total`.
unfoldable pub sum_live : Nodes → Quantity → List Node → Quantity
sum_live nodes total [] = total
sum_live nodes total (a ∷ rest) =
    sum_live nodes
      (if is_done (nodes a).status then total else int64 (total +ℤ (nodes a).remaining)) rest

unfoldable pub resting_quantity : ReferenceEngine → Side → Price → Quantity
unfolding sum_live
resting_quantity e side price = elim (find_level price (side_levels side e)) [
  | none ↦ pos 0
  | some level ↦ sum_live e.nodes (pos 0) level
]

abbrev pub ref_report : OrderId → OrderStatus → Side → Price → Quantity → Quantity → ExecutionReport
ref_report id status side price done left = record {
  order_id = id;
  status = status;
  side = side;
  price = price;
  filled_quantity = done;
  remaining_quantity = left;
}

abbrev pub tell : MatchEvent → ExecutionReport → MatchEvent
tell ev r = record ev { reports = ev.reports ++ r ∷ [] }
