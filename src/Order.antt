-- ===== src/Order.antt =====
-- include/matching/order.h, `struct Order`. Orders live in the pool's vector only, so an `Order*`
-- is the index of a slot, and `nullptr` is `none`.
use cpp_orderbook_engine.Prelude.{ℕ, pos, leb_ℤ, ◌==ℤ◌, Bool, true, false, ◌&&◌, ◌||◌, Option, none}
use cpp_orderbook_engine.Types.{
  OrderId, Price, Quantity, Timestamp, Side, buy, sell, OrderType, limit, market, OrderStatus, new,
}

abbrev pub Slot : Type 0
Slot = ℕ

abbrev pub Ptr : Type 0
Ptr = Option Slot

pub record Order : Type 0 where
  pub id : OrderId
  pub side : Side
  pub type : OrderType
  pub price : Price
  pub quantity : Quantity
  pub remaining : Quantity
  pub timestamp : Timestamp
  pub status : OrderStatus
  pub prev : Ptr
  pub next : Ptr
  pub pool_index : ℕ

-- A slot of `std::vector<Order> pool_(capacity)`: every member is value-initialised.
abbrev pub fresh_order : Order
fresh_order = record {
  id = 0;
  side = buy;
  type = limit;
  price = pos 0;
  quantity = pos 0;
  remaining = pos 0;
  timestamp = 0;
  status = new;
  prev = none;
  next = none;
  pool_index = 0;
}

-- The storage of the pool: the order in each slot.
abbrev pub Orders : Type 0
Orders = Slot → Order

abbrev pub is_market : OrderType → Bool
is_market market = true
is_market _ = false

abbrev pub is_limit : OrderType → Bool
is_limit limit = true
is_limit _ = false

abbrev pub is_buy : Side → Bool
is_buy buy = true
is_buy sell = false

abbrev pub is_sell : Side → Bool
is_sell buy = false
is_sell sell = true

unfoldable pub is_fully_filled : Order → Bool
is_fully_filled o = o.remaining ==ℤ pos 0

unfoldable pub is_marketable : Order → Bool
is_marketable o = is_market o.type

unfoldable pub would_cross_buy : Order → Price → Bool
would_cross_buy o best_ask = is_buy o.side && (is_market o.type || leb_ℤ best_ask o.price)

unfoldable pub would_cross_sell : Order → Price → Bool
would_cross_sell o best_bid = is_sell o.side && (is_market o.type || leb_ℤ o.price best_bid)
