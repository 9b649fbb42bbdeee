-- ===== src/Types.antt =====
-- include/matching/types.h and include/matching/events.h: the value types of the interface.
-- Prices and quantities are `int64_t`, modelled by integers without the bound at 2 ^ 63; ids and
-- timestamps are `uint64_t`, modelled by natural numbers, and only copied and compared.
use cpp_orderbook_engine.Prelude.{ℕ, ℤ, List, []}

abbrev pub OrderId : Type 0
OrderId = ℕ

abbrev pub Price : Type 0
Price = ℤ

abbrev pub Quantity : Type 0
Quantity = ℤ

abbrev pub Timestamp : Type 0
Timestamp = ℕ

pub data Side : Type 0 where
  buy sell : Side

pub data OrderType : Type 0 where
  limit market ioc fok : OrderType

pub data OrderStatus : Type 0 where
  new acked resting partially_filled filled cancelled : OrderStatus

pub record Trade : Type 0 where
  pub buy_order_id : OrderId
  pub sell_order_id : OrderId
  pub price : Price
  pub quantity : Quantity
  pub timestamp : Timestamp

pub record ExecutionReport : Type 0 where
  pub order_id : OrderId
  pub status : OrderStatus
  pub side : Side
  pub price : Price
  pub filled_quantity : Quantity
  pub remaining_quantity : Quantity

pub record IncomingOrder : Type 0 where
  pub id : OrderId
  pub side : Side
  pub type : OrderType
  pub price : Price
  pub quantity : Quantity
  pub timestamp : Timestamp

pub record MatchEvent : Type 0 where
  pub trades : List Trade
  pub reports : List ExecutionReport

abbrev pub no_event : MatchEvent
no_event = record { trades = []; reports = [] }
