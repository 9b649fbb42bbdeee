-- ===== src/Reference/Matching.antt =====
-- src/reference_engine.cpp: `match_buy` and `match_sell`.
use cpp_orderbook_engine.Prelude.{
  pos, ◌-ℤ◌, min_ℤ, ltb_ℤ, leb_ℤ, ◌==ℤ◌, Bool, true, false, if◌then◌else◌, update, List, [], ◌∷◌,
  ◌++◌,
}
use cpp_orderbook_engine.Types.{
  OrderId, Price, Quantity, Side, buy, sell, partially_filled, filled, Trade, IncomingOrder,
  MatchEvent,
}
use cpp_orderbook_engine.Order.{is_market}
use cpp_orderbook_engine.Map
use cpp_orderbook_engine.Reference.{RefOrder, Node, Nodes, Levels, is_done, ref_report, tell}

-- What the matching loops work on, besides the levels.
pub record RefMatching : Type 0 where
  pub nodes : Nodes
  pub order_map : List (OrderId × Node)
  pub order : IncomingOrder
  pub event : MatchEvent

unfoldable pub ref_crosses : Side → IncomingOrder → Price → Bool
ref_crosses buy o price = if is_market o.type then true else leb_ℤ price o.price
ref_crosses sell o price = if is_market o.type then true else leb_ℤ o.price price

abbrev pub ref_trade : Side → IncomingOrder → RefOrder → Quantity → Trade
ref_trade buy o r fill = record {
  buy_order_id = o.id;
  sell_order_id = r.id;
  price = r.price;
  quantity = fill;
  timestamp = o.timestamp;
}
ref_trade sell o r fill = record {
  buy_order_id = r.id;
  sell_order_id = o.id;
  price = r.price;
  quantity = fill;
  timestamp = o.timestamp;
}

abbrev pub opposite_side : Side → Side
opposite_side buy = sell
opposite_side sell = buy

-- The body of the inner loop for an order that is not done: the incoming order is on side `s`.
unfoldable pub fill_node : Side → Node → RefMatching → RefMatching
fill_node s a m =
    let r = m.nodes a in
    let fill = min_ℤ m.order.quantity r.remaining in
    let order = record m.order { quantity = m.order.quantity -ℤ fill } in
    let event = record m.event { trades = m.event.trades ++ ref_trade s m.order r fill ∷ [] } in
    let r' = record r { remaining = r.remaining -ℤ fill } in
    if r'.remaining ==ℤ pos 0
    then record {
      nodes = update m.nodes a (record r' { status = filled });
      order_map = Map.erase r.id m.order_map;
      order = order;
      event = tell event (ref_report r.id filled (opposite_side s) r.price r.quantity (pos 0));
    }
    else record {
      nodes = update m.nodes a (record r' { status = partially_filled });
      order_map = m.order_map;
      order = order;
      event = event;
    }

-- The inner loop: the list after it, from which the orders that are done are erased.
unfoldable pub match_level : Side → List Node → RefMatching → List Node × RefMatching
match_level s [] m = ([], m)
match_level s (a ∷ rest) m = elim (ltb_ℤ (pos 0) m.order.quantity) [
  | false ↦ (a ∷ rest, m)
  | true ↦ elim (is_done (m.nodes a).status) [
    | true ↦ match_level s rest m
    | false ↦
        let m' = fill_node s a m in
        elim ((m'.nodes a).remaining ==ℤ pos 0) [
          | true ↦ match_level s rest m'
          | false ↦ let r = match_level s rest m' in (a ∷ r.0, r.1)
        ]
  ]
]

-- The end of a round of the outer loop: a level that is empty is erased.
abbrev pub keep_level : Price → List Node → Levels → Levels
keep_level p [] ls = ls
keep_level p (a ∷ rest) ls = (p, a ∷ rest) ∷ ls

-- The outer loop: `match_buy` for an incoming buy, `match_sell` for an incoming sell.
unfoldable pub match_levels : Side → Levels → RefMatching → Levels × RefMatching
unfolding match_level
match_levels s [] m = ([], m)
match_levels s ((p, level) ∷ ls) m = elim (ltb_ℤ (pos 0) m.order.quantity) [
  | false ↦ ((p, level) ∷ ls, m)
  | true ↦ elim (ref_crosses s m.order p) [
    | false ↦ ((p, level) ∷ ls, m)
    | true ↦
        let r = match_level s level m in
        let r' = match_levels s ls r.1 in (keep_level p r.0 r'.0, r'.1)
  ]
]
