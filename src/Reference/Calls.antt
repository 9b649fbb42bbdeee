-- ===== src/Reference/Calls.antt =====
-- src/reference_engine.cpp: the calls of the engine, `insert_order`, and the check.
use cpp_orderbook_engine.Prelude.{
  suc, ◌^◌, ◌-◌, pos, ◌-ℤ◌, ltb_ℤ, leb_ℤ, ◌==ℤ◌, Bool, true, not, ◌||◌, ◌&&◌, ◌==◌, if◌then◌else◌,
  update, Option, none, some, [], ◌∷◌, ◌++◌,
}
use cpp_orderbook_engine.Types.{
  OrderId, Price, Quantity, Side, buy, sell, resting, filled, cancelled, ExecutionReport,
  IncomingOrder, MatchEvent, no_event,
}
use cpp_orderbook_engine.Order.{is_limit}
use cpp_orderbook_engine.Map
use cpp_orderbook_engine.Map.{find, assign}
use cpp_orderbook_engine.Reference.{
  RefOrder, Node, Levels, ReferenceEngine, best_bid, best_ask, side_levels, ref_report, tell,
}
use cpp_orderbook_engine.Reference.Matching.{RefMatching, match_levels}

abbrev pub set_levels : Side → ReferenceEngine → Levels → ReferenceEngine
set_levels buy e ls = record e { bids = ls }
set_levels sell e ls = record e { asks = ls }

abbrev pub opposite_levels : Side → ReferenceEngine → Levels
opposite_levels buy e = e.asks
opposite_levels sell e = e.bids

abbrev pub set_opposite : Side → ReferenceEngine → Levels → ReferenceEngine
set_opposite buy e ls = record e { asks = ls }
set_opposite sell e ls = record e { bids = ls }

-- The order of the map's prices: ascending for the asks, descending for the bids.
abbrev pub precedes : Side → Price → Price → Bool
precedes buy p p' = ltb_ℤ p' p
precedes sell p p' = ltb_ℤ p p'

-- levels[p].push_back(a)
unfoldable pub push_node : Side → Price → Node → Levels → Levels
push_node s p a [] = (p, a ∷ []) ∷ []
push_node s p a ((p', level) ∷ ls) =
    let rest = push_node s p a ls in
    if p' ==ℤ p
    then (p', level ++ a ∷ []) ∷ ls
    else if precedes s p p'
    then (p, a ∷ []) ∷ (p', level) ∷ ls
    else (p', level) ∷ rest

unfoldable pub insert_order : ReferenceEngine → RefOrder → ReferenceEngine
unfolding push_node
insert_order e o =
    let a = e.fresh in
    let ls = push_node o.side o.price a (side_levels o.side e) in
    record (set_levels o.side e ls) {
      nodes = update e.nodes a o;
      fresh = suc a;
      order_map = assign o.id a e.order_map;
    }

-- The report for an order that does not rest; `none` if it is to rest.
unfoldable pub closing_report : IncomingOrder → Quantity → Quantity → Option ExecutionReport
closing_report o left done =
    if left ==ℤ pos 0
    then some (ref_report o.id filled o.side o.price o.quantity (pos 0))
    else if ltb_ℤ (pos 0) done
    then (if is_limit o.type
        then none
        else some (ref_report o.id cancelled o.side o.price done left))
    else if is_limit o.type
    then none
    else some (ref_report o.id cancelled o.side o.price (pos 0) o.quantity)

-- The order that rests.
abbrev pub rest_of : IncomingOrder → Quantity → RefOrder
rest_of o left = record {
  id = o.id;
  side = o.side;
  type = o.type;
  price = o.price;
  quantity = o.quantity;
  remaining = left;
  timestamp = o.timestamp;
  status = resting;
}

-- What `process_order` does after the matching.
unfoldable pub finish_order :
    IncomingOrder → ReferenceEngine → Quantity → MatchEvent → MatchEvent × ReferenceEngine
unfolding closing_report insert_order
finish_order o e left event =
    let done = o.quantity -ℤ left in
    elim (closing_report o left done) [
      | some report ↦ (tell event report, e)
      | none ↦ (
        tell event (ref_report o.id resting o.side o.price done left),
        insert_order e (rest_of o left),
      )
    ]

-- The engine after the matching.
abbrev pub matched : Side → ReferenceEngine → Levels × RefMatching → ReferenceEngine
matched s e (ls, m) = record (set_opposite s e ls) { nodes = m.nodes; order_map = m.order_map }

unfoldable pub process_order : ReferenceEngine → IncomingOrder → MatchEvent × ReferenceEngine
unfolding match_levels finish_order
process_order e o =
    if leb_ℤ o.quantity (pos 0) || (o.id == 0)
    then (tell no_event (ref_report o.id cancelled o.side o.price (pos 0) o.quantity), e)
    else let m : RefMatching = record {
      nodes = e.nodes;
      order_map = e.order_map;
      order = o;
      event = no_event;
    } in
      let r = match_levels o.side (opposite_levels o.side e) m in
      finish_order o (matched o.side e r) r.1.order.quantity r.1.event

unfoldable pub cancel_order : ReferenceEngine → OrderId → MatchEvent × ReferenceEngine
cancel_order e id = elim (find id e.order_map) [
  | none ↦ (no_event, e)
  | some a ↦
      let r = e.nodes a in
      (
        tell no_event
            (ref_report r.id cancelled r.side r.price (r.quantity -ℤ r.remaining) r.remaining),
        record e {
          nodes = update e.nodes a (record r { status = cancelled });
          order_map = Map.erase id e.order_map;
        },
      )
]

-- The loops of `verify_invariants` over the prices, from the price `prev` on.
unfoldable pub ascending : Price → Levels → Bool
ascending prev [] = true
ascending prev ((p, _) ∷ ls) = not (leb_ℤ p prev) && ascending p ls

unfoldable pub descending : Price → Levels → Bool
descending prev [] = true
descending prev ((p, _) ∷ ls) = not (leb_ℤ prev p) && descending p ls

unfoldable pub verify_invariants : ReferenceEngine → Bool
unfolding best_bid best_ask ascending descending
verify_invariants e =
    let bb = best_bid e in
    let ba = best_ask e in
    not (ltb_ℤ (pos 0) bb && ltb_ℤ (pos 0) ba && leb_ℤ ba bb)
    && ascending (pos 0) e.asks
    && descending (pos (2 ^ 63 - 1)) e.bids
