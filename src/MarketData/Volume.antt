-- ===== src/MarketData/Volume.antt =====
-- A callback that adds up the traded volume, on the events of the engine.
use mathlib.Core.List.{append_assoc}
use cpp_orderbook_engine.Prelude.{
  ◌≡◌, sym, subst, ap, All, ◌∙◌, ℤ, pos, ◌+ℤ◌, ◌-ℤ◌, ◌≤ℤ◌, true, Option, none, some, List, [], ◌∷◌,
  ◌++◌, int_laws,
}
use cpp_orderbook_engine.Types.{
  Trade, ExecutionReport, IncomingOrder, MatchEvent, OrderStatus, Quantity,
}
use cpp_orderbook_engine.Order.{Slot}
use cpp_orderbook_engine.Map.{find}
use cpp_orderbook_engine.Engine.{MatchingEngine}
use cpp_orderbook_engine.Engine.Requests.{process_order, validate_order, report_of}
use cpp_orderbook_engine.Engine.Book.{Book, IsBook, IsPositive}
use cpp_orderbook_engine.Engine.Trades.{total_traded, IsFair}
use cpp_orderbook_engine.Engine.Process.{InRange}
use cpp_orderbook_engine.Engine.Outcomes.{total-sub, process_order-Accounted}
use cpp_orderbook_engine.MarketData.{MarketDataHandler, set_trade_callback, on_match_event}
use cpp_orderbook_engine.MarketData.Events.{each, on_match_event_lem, called}

-- The callback: its state is the volume so far.
abbrev pub add_volume : Trade → ℤ → ℤ
add_volume t n = n +ℤ t.quantity

each-add_volume : (ts : List Trade) (n : ℤ) → each add_volume ts n ≡ n +ℤ total_traded ts
unfolding total_traded
each-add_volume [] n = omega int_laws
each-add_volume (t ∷ ts) n =
    let assoc : n +ℤ t.quantity +ℤ total_traded ts ≡ n +ℤ (t.quantity +ℤ total_traded ts) =
      omega int_laws in
    each-add_volume ts (n +ℤ t.quantity) ∙ assoc

traded-natural :
    (o : IncomingOrder) (ts : List Trade) → All (IsFair o.side o) ts → pos 0 ≤ℤ total_traded ts
unfolding total_traded
traded-natural o [] fair = omega int_laws
traded-natural o (t ∷ ts) (here, fair) =
    let positive = here.positive in
    let rest = traded-natural o ts fair in omega (int_laws, positive, rest)

-- The event of a processed order, given to the handler `h` whose callback has counted `n`: the
-- volume rises by what is filled, the quantity of the order without what is left of it, and the last
-- report that the handler keeps says so.
pub record Counted (h : MarketDataHandler ℤ) (n : ℤ) (o : IncomingOrder)
    (r : Option (MatchEvent × MatchingEngine)) : Type 0 where
  pub event : MatchEvent
  pub engine : MatchingEngine
  pub returned : r ≡ some (event, engine)
  pub status : OrderStatus
  pub left : Quantity
  pub natural : (pos 0 ≤ℤ left) × (left ≤ℤ o.quantity)
  pub earlier : List ExecutionReport
  pub volume :
      (on_match_event event (set_trade_callback (some add_volume) h) n).1
      ≡ n +ℤ (o.quantity -ℤ left)
  pub reported :
      (on_match_event event (set_trade_callback (some add_volume) h) n).0.recent_reports
      ≡ earlier ++ report_of o status (o.quantity -ℤ left) left ∷ []

-- From a book with the invariant and positive quantities, `process_order` of a valid order with
-- an id that is not in use, and a price within the ladder if it is a limit order, returns; given
-- its event, the handler runs a callback that adds up volumes, which adds to what it has counted
-- the order's quantity without a rest from 0 to this quantity, and the last report that the
-- handler keeps gives the same filled quantity and rest.
pub on_match_event-process_order :
    (h : MarketDataHandler ℤ) (n : ℤ) (e : MatchingEngine) (free : List Slot) (q : Book)
    (o : IncomingOrder)
    → IsBook e free q
    → IsPositive e.pool.pool q
    → validate_order o ≡ true
    → find o.id e.order_map ≡ none
    → InRange e o
    → Counted h n o (process_order e o)
unfolding set_trade_callback
on_match_event-process_order h n e free q o v p valid fresh r =
    let a = process_order-Accounted e free q o v p valid fresh r in
    let filled : total_traded a.event.trades ≡ o.quantity -ℤ a.left =
      sym (total-sub (total_traded a.event.trades) a.left) ∙ ap (λ t. t -ℤ a.left) a.balanced in
    let done = subst (λ t. pos 0 ≤ℤ t) filled (traded-natural o a.event.trades a.fair) in
    let seen = on_match_event_lem a.event (set_trade_callback (some add_volume) h) n in
    record {
      event = a.event;
      engine = a.engine;
      returned = a.returned;
      status = a.status;
      left = a.left;
      natural = (a.natural, omega (int_laws, done));
      earlier = h.recent_reports ++ a.earlier;
      volume =
          ap (λ w. w.1) seen
          ∙ called add_volume a.event.trades n
          ∙ each-add_volume a.event.trades n
          ∙ ap (λ t. n +ℤ t) filled;
      reported =
          ap (λ w. w.0.recent_reports) seen
          ∙ ap (λ rs. h.recent_reports ++ rs)
              (a.told ∙ ap (λ t. a.earlier ++ report_of o a.status t a.left ∷ []) filled)
          ∙ sym (
              append_assoc h.recent_reports a.earlier
                (report_of o a.status (o.quantity -ℤ a.left) a.left ∷ []));
    }
