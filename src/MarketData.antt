-- ===== src/MarketData.antt =====
-- include/matching/market_data.h: the handler that keeps recent trades and reports, calls back for
-- each trade, and takes top-of-book snapshots of the engine. The callback is a parameter that acts on
-- a state `S` of the caller's.
pub mod Events
pub mod Top
pub mod Volume
mod Tests
use cpp_orderbook_engine.Prelude.{Option, none, some, List, [], ◌∷◌, ◌++◌}
use cpp_orderbook_engine.Types.{Price, Quantity, buy, sell, Trade, ExecutionReport, MatchEvent}
use cpp_orderbook_engine.Engine.{MatchingEngine, best_bid, best_ask, spread, resting_quantity}

pub record MarketDataHandler {ℓ} (S : Type ℓ) : Type ℓ where
  pub recent_trades : List Trade
  pub recent_reports : List ExecutionReport
  pub trade_callback : Option (Trade → S → S)

module _ {ℓ} {S : Type ℓ} where
  unfoldable pub market_data_handler : MarketDataHandler S
  market_data_handler = record { recent_trades = []; recent_reports = []; trade_callback = none }

  -- if (trade_callback_) trade_callback_(trade)
  abbrev pub call : Option (Trade → S → S) → Trade → S → S
  call none t s = s
  call (some f) t s = f t s

  -- The first loop of `on_match_event`.
  unfoldable pub on_trades : List Trade → MarketDataHandler S → S → MarketDataHandler S × S
  on_trades [] h s = (h, s)
  on_trades (t ∷ ts) h s =
      on_trades ts (record h { recent_trades = h.recent_trades ++ t ∷ [] })
        (call h.trade_callback t s)

  -- The second loop of `on_match_event`.
  unfoldable pub on_reports : List ExecutionReport → MarketDataHandler S → MarketDataHandler S
  on_reports [] h = h
  on_reports (r ∷ rs) h = on_reports rs (record h { recent_reports = h.recent_reports ++ r ∷ [] })

  unfoldable pub on_match_event : MatchEvent → MarketDataHandler S → S → MarketDataHandler S × S
  unfolding on_trades on_reports
  on_match_event event h s =
      let (h, s) = on_trades event.trades h s in (on_reports event.reports h, s)

  unfoldable pub clear : MarketDataHandler S → MarketDataHandler S
  clear h = record h { recent_trades = []; recent_reports = [] }

  unfoldable pub set_trade_callback :
      Option (Trade → S → S) → MarketDataHandler S → MarketDataHandler S
  set_trade_callback cb h = record h { trade_callback = cb }

pub record TopOfBook : Type 0 where
  pub best_bid : Price
  pub bid_quantity : Quantity
  pub best_ask : Price
  pub ask_quantity : Quantity
  pub spread : Price

abbrev pub top_of_book : MatchingEngine → Quantity → Quantity → TopOfBook
top_of_book e bid_quantity ask_quantity = record {
  best_bid = best_bid e;
  bid_quantity = bid_quantity;
  best_ask = best_ask e;
  ask_quantity = ask_quantity;
  spread = spread e;
}

-- `none` if a walk over a level runs out of fuel.
unfoldable pub get_top_of_book : MatchingEngine → Option TopOfBook
get_top_of_book e = elim (resting_quantity e buy (best_bid e)) [
  | none ↦ none
  | some bid_quantity ↦ elim (resting_quantity e sell (best_ask e)) [
    | none ↦ none
    | some ask_quantity ↦ some (top_of_book e bid_quantity ask_quantity)
  ]
]
