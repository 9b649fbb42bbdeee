-- ===== src/MarketData/Tests.antt =====
-- The theorem on the handler at two events.
use cpp_orderbook_engine.Prelude.{ℕ, ◌+◌, ◌≡◌, pos, none, some, [], ◌∷◌, ◌++◌}
use cpp_orderbook_engine.Types.{Trade, MatchEvent}
use cpp_orderbook_engine.MarketData.{MarketDataHandler, set_trade_callback, market_data_handler}
use cpp_orderbook_engine.MarketData.Events.{
  trades_of, reports_of, each, on_match_events, on_match_events_lem,
}

abbrev trade : Trade
trade = record {
  buy_order_id = 2;
  sell_order_id = 1;
  price = pos 10;
  quantity = pos 5;
  timestamp = 3;
}

abbrev handler : MarketDataHandler ℕ
handler = market_data_handler

abbrev event : MatchEvent
event = record { trades = trade ∷ []; reports = [] }

-- A callback that counts, on two events of one trade each.
on_match_events_lem_example :
    (on_match_events (event ∷ event ∷ []) (set_trade_callback (some (λ t n. n + 1)) handler) 0 ≡ (
      record {
        recent_trades = handler.recent_trades ++ trades_of (event ∷ event ∷ []);
        recent_reports = handler.recent_reports ++ reports_of (event ∷ event ∷ []);
        trade_callback = some (λ t n. n + 1);
      },
      each (λ t n. n + 1) (trades_of (event ∷ event ∷ [])) 0,
    ))
    × (on_match_events (event ∷ event ∷ []) (set_trade_callback none handler) 0 ≡ (
      record {
        recent_trades = handler.recent_trades ++ trades_of (event ∷ event ∷ []);
        recent_reports = handler.recent_reports ++ reports_of (event ∷ event ∷ []);
        trade_callback = none;
      },
      0,
    ))
on_match_events_lem_example = on_match_events_lem (event ∷ event ∷ []) handler 0 (λ t n. n + 1)
