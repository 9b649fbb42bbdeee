-- ===== src/MarketData/Events.antt =====
-- What the handler keeps of the events, and what it calls back.
use mathlib.Core.List.{append-nil, append_assoc}
use cpp_orderbook_engine.Prelude.{◌≡◌, refl, ap, ◌∙◌, none, some, List, [], ◌∷◌, ◌++◌}
use cpp_orderbook_engine.Types.{Trade, ExecutionReport, MatchEvent}
use cpp_orderbook_engine.MarketData.{
  MarketDataHandler, call, on_trades, on_reports, on_match_event, set_trade_callback,
}

-- The trades and the reports of some events, in order.
abbrev pub trades_of : List MatchEvent → List Trade
trades_of [] = []
trades_of (ev ∷ evs) = ev.trades ++ trades_of evs

abbrev pub reports_of : List MatchEvent → List ExecutionReport
reports_of [] = []
reports_of (ev ∷ evs) = ev.reports ++ reports_of evs

-- A function run on each item of a list, the first one first.
abbrev pub each {ℓ κ} : {A : Type ℓ} {S : Type κ} → (A → S → S) → List A → S → S
each f [] s = s
each f (x ∷ xs) s = each f xs (f x s)

each-append {ℓ κ} :
    {A : Type ℓ} {S : Type κ} (f : A → S → S) (xs ys : List A) (s : S)
    → each f (xs ++ ys) s ≡ each f ys (each f xs s)
each-append f [] ys s = refl
each-append f (x ∷ xs) ys s = each-append f xs ys (f x s)

module _ {ℓ} {S : Type ℓ} where
  -- The handler on some events, one after another.
  unfoldable pub on_match_events :
      List MatchEvent → MarketDataHandler S → S → MarketDataHandler S × S
  on_match_events [] h s = (h, s)
  on_match_events (ev ∷ evs) h s = let (h, s) = on_match_event ev h s in on_match_events evs h s

  -- A handler with more trades and reports kept.
  abbrev pub kept : MarketDataHandler S → List Trade → List ExecutionReport → MarketDataHandler S
  kept h ts rs = record {
    recent_trades = h.recent_trades ++ ts;
    recent_reports = h.recent_reports ++ rs;
    trade_callback = h.trade_callback;
  }

  on_trades_lem :
      (ts : List Trade) (h : MarketDataHandler S) (s : S)
      → on_trades ts h s
        ≡ (record h { recent_trades = h.recent_trades ++ ts }, each (call h.trade_callback) ts s)
  unfolding on_trades
  on_trades_lem [] h s = rw (append-nil h.recent_trades) refl
  on_trades_lem (t ∷ ts) h s =
      on_trades_lem ts _ _ ∙ rw (append_assoc h.recent_trades (t ∷ []) ts) refl

  on_reports_lem :
      (rs : List ExecutionReport) (h : MarketDataHandler S)
      → on_reports rs h ≡ record h { recent_reports = h.recent_reports ++ rs }
  unfolding on_reports
  on_reports_lem [] h = rw (append-nil h.recent_reports) refl
  on_reports_lem (r ∷ rs) h =
      on_reports_lem rs _ ∙ rw (append_assoc h.recent_reports (r ∷ []) rs) refl

  pub on_match_event_lem :
      (ev : MatchEvent) (h : MarketDataHandler S) (s : S)
      → on_match_event ev h s
        ≡ (kept h ev.trades ev.reports, each (call h.trade_callback) ev.trades s)
  unfolding on_match_event
  on_match_event_lem ev h s =
      let t = on_trades_lem ev.trades h s in
      rw (on_match_event, ap (λ r. r.0) t, ap (λ r. r.1) t, on_reports_lem ev.reports _) refl

  on_match_events_all :
      (evs : List MatchEvent) (h : MarketDataHandler S) (s : S)
      → on_match_events evs h s
        ≡ (kept h (trades_of evs) (reports_of evs), each (call h.trade_callback) (trades_of evs) s)
  unfolding on_match_events
  on_match_events_all [] h s = rw (append-nil h.recent_trades, append-nil h.recent_reports) refl
  on_match_events_all (ev ∷ evs) h s =
      let one = on_match_event_lem ev h s in
      let rest =
        on_match_events_all evs (kept h ev.trades ev.reports)
          (each (call h.trade_callback) ev.trades s) in
      ap (λ r. on_match_events evs r.0 r.1) one
      ∙ rest
      ∙ rw
          (
            append_assoc h.recent_trades ev.trades (trades_of evs),
            append_assoc h.recent_reports ev.reports (reports_of evs),
            each-append (call h.trade_callback) ev.trades (trades_of evs) s,
          )
          refl

  uncalled : (ts : List Trade) (s : S) → each (call none) ts s ≡ s
  uncalled [] s = refl
  uncalled (t ∷ ts) s = uncalled ts s

  pub called :
      (f : Trade → S → S) (ts : List Trade) (s : S) → each (call (some f)) ts s ≡ each f ts s
  called f [] s = refl
  called f (t ∷ ts) s = called f ts (f t s)

  -- On some events one after another the handler appends their trades and reports to those that
  -- it keeps, in order; a callback that is set runs once on each trade, in order, and without
  -- one nothing is called.
  pub on_match_events_lem :
      (evs : List MatchEvent) (h : MarketDataHandler S) (s : S) (f : Trade → S → S)
      → (on_match_events evs (set_trade_callback (some f) h) s ≡ (
        record {
          recent_trades = h.recent_trades ++ trades_of evs;
          recent_reports = h.recent_reports ++ reports_of evs;
          trade_callback = some f;
        },
        each f (trades_of evs) s,
      ))
        × (on_match_events evs (set_trade_callback none h) s ≡ (
          record {
            recent_trades = h.recent_trades ++ trades_of evs;
            recent_reports = h.recent_reports ++ reports_of evs;
            trade_callback = none;
          },
          s,
        ))
  unfolding set_trade_callback
  on_match_events_lem evs h s f = (
    on_match_events_all evs (set_trade_callback (some f) h) s
        ∙ rw (called f (trades_of evs) s) refl,
    on_match_events_all evs (set_trade_callback none h) s ∙ rw (uncalled (trades_of evs) s) refl,
  )
