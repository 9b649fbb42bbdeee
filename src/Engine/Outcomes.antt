-- ===== src/Engine/Outcomes.antt =====
-- What `process_order` promises of its trades and of the two sides of the book.
use cpp_orderbook_engine.Prelude.{
  ◌≡◌, refl, sym, ◌∙◌, ap, pos, ◌+ℤ◌, ◌-ℤ◌, ◌≤ℤ◌, true, Option, some, none, List, [], ◌∷◌, ◌++◌,
  arith, All, ◌↔◌, int_laws,
}
use cpp_orderbook_engine.Types.{
  OrderStatus, filled, IncomingOrder, Quantity, ExecutionReport, MatchEvent, no_event,
}
use cpp_orderbook_engine.Order.{Slot}
use cpp_orderbook_engine.Map.{find}
use cpp_orderbook_engine.Engine.{MatchingEngine}
use cpp_orderbook_engine.Engine.Requests.{report_of, validate_order, process_order}
use cpp_orderbook_engine.Engine.Book.{Book, IsBook, IsPositive}
use cpp_orderbook_engine.Engine.Trace.{Stage, IsStage}
use cpp_orderbook_engine.Engine.Trades.{total_traded, Reach-total, IsFair, Reach-Fair}
use cpp_orderbook_engine.Engine.Subset.{Reach-IsStage}
use cpp_orderbook_engine.Engine.Process.{
  Outcome, completed, dropped, rests, Processed, InRange, process_order-Processed, valid_quantity,
}

-- The account of a processed order: its trades add up to what the last report gives as filled, what
-- is left is the rest of its quantity, it is reported as filled exactly if nothing is left, and each
-- trade is of a positive quantity at a price that the order accepts, under its id and timestamp.
pub record Accounted (o : IncomingOrder) (r : Option (MatchEvent × MatchingEngine)) : Type 0 where
  pub event : MatchEvent
  pub engine : MatchingEngine
  pub returned : r ≡ some (event, engine)
  pub status : OrderStatus
  pub left : Quantity
  pub earlier : List ExecutionReport
  pub told : event.reports ≡ earlier ++ report_of o status (total_traded event.trades) left ∷ []
  pub natural : pos 0 ≤ℤ left
  pub balanced : total_traded event.trades +ℤ left ≡ o.quantity
  pub exact : (status ≡ filled) ↔ (left ≡ pos 0)
  pub fair : All (IsFair o.side o) event.trades

Outcome-exact :
    {o : IncomingOrder} {t : Stage} {status : OrderStatus} {free : List Slot} {q : Book}
    → Outcome o t status free q
    → (status ≡ filled) ↔ (t.now.order.quantity ≡ pos 0)
Outcome-exact (completed e) = (λ _. e, λ _. refl)
Outcome-exact (dropped l _) = (λ e. absurd (cc), λ e. let l' = rw e at l in absurd (omega arith))
Outcome-exact (rests s free i l _ _ _) =
    (λ e. absurd (cc), λ e. let l' = rw e at l in absurd (omega arith))

pub total-sub : (total left : Quantity) → (total +ℤ left) -ℤ left ≡ total
total-sub total left = omega int_laws

module _ (e : MatchingEngine) (free : List Slot) (q : Book) (o : IncomingOrder)
    (v : IsBook e free q) (p : IsPositive e.pool.pool q) (h : validate_order o ≡ true) where
  abbrev pub start : Stage
  start = record { now = record { engine = e; order = o; event = no_event }; free = free; book = q }

  pub start-IsStage : IsStage start
  start-IsStage =
      let l = valid_quantity o h in record { booked = v; positive = p; natural = omega arith }

  -- What is filled and what is left of a valid order, and its trades.
  Processed-Accounted :
      (r : Option (MatchEvent × MatchingEngine)) → Processed e free q o r → Accounted o r
  unfolding total_traded
  Processed-Accounted r d =
      let f = d.finished in
      let zero : pos 0 +ℤ o.quantity ≡ o.quantity = omega int_laws in
      let total = Reach-total d.reached ∙ zero in
      let fair =
        (Reach-Fair o.side o d.reached
          (record { valid = start-IsStage; same = refl; fair = tt })).fair in
      let filled =
        ap (λ n. n -ℤ d.stage.now.order.quantity) (sym total)
        ∙ total-sub (total_traded d.stage.now.event.trades) d.stage.now.order.quantity in
      record {
        event = d.result.0;
        engine = d.result.1;
        returned = d.returned;
        status = f.status;
        left = d.stage.now.order.quantity;
        earlier = d.stage.now.event.reports;
        told = rw (f.told, filled) refl;
        natural = (Reach-IsStage d.reached start-IsStage).natural;
        balanced = rw f.told total;
        exact = Outcome-exact f.outcome;
        fair = rw f.told fair;
      }

-- From a book with the invariant and positive quantities, `process_order` of a valid order with
-- an id that is not in use, and a price within the ladder if it is a limit order, returns; its
-- trades and the rest add up to the order's quantity, the last report gives the traded sum and
-- the rest, which is not negative, the status is filled exactly if nothing is left, and every
-- trade has a positive quantity, a price that the order accepts, and the order's id and
-- timestamp.
pub process_order-Accounted :
    (e : MatchingEngine) (free : List Slot) (q : Book) (o : IncomingOrder)
    → IsBook e free q
    → IsPositive e.pool.pool q
    → validate_order o ≡ true
    → find o.id e.order_map ≡ none
    → InRange e o
    → Accounted o (process_order e o)
process_order-Accounted e free q o v p h fresh r =
    Processed-Accounted e free q o v p h (process_order e o)
      (process_order-Processed e free q o v p h fresh r)
