-- ===== src/Differential/Orders.antt =====
-- Two engines that agree process an order with the same events, and agree afterwards.
use cpp_orderbook_engine.Prelude.{
  ◌≡◌, ◌≢◌, refl, sym, subst, ◌∙◌, ap, pos, ◌-ℤ◌, ◌≤ℤ◌, leb_ℤ, true, false, ◌||◌, some, none, List,
  [], ◌∷◌, ◌++◌, arith, ◌==◌, inl, inr,
}
use cpp_orderbook_engine.Types.{limit, OrderStatus, IncomingOrder, MatchEvent, no_event}
use cpp_orderbook_engine.Order.{Slot}
use cpp_orderbook_engine.Map.{find}
use cpp_orderbook_engine.Engine.Requests
use cpp_orderbook_engine.Engine.{MatchingEngine}
use cpp_orderbook_engine.Engine.Match.{add_report}
use cpp_orderbook_engine.Engine.Requests.{validate_order, report_of}
use cpp_orderbook_engine.Engine.Book.{Book, IsBook, IsPositive}
use cpp_orderbook_engine.Engine.Trace.{Stage, IsStage}
use cpp_orderbook_engine.Engine.Subset.{Reach-IsStage, still_fresh, left_le}
use cpp_orderbook_engine.Engine.Process.{
  Outcome, completed, dropped, rests, Stored, Finished, InRange, Processed, process_order-Processed,
  process_order-rejects,
}
use cpp_orderbook_engine.Engine.Outcomes.{start, start-IsStage}
use cpp_orderbook_engine.Engine.Abstract.{entries, market, Reach-Run, Settled-IsClosed}
use cpp_orderbook_engine.Engine.Entries.{rested_entries, rest_entry}
use cpp_orderbook_engine.Engine.Room.{HasRoom, HasRoom-free, free_kept}
use cpp_orderbook_engine.Spec.{Market, market_of, Run, place}
use cpp_orderbook_engine.Spec.Unique.{Run-unique}
use cpp_orderbook_engine.Reference.Calls
use cpp_orderbook_engine.Reference.{ReferenceEngine}
use cpp_orderbook_engine.Reference.Calls.{rest_of}
use cpp_orderbook_engine.Reference.Shelf.{IsShelved, book_of}
use cpp_orderbook_engine.Reference.Insert.{insert_order-IsShelved}
use cpp_orderbook_engine.Reference.Process.{
  match_result, engine_matched, matched_run, accepted, refused, finish-filled, finish-dropped,
  finish-resting,
}
use cpp_orderbook_engine.Differential.{Agrees}
use cpp_orderbook_engine.Differential.Ids.{missing_both}

-- The ends of `process_order` after matchings with the same result.
finish-Agrees :
    (o : IncomingOrder) (t : Stage) (res : MatchEvent × MatchingEngine) (r : ReferenceEngine)
    → IsStage t
    → Finished o t res
    → IsShelved r
    → entries t.now.engine.pool.pool t.book ≡ book_of r
    → t.now.order.quantity ≤ℤ o.quantity
    → (o.type ≡ limit → t.free ≢ [])
    → find o.id r.order_map ≡ none
    → ((Calls.finish_order o r t.now.order.quantity t.now.event).0 ≡ res.0)
      × Agrees res.1 (Calls.finish_order o r t.now.order.quantity t.now.event).1
finish-Agrees o t res r v f w same le room fresh = by f.outcome f.told f.booked f.positive f.stored
  where
    by :
        {status : OrderStatus} {free : List Slot} {q : Book}
        → (out : Outcome o t status free q)
        → res.0
          ≡ add_report t.now.event
              (report_of o status (o.quantity -ℤ t.now.order.quantity) t.now.order.quantity)
        → IsBook res.1 free q
        → IsPositive res.1.pool.pool q
        → Stored o t out res.1.pool.pool
        → ((Calls.finish_order o r t.now.order.quantity t.now.event).0 ≡ res.0)
          × Agrees res.1 (Calls.finish_order o r t.now.order.quantity t.now.event).1
    by (completed z) told b p st = rw (finish-filled o r t.now.order.quantity t.now.event z) (
      sym told,
      record {
        free = t.free;
        book = t.book;
        booked = b;
        positive = p;
        shelved = w;
        same = ap (λ m. entries m t.book) st ∙ same;
      },
    )
    by (dropped l why) told b p st =
        let ne : o.type ≢ limit = elim why [ inl n ↦ n | inr none_free ↦ λ e. room e none_free ] in
        rw (finish-dropped o r t.now.order.quantity t.now.event l le ne) (
          sym told,
          record {
            free = t.free;
            book = t.book;
            booked = b;
            positive = p;
            shelved = w;
            same = ap (λ m. entries m t.book) st ∙ same;
          },
        )
    by (rests s free i l type price ef) told b p st =
        let (kept, (r', stored)) = st in
        let (w', added) =
          insert_order-IsShelved r (rest_of o t.now.order.quantity) i w price refl fresh in
        rw (finish-resting o r t.now.order.quantity t.now.event l type) (
          sym told,
          record {
            free = free;
            book = _;
            booked = b;
            positive = p;
            shelved = w';
            same =
                rested_entries v.booked res.1.pool.pool s free o t.now.order.quantity i r' ef kept
                  stored
                ∙ ap (λ q. place q o.side i (q o.side i ++ rest_entry o t.now.order.quantity ∷ []))
                    same
                ∙ sym added;
          },
        )

valid_accepted :
    (o : IncomingOrder)
    → validate_order o ≡ true
    → (leb_ℤ o.quantity (pos 0) || (o.id == 0)) ≡ false
unfolding validate_order
valid_accepted o h = ground arith

invalid_refused :
    (o : IncomingOrder)
    → (leb_ℤ o.quantity (pos 0) || (o.id == 0)) ≡ true
    → validate_order o ≡ false
unfolding validate_order
invalid_refused o h = ground arith

module _ (e : MatchingEngine) (r : ReferenceEngine) (o : IncomingOrder) (s : Agrees e r)
    (h : validate_order o ≡ true) (fresh : find o.id e.order_map ≡ none) (range : InRange e o)
    (room : HasRoom e o) where
  abbrev begun : Stage
  begun = start e s.free s.book o s.booked s.positive h

  valid : IsStage begun
  valid = start-IsStage e s.free s.book o s.booked s.positive h

  d : Processed e s.free s.book o (Requests.process_order e o)
  d = process_order-Processed e s.free s.book o s.booked s.positive h fresh range

  abbrev r' : ReferenceEngine
  r' = engine_matched r o

  abbrev ended : Market
  ended = market_of (book_of r') (match_result r o).1.order (match_result r o).1.event

  -- Both matchings end in the same market.
  same_end : market d.stage ≡ ended
  same_end =
      let (run, closed, _) = matched_run r o s.shelved valid.natural in
      Run-unique (Reach-Run d.reached valid) (Settled-IsClosed o.side d.stage d.settled)
        (subst (λ b. Run o.side (market_of b o no_event) ended) (sym s.same) run) closed

  same_finish :
      Calls.process_order r o ≡ Calls.finish_order o r' d.stage.now.order.quantity d.stage.now.event
  same_finish =
      accepted r o (valid_accepted o h)
      ∙ ap (λ m. Calls.finish_order o r' m.order.quantity m.event) (sym same_end)

  both : ((Calls.process_order r o).0 ≡ d.result.0) × Agrees d.result.1 (Calls.process_order r o).1
  both =
      let ended_valid = Reach-IsStage d.reached valid in
      let (_, _, w) = matched_run r o s.shelved valid.natural in
      let same = ap (λ m. m.book) same_end in
      rw same_finish (
        finish-Agrees o d.stage d.result r' ended_valid d.finished w same (left_le d.reached valid)
          (λ type. free_kept d.reached (HasRoom-free e o s.free s.book s.booked room type))
          (missing_both ended_valid.booked w same o.id (still_fresh o.id d.reached valid fresh)))

-- Engines that agree (both well formed, with the same entries in the same order at every price):
-- a valid order with an id that is not in use, and, if it is a limit order, a price within the
-- ladder and a free slot in the pool, makes both return the same event, the engine's loops end
-- within their fuel, and the engines agree afterwards.
pub process_order-Agrees :
    (e : MatchingEngine) (r : ReferenceEngine) (o : IncomingOrder)
    → Agrees e r
    → validate_order o ≡ true
    → find o.id e.order_map ≡ none
    → InRange e o
    → HasRoom e o
    → (ev : MatchEvent) × (e' : MatchingEngine) × (Requests.process_order e o ≡ some (ev, e'))
      × ((Calls.process_order r o).0 ≡ ev)
      × Agrees e' (Calls.process_order r o).1
process_order-Agrees e r o s h fresh range room =
    let p = d e r o s h fresh range room in
    let (told, after) = both e r o s h fresh range room in
    (p.result.0, p.result.1, p.returned, told, after)

-- An order without a positive quantity, or with id 0, is rejected by both engines with the same
-- report, and changes neither.
pub process_order-rejects_both :
    (e : MatchingEngine) (r : ReferenceEngine) (o : IncomingOrder)
    → (leb_ℤ o.quantity (pos 0) || (o.id == 0)) ≡ true
    → Requests.process_order e o ≡ some ((Calls.process_order r o).0, e)
      × ((Calls.process_order r o).1 ≡ r)
process_order-rejects_both e r o h =
    let k = refused r o h in rw k (process_order-rejects e o (invalid_refused o h), refl)
