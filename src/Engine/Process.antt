-- ===== src/Engine/Process.antt =====
-- `process_order`: validation, matching, and what becomes of the rest.
use cpp_orderbook_engine.Prelude.{
  ℕ, ◌<◌, ◌≡◌, ◌≢◌, refl, sym, subst, ap, pos, ◌-ℤ◌, ◌≤ℤ◌, ◌<ℤ◌, ◌==ℤ◌, true, false, Option, some,
  none, List, [], ◌∷◌, ◌++◌, arith, Bool-cases, ◌⊎◌, inl, inr, ==ℤ→eq,
}
use cpp_orderbook_engine.Types.{
  OrderType, limit, market, ioc, fok, OrderStatus, resting, cancelled, filled, IncomingOrder,
  Quantity, MatchEvent, no_event,
}
use cpp_orderbook_engine.Order.{Slot, Order, Orders}
use cpp_orderbook_engine.Level.Seg.{values}
use cpp_orderbook_engine.Map.{find}
use cpp_orderbook_engine.Engine.{MatchingEngine, ladder}
use cpp_orderbook_engine.Engine.Match.{add_report}
use cpp_orderbook_engine.Engine.Requests.{
  report_of, validate_order, final_status, after_fill, without_fill, rest_order, resting_order,
  finish_order, process_order,
}
use cpp_orderbook_engine.Engine.Book.{Book, put, IsBook, IsPositive}
use cpp_orderbook_engine.Engine.Trace.{Stage, IsStage, Reach}
use cpp_orderbook_engine.Engine.Total.{Settled, match_order-MatchDone}
use cpp_orderbook_engine.Engine.Subset.{still_fresh, Reach-width}
use cpp_orderbook_engine.Engine.Insert.{rest_order-full, rest_order-RestDone}

-- An order that fails the validation is reported as cancelled, with nothing filled, and changes
-- nothing.
pub process_order-rejects :
    (e : MatchingEngine) (o : IncomingOrder)
    → validate_order o ≡ false
    → process_order e o ≡ some (add_report no_event (report_of o cancelled (pos 0) o.quantity), e)
unfolding process_order
process_order-rejects e o h = rw (process_order, h) refl

-- What becomes of an order of which `left` is left after the matching that ends in `t`: it is
-- completed; or the rest is dropped, unless it is a limit order and the pool has a free slot; or the
-- rest becomes the newest order on the level of its price.
pub data Outcome (o : IncomingOrder) (t : Stage) : OrderStatus → List Slot → Book → Type 0 where
  completed : t.now.order.quantity ≡ pos 0 → Outcome o t filled t.free t.book
  dropped :
      pos 0 <ℤ t.now.order.quantity
      → (o.type ≢ limit) ⊎ (t.free ≡ [])
      → Outcome o t cancelled t.free t.book
  rests :
      (s : Slot) (free : List Slot) (i : ℕ)
      → pos 0 <ℤ t.now.order.quantity
      → o.type ≡ limit
      → o.price ≡ pos i
      → t.free ≡ s ∷ free
      → Outcome o t resting free (put t.book o.side i (t.book o.side i ++ s ∷ []))

-- What an outcome leaves in the engine's memory: as the matching left it, but that an order that
-- rests is written to its slot.
abbrev pub Stored :
    (o : IncomingOrder) (t : Stage) {status : OrderStatus} {free : List Slot} {q : Book}
    → Outcome o t status free q
    → Orders
    → Type 0
Stored o t (completed _) mem = mem ≡ t.now.engine.pool.pool
Stored o t (dropped _ _) mem = mem ≡ t.now.engine.pool.pool
Stored o t (rests s _ _ _ _ _ _) mem =
    ((a : Slot) → a ≢ s → values (mem a) ≡ values (t.now.engine.pool.pool a))
    × ((r : Order) × (values (mem s) ≡ values (resting_order r o t.now.order.quantity resting)))

-- The end of `process_order` after a matching that ends in `t`.
pub record Finished (o : IncomingOrder) (t : Stage) (r : MatchEvent × MatchingEngine) : Type 0 where
  pub status : OrderStatus
  pub free : List Slot
  pub book : Book
  pub outcome : Outcome o t status free book
  pub told :
      r.0
      ≡ add_report t.now.event
          (report_of o status (o.quantity -ℤ t.now.order.quantity) t.now.order.quantity)
  pub booked : IsBook r.1 free book
  pub positive : IsPositive r.1.pool.pool book
  pub stored : Stored o t outcome r.1.pool.pool

-- If the order may rest its price is in range.
abbrev pub InRange : MatchingEngine → IncomingOrder → Type 0
InRange e o = o.type ≡ limit → (i : ℕ) × (o.price ≡ pos i) × (i < (ladder o.side e).max_levels)

-- What `final_status` gives when something is left.
final_status_left :
    (type : OrderType) (left done : Quantity)
    → pos 0 <ℤ left
    → (type ≢ limit) × (final_status type left done ≡ (false, cancelled))
      ⊎ (type ≡ limit) × (final_status type left done ≡ (true, resting))
unfolding final_status after_fill without_fill
final_status_left limit left done h = inr (refl, ground arith)
final_status_left market left done h = inl (λ e. cc, ground arith)
final_status_left ioc left done h = inl (λ e. cc, ground arith)
final_status_left fok left done h = inl (λ e. cc, ground arith)

module _ (o : IncomingOrder) (t : Stage) (v : IsStage t) where
  abbrev done_of : Quantity
  done_of = o.quantity -ℤ t.now.order.quantity

  abbrev left_of : Quantity
  left_of = t.now.order.quantity

  finish_closed :
      (status : OrderStatus)
      → final_status o.type left_of done_of ≡ (false, status)
      → finish_order o t.now
        ≡ (add_report t.now.event (report_of o status done_of left_of), t.now.engine)
  unfolding finish_order
  finish_closed status f = rw (finish_order, ap (λ r. r.0) f, ap (λ r. r.1) f) refl

  finish_rested :
      (status : OrderStatus) (e : MatchingEngine)
      → final_status o.type left_of done_of ≡ (true, resting)
      → rest_order t.now.engine o left_of resting ≡ (status, e)
      → finish_order o t.now ≡ (add_report t.now.event (report_of o status done_of left_of), e)
  unfolding finish_order
  finish_rested status e f r =
      rw (finish_order, ap (λ r. r.0) f, ap (λ r. r.1) f, ap (λ r. r.0) r, ap (λ r. r.1) r) refl

  closed :
      (status : OrderStatus)
      → finish_order o t.now
        ≡ (add_report t.now.event (report_of o status done_of left_of), t.now.engine)
      → (outcome : Outcome o t status t.free t.book) → Stored o t outcome t.now.engine.pool.pool
      → Finished o t (finish_order o t.now)
  closed status f outcome stored = subst (Finished o t) (sym f) (record {
    status = status;
    free = t.free;
    book = t.book;
    outcome = outcome;
    told = refl;
    booked = v.booked;
    positive = v.positive;
    stored = stored;
  })

  rested :
      (free : List Slot)
      → t.free ≡ free
      → pos 0 <ℤ left_of
      → o.type ≡ limit
      → final_status o.type left_of done_of ≡ (true, resting)
      → InRange t.now.engine o
      → find o.id t.now.engine.order_map ≡ none
      → Finished o t (finish_order o t.now)
  rested [] e l type f r fresh =
      let booked = subst (λ w. IsBook t.now.engine w t.book) e v.booked in
      closed cancelled
        (finish_rested cancelled t.now.engine f
          (rest_order-full t.now.engine o left_of resting booked.pool))
        (dropped l (inr e)) refl
  rested (s ∷ free) e l type f r fresh =
      let booked = subst (λ w. IsBook t.now.engine w t.book) e v.booked in
      let (i, price, range) = r type in
      let d =
        rest_order-RestDone t.now.engine free s t.book booked v.positive o left_of resting i l refl
          price range fresh in
      subst (Finished o t) (sym (finish_rested resting d.engine f d.result)) (record {
        status = resting;
        free = free;
        book = put t.book o.side i (t.book o.side i ++ s ∷ []);
        outcome = rests s free i l type price e;
        told = refl;
        booked = d.booked;
        positive = d.positive;
        stored = (d.kept, d.stored);
      })

  pub finish_order-Finished :
      InRange t.now.engine o
      → find o.id t.now.engine.order_map ≡ none
      → Finished o t (finish_order o t.now)
  unfolding final_status
  finish_order-Finished r fresh = elim (Bool-cases (left_of ==ℤ pos 0)) [
    | inl e ↦
        closed filled (finish_closed filled (rw (final_status, e) refl))
          (completed (==ℤ→eq left_of (pos 0) e)) refl
    | inr e ↦
        let l : pos 0 <ℤ left_of = let n = v.natural in ground arith in
        elim (final_status_left o.type left_of done_of l) [
          | inl (type, f) ↦ closed cancelled (finish_closed cancelled f) (dropped l (inl type)) refl
          | inr (type, f) ↦ rested t.free refl l type f r fresh
        ]
  ]

-- What `process_order` does with a valid order: rounds at the best crossing price until nothing is
-- left to match, which lead to `stage`, and then the end.
pub record Processed (e : MatchingEngine) (free : List Slot) (q : Book) (o : IncomingOrder)
    (r : Option (MatchEvent × MatchingEngine)) : Type 0 where
  pub stage : Stage
  pub reached :
      Reach o.side
        (record { now = record { engine = e; order = o; event = no_event }; free = free; book = q })
        stage
  pub settled : Settled o.side stage
  pub result : MatchEvent × MatchingEngine
  pub returned : r ≡ some result
  pub finished : Finished o stage result

-- A valid order has a positive quantity.
pub valid_quantity : (o : IncomingOrder) → validate_order o ≡ true → pos 0 <ℤ o.quantity
unfolding validate_order
valid_quantity o h = ground arith

-- From a book with the invariant and positive quantities, `process_order` of a valid order with
-- an id that is not in use, and a price within the ladder if it is a limit order, returns: rounds
-- at the best crossing price against the oldest order there lead to a state where nothing is left
-- to match; what is left is completed, dropped (if the order is no limit order or the pool is
-- full) or appended to the level of its price, as the last report says; and the invariant and the
-- positive quantities are kept.
pub process_order-Processed :
    (e : MatchingEngine) (free : List Slot) (q : Book) (o : IncomingOrder)
    → IsBook e free q
    → IsPositive e.pool.pool q
    → validate_order o ≡ true
    → find o.id e.order_map ≡ none
    → InRange e o
    → Processed e free q o (process_order e o)
unfolding process_order
process_order-Processed e free q o v p h fresh r =
    let start : Stage = record {
      now = record { engine = e; order = o; event = no_event };
      free = free;
      book = q;
    } in
    let natural : pos 0 ≤ℤ o.quantity = let l = valid_quantity o h in omega arith in
    let valid : IsStage start = record { booked = v; positive = p; natural = natural } in
    let d = match_order-MatchDone o.side start valid in
    record {
      stage = d.stage;
      reached = d.reached;
      settled = d.settled;
      result = finish_order o d.stage.now;
      returned = rw (process_order, h, d.result) refl;
      finished =
          finish_order-Finished o d.stage d.valid
            (λ type.
              let (i, price, range) = r type in
              (i, price, subst (λ n. i < n) (sym (Reach-width o.side d.reached)) range))
            (still_fresh o.id d.reached valid fresh);
    }
