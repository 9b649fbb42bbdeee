-- ===== src/Reference/Process.antt =====
-- `process_order` of the reference engine: matching, and what becomes of the rest.
use mathlib.Core.Path.{fun_ext}
use cpp_orderbook_engine.Prelude.{
  ◌≡◌, ◌≢◌, refl, sym, subst, ap, pos, ◌-ℤ◌, ◌≤ℤ◌, ◌<ℤ◌, ◌==ℤ◌, ltb_ℤ, leb_ℤ, true, false, ◌||◌, [],
  arith, ◌==◌, Bool-cases, inl, inr, sub-zero,
}
use cpp_orderbook_engine.Types.{
  Side, buy, sell, OrderType, limit, market, ioc, fok, resting, filled, cancelled, IncomingOrder,
  Quantity, MatchEvent, no_event,
}
use cpp_orderbook_engine.Order.{is_limit}
use cpp_orderbook_engine.Map.{find}
use cpp_orderbook_engine.Spec.{market_of, market_eq, Run, IsClosed}
use cpp_orderbook_engine.Reference.{
  reference_engine, Levels, ReferenceEngine, side_levels, tell, ref_report,
}
use cpp_orderbook_engine.Reference.Matching.{RefMatching, match_levels}
use cpp_orderbook_engine.Reference.Calls.{
  opposite_levels, matched, closing_report, finish_order, insert_order, process_order, rest_of,
}
use cpp_orderbook_engine.Reference.Shelf.{
  shelves, all_levels, book_of, IsShelf, IsShelved, no_levels, ref_book,
}
use cpp_orderbook_engine.Reference.Match.{ref_market}
use cpp_orderbook_engine.Reference.Outer.{match_levels-Matched}

pub reference_levels : (side : Side) → all_levels reference_engine side ≡ []
unfolding reference_engine
reference_levels buy = refl
reference_levels sell = refl

pub reference_engine-IsShelved : IsShelved reference_engine
unfolding reference_engine find
reference_engine-IsShelved = record {
  sorted = λ side. rw (reference_levels side) no_levels;
  distinct = λ side i. rw (reference_levels side) tt;
  tagged = λ side i a h. let h' = rw (reference_levels side) at h in absurd (cc);
  mapped = λ side i a h. let h' = rw (reference_levels side) at h in absurd (cc);
  found = λ id a f. absurd (cc);
}

-- The levels of an engine, as the matching of a side sees them.
pub shelves-side_levels :
    (s : Side) (e : ReferenceEngine)
    → shelves s (side_levels s e) (opposite_levels s e) ≡ all_levels e
shelves-side_levels s e = fun_ext (λ side. at s side)
  where
    at :
        (s side : Side)
        → shelves s (side_levels s e) (opposite_levels s e) side ≡ side_levels side e
    at buy buy = refl
    at buy sell = refl
    at sell buy = refl
    at sell sell = refl

pub all_levels-matched :
    (s : Side) (e : ReferenceEngine) (r : Levels × RefMatching)
    → all_levels (matched s e r) ≡ shelves s (side_levels s e) r.0
all_levels-matched s e r = fun_ext (λ side. at s side)
  where
    at : (s side : Side) → side_levels side (matched s e r) ≡ shelves s (side_levels s e) r.0 side
    at buy buy = refl
    at buy sell = refl
    at sell buy = refl
    at sell sell = refl

fresh-matched :
    (s : Side) (e : ReferenceEngine) (r : Levels × RefMatching) → (matched s e r).fresh ≡ e.fresh
fresh-matched buy e r = refl
fresh-matched sell e r = refl

-- The matching of an engine that is given an order.
abbrev pub begin : ReferenceEngine → IncomingOrder → RefMatching
begin e o = record { nodes = e.nodes; order_map = e.order_map; order = o; event = no_event }

abbrev pub match_result : ReferenceEngine → IncomingOrder → Levels × RefMatching
match_result e o = match_levels o.side (opposite_levels o.side e) (begin e o)

abbrev pub engine_matched : ReferenceEngine → IncomingOrder → ReferenceEngine
engine_matched e o = matched o.side e (match_result e o)

-- The market before and after the matching of a well-formed engine, and the run between them.
pub matched_run :
    (e : ReferenceEngine) (o : IncomingOrder)
    → IsShelved e
    → pos 0 ≤ℤ o.quantity
    → let m = (match_result e o).1 in
      let after = market_of (book_of (engine_matched e o)) m.order m.event in
      Run o.side (market_of (book_of e) o no_event) after
      × IsClosed o.side after
      × IsShelved (engine_matched e o)
matched_run e o v n =
    let s = o.side in
    let d =
      match_levels-Matched s (side_levels s e) e.fresh (opposite_levels s e) (begin e o)
        (subst (IsShelf e.nodes e.fresh e.order_map) (sym (shelves-side_levels s e)) v) n in
    let m = (match_result e o).1 in
    let end : ref_market s (side_levels s e) (match_result e o).0 m
        ≡ market_of (book_of (engine_matched e o)) m.order m.event =
      market_eq (ap (ref_book m.nodes) (sym (all_levels-matched s e (match_result e o)))) refl
        refl in
    let begun : ref_market s (side_levels s e) (opposite_levels s e) (begin e o)
        ≡ market_of (book_of e) o no_event =
      market_eq (ap (ref_book e.nodes) (shelves-side_levels s e)) refl refl in
    (
      subst (λ x. Run s x (market_of (book_of (engine_matched e o)) m.order m.event)) begun
          (subst (Run s _) end d.run),
      subst (IsClosed s) end d.closed,
      rw (all_levels-matched s e (match_result e o), fresh-matched s e (match_result e o)) d.shelf,
    )

pub accepted :
    (e : ReferenceEngine) (o : IncomingOrder)
    → (leb_ℤ o.quantity (pos 0) || (o.id == 0)) ≡ false
    → process_order e o
      ≡ finish_order o
          (engine_matched e o)
          (match_result e o).1.order.quantity
          (match_result e o).1.event
unfolding process_order
accepted e o h = rw (process_order, h) refl

pub refused :
    (e : ReferenceEngine) (o : IncomingOrder)
    → (leb_ℤ o.quantity (pos 0) || (o.id == 0)) ≡ true
    → process_order e o
      ≡ (tell no_event (ref_report o.id cancelled o.side o.price (pos 0) o.quantity), e)
unfolding process_order
refused e o h = rw (process_order, h) refl

not_limit : (type : OrderType) → type ≢ limit → is_limit type ≡ false
not_limit limit ne = absurd (ne refl)
not_limit market ne = refl
not_limit ioc ne = refl
not_limit fok ne = refl

nothing_done :
    (quantity left : Quantity)
    → left ≤ℤ quantity
    → ltb_ℤ (pos 0) (quantity -ℤ left) ≡ false
    → (quantity -ℤ left ≡ pos 0) × (quantity ≡ left)
unfolding ◌-ℤ◌
nothing_done quantity left h k = (ground arith, ground arith)

module _ (o : IncomingOrder) (e : ReferenceEngine) (left : Quantity) (ev : MatchEvent) where
  pub finish-filled :
      left ≡ pos 0
      → finish_order o e left ev
        ≡ (tell ev (ref_report o.id filled o.side o.price (o.quantity -ℤ left) left), e)
  unfolding finish_order closing_report
  finish-filled z =
      let t : (left ==ℤ pos 0) ≡ true = rw z refl in
      rw (finish_order, t) (rw (z, sub-zero o.quantity) refl)

  pub finish-dropped :
      pos 0 <ℤ left
      → left ≤ℤ o.quantity
      → o.type ≢ limit
      → finish_order o e left ev
        ≡ (tell ev (ref_report o.id cancelled o.side o.price (o.quantity -ℤ left) left), e)
  unfolding finish_order closing_report
  finish-dropped l h ne =
      let t : (left ==ℤ pos 0) ≡ false = ground arith in
      rw (finish_order, t, not_limit o.type ne)
        (elim (Bool-cases (ltb_ℤ (pos 0) (o.quantity -ℤ left))) [
          | inl k ↦ rw k refl
          | inr k ↦
              let (none_done, all_left) = nothing_done o.quantity left h k in
              rw k (rw (none_done, all_left) refl)
        ])

  pub finish-resting :
      pos 0 <ℤ left
      → o.type ≡ limit
      → finish_order o e left ev ≡ (
        tell ev (ref_report o.id resting o.side o.price (o.quantity -ℤ left) left),
        insert_order e (rest_of o left),
      )
  unfolding finish_order closing_report
  finish-resting l is =
      let t : (left ==ℤ pos 0) ≡ false = ground arith in
      let il : is_limit o.type ≡ true = ap is_limit is in
      rw (finish_order, t, il)
        (elim (Bool-cases (ltb_ℤ (pos 0) (o.quantity -ℤ left))) [
          | inl k ↦ rw k refl
          | inr k ↦ rw k refl
        ])
