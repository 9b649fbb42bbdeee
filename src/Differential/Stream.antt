-- ===== src/Differential/Stream.antt =====
-- Whole streams of requests, as tests/test_differential.cpp runs them through both engines.
use mathlib.Core.Path.{fun_ext}
use cpp_orderbook_engine.Prelude.{
  ℕ, ◌<◌, ◌≤◌, ◌≡◌, refl, sym, ℤ, pos, leb_ℤ, true, ◌||◌, Option, some, none, List, [], ◌∷◌, arith,
  ◌==◌,
}
use cpp_orderbook_engine.Types.{OrderId, IncomingOrder, MatchEvent}
use cpp_orderbook_engine.Map.{find}
use cpp_orderbook_engine.Pool.{uint32_max}
use cpp_orderbook_engine.Pool.Free.{slots}
use cpp_orderbook_engine.Engine.Requests
use cpp_orderbook_engine.Engine.{MatchingEngine, matching_engine}
use cpp_orderbook_engine.Engine.Requests.{validate_order}
use cpp_orderbook_engine.Engine.Process.{InRange}
use cpp_orderbook_engine.Engine.Verify.{matching_engine-IsBook, no_orders}
use cpp_orderbook_engine.Reference.Calls
use cpp_orderbook_engine.Reference.{ReferenceEngine, reference_engine}
use cpp_orderbook_engine.Reference.Process.{reference_levels, reference_engine-IsShelved}
use cpp_orderbook_engine.Differential.{Agrees}
use cpp_orderbook_engine.Differential.Ids.{cancel_order-Agrees}
use cpp_orderbook_engine.Engine.Room.{HasRoom}
use cpp_orderbook_engine.Differential.Orders.{process_order-Agrees, process_order-rejects_both}

pub data Request : Type 0 where
  submit : IncomingOrder → Request
  withdraw : OrderId → Request

-- The events of a stream of requests, in their order, and the engine afterwards.
unfoldable pub serve : MatchingEngine → List Request → Option (List MatchEvent × MatchingEngine)
serve e [] = some ([], e)
serve e (submit o ∷ rs) = elim (Requests.process_order e o) [
  | none ↦ none
  | some (ev, e') ↦ elim (serve e' rs) [ none ↦ none | some (evs, e'') ↦ some (ev ∷ evs, e'') ]
]
serve e (withdraw id ∷ rs) =
    let (ev, e') = Requests.cancel_order e id in
    elim (serve e' rs) [ none ↦ none | some (evs, e'') ↦ some (ev ∷ evs, e'') ]

unfoldable pub serve_reference : ReferenceEngine → List Request → List MatchEvent × ReferenceEngine
serve_reference r [] = ([], r)
serve_reference r (submit o ∷ rs) =
    let (ev, r') = Calls.process_order r o in
    let (evs, r'') = serve_reference r' rs in (ev ∷ evs, r'')
serve_reference r (withdraw id ∷ rs) =
    let (ev, r') = Calls.cancel_order r id in
    let (evs, r'') = serve_reference r' rs in (ev ∷ evs, r'')

-- A stream of which every order is refused for its quantity or its id, or is valid, has an id that is
-- not in use, and, if it is a limit order, a price within the ladder and room in the pool.
pub data Admits : MatchingEngine → List Request → Type 0 where
  ends : {e : MatchingEngine} → Admits e []
  refuses :
      {e : MatchingEngine} {o : IncomingOrder} {rs : List Request}
      → (leb_ℤ o.quantity (pos 0) || (o.id == 0)) ≡ true
      → Admits e rs
      → Admits e (submit o ∷ rs)
  submits :
      {e : MatchingEngine} {o : IncomingOrder} {rs : List Request}
      → validate_order o ≡ true
      → find o.id e.order_map ≡ none
      → InRange e o
      → HasRoom e o
      → ((ev : MatchEvent) (e' : MatchingEngine)
          → Requests.process_order e o ≡ some (ev, e')
          → Admits e' rs)
      → Admits e (submit o ∷ rs)
  withdraws :
      {e : MatchingEngine} {id : OrderId} {rs : List Request}
      → Admits (Requests.cancel_order e id).1 rs
      → Admits e (withdraw id ∷ rs)

-- What both engines have done at the end of a stream.
abbrev pub Replayed : MatchingEngine → ReferenceEngine → List Request → Type 0
Replayed e r rs =
    (e' : MatchingEngine) × (serve e rs ≡ some ((serve_reference r rs).0, e'))
    × Agrees e' (serve_reference r rs).1

submit_both :
    (e e' : MatchingEngine) (r : ReferenceEngine) (o : IncomingOrder) (ev : MatchEvent)
    (rs : List Request)
    → Requests.process_order e o ≡ some (ev, e')
    → (Calls.process_order r o).0 ≡ ev
    → Replayed e' (Calls.process_order r o).1 rs
    → Replayed e r (submit o ∷ rs)
unfolding serve serve_reference
submit_both e e' r o ev rs p told (e'', s, a) = (e'', rw (serve, p, s, told) refl, a)

withdraw_both :
    (e : MatchingEngine) (r : ReferenceEngine) (id : OrderId) (rs : List Request)
    → (Calls.cancel_order r id).0 ≡ (Requests.cancel_order e id).0
    → Replayed (Requests.cancel_order e id).1 (Calls.cancel_order r id).1 rs
    → Replayed e r (withdraw id ∷ rs)
unfolding serve serve_reference
withdraw_both e r id rs told (e'', s, a) = (e'', rw (serve, s, told) refl, a)

-- Engines that agree give the same events for every stream of such requests, the engine's loops end
-- within their fuel, and the engines agree afterwards.
pub serve-Replayed :
    {e : MatchingEngine} {rs : List Request}
    → Admits e rs
    → (r : ReferenceEngine) → Agrees e r
    → Replayed e r rs
unfolding serve serve_reference
serve-Replayed {e} ends r s = (e, refl, s)
serve-Replayed {e} (refuses {o = o} {rs = rs} h a) r s =
    let (p, k) = process_order-rejects_both e r o h in
    submit_both e e r o (Calls.process_order r o).0 rs p refl
      (serve-Replayed a (Calls.process_order r o).1 (rw k s))
serve-Replayed {e} (submits {o = o} {rs = rs} h fresh range room next) r s =
    let (ev, e', p, told, s') = process_order-Agrees e r o s h fresh range room in
    submit_both e e' r o ev rs p told (serve-Replayed (next ev e' p) (Calls.process_order r o).1 s')
serve-Replayed {e} (withdraws {id = id} {rs = rs} a) r s =
    let (told, s') = cancel_order-Agrees e r id s in
    withdraw_both e r id rs told (serve-Replayed a (Calls.cancel_order r id).1 s')

-- A new engine, of any width and of a pool capacity from 1 to 2 ^ 32 - 1, agrees with a new reference
-- engine.
pub matching_engine-Agrees :
    (levels : ℤ) (capacity : ℕ)
    → 0 < capacity
    → capacity ≤ uint32_max
    → Agrees (matching_engine levels capacity) reference_engine
unfolding reference_engine
matching_engine-Agrees levels capacity h m = record {
  free = slots capacity 0;
  book = no_orders;
  booked = matching_engine-IsBook levels capacity h m;
  positive = λ side i s k. absurd (ground arith);
  shelved = reference_engine-IsShelved;
  same = fun_ext (λ side. fun_ext (λ i. sym (rw (reference_levels side) refl)));
}

-- A stream of requests that a new engine, of any width and of a pool capacity from 1 to 2 ^ 32 -
-- 1, admits (every order is refused for its quantity or its id, or is valid with an id that is
-- not in use and, if it is a limit order, a price within the ladder and room in the pool) gives
-- the same events in the same order as the reference engine, and the engine's loops end within
-- their fuel.
pub serve-reference_engine :
    (levels : ℤ) (capacity : ℕ) (rs : List Request)
    → 0 < capacity
    → capacity ≤ uint32_max
    → Admits (matching_engine levels capacity) rs
    → (e : MatchingEngine) × (serve (matching_engine levels capacity) rs
        ≡ some ((serve_reference reference_engine rs).0, e))
serve-reference_engine levels capacity rs h m a =
    let (e, p, s) =
      serve-Replayed a reference_engine (matching_engine-Agrees levels capacity h m) in
    (e, p)
