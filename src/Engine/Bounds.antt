-- ===== src/Engine/Bounds.antt =====
-- What is left of a resting order stays between one and its quantity.
use cpp_orderbook_engine.Prelude.{
  ℕ, ◌≡◌, ◌≢◌, sym, subst, ap, pos, ◌≤ℤ◌, ◌<ℤ◌, true, some, none, List, [], ◌∷◌, ◌++◌, arith, has,
  has-append, ◌==◌, Bool-cases, inl, inr, Option-cases, -ℤ_parts,
}
use cpp_orderbook_engine.Types.{OrderId, Side, OrderStatus, IncomingOrder, MatchEvent}
use cpp_orderbook_engine.Order.{Slot, Orders}
use cpp_orderbook_engine.Level.Seg.{values}
use cpp_orderbook_engine.Map.{find}
use cpp_orderbook_engine.Pool.Free.{slots}
use cpp_orderbook_engine.Engine.{MatchingEngine, opposite}
use cpp_orderbook_engine.Engine.Requests.{validate_order, process_order, cancel_order, in_book}
use cpp_orderbook_engine.Engine.Book.{Book, put, put_cases, IsBook, IsPositive}
use cpp_orderbook_engine.Engine.Unbook.{put_in}
use cpp_orderbook_engine.Engine.Trace.{Stage, IsStage, Step, fills, parts, Reach, here, next}
use cpp_orderbook_engine.Engine.Subset.{Reach-IsStage, left_le}
use cpp_orderbook_engine.Engine.Process.{
  Outcome, completed, dropped, rests, Stored, InRange, process_order-Processed,
  process_order-rejects,
}
use cpp_orderbook_engine.Engine.Cancel.{cancel_order-CancelDone, cancel_order-unknown}
use cpp_orderbook_engine.Engine.Verify.{matching_engine-IsBook, no_orders}
use cpp_orderbook_engine.Engine.Outcomes.{start-IsStage}
use cpp_orderbook_engine.Engine.Sound.{
  Reachable, created, rejected, processed, withdrawn, result_eq, removed_in, cancelled-IsPositive,
}

-- No order of the book has more left than its quantity.
abbrev IsBounded : Orders → Book → Type 0
IsBounded mem q =
    (side : Side) (i : ℕ) (a : Slot)
    → has a (q side i) ≡ true
    → (mem a).remaining ≤ℤ (mem a).quantity

-- Slots that keep their values keep the bound.
kept_bound :
    (mem mem' : Orders) (a : Slot)
    → values (mem' a) ≡ values (mem a)
    → (mem a).remaining ≤ℤ (mem a).quantity
    → (mem' a).remaining ≤ℤ (mem' a).quantity
kept_bound mem mem' a e h = rw (ap (λ r. r.remaining) e, ap (λ r. r.quantity) e) h

Step-IsBounded :
    {s : Side} {t u : Stage}
    → Step s t u
    → IsStage t
    → IsBounded t.now.engine.pool.pool t.book
    → IsBounded u.now.engine.pool.pool u.book
Step-IsBounded {s} {t} {u} (fills idx o rest c f ef eb) v b side i a h =
    let (k, ne) =
      put_in t.now.engine t.free t.book v.booked (opposite s) idx [] o rest c.oldest side i a
        (rw eb at h) in
    kept_bound t.now.engine.pool.pool u.now.engine.pool.pool a (f.kept a ne) (b side i a k)
Step-IsBounded {s} {t} {u} (parts idx o rest c f ef eb) v b side i a h =
    elim (Bool-cases (a == o)) [
      | inl e ↦
          let same : o ≡ a = ground arith in
          let l = b side i o (rw same (rw eb at h)) in
          let n = c.wants in
          subst (λ k. (u.now.engine.pool.pool k).remaining ≤ℤ (u.now.engine.pool.pool k).quantity)
            same (rw f.rest (omega (arith, -ℤ_parts, l, n)))
      | inr e ↦ rw (f.kept a (ground arith)) (b side i a (rw eb at h))
    ]

Reach-IsBounded :
    {s : Side} {t u : Stage}
    → Reach s t u
    → IsStage t
    → IsBounded t.now.engine.pool.pool t.book
    → IsBounded u.now.engine.pool.pool u.book
Reach-IsBounded here v b = b
Reach-IsBounded (next r st) v b = Step-IsBounded st (Reach-IsStage r v) (Reach-IsBounded r v b)

-- An order of a book with a new one at the end of a level is the new one or an old one.
old_in :
    (q : Book) (side : Side) (i : ℕ) (s : Slot) (side' : Side) (j : ℕ) (a : Slot)
    → a ≢ s
    → has a (put q side i (q side i ++ s ∷ []) side' j) ≡ true
    → has a (q side' j) ≡ true
old_in q side i s side' j a off h = elim (put_cases q side i (q side i ++ s ∷ []) side' j) [
  | inl (e1, e2, e3) ↦
      let k : has a (q side i) ≡ true =
        ground (arith, rw e3 at h, has-append a (q side i) (s ∷ [])) in
      subst (λ t. has a (q t j) ≡ true) (sym e1) (subst (λ t. has a (q side t) ≡ true) (sym e2) k)
  | inr (_, e3) ↦ rw e3 at h
]

Outcome-IsBounded :
    {o : IncomingOrder} {t : Stage} {status : OrderStatus} {free : List Slot} {q : Book}
    (out : Outcome o t status free q) (mem : Orders)
    → IsStage t
    → Stored o t out mem
    → t.now.order.quantity ≤ℤ o.quantity
    → IsBounded t.now.engine.pool.pool t.book
    → IsBounded mem q
Outcome-IsBounded (completed _) mem v st l b side j a h = rw st (b side j a h)
Outcome-IsBounded (dropped _ _) mem v st l b side j a h = rw st (b side j a h)
Outcome-IsBounded {o} {t} (rests s free i _ _ _ _) mem v st l b side j a h =
    let (kept, (r, stored)) = st in
    elim (Bool-cases (a == s)) [
      | inl e ↦
          let same : s ≡ a = ground arith in
          subst (λ k. (mem k).remaining ≤ℤ (mem k).quantity) same
            (rw (ap (λ w. w.remaining) stored, ap (λ w. w.quantity) stored) l)
      | inr e ↦
          let off : a ≢ s = ground arith in
          kept_bound t.now.engine.pool.pool mem a (kept a off)
            (b side j a (old_in t.book o.side i s side j a off h))
    ]

-- What the invariant says of an engine that is reached.
record IsTight (e : MatchingEngine) : Type 0 where
  free : List Slot
  book : Book
  booked : IsBook e free book
  positive : IsPositive e.pool.pool book
  bounded : IsBounded e.pool.pool book

processed-IsTight :
    (e e' : MatchingEngine) (o : IncomingOrder) (ev : MatchEvent)
    → IsTight e
    → validate_order o ≡ true
    → find o.id e.order_map ≡ none
    → InRange e o
    → process_order e o ≡ some (ev, e')
    → IsTight e'
processed-IsTight e e' o ev t h fresh range p =
    let d = process_order-Processed e t.free t.book o t.booked t.positive h fresh range in
    let v = start-IsStage e t.free t.book o t.booked t.positive h in
    let f = d.finished in
    subst IsTight (ap (λ w. w.1) (result_eq d.returned p)) (record {
      free = f.free;
      book = f.book;
      booked = f.booked;
      positive = f.positive;
      bounded =
          Outcome-IsBounded f.outcome d.result.1.pool.pool (Reach-IsStage d.reached v) f.stored
            (left_le d.reached v) (Reach-IsBounded d.reached v t.bounded);
    })

withdrawn-IsTight : (e : MatchingEngine) (id : OrderId) → IsTight e → IsTight (cancel_order e id).1
withdrawn-IsTight e id t = elim (Option-cases (find id e.order_map)) [
  | inl m ↦ subst (λ r. IsTight r.1) (sym (cancel_order-unknown e id m)) t
  | inr (o, m) ↦
      let d = cancel_order-CancelDone e t.free t.book t.booked id o m in
      record {
        free = o ∷ t.free;
        book = put t.book d.side d.level (d.older ++ d.newer);
        booked = d.booked;
        positive = cancelled-IsPositive e t.free t.book id o t.positive d;
        bounded = λ side j a h.
            let used = (d.booked.rests side j a h).used in
            let ne : a ≢ o = λ same. ground arith in
            kept_bound e.pool.pool (cancel_order e id).1.pool.pool a (d.kept a ne) (
              t.bounded side j a
                (removed_in t.book d.side d.level d.older o d.newer side j a d.placed h));
      }
]

Reachable-IsTight : {e : MatchingEngine} → Reachable e → IsTight e
Reachable-IsTight (created levels capacity h m) = record {
  free = slots capacity 0;
  book = no_orders;
  booked = matching_engine-IsBook levels capacity h m;
  positive = λ side i s k. absurd (ground arith);
  bounded = λ side i s k. absurd (ground arith);
}
Reachable-IsTight (rejected {e} {e'} o ev r h p) =
    subst IsTight (ap (λ w. w.1) (result_eq (process_order-rejects e o h) p)) (Reachable-IsTight r)
Reachable-IsTight (processed {e} {e'} o ev r h fresh range p) =
    processed-IsTight e e' o ev (Reachable-IsTight r) h fresh range p
Reachable-IsTight (withdrawn {e} id r) = withdrawn-IsTight e id (Reachable-IsTight r)

-- After every sequence of new engine (of a pool capacity from 1 to 2 ^ 32 - 1), rejected orders,
-- cancellations and valid orders, each with an id that is not in use, and a price within the
-- ladder if it is a limit order, an order that the map finds has the id that it is found by, is
-- resting or partially filled, and has at least 1 and at most its quantity left.
pub remaining-Reachable :
    (e : MatchingEngine) (id : OrderId) (s : Slot)
    → Reachable e
    → find id e.order_map ≡ some s
    → ((e.pool.pool s).id ≡ id)
      × (in_book (e.pool.pool s).status ≡ true)
      × (pos 0 <ℤ (e.pool.pool s).remaining)
      × ((e.pool.pool s).remaining ≤ℤ (e.pool.pool s).quantity)
remaining-Reachable e id s r f =
    let t = Reachable-IsTight r in
    let (side, i, h, named) = t.booked.found id s f in
    (named, (t.booked.rests side i s h).live, t.positive side i s h, t.bounded side i s h)
