-- ===== src/Engine/Sound.antt =====
-- Sound states of the engine, and that every operation keeps them: bids stay below asks.
use cpp_orderbook_engine.Prelude.{
  ℕ, ◌<◌, ◌≤◌, ◌≡◌, ◌≢◌, refl, sym, subst, ◌∙◌, ap, ℤ, pos, ◌<ℤ◌, true, false, Option, some, none,
  List, [], ◌∷◌, ◌++◌, arith, has, has-append, ◌==◌, Bool-cases, inl, inr, Option-cases,
}
use cpp_orderbook_engine.Types.{OrderId, Side, buy, sell, OrderStatus, IncomingOrder, MatchEvent}
use cpp_orderbook_engine.Order.{Slot}
use cpp_orderbook_engine.Map.{find}
use cpp_orderbook_engine.Ladder.Side.{nonempty}
use cpp_orderbook_engine.Engine.{MatchingEngine, opposite, matching_engine}
use cpp_orderbook_engine.Engine.Match.{crosses}
use cpp_orderbook_engine.Engine.Requests.{
  validate_order, process_order, cancel_order, verify_invariants,
}
use cpp_orderbook_engine.Engine.Book.{Book, put, put_cases, IsBook, IsPositive}
use cpp_orderbook_engine.Engine.Trace.{Stage}
use cpp_orderbook_engine.Engine.Total.{Settled}
use cpp_orderbook_engine.Engine.Trades.{SameOrder, Reach-Fair}
use cpp_orderbook_engine.Engine.Subset.{Subset, Reach-Subset}
use cpp_orderbook_engine.Engine.Verify.{
  Uncrossed, verify_invariants-true, matching_engine-IsBook, no_orders,
}
use cpp_orderbook_engine.Engine.Process.{
  Outcome, completed, dropped, rests, InRange, process_order-Processed, process_order-rejects,
}
use cpp_orderbook_engine.Engine.Cancel.{CancelDone, cancel_order-CancelDone, cancel_order-unknown}
use cpp_orderbook_engine.Engine.Outcomes.{start, start-IsStage}
use cpp_orderbook_engine.Pool.{uint32_max}
use cpp_orderbook_engine.Pool.Free.{slots}

nonempty_mono :
    (xs ys : List Slot)
    → ((a : Slot) → has a xs ≡ true → has a ys ≡ true)
    → nonempty xs ≡ true
    → nonempty ys ≡ true
nonempty_mono [] ys sub h = absurd (cc)
nonempty_mono (x ∷ xs) [] sub h = absurd (ground (arith, sub x))
nonempty_mono (x ∷ xs) (y ∷ ys) sub h = refl

-- A book with a part of the orders is as little crossed.
Subset-Uncrossed : (t u : Stage) → Subset t u → Uncrossed t.book → Uncrossed u.book
Subset-Uncrossed t u sub c i j hb ha =
    c i j (nonempty_mono (u.book buy i) (t.book buy i) (λ a h. (sub buy i a h).0) hb)
      (nonempty_mono (u.book sell j) (t.book sell j) (λ a h. (sub sell j a h).0) ha)

-- An order that crosses nothing may rest.
put-Uncrossed :
    (side : Side) (o : IncomingOrder) (q : Book) (i : ℕ) (xs : List Slot)
    → o.price ≡ pos i
    → ((j : ℕ) → nonempty (q (opposite side) j) ≡ true → crosses side o (pos j) ≡ false)
    → Uncrossed q
    → Uncrossed (put q side i xs)
unfolding crosses
put-Uncrossed buy o q i xs p apart c i' j hb ha = elim (Bool-cases (i' == i)) [
  | inl e ↦ let k = rw p at (apart j ha) in ground arith
  | inr e ↦ c i' j (rw e at hb) ha
]
put-Uncrossed sell o q i xs p apart c i' j hb ha = elim (Bool-cases (j == i)) [
  | inl e ↦ let k = rw p at (apart i' hb) in ground arith
  | inr e ↦ c i' j hb (rw e at ha)
]

Settled-apart :
    (s : Side) (t : Stage)
    → Settled s t
    → pos 0 <ℤ t.now.order.quantity
    → (j : ℕ) → nonempty (t.book (opposite s) j) ≡ true
    → crosses s t.now.order (pos j) ≡ false
Settled-apart s t (inl e) l j h = let l' = rw e at l in absurd (omega arith)
Settled-apart s t (inr apart) l j h = apart j h

Outcome-Uncrossed :
    {o : IncomingOrder} {t : Stage} {status : OrderStatus} {free : List Slot} {q : Book}
    → Outcome o t status free q
    → SameOrder o t.now.order
    → Settled o.side t
    → Uncrossed t.book
    → Uncrossed q
Outcome-Uncrossed (completed e) same s c = c
Outcome-Uncrossed (dropped l _) same s c = c
Outcome-Uncrossed {o} {t} (rests a free i l _ price _) same s c =
    put-Uncrossed o.side t.now.order t.book i (t.book o.side i ++ a ∷ [])
      (ap (λ w. w.price) same ∙ price) (Settled-apart o.side t s l) c

-- The states of the engine that the theorems are about: a book with the invariant, whose orders have
-- a positive quantity left and whose bids are below its asks.
pub record IsSound (e : MatchingEngine) : Type 0 where
  pub free : List Slot
  pub book : Book
  pub booked : IsBook e free book
  pub positive : IsPositive e.pool.pool book
  pub uncrossed : Uncrossed book

-- From a sound state (a book with the invariant, positive quantities, every bid below every ask)
-- `process_order` of a valid order with an id that is not in use, and a price within the ladder
-- if it is a limit order, returns an engine in a sound state.
pub process_order-IsSound :
    (e : MatchingEngine) (o : IncomingOrder)
    → IsSound e
    → validate_order o ≡ true
    → find o.id e.order_map ≡ none
    → InRange e o
    → (ev : MatchEvent) × (e' : MatchingEngine) × (process_order e o ≡ some (ev, e')) × IsSound e'
process_order-IsSound e o s h fresh r =
    let d = process_order-Processed e s.free s.book o s.booked s.positive h fresh r in
    let f = d.finished in
    let valid = start-IsStage e s.free s.book o s.booked s.positive h in
    let fair = Reach-Fair o.side o d.reached (record { valid = valid; same = refl; fair = tt }) in
    (
      d.result.0,
      d.result.1,
      d.returned,
      record {
        free = f.free;
        book = f.book;
        booked = f.booked;
        positive = f.positive;
        uncrossed = Outcome-Uncrossed f.outcome fair.same d.settled (
            Subset-Uncrossed (start e s.free s.book o s.booked s.positive h) d.stage
              (Reach-Subset d.reached valid) s.uncrossed);
      },
    )

-- Taking an order out of a book.
pub removed_in :
    (q : Book) (side : Side) (i : ℕ) (ys : List Slot) (o : Slot) (zs : List Slot) (side' : Side)
    (j : ℕ) (a : Slot)
    → q side i ≡ ys ++ o ∷ zs
    → has a (put q side i (ys ++ zs) side' j) ≡ true
    → has a (q side' j) ≡ true
removed_in q side i ys o zs side' j a at h = elim (put_cases q side i (ys ++ zs) side' j) [
  | inl (e1, e2, e3) ↦
      let k : has a (q side i) ≡ true =
        rw (at, has-append a ys (o ∷ zs)) (ground (arith, rw e3 at h, has-append a ys zs)) in
      subst (λ t. has a (q t j) ≡ true) (sym e1) (subst (λ t. has a (q side t) ≡ true) (sym e2) k)
  | inr (_, e3) ↦ rw e3 at h
]

pub cancelled-IsPositive :
    (e : MatchingEngine) (free : List Slot) (q : Book) (id : OrderId) (o : Slot)
    → IsPositive e.pool.pool q
    → (d : CancelDone e free q id o (cancel_order e id))
    → IsPositive (cancel_order e id).1.pool.pool (put q d.side d.level (d.older ++ d.newer))
cancelled-IsPositive e free q id o p d side j a h =
    let used = (d.booked.rests side j a h).used in
    let ne : a ≢ o = λ same. ground arith in
    rw (ap (λ r. r.remaining) (d.kept a ne))
      (p side j a (removed_in q d.side d.level d.older o d.newer side j a d.placed h))

cancelled-IsSound :
    (e : MatchingEngine) (id : OrderId) (o : Slot)
    → IsSound e
    → find id e.order_map ≡ some o
    → IsSound (cancel_order e id).1
cancelled-IsSound e id o s m =
    let d = cancel_order-CancelDone e s.free s.book s.booked id o m in
    let within = λ (side : Side) (j : ℕ) (a : Slot).
      removed_in s.book d.side d.level d.older o d.newer side j a d.placed in
    record {
      free = o ∷ s.free;
      book = put s.book d.side d.level (d.older ++ d.newer);
      booked = d.booked;
      positive = cancelled-IsPositive e s.free s.book id o s.positive d;
      uncrossed = λ i j hb ha.
          s.uncrossed i j (nonempty_mono _ (s.book buy i) (within buy i) hb)
            (nonempty_mono _ (s.book sell j) (within sell j) ha);
    }

-- `cancel_order` of any id, found or not, leads from a sound state to a sound state.
pub cancel_order-IsSound :
    (e : MatchingEngine) (id : OrderId) → IsSound e → IsSound (cancel_order e id).1
cancel_order-IsSound e id s = elim (Option-cases (find id e.order_map)) [
  | inl m ↦ subst (λ r. IsSound r.1) (sym (cancel_order-unknown e id m)) s
  | inr (o, m) ↦ cancelled-IsSound e id o s m
]

-- A new engine is in a sound state.
pub matching_engine-IsSound :
    (levels : ℤ) (capacity : ℕ)
    → 0 < capacity
    → capacity ≤ uint32_max
    → IsSound (matching_engine levels capacity)
matching_engine-IsSound levels capacity h m = record {
  free = slots capacity 0;
  book = no_orders;
  booked = matching_engine-IsBook levels capacity h m;
  positive = λ side i s k. absurd (ground arith);
  uncrossed = λ i j h k. absurd (cc);
}

-- The engines that a sequence of calls leads to. An order that is processed is rejected, or has an id
-- that is not in use and, if it is a limit order, a price in range.
pub data Reachable : MatchingEngine → Type 0 where
  created :
      (levels : ℤ) (capacity : ℕ)
      → 0 < capacity
      → capacity ≤ uint32_max
      → Reachable (matching_engine levels capacity)
  rejected :
      {e e' : MatchingEngine} (o : IncomingOrder) (ev : MatchEvent)
      → Reachable e
      → validate_order o ≡ false
      → process_order e o ≡ some (ev, e')
      → Reachable e'
  processed :
      {e e' : MatchingEngine} (o : IncomingOrder) (ev : MatchEvent)
      → Reachable e
      → validate_order o ≡ true
      → find o.id e.order_map ≡ none
      → InRange e o
      → process_order e o ≡ some (ev, e')
      → Reachable e'
  withdrawn : {e : MatchingEngine} (id : OrderId) → Reachable e → Reachable (cancel_order e id).1

pub result_eq :
    {x : Option (MatchEvent × MatchingEngine)} {r r' : MatchEvent × MatchingEngine}
    → x ≡ some r
    → x ≡ some r'
    → r ≡ r'
result_eq {r} {r'} p q = ap (λ w. elim w [ none ↦ r | some v ↦ v ]) (sym p ∙ q)

pub Reachable-IsSound : {e : MatchingEngine} → Reachable e → IsSound e
Reachable-IsSound (created levels capacity h m) = matching_engine-IsSound levels capacity h m
Reachable-IsSound (rejected {e} {e'} o ev r h p) =
    subst IsSound (ap (λ w. w.1) (result_eq (process_order-rejects e o h) p)) (Reachable-IsSound r)
Reachable-IsSound (processed {e} {e'} o ev r h fresh range p) =
    let (ev', e'', p', s) = process_order-IsSound e o (Reachable-IsSound r) h fresh range in
    subst IsSound (ap (λ w. w.1) (result_eq p' p)) s
Reachable-IsSound (withdrawn {e} id r) = cancel_order-IsSound e id (Reachable-IsSound r)

-- After every sequence of new engine (of a pool capacity from 1 to 2 ^ 32 - 1), rejected orders,
-- cancellations and valid orders, each with an id that is not in use, and a price within the
-- ladder if it is a limit order, the engine's own check `verify_invariants` succeeds.
pub verify_invariants-Reachable : (e : MatchingEngine) → Reachable e → verify_invariants e ≡ true
verify_invariants-Reachable e r =
    let s = Reachable-IsSound r in verify_invariants-true e s.free s.book s.booked s.uncrossed
