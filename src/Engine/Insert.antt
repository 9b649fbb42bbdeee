-- ===== src/Engine/Insert.antt =====
-- What `process_order` does to rest an order: a slot of the pool, `insert_order`, the map.
use cpp_orderbook_engine.Prelude.{
  ℕ, ◌<◌, ◌≡◌, ◌≢◌, refl, sym, subst, ◌∙◌, ap, ℤ, pos, negsuc, ◌<ℤ◌, true, some, none, List, [],
  ◌∷◌, ◌++◌, arith, has, update, inl, inr,
}
use cpp_orderbook_engine.Types.{
  OrderId, Side, buy, sell, OrderStatus, cancelled, IncomingOrder, Quantity,
}
use cpp_orderbook_engine.Order.{Slot, Order, Orders}
use cpp_orderbook_engine.Level
use cpp_orderbook_engine.Level.{PriceLevelList}
use cpp_orderbook_engine.Level.Seg.{values}
use cpp_orderbook_engine.Pool.{OrderPool, allocate}
use cpp_orderbook_engine.Pool.Free.{IsPool, Allocates, allocate-Allocates}
use cpp_orderbook_engine.Ladder.{price_to_index, set_level, mark_occupied}
use cpp_orderbook_engine.Ladder.Index.{unit_index}
use cpp_orderbook_engine.Map.{find, assign}
use cpp_orderbook_engine.Engine.{MatchingEngine, ladder, set_ladder, set_orders}
use cpp_orderbook_engine.Engine.Requests.{insert_order, rest_order, resting_order, in_book}
use cpp_orderbook_engine.Engine.Book.{Book, put, rebuilt, IsBook, IsPositive}
use cpp_orderbook_engine.Engine.Unbook.{IsPool-frame}
use cpp_orderbook_engine.Engine.Rest.{rest-IsBook, rest_values, queued}

-- `insert_order` by the side of the order and the index of its price.
module _ (e : MatchingEngine) (o : Slot) where
  abbrev pushed : Side → ℕ → Orders × PriceLevelList
  pushed side i = Level.push_back e.pool.pool ((ladder side e).levels i) o

  abbrev insertion : Side → ℤ → MatchingEngine
  insertion side (negsuc _) =
      set_orders e (update e.pool.pool o (record (e.pool.pool o) { status = cancelled }))
  insertion side (pos i) =
      record (set_orders
        (set_ladder side e (mark_occupied (set_level (ladder side e) i (pushed side i).1) i))
        (pushed side i).0) { order_map = assign ((pushed side i).0 o).id o e.order_map }

  abbrev index_on : Side → ℤ
  index_on side = price_to_index (ladder side e) (e.pool.pool o).price

  inserted_cases :
      (side : Side) (k : ℤ)
      → side ≡ (e.pool.pool o).side
      → k ≡ index_on (e.pool.pool o).side
      → insert_order e o ≡ insertion side k
  unfolding insert_order
  inserted_cases side (negsuc n) s p = rw (insert_order, ← p) refl
  inserted_cases side (pos i) s p = rw (insert_order, ← p, s) refl

  inserted :
      (side : Side) (i : ℕ)
      → (e.pool.pool o).side ≡ side
      → index_on side ≡ pos i
      → insert_order e o ≡ insertion side (pos i)
  inserted side i s p = inserted_cases side (pos i) (sym s) (sym (ap index_on s ∙ p))

module _ (e : MatchingEngine) (o : IncomingOrder) (left : Quantity) (status : OrderStatus) where
  -- The pool after the slot has been handed out and written.
  abbrev written : Slot → OrderPool
  written s =
      let p = (allocate e.pool).1 in
      record p { pool = update p.pool s (resting_order (p.pool s) o left status) }

  abbrev linked : Side → ℕ → Slot → Orders × PriceLevelList
  linked side i s = Level.push_back (written s).pool ((ladder side e).levels i) s

  abbrev engine_after : Side → ℕ → Slot → OrderId → MatchingEngine
  engine_after side i s id =
      rebuilt side e (mark_occupied (set_level (ladder side e) i (linked side i s).1) i)
        (record (written s) { pool = (linked side i s).0 }) (assign id s (assign id s e.order_map))

  -- A full pool cancels the rest of the order and changes nothing.
  pub rest_order-full : IsPool e.pool [] → rest_order e o left status ≡ (cancelled, e)
  unfolding rest_order
  rest_order-full v =
      let full = allocate-Allocates [] v in
      rw (rest_order, ap (λ r. r.0) full, ap (λ r. r.1) full) refl

  abbrev before : Slot → MatchingEngine
  before s = record e { pool = written s }

  written_at :
      (s : Slot) → (written s).pool s ≡ resting_order ((allocate e.pool).1.pool s) o left status
  written_at s = ground arith

  rested :
      (side : Side) (i : ℕ) (s : Slot)
      → (allocate e.pool).0 ≡ some s
      → o.side ≡ side
      → price_to_index (ladder side e) o.price ≡ pos i
      → rest_order e o left status ≡ (status, engine_after side i s ((linked side i s).0 s).id)
  unfolding rest_order
  rested buy i s g a p =
      let w = written_at s in
      rw
        (
          rest_order,
          g,
          inserted (before s) s buy i (ap (λ r. r.side) w ∙ a)
              (ap (λ r. price_to_index e.bids r.price) w ∙ p),
        )
        refl
  rested sell i s g a p =
      let w = written_at s in
      rw
        (
          rest_order,
          g,
          inserted (before s) s sell i (ap (λ r. r.side) w ∙ a)
              (ap (λ r. price_to_index e.asks r.price) w ∙ p),
        )
        refl

-- What resting an order at level `i` does: the first free slot `s` becomes the newest order there.
pub record RestDone (mem : Orders) (free : List Slot) (s : Slot) (q : Book) (o : IncomingOrder)
    (left : Quantity) (status : OrderStatus) (i : ℕ) (r : OrderStatus × MatchingEngine)
    : Type 0 where
  pub engine : MatchingEngine
  pub result : r ≡ (status, engine)
  pub booked : IsBook engine free (put q o.side i (q o.side i ++ s ∷ []))
  pub positive : IsPositive engine.pool.pool (put q o.side i (q o.side i ++ s ∷ []))
  pub kept : (a : Slot) → a ≢ s → values (engine.pool.pool a) ≡ values (mem a)
  pub stored : (r : Order) × (values (engine.pool.pool s) ≡ values (resting_order r o left status))

module _ (e : MatchingEngine) (free : List Slot) (s : Slot) (q : Book) (v : IsBook e (s ∷ free) q)
    (pos_q : IsPositive e.pool.pool q) (o : IncomingOrder) (left : Quantity) (status : OrderStatus)
    (i : ℕ) (some_left : pos 0 <ℤ left) (live : in_book status ≡ true) (price : o.price ≡ pos i)
    (range : i < (ladder o.side e).max_levels) (fresh : find o.id e.order_map ≡ none) where
  handed : Allocates e.pool (s ∷ free) (allocate e.pool)
  handed = allocate-Allocates (s ∷ free) v.pool

  at_s :
      (written e o left status s).pool s ≡ resting_order ((allocate e.pool).1.pool s) o left status
  at_s = written_at e o left status s

  away : (a : Slot) → a ≢ s → (written e o left status s).pool a ≡ e.pool.pool a
  away a ne = ground (arith, handed.4 a)

  own : ((written e o left status s).pool s).pool_index ≡ s
  own = ap (λ r. r.pool_index) at_s ∙ ap (λ r. r.pool_index) handed.3

  written-IsPool : IsPool (written e o left status s) free
  written-IsPool =
      IsPool-frame (written e o left status s).pool handed.2
        (λ a h. let ne : a ≢ s = λ same. ground (arith, v.pool.distinct.0) in ground arith)

  same_values :
      (a : Slot)
      → values ((linked e o left status o.side i s).0 a)
        ≡ values ((written e o left status s).pool a)
  same_values =
      rest_values e free s q v (written e o left status s) written-IsPool handed.1 away o.side i
        range o.id fresh (ap (λ r. r.side) at_s) (ap (λ r. r.price) at_s ∙ price)
        (ap (λ r. in_book r.status) at_s ∙ live) own (ap (λ r. r.id) at_s)

  named : ((linked e o left status o.side i s).0 s).id ≡ o.id
  named = ap (λ r. r.id) (same_values s) ∙ ap (λ r. r.id) at_s

  remaining_after :
      (side : Side) (j : ℕ) (a : Slot)
      → has a (put q o.side i (q o.side i ++ s ∷ []) side j) ≡ true
      → pos 0 <ℤ ((linked e o left status o.side i s).0 a).remaining
  remaining_after side j a h =
      elim (queued e free s q v (written e o left status s) written-IsPool handed.1 away o.side i
        range o.id fresh (ap (λ r. r.side) at_s) (ap (λ r. r.price) at_s ∙ price)
        (ap (λ r. in_book r.status) at_s ∙ live) own (ap (λ r. r.id) at_s) side j a h) [
          | inl (_, _, same) ↦
              subst (λ t. pos 0 <ℤ ((linked e o left status o.side i s).0 t).remaining) (sym same)
                (rw (ap (λ r. r.remaining) (same_values s), ap (λ r. r.remaining) at_s) some_left)
          | inr (k, ne) ↦
              rw (ap (λ r. r.remaining) (same_values a), ap (λ r. r.remaining) (away a ne))
                (pos_q side j a k)
        ]

  pub rest_order-RestDone :
      RestDone e.pool.pool free s q o left status i (rest_order e o left status)
  rest_order-RestDone = record {
    engine = engine_after e o left status o.side i s ((linked e o left status o.side i s).0 s).id;
    result = rested e o left status o.side i s handed.0 refl (
        ap (price_to_index (ladder o.side e)) price
        ∙ unit_index (ladder o.side e) i (v.sides o.side).unit range);
    booked =
        subst
          (λ id.
            IsBook (engine_after e o left status o.side i s id) free
              (put q o.side i (q o.side i ++ s ∷ [])))
          (sym named)
          (rest-IsBook e free s q v (written e o left status s) written-IsPool handed.1 away o.side
            i range o.id fresh (ap (λ r. r.side) at_s) (ap (λ r. r.price) at_s ∙ price)
            (ap (λ r. in_book r.status) at_s ∙ live) own (ap (λ r. r.id) at_s));
    positive = remaining_after;
    kept = λ a ne. same_values a ∙ ap values (away a ne);
    stored = ((allocate e.pool).1.pool s, same_values s ∙ ap values at_s);
  }
