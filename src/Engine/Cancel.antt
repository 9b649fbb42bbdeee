-- ===== src/Engine/Cancel.antt =====
-- Cancelling an order.
use cpp_orderbook_engine.Prelude.{
  ℕ, ◌≡◌, ◌≢◌, refl, sym, subst, ◌∙◌, ap, ℤ, pos, negsuc, true, some, none, List, [], ◌∷◌, ◌++◌,
  arith, has, Bool-cases, inl, inr, ◌==◌,
}
use cpp_orderbook_engine.Types.{OrderId, Side, buy, sell, MatchEvent, no_event}
use cpp_orderbook_engine.Order.{Slot, Orders}
use cpp_orderbook_engine.Level.Seg.{values}
use cpp_orderbook_engine.Level.Remove.{remove-SameValues}
use cpp_orderbook_engine.Ladder.{price_to_index, set_level, mark_empty}
use cpp_orderbook_engine.Pool.{deallocate}
use cpp_orderbook_engine.Level
use cpp_orderbook_engine.Level.{PriceLevelList}
use cpp_orderbook_engine.Ladder.Index.{unit_index}
use cpp_orderbook_engine.Map
use cpp_orderbook_engine.Map.{find, find-erase}
use cpp_orderbook_engine.Engine.{MatchingEngine, ladder, set_ladder, set_orders}
use cpp_orderbook_engine.Engine.Match.{add_report}
use cpp_orderbook_engine.Engine.Requests.{cancel_report, cancel_order, remove_order_from_book}
use cpp_orderbook_engine.Engine.Book.{Book, put, rebuilt, IsBook}
use cpp_orderbook_engine.Engine.Unbook.{unbook-IsBook, unbook_values}
use cpp_orderbook_engine.Ladder.Side.{nonempty, in_range}

-- A list around one of its members.
has_split :
    (o : Slot) (xs : List Slot)
    → has o xs ≡ true
    → (ys : List Slot) × (zs : List Slot) × (xs ≡ ys ++ o ∷ zs)
has_split o [] h = absurd (ground arith)
has_split o (x ∷ xs) h = elim (Bool-cases (o == x)) [
  | inl e ↦ let same : x ≡ o = ground arith in ([], xs, rw same refl)
  | inr e ↦ let (ys, zs, p) = has_split o xs (ground arith) in (x ∷ ys, zs, rw p refl)
]

-- What a cancellation does: an order of the book, and only it, leaves its level, the map and the
-- pool, and is reported with what is left of it.
pub record CancelDone (e : MatchingEngine) (free : List Slot) (q : Book) (id : OrderId) (o : Slot)
    (r : MatchEvent × MatchingEngine) : Type 0 where
  pub side : Side
  pub level : ℕ
  pub older : List Slot
  pub newer : List Slot
  pub placed : q side level ≡ older ++ o ∷ newer
  pub booked : IsBook r.1 (o ∷ free) (put q side level (older ++ newer))
  pub told : r.0 ≡ add_report no_event (cancel_report (e.pool.pool o))
  pub gone : find id r.1.order_map ≡ none
  pub kept : (a : Slot) → a ≢ o → values (r.1.pool.pool a) ≡ values (e.pool.pool a)

nonempty-has : (o : Slot) (xs : List Slot) → has o xs ≡ true → nonempty xs ≡ true
nonempty-has o [] h = absurd (ground arith)
nonempty-has o (x ∷ xs) h = refl

module _ (e : MatchingEngine) (free : List Slot) (q : Book) (v : IsBook e free q) (id : OrderId)
    (o : Slot) (mapped : find id e.order_map ≡ some o) where
  abbrev taken : Side → ℕ → Orders × PriceLevelList
  taken side i = Level.remove e.pool.pool ((ladder side e).levels i) o

  abbrev engine_after : Side → ℕ → MatchingEngine
  engine_after side i =
      rebuilt side e (mark_empty (set_level (ladder side e) i (taken side i).1) i)
        (deallocate (record e.pool { pool = (taken side i).0 }) o)
        (Map.erase ((taken side i).0 o).id e.order_map)

  -- `remove_order_from_book` by the side of the order and the index of its price.
  abbrev removal : Side → ℤ → MatchingEngine
  removal side (negsuc _) = e
  removal side (pos i) =
      record (set_orders
        (set_ladder side e (mark_empty (set_level (ladder side e) i (taken side i).1) i))
        (taken side i).0) { order_map = Map.erase ((taken side i).0 o).id e.order_map }

  abbrev index_on : Side → ℤ
  index_on side = price_to_index (ladder side e) (e.pool.pool o).price

  removed_cases :
      (side : Side) (k : ℤ)
      → side ≡ (e.pool.pool o).side
      → k ≡ index_on (e.pool.pool o).side
      → remove_order_from_book e o ≡ removal side k
  unfolding remove_order_from_book
  removed_cases side (negsuc n) s p = rw (remove_order_from_book, ← p) refl
  removed_cases side (pos i) s p = rw (remove_order_from_book, ← p, s) refl

  removed :
      (side : Side) (i : ℕ)
      → (e.pool.pool o).side ≡ side
      → index_on side ≡ pos i
      → remove_order_from_book e o ≡ removal side (pos i)
  removed side i s p = removed_cases side (pos i) (sym s) (sym (ap index_on s ∙ p))

  cancel_result :
      (side : Side) (i : ℕ)
      → (e.pool.pool o).side ≡ side
      → index_on side ≡ pos i
      → cancel_order e id
        ≡ (add_report no_event (cancel_report ((taken side i).0 o)), engine_after side i)
  unfolding cancel_order
  cancel_result buy i s p = rw (cancel_order, mapped, removed buy i s p) refl
  cancel_result sell i s p = rw (cancel_order, mapped, removed sell i s p) refl

  same_at : (side : Side) (i : ℕ) (a : Slot) → values ((taken side i).0 a) ≡ values (e.pool.pool a)
  same_at side i a = remove-SameValues e.pool.pool ((ladder side e).levels i) o a

  cancelled_at :
      (side : Side) (i : ℕ)
      → has o (q side i) ≡ true
      → (e.pool.pool o).id ≡ id
      → CancelDone e free q id o (cancel_order e id)
  cancelled_at side i on named =
      let (ys, zs, at) = has_split o (q side i) on in
      let r = v.rests side i o on in
      let l = v.sides side in
      let price =
        unit_index (ladder side e) i l.unit (in_range i l (nonempty-has o (q side i) on)) in
      let same = same_at side i o in
      let own = ap (λ r. r.pool_index) same ∙ r.own in
      let id' = ap (λ r. r.id) same in
      subst (CancelDone e free q id o)
        (sym
          (cancel_result side i r.on_side (ap (price_to_index (ladder side e)) r.at_price ∙ price)))
        (record {
          side = side;
          level = i;
          older = ys;
          newer = zs;
          placed = at;
          booked =
              unbook-IsBook e free q v side i ys o zs at (taken side i).0 (λ a ne. refl) own id';
          told = ap (λ r. add_report no_event (cancel_report r)) same;
          gone = rw (id', named) (ground (arith, find-erase id id e.order_map));
          kept = unbook_values e free q v side i ys o zs at (taken side i).0 (λ a ne. refl) own id';
        })

  -- In a book with the invariant `cancel_order` of an id that the map finds takes its order out
  -- of its level, wherever it stands there, and out of the map, gives its slot back to the pool
  -- as the next one to hand out, keeps the invariant and, but for the links, every other order,
  -- and reports what was filled and what was left.
  pub cancel_order-CancelDone : CancelDone e free q id o (cancel_order e id)
  cancel_order-CancelDone =
      let (side, i, on, named) = v.found id o mapped in cancelled_at side i on named

-- Cancelling an id that the map does not find changes nothing and reports nothing.
pub cancel_order-unknown :
    (e : MatchingEngine) (id : OrderId)
    → find id e.order_map ≡ none
    → cancel_order e id ≡ (no_event, e)
unfolding cancel_order
cancel_order-unknown e id h = rw (cancel_order, h) refl
