-- ===== src/Engine/Verify.antt =====
-- The engine's own check `verify_invariants`, and the empty engine.
use cpp_orderbook_engine.Prelude.{
  ℕ, zero, suc, ◌≤◌, ◌<◌, ◌≡◌, refl, ap, ℤ, pos, ltb_ℤ, leb_ℤ, Bool, true, false, not, ◌&&◌, some,
  none, List, [], ◌∷◌, arith, has, ◌⊎◌, inl, inr, Distinct,
}
use cpp_orderbook_engine.Types.{OrderId, Side, buy, sell, Price}
use cpp_orderbook_engine.Order.{Slot, Orders}
use cpp_orderbook_engine.Bitset.{bitset}
use cpp_orderbook_engine.Bitset.Laws.{bitset-IsValid, test-bitset}
use cpp_orderbook_engine.Level
use cpp_orderbook_engine.Level.Seg.{IsLevel, nil, empty_lem, front_lem}
use cpp_orderbook_engine.Pool.{uint32_max, order_pool}
use cpp_orderbook_engine.Pool.Free.{slots, order_pool-IsPool}
use cpp_orderbook_engine.Ladder
use cpp_orderbook_engine.Ladder.{
  PriceLadder, price_ladder, set_base_price, price_at, best_bid_price, best_ask_price, verify_from,
}
use cpp_orderbook_engine.Ladder.Index.{index_to_price-unit}
use cpp_orderbook_engine.Ladder.Side.{Queues, IsLadder, nonempty}
use cpp_orderbook_engine.Map.{find, keys}
use cpp_orderbook_engine.Engine.{
  MatchingEngine, matching_engine, levels_of, ladder, best_bid, best_ask, opposite,
}
use cpp_orderbook_engine.Engine.Match.{best_index}
use cpp_orderbook_engine.Engine.Requests.{verify_map, verify_invariants, in_book}
use cpp_orderbook_engine.Engine.Book.{Book, IsBook}
use cpp_orderbook_engine.Engine.Trace.{IsBest}
use cpp_orderbook_engine.Engine.Total.{best_index-Picks}

-- Every bid is below every ask.
abbrev pub Uncrossed : Book → Type 0
Uncrossed q = (i j : ℕ) → nonempty (q buy i) ≡ true → nonempty (q sell j) ≡ true → i < j

-- The check of a ladder.
level_empty :
    {mem : Orders} {l : Level.PriceLevelList} (xs : List Slot)
    → IsLevel mem l xs
    → not (Level.empty l) ≡ nonempty xs
level_empty [] v = ap not ((empty_lem v).1)
level_empty (x ∷ xs) v = ap not ((front_lem v).1)

same_refl : (b : Bool) → Ladder.same b b ≡ true
same_refl true = refl
same_refl false = refl

verify_from_lem :
    {mem : Orders} {l : PriceLadder} {q : Queues} (rounds i : ℕ)
    → IsLadder mem l q
    → verify_from rounds i l ≡ true
unfolding verify_from
verify_from_lem zero i v = refl
verify_from_lem {q} (suc rounds) i v =
    rw
      (
        v.occupied i,
        level_empty (q i) (v.level i),
        same_refl (nonempty (q i)),
        verify_from_lem rounds (suc i) v,
      )
      refl

pub verify_ladder :
    {mem : Orders} {l : PriceLadder} {q : Queues}
    → IsLadder mem l q
    → Ladder.verify_invariants l ≡ true
unfolding Ladder.verify_invariants
verify_ladder {l} v = verify_from_lem l.max_levels 0 v

-- The check of the map.
absent :
    (k : OrderId) (s : Slot) (m : List (OrderId × Slot)) → find k m ≡ some s → has k (keys m) ≡ true
unfolding find
absent k s [] h = absurd (ground arith)
absent k s ((j, w) ∷ m) h = ground (arith, absent k s m)

verify_map_lem :
    (mem : Orders) (m : List (OrderId × Slot))
    → Distinct (keys m)
    → ((k : OrderId) (s : Slot)
        → find k m ≡ some s
        → ((mem s).id ≡ k) × (in_book (mem s).status ≡ true))
    → verify_map mem m ≡ true
unfolding verify_map find
verify_map_lem mem [] d good = refl
verify_map_lem mem ((k, s) ∷ m) d good =
    let (named, live) = good k s (ground arith) in
    let rest = verify_map_lem mem m d.1 (λ j w h. good j w (ground (arith, absent j w m h, d.0))) in
    ground (arith, named, live, rest)

-- The price of the best level of a side, or 0 if the side is empty.
abbrev pub IsBestPrice : Side → Book → Price → Type 0
IsBestPrice s q p =
    ((p ≡ pos 0) × ((j : ℕ) → q (opposite s) j ≡ []))
    ⊎ ((i : ℕ) × (p ≡ pos i) × (nonempty (q (opposite s) i) ≡ true) × IsBest s q i)

best_price :
    (s : Side) {e : MatchingEngine} {free : List Slot} {q : Book}
    → IsBook e free q
    → IsBestPrice s q (price_at (ladder (opposite s) e) (best_index s e))
unfolding price_at
best_price s {e} v = elim (best_index-Picks s v) [
  | inl (r, clear) ↦ inl (rw r refl, clear)
  | inr (i, r, l, full, best) ↦
      let unit = (v.sides (opposite s)).unit in
      let p = index_to_price-unit (ladder (opposite s) e) i unit in
      inr (i, rw (r, p) (ground arith), full, best)
]

-- In a book with the invariant `best_ask` is the lowest price at which a sell order rests and
-- `best_bid` the highest one at which a buy order rests, and 0 if there is none.
pub best_prices :
    (e : MatchingEngine) (free : List Slot) (q : Book)
    → IsBook e free q
    → IsBestPrice buy q (best_ask e) × IsBestPrice sell q (best_bid e)
unfolding best_ask best_bid best_ask_price best_bid_price best_index
best_prices e free q v = (best_price buy v, best_price sell v)

not_crossed :
    (e : MatchingEngine) (free : List Slot) (q : Book)
    → IsBook e free q
    → Uncrossed q
    → (ltb_ℤ (pos 0) (best_bid e) && ltb_ℤ (pos 0) (best_ask e) && leb_ℤ (best_ask e) (best_bid e))
      ≡ false
not_crossed e free q v u =
    let (ask, bid) = best_prices e free q v in
    elim ask [
      | inl (a, _) ↦ rw a (ground arith)
      | inr (j, a, fa, _) ↦ elim bid [
        | inl (b, _) ↦ rw b (ground arith)
        | inr (i, b, fb, _) ↦ let apart = u i j fb fa in rw (a, b) (ground arith)
      ]
    ]

-- In an engine with the invariant whose bids are below its asks, the engine's own check succeeds.
pub verify_invariants-true :
    (e : MatchingEngine) (free : List Slot) (q : Book)
    → IsBook e free q
    → Uncrossed q
    → verify_invariants e ≡ true
unfolding verify_invariants
verify_invariants-true e free q v u =
    let m =
      verify_map_lem e.pool.pool e.order_map v.keyed (λ k s h.
        let (side, i, on, named) = v.found k s h in (named, (v.rests side i s on).live)) in
    rw (not_crossed e free q v u, verify_ladder (v.sides buy), verify_ladder (v.sides sell), m) refl

-- The empty engine.
abbrev pub no_orders : Book
no_orders side i = []

new-IsLadder :
    (mem : Orders) (n : ℕ) → IsLadder mem (set_base_price (price_ladder n) (pos 0)) (λ _. [])
unfolding price_ladder set_base_price bitset
new-IsLadder mem n = record {
  unit = record { base = refl; tick = refl };
  bits = bitset-IsValid n;
  width = refl;
  level = λ i. record { chain = nil refl refl; distinct = tt; counted = refl };
  occupied = λ i. test-bitset n (pos i);
}

-- A new engine with a pool capacity from 1 to 2 ^ 32 - 1 has the invariant with an empty book and
-- every slot free, in ascending order.
pub matching_engine-IsBook :
    (levels : ℤ) (capacity : ℕ)
    → 0 < capacity
    → capacity ≤ uint32_max
    → IsBook (matching_engine levels capacity) (slots capacity 0) no_orders
unfolding matching_engine find
matching_engine-IsBook levels capacity h m = record {
  pool = order_pool-IsPool capacity h m;
  sides = λ side. sides side;
  rests = λ side i s k. absurd (ground arith);
  found = λ id s k. absurd (ground (arith, no_entry id));
  keyed = tt;
}
  where
    sides :
        (side : Side)
        → IsLadder
            (order_pool capacity).pool
            (ladder side (matching_engine levels capacity))
            (λ _. [])
    sides buy = new-IsLadder (order_pool capacity).pool (levels_of levels)
    sides sell = new-IsLadder (order_pool capacity).pool (levels_of levels)

    no_entry : (id : OrderId) → find {V = Slot} id [] ≡ none
    no_entry id = refl
