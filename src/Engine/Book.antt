-- ===== src/Engine/Book.antt =====
-- The invariant of the matching engine: which slots are free, and which orders rest on each level.
use cpp_orderbook_engine.Prelude.{
  ℕ, ◌<◌, ◌≡◌, ◌≢◌, refl, sym, ◌∙◌, ap, pos, ◌<ℤ◌, true, false, some, List, arith, has, update,
  ◌==◌, Distinct, Bool-cases, inl, inr, ◌⊎◌,
}
use cpp_orderbook_engine.Types.{OrderId, Side, buy, sell}
use cpp_orderbook_engine.Order.{Slot, Orders}
use cpp_orderbook_engine.Pool.{OrderPool}
use cpp_orderbook_engine.Pool.Free.{IsPool}
use cpp_orderbook_engine.Ladder.{PriceLadder}
use cpp_orderbook_engine.Ladder.Side.{Queues, IsLadder, Apart}
use cpp_orderbook_engine.Map.{find, keys}
use cpp_orderbook_engine.Engine.{MatchingEngine, ladder, set_ladder}
use cpp_orderbook_engine.Engine.Requests.{in_book}

-- The orders of each level of each side, the oldest first.
abbrev pub Book : Type 0
Book = Side → Queues

-- The book with one level replaced.
abbrev pub put : Book → Side → ℕ → List Slot → Book
put q buy i xs buy = update (q buy) i xs
put q buy i xs sell = q sell
put q sell i xs buy = q buy
put q sell i xs sell = update (q sell) i xs

pub put_cases :
    (q : Book) (side : Side) (i : ℕ) (xs : List Slot) (side' : Side) (j : ℕ)
    → ((side' ≡ side) × (j ≡ i) × (put q side i xs side' j ≡ xs))
      ⊎ (((side' ≡ side) → j ≢ i) × (put q side i xs side' j ≡ q side' j))
put_cases q buy i xs buy j = elim (Bool-cases (j == i)) [
  | inl e ↦ inl (refl, ground arith, rw e refl)
  | inr e ↦ inr (λ _. ground arith, rw e refl)
]
put_cases q buy i xs sell j = inr (λ e. cc, refl)
put_cases q sell i xs buy j = inr (λ e. cc, refl)
put_cases q sell i xs sell j = elim (Bool-cases (j == i)) [
  | inl e ↦ inl (refl, ground arith, rw e refl)
  | inr e ↦ inr (λ _. ground arith, rw e refl)
]

-- An engine with one ladder, the pool and the map replaced.
abbrev pub rebuilt :
    Side → MatchingEngine → PriceLadder → OrderPool → List (OrderId × Slot) → MatchingEngine
rebuilt side e l p m = record (set_ladder side e l) { pool = p; order_map = m }

pub rebuilt_sides :
    {mem : Orders} (e : MatchingEngine) (q : Book) (side : Side) (l : PriceLadder) (i : ℕ)
    (xs : List Slot) (p : OrderPool) (m : List (OrderId × Slot))
    → IsLadder mem l (update (q side) i xs)
    → ((other : Side) → other ≢ side → IsLadder mem (ladder other e) (q other))
    → (side' : Side) → IsLadder mem (ladder side' (rebuilt side e l p m)) (put q side i xs side')
rebuilt_sides e q buy l i xs p m v o buy = v
rebuilt_sides e q buy l i xs p m v o sell = o sell (λ e. cc)
rebuilt_sides e q sell l i xs p m v o buy = o buy (λ e. cc)
rebuilt_sides e q sell l i xs p m v o sell = v

-- What holds of an order that rests at price `i` on a side.
pub record IsResting (mem : Orders) (map : List (OrderId × Slot)) (capacity : ℕ) (free : List Slot)
    (side : Side) (i : ℕ) (s : Slot) : Type 0 where
  pub on_side : (mem s).side ≡ side
  pub at_price : (mem s).price ≡ pos i
  pub live : in_book (mem s).status ≡ true
  pub own : (mem s).pool_index ≡ s
  pub inside : s < capacity
  pub used : has s free ≡ false
  pub mapped : find (mem s).id map ≡ some s

-- The pool holds the free slots, the ladders hold the book, and the map finds exactly the orders of
-- the book, by their ids.
pub record IsBook (e : MatchingEngine) (free : List Slot) (q : Book) : Type 0 where
  pub pool : IsPool e.pool free
  pub sides : (side : Side) → IsLadder e.pool.pool (ladder side e) (q side)
  pub rests :
      (side : Side) (i : ℕ) (s : Slot)
      → has s (q side i) ≡ true
      → IsResting e.pool.pool e.order_map e.pool.capacity free side i s
  pub found :
      (id : OrderId) (s : Slot)
      → find id e.order_map ≡ some s
      → (side : Side) × (i : ℕ) × (has s (q side i) ≡ true) × ((e.pool.pool s).id ≡ id)
  pub keyed : Distinct (keys e.order_map)

-- Every order of the book has a positive quantity left.
abbrev pub IsPositive : Orders → Book → Type 0
IsPositive mem q =
    (side : Side) (i : ℕ) (s : Slot) → has s (q side i) ≡ true → pos 0 <ℤ (mem s).remaining

module _ {e : MatchingEngine} {free : List Slot} {q : Book} (v : IsBook e free q) where
  -- An order is on one level only.
  pub one_level :
      (side side' : Side) (i j : ℕ) (s : Slot)
      → has s (q side i) ≡ true
      → has s (q side' j) ≡ true
      → (side ≡ side') × (i ≡ j)
  one_level side side' i j s h k =
      let a = v.rests side i s h in
      let b = v.rests side' j s k in (sym a.on_side ∙ b.on_side, ground arith)

  pub levels_Apart : (side : Side) (i : ℕ) → Apart (q side) i
  levels_Apart side i j a ne h = elim (Bool-cases (has a (q side i))) [
    | inl k ↦ absurd (ne ((one_level side side j i a h k).1))
    | inr k ↦ k
  ]

  -- Ids are not shared.
  pub one_id :
      (side side' : Side) (i j : ℕ) (s s' : Slot)
      → has s (q side i) ≡ true
      → has s' (q side' j) ≡ true
      → (e.pool.pool s).id ≡ (e.pool.pool s').id
      → s ≡ s'
  one_id side side' i j s s' h k same =
      let a = v.rests side i s h in
      let b = v.rests side' j s' k in ground (arith, ap (λ n. find n e.order_map) same)
