-- ===== src/MarketData/Top.antt =====
-- The top-of-book snapshot.
use cpp_orderbook_engine.Prelude.{
  ℕ, zero, suc, ◌^◌, ◌<◌, false, if◌then◌else◌, ◌≡◌, ◌⊎◌, inl, inr, refl, ap, ◌∙◌, pos, ◌-ℤ◌, ◌<ℤ◌,
  ◌==ℤ◌, ◌||◌, true, some, List, [], arith, int_laws,
}
use cpp_orderbook_engine.Types.{Side, buy, sell, Price, Quantity}
use cpp_orderbook_engine.Order.{Slot, Orders}
use cpp_orderbook_engine.Ladder.Side.{nonempty}
use cpp_orderbook_engine.Engine.{
  MatchingEngine, opposite, best_bid, best_ask, spread, resting_quantity,
}
use cpp_orderbook_engine.Engine.Book.{Book, IsBook, IsPositive}
use cpp_orderbook_engine.Engine.Abstract.{entries}
use cpp_orderbook_engine.Engine.Trace.{IsBest}
use cpp_orderbook_engine.Engine.Verify.{IsBestPrice, best_prices, Uncrossed}
use cpp_orderbook_engine.Engine.Depth.{quantity_left, resting_quantity_lem}
use cpp_orderbook_engine.MarketData.{TopOfBook, top_of_book, get_top_of_book}

-- A price and a quantity are those of the best level of a side, or both 0 if the side is empty.
abbrev pub IsTop : Side → Orders → Book → Price → Quantity → Type 0
IsTop s mem q p n =
    ((p ≡ pos 0) × (n ≡ pos 0) × ((j : ℕ) → q (opposite s) j ≡ []))
    ⊎ ((i : ℕ) × (p ≡ pos i)
        × (n ≡ quantity_left (entries mem q (opposite s) i))
        × (nonempty (q (opposite s) i) ≡ true)
        × IsBest s q i)

-- Either one of the best prices is 0 and so is the spread, or it is their difference, and positive.
abbrev pub IsSpread : Price → Price → Price → Type 0
IsSpread bid ask n =
    ((n ≡ pos 0) × ((bid ≡ pos 0) ⊎ (ask ≡ pos 0)))
    ⊎ ((pos 0 <ℤ bid) × (n ≡ ask -ℤ bid) × (pos 0 <ℤ n))

-- What is left of the orders of each level adds up to an int64_t.
abbrev pub Fits : Orders → Book → Type 0
Fits mem q = (side : Side) (i : ℕ) → quantity_left (entries mem q side i) <ℤ pos (2 ^ 63)

apart-IsSpread :
    (i j : ℕ)
    → i < j
    → IsSpread
        (pos i)
        (pos j)
        (if (pos i ==ℤ pos 0) || (pos j ==ℤ pos 0) then pos 0 else pos j -ℤ pos i)
apart-IsSpread zero j h = inl (refl, inl refl)
apart-IsSpread (suc i) j h =
    let e : ((pos (suc i) ==ℤ pos 0) || (pos j ==ℤ pos 0)) ≡ false = ground arith in
    rw e (inr (omega arith, refl, omega int_laws))

module _ (e : MatchingEngine) (free : List Slot) (q : Book) (v : IsBook e free q) where
  spread_lem : Uncrossed q → IsSpread (best_bid e) (best_ask e) (spread e)
  unfolding spread
  spread_lem u =
      let (ask, bid) = best_prices e free q v in
      elim ask [
        | inl (a, _) ↦ rw (spread, a) (inl (ground arith, inr refl))
        | inr (j, a, fa, _) ↦ elim bid [
          | inl (b, _) ↦ rw (spread, b) (inl (ground arith, inl refl))
          | inr (i, b, fb, _) ↦
              let apart = u i j fb fa in rw (spread, a, b) (apart-IsSpread i j apart)
        ]
      ]

  module _ (positive : IsPositive e.pool.pool q) (fits : Fits e.pool.pool q) where
    IsTop-of :
        (s : Side) (p : Price)
        → IsBestPrice s q p
        → (n : Quantity) × (resting_quantity e (opposite s) p ≡ some n) × IsTop s e.pool.pool q p n
    IsTop-of s p (inl (z, clear)) =
        let depth =
          resting_quantity_lem e free q (opposite s) (pos 0) v positive (fits (opposite s) 0) in
        (
          pos 0,
          ap (resting_quantity e (opposite s)) z ∙ depth ∙ rw (clear 0) refl,
          inl (z, refl, clear),
        )
    IsTop-of s p (inr (i, z, full, best)) =
        let depth =
          resting_quantity_lem e free q (opposite s) (pos i) v positive (fits (opposite s) i) in
        (
          quantity_left (entries e.pool.pool q (opposite s) i),
          ap (resting_quantity e (opposite s)) z ∙ depth,
          inr (i, z, refl, full, best),
        )

-- For an engine whose book has the invariant and positive quantities, every bid below every ask,
-- and less than 2 ^ 63 left on each level in all, the snapshot ends and gives on each side the
-- price of the best level and the sum of what is left of its orders, or 0 and 0 if the side is
-- empty; the spread is the difference of the best prices and positive, or 0 if one of them is 0.
pub get_top_of_book_lem :
    (e : MatchingEngine) (free : List Slot) (q : Book)
    → IsBook e free q
    → IsPositive e.pool.pool q
    → Uncrossed q
    → Fits e.pool.pool q
    → (t : TopOfBook) × (get_top_of_book e ≡ some t)
      × IsTop buy e.pool.pool q t.best_ask t.ask_quantity
      × IsTop sell e.pool.pool q t.best_bid t.bid_quantity
      × IsSpread t.best_bid t.best_ask t.spread
unfolding get_top_of_book
get_top_of_book_lem e free q v positive u fits =
    let (asks, bids) = best_prices e free q v in
    let (n, en, an) = IsTop-of e free q v positive fits buy (best_ask e) asks in
    let (m, em, am) = IsTop-of e free q v positive fits sell (best_bid e) bids in
    (top_of_book e m n, rw (get_top_of_book, em, en) refl, an, am, spread_lem e free q v u)
