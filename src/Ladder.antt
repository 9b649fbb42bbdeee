-- ===== src/Ladder.antt =====
-- include/matching/price_ladder.h and src/price_ladder.cpp: the levels of one side of the book,
-- indexed by price, with a bitset of the occupied ones.
pub mod Index
pub mod Side
mod Tests
use cpp_orderbook_engine.Prelude.{
  ℕ, zero, suc, ◌+◌, ℤ, pos, negsuc, ◌+ℤ◌, ◌-ℤ◌, ◌*ℤ◌, ◌/ℤ◌, ltb_ℤ, leb_ℤ, ◌==ℤ◌, Bool, true, false,
  not, ◌||◌, ◌&&◌, if◌then◌else◌, update,
}
use cpp_orderbook_engine.Types.{Price}
use cpp_orderbook_engine.Bitset
use cpp_orderbook_engine.Bitset.{DynamicBitset, bitset, test, find_highest, find_lowest}
use cpp_orderbook_engine.Level
use cpp_orderbook_engine.Level.{PriceLevelList, empty_level}

pub record PriceLadder : Type 0 where
  pub max_levels : ℕ
  pub levels : ℕ → PriceLevelList
  pub occupied_bits : DynamicBitset
  pub base_price : Price
  pub tick_size : Price

abbrev pub default_max_levels : ℕ
default_max_levels = 20000

-- The constructor.
unfoldable pub price_ladder : ℕ → PriceLadder
price_ladder max_levels = record {
  max_levels = max_levels;
  levels = λ _. empty_level;
  occupied_bits = bitset max_levels;
  base_price = pos 0;
  tick_size = pos 1;
}

unfoldable pub set_base_price : PriceLadder → Price → PriceLadder
set_base_price l base = record l { base_price = base }

unfoldable pub set_tick_size : PriceLadder → Price → PriceLadder
set_tick_size l tick = record l { tick_size = tick }

-- -1 (`negsuc 0`) if the price is out of range.
unfoldable pub price_to_index : PriceLadder → Price → ℤ
price_to_index l price =
    if l.tick_size ==ℤ pos 0
    then negsuc 0
    else let offset = (price -ℤ l.base_price) /ℤ l.tick_size in
      if ltb_ℤ offset (pos 0) || leb_ℤ (pos l.max_levels) offset then negsuc 0 else offset

unfoldable pub index_to_price : PriceLadder → ℤ → Price
index_to_price l index = l.base_price +ℤ index *ℤ l.tick_size

-- Callers pass indices in range only.
abbrev pub level_at : PriceLadder → ℕ → PriceLevelList
level_at l i = l.levels i

-- A write through the reference that `level_at` returns.
abbrev pub set_level : PriceLadder → ℕ → PriceLevelList → PriceLadder
set_level l i level = record l { levels = update l.levels i level }

unfoldable pub mark_occupied : PriceLadder → ℕ → PriceLadder
mark_occupied l i = record l { occupied_bits = Bitset.set l.occupied_bits (pos i) }

unfoldable pub mark_empty : PriceLadder → ℕ → PriceLadder
mark_empty l i =
    if Level.empty (l.levels i)
    then record l { occupied_bits = Bitset.clear l.occupied_bits (pos i) }
    else l

unfoldable pub find_best_bid : PriceLadder → ℤ
find_best_bid l = find_highest l.occupied_bits

unfoldable pub find_best_ask : PriceLadder → ℤ
find_best_ask l = find_lowest l.occupied_bits

-- idx >= 0 ? index_to_price(idx) : 0
unfoldable pub price_at : PriceLadder → ℤ → Price
price_at l idx = if leb_ℤ (pos 0) idx then index_to_price l idx else pos 0

unfoldable pub best_bid_price : PriceLadder → Price
unfolding price_at
best_bid_price l = price_at l (find_best_bid l)

unfoldable pub best_ask_price : PriceLadder → Price
unfolding price_at
best_ask_price l = price_at l (find_best_ask l)

unfoldable pub empty : PriceLadder → Bool
empty l = Bitset.empty l.occupied_bits

abbrev pub same : Bool → Bool → Bool
same true b = b
same false b = not b

-- The first loop of `verify_invariants`, from level `i` on. The second loop has no effect.
unfoldable pub verify_from : ℕ → ℕ → PriceLadder → Bool
verify_from zero i l = true
verify_from (suc rounds) i l =
    same (test l.occupied_bits (pos i)) (not (Level.empty (l.levels i)))
    && verify_from rounds (suc i) l

unfoldable pub verify_invariants : PriceLadder → Bool
unfolding verify_from
verify_invariants l = verify_from l.max_levels 0 l
