-- ===== src/Bitset.antt =====
-- include/matching/bitset.h: the dynamic bitset over 64-bit words. An `int` bit index is an
-- integer without a bound, `find_highest` and `find_lowest` return -1 (`negsuc 0`) for the empty set.
pub mod Laws
pub mod Scan
pub mod Find
mod Tests
use cpp_orderbook_engine.Prelude.{
  ℕ, zero, suc, ◌+◌, ◌-◌, ◌*◌, ◌/◌, ◌%◌, ℤ, pos, negsuc, Bool, true, false, ltb, ◌==◌,
  if◌then◌else◌, update,
}
use cpp_orderbook_engine.Bits.{bit_at, set_bit, clear_bit, clz, ctz}

-- `words` is the vector `data_`; indices from `num_words` on are out of its range.
pub record DynamicBitset : Type 0 where
  pub num_bits : ℕ
  pub num_words : ℕ
  pub words : ℕ → ℕ

-- The constructor.
unfoldable pub bitset : ℕ → DynamicBitset
bitset num_bits = record { num_bits = num_bits; num_words = (num_bits + 63) / 64; words = λ _. 0 }

unfoldable pub set : DynamicBitset → ℤ → DynamicBitset
set b (pos bit) =
    if ltb bit b.num_bits
    then record b { words = update b.words (bit / 64) (set_bit (b.words (bit / 64)) (bit % 64)) }
    else b
set b (negsuc _) = b

unfoldable pub clear : DynamicBitset → ℤ → DynamicBitset
clear b (pos bit) =
    if ltb bit b.num_bits
    then record b {
      words = update b.words (bit / 64) (clear_bit 64 (b.words (bit / 64)) (bit % 64));
    }
    else b
clear b (negsuc _) = b

unfoldable pub test : DynamicBitset → ℤ → Bool
test b (pos bit) = if ltb bit b.num_bits then bit_at (b.words (bit / 64)) (bit % 64) else false
test b (negsuc _) = false

-- The rounds of `for (int i = num_words_ - 1; i >= 0; --i)` with `suc i` words left.
unfoldable pub highest_from : ℕ → (ℕ → ℕ) → ℤ
highest_from zero words = negsuc 0
highest_from (suc i) words =
    let rest = highest_from i words in
    if words i == 0 then rest else pos (i * 64 + (63 - clz 64 (words i)))

unfoldable pub find_highest : DynamicBitset → ℤ
unfolding highest_from
find_highest b = highest_from b.num_words b.words

-- The rounds of `for (int i = 0; i < num_words_; ++i)` from `i` on, with the count of rounds left.
unfoldable pub lowest_from : ℕ → ℕ → (ℕ → ℕ) → ℤ
lowest_from zero i words = negsuc 0
lowest_from (suc rounds) i words =
    let rest = lowest_from rounds (suc i) words in
    if words i == 0 then rest else pos (i * 64 + ctz 64 0 (words i))

unfoldable pub find_lowest : DynamicBitset → ℤ
unfolding lowest_from
find_lowest b = lowest_from b.num_words 0 b.words

unfoldable pub empty_from : ℕ → ℕ → (ℕ → ℕ) → Bool
empty_from zero i words = true
empty_from (suc rounds) i words =
    let rest = empty_from rounds (suc i) words in if words i == 0 then rest else false

unfoldable pub empty : DynamicBitset → Bool
unfolding empty_from
empty b = empty_from b.num_words 0 b.words

unfoldable pub reset : DynamicBitset → DynamicBitset
reset b = record b { words = λ _. 0 }
