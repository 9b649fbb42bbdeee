-- ===== src/Bitset/Laws.antt =====
-- The bitset as a set of indices: what `set`, `clear`, `reset` and the constructor do to `test`.
use cpp_orderbook_engine.Prelude.{
  ℕ, ◌+◌, ◌/◌, ◌%◌, ◌^◌, ◌≤◌, ◌<◌, ◌≡◌, refl, ℤ, pos, negsuc, Bool, true, false, ltb, leb_ℤ, ltb_ℤ,
  ◌==ℤ◌, ◌&&◌, ◌∙◌, ◌==◌, if◌then◌else◌, update, arith, inl, inr, Bool-cases,
}
use cpp_orderbook_engine.Bits.{
  bit_at, set_bit, clear_bit, bit_at-set_bit, bit_at-clear_bit, set_bit-lt, clear_bit-lt,
  bit_at-zero_word,
}
use cpp_orderbook_engine.Bitset.{DynamicBitset, bitset, set, clear, test, reset}

-- The bit of index `i`, whether or not it is in range.
abbrev pub bit : DynamicBitset → ℕ → Bool
bit b i = bit_at (b.words (i / 64)) (i % 64)

-- The words fit their width, there are enough of them, and no bit out of range is set.
pub record IsValid (b : DynamicBitset) : Type 0 where
  pub sized : b.num_words ≡ (b.num_bits + 63) / 64
  pub fits : (i : ℕ) → b.words i < 2 ^ 64
  pub inside : (i : ℕ) → b.num_bits ≤ i → bit b i ≡ false

pub bitset-IsValid : (n : ℕ) → IsValid (bitset n)
unfolding bitset
bitset-IsValid n = record {
  sized = refl;
  fits = λ i. omega arith;
  inside = λ i h. bit_at-zero_word (i % 64);
}

pub test-bitset : (n : ℕ) (i : ℤ) → test (bitset n) i ≡ false
unfolding test bitset
test-bitset n (pos i) = ground (arith, bit_at-zero_word (i % 64))
test-bitset n (negsuc i) = refl

same_index : (i j : ℕ) → i / 64 ≡ j / 64 → i % 64 ≡ j % 64 → i ≡ j
same_index i j p q = omega arith

set_word :
    (w : ℕ → ℕ) (i j : ℕ)
    → bit_at (update w (i / 64) (set_bit (w (i / 64)) (i % 64)) (j / 64)) (j % 64)
      ≡ (if j == i then true else bit_at (w (j / 64)) (j % 64))
set_word w i j = elim (Bool-cases (j / 64 == i / 64)) [
  | inl e ↦ rw e (ground (arith, bit_at-set_bit (w (i / 64)) (i % 64) (j % 64), same_index i j))
  | inr e ↦ rw e (ground arith)
]

clear_word :
    (w : ℕ → ℕ) (i j : ℕ)
    → w (i / 64) < 2 ^ 64
    → bit_at (update w (i / 64) (clear_bit 64 (w (i / 64)) (i % 64)) (j / 64)) (j % 64)
      ≡ (if j == i then false else bit_at (w (j / 64)) (j % 64))
clear_word w i j h = elim (Bool-cases (j / 64 == i / 64)) [
  | inl e ↦ rw e (
      ground
        (arith, bit_at-clear_bit 64 (w (i / 64)) (i % 64) (j % 64) h (omega arith), same_index i j))
  | inr e ↦ rw e (ground arith)
]

pub test-set_at :
    (b : DynamicBitset) (i j : ℕ)
    → test (set b (pos i)) (pos j) ≡ (if j == i then ltb i b.num_bits else test b (pos j))
unfolding test set
test-set_at b i j = ground (arith, set_word b.words i j)

pub test-clear_at :
    (b : DynamicBitset) (i j : ℕ)
    → IsValid b
    → test (clear b (pos i)) (pos j) ≡ (if j == i then false else test b (pos j))
unfolding test clear
test-clear_at b i j v = ground (arith, clear_word b.words i j (v.fits (i / 64)))

-- Whether an index is one of a bitset's.
abbrev pub inside : DynamicBitset → ℤ → Bool
inside b i = leb_ℤ (pos 0) i && ltb_ℤ i (pos b.num_bits)

-- After `set` of any index, a negative one or one out of range too, the index is in the set
-- exactly if it is in range, and every other index is in the set as before.
pub test-set :
    (b : DynamicBitset) (i j : ℤ) → test (set b i) j ≡ (if j ==ℤ i then inside b i else test b j)
unfolding test set
test-set b (pos i) (pos j) = test-set_at b i j ∙ ground arith
test-set b (pos i) (negsuc j) = ground arith
test-set b (negsuc i) (pos j) = ground arith
test-set b (negsuc i) (negsuc j) = ground arith

-- After `clear` of any index on a valid bitset, a negative one or one out of range too, the index
-- is not in the set, and every other index is in the set as before.
pub test-clear :
    (b : DynamicBitset) (i j : ℤ)
    → IsValid b
    → test (clear b i) j ≡ (if j ==ℤ i then false else test b j)
unfolding test clear
test-clear b (pos i) (pos j) v = test-clear_at b i j v ∙ ground arith
test-clear b (pos i) (negsuc j) v = ground arith
test-clear b (negsuc i) (pos j) v = ground arith
test-clear b (negsuc i) (negsuc j) v = ground arith

pub set-IsValid : {b : DynamicBitset} (i : ℤ) → IsValid b → IsValid (set b i)
unfolding set
set-IsValid (negsuc i) v = v
set-IsValid {b} (pos i) v = elim (Bool-cases (ltb i b.num_bits)) [
  | inl e ↦ rw e (record {
    sized = v.sized;
    fits = λ j. ground (
      arith,
      v.fits j,
      set_bit-lt 64 (b.words (i / 64)) (i % 64) (v.fits (i / 64)) (omega arith),
    );
    inside = λ j h. ground (arith, v.inside j, set_word b.words i j);
  })
  | inr e ↦ rw e v
]

pub clear-IsValid : {b : DynamicBitset} (i : ℤ) → IsValid b → IsValid (clear b i)
unfolding clear
clear-IsValid (negsuc i) v = v
clear-IsValid {b} (pos i) v = elim (Bool-cases (ltb i b.num_bits)) [
  | inl e ↦ rw e (record {
    sized = v.sized;
    fits = λ j. ground (
      arith,
      v.fits j,
      clear_bit-lt 64 (b.words (i / 64)) (i % 64) (v.fits (i / 64)) (omega arith),
    );
    inside = λ j h. ground (arith, v.inside j, clear_word b.words i j (v.fits (i / 64)));
  })
  | inr e ↦ rw e v
]

pub reset-IsValid : {b : DynamicBitset} → IsValid b → IsValid (reset b)
unfolding reset
reset-IsValid v = record {
  sized = v.sized;
  fits = λ i. omega arith;
  inside = λ i h. bit_at-zero_word (i % 64);
}

pub test-reset : (b : DynamicBitset) (i : ℤ) → test (reset b) i ≡ false
unfolding test reset
test-reset b (pos i) = ground (arith, bit_at-zero_word (i % 64))
test-reset b (negsuc i) = refl
