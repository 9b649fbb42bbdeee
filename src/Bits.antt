-- ===== src/Bits.antt =====
-- Single bits of a machine word: what `|=`, `&= ~` and `>>` with a shifted one do to each bit, and
-- the compiler's count of leading and of trailing zeros (include/matching/bitset.h).
pub mod Count
pub mod Digits
pub mod Mask
use Prim.Native.Nat.{bit_or, bit_and}
use cpp_orderbook_engine.Bits.Digits.{bit_or_step, bit_or-zero, bit_and_step, bit_and-zero}
use native.Mathlib.Decide.{dec_lt}
use native.Mathlib.Nat.{div-div-eq-div-mul, div-eq_of_lt-le, pow-suc}
use cpp_orderbook_engine.Prelude.{
  ℕ, zero, suc, ◌+◌, ◌-◌, ◌*◌, ◌/◌, ◌%◌, ◌^◌, ◌<◌, ◌≡◌, ◌∙◌, ap, sym, Bool, true, false, ◌==◌,
  if◌then◌else◌, arith,
}

-- (w >> k) & 1
unfoldable pub bit_at : ℕ → ℕ → Bool
bit_at w k = (w / 2 ^ k) % 2 == 1

-- w | (1ULL << k)
unfoldable pub set_bit : ℕ → ℕ → ℕ
set_bit w k = bit_or w (2 ^ k)

-- w & ~(1ULL << k), at a width of n bits
unfoldable pub clear_bit : ℕ → ℕ → ℕ → ℕ
clear_bit n w k = bit_and w (2 ^ n - 1 - 2 ^ k)

-- The count of leading zeros of an n-bit word: `__builtin_clzll` at n = 64.
unfoldable pub clz : ℕ → ℕ → ℕ
unfolding bit_at
clz zero w = 0
clz (suc n) w = if bit_at w n then 0 else suc (clz n w)

-- The count of trailing zeros among n bits from bit k on: `__builtin_ctzll` at n = 64 and k = 0.
unfoldable pub ctz : ℕ → ℕ → ℕ → ℕ
unfolding bit_at
ctz zero k w = 0
ctz (suc n) k w = if bit_at w k then 0 else suc (ctz n (suc k) w)

pub pow-two_suc : (k : ℕ) → 2 ^ suc k ≡ 2 * 2 ^ k
pow-two_suc k = omega (arith, pow-suc 2 k)

pub pow-two_pos : (k : ℕ) → 0 < 2 ^ k
pow-two_pos zero = omega arith
pow-two_pos (suc k) = omega (arith, pow-two_suc k, pow-two_pos k)

pow-two_lt : (k n : ℕ) → k < n → 2 ^ k < 2 ^ n
pow-two_lt k zero h = absurd (omega arith)
pow-two_lt zero (suc n) h = omega (arith, pow-two_suc n, pow-two_pos n)
pow-two_lt (suc k) (suc n) h =
    omega (arith, pow-two_suc k, pow-two_suc n, pow-two_lt k n (omega arith))

bit_at-suc : (w k : ℕ) → bit_at w (suc k) ≡ bit_at (w / 2) k
unfolding bit_at
bit_at-suc w k =
    ap (λ q. (q % 2) == 1) (ap (λ m. w / m) (pow-two_suc k) ∙ sym (div-div-eq-div-mul w 2 (2 ^ k)))

bit_at_zero : (w : ℕ) → bit_at w 0 ≡ (w % 2 == 1)
unfolding bit_at
bit_at_zero w = ap (λ q. (q % 2) == 1) (omega arith)

set_bit-suc :
    (w k : ℕ) → (set_bit w (suc k) / 2 ≡ set_bit (w / 2) k) × (set_bit w (suc k) % 2 ≡ w % 2)
unfolding set_bit
set_bit-suc w k = (omega (arith, step), omega (arith, step))
  where
    half : 2 ^ suc k / 2 ≡ 2 ^ k
    half = omega (arith, pow-two_suc k)

    step : bit_or w (2 ^ suc k) ≡ bit_or (w / 2) (2 ^ k) * 2 + w % 2
    step = bit_or_step w (2 ^ suc k) ∙ omega (arith, pow-two_suc k, ap (λ m. bit_or (w / 2) m) half)

set_bit_zero : (w : ℕ) → set_bit w 0 ≡ w / 2 * 2 + 1
unfolding set_bit
set_bit_zero w = omega (arith, bit_or_step w 1, bit_or-zero (w / 2))

-- Or with a shifted one sets its bit and keeps every other.
pub bit_at-set_bit : (w k j : ℕ) → bit_at (set_bit w k) j ≡ (if j == k then true else bit_at w j)
bit_at-set_bit w zero zero = bit_at_zero (set_bit w 0) ∙ ground (arith, set_bit_zero w)
bit_at-set_bit w zero (suc j) =
    let kept =
      bit_at-suc (set_bit w 0) j
      ∙ ap (λ v. bit_at v j) (omega (arith, set_bit_zero w))
      ∙ sym (bit_at-suc w j) in
    ground (arith, kept)
bit_at-set_bit w (suc k) zero =
    let kept =
      bit_at_zero (set_bit w (suc k))
      ∙ ap (λ v. v == 1) ((set_bit-suc w k).1)
      ∙ sym (bit_at_zero w) in
    ground (arith, kept)
bit_at-set_bit w (suc k) (suc j) =
    let halved =
      bit_at-suc (set_bit w (suc k)) j
      ∙ ap (λ v. bit_at v j) ((set_bit-suc w k).0)
      ∙ bit_at-set_bit (w / 2) k j in
    ground (arith, halved, bit_at-suc w j)

pub set_bit-lt : (n w k : ℕ) → w < 2 ^ n → k < n → set_bit w k < 2 ^ n
set_bit-lt zero w k h l = absurd (omega arith)
set_bit-lt (suc n) w zero h l = omega (arith, set_bit_zero w, pow-two_suc n)
set_bit-lt (suc n) w (suc k) h l =
    let ih = set_bit-lt n (w / 2) k (omega (arith, pow-two_suc n)) (omega arith) in
    omega (arith, ih, set_bit-suc w k, pow-two_suc n)

ones_step : (n w : ℕ) → bit_and (w / 2) (2 ^ n - 1) ≡ w / 2 → bit_and w (2 ^ suc n - 1) ≡ w
ones_step n w ih =
    bit_and_step w (2 ^ suc n - 1)
    ∙ omega (arith, ap (λ m. bit_and (w / 2) m) half, ih, pow-two_suc n, pow-two_pos n)
  where
    half : (2 ^ suc n - 1) / 2 ≡ 2 ^ n - 1
    half = omega (arith, pow-two_suc n, pow-two_pos n)

ones : (n w : ℕ) → w < 2 ^ n → bit_and w (2 ^ n - 1) ≡ w
ones zero zero h = bit_and-zero 0
ones zero (suc w) h = absurd (omega arith)
ones (suc n) w h = ones_step n w (ones n (w / 2) (omega (arith, pow-two_suc n)))

clear_bit-suc :
    (n w k : ℕ)
    → k < n
    → (clear_bit (suc n) w (suc k) / 2 ≡ clear_bit n (w / 2) k)
      × (clear_bit (suc n) w (suc k) % 2 ≡ w % 2)
unfolding clear_bit
clear_bit-suc n w k l = (omega (arith, step), omega (arith, step))
  where
    half : (2 ^ suc n - 1 - 2 ^ suc k) / 2 ≡ 2 ^ n - 1 - 2 ^ k
    half = omega (arith, pow-two_suc n, pow-two_suc k, pow-two_lt k n l)

    step : bit_and w (2 ^ suc n - 1 - 2 ^ suc k) ≡ bit_and (w / 2) (2 ^ n - 1 - 2 ^ k) * 2 + w % 2
    step =
        bit_and_step w (2 ^ suc n - 1 - 2 ^ suc k)
        ∙ omega (
          arith,
          pow-two_suc n,
          pow-two_suc k,
          pow-two_lt k n l,
          ap (λ m. bit_and (w / 2) m) half,
        )

clear_bit_zero : (n w : ℕ) → w < 2 ^ suc n → clear_bit (suc n) w 0 ≡ w / 2 * 2
unfolding clear_bit
clear_bit_zero n w h =
    bit_and_step w (2 ^ suc n - 1 - 2 ^ 0)
    ∙ omega (
      arith,
      pow-two_suc n,
      pow-two_pos n,
      ap (λ m. bit_and (w / 2) m) half,
      ones n (w / 2) (omega (arith, pow-two_suc n)),
    )
  where
    half : (2 ^ suc n - 1 - 2 ^ 0) / 2 ≡ 2 ^ n - 1
    half = omega (arith, pow-two_suc n, pow-two_pos n)

-- And with the complement of a shifted one, in a word that fits its width, clears its bit and
-- keeps every other.
pub bit_at-clear_bit :
    (n w k j : ℕ)
    → w < 2 ^ n
    → k < n
    → bit_at (clear_bit n w k) j ≡ (if j == k then false else bit_at w j)
bit_at-clear_bit zero w k j h l = absurd (omega arith)
bit_at-clear_bit (suc n) w zero zero h l =
    bit_at_zero (clear_bit (suc n) w 0) ∙ ground (arith, clear_bit_zero n w h)
bit_at-clear_bit (suc n) w zero (suc j) h l =
    let kept =
      bit_at-suc (clear_bit (suc n) w 0) j
      ∙ ap (λ v. bit_at v j) (omega (arith, clear_bit_zero n w h))
      ∙ sym (bit_at-suc w j) in
    ground (arith, kept)
bit_at-clear_bit (suc n) w (suc k) zero h l =
    let kept =
      bit_at_zero (clear_bit (suc n) w (suc k))
      ∙ ap (λ v. v == 1) ((clear_bit-suc n w k (omega arith)).1)
      ∙ sym (bit_at_zero w) in
    ground (arith, kept)
bit_at-clear_bit (suc n) w (suc k) (suc j) h l =
    let halved =
      bit_at-suc (clear_bit (suc n) w (suc k)) j
      ∙ ap (λ v. bit_at v j) ((clear_bit-suc n w k (omega arith)).0)
      ∙ bit_at-clear_bit n (w / 2) k j (omega (arith, pow-two_suc n)) (omega arith) in
    ground (arith, halved, bit_at-suc w j)

pub clear_bit-lt : (n w k : ℕ) → w < 2 ^ n → k < n → clear_bit n w k < 2 ^ n
clear_bit-lt zero w k h l = absurd (omega arith)
clear_bit-lt (suc n) w zero h l = omega (arith, clear_bit_zero n w h)
clear_bit-lt (suc n) w (suc k) h l =
    let ih = clear_bit-lt n (w / 2) k (omega (arith, pow-two_suc n)) (omega arith) in
    omega (arith, ih, clear_bit-suc n w k (omega arith), pow-two_suc n)

lt_of_even_div : (w m : ℕ) → w < 2 * m → ((w / m) % 2 == 1) ≡ false → w < m
lt_of_even_div w m h e = elim (dec_lt w m) [
  | yes p ↦ p
  | no p ↦
      let one : w / m ≡ 1 = div-eq_of_lt-le m (omega arith) (omega arith) in
      absurd (ground (arith, one))
]

-- A word below 2 ^ n all of whose bits below n are clear is zero.
pub eq-zero_of_clear : (n w : ℕ) → w < 2 ^ n → ((k : ℕ) → k < n → bit_at w k ≡ false) → w ≡ 0
unfolding bit_at
eq-zero_of_clear zero w h none_set = omega arith
eq-zero_of_clear (suc n) w h none_set =
    eq-zero_of_clear n w
      (lt_of_even_div w (2 ^ n) (omega (arith, pow-two_suc n)) (none_set n (omega arith)))
      (λ k l. none_set k (omega arith))

pub bit_at-zero_word : (k : ℕ) → bit_at 0 k ≡ false
bit_at-zero_word zero = bit_at_zero 0
bit_at-zero_word (suc k) = bit_at-suc 0 k ∙ bit_at-zero_word k
