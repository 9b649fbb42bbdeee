-- ===== src/Bits/Digits.antt =====
-- The operations `|` and `&` on words, digit by digit.
use Prim.Native.Nat.{max, min, bit_or, bit_and, digits, bit_or-bitwise, bit_and-bitwise}
use cpp_orderbook_engine.Prelude.{
  ℕ, zero, suc, ◌+◌, ◌-◌, ◌*◌, ◌/◌, ◌%◌, ◌≤◌, ◌<◌, ◌≡◌, refl, ◌∙◌, ap, arith,
}

module _ (over : ℕ → ℕ) (on : ℕ → ℕ → ℕ) where
  -- A count of digits that is enough may be one more.
  one_more : (n a b : ℕ) → a ≤ n → digits over on (suc n) a b ≡ digits over on n a b
  one_more zero zero b h = refl
  one_more (suc n) zero b h = refl
  one_more zero (suc a) b h = absurd (omega arith)
  one_more (suc n) (suc a) b h =
      ap (λ q. q * 2 + on (suc a % 2) (b % 2)) (one_more n (suc a / 2) (b / 2) (omega arith))

  more : (d n m a b : ℕ) → m ≡ d + n → a ≤ n → digits over on m a b ≡ digits over on n a b
  more zero n m a b e h = ap (λ c. digits over on c a b) (omega arith)
  more (suc d) n m a b e h =
      let less : m ≡ suc (d + n) = omega arith in
      ap (λ c. digits over on c a b) less
      ∙ one_more (d + n) a b (omega arith)
      ∙ more d n (d + n) a b refl h

  halve :
      (a b : ℕ)
      → digits over on (suc a) (suc a) b
        ≡ digits over on (suc a / 2) (suc a / 2) (b / 2) * 2 + on (suc a % 2) (b % 2)
  halve a b =
      let h = suc a / 2 in
      ap (λ q. q * 2 + on (suc a % 2) (b % 2))
        (more (a - h) h a h (b / 2) (omega arith) (omega arith))

-- The lowest digit and the rest.
pub bit_or_step : (x y : ℕ) → bit_or x y ≡ 2 * bit_or (x / 2) (y / 2) + max (x % 2) (y % 2)
bit_or_step zero y = omega (arith, bit_or-bitwise 0 y, bit_or-bitwise 0 (y / 2))
bit_or_step (suc x) y =
    bit_or-bitwise (suc x) y
    ∙ rw (bit_or-bitwise (suc x / 2) (y / 2)) (omega (arith, halve (λ d. d) max x y))

pub bit_and_step : (x y : ℕ) → bit_and x y ≡ 2 * bit_and (x / 2) (y / 2) + min (x % 2) (y % 2)
bit_and_step zero y = omega (arith, bit_and-bitwise 0 y, bit_and-bitwise 0 (y / 2))
bit_and_step (suc x) y =
    bit_and-bitwise (suc x) y
    ∙ rw (bit_and-bitwise (suc x / 2) (y / 2)) (omega (arith, halve (λ _. zero) min x y))

-- Zero on the right, for words below a bound.
or_nothing : (bound w : ℕ) → w < bound → bit_or w 0 ≡ w
or_nothing zero w h = absurd (omega arith)
or_nothing (suc bound) zero h = refl
or_nothing (suc bound) (suc w) h =
    let rest = or_nothing bound (suc w / 2) (omega arith) in omega (arith, bit_or_step (suc w) 0)

pub bit_or-zero : (w : ℕ) → bit_or w 0 ≡ w
bit_or-zero w = or_nothing (suc w) w (omega arith)

and_nothing : (bound w : ℕ) → w < bound → bit_and w 0 ≡ 0
and_nothing zero w h = absurd (omega arith)
and_nothing (suc bound) zero h = refl
and_nothing (suc bound) (suc w) h =
    let rest = and_nothing bound (suc w / 2) (omega arith) in omega (arith, bit_and_step (suc w) 0)

pub bit_and-zero : (w : ℕ) → bit_and w 0 ≡ 0
bit_and-zero w = and_nothing (suc w) w (omega arith)
