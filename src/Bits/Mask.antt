-- ===== src/Bits/Mask.antt =====
-- A mask of ones: `t & (Capacity - 1)` for a capacity that is a power of two.
use Prim.Native.Nat.{bit_and}
use native.Mathlib.Nat.{div-div-eq-div-mul}
use cpp_orderbook_engine.Prelude.{ℕ, zero, suc, ◌+◌, ◌-◌, ◌*◌, ◌/◌, ◌%◌, ◌^◌, ◌<◌, ◌≡◌, ◌∙◌, arith}
use cpp_orderbook_engine.Bits.Digits.{bit_and_step, bit_and-zero}
use cpp_orderbook_engine.Bits.{pow-two_suc, pow-two_pos}

mod_half : (p w : ℕ) → 0 < p → w % (2 * p) ≡ (w / 2 % p) * 2 + w % 2
mod_half p w h = grind (arith, div-div-eq-div-mul w 2 p)

-- The mask takes the remainder.
pub bit_and-mask : (k w : ℕ) → bit_and w (2 ^ k - 1) ≡ w % 2 ^ k
bit_and-mask zero w = omega (arith, bit_and-zero w)
bit_and-mask (suc k) w =
    let p = pow-two_pos k in
    let half : (2 ^ suc k - 1) / 2 ≡ 2 ^ k - 1 = omega (arith, pow-two_suc k) in
    let odd : (2 ^ suc k - 1) % 2 ≡ 1 = omega (arith, pow-two_suc k) in
    bit_and_step w (2 ^ suc k - 1)
    ∙ rw (half, odd, bit_and-mask k (w / 2), pow-two_suc k, mod_half (2 ^ k) w p) (omega arith)
