-- ===== src/Bits/Count.antt =====
-- `__builtin_clzll` and `__builtin_ctzll` find the highest and the lowest set bit.
use cpp_orderbook_engine.Bits.{bit_at, clz, ctz}
use cpp_orderbook_engine.Prelude.{
  ℕ, zero, suc, ◌+◌, ◌≤◌, ◌<◌, ◌≡◌, ◌⊎◌, inl, inr, true, false, arith, Bool-cases,
}

-- Bit `k` is set, and no other bit from `k` up to below `n`.
abbrev pub IsTop : ℕ → ℕ → ℕ → Type 0
IsTop n w k = (k < n) × (bit_at w k ≡ true) × ((j : ℕ) → k < j → j < n → bit_at w j ≡ false)

-- The count of leading zeros of an n-bit word points to its highest set bit, if it has one.
pub clz_lem :
    (n w : ℕ)
    → ((k : ℕ) → k < n → bit_at w k ≡ false) ⊎ ((k : ℕ) × (clz n w + suc k ≡ n) × IsTop n w k)
unfolding clz
clz_lem zero w = inl (λ k h. absurd (omega arith))
clz_lem (suc n) w = elim (Bool-cases (bit_at w n)) [
  | inl e ↦ inr (n, rw e (omega arith), (omega arith, e, λ j h l. absurd (omega arith)))
  | inr e ↦ elim (clz_lem n w) [
    | inl clear ↦ inl (λ k h. extend n w clear e k h)
    | inr (k, c, top) ↦ inr (
      k,
      rw e (omega (arith, c)),
      (omega (arith, top.0), top.1, λ j h l. above n w k top e j h l),
    )
  ]
]
  where
    extend :
        (n w : ℕ)
        → ((k : ℕ) → k < n → bit_at w k ≡ false)
        → bit_at w n ≡ false
        → (k : ℕ) → k < suc n
        → bit_at w k ≡ false
    extend n w clear e k h = ground (arith, clear k)

    above :
        (n w k : ℕ)
        → IsTop n w k
        → bit_at w n ≡ false
        → (j : ℕ) → k < j
        → j < suc n
        → bit_at w j ≡ false
    above n w k top e j h l = ground (arith, top.2 j)

-- Bit `b` is set, and no bit from `k` up to below `b`.
abbrev pub IsLow : ℕ → ℕ → ℕ → Type 0
IsLow k w b = (k ≤ b) × (bit_at w b ≡ true) × ((j : ℕ) → k ≤ j → j < b → bit_at w j ≡ false)

-- The count of trailing zeros among n bits from bit k on points to the lowest set one of them, if
-- there is one.
pub ctz_lem :
    (n k w : ℕ)
    → ((j : ℕ) → k ≤ j → j < k + n → bit_at w j ≡ false)
      ⊎ ((b : ℕ) × (k + ctz n k w ≡ b) × (b < k + n) × IsLow k w b)
unfolding ctz
ctz_lem zero k w = inl (λ j h l. absurd (omega arith))
ctz_lem (suc n) k w = elim (Bool-cases (bit_at w k)) [
  | inl e ↦
      inr (k, rw e (omega arith), omega arith, (omega arith, e, λ j h l. absurd (omega arith)))
  | inr e ↦ elim (ctz_lem n (suc k) w) [
    | inl clear ↦ inl (λ j h l. extend n k w clear e j h l)
    | inr (b, c, l, low) ↦ inr (
      b,
      rw e (omega (arith, c)),
      omega (arith, l),
      (omega (arith, low.0), low.1, λ j h l. below k w b low e j h l),
    )
  ]
]
  where
    extend :
        (n k w : ℕ)
        → ((j : ℕ) → suc k ≤ j → j < suc k + n → bit_at w j ≡ false)
        → bit_at w k ≡ false
        → (j : ℕ) → k ≤ j
        → j < k + suc n
        → bit_at w j ≡ false
    extend n k w clear e j h l = ground (arith, clear j)

    below :
        (k w b : ℕ)
        → IsLow (suc k) w b
        → bit_at w k ≡ false
        → (j : ℕ) → k ≤ j
        → j < b
        → bit_at w j ≡ false
    below k w b low e j h l = ground (arith, low.2 j)
