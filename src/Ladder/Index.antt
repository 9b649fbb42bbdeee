-- ===== src/Ladder/Index.antt =====
-- Prices and indices of a ladder.
use cpp_orderbook_engine.Prelude.{
  ℕ, ◌<◌, ◌≡◌, refl, ◌⊎◌, inl, inr, pos, negsuc, ◌+ℤ◌, ◌-ℤ◌, ◌*ℤ◌, ◌/ℤ◌, ◌<ℤ◌, ◌≤ℤ◌, arith, ap, sym,
  ◌∙◌, sub-zero, div-one,
}
use native.Mathlib.Decide.{dec_lt}
use cpp_orderbook_engine.Types.{Price}
use cpp_orderbook_engine.Ladder.{PriceLadder, price_to_index, index_to_price}

-- The ladders of the engine: the index of a price is the price.
pub record IsUnit (l : PriceLadder) : Type 0 where
  pub base : l.base_price ≡ pos 0
  pub tick : l.tick_size ≡ pos 1

-- In a ladder of base price 0 and tick size 1 a price is its own index if it is one of 0 to
-- max_levels - 1, and has the index -1 exactly if it is below or above them.
pub index_cases :
    (l : PriceLadder) (p : Price)
    → IsUnit l
    → ((price_to_index l p ≡ negsuc 0) × ((p <ℤ pos 0) ⊎ (pos l.max_levels ≤ℤ p)))
      ⊎ ((i : ℕ) × (p ≡ pos i) × (i < l.max_levels) × (price_to_index l p ≡ pos i))
unfolding price_to_index
index_cases l (negsuc n) u =
    let e : ((negsuc n -ℤ pos 0) /ℤ pos 1) ≡ negsuc n =
      ap (λ q. q /ℤ pos 1) (sub-zero (negsuc n)) ∙ div-one (negsuc n) in
    inl (rw (u.base, u.tick, e) (ground arith), inl (omega arith))
index_cases l (pos n) u =
    let e : ((pos n -ℤ pos 0) /ℤ pos 1) ≡ pos n =
      ap (λ q. q /ℤ pos 1) (sub-zero (pos n)) ∙ div-one (pos n) in
    rw (u.base, u.tick, e)
      (elim (dec_lt n l.max_levels) [
        | yes h ↦ inr (n, refl, h, ground arith)
        | no h ↦ inl (ground arith, inr (omega arith))
      ])

pub index_to_price-unit : (l : PriceLadder) (i : ℕ) → IsUnit l → index_to_price l (pos i) ≡ pos i
unfolding index_to_price ◌+ℤ◌ ◌*ℤ◌
index_to_price-unit l i u = rw (u.base, u.tick) (ground arith)

pub unit_index :
    (l : PriceLadder) (i : ℕ) → IsUnit l → i < l.max_levels → price_to_index l (pos i) ≡ pos i
unit_index l i u h = elim (index_cases l (pos i) u) [
  | inl (_, inl low) ↦ absurd (omega arith)
  | inl (_, inr high) ↦ absurd (omega arith)
  | inr (j, e, _, r) ↦ r ∙ sym e
]
