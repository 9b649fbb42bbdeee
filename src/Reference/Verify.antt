-- ===== src/Reference/Verify.antt =====
-- The check `verify_invariants` of the reference engine.
use cpp_orderbook_engine.Prelude.{
  ℕ, ◌<◌, ◌^◌, ◌-◌, ◌≡◌, refl, pos, ltb_ℤ, leb_ℤ, true, false, ◌&&◌, arith, ◌⊎◌, inl, inr,
}
use cpp_orderbook_engine.Types.{Side, buy, sell}
use cpp_orderbook_engine.Reference.{ReferenceEngine, Levels, best_bid, best_ask, first_price}
use cpp_orderbook_engine.Reference.Calls.{ascending, descending, verify_invariants}
use cpp_orderbook_engine.Reference.Shelf.{
  all_levels, IsShelved, IsSorted, a_level, no_levels, listed,
}

-- A well-formed engine in which a level is for a price from 1 to 2 ^ 63 - 2, and every bid level is below
-- every ask level, be it without live orders.
pub record IsWell (e : ReferenceEngine) : Type 0 where
  pub shelved : IsShelved e
  pub priced :
      (side : Side) (j : ℕ) → listed (all_levels e side) j ≡ true → (0 < j) × (j < 2 ^ 63 - 1)
  pub apart : (i j : ℕ) → listed e.bids i ≡ true → listed e.asks j ≡ true → i < j

ascending-true :
    (ls : Levels) (i : ℕ)
    → IsSorted sell ls
    → ((j : ℕ) → listed ls j ≡ true → i < j)
    → ascending (pos i) ls ≡ true
unfolding ascending
ascending-true ls i no_levels f = refl
ascending-true ls i (a_level {i = k} {ls = rest} g so) f =
    let l = f k (ground arith) in let below = ascending-true rest k so g in ground arith

descending-true :
    (ls : Levels) (i : ℕ)
    → IsSorted buy ls
    → ((j : ℕ) → listed ls j ≡ true → j < i)
    → descending (pos i) ls ≡ true
unfolding descending
descending-true ls i no_levels f = refl
descending-true ls i (a_level {i = k} {ls = rest} g so) f =
    let l = f k (ground arith) in let below = descending-true rest k so g in ground arith

-- The first price is 0, or one that is listed.
first_cases :
    (s : Side) (ls : Levels)
    → IsSorted s ls
    → (first_price ls ≡ pos 0) ⊎ ((k : ℕ) × (first_price ls ≡ pos k) × (listed ls k ≡ true))
first_cases s ls no_levels = inl refl
first_cases s ls (a_level {i = k} g so) = inr (k, refl, ground arith)

uncrossed :
    (e : ReferenceEngine)
    → IsWell e
    → (ltb_ℤ (pos 0) (best_bid e) && ltb_ℤ (pos 0) (best_ask e) && leb_ℤ (best_ask e) (best_bid e))
      ≡ false
unfolding best_bid best_ask
uncrossed e w = elim (first_cases buy e.bids (w.shelved.sorted buy)) [
  | inl b ↦ rw b refl
  | inr (i, b, hb) ↦ elim (first_cases sell e.asks (w.shelved.sorted sell)) [
    | inl a ↦ rw (b, a) (ground arith)
    | inr (j, a, ha) ↦ let l = w.apart i j hb ha in rw (b, a) (ground arith)
  ]
]

pub verify_invariants-IsWell : (e : ReferenceEngine) → IsWell e → verify_invariants e ≡ true
unfolding verify_invariants
verify_invariants-IsWell e w =
    let a =
      ascending-true e.asks 0 (w.shelved.sorted sell)
        (λ j h. let (l, _) = w.priced sell j h in l) in
    let d =
      descending-true e.bids (2 ^ 63 - 1) (w.shelved.sorted buy)
        (λ j h. let (_, l) = w.priced buy j h in l) in
    rw (uncrossed e w, a, d) refl
