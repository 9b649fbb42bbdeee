-- ===== src/Engine/Depth.antt =====
-- The quantity that rests at a price.
use cpp_orderbook_engine.Prelude.{
  ℕ, ◌<◌, ◌^◌, ◌≡◌, refl, ap, ◌∙◌, ℤ, pos, negsuc, ◌+ℤ◌, ◌≤ℤ◌, ◌<ℤ◌, int64, int64-fits, int_laws,
  arith, true, false, some, List, [], ◌∷◌, has, Bool-cases, subst, ◌⊎◌, inl, inr,
}
use cpp_orderbook_engine.Types.{Side, Price, Quantity}
use cpp_orderbook_engine.Order.{Slot, Orders}
use cpp_orderbook_engine.Level.Walk.{for_each_lem}
use cpp_orderbook_engine.Ladder.Index.{unit_index, index_cases}
use cpp_orderbook_engine.Ladder.Side.{nonempty, in_range}
use cpp_orderbook_engine.Engine.{MatchingEngine, ladder, sum_remaining, resting_quantity}
use cpp_orderbook_engine.Engine.Book.{Book, IsBook, IsPositive}
use cpp_orderbook_engine.Engine.Abstract.{entries_of, entries}
use cpp_orderbook_engine.Spec.{Entry, Entries}

-- The sum of what is left of some entries, as an integer without a bound.
abbrev pub quantity_left : List Entry → ℤ
quantity_left [] = pos 0
quantity_left (x ∷ xs) = x.remaining +ℤ quantity_left xs

-- What is left at a price: nothing at a negative one.
abbrev pub left_at : Entries → Side → Price → ℤ
left_at b side (pos i) = quantity_left (b side i)
left_at b side (negsuc _) = pos 0

pub resting_quantity-walk :
    (e : MatchingEngine) (free : List Slot) (q : Book) (side : Side) (i : ℕ)
    → IsBook e free q
    → i < (ladder side e).max_levels
    → resting_quantity e side (pos i) ≡ some (sum_remaining e.pool.pool (pos 0) (q side i))
unfolding resting_quantity
resting_quantity-walk e free q side i v h =
    let l = v.sides side in
    rw (resting_quantity, unit_index (ladder side e) i l.unit h, for_each_lem (l.level i)) refl

-- Every slot of a list has a positive quantity left.
abbrev AllPositive : Orders → List Slot → Type 0
AllPositive mem xs = (s : Slot) → has s xs ≡ true → pos 0 <ℤ (mem s).remaining

quantity_left-natural :
    (mem : Orders) (xs : List Slot)
    → AllPositive mem xs
    → pos 0 ≤ℤ quantity_left (entries_of mem xs)
quantity_left-natural mem [] p = omega arith
quantity_left-natural mem (x ∷ xs) p =
    let rest = quantity_left-natural mem xs (λ s h. p s (ground arith)) in
    omega (int_laws, rest, p x (ground arith))

-- No addition of the walk overflows if the whole sum fits.
sum_remaining_lem :
    (mem : Orders) (total : Quantity) (xs : List Slot)
    → AllPositive mem xs
    → pos 0 ≤ℤ total
    → total +ℤ quantity_left (entries_of mem xs) <ℤ pos (2 ^ 63)
    → sum_remaining mem total xs ≡ total +ℤ quantity_left (entries_of mem xs)
unfolding sum_remaining
sum_remaining_lem mem total [] p n f = omega int_laws
sum_remaining_lem mem total (x ∷ xs) p n f =
    let p' : AllPositive mem xs = λ s h. p s (ground arith) in
    let r = (mem x).remaining in
    let rest = quantity_left (entries_of mem xs) in
    let natural = quantity_left-natural mem xs p' in
    let here = p x (ground arith) in
    let assoc : total +ℤ (r +ℤ rest) ≡ total +ℤ r +ℤ rest = omega int_laws in
    let kept : int64 (total +ℤ r) ≡ total +ℤ r =
      int64-fits (total +ℤ r) (omega (int_laws, here)) (omega (int_laws, here, natural)) in
    rw (kept, assoc)
      (sum_remaining_lem mem (total +ℤ r) xs p' (omega (int_laws, here)) (omega int_laws))

none_left :
    (mem : Orders) (xs : List Slot)
    → nonempty xs ≡ false
    → pos 0 ≡ quantity_left (entries_of mem xs)
none_left mem [] clear = refl
none_left mem (x ∷ xs) clear = absurd (cc)

-- A price without an index has no orders.
nothing_left :
    {e : MatchingEngine} {free : List Slot} {q : Book} (side : Side) (p : Price)
    → IsBook e free q
    → (p <ℤ pos 0) ⊎ (pos (ladder side e).max_levels ≤ℤ p)
    → pos 0 ≡ left_at (entries e.pool.pool q) side p
nothing_left side (negsuc n) v out = refl
nothing_left {e} {q} side (pos i) v out = elim (Bool-cases (nonempty (q side i))) [
  | inl full ↦ let h = in_range i (v.sides side) full in absurd (ground arith)
  | inr clear ↦ none_left e.pool.pool (q side i) clear
]

-- In a book with the invariant and positive quantities, if what is left of the orders that the
-- book holds at a price adds up to less than 2 ^ 63, `resting_quantity` of this price ends and
-- gives this sum, with no addition wrapped around; this is for every price, and the sum is 0 for
-- one off the ladder.
pub resting_quantity_lem :
    (e : MatchingEngine) (free : List Slot) (q : Book) (side : Side) (p : Price)
    → IsBook e free q
    → IsPositive e.pool.pool q
    → left_at (entries e.pool.pool q) side p <ℤ pos (2 ^ 63)
    → resting_quantity e side p ≡ some (left_at (entries e.pool.pool q) side p)
unfolding resting_quantity
resting_quantity_lem e free q side p v positive f =
    elim (index_cases (ladder side e) p (v.sides side).unit) [
      | inl (r, out) ↦ rw (resting_quantity, r) (ap some (nothing_left side p v out))
      | inr (i, at, h, _) ↦
          let f' = subst (λ w. left_at (entries e.pool.pool q) side w <ℤ pos (2 ^ 63)) at f in
          let zero : pos 0 +ℤ quantity_left (entries e.pool.pool q side i)
              ≡ quantity_left (entries e.pool.pool q side i) =
            omega int_laws in
          let total =
            sum_remaining_lem e.pool.pool (pos 0) (q side i) (positive side i) (omega arith)
              (omega int_laws) in
          rw at (resting_quantity-walk e free q side i v h ∙ ap some (total ∙ zero))
    ]
