-- ===== src/Ladder/Tests.antt =====
-- The theorems on the ladder at a ladder of 100 levels.
use cpp_orderbook_engine.Prelude.{
  ℕ, ◌<◌, ◌≡◌, refl, ◌⊎◌, pos, negsuc, ◌<ℤ◌, ◌≤ℤ◌, [], ◌∷◌, ◌++◌, arith, update,
}
use cpp_orderbook_engine.Order.{Orders, fresh_order}
use cpp_orderbook_engine.Bitset.{bitset}
use cpp_orderbook_engine.Bitset.Laws.{bitset-IsValid, test-bitset}
use cpp_orderbook_engine.Level
use cpp_orderbook_engine.Level.Seg.{nil}
use cpp_orderbook_engine.Ladder.{
  PriceLadder, price_ladder, price_to_index, set_level, mark_occupied, mark_empty,
}
use cpp_orderbook_engine.Ladder.Index.{IsUnit, index_cases}
use cpp_orderbook_engine.Ladder.Side.{Queues, Apart, IsLadder, IsLadder-push, IsLadder-remove}

abbrev ladder : PriceLadder
ladder = price_ladder 100

abbrev storage : Orders
storage _ = fresh_order

abbrev no_orders : Queues
no_orders _ = []

ladder-IsUnit : IsUnit ladder
unfolding price_ladder
ladder-IsUnit = record { base = refl; tick = refl }

index_cases_example :
    ((price_to_index ladder (pos 120) ≡ negsuc 0)
      × ((pos 120 <ℤ pos 0) ⊎ (pos ladder.max_levels ≤ℤ pos 120)))
    ⊎ ((i : ℕ) × (pos 120 ≡ pos i)
        × (i < ladder.max_levels)
        × (price_to_index ladder (pos 120) ≡ pos i))
index_cases_example = index_cases ladder (pos 120) ladder-IsUnit

ladder-IsLadder : IsLadder storage ladder no_orders
unfolding price_ladder bitset
ladder-IsLadder = record {
  unit = ladder-IsUnit;
  bits = bitset-IsValid 100;
  width = refl;
  level = λ i. record { chain = nil refl refl; distinct = tt; counted = refl };
  occupied = λ i. test-bitset 100 (pos i);
}

in_range : 12 < ladder.max_levels
unfolding price_ladder
in_range = omega arith

abbrev pushed : Orders × Level.PriceLevelList
pushed = Level.push_back storage (ladder.levels 12) 3

abbrev one_order : PriceLadder
one_order = mark_occupied (set_level ladder 12 pushed.1) 12

IsLadder-push_example : IsLadder pushed.0 one_order (update no_orders 12 ([] ++ 3 ∷ []))
IsLadder-push_example = IsLadder-push 12 3 ladder-IsLadder in_range (λ j. refl) (λ j a ne h. refl)

one_order-Apart : Apart (update no_orders 12 (3 ∷ [])) 12
one_order-Apart j a ne h = absurd (ground arith)

IsLadder-remove_example :
    let r = Level.remove pushed.0 (one_order.levels 12) 3 in
    IsLadder r.0
      (mark_empty (set_level one_order 12 r.1) 12)
      (update (update no_orders 12 (3 ∷ [])) 12 ([] ++ []))
IsLadder-remove_example =
    IsLadder-remove 12 [] 3 []
      (IsLadder-push 12 3 ladder-IsLadder in_range (λ j. refl) (λ j a ne h. refl)) refl
      one_order-Apart
