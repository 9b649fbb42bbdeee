-- ===== src/Level/Walk.antt =====
-- `for_each` visits the orders of a level from the oldest to the newest.
use cpp_orderbook_engine.Prelude.{ℕ, zero, suc, ◌<◌, ◌≡◌, none, some, List, [], ◌∷◌, arith, length}
use cpp_orderbook_engine.Order.{Slot, Ptr, Orders}
use cpp_orderbook_engine.Level.{PriceLevelList, walk, for_each}
use cpp_orderbook_engine.Level.Seg.{Seg, nil, cons, IsLevel}

walk_lem :
    {mem : Orders} {last before p : Ptr} (fuel : ℕ) (xs : List Slot)
    → Seg mem none last before xs p
    → length xs < fuel
    → walk fuel mem p ≡ some xs
unfolding walk
walk_lem zero xs s h = absurd (omega arith)
walk_lem (suc fuel) [] (nil e l) h = rw e
walk_lem (suc fuel) (x ∷ xs) (cons e p s) h = rw (e, walk, walk_lem fuel xs s (omega arith))

-- `for_each` ends and visits exactly the orders of the level, the oldest first.
pub for_each_lem :
    {mem : Orders} {l : PriceLevelList} {xs : List Slot}
    → IsLevel mem l xs
    → for_each mem l ≡ some xs
unfolding for_each
for_each_lem {l} {xs} v = walk_lem (suc l.size) xs v.chain (omega (arith, v.counted))
