-- ===== src/Level/Tests.antt =====
-- The theorems on the order list at a list of three orders.
use cpp_orderbook_engine.Prelude.{◌≡◌, refl, some, [], ◌∷◌, ◌++◌}
use cpp_orderbook_engine.Order.{Orders, fresh_order}
use cpp_orderbook_engine.Level.{PriceLevelList, empty_level, push_back, remove, for_each}
use cpp_orderbook_engine.Level.Seg.{IsLevel, nil, SameValues, SameOutside}
use cpp_orderbook_engine.Level.Push.{push_back_lem}
use cpp_orderbook_engine.Level.Remove.{remove_lem}
use cpp_orderbook_engine.Level.Walk.{for_each_lem}

abbrev storage : Orders
storage _ = fresh_order

empty_level-IsLevel : IsLevel storage empty_level []
empty_level-IsLevel = record { chain = nil refl refl; distinct = tt; counted = refl }

-- Orders 4, 7 and 2 are pushed.
abbrev one : Orders × PriceLevelList
one = push_back storage empty_level 4

abbrev two : Orders × PriceLevelList
two = push_back one.0 one.1 7

abbrev three : Orders × PriceLevelList
three = push_back two.0 two.1 2

one-IsLevel : IsLevel one.0 one.1 (4 ∷ [])
one-IsLevel = (push_back_lem 4 empty_level-IsLevel refl).0

two-IsLevel : IsLevel two.0 two.1 (4 ∷ 7 ∷ [])
two-IsLevel = (push_back_lem 7 one-IsLevel refl).0

three-IsLevel : IsLevel three.0 three.1 (4 ∷ 7 ∷ 2 ∷ [])
three-IsLevel = (push_back_lem 2 two-IsLevel refl).0

push_back_lem_example :
    IsLevel (push_back two.0 two.1 2).0 (push_back two.0 two.1 2).1 ((4 ∷ 7 ∷ []) ++ 2 ∷ [])
    × SameValues two.0 (push_back two.0 two.1 2).0
    × SameOutside (2 ∷ 4 ∷ 7 ∷ []) two.0 (push_back two.0 two.1 2).0
push_back_lem_example = push_back_lem 2 two-IsLevel refl

remove_lem_example :
    IsLevel (remove three.0 three.1 7).0 (remove three.0 three.1 7).1 ((4 ∷ []) ++ 2 ∷ [])
    × SameValues three.0 (remove three.0 three.1 7).0
    × SameOutside ((4 ∷ []) ++ 7 ∷ 2 ∷ []) three.0 (remove three.0 three.1 7).0
remove_lem_example = remove_lem (4 ∷ []) 7 (2 ∷ []) three-IsLevel

for_each_lem_example : for_each three.0 three.1 ≡ some (4 ∷ 7 ∷ 2 ∷ [])
for_each_lem_example = for_each_lem three-IsLevel
