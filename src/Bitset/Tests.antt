-- ===== src/Bitset/Tests.antt =====
-- The theorems on bits and bitsets at a bitset of 200 bits that holds 3, 70 and 150.
use cpp_orderbook_engine.Prelude.{◌≡◌, pos, false, ◌==ℤ◌, if◌then◌else◌}
use cpp_orderbook_engine.Bitset.{DynamicBitset, bitset, set, clear, test, find_highest, find_lowest}
use cpp_orderbook_engine.Bitset.Laws.{
  IsValid, bitset-IsValid, set-IsValid, inside, test-set, test-clear,
}
use cpp_orderbook_engine.Bitset.Find.{
  IsHighest, IsLowest, find_highest-IsHighest, find_lowest-IsLowest,
}

abbrev three : DynamicBitset
three = set (set (set (bitset 200) (pos 70)) (pos 150)) (pos 3)

three-IsValid : IsValid three
three-IsValid =
    set-IsValid (pos 3) (set-IsValid (pos 150) (set-IsValid (pos 70) (bitset-IsValid 200)))

test-set_example :
    test (set three (pos 199)) (pos 70)
    ≡ (if pos 70 ==ℤ pos 199 then inside three (pos 199) else test three (pos 70))
test-set_example = test-set three (pos 199) (pos 70)

test-clear_example :
    test (clear three (pos 70)) (pos 70)
    ≡ (if pos 70 ==ℤ pos 70 then false else test three (pos 70))
test-clear_example = test-clear three (pos 70) (pos 70) three-IsValid

find_highest-IsHighest_example : IsHighest three (find_highest three)
find_highest-IsHighest_example = find_highest-IsHighest three three-IsValid

find_lowest-IsLowest_example : IsLowest three (find_lowest three)
find_lowest-IsLowest_example = find_lowest-IsLowest three three-IsValid
