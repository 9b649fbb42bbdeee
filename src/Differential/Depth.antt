-- ===== src/Differential/Depth.antt =====
-- Engines that agree give the same depth.
use cpp_orderbook_engine.Prelude.{
  ℕ, ◌<◌, ◌≡◌, refl, sym, ◌∙◌, ap, pos, ◌+ℤ◌, int64, ◌==ℤ◌, some, none, List, [], ◌∷◌, Bool-cases,
  inl, inr,
}
use cpp_orderbook_engine.Types.{Side, Quantity}
use cpp_orderbook_engine.Order.{Slot, Orders}
use cpp_orderbook_engine.Engine
use cpp_orderbook_engine.Engine.{MatchingEngine, ladder, sum_remaining}
use cpp_orderbook_engine.Engine.Depth.{resting_quantity-walk}
use cpp_orderbook_engine.Engine.Abstract.{entries_of}
use cpp_orderbook_engine.Spec.{Entry}
use cpp_orderbook_engine.Reference
use cpp_orderbook_engine.Reference.{
  Node, Nodes, Levels, ReferenceEngine, find_level, is_done, side_levels, sum_live,
}
use cpp_orderbook_engine.Reference.Shelf.{nodes_at, live_entries, book_of}
use cpp_orderbook_engine.Differential.{Agrees}

-- The walk of either engine over the entries of a level.
sum_entries : Quantity → List Entry → Quantity
sum_entries total [] = total
sum_entries total (x ∷ xs) = sum_entries (int64 (total +ℤ x.remaining)) xs

sum_remaining-entries :
    (mem : Orders) (total : Quantity) (xs : List Slot)
    → sum_remaining mem total xs ≡ sum_entries total (entries_of mem xs)
unfolding sum_remaining sum_entries
sum_remaining-entries mem total [] = refl
sum_remaining-entries mem total (x ∷ xs) =
    sum_remaining-entries mem (int64 (total +ℤ (mem x).remaining)) xs

sum_live-entries :
    (nodes : Nodes) (total : Quantity) (xs : List Node)
    → sum_live nodes total xs ≡ sum_entries total (live_entries nodes xs)
unfolding sum_live sum_entries
sum_live-entries nodes total [] = refl
sum_live-entries nodes total (x ∷ xs) = elim (Bool-cases (is_done (nodes x).status)) [
  | inl d ↦ rw d (sum_live-entries nodes total xs)
  | inr d ↦ rw d (sum_live-entries nodes (int64 (total +ℤ (nodes x).remaining)) xs)
]

-- The level that the map finds.
found_level :
    (nodes : Nodes) (ls : Levels) (i : ℕ)
    → elim (find_level (pos i) ls) [ none ↦ pos 0 | some level ↦ sum_live nodes (pos 0) level ]
      ≡ sum_live nodes (pos 0) (nodes_at ls i)
unfolding find_level sum_live
found_level nodes [] i = refl
found_level nodes ((p, level) ∷ ls) i = elim (Bool-cases (p ==ℤ pos i)) [
  | inl e ↦ rw e refl
  | inr e ↦ rw e (found_level nodes ls i)
]

reference_depth :
    (r : ReferenceEngine) (side : Side) (i : ℕ)
    → Reference.resting_quantity r side (pos i) ≡ sum_entries (pos 0) (book_of r side i)
unfolding Reference.resting_quantity
reference_depth r side i =
    found_level r.nodes (side_levels side r) i
    ∙ sum_live-entries r.nodes (pos 0) (nodes_at (side_levels side r) i)

-- Engines that agree give the same resting quantity for each side at every price within the
-- ladder, and the walk over the engine's level ends within its fuel.
pub resting_quantity-Agrees :
    (e : MatchingEngine) (r : ReferenceEngine) (side : Side) (i : ℕ)
    → Agrees e r
    → i < (ladder side e).max_levels
    → Engine.resting_quantity e side (pos i) ≡ some (Reference.resting_quantity r side (pos i))
resting_quantity-Agrees e r side i s h =
    resting_quantity-walk e s.free s.book side i s.booked h
    ∙ ap some (
        sum_remaining-entries e.pool.pool (pos 0) (s.book side i)
        ∙ ap (λ b. sum_entries (pos 0) (b side i)) s.same
        ∙ sym (reference_depth r side i))
