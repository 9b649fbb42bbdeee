-- ===== src/Ladder/Side.antt =====
-- One side of the book: a ladder whose levels hold given queues of orders.
use cpp_orderbook_engine.Prelude.{
  ℕ, ◌<◌, ◌≡◌, ◌≢◌, refl, ◌⊎◌, inl, inr, ℤ, pos, negsuc, Bool, true, false, ◌==◌, arith, ◌∙◌,
  update, List, [], ◌∷◌, ◌++◌, has, Bool-cases,
}
use cpp_orderbook_engine.Order.{Slot, Orders}
use cpp_orderbook_engine.Bitset
use cpp_orderbook_engine.Bitset.{DynamicBitset, test}
use cpp_orderbook_engine.Bitset.Laws
use cpp_orderbook_engine.Bitset.Laws.{test-set_at, test-clear_at, set-IsValid, clear-IsValid}
use cpp_orderbook_engine.Level
use cpp_orderbook_engine.Level.{PriceLevelList}
use cpp_orderbook_engine.Level.Seg.{
  IsLevel, IsLevel-frame, SameLinks, SameOutside, front_lem, empty_lem,
}
use cpp_orderbook_engine.Level.Push.{push_back_lem}
use cpp_orderbook_engine.Level.Remove.{remove_lem}
use cpp_orderbook_engine.Ladder.{PriceLadder, set_level, mark_empty, mark_occupied}
use cpp_orderbook_engine.Ladder.Index.{IsUnit}

-- The orders of each level of one side, the oldest first.
abbrev pub Queues : Type 0
Queues = ℕ → List Slot

abbrev pub nonempty : List Slot → Bool
nonempty [] = false
nonempty (_ ∷ _) = true

pub record IsLadder (mem : Orders) (l : PriceLadder) (q : Queues) : Type 0 where
  pub unit : IsUnit l
  pub bits : Laws.IsValid l.occupied_bits
  pub width : l.occupied_bits.num_bits ≡ l.max_levels
  pub level : (i : ℕ) → IsLevel mem (l.levels i) (q i)
  pub occupied : (i : ℕ) → test l.occupied_bits (pos i) ≡ nonempty (q i)

-- Levels share no order.
abbrev pub Apart : Queues → ℕ → Type 0
Apart q i = (j : ℕ) (a : Slot) → j ≢ i → has a (q j) ≡ true → has a (q i) ≡ false

-- A side survives a change that spares the links of its orders.
pub IsLadder-frame :
    {mem mem' : Orders} {l : PriceLadder} {q : Queues}
    → IsLadder mem l q
    → ((i : ℕ) (a : Slot) → has a (q i) ≡ true → SameLinks mem mem' a)
    → IsLadder mem' l q
IsLadder-frame v same = record {
  unit = v.unit;
  bits = v.bits;
  width = v.width;
  level = λ i. IsLevel-frame (v.level i) (same i);
  occupied = v.occupied;
}

empty-nonempty :
    {mem : Orders} {level : PriceLevelList} (xs : List Slot)
    → IsLevel mem level xs
    → (Level.empty level ≡ true) × (nonempty xs ≡ false)
      ⊎ (Level.empty level ≡ false) × (nonempty xs ≡ true)
empty-nonempty [] v = inl ((empty_lem v).1, refl)
empty-nonempty (x ∷ xs) v = inr ((front_lem v).1, refl)

-- The queues after a change of one.
updated-IsLevel :
    {mem' : Orders} {levels : ℕ → PriceLevelList} {q : Queues} (i : ℕ) {level : PriceLevelList}
    {xs : List Slot}
    → IsLevel mem' level xs
    → ((j : ℕ) → j ≢ i → IsLevel mem' (levels j) (q j))
    → (j : ℕ) → IsLevel mem' (update levels i level j) (update q i xs j)
updated-IsLevel i here there j = elim (Bool-cases (j == i)) [
  | inl e ↦ rw e here
  | inr e ↦ rw e (there j (ground arith))
]

-- A side but for the mark of level `i`.
record Unmarked (mem : Orders) (l : PriceLadder) (q : Queues) (i : ℕ) : Type 0 where
  unit : IsUnit l
  bits : Laws.IsValid l.occupied_bits
  width : l.occupied_bits.num_bits ≡ l.max_levels
  level : (j : ℕ) → IsLevel mem (l.levels j) (q j)
  others : (j : ℕ) → j ≢ i → test l.occupied_bits (pos j) ≡ nonempty (q j)

num_bits-clear : (b : DynamicBitset) (i : ℤ) → (Bitset.clear b i).num_bits ≡ b.num_bits
unfolding Bitset.clear
num_bits-clear b (pos i) = ground arith
num_bits-clear b (negsuc i) = refl

num_bits-set : (b : DynamicBitset) (i : ℤ) → (Bitset.set b i).num_bits ≡ b.num_bits
unfolding Bitset.set
num_bits-set b (pos i) = ground arith
num_bits-set b (negsuc i) = refl

marked_empty :
    {mem : Orders} {l : PriceLadder} {q : Queues} (i : ℕ)
    → Unmarked mem l q i
    → test l.occupied_bits (pos i) ≡ true
    → IsLadder mem (mark_empty l i) q
unfolding mark_empty
marked_empty {l} {q} i v was = elim (empty-nonempty (q i) (v.level i)) [
  | inl (e, n) ↦ rw e (record {
    unit = record { base = v.unit.base; tick = v.unit.tick };
    bits = clear-IsValid (pos i) v.bits;
    width = num_bits-clear l.occupied_bits (pos i) ∙ v.width;
    level = v.level;
    occupied = λ j. elim (Bool-cases (j == i)) [
      | inl here ↦ ground (arith, test-clear_at l.occupied_bits i j v.bits)
      | inr there ↦ ground (arith, test-clear_at l.occupied_bits i j v.bits, v.others j)
    ];
  })
  | inr (e, n) ↦ rw e (record {
    unit = v.unit;
    bits = v.bits;
    width = v.width;
    level = v.level;
    occupied = λ j. elim (Bool-cases (j == i)) [
      | inl here ↦ ground (arith)
      | inr there ↦ v.others j (ground arith)
    ];
  })
]

marked_occupied :
    {mem : Orders} {l : PriceLadder} {q : Queues} (i : ℕ)
    → Unmarked mem l q i
    → i < l.max_levels
    → nonempty (q i) ≡ true
    → IsLadder mem (mark_occupied l i) q
unfolding mark_occupied
marked_occupied {l} {q} i v h n = record {
  unit = record { base = v.unit.base; tick = v.unit.tick };
  bits = set-IsValid (pos i) v.bits;
  width = num_bits-set l.occupied_bits (pos i) ∙ v.width;
  level = v.level;
  occupied = λ j. elim (Bool-cases (j == i)) [
    | inl here ↦ ground (arith, test-set_at l.occupied_bits i j, v.width)
    | inr there ↦ ground (arith, test-set_at l.occupied_bits i j, v.others j)
  ];
}

-- A side in which one level has been replaced.
replaced :
    {mem mem' : Orders} {l : PriceLadder} {q : Queues} (i : ℕ) (level : PriceLevelList)
    (touched xs : List Slot)
    → IsLadder mem l q
    → IsLevel mem' level xs
    → SameOutside touched mem mem'
    → ((j : ℕ) (a : Slot) → j ≢ i → has a (q j) ≡ true → has a touched ≡ false)
    → Unmarked mem' (set_level l i level) (update q i xs) i
replaced {mem} {mem'} {l} {q} i level touched xs v here outside apart = record {
  unit = record { base = v.unit.base; tick = v.unit.tick };
  bits = v.bits;
  width = v.width;
  level = updated-IsLevel i here (λ j ne. IsLevel-frame (v.level j) (λ a h. same j a ne h));
  others = λ j ne. ground (arith, v.occupied j);
}
  where
    same : (j : ℕ) (a : Slot) → j ≢ i → has a (q j) ≡ true → SameLinks mem mem' a
    same j a ne h = let e = outside a (apart j a ne h) in (rw e refl, rw e refl)

-- Removing an order from its level and then clearing the mark of a level that this empties keeps
-- a side of the book consistent: the level holds its other orders in their order, the other
-- levels, which share no order with it, are as before, and a level is marked exactly if it holds
-- orders.
pub IsLadder-remove :
    {mem : Orders} {l : PriceLadder} {q : Queues} (i : ℕ) (ys : List Slot) (o : Slot)
    (zs : List Slot)
    → IsLadder mem l q
    → q i ≡ ys ++ o ∷ zs
    → Apart q i
    → let r = Level.remove mem (l.levels i) o in
      IsLadder r.0 (mark_empty (set_level l i r.1) i) (update q i (ys ++ zs))
IsLadder-remove {mem} {l} {q} i ys o zs v e apart =
    let here : IsLevel mem (l.levels i) (ys ++ o ∷ zs) = rw e at (v.level i) in
    let (level, values, outside) = remove_lem ys o zs here in
    marked_empty i
      (replaced i _ (ys ++ o ∷ zs) (ys ++ zs) v level outside
        (λ j a ne h. rw e at (apart j a ne h)))
      (v.occupied i ∙ rw e (some_left ys))
  where
    some_left : (ys : List Slot) → nonempty (ys ++ o ∷ zs) ≡ true
    some_left [] = refl
    some_left (_ ∷ _) = refl

-- Appending an order that is on no level to a level in range, and marking it, keeps a side of the
-- book consistent, whose levels share no orders: the order is the newest of its level, the other
-- levels are as before, and a level is marked exactly if it holds orders.
pub IsLadder-push :
    {mem : Orders} {l : PriceLadder} {q : Queues} (i : ℕ) (o : Slot)
    → IsLadder mem l q
    → i < l.max_levels
    → ((j : ℕ) → has o (q j) ≡ false)
    → Apart q i
    → let r = Level.push_back mem (l.levels i) o in
      IsLadder r.0 (mark_occupied (set_level l i r.1) i) (update q i (q i ++ o ∷ []))
IsLadder-push {mem} {l} {q} i o v h new apart =
    let (level, values, outside) = push_back_lem o (v.level i) (new i) in
    marked_occupied i
      (replaced i _ (o ∷ q i) (q i ++ o ∷ []) v level outside
        (λ j a ne k. ground (arith, new j, apart j a)))
      h (some_left (q i))
  where
    some_left : (ys : List Slot) → nonempty (update q i (ys ++ o ∷ []) i) ≡ true
    some_left [] = ground arith
    some_left (_ ∷ _) = ground arith

-- A level that holds orders is in range.
pub in_range :
    {mem : Orders} {l : PriceLadder} {q : Queues} (i : ℕ)
    → IsLadder mem l q
    → nonempty (q i) ≡ true
    → i < l.max_levels
unfolding test
in_range {l} i v e = ground (arith, v.occupied i, v.width)
