-- ===== src/Level/Seg.antt =====
-- Segments of a doubly linked list.
use cpp_orderbook_engine.Prelude.{
  ◌≡◌, refl, ◌∙◌, true, false, none, some, List, [], ◌∷◌, ◌++◌, arith, has, Distinct, length,
}
use cpp_orderbook_engine.Order.{Slot, Ptr, Order, Orders}
use cpp_orderbook_engine.Level.{PriceLevelList, front, empty}

-- From `first` the `next` pointers lead through the slots `xs` to `stop`; the `prev` pointers lead
-- back to `before`. `last` is the slot before `stop`.
pub data Seg (mem : Orders) (stop last : Ptr) : Ptr → List Slot → Ptr → Type 0 where
  nil : {before first : Ptr} → first ≡ stop → last ≡ before → Seg mem stop last before [] first
  cons :
      {before first : Ptr} {x : Slot} {xs : List Slot}
      → first ≡ some x
      → (mem x).prev ≡ before
      → Seg mem stop last (some x) xs (mem x).next
      → Seg mem stop last before (x ∷ xs) first

-- A level that holds the slots `xs`, the oldest first.
pub record IsLevel (mem : Orders) (l : PriceLevelList) (xs : List Slot) : Type 0 where
  pub chain : Seg mem none l.tail none xs l.head
  pub distinct : Distinct xs
  pub counted : l.size ≡ length xs

-- What an order holds besides its links.
abbrev pub values : Order → Order
values o = record o { prev = none; next = none }

-- No order changes but in its links.
abbrev pub SameValues : Orders → Orders → Type 0
SameValues mem mem' = (a : Slot) → values (mem' a) ≡ values (mem a)

-- No slot out of `xs` changes.
abbrev pub SameOutside : List Slot → Orders → Orders → Type 0
SameOutside xs mem mem' = (a : Slot) → has a xs ≡ false → mem' a ≡ mem a

-- Two storages have the same links at a slot.
abbrev pub SameLinks : Orders → Orders → Slot → Type 0
SameLinks mem mem' a = ((mem' a).prev ≡ (mem a).prev) × ((mem' a).next ≡ (mem a).next)

-- A segment survives a change that spares the links of its slots.
pub frame :
    {mem mem' : Orders} {stop last before first : Ptr} {xs : List Slot}
    → Seg mem stop last before xs first
    → ((a : Slot) → has a xs ≡ true → SameLinks mem mem' a)
    → Seg mem' stop last before xs first
frame (nil f l) same = nil f l
frame (cons {x} f p s) same =
    let (sp, sn) = same x (ground arith) in
    cons f (sp ∙ p) (rw sn (frame s (λ a h. same a (ground arith))))

-- A segment of two lists is a segment of the first and one of the second.
pub split :
    {mem : Orders} {stop last before first : Ptr} (xs ys : List Slot)
    → Seg mem stop last before (xs ++ ys) first
    → (mid : Ptr) × (end : Ptr) × Seg mem mid end before xs first × Seg mem stop last end ys mid
split {before} {first} [] ys s = (first, before, nil refl refl, s)
split (x ∷ xs) ys (cons f p s) =
    let (mid, end, s1, s2) = split xs ys s in (mid, end, cons f p s1, s2)

pub join :
    {mem : Orders} {stop last mid end before first : Ptr} {xs ys : List Slot}
    → Seg mem mid end before xs first
    → Seg mem stop last end ys mid
    → Seg mem stop last before (xs ++ ys) first
join (nil f e) s = rw (f, ← e) s
join (cons f p s1) s2 = cons f p (join s1 s2)

-- The first slot of a segment that is not empty, and its last one.
pub first_of :
    {mem : Orders} {stop last before first : Ptr} {x : Slot} {xs : List Slot}
    → Seg mem stop last before (x ∷ xs) first
    → first ≡ some x
first_of (cons f p s) = f

pub last_of :
    {mem : Orders} {stop last before first : Ptr} (x : Slot) (xs : List Slot)
    → Seg mem stop last before (x ∷ xs) first
    → (t : Slot) × (last ≡ some t) × (has t (x ∷ xs) ≡ true)
last_of x [] (cons f p (nil e l)) = (x, l, ground arith)
last_of x (y ∷ ys) (cons f p s) = let (t, e, h) = last_of y ys s in (t, e, ground arith)

pub first_of_nil :
    {mem : Orders} {stop last before first : Ptr}
    → Seg mem stop last before [] first
    → (first ≡ stop) × (last ≡ before)
first_of_nil (nil f l) = (f, l)

-- The front of a level is its oldest order; the level is empty exactly if it holds none.
pub front_lem :
    {mem : Orders} {l : PriceLevelList} {x : Slot} {xs : List Slot}
    → IsLevel mem l (x ∷ xs)
    → (front l ≡ some x) × (empty l ≡ false)
front_lem v = let e = first_of v.chain in (e, ground arith)

pub empty_lem :
    {mem : Orders} {l : PriceLevelList} → IsLevel mem l [] → (front l ≡ none) × (empty l ≡ true)
empty_lem v = let e = (first_of_nil v.chain).0 in (e, ground arith)

-- A level survives a change that spares the links of its slots.
pub IsLevel-frame :
    {mem mem' : Orders} {l : PriceLevelList} {xs : List Slot}
    → IsLevel mem l xs
    → ((a : Slot) → has a xs ≡ true → SameLinks mem mem' a)
    → IsLevel mem' l xs
IsLevel-frame v same = record {
  chain = frame v.chain same;
  distinct = v.distinct;
  counted = v.counted;
}
