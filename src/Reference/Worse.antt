-- ===== src/Reference/Worse.antt =====
-- The order of the levels: the first is the best, and an empty one may go.
use native.Mathlib.Decide.{dec_lt}
use cpp_orderbook_engine.Prelude.{
  ℕ, ◌≡◌, refl, pos, ◌==ℤ◌, true, false, List, [], ◌∷◌, arith, Bool-cases, inl, inr,
}
use cpp_orderbook_engine.Types.{OrderId, Side, buy, sell, IncomingOrder, Price}
use cpp_orderbook_engine.Engine.{opposite}
use cpp_orderbook_engine.Engine.Match.{crosses}
use cpp_orderbook_engine.Spec.{Entry, Entries, HasNoBetter}
use cpp_orderbook_engine.Reference.{Node, Nodes, Levels}
use cpp_orderbook_engine.Reference.Matching.{ref_crosses, keep_level}
use cpp_orderbook_engine.Reference.Shelf.{
  nodes_at, shelves, IsShelf, IsSorted, a_level, IsAfter, ref_book, listed,
}

pub ref_crosses-crosses :
    (s : Side) (o : IncomingOrder) (p : Price) → ref_crosses s o p ≡ crosses s o p
unfolding ref_crosses crosses
ref_crosses-crosses buy o p = refl
ref_crosses-crosses sell o p = refl

pub front-IsSorted :
    (s : Side) (other ls : Levels)
    → ((side : Side) → IsSorted side (shelves s other ls side))
    → IsSorted (opposite s) ls
front-IsSorted buy other ls so = so sell
front-IsSorted sell other ls so = so buy

pub set-IsSorted :
    (s : Side) (other ls ls' : Levels)
    → ((side : Side) → IsSorted side (shelves s other ls side))
    → IsSorted (opposite s) ls'
    → (side : Side) → IsSorted side (shelves s other ls' side)
set-IsSorted buy other ls ls' so h buy = so buy
set-IsSorted buy other ls ls' so h sell = h
set-IsSorted sell other ls ls' so h buy = h
set-IsSorted sell other ls ls' so h sell = so sell

pub set_nodes_at :
    (s : Side) (other ls ls' : Levels)
    → ((j : ℕ) → nodes_at ls' j ≡ nodes_at ls j)
    → (side : Side) (j : ℕ)
    → nodes_at (shelves s other ls' side) j ≡ nodes_at (shelves s other ls side) j
set_nodes_at buy other ls ls' h buy j = refl
set_nodes_at buy other ls ls' h sell j = h j
set_nodes_at sell other ls ls' h buy j = h j
set_nodes_at sell other ls ls' h sell j = refl

-- The invariant speaks of the nodes of each price and of the order of the prices only.
pub IsShelf-same :
    {nodes : Nodes} {fresh : Node} {map : List (OrderId × Node)} {lv lv' : Side → Levels}
    → IsShelf nodes fresh map lv
    → ((side : Side) → IsSorted side (lv' side))
    → ((side : Side) (j : ℕ) → nodes_at (lv' side) j ≡ nodes_at (lv side) j)
    → IsShelf nodes fresh map lv'
IsShelf-same v so same = record {
  sorted = so;
  distinct = λ side i. rw (same side i) (v.distinct side i);
  tagged = λ side i a h. v.tagged side i a (rw (same side i) at h);
  mapped = λ side i a h. v.mapped side i a (rw (same side i) at h);
  found = λ id a f.
      let (side, i, h, live, named) = v.found id a f in (side, i, rw (same side i) h, live, named);
}

-- The first level, and that the others are worse.
pub head_level :
    (side : Side) (p : Price) (level : List Node) (ls : Levels)
    → IsSorted side ((p, level) ∷ ls)
    → (idx : ℕ) × (p ≡ pos idx) × IsAfter side idx ls × IsSorted side ls
head_level side p level ls (a_level {i} f so) = (i, refl, f, so)

pub keep_level-IsSorted :
    (side : Side) (idx : ℕ) (level : List Node) (ls : Levels)
    → IsAfter side idx ls
    → IsSorted side ls
    → IsSorted side (keep_level (pos idx) level ls)
keep_level-IsSorted side idx [] ls f so = so
keep_level-IsSorted side idx (a ∷ level) ls f so = a_level f so

-- If the best price does not cross, no price does.
pub worse_prices :
    (s : Side) (o : IncomingOrder) (q : Entries) (idx : ℕ)
    → HasNoBetter s q idx
    → crosses s o (pos idx) ≡ false
    → (j : ℕ) (r : Entry) (rest : List Entry) → q (opposite s) j ≡ r ∷ rest
    → crosses s o (pos j) ≡ false
unfolding crosses
worse_prices buy o q idx b c j r rest e = elim (dec_lt j idx) [
  | yes l ↦ let e' = b j l in absurd (cc)
  | no l ↦ ground arith
]
worse_prices sell o q idx b c j r rest e = elim (dec_lt idx j) [
  | yes l ↦ let e' = b j l in absurd (cc)
  | no l ↦ ground arith
]

pub no_entries :
    (s : Side) (other : Levels) (nodes : Nodes) (j : ℕ)
    → ref_book nodes (shelves s other []) (opposite s) j ≡ []
no_entries buy other nodes j = refl
no_entries sell other nodes j = refl

pub worse_listed :
    (s : Side) (o : IncomingOrder) (idx : ℕ) (level : List Node) (ls : Levels)
    → IsAfter (opposite s) idx ls
    → crosses s o (pos idx) ≡ false
    → (j : ℕ) → listed ((pos idx, level) ∷ ls) j ≡ true
    → crosses s o (pos j) ≡ false
unfolding crosses
worse_listed buy o idx level ls f c j h = elim (Bool-cases (pos idx ==ℤ pos j)) [
  | inl e ↦ ground arith
  | inr e ↦ let l = f j (rw e at h) in ground arith
]
worse_listed sell o idx level ls f c j h = elim (Bool-cases (pos idx ==ℤ pos j)) [
  | inl e ↦ ground arith
  | inr e ↦ let l = f j (rw e at h) in ground arith
]
