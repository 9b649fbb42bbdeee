-- ===== src/Reference/Shelf.antt =====
-- The levels of the reference engine: what they hold, and the invariant.
use cpp_orderbook_engine.Prelude.{
  ℕ, ◌<◌, ◌≡◌, refl, sym, subst, ◌∙◌, ap, pos, ◌==ℤ◌, Bool, true, false, ◌||◌, some, List, [], ◌∷◌,
  arith, has, Distinct, if◌then◌else◌, Bool-cases, inl, inr,
}
use cpp_orderbook_engine.Types.{OrderId, Side, buy, sell}
use cpp_orderbook_engine.Map.{find}
use cpp_orderbook_engine.Spec.{Entry, Entries}
use cpp_orderbook_engine.Reference.{
  ReferenceEngine, side_levels, RefOrder, Node, Nodes, Levels, is_done,
}
use cpp_orderbook_engine.Reference.Matching.{keep_level}

-- The nodes of the level of a price.
abbrev pub nodes_at : Levels → ℕ → List Node
nodes_at [] i = []
nodes_at ((p, level) ∷ ls) i = if p ==ℤ pos i then level else nodes_at ls i

abbrev pub listed : Levels → ℕ → Bool
listed [] i = false
listed ((p, _) ∷ ls) i = (p ==ℤ pos i) || listed ls i

-- Price `j` is worse than `i` on a side.
abbrev pub IsAhead : Side → ℕ → ℕ → Type 0
IsAhead buy i j = j < i
IsAhead sell i j = i < j

abbrev pub IsAfter : Side → ℕ → Levels → Type 0
IsAfter s i ls = (j : ℕ) → listed ls j ≡ true → IsAhead s i j

-- Levels at prices from 0 on, the best one first, each price once.
pub data IsSorted (s : Side) : Levels → Type 0 where
  no_levels : IsSorted s []
  a_level :
      {i : ℕ} {level : List Node} {ls : Levels}
      → IsAfter s i ls
      → IsSorted s ls
      → IsSorted s ((pos i, level) ∷ ls)

abbrev pub ref_entry : RefOrder → Entry
ref_entry r = record {
  id = r.id;
  side = r.side;
  price = r.price;
  quantity = r.quantity;
  remaining = r.remaining;
}

-- The orders of a level that are neither filled nor cancelled.
abbrev pub live_entries : Nodes → List Node → List Entry
live_entries nodes [] = []
live_entries nodes (a ∷ rest) =
    let others = live_entries nodes rest in
    if is_done (nodes a).status then others else ref_entry (nodes a) ∷ others

abbrev pub ref_book : Nodes → (Side → Levels) → Entries
ref_book nodes lv side i = live_entries nodes (nodes_at (lv side) i)

-- The levels of the two sides: `ls` those that an incoming order on side `s` is matched with.
abbrev pub shelves : Side → Levels → Levels → Side → Levels
shelves buy other ls buy = other
shelves buy other ls sell = ls
shelves sell other ls buy = ls
shelves sell other ls sell = other

-- A node is on the level of its own side and price only, and once; the map finds exactly the orders
-- that are neither filled nor cancelled.
pub record IsShelf (nodes : Nodes) (fresh : Node) (map : List (OrderId × Node)) (lv : Side → Levels)
    : Type 0 where
  pub sorted : (side : Side) → IsSorted side (lv side)
  pub distinct : (side : Side) (i : ℕ) → Distinct (nodes_at (lv side) i)
  pub tagged :
      (side : Side) (i : ℕ) (a : Node)
      → has a (nodes_at (lv side) i) ≡ true
      → ((nodes a).side ≡ side) × ((nodes a).price ≡ pos i) × (a < fresh)
  pub mapped :
      (side : Side) (i : ℕ) (a : Node)
      → has a (nodes_at (lv side) i) ≡ true
      → is_done (nodes a).status ≡ false
      → find (nodes a).id map ≡ some a
  pub found :
      (id : OrderId) (a : Node)
      → find id map ≡ some a
      → (side : Side) × (i : ℕ) × (has a (nodes_at (lv side) i) ≡ true)
        × (is_done (nodes a).status ≡ false)
        × ((nodes a).id ≡ id)

-- The levels, the entries and the invariant of an engine.
abbrev pub all_levels : ReferenceEngine → Side → Levels
all_levels e side = side_levels side e

abbrev pub book_of : ReferenceEngine → Entries
book_of e = ref_book e.nodes (all_levels e)

abbrev pub IsShelved : ReferenceEngine → Type 0
IsShelved e = IsShelf e.nodes e.fresh e.order_map (all_levels e)

-- What of a node never changes.
abbrev pub SameTags : RefOrder → RefOrder → Type 0
SameTags r r' = (r'.id ≡ r.id) × (r'.side ≡ r.side) × (r'.price ≡ r.price)

-- The invariant survives a change after which the levels hold a part of their nodes, and the map finds
-- exactly those that are still live.
pub IsShelf-shrink :
    {nodes nodes' : Nodes} {fresh : Node} {map map' : List (OrderId × Node)}
    {lv lv' : Side → Levels}
    → IsShelf nodes fresh map lv
    → ((side : Side) → IsSorted side (lv' side))
    → ((side : Side) (i : ℕ) → Distinct (nodes_at (lv' side) i))
    → ((a : Node) → SameTags (nodes a) (nodes' a))
    → ((side : Side) (i : ℕ) (a : Node)
        → has a (nodes_at (lv' side) i) ≡ true
        → has a (nodes_at (lv side) i) ≡ true)
    → ((side : Side) (i : ℕ) (a : Node)
        → has a (nodes_at (lv' side) i) ≡ true
        → is_done (nodes' a).status ≡ false
        → (is_done (nodes a).status ≡ false)
          × (find (nodes a).id map ≡ some a → find (nodes a).id map' ≡ some a))
    → ((id : OrderId) (a : Node)
        → find id map' ≡ some a
        → (find id map ≡ some a)
          × ((side : Side) (i : ℕ)
              → has a (nodes_at (lv side) i) ≡ true
              → is_done (nodes a).status ≡ false
              → (nodes a).id ≡ id
              → (has a (nodes_at (lv' side) i) ≡ true) × (is_done (nodes' a).status ≡ false)))
    → IsShelf nodes' fresh map' lv'
IsShelf-shrink {nodes} {nodes'} {map'} v so di tags sub left gone = record {
  sorted = so;
  distinct = di;
  tagged = λ side i a h.
      let (ts, tp, l) = v.tagged side i a (sub side i a h) in
      let (_, es, ep) = tags a in (es ∙ ts, ep ∙ tp, l);
  mapped = λ side i a h live.
      let (live', keep) = left side i a h live in
      let (e, _, _) = tags a in
      ap (λ n. find n map') e ∙ keep (v.mapped side i a (sub side i a h) live');
  found = λ id a f.
      let (f', still) = gone id a f in
      let (side, i, h, live, named) = v.found id a f' in
      let (h', live') = still side i h live named in
      let (e, _, _) = tags a in (side, i, h', live', e ∙ named);
}

pub live_entries-same :
    (nodes nodes' : Nodes) (xs : List Node)
    → ((a : Node) → has a xs ≡ true → nodes' a ≡ nodes a)
    → live_entries nodes' xs ≡ live_entries nodes xs
live_entries-same nodes nodes' [] same = refl
live_entries-same nodes nodes' (x ∷ xs) same =
    rw (same x (ground arith), live_entries-same nodes nodes' xs (λ a h. same a (ground arith)))
      refl

pub nodes_at-unlisted : (ls : Levels) (i : ℕ) → listed ls i ≡ false → nodes_at ls i ≡ []
nodes_at-unlisted [] i h = refl
nodes_at-unlisted ((p, level) ∷ ls) i h = ground (arith, nodes_at-unlisted ls i)

-- A node on two levels: they are one.
pub one_place :
    {nodes : Nodes} {fresh : Node} {map : List (OrderId × Node)} {lv : Side → Levels}
    (v : IsShelf nodes fresh map lv) (side side' : Side) (i j : ℕ) (a : Node)
    → has a (nodes_at (lv side) i) ≡ true
    → has a (nodes_at (lv side') j) ≡ true
    → (side ≡ side') × (i ≡ j)
one_place v side side' i j a h k =
    let (s1, p1, _) = v.tagged side i a h in
    let (s2, p2, _) = v.tagged side' j a k in (sym s1 ∙ s2, ground arith)

-- A level after the first one has another price.
pub after_apart : (s : Side) (i : ℕ) (ls : Levels) → IsAfter s i ls → listed ls i ≡ false
after_apart buy i ls f = elim (Bool-cases (listed ls i)) [
  | inl e ↦ let l = f i e in absurd (omega arith)
  | inr e ↦ e
]
after_apart sell i ls f = elim (Bool-cases (listed ls i)) [
  | inl e ↦ let l = f i e in absurd (omega arith)
  | inr e ↦ e
]

-- Erasing a level that is empty changes no level.
pub nodes_at-keep_level :
    (s : Side) (i : ℕ) (level : List Node) (ls : Levels) (j : ℕ)
    → IsAfter s i ls
    → nodes_at (keep_level (pos i) level ls) j ≡ nodes_at ((pos i, level) ∷ ls) j
nodes_at-keep_level s i (a ∷ rest) ls j f = refl
nodes_at-keep_level s i [] ls j f = elim (Bool-cases (pos i ==ℤ pos j)) [
  | inl e ↦
      let same : i ≡ j = ground arith in
      rw e (nodes_at-unlisted ls j (subst (λ n. listed ls n ≡ false) same (after_apart s i ls f)))
  | inr e ↦ rw e refl
]
