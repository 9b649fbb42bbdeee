-- ===== src/Reference/Push.antt =====
-- `push_back` on the level of a price: which prices are listed afterwards, and which nodes they have.
use cpp_orderbook_engine.Prelude.{
  ℕ, ◌≡◌, ◌≢◌, refl, sym, subst, pos, true, false, ◌||◌, List, [], ◌∷◌, ◌++◌, arith, has,
  has-append, Distinct, ◌==◌, Bool-cases, ◌⊎◌, inl, inr, ◌==ℤ◌, ◌||◌, if◌then◌else◌,
}
use cpp_orderbook_engine.Types.{OrderId, Side, buy, sell}
use cpp_orderbook_engine.Reference.{
  RefOrder, Node, Nodes, Levels, ReferenceEngine, side_levels, is_done,
}
use cpp_orderbook_engine.Reference.Calls.{set_levels, push_node, insert_order, precedes}
use cpp_orderbook_engine.Reference.Shelf.{
  nodes_at, IsSorted, live_entries, nodes_at-unlisted, after_apart, listed, IsAhead, IsAfter,
  a_level, no_levels,
}

IsAhead-trans : (s : Side) (i j k : ℕ) → IsAhead s i j → IsAhead s j k → IsAhead s i k
IsAhead-trans buy i j k h h' = omega arith
IsAhead-trans sell i j k h h' = omega arith

precedes-IsAhead : (s : Side) (i j : ℕ) → precedes s (pos i) (pos j) ≡ true → IsAhead s i j
precedes-IsAhead buy i j h = ground arith
precedes-IsAhead sell i j h = ground arith

succeeds-IsAhead :
    (s : Side) (i j : ℕ)
    → (pos j ==ℤ pos i) ≡ false
    → precedes s (pos i) (pos j) ≡ false
    → IsAhead s j i
succeeds-IsAhead buy i j ne h = ground arith
succeeds-IsAhead sell i j ne h = ground arith

-- A price that is listed after the insertion is the new one or an old one.
pub listed-push_node :
    (s : Side) (i : ℕ) (a : Node) (ls : Levels) (j : ℕ)
    → listed (push_node s (pos i) a ls) j ≡ true
    → (j ≡ i) ⊎ (listed ls j ≡ true)
unfolding push_node
listed-push_node s i a [] j h = inl (ground arith)
listed-push_node s i a ((p, level) ∷ ls) j h = elim (Bool-cases (p ==ℤ pos i)) [
  | inl e ↦ inr (rw e at h)
  | inr e ↦ elim (Bool-cases (precedes s (pos i) p)) [
    | inl k ↦
        let h' : ((pos i ==ℤ pos j) || listed ((p, level) ∷ ls) j) ≡ true = rw (e, k) at h in
        ground arith
    | inr k ↦
        let h' : ((p ==ℤ pos j) || listed (push_node s (pos i) a ls) j) ≡ true = rw (e, k) at h in
        elim (Bool-cases (p ==ℤ pos j)) [
          | inl m ↦ inr (rw m refl)
          | inr m ↦ elim (listed-push_node s i a ls j (rw m at h')) [
            | inl same ↦ inl same
            | inr old ↦ inr (rw m old)
          ]
        ]
  ]
]

IsAfter-first :
    (s : Side) (i k : ℕ) (level : List Node) (ls : Levels)
    → IsAhead s i k
    → IsAfter s k ls
    → IsAfter s i ((pos k, level) ∷ ls)
IsAfter-first s i k level ls h f j l = elim (Bool-cases (pos k ==ℤ pos j)) [
  | inl e ↦ let same : k ≡ j = ground arith in subst (IsAhead s i) same h
  | inr e ↦ IsAhead-trans s i k j h (f j (rw e at l))
]

pub push_node-IsSorted :
    (s : Side) (i : ℕ) (a : Node) (ls : Levels)
    → IsSorted s ls
    → IsSorted s (push_node s (pos i) a ls)
unfolding push_node
push_node-IsSorted s i a ls no_levels = a_level (λ j h. absurd (cc)) no_levels
push_node-IsSorted s i a ls (a_level {i = k} {level = level} {ls = rest} f so) =
    elim (Bool-cases (pos k ==ℤ pos i)) [
      | inl e ↦ rw e (a_level f so)
      | inr e ↦ elim (Bool-cases (precedes s (pos i) (pos k))) [
        | inl m ↦
            rw (e, m)
              (a_level (IsAfter-first s i k level rest (precedes-IsAhead s i k m) f) (a_level f so))
        | inr m ↦
            rw (e, m)
              (a_level
                (λ j l. elim (listed-push_node s i a rest j l) [
                  | inl same ↦ subst (IsAhead s k) (sym same) (succeeds-IsAhead s i k e m)
                  | inr old ↦ f j old
                ])
                (push_node-IsSorted s i a rest so))
      ]
    ]

-- The nodes of every price after the insertion.
pub nodes_at-push_node :
    (s : Side) (i : ℕ) (a : Node) (ls : Levels) (j : ℕ)
    → IsSorted s ls
    → nodes_at (push_node s (pos i) a ls) j
      ≡ (if j == i then nodes_at ls i ++ a ∷ [] else nodes_at ls j)
unfolding push_node
nodes_at-push_node s i a ls j no_levels = ground arith
nodes_at-push_node s i a ls j (a_level {i = k} {level = level} {ls = rest} f so) =
    elim (Bool-cases (pos k ==ℤ pos i)) [
      | inl e ↦ rw e (ground arith)
      | inr e ↦ elim (Bool-cases (precedes s (pos i) (pos k))) [
        | inl m ↦
            let none_yet = nodes_at-unlisted rest i (
              after_apart s i rest
                (λ n l. IsAhead-trans s i k n (precedes-IsAhead s i k m) (f n l))) in
            rw (e, m, none_yet) (ground arith)
        | inr m ↦ rw (e, m) (ground (arith, nodes_at-push_node s i a rest j so))
      ]
    ]

-- The levels of one side replaced.
abbrev pub grown : Side → (Side → Levels) → Levels → Side → Levels
grown buy lv ls buy = ls
grown buy lv ls sell = lv sell
grown sell lv ls buy = lv buy
grown sell lv ls sell = ls

pub set_levels-grown :
    (s : Side) (e : ReferenceEngine) (ls : Levels) (nodes : Nodes) (fresh : Node)
    (map : List (OrderId × Node)) (side : Side)
    → side_levels side
        (record (set_levels s e ls) { nodes = nodes; fresh = fresh; order_map = map })
      ≡ grown s (λ t. side_levels t e) ls side
set_levels-grown buy e ls nodes fresh map buy = refl
set_levels-grown buy e ls nodes fresh map sell = refl
set_levels-grown sell e ls nodes fresh map buy = refl
set_levels-grown sell e ls nodes fresh map sell = refl

pub side_levels-insert_order :
    (e : ReferenceEngine) (o : RefOrder) (side : Side)
    → side_levels side (insert_order e o)
      ≡ grown o.side
          (λ t. side_levels t e)
          (push_node o.side o.price e.fresh (side_levels o.side e))
          side
unfolding insert_order
side_levels-insert_order e o side = set_levels-grown o.side e _ _ _ _ side

pub grown_cases :
    (s : Side) (lv : Side → Levels) (ls : Levels) (side : Side)
    → ((side ≡ s) × (grown s lv ls side ≡ ls)) ⊎ ((side ≢ s) × (grown s lv ls side ≡ lv side))
grown_cases buy lv ls buy = inl (refl, refl)
grown_cases buy lv ls sell = inr (λ e. cc, refl)
grown_cases sell lv ls buy = inr (λ e. cc, refl)
grown_cases sell lv ls sell = inl (refl, refl)

pub has_last : (a x : Node) (xs : List Node) → has x (xs ++ a ∷ []) ≡ (has x xs || (x == a))
has_last a x xs = ground (arith, has-append x xs (a ∷ []))

pub Distinct-last :
    (xs : List Node) (a : Node) → Distinct xs → has a xs ≡ false → Distinct (xs ++ a ∷ [])
Distinct-last [] a d h = (refl, tt)
Distinct-last (x ∷ xs) a d h =
    (ground (arith, has_last a x xs, d.0), Distinct-last xs a d.1 (ground arith))

pub live_entries-append :
    (nodes : Nodes) (xs ys : List Node)
    → live_entries nodes (xs ++ ys) ≡ live_entries nodes xs ++ live_entries nodes ys
live_entries-append nodes [] ys = refl
live_entries-append nodes (x ∷ xs) ys = elim (Bool-cases (is_done (nodes x).status)) [
  | inl d ↦ rw (d, live_entries-append nodes xs ys) refl
  | inr d ↦ rw (d, live_entries-append nodes xs ys) refl
]
