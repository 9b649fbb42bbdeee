-- ===== src/Reference/Inner.antt =====
-- The inner loop of the reference engine is a run of the abstract machine, and keeps the invariant.
use mathlib.Core.Path.{fun_ext}
use cpp_orderbook_engine.Prelude.{
  ℕ, ◌≡◌, refl, ◌∙◌, ap, pos, ◌≤ℤ◌, ◌<ℤ◌, ltb_ℤ, leb_ℤ, true, false, List, [], ◌∷◌, arith,
  Bool-cases, ◌⊎◌, inl, inr, -ℤ_parts, none,
}
use cpp_orderbook_engine.Types.{OrderId, Side, buy, sell, IncomingOrder, Quantity}
use cpp_orderbook_engine.Map.{find, find-erase}
use cpp_orderbook_engine.Engine.{opposite}
use cpp_orderbook_engine.Engine.Match.{crosses}
use cpp_orderbook_engine.Engine.Trace.{crosses-quantity}
use cpp_orderbook_engine.Spec.{
  trade_with, HasNoBetter, IsReady, Turn, market_eq, all_of, part_of, Run, stop, turn, Run-trans,
}
use cpp_orderbook_engine.Reference.{RefOrder, Node, Nodes, Levels, is_done}
use cpp_orderbook_engine.Reference.Matching.{RefMatching, match_level, ref_trade, opposite_side}
use cpp_orderbook_engine.Reference.Shelf.{
  nodes_at, nodes_at-unlisted, listed, IsShelf, IsSorted, a_level, IsAhead, ref_entry, ref_book,
  live_entries, live_entries-same,
}
use cpp_orderbook_engine.Reference.Front.{
  on_shelf, nodes_at-front, ref_book-place, at_front, same_elsewhere,
}
use cpp_orderbook_engine.Reference.Match.{
  self_test, ref_market, all_node, part_node, level_nil, level_stop, level_done, level_all,
  level_part,
}
use cpp_orderbook_engine.Reference.Drop.{
  behind_other, elsewhere_other, update_other, skip-IsShelf, fill-IsShelf, part-IsShelf,
}

ref_trade-trade_with :
    (s : Side) (o : IncomingOrder) (r : RefOrder) (x : Quantity)
    → ref_trade s o r x ≡ trade_with s o (ref_entry r) x
ref_trade-trade_with buy o r x = refl
ref_trade-trade_with sell o r x = refl

opposite_side-opposite : (s : Side) → opposite_side s ≡ opposite s
opposite_side-opposite buy = refl
opposite_side-opposite sell = refl

-- What the inner loop has done when it ends.
pub record Played (s : Side) (other ls : Levels) (idx : ℕ) (level : List Node) (fresh : Node)
    (m : RefMatching) (r : List Node × RefMatching) : Type 0 where
  pub run :
      Run s
        (ref_market s other ((pos idx, level) ∷ ls) m)
        (ref_market s other ((pos idx, r.0) ∷ ls) r.1)
  pub shelf : IsShelf r.1.nodes fresh r.1.order_map (on_shelf s other ls idx r.0)
  pub natural : pos 0 ≤ℤ r.1.order.quantity
  pub over : (r.1.order.quantity ≡ pos 0) ⊎ (r.0 ≡ [])
  pub kept : r.1.order ≡ record m.order { quantity = r.1.order.quantity }
  pub unmapped : (id : OrderId) → find id m.order_map ≡ none → find id r.1.order_map ≡ none

none_ahead :
    (s : Side) (idx : ℕ) (level : List Node) (ls : Levels) (j : ℕ)
    → IsSorted s ((pos idx, level) ∷ ls)
    → IsAhead s j idx
    → nodes_at ((pos idx, level) ∷ ls) j ≡ []
none_ahead buy idx level ls j (a_level f so) l = elim (Bool-cases (listed ls j)) [
  | inl e ↦ let l' = f j e in absurd (omega arith)
  | inr e ↦ ground (arith, nodes_at-unlisted ls j e)
]
none_ahead sell idx level ls j (a_level f so) l = elim (Bool-cases (listed ls j)) [
  | inl e ↦ let l' = f j e in absurd (omega arith)
  | inr e ↦ ground (arith, nodes_at-unlisted ls j e)
]

pub sorted_best :
    (s : Side) (other ls : Levels) (idx : ℕ) (level : List Node) (nodes : Nodes)
    → ((side : Side) → IsSorted side (on_shelf s other ls idx level side))
    → HasNoBetter s (ref_book nodes (on_shelf s other ls idx level)) idx
sorted_best buy other ls idx level nodes so =
    λ j l. ap (live_entries nodes) (none_ahead sell idx level ls j (so sell) l)
sorted_best sell other ls idx level nodes so =
    λ j l. ap (live_entries nodes) (none_ahead buy idx level ls j (so buy) l)

-- A node that is done is no entry.
ref_book-skip :
    (s : Side) (other ls : Levels) (idx : ℕ) (a : Node) (rest : List Node) (nodes : Nodes)
    → is_done (nodes a).status ≡ true
    → ref_book nodes (on_shelf s other ls idx rest)
      ≡ ref_book nodes (on_shelf s other ls idx (a ∷ rest))
ref_book-skip s other ls idx a rest nodes d = fun_ext (λ side. fun_ext (λ j.
    elim (same_elsewhere s other ls idx (a ∷ rest) rest side j) [
      | inl (e1, e2) ↦
          rw
            (
              at_front s other ls idx rest side j e1 e2,
              at_front s other ls idx (a ∷ rest) side j e1 e2,
              d,
            )
            refl
      | inr (_, q) ↦ ap (live_entries nodes) q
    ]))

module _ (s : Side) (other ls : Levels) (idx : ℕ) (fresh : Node) where
  stay :
      (level : List Node) (m : RefMatching)
      → IsShelf m.nodes fresh m.order_map (on_shelf s other ls idx level)
      → pos 0 ≤ℤ m.order.quantity
      → (m.order.quantity ≡ pos 0) ⊎ (level ≡ [])
      → Played s other ls idx level fresh m (level, m)
  stay level m v n o = record {
    run = stop refl;
    shelf = v;
    natural = n;
    over = o;
    kept = refl;
    unmapped = λ id h. h;
  }

  ready :
      (a : Node) (rest : List Node) (m : RefMatching)
      → IsShelf m.nodes fresh m.order_map (on_shelf s other ls idx (a ∷ rest))
      → ltb_ℤ (pos 0) m.order.quantity ≡ true
      → is_done (m.nodes a).status ≡ false
      → crosses s m.order (pos idx) ≡ true
      → IsReady s
          (ref_market s other ((pos idx, a ∷ rest) ∷ ls) m)
          idx
          (ref_entry (m.nodes a))
          (live_entries m.nodes rest)
  ready a rest m v e d c = record {
    wants = ground arith;
    best = sorted_best s other ls idx (a ∷ rest) m.nodes v.sorted;
    crossing = c;
    oldest = rw (nodes_at-front s other ls idx (a ∷ rest), d) refl;
  }

  prepend :
      (level level' : List Node) (m m' : RefMatching) {r : List Node × RefMatching}
      → Run s
          (ref_market s other ((pos idx, level) ∷ ls) m)
          (ref_market s other ((pos idx, level') ∷ ls) m')
      → m'.order ≡ record m.order { quantity = m'.order.quantity }
      → ((id : OrderId) → find id m.order_map ≡ none → find id m'.order_map ≡ none)
      → Played s other ls idx level' fresh m' r
      → Played s other ls idx level fresh m r
  prepend level level' m m' {r} run k u d = record {
    run = Run-trans run d.run;
    shelf = d.shelf;
    natural = d.natural;
    over = d.over;
    unmapped = λ id h. d.unmapped id (u id h);
    kept = d.kept ∙ ap {A = IncomingOrder} (λ o. record o { quantity = r.1.order.quantity }) k;
  }

  all-Turn :
      (a : Node) (rest : List Node) (m : RefMatching)
      → IsShelf m.nodes fresh m.order_map (on_shelf s other ls idx (a ∷ rest))
      → IsReady s
          (ref_market s other ((pos idx, a ∷ rest) ∷ ls) m)
          idx
          (ref_entry (m.nodes a))
          (live_entries m.nodes rest)
      → (m.nodes a).remaining ≤ℤ m.order.quantity
      → Turn s
          (ref_market s other ((pos idx, a ∷ rest) ∷ ls) m)
          (ref_market s other ((pos idx, rest) ∷ ls) (all_node s a m))
  all-Turn a rest m v y h = all_of idx (ref_entry (m.nodes a)) (live_entries m.nodes rest) y h (
      market_eq
        (ref_book-place s other ls idx (a ∷ rest) rest m.nodes (all_node s a m).nodes
          (live_entries m.nodes rest)
          (live_entries-same m.nodes (all_node s a m).nodes rest
            (λ x k. update_other m.nodes a _ x (behind_other s other ls idx a rest v x k)))
          (λ side j x ne k.
            update_other m.nodes a _ x (elsewhere_other s other ls idx a rest v side j x ne k)))
        refl (rw (ref_trade-trade_with s, opposite_side-opposite s) refl))

  part-Turn :
      (a : Node) (rest : List Node) (m : RefMatching)
      → IsShelf m.nodes fresh m.order_map (on_shelf s other ls idx (a ∷ rest))
      → IsReady s
          (ref_market s other ((pos idx, a ∷ rest) ∷ ls) m)
          idx
          (ref_entry (m.nodes a))
          (live_entries m.nodes rest)
      → m.order.quantity <ℤ (m.nodes a).remaining
      → Turn s
          (ref_market s other ((pos idx, a ∷ rest) ∷ ls) m)
          (ref_market s other ((pos idx, a ∷ rest) ∷ ls) (part_node s a m))
  part-Turn a rest m v y h = part_of idx (ref_entry (m.nodes a)) (live_entries m.nodes rest) y h (
      market_eq
        (ref_book-place s other ls idx (a ∷ rest) (a ∷ rest) m.nodes (part_node s a m).nodes _
          (rw
            (
              self_test a,
              live_entries-same m.nodes (part_node s a m).nodes rest
                  (λ x k. update_other m.nodes a _ x (behind_other s other ls idx a rest v x k)),
            )
            refl)
          (λ side j x ne k.
            update_other m.nodes a _ x (elsewhere_other s other ls idx a rest v side j x ne k)))
        refl (rw (ref_trade-trade_with s) refl))

  pub match_level-Played :
      (level : List Node) (m : RefMatching)
      → IsShelf m.nodes fresh m.order_map (on_shelf s other ls idx level)
      → pos 0 ≤ℤ m.order.quantity
      → crosses s m.order (pos idx) ≡ true
      → Played s other ls idx level fresh m (match_level s level m)
  match_level-Played [] m v n c = rw (level_nil s m) (stay [] m v n (inr refl))
  match_level-Played (a ∷ rest) m v n c = elim (Bool-cases (ltb_ℤ (pos 0) m.order.quantity)) [
    | inr e ↦ rw (level_stop s a rest m e) (stay (a ∷ rest) m v n (inl (ground arith)))
    | inl e ↦ elim (Bool-cases (is_done (m.nodes a).status)) [
      | inl d ↦ rw (level_done s a rest m e d) (
          prepend (a ∷ rest) rest m m
            (stop (market_eq (ref_book-skip s other ls idx a rest m.nodes d) refl refl)) refl
            (λ id h. h) (match_level-Played rest m (skip-IsShelf s other ls idx a rest v d) n c))
      | inr d ↦ elim (Bool-cases (leb_ℤ (m.nodes a).remaining m.order.quantity)) [
        | inl l ↦
            let h : (m.nodes a).remaining ≤ℤ m.order.quantity = ground arith in
            rw (level_all s a rest m e d h) (
              prepend (a ∷ rest) rest m (all_node s a m)
                (turn (all-Turn a rest m v (ready a rest m v e d c) h) (stop refl)) refl
                (λ id h. find-erase (m.nodes a).id id m.order_map ∙ ground arith)
                (match_level-Played rest (all_node s a m)
                  (fill-IsShelf s other ls idx a rest v d _ (refl, refl, refl))
                  (omega (arith, -ℤ_parts, h)) (crosses-quantity s m.order _ (pos idx) ∙ c)))
        | inr l ↦
            let h : m.order.quantity <ℤ (m.nodes a).remaining = ground arith in
            rw (level_part s a rest m e d h) (
              prepend (a ∷ rest) (a ∷ rest) m (part_node s a m)
                (turn (part-Turn a rest m v (ready a rest m v e d c) h) (stop refl)) refl
                (λ id h. h)
                (stay (a ∷ rest) (part_node s a m)
                  (part-IsShelf s other ls idx a rest v d _ (refl, refl, refl) refl) (omega arith)
                  (inl refl)))
      ]
    ]
  ]
