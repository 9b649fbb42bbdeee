-- ===== src/Reference/Outer.antt =====
-- The matching of the reference engine is a run of the abstract machine to its end, and keeps the
-- invariant.
use mathlib.Core.Path.{fun_ext}
use cpp_orderbook_engine.Prelude.{
  ℕ, ◌≡◌, refl, ◌∙◌, ap, pos, ◌≤ℤ◌, ltb_ℤ, true, false, List, [], ◌∷◌, arith, Bool-cases, ◌⊎◌, inl,
  inr, none,
}
use cpp_orderbook_engine.Types.{OrderId, Side, IncomingOrder, Price}
use cpp_orderbook_engine.Map.{find}
use cpp_orderbook_engine.Engine.{opposite}
use cpp_orderbook_engine.Engine.Match.{crosses}
use cpp_orderbook_engine.Spec.{market_eq, Run, stop, IsClosed, Run-trans}
use cpp_orderbook_engine.Reference.{Node, Levels}
use cpp_orderbook_engine.Reference.Matching.{RefMatching, match_level, match_levels, keep_level}
use cpp_orderbook_engine.Reference.Shelf.{
  nodes_at, nodes_at-keep_level, shelves, IsShelf, IsSorted, IsAfter, live_entries, listed,
}
use cpp_orderbook_engine.Reference.Front.{on_shelf}
use cpp_orderbook_engine.Reference.Match.{ref_market}
use cpp_orderbook_engine.Reference.Inner.{Played, match_level-Played, sorted_best}
use cpp_orderbook_engine.Reference.Worse.{
  ref_crosses-crosses, front-IsSorted, set-IsSorted, set_nodes_at, IsShelf-same, head_level,
  keep_level-IsSorted, worse_prices, no_entries, worse_listed,
}

-- The incoming order is exhausted, or crosses no price for which there is a level, be it without live
-- orders.
abbrev pub Emptied : Side → Levels → RefMatching → Type 0
Emptied s ls m =
    (m.order.quantity ≡ pos 0) ⊎ ((j : ℕ) → listed ls j ≡ true → crosses s m.order (pos j) ≡ false)

-- What the matching has done when it ends.
pub record Matched (s : Side) (other ls : Levels) (fresh : Node) (m : RefMatching)
    (r : Levels × RefMatching) : Type 0 where
  pub run : Run s (ref_market s other ls m) (ref_market s other r.0 r.1)
  pub shelf : IsShelf r.1.nodes fresh r.1.order_map (shelves s other r.0)
  pub natural : pos 0 ≤ℤ r.1.order.quantity
  pub closed : IsClosed s (ref_market s other r.0 r.1)
  pub emptied : Emptied s r.0 r.1
  pub fewer : (j : ℕ) → listed r.0 j ≡ true → listed ls j ≡ true
  pub kept : r.1.order ≡ record m.order { quantity = r.1.order.quantity }
  pub unmapped : (id : OrderId) → find id m.order_map ≡ none → find id r.1.order_map ≡ none

module _ (s : Side) (m : RefMatching) where
  levels_nil : match_levels s [] m ≡ ([], m)
  unfolding match_levels
  levels_nil = refl

  module _ (p : Price) (level : List Node) (ls : Levels) where
    levels_stop :
        ltb_ℤ (pos 0) m.order.quantity ≡ false
        → match_levels s ((p, level) ∷ ls) m ≡ ((p, level) ∷ ls, m)
    unfolding match_levels
    levels_stop e = rw (e, match_levels) refl

    levels_apart :
        ltb_ℤ (pos 0) m.order.quantity ≡ true
        → crosses s m.order p ≡ false
        → match_levels s ((p, level) ∷ ls) m ≡ ((p, level) ∷ ls, m)
    unfolding match_levels
    levels_apart e c = rw (e, match_levels, ref_crosses-crosses s m.order p, c) refl

    levels_next :
        ltb_ℤ (pos 0) m.order.quantity ≡ true
        → crosses s m.order p ≡ true
        → match_levels s ((p, level) ∷ ls) m ≡ (
          keep_level p (match_level s level m).0 (match_levels s ls (match_level s level m).1).0,
          (match_levels s ls (match_level s level m).1).1,
        )
    unfolding match_levels
    levels_next e c = rw (e, match_levels, ref_crosses-crosses s m.order p, c) refl

levels_zero :
    (s : Side) (ls : Levels) (m : RefMatching)
    → ltb_ℤ (pos 0) m.order.quantity ≡ false
    → match_levels s ls m ≡ (ls, m)
levels_zero s [] m e = levels_nil s m
levels_zero s ((p, level) ∷ ls) m e = levels_stop s m p level ls e

module _ (s : Side) (other : Levels) (fresh : Node) where
  finish :
      (ls : Levels) (m : RefMatching)
      → IsShelf m.nodes fresh m.order_map (shelves s other ls)
      → pos 0 ≤ℤ m.order.quantity
      → IsClosed s (ref_market s other ls m)
      → Emptied s ls m
      → Matched s other ls fresh m (ls, m)
  finish ls m v n c e = record {
    run = stop refl;
    shelf = v;
    natural = n;
    closed = c;
    emptied = e;
    fewer = λ j h. h;
    kept = refl;
    unmapped = λ id h. h;
  }

  lead :
      (ls ls' : Levels) (m m' : RefMatching) {r : Levels × RefMatching}
      → Run s (ref_market s other ls m) (ref_market s other ls' m')
      → ((j : ℕ) → listed ls' j ≡ true → listed ls j ≡ true)
      → m'.order ≡ record m.order { quantity = m'.order.quantity }
      → ((id : OrderId) → find id m.order_map ≡ none → find id m'.order_map ≡ none)
      → Matched s other ls' fresh m' r
      → Matched s other ls fresh m r
  lead ls ls' m m' {r} run sub k u d = record {
    run = Run-trans run d.run;
    shelf = d.shelf;
    natural = d.natural;
    closed = d.closed;
    emptied = d.emptied;
    unmapped = λ id h. d.unmapped id (u id h);
    fewer = λ j h. sub j (d.fewer j h);
    kept = d.kept ∙ ap {A = IncomingOrder} (λ o. record o { quantity = r.1.order.quantity }) k;
  }

  keep_same :
      (idx : ℕ) (level : List Node) (ls : Levels)
      → IsAfter (opposite s) idx ls
      → (side : Side) (j : ℕ)
      → nodes_at (shelves s other (keep_level (pos idx) level ls) side) j
        ≡ nodes_at (on_shelf s other ls idx level side) j
  keep_same idx level ls f =
      set_nodes_at s other ((pos idx, level) ∷ ls) (keep_level (pos idx) level ls)
        (λ j. nodes_at-keep_level (opposite s) idx level ls j f)

  keep_lead :
      (idx : ℕ) (level : List Node) (ls : Levels) (m : RefMatching)
      → IsAfter (opposite s) idx ls
      → Run s
          (ref_market s other ((pos idx, level) ∷ ls) m)
          (ref_market s other (keep_level (pos idx) level ls) m)
  keep_lead idx level ls m f = stop (
      market_eq
        (fun_ext
          (λ side. fun_ext (λ j. ap (live_entries m.nodes) (keep_same idx level ls f side j))))
        refl refl)

  keep-IsShelf :
      (idx : ℕ) (level : List Node) (ls : Levels) (m : RefMatching)
      → IsAfter (opposite s) idx ls
      → IsSorted (opposite s) ls
      → IsShelf m.nodes fresh m.order_map (on_shelf s other ls idx level)
      → IsShelf m.nodes fresh m.order_map (shelves s other (keep_level (pos idx) level ls))
  keep-IsShelf idx level ls m f so v =
      IsShelf-same v
        (set-IsSorted s other ((pos idx, level) ∷ ls) (keep_level (pos idx) level ls) v.sorted
          (keep_level-IsSorted (opposite s) idx level ls f so))
        (keep_same idx level ls f)

  after_level :
      (idx : ℕ) (level level' : List Node) (ls : Levels) (m m' : RefMatching)
      → IsAfter (opposite s) idx ls
      → IsSorted (opposite s) ls
      → Played s other ls idx level fresh m (level', m')
      → (IsShelf m'.nodes fresh m'.order_map (shelves s other ls)
          → Matched s other ls fresh m' (match_levels s ls m'))
      → Matched s other
          ((pos idx, level) ∷ ls)
          fresh
          m
          (keep_level (pos idx) level' (match_levels s ls m').0, (match_levels s ls m').1)
  after_level idx level [] ls m m' f so d again =
      lead ((pos idx, level) ∷ ls) ls m m' (Run-trans d.run (keep_lead idx [] ls m' f))
        (λ j h. ground arith) d.kept d.unmapped (again (keep-IsShelf idx [] ls m' f so d.shelf))
  after_level idx level (a ∷ level') ls m m' f so d again = elim d.over [
    | inl e ↦ rw (levels_zero s ls m' (ground (arith, e))) (
        lead ((pos idx, level) ∷ ls) ((pos idx, a ∷ level') ∷ ls) m m' d.run (λ j h. h) d.kept
          d.unmapped (finish ((pos idx, a ∷ level') ∷ ls) m' d.shelf d.natural (inl e) (inl e)))
    | inr e ↦ absurd (cc)
  ]

  -- For levels with the reference engine's invariant and an incoming quantity that is not
  -- negative, the matching of the reference engine is a run of price-time priority to its end:
  -- rounds at the best price that crosses against its oldest live order, until the order is
  -- exhausted or crosses no live order; the invariant is kept, no level that crosses is left if
  -- the order is not exhausted, and no level is new.
  pub match_levels-Matched :
      (ls : Levels) (m : RefMatching)
      → IsShelf m.nodes fresh m.order_map (shelves s other ls)
      → pos 0 ≤ℤ m.order.quantity
      → Matched s other ls fresh m (match_levels s ls m)
  match_levels-Matched [] m v n = rw (levels_nil s m) (
      finish [] m v n (inr (λ j r rest e. let e' = no_entries s other m.nodes j in absurd (cc)))
        (inr (λ j h. absurd (cc))))
  match_levels-Matched ((p, level) ∷ ls) m v n =
      let (idx, same, f, so) =
        head_level (opposite s) p level ls (front-IsSorted s other ((p, level) ∷ ls) v.sorted) in
      let v' : IsShelf m.nodes fresh m.order_map (on_shelf s other ls idx level) = rw same at v in
      rw same (elim (Bool-cases (ltb_ℤ (pos 0) m.order.quantity)) [
        | inr e ↦
            rw (levels_stop s m (pos idx) level ls e)
              (finish ((pos idx, level) ∷ ls) m v' n (inl (ground arith)) (inl (ground arith)))
        | inl e ↦ elim (Bool-cases (crosses s m.order (pos idx))) [
          | inr c ↦ rw (levels_apart s m (pos idx) level ls e c) (
              finish ((pos idx, level) ∷ ls) m v' n
                (inr (
                  worse_prices s m.order _ idx (sorted_best s other ls idx level m.nodes v'.sorted)
                    c))
                (inr (worse_listed s m.order idx level ls f c)))
          | inl c ↦
              let d = match_level-Played s other ls idx fresh level m v' n c in
              rw (levels_next s m (pos idx) level ls e c) (
                after_level idx level (match_level s level m).0 ls m (match_level s level m).1 f so
                  d (λ w. match_levels-Matched ls (match_level s level m).1 w d.natural))
        ]
      ])
