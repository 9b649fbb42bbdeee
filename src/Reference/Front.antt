-- ===== src/Reference/Front.antt =====
-- The book of the reference engine when the first of the levels that an order is matched with changes.
use mathlib.Core.Path.{fun_ext}
use cpp_orderbook_engine.Prelude.{
  ℕ, ◌≡◌, ◌≢◌, refl, sym, ◌∙◌, ap, pos, ◌==ℤ◌, true, List, ◌∷◌, arith, has, Bool-cases, ◌⊎◌, inl,
  inr,
}
use cpp_orderbook_engine.Types.{Side, buy, sell}
use cpp_orderbook_engine.Engine.{opposite}
use cpp_orderbook_engine.Spec.{Entry, place, place_cases}
use cpp_orderbook_engine.Reference.{Node, Nodes, Levels}
use cpp_orderbook_engine.Reference.Shelf.{
  nodes_at, shelves, ref_book, live_entries, live_entries-same,
}

-- The levels as a function of a side and a price.
module _ (s : Side) (other ls : Levels) (idx : ℕ) where
  abbrev pub on_shelf : List Node → Side → Levels
  on_shelf level = shelves s other ((pos idx, level) ∷ ls)

pub nodes_at-front :
    (s : Side) (other ls : Levels) (idx : ℕ) (level : List Node)
    → nodes_at (on_shelf s other ls idx level (opposite s)) idx ≡ level
nodes_at-front buy other ls idx level = ground arith
nodes_at-front sell other ls idx level = ground arith

-- The nodes of a level, when those of the first one are replaced.
pub same_elsewhere :
    (s : Side) (other ls : Levels) (idx : ℕ) (level level' : List Node) (side : Side) (j : ℕ)
    → ((side ≡ opposite s) × (j ≡ idx))
      ⊎ (((side ≡ opposite s) → j ≢ idx)
          × (nodes_at (on_shelf s other ls idx level' side) j
              ≡ nodes_at (on_shelf s other ls idx level side) j))
same_elsewhere buy other ls idx level level' buy j = inr (λ e. absurd (cc), refl)
same_elsewhere buy other ls idx level level' sell j = elim (Bool-cases (pos idx ==ℤ pos j)) [
  | inl e ↦ inl (refl, ground arith)
  | inr e ↦ inr (λ _. ground arith, rw e refl)
]
same_elsewhere sell other ls idx level level' sell j = inr (λ e. absurd (cc), refl)
same_elsewhere sell other ls idx level level' buy j = elim (Bool-cases (pos idx ==ℤ pos j)) [
  | inl e ↦ inl (refl, ground arith)
  | inr e ↦ inr (λ _. ground arith, rw e refl)
]

pub at_front :
    (s : Side) (other ls : Levels) (idx : ℕ) (level : List Node) (side : Side) (j : ℕ)
    → side ≡ opposite s
    → j ≡ idx
    → nodes_at (on_shelf s other ls idx level side) j ≡ level
at_front s other ls idx level side j e1 e2 = rw (e1, e2) (nodes_at-front s other ls idx level)

-- The book when the first level is replaced.
pub ref_book-place :
    (s : Side) (other ls : Levels) (idx : ℕ) (level level' : List Node) (nodes nodes' : Nodes)
    (ys : List Entry)
    → live_entries nodes' level' ≡ ys
    → ((side : Side) (j : ℕ) (x : Node)
        → ((side ≡ opposite s) → j ≢ idx)
        → has x (nodes_at (on_shelf s other ls idx level side) j) ≡ true
        → nodes' x ≡ nodes x)
    → ref_book nodes' (on_shelf s other ls idx level')
      ≡ place (ref_book nodes (on_shelf s other ls idx level)) (opposite s) idx ys
ref_book-place s other ls idx level level' nodes nodes' ys front there = fun_ext (λ side.
    fun_ext (λ j.
      elim (place_cases (ref_book nodes (on_shelf s other ls idx level)) (opposite s) idx ys side
        j) [
          | inl (e1, e2, p) ↦
              ap (live_entries nodes') (at_front s other ls idx level' side j e1 e2) ∙ front ∙ sym p
          | inr (ne, p) ↦ elim (same_elsewhere s other ls idx level level' side j) [
            | inl (e1, e2) ↦ absurd (ne e1 e2)
            | inr (_, q) ↦
                ap (live_entries nodes') q
                ∙ live_entries-same nodes nodes' _ (λ x h. there side j x ne h)
                ∙ sym p
          ]
        ]))
