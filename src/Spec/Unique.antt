-- ===== src/Spec/Unique.antt =====
-- The abstract machine is deterministic.
use cpp_orderbook_engine.Prelude.{
  ℕ, ◌≡◌, refl, sym, ◌∙◌, ap, subst, ◌≤ℤ◌, ◌<ℤ◌, List, [], ◌∷◌, arith, inl, inr,
}
use native.Mathlib.Decide.{dec_lt}
use cpp_orderbook_engine.Types.{Side, buy, sell}
use cpp_orderbook_engine.Engine.{opposite}
use cpp_orderbook_engine.Spec.{
  Entry, Entries, Market, HasNoBetter, IsReady, take_all, take_part, Turn, all_of, part_of, Run,
  stop, turn, IsClosed,
}

head_of : Entry → List Entry → Entry
head_of r [] = r
head_of r (x ∷ xs) = x

tail_of : List Entry → List Entry
tail_of [] = []
tail_of (x ∷ xs) = xs

cons_parts : (r r' : Entry) (xs xs' : List Entry) → r ∷ xs ≡ r' ∷ xs' → (r ≡ r') × (xs ≡ xs')
unfolding head_of tail_of
cons_parts r r' xs xs' e = (ap (head_of r) e, ap tail_of e)

not_nil : {q : List Entry} (r : Entry) (xs : List Entry) → q ≡ r ∷ xs → q ≡ [] → ⊥
not_nil r xs e e' = cc

-- The best price with orders is one price.
best_one :
    (s : Side) (q : Entries) (i j : ℕ) (r r' : Entry) (xs xs' : List Entry)
    → HasNoBetter s q i
    → HasNoBetter s q j
    → q (opposite s) i ≡ r ∷ xs
    → q (opposite s) j ≡ r' ∷ xs'
    → i ≡ j
best_one buy q i j r r' xs xs' bi bj ei ej = elim (dec_lt i j) [
  | yes l ↦ absurd (not_nil r xs ei (bj i l))
  | no l ↦ elim (dec_lt j i) [ yes l' ↦ absurd (not_nil r' xs' ej (bi j l')) | no l' ↦ omega arith ]
]
best_one sell q i j r r' xs xs' bi bj ei ej = elim (dec_lt i j) [
  | yes l ↦ absurd (not_nil r' xs' ej (bi j l))
  | no l ↦ elim (dec_lt j i) [ yes l' ↦ absurd (not_nil r xs ei (bj i l')) | no l' ↦ omega arith ]
]

module _ {s : Side} {m : Market} {idx idx' : ℕ} {r r' : Entry} {rest rest' : List Entry}
    (a : IsReady s m idx r rest) (b : IsReady s m idx' r' rest') where
  ready_one : (idx ≡ idx') × (r ≡ r') × (rest ≡ rest')
  ready_one =
      let e = best_one s m.book idx idx' r r' rest rest' a.best b.best a.oldest b.oldest in
      let (er, erest) =
        cons_parts r r' rest rest' (sym a.oldest ∙ ap (m.book (opposite s)) e ∙ b.oldest) in
      (e, er, erest)

  all_one : take_all s idx r rest m ≡ take_all s idx' r' rest' m
  all_one = let (e, er, erest) = ready_one in rw (e, er, erest) refl

  part_one : take_part s idx r rest m ≡ take_part s idx' r' rest' m
  part_one = let (e, er, erest) = ready_one in rw (e, er, erest) refl

  sizes_differ : r.remaining ≤ℤ m.order.quantity → m.order.quantity <ℤ r'.remaining → ⊥
  sizes_differ l l' =
      let (e, er, erest) = ready_one in
      let same = ap (λ x. x.remaining) er in
      let l'' : r'.remaining ≤ℤ m.order.quantity = rw same at l in omega arith

Turn-unique : {s : Side} {m u w : Market} → Turn s m u → Turn s m w → u ≡ w
Turn-unique (all_of i r xs a l e) (all_of j r' xs' b l' e') = e ∙ all_one a b ∙ sym e'
Turn-unique (all_of i r xs a l e) (part_of j r' xs' b l' e') = absurd (sizes_differ a b l l')
Turn-unique (part_of i r xs a l e) (all_of j r' xs' b l' e') = absurd (sizes_differ b a l' l)
Turn-unique (part_of i r xs a l e) (part_of j r' xs' b l' e') = e ∙ part_one a b ∙ sym e'

not_ready :
    {s : Side} {m : Market} {idx : ℕ} {r : Entry} {rest : List Entry}
    → IsClosed s m
    → IsReady s m idx r rest
    → ⊥
not_ready (inl e) a = let w = a.wants in let w' = rw e at w in omega arith
not_ready {idx} {r} {rest} (inr apart) a =
    let c = apart idx r rest a.oldest in let k = a.crossing in ground arith

pub Turn-open : {s : Side} {m u : Market} → IsClosed s m → Turn s m u → ⊥
Turn-open c (all_of i r xs a l e) = not_ready c a
Turn-open c (part_of i r xs a l e) = not_ready c a

-- Two runs from one market that leave nothing to match end in the same market.
pub Run-unique :
    {s : Side} {m u w : Market} → Run s m u → IsClosed s u → Run s m w → IsClosed s w → u ≡ w
Run-unique (stop e) c (stop e') c' = e ∙ sym e'
Run-unique {s} (stop e) c (turn t r) c' = absurd (Turn-open (subst (IsClosed s) e c) t)
Run-unique {s} (turn t r) c (stop e) c' = absurd (Turn-open (subst (IsClosed s) e c') t)
Run-unique {s} {w} (turn t r) c (turn t' r') c' =
    Run-unique r c (subst (λ x. Run s x w) (sym (Turn-unique t t')) r') c'
