-- ===== src/Level/Push.antt =====
-- `push_back` appends an order to a level.
use cpp_orderbook_engine.Prelude.{
  ℕ, ◌≡◌, refl, subst, true, false, none, some, List, [], ◌∷◌, ◌++◌, arith, has, Distinct,
  has-append, length-append,
}
use cpp_orderbook_engine.Order.{Slot, Ptr, Orders}
use cpp_orderbook_engine.Level.{PriceLevelList, push_back, set_next, set_prev}
use cpp_orderbook_engine.Level.Seg.{Seg, nil, cons, IsLevel, SameValues, SameOutside, last_of}

-- The storage after `order` is linked behind `t`.
linked : Orders → Slot → Slot → Orders
unfolding set_next set_prev
linked mem o t = set_next (set_next (set_prev mem o (some t)) o none) t (some o)

snoc :
    {mem : Orders} {last before first : Ptr} (o x : Slot) (xs : List Slot)
    → Seg mem none last before (x ∷ xs) first
    → Distinct (x ∷ xs)
    → has o (x ∷ xs) ≡ false
    → (t : Slot) × (last ≡ some t)
      × (has t (x ∷ xs) ≡ true)
      × Seg (linked mem o t) none (some o) before (x ∷ xs ++ o ∷ []) first
unfolding linked
snoc o x [] (cons f p (nil e l)) d out = (
  x,
  l,
  ground arith,
  cons f (ground arith) (cons (ground arith) (ground arith) (nil (ground arith) refl)),
)
snoc {mem} o x (y ∷ ys) (cons f p s) d out =
    let (t, e, h, s') = snoc o y ys s d.1 (ground arith) in
    let same : (linked mem o t x).next ≡ (mem x).next = ground (arith, d.0) in
    (t, e, ground arith, cons f (ground arith) (rw same s'))

distinct-snoc :
    (o : Slot) (xs : List Slot) → Distinct xs → has o xs ≡ false → Distinct (xs ++ o ∷ [])
distinct-snoc o [] d h = (refl, tt)
distinct-snoc o (x ∷ xs) d h =
    (ground (arith, has-append x xs (o ∷ [])), distinct-snoc o xs d.1 (ground arith))

push_back-SameValues :
    (mem : Orders) (l : PriceLevelList) (o : Slot) → SameValues mem (push_back mem l o).0
unfolding push_back set_next set_prev
push_back-SameValues mem l o a = ground arith

push_back_chain :
    {mem : Orders} (h t : Ptr) (n : ℕ) (o : Slot) (xs : List Slot)
    → Seg mem none t none xs h
    → Distinct xs
    → has o xs ≡ false
    → let r = push_back mem (record { head = h; tail = t; size = n }) o in
      Seg r.0 none r.1.tail none (xs ++ o ∷ []) r.1.head × SameOutside (o ∷ xs) mem r.0
unfolding push_back linked set_next set_prev
push_back_chain h none n o [] s d out =
    (cons refl (ground arith) (nil (ground arith) refl), λ a out. ground arith)
push_back_chain h (some t) n o [] (nil f l) d out = absurd (cc)
push_back_chain h none n o (x ∷ xs) s d out = let (t, e, i) = last_of x xs s in absurd (cc)
push_back_chain {mem} h (some t) n o (x ∷ xs) s d out =
    let (t', e, i, s') = snoc o x xs s d out in
    let same : t' ≡ t = cc in
    (
      subst (λ t. Seg (linked mem o t) none (some o) none (x ∷ xs ++ o ∷ []) h) same s',
      λ a away. ground (arith, same),
    )

-- `push_back` of an order that is not on the level leaves a level with the order after the
-- others, changes nothing but links, and no order outside the level but the new one.
pub push_back_lem :
    {mem : Orders} {l : PriceLevelList} {xs : List Slot} (o : Slot)
    → IsLevel mem l xs
    → has o xs ≡ false
    → IsLevel (push_back mem l o).0 (push_back mem l o).1 (xs ++ o ∷ [])
      × SameValues mem (push_back mem l o).0
      × SameOutside (o ∷ xs) mem (push_back mem l o).0
unfolding push_back
push_back_lem {mem} {l} {xs} o v out =
    let (chain, outside) = push_back_chain l.head l.tail l.size o xs v.chain v.distinct out in
    (
      record {
        chain = chain;
        distinct = distinct-snoc o xs v.distinct out;
        counted = ground (arith, length-append xs (o ∷ []), v.counted);
      },
      push_back-SameValues mem l o,
      outside,
    )
