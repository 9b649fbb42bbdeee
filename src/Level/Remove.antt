-- ===== src/Level/Remove.antt =====
-- `remove` takes an order out of its level, from any position.
use cpp_orderbook_engine.Prelude.{
  ◌-◌, ◌≡◌, ◌≢◌, refl, subst, sym, ◌∙◌, true, false, ◌||◌, none, some, List, [], ◌∷◌, ◌++◌, arith,
  has, Distinct, has-append, length-append, ◌==◌,
}
use cpp_orderbook_engine.Order.{Slot, Ptr, Orders}
use cpp_orderbook_engine.Level.{PriceLevelList, remove, set_next, set_prev}
use cpp_orderbook_engine.Level.Seg.{
  Seg, nil, cons, IsLevel, SameValues, SameOutside, SameLinks, first_of_nil, first_of, last_of,
  frame, split, join,
}

-- A segment whose last slot is led elsewhere.
retarget_stop :
    {mem mem' : Orders} {stop last before first : Ptr} {y : Slot} {ys : List Slot} (t : Slot)
    (stop' : Ptr)
    → Seg mem stop last before (y ∷ ys) first
    → Distinct (y ∷ ys)
    → last ≡ some t
    → (mem' t).next ≡ stop'
    → (mem' t).prev ≡ (mem t).prev
    → ((a : Slot) → has a (y ∷ ys) ≡ true → a ≢ t → SameLinks mem mem' a)
    → Seg mem' stop' last before (y ∷ ys) first
retarget_stop {mem} {mem'} {last} {y} t stop' (cons f p (nil e l)) d lt nt pt same =
    let here : t ≡ y = cc in
    let pt' : (mem' y).prev ≡ (mem y).prev = subst (λ a. (mem' a).prev ≡ (mem a).prev) here pt in
    let nt' : (mem' y).next ≡ stop' = subst (λ a. (mem' a).next ≡ stop') here nt in
    cons f (pt' ∙ p) (nil nt' l)
retarget_stop {mem} {mem'} {y} t stop' (cons f p (cons {x} {xs} f' p' s)) d lt nt pt same =
    let (u, e, i) = last_of x xs (cons f' p' s) in
    let apart : y ≢ t = λ q. ground (arith, d.0) in
    let (sp, sn) = same y (ground arith) apart in
    cons f (sp ∙ p) (
      rw sn
        (retarget_stop t stop' (cons f' p' s) d.1 lt nt pt (λ a h ne. same a (ground arith) ne)))

-- A segment whose first slot is led back elsewhere.
retarget_before :
    {mem mem' : Orders} {stop last before first : Ptr} {z : Slot} {zs : List Slot} (before' : Ptr)
    → Seg mem stop last before (z ∷ zs) first
    → Distinct (z ∷ zs)
    → (mem' z).prev ≡ before'
    → (mem' z).next ≡ (mem z).next
    → ((a : Slot) → has a zs ≡ true → SameLinks mem mem' a)
    → Seg mem' stop last before' (z ∷ zs) first
retarget_before before' (cons f p s) d pz nz same = cons f pz (rw nz (frame s same))

pub remove-SameValues :
    (mem : Orders) (l : PriceLevelList) (o : Slot) → SameValues mem (remove mem l o).0
unfolding remove set_next set_prev
remove-SameValues mem l o a = ground arith

kept_next : (m : Orders) (p : Slot) (q : Ptr) (o : Slot) → o ≢ p → set_next m p q o ≡ m o
unfolding set_next
kept_next m p q o h = ground arith

isolate : Slot → Orders → Orders
isolate o m = set_next (set_prev m o none) o none

shrunk : PriceLevelList → Ptr → Ptr → PriceLevelList
shrunk l h t = record { head = h; tail = t; size = l.size - 1 }

-- What `remove` computes, by the neighbours of the order.
module _ (mem : Orders) (l : PriceLevelList) (o : Slot) where
  remove_middle :
      (p n : Slot)
      → (mem o).prev ≡ some p
      → (mem o).next ≡ some n
      → o ≢ p
      → remove mem l o
        ≡ (isolate o (set_prev (set_next mem p (some n)) n (some p)), shrunk l l.head l.tail)
  unfolding remove isolate shrunk
  remove_middle p n ep en ne = rw (ep, en, kept_next mem p (some n) o ne, en, ep) refl

  remove_last :
      (p : Slot)
      → (mem o).prev ≡ some p
      → (mem o).next ≡ none
      → o ≢ p
      → remove mem l o ≡ (isolate o (set_next mem p none), shrunk l l.head (some p))
  unfolding remove isolate shrunk
  remove_last p ep en ne = rw (ep, en, kept_next mem p none o ne, en, ep) refl

  remove_first :
      (n : Slot)
      → (mem o).prev ≡ none
      → (mem o).next ≡ some n
      → remove mem l o ≡ (isolate o (set_prev mem n none), shrunk l (some n) l.tail)
  unfolding remove isolate shrunk
  remove_first n ep en = rw (ep, en, ep) refl

  remove_only :
      (mem o).prev ≡ none
      → (mem o).next ≡ none
      → remove mem l o ≡ (isolate o mem, shrunk l none none)
  unfolding remove isolate shrunk
  remove_only ep en = rw (ep, en, ep) refl

-- The parts of a list without repetition.
pub record Parts (ys : List Slot) (o : Slot) (zs : List Slot) : Type 0 where
  pub before : Distinct ys
  pub after : Distinct zs
  pub o_before : has o ys ≡ false
  pub o_after : has o zs ≡ false
  pub apart : (a : Slot) → has a ys ≡ true → has a zs ≡ false
  pub rest : Distinct (ys ++ zs)

pub parts : (ys : List Slot) (o : Slot) (zs : List Slot) → Distinct (ys ++ o ∷ zs) → Parts ys o zs
parts [] o zs d = record {
  before = tt;
  after = d.1;
  o_before = refl;
  o_after = d.0;
  apart = λ a h. absurd (cc);
  rest = d.1;
}
parts (y ∷ ys) o zs d =
    let r = parts ys o zs d.1 in
    let out : (has y ys || ((y == o) || has y zs)) ≡ false = sym (has-append y ys (o ∷ zs)) ∙ d.0 in
    record {
      before = (ground (arith, out), r.before);
      after = r.after;
      o_before = ground (arith, out, r.o_before);
      o_after = r.o_after;
      apart = λ a h. ground (arith, out, r.apart a);
      rest = (ground (arith, out, has-append y ys zs), r.rest);
    }

ne_of_has : (a b : Slot) (xs : List Slot) → has a xs ≡ true → has b xs ≡ false → a ≢ b
ne_of_has a b xs h k e = ground arith

-- The segment that a level is after `remove`.
abbrev Rest : Orders → PriceLevelList → Slot → List Slot → Type 0
Rest mem l o xs =
    Seg (remove mem l o).0 none (remove mem l o).1.tail none xs (remove mem l o).1.head

module _ {mem : Orders} (l : PriceLevelList) (o : Slot) where
  drop_first :
      (n : Ptr) (zs : List Slot)
      → Distinct zs
      → has o zs ≡ false
      → (mem o).prev ≡ none
      → Seg mem none l.tail (some o) zs n
      → (mem o).next ≡ n
      → Rest mem l o zs
  unfolding shrunk isolate set_next set_prev
  drop_first n [] d out ep s en =
      let e = first_of_nil s in rw (remove_only mem l o ep (en ∙ e.0)) (nil refl refl)
  drop_first n (z ∷ zs) d out ep s en =
      let e = first_of s in
      rw (remove_first mem l o z ep (en ∙ e)) (
        subst (λ n. Seg (isolate o (set_prev mem z none)) none l.tail none (z ∷ zs) n) e
          (retarget_before none s d (ground arith) (ground arith) (λ a h. ground (arith, d.0))))

  drop_later :
      (end n : Ptr) (y : Slot) (ys zs : List Slot)
      → Parts (y ∷ ys) o zs
      → Seg mem (some o) end none (y ∷ ys) l.head
      → (mem o).prev ≡ end
      → Seg mem none l.tail (some o) zs n
      → (mem o).next ≡ n
      → Rest mem l o (y ∷ ys ++ zs)
  unfolding shrunk isolate set_next set_prev
  drop_later end n y ys [] d s1 ep s2 en =
      let (p, e1, i) = last_of y ys s1 in
      let e2 = first_of_nil s2 in
      let ne : o ≢ p = λ q. ne_of_has p o (y ∷ ys) i d.o_before (sym q) in
      rw (remove_last mem l o p (ep ∙ e1) (en ∙ e2.0) ne) (
        join
          (retarget_stop p none s1 d.before e1 (ground arith) (ground arith)
            (λ a h ne'. ground (arith, ne_of_has a o (y ∷ ys) h d.o_before)))
          (nil refl (sym e1)))
  drop_later end n y ys (z ∷ zs) d s1 ep s2 en =
      let (p, e1, i) = last_of y ys s1 in
      let e2 = first_of s2 in
      let ne : o ≢ p = λ q. ne_of_has p o (y ∷ ys) i d.o_before (sym q) in
      let ne_z : o ≢ z = λ q. ground (arith, d.o_after) in
      let ne_p : p ≢ z = λ q. ground (arith, d.apart p i) in
      rw (remove_middle mem l o p z (ep ∙ e1) (en ∙ e2) ne) (
        join
          (retarget_stop p (some z) s1 d.before e1 (ground arith) (ground arith)
            (λ a h ne'. ground (arith, ne_of_has a o (y ∷ ys) h d.o_before, d.apart a h)))
          (subst
            (λ n.
              Seg (isolate o (set_prev (set_next mem p (some z)) z (some p))) none l.tail end
                (z ∷ zs) n)
            e2
            (retarget_before end s2 d.after (ground arith) (ground arith)
              (λ a h. ground (arith, d.after.0, d.apart p i, ne_of_has a o zs h)))))

-- `remove` writes to the order and its two neighbours only.
remove-elsewhere :
    (mem : Orders) (l : PriceLevelList) (o a : Slot)
    → a ≢ o
    → (mem o).prev ≢ some a
    → (mem o).next ≢ some a
    → (remove mem l o).0 a ≡ mem a
unfolding remove set_next set_prev
remove-elsewhere mem l o a h p n = ground arith

size-remove : (mem : Orders) (l : PriceLevelList) (o : Slot) → (remove mem l o).1.size ≡ l.size - 1
unfolding remove
size-remove mem l o = refl

ends_inside :
    {mem : Orders} {stop end first : Ptr} (ys : List Slot) (a : Slot)
    → Seg mem stop end none ys first
    → has a ys ≡ false
    → end ≢ some a
ends_inside [] a s h e = let f = first_of_nil s in absurd (cc)
ends_inside (y ∷ ys) a s h e = let (p, f, i) = last_of y ys s in absurd (ground arith)

starts_inside :
    {mem : Orders} {last before first : Ptr} (zs : List Slot) (a : Slot)
    → Seg mem none last before zs first
    → has a zs ≡ false
    → first ≢ some a
starts_inside [] a s h e = let f = first_of_nil s in absurd (cc)
starts_inside (z ∷ zs) a s h e = let f = first_of s in absurd (ground arith)

-- What `remove` does to a level, from its segments on the two sides of the order.
removed :
    {mem : Orders} {end n : Ptr} (l : PriceLevelList) (ys : List Slot) (o : Slot) (zs : List Slot)
    → Parts ys o zs
    → Seg mem (some o) end none ys l.head
    → (mem o).prev ≡ end
    → Seg mem none l.tail (some o) zs n
    → (mem o).next ≡ n
    → Rest mem l o (ys ++ zs)
removed {n} l [] o zs d s1 ep s2 en =
    drop_first l o n zs d.after d.o_after (ep ∙ (first_of_nil s1).1) s2 en
removed {end} {n} l (y ∷ ys) o zs d s1 ep s2 en = drop_later l o end n y ys zs d s1 ep s2 en

-- `remove` of an order at any place of a level leaves a level with the other orders in their
-- order, changes nothing but links, and no order outside the level.
pub remove_lem :
    {mem : Orders} {l : PriceLevelList} (ys : List Slot) (o : Slot) (zs : List Slot)
    → IsLevel mem l (ys ++ o ∷ zs)
    → IsLevel (remove mem l o).0 (remove mem l o).1 (ys ++ zs)
      × SameValues mem (remove mem l o).0
      × SameOutside (ys ++ o ∷ zs) mem (remove mem l o).0
remove_lem {mem} {l} ys o zs v =
    let (mid, end, s1, s2) = split ys (o ∷ zs) v.chain in around mid end s1 s2
  where
    around :
        (mid end : Ptr)
        → Seg mem mid end none ys l.head
        → Seg mem none l.tail end (o ∷ zs) mid
        → IsLevel (remove mem l o).0 (remove mem l o).1 (ys ++ zs)
          × SameValues mem (remove mem l o).0
          × SameOutside (ys ++ o ∷ zs) mem (remove mem l o).0
    around mid end s1 (cons f p s2) =
        let d = parts ys o zs v.distinct in
        let s1' = subst (λ m. Seg mem m end none ys l.head) f s1 in
        (
          record {
            chain = removed l ys o zs d s1' p s2 refl;
            distinct = d.rest;
            counted = omega (
              arith,
              size-remove mem l o,
              v.counted,
              length-append ys (o ∷ zs),
              length-append ys zs,
            );
          },
          remove-SameValues mem l o,
          λ a out.
              let out' : (has a ys || ((a == o) || has a zs)) ≡ false =
                sym (has-append a ys (o ∷ zs)) ∙ out in
              let none_before : has a ys ≡ false = ground (arith, out') in
              let none_after : has a zs ≡ false = ground (arith, out') in
              remove-elsewhere mem l o a (ground (arith, out'))
                (λ e. ends_inside ys a s1' none_before (sym p ∙ e))
                (starts_inside zs a s2 none_after),
        )
