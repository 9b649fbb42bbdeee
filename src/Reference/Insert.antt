-- ===== src/Reference/Insert.antt =====
-- Resting an order in the reference engine: it becomes the newest on its price, and the invariant stays.
use mathlib.Core.Path.{fun_ext}
use cpp_orderbook_engine.Prelude.{
  ℕ, suc, ◌<◌, ◌≡◌, ◌≢◌, refl, sym, subst, ◌∙◌, ap, pos, true, false, some, none, List, [], ◌∷◌,
  ◌++◌, arith, has, Distinct, ◌==◌, Bool-cases, ◌⊎◌, inl, inr, update,
}
use cpp_orderbook_engine.Types.{OrderId, Side}
use cpp_orderbook_engine.Spec.{place, place_cases}
use cpp_orderbook_engine.Map.{find, assign, find-assign}
use cpp_orderbook_engine.Reference.{
  RefOrder, Node, Nodes, Levels, ReferenceEngine, side_levels, is_done,
}
use cpp_orderbook_engine.Reference.Calls.{push_node, insert_order}
use cpp_orderbook_engine.Reference.Shelf.{
  all_levels, book_of, IsShelved, nodes_at, IsShelf, IsSorted, ref_entry, ref_book, live_entries,
  live_entries-same,
}
use cpp_orderbook_engine.Reference.Push.{
  push_node-IsSorted, nodes_at-push_node, grown, side_levels-insert_order, grown_cases, has_last,
  Distinct-last, live_entries-append,
}

module _ {nodes : Nodes} {fresh : Node} {map : List (OrderId × Node)} {lv : Side → Levels}
    (v : IsShelf nodes fresh map lv) (s : Side) (i : ℕ) where
  abbrev pub pushed : Side → Levels
  pushed = grown s lv (push_node s (pos i) fresh (lv s))

  push_cases :
      (side : Side) (j : ℕ)
      → ((side ≡ s) × (j ≡ i) × (nodes_at (pushed side) j ≡ nodes_at (lv s) i ++ fresh ∷ []))
        ⊎ (((side ≡ s) → j ≢ i) × (nodes_at (pushed side) j ≡ nodes_at (lv side) j))
  push_cases side j = elim (grown_cases s lv (push_node s (pos i) fresh (lv s)) side) [
    | inl (e, p) ↦
        let q = nodes_at-push_node s i fresh (lv s) j (v.sorted s) in
        elim (Bool-cases (j == i)) [
          | inl k ↦ inl (e, ground arith, rw p (q ∙ rw k refl))
          | inr k ↦ inr (λ _. ground arith, rw p (q ∙ rw k (ap (λ t. nodes_at (lv t) j) (sym e))))
        ]
    | inr (ne, p) ↦ inr (λ e. absurd (ne e), rw p refl)
  ]

  old_node : (side : Side) (j : ℕ) (x : Node) → has x (nodes_at (lv side) j) ≡ true → x < fresh
  old_node side j x h = let (_, _, l) = v.tagged side j x h in l

  -- A node of the new levels is the new one, on its level, or an old one.
  pushed_node :
      (side : Side) (j : ℕ) (x : Node)
      → has x (nodes_at (pushed side) j) ≡ true
      → ((side ≡ s) × (j ≡ i) × (x ≡ fresh)) ⊎ ((has x (nodes_at (lv side) j) ≡ true) × (x ≢ fresh))
  pushed_node side j x h = elim (push_cases side j) [
    | inl (e1, e2, p) ↦
        let h' : has x (nodes_at (lv s) i ++ fresh ∷ []) ≡ true = rw p at h in
        elim (Bool-cases (x == fresh)) [
          | inl k ↦ inl (e1, e2, ground arith)
          | inr k ↦
              let old : has x (nodes_at (lv s) i) ≡ true =
                ground (arith, has_last fresh x (nodes_at (lv s) i)) in
              inr (
                subst (λ t. has x (nodes_at (lv t) j) ≡ true) (sym e1)
                    (subst (λ n. has x (nodes_at (lv s) n) ≡ true) (sym e2) old),
                ground arith,
              )
        ]
    | inr (ne, p) ↦
        let h' = rw p at h in
        inr (h', λ same. let l = old_node side j x h' in absurd (ground arith))
  ]

  kept_node :
      (side : Side) (j : ℕ) (x : Node)
      → has x (nodes_at (lv side) j) ≡ true
      → has x (nodes_at (pushed side) j) ≡ true
  kept_node side j x h = elim (push_cases side j) [
    | inl (e1, e2, p) ↦
        let h' : has x (nodes_at (lv s) i) ≡ true =
          subst (λ t. has x (nodes_at (lv t) i) ≡ true) e1
            (subst (λ n. has x (nodes_at (lv side) n) ≡ true) e2 h) in
        rw p (ground (arith, has_last fresh x (nodes_at (lv s) i)))
    | inr (ne, p) ↦ rw p h
  ]

  new_node : has fresh (nodes_at (pushed s) i) ≡ true
  new_node = elim (push_cases s i) [
    | inl (e1, e2, p) ↦ rw p (ground (arith, has_last fresh fresh (nodes_at (lv s) i)))
    | inr (ne, p) ↦ absurd (ne refl refl)
  ]

  push_distinct : (side : Side) (j : ℕ) → Distinct (nodes_at (pushed side) j)
  push_distinct side j = elim (push_cases side j) [
    | inl (e1, e2, p) ↦ rw p (
        Distinct-last (nodes_at (lv s) i) fresh (v.distinct s i)
          (elim (Bool-cases (has fresh (nodes_at (lv s) i))) [
            | inl h ↦ let l = old_node s i fresh h in absurd (omega arith)
            | inr h ↦ h
          ]))
    | inr (ne, p) ↦ rw p (v.distinct side j)
  ]

  push-IsSorted : (side : Side) → IsSorted side (pushed side)
  push-IsSorted side = elim (grown_cases s lv (push_node s (pos i) fresh (lv s)) side) [
    | inl (e, p) ↦ rw p (
        subst (λ t. IsSorted t (push_node s (pos i) fresh (lv s))) (sym e)
          (push_node-IsSorted s i fresh (lv s) (v.sorted s)))
    | inr (ne, p) ↦ rw p (v.sorted side)
  ]

  module _ (r : RefOrder) (at_side : r.side ≡ s) (at_price : r.price ≡ pos i)
      (live : is_done r.status ≡ false) where
    stored : (x : Node) → x ≡ fresh → update nodes fresh r x ≡ r
    stored x e = ground arith

    untouched : (x : Node) → x ≢ fresh → update nodes fresh r x ≡ nodes x
    untouched x ne = ground arith

    olds :
        (side : Side) (j : ℕ)
        → live_entries (update nodes fresh r) (nodes_at (lv side) j)
          ≡ live_entries nodes (nodes_at (lv side) j)
    olds side j =
        live_entries-same nodes (update nodes fresh r) (nodes_at (lv side) j)
          (λ x h. let l = old_node side j x h in untouched x (λ same. omega arith))

    after_push :
        live_entries (update nodes fresh r) (nodes_at (lv s) i ++ fresh ∷ [])
        ≡ live_entries nodes (nodes_at (lv s) i) ++ ref_entry r ∷ []
    after_push =
        rw (live_entries-append (update nodes fresh r) (nodes_at (lv s) i) (fresh ∷ []), olds s i)
          (rw (stored fresh refl, live) refl)

    -- The new entry is the newest of its price.
    pub push-ref_book :
        ref_book (update nodes fresh r) pushed
        ≡ place (ref_book nodes lv) s i (ref_book nodes lv s i ++ ref_entry r ∷ [])
    push-ref_book = fun_ext (λ side. fun_ext (λ j.
        elim (place_cases (ref_book nodes lv) s i (ref_book nodes lv s i ++ ref_entry r ∷ []) side
          j) [
            | inl (e1, e2, p) ↦ elim (push_cases side j) [
              | inl (_, _, q) ↦ rw (p, q) after_push
              | inr (ne, _) ↦ absurd (ne e1 e2)
            ]
            | inr (ne, p) ↦ elim (push_cases side j) [
              | inl (e1, e2, _) ↦ absurd (ne e1 e2)
              | inr (_, q) ↦ rw (p, q) (olds side j)
            ]
          ]))

    pub push-IsShelf :
        (id : OrderId)
        → r.id ≡ id
        → find id map ≡ none
        → IsShelf (update nodes fresh r) (suc fresh) (assign id fresh map) pushed
    push-IsShelf id named none_yet = record {
      sorted = push-IsSorted;
      distinct = push_distinct;
      tagged = λ side j x h. elim (pushed_node side j x h) [
        | inl (e1, e2, e3) ↦
            let k = stored x e3 in
            (
              ap (λ n. n.side) k ∙ at_side ∙ sym e1,
              ap (λ n. n.price) k ∙ at_price ∙ ap pos (sym e2),
              omega arith,
            )
        | inr (h', ne) ↦
            let (t1, t2, l) = v.tagged side j x h' in
            let k = untouched x ne in
            (ap (λ n. n.side) k ∙ t1, ap (λ n. n.price) k ∙ t2, omega arith)
      ];
      mapped = λ side j x h l. elim (pushed_node side j x h) [
        | inl (e1, e2, e3) ↦
            rw (ap (λ n. n.id) (stored x e3), named) (find-assign id id fresh map ∙ ground arith)
        | inr (h', ne) ↦
            let k = untouched x ne in
            let old = v.mapped side j x h' (ap (λ n. is_done n.status) (sym k) ∙ l) in
            let other : ((nodes x).id == id) ≡ false = elim (Bool-cases ((nodes x).id == id)) [
              | inl e ↦
                  let same : (nodes x).id ≡ id = ground arith in
                  let g : find id map ≡ some x = rw same at old in absurd (cc)
              | inr e ↦ e
            ] in
            rw (ap (λ n. n.id) k) (find-assign id (nodes x).id fresh map ∙ rw other old)
      ];
      found = λ n x f. elim (Bool-cases (n == id)) [
        | inl e ↦
            let g : some fresh ≡ some x = rw e at (sym (find-assign id n fresh map) ∙ f) in
            let same : x ≡ fresh = cc in
            let k = stored x same in
            (
              s,
              i,
              rw same new_node,
              ap (λ m. is_done m.status) k ∙ live,
              ap (λ m. m.id) k ∙ named ∙ ground arith,
            )
        | inr e ↦
            let g : find n map ≡ some x = rw e at (sym (find-assign id n fresh map) ∙ f) in
            let (side, j, h, l, m) = v.found n x g in
            let lt = old_node side j x h in
            let k = untouched x (λ same. omega arith) in
            (side, j, kept_node side j x h, ap (λ m. is_done m.status) k ∙ l, ap (λ m. m.id) k ∙ m)
      ];
    }

-- `insert_order` of an order with an id that is not in use keeps the invariant, and the order becomes the
-- newest of its price.
pub insert_order-IsShelved :
    (e : ReferenceEngine) (o : RefOrder) (i : ℕ)
    → IsShelved e
    → o.price ≡ pos i
    → is_done o.status ≡ false
    → find o.id e.order_map ≡ none
    → IsShelved (insert_order e o)
      × (book_of (insert_order e o)
          ≡ place (book_of e) o.side i (book_of e o.side i ++ ref_entry o ∷ []))
unfolding insert_order
insert_order-IsShelved e o i v price live none_yet =
    let same : all_levels (insert_order e o) ≡ pushed v o.side i = fun_ext (λ side.
      side_levels-insert_order e o side
      ∙ ap
          (λ p.
            grown o.side (all_levels e) (push_node o.side p e.fresh (side_levels o.side e)) side)
          price) in
    let nodes = update e.nodes e.fresh o in
    (
      subst (IsShelf nodes (suc e.fresh) (assign o.id e.fresh e.order_map)) (sym same)
          (push-IsShelf v o.side i o refl price live o.id refl none_yet),
      ap (ref_book nodes) same ∙ push-ref_book v o.side i o refl price live,
    )
