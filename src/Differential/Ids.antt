-- ===== src/Differential/Ids.antt =====
-- Two engines that agree find the same ids, cancel the same orders and report the same.
use cpp_orderbook_engine.Prelude.{
  ◌≡◌, refl, sym, ◌∙◌, ap, some, none, List, ◌∷◌, ◌++◌, Option-cases, inl, inr,
}
use cpp_orderbook_engine.Types.{OrderId, no_event}
use cpp_orderbook_engine.Order.{Slot}
use cpp_orderbook_engine.Map.{find}
use cpp_orderbook_engine.Engine.Requests
use cpp_orderbook_engine.Engine.{MatchingEngine}
use cpp_orderbook_engine.Engine.Match.{add_report}
use cpp_orderbook_engine.Engine.Book.{Book, IsBook, put}
use cpp_orderbook_engine.Engine.Cancel.{cancel_order-CancelDone, cancel_order-unknown}
use cpp_orderbook_engine.Engine.Sound.{cancelled-IsPositive}
use cpp_orderbook_engine.Engine.Abstract.{entry_of, entries}
use cpp_orderbook_engine.Engine.Entries.{
  pick-entries_of, entries_of-pick, book-IsOnly, cancelled_entries,
}
use cpp_orderbook_engine.Spec.{Entry}
use cpp_orderbook_engine.Spec.Ids.{pick, strip_book}
use cpp_orderbook_engine.Reference.Calls
use cpp_orderbook_engine.Reference.{ReferenceEngine, Node}
use cpp_orderbook_engine.Reference.Shelf.{IsShelved, book_of, all_levels, nodes_at, ref_entry}
use cpp_orderbook_engine.Reference.Cancel.{
  pick-live_entries, live_entries-pick, shelf-IsOnly, cancel_order-IsShelved, cancelled_report,
  reference_unknown,
}
use cpp_orderbook_engine.Differential.{Agrees}

some_eq : {x y : Entry} → some x ≡ some y → x ≡ y
some_eq {x} p = ap (λ w. elim w [ none ↦ x | some v ↦ v ]) p

module _ {e : MatchingEngine} {free : List Slot} {q : Book} (v : IsBook e free q)
    {r : ReferenceEngine} (w : IsShelved r) (same : entries e.pool.pool q ≡ book_of r) where
  -- An id that the engine finds, the other engine finds, at an order with the same contents.
  pub found_both :
      (id : OrderId) (o : Slot)
      → find id e.order_map ≡ some o
      → (a : Node) × (find id r.order_map ≡ some a)
        × (entry_of (e.pool.pool o) ≡ ref_entry (r.nodes a))
  found_both id o f =
      let (side, i, h, k) = v.found id o f in
      let p : pick id (entries e.pool.pool q side i) ≡ some (entry_of (e.pool.pool o)) =
        pick-entries_of e.pool.pool (q side i) id o h k (book-IsOnly v id o f side i) in
      let p' : pick id (book_of r side i) ≡ some (entry_of (e.pool.pool o)) =
        ap (λ b. pick id (b side i)) (sym same) ∙ p in
      let (a, m, l, n) = live_entries-pick r.nodes (nodes_at (all_levels r side) i) id _ p' in
      let g : find id r.order_map ≡ some a =
        ap (λ x. find x r.order_map) (sym n) ∙ w.mapped side i a m l in
      let p'' =
        pick-live_entries r.nodes (nodes_at (all_levels r side) i) id a m l n
          (shelf-IsOnly w id a g side i) in
      (a, g, some_eq (sym p' ∙ p''))

  -- An id that the engine does not find, the other engine does not find.
  pub missing_both : (id : OrderId) → find id e.order_map ≡ none → find id r.order_map ≡ none
  missing_both id f = elim (Option-cases (find id r.order_map)) [
    | inl g ↦ g
    | inr (a, g) ↦
        let (side, i, h, l, n) = w.found id a g in
        let p : pick id (book_of r side i) ≡ some (ref_entry (r.nodes a)) =
          pick-live_entries r.nodes (nodes_at (all_levels r side) i) id a h l n
            (shelf-IsOnly w id a g side i) in
        let p' : pick id (entries e.pool.pool q side i) ≡ some (ref_entry (r.nodes a)) =
          ap (λ b. pick id (b side i)) same ∙ p in
        let (o, m, k) = entries_of-pick e.pool.pool (q side i) id _ p' in
        let f' : find id e.order_map ≡ some o =
          ap (λ x. find x e.order_map) (sym k) ∙ (v.rests side i o m).mapped in
        absurd (cc)
  ]

-- Engines that agree report the same of a cancellation, whether the id is found or not, and agree
-- afterwards.
pub cancel_order-Agrees :
    (e : MatchingEngine) (r : ReferenceEngine) (id : OrderId)
    → Agrees e r
    → ((Calls.cancel_order r id).0 ≡ (Requests.cancel_order e id).0)
      × Agrees (Requests.cancel_order e id).1 (Calls.cancel_order r id).1
cancel_order-Agrees e r id s = elim (Option-cases (find id e.order_map)) [
  | inl f ↦
      let g = missing_both s.booked s.shelved s.same id f in
      rw (cancel_order-unknown e id f, reference_unknown r id g) (refl, s)
  | inr (o, f) ↦
      let (a, g, en) = found_both s.booked s.shelved s.same id o f in
      let d = cancel_order-CancelDone e s.free s.book s.booked id o f in
      let (shelved, stripped, told) = cancel_order-IsShelved r id a s.shelved g in
      (
        told ∙ ap (λ n. add_report no_event (cancelled_report n)) (sym en) ∙ sym d.told,
        record {
          free = o ∷ s.free;
          book = put s.book d.side d.level (d.older ++ d.newer);
          booked = d.booked;
          positive = cancelled-IsPositive e s.free s.book id o s.positive d;
          shelved = shelved;
          same = cancelled_entries s.booked id o f d ∙ ap (strip_book id) s.same ∙ sym stripped;
        },
      )
]
