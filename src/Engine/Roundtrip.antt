-- ===== src/Engine/Roundtrip.antt =====
-- Resting an order and cancelling it.
use mathlib.Core.Path.{fun_ext}
use cpp_orderbook_engine.Prelude.{
  ℕ, ◌≡◌, ◌≢◌, refl, sym, subst, ◌∙◌, ap, ℤ, pos, int_laws, ◌-ℤ◌, true, false, some, none, List, [],
  ◌∷◌, ◌++◌, arith, has, has-append, ◌==◌, inl, inr,
}
use cpp_orderbook_engine.Types.{
  OrderId, Side, limit, IncomingOrder, MatchEvent, OrderStatus, no_event, resting,
}
use cpp_orderbook_engine.Order.{Slot}
use cpp_orderbook_engine.Map.{find}
use cpp_orderbook_engine.Ladder.Side.{nonempty}
use cpp_orderbook_engine.Engine.{MatchingEngine, opposite}
use cpp_orderbook_engine.Engine.Match.{crosses, add_report}
use cpp_orderbook_engine.Engine.Requests.{validate_order, process_order, cancel_order, report_of}
use cpp_orderbook_engine.Engine.Book.{Book, put, put_cases, IsBook, IsPositive}
use cpp_orderbook_engine.Engine.Trace.{Stage, IsStage, Reach, here, next}
use cpp_orderbook_engine.Engine.Subset.{Reach-IsStage}
use cpp_orderbook_engine.Engine.Process.{
  Outcome, completed, dropped, rests, Stored, Finished, InRange, process_order-Processed,
  valid_quantity,
}
use cpp_orderbook_engine.Engine.Cancel.{cancel_order-CancelDone}
use cpp_orderbook_engine.Engine.Outcomes.{start, start-IsStage}
use cpp_orderbook_engine.Engine.Abstract.{entries, market, Step-Turn, Settled-IsClosed}
use cpp_orderbook_engine.Engine.Entries.{
  rested_entries, rest_entry, cancelled_entries, strip-entries_of,
}
use cpp_orderbook_engine.Engine.Room.{HasRoom, HasRoom-free}
use cpp_orderbook_engine.Spec.{Entry, Entries, place, place_cases, IsClosed}
use cpp_orderbook_engine.Spec.Ids.{strip, strip_book}
use cpp_orderbook_engine.Spec.Unique.{Turn-open}

sub_self : (a : ℤ) → a -ℤ a ≡ pos 0
sub_self a = omega int_laws

-- A matching that has nothing to do does nothing.
Reach-idle : {s : Side} {t u : Stage} → Reach s t u → IsStage t → IsClosed s (market t) → u ≡ t
Reach-idle here v c = refl
Reach-idle {s} {t} (next {u = w} r st) v c =
    let e = Reach-idle r v c in
    absurd
      (Turn-open (subst (λ x. IsClosed s (market x)) (sym e) c) (Step-Turn st (Reach-IsStage r v)))

strip-last :
    (id : OrderId) (xs : List Entry) (x : Entry) → x.id ≡ id → strip id (xs ++ x ∷ []) ≡ strip id xs
strip-last id [] x e = let named : (x.id == id) ≡ true = ground arith in rw named refl
strip-last id (y ∷ xs) x e = rw (strip-last id xs x e) refl

-- Placing an entry with a new id and dropping that id changes nothing.
strip-place :
    (q : Entries) (id : OrderId) (side : Side) (i : ℕ) (x : Entry)
    → ((side' : Side) (j : ℕ) → q side' j ≡ strip id (q side' j))
    → x.id ≡ id
    → strip_book id (place q side i (q side i ++ x ∷ [])) ≡ q
strip-place q id side i x fresh e = fun_ext (λ side'. fun_ext (λ j.
    elim (place_cases q side i (q side i ++ x ∷ []) side' j) [
      | inl (e1, e2, p) ↦
          ap (strip id) p
          ∙ strip-last id (q side i) x e
          ∙ sym (fresh side i)
          ∙ ap (λ t. q t i) (sym e1)
          ∙ ap (q side') (sym e2)
      | inr (ne, p) ↦ ap (strip id) p ∙ sym (fresh side' j)
    ]))

has_last :
    (q : Book) (side : Side) (i : ℕ) (s : Slot)
    → has s (put q side i (q side i ++ s ∷ []) side i) ≡ true
has_last q side i s = elim (put_cases q side i (q side i ++ s ∷ []) side i) [
  | inl (_, _, p) ↦ rw p (ground (arith, has-append s (q side i) (s ∷ [])))
  | inr (ne, _) ↦ absurd (ne refl refl)
]

-- The book after the cancellation of the order that rests.
pub record Restored (free : List Slot) (before : Entries) (o : IncomingOrder)
    (r : MatchEvent × MatchingEngine) : Type 0 where
  pub told : r.0 ≡ add_report no_event (report_of o resting (pos 0) o.quantity)
  pub book : Book
  pub booked : IsBook (cancel_order r.1 o.id).1 free book
  pub same : entries (cancel_order r.1 o.id).1.pool.pool book ≡ before
  pub gone : find o.id (cancel_order r.1 o.id).1.order_map ≡ none

module _ (e : MatchingEngine) (free : List Slot) (q : Book) (o : IncomingOrder)
    (v : IsBook e free q) (p : IsPositive e.pool.pool q) (h : validate_order o ≡ true)
    (fresh : find o.id e.order_map ≡ none) where
  abbrev begun : Stage
  begun = start e free q o v p h

  -- No entry has the id of the order.
  unnamed :
      (side : Side) (j : ℕ)
      → entries e.pool.pool q side j ≡ strip o.id (entries e.pool.pool q side j)
  unnamed side j =
      strip-entries_of e.pool.pool e.pool.pool (q side j) o.id
        (λ x m k.
          let g : find o.id e.order_map ≡ some x =
            ap (λ n. find n e.order_map) (sym k) ∙ (v.rests side j x m).mapped in
          absurd (cc))
        (λ x m. refl)

  Outcome-Restored :
      {status : OrderStatus} {free' : List Slot} {q' : Book} (out : Outcome o begun status free' q')
      (res : MatchEvent × MatchingEngine)
      → o.type ≡ limit
      → free ≢ []
      → res.0 ≡ add_report no_event (report_of o status (o.quantity -ℤ o.quantity) o.quantity)
      → IsBook res.1 free' q'
      → Stored o begun out res.1.pool.pool
      → Restored free (entries e.pool.pool q) o res
  Outcome-Restored (completed z) res type room told b st =
      let l = rw z at (valid_quantity o h) in absurd (omega arith)
  Outcome-Restored (dropped l why) res type room told b st = elim why [
    | inl n ↦ absurd (n type)
    | inr n ↦ absurd (room n)
  ]
  Outcome-Restored (rests s rest i l t price ef) res type room told b st =
      let (kept, (r, stored)) = st in
      let mapped : find o.id res.1.order_map ≡ some s =
        ap (λ n. find n res.1.order_map) (sym (ap (λ w. w.id) stored))
        ∙ (b.rests o.side i s (has_last q o.side i s)).mapped in
      let d =
        cancel_order-CancelDone res.1 rest (put q o.side i (q o.side i ++ s ∷ [])) b o.id s
          mapped in
      record {
        told =
            told
            ∙ ap (λ n. add_report no_event (report_of o resting n o.quantity))
                (sub_self o.quantity);
        book = put (put q o.side i (q o.side i ++ s ∷ [])) d.side d.level (d.older ++ d.newer);
        booked =
            subst
              (λ w.
                IsBook (cancel_order res.1 o.id).1 w
                  (put (put q o.side i (q o.side i ++ s ∷ [])) d.side d.level (d.older ++ d.newer)))
              (sym ef) d.booked;
        same =
            cancelled_entries b o.id s mapped d
            ∙ ap (strip_book o.id)
                (rested_entries v res.1.pool.pool s rest o o.quantity i r ef kept stored)
            ∙ strip-place (entries e.pool.pool q) o.id o.side i (rest_entry o o.quantity) unnamed
                refl;
        gone = d.gone;
      }

  Finished-Restored :
      (t : Stage) (res : MatchEvent × MatchingEngine)
      → t ≡ begun
      → o.type ≡ limit
      → free ≢ []
      → Finished o t res
      → Restored free (entries e.pool.pool q) o res
  Finished-Restored t res e0 type room f0 =
      let f = subst (λ x. Finished o x res) e0 f0 in
      Outcome-Restored f.outcome res type room f.told f.booked f.stored

-- From a book with the invariant and positive quantities, `process_order` of a valid limit order
-- with an id that is not in use, a price within the ladder and room in the pool, which crosses no
-- order of the other side, reports it as resting in full and nothing else; `cancel_order` of its
-- id then leads to an engine with the invariant, the free slots and the entries of each price as
-- before, in their order, in which the id is not in use.
pub cancel_order-process_order :
    (e : MatchingEngine) (free : List Slot) (q : Book) (o : IncomingOrder)
    → IsBook e free q
    → IsPositive e.pool.pool q
    → validate_order o ≡ true
    → find o.id e.order_map ≡ none
    → InRange e o
    → HasRoom e o
    → o.type ≡ limit
    → ((j : ℕ) → nonempty (q (opposite o.side) j) ≡ true → crosses o.side o (pos j) ≡ false)
    → (r : MatchEvent × MatchingEngine) × (process_order e o ≡ some r)
      × Restored free (entries e.pool.pool q) o r
cancel_order-process_order e free q o v p h fresh range room type apart =
    let d = process_order-Processed e free q o v p h fresh range in
    let begun = start e free q o v p h in
    let idle =
      Reach-idle d.reached (start-IsStage e free q o v p h)
        (Settled-IsClosed o.side begun (inr apart)) in
    (
      d.result,
      d.returned,
      Finished-Restored e free q o v p h fresh d.stage d.result idle type
          (HasRoom-free e o free q v room type) d.finished,
    )
