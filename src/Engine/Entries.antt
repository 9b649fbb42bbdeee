-- ===== src/Engine/Entries.antt =====
-- What resting and cancelling an order does to the engine's book, seen as a book of entries.
use mathlib.Core.Path.{fun_ext}
use cpp_orderbook_engine.Prelude.{
  ℕ, ◌≡◌, ◌≢◌, refl, sym, ◌∙◌, ap, true, false, some, List, [], ◌∷◌, ◌++◌, arith, has, ◌==◌,
  Bool-cases, inl, inr,
}
use cpp_orderbook_engine.Types.{OrderId, Side, IncomingOrder, Quantity, resting}
use cpp_orderbook_engine.Order.{Slot, Order, Orders}
use cpp_orderbook_engine.Level.Seg.{values}
use cpp_orderbook_engine.Map.{find}
use cpp_orderbook_engine.Engine.{MatchingEngine}
use cpp_orderbook_engine.Engine.Requests.{resting_order, cancel_order}
use cpp_orderbook_engine.Engine.Book.{Book, put, put_cases, IsBook}
use cpp_orderbook_engine.Engine.Cancel.{CancelDone}
use cpp_orderbook_engine.Engine.Sound.{removed_in}
use cpp_orderbook_engine.Engine.Abstract.{
  entry_of, entries_of, entries, entries_of-same, entries-put,
}
use cpp_orderbook_engine.Spec.{Entry, place}
use cpp_orderbook_engine.Spec.Ids.{pick, strip, strip_book}

-- What is left of an incoming order, as an entry.
abbrev pub rest_entry : IncomingOrder → Quantity → Entry
rest_entry o left = record {
  id = o.id;
  side = o.side;
  price = o.price;
  quantity = o.quantity;
  remaining = left;
}

entries_of-append :
    (mem : Orders) (xs ys : List Slot)
    → entries_of mem (xs ++ ys) ≡ entries_of mem xs ++ entries_of mem ys
entries_of-append mem [] ys = refl
entries_of-append mem (x ∷ xs) ys = rw (entries_of-append mem xs ys) refl

-- A slot that was free is written with an order, which becomes the newest of its level.
pub rested_entries :
    {e : MatchingEngine} {free : List Slot} {q : Book} (v : IsBook e free q) (mem : Orders)
    (s : Slot) (rest : List Slot) (o : IncomingOrder) (left : Quantity) (i : ℕ) (r : Order)
    → free ≡ s ∷ rest
    → ((a : Slot) → a ≢ s → values (mem a) ≡ values (e.pool.pool a))
    → values (mem s) ≡ values (resting_order r o left resting)
    → entries mem (put q o.side i (q o.side i ++ s ∷ []))
      ≡ place
          (entries e.pool.pool q)
          o.side
          i
          (entries e.pool.pool q o.side i ++ rest_entry o left ∷ [])
rested_entries {e} {free} {q} v mem s rest o left i r f kept stored =
    let off : (side : Side) (j : ℕ) (a : Slot) → has a (q side j) ≡ true → a ≢ s =
      λ side j a h same.
        let u = (v.rests side j a h).used in
        let u' : has a (s ∷ rest) ≡ false = rw f at u in ground arith in
    let same : (side : Side) (j : ℕ) (a : Slot)
        → has a (q side j) ≡ true
        → entry_of (mem a) ≡ entry_of (e.pool.pool a) =
      λ side j a h. ap entry_of (kept a (off side j a h)) in
    entries-put e.pool.pool mem q o.side i (q o.side i ++ s ∷ []) _
      (entries_of-append mem (q o.side i) (s ∷ [])
        ∙ rw (entries_of-same e.pool.pool mem (q o.side i) (same o.side i), ap entry_of stored)
            refl)
      (λ side j a _ h. same side j a h)

-- The only slot of a list with an id.
abbrev IsOnly : Orders → List Slot → OrderId → Slot → Type 0
IsOnly mem xs id o = (x : Slot) → has x xs ≡ true → (mem x).id ≡ id → x ≡ o

pub pick-entries_of :
    (mem : Orders) (xs : List Slot) (id : OrderId) (o : Slot)
    → has o xs ≡ true
    → (mem o).id ≡ id
    → IsOnly mem xs id o
    → pick id (entries_of mem xs) ≡ some (entry_of (mem o))
pick-entries_of mem [] id o h e only = absurd (ground arith)
pick-entries_of mem (x ∷ xs) id o h e only = elim (Bool-cases (o == x)) [
  | inl k ↦
      let hit : x ≡ o = ground arith in
      rw hit (let named : ((mem o).id == id) ≡ true = ground arith in rw named refl)
  | inr k ↦
      let other : ((mem x).id == id) ≡ false = ground (arith, only x (ground arith)) in
      rw other (pick-entries_of mem xs id o (ground arith) e (λ y m. only y (ground arith)))
]

pub entries_of-pick :
    (mem : Orders) (xs : List Slot) (id : OrderId) (y : Entry)
    → pick id (entries_of mem xs) ≡ some y
    → (o : Slot) × (has o xs ≡ true) × ((mem o).id ≡ id)
entries_of-pick mem [] id y h = absurd (cc)
entries_of-pick mem (x ∷ xs) id y h = elim (Bool-cases ((mem x).id == id)) [
  | inl k ↦ (x, ground arith, ground arith)
  | inr k ↦ let (o, m, e) = entries_of-pick mem xs id y (rw k at h) in (o, ground arith, e)
]

-- Dropping the entries with an id that no slot of the list has.
pub strip-entries_of :
    (mem mem' : Orders) (xs : List Slot) (id : OrderId)
    → ((x : Slot) → has x xs ≡ true → (mem x).id ≢ id)
    → ((x : Slot) → has x xs ≡ true → entry_of (mem' x) ≡ entry_of (mem x))
    → entries_of mem' xs ≡ strip id (entries_of mem xs)
strip-entries_of mem mem' [] id none_named same = refl
strip-entries_of mem mem' (x ∷ xs) id none_named same =
    let other : ((mem x).id == id) ≡ false = ground (arith, none_named x (ground arith)) in
    rw
      (
        other,
        same x (ground arith),
        strip-entries_of mem mem' xs id (λ y h. none_named y (ground arith))
            (λ y h. same y (ground arith)),
      )
      refl

strip_around :
    (mem mem' : Orders) (ys : List Slot) (o : Slot) (zs : List Slot) (id : OrderId)
    → (mem o).id ≡ id
    → ((x : Slot) → has x (ys ++ zs) ≡ true → (mem x).id ≢ id)
    → ((x : Slot) → has x (ys ++ zs) ≡ true → entry_of (mem' x) ≡ entry_of (mem x))
    → entries_of mem' (ys ++ zs) ≡ strip id (entries_of mem (ys ++ o ∷ zs))
strip_around mem mem' [] o zs id e none_named same =
    let named : ((mem o).id == id) ≡ true = ground arith in
    rw named (strip-entries_of mem mem' zs id none_named same)
strip_around mem mem' (y ∷ ys) o zs id e none_named same =
    let other : ((mem y).id == id) ≡ false = ground (arith, none_named y (ground arith)) in
    rw
      (
        other,
        same y (ground arith),
        strip_around mem mem' ys o zs id e (λ x h. none_named x (ground arith))
            (λ x h. same x (ground arith)),
      )
      refl

module _ {e : MatchingEngine} {free : List Slot} {q : Book} (v : IsBook e free q) (id : OrderId)
    (o : Slot) (f : find id e.order_map ≡ some o) where
  pub book-IsOnly : (side : Side) (i : ℕ) → IsOnly e.pool.pool (q side i) id o
  book-IsOnly side i x h k =
      let g = (v.rests side i x h).mapped in let g' : find id e.order_map ≡ some x = rw k at g in cc

  module _ (d : CancelDone e free q id o (cancel_order e id)) where
    abbrev after : Book
    after = put q d.side d.level (d.older ++ d.newer)

    abbrev mem' : Orders
    mem' = (cancel_order e id).1.pool.pool

    off : (side : Side) (j : ℕ) (a : Slot) → has a (after side j) ≡ true → a ≢ o
    off side j a h same = let u = (d.booked.rests side j a h).used in ground arith

    same_entry :
        (side : Side) (j : ℕ) (a : Slot)
        → has a (after side j) ≡ true
        → entry_of (mem' a) ≡ entry_of (e.pool.pool a)
    same_entry side j a h = ap entry_of (d.kept a (off side j a h))

    unnamed :
        (side : Side) (j : ℕ) (a : Slot) → has a (after side j) ≡ true → (e.pool.pool a).id ≢ id
    unnamed side j a h k =
        off side j a h (
          book-IsOnly side j a (removed_in q d.side d.level d.older o d.newer side j a d.placed h)
            k)

    named : (e.pool.pool o).id ≡ id
    named = let (side, i, h, k) = v.found id o f in k

    -- The entries after a cancellation.
    pub cancelled_entries : entries mem' after ≡ strip_book id (entries e.pool.pool q)
    cancelled_entries = fun_ext (λ side. fun_ext (λ j.
        let un = unnamed side j in
        let se = same_entry side j in
        elim (put_cases q d.side d.level (d.older ++ d.newer) side j) [
          | inl (e1, e2, p) ↦
              let at : q side j ≡ d.older ++ o ∷ d.newer =
                ap (λ t. q t j) e1 ∙ ap (q d.side) e2 ∙ d.placed in
              ap (entries_of mem') p
              ∙ strip_around e.pool.pool mem' d.older o d.newer id named (λ x h. un x (rw p h))
                  (λ x h. se x (rw p h))
              ∙ ap (λ xs. strip id (entries_of e.pool.pool xs)) (sym at)
          | inr (ne, p) ↦
              ap (entries_of mem') p
              ∙ strip-entries_of e.pool.pool mem' (q side j) id (λ x h. un x (rw p h))
                  (λ x h. se x (rw p h))
        ]))
