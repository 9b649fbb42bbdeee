-- ===== src/Engine/Round.antt =====
-- What one round of the inner loop of `match_buy` and `match_sell` does.
use cpp_orderbook_engine.Prelude.{
  ℕ, ◌≡◌, ◌≢◌, refl, sym, subst, ◌∙◌, ℤ, pos, ◌-ℤ◌, ◌≤ℤ◌, ◌<ℤ◌, min_ℤ, List, ◌∷◌, arith, update,
  ◌==◌, Bool-cases, inl, inr, ◌⊎◌,
}
use cpp_orderbook_engine.Types.{Side, partially_filled}
use cpp_orderbook_engine.Order.{Slot, Order, Orders}
use cpp_orderbook_engine.Level.Seg.{values}
use cpp_orderbook_engine.Engine.{ladder, set_orders, opposite}
use cpp_orderbook_engine.Engine.Match.{
  Matching, fill_front, add_trade, add_report, trade_of, filled_report,
}
use cpp_orderbook_engine.Engine.Book.{Book, put, IsBook}
use cpp_orderbook_engine.Engine.Fill.{
  fill-Amount, SameBooking, IsBook-touch, drop_filled-IsBook, max_levels-drop_filled,
  max_levels-set_orders,
}

-- The resting order is exhausted: it is traded in full at its own price, reported as filled, and
-- leaves the book, and its slot is free.
pub record Fills (s : Side) (idx : ℕ) (o : Slot) (rest free : List Slot) (q : Book)
    (m m' : Matching) : Type 0 where
  pub covered : (m.engine.pool.pool o).remaining ≤ℤ m.order.quantity
  pub left :
      m'.order ≡ record m.order { quantity = m.order.quantity -ℤ (m.engine.pool.pool o).remaining }
  pub told :
      m'.event
      ≡ add_report
          (add_trade m.event
            (trade_of s m.order (m.engine.pool.pool o) (m.engine.pool.pool o).remaining))
          (filled_report (opposite s) (m.engine.pool.pool o))
  pub book : IsBook m'.engine (o ∷ free) (put q (opposite s) idx rest)
  pub kept : (a : Slot) → a ≢ o → values (m'.engine.pool.pool a) ≡ values (m.engine.pool.pool a)
  pub width : (side : Side) → (ladder side m'.engine).max_levels ≡ (ladder side m.engine).max_levels

-- The incoming order is exhausted: it is traded in full at the resting order's price, and the
-- resting order stays where it is with the rest.
pub record Parts (s : Side) (o : Slot) (free : List Slot) (q : Book) (m m' : Matching)
    : Type 0 where
  pub short : m.order.quantity <ℤ (m.engine.pool.pool o).remaining
  pub left : m'.order ≡ record m.order { quantity = pos 0 }
  pub told :
      m'.event ≡ add_trade m.event (trade_of s m.order (m.engine.pool.pool o) m.order.quantity)
  pub book : IsBook m'.engine free q
  pub rest : m'.engine.pool.pool o ≡ record (m.engine.pool.pool o) {
    remaining = (m.engine.pool.pool o).remaining -ℤ m.order.quantity;
    status = partially_filled;
  }
  pub kept : (a : Slot) → a ≢ o → m'.engine.pool.pool a ≡ m.engine.pool.pool a
  pub width : (side : Side) → (ladder side m'.engine).max_levels ≡ (ladder side m.engine).max_levels

abbrev pub Round : Side → ℕ → Slot → List Slot → List Slot → Book → Matching → Matching → Type 0
Round s idx o rest free q m m' = Fills s idx o rest free q m m' ⊎ Parts s o free q m m'

module _ (s : Side) (idx : ℕ) (o : Slot) (rest free : List Slot) (q : Book) (m : Matching)
    (v : IsBook m.engine free q) (at : q (opposite s) idx ≡ o ∷ rest) where
  abbrev mem : Orders
  mem = m.engine.pool.pool

  -- Only the quantity left and the status of the order change before it is taken out.
  touched :
      (r : Order) → SameBooking (mem o) r → (a : Slot) → SameBooking (mem a) (update mem o r a)
  touched r same a = elim (Bool-cases (a == o)) [
    | inl e ↦
        let here : a ≡ o = ground arith in rw e (subst (λ t. SameBooking (mem t) r) (sym here) same)
    | inr e ↦ rw e (record {
      id = refl;
      side = refl;
      price = refl;
      live = λ h. h;
      index = refl;
      prev = refl;
      next = refl;
    })
  ]

  abbrev lowered : ℤ → Order
  lowered fill = record (mem o) { remaining = (mem o).remaining -ℤ fill }

  lowered_booked : (fill : ℤ) → IsBook (set_orders m.engine (update mem o (lowered fill))) free q
  lowered_booked fill = IsBook-touch (update mem o (lowered fill)) v (
      touched (lowered fill) (record {
        id = refl;
        side = refl;
        price = refl;
        live = λ h. h;
        index = refl;
        prev = refl;
        next = refl;
      }))

  parted_booked :
      (fill : ℤ)
      → IsBook
          (set_orders m.engine (update mem o (record (lowered fill) { status = partially_filled })))
          free
          q
  parted_booked fill =
      IsBook-touch (update mem o (record (lowered fill) { status = partially_filled })) v (
        touched (record (lowered fill) { status = partially_filled })
          (record {
            id = refl;
            side = refl;
            price = refl;
            live = λ h. refl;
            index = refl;
            prev = refl;
            next = refl;
          }))

  -- A round exhausts the resting order or the incoming one.
  pub fill_front-Round : Round s idx o rest free q m (fill_front s idx o m)
  unfolding fill_front
  fill_front-Round = elim (fill-Amount m.order.quantity (mem o).remaining) [
    | inl (c, f, t, l) ↦
        let (book, kept) =
          drop_filled-IsBook
            (set_orders m.engine
              (update mem o (lowered (min_ℤ m.order.quantity (mem o).remaining))))
            free q (lowered_booked _) idx o rest (opposite s) at in
        inl (
          rw t (record {
            covered = c;
            left = rw f refl;
            told = rw f refl;
            book = book;
            kept = λ a ne. kept a ne ∙ ground arith;
            width = λ side.
                max_levels-drop_filled (opposite s) side idx o _
                ∙ max_levels-set_orders side m.engine _;
          }))
    | inr (c, f, t, l, p) ↦ inr (
        rw t (record {
          short = c;
          left = rw l refl;
          told = rw f refl;
          book = parted_booked _;
          rest = rw f (ground arith);
          kept = λ a ne. ground arith;
          width = λ side. max_levels-set_orders side m.engine _;
        }))
  ]
