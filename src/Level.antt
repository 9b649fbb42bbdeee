-- ===== src/Level.antt =====
-- include/matching/order.h, `class PriceLevelList`: the doubly linked FIFO of a price level. The
-- links are members of the orders, so an operation takes and returns the storage of the orders.
pub mod Seg
pub mod Push
pub mod Remove
pub mod Walk
mod Tests
use cpp_orderbook_engine.Prelude.{
  ℕ, zero, suc, ◌+◌, ◌-◌, Bool, true, false, Option, none, some, List, [], ◌∷◌, update,
}
use cpp_orderbook_engine.Order.{Slot, Ptr, Orders}

-- `size` counts slots of the pool, so it cannot overflow.
pub record PriceLevelList : Type 0 where
  pub head : Ptr
  pub tail : Ptr
  pub size : ℕ

abbrev pub empty_level : PriceLevelList
empty_level = record { head = none; tail = none; size = 0 }

-- p->next = q and p->prev = q
unfoldable pub set_next : Orders → Slot → Ptr → Orders
set_next mem p q = update mem p (record (mem p) { next = q })

unfoldable pub set_prev : Orders → Slot → Ptr → Orders
set_prev mem p q = update mem p (record (mem p) { prev = q })

unfoldable pub push_back : Orders → PriceLevelList → Slot → Orders × PriceLevelList
push_back mem l order =
    let linked = set_next (set_prev mem order l.tail) order none in
    elim l.tail [
      | some t ↦ (
        set_next linked t (some order),
        record { head = l.head; tail = some order; size = l.size + 1 },
      )
      | none ↦ (linked, record { head = some order; tail = some order; size = l.size + 1 })
    ]

-- The first `if` of `remove`, by `order->prev`: the storage and `head_` after it. `next` is
-- `order->next`.
unfoldable pub unlink_before : Orders → Ptr → Ptr → Ptr → Orders × Ptr
unlink_before mem (some p) next head = (set_next mem p next, head)
unlink_before mem none next head = (mem, next)

-- The second `if` of `remove`, by `order->next`: the storage and `tail_` after it.
unfoldable pub unlink_after : Orders → Ptr → Ptr → Ptr → Orders × Ptr
unlink_after mem (some n) prev tail = (set_prev mem n prev, tail)
unlink_after mem none prev tail = (mem, prev)

-- `size` is positive where the list holds the order.
unfoldable pub remove : Orders → PriceLevelList → Slot → Orders × PriceLevelList
unfolding unlink_before unlink_after
remove mem l order =
    let (mem, head) = unlink_before mem (mem order).prev (mem order).next l.head in
    let (mem, tail) = unlink_after mem (mem order).next (mem order).prev l.tail in
    (
      set_next (set_prev mem order none) order none,
      record { head = head; tail = tail; size = l.size - 1 },
    )

abbrev pub front : PriceLevelList → Ptr
front l = l.head

abbrev pub back : PriceLevelList → Ptr
back l = l.tail

abbrev pub empty : PriceLevelList → Bool
empty l = elim l.head [ none ↦ true | some _ ↦ false ]

-- The slots that `for_each` visits from `o` on, in order; `none` if the fuel runs out.
unfoldable pub walk : ℕ → Orders → Ptr → Option (List Slot)
walk zero mem p = none
walk (suc fuel) mem none = some []
walk (suc fuel) mem (some o) =
    let rest = walk fuel mem (mem o).next in elim rest [ none ↦ none | some os ↦ some (o ∷ os) ]

-- A list of n orders is walked in n + 1 rounds.
unfoldable pub for_each : Orders → PriceLevelList → Option (List Slot)
unfolding walk
for_each mem l = walk (suc l.size) mem l.head
