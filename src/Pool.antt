-- ===== src/Pool.antt =====
-- include/matching/order.h, `class OrderPool`: orders in a vector, and a free list through their
-- `pool_index`. An order that is in use has its own index there.
pub mod Free
mod Tests
use cpp_orderbook_engine.Prelude.{
  ℕ, ◌+◌, ◌-◌, ◌%◌, ◌^◌, none, some, ltb, ◌==◌, if◌then◌else◌, update,
}
use cpp_orderbook_engine.Order.{Slot, Ptr, Orders, fresh_order}

abbrev pub uint32_max : ℕ
uint32_max = 2 ^ 32 - 1

pub record OrderPool : Type 0 where
  pub capacity : ℕ
  pub pool : Orders
  pub free_head : ℕ

-- The constructor, for a positive capacity: at 0 the source's `capacity_ - 1` wraps and its writes
-- are out of range.
unfoldable pub order_pool : ℕ → OrderPool
order_pool capacity = record {
  capacity = capacity;
  pool = λ i.
      if ltb i (capacity - 1)
      then record fresh_order { pool_index = (i + 1) % 2 ^ 32 }
      else if i == (capacity - 1)
      then record fresh_order { pool_index = uint32_max }
      else fresh_order;
  free_head = 0;
}

unfoldable pub allocate : OrderPool → Ptr × OrderPool
allocate p =
    if p.free_head == uint32_max
    then (none, p)
    else let idx = p.free_head in
      (
        some idx,
        record p {
          pool =
              update p.pool idx
                (record (p.pool idx) { pool_index = idx; prev = none; next = none });
          free_head = (p.pool idx).pool_index;
        },
      )

unfoldable pub deallocate : OrderPool → Slot → OrderPool
deallocate p order = record p {
  pool = update p.pool order (record (p.pool order) { pool_index = p.free_head });
  free_head = (p.pool order).pool_index;
}
