-- ===== src/Pool/Tests.antt =====
-- The theorems on the pool at a pool of three slots.
use cpp_orderbook_engine.Prelude.{◌<◌, ◌≡◌, ◌≢◌, refl, [], ◌∷◌, arith}
use cpp_orderbook_engine.Order.{Slot}
use cpp_orderbook_engine.Pool.{OrderPool, order_pool, allocate, deallocate}
use cpp_orderbook_engine.Pool.Free.{
  IsPool, Allocates, slots, order_pool-IsPool, allocate-Allocates, deallocate_lem,
}

order_pool-IsPool_example : IsPool (order_pool 3) (slots 3 0)
order_pool-IsPool_example = order_pool-IsPool 3 (omega arith) (omega arith)

abbrev used : OrderPool
used = (allocate (order_pool 3)).1

new_pool : IsPool (order_pool 3) (0 ∷ 1 ∷ 2 ∷ [])
unfolding slots
new_pool = order_pool-IsPool 3 (omega arith) (omega arith)

allocate-Allocates_example : Allocates (order_pool 3) (0 ∷ 1 ∷ 2 ∷ []) (allocate (order_pool 3))
allocate-Allocates_example = allocate-Allocates (0 ∷ 1 ∷ 2 ∷ []) new_pool

used_pool : IsPool used (1 ∷ 2 ∷ [])
used_pool = (allocate-Allocates (0 ∷ 1 ∷ 2 ∷ []) new_pool).2

used_own : (used.pool 0).pool_index ≡ 0
unfolding allocate order_pool
used_own = refl

used_capacity : 0 < used.capacity
unfolding allocate order_pool
used_capacity = omega arith

deallocate_lem_example :
    IsPool (deallocate used 0) (0 ∷ 1 ∷ 2 ∷ [])
    × ((a : Slot) → a ≢ 0 → (deallocate used 0).pool a ≡ used.pool a)
deallocate_lem_example = deallocate_lem 0 used_pool used_capacity refl used_own
