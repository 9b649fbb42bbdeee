-- ===== src/Pool/Free.antt =====
-- The free list of the pool as a list of slots.
use cpp_orderbook_engine.Prelude.{
  ℕ, zero, suc, ◌+◌, ◌≤◌, ◌<◌, ◌≡◌, ◌≢◌, refl, subst, sym, true, false, none, some, ◌==◌, update,
  List, [], ◌∷◌, arith, has, Distinct, All,
}
use cpp_orderbook_engine.Order.{Slot, Ptr, Orders}
use cpp_orderbook_engine.Pool.{OrderPool, uint32_max, order_pool, allocate, deallocate}

-- From `h` the `pool_index` members lead through the slots to the end mark.
abbrev pub FreeFrom : Orders → ℕ → List Slot → Type 0
FreeFrom mem h [] = h ≡ uint32_max
FreeFrom mem h (s ∷ ss) = (h ≡ s) × FreeFrom mem (mem s).pool_index ss

-- A pool whose free slots are `free`, in the order in which they are handed out.
pub record IsPool (p : OrderPool) (free : List Slot) : Type 0 where
  pub indexed : p.capacity ≤ uint32_max
  pub chain : FreeFrom p.pool p.free_head free
  pub distinct : Distinct free
  pub inside : All (λ s. s < p.capacity) free

-- The free list survives a change that spares the `pool_index` of its slots.
pub FreeFrom-frame :
    (mem mem' : Orders) (h : ℕ) (ss : List Slot)
    → FreeFrom mem h ss
    → ((a : Slot) → has a ss ≡ true → (mem' a).pool_index ≡ (mem a).pool_index)
    → FreeFrom mem' h ss
FreeFrom-frame mem mem' h [] f same = f
FreeFrom-frame mem mem' h (s ∷ ss) f same = (
  f.0,
  rw (same s (ground arith))
      (FreeFrom-frame mem mem' (mem s).pool_index ss f.1 (λ a i. same a (ground arith))),
)

-- The slots from `i` on, `n` of them.
unfoldable pub slots : ℕ → ℕ → List Slot
slots zero i = []
slots (suc n) i = i ∷ slots n (suc i)

slots-above : (n i a : ℕ) → a < i → has a (slots n i) ≡ false
unfolding slots
slots-above zero i a h = refl
slots-above (suc n) i a h = ground (arith, slots-above n (suc i) a)

slots-Distinct : (n i : ℕ) → Distinct (slots n i)
unfolding slots
slots-Distinct zero i = tt
slots-Distinct (suc n) i = (slots-above n (suc i) i (omega arith), slots-Distinct n (suc i))

slots-inside : (n i c : ℕ) → i + n ≤ c → All (λ s. s < c) (slots n i)
unfolding slots
slots-inside zero i c h = tt
slots-inside (suc n) i c h = (omega arith, slots-inside n (suc i) c (omega arith))

fresh_chain :
    (c n i : ℕ) → i + n ≡ c → 0 < n → c ≤ uint32_max → FreeFrom (order_pool c).pool i (slots n i)
unfolding slots order_pool
fresh_chain c zero i e h m = absurd (omega arith)
fresh_chain c (suc zero) i e h m = (refl, ground arith)
fresh_chain c (suc (suc n)) i e h m =
    let next : ((order_pool c).pool i).pool_index ≡ suc i = ground arith in
    (refl, rw next (fresh_chain c (suc n) (suc i) (omega arith) (omega arith) m))

-- A new pool with a capacity from 1 to 2 ^ 32 - 1 has all its slots free, in ascending order.
pub order_pool-IsPool : (c : ℕ) → 0 < c → c ≤ uint32_max → IsPool (order_pool c) (slots c 0)
unfolding order_pool
order_pool-IsPool c h m = record {
  indexed = m;
  chain = fresh_chain c c 0 (omega arith) h m;
  distinct = slots-Distinct c 0;
  inside = slots-inside c 0 c (omega arith);
}

-- What `allocate` does, by the free list: it hands out the first free slot, with its own index and
-- no links, or fails and changes nothing if no slot is free.
abbrev pub Allocates : OrderPool → List Slot → Ptr × OrderPool → Type 0
Allocates p [] r = r ≡ (none, p)
Allocates p (s ∷ free) (got, q) =
    (got ≡ some s)
    × (q.capacity ≡ p.capacity)
    × IsPool q free
    × ((q.pool s) ≡ record (p.pool s) { pool_index = s; prev = none; next = none })
    × ((a : Slot) → a ≢ s → q.pool a ≡ p.pool a)

-- `allocate` hands out the first free slot, with its own index and no links, and leaves the other
-- free slots and every other order as they are; it gives nullptr and changes nothing if no slot
-- is free.
pub allocate-Allocates :
    {p : OrderPool} (free : List Slot) → IsPool p free → Allocates p free (allocate p)
unfolding allocate
allocate-Allocates [] v = ground arith
allocate-Allocates {p} (s ∷ free) v =
    let here : (p.free_head == uint32_max) ≡ false = ground arith in
    let h : p.free_head ≡ s = v.chain.0 in
    let mem : Orders =
      update p.pool s (record (p.pool s) { pool_index = s; prev = none; next = none }) in
    rw (here, h)
      (
        refl,
        refl,
        record {
          indexed = v.indexed;
          chain = FreeFrom-frame p.pool mem _ free v.chain.1 (λ a i. ground (arith, v.distinct.0));
          distinct = v.distinct.1;
          inside = v.inside.1;
        },
        ground arith,
        λ a ne. ground arith,
      )

-- `deallocate` of a slot in range that is not free and holds its own index makes it the first
-- free slot and changes no other order.
pub deallocate_lem :
    {p : OrderPool} {free : List Slot} (s : Slot)
    → IsPool p free
    → s < p.capacity
    → has s free ≡ false
    → (p.pool s).pool_index ≡ s
    → IsPool (deallocate p s) (s ∷ free) × ((a : Slot) → a ≢ s → (deallocate p s).pool a ≡ p.pool a)
unfolding deallocate
deallocate_lem {p} {free} s v l out own =
    let freed : ((deallocate p s).pool s).pool_index ≡ p.free_head = ground arith in
    (
      record {
        indexed = v.indexed;
        chain = (
          own,
          subst (λ h. FreeFrom (deallocate p s).pool h free) (sym freed)
              (FreeFrom-frame p.pool (deallocate p s).pool _ free v.chain (λ a i. ground arith)),
        );
        distinct = (out, v.distinct);
        inside = (l, v.inside);
      },
      λ a ne. ground arith,
    )
