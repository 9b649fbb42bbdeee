-- ===== src/Queue.antt =====
-- include/matching/spsc_queue.h: the bounded ring buffer between one producer and one consumer. An
-- operation reads the two counters and then writes its own one, so it is one step on the queue: the
-- other side's counter, which it read before, only leaves it more room or more items. The counters
-- are `uint64_t` and wrap around. `capacity` is 2 ^ k. Queue.Threads has the loads and stores one by one.
pub mod Window
pub mod Threads
pub mod Race
pub mod Fifo
mod Tests
use Prim.Native.Nat.{bit_and}
use cpp_orderbook_engine.Prelude.{
  ℕ, ◌+◌, ◌-◌, ◌%◌, ◌^◌, Bool, true, false, Option, none, some, leb, if◌then◌else◌, update,
}

pub record SpscQueue {ℓ} (T : Type ℓ) : Type ℓ where
  pub buffer : ℕ → T
  pub head : ℕ
  pub tail : ℕ

-- i & mask()
abbrev pub masked : ℕ → ℕ → ℕ
masked k i = bit_and i (2 ^ k - 1)

module _ {ℓ} {T : Type ℓ} where
  -- The constructor, with the value that `buffer_{}` fills in.
  unfoldable pub spsc_queue : T → SpscQueue T
  spsc_queue zero_item = record { buffer = λ _. zero_item; head = 0; tail = 0 }

  unfoldable pub try_push : ℕ → SpscQueue T → T → Bool × SpscQueue T
  try_push k q item =
      let t = q.tail in
      let h = q.head in
      if leb (2 ^ k) ((t + (2 ^ 64 - h)) % 2 ^ 64)
      then (false, q)
      else (true, record q { buffer = update q.buffer (masked k t) item; tail = (t + 1) % 2 ^ 64 })

  unfoldable pub try_pop : ℕ → SpscQueue T → Option T × SpscQueue T
  try_pop k q =
      let h = q.head in
      let t = q.tail in
      if leb t h
      then (none, q)
      else (some (q.buffer (masked k h)), record q { head = (h + 1) % 2 ^ 64 })

  unfoldable pub peek : ℕ → SpscQueue T → Option T
  peek k q = if leb q.tail q.head then none else some (q.buffer (masked k q.head))

  unfoldable pub pop_commit : SpscQueue T → SpscQueue T
  pop_commit q = record q { head = (q.head + 1) % 2 ^ 64 }

  unfoldable pub empty : SpscQueue T → Bool
  empty q = leb q.tail q.head

  unfoldable pub size_approx : SpscQueue T → ℕ
  size_approx q = if leb q.head q.tail then q.tail - q.head else 0
