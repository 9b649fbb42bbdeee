-- ===== src/Queue/Threads.antt =====
-- include/matching/spsc_queue.h: `try_push` and `try_pop` as the producer and the consumer run them at
-- the same time, one load or store after the other, in any order of the two threads. A thread sees the
-- other's counter as it is when it loads it, and may act on it when it has changed.
use cpp_orderbook_engine.Prelude.{
  ℕ, ◌+◌, ◌-◌, ◌%◌, ◌^◌, List, [], ◌∷◌, ◌++◌, leb, if◌then◌else◌, update,
}
use cpp_orderbook_engine.Queue.{SpscQueue, spsc_queue, masked}

-- Where the producer is in `try_push`, with its item and what it has loaded.
pub data Producer {ℓ} (T : Type ℓ) : Type ℓ where
  outside_push : Producer T
  tail_loaded : T → ℕ → Producer T
  head_loaded : T → ℕ → ℕ → Producer T
  written : T → ℕ → Producer T

-- Where the consumer is in `try_pop`, with what it has loaded and read.
pub data Consumer {ℓ} (T : Type ℓ) : Type ℓ where
  outside_pop : Consumer T
  own_loaded : ℕ → Consumer T
  both_loaded : ℕ → ℕ → Consumer T
  read : T → ℕ → Consumer T

-- The queue, the two threads, the items whose `try_push` has returned true, and those that `try_pop` has
-- returned.
pub record Threads {ℓ} (T : Type ℓ) : Type ℓ where
  pub queue : SpscQueue T
  pub producer : Producer T
  pub consumer : Consumer T
  pub pushed : List T
  pub popped : List T

-- Which thread moves; the producer calls `try_push` with this item if it is not in a call.
pub data Move {ℓ} (T : Type ℓ) : Type ℓ where
  produce : T → Move T
  consume : Move T

module _ {ℓ} {T : Type ℓ} where
  unfoldable pub start_threads : T → Threads T
  start_threads zero_item = record {
    queue = spsc_queue zero_item;
    producer = outside_push;
    consumer = outside_pop;
    pushed = [];
    popped = [];
  }

  -- The next load or store of `try_push`.
  unfoldable pub produce_next : ℕ → T → Producer T → Threads T → Threads T
  produce_next k item outside_push s = record s { producer = tail_loaded item s.queue.tail }
  produce_next k item (tail_loaded x t) s = record s { producer = head_loaded x t s.queue.head }
  produce_next k item (head_loaded x t h) s =
      if leb (2 ^ k) ((t + (2 ^ 64 - h)) % 2 ^ 64)
      then record s { producer = outside_push }
      else record s {
        queue = record s.queue { buffer = update s.queue.buffer (masked k t) x };
        producer = written x t;
      }
  produce_next k item (written x t) s = record s {
    queue = record s.queue { tail = (t + 1) % 2 ^ 64 };
    producer = outside_push;
    pushed = s.pushed ++ x ∷ [];
  }

  -- The next load or store of `try_pop`.
  unfoldable pub consume_next : ℕ → Consumer T → Threads T → Threads T
  consume_next k outside_pop s = record s { consumer = own_loaded s.queue.head }
  consume_next k (own_loaded h) s = record s { consumer = both_loaded h s.queue.tail }
  consume_next k (both_loaded h t) s =
      if leb t h
      then record s { consumer = outside_pop }
      else record s { consumer = read (s.queue.buffer (masked k h)) h }
  consume_next k (read x h) s = record s {
    queue = record s.queue { head = (h + 1) % 2 ^ 64 };
    consumer = outside_pop;
    popped = s.popped ++ x ∷ [];
  }

  abbrev pub move : ℕ → Move T → Threads T → Threads T
  move k (produce x) s = produce_next k x s.producer s
  move k consume s = consume_next k s.consumer s

  -- An interleaving of the two threads.
  unfoldable pub interleave : ℕ → List (Move T) → Threads T → Threads T
  interleave k [] s = s
  interleave k (m ∷ ms) s = interleave k ms (move k m s)
