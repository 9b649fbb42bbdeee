-- ===== src/Queue/Tests.antt =====
-- The theorems on the queue at a queue of capacity 4.
use cpp_orderbook_engine.Prelude.{
  ℕ, ◌^◌, ◌+◌, ◌<◌, ◌≤◌, ◌≡◌, refl, false, List, length, ◌++◌, [], ◌∷◌, arith, inl, inr,
}
use cpp_orderbook_engine.Queue.{SpscQueue, spsc_queue, try_push, try_pop}
use cpp_orderbook_engine.Queue.Threads.{
  Move, produce, consume, Threads, interleave, start_threads, produce_next, consume_next,
}
use cpp_orderbook_engine.Queue.Fifo.{interleave-Fifo, racing}
use cpp_orderbook_engine.Queue.Window.{
  IsQueue, Pushes, Pops, spsc_queue-IsQueue, try_push-Pushes, try_pop-Pops,
}

abbrev new_queue : SpscQueue ℕ
new_queue = spsc_queue 0

in_range : new_queue.tail + 1 < 2 ^ 64
unfolding spsc_queue
in_range = omega arith

try_push-Pushes_example : Pushes 2 new_queue [] 7 (try_push 2 new_queue 7)
try_push-Pushes_example = try_push-Pushes 2 new_queue [] 7 (spsc_queue-IsQueue 2 0) in_range

abbrev one_item : SpscQueue ℕ
one_item = (try_push 2 new_queue 7).1

one_item-IsQueue : IsQueue 2 one_item (7 ∷ [])
one_item-IsQueue = elim (try_push-Pushes 2 new_queue [] 7 (spsc_queue-IsQueue 2 0) in_range) [
  | inl (_, _, v) ↦ v
  | inr (e, _, _) ↦ absurd (omega arith)
]

try_pop-Pops_example : Pops 2 one_item (7 ∷ []) (try_pop 2 one_item)
try_pop-Pops_example = try_pop-Pops 2 one_item (7 ∷ []) one_item-IsQueue

-- A push of 7; a push of 8 whose check comes before, and whose store comes after, the pop of the 7.
abbrev moves : List (Move ℕ)
moves =
    produce 7
    ∷ produce 7
    ∷ produce 7
    ∷ produce 7
    ∷ consume
    ∷ produce 8
    ∷ produce 8
    ∷ consume
    ∷ produce 8
    ∷ consume
    ∷ consume
    ∷ produce 8
    ∷ consume
    ∷ []

abbrev both : Threads ℕ
both = interleave 1 moves (start_threads 0)

interleave-Fifo_example :
    ((waiting : List ℕ) × (both.pushed ≡ both.popped ++ waiting) × (length waiting ≤ 2 ^ 1))
    × (racing 1 both.producer both.consumer ≡ false)
interleave-Fifo_example = interleave-Fifo 1 0 moves (omega arith)

-- The 7 has been popped and the 8 is waiting.
both_items : (both.pushed ≡ 7 ∷ 8 ∷ []) × (both.popped ≡ 7 ∷ [])
unfolding interleave start_threads produce_next consume_next spsc_queue
both_items = (refl, refl)
