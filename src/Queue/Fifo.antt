-- ===== src/Queue/Fifo.antt =====
-- The two threads on the queue: nothing is lost, doubled or reordered, and no cell is written while it
-- is read.
use cpp_orderbook_engine.Prelude.{
  ℕ, suc, ◌+◌, ◌-◌, ◌%◌, ◌^◌, ◌≤◌, ◌<◌, ◌≡◌, refl, sym, ◌∙◌, ap, Bool, false, List, [], ◌∷◌, ◌++◌,
  length, leb, arith, not, ◌&&◌, ◌==◌, Bool-cases, inl, inr,
}
use cpp_orderbook_engine.Bits.Mask.{bit_and-mask}
use cpp_orderbook_engine.Queue.{masked, spsc_queue}
use cpp_orderbook_engine.Queue.Window.{Window, nothing, item, different, spsc_queue-IsQueue}
use cpp_orderbook_engine.Queue.Race.{
  IsRunning, IsProducing, IsConsuming, IsProducing-kept, append_assoc, has_room,
  produce_next-IsRunning,
}
use cpp_orderbook_engine.Queue.Threads.{
  Producer, outside_push, tail_loaded, head_loaded, written, Consumer, outside_pop, own_loaded,
  both_loaded, read, Threads, Move, produce, consume, start_threads, produce_next, consume_next,
  move, interleave,
}

module _ {T : Type 0} where
  first_item :
      (k : ℕ) {b : ℕ → T} {h : ℕ} {xs : List T}
      → Window k b h xs
      → 0 < length xs
      → (rest : List T) × (xs ≡ b (h % 2 ^ k) ∷ rest)
  first_item k nothing l = absurd (omega arith)
  first_item k (item {xs = rest} e w) l = (rest, rw e refl)

  later_items :
      (k : ℕ) {b : ℕ → T} {h : ℕ} {x : T} {rest : List T}
      → Window k b h (x ∷ rest)
      → Window k b (suc h) rest
  later_items k (item e w) = w

  pop_kept :
      (k : ℕ) (x : T) (h : ℕ) (s : Threads T) (v : IsRunning k s) (rest : List T)
      → h ≡ s.queue.head
      → v.xs ≡ x ∷ rest
      → IsRunning k (record s {
        queue = record s.queue { head = (h + 1) % 2 ^ 64 };
        consumer = outside_pop;
        popped = s.popped ++ x ∷ [];
      })
  pop_kept k x h s v rest own e =
      let n : s.queue.tail ≡ s.queue.head + length (x ∷ rest) = rw e at v.holds.counted in
      let m : length (x ∷ rest) ≤ 2 ^ k = rw e at v.holds.bounded in
      let u = v.holds.unwrapped in
      let stored : (h + 1) % 2 ^ 64 ≡ suc s.queue.head = omega arith in
      let w : Window k s.queue.buffer s.queue.head (x ∷ rest) = rw e at v.holds.window in
      let shorter : length rest ≤ length v.xs = rw e (omega arith) in
      record {
        xs = rest;
        holds = record {
          window = rw stored (later_items k w);
          counted = rw stored (omega arith);
          bounded = omega arith;
          unwrapped = u;
        };
        producing =
            IsProducing-kept k s.queue ((h + 1) % 2 ^ 64) v.xs rest s.producer (omega arith) shorter
              v.producing;
        consuming = tt;
        ordered = v.ordered ∙ ap (λ l. s.popped ++ l) e ∙ sym (append_assoc s.popped (x ∷ []) rest);
      }

  consume_next-IsRunning :
      (k : ℕ) (c : Consumer T) (s : Threads T)
      → s.consumer ≡ c
      → IsRunning k s
      → IsRunning k (consume_next k c s)
  unfolding consume_next
  consume_next-IsRunning k outside_pop s e v = record {
    xs = v.xs;
    holds = v.holds;
    producing = v.producing;
    consuming = refl;
    ordered = v.ordered;
  }
  consume_next-IsRunning k (own_loaded h) s e v = record {
    xs = v.xs;
    holds = v.holds;
    producing = v.producing;
    consuming = (rw e at v.consuming, omega arith);
    ordered = v.ordered;
  }
  consume_next-IsRunning k (both_loaded h t) s e v =
      let (own, behind) : (h ≡ s.queue.head) × (t ≤ s.queue.tail) = rw e at v.consuming in
      elim (Bool-cases (leb t h)) [
        | inl c ↦ rw c (record {
          xs = v.xs;
          holds = v.holds;
          producing = v.producing;
          consuming = tt;
          ordered = v.ordered;
        })
        | inr c ↦
            let n = v.holds.counted in
            let some_item : 0 < length v.xs = ground arith in
            let (rest, p) = first_item k v.holds.window some_item in
            let cell : s.queue.buffer (s.queue.head % 2 ^ k) ≡ s.queue.buffer (masked k h) =
              ap s.queue.buffer (sym (bit_and-mask k h ∙ ap (λ m. m % 2 ^ k) own)) in
            rw c (record {
              xs = v.xs;
              holds = v.holds;
              producing = v.producing;
              consuming = (own, (rest, p ∙ ap (λ y. y ∷ rest) cell));
              ordered = v.ordered;
            })
      ]
  consume_next-IsRunning k (read x h) s e v =
      let (own, (rest, p)) : IsConsuming s.queue v.xs (read x h) = rw e at v.consuming in
      pop_kept k x h s v rest own p

  tail_produce :
      (k : ℕ) (y : T) (p : Producer T) (s : Threads T)
      → s.producer ≡ p
      → IsRunning k s
      → (produce_next k y p s).queue.tail ≤ s.queue.tail + 1
  unfolding produce_next
  tail_produce k y outside_push s e v = omega arith
  tail_produce k y (tail_loaded x t) s e v = omega arith
  tail_produce k y (head_loaded x t h) s e v =
      elim (Bool-cases (leb (2 ^ k) ((t + (2 ^ 64 - h)) % 2 ^ 64))) [
        | inl c ↦ rw c (omega arith)
        | inr c ↦ rw c (omega arith)
      ]
  tail_produce k y (written x t) s e v =
      let (own, room, cell) : IsProducing k s.queue v.xs (written x t) = rw e at v.producing in
      omega arith

  tail_consume :
      (k : ℕ) (c : Consumer T) (s : Threads T) → (consume_next k c s).queue.tail ≤ s.queue.tail + 1
  unfolding consume_next
  tail_consume k outside_pop s = omega arith
  tail_consume k (own_loaded h) s = omega arith
  tail_consume k (both_loaded h t) s = elim (Bool-cases (leb t h)) [
    | inl c ↦ rw c (omega arith)
    | inr c ↦ rw c (omega arith)
  ]
  tail_consume k (read x h) s = omega arith

  -- The producer moves its counter by one at most.
  tail_move :
      (k : ℕ) (m : Move T) (s : Threads T)
      → IsRunning k s
      → (move k m s).queue.tail ≤ s.queue.tail + 1
  tail_move k (produce x) s v = tail_produce k x s.producer s refl v
  tail_move k consume s v = tail_consume k s.consumer s

  move-IsRunning :
      (k : ℕ) (m : Move T) (s : Threads T)
      → IsRunning k s
      → s.queue.tail + 1 < 2 ^ 64
      → IsRunning k (move k m s)
  move-IsRunning k (produce x) s v u = produce_next-IsRunning k x s.producer s refl v u
  move-IsRunning k consume s v u = consume_next-IsRunning k s.consumer s refl v

  interleave-IsRunning :
      (k : ℕ) (ms : List (Move T)) (s : Threads T)
      → IsRunning k s
      → s.queue.tail + length ms < 2 ^ 64
      → IsRunning k (interleave k ms s)
  unfolding interleave
  interleave-IsRunning k [] s v u = v
  interleave-IsRunning k (m ∷ ms) s v u =
      let l = tail_move k m s v in
      interleave-IsRunning k ms (move k m s) (move-IsRunning k m s v (omega arith)) (omega arith)

  -- The producer is about to write the cell that the consumer is about to read.
  pub racing : ℕ → Producer T → Consumer T → Bool
  racing k (head_loaded x t h) (both_loaded h' t') =
      not (leb (2 ^ k) ((t + (2 ^ 64 - h)) % 2 ^ 64))
      && not (leb t' h')
      && (masked k t == masked k h')
  racing k _ _ = false

  not_racing :
      (k : ℕ) (s : Threads T) (p : Producer T) (c : Consumer T)
      → s.producer ≡ p
      → s.consumer ≡ c
      → IsRunning k s
      → racing k p c ≡ false
  unfolding racing
  not_racing k s (head_loaded x t h) (both_loaded h' t') e e' v =
      let (own, behind) : (t ≡ s.queue.tail) × (h ≤ s.queue.head) = rw e at v.producing in
      let (own', behind') : (h' ≡ s.queue.head) × (t' ≤ s.queue.tail) = rw e' at v.consuming in
      let n = v.holds.counted in
      elim (Bool-cases (leb (2 ^ k) ((t + (2 ^ 64 - h)) % 2 ^ 64))) [
        | inl c ↦ rw c refl
        | inr c ↦ elim (Bool-cases (leb t' h')) [
          | inl c' ↦ rw (c, c') refl
          | inr c' ↦
              let room = has_room k s.queue v.xs t h v.holds own behind c in
              let ahead : h' < t = ground arith in
              let apart = different (2 ^ k) h' t (omega arith) ahead (omega arith) in
              rw (c, c', bit_and-mask k t, bit_and-mask k h') (ground (arith, apart))
        ]
      ]
  not_racing k s outside_push c e e' v = refl
  not_racing k s (tail_loaded x t) c e e' v = refl
  not_racing k s (written x t) c e e' v = refl
  not_racing k s (head_loaded x t h) outside_pop e e' v = refl
  not_racing k s (head_loaded x t h) (own_loaded h') e e' v = refl
  not_racing k s (head_loaded x t h) (read y h') e e' v = refl

  -- After every interleaving of fewer than 2 ^ 64 loads and stores of one producer in calls of
  -- `try_push` and one consumer in calls of `try_pop`, on a new queue of capacity 2 ^ k and
  -- with the loads and stores taking effect in their order, the items popped are the first of
  -- those pushed, in their order, at most 2 ^ k are waiting, and the producer is not about to
  -- write the cell that the consumer is about to read.
  pub interleave-Fifo :
      (k : ℕ) (zero_item : T) (ms : List (Move T))
      → length ms < 2 ^ 64
      → let s = interleave k ms (start_threads zero_item) in
        ((waiting : List T) × (s.pushed ≡ s.popped ++ waiting) × (length waiting ≤ 2 ^ k))
        × (racing k s.producer s.consumer ≡ false)
  unfolding start_threads spsc_queue
  interleave-Fifo k zero_item ms l =
      let begun : IsRunning k (start_threads zero_item) = record {
        xs = [];
        holds = spsc_queue-IsQueue k zero_item;
        producing = tt;
        consuming = tt;
        ordered = refl;
      } in
      let v = interleave-IsRunning k ms (start_threads zero_item) begun (omega (arith, l)) in
      ((v.xs, v.ordered, v.holds.bounded), not_racing k _ _ _ refl refl v)
