-- ===== src/Queue/Race.antt =====
-- The two threads on the queue: what holds between their loads and stores, and the producer's moves.
use cpp_orderbook_engine.Prelude.{
  ℕ, suc, ◌+◌, ◌-◌, ◌%◌, ◌^◌, ◌≤◌, ◌<◌, ◌≡◌, refl, sym, subst, ◌∙◌, ap, true, false, List, [], ◌∷◌,
  ◌++◌, length, length-append, leb, update, arith, ◌==◌, Bool-cases, inl, inr,
}
use cpp_orderbook_engine.Bits.Mask.{bit_and-mask}
use cpp_orderbook_engine.Queue.{SpscQueue, masked}
use cpp_orderbook_engine.Queue.Window.{Window, nothing, item, IsQueue, different}
use cpp_orderbook_engine.Queue.Threads.{
  Producer, outside_push, tail_loaded, head_loaded, written, Consumer, outside_pop, own_loaded,
  both_loaded, read, Threads, produce_next,
}

module _ {T : Type 0} where
  -- A cell out of the window is written.
  Window-update :
      (k : ℕ) {b : ℕ → T} (h t : ℕ) (xs : List T) (x : T)
      → Window k b h xs
      → h + length xs ≤ t
      → t < h + 2 ^ k
      → Window k (update b (t % 2 ^ k) x) h xs
  Window-update k h t [] x nothing l u = nothing
  Window-update k h t (y ∷ ys) x (item e w) l u =
      let apart = different (2 ^ k) h t (omega arith) (omega arith) u in
      item (ground (arith, apart)) (Window-update k (suc h) t ys x w (omega arith) (omega arith))

  Window-last :
      (k : ℕ) {b : ℕ → T} (h : ℕ) (xs : List T) (x : T)
      → Window k b h xs
      → b ((h + length xs) % 2 ^ k) ≡ x
      → Window k b h (xs ++ x ∷ [])
  Window-last k {b} h [] x nothing e =
      let place : h + 0 ≡ h = omega arith in item (subst (λ n. b (n % 2 ^ k) ≡ x) place e) nothing
  Window-last k {b} h (y ∷ ys) x (item p w) e =
      let place : h + suc (length ys) ≡ suc h + length ys = omega arith in
      item p (Window-last k (suc h) ys x w (subst (λ n. b (n % 2 ^ k) ≡ x) place e))

  -- What a thread has loaded is true of its own counter, and not ahead of the other's.
  abbrev pub IsProducing : ℕ → SpscQueue T → List T → Producer T → Type 0
  IsProducing k q xs outside_push = Unit
  IsProducing k q xs (tail_loaded x t) = t ≡ q.tail
  IsProducing k q xs (head_loaded x t h) = (t ≡ q.tail) × (h ≤ q.head)
  IsProducing k q xs (written x t) = (t ≡ q.tail) × (length xs < 2 ^ k) × (q.buffer (t % 2 ^ k) ≡ x)

  abbrev pub IsConsuming : SpscQueue T → List T → Consumer T → Type 0
  IsConsuming q xs outside_pop = Unit
  IsConsuming q xs (own_loaded h) = h ≡ q.head
  IsConsuming q xs (both_loaded h t) = (h ≡ q.head) × (t ≤ q.tail)
  IsConsuming q xs (read x h) = (h ≡ q.head) × ((rest : List T) × (xs ≡ x ∷ rest))

  -- The queue holds `xs`: what has been pushed and not yet been popped.
  pub record IsRunning (k : ℕ) (s : Threads T) : Type 0 where
    pub xs : List T
    pub holds : IsQueue k s.queue xs
    pub producing : IsProducing k s.queue xs s.producer
    pub consuming : IsConsuming s.queue xs s.consumer
    pub ordered : s.pushed ≡ s.popped ++ xs

  IsConsuming-kept :
      (q q' : SpscQueue T) (xs xs' : List T) (c : Consumer T)
      → q'.head ≡ q.head
      → q.tail ≤ q'.tail
      → ((x : T) (rest : List T) → xs ≡ x ∷ rest → (rest' : List T) × (xs' ≡ x ∷ rest'))
      → IsConsuming q xs c
      → IsConsuming q' xs' c
  IsConsuming-kept q q' xs xs' outside_pop e l f v = v
  IsConsuming-kept q q' xs xs' (own_loaded h) e l f v = v ∙ sym e
  IsConsuming-kept q q' xs xs' (both_loaded h t) e l f (v, u) = (v ∙ sym e, omega arith)
  IsConsuming-kept q q' xs xs' (read x h) e l f (v, (rest, p)) = (v ∙ sym e, f x rest p)

  pub IsProducing-kept :
      (k : ℕ) (q : SpscQueue T) (h' : ℕ) (xs xs' : List T) (p : Producer T)
      → q.head ≤ h'
      → length xs' ≤ length xs
      → IsProducing k q xs p
      → IsProducing k (record q { head = h' }) xs' p
  IsProducing-kept k q h' xs xs' outside_push l m v = v
  IsProducing-kept k q h' xs xs' (tail_loaded x t) l m v = v
  IsProducing-kept k q h' xs xs' (head_loaded x t h) l m (v, u) = (v, omega arith)
  IsProducing-kept k q h' xs xs' (written x t) l m (v, u, w) = (v, omega arith, w)

  same_cell : (b : ℕ → T) (i : ℕ) (x : T) → update b i x i ≡ x
  same_cell b i x = let e : (i == i) ≡ true = ground arith in rw e refl

  -- A producer that has passed its check has room, though the consumer may have moved on.
  pub has_room :
      (k : ℕ) (q : SpscQueue T) (xs : List T) (t h : ℕ)
      → IsQueue k q xs
      → t ≡ q.tail
      → h ≤ q.head
      → leb (2 ^ k) ((t + (2 ^ 64 - h)) % 2 ^ 64) ≡ false
      → length xs < 2 ^ k
  has_room k q xs t h v e l c =
      let n = v.counted in
      let u = v.unwrapped in
      let m : (t + (2 ^ 64 - h)) % 2 ^ 64 ≡ t - h = omega arith in
      let c' : leb (2 ^ k) (t - h) ≡ false = rw m at c in ground arith

  pub append_assoc : (ws ys zs : List T) → (ws ++ ys) ++ zs ≡ ws ++ (ys ++ zs)
  append_assoc [] ys zs = refl
  append_assoc (w ∷ ws) ys zs = rw (append_assoc ws ys zs) refl

  write_kept :
      (k : ℕ) (x : T) (t : ℕ) (s : Threads T) (v : IsRunning k s)
      → t ≡ s.queue.tail
      → length v.xs < 2 ^ k
      → IsRunning k (record s {
        queue = record s.queue { buffer = update s.queue.buffer (masked k t) x };
        producer = written x t;
      })
  write_kept k x t s v own room =
      let n = v.holds.counted in
      record {
        xs = v.xs;
        holds = record {
          window =
              rw (bit_and-mask k t)
                (Window-update k s.queue.head t v.xs x v.holds.window (omega arith) (omega arith));
          counted = n;
          bounded = v.holds.bounded;
          unwrapped = v.holds.unwrapped;
        };
        producing = (own, room, rw (bit_and-mask k t) (same_cell s.queue.buffer (t % 2 ^ k) x));
        consuming =
            IsConsuming-kept s.queue
              (record s.queue { buffer = update s.queue.buffer (masked k t) x }) v.xs v.xs
              s.consumer refl (omega arith) (λ y rest e. (rest, e)) v.consuming;
        ordered = v.ordered;
      }

  store_kept :
      (k : ℕ) (x : T) (t : ℕ) (s : Threads T) (v : IsRunning k s)
      → t ≡ s.queue.tail
      → length v.xs < 2 ^ k
      → s.queue.buffer (t % 2 ^ k) ≡ x
      → s.queue.tail + 1 < 2 ^ 64
      → IsRunning k (record s {
        queue = record s.queue { tail = (t + 1) % 2 ^ 64 };
        producer = outside_push;
        pushed = s.pushed ++ x ∷ [];
      })
  store_kept k x t s v own room cell u =
      let n = v.holds.counted in
      let stored : (t + 1) % 2 ^ 64 ≡ s.queue.tail + 1 = omega arith in
      let at : t ≡ s.queue.head + length v.xs = omega arith in
      let more = length-append v.xs (x ∷ []) in
      record {
        xs = v.xs ++ x ∷ [];
        holds = record {
          window =
              Window-last k s.queue.head v.xs x v.holds.window
                (subst (λ m. s.queue.buffer (m % 2 ^ k) ≡ x) at cell);
          counted = stored ∙ omega (arith, more);
          bounded = omega (arith, more);
          unwrapped = rw stored u;
        };
        producing = tt;
        consuming =
            IsConsuming-kept s.queue (record s.queue { tail = (t + 1) % 2 ^ 64 }) v.xs
              (v.xs ++ x ∷ []) s.consumer refl (omega arith)
              (λ y rest e. (rest ++ x ∷ [], rw e refl)) v.consuming;
        ordered = ap (λ l. l ++ x ∷ []) v.ordered ∙ append_assoc s.popped v.xs (x ∷ []);
      }

  pub produce_next-IsRunning :
      (k : ℕ) (y : T) (p : Producer T) (s : Threads T)
      → s.producer ≡ p
      → IsRunning k s
      → s.queue.tail + 1 < 2 ^ 64
      → IsRunning k (produce_next k y p s)
  unfolding produce_next
  produce_next-IsRunning k y outside_push s e v u = record {
    xs = v.xs;
    holds = v.holds;
    producing = refl;
    consuming = v.consuming;
    ordered = v.ordered;
  }
  produce_next-IsRunning k y (tail_loaded x t) s e v u = record {
    xs = v.xs;
    holds = v.holds;
    producing = (rw e at v.producing, omega arith);
    consuming = v.consuming;
    ordered = v.ordered;
  }
  produce_next-IsRunning k y (head_loaded x t h) s e v u =
      let (own, behind) : (t ≡ s.queue.tail) × (h ≤ s.queue.head) = rw e at v.producing in
      elim (Bool-cases (leb (2 ^ k) ((t + (2 ^ 64 - h)) % 2 ^ 64))) [
        | inl c ↦ rw c (record {
          xs = v.xs;
          holds = v.holds;
          producing = tt;
          consuming = v.consuming;
          ordered = v.ordered;
        })
        | inr c ↦ rw c (write_kept k x t s v own (has_room k s.queue v.xs t h v.holds own behind c))
      ]
  produce_next-IsRunning k y (written x t) s e v u =
      let (own, room, cell) : IsProducing k s.queue v.xs (written x t) = rw e at v.producing in
      store_kept k x t s v own room cell u
