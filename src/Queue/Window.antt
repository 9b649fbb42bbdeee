-- ===== src/Queue/Window.antt =====
-- The queue as a list: the items between the two counters.
use native.Mathlib.Nat.{mod-add-div, mul-suc, mul-le-mul_left}
use native.Mathlib.Decide.{dec_lt}
use cpp_orderbook_engine.Prelude.{
  ℕ, suc, ◌+◌, ◌-◌, ◌*◌, ◌/◌, ◌%◌, ◌^◌, ◌≤◌, ◌<◌, ◌≡◌, ◌≢◌, refl, subst, ◌∙◌, ap, Bool, true, false,
  Option, none, some, List, [], ◌∷◌, ◌++◌, length, length-append, leb, update, arith, Bool-cases,
  ◌⊎◌, inl, inr,
}
use cpp_orderbook_engine.Bits.Mask.{bit_and-mask}
use cpp_orderbook_engine.Queue.{SpscQueue, spsc_queue, try_push, try_pop}

-- From index `h` on the buffer holds the items `xs`.
pub data Window {ℓ} {T : Type ℓ} (k : ℕ) (b : ℕ → T) : ℕ → List T → Type ℓ where
  nothing : {h : ℕ} → Window k b h []
  item :
      {h : ℕ} {x : T} {xs : List T}
      → b (h % 2 ^ k) ≡ x
      → Window k b (suc h) xs
      → Window k b h (x ∷ xs)

-- A queue that holds `xs`, the oldest item first. The counters have not wrapped around.
pub record IsQueue {ℓ} {T : Type ℓ} (k : ℕ) (q : SpscQueue T) (xs : List T) : Type ℓ where
  pub window : Window k q.buffer q.head xs
  pub counted : q.tail ≡ q.head + length xs
  pub bounded : length xs ≤ 2 ^ k
  pub unwrapped : q.tail < 2 ^ 64

-- Two indices of one window have different places.
pub different : (m h t : ℕ) → 0 < m → h < t → t < h + m → h % m ≢ t % m
different m h t p l u e =
    let hm = mod-add-div h m in
    let tm = mod-add-div t m in
    elim (dec_lt (h / m) (t / m)) [
      | yes q ↦
          let step : m * (h / m) + m ≤ m * (t / m) =
            subst (λ n. n ≤ m * (t / m)) (mul-suc m (h / m)) (mul-le-mul_left m q) in
          omega (arith, hm, tm, step, e)
      | no q ↦
          let step : m * (t / m) ≤ m * (h / m) = mul-le-mul_left m (omega arith) in
          omega (arith, hm, tm, step, e)
    ]

pub snoc {ℓ} :
    {T : Type ℓ} (k : ℕ) {b : ℕ → T} (h : ℕ) (xs : List T) (x : T)
    → Window k b h xs
    → length xs < 2 ^ k
    → Window k (update b ((h + length xs) % 2 ^ k) x) h (xs ++ x ∷ [])
snoc k h [] x nothing l = item (ground arith) nothing
snoc k h (y ∷ ys) x (item e w) l =
    let place : h + suc (length ys) ≡ suc h + length ys = omega arith in
    let apart = different (2 ^ k) h (suc h + length ys) (omega arith) (omega arith) (omega arith) in
    rw place (item (ground (arith, apart)) (snoc k (suc h) ys x w (omega arith)))

-- A new queue is empty.
pub spsc_queue-IsQueue {ℓ} : {T : Type ℓ} (k : ℕ) (x : T) → IsQueue k (spsc_queue x) []
unfolding spsc_queue
spsc_queue-IsQueue k x = record {
  window = nothing;
  counted = refl;
  bounded = omega arith;
  unwrapped = omega arith;
}

-- What `try_push` does, by the list: it appends the item if there is room, and says so, and fails
-- and changes nothing if there is none.
abbrev pub Pushes {ℓ} : {T : Type ℓ} → ℕ → SpscQueue T → List T → T → Bool × SpscQueue T → Type ℓ
Pushes k q xs x (ok, q') =
    ((length xs < 2 ^ k) × (ok ≡ true) × IsQueue k q' (xs ++ x ∷ []))
    ⊎ ((length xs ≡ 2 ^ k) × (ok ≡ false) × (q' ≡ q))

-- The counters' difference is the count of the items.
difference {ℓ} :
    {T : Type ℓ} {k : ℕ} {q : SpscQueue T} {xs : List T}
    → IsQueue k q xs
    → (q.tail + (2 ^ 64 - q.head)) % 2 ^ 64 ≡ length xs
difference {q} v = let c = v.counted in let u = v.unwrapped in omega arith

-- On a queue of capacity 2 ^ k that holds the list xs, its tail below 2 ^ 64 - 1, `try_push`
-- appends the item and says true if xs is shorter than the capacity, and says false and changes
-- nothing otherwise.
pub try_push-Pushes {ℓ} :
    {T : Type ℓ} (k : ℕ) (q : SpscQueue T) (xs : List T) (x : T)
    → IsQueue k q xs
    → q.tail + 1 < 2 ^ 64
    → Pushes k q xs x (try_push k q x)
unfolding try_push
try_push-Pushes k q xs x v u = elim (Bool-cases (leb (2 ^ k) (length xs))) [
  | inl e ↦ let b = v.bounded in rw (difference v, e) (inr (ground arith, refl, refl))
  | inr e ↦
      let room : length xs < 2 ^ k = ground arith in
      let next : (q.tail + 1) % 2 ^ 64 ≡ q.tail + 1 = omega arith in
      rw (difference v, e)
        (inl (
          room,
          refl,
          record {
            window = rw (bit_and-mask k q.tail, v.counted) (snoc k q.head xs x v.window room);
            counted = rw next (omega (arith, v.counted, length-append xs (x ∷ [])));
            bounded = omega (arith, length-append xs (x ∷ []));
            unwrapped = rw next u;
          },
        ))
]

-- What `try_pop` does, by the list: it takes the oldest item, or fails and changes nothing if there
-- is none.
abbrev pub Pops {ℓ} : {T : Type ℓ} → ℕ → SpscQueue T → List T → Option T × SpscQueue T → Type ℓ
Pops k q [] (got, q') = (got ≡ none) × (q' ≡ q)
Pops k q (x ∷ xs) (got, q') = (got ≡ some x) × IsQueue k q' xs

-- On a queue of capacity 2 ^ k that holds the list xs `try_pop` takes the oldest item, and gives
-- nothing and changes nothing if xs is empty.
pub try_pop-Pops {ℓ} :
    {T : Type ℓ} (k : ℕ) (q : SpscQueue T) (xs : List T)
    → IsQueue k q xs
    → Pops k q xs (try_pop k q)
unfolding try_pop
try_pop-Pops k q [] v =
    let c = v.counted in let e : leb q.tail q.head ≡ true = ground arith in rw e (refl, refl)
try_pop-Pops k q (x ∷ xs) v = popped v.window
  where
    popped : Window k q.buffer q.head (x ∷ xs) → Pops k q (x ∷ xs) (try_pop k q)
    popped (item p w) =
        let c = v.counted in
        let u = v.unwrapped in
        let b = v.bounded in
        let e : leb q.tail q.head ≡ false = ground arith in
        let next : (q.head + 1) % 2 ^ 64 ≡ suc q.head = omega arith in
        rw e (
          ap (λ n. some (q.buffer n)) (bit_and-mask k q.head) ∙ ap some p,
          record {
            window = rw next w;
            counted = rw next (omega arith);
            bounded = omega arith;
            unwrapped = u;
          },
        )
