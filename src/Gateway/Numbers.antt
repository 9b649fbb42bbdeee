-- ===== src/Gateway/Numbers.antt =====
-- What the gateway puts into the queue: the orders submitted one after another, numbered.
use mathlib.Core.List.{append-nil, append_assoc}
use cpp_orderbook_engine.Prelude.{
  ℕ, zero, suc, ◌+◌, ◌^◌, ◌<◌, ◌≡◌, refl, sym, subst, ap, ◌∙◌, Bool, true, false, List, [], ◌∷◌,
  ◌++◌, length, length-append, arith, inl, inr,
}
use cpp_orderbook_engine.Types.{IncomingOrder}
use cpp_orderbook_engine.Queue.{try_push}
use cpp_orderbook_engine.Queue.Window.{IsQueue, Pushes, try_push-Pushes}
use cpp_orderbook_engine.Gateway.{OrderGateway, submit, sequenced}

-- Calls of `submit` one after another, with no `try_pop` between them.
unfoldable pub submit_all : OrderGateway → List IncomingOrder → List Bool × OrderGateway
submit_all g [] = ([], g)
submit_all g (o ∷ os) = let (ok, g) = submit g o in let (oks, g) = submit_all g os in (ok ∷ oks, g)

-- Orders with the timestamps n, n + 1, and so on.
abbrev pub numbered : ℕ → List IncomingOrder → List IncomingOrder
numbered n [] = []
numbered n (o ∷ os) =
    record {
      id = o.id;
      side = o.side;
      type = o.type;
      price = o.price;
      quantity = o.quantity;
      timestamp = n;
    }
    ∷ numbered (suc n) os

-- Whether each order finds room, of which there is some for n orders.
abbrev pub admitted : ℕ → List IncomingOrder → List Bool
admitted n [] = []
admitted zero (o ∷ os) = false ∷ admitted zero os
admitted (suc n) (o ∷ os) = true ∷ admitted n os

abbrev pub take {ℓ} : {A : Type ℓ} → ℕ → List A → List A
take zero xs = []
take (suc n) [] = []
take (suc n) (x ∷ xs) = x ∷ take n xs

-- What `submit_all` leads to, with room for `room` orders in the queue that holds `xs`.
pub record Submitted (g : OrderGateway) (xs : List IncomingOrder) (room : ℕ)
    (os : List IncomingOrder) (oks : List Bool) (g' : OrderGateway) : Type 0 where
  pub queued : IsQueue 16 g'.queue (xs ++ take room (numbered g.next_sequence os))
  pub told : oks ≡ admitted room os
  pub moved : g'.next_sequence ≡ g.next_sequence + length os

submit-Pushes :
    (g : OrderGateway) (xs : List IncomingOrder) (o : IncomingOrder)
    → IsQueue 16 g.queue xs
    → g.queue.tail + 1 < 2 ^ 64
    → g.next_sequence + 1 < 2 ^ 64
    → Pushes 16 g.queue xs (sequenced g o) ((submit g o).0, (submit g o).1.queue)
      × ((submit g o).1.next_sequence ≡ g.next_sequence + 1)
unfolding submit
submit-Pushes g xs o v t s = (try_push-Pushes 16 g.queue xs (sequenced g o) v t, omega arith)

submit-head : (g : OrderGateway) (o : IncomingOrder) → (submit g o).1.queue.head ≡ g.queue.head
unfolding submit try_push
submit-head g o = ground arith

later :
    (g : OrderGateway) (xs : List IncomingOrder) (o : IncomingOrder) (room : ℕ)
    (os : List IncomingOrder) {n : ℕ}
    → n ≡ g.next_sequence + 1
    → (xs ++ sequenced g o ∷ []) ++ take room (numbered n os)
      ≡ xs ++ take (suc room) (numbered g.next_sequence (o ∷ os))
later g xs o room os {n} e =
    let next : n ≡ suc g.next_sequence = omega arith in
    append_assoc xs (sequenced g o ∷ []) (take room (numbered n os))
    ∙ ap (λ m. xs ++ sequenced g o ∷ take room (numbered m os)) next

-- Orders submitted one after another, with no `try_pop` between them, to a queue that holds xs
-- and has room for `room` more, the queue's tail and the sequence number below 2 ^ 64 less the
-- count of the orders: the first `room` of them are accepted and stand after xs in their order,
-- unchanged but for the timestamps, which are the sequence numbers counted on from the gateway's;
-- the others are refused; and every one of them, refused or not, uses up a sequence number.
pub submit_all-Submitted :
    (g : OrderGateway) (xs : List IncomingOrder) (room : ℕ) (os : List IncomingOrder)
    → IsQueue 16 g.queue xs
    → length xs + room ≡ 2 ^ 16
    → g.queue.tail + length os < 2 ^ 64
    → g.next_sequence + length os < 2 ^ 64
    → Submitted g xs room os (submit_all g os).0 (submit_all g os).1
unfolding submit_all
submit_all-Submitted g xs zero [] v r t s = record {
  queued = rw (append-nil xs) v;
  told = refl;
  moved = omega arith;
}
submit_all-Submitted g xs (suc room) [] v r t s = record {
  queued = rw (append-nil xs) v;
  told = refl;
  moved = omega arith;
}
submit_all-Submitted g xs zero (o ∷ os) v r t s =
    let (pushed, moved) = submit-Pushes g xs o v (omega arith) (omega arith) in
    elim pushed [
      | inl (h, _, _) ↦ absurd (omega arith)
      | inr (_, refused, same) ↦
          let d =
            submit_all-Submitted (submit g o).1 xs zero os
              (subst (λ q. IsQueue 16 q xs) (sym same) v) r (rw same (omega arith))
              (omega (arith, moved)) in
          record {
            queued = d.queued;
            told = rw (refused, d.told) refl;
            moved = omega (arith, d.moved, moved);
          }
    ]
submit_all-Submitted g xs (suc room) (o ∷ os) v r t s =
    let (pushed, moved) = submit-Pushes g xs o v (omega arith) (omega arith) in
    elim pushed [
      | inr (h, _, _) ↦ absurd (omega arith)
      | inl (_, accepted, w) ↦
          let d =
            submit_all-Submitted (submit g o).1 (xs ++ sequenced g o ∷ []) room os w
              (omega (arith, length-append xs (sequenced g o ∷ [])))
              (omega (
                arith,
                w.counted,
                v.counted,
                submit-head g o,
                length-append xs (sequenced g o ∷ []),
              ))
              (omega (arith, moved)) in
          record {
            queued =
                subst (IsQueue 16 (submit_all (submit g o).1 os).1.queue)
                  (later g xs o room os moved) d.queued;
            told = rw (accepted, d.told) refl;
            moved = omega (arith, d.moved, moved);
          }
    ]
