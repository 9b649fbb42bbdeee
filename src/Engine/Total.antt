-- ===== src/Engine/Total.antt =====
-- Matching always ends with a result: the incoming order is exhausted, or no level that is left
-- crosses it.
use cpp_orderbook_engine.Prelude.{
  ℕ, zero, suc, ◌+◌, ◌≤◌, ◌<◌, ◌≡◌, ◌≢◌, refl, sym, ◌∙◌, ap, ℤ, pos, negsuc, ltb_ℤ, true, false,
  List, [], ◌∷◌, arith, length, ◌==◌, if◌then◌else◌, Bool-cases, inl, inr, ◌⊎◌, Option, some,
}
use native.Mathlib.Decide.{dec_lt}
use cpp_orderbook_engine.Types.{Side, buy, sell, IncomingOrder}
use cpp_orderbook_engine.Order.{Slot}
use cpp_orderbook_engine.Bitset.Find.{find_highest-IsHighest, find_lowest-IsLowest}
use cpp_orderbook_engine.Ladder.{index_to_price, find_best_bid, find_best_ask}
use cpp_orderbook_engine.Ladder.Index.{index_to_price-unit}
use cpp_orderbook_engine.Ladder.Side.{in_range, Queues, nonempty}
use cpp_orderbook_engine.Engine.{MatchingEngine, ladder, opposite}
use cpp_orderbook_engine.Engine.Match.{
  Matching, crosses, match_level, match_loop, match_order, level_fuel, best_index,
}
use cpp_orderbook_engine.Engine.Book.{Book, IsBook}
use cpp_orderbook_engine.Engine.Trace.{Stage, IsStage, IsBest, Reach, here, Reach-trans}
use cpp_orderbook_engine.Engine.Loop.{LevelDone, match_level_lem}

-- How many of the first `n` levels hold orders.
count : ℕ → Queues → ℕ
count zero q = 0
count (suc n) q = (if nonempty (q n) then 1 else 0) + count n q

count-le : (n : ℕ) (q : Queues) → count n q ≤ n
unfolding count
count-le zero q = omega arith
count-le (suc n) q = ground (arith, count-le n q)

count_same : (n : ℕ) (q q' : Queues) → ((j : ℕ) → j < n → q' j ≡ q j) → count n q' ≡ count n q
unfolding count
count_same zero q q' same = refl
count_same (suc n) q q' same =
    rw (same n (omega arith), count_same n q q' (λ j h. same j (omega arith)))

-- Emptying a level that holds orders lowers the count by one.
count_drop :
    (n i : ℕ) (q q' : Queues)
    → i < n
    → ((j : ℕ) → j ≢ i → q' j ≡ q j)
    → q' i ≡ []
    → nonempty (q i) ≡ true
    → suc (count n q') ≡ count n q
unfolding count
count_drop zero i q q' h same e ne = absurd (omega arith)
count_drop (suc n) i q q' h same e ne = elim (dec_lt i n) [
  | yes l ↦
      let rest = count_drop n i q q' l same e ne in rw (same n (omega arith)) (omega (arith, rest))
  | no l ↦
      let last : i ≡ n = omega arith in
      let e' : q' n ≡ [] = rw last at e in
      let ne' : nonempty (q n) ≡ true = rw last at ne in
      rw (e', ne', count_same n q q' (λ j k. same j (omega arith))) (omega arith)
]

nil_of_empty : (xs : List Slot) → nonempty xs ≡ false → xs ≡ []
nil_of_empty [] e = refl
nil_of_empty (x ∷ xs) e = absurd (cc)

cons_of_nonempty :
    (xs : List Slot) → nonempty xs ≡ true → (o : Slot) × (rest : List Slot) × (xs ≡ o ∷ rest)
cons_of_nonempty [] e = absurd (cc)
cons_of_nonempty (o ∷ rest) e = (o, rest, refl)

-- The index that the engine picks is that of the best level, or -1 if the side is empty.
abbrev pub Picks : Side → Book → ℕ → ℤ → Type 0
Picks s q width r =
    ((r ≡ negsuc 0) × ((j : ℕ) → q (opposite s) j ≡ []))
    ⊎ ((idx : ℕ) × (r ≡ pos idx)
        × (idx < width)
        × (nonempty (q (opposite s) idx) ≡ true)
        × IsBest s q idx)

pub best_index-Picks :
    (s : Side) {e : MatchingEngine} {free : List Slot} {q : Book}
    → IsBook e free q
    → Picks s q (ladder (opposite s) e).max_levels (best_index s e)
unfolding best_index find_best_ask find_best_bid
best_index-Picks buy {e} {q} v =
    let l = v.sides sell in
    elim (find_lowest-IsLowest e.asks.occupied_bits l.bits) [
      | inl (r, clear) ↦ inl (r, λ j. nil_of_empty (q sell j) (sym (l.occupied j) ∙ clear j))
      | inr (m, r, set, below) ↦
          let full = sym (l.occupied m) ∙ set in
          inr (
            m,
            r,
            in_range m l full,
            full,
            λ j h. nil_of_empty (q sell j) (sym (l.occupied j) ∙ below j h),
          )
    ]
best_index-Picks sell {e} {q} v =
    let l = v.sides buy in
    elim (find_highest-IsHighest e.bids.occupied_bits l.bits) [
      | inl (r, clear) ↦ inl (r, λ j. nil_of_empty (q buy j) (sym (l.occupied j) ∙ clear j))
      | inr (m, r, set, above) ↦
          let full = sym (l.occupied m) ∙ set in
          inr (
            m,
            r,
            in_range m l full,
            full,
            λ j h. nil_of_empty (q buy j) (sym (l.occupied j) ∙ above j h),
          )
    ]

-- Nothing is left to match: the incoming order is exhausted, or crosses no order of the book.
abbrev pub Settled : Side → Stage → Type 0
Settled s t =
    (t.now.order.quantity ≡ pos 0)
    ⊎ ((j : ℕ) → nonempty (t.book (opposite s) j) ≡ true → crosses s t.now.order (pos j) ≡ false)

-- What the matching has done when it ends.
pub record MatchDone (s : Side) (t : Stage) (r : Option Matching) : Type 0 where
  pub stage : Stage
  pub result : r ≡ some stage.now
  pub valid : IsStage stage
  pub reached : Reach s t stage
  pub settled : Settled s stage

-- If the best level does not cross, no level does.
worse_levels :
    (s : Side) (o : IncomingOrder) (q : Book) (idx : ℕ)
    → IsBest s q idx
    → crosses s o (pos idx) ≡ false
    → (j : ℕ) → nonempty (q (opposite s) j) ≡ true
    → crosses s o (pos j) ≡ false
unfolding crosses
worse_levels buy o q idx b c j ne = elim (dec_lt j idx) [
  | yes l ↦ let e = b j l in absurd (ground arith)
  | no l ↦ ground arith
]
worse_levels sell o q idx b c j ne = elim (dec_lt idx j) [
  | yes l ↦ let e = b j l in absurd (ground arith)
  | no l ↦ ground arith
]

module _ (s : Side) where
  done :
      {t : Stage} {r : Option Matching} → IsStage t → r ≡ some t.now → Settled s t → MatchDone s t r
  done {t} v e f = record { stage = t; result = e; valid = v; reached = here; settled = f }

  -- The ways through one round of the outer loop.
  loop_exhausted :
      (fuel : ℕ) (m : Matching)
      → ltb_ℤ (pos 0) m.order.quantity ≡ false
      → match_loop (suc fuel) s m ≡ some m
  unfolding match_loop
  loop_exhausted fuel m e = rw (e, match_loop)

  loop_empty :
      (fuel : ℕ) (m : Matching)
      → ltb_ℤ (pos 0) m.order.quantity ≡ true
      → best_index s m.engine ≡ negsuc 0
      → match_loop (suc fuel) s m ≡ some m
  unfolding match_loop
  loop_empty fuel m e b = rw (e, match_loop, b)

  module _ (fuel : ℕ) (m : Matching) (idx : ℕ) (e : ltb_ℤ (pos 0) m.order.quantity ≡ true)
      (b : best_index s m.engine ≡ pos idx)
      (p : index_to_price (ladder (opposite s) m.engine) (pos idx) ≡ pos idx) where
    loop_apart : crosses s m.order (pos idx) ≡ false → match_loop (suc fuel) s m ≡ some m
    unfolding match_loop
    loop_apart c = rw (e, match_loop, b, p, c)

    loop_level :
        (m' : Matching)
        → crosses s m.order (pos idx) ≡ true
        → match_level (level_fuel s idx m) s idx m ≡ some m'
        → match_loop (suc fuel) s m ≡ match_loop fuel s m'
    unfolding match_loop
    loop_level m' c r = rw (e, match_loop, b, p, c, r)

  finished :
      (fuel : ℕ) (t : Stage)
      → 0 < fuel
      → IsStage t
      → t.now.order.quantity ≡ pos 0
      → MatchDone s t (match_loop fuel s t.now)
  finished zero t h v e = absurd (omega arith)
  finished (suc fuel) t h v e = done v (loop_exhausted fuel t.now (rw e refl)) (inl e)

  extend : {t u : Stage} {r : Option Matching} → Reach s t u → MatchDone s u r → MatchDone s t r
  extend r d = record {
    stage = d.stage;
    result = d.result;
    valid = d.valid;
    reached = Reach-trans r d.reached;
    settled = d.settled;
  }

  enough_level_fuel :
      (t : Stage) (idx : ℕ) → IsStage t → length (t.book (opposite s) idx) < level_fuel s idx t.now
  unfolding level_fuel
  enough_level_fuel t idx v = omega (arith, ((v.booked.sides (opposite s)).level idx).counted)

  -- After the inner loop at level `idx` the outer loop goes on with a level less, or ends.
  after_level :
      (fuel n idx : ℕ) (t : Stage) {r : Option Matching}
      → ((j : ℕ) → nonempty (t.book (opposite s) j) ≡ true → j < n)
      → suc (count n (t.book (opposite s))) < suc fuel
      → nonempty (t.book (opposite s) idx) ≡ true
      → ((u : Stage)
          → IsStage u
          → ((j : ℕ) → nonempty (u.book (opposite s) j) ≡ true → j < n)
          → suc (count n (u.book (opposite s))) < fuel
          → MatchDone s u (match_loop fuel s u.now))
      → (d : LevelDone s idx t r) → MatchDone s t (match_loop fuel s d.stage.now)
  after_level fuel n idx t w h full again d =
      extend d.reached (elim (Bool-cases (ltb_ℤ (pos 0) d.stage.now.order.quantity)) [
        | inr e ↦
            finished fuel d.stage (omega arith) d.valid (let m = d.valid.natural in ground arith)
        | inl e ↦
            let gone = d.over (ground arith) in
            again d.stage d.valid
              (λ j ne. elim (Bool-cases (j == idx)) [
                | inl hit ↦
                    let at_idx : j ≡ idx = ground arith in
                    absurd (ground (arith, ap (λ k. nonempty (d.stage.book (opposite s) k)) at_idx))
                | inr away ↦ w j (rw (d.others j (ground arith)) at ne)
              ])
              (omega (
                arith,
                count_drop n idx (t.book (opposite s)) (d.stage.book (opposite s)) (w idx full)
                    d.others gone full,
              ))
      ])

  -- The outer loop ends within one round for each level that holds orders and two tests more.
  match_loop_lem :
      (fuel n : ℕ) (t : Stage)
      → IsStage t
      → ((j : ℕ) → nonempty (t.book (opposite s) j) ≡ true → j < n)
      → suc (count n (t.book (opposite s))) < fuel
      → MatchDone s t (match_loop fuel s t.now)
  match_loop_lem zero n t v w h = absurd (omega arith)
  match_loop_lem (suc fuel) n t v w h = elim (Bool-cases (ltb_ℤ (pos 0) t.now.order.quantity)) [
    | inr e ↦ done v (loop_exhausted fuel t.now e) (inl (let m = v.natural in ground arith))
    | inl e ↦ elim (best_index-Picks s v.booked) [
      | inl (b, clear) ↦
          done v (loop_empty fuel t.now e b)
            (inr (λ j ne. let c = clear j in absurd (ground arith)))
      | inr (idx, b, l, full, best) ↦
          let p =
            index_to_price-unit (ladder (opposite s) t.now.engine) idx
              (v.booked.sides (opposite s)).unit in
          elim (Bool-cases (crosses s t.now.order (pos idx))) [
            | inr c ↦
                done v (loop_apart fuel t.now idx e b p c)
                  (inr (worse_levels s t.now.order t.book idx best c))
            | inl c ↦
                let d =
                  match_level_lem s idx (level_fuel s idx t.now) (t.book (opposite s) idx) t v refl
                    (enough_level_fuel t idx v) best c in
                rw (loop_level fuel t.now idx e b p d.stage.now c d.result)
                  (after_level fuel n idx t w h full (match_loop_lem fuel n) d)
          ]
    ]
  ]

-- From a well-formed state the matching of an incoming order of either side ends within its fuel:
-- the result is reached by rounds at the best crossing price against the oldest order there, is
-- well formed, and leaves the order exhausted or every order of the other side at a price that it
-- does not cross.
pub match_order-MatchDone : (s : Side) (t : Stage) → IsStage t → MatchDone s t (match_order s t.now)
unfolding match_order
match_order-MatchDone s t v =
    let width = (ladder (opposite s) t.now.engine).max_levels in
    match_loop_lem s (suc (suc width)) width t v
      (λ j ne. in_range j (v.booked.sides (opposite s)) ne)
      (omega (arith, count-le width (t.book (opposite s))))
