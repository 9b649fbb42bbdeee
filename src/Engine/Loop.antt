-- ===== src/Engine/Loop.antt =====
-- The loops of `match_buy` and `match_sell` end, and what they do is a chain of rounds.
use cpp_orderbook_engine.Prelude.{
  ℕ, zero, suc, ◌<◌, ◌≡◌, ◌≢◌, refl, ◌∙◌, ap, ℤ, pos, ◌<ℤ◌, ltb_ℤ, true, false, List, [], ◌∷◌,
  arith, length, Bool-cases, inl, inr, Option, some, none,
}
use cpp_orderbook_engine.Types.{Side, buy, sell, IncomingOrder}
use cpp_orderbook_engine.Order.{Slot}
use cpp_orderbook_engine.Level
use cpp_orderbook_engine.Level.Seg.{front_lem, empty_lem}
use cpp_orderbook_engine.Engine.{ladder, opposite}
use cpp_orderbook_engine.Engine.Match.{Matching, crosses, fill_front, match_level}
use cpp_orderbook_engine.Engine.Book.{Book, put, put_cases}
use cpp_orderbook_engine.Engine.Round.{fill_front-Round}
use cpp_orderbook_engine.Engine.Trace.{
  Stage, IsStage, IsBest, Matchable, Step, fills, parts, Step-IsStage, Reach, here, first-Step,
  crosses-quantity,
}

-- The levels other than `idx` of the resting side.
abbrev pub SameLevels : Side → ℕ → Book → Book → Type 0
SameLevels side idx q q' = (j : ℕ) → j ≢ idx → q' side j ≡ q side j

put_self : (q : Book) (side : Side) (i : ℕ) (xs : List Slot) → put q side i xs side i ≡ xs
put_self q side i xs = elim (put_cases q side i xs side i) [
  | inl (_, _, e) ↦ e
  | inr (ne, _) ↦ absurd (ne refl refl)
]

put_other :
    (q : Book) (side : Side) (i : ℕ) (xs : List Slot) → SameLevels side i q (put q side i xs)
put_other q side i xs j ne = elim (put_cases q side i xs side j) [
  | inl (_, e, _) ↦ absurd (ne e)
  | inr (_, e) ↦ e
]

IsBest-same :
    (s : Side) (idx : ℕ) (q q' : Book)
    → SameLevels (opposite s) idx q q'
    → IsBest s q idx
    → IsBest s q' idx
IsBest-same buy idx q q' same b = λ j h. same j (ground arith) ∙ b j h
IsBest-same sell idx q q' same b = λ j h. same j (ground arith) ∙ b j h

-- What the inner loop has done when it ends: the level is empty or the incoming order is exhausted.
pub record LevelDone (s : Side) (idx : ℕ) (t : Stage) (r : Option Matching) : Type 0 where
  pub stage : Stage
  pub result : r ≡ some stage.now
  pub valid : IsStage stage
  pub reached : Reach s t stage
  pub over : ((pos 0 <ℤ stage.now.order.quantity) → stage.book (opposite s) idx ≡ [])
  pub others : SameLevels (opposite s) idx t.book stage.book
  pub crossing : crosses s stage.now.order (pos idx) ≡ true

-- The stage after a round that exhausts the resting order, or the incoming one.
abbrev after_fill : Side → ℕ → Slot → List Slot → Stage → Stage
after_fill s idx o rest t = record {
  now = fill_front s idx o t.now;
  free = o ∷ t.free;
  book = put t.book (opposite s) idx rest;
}

abbrev after_part : Side → ℕ → Slot → Stage → Stage
after_part s idx o t = record { now = fill_front s idx o t.now; free = t.free; book = t.book }

module _ (s : Side) (idx : ℕ) where
  stop :
      {t : Stage} {r : Option Matching}
      → IsStage t
      → crosses s t.now.order (pos idx) ≡ true
      → r ≡ some t.now
      → (pos 0 <ℤ t.now.order.quantity → t.book (opposite s) idx ≡ [])
      → LevelDone s idx t r
  stop {t} v c e over = record {
    stage = t;
    result = e;
    valid = v;
    reached = here;
    over = over;
    others = λ j ne. refl;
    crossing = c;
  }

  more :
      {t u : Stage} {r : Option Matching}
      → Step s t u
      → SameLevels (opposite s) idx t.book u.book
      → LevelDone s idx u r
      → LevelDone s idx t r
  more st same d = record {
    stage = d.stage;
    result = d.result;
    valid = d.valid;
    reached = first-Step st d.reached;
    over = d.over;
    others = λ j ne. d.others j ne ∙ same j ne;
    crossing = d.crossing;
  }

  -- The three ways through the inner loop's condition.
  abbrev level_front : Matching → Option Slot
  level_front m = Level.front ((ladder (opposite s) m.engine).levels idx)

  exhausted :
      (fuel : ℕ) (m : Matching)
      → ltb_ℤ (pos 0) m.order.quantity ≡ false
      → match_level (suc fuel) s idx m ≡ some m
  unfolding match_level
  exhausted fuel m e = rw (e, match_level)

  emptied :
      (fuel : ℕ) (m : Matching)
      → ltb_ℤ (pos 0) m.order.quantity ≡ true
      → level_front m ≡ none
      → match_level (suc fuel) s idx m ≡ some m
  unfolding match_level
  emptied fuel m e f = rw (e, match_level, f)

  rounded :
      (fuel : ℕ) (m : Matching) (o : Slot)
      → ltb_ℤ (pos 0) m.order.quantity ≡ true
      → level_front m ≡ some o
      → match_level (suc fuel) s idx m ≡ match_level fuel s idx (fill_front s idx o m)
  unfolding match_level
  rounded fuel m o e f = rw (e, match_level, f)

  still_crosses :
      (o : IncomingOrder) (x : ℤ) (o' : IncomingOrder)
      → o' ≡ record o { quantity = x }
      → crosses s o (pos idx) ≡ true
      → crosses s o' (pos idx) ≡ true
  still_crosses o x o' e c = rw e (crosses-quantity s o x (pos idx) ∙ c)

  -- With nothing left to match the loop ends at once.
  finished :
      (fuel : ℕ) (u : Stage)
      → 0 < fuel
      → IsStage u
      → crosses s u.now.order (pos idx) ≡ true
      → u.now.order.quantity ≡ pos 0
      → LevelDone s idx u (match_level fuel s idx u.now)
  finished zero u h v c e = absurd (omega arith)
  finished (suc fuel) u h v c e =
      stop v c (exhausted fuel u.now (rw e refl)) (λ w. absurd (ground arith))

  -- The inner loop ends within one round for each order of the level and one test more.
  pub match_level_lem :
      (fuel : ℕ) (xs : List Slot) (t : Stage)
      → IsStage t
      → t.book (opposite s) idx ≡ xs
      → length xs < fuel
      → IsBest s t.book idx
      → crosses s t.now.order (pos idx) ≡ true
      → LevelDone s idx t (match_level fuel s idx t.now)
  match_level_lem zero xs t v at h b c = absurd (omega arith)
  match_level_lem (suc fuel) [] t v at h b c =
      elim (Bool-cases (ltb_ℤ (pos 0) t.now.order.quantity)) [
        | inr e ↦ stop v c (exhausted fuel t.now e) (λ w. absurd (ground arith))
        | inl e ↦
            let l = rw at at ((v.booked.sides (opposite s)).level idx) in
            stop v c (emptied fuel t.now e ((empty_lem l).0)) (λ w. at)
      ]
  match_level_lem (suc fuel) (o ∷ rest) t v at h b c =
      elim (Bool-cases (ltb_ℤ (pos 0) t.now.order.quantity)) [
        | inr e ↦ stop v c (exhausted fuel t.now e) (λ w. absurd (ground arith))
        | inl e ↦
            let l = rw at at ((v.booked.sides (opposite s)).level idx) in
            let wants : pos 0 <ℤ t.now.order.quantity = ground arith in
            let c' : Matchable s t idx o rest = record {
              wants = wants;
              best = b;
              crossing = c;
              oldest = at;
            } in
            rw (rounded fuel t.now o e ((front_lem l).0))
              (elim (fill_front-Round s idx o rest t.free t.book t.now v.booked at) [
                | inl f ↦
                    let u = after_fill s idx o rest t in
                    let st : Step s t u = fills idx o rest c' f refl refl in
                    let same = put_other t.book (opposite s) idx rest in
                    more st same (
                      match_level_lem fuel rest u (Step-IsStage st v)
                        (put_self t.book (opposite s) idx rest) (omega arith)
                        (IsBest-same s idx t.book u.book same b)
                        (still_crosses t.now.order _ u.now.order f.left c))
                | inr f ↦
                    let u = after_part s idx o t in
                    let st : Step s t u = parts idx o rest c' f refl refl in
                    more st (λ j ne. refl)
                      (finished fuel u (omega arith) (Step-IsStage st v)
                        (still_crosses t.now.order _ u.now.order f.left c)
                        (ap (λ r. r.quantity) f.left))
              ])
      ]
