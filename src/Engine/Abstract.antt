-- ===== src/Engine/Abstract.antt =====
-- The matching of the engine as a run of the abstract machine.
use mathlib.Core.Path.{fun_ext}
use cpp_orderbook_engine.Prelude.{
  ℕ, ◌≡◌, ◌≢◌, refl, sym, ◌∙◌, ap, ◌-ℤ◌, true, List, [], ◌∷◌, arith, has, ◌==◌, Bool-cases, inl,
  inr,
}
use cpp_orderbook_engine.Types.{Side, buy, sell, IncomingOrder, Quantity}
use cpp_orderbook_engine.Order.{Slot, Order, Orders}
use cpp_orderbook_engine.Ladder.Side.{nonempty}
use cpp_orderbook_engine.Engine.{opposite}
use cpp_orderbook_engine.Engine.Match.{trade_of}
use cpp_orderbook_engine.Engine.Book.{Book, put, put_cases, one_level}
use cpp_orderbook_engine.Engine.Trace.{
  Stage, IsStage, IsBest, Matchable, Step, fills, parts, Reach, here, next,
}
use cpp_orderbook_engine.Engine.Total.{Settled}
use cpp_orderbook_engine.Engine.Subset.{Reach-IsStage}
use cpp_orderbook_engine.Spec.{
  Entry, Entries, place, Market, trade_with, HasNoBetter, IsReady, Turn, market_eq, all_of, part_of,
  Run, stop, turn, IsClosed, Run-trans,
}

abbrev pub entry_of : Order → Entry
entry_of o = record {
  id = o.id;
  side = o.side;
  price = o.price;
  quantity = o.quantity;
  remaining = o.remaining;
}

abbrev pub entries_of : Orders → List Slot → List Entry
entries_of mem [] = []
entries_of mem (a ∷ rest) = entry_of (mem a) ∷ entries_of mem rest

-- A book of slots as a book of entries.
abbrev pub entries : Orders → Book → Entries
entries mem q side i = entries_of mem (q side i)

abbrev pub market : Stage → Market
market t = record {
  book = entries t.now.engine.pool.pool t.book;
  order = t.now.order;
  event = t.now.event;
}

pub entries_of-same :
    (mem mem' : Orders) (xs : List Slot)
    → ((a : Slot) → has a xs ≡ true → entry_of (mem' a) ≡ entry_of (mem a))
    → entries_of mem' xs ≡ entries_of mem xs
entries_of-same mem mem' [] same = refl
entries_of-same mem mem' (x ∷ xs) same =
    rw (same x (ground arith), entries_of-same mem mem' xs (λ a h. same a (ground arith))) refl

-- A book with one level replaced, read through two storages.
pub entries-put :
    (mem mem' : Orders) (q : Book) (side : Side) (i : ℕ) (xs : List Slot) (ys : List Entry)
    → entries_of mem' xs ≡ ys
    → ((side' : Side) (j : ℕ) (a : Slot)
        → ((side' ≡ side) → j ≢ i)
        → has a (q side' j) ≡ true
        → entry_of (mem' a) ≡ entry_of (mem a))
    → entries mem' (put q side i xs) ≡ place (entries mem q) side i ys
entries-put mem mem' q side i xs ys front there =
    fun_ext (λ side'. fun_ext (λ j. at side side' j front there))
  where
    at :
        (side side' : Side) (j : ℕ)
        → entries_of mem' xs ≡ ys
        → ((side' : Side) (j : ℕ) (a : Slot)
            → ((side' ≡ side) → j ≢ i)
            → has a (q side' j) ≡ true
            → entry_of (mem' a) ≡ entry_of (mem a))
        → entries mem' (put q side i xs) side' j ≡ place (entries mem q) side i ys side' j
    at buy buy j front there = elim (Bool-cases (j == i)) [
      | inl e ↦ rw (e, front) refl
      | inr e ↦ rw e (entries_of-same mem mem' (q buy j) (λ a. there buy j a (λ _. ground arith)))
    ]
    at buy sell j front there = entries_of-same mem mem' (q sell j) (λ a. there sell j a (λ e. cc))
    at sell buy j front there = entries_of-same mem mem' (q buy j) (λ a. there buy j a (λ e. cc))
    at sell sell j front there = elim (Bool-cases (j == i)) [
      | inl e ↦ rw (e, front) refl
      | inr e ↦ rw e (entries_of-same mem mem' (q sell j) (λ a. there sell j a (λ _. ground arith)))
    ]

pub put_self :
    (q : Book) (side : Side) (i : ℕ) (xs : List Slot) → q side i ≡ xs → put q side i xs ≡ q
put_self q side i xs e = fun_ext (λ side'. fun_ext (λ j. elim (put_cases q side i xs side' j) [
  | inl (e1, e2, p) ↦ p ∙ sym e ∙ ap (λ t. q t i) (sym e1) ∙ ap (q side') (sym e2)
  | inr (_, p) ↦ p
]))

nil_entries : (mem : Orders) (xs : List Slot) → xs ≡ [] → entries_of mem xs ≡ []
nil_entries mem xs e = rw e refl

IsBest-HasNoBetter :
    (s : Side) (mem : Orders) (q : Book) (i : ℕ) → IsBest s q i → HasNoBetter s (entries mem q) i
IsBest-HasNoBetter buy mem q i b = λ j l. nil_entries mem (q sell j) (b j l)
IsBest-HasNoBetter sell mem q i b = λ j l. nil_entries mem (q buy j) (b j l)

trade_of-trade_with :
    (s : Side) (o : IncomingOrder) (r : Order) (x : Quantity)
    → trade_of s o r x ≡ trade_with s o (entry_of r) x
trade_of-trade_with buy o r x = refl
trade_of-trade_with sell o r x = refl

Matchable-IsReady :
    (s : Side) (t : Stage) (idx : ℕ) (o : Slot) (rest : List Slot)
    → Matchable s t idx o rest
    → IsReady s
        (market t)
        idx
        (entry_of (t.now.engine.pool.pool o))
        (entries_of t.now.engine.pool.pool rest)
Matchable-IsReady s t idx o rest c = record {
  wants = c.wants;
  best = IsBest-HasNoBetter s t.now.engine.pool.pool t.book idx c.best;
  crossing = c.crossing;
  oldest = ap (entries_of t.now.engine.pool.pool) c.oldest;
}

-- The front order of a level is not behind it, and on no other level.
module _ (s : Side) (t : Stage) (v : IsStage t) (idx : ℕ) (o : Slot) (rest : List Slot)
    (oldest : t.book (opposite s) idx ≡ o ∷ rest) where
  front_here : has o (t.book (opposite s) idx) ≡ true
  front_here = rw oldest (ground arith)

  not_behind : (a : Slot) → has a rest ≡ true → a ≢ o
  not_behind a h same =
      let d = rw oldest at (((v.booked.sides (opposite s)).level idx).distinct) in
      ground (arith, d.0)

  not_elsewhere :
      (side : Side) (j : ℕ) (a : Slot)
      → ((side ≡ opposite s) → j ≢ idx)
      → has a (t.book side j) ≡ true
      → a ≢ o
  not_elsewhere side j a ne h same =
      let h' : has o (t.book side j) ≡ true = rw same at h in
      let (p, r) = one_level v.booked side (opposite s) j idx o h' front_here in ne p r

pub Step-Turn : {s : Side} {t u : Stage} → Step s t u → IsStage t → Turn s (market t) (market u)
Step-Turn {s} {t} {u} (fills idx o rest c f ef eb) v =
    let mem = t.now.engine.pool.pool in
    let mem' = u.now.engine.pool.pool in
    let kept = λ (a : Slot) (ne : a ≢ o). ap entry_of (f.kept a ne) in
    all_of idx (entry_of (mem o)) (entries_of mem rest) (Matchable-IsReady s t idx o rest c)
      f.covered
      (market_eq
        (ap (entries mem') eb
          ∙ entries-put mem mem' t.book (opposite s) idx rest (entries_of mem rest)
              (entries_of-same mem mem' rest
                (λ a h. kept a (not_behind s t v idx o rest c.oldest a h)))
              (λ side j a ne h. kept a (not_elsewhere s t v idx o rest c.oldest side j a ne h)))
        f.left (f.told ∙ rw (trade_of-trade_with s) refl))
Step-Turn {s} {t} {u} (parts idx o rest c f ef eb) v =
    let mem = t.now.engine.pool.pool in
    let mem' = u.now.engine.pool.pool in
    let kept = λ (a : Slot) (ne : a ≢ o). ap entry_of (f.kept a ne) in
    part_of idx (entry_of (mem o)) (entries_of mem rest) (Matchable-IsReady s t idx o rest c)
      f.short
      (market_eq
        (ap (entries mem') (eb ∙ sym (put_self t.book (opposite s) idx (o ∷ rest) c.oldest))
          ∙ entries-put mem mem' t.book (opposite s) idx (o ∷ rest)
              (record (entry_of (mem o)) { remaining = (mem o).remaining -ℤ t.now.order.quantity }
                ∷ entries_of mem rest)
              (rw
                (
                  ap entry_of f.rest,
                  entries_of-same mem mem' rest
                      (λ a h. kept a (not_behind s t v idx o rest c.oldest a h)),
                )
                refl)
              (λ side j a ne h. kept a (not_elsewhere s t v idx o rest c.oldest side j a ne h)))
        f.left (f.told ∙ rw (trade_of-trade_with s) refl))

pub Reach-Run : {s : Side} {t u : Stage} → Reach s t u → IsStage t → Run s (market t) (market u)
Reach-Run here v = stop refl
Reach-Run (next r st) v =
    Run-trans (Reach-Run r v) (turn (Step-Turn st (Reach-IsStage r v)) (stop refl))

nonempty_entries :
    (mem : Orders) (xs : List Slot) (r : Entry) (rest : List Entry)
    → entries_of mem xs ≡ r ∷ rest
    → nonempty xs ≡ true
nonempty_entries mem [] r rest e = absurd (cc)
nonempty_entries mem (x ∷ xs) r rest e = refl

pub Settled-IsClosed : (s : Side) (t : Stage) → Settled s t → IsClosed s (market t)
Settled-IsClosed s t (inl e) = inl e
Settled-IsClosed s t (inr apart) = inr (λ j r rest e.
    apart j (nonempty_entries t.now.engine.pool.pool (t.book (opposite s) j) r rest e))
