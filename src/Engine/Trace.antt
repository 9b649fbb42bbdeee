-- ===== src/Engine/Trace.antt =====
-- Matching as a relation: rounds at the best crossing price, against the oldest order there.
use cpp_orderbook_engine.Prelude.{
  ℕ, ◌<◌, ◌≡◌, refl, subst, ap, ℤ, pos, ◌≤ℤ◌, ◌<ℤ◌, true, List, [], ◌∷◌, arith, ◌==◌, Bool-cases,
  inl, inr, -ℤ_parts,
}
use cpp_orderbook_engine.Types.{Side, buy, sell, IncomingOrder, Quantity}
use cpp_orderbook_engine.Order.{Slot}
use cpp_orderbook_engine.Engine.{opposite}
use cpp_orderbook_engine.Engine.Match.{Matching, crosses}
use cpp_orderbook_engine.Engine.Book.{Book, put, IsBook, IsPositive}
use cpp_orderbook_engine.Engine.Unbook.{put_in}
use cpp_orderbook_engine.Engine.Round.{Fills, Parts}

-- A state of the matching with its free slots and its book.
pub record Stage : Type 0 where
  pub now : Matching
  pub free : List Slot
  pub book : Book

pub record IsStage (t : Stage) : Type 0 where
  pub booked : IsBook t.now.engine t.free t.book
  pub positive : IsPositive t.now.engine.pool.pool t.book
  pub natural : pos 0 ≤ℤ t.now.order.quantity

-- No level of the resting side has a better price for the incoming side than level `i`.
abbrev pub IsBest : Side → Book → ℕ → Type 0
IsBest buy q i = (j : ℕ) → j < i → q sell j ≡ []
IsBest sell q i = (j : ℕ) → i < j → q buy j ≡ []

-- The incoming order still wants something, level `idx` is the best one and crosses, and `o` is
-- the oldest order on it.
pub record Matchable (s : Side) (t : Stage) (idx : ℕ) (o : Slot) (rest : List Slot) : Type 0 where
  pub wants : pos 0 <ℤ t.now.order.quantity
  pub best : IsBest s t.book idx
  pub crossing : crosses s t.now.order (pos idx) ≡ true
  pub oldest : t.book (opposite s) idx ≡ o ∷ rest

pub data Step (s : Side) (t u : Stage) : Type 0 where
  fills :
      (idx : ℕ) (o : Slot) (rest : List Slot)
      → Matchable s t idx o rest
      → Fills s idx o rest t.free t.book t.now u.now
      → u.free ≡ o ∷ t.free
      → u.book ≡ put t.book (opposite s) idx rest
      → Step s t u
  parts :
      (idx : ℕ) (o : Slot) (rest : List Slot)
      → Matchable s t idx o rest
      → Parts s o t.free t.book t.now u.now
      → u.free ≡ t.free
      → u.book ≡ t.book
      → Step s t u

pub data Reach (s : Side) (t : Stage) : Stage → Type 0 where
  here : Reach s t t
  next : {u w : Stage} → Reach s t u → Step s u w → Reach s t w

pub Reach-trans : {s : Side} {t u w : Stage} → Reach s t u → Reach s u w → Reach s t w
Reach-trans r here = r
Reach-trans r (next r' st) = next (Reach-trans r r') st

pub first-Step : {s : Side} {t u w : Stage} → Step s t u → Reach s u w → Reach s t w
first-Step st r = Reach-trans (next here st) r

-- A change of the quantity left changes nothing else of whether an order crosses.
pub crosses-quantity :
    (s : Side) (o : IncomingOrder) (x : Quantity) (p : ℤ)
    → crosses s (record o { quantity = x }) p ≡ crosses s o p
unfolding crosses
crosses-quantity buy o x p = refl
crosses-quantity sell o x p = refl

-- Every round keeps the stage well formed.
pub Step-IsStage : {s : Side} {t u : Stage} → Step s t u → IsStage t → IsStage u
Step-IsStage {s} {t} {u} (fills idx o rest c f ef eb) v = record {
  booked = rw (ef, eb) f.book;
  positive = λ side i a h.
      let (k, ne) =
        put_in t.now.engine t.free t.book v.booked (opposite s) idx [] o rest c.oldest side i a
          (rw eb at h) in
      rw (ap (λ r. r.remaining) (f.kept a ne)) (v.positive side i a k);
  natural = rw f.left (omega (arith, -ℤ_parts, f.covered));
}
Step-IsStage {s} {t} {u} (parts idx o rest c f ef eb) v = record {
  booked = rw (ef, eb) f.book;
  positive = λ side i a h. elim (Bool-cases (a == o)) [
    | inl e ↦
        let same : o ≡ a = ground arith in
        subst (λ b. pos 0 <ℤ (u.now.engine.pool.pool b).remaining) same
          (rw f.rest (omega (arith, -ℤ_parts, f.short)))
    | inr e ↦ rw (f.kept a (ground arith)) (v.positive side i a (rw eb at h))
  ];
  natural = rw f.left (omega arith);
}
