-- ===== src/Spec.antt =====
-- Price-time priority as an abstract machine: what is left of the resting orders of each price, the
-- oldest first, and rounds between an incoming order and the oldest order at the best price. Both
-- engines are related to it. It stands for no code of its own.
pub mod Unique
pub mod Ids
use cpp_orderbook_engine.Prelude.{
  ℕ, ◌<◌, ◌≡◌, ◌≢◌, refl, pos, ◌==◌, Bool-cases, inl, inr, arith, ◌-ℤ◌, ◌≤ℤ◌, ◌<ℤ◌, Bool, true,
  false, List, [], ◌∷◌, ◌⊎◌, update, subst,
}
use cpp_orderbook_engine.Types.{
  OrderId, Price, Quantity, Side, buy, sell, filled, Trade, ExecutionReport, IncomingOrder,
  MatchEvent,
}
use cpp_orderbook_engine.Engine.{opposite}
use cpp_orderbook_engine.Engine.Match.{crosses, add_trade, add_report}

-- A resting order, without its place in memory.
pub record Entry : Type 0 where
  pub id : OrderId
  pub side : Side
  pub price : Price
  pub quantity : Quantity
  pub remaining : Quantity

-- The resting orders of each side and price, the oldest first.
abbrev pub Entries : Type 0
Entries = Side → ℕ → List Entry

-- The entries with one price of one side replaced.
abbrev pub place : Entries → Side → ℕ → List Entry → Entries
place q buy i xs buy = update (q buy) i xs
place q buy i xs sell = q sell
place q sell i xs buy = q buy
place q sell i xs sell = update (q sell) i xs

pub place_cases :
    (q : Entries) (side : Side) (i : ℕ) (xs : List Entry) (side' : Side) (j : ℕ)
    → (side' ≡ side) × (j ≡ i) × (place q side i xs side' j ≡ xs)
      ⊎ (((side' ≡ side) → j ≢ i) × (place q side i xs side' j ≡ q side' j))
place_cases q buy i xs buy j = elim (Bool-cases (j == i)) [
  | inl e ↦ inl (refl, ground arith, rw e refl)
  | inr e ↦ inr (λ _. ground arith, rw e refl)
]
place_cases q buy i xs sell j = inr (λ e. absurd (cc), refl)
place_cases q sell i xs buy j = inr (λ e. absurd (cc), refl)
place_cases q sell i xs sell j = elim (Bool-cases (j == i)) [
  | inl e ↦ inl (refl, ground arith, rw e refl)
  | inr e ↦ inr (λ _. ground arith, rw e refl)
]

pub record Market : Type 0 where
  pub book : Entries
  pub order : IncomingOrder
  pub event : MatchEvent

abbrev pub market_of : Entries → IncomingOrder → MatchEvent → Market
market_of b o ev = record { book = b; order = o; event = ev }

pub market_eq :
    {b b' : Entries} {o o' : IncomingOrder} {ev ev' : MatchEvent}
    → b ≡ b'
    → o ≡ o'
    → ev ≡ ev'
    → market_of b o ev ≡ market_of b' o' ev'
market_eq eb eo ee = rw (eb, eo, ee) refl

-- The trade of an incoming order on side `s` with a resting one.
abbrev pub trade_with : Side → IncomingOrder → Entry → Quantity → Trade
trade_with buy o r fill = record {
  buy_order_id = o.id;
  sell_order_id = r.id;
  price = r.price;
  quantity = fill;
  timestamp = o.timestamp;
}
trade_with sell o r fill = record {
  buy_order_id = r.id;
  sell_order_id = o.id;
  price = r.price;
  quantity = fill;
  timestamp = o.timestamp;
}

-- The report for a resting order that is fully filled.
abbrev pub report_filled : Side → Entry → ExecutionReport
report_filled s r = record {
  order_id = r.id;
  status = filled;
  side = s;
  price = r.price;
  filled_quantity = r.quantity;
  remaining_quantity = pos 0;
}

-- No price of the other side is better for an incoming order on side `s` than `i`.
abbrev pub HasNoBetter : Side → Entries → ℕ → Type 0
HasNoBetter buy q i = (j : ℕ) → j < i → q sell j ≡ []
HasNoBetter sell q i = (j : ℕ) → i < j → q buy j ≡ []

-- The incoming order wants something and crosses the best price `idx`, where `r` is the oldest order.
pub record IsReady (s : Side) (m : Market) (idx : ℕ) (r : Entry) (rest : List Entry) : Type 0 where
  pub wants : pos 0 <ℤ m.order.quantity
  pub best : HasNoBetter s m.book idx
  pub crossing : crosses s m.order (pos idx) ≡ true
  pub oldest : m.book (opposite s) idx ≡ r ∷ rest

-- The market after a round that exhausts the resting order.
abbrev pub take_all : Side → ℕ → Entry → List Entry → Market → Market
take_all s idx r rest m = record {
  book = place m.book (opposite s) idx rest;
  order = record m.order { quantity = m.order.quantity -ℤ r.remaining };
  event =
      add_report (add_trade m.event (trade_with s m.order r r.remaining))
        (report_filled (opposite s) r);
}

-- The market after a round that exhausts the incoming order only.
abbrev pub take_part : Side → ℕ → Entry → List Entry → Market → Market
take_part s idx r rest m = record {
  book =
      place m.book (opposite s) idx
        (record r { remaining = r.remaining -ℤ m.order.quantity } ∷ rest);
  order = record m.order { quantity = pos 0 };
  event = add_trade m.event (trade_with s m.order r m.order.quantity);
}

pub data Turn (s : Side) (m u : Market) : Type 0 where
  all_of :
      (idx : ℕ) (r : Entry) (rest : List Entry)
      → IsReady s m idx r rest
      → r.remaining ≤ℤ m.order.quantity
      → u ≡ take_all s idx r rest m
      → Turn s m u
  part_of :
      (idx : ℕ) (r : Entry) (rest : List Entry)
      → IsReady s m idx r rest
      → m.order.quantity <ℤ r.remaining
      → u ≡ take_part s idx r rest m
      → Turn s m u

pub data Run (s : Side) : Market → Market → Type 0 where
  stop : {m u : Market} → u ≡ m → Run s m u
  turn : {m u w : Market} → Turn s m u → Run s u w → Run s m w

-- Nothing is left to match.
abbrev pub IsClosed : Side → Market → Type 0
IsClosed s m =
    (m.order.quantity ≡ pos 0)
    ⊎ ((j : ℕ) (r : Entry) (rest : List Entry)
        → m.book (opposite s) j ≡ r ∷ rest
        → crosses s m.order (pos j) ≡ false)

pub Run-trans : {s : Side} {m u w : Market} → Run s m u → Run s u w → Run s m w
Run-trans {s} {m} {u} {w} (stop e) r = subst (λ x. Run s x w) e r
Run-trans (turn t r) r' = turn t (Run-trans r r')
