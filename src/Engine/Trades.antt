-- ===== src/Engine/Trades.antt =====
-- The trades of a matching: they add up to what the incoming order was filled for, and each of them
-- respects the order's limit.
use cpp_orderbook_engine.Prelude.{
  ℕ, ◌≡◌, refl, sym, ◌∙◌, ap, pos, ◌+ℤ◌, ◌<ℤ◌, true, List, [], ◌∷◌, ◌++◌, arith, has, All,
  All-append, int_laws,
}
use cpp_orderbook_engine.Types.{OrderId, Side, buy, sell, IncomingOrder, Trade, Quantity}
use cpp_orderbook_engine.Order.{Slot, Order}
use cpp_orderbook_engine.Engine.{opposite}
use cpp_orderbook_engine.Engine.Match.{crosses, trade_of}
use cpp_orderbook_engine.Engine.Trace.{
  Stage, IsStage, Matchable, Step, fills, parts, Step-IsStage, Reach, here, next, crosses-quantity,
}

-- The sum of the quantities traded.
unfoldable pub total_traded : List Trade → Quantity
total_traded [] = pos 0
total_traded (t ∷ ts) = t.quantity +ℤ total_traded ts

total_traded-snoc :
    (ts : List Trade) (t : Trade) → total_traded (ts ++ t ∷ []) ≡ total_traded ts +ℤ t.quantity
unfolding total_traded
total_traded-snoc [] t = omega int_laws
total_traded-snoc (u ∷ ts) t = rw (total_traded-snoc ts t) (omega int_laws)

quantity-trade_of :
    (s : Side) (o : IncomingOrder) (r : Order) (x : Quantity) → (trade_of s o r x).quantity ≡ x
quantity-trade_of buy o r x = refl
quantity-trade_of sell o r x = refl

Step-total :
    {s : Side} {t u : Stage}
    → Step s t u
    → total_traded u.now.event.trades +ℤ u.now.order.quantity
      ≡ total_traded t.now.event.trades +ℤ t.now.order.quantity
Step-total {s} {t} (fills idx o rest c f ef eb) =
    rw (f.told, f.left, total_traded-snoc, quantity-trade_of s) (omega int_laws)
Step-total {s} {t} (parts idx o rest c f ef eb) =
    rw (f.told, f.left, total_traded-snoc, quantity-trade_of s) (omega int_laws)

-- No quantity is lost or made up by the rounds of a matching.
pub Reach-total :
    {s : Side} {t u : Stage}
    → Reach s t u
    → total_traded u.now.event.trades +ℤ u.now.order.quantity
      ≡ total_traded t.now.event.trades +ℤ t.now.order.quantity
Reach-total here = refl
Reach-total (next r st) = Step-total st ∙ Reach-total r

-- The id of the incoming side of a trade.
abbrev pub taker : Side → Trade → OrderId
taker buy t = t.buy_order_id
taker sell t = t.sell_order_id

-- A trade for an incoming order: a positive quantity at a price that the order accepts, under its
-- id and timestamp.
pub record IsFair (s : Side) (o : IncomingOrder) (t : Trade) : Type 0 where
  pub positive : pos 0 <ℤ t.quantity
  pub accepted : crosses s o t.price ≡ true
  pub own : taker s t ≡ o.id
  pub stamped : t.timestamp ≡ o.timestamp

-- Two stages of one incoming order: only the quantity left differs.
abbrev pub SameOrder : IncomingOrder → IncomingOrder → Type 0
SameOrder o o' = o' ≡ record o { quantity = o'.quantity }

trade_of-IsFair :
    (s : Side) (o o' : IncomingOrder) (r : Order) (x : Quantity)
    → SameOrder o o'
    → pos 0 <ℤ x
    → crosses s o' r.price ≡ true
    → IsFair s o (trade_of s o' r x)
trade_of-IsFair buy o o' r x e p c = record {
  positive = p;
  accepted = sym (ap (λ w. crosses buy w r.price) e ∙ crosses-quantity buy o _ r.price) ∙ c;
  own = ap (λ w. w.id) e;
  stamped = ap (λ w. w.timestamp) e;
}
trade_of-IsFair sell o o' r x e p c = record {
  positive = p;
  accepted = sym (ap (λ w. crosses sell w r.price) e ∙ crosses-quantity sell o _ r.price) ∙ c;
  own = ap (λ w. w.id) e;
  stamped = ap (λ w. w.timestamp) e;
}

front_in : {q : List Slot} (o : Slot) (rest : List Slot) → q ≡ o ∷ rest → has o q ≡ true
front_in o rest e = rw e (ground arith)

-- At the best level the front order has that price and something left.
front_price :
    {t : Stage} (s : Side) (idx : ℕ) (o : Slot) (rest : List Slot)
    → IsStage t
    → Matchable s t idx o rest
    → ((t.now.engine.pool.pool o).price ≡ pos idx) × (pos 0 <ℤ (t.now.engine.pool.pool o).remaining)
front_price {t} s idx o rest v c =
    let h = front_in o rest c.oldest in
    ((v.booked.rests (opposite s) idx o h).at_price, v.positive (opposite s) idx o h)

module _ (s : Side) (o : IncomingOrder) where
  Step-IsFair :
      {t u : Stage}
      → Step s t u
      → IsStage t
      → SameOrder o t.now.order
      → All (IsFair s o) t.now.event.trades
      → All (IsFair s o) u.now.event.trades
  Step-IsFair {t} (fills idx a rest c f ef eb) v same fair =
      let (price, left) = front_price s idx a rest v c in
      rw f.told (
        All-append (IsFair s o) t.now.event.trades _ fair
          (trade_of-IsFair s o t.now.order _ _ same left (rw price c.crossing), tt))
  Step-IsFair {t} (parts idx a rest c f ef eb) v same fair =
      let (price, left) = front_price s idx a rest v c in
      rw f.told (
        All-append (IsFair s o) t.now.event.trades _ fair
          (trade_of-IsFair s o t.now.order _ _ same c.wants (rw price c.crossing), tt))

  Step-SameOrder : {t u : Stage} → Step s t u → SameOrder o t.now.order → SameOrder o u.now.order
  Step-SameOrder {t} {u} (fills idx a rest c f ef eb) same = rw (f.left, same) refl
  Step-SameOrder {t} {u} (parts idx a rest c f ef eb) same = rw (f.left, same) refl

  -- What holds of every stage of the matching of an order.
  pub record Fair (t : Stage) : Type 0 where
    pub valid : IsStage t
    pub same : SameOrder o t.now.order
    pub fair : All (IsFair s o) t.now.event.trades

  pub Reach-Fair : {t u : Stage} → Reach s t u → Fair t → Fair u
  Reach-Fair here f = f
  Reach-Fair (next r st) f =
      let g = Reach-Fair r f in
      record {
        valid = Step-IsStage st g.valid;
        same = Step-SameOrder st g.same;
        fair = Step-IsFair st g.valid g.same g.fair;
      }
