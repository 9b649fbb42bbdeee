-- ===== src/Engine/Fill.antt =====
-- One round of the inner loop: the front order of a level is filled, in full or in part.
use cpp_orderbook_engine.Prelude.{
  ℕ, ◌≡◌, ◌≢◌, refl, ◌∙◌, ap, ℤ, pos, ◌-ℤ◌, ◌≤ℤ◌, ◌<ℤ◌, ◌==ℤ◌, min_ℤ, true, false, List, [], ◌∷◌,
  arith, update, ◌⊎◌,
}
use cpp_orderbook_engine.Types.{Side, buy, sell, filled}
use cpp_orderbook_engine.Order.{Slot, Order, Orders}
use cpp_orderbook_engine.Level
use cpp_orderbook_engine.Level.Seg.{values}
use cpp_orderbook_engine.Level.Remove.{remove-SameValues}
use cpp_orderbook_engine.Ladder.Side.{IsLadder, IsLadder-frame}
use cpp_orderbook_engine.Map.{find}
use cpp_orderbook_engine.Ladder.{PriceLadder, mark_empty}
use cpp_orderbook_engine.Engine.{MatchingEngine, ladder, set_orders}
use cpp_orderbook_engine.Engine.Match.{drop_filled}
use cpp_orderbook_engine.Engine.Requests.{in_book}
use cpp_orderbook_engine.Engine.Book.{Book, put, IsBook}
use cpp_orderbook_engine.Engine.Unbook.{IsPool-frame, unbook-IsBook, unbook_values}

-- The quantity that a round fills, by which of the two orders is exhausted.
abbrev pub Amount : ℤ → ℤ → ℤ → Type 0
Amount left rest fill =
    ((rest ≤ℤ left)
      × (fill ≡ rest)
      × (((rest -ℤ fill) ==ℤ pos 0) ≡ true)
      × (left -ℤ fill ≡ left -ℤ rest))
    ⊎ ((left <ℤ rest)
        × (fill ≡ left)
        × (((rest -ℤ fill) ==ℤ pos 0) ≡ false)
        × (left -ℤ fill ≡ pos 0)
        × (pos 0 <ℤ rest -ℤ fill))

pub fill-Amount : (left rest : ℤ) → Amount left rest (min_ℤ left rest)
unfolding min_ℤ ◌-ℤ◌
fill-Amount left rest = ground arith

-- Two orders that agree in all that the invariant reads.
pub record SameBooking (o o' : Order) : Type 0 where
  pub id : o'.id ≡ o.id
  pub side : o'.side ≡ o.side
  pub price : o'.price ≡ o.price
  pub live : in_book o.status ≡ true → in_book o'.status ≡ true
  pub index : o'.pool_index ≡ o.pool_index
  pub prev : o'.prev ≡ o.prev
  pub next : o'.next ≡ o.next

pub IsBook-touch :
    {e : MatchingEngine} {free : List Slot} {q : Book} (mem : Orders)
    → IsBook e free q
    → ((a : Slot) → SameBooking (e.pool.pool a) (mem a))
    → IsBook (set_orders e mem) free q
IsBook-touch {e} {q} mem v same = record {
  pool = IsPool-frame mem v.pool (λ a h. (same a).index);
  sides = λ side. sides side;
  rests = λ side i s h.
      let r = v.rests side i s h in
      let b = same s in
      record {
        on_side = b.side ∙ r.on_side;
        at_price = b.price ∙ r.at_price;
        live = b.live r.live;
        own = b.index ∙ r.own;
        inside = r.inside;
        used = r.used;
        mapped = ap (λ n. find n e.order_map) b.id ∙ r.mapped;
      };
  found = λ k s h. let (side, i, h', e') = v.found k s h in (side, i, h', (same s).id ∙ e');
  keyed = v.keyed;
}
  where
    sides : (side : Side) → IsLadder mem (ladder side (set_orders e mem)) (q side)
    sides buy = IsLadder-frame (v.sides buy) (λ i a h. ((same a).prev, (same a).next))
    sides sell = IsLadder-frame (v.sides sell) (λ i a h. ((same a).prev, (same a).next))

module _ (e : MatchingEngine) (free : List Slot) (q : Book) (v : IsBook e free q) (idx : ℕ)
    (o : Slot) (rest : List Slot) where
  -- The storage that `drop_filled` gives to the pool.
  abbrev marked : Side → Orders
  marked side =
      let mem = (Level.remove e.pool.pool ((ladder side e).levels idx) o).0 in
      update mem o (record (mem o) { status = filled })

  marked_agree :
      (side : Side) (a : Slot)
      → a ≢ o
      → marked side a ≡ (Level.remove e.pool.pool ((ladder side e).levels idx) o).0 a
  marked_agree side a ne = ground arith

  marked_o :
      (side : Side)
      → q side idx ≡ o ∷ rest
      → ((marked side o).pool_index ≡ o) × ((marked side o).id ≡ (e.pool.pool o).id)
  marked_o side at =
      let own = (v.rests side idx o (rw at (ground arith))).own in
      let same = remove-SameValues e.pool.pool ((ladder side e).levels idx) o o in
      (ground (arith, ap (λ r. r.pool_index) same), ground (arith, ap (λ r. r.id) same))

  -- The front order of a level is taken out, and no other order changes but in its links.
  pub drop_filled-IsBook :
      (side : Side)
      → q side idx ≡ o ∷ rest
      → IsBook (drop_filled side idx o e) (o ∷ free) (put q side idx rest)
        × ((a : Slot)
            → a ≢ o
            → values ((drop_filled side idx o e).pool.pool a) ≡ values (e.pool.pool a))
  unfolding drop_filled
  drop_filled-IsBook buy at =
      let (own, id) = marked_o buy at in
      (
        unbook-IsBook e free q v buy idx [] o rest at (marked buy) (marked_agree buy) own id,
        unbook_values e free q v buy idx [] o rest at (marked buy) (marked_agree buy) own id,
      )
  drop_filled-IsBook sell at =
      let (own, id) = marked_o sell at in
      (
        unbook-IsBook e free q v sell idx [] o rest at (marked sell) (marked_agree sell) own id,
        unbook_values e free q v sell idx [] o rest at (marked sell) (marked_agree sell) own id,
      )

-- The number of levels of a side never changes.
max_levels-mark_empty : (l : PriceLadder) (i : ℕ) → (mark_empty l i).max_levels ≡ l.max_levels
unfolding mark_empty
max_levels-mark_empty l i = ground arith

pub max_levels-drop_filled :
    (side side' : Side) (idx : ℕ) (o : Slot) (e : MatchingEngine)
    → (ladder side' (drop_filled side idx o e)).max_levels ≡ (ladder side' e).max_levels
unfolding drop_filled
max_levels-drop_filled buy buy idx o e = max_levels-mark_empty _ idx
max_levels-drop_filled buy sell idx o e = refl
max_levels-drop_filled sell buy idx o e = refl
max_levels-drop_filled sell sell idx o e = max_levels-mark_empty _ idx

pub max_levels-set_orders :
    (side : Side) (e : MatchingEngine) (mem : Orders)
    → (ladder side (set_orders e mem)).max_levels ≡ (ladder side e).max_levels
max_levels-set_orders buy e mem = refl
max_levels-set_orders sell e mem = refl
