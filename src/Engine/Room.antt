-- ===== src/Engine/Room.antt =====
-- Room in the pool for an order that may rest.
use cpp_orderbook_engine.Prelude.{◌≡◌, ◌≢◌, sym, ◌∙◌, List, [], ◌∷◌}
use cpp_orderbook_engine.Types.{Side, limit, IncomingOrder}
use cpp_orderbook_engine.Order.{Slot}
use cpp_orderbook_engine.Pool.{uint32_max}
use cpp_orderbook_engine.Engine.{MatchingEngine}
use cpp_orderbook_engine.Engine.Book.{Book, IsBook}
use cpp_orderbook_engine.Engine.Trace.{Stage, fills, parts, Reach, here, next}

-- The pool has a slot for an order that may rest.
abbrev pub HasRoom : MatchingEngine → IncomingOrder → Type 0
HasRoom e o = o.type ≡ limit → e.pool.free_head ≢ uint32_max

pub HasRoom-free :
    (e : MatchingEngine) (o : IncomingOrder) (free : List Slot) (q : Book)
    → IsBook e free q
    → HasRoom e o
    → o.type ≡ limit
    → free ≢ []
HasRoom-free e o [] q v room type none_free = room type (v.pool.chain)
HasRoom-free e o (s ∷ free) q v room type none_free = cc

-- Rounds free slots.
pub free_kept : {s : Side} {t u : Stage} → Reach s t u → t.free ≢ [] → u.free ≢ []
free_kept here ne = ne
free_kept (next {u} {w} r (fills idx o rest c f ef eb)) ne =
    λ e. let k : o ∷ u.free ≡ [] = sym ef ∙ e in absurd (cc)
free_kept (next {u} {w} r (parts idx o rest c f ef eb)) ne = λ e. free_kept r ne (sym ef ∙ e)
