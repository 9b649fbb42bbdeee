-- ===== src/Reference/Match.antt =====
-- The inner loop of the reference engine as a run of the abstract machine, and the invariant.
use cpp_orderbook_engine.Prelude.{
  ◌≡◌, refl, pos, ◌-ℤ◌, ◌≤ℤ◌, ◌<ℤ◌, ◌==ℤ◌, ltb_ℤ, true, false, List, [], ◌∷◌, ◌++◌, arith, ◌==◌,
  inl, inr, update,
}
use cpp_orderbook_engine.Types.{Side, filled, partially_filled}
use cpp_orderbook_engine.Map
use cpp_orderbook_engine.Engine.Fill.{fill-Amount}
use cpp_orderbook_engine.Spec.{Market}
use cpp_orderbook_engine.Reference.{Node, Levels, is_done, ref_report, tell}
use cpp_orderbook_engine.Reference.Matching.{
  RefMatching, fill_node, match_level, ref_trade, opposite_side,
}
use cpp_orderbook_engine.Reference.Shelf.{shelves, ref_book}

-- The market that the loops work on: the levels `ls` of the other side.
abbrev pub ref_market : Side → Levels → Levels → RefMatching → Market
ref_market s other ls m = record {
  book = ref_book m.nodes (shelves s other ls);
  order = m.order;
  event = m.event;
}

-- The two results of a round.
abbrev pub all_node : Side → Node → RefMatching → RefMatching
all_node s a m =
    let r = m.nodes a in
    record {
      nodes =
          update m.nodes a (record r { remaining = r.remaining -ℤ r.remaining; status = filled });
      order_map = Map.erase r.id m.order_map;
      order = record m.order { quantity = m.order.quantity -ℤ r.remaining };
      event =
          tell
            (record m.event { trades = m.event.trades ++ ref_trade s m.order r r.remaining ∷ [] })
            (ref_report r.id filled (opposite_side s) r.price r.quantity (pos 0));
    }

abbrev pub part_node : Side → Node → RefMatching → RefMatching
part_node s a m =
    let r = m.nodes a in
    record {
      nodes =
          update m.nodes a
            (record r { remaining = r.remaining -ℤ m.order.quantity; status = partially_filled });
      order_map = m.order_map;
      order = record m.order { quantity = pos 0 };
      event = record m.event {
        trades = m.event.trades ++ ref_trade s m.order r m.order.quantity ∷ [];
      };
    }

fill_node-all :
    (s : Side) (a : Node) (m : RefMatching)
    → (m.nodes a).remaining ≤ℤ m.order.quantity
    → (fill_node s a m ≡ all_node s a m)
      × ((((m.nodes a).remaining -ℤ (m.nodes a).remaining) ==ℤ pos 0) ≡ true)
unfolding fill_node
fill_node-all s a m h = elim (fill-Amount m.order.quantity (m.nodes a).remaining) [
  | inl (c, f, t, l) ↦ (rw (t, f) refl, rw f at t)
  | inr (c, f, t, l, p) ↦ absurd (omega arith)
]

fill_node-part :
    (s : Side) (a : Node) (m : RefMatching)
    → m.order.quantity <ℤ (m.nodes a).remaining
    → (fill_node s a m ≡ part_node s a m)
      × ((((m.nodes a).remaining -ℤ m.order.quantity) ==ℤ pos 0) ≡ false)
unfolding fill_node
fill_node-part s a m h = elim (fill-Amount m.order.quantity (m.nodes a).remaining) [
  | inl (c, f, t, l) ↦ absurd (omega arith)
  | inr (c, f, t, l, p) ↦ (rw (t, l, f) refl, rw f at t)
]

pub self_test : (a : Node) → (a == a) ≡ true
self_test a = ground arith

pub level_nil : (s : Side) (m : RefMatching) → match_level s [] m ≡ ([], m)
unfolding match_level
level_nil s m = refl

level_zero :
    (s : Side) (rest : List Node) (m : RefMatching)
    → ltb_ℤ (pos 0) m.order.quantity ≡ false
    → match_level s rest m ≡ (rest, m)
unfolding match_level
level_zero s [] m e = refl
level_zero s (a ∷ rest) m e = rw (e, match_level) refl

module _ (s : Side) (a : Node) (rest : List Node) (m : RefMatching) where
  pub level_stop :
      ltb_ℤ (pos 0) m.order.quantity ≡ false → match_level s (a ∷ rest) m ≡ (a ∷ rest, m)
  unfolding match_level
  level_stop e = rw (e, match_level) refl

  module _ (e : ltb_ℤ (pos 0) m.order.quantity ≡ true) where
    pub level_done :
        is_done (m.nodes a).status ≡ true → match_level s (a ∷ rest) m ≡ match_level s rest m
    unfolding match_level
    level_done d = rw (e, match_level, d) refl

    pub level_all :
        is_done (m.nodes a).status ≡ false
        → (m.nodes a).remaining ≤ℤ m.order.quantity
        → match_level s (a ∷ rest) m ≡ match_level s rest (all_node s a m)
    unfolding match_level
    level_all d h =
        let (p, z) = fill_node-all s a m h in rw (e, match_level, d, p, self_test a, z, p) refl

    pub level_part :
        is_done (m.nodes a).status ≡ false
        → m.order.quantity <ℤ (m.nodes a).remaining
        → match_level s (a ∷ rest) m ≡ (a ∷ rest, part_node s a m)
    unfolding match_level
    level_part d h =
        let (p, z) = fill_node-part s a m h in
        rw (e, match_level, d, p, self_test a, z, p, level_zero s rest (part_node s a m) refl) refl
