-- ===== src/Engine/Unbook.antt =====
-- Taking an order out of the book and giving its slot back to the pool, as a full fill and a
-- cancellation do.
use cpp_orderbook_engine.Prelude.{
  ℕ, ◌≡◌, ◌≢◌, sym, subst, ◌∙◌, ap, true, false, some, List, ◌∷◌, ◌++◌, arith, has, update, ◌==◌,
  has-append, Bool-cases, inl, inr,
}
use cpp_orderbook_engine.Types.{OrderId, Side}
use cpp_orderbook_engine.Order.{Slot, Orders}
use cpp_orderbook_engine.Level
use cpp_orderbook_engine.Level.Seg.{values, SameLinks, SameValues}
use cpp_orderbook_engine.Level.Remove.{Parts, parts, remove_lem}
use cpp_orderbook_engine.Pool.{OrderPool, deallocate}
use cpp_orderbook_engine.Pool.Free.{IsPool, FreeFrom-frame, deallocate_lem}
use cpp_orderbook_engine.Ladder.{PriceLadder, set_level, mark_empty}
use cpp_orderbook_engine.Ladder.Side.{IsLadder, IsLadder-frame, IsLadder-remove}
use cpp_orderbook_engine.Map
use cpp_orderbook_engine.Map.{find, find-erase, erase-Distinct}
use cpp_orderbook_engine.Engine.{MatchingEngine, ladder}
use cpp_orderbook_engine.Engine.Requests.{in_book}
use cpp_orderbook_engine.Engine.Book.{
  Book, put, put_cases, rebuilt, rebuilt_sides, IsBook, IsResting, one_level, one_id, levels_Apart,
}

-- The free list survives a change that spares the `pool_index` of the free slots.
pub IsPool-frame :
    {p : OrderPool} {free : List Slot} (mem : Orders)
    → IsPool p free
    → ((a : Slot) → has a free ≡ true → (mem a).pool_index ≡ (p.pool a).pool_index)
    → IsPool (record p { pool = mem }) free
IsPool-frame {p} {free} mem v same = record {
  indexed = v.indexed;
  chain = FreeFrom-frame p.pool mem p.free_head free v.chain same;
  distinct = v.distinct;
  inside = v.inside;
}

-- Rewriting the whole book but one order: what an order that stays needs.
pub IsResting-values :
    {mem mem' : Orders} {map map' : List (OrderId × Slot)} {capacity : ℕ} {free free' : List Slot}
    {side : Side} {i : ℕ} {s : Slot}
    → IsResting mem map capacity free side i s
    → values (mem' s) ≡ values (mem s)
    → find (mem s).id map' ≡ some s
    → has s free' ≡ false
    → IsResting mem' map' capacity free' side i s
IsResting-values {map'} {s} v e m u = record {
  on_side = ap (λ o. o.side) e ∙ v.on_side;
  at_price = ap (λ o. o.price) e ∙ v.at_price;
  live = ap (λ o. in_book o.status) e ∙ v.live;
  own = ap (λ o. o.pool_index) e ∙ v.own;
  inside = v.inside;
  used = u;
  mapped = ap (λ o. find o.id map') e ∙ m;
}

module _ (e : MatchingEngine) (free : List Slot) (q : Book) (v : IsBook e free q) (side : Side)
    (i : ℕ) (ys : List Slot) (o : Slot) (zs : List Slot) (at : q side i ≡ ys ++ o ∷ zs) where
  held : Parts ys o zs
  held = parts ys o zs (rw at at (((v.sides side).level i).distinct))

  here : has o (q side i) ≡ true
  here = rw (at, has-append o ys (o ∷ zs)) (ground arith)

  pub kept_in : (s : Slot) → has s (ys ++ zs) ≡ true → (has s (q side i) ≡ true) × (s ≢ o)
  kept_in s h = (
    rw (at, has-append s ys (o ∷ zs)) (ground (arith, has-append s ys zs)),
    λ same. ground (arith, has-append s ys zs, held.o_before, held.o_after),
  )

  left_in : (s : Slot) → has s (q side i) ≡ true → s ≢ o → has s (ys ++ zs) ≡ true
  left_in s h ne =
      let h' : has s (ys ++ o ∷ zs) ≡ true = rw at at h in
      ground (arith, has-append s ys zs, has-append s ys (o ∷ zs))

  elsewhere :
      (side' : Side) (j : ℕ) (s : Slot)
      → has s (q side' j) ≡ true
      → ((side' ≡ side) → j ≢ i)
      → s ≢ o
  elsewhere side' j s h ne same =
      let h' : has o (q side' j) ≡ true = rw same at h in
      let (p, r) = one_level v side' side j i o h' here in ne p r

  pub put_in :
      (side' : Side) (j : ℕ) (s : Slot)
      → has s (put q side i (ys ++ zs) side' j) ≡ true
      → (has s (q side' j) ≡ true) × (s ≢ o)
  put_in side' j s h = elim (put_cases q side i (ys ++ zs) side' j) [
    | inl (p, r, e) ↦
        let (k, ne) = kept_in s (rw e at h) in
        (
          subst (λ t. has s (q t j) ≡ true) (sym p)
              (subst (λ t. has s (q side t) ≡ true) (sym r) k),
          ne,
        )
    | inr (ne, e) ↦ let k : has s (q side' j) ≡ true = rw e at h in (k, elsewhere side' j s k ne)
  ]

  pub put_of :
      (side' : Side) (j : ℕ) (s : Slot)
      → has s (q side' j) ≡ true
      → s ≢ o
      → has s (put q side i (ys ++ zs) side' j) ≡ true
  put_of side' j s h ne = elim (put_cases q side i (ys ++ zs) side' j) [
    | inl (p, r, e) ↦ rw e (
        left_in s (subst (λ t. has s (q t i) ≡ true) p (subst (λ t. has s (q side' t) ≡ true) r h))
          ne)
    | inr (_, e) ↦ rw e h
  ]

  abbrev unlinked : Orders × Level.PriceLevelList
  unlinked = Level.remove e.pool.pool ((ladder side e).levels i) o

  abbrev emptied : PriceLadder
  emptied = mark_empty (set_level (ladder side e) i unlinked.1) i

  module _ (mem : Orders) (agree : (a : Slot) → a ≢ o → mem a ≡ unlinked.0 a)
      (own : (mem o).pool_index ≡ o) (id : (mem o).id ≡ (e.pool.pool o).id) where
    abbrev pool : OrderPool
    pool = deallocate (record e.pool { pool = mem }) o

    abbrev after : MatchingEngine
    after = rebuilt side e emptied pool (Map.erase (mem o).id e.order_map)

    at_o : IsResting e.pool.pool e.order_map e.pool.capacity free side i o
    at_o = v.rests side i o here

    same_values : SameValues e.pool.pool unlinked.0
    same_values = (remove_lem ys o zs (rw at at ((v.sides side).level i))).1

    pool-IsPool : IsPool pool (o ∷ free) × ((a : Slot) → a ≢ o → pool.pool a ≡ mem a)
    pool-IsPool =
        deallocate_lem o
          (IsPool-frame mem v.pool (λ a h.
            let ne : a ≢ o = λ same. ground (arith, at_o.used) in
            ap (λ r. r.pool_index) (agree a ne) ∙ ap (λ r. r.pool_index) (same_values a)))
          at_o.inside at_o.used own

    -- Away from the order the storage is as `remove` leaves it.
    final : (a : Slot) → a ≢ o → pool.pool a ≡ unlinked.0 a
    final a ne = pool-IsPool.1 a ne ∙ agree a ne

    final_values : (a : Slot) → a ≢ o → values (pool.pool a) ≡ values (e.pool.pool a)
    final_values a ne = ap values (final a ne) ∙ same_values a

    update_ne : (j : ℕ) (a : Slot) → has a (update (q side) i (ys ++ zs) j) ≡ true → a ≢ o
    update_ne j a h = elim (Bool-cases (j == i)) [
      | inl e ↦ (kept_in a (rw e at h)).1
      | inr e ↦ elsewhere side j a (rw e at h) (λ _. ground arith)
    ]

    other_side : (other : Side) → other ≢ side → IsLadder pool.pool (ladder other e) (q other)
    other_side other ne = IsLadder-frame (v.sides other) (λ j a h. same j a h)
      where
        same : (j : ℕ) (a : Slot) → has a (q other j) ≡ true → SameLinks e.pool.pool pool.pool a
        same j a h =
            let away : has a (ys ++ o ∷ zs) ≡ false = elim (Bool-cases (has a (q side i))) [
              | inl k ↦ absurd (ne ((one_level v other side j i a h k).0))
              | inr k ↦ rw at at k
            ] in
            let kept = (remove_lem ys o zs (rw at at ((v.sides side).level i))).2 a away in
            let e' = final a (elsewhere other j a h (λ p. absurd (ne p))) ∙ kept in
            (ap (λ r. r.prev) e', ap (λ r. r.next) e')

    still_found :
        (side' : Side) (j : ℕ) (s : Slot)
        → has s (q side' j) ≡ true
        → s ≢ o
        → find (e.pool.pool s).id (Map.erase (mem o).id e.order_map) ≡ some s
    still_found side' j s h ne =
        let kept = (v.rests side' j s h).mapped in
        let apart : (e.pool.pool s).id ≢ (e.pool.pool o).id =
          λ same. ne (one_id v side' side j i s o h here same) in
        ground (arith, find-erase (mem o).id (e.pool.pool s).id e.order_map)

    found_in :
        (k : OrderId) (s : Slot)
        → find k (Map.erase (mem o).id e.order_map) ≡ some s
        → (side' : Side) × (j : ℕ) × (has s (put q side i (ys ++ zs) side' j) ≡ true)
          × ((pool.pool s).id ≡ k)
    found_in k s h =
        let before : (find k e.order_map ≡ some s) × (k ≢ (e.pool.pool o).id) = (
          ground (arith, find-erase (mem o).id k e.order_map),
          ground (arith, find-erase (mem o).id k e.order_map),
        ) in
        let (side', j, h', same) = v.found k s before.0 in
        let ne : s ≢ o = λ p. before.1 (sym same ∙ ap (λ t. (e.pool.pool t).id) p) in
        (side', j, put_of side' j s h' ne, ap (λ r. r.id) (final_values s ne) ∙ same)

    -- The order leaves its level and the map, and its slot is the first free one; no other order
    -- changes but in its links.
    pub unbook-IsBook : IsBook after (o ∷ free) (put q side i (ys ++ zs))
    unfolding deallocate Map.erase
    unbook-IsBook = record {
      pool = pool-IsPool.0;
      sides =
          rebuilt_sides e q side emptied i (ys ++ zs) pool (Map.erase (mem o).id e.order_map)
            (IsLadder-frame (IsLadder-remove i ys o zs (v.sides side) at (levels_Apart v side i))
              (λ j a h.
                let e' = final a (update_ne j a h) in (ap (λ r. r.prev) e', ap (λ r. r.next) e')))
            other_side;
      rests = λ side' j s h.
          let (k, ne) = put_in side' j s h in
          IsResting-values (v.rests side' j s k) (final_values s ne) (still_found side' j s k ne)
            (ground (arith, (v.rests side' j s k).used));
      found = found_in;
      keyed = erase-Distinct (mem o).id e.order_map v.keyed;
    }

    pub unbook_values : (a : Slot) → a ≢ o → values (pool.pool a) ≡ values (e.pool.pool a)
    unbook_values = final_values
