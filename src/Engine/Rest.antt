-- ===== src/Engine/Rest.antt =====
-- Resting an order: a slot of the pool is written, appended to its level and entered in the map.
use cpp_orderbook_engine.Prelude.{
  ℕ, ◌<◌, ◌≡◌, ◌≢◌, refl, sym, subst, ◌∙◌, ap, pos, true, false, some, none, List, [], ◌∷◌, ◌++◌,
  arith, has, has-append, ◌==◌, if◌then◌else◌, Bool-cases, inl, inr, ◌⊎◌,
}
use cpp_orderbook_engine.Types.{OrderId, Side}
use cpp_orderbook_engine.Order.{Slot, Orders}
use cpp_orderbook_engine.Level
use cpp_orderbook_engine.Level.Seg.{values, SameValues}
use cpp_orderbook_engine.Level.Push.{push_back_lem}
use cpp_orderbook_engine.Pool.{OrderPool}
use cpp_orderbook_engine.Pool.Free.{IsPool}
use cpp_orderbook_engine.Ladder.{set_level, mark_occupied}
use cpp_orderbook_engine.Ladder.Side.{IsLadder, IsLadder-frame, IsLadder-push}
use cpp_orderbook_engine.Map.{find, assign, find-assign, assign-Distinct}
use cpp_orderbook_engine.Engine.{MatchingEngine, ladder}
use cpp_orderbook_engine.Engine.Requests.{in_book}
use cpp_orderbook_engine.Engine.Book.{
  Book, put, put_cases, rebuilt, rebuilt_sides, IsBook, IsResting, levels_Apart, one_level,
}
use cpp_orderbook_engine.Engine.Unbook.{IsPool-frame, IsResting-values}

-- A slot `s` of the pool that was free is taken out of the free list and written: `p` is the pool
-- afterwards.
module _ (e : MatchingEngine) (free : List Slot) (s : Slot) (q : Book) (v : IsBook e (s ∷ free) q)
    (p : OrderPool) (pv : IsPool p free) (cap : p.capacity ≡ e.pool.capacity)
    (kept : (a : Slot) → a ≢ s → p.pool a ≡ e.pool.pool a) (side : Side) (i : ℕ)
    (range : i < (ladder side e).max_levels) (id : OrderId) (fresh : find id e.order_map ≡ none)
    (at_side : (p.pool s).side ≡ side) (at_price : (p.pool s).price ≡ pos i)
    (live : in_book (p.pool s).status ≡ true) (own : (p.pool s).pool_index ≡ s)
    (named : (p.pool s).id ≡ id) where
  -- A free slot is on no level.
  unused : (side' : Side) (j : ℕ) → has s (q side' j) ≡ false
  unused side' j = elim (Bool-cases (has s (q side' j))) [
    | inl h ↦ let u = (v.rests side' j s h).used in absurd (ground arith)
    | inr h ↦ h
  ]

  other_slot : (side' : Side) (j : ℕ) (a : Slot) → has a (q side' j) ≡ true → a ≢ s
  other_slot side' j a h same = ground (arith, unused side' j)

  abbrev pushed : Orders × Level.PriceLevelList
  pushed = Level.push_back p.pool ((ladder side e).levels i) s

  side_before : (side' : Side) → IsLadder p.pool (ladder side' e) (q side')
  side_before side' =
      IsLadder-frame (v.sides side') (λ j a h.
        let k = kept a (other_slot side' j a h) in (ap (λ r. r.prev) k, ap (λ r. r.next) k))

  push_values : SameValues p.pool pushed.0
  push_values = (push_back_lem s ((side_before side).level i) (unused side i)).1

  push_outside : (a : Slot) → a ≢ s → has a (q side i) ≡ false → pushed.0 a ≡ p.pool a
  push_outside a ne h =
      (push_back_lem s ((side_before side).level i) (unused side i)).2 a (ground arith)

  abbrev pool : OrderPool
  pool = record p { pool = pushed.0 }

  abbrev map : List (OrderId × Slot)
  map = assign id s (assign id s e.order_map)

  abbrev after : MatchingEngine
  after = rebuilt side e (mark_occupied (set_level (ladder side e) i pushed.1) i) pool map

  abbrev queue : List Slot
  queue = q side i ++ s ∷ []

  find-map : (k : OrderId) → find k map ≡ (if k == id then some s else find k e.order_map)
  find-map k =
      ground (arith, find-assign id k s (assign id s e.order_map), find-assign id k s e.order_map)

  other_side : (other : Side) → other ≢ side → IsLadder pushed.0 (ladder other e) (q other)
  other_side other ne = IsLadder-frame (side_before other) (λ j a h.
      let away : has a (q side i) ≡ false = elim (Bool-cases (has a (q side i))) [
        | inl k ↦ absurd (ne ((one_level v other side j i a h k).0))
        | inr k ↦ k
      ] in
      let k = push_outside a (other_slot other j a h) away in
      (ap (λ r. r.prev) k, ap (λ r. r.next) k))

  -- An order of the new book is the new one, on its level, or one of the old book.
  pub queued :
      (side' : Side) (j : ℕ) (a : Slot)
      → has a (put q side i queue side' j) ≡ true
      → ((side' ≡ side) × (j ≡ i) × (a ≡ s)) ⊎ ((has a (q side' j) ≡ true) × (a ≢ s))
  queued side' j a h = elim (put_cases q side i queue side' j) [
    | inl (e1, e2, e3) ↦
        let h' : has a queue ≡ true = rw e3 at h in
        elim (Bool-cases (a == s)) [
          | inl k ↦ inl (e1, e2, ground arith)
          | inr k ↦
              let old : has a (q side i) ≡ true =
                ground (arith, has-append a (q side i) (s ∷ [])) in
              inr (
                subst (λ t. has a (q t j) ≡ true) (sym e1)
                    (subst (λ t. has a (q side t) ≡ true) (sym e2) old),
                ground arith,
              )
        ]
    | inr (_, e3) ↦
        let h' : has a (q side' j) ≡ true = rw e3 at h in inr (h', other_slot side' j a h')
  ]

  queued_old :
      (side' : Side) (j : ℕ) (a : Slot)
      → has a (q side' j) ≡ true
      → has a (put q side i queue side' j) ≡ true
  queued_old side' j a h = elim (put_cases q side i queue side' j) [
    | inl (e1, e2, e3) ↦
        let h' : has a (q side i) ≡ true =
          subst (λ t. has a (q side t) ≡ true) e2 (subst (λ t. has a (q t j) ≡ true) e1 h) in
        rw e3 (ground (arith, has-append a (q side i) (s ∷ [])))
    | inr (_, e3) ↦ rw e3 h
  ]

  queued_new : has s (put q side i queue side i) ≡ true
  queued_new = elim (put_cases q side i queue side i) [
    | inl (_, _, e3) ↦ rw e3 (ground (arith, has-append s (q side i) (s ∷ [])))
    | inr (ne, _) ↦ absurd (ne refl refl)
  ]

  new_rests : IsResting pool.pool map pool.capacity free side i s
  new_rests =
      let same = push_values s in
      let first = v.pool.inside.0 in
      record {
        on_side = ap (λ r. r.side) same ∙ at_side;
        at_price = ap (λ r. r.price) same ∙ at_price;
        live = ap (λ r. in_book r.status) same ∙ live;
        own = ap (λ r. r.pool_index) same ∙ own;
        inside = omega (arith, first, cap);
        used = v.pool.distinct.0;
        mapped = ground (arith, ap (λ r. r.id) same, named, find-map (pushed.0 s).id);
      }

  old_rests :
      (side' : Side) (j : ℕ) (a : Slot)
      → has a (q side' j) ≡ true
      → a ≢ s
      → IsResting pool.pool map pool.capacity free side' j a
  old_rests side' j a h ne =
      let r = v.rests side' j a h in
      let same : values (pushed.0 a) ≡ values (e.pool.pool a) =
        push_values a ∙ ap values (kept a ne) in
      let m : find (e.pool.pool a).id map ≡ some a =
        ground (arith, find-map (e.pool.pool a).id, r.mapped) in
      subst (λ c. IsResting pool.pool map c free side' j a) (sym cap)
        (IsResting-values r same m (ground (arith, r.used)))

  new_on :
      (side' : Side) (j : ℕ) (a : Slot)
      → side' ≡ side
      → j ≡ i
      → a ≡ s
      → IsResting pool.pool map pool.capacity free side' j a
  new_on side' j a e1 e2 e3 =
      subst (λ t. IsResting pool.pool map pool.capacity free t j a) (sym e1)
        (subst (λ t. IsResting pool.pool map pool.capacity free side t a) (sym e2)
          (subst (λ t. IsResting pool.pool map pool.capacity free side i t) (sym e3) new_rests))

  abbrev Listed : OrderId → Slot → Type 0
  Listed k a =
      (side' : Side) × (j : ℕ) × (has a (put q side i queue side' j) ≡ true) × ((pushed.0 a).id ≡ k)

  found_new : (k : OrderId) (a : Slot) → k ≡ id → a ≡ s → Listed k a
  found_new k a e1 e2 =
      subst (λ t. Listed k t) (sym e2)
        (side, i, queued_new, ap (λ r. r.id) (push_values s) ∙ named ∙ sym e1)

  found_old : (k : OrderId) (a : Slot) → find k e.order_map ≡ some a → Listed k a
  found_old k a h =
      let (side', j, on, n) = v.found k a h in
      (
        side',
        j,
        queued_old side' j a on,
        ap (λ r. r.id) (push_values a) ∙ ap (λ r. r.id) (kept a (other_slot side' j a on)) ∙ n,
      )

  -- The order is the newest on its level, the map finds it, and the rest of the book is as before.
  pub rest-IsBook : IsBook after free (put q side i queue)
  rest-IsBook = record {
    pool = IsPool-frame pushed.0 pv (λ a h. ap (λ r. r.pool_index) (push_values a));
    sides =
        rebuilt_sides e q side (mark_occupied (set_level (ladder side e) i pushed.1) i) i queue pool
          map (IsLadder-push i s (side_before side) range (unused side) (levels_Apart v side i))
          other_side;
    rests = λ side' j a h. elim (queued side' j a h) [
      | inl (e1, e2, e3) ↦ new_on side' j a e1 e2 e3
      | inr (k, ne) ↦ old_rests side' j a k ne
    ];
    found = λ k a h. elim (Bool-cases (k == id)) [
      | inl c ↦ found_new k a (ground arith) (ground (arith, find-map k))
      | inr c ↦ found_old k a (ground (arith, find-map k))
    ];
    keyed =
        assign-Distinct id s (assign id s e.order_map) (assign-Distinct id s e.order_map v.keyed);
  }

  pub rest_values : SameValues p.pool after.pool.pool
  rest_values = push_values
