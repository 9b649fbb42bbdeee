-- ===== src/Reference/Cancel.antt =====
-- Cancelling in the reference engine: the entry leaves the book, and the invariant stays.
use mathlib.Core.Path.{fun_ext}
use cpp_orderbook_engine.Prelude.{
  ℕ, ◌≡◌, ◌≢◌, refl, sym, subst, ◌∙◌, ap, true, false, some, none, List, [], ◌∷◌, arith, has, ◌==◌,
  if◌then◌else◌, Bool-cases, inl, inr, update, ◌-ℤ◌,
}
use cpp_orderbook_engine.Types.{OrderId, Side, buy, sell, cancelled, ExecutionReport, no_event}
use cpp_orderbook_engine.Spec.Ids.{pick, strip, strip_book}
use cpp_orderbook_engine.Spec.{Entry}
use cpp_orderbook_engine.Map
use cpp_orderbook_engine.Map.{find, find-erase}
use cpp_orderbook_engine.Reference.{
  RefOrder, Node, Nodes, Levels, ReferenceEngine, is_done, ref_report, tell,
}
use cpp_orderbook_engine.Reference.Calls.{cancel_order}
use cpp_orderbook_engine.Reference.Shelf.{
  nodes_at, IsShelf, IsShelf-shrink, ref_entry, ref_book, live_entries, IsShelved, book_of,
  all_levels,
}
use cpp_orderbook_engine.Reference.Drop.{update-SameTags, update_other}

-- The only live node of a list with an id.
abbrev IsOnly : Nodes → List Node → OrderId → Node → Type 0
IsOnly nodes xs id a =
    (x : Node) → has x xs ≡ true → is_done (nodes x).status ≡ false → (nodes x).id ≡ id → x ≡ a

pub pick-live_entries :
    (nodes : Nodes) (xs : List Node) (id : OrderId) (a : Node)
    → has a xs ≡ true
    → is_done (nodes a).status ≡ false
    → (nodes a).id ≡ id
    → IsOnly nodes xs id a
    → pick id (live_entries nodes xs) ≡ some (ref_entry (nodes a))
pick-live_entries nodes [] id a h l e only = absurd (ground arith)
pick-live_entries nodes (x ∷ xs) id a h l e only = elim (Bool-cases (a == x)) [
  | inl k ↦
      let hit : x ≡ a = ground arith in
      rw (hit, l) (let named : ((nodes a).id == id) ≡ true = ground arith in rw named refl)
  | inr k ↦
      let below =
        pick-live_entries nodes xs id a (ground arith) l e (λ y m. only y (ground arith)) in
      elim (Bool-cases (is_done (nodes x).status)) [
        | inl d ↦ rw d below
        | inr d ↦
            let other : ((nodes x).id == id) ≡ false = ground (arith, only x (ground arith) d) in
            rw (d, other) below
      ]
]

-- An entry that is found is a live node's.
pub live_entries-pick :
    (nodes : Nodes) (xs : List Node) (id : OrderId) (y : Entry)
    → pick id (live_entries nodes xs) ≡ some y
    → (a : Node) × (has a xs ≡ true) × (is_done (nodes a).status ≡ false) × ((nodes a).id ≡ id)
live_entries-pick nodes [] id y h = absurd (cc)
live_entries-pick nodes (x ∷ xs) id y h = elim (Bool-cases (is_done (nodes x).status)) [
  | inl d ↦
      let (a, m, l, e) = live_entries-pick nodes xs id y (rw d at h) in (a, ground arith, l, e)
  | inr d ↦ elim (Bool-cases ((nodes x).id == id)) [
    | inl k ↦ (x, ground arith, d, ground arith)
    | inr k ↦
        let (a, m, l, e) = live_entries-pick nodes xs id y (rw (d, k) at h) in
        (a, ground arith, l, e)
  ]
]

-- A node that is cancelled is no entry any more.
live_entries-cancel :
    (nodes : Nodes) (xs : List Node) (id : OrderId) (a : Node)
    → (nodes a).id ≡ id
    → IsOnly nodes xs id a
    → live_entries (update nodes a (record (nodes a) { status = cancelled })) xs
      ≡ strip id (live_entries nodes xs)
live_entries-cancel nodes [] id a e only = refl
live_entries-cancel nodes (x ∷ xs) id a e only =
    let below = live_entries-cancel nodes xs id a e (λ y m. only y (ground arith)) in
    elim (Bool-cases (x == a)) [
      | inl k ↦
          let hit : x ≡ a = ground arith in
          let named : ((nodes x).id == id) ≡ true = rw hit (ground arith) in
          rw (k, below)
            (elim (Bool-cases (is_done (nodes x).status)) [
              | inl d ↦ rw d refl
              | inr d ↦ rw (d, named) refl
            ])
      | inr k ↦
          rw (k, below)
            (elim (Bool-cases (is_done (nodes x).status)) [
              | inl d ↦ rw d refl
              | inr d ↦
                  let other : ((nodes x).id == id) ≡ false =
                    ground (arith, only x (ground arith) d) in
                  rw (d, other) refl
            ])
    ]

-- The report of a cancelled order.
abbrev pub cancelled_report : Entry → ExecutionReport
cancelled_report r =
    ref_report r.id cancelled r.side r.price (r.quantity -ℤ r.remaining) r.remaining

pub cancel_order_found :
    (e : ReferenceEngine) (id : OrderId) (a : Node)
    → find id e.order_map ≡ some a
    → cancel_order e id ≡ (
      tell no_event (cancelled_report (ref_entry (e.nodes a))),
      record e {
        nodes = update e.nodes a (record (e.nodes a) { status = cancelled });
        order_map = Map.erase id e.order_map;
      },
    )
unfolding cancel_order
cancel_order_found e id a f = rw (cancel_order, f) refl

module _ {nodes : Nodes} {fresh : Node} {map : List (OrderId × Node)} {lv : Side → Levels}
    (v : IsShelf nodes fresh map lv) (id : OrderId) (a : Node) (f : find id map ≡ some a) where
  pub shelf-IsOnly : (side : Side) (i : ℕ) → IsOnly nodes (nodes_at (lv side) i) id a
  shelf-IsOnly side i x h l e =
      let g = v.mapped side i x h l in let g' : find id map ≡ some x = rw e at g in cc

  named : (nodes a).id ≡ id
  named = let (side, i, h, l, e) = v.found id a f in e

  abbrev dead : RefOrder
  dead = record (nodes a) { status = cancelled }

  pub cancel-ref_book : ref_book (update nodes a dead) lv ≡ strip_book id (ref_book nodes lv)
  cancel-ref_book = fun_ext (λ side.
      fun_ext
        (λ i. live_entries-cancel nodes (nodes_at (lv side) i) id a named (shelf-IsOnly side i)))

  -- Only a node that is not the cancelled one can be live.
  still_live : (x : Node) → is_done (update nodes a dead x).status ≡ false → x ≢ a
  still_live x l same =
      let k : (x == a) ≡ true = ground arith in
      let l' : is_done cancelled ≡ false = rw k at l in absurd (cc)

  pub cancel-IsShelf : IsShelf (update nodes a dead) fresh (Map.erase id map) lv
  cancel-IsShelf =
      IsShelf-shrink v v.sorted v.distinct (update-SameTags nodes a dead (refl, refl, refl))
        (λ side j x h. h)
        (λ side j x h l.
          let off = still_live x l in
          let l' = sym (ap (λ r. is_done r.status) (update_other nodes a dead x off)) ∙ l in
          (
            l',
            λ g. elim (Bool-cases ((nodes x).id == id)) [
              | inl k ↦ absurd (off (shelf-IsOnly side j x h l' (ground arith)))
              | inr k ↦ find-erase id (nodes x).id map ∙ rw k g
            ],
          ))
        (λ k x g.
          let g' : (if k == id then none else find k map) ≡ some x =
            sym (find-erase id k map) ∙ g in
          elim (Bool-cases (k == id)) [
            | inl e ↦ let n : none ≡ some x = rw e at g' in absurd (cc)
            | inr e ↦
                let g'' : find k map ≡ some x = rw e at g' in
                (
                  g'',
                  λ side j h l n.
                      let off : x ≢ a = λ same.
                        let n' : (nodes a).id ≡ k = rw same at n in
                        let m = named in absurd (ground arith) in
                      (h, ap (λ r. is_done r.status) (update_other nodes a dead x off) ∙ l),
                )
          ])

pub reference_unknown :
    (r : ReferenceEngine) (id : OrderId)
    → find id r.order_map ≡ none
    → cancel_order r id ≡ (no_event, r)
unfolding cancel_order
reference_unknown r id f = rw (cancel_order, f) refl

pub levels_kept :
    (e : ReferenceEngine) (nodes : Nodes) (map : List (OrderId × Node))
    → all_levels (record e { nodes = nodes; order_map = map }) ≡ all_levels e
levels_kept e nodes map = fun_ext at
  where
    at :
        (side : Side)
        → all_levels (record e { nodes = nodes; order_map = map }) side ≡ all_levels e side
    at buy = refl
    at sell = refl

-- `cancel_order` of an id that the map finds keeps the invariant, drops exactly the entry with that id,
-- and reports it.
pub cancel_order-IsShelved :
    (e : ReferenceEngine) (id : OrderId) (a : Node)
    → IsShelved e
    → find id e.order_map ≡ some a
    → IsShelved (cancel_order e id).1
      × (book_of (cancel_order e id).1 ≡ strip_book id (book_of e))
      × ((cancel_order e id).0 ≡ tell no_event (cancelled_report (ref_entry (e.nodes a))))
unfolding cancel_order
cancel_order-IsShelved e id a v f =
    let r = cancel_order_found e id a f in
    let nodes = update e.nodes a (record (e.nodes a) { status = cancelled }) in
    let map = Map.erase id e.order_map in
    let same = sym (levels_kept e nodes map) in
    (
      rw r (subst (IsShelf nodes e.fresh map) same (cancel-IsShelf v id a f)),
      rw r (ap (ref_book nodes) (sym same) ∙ cancel-ref_book v id a f),
      rw r refl,
    )
