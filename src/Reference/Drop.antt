-- ===== src/Reference/Drop.antt =====
-- The invariant of the reference engine when the first node of its best level leaves or changes.
use cpp_orderbook_engine.Prelude.{
  ℕ, ◌≡◌, ◌≢◌, refl, sym, subst, ◌∙◌, ap, pos, true, false, some, none, List, ◌∷◌, arith, has,
  Distinct, ◌==◌, if◌then◌else◌, Bool-cases, inl, inr, update,
}
use cpp_orderbook_engine.Types.{OrderId, Side, buy, sell}
use cpp_orderbook_engine.Engine.{opposite}
use cpp_orderbook_engine.Reference.{RefOrder, Node, Nodes, Levels, is_done}
use cpp_orderbook_engine.Map
use cpp_orderbook_engine.Map.{find, find-erase}
use cpp_orderbook_engine.Reference.Shelf.{
  nodes_at, IsShelf, SameTags, IsShelf-shrink, one_place, IsSorted, a_level,
}
use cpp_orderbook_engine.Reference.Front.{on_shelf, nodes_at-front, same_elsewhere, at_front}

some_eq : {x y : ℕ} → some x ≡ some y → x ≡ y
some_eq e = cc

resort :
    (s : Side) (i : ℕ) (level level' : List Node) (ls : Levels)
    → IsSorted s ((pos i, level) ∷ ls)
    → IsSorted s ((pos i, level') ∷ ls)
resort s i level level' ls (a_level f so) = a_level f so

pub resort_front :
    (s : Side) (other ls : Levels) (idx : ℕ) (level level' : List Node)
    → ((side : Side) → IsSorted side (on_shelf s other ls idx level side))
    → (side : Side) → IsSorted side (on_shelf s other ls idx level' side)
resort_front buy other ls idx level level' so buy = so buy
resort_front buy other ls idx level level' so sell = resort sell idx level level' ls (so sell)
resort_front sell other ls idx level level' so buy = resort buy idx level level' ls (so buy)
resort_front sell other ls idx level level' so sell = so sell

-- A change of one node that keeps its tags.
pub update-SameTags :
    (nodes : Nodes) (a : Node) (r : RefOrder)
    → SameTags (nodes a) r
    → (x : Node) → SameTags (nodes x) (update nodes a r x)
update-SameTags nodes a r t x = elim (Bool-cases (x == a)) [
  | inl e ↦ let hit : x ≡ a = ground arith in rw e (subst (λ n. SameTags (nodes n) r) (sym hit) t)
  | inr e ↦ rw e (refl, refl, refl)
]

pub update_other :
    (nodes : Nodes) (a : Node) (r : RefOrder) (x : Node) → x ≢ a → update nodes a r x ≡ nodes x
update_other nodes a r x ne = ground arith

module _ (s : Side) (other ls : Levels) (idx : ℕ) (a : Node) (rest : List Node) {nodes : Nodes}
    {fresh : Node} {map : List (OrderId × Node)}
    (v : IsShelf nodes fresh map (on_shelf s other ls idx (a ∷ rest))) where
  pub front_has : has a (nodes_at (on_shelf s other ls idx (a ∷ rest) (opposite s)) idx) ≡ true
  front_has = rw (nodes_at-front s other ls idx (a ∷ rest)) (ground arith)

  front_distinct : Distinct (a ∷ rest)
  front_distinct = rw (nodes_at-front s other ls idx (a ∷ rest)) at (v.distinct (opposite s) idx)

  pub behind_other : (x : Node) → has x rest ≡ true → x ≢ a
  behind_other x h e = let d = front_distinct in ground (arith, d.0)

  pub elsewhere_other :
      (side : Side) (j : ℕ) (x : Node)
      → ((side ≡ opposite s) → j ≢ idx)
      → has x (nodes_at (on_shelf s other ls idx (a ∷ rest) side) j) ≡ true
      → x ≢ a
  elsewhere_other side j x ne h e =
      let h' : has a (nodes_at (on_shelf s other ls idx (a ∷ rest) side) j) ≡ true = rw e at h in
      let (p, q) = one_place v side (opposite s) j idx a h' front_has in ne p q

  drop_has :
      (side : Side) (j : ℕ) (x : Node)
      → has x (nodes_at (on_shelf s other ls idx rest side) j) ≡ true
      → (has x (nodes_at (on_shelf s other ls idx (a ∷ rest) side) j) ≡ true) × (x ≢ a)
  drop_has side j x h = elim (same_elsewhere s other ls idx (a ∷ rest) rest side j) [
    | inl (e1, e2) ↦
        let h' : has x rest ≡ true = rw (at_front s other ls idx rest side j e1 e2) at h in
        (rw (at_front s other ls idx (a ∷ rest) side j e1 e2) (ground arith), behind_other x h')
    | inr (ne, q) ↦ let h' = rw q at h in (h', elsewhere_other side j x ne h')
  ]

  drop_keep :
      (side : Side) (j : ℕ) (x : Node)
      → x ≢ a
      → has x (nodes_at (on_shelf s other ls idx (a ∷ rest) side) j) ≡ true
      → has x (nodes_at (on_shelf s other ls idx rest side) j) ≡ true
  drop_keep side j x off h = elim (same_elsewhere s other ls idx (a ∷ rest) rest side j) [
    | inl (e1, e2) ↦
        let h' : has x (a ∷ rest) ≡ true =
          rw (at_front s other ls idx (a ∷ rest) side j e1 e2) at h in
        rw (at_front s other ls idx rest side j e1 e2) (ground arith)
    | inr (ne, q) ↦ rw q h
  ]

  drop_distinct : (side : Side) (j : ℕ) → Distinct (nodes_at (on_shelf s other ls idx rest side) j)
  drop_distinct side j = elim (same_elsewhere s other ls idx (a ∷ rest) rest side j) [
    | inl (e1, e2) ↦ let d = front_distinct in rw (at_front s other ls idx rest side j e1 e2) (d.1)
    | inr (ne, q) ↦ rw q (v.distinct side j)
  ]

  -- The first node leaves the level, and the map no longer finds it.
  pub drop-IsShelf :
      {nodes' : Nodes} {map' : List (OrderId × Node)}
      → ((x : Node) → SameTags (nodes x) (nodes' x))
      → ((x : Node) → x ≢ a → nodes' x ≡ nodes x)
      → ((id : OrderId) (x : Node) → x ≢ a → find id map ≡ some x → find id map' ≡ some x)
      → ((id : OrderId) (x : Node) → find id map' ≡ some x → (find id map ≡ some x) × (x ≢ a))
      → IsShelf nodes' fresh map' (on_shelf s other ls idx rest)
  drop-IsShelf tags same keep gone =
      IsShelf-shrink v (resort_front s other ls idx (a ∷ rest) rest v.sorted) drop_distinct tags
        (λ side j x h. (drop_has side j x h).0)
        (λ side j x h live.
          let (h', off) = drop_has side j x h in
          (sym (ap (λ r. is_done r.status) (same x off)) ∙ live, keep (nodes x).id x off))
        (λ id x f.
          let (f', off) = gone id x f in
          (
            f',
            λ side j h live named.
                (drop_keep side j x off h, ap (λ r. is_done r.status) (same x off) ∙ live),
          ))

  -- A node that is done is dropped by itself.
  pub skip-IsShelf :
      is_done (nodes a).status ≡ true → IsShelf nodes fresh map (on_shelf s other ls idx rest)
  skip-IsShelf d =
      drop-IsShelf (λ x. (refl, refl, refl)) (λ x off. refl) (λ id x off f. f)
        (λ id x f. (
          f,
          λ e.
              let (side, j, h, live, named) = v.found id x f in
              let dead = rw (← e) at d in absurd (cc),
        ))

  module _ (live : is_done (nodes a).status ≡ false) where
    mapped_front : find (nodes a).id map ≡ some a
    mapped_front = v.mapped (opposite s) idx a front_has live

    -- The node is filled, and erased from the map.
    pub fill-IsShelf :
        (r : RefOrder)
        → SameTags (nodes a) r
        → IsShelf
            (update nodes a r)
            fresh
            (Map.erase (nodes a).id map)
            (on_shelf s other ls idx rest)
    fill-IsShelf r t =
        drop-IsShelf (update-SameTags nodes a r t) (update_other nodes a r)
          (λ id x off f. elim (Bool-cases (id == (nodes a).id)) [
            | inl e ↦
                let hit : id ≡ (nodes a).id = ground arith in
                let f' : find (nodes a).id map ≡ some x = rw hit at f in
                absurd (off (some_eq (sym f' ∙ mapped_front)))
            | inr e ↦ find-erase (nodes a).id id map ∙ rw e f
          ])
          (λ id x f.
            let f' : (if id == (nodes a).id then none else find id map) ≡ some x =
              sym (find-erase (nodes a).id id map) ∙ f in
            elim (Bool-cases (id == (nodes a).id)) [
              | inl e ↦ let g : none ≡ some x = rw e at f' in absurd (cc)
              | inr e ↦
                  let g : find id map ≡ some x = rw e at f' in
                  (
                    g,
                    λ same.
                        let (side, j, h, on, named) = v.found id x g in
                        let named' : (nodes a).id ≡ id = rw same at named in absurd (ground arith),
                  )
            ])

    -- The node stays where it is, live.
    pub part-IsShelf :
        (r : RefOrder)
        → SameTags (nodes a) r
        → is_done r.status ≡ false
        → IsShelf (update nodes a r) fresh map (on_shelf s other ls idx (a ∷ rest))
    part-IsShelf r t on =
        IsShelf-shrink v v.sorted v.distinct (update-SameTags nodes a r t) (λ side j x h. h)
          (λ side j x h l. (sym (same_done x) ∙ l, λ f. f))
          (λ id x f. (f, λ side j h l named. (h, same_done x ∙ l)))
      where
        same_done : (x : Node) → is_done (update nodes a r x).status ≡ is_done (nodes x).status
        same_done x = elim (Bool-cases (x == a)) [
          | inl e ↦
              let hit : x ≡ a = ground arith in
              rw e (on ∙ sym live ∙ ap (λ n. is_done (nodes n).status) (sym hit))
          | inr e ↦ rw e refl
        ]
