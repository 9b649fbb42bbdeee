-- ===== src/Engine/Subset.antt =====
-- A matching only takes orders out of the book.
use cpp_orderbook_engine.Prelude.{
  ℕ, ◌≡◌, refl, sym, subst, ◌∙◌, ap, true, [], arith, has, Bool-cases, inl, inr, ◌==◌, none, ◌≤ℤ◌,
  -ℤ_parts, Option-cases,
}
use cpp_orderbook_engine.Types.{Side, OrderId}
use cpp_orderbook_engine.Order.{Slot}
use cpp_orderbook_engine.Map.{find}
use cpp_orderbook_engine.Engine.{ladder, opposite}
use cpp_orderbook_engine.Engine.Unbook.{put_in}
use cpp_orderbook_engine.Engine.Trace.{
  Stage, IsStage, Step, fills, parts, Step-IsStage, Reach, here, next,
}

-- Every order of the later book is on the same level of the earlier one, under the same id.
abbrev pub Subset : Stage → Stage → Type 0
Subset t u =
    (side : Side) (i : ℕ) (a : Slot)
    → has a (u.book side i) ≡ true
    → (has a (t.book side i) ≡ true)
      × ((u.now.engine.pool.pool a).id ≡ (t.now.engine.pool.pool a).id)

Step-Subset : {s : Side} {t u : Stage} → Step s t u → IsStage t → Subset t u
Step-Subset {s} {t} (fills idx o rest c f ef eb) v side i a h =
    let (k, ne) =
      put_in t.now.engine t.free t.book v.booked (opposite s) idx [] o rest c.oldest side i a
        (rw eb at h) in
    (k, ap (λ r. r.id) (f.kept a ne))
Step-Subset {s} {t} {u} (parts idx o rest c f ef eb) v side i a h = (
  rw eb at h,
  elim (Bool-cases (a == o)) [
    | inl e ↦
        let same : o ≡ a = ground arith in
        subst (λ b. (u.now.engine.pool.pool b).id ≡ (t.now.engine.pool.pool b).id) same
          (ap (λ r. r.id) f.rest)
    | inr e ↦ ap (λ r. r.id) (f.kept a (ground arith))
  ],
)

pub Reach-IsStage : {s : Side} {t u : Stage} → Reach s t u → IsStage t → IsStage u
Reach-IsStage here v = v
Reach-IsStage (next r st) v = Step-IsStage st (Reach-IsStage r v)

pub Reach-Subset : {s : Side} {t u : Stage} → Reach s t u → IsStage t → Subset t u
Reach-Subset here v side i a h = (h, refl)
Reach-Subset (next r st) v side i a h =
    let (k, e) = Step-Subset st (Reach-IsStage r v) side i a h in
    let (k', e') = Reach-Subset r v side i a k in (k', e ∙ e')

-- An id that is not in the book before the matching is not in it afterwards.
pub still_fresh :
    {s : Side} {t u : Stage} (id : OrderId)
    → Reach s t u
    → IsStage t
    → find id t.now.engine.order_map ≡ none
    → find id u.now.engine.order_map ≡ none
still_fresh {t} {u} id r v h = elim (Option-cases (find id u.now.engine.order_map)) [
  | inl e ↦ e
  | inr (a, e) ↦
      let (side, i, k, same) = (Reach-IsStage r v).booked.found id a e in
      let (k', same') = Reach-Subset r v side i a k in
      let kept = (v.booked.rests side i a k').mapped in
      absurd (ground (arith, ap (λ n. find n t.now.engine.order_map) (sym same' ∙ same)))
]

-- A matching does not change the number of levels.
pub Reach-width :
    {s : Side} {t u : Stage} (side : Side)
    → Reach s t u
    → (ladder side u.now.engine).max_levels ≡ (ladder side t.now.engine).max_levels
Reach-width side here = refl
Reach-width side (next r (fills idx o rest c f ef eb)) = f.width side ∙ Reach-width side r
Reach-width side (next r (parts idx o rest c f ef eb)) = f.width side ∙ Reach-width side r

-- Rounds never raise the quantity.
pub left_le :
    {s : Side} {t u : Stage}
    → Reach s t u
    → IsStage t
    → u.now.order.quantity ≤ℤ t.now.order.quantity
left_le here v = omega arith
left_le {s} (next {u = w} r (fills idx o rest c f ef eb)) v =
    let k = left_le r v in
    let p = (Reach-IsStage r v).positive (opposite s) idx o (rw c.oldest (ground arith)) in
    rw f.left (omega (arith, -ℤ_parts, k, p))
left_le {s} (next {u = w} r (parts idx o rest c f ef eb)) v =
    let k = left_le r v in let n = (Reach-IsStage r v).natural in rw f.left (omega arith)
