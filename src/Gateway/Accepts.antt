-- ===== src/Gateway/Accepts.antt =====
-- What the gateway accepts.
use cpp_orderbook_engine.Prelude.{
  ◌≡◌, ◌↔◌, refl, ℤ, pos, leb_ℤ, ◌==ℤ◌, Bool, true, false, not, ◌&&◌, ◌==◌, [], ◌++◌, arith, ==ℤ→eq,
}
use cpp_orderbook_engine.Types.{IncomingOrder, OrderType, limit, market, ioc, fok}
use cpp_orderbook_engine.Order.{is_market, is_limit}
use cpp_orderbook_engine.Engine.Requests.{validate_order}
use cpp_orderbook_engine.Gateway.{
  report_if, zero_id, quantity_not_positive, limit_price_not_positive, market_with_price, validate,
}

no_reports :
    (a b c d : Bool)
    → report_if a zero_id
        ++ report_if b quantity_not_positive
        ++ report_if c limit_price_not_positive
        ++ report_if d market_with_price
      ≡ []
    → (a ≡ false) × (b ≡ false) × (c ≡ false) × (d ≡ false)
no_reports true b c d e = absurd (cc)
no_reports false true c d e = absurd (cc)
no_reports false false true d e = absurd (cc)
no_reports false false false true e = absurd (cc)
no_reports false false false false e = (refl, refl, refl, refl)

priceless :
    (t : OrderType) (p : ℤ)
    → (is_market t && not (p ==ℤ pos 0) ≡ false) ↔ ((t ≡ market) → p ≡ pos 0)
priceless limit p = (λ _ e. absurd (cc), λ _. refl)
priceless ioc p = (λ _ e. absurd (cc), λ _. refl)
priceless fok p = (λ _ e. absurd (cc), λ _. refl)
priceless market p = (λ h _. ==ℤ→eq p (pos 0) (ground arith), λ h. let e = h refl in rw e refl)

-- The gateway finds no fault with an order exactly if the engine's validation accepts it and it
-- has price 0 in case it is a market order.
pub validate-validate_order :
    (o : IncomingOrder)
    → (validate o ≡ []) ↔ ((validate_order o ≡ true) × ((o.type ≡ market) → o.price ≡ pos 0))
unfolding validate validate_order
validate-validate_order o = (
  λ e. let (a, b, c, d) = no_reports _ _ _ _ e in (ground arith, (priceless o.type o.price).0 d),
  λ (h, p).
      let d = (priceless o.type o.price).1 p in
      let a : (o.id == 0) ≡ false = ground arith in
      let b : leb_ℤ o.quantity (pos 0) ≡ false = ground arith in
      let c : (leb_ℤ o.price (pos 0) && is_limit o.type) ≡ false = ground arith in
      rw (a, b, c, d) refl,
)
