-- ===== src/Engine/Order/Conserved.antt =====
-- `handle_order` makes and loses no money.
use cex_rs.Base.{
  ℕ, ◌≡◌, sym, subst, String, Bool, true, false, not, ◌&&◌, Option, none, some, List, ltb, ◌==◌,
  nat_eq, string_eq, if◌then◌else◌, Outcome, done, Option-cases, Bool-cases, inl, inr,
}
use cex_rs.Base.Int.{ℤ, is_pos, to_u64}
use cex_rs.Base.Word.{add64}
use cex_rs.Base.Text.{to_lowercase}
use cex_rs.Shared.Fees.{calc_taker_fee}
use cex_rs.Shared.Requests.{OrderMsg, limit, market}
use cex_rs.Book.Types.{bid, ask, MatchResult}
use cex_rs.Book.Orders.{is_fok}
use cex_rs.Engine.State.{EngineState}
use cex_rs.Engine.Outputs.{Output}
use cex_rs.Engine.Fill.Totals.{SameTotals}
use cex_rs.Engine.Fill.Conserved.{FairFees}
use cex_rs.Engine.Order.{handle_order, place_order, is_supported, parse_side, request}
use cex_rs.Engine.Order.Kept.{
  Keeps, Keeps-refl, Keeps-trans, lock_usd-Keeps, lock_asset-Keeps, unlock_usd-Keeps,
  unlock_asset-Keeps, settle_results-Keeps,
}
use cex_rs.Engine.Order.Limit.{limit_order, lock_order, place_limit}
use cex_rs.Engine.Order.Market.{
  Floats, place_market, finish_sell, sell_within, finish_buy, buy_within, market_sell, market_buy,
  fillable_sell, quote_buy,
}
use cex_rs.Engine.Order.Placed.{
  OnDone, OnDone-bind, place_limit-Keeps, place_market-Keeps, lock_order-Keeps, reconcile-Keeps,
}
use cex_rs.Engine.Order.Settle.{Order, Handled, settle_results, unsettled, lock_usd, lock_asset}

-- What an arm of the handler may do to the balances.
abbrev Neutral : EngineState → Outcome Handled → Type 0
Neutral s = OnDone (λ h. Keeps s h.state)

if-Neutral :
    (c : Bool) (s : EngineState) (x y : Outcome Handled)
    → Neutral s x
    → Neutral s y
    → Neutral s (if c then x else y)
if-Neutral true s x y a b = a
if-Neutral false s x y a b = b

when-Neutral :
    (c : Bool) (s : EngineState) (x y : Outcome Handled)
    → Neutral s x
    → Neutral s y
    → Neutral s (elim c [ false ↦ x | true ↦ y ])
when-Neutral true s x y a b = b
when-Neutral false s x y a b = a

unless-Neutral :
    (c : Option String) (s : EngineState) (x : String → Outcome Handled) (y : Outcome Handled)
    → ((e : String) → Neutral s (x e))
    → Neutral s y
    → Neutral s (elim c [ some e ↦ x e | none ↦ y ])
unless-Neutral none s x y a b = b
unless-Neutral (some e) s x y a b = a e

module _ (publisher : Bool) (o : Order) (s : EngineState) (fair : FairFees s.fee_schedule) where
  -- Booking the results of a placed order.
  settled :
      (s' : EngineState) (results : List MatchResult)
      → Keeps s s'
      → Keeps s (settle_results publisher o results (unsettled s')).state
  settled s' results k =
      Keeps-trans s s' _ k
        (settle_results-Keeps publisher o results (unsettled s') (subst FairFees (sym k.fees) fair))

  limit_order-Neutral : (price : ℤ) → Neutral s (limit_order publisher o price s)
  unfolding limit_order
  limit_order-Neutral price = if-Neutral (not (is_pos price)) s _ _ (Keeps-refl s) (
      unless-Neutral (lock_order o (to_u64 price) s).1 s _ _
        (λ e. lock_order-Keeps o s (to_u64 price))
        (OnDone-bind _ _ (place_limit o (to_u64 price) (lock_order o (to_u64 price) s).0) _
          (place_limit-Keeps o (lock_order o (to_u64 price) s).0 (to_u64 price))
          (λ r k.
            reconcile-Keeps o s _ _
              (settled r.0 r.1 (Keeps-trans s _ r.0 (lock_order-Keeps o s (to_u64 price)) k)))))

  finish_sell-Neutral :
      (worst_price : Option ℕ) (s1 : EngineState)
      → Keeps s s1
      → Neutral s (finish_sell publisher o worst_price s1)
  unfolding finish_sell
  finish_sell-Neutral worst_price s1 k =
      OnDone-bind _ _ (place_market o worst_price s1) _ (place_market-Keeps o s1 worst_price)
        (λ r k'.
          Keeps-trans s _ _ (settled r.0 r.1 (Keeps-trans s s1 r.0 k k'))
            (unlock_asset-Keeps o.user_id _ _ o.asset))

  finish_buy-Neutral :
      (worst_price : Option ℕ) (amount : ℕ) (s1 : EngineState)
      → Keeps s s1
      → Neutral s (finish_buy publisher o worst_price amount s1)
  unfolding finish_buy
  finish_buy-Neutral worst_price amount s1 k =
      OnDone-bind _ _ (place_market o worst_price s1) _ (place_market-Keeps o s1 worst_price)
        (λ r k'.
          Keeps-trans s _ _ (settled r.0 r.1 (Keeps-trans s s1 r.0 k k'))
            (unlock_usd-Keeps o.user_id _ _))

  sell_within-Neutral : (worst_price : Option ℕ) → Neutral s (sell_within publisher o worst_price s)
  unfolding sell_within
  sell_within-Neutral worst_price =
      if-Neutral (is_fok o.time_in_force && ltb (fillable_sell o worst_price s) o.qty) s _ _
        (Keeps-refl s)
        (when-Neutral (lock_asset o.user_id o.asset o.qty s).1 s _ _
          (lock_asset-Keeps o.user_id o.qty s o.asset)
          (finish_sell-Neutral worst_price _ (lock_asset-Keeps o.user_id o.qty s o.asset)))

  buy_within-Neutral : (worst_price : Option ℕ) → Neutral s (buy_within publisher o worst_price s)
  unfolding buy_within
  buy_within-Neutral worst_price =
      let amount =
        add64 (quote_buy o worst_price s).0
          (calc_taker_fee s.fee_schedule (quote_buy o worst_price s).0) in
      if-Neutral (is_fok o.time_in_force && ltb (quote_buy o worst_price s).1 o.qty) s _ _
        (Keeps-refl s)
        (if-Neutral ((quote_buy o worst_price s).1 == 0) s _ _ (Keeps-refl s) (
          when-Neutral (lock_usd o.user_id amount s).1 s _ _ (lock_usd-Keeps o.user_id amount s)
            (finish_buy-Neutral worst_price amount _ (lock_usd-Keeps o.user_id amount s))))

module _ (floats : Floats) (publisher : Bool) (msg : OrderMsg floats.F) (s : EngineState)
    (fair : FairFees s.fee_schedule) where
  abbrev Kept : Outcome (EngineState × List Output) → Type 0
  Kept = OnDone (λ r. Keeps s r.0)

  place_order-Kept : (o : Order) → Kept (place_order floats publisher msg o s)
  unfolding place_order
  place_order-Kept o =
      OnDone-bind (λ h. Keeps s h.state) (λ r. Keeps s r.0) _ _
        (elim msg.order_type
          as (λ k. Neutral s (elim k [
            | limit ↦ limit_order publisher o msg.price s
            | market ↦ elim o.side [
              | ask ↦ market_sell floats publisher o msg.price msg.slippage_pct s
              | bid ↦ market_buy floats publisher o msg.price msg.slippage_pct s
            ]
          ])) [
            | limit ↦ limit_order-Neutral publisher o s fair msg.price
            | market ↦
                elim o.side
                  as (λ u. Neutral s (elim u [
                    | ask ↦ market_sell floats publisher o msg.price msg.slippage_pct s
                    | bid ↦ market_buy floats publisher o msg.price msg.slippage_pct s
                  ])) [
                    | ask ↦ sell_within-Neutral publisher o s fair _
                    | bid ↦ buy_within-Neutral publisher o s fair _
                  ]
          ])
        (λ h k. k)

  handle_order-Kept : Kept (handle_order floats publisher msg s)
  unfolding handle_order
  handle_order-Kept = elim (Bool-cases (not (is_supported (to_lowercase msg.asset)))) [
    | inl e ↦ rw e (Keeps-refl s)
    | inr e ↦ elim (Option-cases (parse_side msg.side)) [
      | inl f ↦ rw (e, f) (Keeps-refl s)
      | inr (side, f) ↦ elim (Bool-cases (not (is_pos msg.qty))) [
        | inl g ↦ rw (e, f, g) (Keeps-refl s)
        | inr g ↦ rw (e, f, g) (place_order-Kept (request floats (to_lowercase msg.asset) side msg))
      ]
    ]
  ]

-- When no fee is above 10,000 basis points, whatever an order does, a rejection and a partial fill
-- included, it changes neither the sum of all USD balances nor that of any asset, up to the
-- wrap-around of the arithmetic.
pub handle_order-SameTotals :
    (floats : Floats) (publisher : Bool) (msg : OrderMsg floats.F) (s s' : EngineState)
    (outputs : List Output)
    → FairFees s.fee_schedule
    → handle_order floats publisher msg s ≡ done (s', outputs)
    → SameTotals s s'
handle_order-SameTotals floats publisher msg s s' outputs fair e =
    (subst (OnDone (λ r. Keeps s r.0)) e (handle_order-Kept floats publisher msg s fair)).totals
