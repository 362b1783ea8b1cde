-- ===== src/Engine/Order/Counted.antt =====
-- An order gives at most one identifier.
use cex_rs.Base.{
  ℕ, ◌+◌, ◌≤◌, ◌≡◌, String, Bool, true, false, not, ◌&&◌, Option, none, some, List, ltb, ◌==◌,
  nat_eq, string_eq, if◌then◌else◌, Outcome, expect, expect_ok, arith, Option-cases, Bool-cases,
  inl, inr,
}
use cex_rs.Base.Int.{ℤ, is_pos, to_u64}
use cex_rs.Base.Word.{add64}
use cex_rs.Base.Text.{to_lowercase}
use cex_rs.Shared.Fees.{calc_taker_fee}
use cex_rs.Shared.Requests.{OrderMsg, limit, market}
use cex_rs.Book.Types.{bid, ask, MatchResult}
use cex_rs.Book.Orders.{add_order_with_id, execute_market_order_with_id, is_fok}
use cex_rs.Engine.State.{EngineState, next_order_id, get_orderbook}
use cex_rs.Engine.Outputs.{Output}
use cex_rs.Engine.Order.{handle_order, place_order, is_supported, parse_side, request}
use cex_rs.Engine.Order.Limit.{limit_order, lock_order, place_limit}
use cex_rs.Engine.Order.Market.{
  Floats, place_market, finish_sell, sell_within, finish_buy, buy_within, market_sell, market_buy,
  fillable_sell, quote_buy,
}
use cex_rs.Engine.Order.Next.{
  set_orderbook-next, settle_results-next, unlock_usd-next, unlock_asset-next, reconcile-next,
}
use cex_rs.Engine.Order.Placed.{OnDone, OnDone-bind, OnDone-any}
use cex_rs.Engine.Order.Returns.{lock_usd-next, lock_asset-next, lock_order-next}
use cex_rs.Engine.Order.Settle.{Order, Handled, settle_results, unsettled, lock_usd, lock_asset}

-- At most one identifier has been given between two states.
pub record Counts (s s' : EngineState) : Type 0 where
  pub once : s'.next_order_id ≤ s.next_order_id + 1

pub Counts-refl : (s : EngineState) → Counts s s
Counts-refl s = record { once = omega arith }

taken : (s : EngineState) → (next_order_id s).0.next_order_id ≤ s.next_order_id + 1
unfolding next_order_id
taken s = omega arith

module _ (o : Order) (s : EngineState) where
  place_limit-Counts : (price : ℕ) → OnDone (λ r. Counts s r.0) (place_limit o price s)
  unfolding place_limit
  place_limit-Counts price =
      OnDone-bind _ _ (expect (get_orderbook o.asset (next_order_id s).0)) _ (OnDone-any _)
        (λ book u.
          OnDone-bind _ _
            (add_order_with_id (next_order_id s).1 o.user_id o.side price o.qty o.time_in_force
              book)
            _ (OnDone-any _)
            (λ r v. OnDone-bind _ _ (expect_ok r.1) _ (OnDone-any _) (λ results x. record {
              once = omega (arith, taken s, set_orderbook-next o.asset r.0 (next_order_id s).0);
            })))

  place_market-Counts :
      (worst_price : Option ℕ) → OnDone (λ r. Counts s r.0) (place_market o worst_price s)
  unfolding place_market
  place_market-Counts worst_price =
      OnDone-bind _ _ (expect (get_orderbook o.asset (next_order_id s).0)) _ (OnDone-any _)
        (λ book u.
          OnDone-bind _ _
            (execute_market_order_with_id (next_order_id s).1 o.user_id o.side o.qty worst_price
              book)
            _ (OnDone-any _)
            (λ r v. OnDone-bind _ _ (expect_ok r.1) _ (OnDone-any _) (λ results x. record {
              once = omega (arith, taken s, set_orderbook-next o.asset r.0 (next_order_id s).0);
            })))

-- An arm of the handler gives at most one identifier.
abbrev Counted : EngineState → Outcome Handled → Type 0
Counted s = OnDone (λ h. Counts s h.state)

if-Counted :
    (c : Bool) (s : EngineState) (x y : Outcome Handled)
    → Counted s x
    → Counted s y
    → Counted s (if c then x else y)
if-Counted true s x y a b = a
if-Counted false s x y a b = b

when-Counted :
    (c : Bool) (s : EngineState) (x y : Outcome Handled)
    → Counted s x
    → Counted s y
    → Counted s (elim c [ false ↦ x | true ↦ y ])
when-Counted true s x y a b = b
when-Counted false s x y a b = a

unless-Counted :
    (c : Option String) (s : EngineState) (x : String → Outcome Handled) (y : Outcome Handled)
    → ((e : String) → Counted s (x e))
    → Counted s y
    → Counted s (elim c [ some e ↦ x e | none ↦ y ])
unless-Counted none s x y a b = b
unless-Counted (some e) s x y a b = a e

-- From a state with the same counter.
from_locked :
    (s s1 s2 : EngineState) → s1.next_order_id ≡ s.next_order_id → Counts s1 s2 → Counts s s2
from_locked s s1 s2 e k = record { once = omega (arith, e, k.once) }

pub unchanged : (s s1 : EngineState) → s1.next_order_id ≡ s.next_order_id → Counts s s1
unchanged s s1 e = record { once = omega (arith, e) }

module _ (publisher : Bool) (o : Order) (s : EngineState) where
  settled :
      (s' s'' : EngineState) (results : List MatchResult)
      → Counts s s'
      → s''.next_order_id ≡ (settle_results publisher o results (unsettled s')).state.next_order_id
      → Counts s s''
  settled s' s'' results k e = record {
    once = omega (arith, k.once, e, settle_results-next publisher o results (unsettled s'));
  }

  limit_order-Counted : (price : ℤ) → Counted s (limit_order publisher o price s)
  unfolding limit_order
  limit_order-Counted price = if-Counted (not (is_pos price)) s _ _ (Counts-refl s) (
      unless-Counted (lock_order o (to_u64 price) s).1 s _ _
        (λ e. unchanged s _ (lock_order-next o (to_u64 price) s))
        (OnDone-bind _ _ (place_limit o (to_u64 price) (lock_order o (to_u64 price) s).0) _
          (place_limit-Counts o (lock_order o (to_u64 price) s).0 (to_u64 price))
          (λ r k.
            settled r.0 _ r.1 (from_locked s _ r.0 (lock_order-next o (to_u64 price) s) k)
              (reconcile-next o _ _))))

  finish_sell-Counted :
      (worst_price : Option ℕ) (s1 : EngineState)
      → s1.next_order_id ≡ s.next_order_id
      → Counted s (finish_sell publisher o worst_price s1)
  unfolding finish_sell
  finish_sell-Counted worst_price s1 e =
      OnDone-bind _ _ (place_market o worst_price s1) _ (place_market-Counts o s1 worst_price)
        (λ r k.
          settled r.0 _ r.1 (from_locked s s1 r.0 e k) (unlock_asset-next o.user_id _ o.asset _))

  finish_buy-Counted :
      (worst_price : Option ℕ) (amount : ℕ) (s1 : EngineState)
      → s1.next_order_id ≡ s.next_order_id
      → Counted s (finish_buy publisher o worst_price amount s1)
  unfolding finish_buy
  finish_buy-Counted worst_price amount s1 e =
      OnDone-bind _ _ (place_market o worst_price s1) _ (place_market-Counts o s1 worst_price)
        (λ r k. settled r.0 _ r.1 (from_locked s s1 r.0 e k) (unlock_usd-next o.user_id _ _))

  sell_within-Counted : (worst_price : Option ℕ) → Counted s (sell_within publisher o worst_price s)
  unfolding sell_within
  sell_within-Counted worst_price =
      if-Counted (is_fok o.time_in_force && ltb (fillable_sell o worst_price s) o.qty) s _ _
        (Counts-refl s)
        (when-Counted (lock_asset o.user_id o.asset o.qty s).1 s _ _
          (unchanged s _ (lock_asset-next o.user_id o.asset o.qty s))
          (finish_sell-Counted worst_price _ (lock_asset-next o.user_id o.asset o.qty s)))

  buy_within-Counted : (worst_price : Option ℕ) → Counted s (buy_within publisher o worst_price s)
  unfolding buy_within
  buy_within-Counted worst_price =
      let amount =
        add64 (quote_buy o worst_price s).0
          (calc_taker_fee s.fee_schedule (quote_buy o worst_price s).0) in
      if-Counted (is_fok o.time_in_force && ltb (quote_buy o worst_price s).1 o.qty) s _ _
        (Counts-refl s)
        (if-Counted ((quote_buy o worst_price s).1 == 0) s _ _ (Counts-refl s) (
          when-Counted (lock_usd o.user_id amount s).1 s _ _
            (unchanged s _ (lock_usd-next o.user_id amount s))
            (finish_buy-Counted worst_price amount _ (lock_usd-next o.user_id amount s))))

module _ (floats : Floats) (publisher : Bool) (msg : OrderMsg floats.F) (s : EngineState) where
  abbrev IsCounted : Outcome (EngineState × List Output) → Type 0
  IsCounted = OnDone (λ r. Counts s r.0)

  place_order-IsCounted : (o : Order) → IsCounted (place_order floats publisher msg o s)
  unfolding place_order
  place_order-IsCounted o =
      OnDone-bind (λ h. Counts s h.state) (λ r. Counts s r.0) _ _
        (elim msg.order_type
          as (λ k. Counted s (elim k [
            | limit ↦ limit_order publisher o msg.price s
            | market ↦ elim o.side [
              | ask ↦ market_sell floats publisher o msg.price msg.slippage_pct s
              | bid ↦ market_buy floats publisher o msg.price msg.slippage_pct s
            ]
          ])) [
            | limit ↦ limit_order-Counted publisher o s msg.price
            | market ↦
                elim o.side
                  as (λ u. Counted s (elim u [
                    | ask ↦ market_sell floats publisher o msg.price msg.slippage_pct s
                    | bid ↦ market_buy floats publisher o msg.price msg.slippage_pct s
                  ])) [
                    | ask ↦ sell_within-Counted publisher o s _
                    | bid ↦ buy_within-Counted publisher o s _
                  ]
          ])
        (λ h k. k)

  pub handle_order-IsCounted : IsCounted (handle_order floats publisher msg s)
  unfolding handle_order
  handle_order-IsCounted = elim (Bool-cases (not (is_supported (to_lowercase msg.asset)))) [
    | inl e ↦ rw e (Counts-refl s)
    | inr e ↦ elim (Option-cases (parse_side msg.side)) [
      | inl f ↦ rw (e, f) (Counts-refl s)
      | inr (side, f) ↦ elim (Bool-cases (not (is_pos msg.qty))) [
        | inl g ↦ rw (e, f, g) (Counts-refl s)
        | inr g ↦
            rw (e, f, g) (place_order-IsCounted (request floats (to_lowercase msg.asset) side msg))
      ]
    ]
  ]
