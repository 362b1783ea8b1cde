-- ===== src/Engine/Order/Placed.antt =====
-- Locking for, placing and reconciling an order keep the sums of the balances.
use cex_rs.Base.{
  ℕ, true, false, not, Option, nat_eq, string_eq, if◌then◌else◌, Outcome, done, panic, hang, ◌>>=◌,
  expect, expect_ok,
}
use cex_rs.Base.Word.{sub64}
use cex_rs.Book.Types.{bid, ask}
use cex_rs.Book.Orders.{add_order_with_id, execute_market_order_with_id, is_gtc}
use cex_rs.Engine.State.{EngineState, next_order_id, get_orderbook}
use cex_rs.Engine.Order.Kept.{
  Keeps, Keeps-refl, Keeps-trans, lock_usd-Keeps, lock_asset-Keeps, unlock_usd-Keeps,
  unlock_asset-Keeps, next_order_id-Keeps, set_orderbook-Keeps,
}
use cex_rs.Engine.Order.Limit.{lock_order, place_limit, reconcile, total_lock}
use cex_rs.Engine.Order.Market.{place_market}
use cex_rs.Engine.Order.Settle.{Order, Settlement, unlock_asset}

-- What holds of the value, if there is one.
abbrev pub OnDone {ℓ} : {A : Type ℓ} → (A → Type 0) → Outcome A → Type 0
OnDone P (done a) = P a
OnDone P panic = Unit {0}
OnDone P hang = Unit {0}

pub OnDone-bind {ℓ κ} :
    {A : Type ℓ} {B : Type κ} (P : A → Type 0) (Q : B → Type 0) (x : Outcome A) (f : A → Outcome B)
    → OnDone P x
    → ((a : A) → P a → OnDone Q (f a))
    → OnDone Q (x >>= f)
OnDone-bind P Q (done a) f h k = k a h
OnDone-bind P Q panic f h k = tt
OnDone-bind P Q hang f h k = tt

pub OnDone-any {ℓ} : {A : Type ℓ} (x : Outcome A) → OnDone (λ a. Unit {0}) x
OnDone-any (done a) = tt
OnDone-any panic = tt
OnDone-any hang = tt

module _ (o : Order) (s : EngineState) where
  pub place_limit-Keeps : (price : ℕ) → OnDone (λ r. Keeps s r.0) (place_limit o price s)
  unfolding place_limit
  place_limit-Keeps price =
      OnDone-bind _ _ (expect (get_orderbook o.asset (next_order_id s).0)) _ (OnDone-any _)
        (λ book u.
          OnDone-bind _ _
            (add_order_with_id (next_order_id s).1 o.user_id o.side price o.qty o.time_in_force
              book)
            _ (OnDone-any _)
            (λ r v. OnDone-bind _ _ (expect_ok r.1) _ (OnDone-any _) (λ results x.
              Keeps-trans s (next_order_id s).0 _ (next_order_id-Keeps s)
                (set_orderbook-Keeps o.asset r.0 (next_order_id s).0))))

  pub place_market-Keeps :
      (worst_price : Option ℕ) → OnDone (λ r. Keeps s r.0) (place_market o worst_price s)
  unfolding place_market
  place_market-Keeps worst_price =
      OnDone-bind _ _ (expect (get_orderbook o.asset (next_order_id s).0)) _ (OnDone-any _)
        (λ book u.
          OnDone-bind _ _
            (execute_market_order_with_id (next_order_id s).1 o.user_id o.side o.qty worst_price
              book)
            _ (OnDone-any _)
            (λ r v. OnDone-bind _ _ (expect_ok r.1) _ (OnDone-any _) (λ results x.
              Keeps-trans s (next_order_id s).0 _ (next_order_id-Keeps s)
                (set_orderbook-Keeps o.asset r.0 (next_order_id s).0))))

  pub lock_order-Keeps : (price : ℕ) → Keeps s (lock_order o price s).0
  unfolding lock_order
  lock_order-Keeps price =
      elim o.side as (λ u. Keeps s (lock_order (record o { side = u }) price s).0) [
        | bid ↦ lock_usd-Keeps o.user_id (total_lock s.fee_schedule price o.qty) s
        | ask ↦ lock_asset-Keeps o.user_id o.qty s o.asset
      ]

  pub reconcile-Keeps :
      (amount : ℕ) (r : Settlement) → Keeps s r.state → Keeps s (reconcile o amount r)
  unfolding reconcile
  reconcile-Keeps amount r k =
      Keeps-trans s r.state _ k
        (elim o.side as (λ u. Keeps r.state (reconcile (record o { side = u }) amount r)) [
          | bid ↦ unlock_usd-Keeps o.user_id _ r.state
          | ask ↦
              elim (not (is_gtc o.time_in_force))
                as (λ c. Keeps r.state (
                  if c
                  then unlock_asset o.user_id o.asset (sub64 o.qty r.filled_qty) r.state
                  else r.state)) [
                    | true ↦ unlock_asset-Keeps o.user_id _ r.state o.asset
                    | false ↦ Keeps-refl r.state
                  ]
        ])
