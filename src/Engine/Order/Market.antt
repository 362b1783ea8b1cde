-- ===== src/Engine/Order/Market.antt =====
-- The arms of `handle_order` for market orders.
use cex_rs.Base.{
  ℕ, ◌-◌, max, String, Bool, true, false, ◌&&◌, List, ◌++◌, Option, none, some, ltb, if◌then◌else◌,
  ◌==◌, nat_eq, Outcome, done, ◌>>=◌, expect, expect_ok,
}
use cex_rs.Base.Int.{ℤ, is_pos, to_u64}
use cex_rs.Base.Word.{add64, sub64}
use cex_rs.Base.Text.{to_uppercase, concat}
use cex_rs.Shared.Fees.{calc_taker_fee}
use cex_rs.Book.Types.{MatchResult}
use cex_rs.Book.State.{best_bid, best_ask}
use cex_rs.Book.Orders.{execute_market_order_with_id, is_fok}
use cex_rs.Book.Quote.{quote_cost_for_market_buy, fillable_qty_for_market_sell}
use cex_rs.Engine.State.{EngineState, get_orderbook, set_orderbook, next_order_id}
use cex_rs.Engine.Order.Settle.{
  Order, Handled, refuse, reply_status, lock_usd, lock_asset, unlock_usd, unlock_asset,
  settle_results, unsettled, fill_status,
}

-- The operations on `f64` that the slippage bounds use. Whole literals are conversions of numbers.
pub record Floats : Type 1 where
  pub F : Type 0
  pub from_u64 : ℕ → F
  pub as_u64 : F → ℕ
  pub add : F → F → F
  pub sub : F → F → F
  pub mul : F → F → F
  pub div : F → F → F
  pub floor : F → F
  pub ceil : F → F

module _ (floats : Floats) where
  -- `msg.slippage_pct.unwrap_or(5.0)`
  abbrev pub slippage_or : Option floats.F → floats.F
  slippage_or none = floats.from_u64 5
  slippage_or (some x) = x

  -- (best_bid as f64 * (1.0 - slippage / 100.0)).floor() as u64
  abbrev pub sell_floor : ℕ → floats.F → ℕ
  sell_floor price slippage = floats.as_u64 (
      floats.floor (
        floats.mul (floats.from_u64 price)
          (floats.sub (floats.from_u64 1) (floats.div slippage (floats.from_u64 100)))))

  -- (best_ask as f64 * (1.0 + slippage / 100.0)).ceil() as u64
  abbrev pub buy_cap : ℕ → floats.F → ℕ
  buy_cap price slippage = floats.as_u64 (
      floats.ceil (
        floats.mul (floats.from_u64 price)
          (floats.add (floats.from_u64 1) (floats.div slippage (floats.from_u64 100)))))

  unfoldable pub sell_worst_price : String → ℤ → floats.F → EngineState → Option ℕ
  sell_worst_price asset price slippage s =
      if is_pos price then some (to_u64 price) else elim (get_orderbook asset s) [
        | none ↦ none
        | some ob ↦ elim (best_bid ob) [
          | none ↦ none
          | some best ↦ some (max (sell_floor best slippage) 1)
        ]
      ]

  unfoldable pub buy_worst_price : String → ℤ → floats.F → EngineState → Option ℕ
  buy_worst_price asset price slippage s =
      if is_pos price then some (to_u64 price) else elim (get_orderbook asset s) [
        | none ↦ none
        | some ob ↦ elim (best_ask ob) [ none ↦ none | some best ↦ some (buy_cap best slippage) ]
      ]

-- Execute the order on its book: the state and the results.
unfoldable pub place_market :
    Order → Option ℕ → EngineState → Outcome (EngineState × List MatchResult)
place_market o worst_price s =
    let s1 = (next_order_id s).0 in
    let order_id = (next_order_id s).1 in
    do
      book ← expect (get_orderbook o.asset s1)
      (book', executed) ←
          execute_market_order_with_id order_id o.user_id o.side o.qty worst_price book
      results ← expect_ok executed
      done (set_orderbook o.asset book' s1, results)

unfoldable pub fillable_sell : Order → Option ℕ → EngineState → ℕ
fillable_sell o worst_price s = elim (get_orderbook o.asset s) [
  | none ↦ 0
  | some ob ↦ fillable_qty_for_market_sell ob o.qty worst_price
]

-- A sale that has its funds locked.
unfoldable pub finish_sell : Bool → Order → Option ℕ → EngineState → Outcome Handled
finish_sell publisher o worst_price s1 = do
  (s2, results) ← place_market o worst_price s1
  let r = settle_results publisher o results (unsettled s2)
  done (record {
    state = unlock_asset o.user_id o.asset (sub64 o.qty r.filled_qty) r.state;
    outputs = r.outputs ++ reply_status publisher o none (fill_status r.filled_qty o.qty);
    returned = false;
  })

unfoldable pub sell_within : Bool → Order → Option ℕ → EngineState → Outcome Handled
sell_within publisher o worst_price s =
    if is_fok o.time_in_force && ltb (fillable_sell o worst_price s) o.qty
    then done
        (record { state = s; outputs = reply_status publisher o none "unfilled"; returned = true })
    else let (s1, locked) = lock_asset o.user_id o.asset o.qty s in
      elim locked [
        | false ↦ done (refuse publisher o (concat "Insufficient " (to_uppercase o.asset)) s1)
        | true ↦ finish_sell publisher o worst_price s1
      ]

abbrev pub market_sell :
    (floats : Floats) → Bool → Order → ℤ → Option floats.F → EngineState → Outcome Handled
market_sell floats publisher o price slippage s =
    sell_within publisher o (sell_worst_price floats o.asset price (slippage_or floats slippage) s)
      s

-- (required_usd, fillable_qty)
unfoldable pub quote_buy : Order → Option ℕ → EngineState → ℕ × ℕ
quote_buy o worst_price s = elim (get_orderbook o.asset s) [
  | none ↦ (0, 0)
  | some ob ↦ quote_cost_for_market_buy ob o.qty worst_price
]

-- A purchase that has `total_required` locked.
unfoldable pub finish_buy : Bool → Order → Option ℕ → ℕ → EngineState → Outcome Handled
finish_buy publisher o worst_price total_required s1 = do
  (s2, results) ← place_market o worst_price s1
  let r = settle_results publisher o results (unsettled s2)
  done (record {
    state = unlock_usd o.user_id (total_required - r.spent) r.state;
    outputs = r.outputs ++ reply_status publisher o none (fill_status r.filled_qty o.qty);
    returned = false;
  })

unfoldable pub buy_within : Bool → Order → Option ℕ → EngineState → Outcome Handled
buy_within publisher o worst_price s =
    let (required_usd, fillable_qty) = quote_buy o worst_price s in
    if is_fok o.time_in_force && ltb fillable_qty o.qty
    then done
        (record { state = s; outputs = reply_status publisher o none "unfilled"; returned = true })
    else if fillable_qty == 0
    then done (refuse publisher o "No ask liquidity available within slippage limit" s)
    else let total_required = add64 required_usd (calc_taker_fee s.fee_schedule required_usd) in
      let (s1, locked) = lock_usd o.user_id total_required s in
      elim locked [
        | false ↦ done (refuse publisher o "Insufficient USD" s1)
        | true ↦ finish_buy publisher o worst_price total_required s1
      ]

abbrev pub market_buy :
    (floats : Floats) → Bool → Order → ℤ → Option floats.F → EngineState → Outcome Handled
market_buy floats publisher o price slippage s =
    buy_within publisher o (buy_worst_price floats o.asset price (slippage_or floats slippage) s) s
