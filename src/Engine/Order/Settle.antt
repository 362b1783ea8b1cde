-- ===== src/Engine/Order/Settle.antt =====
-- What the arms of `handle_order` share: locking the funds of an order, and booking its results.
use cex_rs.Base.{
  ℕ, String, Bool, true, false, List, [], ◌∷◌, ◌++◌, Option, none, some, ltb, if◌then◌else◌, ◌==◌,
  nat_eq, map, take,
}
use cex_rs.Base.Word.{add64, mul64}
use cex_rs.Shared.Requests.{TimeInForce}
use cex_rs.Shared.Events.{TradeExecuted, trade_executed, depth_updated}
use cex_rs.Book.Types.{
  Side, bid, ask, Trade, MatchResult, trade, order_accepted, OrderAccepted, LevelSnapshot,
}
use cex_rs.Book.State.{get_order, get_state}
use cex_rs.Engine.State.{EngineState, get_orderbook, usd_of, usd_mut, asset_of, asset_mut}
use cex_rs.Engine.Outputs.{Output, reply, reply_error, order_reply, emit_execution}
use cex_rs.Engine.Fill.{lock, unlock, apply_fill}

-- The request once its asset, side and quantity are valid.
pub record Order : Type 0 where
  pub user_id : ℕ
  pub asset : String
  pub market : String
  pub side : Side
  pub side_text : String
  pub qty : ℕ
  pub time_in_force : TimeInForce
  pub queue_id : String
  pub identifier : String

-- What an arm leaves, and whether it returned from the handler.
pub record Handled : Type 0 where
  pub state : EngineState
  pub outputs : List Output
  pub returned : Bool

abbrev pub refuse : Bool → Order → String → EngineState → Handled
refuse publisher o error s = record {
  state = s;
  outputs = reply_error publisher o.queue_id o.identifier error 400;
  returned = true;
}

abbrev pub reply_status : Bool → Order → Option ℕ → String → List Output
reply_status publisher o order_id status = reply publisher o.queue_id (
    order_reply (record {
      identifier = o.identifier;
      order_id = order_id;
      status = some status;
      error = none;
      status_code = none;
    }))

-- Lock USD. Where they do not suffice the entry is made all the same: `usd_mut` comes first.
unfoldable pub lock_usd : ℕ → ℕ → EngineState → EngineState × Bool
lock_usd user_id amount s =
    if ltb (usd_of user_id s).available amount
    then (usd_mut user_id (λ b. b) s, false)
    else (usd_mut user_id (lock amount) s, true)

unfoldable pub lock_asset : ℕ → String → ℕ → EngineState → EngineState × Bool
lock_asset user_id asset amount s =
    if ltb (asset_of user_id asset s).available amount
    then (asset_mut user_id asset (λ b. b) s, false)
    else (asset_mut user_id asset (lock amount) s, true)

-- `if amount > 0 { .. }`
unfoldable pub unlock_usd : ℕ → ℕ → EngineState → EngineState
unlock_usd user_id amount s = if ltb 0 amount then usd_mut user_id (unlock amount) s else s

unfoldable pub unlock_asset : ℕ → String → ℕ → EngineState → EngineState
unlock_asset user_id asset amount s =
    if ltb 0 amount then asset_mut user_id asset (unlock amount) s else s

-- The variables of the loops over the results. A sell order spends nothing; only a limit order has
-- a `resting_order`.
pub record Settlement : Type 0 where
  pub state : EngineState
  pub filled_qty : ℕ
  pub spent : ℕ
  pub resting_order : Option OrderAccepted
  pub outputs : List Output

abbrev pub spends : Side → ℕ → ℕ → ℕ
spends bid cost spent = add64 spent cost
spends ask cost spent = spent

-- `get_orderbook(&asset).and_then(|ob| ob.get_order(id)).map(|o| o.remaining_qty).unwrap_or(0)`
unfoldable pub maker_remaining : String → ℕ → EngineState → ℕ
maker_remaining asset maker_order_id s = elim (get_orderbook asset s) [
  | none ↦ 0
  | some ob ↦ elim (get_order ob maker_order_id) [ none ↦ 0 | some o ↦ o.remaining_qty ]
]

-- The event of a trade, with the state and the fees (of the buyer, of the seller) that it leaves.
abbrev pub trade_event : Order → Trade → EngineState × (ℕ × ℕ) → TradeExecuted
trade_event o t (s, (buyer_fee, seller_fee)) = record {
  maker_order_id = t.maker_order_id;
  taker_order_id = t.taker_order_id;
  buyer_id = t.buyer;
  seller_id = t.seller;
  market = o.market;
  price = t.price;
  qty = t.qty;
  quote_amount = mul64 t.price t.qty;
  maker_remaining_qty = maker_remaining o.asset t.maker_order_id s;
  taker_remaining_qty = 0;
  buyer_fee = buyer_fee;
  seller_fee = seller_fee;
}

unfoldable pub settle_trade : Bool → Order → Trade → Settlement → Settlement
settle_trade publisher o t r =
    let filled = apply_fill r.state o.asset t in
    record r {
      state = filled.0;
      filled_qty = add64 r.filled_qty t.qty;
      spent = spends o.side (add64 (mul64 t.price t.qty) filled.1.0) r.spent;
      outputs = r.outputs ++ emit_execution publisher (trade_executed (trade_event o t filled));
    }

unfoldable pub settle_results : Bool → Order → List MatchResult → Settlement → Settlement
settle_results publisher o [] r = r
settle_results publisher o (trade t ∷ results) r =
    settle_results publisher o results (settle_trade publisher o t r)
settle_results publisher o (order_accepted acc ∷ results) r =
    settle_results publisher o results (record r { resting_order = some acc })

abbrev pub unsettled : EngineState → Settlement
unsettled s = record { state = s; filled_qty = 0; spent = 0; resting_order = none; outputs = [] }

unfoldable pub fill_status : ℕ → ℕ → String
fill_status filled_qty qty =
    if filled_qty == qty
    then "filled"
    else if ltb 0 filled_qty
    then "partially_filled"
    else "unfilled"

abbrev pub top_levels : List LevelSnapshot → List (ℕ × ℕ)
top_levels ls = map (λ l. (l.price, l.qty)) (take 25 ls)

-- The depth update that ends the handler.
unfoldable pub depth_update : Bool → String → String → EngineState → List Output
depth_update publisher asset market s = elim (get_orderbook asset s) [
  | none ↦ []
  | some ob ↦
      let snap = get_state ob in
      emit_execution publisher (
        depth_updated
          (record { market = market; bids = top_levels snap.bids; asks = top_levels snap.asks }))
]
