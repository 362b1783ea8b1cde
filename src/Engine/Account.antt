-- ===== src/Engine/Account.antt =====
-- rs-engine/src/handlers/account.rs and admin.rs: the handlers of funding, balances and the reset.
pub mod Totals
pub mod Changes
use cex_rs.Base.{ℕ, String, Bool, List, ◌++◌, nat_eq, string_eq}
use cex_rs.Base.HashMap
use cex_rs.Base.HashMap.{get_or}
use cex_rs.Base.Text.{to_uppercase}
use cex_rs.Shared.Requests.{SignupMsg, OnrampMsg, DepositMsg, BalanceQueryMsg, ResetMsg}
use cex_rs.Shared.Events.{funding_executed}
use cex_rs.Engine.State.{EngineState, usd_of, usd_mut, stock_of, symbol_mut, reset}
use cex_rs.Engine.Outputs.{Output, reply, balance_reply, generic_reply, emit_execution}
use cex_rs.Engine.Fill.{add_available}

-- The reply with the balances of a user.
unfoldable pub reply_balance : Bool → String → String → ℕ → EngineState → List Output
reply_balance publisher queue_id identifier user_id s = reply publisher queue_id (
    balance_reply (record {
      identifier = identifier;
      usd_balance = usd_of user_id s;
      stock_balance = stock_of user_id s;
    }))

-- Initialise zero balances: `entry(..).or_default()`.
unfoldable pub open_account : ℕ → EngineState → EngineState
open_account user_id s = record s {
  usd_balance = HashMap.insert user_id (usd_of user_id s) s.usd_balance;
  stock_balance = HashMap.insert user_id (stock_of user_id s) s.stock_balance;
}

unfoldable pub handle_signup : Bool → SignupMsg → EngineState → EngineState × List Output
handle_signup publisher msg s =
    let s' = open_account msg.user_id s in
    (s', reply_balance publisher msg.queue_id msg.identifier msg.user_id s')

unfoldable pub handle_onramp : Bool → OnrampMsg → EngineState → EngineState × List Output
handle_onramp publisher msg s =
    let s' = usd_mut msg.user_id (add_available msg.qty) s in
    (
      s',
      emit_execution publisher (
            funding_executed (record {
              user_id = msg.user_id;
              currency = "USD";
              amount = msg.qty;
              operation_type = "onramp";
            }))
          ++ reply_balance publisher msg.queue_id msg.identifier msg.user_id s',
    )

-- The symbol is the key as it stands in the message.
unfoldable pub handle_deposit : Bool → DepositMsg → EngineState → EngineState × List Output
handle_deposit publisher msg s =
    let s' = symbol_mut msg.user_id msg.symbol (add_available msg.qty) s in
    (
      s',
      emit_execution publisher (
            funding_executed (record {
              user_id = msg.user_id;
              currency = to_uppercase msg.symbol;
              amount = msg.qty;
              operation_type = "deposit";
            }))
          ++ reply_balance publisher msg.queue_id msg.identifier msg.user_id s',
    )

unfoldable pub handle_balance : Bool → BalanceQueryMsg → EngineState → List Output
handle_balance publisher msg s = reply_balance publisher msg.queue_id msg.identifier msg.user_id s

unfoldable pub handle_reset : Bool → ResetMsg → EngineState → EngineState × List Output
handle_reset publisher msg s = (
  reset s,
  reply publisher msg.queue_id
      (generic_reply (record { identifier = msg.identifier; message = "Reset successful" })),
)
