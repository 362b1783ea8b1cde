-- ===== src/Engine/State.antt =====
-- rs-engine/src/state.rs
use cex_rs.Base.{ℕ, String, Option, none, some, [], if◌then◌else◌, ◌==◌, nat_eq, string_eq}
use cex_rs.Base.Word.{add64}
use cex_rs.Base.HashMap
use cex_rs.Base.HashMap.{HashMap, get_or}
use cex_rs.Base.Text.{to_lowercase}
use cex_rs.Shared.Balance.{Balance, no_funds}
use cex_rs.Shared.Fees.{FeeSchedule}
use cex_rs.Book.State as Book
use cex_rs.Book.State.{Orderbook}

pub record EngineState : Type 0 where
  pub usd_balance : HashMap ℕ Balance
  pub stock_balance : HashMap ℕ (HashMap String Balance)
  pub sol_orderbook : Orderbook
  pub btc_orderbook : Orderbook
  pub eth_orderbook : Orderbook
  pub next_order_id : ℕ
  pub fee_schedule : FeeSchedule

-- The argument is what `FeeSchedule::from_env` gives.
unfoldable pub new : FeeSchedule → EngineState
new fees = record {
  usd_balance = [];
  stock_balance = [];
  sol_orderbook = Book.new "SOL-USDT";
  btc_orderbook = Book.new "BTC-USDT";
  eth_orderbook = Book.new "ETH-USDT";
  next_order_id = 1;
  fee_schedule = fees;
}

unfoldable pub with_fee_schedule : FeeSchedule → EngineState → EngineState
with_fee_schedule fees s = record s { fee_schedule = fees }

unfoldable pub reset : EngineState → EngineState
reset s = record s {
  usd_balance = [];
  stock_balance = [];
  sol_orderbook = Book.reset s.sol_orderbook;
  btc_orderbook = Book.reset s.btc_orderbook;
  eth_orderbook = Book.reset s.eth_orderbook;
  next_order_id = 1;
}

-- The new state and the identifier.
unfoldable pub next_order_id : EngineState → EngineState × ℕ
next_order_id s = (record s { next_order_id = add64 s.next_order_id 1 }, s.next_order_id)

unfoldable pub get_orderbook : String → EngineState → Option Orderbook
get_orderbook asset s =
    let a = to_lowercase asset in
    if a == "sol"
    then some s.sol_orderbook
    else if a == "btc"
    then some s.btc_orderbook
    else if a == "eth"
    then some s.eth_orderbook
    else none

-- What is written through the reference of `get_orderbook_mut`.
unfoldable pub set_orderbook : String → Orderbook → EngineState → EngineState
set_orderbook asset b s =
    let a = to_lowercase asset in
    if a == "sol"
    then record s { sol_orderbook = b }
    else if a == "btc"
    then record s { btc_orderbook = b }
    else if a == "eth"
    then record s { eth_orderbook = b }
    else s

abbrev pub usd_of : ℕ → EngineState → Balance
usd_of user_id s = get_or user_id no_funds s.usd_balance

-- `usd_mut`: write `f` of the balance through the reference. The entry is made where there is none.
unfoldable pub usd_mut : ℕ → (Balance → Balance) → EngineState → EngineState
usd_mut user_id f s = record s {
  usd_balance = HashMap.insert user_id (f (usd_of user_id s)) s.usd_balance;
}

abbrev pub stock_of : ℕ → EngineState → HashMap String Balance
stock_of user_id s = get_or user_id [] s.stock_balance

-- `stock_balance.entry(user_id).or_default().entry(symbol).or_default()`
unfoldable pub symbol_mut : ℕ → String → (Balance → Balance) → EngineState → EngineState
symbol_mut user_id symbol f s =
    let stock = stock_of user_id s in
    record s {
      stock_balance =
          HashMap.insert user_id (HashMap.insert symbol (f (get_or symbol no_funds stock)) stock)
            s.stock_balance;
    }

abbrev pub asset_of : ℕ → String → EngineState → Balance
asset_of user_id asset s = get_or (to_lowercase asset) no_funds (stock_of user_id s)

unfoldable pub asset_mut : ℕ → String → (Balance → Balance) → EngineState → EngineState
asset_mut user_id asset f s = symbol_mut user_id (to_lowercase asset) f s
