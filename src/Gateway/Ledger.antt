-- ===== src/Gateway/Ledger.antt =====
-- rs-gateway/src/ledger/worker.rs: the tables, what an execution event writes into them, and the
-- batches in which the worker reads the stream.
pub mod Balanced
pub mod Sums
pub mod Agrees
pub mod Worker
use cex_rs.Base.{
  ℕ, ◌-◌, String, Bool, true, false, not, Option, none, some, List, [], ◌∷◌, ◌++◌, ltb, is_empty,
  if◌then◌else◌, ◌==◌, nat_eq,
}
use cex_rs.Base.Int.{ℤ, pos, negsuc, to_i64, neg, is_pos}
use cex_rs.Base.Text.{concat, split_first, to_string}
use cex_rs.Base.Word.{add64}
use cex_rs.Shared.Events.{
  ExecutionEvent, OrderCreated, TradeExecuted, CancelledOrder, FundingExecuted, order_created,
  trade_executed, order_cancelled, funding_executed, depth_updated,
}

-- The rows. Serial numbers of rows and times are left out.
pub record OrderRow : Type 0 where
  pub id : ℤ
  pub user_id : ℤ
  pub market : String
  pub side : String
  pub price : ℤ
  pub original_qty : ℤ
  pub remaining_qty : ℤ
  pub status : String

pub record TradeRow : Type 0 where
  pub maker_order_id : ℤ
  pub taker_order_id : ℤ
  pub buyer_id : ℤ
  pub seller_id : ℤ
  pub market : String
  pub price : ℤ
  pub qty : ℤ
  pub quote_amount : ℤ

pub record LedgerEntry : Type 0 where
  pub user_id : ℤ
  pub currency : String
  pub amount : ℤ
  pub balance_type : String
  pub operation_type : String
  pub reference_id : String

-- A table is the list of its rows in the order of insertion. `last_stream_id` is that of the one
-- row of `execution_checkpoints`.
pub record Database : Type 0 where
  pub orders : List OrderRow
  pub trades : List TradeRow
  pub ledger_entries : List LedgerEntry
  pub last_stream_id : String

abbrev pub same_id : ℤ → ℤ → Bool
same_id (pos m) (pos n) = m == n
same_id (pos m) (negsuc n) = false
same_id (negsuc m) (pos n) = false
same_id (negsuc m) (negsuc n) = m == n

-- `UPDATE orders SET remaining_qty = .., status = .. WHERE id = ..`
unfoldable pub update_order : ℤ → ℤ → String → List OrderRow → List OrderRow
update_order id remaining_qty status [] = []
update_order id remaining_qty status (o ∷ os) =
    let rest = update_order id remaining_qty status os in
    (if same_id o.id id then record o { remaining_qty = remaining_qty; status = status } else o)
    ∷ rest

unfoldable pub find_row : ℤ → List OrderRow → Option OrderRow
find_row id [] = none
find_row id (o ∷ os) = if same_id o.id id then some o else find_row id os

-- `INSERT INTO orders .. ON CONFLICT (id) DO UPDATE SET ..`
unfoldable pub upsert_order : OrderRow → List OrderRow → List OrderRow
upsert_order row os = elim (find_row row.id os) [
  | none ↦ os ++ row ∷ []
  | some o ↦ update_order row.id row.remaining_qty row.status os
]

unfoldable pub insert_entries : List LedgerEntry → Database → Database
insert_entries rows db = record db { ledger_entries = db.ledger_entries ++ rows }

unfoldable pub write_order : OrderCreated → Database → Database
write_order e db = record db {
  orders =
      upsert_order
        (record {
          id = to_i64 e.order_id;
          user_id = to_i64 e.user_id;
          market = e.market;
          side = e.side;
          price = to_i64 e.price;
          original_qty = to_i64 e.original_qty;
          remaining_qty = to_i64 e.remaining_qty;
          status = e.status;
        })
        db.orders;
}

unfoldable pub trade_ref : TradeExecuted → String
trade_ref e = concat (to_string e.maker_order_id) (concat "-" (to_string e.taker_order_id))

-- `market.split('_').next()`. The default of the code, "SOL", is for an empty split.
unfoldable pub base_currency : TradeExecuted → String
base_currency e = split_first b'_' e.market

-- The buyer's two entries.
unfoldable pub buyer_entries : TradeExecuted → List LedgerEntry
buyer_entries e =
    let buyer_usd_deduction = to_i64 (add64 e.quote_amount e.buyer_fee) in
    record {
      user_id = to_i64 e.buyer_id;
      currency = "USD";
      amount = neg buyer_usd_deduction;
      balance_type = "locked";
      operation_type = "trade_fill";
      reference_id = trade_ref e;
    }
    ∷ record {
      user_id = to_i64 e.buyer_id;
      currency = base_currency e;
      amount = to_i64 e.qty;
      balance_type = "available";
      operation_type = "trade_fill";
      reference_id = trade_ref e;
    }
    ∷ []

-- The seller's. The subtraction saturates.
unfoldable pub seller_entries : TradeExecuted → List LedgerEntry
seller_entries e =
    let seller_usd_credit = to_i64 (e.quote_amount - e.seller_fee) in
    record {
      user_id = to_i64 e.seller_id;
      currency = "USD";
      amount = seller_usd_credit;
      balance_type = "available";
      operation_type = "trade_fill";
      reference_id = trade_ref e;
    }
    ∷ record {
      user_id = to_i64 e.seller_id;
      currency = base_currency e;
      amount = neg (to_i64 e.qty);
      balance_type = "locked";
      operation_type = "trade_fill";
      reference_id = trade_ref e;
    }
    ∷ []

-- The treasury's, where there is a fee.
abbrev pub fee_entry : TradeExecuted → LedgerEntry
fee_entry e = record {
  user_id = pos 0;
  currency = "USD";
  amount = to_i64 (add64 e.buyer_fee e.seller_fee);
  balance_type = "available";
  operation_type = "fee_collection";
  reference_id = trade_ref e;
}

unfoldable pub fee_entries : TradeExecuted → List LedgerEntry
fee_entries e = if is_pos (to_i64 (add64 e.buyer_fee e.seller_fee)) then fee_entry e ∷ [] else []

unfoldable pub trade_entries : TradeExecuted → List LedgerEntry
trade_entries e = buyer_entries e ++ seller_entries e ++ fee_entries e

abbrev pub maker_status : ℕ → String
maker_status remaining = if remaining == 0 then "filled" else "partially_filled"

unfoldable pub write_trade : TradeExecuted → Database → Database
write_trade e db =
    let row : TradeRow = record {
      maker_order_id = to_i64 e.maker_order_id;
      taker_order_id = to_i64 e.taker_order_id;
      buyer_id = to_i64 e.buyer_id;
      seller_id = to_i64 e.seller_id;
      market = e.market;
      price = to_i64 e.price;
      qty = to_i64 e.qty;
      quote_amount = to_i64 e.quote_amount;
    } in
    insert_entries (trade_entries e) (record db {
      trades = db.trades ++ row ∷ [];
      orders =
          update_order (to_i64 e.maker_order_id) (to_i64 e.maker_remaining_qty)
            (maker_status e.maker_remaining_qty) db.orders;
    })

unfoldable pub write_cancel : CancelledOrder → Database → Database
write_cancel e db = record db {
  orders = update_order (to_i64 e.order_id) (to_i64 e.remaining_qty) "cancelled" db.orders;
}

-- The user's entry, and the one of the clearing account. `uuid` is the one that is drawn.
unfoldable pub funding_entries : String → FundingExecuted → List LedgerEntry
funding_entries uuid e =
    let funding_ref = concat e.operation_type (concat "_" uuid) in
    record {
      user_id = to_i64 e.user_id;
      currency = e.currency;
      amount = to_i64 e.amount;
      balance_type = "available";
      operation_type = e.operation_type;
      reference_id = funding_ref;
    }
    ∷ record {
      user_id = pos 0;
      currency = e.currency;
      amount = neg (to_i64 e.amount);
      balance_type = "clearing";
      operation_type = e.operation_type;
      reference_id = funding_ref;
    }
    ∷ []

-- The `match` of the worker: what the statements write where none of them fails. One that fails
-- undoes the whole transaction, whatever the others do (`finish_read` of Ledger/Worker).
unfoldable pub apply_event : String → ExecutionEvent → Database → Database
apply_event uuid (order_created e) db = write_order e db
apply_event uuid (trade_executed e) db = write_trade e db
apply_event uuid (order_cancelled e) db = write_cancel e db
apply_event uuid (funding_executed e) db = insert_entries (funding_entries uuid e) db
apply_event uuid (depth_updated e) db = db
