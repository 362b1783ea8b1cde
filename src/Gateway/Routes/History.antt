-- ===== src/Gateway/Routes/History.antt =====
-- rs-gateway/src/routes/trades.rs and ledger.rs: the histories.
use cex_rs.Base.{
  ℕ, String, Bool, ◌||◌, Option, none, some, List, select, take, ◌==◌, nat_eq, string_eq,
}
use cex_rs.Base.Int.{to_i64}
use cex_rs.Base.Text.{concat, to_uppercase}
use cex_rs.Gateway.Ledger.{Database, TradeRow, LedgerEntry, same_id}
use cex_rs.Gateway.Routes.{Response, trade_history, ledger_history, failure}

abbrev database_error : Response
database_error = record { status = 500; body = failure "Database error" }

abbrev pub is_party : ℕ → TradeRow → Bool
is_party user_id t = same_id t.buyer_id (to_i64 user_id) || same_id t.seller_id (to_i64 user_id)

abbrev pub is_owner : ℕ → LedgerEntry → Bool
is_owner user_id e = same_id e.user_id (to_i64 user_id)

-- `newest_first` is `ORDER BY created_at DESC`: the rows have no times here, and those of one
-- transaction have the same. `none` is an error of the database.
module _ (newest_first : (A : Type 0) → List A → List A) where
  unfoldable pub trades_where : (TradeRow → Bool) → Option Database → Response
  trades_where p none = database_error
  trades_where p (some db) = record {
    status = 200;
    body = trade_history (take 50 (newest_first TradeRow (select p db.trades)));
  }

  unfoldable pub get_my_trades : ℕ → Option Database → Response
  get_my_trades user_id = trades_where (is_party user_id)

  unfoldable pub get_market_trades : String → Option Database → Response
  get_market_trades asset = trades_where (λ t. t.market == concat (to_uppercase asset) "_USD")

  unfoldable pub get_ledger : ℕ → Option Database → Response
  get_ledger user_id none = database_error
  get_ledger user_id (some db) = record {
    status = 200;
    body =
        ledger_history
          (take 50 (newest_first LedgerEntry (select (is_owner user_id) db.ledger_entries)));
  }
