-- ===== src/Gateway/Routes/Recorded.antt =====
-- A trade from the event that the ledger worker reads to the histories that the routes show.
use cex_rs.Base.{
  ℕ, ◌<◌, ◌≡◌, refl, ap, ◌∙◌, String, Bool, true, false, ◌||◌, some, List, [], ◌∷◌, ◌++◌, select,
  take, ◌==◌, nat_eq, if◌then◌else◌, arith,
}
use cex_rs.Base.Int.{pos, to_i64, i64_bound}
use cex_rs.Shared.Events.{TradeExecuted, trade_executed}
use cex_rs.Gateway.Ledger.{
  Database, TradeRow, LedgerEntry, apply_event, write_trade, insert_entries, trade_entries,
  buyer_entries, seller_entries, fee_entries, same_id, fee_entry,
}
use cex_rs.Gateway.Ledger.Sums.{same_id-to_i64}
use cex_rs.Gateway.Routes.{trade_history, ledger_history}
use cex_rs.Gateway.Routes.History.{is_party, is_owner, trades_where, get_my_trades, get_ledger}

-- The trade as a row.
abbrev pub row_of : TradeExecuted → TradeRow
row_of e = record {
  maker_order_id = to_i64 e.maker_order_id;
  taker_order_id = to_i64 e.taker_order_id;
  buyer_id = to_i64 e.buyer_id;
  seller_id = to_i64 e.seller_id;
  market = e.market;
  price = to_i64 e.price;
  qty = to_i64 e.qty;
  quote_amount = to_i64 e.quote_amount;
}

-- What a user is to see of a trade.
abbrev pub trades_for : ℕ → TradeExecuted → List TradeRow
trades_for user_id e = if user_id == e.buyer_id || user_id == e.seller_id then row_of e ∷ [] else []

abbrev pub entries_for : ℕ → TradeExecuted → List LedgerEntry
entries_for user_id e =
    (if user_id == e.buyer_id then buyer_entries e else [])
    ++ (if user_id == e.seller_id then seller_entries e else [])
    ++ (if user_id == 0 then fee_entries e else [])

select-append :
    {A : Type 0} (p : A → Bool) (xs ys : List A) → select p (xs ++ ys) ≡ select p xs ++ select p ys
select-append p [] ys = refl
select-append p (x ∷ xs) ys = ground (arith, select-append p xs ys)

module _ (newest_first : (A : Type 0) → List A → List A) (user_id : ℕ) (uuid : String)
    (e : TradeExecuted) (db : Database) where
  -- The histories of the user before the event and after it.
  pub record Recorded : Type 0 where
    pub trades : List TradeRow
    pub entries : List LedgerEntry
    pub trades_before :
        get_my_trades newest_first user_id (some db)
        ≡ record { status = 200; body = trade_history (take 50 (newest_first TradeRow trades)) }
    pub trades_after :
        get_my_trades newest_first user_id (some (apply_event uuid (trade_executed e) db))
        ≡ record {
          status = 200;
          body = trade_history (take 50 (newest_first TradeRow (trades ++ trades_for user_id e)));
        }
    pub entries_before : get_ledger newest_first user_id (some db) ≡ record {
      status = 200;
      body = ledger_history (take 50 (newest_first LedgerEntry entries));
    }
    pub entries_after :
        get_ledger newest_first user_id (some (apply_event uuid (trade_executed e) db)) ≡ record {
          status = 200;
          body =
              ledger_history
                (take 50 (newest_first LedgerEntry (entries ++ entries_for user_id e)));
        }

  module _ (user : user_id < i64_bound) (buyer : e.buyer_id < i64_bound)
      (seller : e.seller_id < i64_bound) where
    select-row : select (is_party user_id) (row_of e ∷ []) ≡ trades_for user_id e
    select-row = ground (
      arith,
      same_id-to_i64 e.buyer_id user_id buyer user,
      same_id-to_i64 e.seller_id user_id seller user,
    )

    select-buyer :
        select (is_owner user_id) (buyer_entries e)
        ≡ (if user_id == e.buyer_id then buyer_entries e else [])
    unfolding buyer_entries
    select-buyer = ground (arith, same_id-to_i64 e.buyer_id user_id buyer user)

    select-seller :
        select (is_owner user_id) (seller_entries e)
        ≡ (if user_id == e.seller_id then seller_entries e else [])
    unfolding seller_entries
    select-seller = ground (arith, same_id-to_i64 e.seller_id user_id seller user)

    treasury : same_id (pos 0) (to_i64 user_id) ≡ (0 == user_id)
    unfolding to_i64
    treasury = ground (arith, user)

    select-fee_if :
        (charged : Bool)
        → select (is_owner user_id) (if charged then fee_entry e ∷ [] else [])
          ≡ (if user_id == 0 then if charged then fee_entry e ∷ [] else [] else [])
    select-fee_if true = ground (arith, treasury)
    select-fee_if false = ground arith

    select-fee :
        select (is_owner user_id) (fee_entries e) ≡ (if user_id == 0 then fee_entries e else [])
    unfolding fee_entries
    select-fee = select-fee_if _

    select-entries : select (is_owner user_id) (trade_entries e) ≡ entries_for user_id e
    unfolding trade_entries
    select-entries =
        select-append (is_owner user_id) (buyer_entries e ++ seller_entries e) (fee_entries e)
        ∙ ap (λ xs. xs ++ select (is_owner user_id) (fee_entries e))
            (select-append (is_owner user_id) (buyer_entries e) (seller_entries e))
        ∙ rw (select-buyer, select-seller, select-fee)

    -- A trade event that the ledger worker writes changes the histories of a user, whoever that is,
    -- by what concerns the user: the row of the trade if the user is its buyer or its seller, and of
    -- the ledger the entries of the buyer, of the seller and of the fee, for the buyer, the seller
    -- and the treasury (user 0). Each history shows the first fifty rows in its order, before the
    -- event and after it. The identifiers of the users are below 2 ^ 63.
    pub apply_event-Recorded : Recorded
    unfolding get_my_trades trades_where get_ledger apply_event write_trade insert_entries
    apply_event-Recorded = record {
      trades = select (is_party user_id) db.trades;
      entries = select (is_owner user_id) db.ledger_entries;
      trades_before = refl;
      trades_after =
          ap
            (λ xs. record {
              status = 200;
              body = trade_history (take 50 (newest_first TradeRow xs));
            })
            (select-append (is_party user_id) db.trades (row_of e ∷ [])
              ∙ ap (λ xs. select (is_party user_id) db.trades ++ xs) select-row);
      entries_before = refl;
      entries_after =
          ap
            (λ xs. record {
              status = 200;
              body = ledger_history (take 50 (newest_first LedgerEntry xs));
            })
            (select-append (is_owner user_id) db.ledger_entries (trade_entries e)
              ∙ ap (λ xs. select (is_owner user_id) db.ledger_entries ++ xs) select-entries);
    }
