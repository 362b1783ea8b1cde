-- ===== src/Gateway/Ledger/Balanced.antt =====
-- The credits and debits of a currency in the rows of `ledger_entries`.
use cex_rs.Base.{
  ℕ, zero, suc, ◌∙◌, ◌+◌, ◌-◌, ◌≤◌, ◌<◌, ◌≡◌, Bool, String, List, [], ◌∷◌, ◌++◌, arith, ◌==◌,
  string_eq, if◌then◌else◌,
}
use cex_rs.Base.Int.{
  ℤ, pos, negsuc, pos_part, neg_part, i64_bound, to_i64, neg, is_pos, pos_part-to_i64,
  neg_part-to_i64, pos_part-neg, neg_part-neg,
}
use cex_rs.Base.Word.{add64}
use cex_rs.Shared.Events.{
  ExecutionEvent, TradeExecuted, FundingExecuted, order_created, trade_executed, order_cancelled,
  funding_executed, depth_updated,
}
use cex_rs.Gateway.Ledger.{
  LedgerEntry, Database, insert_entries, write_order, write_trade, write_cancel, buyer_entries,
  seller_entries, fee_entry, fee_entries, trade_entries, funding_entries, apply_event,
}

-- The sum of what `f` takes of the amounts of some entries.
abbrev pub sum_of : (ℤ → ℕ) → (LedgerEntry → Bool) → List LedgerEntry → ℕ
sum_of f p [] = 0
sum_of f p (r ∷ rs) = (if p r then f r.amount else 0) + sum_of f p rs

pub sum_of-append :
    (f : ℤ → ℕ) (p : LedgerEntry → Bool) (xs ys : List LedgerEntry)
    → sum_of f p (xs ++ ys) ≡ sum_of f p xs + sum_of f p ys
sum_of-append f p [] ys = omega arith
sum_of-append f p (x ∷ xs) ys = omega (arith, sum_of-append f p xs ys)

abbrev pub is_in : String → LedgerEntry → Bool
is_in currency r = r.currency == currency

abbrev pub credits : String → List LedgerEntry → ℕ
credits currency = sum_of pos_part (is_in currency)

abbrev pub debits : String → List LedgerEntry → ℕ
debits currency = sum_of neg_part (is_in currency)

-- In each currency the credits are as much as the debits.
abbrev pub IsBalanced : List LedgerEntry → Type 0
IsBalanced rs = (currency : String) → credits currency rs ≡ debits currency rs

pub IsBalanced-append :
    (xs ys : List LedgerEntry) → IsBalanced xs → IsBalanced ys → IsBalanced (xs ++ ys)
IsBalanced-append xs ys a b currency = omega (
  arith,
  sum_of-append pos_part (is_in currency) xs ys,
  sum_of-append neg_part (is_in currency) xs ys,
  a currency,
  b currency,
)

-- The amounts of an event are values of `i64`, and the seller's fee is at most what is paid.
abbrev pub IsBookable : ExecutionEvent → Type 0
IsBookable (trade_executed e) =
    (e.quote_amount + e.buyer_fee < i64_bound)
    × (e.buyer_fee + e.seller_fee < i64_bound)
    × (e.qty < i64_bound)
    × (e.seller_fee ≤ e.quote_amount)
IsBookable (funding_executed e) = e.amount < i64_bound
IsBookable (order_created e) = Unit {0}
IsBookable (order_cancelled e) = Unit {0}
IsBookable (depth_updated e) = Unit {0}

-- An amount that fits is credited as it is, and debited as it is by its negation.
pub record Books (n : ℕ) : Type 0 where
  pub credit : pos_part (to_i64 n) ≡ n
  pub no_debit : neg_part (to_i64 n) ≡ 0
  pub debit : neg_part (neg (to_i64 n)) ≡ n
  pub no_credit : pos_part (neg (to_i64 n)) ≡ 0

pub books : (n : ℕ) → n < i64_bound → Books n
books n h =
    let z = neg_part-to_i64 n h in
    record {
      credit = pos_part-to_i64 n h;
      no_debit = z;
      debit = neg_part-neg (to_i64 n) z ∙ pos_part-to_i64 n h;
      no_credit = pos_part-neg (to_i64 n) z;
    }

-- An entry that is written only where its amount is above 0.
if_pos-sum :
    (x : ℤ) (r : LedgerEntry) (p : LedgerEntry → Bool)
    → neg_part x ≡ 0
    → (sum_of pos_part p (if is_pos x then record r { amount = x } ∷ [] else [])
        ≡ (if p (record r { amount = x }) then pos_part x else 0))
      × (sum_of neg_part p (if is_pos x then record r { amount = x } ∷ [] else []) ≡ 0)
if_pos-sum (pos zero) r p z = ground arith
if_pos-sum (pos (suc n)) r p z = ground arith
if_pos-sum (negsuc n) r p z = absurd (omega arith)

-- The fee is credited to the treasury.
pub fee_entries-sum :
    (e : TradeExecuted) (p : LedgerEntry → Bool)
    → e.buyer_fee + e.seller_fee < i64_bound
    → (sum_of pos_part p (fee_entries e)
        ≡ (if p (fee_entry e) then e.buyer_fee + e.seller_fee else 0))
      × (sum_of neg_part p (fee_entries e) ≡ 0)
unfolding fee_entries
fee_entries-sum e p h =
    let sum : add64 e.buyer_fee e.seller_fee ≡ e.buyer_fee + e.seller_fee = omega arith in
    let b = books (add64 e.buyer_fee e.seller_fee) (omega arith) in
    let (credit, debit) =
      if_pos-sum (to_i64 (add64 e.buyer_fee e.seller_fee)) (fee_entry e) p b.no_debit in
    (ground (arith, credit, sum, b.credit), debit)

trade_entries-IsBalanced :
    (e : TradeExecuted) → IsBookable (trade_executed e) → IsBalanced (trade_entries e)
unfolding trade_entries buyer_entries seller_entries
trade_entries-IsBalanced e h currency =
    let (paid_fits, fee_fits, qty_fits, fee_le) = h in
    let paid = books (add64 e.quote_amount e.buyer_fee) (omega arith) in
    let got = books (e.quote_amount - e.seller_fee) (omega arith) in
    let base = books e.qty qty_fits in
    let (fee, no_fee) = fee_entries-sum e (is_in currency) fee_fits in
    ground (
      arith, paid.debit, paid.no_credit, got.credit, got.no_debit, base.credit, base.no_debit,
      base.debit, base.no_credit, fee, no_fee,
    )

funding_entries-IsBalanced :
    (uuid : String) (e : FundingExecuted)
    → IsBookable (funding_executed e)
    → IsBalanced (funding_entries uuid e)
unfolding funding_entries
funding_entries-IsBalanced uuid e h currency =
    let b = books e.amount h in ground (arith, b.credit, b.no_debit, b.debit, b.no_credit)

-- If the amounts of an event are values of `i64` and the seller's fee is at most what is paid, then
-- what the worker writes for the event keeps the credits of each currency equal to its debits.
pub apply_event-IsBalanced :
    (uuid : String) (e : ExecutionEvent) (db : Database)
    → IsBookable e
    → IsBalanced db.ledger_entries
    → IsBalanced (apply_event uuid e db).ledger_entries
unfolding apply_event write_order write_trade write_cancel insert_entries
apply_event-IsBalanced uuid (trade_executed e) db h b =
    IsBalanced-append db.ledger_entries (trade_entries e) b (trade_entries-IsBalanced e h)
apply_event-IsBalanced uuid (funding_executed e) db h b =
    IsBalanced-append db.ledger_entries (funding_entries uuid e) b
      (funding_entries-IsBalanced uuid e h)
apply_event-IsBalanced uuid (order_created e) db h b = b
apply_event-IsBalanced uuid (order_cancelled e) db h b = b
apply_event-IsBalanced uuid (depth_updated e) db h b = b
