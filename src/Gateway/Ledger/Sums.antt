-- ===== src/Gateway/Ledger/Sums.antt =====
-- What the entries of a trade come to for a user, a currency and a type of balance.
use cex_rs.Base.{
  ℕ, ◌+◌, ◌-◌, ◌<◌, ◌≡◌, refl, Bool, false, ◌&&◌, String, arith, ◌==◌, string_eq, nat_eq,
  if◌then◌else◌,
}
use cex_rs.Base.Int.{pos, pos_part, neg_part, i64_bound, to_i64}
use cex_rs.Base.Word.{add64}
use cex_rs.Shared.Events.{TradeExecuted, trade_executed}
use cex_rs.Gateway.Ledger.{
  LedgerEntry, same_id, buyer_entries, seller_entries, trade_entries, base_currency,
}
use cex_rs.Gateway.Ledger.Balanced.{IsBookable, books, sum_of, fee_entries-sum}

pub same_id-to_i64 :
    (a b : ℕ) → a < i64_bound → b < i64_bound → same_id (to_i64 a) (to_i64 b) ≡ (a == b)
unfolding to_i64
same_id-to_i64 a b h k = ground arith

to_i64_zero : to_i64 0 ≡ pos 0
unfolding to_i64
to_i64_zero = refl

-- The entries of a user in a currency, of a type of balance.
abbrev pub is_for : ℕ → String → String → LedgerEntry → Bool
is_for u currency balance_type r =
    same_id r.user_id (to_i64 u) && r.currency == currency && r.balance_type == balance_type

-- The sums of the credits and of the debits.
abbrev pub SumsTo : ℕ → String → String → TradeExecuted → ℕ → ℕ → Type 0
SumsTo u currency balance_type e credit debit =
    (sum_of pos_part (is_for u currency balance_type) (trade_entries e) ≡ credit)
    × (sum_of neg_part (is_for u currency balance_type) (trade_entries e) ≡ debit)

module _ (e : TradeExecuted) (fits : IsBookable (trade_executed e)) (u : ℕ) (user : u < i64_bound)
    (buyer : e.buyer_id < i64_bound) (seller : e.seller_id < i64_bound)
    (apart : (base_currency e == "USD") ≡ false) where
  pub usd_locked-SumsTo :
      SumsTo u "USD" "locked" e 0 (if e.buyer_id == u then e.quote_amount + e.buyer_fee else 0)
  unfolding trade_entries buyer_entries seller_entries
  usd_locked-SumsTo =
      let (paid_fits, fee_fits, qty_fits, fee_le) = fits in
      let paid = books (add64 e.quote_amount e.buyer_fee) (omega arith) in
      let (fee, no_fee) = fee_entries-sum e (is_for u "USD" "locked") fee_fits in
      ground (
        arith,
        fee,
        no_fee,
        paid.debit,
        paid.no_credit,
        apart,
        same_id-to_i64 e.buyer_id u buyer user,
      )

  pub usd_available-SumsTo :
      SumsTo u "USD" "available" e
        ((if e.seller_id == u then e.quote_amount - e.seller_fee else 0)
          + (if u == 0 then e.buyer_fee + e.seller_fee else 0))
        0
  unfolding trade_entries buyer_entries seller_entries
  usd_available-SumsTo =
      let (paid_fits, fee_fits, qty_fits, fee_le) = fits in
      let got = books (e.quote_amount - e.seller_fee) (omega arith) in
      let (fee, no_fee) = fee_entries-sum e (is_for u "USD" "available") fee_fits in
      ground (
        arith,
        fee,
        no_fee,
        got.credit,
        got.no_debit,
        apart,
        same_id-to_i64 e.seller_id u seller user,
        same_id-to_i64 0 u (omega arith) user,
        to_i64_zero,
      )

  pub base_available-SumsTo :
      SumsTo u (base_currency e) "available" e (if e.buyer_id == u then e.qty else 0) 0
  unfolding trade_entries buyer_entries seller_entries
  base_available-SumsTo =
      let (paid_fits, fee_fits, qty_fits, fee_le) = fits in
      let base = books e.qty qty_fits in
      let (fee, no_fee) = fee_entries-sum e (is_for u (base_currency e) "available") fee_fits in
      ground (
        arith,
        fee,
        no_fee,
        base.credit,
        base.no_debit,
        apart,
        string_eq.agree "USD" (base_currency e),
        string_eq.agree (base_currency e) "USD",
        string_eq.agree (base_currency e) (base_currency e),
        same_id-to_i64 e.buyer_id u buyer user,
      )

  pub base_locked-SumsTo :
      SumsTo u (base_currency e) "locked" e 0 (if e.seller_id == u then e.qty else 0)
  unfolding trade_entries buyer_entries seller_entries
  base_locked-SumsTo =
      let (paid_fits, fee_fits, qty_fits, fee_le) = fits in
      let base = books e.qty qty_fits in
      let (fee, no_fee) = fee_entries-sum e (is_for u (base_currency e) "locked") fee_fits in
      ground (
        arith,
        fee,
        no_fee,
        base.debit,
        base.no_credit,
        apart,
        string_eq.agree "USD" (base_currency e),
        string_eq.agree (base_currency e) "USD",
        string_eq.agree (base_currency e) (base_currency e),
        same_id-to_i64 e.seller_id u seller user,
      )
