-- ===== src/Gateway/Ledger/Agrees.antt =====
-- The ledger against the balances of the engine.
use cex_rs.Base.{
  ℕ, ◌+◌, ◌<◌, ◌≡◌, refl, ap, sym, subst, true, false, String, arith, ◌==◌, string_eq, nat_eq,
  if◌then◌else◌, Bool-cases, inl, inr,
}
use cex_rs.Base.Int.{pos_part, neg_part, i64_bound}
use cex_rs.Base.Text.{to_uppercase, to_lowercase, concat, split_first}
use cex_rs.Shared.Events.{TradeExecuted, trade_executed}
use cex_rs.Shared.Balance.{Balance}
use cex_rs.Book.Types.{Trade}
use cex_rs.Engine.State.{EngineState, usd_of}
use cex_rs.Engine.Fill.{apply_fill}
use cex_rs.Engine.Fill.Totals.{Congruent}
use cex_rs.Engine.Account.Totals.{balance_of}
use cex_rs.Engine.Account.Changes.{usd_of-apply_fill, balance_of-apply_fill}
use cex_rs.Engine.Order.{is_supported}
use cex_rs.Engine.Order.Settle.{Order, trade_event}
use cex_rs.Gateway.Ledger.{trade_entries, base_currency}
use cex_rs.Gateway.Ledger.Balanced.{IsBookable, sum_of}
use cex_rs.Gateway.Ledger.Sums.{
  is_for, SumsTo, usd_locked-SumsTo, usd_available-SumsTo, base_available-SumsTo,
  base_locked-SumsTo,
}

-- The entries of a user account for a change of a balance, up to the wrap-around of the arithmetic.
abbrev pub Accounts : ℕ → String → String → TradeExecuted → ℕ → ℕ → Type 0
Accounts u currency balance_type e before after =
    Congruent (after + sum_of neg_part (is_for u currency balance_type) (trade_entries e))
      (before + sum_of pos_part (is_for u currency balance_type) (trade_entries e))

pub record Agrees (u : ℕ) (asset : String) (e : TradeExecuted) (s s' : EngineState) : Type 0 where
  pub usd_available : Accounts u "USD" "available" e (usd_of u s).available (usd_of u s').available
  pub usd_locked : Accounts u "USD" "locked" e (usd_of u s).locked (usd_of u s').locked
  pub asset_available :
      Accounts u
        (to_uppercase asset)
        "available"
        e
        (balance_of u (to_lowercase asset) s).available
        (balance_of u (to_lowercase asset) s').available
  pub asset_locked :
      Accounts u
        (to_uppercase asset)
        "locked"
        e
        (balance_of u (to_lowercase asset) s).locked
        (balance_of u (to_lowercase asset) s').locked

-- The market of a supported asset begins with it.
abbrev Begins : String → Type 0
Begins asset =
    (split_first b'_' (concat (to_uppercase asset) "_USD") ≡ to_uppercase asset)
    × ((to_uppercase asset == "USD") ≡ false)

supported-Begins : (asset : String) → is_supported asset ≡ true → Begins asset
unfolding is_supported split_first to_uppercase
supported-Begins asset h = elim (Bool-cases (asset == "sol")) [
  | inl p ↦ subst Begins (sym ((string_eq.agree asset "sol").0 p)) (refl, refl)
  | inr p ↦ elim (Bool-cases (asset == "btc")) [
    | inl q ↦ subst Begins (sym ((string_eq.agree asset "btc").0 q)) (refl, refl)
    | inr q ↦
        subst Begins (sym ((string_eq.agree asset "eth").0 (ground (arith, p, q, h)))) (refl, refl)
  ]
]

module _ (o : Order) (t : Trade) (s : EngineState) (supported : is_supported o.asset ≡ true)
    (market : o.market ≡ concat (to_uppercase o.asset) "_USD") where
  abbrev event : TradeExecuted
  event = trade_event o t (apply_fill s o.asset t)

  base : base_currency event ≡ to_uppercase o.asset
  unfolding base_currency
  base = rw market (supported-Begins o.asset supported).0

  -- For every user, the entries that the ledger gets for a trade of a supported asset in its market
  -- with USD account for what the trade does to the user's available and locked balances in USD and
  -- in the asset, up to the wrap-around of the arithmetic, where the amounts and the users are values
  -- of `i64` and the seller's fee is at most what is paid.
  pub trade_entries-Agrees :
      (u : ℕ)
      → IsBookable (trade_executed event)
      → u < i64_bound
      → t.buyer < i64_bound
      → t.seller < i64_bound
      → Agrees u o.asset event s (apply_fill s o.asset t).0
  trade_entries-Agrees u fits user buyer seller =
      let apart : (base_currency event == "USD") ≡ false =
        subst (λ c. (c == "USD") ≡ false) (sym base) (supported-Begins o.asset supported).1 in
      let (locked_credit, locked_debit) = usd_locked-SumsTo event fits u user buyer seller apart in
      let (credit, debit) = usd_available-SumsTo event fits u user buyer seller apart in
      let (base_credit, base_debit) =
        subst (λ c. SumsTo u c "available" event (if event.buyer_id == u then event.qty else 0) 0)
          base (base_available-SumsTo event fits u user buyer seller apart) in
      let (sold_credit, sold_debit) =
        subst (λ c. SumsTo u c "locked" event 0 (if event.seller_id == u then event.qty else 0))
          base (base_locked-SumsTo event fits u user buyer seller apart) in
      let usd = usd_of-apply_fill s o.asset t u in
      let stock = balance_of-apply_fill s o.asset t u (to_lowercase o.asset) in
      let key = string_eq.agree (to_lowercase o.asset) (to_lowercase o.asset) in
      record {
        usd_available = ground (arith, credit, debit, ap (λ (b : Balance). b.available) usd);
        usd_locked =
            ground (arith, locked_credit, locked_debit, ap (λ (b : Balance). b.locked) usd);
        asset_available =
            ground (arith, base_credit, base_debit, ap (λ (b : Balance). b.available) stock, key);
        asset_locked =
            ground (arith, sold_credit, sold_debit, ap (λ (b : Balance). b.locked) stock, key);
      }
