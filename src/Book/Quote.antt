-- ===== src/Book/Quote.antt =====
-- What a market order would cost or fill: `quote_cost_for_market_buy` and
-- `fillable_qty_for_market_sell`.
pub mod Executed
use cex_rs.Base.{ℕ, ◌-◌, min, Bool, true, false, Option, none, some, List, [], ◌∷◌, ◌==◌, nat_eq}
use cex_rs.Base.Word.{add64, mul64}
use cex_rs.Base.HashMap
use cex_rs.Base.HashMap.{HashMap}
use cex_rs.Book.Types.{bid, ask, Order}
use cex_rs.Book.State.{PriceLevel, Orderbook, best_first}
use cex_rs.Book.Matching.{market_crosses}

-- The variables of the loops. A sell order uses no `total_cost`.
pub record Quote : Type 0 where
  pub qty : ℕ
  pub total_cost : ℕ
  pub fillable_qty : ℕ

-- Take from one order. The difference cannot underflow: `take` is a minimum.
unfoldable pub quote_order : ℕ → Order → Quote → Quote
quote_order price o q =
    let amount = min q.qty o.remaining_qty in
    record {
      qty = q.qty - amount;
      total_cost = add64 q.total_cost (mul64 amount price);
      fillable_qty = add64 q.fillable_qty amount;
    }

-- The loop over one level, and whether it returned.
unfoldable pub quote_level : HashMap ℕ Order → ℕ → List ℕ → Quote → Quote × Bool
quote_level orders price [] q = (q, false)
quote_level orders price (id ∷ ids) q = elim (HashMap.get id orders) [
  | none ↦ quote_level orders price ids q
  | some o ↦
      let q' = quote_order price o q in
      elim (q'.qty == 0) [ true ↦ (q', true) | false ↦ quote_level orders price ids q' ]
]

unfoldable pub quote_levels : HashMap ℕ Order → (ℕ → Bool) → List (ℕ × PriceLevel) → Quote → Quote
quote_levels orders crosses [] q = q
quote_levels orders crosses ((price, level) ∷ m) q = elim (crosses price) [
  | false ↦ q
  | true ↦
      let (q', returned) = quote_level orders price level.orders q in
      elim returned [ true ↦ q' | false ↦ quote_levels orders crosses m q' ]
]

abbrev pub no_quote : ℕ → Quote
no_quote qty = record { qty = qty; total_cost = 0; fillable_qty = 0 }

-- (total_cost, fillable_qty)
unfoldable pub quote_cost_for_market_buy : Orderbook → ℕ → Option ℕ → ℕ × ℕ
quote_cost_for_market_buy b qty worst_price =
    let q =
      quote_levels b.orders (market_crosses bid worst_price) (best_first ask b) (no_quote qty) in
    (q.total_cost, q.fillable_qty)

unfoldable pub fillable_qty_for_market_sell : Orderbook → ℕ → Option ℕ → ℕ
fillable_qty_for_market_sell b qty worst_price =
    let q =
      quote_levels b.orders (market_crosses ask worst_price) (best_first bid b) (no_quote qty) in
    q.fillable_qty
