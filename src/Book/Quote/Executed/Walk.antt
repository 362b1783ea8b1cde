-- ===== src/Book/Quote/Executed/Walk.antt =====
-- The quotes over all levels of a side.
use cex_rs.Base.{
  ℕ, ◌≡◌, refl, ap, ◌∙◌, sym, ◌≢◌, Bool, true, false, List, [], ◌∷◌, ◌++◌, arith, nat_beq, nat_eq,
  Bool-cases, inl, inr, Option,
}
use cex_rs.Base.HashMap.{HashMap}
use cex_rs.Book.Types.{bid, ask, Order}
use cex_rs.Book.State.{Orderbook, best_first}
use cex_rs.Book.Best.{Levels}
use cex_rs.Book.Matching.{Taker, market_crosses}
use cex_rs.Book.Quote.{
  Quote, quote_level, quote_levels, no_quote, quote_cost_for_market_buy,
  fillable_qty_for_market_sell,
}
use cex_rs.Book.Quote.Executed.{cost_from, filled_from, matched_quote, Level, quote_level-Level}
use cex_rs.Book.Orders.Available.{IsFilled, best_first-IsFilled}
use cex_rs.Book.Resting.BestFirst.{best_first-IsPriced}
use cex_rs.Book.Orders.Market.{market_match, taker}
use cex_rs.Book.View.{flat, orders_of, resting}
use cex_rs.Book.View.Priced.{All, IsPriced, orders_of-append}
use cex_rs.Book.WellFormed.{IsWellFormed}
use cex_rs.Book.Priority.{fill_queue, fill_queue-refused}

module _ (t : Taker) (crosses : ℕ → Bool) where
  refused_quote :
      (q : Quote) (p : ℕ) (os queue : List Order)
      → crosses p ≡ false
      → All (λ o. o.price ≡ p) os
      → os ≢ []
      → matched_quote t crosses q (os ++ queue) ≡ q
  unfolding cost_from filled_from
  refused_quote q p [] queue refused a ne = absurd (ne refl)
  refused_quote q p (o ∷ os) queue refused a ne =
      let no' : crosses o.price ≡ false = rw a.0 refused in
      rw (fill_queue-refused t crosses q.qty o (os ++ queue) no')

  module _ (orders : HashMap ℕ Order) where
    quote_levels-matched :
        (m : Levels) (q : Quote)
        → nat_beq q.qty 0 ≡ false
        → All (IsPriced orders) m
        → All (IsFilled orders) m
        → matched_quote t crosses q (orders_of orders (flat m)) ≡ quote_levels orders crosses m q
    unfolding quote_levels flat orders_of fill_queue cost_from filled_from
    quote_levels-matched [] q wanted priced filled = refl
    quote_levels-matched ((p, l) ∷ m) q wanted priced filled =
        ap (matched_quote t crosses q) (orders_of-append orders l.orders (flat m))
        ∙ elim (Bool-cases (crosses p)) [
          | inr refused ↦
              refused_quote q p (orders_of orders l.orders) (orders_of orders (flat m)) refused
                priced.0 filled.0
              ∙ ground (arith, refused)
          | inl suits ↦
              rw (suits, quote_levels)
                (go (quote_level orders p l.orders q)
                  (quote_level-Level t crosses orders p suits l.orders (orders_of orders (flat m)) q
                    wanted priced.0)
                  (λ q' some_left. quote_levels-matched m q' some_left priced.1 filled.1))
        ]
      where
        go :
            (r : Quote × Bool)
            → Level t crosses q (orders_of orders l.orders) (orders_of orders (flat m)) r
            → ((q' : Quote)
                → nat_beq q'.qty 0 ≡ false
                → matched_quote t crosses q' (orders_of orders (flat m))
                  ≡ quote_levels orders crosses m q')
            → matched_quote t crosses q (orders_of orders l.orders ++ orders_of orders (flat m))
              ≡ (elim r.1 [ true ↦ r.0 | false ↦ quote_levels orders crosses m r.0 ])
        go (q', true) h next = h
        go (q', false) h next = h.1 ∙ next q' h.0

-- On a well-formed book, the quote for a market purchase of a positive quantity is the cost and the
-- quantity of the trades that the market order would make, added up in `u64` arithmetic.
pub quote_cost_for_market_buy-executed :
    (order_id user_id qty : ℕ) (worst_price : Option ℕ) (b : Orderbook)
    → IsWellFormed b
    → qty ≢ 0
    → let m = market_match order_id user_id bid qty worst_price b in
      quote_cost_for_market_buy b qty worst_price ≡ (cost_from 0 m.trades, filled_from 0 m.trades)
unfolding quote_cost_for_market_buy resting
quote_cost_for_market_buy-executed order_id user_id qty worst_price b w positive =
    ap (λ (q : Quote). (q.total_cost, q.fillable_qty))
      (sym (
        quote_levels-matched (taker order_id user_id bid) (market_crosses bid worst_price) b.orders
          (best_first ask b) (no_quote qty) (ground arith) (best_first-IsPriced ask b w)
          (best_first-IsFilled ask b w)))

-- On a well-formed book, the quantity that is found for a market sale of a positive quantity is
-- that of the trades that the market order would make.
pub fillable_qty_for_market_sell-executed :
    (order_id user_id qty : ℕ) (worst_price : Option ℕ) (b : Orderbook)
    → IsWellFormed b
    → qty ≢ 0
    → let m = market_match order_id user_id ask qty worst_price b in
      fillable_qty_for_market_sell b qty worst_price ≡ filled_from 0 m.trades
unfolding fillable_qty_for_market_sell resting
fillable_qty_for_market_sell-executed order_id user_id qty worst_price b w positive =
    ap (λ (q : Quote). q.fillable_qty)
      (sym (
        quote_levels-matched (taker order_id user_id ask) (market_crosses ask worst_price) b.orders
          (best_first bid b) (no_quote qty) (ground arith) (best_first-IsPriced bid b w)
          (best_first-IsFilled bid b w)))
