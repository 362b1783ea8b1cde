-- ===== src/Book/Quote/Executed.antt =====
-- A quote is what the market order comes to.
pub mod Walk
use cex_rs.Base.{
  ℕ, ◌+◌, ◌-◌, ◌<◌, ◌≤◌, ◌≡◌, refl, ap, ◌∙◌, sym, min, ◌≢◌, Bool, true, false, none, some, List, [],
  ◌∷◌, ◌++◌, arith, nat_beq, leb, ◌==◌, nat_eq, Option-cases, Bool-cases, inl, inr, Option,
}
use cex_rs.Base.HashMap
use cex_rs.Base.HashMap.{HashMap}
use cex_rs.Base.Word.{add64, mul64}
use cex_rs.Book.Types.{Side, bid, ask, Order, MatchResult, trade, order_accepted}
use cex_rs.Book.State.{PriceLevel, Orderbook, best_first}
use cex_rs.Book.Matching.{Taker, make_trade, market_crosses}
use cex_rs.Book.Quote.{
  Quote, quote_order, quote_level, quote_levels, no_quote, quote_cost_for_market_buy,
  fillable_qty_for_market_sell,
}
use cex_rs.Book.Loop.Match.{fill_queue-done}
use cex_rs.Book.Resting.BestFirst.{best_first-IsPriced}
use cex_rs.Book.Orders.Market.{market_match, taker}
use cex_rs.Book.View.{flat, orders_of, resting}
use cex_rs.Book.View.Priced.{All, IsPriced, orders_of-append}
use cex_rs.Book.WellFormed.{IsWellFormed}
use cex_rs.Book.Priority.{fill_queue, trade_with, fill_queue-full, fill_queue-partial}

-- What the trades cost and fill, as the code adds it up.
unfoldable pub cost_from : ℕ → List MatchResult → ℕ
cost_from acc [] = acc
cost_from acc (trade t ∷ results) = cost_from (add64 acc (mul64 t.qty t.price)) results
cost_from acc (order_accepted a ∷ results) = cost_from acc results

unfoldable pub filled_from : ℕ → List MatchResult → ℕ
filled_from acc [] = acc
filled_from acc (trade t ∷ results) = filled_from (add64 acc t.qty) results
filled_from acc (order_accepted a ∷ results) = filled_from acc results

trade_with-qty : (t : Taker) (o : Order) (n : ℕ) → (make_trade t o.price o.order_id o n).qty ≡ n
trade_with-qty t o n =
    elim t.side as (λ u. (make_trade (record t { side = u }) o.price o.order_id o n).qty ≡ n) [
      | bid ↦ refl
      | ask ↦ refl
    ]

trade_with-price :
    (t : Taker) (o : Order) (n : ℕ) → (make_trade t o.price o.order_id o n).price ≡ o.price
trade_with-price t o n =
    elim t.side
      as (λ u. (make_trade (record t { side = u }) o.price o.order_id o n).price ≡ o.price) [
        | bid ↦ refl
        | ask ↦ refl
      ]

cost_from-trade :
    (t : Taker) (o : Order) (n acc : ℕ) (results : List MatchResult)
    → cost_from acc (trade_with t o n ∷ results) ≡ cost_from (add64 acc (mul64 n o.price)) results
unfolding cost_from
cost_from-trade t o n acc results = rw (trade_with-qty t o n, trade_with-price t o n)

filled_from-trade :
    (t : Taker) (o : Order) (n acc : ℕ) (results : List MatchResult)
    → filled_from acc (trade_with t o n ∷ results) ≡ filled_from (add64 acc n) results
unfolding filled_from
filled_from-trade t o n acc results = rw (trade_with-qty t o n)

module _ (t : Taker) (crosses : ℕ → Bool) where
  -- The quote that matching would make of the rest of the orders.
  abbrev matched_quote : Quote → List Order → Quote
  matched_quote q queue =
      let m = fill_queue t crosses q.qty queue in
      record {
        qty = m.remaining_qty;
        total_cost = cost_from q.total_cost m.trades;
        fillable_qty = filled_from q.fillable_qty m.trades;
      }

  idle_quote : (q : Quote) (queue : List Order) → nat_beq q.qty 0 ≡ true → matched_quote q queue ≡ q
  unfolding cost_from filled_from
  idle_quote q queue h = rw (fill_queue-done t crosses q.qty queue h)

  module _ (q : Quote) (o : Order) (queue : List Order) (wanted : nat_beq q.qty 0 ≡ false)
      (suits : crosses o.price ≡ true) where
    full_quote :
        o.remaining_qty ≤ q.qty
        → matched_quote q (o ∷ queue) ≡ matched_quote (quote_order o.price o q) queue
    unfolding quote_order
    full_quote h =
        let amount : min q.qty o.remaining_qty ≡ o.remaining_qty = omega arith in
        rw (
          fill_queue-full t crosses q.qty o queue wanted suits h,
          cost_from-trade t o o.remaining_qty q.total_cost,
          filled_from-trade t o o.remaining_qty q.fillable_qty,
          amount,
        )

    partial_quote : q.qty < o.remaining_qty → matched_quote q (o ∷ queue) ≡ quote_order o.price o q
    unfolding cost_from filled_from quote_order
    partial_quote h =
        let amount : min q.qty o.remaining_qty ≡ q.qty = omega arith in
        let left : q.qty - q.qty ≡ 0 = omega arith in
        rw (
          fill_queue-partial t crosses q.qty o queue wanted suits h,
          cost_from-trade t o q.qty q.total_cost,
          filled_from-trade t o q.qty q.fillable_qty,
          amount,
          left,
        )

    -- An order that ends the quote, and one that does not.
    last_quote :
        nat_beq (quote_order o.price o q).qty 0 ≡ true
        → matched_quote q (o ∷ queue) ≡ quote_order o.price o q
    unfolding quote_order
    last_quote h = elim (Bool-cases (leb o.remaining_qty q.qty)) [
      | inl all ↦ full_quote (ground arith) ∙ idle_quote (quote_order o.price o q) queue h
      | inr part ↦ partial_quote (ground arith)
    ]

    more_quote :
        nat_beq (quote_order o.price o q).qty 0 ≡ false
        → matched_quote q (o ∷ queue) ≡ matched_quote (quote_order o.price o q) queue
    unfolding quote_order
    more_quote h = full_quote (ground arith)

  -- The loop over one level whose price suits.
  abbrev Level : Quote → List Order → List Order → Quote × Bool → Type 0
  Level q os queue r = elim r.1 [
    | true ↦ matched_quote q (os ++ queue) ≡ r.0
    | false ↦
        (nat_beq r.0.qty 0 ≡ false) × (matched_quote q (os ++ queue) ≡ matched_quote r.0 queue)
  ]

  Level-front :
      (o : Order) (os queue : List Order) (q : Quote) (r : Quote × Bool)
      → matched_quote q (o ∷ (os ++ queue)) ≡ matched_quote (quote_order o.price o q) (os ++ queue)
      → Level (quote_order o.price o q) os queue r
      → Level q (o ∷ os) queue r
  Level-front o os queue q (q', true) e l = e ∙ l
  Level-front o os queue q (q', false) e l = (l.0, e ∙ l.1)

  module _ (orders : HashMap ℕ Order) (p : ℕ) (suits : crosses p ≡ true) where
    pub quote_level-Level :
        (ids : List ℕ) (queue : List Order) (q : Quote)
        → nat_beq q.qty 0 ≡ false
        → All (λ o. o.price ≡ p) (orders_of orders ids)
        → Level q (orders_of orders ids) queue (quote_level orders p ids q)
    unfolding quote_level orders_of
    quote_level-Level [] queue q wanted priced = (wanted, refl)
    quote_level-Level (id ∷ ids) queue q wanted priced =
        go (HashMap.get id orders) priced (quote_level-Level ids queue q wanted)
          (λ o. quote_level-Level ids queue (quote_order p o q))
      where
        go :
            (found : Option Order)
            → All
                (λ o. o.price ≡ p)
                (elim found [ none ↦ orders_of orders ids | some o ↦ o ∷ orders_of orders ids ])
            → (All (λ o. o.price ≡ p) (orders_of orders ids)
                → Level q (orders_of orders ids) queue (quote_level orders p ids q))
            → ((o : Order)
                → nat_beq (quote_order p o q).qty 0 ≡ false
                → All (λ o. o.price ≡ p) (orders_of orders ids)
                → Level
                    (quote_order p o q)
                    (orders_of orders ids)
                    queue
                    (quote_level orders p ids (quote_order p o q)))
            → Level q
                (elim found [ none ↦ orders_of orders ids | some o ↦ o ∷ orders_of orders ids ])
                queue
                (elim found [
                  | none ↦ quote_level orders p ids q
                  | some o ↦ elim (nat_beq (quote_order p o q).qty 0) [
                    | true ↦ (quote_order p o q, true)
                    | false ↦ quote_level orders p ids (quote_order p o q)
                  ]
                ])
        go none a same next = same a
        go (some o) a same next =
            let here : quote_order p o q ≡ quote_order o.price o q =
              ap (λ n. quote_order n o q) (sym a.0) in
            let suits' : crosses o.price ≡ true = rw a.0 suits in
            elim (Bool-cases (nat_beq (quote_order p o q).qty 0)) [
              | inl ends ↦ rw ends (
                  last_quote q o (orders_of orders ids ++ queue) wanted suits' (rw (← here) ends)
                  ∙ sym here)
              | inr goes ↦ rw goes (
                  Level-front o (orders_of orders ids) queue q _
                    (more_quote q o (orders_of orders ids ++ queue) wanted suits'
                      (rw (← here) goes))
                    (rw (← here) (next o goes a.1)))
            ]
