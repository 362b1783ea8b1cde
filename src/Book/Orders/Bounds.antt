-- ===== src/Book/Orders/Bounds.antt =====
-- What an order may trade: no more than its quantity, at no worse price than its limit.
use cex_rs.Base.{ℕ, ◌+◌, min, ◌≡◌, refl, ap, ◌∙◌, ◌≢◌, Option, none, List, arith, nat_eq, done, ok}
use cex_rs.Base.HashMap
use cex_rs.Shared.Requests.{ioc}
use cex_rs.Book.Types.{Side, MatchResult}
use cex_rs.Book.State.{Orderbook, opposite}
use cex_rs.Book.Matching.{limit_crosses, market_crosses}
use cex_rs.Book.Orders.{add_order_with_id, execute_market_order_with_id}
use cex_rs.Book.Orders.Limit.{limit_match, add_order_with_id-fill_queue}
use cex_rs.Book.Orders.Market.{taker, market_match, execute_market_order_with_id-fill_queue}
use cex_rs.Book.View.{resting}
use cex_rs.Book.WellFormed.{IsWellFormed}
use cex_rs.Book.Priority.Amounts.{
  traded, sum_qty, available, IsWithin, fill_queue-traded, fill_queue-sum_qty, fill_queue-available,
  fill_queue-IsWithin,
}

-- On a well-formed book a market order trades as much as the book offers at prices no worse than
-- `worst_price`, at most its quantity; every trade is at such a price; and what is traded has left
-- the other side.
pub execute_market_order_with_id-IsWithin :
    (order_id user_id : ℕ) (side : Side) (qty : ℕ) (worst_price : Option ℕ) (b : Orderbook)
    → IsWellFormed b
    → qty ≢ 0
    → let crosses = market_crosses side worst_price in
      let offered = available crosses (resting (opposite side) b) in
      (c : Orderbook) × (results : List MatchResult) × (execute_market_order_with_id order_id
          user_id side qty worst_price b
        ≡ done (c, ok results))
      × (traded results ≡ min qty offered)
      × IsWithin crosses results
      × (sum_qty (resting (opposite side) c) + traded results ≡ sum_qty (resting (opposite side) b))
execute_market_order_with_id-IsWithin order_id user_id side qty worst_price b w positive =
    let t = taker order_id user_id side in
    let crosses = market_crosses side worst_price in
    let queue = resting (opposite side) b in
    let (c, run, other, own, w') =
      execute_market_order_with_id-fill_queue order_id user_id side qty worst_price b w positive in
    (
      c,
      (market_match order_id user_id side qty worst_price b).trades,
      run,
      omega
          (arith, fill_queue-traded t crosses qty queue, fill_queue-available t crosses qty queue),
      fill_queue-IsWithin t crosses qty queue,
      ap (λ q. sum_qty q + traded (market_match order_id user_id side qty worst_price b).trades)
            other
          ∙ fill_queue-sum_qty t crosses qty queue,
    )

-- On a well-formed book an IOC limit order with a fresh identifier, a price and a quantity trades
-- as much as the book offers within its price, at most its quantity; every trade is within its
-- price; what is traded has left the other side, and its own side stays.
pub add_order_with_id-IsWithin :
    (order_id user_id : ℕ) (side : Side) (price qty : ℕ) (b : Orderbook)
    → IsWellFormed b
    → HashMap.get order_id b.orders ≡ none
    → price ≢ 0
    → qty ≢ 0
    → let crosses = limit_crosses side price in
      let offered = available crosses (resting (opposite side) b) in
      (c : Orderbook) × (results : List MatchResult) × (add_order_with_id order_id user_id side
          price qty ioc b
        ≡ done (c, ok results))
      × (traded results ≡ min qty offered)
      × IsWithin crosses results
      × (sum_qty (resting (opposite side) c) + traded results ≡ sum_qty (resting (opposite side) b))
      × (resting side c ≡ resting side b)
add_order_with_id-IsWithin order_id user_id side price qty b w fresh priced positive =
    let t = taker order_id user_id side in
    let crosses = limit_crosses side price in
    let queue = resting (opposite side) b in
    let m = limit_match order_id user_id side price qty b in
    let (c, run, other, own, w') =
      add_order_with_id-fill_queue order_id user_id side price qty ioc b w fresh priced positive
        refl in
    (
      c,
      m.trades,
      run ∙ ground arith,
      omega
          (arith, fill_queue-traded t crosses qty queue, fill_queue-available t crosses qty queue),
      fill_queue-IsWithin t crosses qty queue,
      ap (λ q. sum_qty q + traded m.trades) other ∙ fill_queue-sum_qty t crosses qty queue,
      own ∙ ground arith,
    )
