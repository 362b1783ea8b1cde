-- ===== src/Book/Tests.antt =====
-- Runs of the order book, and the theorems about it at concrete books.
use cex_rs.Base.{
  ◌+◌, ◌<◌, min, none, List, leb, ℕ, ◌≡◌, ◌≢◌, ◌↔◌, refl, arith, some, done, ok, err, [], ◌∷◌, ◌++◌,
  if◌then◌else◌,
}
use cex_rs.Base.HashMap
use cex_rs.Base.BTreeMap
use cex_rs.Base.Word.{u64_mod}
use cex_rs.Book.Types.{MatchResult, Side, bid, ask, Order, OrderbookError, order_not_found}
use cex_rs.Book.State.{Orderbook, new, best_ask}
use cex_rs.Book.Matching.{limit_crosses, market_crosses}
use cex_rs.Shared.Requests.{gtc, ioc, fok}
use cex_rs.Book.Orders.{
  can_fill_quantity, scan_level, scan_levels, push_back, execute_market_order_with_id, rest_order,
  add_order_with_id, cancel_order, bump_order_id, unlink, remove_order,
}
use cex_rs.Book.Orders.Limit.{limit_match, remainder, accepted, rests, add_order_with_id-fill_queue}
use cex_rs.Book.Orders.Cancel.{others}
use cex_rs.Book.Orders.Cancel.Result.{cancelled, cancel_order-others}
use cex_rs.Book.Orders.Cancel.Twice.{cancel_order-once}
use cex_rs.Book.Orders.Enqueue.{enqueue}
use cex_rs.Book.Orders.Enqueue.Rested.{rest_order-enqueue}
use cex_rs.Book.Orders.Market.{taker, market_match, execute_market_order_with_id-fill_queue}
use cex_rs.Book.Orders.Rest.{new-IsWellFormed, rest_order-IsWellFormed}
use cex_rs.Book.Priority.{fill_queue}
use cex_rs.Book.Priority.Amounts.{available, traded, sum_qty, IsWithin}
use cex_rs.Book.Quote.{quote_cost_for_market_buy, fillable_qty_for_market_sell}
use cex_rs.Book.Quote.Executed.{cost_from, filled_from}
use cex_rs.Book.Quote.Executed.Walk.{
  quote_cost_for_market_buy-executed, fillable_qty_for_market_sell-executed,
}
use cex_rs.Book.Orders.Available.{can_fill_quantity-available}
use cex_rs.Book.Orders.Spread.{IsUncrossed}
use cex_rs.Book.Orders.Uncrossed.{add_order_with_id-IsUncrossed}
use cex_rs.Book.Orders.Fok.{add_order_with_id-fok}
use cex_rs.Book.Orders.Bounds.{execute_market_order_with_id-IsWithin, add_order_with_id-IsWithin}
use cex_rs.Book.View.{resting, orders_of, flat}
use cex_rs.Book.WellFormed.{IsWellFormed}

program : Unit {0}
unfolding new HashMap.get HashMap.insert BTreeMap.get BTreeMap.insert rest_order push_back best_ask
    can_fill_quantity scan_levels scan_level limit_crosses available resting orders_of flat
program = tt

abbrev pub order : ℕ → ℕ → Side → ℕ → ℕ → Order
order id user side price qty = record {
  order_id = id;
  user_id = user;
  side = side;
  price = price;
  remaining_qty = qty;
}

abbrev one_ask : Orderbook
one_ask = rest_order (order 1 10 ask 100 5) (new "SOL-USDT")

abbrev pub two_asks : Orderbook
two_asks = rest_order (order 2 11 ask 90 4) one_ask

one_ask-IsWellFormed : IsWellFormed one_ask
unfolding program
one_ask-IsWellFormed =
    rest_order-IsWellFormed (order 1 10 ask 100 5) (new "SOL-USDT") (new-IsWellFormed "SOL-USDT")
      refl (omega arith)

pub two_asks-IsWellFormed : IsWellFormed two_asks
unfolding program
two_asks-IsWellFormed =
    rest_order-IsWellFormed (order 2 11 ask 90 4) one_ask one_ask-IsWellFormed refl (omega arith)

execute_market_order_with_id-fill_queue_example :
    let m = fill_queue (taker 3 12 bid) (market_crosses bid (some 95)) 6 (resting ask two_asks) in
    (c : Orderbook) × (execute_market_order_with_id 3 12 bid 6 (some 95) two_asks
      ≡ done (c, ok m.trades))
    × (resting ask c ≡ m.queue)
    × (resting bid c ≡ resting bid two_asks)
    × IsWellFormed c
execute_market_order_with_id-fill_queue_example =
    execute_market_order_with_id-fill_queue 3 12 bid 6 (some 95) two_asks two_asks-IsWellFormed
      (omega arith)

-- A bid that fills both asks, and rests with what is left.
add_order_with_id-fill_queue_example :
    let m = limit_match 3 12 bid 100 20 two_asks in
    let o = remainder 3 12 bid 100 m.remaining_qty in
    (c : Orderbook) × (add_order_with_id 3 12 bid 100 20 gtc two_asks
      ≡ done (c, ok (if rests gtc m then m.trades ++ accepted o ∷ [] else m.trades)))
    × (resting ask c ≡ m.queue)
    × (resting bid c
        ≡ (if rests gtc m then enqueue bid o (resting bid two_asks) else resting bid two_asks))
    × IsWellFormed c
unfolding program
add_order_with_id-fill_queue_example =
    add_order_with_id-fill_queue 3 12 bid 100 20 gtc two_asks two_asks-IsWellFormed refl
      (omega arith) (omega arith) refl

rest_order-enqueue_example :
    (resting ask (rest_order (order 3 12 ask 95 7) two_asks)
      ≡ enqueue ask (order 3 12 ask 95 7) (resting ask two_asks))
    × (resting bid (rest_order (order 3 12 ask 95 7) two_asks) ≡ resting bid two_asks)
unfolding program
rest_order-enqueue_example =
    rest_order-enqueue (order 3 12 ask 95 7) two_asks two_asks-IsWellFormed refl

cancel_order-others_example :
    (c : Orderbook) × (cancel_order 2 11 two_asks ≡ done (c, ok (cancelled (order 2 11 ask 90 4))))
    × ((u : Side) → resting u c ≡ others 2 (resting u two_asks))
    × IsWellFormed c
unfolding program
cancel_order-others_example =
    cancel_order-others 2 11 (order 2 11 ask 90 4) two_asks two_asks-IsWellFormed refl refl

-- The ask at 90 is cancelled. The book that is left is what the run gives.
abbrev one_left : Orderbook
one_left = record one_ask { next_order_id = two_asks.next_order_id }

cancel_order-once_example :
    ((u : ℕ) → cancel_order 2 u one_left ≡ done (one_left, err order_not_found))
    × ((j u : ℕ) (e : OrderbookError)
        → j ≢ 2
        → (cancel_order j u two_asks ≡ done (two_asks, err e))
          ↔ (cancel_order j u one_left ≡ done (one_left, err e)))
unfolding program cancel_order unlink remove_order BTreeMap.remove HashMap.remove
cancel_order-once_example =
    cancel_order-once 2 11 two_asks one_left (cancelled (order 2 11 ask 90 4)) two_asks-IsWellFormed
      refl

small : available (limit_crosses bid 100) (resting ask two_asks) < u64_mod
unfolding program
small = omega arith

can_fill_quantity-available_example :
    can_fill_quantity two_asks bid 100 9
    ≡ leb 9 (available (limit_crosses bid 100) (resting ask two_asks))
can_fill_quantity-available_example =
    can_fill_quantity-available two_asks bid 100 9 two_asks-IsWellFormed small

add_order_with_id-fok_example :
    (c : Orderbook) × (results : List MatchResult) × (add_order_with_id 3 12 bid 100 9 fok two_asks
      ≡ done (c, ok results))
    × (if leb 9 (available (limit_crosses bid 100) (resting ask two_asks))
        then (traded results ≡ 9) × (resting bid c ≡ resting bid two_asks)
        else (results ≡ []) × (c ≡ bump_order_id 3 two_asks))
unfolding program
add_order_with_id-fok_example =
    add_order_with_id-fok 3 12 bid 100 9 two_asks two_asks-IsWellFormed refl (omega arith)
      (omega arith) small

execute_market_order_with_id-IsWithin_example :
    let crosses = market_crosses bid (some 95) in
    let offered = available crosses (resting ask two_asks) in
    (c : Orderbook) × (results : List MatchResult) × (execute_market_order_with_id 3 12 bid 6
        (some 95)
        two_asks
      ≡ done (c, ok results))
    × (traded results ≡ min 6 offered)
    × IsWithin crosses results
    × (sum_qty (resting ask c) + traded results ≡ sum_qty (resting ask two_asks))
execute_market_order_with_id-IsWithin_example =
    execute_market_order_with_id-IsWithin 3 12 bid 6 (some 95) two_asks two_asks-IsWellFormed
      (omega arith)

add_order_with_id-IsWithin_example :
    let crosses = limit_crosses bid 95 in
    let offered = available crosses (resting ask two_asks) in
    (c : Orderbook) × (results : List MatchResult) × (add_order_with_id 3 12 bid 95 6 ioc two_asks
      ≡ done (c, ok results))
    × (traded results ≡ min 6 offered)
    × IsWithin crosses results
    × (sum_qty (resting ask c) + traded results ≡ sum_qty (resting ask two_asks))
    × (resting bid c ≡ resting bid two_asks)
unfolding program
add_order_with_id-IsWithin_example =
    add_order_with_id-IsWithin 3 12 bid 95 6 two_asks two_asks-IsWellFormed refl (omega arith)
      (omega arith)

quote_cost_for_market_buy-executed_example :
    let m = market_match 3 12 bid 6 none two_asks in
    quote_cost_for_market_buy two_asks 6 none ≡ (cost_from 0 m.trades, filled_from 0 m.trades)
quote_cost_for_market_buy-executed_example =
    quote_cost_for_market_buy-executed 3 12 6 none two_asks two_asks-IsWellFormed (omega arith)

one_bid-IsWellFormed : IsWellFormed (rest_order (order 3 12 bid 80 7) two_asks)
unfolding program
one_bid-IsWellFormed =
    rest_order-IsWellFormed (order 3 12 bid 80 7) two_asks two_asks-IsWellFormed refl (omega arith)

fillable_qty_for_market_sell-executed_example :
    let b = rest_order (order 3 12 bid 80 7) two_asks in
    let m = market_match 4 10 ask 6 (some 75) b in
    fillable_qty_for_market_sell b 6 (some 75) ≡ filled_from 0 m.trades
fillable_qty_for_market_sell-executed_example =
    fillable_qty_for_market_sell-executed 4 10 6 (some 75)
      (rest_order (order 3 12 bid 80 7) two_asks) one_bid-IsWellFormed (omega arith)

pub two_asks-IsUncrossed : IsUncrossed two_asks
unfolding program
two_asks-IsUncrossed = tt

one_bid-IsUncrossed : IsUncrossed (rest_order (order 3 12 bid 80 7) two_asks)
unfolding program
one_bid-IsUncrossed = ((omega arith, (omega arith, tt)), tt)

add_order_with_id-IsUncrossed_example :
    (c : Orderbook) × (results : List MatchResult) × (add_order_with_id 4 13 bid 95 6 gtc
        (rest_order (order 3 12 bid 80 7) two_asks)
      ≡ done (c, ok results))
    × IsUncrossed c
    × IsWellFormed c
unfolding program
add_order_with_id-IsUncrossed_example =
    add_order_with_id-IsUncrossed 4 13 bid 95 6 gtc (rest_order (order 3 12 bid 80 7) two_asks)
      one_bid-IsWellFormed one_bid-IsUncrossed refl (omega arith) (omega arith)
