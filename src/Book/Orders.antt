-- ===== src/Book/Orders.antt =====
-- The operations of rs-engine/src/orderbook/book.rs that add an order, execute a market order or
-- cancel one.
pub mod Market
pub mod Rest
pub mod Limit
pub mod Enqueue
pub mod Cancel
pub mod Available
pub mod Fok
pub mod Bounds
pub mod Exhausted
pub mod Spread
pub mod Uncrossed
use cex_rs.Base.{
  ℕ, suc, max, Bool, true, false, ◌&&◌, not, Option, none, some, List, [], ◌∷◌, ◌++◌, leb, ltb,
  ◌==◌, nat_eq, if◌then◌else◌, is_empty, Outcome, done, ◌>>=◌, expect, Result, ok, err,
}
use cex_rs.Base.Word.{add64}
use cex_rs.Base.HashMap
use cex_rs.Base.HashMap.{HashMap}
use cex_rs.Base.BTreeMap
use cex_rs.Base.BTreeMap.{BTreeMap}
use cex_rs.Shared.Requests.{TimeInForce, gtc, ioc, fok}
use cex_rs.Book.Types.{
  Side, Order, OrderCancelled, MatchResult, order_accepted, OrderbookError, invalid_price,
  invalid_quantity, order_not_found, not_order_owner,
}
use cex_rs.Book.State.{PriceLevel, Orderbook, levels, set_levels, opposite, best_first}
use cex_rs.Book.Matching.{Taker, Progress, match_loop, limit_crosses, market_crosses, resting_count}

-- An operation changes the book also when it reports an error.
abbrev pub Attempt : Type 0 → Type 0
Attempt A = Outcome (Orderbook × Result A OrderbookError)

-- The inner loop of `can_fill_quantity`: whether `qty` is reached, or what is available.
unfoldable pub scan_level : HashMap ℕ Order → ℕ → ℕ → List ℕ → Option ℕ
scan_level orders qty available [] = some available
scan_level orders qty available (id ∷ ids) = elim (HashMap.get id orders) [
  | none ↦ scan_level orders qty available ids
  | some o ↦
      let available' = add64 available o.remaining_qty in
      elim (leb qty available') [ true ↦ none | false ↦ scan_level orders qty available' ids ]
]

unfoldable pub scan_levels : HashMap ℕ Order → (ℕ → Bool) → ℕ → ℕ → List (ℕ × PriceLevel) → Bool
scan_levels orders crosses qty available [] = false
scan_levels orders crosses qty available ((price, level) ∷ m) = elim (crosses price) [
  | false ↦ false
  | true ↦ elim (scan_level orders qty available level.orders) [
    | none ↦ true
    | some available' ↦ scan_levels orders crosses qty available' m
  ]
]

unfoldable pub can_fill_quantity : Orderbook → Side → ℕ → ℕ → Bool
can_fill_quantity b side price qty =
    if qty == 0
    then true
    else scan_levels b.orders (limit_crosses side price) qty 0 (best_first (opposite side) b)

-- `levels.entry(price).or_insert_with(PriceLevel::new).orders.push_back(order_id)`
unfoldable pub push_back : ℕ → ℕ → BTreeMap PriceLevel → BTreeMap PriceLevel
push_back price order_id m = elim (BTreeMap.get price m) [
  | none ↦ BTreeMap.insert price (record { orders = order_id ∷ [] }) m
  | some level ↦ BTreeMap.insert price (record { orders = level.orders ++ order_id ∷ [] }) m
]

-- Rest what is left of an order.
unfoldable pub rest_order : Order → Orderbook → Orderbook
rest_order o b =
    set_levels o.side (push_back o.price o.order_id (levels o.side b))
      (record b { orders = HashMap.insert o.order_id o b.orders })

abbrev pub is_fok : TimeInForce → Bool
is_fok fok = true
is_fok gtc = false
is_fok ioc = false

abbrev pub is_gtc : TimeInForce → Bool
is_gtc gtc = true
is_gtc ioc = false
is_gtc fok = false

-- Rest any unfilled quantity, for GTC orders only.
unfoldable pub rest_unfilled :
    Taker → ℕ → TimeInForce → Progress → Orderbook × Result (List MatchResult) OrderbookError
rest_unfilled t price time_in_force p =
    if ltb 0 p.remaining_qty && is_gtc time_in_force
    then (
      rest_order
          (record {
            order_id = t.order_id;
            user_id = t.user_id;
            side = t.side;
            price = price;
            remaining_qty = p.remaining_qty;
          })
          p.book,
      ok (
          p.results
          ++ order_accepted (record {
            order_id = t.order_id;
            user_id = t.user_id;
            side = t.side;
            price = price;
            remaining_qty = p.remaining_qty;
          })
            ∷ []),
    )
    else (p.book, ok p.results)

-- `self.next_order_id = self.next_order_id.max(order_id + 1)`
unfoldable pub bump_order_id : ℕ → Orderbook → Orderbook
bump_order_id order_id b = record b { next_order_id = max b.next_order_id (add64 order_id 1) }

abbrev pub fuel_for : Side → Orderbook → ℕ
fuel_for side b = suc (resting_count (levels (opposite side) b))

unfoldable pub add_order_with_id :
    ℕ → ℕ → Side → ℕ → ℕ → TimeInForce → Orderbook → Attempt (List MatchResult)
add_order_with_id order_id user_id side price qty time_in_force book =
    let b = bump_order_id order_id book in
    let t : Taker = record { order_id = order_id; user_id = user_id; side = side } in
    if price == 0
    then done (b, err invalid_price)
    else if qty == 0
    then done (b, err invalid_quantity)
    else if is_fok time_in_force && not (can_fill_quantity b side price qty)
    then done (b, ok [])
    else do
      p ←
          match_loop (fuel_for side b) t (limit_crosses side price)
            (record { book = b; remaining_qty = qty; results = [] })
      done (rest_unfilled t price time_in_force p)

unfoldable pub add_order : ℕ → Side → ℕ → ℕ → TimeInForce → Orderbook → Attempt (List MatchResult)
add_order user_id side price qty time_in_force b =
    add_order_with_id b.next_order_id user_id side price qty time_in_force
      (record b { next_order_id = add64 b.next_order_id 1 })

unfoldable pub execute_market_order_with_id :
    ℕ → ℕ → Side → ℕ → Option ℕ → Orderbook → Attempt (List MatchResult)
execute_market_order_with_id order_id user_id side qty worst_price book =
    let b = bump_order_id order_id book in
    let t : Taker = record { order_id = order_id; user_id = user_id; side = side } in
    if qty == 0 then done (b, err invalid_quantity) else do
      p ←
          match_loop (fuel_for side b) t (market_crosses side worst_price)
            (record { book = b; remaining_qty = qty; results = [] })
      done (p.book, ok p.results)

unfoldable pub execute_market_order :
    ℕ → Side → ℕ → Option ℕ → Orderbook → Attempt (List MatchResult)
execute_market_order user_id side qty worst_price b =
    execute_market_order_with_id b.next_order_id user_id side qty worst_price
      (record b { next_order_id = add64 b.next_order_id 1 })

-- `position(..).expect(..)` and `remove(pos)`: the queue without the order's first occurrence.
unfoldable pub remove_order : ℕ → List ℕ → Option (List ℕ)
remove_order id [] = none
remove_order id (x ∷ xs) =
    if x == id then some xs else elim (remove_order id xs) [ none ↦ none | some ys ↦ some (x ∷ ys) ]

-- The part of `cancel_order` that takes an order out of its level.
unfoldable pub unlink : Order → Orderbook → Outcome Orderbook
unlink o b = do
  level ← expect (BTreeMap.get o.price (levels o.side b))
  rest ← expect (remove_order o.order_id level.orders)
  let m = BTreeMap.insert o.price (record { orders = rest }) (levels o.side b)
  done (set_levels o.side (if is_empty rest then BTreeMap.remove o.price m else m) b)

unfoldable pub cancel_order : ℕ → ℕ → Orderbook → Attempt OrderCancelled
cancel_order order_id user_id b = elim (HashMap.get order_id b.orders) [
  | none ↦ done (b, err order_not_found)
  | some o ↦ if not (o.user_id == user_id) then done (b, err not_order_owner) else do
    b' ←
        unlink (record o { order_id = order_id })
          (record b { orders = HashMap.remove order_id b.orders })
    done (
      b',
      ok (record {
        order_id = o.order_id;
        user_id = o.user_id;
        side = o.side;
        price = o.price;
        remaining_qty = o.remaining_qty;
      }),
    )
]
