-- ===== src/Book/Matching.antt =====
-- The matching loops of `add_order_with_id` and `execute_market_order_with_id`. Both have the same
-- inner loop, and differ in the test that ends the outer one.
use cex_rs.Base.{
  ℕ, zero, suc, ◌+◌, ◌-◌, min, Bool, true, false, Option, none, some, List, [], ◌∷◌, ◌++◌, ltb, leb,
  ◌==◌, nat_eq, length, head?, is_empty, not, Outcome, done, panic, hang, ◌>>=◌, expect,
}
use cex_rs.Base.HashMap
use cex_rs.Base.BTreeMap
use cex_rs.Base.BTreeMap.{BTreeMap}
use cex_rs.Book.Types.{Side, bid, ask, Order, Trade, MatchResult, trade}
use cex_rs.Book.State.{PriceLevel, Orderbook, levels, set_levels, opposite, best_bid, best_ask}

-- Who the incoming order belongs to.
pub record Taker : Type 0 where
  pub order_id : ℕ
  pub user_id : ℕ
  pub side : Side

-- The variables that the loops change.
pub record Progress : Type 0 where
  pub book : Orderbook
  pub remaining_qty : ℕ
  pub results : List MatchResult

-- `resting_price`: the best price of the other side.
abbrev pub best_opposite : Side → Orderbook → Option ℕ
best_opposite bid b = best_ask b
best_opposite ask b = best_bid b

abbrev pub make_trade : Taker → ℕ → ℕ → Order → ℕ → Trade
make_trade t price maker_id maker fill_qty = go t.side
  where
    go : Side → Trade
    go bid = record {
      buyer = t.user_id;
      seller = maker.user_id;
      price = price;
      qty = fill_qty;
      taker_order_id = t.order_id;
      maker_order_id = maker_id;
      taker_side = bid;
    }
    go ask = record {
      buyer = maker.user_id;
      seller = t.user_id;
      price = price;
      qty = fill_qty;
      taker_order_id = t.order_id;
      maker_order_id = maker_id;
      taker_side = ask;
    }

-- `levels.get(&resting_price).and_then(|l| l.orders.front())`
unfoldable pub front_at : ℕ → BTreeMap PriceLevel → Option ℕ
front_at price m = elim (BTreeMap.get price m) [ none ↦ none | some level ↦ head? level.orders ]

-- The maker after the fill. The difference cannot underflow: `fill_qty` is a minimum.
unfoldable pub fill_maker : ℕ → ℕ → Order → Orderbook → Orderbook
fill_maker maker_id fill_qty maker b = record b {
  orders =
      HashMap.insert maker_id (record maker { remaining_qty = maker.remaining_qty - fill_qty })
        b.orders;
}

-- The maker's record is dropped, and it leaves the front of its queue: the book, and whether the
-- level is empty.
unfoldable pub pop_maker : Side → ℕ → ℕ → Orderbook → Outcome (Orderbook × Bool)
pop_maker s price maker_id b = do
  level ← expect (BTreeMap.get price (levels s b))
  elim level.orders [
    | [] ↦ panic
    | front ∷ rest ↦ done (
      set_levels s (BTreeMap.insert price (record { orders = rest }) (levels s b))
          (record b { orders = HashMap.remove maker_id b.orders }),
      is_empty rest,
    )
  ]

-- `levels.remove(&resting_price)`
unfoldable pub drop_level : Side → ℕ → Orderbook → Orderbook
drop_level s price b = set_levels s (BTreeMap.remove price (levels s b)) b

-- `orders.get(&maker_id).map(|o| o.remaining_qty == 0).unwrap_or(false)`
unfoldable pub maker_done : ℕ → Orderbook → Bool
maker_done maker_id b = elim (HashMap.get maker_id b.orders) [
  | none ↦ false
  | some o ↦ o.remaining_qty == 0
]

-- What follows a fill: a maker that is done leaves the book. Beside the variables, whether the
-- loop goes on.
unfoldable pub settle_maker : Taker → ℕ → ℕ → Progress → Outcome (Progress × Bool)
settle_maker t price maker_id p = elim (maker_done maker_id p.book) [
  | false ↦ done (p, false)
  | true ↦ do
    (b, level_empty) ← pop_maker (opposite t.side) price maker_id p.book
    elim level_empty [
      | true ↦ done (record p { book = drop_level (opposite t.side) price b }, false)
      | false ↦ done (record p { book = b }, true)
    ]
]

-- One pass through the inner loop with the maker at the front.
unfoldable pub fill_front : Taker → ℕ → ℕ → Progress → Outcome (Progress × Bool)
fill_front t price maker_id p = do
  maker ← expect (HashMap.get maker_id p.book.orders)
  let fill_qty = min p.remaining_qty maker.remaining_qty
  settle_maker t price maker_id (record {
    book = fill_maker maker_id fill_qty maker p.book;
    remaining_qty = p.remaining_qty - fill_qty;
    results = p.results ++ trade (make_trade t price maker_id maker fill_qty) ∷ [];
  })

-- The inner loop: consume the level at `price` in order of arrival.
unfoldable pub consume_level : ℕ → Taker → ℕ → Progress → Outcome Progress
consume_level zero t price p = hang
consume_level (suc fuel) t price p = elim (p.remaining_qty == 0) [
  | true ↦ done p
  | false ↦ elim (front_at price (levels (opposite t.side) p.book)) [
    | none ↦ done p
    | some maker_id ↦ do
      (p', again) ← fill_front t price maker_id p
      elim again [ true ↦ consume_level fuel t price p' | false ↦ done p' ]
  ]
]

-- The outer loop. `crosses` is the test of the resting price.
unfoldable pub match_loop : ℕ → Taker → (ℕ → Bool) → Progress → Outcome Progress
match_loop zero t crosses p = hang
match_loop (suc fuel) t crosses p = elim (p.remaining_qty == 0) [
  | true ↦ done p
  | false ↦ elim (best_opposite t.side p.book) [
    | none ↦ done p
    | some price ↦ elim (crosses price) [
      | true ↦ consume_level (suc fuel) t price p >>= match_loop fuel t crosses
      | false ↦ done p
    ]
  ]
]

-- Does an order at `price` cross the spread?
unfoldable pub limit_crosses : Side → ℕ → ℕ → Bool
limit_crosses bid price resting_price = leb resting_price price
limit_crosses ask price resting_price = leb price resting_price

-- The slippage test of a market order, negated.
unfoldable pub market_crosses : Side → Option ℕ → ℕ → Bool
market_crosses s none resting_price = true
market_crosses bid (some cap) resting_price = not (ltb cap resting_price)
market_crosses ask (some cap) resting_price = not (ltb resting_price cap)

-- How many orders rest on a side: enough fuel, since every pass but the last removes one.
abbrev pub resting_count : BTreeMap PriceLevel → ℕ
resting_count [] = 0
resting_count ((price, level) ∷ m) = length level.orders + resting_count m
