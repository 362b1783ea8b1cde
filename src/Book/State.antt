-- ===== src/Book/State.antt =====
-- The state of rs-engine/src/orderbook/book.rs, and what reads it.
use cex_rs.Base.{
  ℕ, String, Option, none, some, List, [], ◌∷◌, map, reverse, ◌==◌, nat_eq, select, length,
}
use cex_rs.Base.Word.{add64}
use cex_rs.Base.HashMap
use cex_rs.Base.HashMap.{HashMap, values}
use cex_rs.Base.BTreeMap
use cex_rs.Base.BTreeMap.{BTreeMap}
use cex_rs.Book.Types.{Side, bid, ask, Order, UserOrderSnapshot, LevelSnapshot, OrderbookSnapshot}

-- The identifiers of the orders at one price, the oldest first.
pub record PriceLevel : Type 0 where
  pub orders : List ℕ

pub record Orderbook : Type 0 where
  pub symbol : String
  pub next_order_id : ℕ
  pub bids : BTreeMap PriceLevel
  pub asks : BTreeMap PriceLevel
  pub orders : HashMap ℕ Order

unfoldable pub new : String → Orderbook
new symbol = record { symbol = symbol; next_order_id = 1; bids = []; asks = []; orders = [] }

unfoldable pub reset : Orderbook → Orderbook
reset b = record b { bids = []; asks = []; orders = []; next_order_id = 1 }

unfoldable pub best_bid : Orderbook → Option ℕ
best_bid b = BTreeMap.last_key b.bids

unfoldable pub best_ask : Orderbook → Option ℕ
best_ask b = BTreeMap.first_key b.asks

unfoldable pub order_count : Orderbook → ℕ
order_count b = length b.orders

unfoldable pub get_order : Orderbook → ℕ → Option Order
get_order b order_id = HashMap.get order_id b.orders

abbrev to_snapshot : Order → UserOrderSnapshot
to_snapshot o = record {
  order_id = o.order_id;
  user_id = o.user_id;
  side = o.side;
  price = o.price;
  remaining_qty = o.remaining_qty;
}

unfoldable pub get_user_orders : Orderbook → ℕ → List UserOrderSnapshot
get_user_orders b user_id = map to_snapshot (select (λ o. o.user_id == user_id) (values b.orders))

-- The `filter_map`, `map` and `sum` of `get_state`.
unfoldable pub level_qty : HashMap ℕ Order → List ℕ → ℕ
level_qty orders [] = 0
level_qty orders (id ∷ ids) = elim (HashMap.get id orders) [
  | none ↦ level_qty orders ids
  | some o ↦ add64 o.remaining_qty (level_qty orders ids)
]

abbrev to_level : HashMap ℕ Order → ℕ × PriceLevel → LevelSnapshot
to_level orders (price, level) = record { price = price; qty = level_qty orders level.orders }

unfoldable pub get_state : Orderbook → OrderbookSnapshot
unfolding level_qty
get_state b = record {
  symbol = b.symbol;
  bids = map (to_level b.orders) (reverse b.bids);
  asks = map (to_level b.orders) b.asks;
}

-- The levels of one side of the book.
abbrev pub levels : Side → Orderbook → BTreeMap PriceLevel
levels bid b = b.bids
levels ask b = b.asks

abbrev pub set_levels : Side → BTreeMap PriceLevel → Orderbook → Orderbook
set_levels bid m b = record b { bids = m }
set_levels ask m b = record b { asks = m }

-- The side that an incoming order trades with.
abbrev pub opposite : Side → Side
opposite bid = ask
opposite ask = bid

-- The levels in the order in which the code walks them: bids from the highest price down, asks
-- from the lowest up.
abbrev pub best_first : Side → Orderbook → List (ℕ × PriceLevel)
best_first bid b = reverse b.bids
best_first ask b = b.asks
