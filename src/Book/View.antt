-- ===== src/Book/View.antt =====
-- The book as a client sees it: the orders of each side in the order in which they will trade.
mod Flat
pub mod Priced
unfoldable pub use Flat.*
use cex_rs.Base.{ℕ, Option, none, some, List, [], ◌∷◌, nat_eq}
use cex_rs.Base.HashMap
use cex_rs.Base.HashMap.{HashMap}
use cex_rs.Book.Types.{Side, Order}
use cex_rs.Book.State.{Orderbook, best_first}

-- The orders that a list of identifiers names.
unfoldable pub orders_of : HashMap ℕ Order → List ℕ → List Order
orders_of orders [] = []
orders_of orders (id ∷ ids) = elim (HashMap.get id orders) [
  | none ↦ orders_of orders ids
  | some o ↦ o ∷ orders_of orders ids
]

-- Price-time priority: the best price first, and the oldest first within a price.
unfoldable pub resting : Side → Orderbook → List Order
resting s b = orders_of b.orders (flat (best_first s b))
