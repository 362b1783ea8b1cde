-- ===== src/Book/Priority.antt =====
-- What matching is meant to do, on the orders of one side in price-time priority: an incoming
-- order trades with them in that order, at their prices, while the price suits and something is
-- wanted; only the last one may be filled in part.
pub mod Amounts
use cex_rs.Base.{
  ℕ, ◌-◌, ◌<◌, ◌≤◌, ◌≡◌, arith, nat_beq, Bool, true, false, List, [], ◌∷◌, leb, ◌==◌, nat_eq,
}
use cex_rs.Book.Types.{Order, MatchResult, trade}
use cex_rs.Book.Matching.{Taker, make_trade}

pub record Matched : Type 0 where
  pub trades : List MatchResult
  pub remaining_qty : ℕ
  pub queue : List Order

abbrev pub trade_with : Taker → Order → ℕ → MatchResult
trade_with t o qty = trade (make_trade t o.price o.order_id o qty)

abbrev pub unmatched : ℕ → List Order → Matched
unmatched qty queue = record { trades = []; remaining_qty = qty; queue = queue }

unfoldable pub fill_queue : Taker → (ℕ → Bool) → ℕ → List Order → Matched
fill_queue t crosses qty [] = unmatched qty []
fill_queue t crosses qty (o ∷ queue) =
    let rest = fill_queue t crosses (qty - o.remaining_qty) queue in
    elim (qty == 0) [
      | true ↦ unmatched qty (o ∷ queue)
      | false ↦ elim (crosses o.price) [
        | false ↦ unmatched qty (o ∷ queue)
        | true ↦ elim (leb o.remaining_qty qty) [
          | true ↦ record {
            trades = trade_with t o o.remaining_qty ∷ rest.trades;
            remaining_qty = rest.remaining_qty;
            queue = rest.queue;
          }
          | false ↦ record {
            trades = trade_with t o qty ∷ [];
            remaining_qty = 0;
            queue = record o { remaining_qty = o.remaining_qty - qty } ∷ queue;
          }
        ]
      ]
    ]

module _ (t : Taker) (crosses : ℕ → Bool) (qty : ℕ) (o : Order) (queue : List Order) where
  pub fill_queue-idle :
      nat_beq qty 0 ≡ true → fill_queue t crosses qty (o ∷ queue) ≡ unmatched qty (o ∷ queue)
  unfolding fill_queue
  fill_queue-idle h = ground arith

  pub fill_queue-refused :
      crosses o.price ≡ false → fill_queue t crosses qty (o ∷ queue) ≡ unmatched qty (o ∷ queue)
  unfolding fill_queue
  fill_queue-refused h = ground arith

  module _ (wanted : nat_beq qty 0 ≡ false) (suits : crosses o.price ≡ true) where
    pub fill_queue-full :
        o.remaining_qty ≤ qty
        → fill_queue t crosses qty (o ∷ queue) ≡ record {
          trades =
              trade_with t o o.remaining_qty
              ∷ (fill_queue t crosses (qty - o.remaining_qty) queue).trades;
          remaining_qty = (fill_queue t crosses (qty - o.remaining_qty) queue).remaining_qty;
          queue = (fill_queue t crosses (qty - o.remaining_qty) queue).queue;
        }
    unfolding fill_queue
    fill_queue-full h = ground arith

    pub fill_queue-partial :
        qty < o.remaining_qty
        → fill_queue t crosses qty (o ∷ queue) ≡ record {
          trades = trade_with t o qty ∷ [];
          remaining_qty = 0;
          queue = record o { remaining_qty = o.remaining_qty - qty } ∷ queue;
        }
    unfolding fill_queue
    fill_queue-partial h = ground arith
