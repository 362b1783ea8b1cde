-- ===== src/Book/Orders/Uncrossed.antt =====
-- The book never crosses: after a limit order every bid is below every ask, if it was so before.
use cex_rs.Base.{
  ℕ, ◌≡◌, ap, ◌∙◌, ◌≢◌, not, ◌&&◌, Option, none, List, [], nat_eq, done, ok, Bool-cases, inl, inr,
}
use cex_rs.Base.HashMap
use cex_rs.Book.Loop.{NoneAdded}
use cex_rs.Shared.Requests.{TimeInForce}
use cex_rs.Book.Types.{Side, bid, ask, MatchResult}
use cex_rs.Book.State.{Orderbook, opposite}
use cex_rs.Book.Matching.{market_crosses}
use cex_rs.Book.Orders.{
  execute_market_order_with_id, add_order_with_id, bump_order_id, can_fill_quantity, is_fok,
}
use cex_rs.Book.Orders.Limit.{add_order_with_id-ends, add_order_with_id-killed}
use cex_rs.Book.Orders.Market.{
  taker, orders-bump, execute_market_order_with_id-ends, resting-bump, bump-IsWellFormed,
}
use cex_rs.Book.View.{resting}
use cex_rs.Book.WellFormed.{IsWellFormed}
use cex_rs.Book.Orders.Spread.{
  IsUncrossed, AreApart-IsUncrossed, own-AreApart_of, after-AreApart, market-AreApart,
}

-- A limit order ends in a book that does not cross, and adds no other order to it.
pub add_order_with_id-kept :
    (order_id user_id : ℕ) (side : Side) (price qty : ℕ) (time_in_force : TimeInForce)
    (b : Orderbook)
    → IsWellFormed b
    → IsUncrossed b
    → HashMap.get order_id b.orders ≡ none
    → price ≢ 0
    → qty ≢ 0
    → (c : Orderbook) × (results : List MatchResult) × (add_order_with_id order_id user_id side
          price qty time_in_force b
        ≡ done (c, ok results))
      × ((j : ℕ) → j ≢ order_id → HashMap.get j b.orders ≡ none → HashMap.get j c.orders ≡ none)
      × IsUncrossed c
      × IsWellFormed c
add_order_with_id-kept order_id user_id side price qty time_in_force b w u fresh priced positive =
    elim (Bool-cases (is_fok time_in_force && not (can_fill_quantity b side price qty))) [
      | inl fails ↦ (
        bump_order_id order_id b,
        [],
        add_order_with_id-killed order_id user_id side price qty time_in_force b priced positive
            fails,
        λ j ne h. ap (HashMap.get j) (orders-bump order_id b) ∙ h,
        rw (resting-bump bid order_id b, resting-bump ask order_id b) u,
        bump-IsWellFormed order_id b w,
      )
      | inr passes ↦
          let (c, run, other, own, adds, w') =
            add_order_with_id-ends order_id user_id side price qty time_in_force b w fresh priced
              positive passes in
          (
            c,
            _,
            run,
            adds,
            AreApart-IsUncrossed side c (
                rw (other, own)
                  (after-AreApart order_id user_id side price qty b w time_in_force
                    (own-AreApart_of side b u))),
            w',
          )
    ]

-- On a well-formed book in which every bid is below every ask, a limit order with a fresh
-- identifier, a price and a quantity is accepted, whatever its kind, and leaves a well-formed book
-- in which every bid is below every ask.
pub add_order_with_id-IsUncrossed :
    (order_id user_id : ℕ) (side : Side) (price qty : ℕ) (time_in_force : TimeInForce)
    (b : Orderbook)
    → IsWellFormed b
    → IsUncrossed b
    → HashMap.get order_id b.orders ≡ none
    → price ≢ 0
    → qty ≢ 0
    → (c : Orderbook) × (results : List MatchResult) × (add_order_with_id order_id user_id side
          price qty time_in_force b
        ≡ done (c, ok results))
      × IsUncrossed c
      × IsWellFormed c
add_order_with_id-IsUncrossed order_id user_id side price qty time_in_force b w u fresh priced
      positive =
    let (c, results, run, adds, u', w') =
      add_order_with_id-kept order_id user_id side price qty time_in_force b w u fresh priced
        positive in
    (c, results, run, u', w')

-- A market order ends in such a book too.
pub execute_market_order_with_id-kept :
    (order_id user_id : ℕ) (side : Side) (qty : ℕ) (worst_price : Option ℕ) (b : Orderbook)
    → IsWellFormed b
    → IsUncrossed b
    → qty ≢ 0
    → (c : Orderbook) × (results : List MatchResult) × (execute_market_order_with_id order_id
          user_id side qty worst_price b
        ≡ done (c, ok results))
      × NoneAdded b c
      × IsUncrossed c
      × IsWellFormed c
execute_market_order_with_id-kept order_id user_id side qty worst_price b w u positive =
    let (c, run, other, own, none_added, w') =
      execute_market_order_with_id-ends order_id user_id side qty worst_price b w positive in
    (
      c,
      _,
      run,
      none_added,
      AreApart-IsUncrossed side c (
          rw (other, own)
            (market-AreApart (taker order_id user_id side) (market_crosses side worst_price) qty
              side (resting side b) (resting (opposite side) b) (own-AreApart_of side b u))),
      w',
    )
