-- ===== src/Book/Orders/Market.antt =====
-- `execute_market_order_with_id` on a well-formed book.
use mathlib.Core.List.{append-nil}
use cex_rs.Base.{
  ℕ, ◌≡◌, refl, ap, ◌∙◌, sym, subst, ◌≢◌, inr, Bool, false, Option, [], ◌++◌, arith, nat_beq,
  nat_eq, count, done, ok,
}
use cex_rs.Base.HashMap
use cex_rs.Base.BTreeMap
use cex_rs.Base.BTreeMap.Sorted.{IsSorted}
use cex_rs.Book.Types.{Side, bid, ask}
use cex_rs.Book.State.{Orderbook, levels, opposite, best_first}
use cex_rs.Book.Matching.{Taker, Progress, match_loop, market_crosses}
use cex_rs.Book.Orders.{bump_order_id, fuel_for, execute_market_order_with_id}
use cex_rs.Book.View.{resting, queue_at}
use cex_rs.Book.WellFormed.{IsWellFormed}
use cex_rs.Book.Priority.{Matched, fill_queue}
use cex_rs.Book.Loop.{NoneAdded}
use cex_rs.Book.Loop.Match.{match_loop-Ends}

levels-bump : (s : Side) (n : ℕ) (b : Orderbook) → levels s (bump_order_id n b) ≡ levels s b
unfolding bump_order_id
levels-bump bid n b = refl
levels-bump ask n b = refl

best_first-bump :
    (s : Side) (n : ℕ) (b : Orderbook) → best_first s (bump_order_id n b) ≡ best_first s b
unfolding bump_order_id
best_first-bump bid n b = refl
best_first-bump ask n b = refl

pub orders-bump : (n : ℕ) (b : Orderbook) → (bump_order_id n b).orders ≡ b.orders
unfolding bump_order_id
orders-bump n b = refl

-- The counter plays no part in the consistency of the book, nor in what rests.
pub bump-IsWellFormed : (n : ℕ) (b : Orderbook) → IsWellFormed b → IsWellFormed (bump_order_id n b)
unfolding bump_order_id
bump-IsWellFormed n b w = record {
  sorted = λ s. subst IsSorted (sym (levels-bump s n b)) (w.sorted s);
  full = λ s p l e. w.full s p l (ap (BTreeMap.get p) (sym (levels-bump s n b)) ∙ e);
  indexed = λ s p id. ap (λ m. count id (queue_at p m)) (levels-bump s n b) ∙ w.indexed s p id;
  live = w.live;
}

pub resting-bump : (s : Side) (n : ℕ) (b : Orderbook) → resting s (bump_order_id n b) ≡ resting s b
unfolding resting bump_order_id
resting-bump bid n b = refl
resting-bump ask n b = refl

abbrev pub taker : ℕ → ℕ → Side → Taker
taker order_id user_id side = record { order_id = order_id; user_id = user_id; side = side }

-- What the loops leave, started on the whole order.
pub record Leaves (t : Taker) (crosses : ℕ → Bool) (qty : ℕ) (b : Orderbook) (q : Progress)
    : Type 0 where
  pub well_formed : IsWellFormed q.book
  pub results : q.results ≡ (fill_queue t crosses qty (resting (opposite t.side) b)).trades
  pub remaining_qty :
      q.remaining_qty ≡ (fill_queue t crosses qty (resting (opposite t.side) b)).remaining_qty
  pub other_side :
      resting (opposite t.side) q.book
      ≡ (fill_queue t crosses qty (resting (opposite t.side) b)).queue
  pub same_side : resting t.side q.book ≡ resting t.side b
  pub none_added : NoneAdded b q.book

pub matched :
    (order_id user_id : ℕ) (side : Side) (crosses : ℕ → Bool) (qty : ℕ) (b : Orderbook)
    → IsWellFormed b
    → (q : Progress) × (match_loop
          (fuel_for side (bump_order_id order_id b))
          (taker order_id user_id side)
          crosses
          (record { book = bump_order_id order_id b; remaining_qty = qty; results = [] })
        ≡ done q)
      × Leaves (taker order_id user_id side) crosses qty b q
matched order_id user_id side crosses qty b w =
    let t = taker order_id user_id side in
    let p : Progress = record {
      book = bump_order_id order_id b;
      remaining_qty = qty;
      results = [];
    } in
    let (q, ends, e) =
      match_loop-Ends (fuel_for side (bump_order_id order_id b)) t crosses p
        (bump-IsWellFormed order_id b w) (inr (omega arith)) in
    let before = ap (fill_queue t crosses qty) (resting-bump (opposite side) order_id b) in
    (
      q,
      ends,
      record {
        well_formed = e.well_formed;
        results =
            sym (append-nil q.results)
            ∙ ap (λ (m : Matched). q.results ++ m.trades) (sym e.finished)
            ∙ ap (λ (m : Matched). m.trades) e.same_outcome
            ∙ ap (λ (m : Matched). m.trades) before;
        remaining_qty =
            ap (λ (m : Matched). m.remaining_qty) (sym e.finished)
            ∙ ap (λ (m : Matched). m.remaining_qty) e.same_outcome
            ∙ ap (λ (m : Matched). m.remaining_qty) before;
        other_side =
            ap (λ (m : Matched). m.queue) (sym e.finished)
            ∙ ap (λ (m : Matched). m.queue) e.same_outcome
            ∙ ap (λ (m : Matched). m.queue) before;
        same_side = e.same_side ∙ resting-bump side order_id b;
        none_added = λ j h. e.none_added j (ap (HashMap.get j) (orders-bump order_id b) ∙ h);
      },
    )

-- What matching leaves of a market order.
abbrev pub market_match : ℕ → ℕ → Side → ℕ → Option ℕ → Orderbook → Matched
market_match order_id user_id side qty worst_price b =
    fill_queue (taker order_id user_id side) (market_crosses side worst_price) qty
      (resting (opposite side) b)

-- A market order ends, and adds no order to the book.
pub execute_market_order_with_id-ends :
    (order_id user_id : ℕ) (side : Side) (qty : ℕ) (worst_price : Option ℕ) (b : Orderbook)
    → IsWellFormed b
    → qty ≢ 0
    → let m = market_match order_id user_id side qty worst_price b in
      (c : Orderbook) × (execute_market_order_with_id order_id user_id side qty worst_price b
        ≡ done (c, ok m.trades))
      × (resting (opposite side) c ≡ m.queue)
      × (resting side c ≡ resting side b)
      × NoneAdded b c
      × IsWellFormed c
unfolding execute_market_order_with_id
execute_market_order_with_id-ends order_id user_id side qty worst_price b w positive =
    let (q, ends, left) = matched order_id user_id side (market_crosses side worst_price) qty b w in
    let nonzero : nat_beq qty 0 ≡ false = ground arith in
    (
      q.book,
      rw (nonzero, ends, left.results),
      left.other_side,
      left.same_side,
      left.none_added,
      left.well_formed,
    )

-- On a well-formed book a market order with a positive quantity ends without a panic. Its trades,
-- the orders that stay on the other side and its own side are those of matching in price-time
-- priority while the price is no worse than `worst_price`; the book stays well-formed.
pub execute_market_order_with_id-fill_queue :
    (order_id user_id : ℕ) (side : Side) (qty : ℕ) (worst_price : Option ℕ) (b : Orderbook)
    → IsWellFormed b
    → qty ≢ 0
    → let m = market_match order_id user_id side qty worst_price b in
      (c : Orderbook) × (execute_market_order_with_id order_id user_id side qty worst_price b
        ≡ done (c, ok m.trades))
      × (resting (opposite side) c ≡ m.queue)
      × (resting side c ≡ resting side b)
      × IsWellFormed c
execute_market_order_with_id-fill_queue order_id user_id side qty worst_price b w positive =
    let (c, run, other, own, added, w') =
      execute_market_order_with_id-ends order_id user_id side qty worst_price b w positive in
    (c, run, other, own, w')
