-- ===== src/Book/Orders/Spread.antt =====
-- When a book does not cross, and how orders leave it so.
use cex_rs.Base.{
  ℕ, ◌<◌, ◌≡◌, ◌≢◌, Bool, false, List, [], ◌∷◌, arith, nat_beq, nat_eq, if◌then◌else◌, Bool-cases,
  inl, inr,
}
use cex_rs.Shared.Requests.{TimeInForce}
use cex_rs.Book.Types.{Side, bid, ask, Order}
use cex_rs.Book.State.{Orderbook, opposite}
use cex_rs.Book.Matching.{Taker, limit_crosses}
use cex_rs.Book.Orders.Cancel.{others}
use cex_rs.Book.Orders.Enqueue.{enqueue}
use cex_rs.Book.Orders.Limit.{limit_match, remainder, rests}
use cex_rs.Book.Orders.Market.{taker}
use cex_rs.Book.Resting.BestFirst.{NoWorse, resting-IsBestFirst}
use cex_rs.Book.View.{resting}
use cex_rs.Book.View.Priced.{All, All-map}
use cex_rs.Book.WellFormed.{IsWellFormed}
use cex_rs.Book.Priority.{Matched, fill_queue}
use cex_rs.Book.Orders.Exhausted.{fill_queue-All, fill_queue-exhausted, enqueue-All}

-- Do a price of side `s` and one of the other side stay apart?
abbrev pub Apart : Side → ℕ → ℕ → Type 0
Apart bid p q = p < q
Apart ask p q = q < p

-- Every order of side `s` is apart from every order of the other.
abbrev pub AreApart : Side → List Order → List Order → Type 0
AreApart s own other = All (λ x. All (λ y. Apart s x.price y.price) other) own

-- Every bid is below every ask.
abbrev pub IsUncrossed : Orderbook → Type 0
IsUncrossed b = AreApart bid (resting bid b) (resting ask b)

All-swap :
    (R Q : ℕ → ℕ → Type 0) (xs ys : List Order)
    → ((p q : ℕ) → R p q → Q q p)
    → All (λ x. All (λ y. R x.price y.price) ys) xs
    → All (λ y. All (λ x. Q y.price x.price) xs) ys
All-swap R Q xs [] f a = tt
All-swap R Q xs (y ∷ ys) f a = (
  All-map _ _ xs (λ x b. f x.price y.price b.0) a,
  All-swap R Q xs ys f (All-map _ _ xs (λ x b. b.1) a),
)

refused-Apart : (s : Side) (p q : ℕ) → limit_crosses s p q ≡ false → Apart s p q
unfolding limit_crosses
refused-Apart bid p q h = ground arith
refused-Apart ask p q h = ground arith

refused_mono :
    (s : Side) (price p q : ℕ)
    → NoWorse (opposite s) p q
    → limit_crosses s price p ≡ false
    → limit_crosses s price q ≡ false
unfolding limit_crosses
refused_mono bid price p q w h = ground arith
refused_mono ask price p q w h = ground arith

module _ (order_id user_id : ℕ) (s : Side) (price qty : ℕ) (b : Orderbook)
    (w : IsWellFormed b) where
  abbrev left : Matched
  left = limit_match order_id user_id s price qty b

  -- What rests on the other side is apart from the own side, and from what is left of the order.
  own-AreApart :
      AreApart s (resting s b) (resting (opposite s) b) → AreApart s (resting s b) left.queue
  own-AreApart a =
      All-map _ _ (resting s b)
        (λ x d.
          fill_queue-All (taker order_id user_id s) (limit_crosses s price) (Apart s x.price) qty
            (resting (opposite s) b) d)
        a

  rest-Apart : left.remaining_qty ≢ 0 → All (λ y. Apart s price y.price) left.queue
  rest-Apart some_left =
      All-map _ _ left.queue (λ y h. refused-Apart s price y.price h)
        (fill_queue-exhausted (taker order_id user_id s) (limit_crosses s price) (opposite s) qty
          (resting (opposite s) b) (refused_mono s price) (resting-IsBestFirst (opposite s) b w)
          some_left)

  pub after-AreApart :
      (time_in_force : TimeInForce)
      → AreApart s (resting s b) (resting (opposite s) b)
      → AreApart s
          (if rests time_in_force left
            then enqueue s (remainder order_id user_id s price left.remaining_qty) (resting s b)
            else resting s b)
          left.queue
  after-AreApart time_in_force a = elim (Bool-cases (rests time_in_force left)) [
    | inl stays ↦ rw stays (
        enqueue-All (λ n. All (λ y. Apart s n y.price) left.queue) s
          (remainder order_id user_id s price left.remaining_qty) (resting s b)
          (rest-Apart (ground (arith, stays))) (own-AreApart a))
    | inr leaves ↦ rw leaves (own-AreApart a)
  ]

pub own-AreApart_of :
    (s : Side) (b : Orderbook) → IsUncrossed b → AreApart s (resting s b) (resting (opposite s) b)
own-AreApart_of bid b u = u
own-AreApart_of ask b u =
    All-swap (Apart bid) (Apart ask) (resting bid b) (resting ask b) (λ p q h. h) u

pub AreApart-IsUncrossed :
    (s : Side) (b : Orderbook) → AreApart s (resting s b) (resting (opposite s) b) → IsUncrossed b
AreApart-IsUncrossed bid b a = a
AreApart-IsUncrossed ask b a =
    All-swap (Apart ask) (Apart bid) (resting ask b) (resting bid b) (λ p q h. h) a

-- A market order, which leaves its own side, keeps the sides apart.
pub market-AreApart :
    (t : Taker) (crosses : ℕ → Bool) (qty : ℕ) (s : Side) (own other : List Order)
    → AreApart s own other
    → AreApart s own (fill_queue t crosses qty other).queue
market-AreApart t crosses qty s own other a =
    All-map _ _ own (λ x d. fill_queue-All t crosses (Apart s x.price) qty other d) a

others-All : (P : Order → Type 0) (id : ℕ) (os : List Order) → All P os → All P (others id os)
others-All P id [] a = tt
others-All P id (o ∷ os) a = elim (Bool-cases (nat_beq o.order_id id)) [
  | inl e ↦ rw e (others-All P id os a.1)
  | inr e ↦ rw e (a.0, others-All P id os a.1)
]

-- So does an order that leaves.
pub others-AreApart :
    (id : ℕ) (s : Side) (own other : List Order)
    → AreApart s own other
    → AreApart s (others id own) (others id other)
others-AreApart id s own other a =
    others-All _ id own
      (All-map _ _ own (λ x d. others-All (λ y. Apart s x.price y.price) id other d) a)
