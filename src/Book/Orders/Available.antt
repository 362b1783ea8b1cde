-- ===== src/Book/Orders/Available.antt =====
-- What `can_fill_quantity` sums up.
use cex_rs.Base.{
  ℕ, ◌+◌, ◌<◌, ◌≡◌, refl, ap, ◌∙◌, ◌≢◌, Bool, true, false, none, some, List, [], ◌∷◌, ◌++◌, arith,
  nat_beq, leb, nat_eq, if◌then◌else◌, Option-cases, Bool-cases, inl, inr,
}
use cex_rs.Base.HashMap
use cex_rs.Base.HashMap.{HashMap}
use cex_rs.Base.BTreeMap
use cex_rs.Base.BTreeMap.{BTreeMap}
use cex_rs.Base.BTreeMap.Sorted.{IsSorted, get_below}
use cex_rs.Base.Word.{u64_mod, add64}
use cex_rs.Book.Types.{Side, bid, ask, Order}
use cex_rs.Book.State.{PriceLevel, Orderbook, levels, best_first, opposite}
use cex_rs.Book.Best.{Levels}
use cex_rs.Book.Matching.{limit_crosses}
use cex_rs.Book.Orders.{scan_level, scan_levels, can_fill_quantity}
use cex_rs.Book.View.{flat, orders_of, resting}
use cex_rs.Book.View.Priced.{All, All-reverse, IsPriced, orders_of-append}
use cex_rs.Book.WellFormed.{IsWellFormed}
use cex_rs.Book.Priority.Amounts.{sum_qty, available}
use cex_rs.Book.Fill.{front_order}
use cex_rs.Book.Resting.BestFirst.{best_first-IsPriced}

-- The orders of a level that suits are all available.
available-append :
    (crosses : ℕ → Bool) (p : ℕ) (os queue : List Order)
    → crosses p ≡ true
    → All (λ o. o.price ≡ p) os
    → available crosses (os ++ queue) ≡ sum_qty os + available crosses queue
unfolding available
available-append crosses p [] queue c a = omega arith
available-append crosses p (o ∷ os) queue c a =
    let suits : crosses o.price ≡ true = rw a.0 c in
    ground (arith, available-append crosses p os queue c a.1)

-- A level that does not suit ends what is available.
available-refused :
    (crosses : ℕ → Bool) (p : ℕ) (o : Order) (queue : List Order)
    → crosses p ≡ false
    → o.price ≡ p
    → available crosses (o ∷ queue) ≡ 0
unfolding available
available-refused crosses p o queue c e = let no : crosses o.price ≡ false = rw e c in ground arith

-- A level that names an order.
abbrev pub IsFilled : HashMap ℕ Order → ℕ × PriceLevel → Type 0
IsFilled orders (p, l) = orders_of orders l.orders ≢ []

module _ (orders : HashMap ℕ Order) (qty : ℕ) where
  scan_level-sum_qty :
      (acc : ℕ) (ids : List ℕ)
      → acc < qty
      → acc + sum_qty (orders_of orders ids) < u64_mod
      → scan_level orders qty acc ids ≡ (
          if leb qty (acc + sum_qty (orders_of orders ids))
          then none
          else some (acc + sum_qty (orders_of orders ids)))
  unfolding scan_level orders_of
  scan_level-sum_qty acc [] less small = ground arith
  scan_level-sum_qty acc (id ∷ ids) less small = elim (Option-cases (HashMap.get id orders)) [
    | inl e ↦ ground (arith, e, scan_level-sum_qty acc ids less)
    | inr (o, e) ↦
        let sum : add64 acc o.remaining_qty ≡ acc + o.remaining_qty = ground (arith, e, small) in
        ground (arith, e, sum, scan_level-sum_qty (add64 acc o.remaining_qty) ids)
  ]

  module _ (crosses : ℕ → Bool) where
    nothing :
        (p : ℕ) (l : PriceLevel) (m : Levels)
        → crosses p ≡ false
        → IsPriced orders (p, l)
        → IsFilled orders (p, l)
        → available crosses (orders_of orders (l.orders ++ flat m)) ≡ 0
    nothing p l m refused priced filled =
        ap (available crosses) (orders_of-append orders l.orders (flat m))
        ∙ go (orders_of orders l.orders) priced filled
      where
        go :
            (os : List Order)
            → All (λ o. o.price ≡ p) os
            → os ≢ []
            → available crosses (os ++ orders_of orders (flat m)) ≡ 0
        go [] a ne = absurd (ne refl)
        go (o ∷ os) a ne =
            available-refused crosses p o (os ++ orders_of orders (flat m)) refused a.0

    scan_levels-available :
        (acc : ℕ) (m : Levels)
        → All (IsPriced orders) m
        → All (IsFilled orders) m
        → acc < qty
        → acc + available crosses (orders_of orders (flat m)) < u64_mod
        → scan_levels orders crosses qty acc m
          ≡ leb qty (acc + available crosses (orders_of orders (flat m)))
    unfolding scan_levels flat available orders_of
    scan_levels-available acc [] priced filled less small = ground arith
    scan_levels-available acc ((p, l) ∷ m) priced filled less small =
        let append = orders_of-append orders l.orders (flat m) in
        elim (Bool-cases (crosses p)) [
          | inr refused ↦ ground (arith, refused, nothing p l m refused priced.0 filled.0)
          | inl suits ↦
              let all : available crosses (orders_of orders (l.orders ++ flat m))
                  ≡ sum_qty (orders_of orders l.orders)
                    + available crosses (orders_of orders (flat m)) =
                ap (available crosses) append
                ∙ available-append crosses p (orders_of orders l.orders) _ suits priced.0 in
              ground (
                arith,
                suits,
                all,
                small,
                scan_level-sum_qty acc l.orders less,
                scan_levels-available (acc + sum_qty (orders_of orders l.orders)) m priced.1
                    filled.1,
              )
        ]

levels-IsFilled :
    (orders : HashMap ℕ Order) (m : BTreeMap PriceLevel)
    → IsSorted m
    → ((p : ℕ) (l : PriceLevel) → BTreeMap.get p m ≡ some l → orders_of orders l.orders ≢ [])
    → All (IsFilled orders) m
unfolding BTreeMap.get
levels-IsFilled orders [] s h = tt
levels-IsFilled orders ((p, l) ∷ m) s h = (
  h p l (ground arith),
  levels-IsFilled orders m s.1 (λ q k e. h q k (ground (arith, e, get_below m p s.0))),
)

-- A queue that is not empty names its front order.
queue_names :
    (u : Side) (b : Orderbook) (p : ℕ) (ids : List ℕ)
    → IsWellFormed b
    → BTreeMap.get p (levels u b) ≡ some (record { orders = ids })
    → ids ≢ []
    → orders_of b.orders ids ≢ []
unfolding orders_of
queue_names u b p [] w e ne = absurd (ne refl)
queue_names u b p (id ∷ ids) w e ne =
    let (o, present, priced, side, filed, left) = front_order u p id ids b w e in
    ground (arith, present)

levels_of-IsFilled :
    (u : Side) (b : Orderbook) → IsWellFormed b → All (IsFilled b.orders) (levels u b)
levels_of-IsFilled u b w =
    levels-IsFilled b.orders (levels u b) (w.sorted u)
      (λ p l e. queue_names u b p l.orders w e (w.full u p l e))

pub best_first-IsFilled :
    (u : Side) (b : Orderbook) → IsWellFormed b → All (IsFilled b.orders) (best_first u b)
best_first-IsFilled bid b w = All-reverse (IsFilled b.orders) b.bids (levels_of-IsFilled bid b w)
best_first-IsFilled ask b w = levels_of-IsFilled ask b w

-- On a well-formed book, `can_fill_quantity` says whether the orders of the other side within the
-- price offer the whole quantity, as long as what they offer is less than 2 ^ 64.
pub can_fill_quantity-available :
    (b : Orderbook) (side : Side) (price qty : ℕ)
    → IsWellFormed b
    → available (limit_crosses side price) (resting (opposite side) b) < u64_mod
    → can_fill_quantity b side price qty
      ≡ leb qty (available (limit_crosses side price) (resting (opposite side) b))
unfolding can_fill_quantity resting
can_fill_quantity-available b side price qty w small = elim (Bool-cases (nat_beq qty 0)) [
  | inl idle ↦ ground arith
  | inr wanted ↦ ground (
    arith,
    wanted,
    scan_levels-available b.orders qty (limit_crosses side price) 0 (best_first (opposite side) b)
        (best_first-IsPriced (opposite side) b w) (best_first-IsFilled (opposite side) b w),
  )
]
