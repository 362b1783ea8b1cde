-- ===== src/Book/Resting/Front.antt =====
-- The two ways in which the front order of a side is filled, and what rests afterwards.
use cex_rs.Base.{
  ℕ, ◌+◌, ◌-◌, ◌<◌, ◌≡◌, refl, ap, ◌∙◌, sym, subst, ◌≢◌, none, some, List, [], ◌∷◌, ◌++◌, arith,
  nat_eq, count, length, length-append, count-append,
}
use cex_rs.Base.HashMap
use cex_rs.Base.HashMap.{HashMap}
use cex_rs.Base.BTreeMap
use cex_rs.Base.BTreeMap.Sorted.{IsSorted}
use cex_rs.Book.Types.{Side, bid, ask, Order}
use cex_rs.Book.State.{Orderbook, levels, best_first}
use cex_rs.Book.Matching.{fill_maker, resting_count}
use cex_rs.Book.Best.{Levels, top}
use cex_rs.Book.View.{flat, queue_at, orders_of, resting}
use cex_rs.Book.WellFormed.{IsWellFormed, holds, Removed-IsWellFormed}
use cex_rs.Book.Fill.{taken, taken-Removed}
use cex_rs.Book.Resting.{
  orders_of_frame, length-best_first, count_own, count_other, best_first-taken,
}

best_first-fill_maker :
    (u : Side) (id fill_qty : ℕ) (o : Order) (b : Orderbook)
    → best_first u (fill_maker id fill_qty o b) ≡ best_first u b
unfolding fill_maker
best_first-fill_maker bid id fill_qty o b = refl
best_first-fill_maker ask id fill_qty o b = refl

pub levels-fill_maker :
    (u : Side) (id fill_qty : ℕ) (o : Order) (b : Orderbook)
    → levels u (fill_maker id fill_qty o b) ≡ levels u b
unfolding fill_maker
levels-fill_maker bid id fill_qty o b = refl
levels-fill_maker ask id fill_qty o b = refl

best_first-taken_other :
    (s u : Side) (price id : ℕ) (ids : List ℕ) (fill_qty : ℕ) (o : Order) (b : Orderbook)
    → u ≢ s
    → best_first u (taken s price id ids fill_qty o b) ≡ best_first u b
best_first-taken_other bid bid price id ids fill_qty o b ne = absurd (ne refl)
best_first-taken_other ask ask price id ids fill_qty o b ne = absurd (ne refl)
best_first-taken_other bid ask price id [] fill_qty o b ne = refl
best_first-taken_other bid ask price id (x ∷ xs) fill_qty o b ne = refl
best_first-taken_other ask bid price id [] fill_qty o b ne = refl
best_first-taken_other ask bid price id (x ∷ xs) fill_qty o b ne = refl

flat_rest :
    (price : ℕ) (ids : List ℕ) (m : Levels)
    → flat (elim ids [ [] ↦ m | x ∷ xs ↦ (price, record { orders = x ∷ xs }) ∷ m ]) ≡ ids ++ flat m
unfolding flat
flat_rest price [] m = refl
flat_rest price (x ∷ xs) m = refl

module _ (s : Side) (b : Orderbook) (price id : ℕ) (ids : List ℕ) (m : Levels) (o : Order)
    (w : IsWellFormed b) (stands : best_first s b ≡ (price, record { orders = id ∷ ids }) ∷ m)
    (present : HashMap.get id b.orders ≡ some o) (side : o.side ≡ s) where
  front_get : BTreeMap.get price (levels s b) ≡ some (record { orders = id ∷ ids })
  front_get = (top s b price _ m (w.sorted s) stands).get_is

  once : count id (ids ++ flat m) ≡ 0
  unfolding flat
  once = ground (
    arith,
    count_own s b id o w present side,
    ap (λ (n : Levels). count id (flat n)) stands,
    count-append id ids (flat m),
  )

  pub resting-front : resting s b ≡ o ∷ orders_of b.orders (ids ++ flat m)
  unfolding resting orders_of flat
  resting-front = ground (arith, ap (λ (n : Levels). orders_of b.orders (flat n)) stands, present)

  module _ (fill_qty : ℕ) where
    pub resting-taken :
        resting s (taken s price id ids fill_qty o b) ≡ orders_of b.orders (ids ++ flat m)
    unfolding resting
    resting-taken =
        rw (best_first-taken s b price id ids m fill_qty o w stands, flat_rest price ids m)
          (orders_of_frame id b.orders _ (ids ++ flat m)
            (λ j ne. (taken-Removed price id fill_qty o b w s ids).orders j ∙ ground arith) once)

    filled_front :
        HashMap.get id (fill_maker id fill_qty o b).orders
        ≡ some (record o { remaining_qty = o.remaining_qty - fill_qty })
    unfolding fill_maker
    filled_front = HashMap.get-insert id id _ b.orders ∙ ground arith

    filled_rest :
        orders_of (fill_maker id fill_qty o b).orders (ids ++ flat m)
        ≡ orders_of b.orders (ids ++ flat m)
    unfolding fill_maker
    filled_rest =
        orders_of_frame id b.orders _ (ids ++ flat m)
          (λ j ne. HashMap.get-insert j id _ b.orders ∙ ground arith) once

    pub resting-filled :
        resting s (fill_maker id fill_qty o b)
        ≡ record o { remaining_qty = o.remaining_qty - fill_qty }
          ∷ orders_of b.orders (ids ++ flat m)
    unfolding resting orders_of flat
    resting-filled =
        rw (best_first-fill_maker s id fill_qty o b, stands)
          (ground (arith, filled_front, filled_rest))

    -- The side of the incoming order stays as it is.
    pub resting-taken_other :
        (u : Side) → u ≢ s → resting u (taken s price id ids fill_qty o b) ≡ resting u b
    unfolding resting
    resting-taken_other u ne = rw (best_first-taken_other s u price id ids fill_qty o b ne) (
        orders_of_frame id b.orders _ (flat (best_first u b))
          (λ j nj. (taken-Removed price id fill_qty o b w s ids).orders j ∙ ground arith)
          (count_other s u b id o w present side ne))

    pub resting-filled_other :
        (u : Side) → u ≢ s → resting u (fill_maker id fill_qty o b) ≡ resting u b
    unfolding resting fill_maker
    resting-filled_other u ne = rw (best_first-fill_maker u id fill_qty o b) (
        orders_of_frame id b.orders _ (flat (best_first u b))
          (λ j nj. HashMap.get-insert j id _ b.orders ∙ ground arith)
          (count_other s u b id o w present side ne))

    pub taken-IsWellFormed : IsWellFormed (taken s price id ids fill_qty o b)
    taken-IsWellFormed =
        Removed-IsWellFormed s price id (id ∷ ids) ids b _ o w present front_get (λ j. ground arith)
          (taken-Removed price id fill_qty o b w s ids)

    pub taken-none_added :
        (j : ℕ)
        → HashMap.get j b.orders ≡ none
        → HashMap.get j (taken s price id ids fill_qty o b).orders ≡ none
    taken-none_added j h =
        (taken-Removed price id fill_qty o b w s ids).orders j ∙ ground (arith, h)

    pub filled-none_added :
        (j : ℕ)
        → HashMap.get j b.orders ≡ none
        → HashMap.get j (fill_maker id fill_qty o b).orders ≡ none
    unfolding fill_maker
    filled-none_added j h =
        HashMap.get-insert j id (record o { remaining_qty = o.remaining_qty - fill_qty }) b.orders
        ∙ ground (arith, h, present)

    holds_filled :
        (u : Side) (q j : ℕ)
        → holds u q (HashMap.get j b.orders)
          ≡ holds u q (HashMap.get j (fill_maker id fill_qty o b).orders)
    unfolding fill_maker
    holds_filled u q j = ground (
      arith,
      HashMap.get-insert j id (record o { remaining_qty = o.remaining_qty - fill_qty }) b.orders,
    )

    live_filled :
        fill_qty < o.remaining_qty
        → (j : ℕ) (x : Order) → HashMap.get j (fill_maker id fill_qty o b).orders ≡ some x
        → (0 < x.remaining_qty) × (x.order_id ≡ j)
    unfolding fill_maker
    live_filled less j x e = ground (
      arith,
      HashMap.get-insert j id (record o { remaining_qty = o.remaining_qty - fill_qty }) b.orders,
      w.live id o present,
      w.live j x,
    )

    pub fill_maker-IsWellFormed :
        fill_qty < o.remaining_qty → IsWellFormed (fill_maker id fill_qty o b)
    fill_maker-IsWellFormed less = record {
      sorted = λ u. subst IsSorted (sym (levels-fill_maker u id fill_qty o b)) (w.sorted u);
      full = λ u p l e.
          w.full u p l (ap (BTreeMap.get p) (sym (levels-fill_maker u id fill_qty o b)) ∙ e);
      indexed = λ u q j.
          ap (λ n. count j (queue_at q n)) (levels-fill_maker u id fill_qty o b)
          ∙ w.indexed u q j
          ∙ holds_filled u q j;
      live = live_filled less;
    }

    pub resting_count-taken :
        resting_count (levels s (taken s price id ids fill_qty o b)) + 1
        ≡ resting_count (levels s b)
    unfolding flat
    resting_count-taken = omega (
      arith,
      length-best_first s b,
      length-best_first s (taken s price id ids fill_qty o b),
      ap (λ (n : Levels). length (flat n)) stands,
      ap (λ (n : Levels). length (flat n))
          (best_first-taken s b price id ids m fill_qty o w stands),
      ap length (flat_rest price ids m),
      length-append ids (flat m),
    )
