-- ===== src/Book/Loop/Pass.antt =====
-- A pass through the inner loop keeps what matching will come to.
use mathlib.Core.List.{append_assoc, append-nil}
use cex_rs.Base.{
  ℕ, ◌-◌, ◌<◌, ◌≤◌, ◌≡◌, refl, ap, inl, inr, Bool, true, false, some, List, ◌∷◌, ◌++◌, arith,
  nat_beq, nat_eq,
}
use cex_rs.Base.HashMap
use cex_rs.Base.HashMap.{HashMap}
use cex_rs.Book.Types.{Order, trade}
use cex_rs.Book.State.{opposite, best_first}
use cex_rs.Book.Matching.{Taker, Progress, make_trade, fill_maker, resting_count}
use cex_rs.Book.Best.{Levels}
use cex_rs.Book.View.{flat, orders_of}
use cex_rs.Book.WellFormed.{IsWellFormed}
use cex_rs.Book.Fill.{taken, after_fill}
use cex_rs.Book.Priority.{trade_with, fill_queue-full, fill_queue-partial, fill_queue-idle}
use cex_rs.Book.Resting.Front.{
  levels-fill_maker, resting-front, resting-taken, resting-filled, resting-taken_other,
  resting-filled_other, taken-IsWellFormed, fill_maker-IsWellFormed, resting_count-taken,
  taken-none_added, filled-none_added,
}
use cex_rs.Book.Loop.{completed, Runs, own-ne-opposite}

module _ (t : Taker) (crosses : ℕ → Bool) (price id : ℕ) (ids : List ℕ) (m : Levels) (p : Progress)
    (o : Order) (w : IsWellFormed p.book)
    (stands : best_first (opposite t.side) p.book ≡ (price, record { orders = id ∷ ids }) ∷ m)
    (present : HashMap.get id p.book.orders ≡ some o) (side : o.side ≡ opposite t.side)
    (filed : o.order_id ≡ id) (priced : o.price ≡ price)
    (wanted : nat_beq p.remaining_qty 0 ≡ false) (suits : crosses price ≡ true) where
  same_trade : (qty : ℕ) → trade (make_trade t price id o qty) ≡ trade_with t o qty
  same_trade qty = rw (← priced, ← filed)

  suits' : crosses o.price ≡ true
  suits' = rw priced suits

  full_outcome :
      o.remaining_qty ≤ p.remaining_qty
      → completed t crosses (
          after_fill t price id ids p o present o.remaining_qty
            (taken (opposite t.side) price id ids o.remaining_qty o p.book))
        ≡ completed t crosses p
  full_outcome h = rw (
    resting-taken (opposite t.side) p.book price id ids m o w stands present side o.remaining_qty,
    resting-front (opposite t.side) p.book price id ids m o w stands present side,
    fill_queue-full t crosses p.remaining_qty o (orders_of p.book.orders (ids ++ flat m)) wanted
        suits' h,
    same_trade o.remaining_qty,
    append_assoc,
  )

  partial_outcome :
      p.remaining_qty < o.remaining_qty
      → completed t crosses (
          after_fill t price id ids p o present p.remaining_qty
            (fill_maker id p.remaining_qty o p.book))
        ≡ completed t crosses p
  partial_outcome h =
      let left : p.remaining_qty - p.remaining_qty ≡ 0 = omega arith in
      rw (
        resting-filled (opposite t.side) p.book price id ids m o w stands present side
            p.remaining_qty,
        resting-front (opposite t.side) p.book price id ids m o w stands present side,
        fill_queue-partial t crosses p.remaining_qty o (orders_of p.book.orders (ids ++ flat m))
            wanted suits' h,
        left,
        fill_queue-idle t crosses 0 _ _ refl,
        same_trade p.remaining_qty,
        append-nil,
      )

  pub full_pass :
      o.remaining_qty ≤ p.remaining_qty
      → Runs t crosses p (
          after_fill t price id ids p o present o.remaining_qty
            (taken (opposite t.side) price id ids o.remaining_qty o p.book))
  full_pass h = record {
    well_formed =
        taken-IsWellFormed (opposite t.side) p.book price id ids m o w stands present side
          o.remaining_qty;
    same_outcome = full_outcome h;
    same_side =
        resting-taken_other (opposite t.side) p.book price id ids m o w stands present side
          o.remaining_qty t.side (own-ne-opposite t.side);
    none_added =
        taken-none_added (opposite t.side) p.book price id ids m o w stands present side
          o.remaining_qty;
    shrinks = omega (
      arith,
      resting_count-taken (opposite t.side) p.book price id ids m o w stands present side
          o.remaining_qty,
    );
    progress = inr (
        omega (
          arith,
          resting_count-taken (opposite t.side) p.book price id ids m o w stands present side
              o.remaining_qty,
        ));
  }

  pub partial_pass :
      p.remaining_qty < o.remaining_qty
      → Runs t crosses p (
          after_fill t price id ids p o present p.remaining_qty
            (fill_maker id p.remaining_qty o p.book))
  partial_pass h = record {
    well_formed =
        fill_maker-IsWellFormed (opposite t.side) p.book price id ids m o w stands present side
          p.remaining_qty h;
    same_outcome = partial_outcome h;
    same_side =
        resting-filled_other (opposite t.side) p.book price id ids m o w stands present side
          p.remaining_qty t.side (own-ne-opposite t.side);
    none_added =
        filled-none_added (opposite t.side) p.book price id ids m o w stands present side
          p.remaining_qty;
    shrinks =
        omega (
          arith,
          ap resting_count (levels-fill_maker (opposite t.side) id p.remaining_qty o p.book),
        );
    progress = inl (omega arith);
  }
