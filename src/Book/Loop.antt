-- ===== src/Book/Loop.antt =====
-- The matching loops refine the queue discipline of `Book.Priority`: on a well-formed book they
-- end, never panic, and leave what `fill_queue` leaves.
pub mod Pass
pub mod Consume
pub mod Match
use mathlib.Core.List.{append_assoc, append-nil}
use cex_rs.Base.{
  ℕ, zero, suc, ◌+◌, ◌-◌, ◌<◌, ◌≤◌, ◌≡◌, refl, ap, ◌∙◌, sym, subst, ◌≢◌, ◌⊎◌, inl, inr, Bool, true,
  false, not, Option, none, some, List, [], ◌∷◌, ◌++◌, arith, nat_beq, nat_eq, leb, is_empty,
  length, Outcome, done, Bool-cases, Option-cases, ◌==◌, ◌>>=◌, head?,
}
use cex_rs.Base.HashMap
use cex_rs.Base.HashMap.{HashMap}
use cex_rs.Base.BTreeMap
use cex_rs.Book.Types.{Side, bid, ask, Order, trade}
use cex_rs.Book.State.{
  PriceLevel, Orderbook, levels, set_levels, opposite, best_first, best_bid, best_ask,
}
use cex_rs.Book.Matching.{
  Taker, Progress, make_trade, fill_maker, fill_front, front_at, consume_level, match_loop,
  best_opposite, resting_count,
}
use cex_rs.Book.Best.{Levels, Top, top, best}
use cex_rs.Book.View.{flat, queue_at, orders_of, resting}
use cex_rs.Book.WellFormed.{IsWellFormed}
use cex_rs.Book.Fill.{taken, after_fill, front_order, fill_front_full, fill_front_partial}
use cex_rs.Book.Priority.{
  Matched, fill_queue, trade_with, fill_queue-full, fill_queue-partial, fill_queue-idle,
  fill_queue-refused,
}
use cex_rs.Book.Resting.{best_first-taken}
use cex_rs.Book.Resting.Front.{
  resting-front, resting-taken, resting-filled, resting-taken_other, resting-filled_other,
  taken-IsWellFormed, fill_maker-IsWellFormed, resting_count-taken,
}

-- What matching would come to from here on, beside what it has done.
abbrev pub completed : Taker → (ℕ → Bool) → Progress → Matched
completed t crosses p =
    let rest = fill_queue t crosses p.remaining_qty (resting (opposite t.side) p.book) in
    record {
      trades = p.results ++ rest.trades;
      remaining_qty = rest.remaining_qty;
      queue = rest.queue;
    }

-- An order that the first book does not have is not in the second.
abbrev pub NoneAdded : Orderbook → Orderbook → Type 0
NoneAdded b c = (j : ℕ) → HashMap.get j b.orders ≡ none → HashMap.get j c.orders ≡ none

-- A run of the loops from `p` to `q`.
pub record Runs (t : Taker) (crosses : ℕ → Bool) (p q : Progress) : Type 0 where
  pub well_formed : IsWellFormed q.book
  pub same_outcome : completed t crosses q ≡ completed t crosses p
  pub same_side : resting t.side q.book ≡ resting t.side p.book
  pub none_added : NoneAdded p.book q.book
  pub shrinks :
      resting_count (levels (opposite t.side) q.book)
      ≤ resting_count (levels (opposite t.side) p.book)
  pub progress :
      (q.remaining_qty ≡ 0)
      ⊎ (resting_count (levels (opposite t.side) q.book)
          < resting_count (levels (opposite t.side) p.book))

pub own-ne-opposite : (s : Side) → s ≢ opposite s
own-ne-opposite bid = λ e. cc
own-ne-opposite ask = λ e. cc

pub Runs-refl :
    (t : Taker) (crosses : ℕ → Bool) (p : Progress)
    → IsWellFormed p.book
    → p.remaining_qty ≡ 0
    → Runs t crosses p p
Runs-refl t crosses p w e = record {
  well_formed = w;
  same_outcome = refl;
  same_side = refl;
  none_added = λ j h. h;
  shrinks = omega arith;
  progress = inl e;
}

pub Runs-trans :
    (t : Taker) (crosses : ℕ → Bool) (p q r : Progress)
    → Runs t crosses p q
    → Runs t crosses q r
    → Runs t crosses p r
Runs-trans t crosses p q r a b = record {
  well_formed = b.well_formed;
  same_outcome = b.same_outcome ∙ a.same_outcome;
  same_side = b.same_side ∙ a.same_side;
  none_added = λ j h. b.none_added j (a.none_added j h);
  shrinks = omega arith;
  progress = omega arith;
}
