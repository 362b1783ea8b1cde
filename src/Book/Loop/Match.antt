-- ===== src/Book/Loop/Match.antt =====
-- The outer loop: with enough fuel it ends where nothing is wanted or nothing suits.
use mathlib.Core.List.{reverse, reverse-reverse}
use cex_rs.Base.{
  ℕ, zero, suc, ◌<◌, ◌≤◌, ◌≡◌, refl, ap, ◌∙◌, sym, ◌⊎◌, inl, inr, Bool, true, false, none, some,
  List, [], ◌∷◌, arith, nat_beq, nat_eq, length, length-append, done, Bool-cases,
}
use cex_rs.Base.BTreeMap
use cex_rs.Book.Types.{Side, bid, ask, Order}
use cex_rs.Book.State.{Orderbook, levels, opposite, best_first, best_bid, best_ask}
use cex_rs.Book.Matching.{Taker, Progress, consume_level, match_loop, best_opposite, resting_count}
use cex_rs.Book.Best.{Levels, top, best}
use cex_rs.Book.View.{flat, orders_of, resting}
use cex_rs.Book.WellFormed.{IsWellFormed}
use cex_rs.Book.Fill.{front_order}
use cex_rs.Book.Priority.{fill_queue, unmatched, fill_queue-idle, fill_queue-refused}
use cex_rs.Book.Resting.{length-best_first}
use cex_rs.Book.Resting.Front.{resting-front}
use cex_rs.Book.Loop.{completed, Runs, NoneAdded}
use cex_rs.Book.Loop.Consume.{consume_level-Runs}

-- A run to the end: nothing is left to match.
pub record Ends (t : Taker) (crosses : ℕ → Bool) (p q : Progress) : Type 0 where
  pub well_formed : IsWellFormed q.book
  pub same_outcome : completed t crosses q ≡ completed t crosses p
  pub same_side : resting t.side q.book ≡ resting t.side p.book
  pub none_added : NoneAdded p.book q.book
  pub finished :
      fill_queue t crosses q.remaining_qty (resting (opposite t.side) q.book)
      ≡ unmatched q.remaining_qty (resting (opposite t.side) q.book)

abbrev Matches : ℕ → Taker → (ℕ → Bool) → Progress → Type 0
Matches fuel t crosses p =
    (q : Progress) × (match_loop fuel t crosses p ≡ done q) × Ends t crosses p q

best_opposite-best : (s : Side) (b : Orderbook) → best_opposite s b ≡ best (opposite s) b
best_opposite-best bid b = refl
best_opposite-best ask b = refl

best-none : (s : Side) (b : Orderbook) → best_first s b ≡ [] → best s b ≡ none
unfolding best_bid best_ask BTreeMap.first_key BTreeMap.last_key
best-none bid b e =
    let none_left : b.bids ≡ [] = sym (reverse-reverse b.bids) ∙ ap reverse e in rw none_left
best-none ask b e = rw e

pub fill_queue-done :
    (t : Taker) (crosses : ℕ → Bool) (qty : ℕ) (queue : List Order)
    → nat_beq qty 0 ≡ true
    → fill_queue t crosses qty queue ≡ unmatched qty queue
unfolding fill_queue
fill_queue-done t crosses qty [] h = refl
fill_queue-done t crosses qty (o ∷ queue) h = fill_queue-idle t crosses qty o queue h

module _ (t : Taker) (crosses : ℕ → Bool) (p : Progress) where
  pub Ends-refl :
      IsWellFormed p.book
      → fill_queue t crosses p.remaining_qty (resting (opposite t.side) p.book)
        ≡ unmatched p.remaining_qty (resting (opposite t.side) p.book)
      → Ends t crosses p p
  Ends-refl w f = record {
    well_formed = w;
    same_outcome = refl;
    same_side = refl;
    none_added = λ j h. h;
    finished = f;
  }

  Runs-Ends : (q r : Progress) → Runs t crosses p q → Ends t crosses q r → Ends t crosses p r
  Runs-Ends q r a b = record {
    well_formed = b.well_formed;
    same_outcome = b.same_outcome ∙ a.same_outcome;
    same_side = b.same_side ∙ a.same_side;
    none_added = λ j h. b.none_added j (a.none_added j h);
    finished = b.finished;
  }

-- A front order whose price does not suit ends the matching.
refuse :
    (t : Taker) (crosses : ℕ → Bool) (p : Progress) (price id : ℕ) (ids : List ℕ) (m : Levels)
    → IsWellFormed p.book
    → best_first (opposite t.side) p.book ≡ (price, record { orders = id ∷ ids }) ∷ m
    → BTreeMap.get price (levels (opposite t.side) p.book) ≡ some (record { orders = id ∷ ids })
    → crosses price ≡ false
    → fill_queue t crosses p.remaining_qty (resting (opposite t.side) p.book)
      ≡ unmatched p.remaining_qty (resting (opposite t.side) p.book)
refuse t crosses p price id ids m w stands get_is refused =
    let (o, present, priced, side, filed, left) =
      front_order (opposite t.side) price id ids p.book w get_is in
    let front = resting-front (opposite t.side) p.book price id ids m o w stands present side in
    let no : crosses o.price ≡ false = rw priced refused in
    rw front (fill_queue-refused t crosses p.remaining_qty o _ no)

module _ (fuel : ℕ) (t : Taker) (crosses : ℕ → Bool) (p : Progress) where
  match_idle : nat_beq p.remaining_qty 0 ≡ true → match_loop (suc fuel) t crosses p ≡ done p
  unfolding match_loop
  match_idle h = ground arith

  module _ (wanted : nat_beq p.remaining_qty 0 ≡ false) where
    match_empty : best_opposite t.side p.book ≡ none → match_loop (suc fuel) t crosses p ≡ done p
    unfolding match_loop
    match_empty h = ground arith

    match_refused :
        (price : ℕ)
        → best_opposite t.side p.book ≡ some price
        → crosses price ≡ false
        → match_loop (suc fuel) t crosses p ≡ done p
    unfolding match_loop
    match_refused price h k = ground arith

    match_next :
        (price : ℕ) (q : Progress)
        → best_opposite t.side p.book ≡ some price
        → crosses price ≡ true
        → consume_level (suc fuel) t price p ≡ done q
        → match_loop (suc fuel) t crosses p ≡ match_loop fuel t crosses q
    unfolding match_loop
    match_next price q h k e = ground arith

    -- The recursive calls, as a hypothesis.
    module _ (w : IsWellFormed p.book)
        (enough : resting_count (levels (opposite t.side) p.book) ≤ fuel)
        (later : (q : Progress)
          → IsWellFormed q.book
          → ((q.remaining_qty ≡ 0) × (0 < fuel))
            ⊎ (resting_count (levels (opposite t.side) q.book) < fuel)
          → Matches fuel t crosses q) where
      match_level :
          (price : ℕ) (ids : List ℕ) (m : Levels)
          → best_first (opposite t.side) p.book ≡ (price, record { orders = ids }) ∷ m
          → Matches (suc fuel) t crosses p
      unfolding flat
      match_level price [] m stands = absurd (
          w.full (opposite t.side) price _
            (top (opposite t.side) p.book price _ m (w.sorted (opposite t.side)) stands).get_is
            refl)
      match_level price (id ∷ ids) m stands =
          let at = top (opposite t.side) p.book price _ m (w.sorted (opposite t.side)) stands in
          let offered = best_opposite-best t.side p.book ∙ at.best_is in
          let room : length ids < resting_count (levels (opposite t.side) p.book) = omega (
            arith,
            length-best_first (opposite t.side) p.book,
            ap (λ (n : Levels). length (flat n)) stands,
            length-append ids (flat m),
          ) in
          elim (Bool-cases (crosses price)) [
            | inl suits ↦
                let (q, ends, runs) =
                  consume_level-Runs (suc fuel) t crosses price id ids m p (omega arith) w stands
                    suits in
                let (r, finishes, more) = later q runs.well_formed (omega arith) in
                (
                  r,
                  match_next price q offered suits ends ∙ finishes,
                  Runs-Ends t crosses p q r runs more,
                )
            | inr refused ↦ (
              p,
              match_refused price offered refused,
              Ends-refl t crosses p w
                  (refuse t crosses p price id ids m w stands at.get_is refused),
            )
          ]

      match_best :
          (n : Levels) → best_first (opposite t.side) p.book ≡ n → Matches (suc fuel) t crosses p
      unfolding resting flat orders_of fill_queue
      match_best [] e = (
        p,
        match_empty (best_opposite-best t.side p.book ∙ best-none (opposite t.side) p.book e),
        Ends-refl t crosses p w (rw e),
      )
      match_best ((price, l) ∷ m) e = match_level price l.orders m e

pub match_loop-Ends :
    (fuel : ℕ) (t : Taker) (crosses : ℕ → Bool) (p : Progress)
    → IsWellFormed p.book
    → ((p.remaining_qty ≡ 0) × (0 < fuel))
      ⊎ (resting_count (levels (opposite t.side) p.book) < fuel)
    → Matches fuel t crosses p
match_loop-Ends zero t crosses p w enough = absurd (omega arith)
match_loop-Ends (suc fuel) t crosses p w enough = elim (Bool-cases (nat_beq p.remaining_qty 0)) [
  | inl idle ↦ (
    p,
    match_idle fuel t crosses p idle,
    Ends-refl t crosses p w (fill_queue-done t crosses _ _ idle),
  )
  | inr wanted ↦
      match_best fuel t crosses p wanted w (ground arith) (match_loop-Ends fuel t crosses)
        (best_first (opposite t.side) p.book) refl
]
