-- ===== src/Book/Loop/Consume.antt =====
-- The inner loop: the level at the best price is consumed in order of arrival.
use cex_rs.Base.{
  ℕ, zero, suc, ◌<◌, ◌≡◌, refl, ◌∙◌, inl, inr, Bool, true, false, not, some, List, [], ◌∷◌, arith,
  nat_beq, nat_eq, leb, is_empty, length, done, Bool-cases,
}
use cex_rs.Base.HashMap
use cex_rs.Base.HashMap.{HashMap}
use cex_rs.Base.BTreeMap
use cex_rs.Book.Types.{Order}
use cex_rs.Book.State.{PriceLevel, levels, opposite, best_first}
use cex_rs.Book.Matching.{Taker, Progress, fill_front, front_at, consume_level}
use cex_rs.Book.Best.{Levels, top}
use cex_rs.Book.WellFormed.{IsWellFormed}
use cex_rs.Book.Fill.{front_order, fill_front_full, fill_front_partial}
use cex_rs.Book.Resting.{best_first-taken}
use cex_rs.Book.Loop.{Runs, Runs-refl, Runs-trans}
use cex_rs.Book.Loop.Pass.{full_pass, partial_pass}

module _ (fuel : ℕ) (t : Taker) (price : ℕ) (p : Progress) where
  consume_idle : nat_beq p.remaining_qty 0 ≡ true → consume_level (suc fuel) t price p ≡ done p
  unfolding consume_level
  consume_idle h = ground arith

  module _ (id : ℕ) (q : Progress) (wanted : nat_beq p.remaining_qty 0 ≡ false)
      (front : front_at price (levels (opposite t.side) p.book) ≡ some id) where
    consume_next :
        fill_front t price id p ≡ done (q, true)
        → consume_level (suc fuel) t price p ≡ consume_level fuel t price q
    unfolding consume_level
    consume_next h = ground arith

    consume_last :
        fill_front t price id p ≡ done (q, false) → consume_level (suc fuel) t price p ≡ done q
    unfolding consume_level
    consume_last h = ground arith

front_at_lem :
    (price id : ℕ) (ids : List ℕ) (n : BTreeMap.BTreeMap PriceLevel)
    → BTreeMap.get price n ≡ some (record { orders = id ∷ ids })
    → front_at price n ≡ some id
unfolding front_at
front_at_lem price id ids n e = ground arith

-- What a call of the inner loop comes to.
abbrev Consumes : ℕ → Taker → (ℕ → Bool) → ℕ → Progress → Type 0
Consumes fuel t crosses price p =
    (q : Progress) × (consume_level fuel t price p ≡ done q) × Runs t crosses p q

module _ (fuel : ℕ) (t : Taker) (crosses : ℕ → Bool) (price id : ℕ) (m : Levels) (p : Progress)
    (w : IsWellFormed p.book) (suits : crosses price ≡ true)
    (wanted : nat_beq p.remaining_qty 0 ≡ false) where
  module _ (ids : List ℕ)
      (stands : best_first (opposite t.side) p.book
        ≡ (price, record { orders = id ∷ ids }) ∷ m) where
    abbrev at_front :
        BTreeMap.get price (levels (opposite t.side) p.book) ≡ some (record { orders = id ∷ ids })
    at_front = (top (opposite t.side) p.book price _ m (w.sorted (opposite t.side)) stands).get_is

    abbrev Rest : Type 0
    Rest =
        (q : Progress)
        → Runs t crosses p q
        → fill_front t price id p ≡ done (q, not (is_empty ids))
        → best_first (opposite t.side) q.book
          ≡ (elim ids [ [] ↦ m | x ∷ xs ↦ (price, record { orders = x ∷ xs }) ∷ m ])
        → Consumes (suc fuel) t crosses price p

    -- A maker that stays ends the loop; otherwise the rest of the level is left.
    consume_front : Rest → Consumes (suc fuel) t crosses price p
    consume_front rest = go (leb o.remaining_qty p.remaining_qty) refl
      where
        found :
            (o : Order) × (HashMap.get id p.book.orders ≡ some o)
            × (o.price ≡ price)
            × (o.side ≡ opposite t.side)
            × (o.order_id ≡ id)
            × (0 < o.remaining_qty)
        found = front_order (opposite t.side) price id ids p.book w at_front

        o : Order
        o = found.0

        go :
            (b : Bool)
            → leb o.remaining_qty p.remaining_qty ≡ b
            → Consumes (suc fuel) t crosses price p
        go true e =
            rest _
              (full_pass t crosses price id ids m p o w stands found.1 found.3 found.4 found.2
                wanted suits (ground arith))
              (fill_front_full t price id ids p o found.1 at_front (ground arith))
              (best_first-taken (opposite t.side) p.book price id ids m o.remaining_qty o w stands)
        go false e = (
          _,
          consume_last fuel t price p id _ wanted (front_at_lem price id ids _ at_front)
              (fill_front_partial t price id ids p o found.1 (ground arith)),
          partial_pass t crosses price id ids m p o w stands found.1 found.3 found.4 found.2 wanted
              suits (ground arith),
        )

pub consume_level-Runs :
    (fuel : ℕ) (t : Taker) (crosses : ℕ → Bool) (price id : ℕ) (ids : List ℕ) (m : Levels)
    (p : Progress)
    → length ids < fuel
    → IsWellFormed p.book
    → best_first (opposite t.side) p.book ≡ (price, record { orders = id ∷ ids }) ∷ m
    → crosses price ≡ true
    → Consumes fuel t crosses price p
consume_level-Runs zero t crosses price id ids m p h w stands suits = absurd (omega arith)
consume_level-Runs (suc fuel) t crosses price id [] m p h w stands suits =
    elim (Bool-cases (nat_beq p.remaining_qty 0)) [
      | inl idle ↦ (p, consume_idle fuel t price p idle, Runs-refl t crosses p w (ground arith))
      | inr wanted ↦
          consume_front fuel t crosses price id m p w suits wanted [] stands λ q runs filled _. (
            q,
            consume_last fuel t price p id q wanted
                (front_at_lem price id [] _
                  (at_front fuel t crosses price id m p w suits wanted [] stands))
                filled,
            runs,
          )
    ]
consume_level-Runs (suc fuel) t crosses price id (x ∷ xs) m p h w stands suits =
    elim (Bool-cases (nat_beq p.remaining_qty 0)) [
      | inl idle ↦ (p, consume_idle fuel t price p idle, Runs-refl t crosses p w (ground arith))
      | inr wanted ↦
          consume_front fuel t crosses price id m p w suits wanted (x ∷ xs) stands
            λ q runs filled left.
              let (r, ends, more) =
                consume_level-Runs fuel t crosses price x xs m q (omega arith) runs.well_formed left
                  suits in
              (
                r,
                consume_next fuel t price p id q wanted
                      (front_at_lem price id (x ∷ xs) _
                        (at_front fuel t crosses price id m p w suits wanted (x ∷ xs) stands))
                      filled
                    ∙ ends,
                Runs-trans t crosses p q r runs more,
              )
    ]
