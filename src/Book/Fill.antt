-- ===== src/Book/Fill.antt =====
-- One pass through the inner loop: what `fill_front` does to a well-formed book.
use cex_rs.Base.{
  ℕ, ◌-◌, ◌<◌, ◌≤◌, ◌≡◌, refl, ◌∙◌, min, true, false, not, ◌&&◌, none, some, List, [], ◌∷◌, ◌++◌,
  arith, nat_eq, if◌then◌else◌, is_empty, nat_beq, done, Option-cases, inl, inr, ◌>>=◌, expect,
}
use cex_rs.Base.HashMap
use cex_rs.Base.BTreeMap
use cex_rs.Base.BTreeMap.Sorted.{IsSorted, insert-IsSorted, remove-IsSorted}
use cex_rs.Book.Types.{Side, bid, ask, Order, trade}
use cex_rs.Book.State.{Orderbook, levels, set_levels, opposite}
use cex_rs.Book.Matching.{
  Taker, Progress, make_trade, fill_maker, pop_maker, drop_level, maker_done, settle_maker,
  fill_front,
}
use cex_rs.Book.WellFormed.{IsWellFormed, Removed, level_of, side_beq, side_beq_iff}

-- The order at the front of a queue is in the map, at the queue's side and price.
pub front_order :
    (s : Side) (price id : ℕ) (ids : List ℕ) (b : Orderbook)
    → IsWellFormed b
    → BTreeMap.get price (levels s b) ≡ some (record { orders = id ∷ ids })
    → (o : Order) × (HashMap.get id b.orders ≡ some o)
      × (o.price ≡ price)
      × (o.side ≡ s)
      × (o.order_id ≡ id)
      × (0 < o.remaining_qty)
front_order s price id ids b w e = elim (Option-cases (HashMap.get id b.orders)) [
  | inl missing ↦ absurd (ground (arith, w.indexed s price id))
  | inr (o, present) ↦ (
    o,
    present,
    ground (arith, w.indexed s price id),
    ground (arith, w.indexed s price id, side_beq_iff s o.side),
    (w.live id o present).1,
    (w.live id o present).0,
  )
]

-- The book after the maker `id` was filled with `fill_qty` and has left its queue.
abbrev pub popped : Side → ℕ → ℕ → List ℕ → ℕ → Order → Orderbook → Orderbook
popped s price id rest fill_qty o b =
    set_levels s (BTreeMap.insert price (record { orders = rest }) (levels s b)) (record b {
      orders =
          HashMap.remove id
            (HashMap.insert id (record o { remaining_qty = o.remaining_qty - fill_qty }) b.orders);
    })

abbrev pub taken : Side → ℕ → ℕ → List ℕ → ℕ → Order → Orderbook → Orderbook
taken s price id [] fill_qty o b =
    set_levels s
      (BTreeMap.remove price (BTreeMap.insert price (record { orders = [] }) (levels s b)))
      (popped s price id [] fill_qty o b)
taken s price id (x ∷ xs) fill_qty o b = popped s price id (x ∷ xs) fill_qty o b

pop_maker_lem :
    (s : Side) (price id : ℕ) (ids : List ℕ) (fill_qty : ℕ) (o : Order) (b : Orderbook)
    → BTreeMap.get price (levels s b) ≡ some (record { orders = id ∷ ids })
    → pop_maker s price id (fill_maker id fill_qty o b)
      ≡ done (popped s price id ids fill_qty o b, is_empty ids)
unfolding pop_maker fill_maker
pop_maker_lem bid price id ids fill_qty o b e = rw e
pop_maker_lem ask price id ids fill_qty o b e = rw e

drop_level_lem :
    (s : Side) (price id fill_qty : ℕ) (o : Order) (b : Orderbook)
    → drop_level s price (popped s price id [] fill_qty o b) ≡ taken s price id [] fill_qty o b
unfolding drop_level
drop_level_lem bid price id fill_qty o b = refl
drop_level_lem ask price id fill_qty o b = refl

module _ (price id : ℕ) (fill_qty : ℕ) (o : Order) (b : Orderbook) (w : IsWellFormed b) where
  taken-IsSorted :
      (s u : Side) (ids : List ℕ) → IsSorted (levels u (taken s price id ids fill_qty o b))
  taken-IsSorted bid bid [] =
      remove-IsSorted _ price (insert-IsSorted b.bids price _ (w.sorted bid))
  taken-IsSorted ask ask [] =
      remove-IsSorted _ price (insert-IsSorted b.asks price _ (w.sorted ask))
  taken-IsSorted bid bid (x ∷ xs) = insert-IsSorted b.bids price _ (w.sorted bid)
  taken-IsSorted ask ask (x ∷ xs) = insert-IsSorted b.asks price _ (w.sorted ask)
  taken-IsSorted bid ask [] = w.sorted ask
  taken-IsSorted bid ask (x ∷ xs) = w.sorted ask
  taken-IsSorted ask bid [] = w.sorted bid
  taken-IsSorted ask bid (x ∷ xs) = w.sorted bid

  taken-level :
      (s u : Side) (ids : List ℕ) (q : ℕ)
      → BTreeMap.get q (levels u (taken s price id ids fill_qty o b))
        ≡ (if side_beq u s && nat_beq q price then level_of ids else BTreeMap.get q (levels u b))
  taken-level bid bid [] q = simp (BTreeMap.get-remove, BTreeMap.get-insert) (ground arith)
  taken-level ask ask [] q = simp (BTreeMap.get-remove, BTreeMap.get-insert) (ground arith)
  taken-level bid bid (x ∷ xs) q = BTreeMap.get-insert q price _ b.bids
  taken-level ask ask (x ∷ xs) q = BTreeMap.get-insert q price _ b.asks
  taken-level bid ask [] q = refl
  taken-level bid ask (x ∷ xs) q = refl
  taken-level ask bid [] q = refl
  taken-level ask bid (x ∷ xs) q = refl

  taken-orders :
      (s : Side) (ids : List ℕ) (j : ℕ)
      → HashMap.get j (taken s price id ids fill_qty o b).orders
        ≡ (if nat_beq j id then none else HashMap.get j b.orders)
  taken-orders bid [] j = simp (HashMap.get-remove, HashMap.get-insert) (ground arith)
  taken-orders ask [] j = simp (HashMap.get-remove, HashMap.get-insert) (ground arith)
  taken-orders bid (x ∷ xs) j = simp (HashMap.get-remove, HashMap.get-insert) (ground arith)
  taken-orders ask (x ∷ xs) j = simp (HashMap.get-remove, HashMap.get-insert) (ground arith)

  pub taken-Removed :
      (s : Side) (ids : List ℕ) → Removed s price id ids b (taken s price id ids fill_qty o b)
  taken-Removed s ids = record {
    sorted = λ u. taken-IsSorted s u ids;
    level = λ u. taken-level s u ids;
    orders = taken-orders s ids;
  }

maker_done_lem :
    (id fill_qty : ℕ) (o : Order) (b : Orderbook)
    → maker_done id (fill_maker id fill_qty o b) ≡ nat_beq (o.remaining_qty - fill_qty) 0
unfolding maker_done fill_maker
maker_done_lem id fill_qty o b = ground (
  arith,
  HashMap.get-insert id id (record o { remaining_qty = o.remaining_qty - fill_qty }) b.orders,
)

-- The two ends of a fill.
settle_kept :
    (t : Taker) (price id : ℕ) (p : Progress)
    → maker_done id p.book ≡ false
    → settle_maker t price id p ≡ done (p, false)
unfolding settle_maker
settle_kept t price id p h = rw (h, settle_maker)

settle_taken :
    (t : Taker) (price id : ℕ) (ids : List ℕ) (fill_qty : ℕ) (o : Order) (b : Orderbook)
    (p : Progress)
    → p.book ≡ fill_maker id fill_qty o b
    → maker_done id p.book ≡ true
    → BTreeMap.get price (levels (opposite t.side) b) ≡ some (record { orders = id ∷ ids })
    → settle_maker t price id p
      ≡ done (
        record p { book = taken (opposite t.side) price id ids fill_qty o b },
        not (is_empty ids),
      )
unfolding settle_maker
settle_taken t price id [] fill_qty o b p eq h e = ground (
  arith,
  pop_maker_lem (opposite t.side) price id [] fill_qty o b e,
  drop_level_lem (opposite t.side) price id fill_qty o b,
)
settle_taken t price id (x ∷ xs) fill_qty o b p eq h e =
    ground (arith, pop_maker_lem (opposite t.side) price id (x ∷ xs) fill_qty o b e)

module _ (t : Taker) (price id : ℕ) (ids : List ℕ) (p : Progress) (o : Order)
    (present : HashMap.get id p.book.orders ≡ some o) where
  -- The variables after a fill of `fill_qty`, but for the book.
  abbrev pub after_fill : ℕ → Orderbook → Progress
  after_fill fill_qty b = record {
    book = b;
    remaining_qty = p.remaining_qty - fill_qty;
    results = p.results ++ trade (make_trade t price id o fill_qty) ∷ [];
  }

  -- A maker with no more than what is wanted is filled and leaves the book.
  pub fill_front_full :
      BTreeMap.get price (levels (opposite t.side) p.book) ≡ some (record { orders = id ∷ ids })
      → o.remaining_qty ≤ p.remaining_qty
      → fill_front t price id p
        ≡ done (
          after_fill o.remaining_qty
              (taken (opposite t.side) price id ids o.remaining_qty o p.book),
          not (is_empty ids),
        )
  unfolding fill_front
  fill_front_full e h =
      let least : min p.remaining_qty o.remaining_qty ≡ o.remaining_qty = omega arith in
      rw (present, ◌>>=◌, expect, least)
        (settle_taken t price id ids o.remaining_qty o p.book _ refl
          (maker_done_lem id o.remaining_qty o p.book ∙ ground arith) e)

  -- A larger maker is filled in part, and the order is done.
  pub fill_front_partial :
      p.remaining_qty < o.remaining_qty
      → fill_front t price id p
        ≡ done (after_fill p.remaining_qty (fill_maker id p.remaining_qty o p.book), false)
  unfolding fill_front
  fill_front_partial h =
      let least : min p.remaining_qty o.remaining_qty ≡ p.remaining_qty = omega arith in
      rw (present, ◌>>=◌, expect, least)
        (settle_kept t price id _ (maker_done_lem id p.remaining_qty o p.book ∙ ground arith))
