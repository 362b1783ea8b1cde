-- ===== src/Book/WellFormed.antt =====
-- When an order book is consistent: the levels and the map of orders say the same.
use cex_rs.Base.{
  ℕ, ◌+◌, ◌<◌, ◌≡◌, refl, ◌≢◌, ◌↔◌, Bool, true, false, ◌&&◌, Option, none, some, List, [], ◌∷◌,
  arith, nat_eq, if◌then◌else◌, count, nat_beq,
}
use cex_rs.Base.HashMap
use cex_rs.Base.BTreeMap
use cex_rs.Base.BTreeMap.Sorted.{IsSorted}
use cex_rs.Book.Types.{Side, bid, ask, Order}
use cex_rs.Book.State.{PriceLevel, Orderbook, levels}
use cex_rs.Book.View.{queue_at}

abbrev pub side_beq : Side → Side → Bool
side_beq bid bid = true
side_beq bid ask = false
side_beq ask bid = false
side_beq ask ask = true

pub side_beq_iff : (s t : Side) → (side_beq s t ≡ true) ↔ (s ≡ t)
side_beq_iff bid bid = ground arith
side_beq_iff bid ask = ground arith
side_beq_iff ask bid = ground arith
side_beq_iff ask ask = ground arith

-- How often an order stands in the queue at price `p` of side `s`: once if it belongs there.
abbrev pub holds : Side → ℕ → Option Order → ℕ
holds s p none = 0
holds s p (some o) = if side_beq s o.side && nat_beq o.price p then 1 else 0

pub record IsWellFormed (b : Orderbook) : Type 0 where
  -- The keys of both maps ascend.
  pub sorted : (s : Side) → IsSorted (levels s b)
  -- No level is empty.
  pub full :
      (s : Side) (p : ℕ) (l : PriceLevel) → BTreeMap.get p (levels s b) ≡ some l → l.orders ≢ []
  -- An order of the map stands once in the queue of its side and price and in no other, and a
  -- queue holds nothing else.
  pub indexed :
      (s : Side) (p id : ℕ)
      → count id (queue_at p (levels s b)) ≡ holds s p (HashMap.get id b.orders)
  -- An order has something left and is filed under its own identifier.
  pub live :
      (id : ℕ) (o : Order)
      → HashMap.get id b.orders ≡ some o
      → (0 < o.remaining_qty) × (o.order_id ≡ id)

-- The queue `ids` as a level, if it is not empty.
abbrev pub level_of : List ℕ → Option PriceLevel
level_of [] = none
level_of (id ∷ ids) = some (record { orders = id ∷ ids })

queue-level_of :
    (ids : List ℕ) → (elim (level_of ids) [ none ↦ [] | some level ↦ level.orders ]) ≡ ids
queue-level_of [] = refl
queue-level_of (id ∷ ids) = refl

-- The order `id` has left the queue at `p` of side `s`, where `rest` remain.
pub record Removed (s : Side) (p id : ℕ) (rest : List ℕ) (b c : Orderbook) : Type 0 where
  pub sorted : (u : Side) → IsSorted (levels u c)
  pub level :
      (u : Side) (q : ℕ)
      → BTreeMap.get q (levels u c)
        ≡ (if side_beq u s && nat_beq q p then level_of rest else BTreeMap.get q (levels u b))
  pub orders :
      (j : ℕ) → HashMap.get j c.orders ≡ (if nat_beq j id then none else HashMap.get j b.orders)

module _ (s : Side) (p id : ℕ) (queue rest : List ℕ) (b c : Orderbook) (o : Order)
    (w : IsWellFormed b) (present : HashMap.get id b.orders ≡ some o)
    (stands : BTreeMap.get p (levels s b) ≡ some (record { orders = queue }))
    (split : (j : ℕ) → count j queue ≡ count j rest + (if nat_beq j id then 1 else 0))
    (r : Removed s p id rest b c) where
  belongs : holds s p (some o) ≡ 1
  belongs = ground (arith, w.indexed s p id, split id)

  gone : count id rest ≡ 0
  gone = ground (arith, w.indexed s p id, split id)

  queue_after :
      (u : Side) (q : ℕ)
      → queue_at q (levels u c)
        ≡ (if side_beq u s && nat_beq q p then rest else queue_at q (levels u b))
  queue_after u q = ground (arith, r.level u q, queue-level_of rest)

  indexed_after :
      (u : Side) (q j : ℕ) → count j (queue_at q (levels u c)) ≡ holds u q (HashMap.get j c.orders)
  indexed_after u q j =
      rw (queue_after u q, r.orders j)
        (ground (
          arith,
          belongs,
          gone,
          split j,
          stands,
          w.indexed u q j,
          w.indexed u q id,
          side_beq_iff u s,
          side_beq_iff o.side s,
          side_beq_iff s o.side,
          side_beq_iff u o.side,
        ))

  pub Removed-IsWellFormed : IsWellFormed c
  Removed-IsWellFormed = record {
    sorted = r.sorted;
    full = λ u q l e. ground (arith, r.level u q, w.full u q l);
    indexed = indexed_after;
    live = λ j x e. w.live j x (ground (arith, r.orders j));
  }
