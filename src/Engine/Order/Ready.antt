-- ===== src/Engine/Order/Ready.antt =====
-- A state in which the next order can be placed, and the steps of `handle_order` that keep it.
use cex_rs.Base.{
  ℕ, ◌≤◌, ◌≡◌, refl, ◌∙◌, sym, subst, String, Bool, true, false, not, none, some, List, [], ◌∷◌,
  arith, ltb, ◌==◌, nat_eq, string_eq, if◌then◌else◌, Bool-cases, inl, inr,
}
use cex_rs.Base.HashMap
use cex_rs.Base.Text.{to_lowercase}
use cex_rs.Shared.Balance.{Balance}
use cex_rs.Book.Types.{bid, ask, Trade, MatchResult, trade, order_accepted}
use cex_rs.Book.State.{Orderbook}
use cex_rs.Book.Orders.Spread.{IsUncrossed}
use cex_rs.Book.WellFormed.{IsWellFormed}
use cex_rs.Book.Orders.{is_gtc}
use cex_rs.Engine.State.{EngineState, usd_mut, symbol_mut, asset_mut, get_orderbook, set_orderbook}
use cex_rs.Engine.Fill.{lock, unlock, apply_fill}
use cex_rs.Engine.Order.{is_supported}
use cex_rs.Engine.Order.Limit.{lock_order, reconcile, total_lock}
use cex_rs.Engine.Order.Settle.{
  Order, lock_usd, lock_asset, unlock_usd, unlock_asset, Settlement, settle_trade, settle_results,
}

-- A consistent book that does not cross, without the identifiers that are yet to be given.
pub record BookReady (next : ℕ) (b : Orderbook) : Type 0 where
  pub well_formed : IsWellFormed b
  pub uncrossed : IsUncrossed b
  pub unused : (id : ℕ) → next ≤ id → HashMap.get id b.orders ≡ none

pub record IsReady (s : EngineState) : Type 0 where
  pub sol : BookReady s.next_order_id s.sol_orderbook
  pub btc : BookReady s.next_order_id s.btc_orderbook
  pub eth : BookReady s.next_order_id s.eth_orderbook

pub get_orderbook-BookReady :
    (asset : String) (s : EngineState) (b : Orderbook)
    → IsReady s
    → get_orderbook asset s ≡ some b
    → BookReady s.next_order_id b
unfolding get_orderbook
get_orderbook-BookReady asset s b r e = elim (Bool-cases (to_lowercase asset == "sol")) [
  | inl p ↦ subst (BookReady s.next_order_id) (some_inj (sym (rw p refl) ∙ e)) r.sol
  | inr p ↦ elim (Bool-cases (to_lowercase asset == "btc")) [
    | inl q ↦ subst (BookReady s.next_order_id) (some_inj (sym (rw (p, q) refl) ∙ e)) r.btc
    | inr q ↦ elim (Bool-cases (to_lowercase asset == "eth")) [
      | inl t ↦ subst (BookReady s.next_order_id) (some_inj (sym (rw (p, q, t) refl) ∙ e)) r.eth
      | inr t ↦ absurd (ground (arith, p, q, t, e))
    ]
  ]
]
  where
    some_inj : {x y : Orderbook} → some x ≡ some y → x ≡ y
    some_inj h = cc

if-IsReady : (c : Bool) (x y : EngineState) → IsReady x → IsReady y → IsReady (if c then x else y)
if-IsReady true x y a b = a
if-IsReady false x y a b = b

pub set_orderbook-IsReady :
    (asset : String) (b : Orderbook) (s : EngineState)
    → IsReady s
    → BookReady s.next_order_id b
    → IsReady (set_orderbook asset b s)
unfolding set_orderbook
set_orderbook-IsReady asset b s r k =
    if-IsReady (to_lowercase asset == "sol") _ _ (record { sol = k; btc = r.btc; eth = r.eth })
      (if-IsReady (to_lowercase asset == "btc") _ _ (record { sol = r.sol; btc = k; eth = r.eth })
        (if-IsReady (to_lowercase asset == "eth") _ s (record { sol = r.sol; btc = r.btc; eth = k })
          r))

-- A supported asset has a book.
pub supported-book :
    (asset : String) (s : EngineState)
    → is_supported asset ≡ true
    → (b : Orderbook) × (get_orderbook asset s ≡ some b)
unfolding is_supported get_orderbook to_lowercase
supported-book asset s h = elim (Bool-cases (asset == "sol")) [
  | inl p ↦
      subst (λ a. (b : Orderbook) × (get_orderbook a s ≡ some b))
        (sym ((string_eq.agree asset "sol").0 p)) (s.sol_orderbook, refl)
  | inr p ↦ elim (Bool-cases (asset == "btc")) [
    | inl q ↦
        subst (λ a. (b : Orderbook) × (get_orderbook a s ≡ some b))
          (sym ((string_eq.agree asset "btc").0 q)) (s.btc_orderbook, refl)
    | inr q ↦
        subst (λ a. (b : Orderbook) × (get_orderbook a s ≡ some b))
          (sym ((string_eq.agree asset "eth").0 (ground (arith, p, q, h)))) (s.eth_orderbook, refl)
  ]
]

-- Balances play no part.
pub usd_mut-IsReady :
    (user_id : ℕ) (f : Balance → Balance) (s : EngineState)
    → IsReady s
    → IsReady (usd_mut user_id f s)
unfolding usd_mut
usd_mut-IsReady user_id f s r = record { sol = r.sol; btc = r.btc; eth = r.eth }

pub asset_mut-IsReady :
    (user_id : ℕ) (asset : String) (f : Balance → Balance) (s : EngineState)
    → IsReady s
    → IsReady (asset_mut user_id asset f s)
unfolding asset_mut symbol_mut
asset_mut-IsReady user_id asset f s r = record { sol = r.sol; btc = r.btc; eth = r.eth }

if_pair-IsReady :
    (c : Bool) (x y : EngineState × Bool)
    → IsReady x.0
    → IsReady y.0
    → IsReady (if c then x else y).0
if_pair-IsReady true x y a b = a
if_pair-IsReady false x y a b = b

module _ (user_id amount : ℕ) (s : EngineState) (r : IsReady s) where
  pub lock_usd-IsReady : IsReady (lock_usd user_id amount s).0
  unfolding lock_usd
  lock_usd-IsReady =
      if_pair-IsReady _ (usd_mut user_id (λ b. b) s, false) (usd_mut user_id (lock amount) s, true)
        (usd_mut-IsReady user_id (λ b. b) s r) (usd_mut-IsReady user_id (lock amount) s r)

  pub lock_asset-IsReady : (asset : String) → IsReady (lock_asset user_id asset amount s).0
  unfolding lock_asset
  lock_asset-IsReady asset =
      if_pair-IsReady _ (asset_mut user_id asset (λ b. b) s, false)
        (asset_mut user_id asset (lock amount) s, true)
        (asset_mut-IsReady user_id asset (λ b. b) s r)
        (asset_mut-IsReady user_id asset (lock amount) s r)

  pub unlock_usd-IsReady : IsReady (unlock_usd user_id amount s)
  unfolding unlock_usd
  unlock_usd-IsReady = if-IsReady (ltb 0 amount) _ s (usd_mut-IsReady user_id (unlock amount) s r) r

  pub unlock_asset-IsReady : (asset : String) → IsReady (unlock_asset user_id asset amount s)
  unfolding unlock_asset
  unlock_asset-IsReady asset =
      if-IsReady (ltb 0 amount) _ s (asset_mut-IsReady user_id asset (unlock amount) s r) r

apply_fill-IsReady :
    (s : EngineState) (asset : String) (t : Trade) → IsReady s → IsReady (apply_fill s asset t).0
unfolding apply_fill
apply_fill-IsReady s asset t r =
    let r4 = usd_mut-IsReady t.seller _ _ (
      asset_mut-IsReady t.seller asset _ _
        (asset_mut-IsReady t.buyer asset _ _ (usd_mut-IsReady t.buyer _ s r))) in
    if-IsReady _ _ _ (usd_mut-IsReady 0 _ _ r4) r4

settle_trade-IsReady :
    (publisher : Bool) (o : Order) (t : Trade) (l : Settlement)
    → IsReady l.state
    → IsReady (settle_trade publisher o t l).state
unfolding settle_trade
settle_trade-IsReady publisher o t l r = apply_fill-IsReady l.state o.asset t r

pub settle_results-IsReady :
    (publisher : Bool) (o : Order) (results : List MatchResult) (l : Settlement)
    → IsReady l.state
    → IsReady (settle_results publisher o results l).state
unfolding settle_results
settle_results-IsReady publisher o [] l r = r
settle_results-IsReady publisher o (trade t ∷ results) l r =
    settle_results-IsReady publisher o results (settle_trade publisher o t l)
      (settle_trade-IsReady publisher o t l r)
settle_results-IsReady publisher o (order_accepted acc ∷ results) l r =
    settle_results-IsReady publisher o results (record l { resting_order = some acc }) r

pub lock_order-IsReady :
    (o : Order) (price : ℕ) (s : EngineState) → IsReady s → IsReady (lock_order o price s).0
unfolding lock_order
lock_order-IsReady o price s r =
    elim o.side as (λ u. IsReady (lock_order (record o { side = u }) price s).0) [
      | bid ↦ lock_usd-IsReady o.user_id (total_lock s.fee_schedule price o.qty) s r
      | ask ↦ lock_asset-IsReady o.user_id o.qty s r o.asset
    ]

pub reconcile-IsReady :
    (o : Order) (amount : ℕ) (l : Settlement) → IsReady l.state → IsReady (reconcile o amount l)
unfolding reconcile
reconcile-IsReady o amount l r =
    elim o.side as (λ u. IsReady (reconcile (record o { side = u }) amount l)) [
      | bid ↦ unlock_usd-IsReady o.user_id _ l.state r
      | ask ↦
          if-IsReady (not (is_gtc o.time_in_force)) _ l.state
            (unlock_asset-IsReady o.user_id _ l.state r o.asset) r
    ]
