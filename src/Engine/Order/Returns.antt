-- ===== src/Engine/Order/Returns.antt =====
-- Placing an order in its book returns: no `expect` fails and no loop runs on.
use cex_rs.Base.{
  ℕ, suc, ◌+◌, ◌≤◌, ◌<◌, ◌≡◌, refl, ◌≢◌, String, true, Option, List, arith, nat_eq, string_eq, done,
}
use cex_rs.Base.Word.{u64_mod, add64}
use cex_rs.Book.Types.{bid, ask, MatchResult}
use cex_rs.Book.Orders.Uncrossed.{add_order_with_id-kept, execute_market_order_with_id-kept}
use cex_rs.Engine.State.{
  EngineState, usd_mut, symbol_mut, asset_mut, set_orderbook, next_order_id, get_orderbook,
}
use cex_rs.Engine.Order.{is_supported}
use cex_rs.Engine.Order.Limit.{lock_order, place_limit, total_lock}
use cex_rs.Engine.Order.Market.{place_market}
use cex_rs.Engine.Order.Ready.{
  BookReady, IsReady, get_orderbook-BookReady, set_orderbook-IsReady, supported-book,
}
use cex_rs.Engine.Order.Settle.{Order, lock_usd, lock_asset}

-- The counter does not run over.
abbrev pub HasNext : EngineState → Type 0
HasNext s = s.next_order_id + 1 < u64_mod

later :
    (n m : ℕ) (s : EngineState)
    → n ≤ m
    → IsReady s
    → s.next_order_id ≡ n
    → IsReady (record s { next_order_id = m })
later n m s h r e = record { sol = next r.sol; btc = next r.btc; eth = next r.eth }
  where
    next : {b : _} → BookReady s.next_order_id b → BookReady m b
    next k = record {
      well_formed = k.well_formed;
      uncrossed = k.uncrossed;
      unused = λ id g. k.unused id (omega arith);
    }

next_order_id-IsReady : (s : EngineState) → IsReady s → HasNext s → IsReady (next_order_id s).0
unfolding next_order_id
next_order_id-IsReady s r room =
    later s.next_order_id (add64 s.next_order_id 1) s (omega arith) r refl

next_id :
    (s : EngineState)
    → HasNext s
    → ((next_order_id s).0.next_order_id ≡ suc (next_order_id s).1)
      × ((next_order_id s).1 ≡ s.next_order_id)
unfolding next_order_id
next_id s room = (omega arith, refl)

get_orderbook-next :
    (asset : String) (s : EngineState)
    → get_orderbook asset (next_order_id s).0 ≡ get_orderbook asset s
unfolding get_orderbook next_order_id
get_orderbook-next asset s = refl

module _ (o : Order) (s : EngineState) (r : IsReady s) (room : HasNext s)
    (supported : is_supported o.asset ≡ true) (some_qty : o.qty ≢ 0) where
  pub place_limit-returns :
      (price : ℕ)
      → price ≢ 0
      → (p : EngineState × List MatchResult) × (place_limit o price s ≡ done p) × IsReady p.0
  unfolding place_limit
  place_limit-returns price some_price =
      let id = (next_order_id s).1 in
      let (book, found) = supported-book o.asset s supported in
      let k = get_orderbook-BookReady o.asset s book r found in
      let (after, before) = next_id s room in
      let (c, results, added, adds, u, w) =
        add_order_with_id-kept id o.user_id o.side price o.qty o.time_in_force book k.well_formed
          k.uncrossed (k.unused id (omega arith)) some_price some_qty in
      (
        (set_orderbook o.asset c (next_order_id s).0, results),
        rw (get_orderbook-next o.asset s, found, added),
        set_orderbook-IsReady o.asset c (next_order_id s).0 (next_order_id-IsReady s r room)
            (record {
              well_formed = w;
              uncrossed = u;
              unused = λ j g. adds j (omega arith) (k.unused j (omega arith));
            }),
      )

  pub place_market-returns :
      (worst_price : Option ℕ)
      → (p : EngineState × List MatchResult) × (place_market o worst_price s ≡ done p) × IsReady p.0
  unfolding place_market
  place_market-returns worst_price =
      let id = (next_order_id s).1 in
      let (book, found) = supported-book o.asset s supported in
      let k = get_orderbook-BookReady o.asset s book r found in
      let (after, before) = next_id s room in
      let (c, results, executed, adds, u, w) =
        execute_market_order_with_id-kept id o.user_id o.side o.qty worst_price book k.well_formed
          k.uncrossed some_qty in
      (
        (set_orderbook o.asset c (next_order_id s).0, results),
        rw (get_orderbook-next o.asset s, found, executed),
        set_orderbook-IsReady o.asset c (next_order_id s).0 (next_order_id-IsReady s r room)
            (record {
              well_formed = w;
              uncrossed = u;
              unused = λ j g. adds j (k.unused j (omega arith));
            }),
      )

-- Locking gives out no identifier.
pub lock_usd-next :
    (user_id amount : ℕ) (s : EngineState)
    → (lock_usd user_id amount s).0.next_order_id ≡ s.next_order_id
unfolding lock_usd usd_mut
lock_usd-next user_id amount s = ground arith

pub lock_asset-next :
    (user_id : ℕ) (asset : String) (amount : ℕ) (s : EngineState)
    → (lock_asset user_id asset amount s).0.next_order_id ≡ s.next_order_id
unfolding lock_asset asset_mut symbol_mut
lock_asset-next user_id asset amount s = ground arith

pub lock_order-next :
    (o : Order) (price : ℕ) (s : EngineState)
    → (lock_order o price s).0.next_order_id ≡ s.next_order_id
unfolding lock_order
lock_order-next o price s =
    elim o.side
      as (λ u. (lock_order (record o { side = u }) price s).0.next_order_id ≡ s.next_order_id) [
        | bid ↦ lock_usd-next o.user_id (total_lock s.fee_schedule price o.qty) s
        | ask ↦ lock_asset-next o.user_id o.asset o.qty s
      ]
