-- ===== src/Engine/Cancel/Returns.antt =====
-- `handle_cancel` returns, and gives back what was locked.
use cex_rs.Base.{
  ℕ, ◌≡◌, refl, ◌⊎◌, String, Bool, List, arith, nat_eq, Outcome, done, Result, ok, err,
}
use cex_rs.Shared.Requests.{CancelMsg}
use cex_rs.Book.Types.{
  bid, ask, OrderCancelled, OrderbookError, order_not_found, not_order_owner, invalid_price,
  invalid_quantity,
}
use cex_rs.Book.State.{Orderbook}
use cex_rs.Book.Orders.{cancel_order}
use cex_rs.Book.Orders.Cancel.Result.{cancel_order-ends}
use cex_rs.Engine.State.{EngineState}
use cex_rs.Engine.Outputs.{Output}
use cex_rs.Engine.Cancel.{
  Found, or_cancel, cancel_error, cancel_eth, cancel_btc, find_and_cancel, refund_cancelled,
  finish_cancel, handle_cancel,
}
use cex_rs.Engine.Fill.Totals.{SameTotals}
use cex_rs.Engine.Order.Kept.{Keeps, Keeps-trans, usd_mut-Keeps, asset_mut-Keeps, unlock-IsNeutral}
use cex_rs.Engine.Order.Ready.{BookReady, IsReady, usd_mut-IsReady, asset_mut-IsReady}

-- The errors that `handle_cancel` expects.
abbrev IsKnown : Result (OrderCancelled × String) OrderbookError → Type 0
IsKnown (ok c) = Unit {0}
IsKnown (err e) = (e ≡ order_not_found) ⊎ (e ≡ not_order_owner)

abbrev Finds : EngineState → Outcome Found → Type 0
Finds s x =
    (s1 : EngineState) × (res : Result (OrderCancelled × String) OrderbookError) × (x
      ≡ done (s1, res))
    × IsReady s1
    × Keeps s s1
    × IsKnown res

module _ (order_id user_id : ℕ) (s : EngineState) where
  -- One arm, given the rest of the chain.
  or_cancel-Finds :
      (b : Orderbook) (asset : String) (write : Orderbook → EngineState)
      (otherwise : EngineState → Outcome Found) (next : ℕ)
      → BookReady next b
      → ((c : Orderbook) → BookReady next c → IsReady (write c) × Keeps s (write c))
      → ((s' : EngineState) → IsReady s' → Keeps s s' → Finds s (otherwise s'))
      → Finds s (or_cancel (cancel_order order_id user_id b) asset write otherwise)
  or_cancel-Finds b asset write otherwise next k put rest =
      let (c, res, run, none_added, u, w) =
        cancel_order-ends order_id user_id b k.well_formed k.uncrossed in
      let (r, keeps) = put c (record {
        well_formed = w;
        uncrossed = u;
        unused = λ id g. none_added id (k.unused id g);
      }) in
      rw run (finish c res r keeps)
    where
      finish :
          (c : Orderbook) (res : Result OrderCancelled OrderbookError)
          → IsReady (write c)
          → Keeps s (write c)
          → Finds s
              (elim res [ ok x ↦ done (write c, ok (x, asset)) | err e ↦ otherwise (write c) ])
      finish c (ok x) r keeps = (write c, ok (x, asset), refl, r, keeps, tt)
      finish c (err e) r keeps = rest (write c) r keeps

cancel_error-known :
    (s : EngineState) (order_id : ℕ)
    → (cancel_error s order_id ≡ order_not_found) ⊎ (cancel_error s order_id ≡ not_order_owner)
unfolding cancel_error
cancel_error-known s order_id = ground arith

-- Only a book has changed.
books-Keeps :
    (s s' : EngineState)
    → s'.usd_balance ≡ s.usd_balance
    → s'.stock_balance ≡ s.stock_balance
    → s'.fee_schedule ≡ s.fee_schedule
    → Keeps s s'
books-Keeps s s' u a f = record { totals = record { usd = rw u; asset = λ symbol. rw a }; fees = f }

module _ (order_id user_id : ℕ) where
  cancel_eth-Finds :
      (s s1 : EngineState) → IsReady s1 → Keeps s s1 → Finds s (cancel_eth order_id user_id s1)
  unfolding cancel_eth
  cancel_eth-Finds s s1 r k =
      or_cancel-Finds order_id user_id s s1.eth_orderbook "eth"
        (λ b. record s1 { eth_orderbook = b }) (λ s'. done (s', err (cancel_error s' order_id)))
        s1.next_order_id r.eth
        (λ c kc. (
          record { sol = r.sol; btc = r.btc; eth = kc },
          Keeps-trans s s1 _ k (books-Keeps s1 _ refl refl refl),
        ))
        (λ s' r' k'.
          (s', err (cancel_error s' order_id), refl, r', k', cancel_error-known s' order_id))

  cancel_btc-Finds :
      (s s1 : EngineState) → IsReady s1 → Keeps s s1 → Finds s (cancel_btc order_id user_id s1)
  unfolding cancel_btc
  cancel_btc-Finds s s1 r k =
      or_cancel-Finds order_id user_id s s1.btc_orderbook "btc"
        (λ b. record s1 { btc_orderbook = b }) (cancel_eth order_id user_id) s1.next_order_id r.btc
        (λ c kc. (
          record { sol = r.sol; btc = kc; eth = r.eth },
          Keeps-trans s s1 _ k (books-Keeps s1 _ refl refl refl),
        ))
        (cancel_eth-Finds s)

  find_and_cancel-Finds :
      (s : EngineState) → IsReady s → Finds s (find_and_cancel order_id user_id s)
  unfolding find_and_cancel
  find_and_cancel-Finds s r =
      or_cancel-Finds order_id user_id s s.sol_orderbook "sol" (λ b. record s { sol_orderbook = b })
        (cancel_btc order_id user_id) s.next_order_id r.sol
        (λ c kc. (record { sol = kc; btc = r.btc; eth = r.eth }, books-Keeps s _ refl refl refl))
        (cancel_btc-Finds s)

refund-Keeps :
    (c : OrderCancelled) (asset : String) (s : EngineState) → Keeps s (refund_cancelled c asset s)
unfolding refund_cancelled
refund-Keeps c asset s =
    elim c.side as (λ u. Keeps s (refund_cancelled (record c { side = u }) asset s)) [
      | bid ↦ usd_mut-Keeps c.user_id _ s (unlock-IsNeutral _)
      | ask ↦ asset_mut-Keeps c.user_id asset _ s (unlock-IsNeutral _)
    ]

refund-IsReady :
    (c : OrderCancelled) (asset : String) (s : EngineState)
    → IsReady s
    → IsReady (refund_cancelled c asset s)
unfolding refund_cancelled
refund-IsReady c asset s r =
    elim c.side as (λ u. IsReady (refund_cancelled (record c { side = u }) asset s)) [
      | bid ↦ usd_mut-IsReady c.user_id _ s r
      | ask ↦ asset_mut-IsReady c.user_id asset _ s r
    ]

module _ (publisher : Bool) (msg : CancelMsg) (s : EngineState) where
  finish_cancel-returns :
      (s1 : EngineState) (res : Result (OrderCancelled × String) OrderbookError)
      → IsReady s1
      → Keeps s s1
      → IsKnown res
      → (s' : EngineState) × (outputs : List Output) × (finish_cancel publisher msg (s1, res)
          ≡ done (s', outputs))
        × IsReady s'
        × SameTotals s s'
  unfolding finish_cancel
  finish_cancel-returns s1 (ok (c, asset)) r1 k1 known = (
    refund_cancelled c asset s1,
    _,
    refl,
    refund-IsReady c asset s1 r1,
    (Keeps-trans s s1 _ k1 (refund-Keeps c asset s1)).totals,
  )
  finish_cancel-returns s1 (err order_not_found) r1 k1 known = (s1, _, refl, r1, k1.totals)
  finish_cancel-returns s1 (err not_order_owner) r1 k1 known = (s1, _, refl, r1, k1.totals)
  finish_cancel-returns s1 (err invalid_price) r1 k1 known = absurd (ground arith)
  finish_cancel-returns s1 (err invalid_quantity) r1 k1 known = absurd (ground arith)

-- From a state in which every book is consistent, does not cross and has none of the identifiers
-- that are yet to be given, a request to cancel is handled without a panic, whichever book has the
-- order, if any. It leaves such a state, and changes neither the sum of all USD balances nor that
-- of any asset, up to the wrap-around of the arithmetic.
pub handle_cancel-returns :
    (publisher : Bool) (msg : CancelMsg) (s : EngineState)
    → IsReady s
    → (s' : EngineState) × (outputs : List Output) × (handle_cancel publisher msg s
        ≡ done (s', outputs))
      × IsReady s'
      × SameTotals s s'
unfolding handle_cancel
handle_cancel-returns publisher msg s r =
    let (s1, res, found, r1, k1, known) = find_and_cancel-Finds msg.order_id msg.user_id s r in
    rw found (finish_cancel-returns publisher msg s s1 res r1 k1 known)
