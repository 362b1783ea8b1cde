-- ===== src/Engine/Order/Arms.antt =====
-- `handle_order` returns: no `expect` fails and no loop runs on.
use cex_rs.Base.{
  ℕ, ◌+◌, ◌<◌, ◌≡◌, refl, sym, subst, ◌≢◌, String, Bool, true, false, not, ◌&&◌, Option, none, some,
  List, arith, ltb, ◌==◌, nat_eq, string_eq, if◌then◌else◌, Outcome, done, Option-cases, Bool-cases,
  inl, inr,
}
use cex_rs.Base.Int.{ℤ, pos, negsuc, is_pos, to_u64}
use cex_rs.Base.Text.{to_lowercase}
use cex_rs.Base.Word.{u64_mod, add64}
use cex_rs.Shared.Fees.{calc_taker_fee}
use cex_rs.Shared.Requests.{OrderMsg, limit, market}
use cex_rs.Book.Types.{bid, ask}
use cex_rs.Book.Orders.{is_fok}
use cex_rs.Engine.State.{EngineState}
use cex_rs.Engine.Outputs.{Output}
use cex_rs.Engine.Fill.Totals.{SameTotals}
use cex_rs.Engine.Fill.Conserved.{FairFees}
use cex_rs.Engine.Order.{handle_order, place_order, is_supported, parse_side, request}
use cex_rs.Engine.Order.Conserved.{handle_order-SameTotals}
use cex_rs.Engine.Order.Limit.{limit_order, lock_order}
use cex_rs.Engine.Order.Market.{
  Floats, finish_sell, sell_within, finish_buy, buy_within, market_sell, market_buy, fillable_sell,
  quote_buy,
}
use cex_rs.Engine.Order.Ready.{
  IsReady, lock_usd-IsReady, lock_asset-IsReady, unlock_usd-IsReady, unlock_asset-IsReady,
  settle_results-IsReady, lock_order-IsReady, reconcile-IsReady,
}
use cex_rs.Engine.Order.Settle.{Order, Handled, unsettled, lock_usd, lock_asset}
use cex_rs.Engine.Order.Returns.{
  HasNext, place_limit-returns, place_market-returns, lock_usd-next, lock_asset-next,
  lock_order-next,
}

-- An arm of the handler that comes to an end.
abbrev Ends : Outcome Handled → Type 0
Ends x = (h : Handled) × (x ≡ done h) × IsReady h.state

if-Ends : (c : Bool) (x y : Outcome Handled) → Ends x → Ends y → Ends (if c then x else y)
if-Ends true x y a b = a
if-Ends false x y a b = b

when-Ends :
    (c : Bool) (x y : Outcome Handled) → Ends x → Ends y → Ends (elim c [ false ↦ x | true ↦ y ])
when-Ends true x y a b = b
when-Ends false x y a b = a

unless-Ends :
    (c : Option String) (x : String → Outcome Handled) (y : Outcome Handled)
    → ((e : String) → Ends (x e))
    → Ends y
    → Ends (elim c [ some e ↦ x e | none ↦ y ])
unless-Ends none x y a b = b
unless-Ends (some e) x y a b = a e

positive : (x : ℤ) → not (is_pos x) ≡ false → to_u64 x ≢ 0
positive (pos n) h e = ground arith
positive (negsuc n) h e = ground arith

module _ (publisher : Bool) (o : Order) (s : EngineState) (r : IsReady s) (room : HasNext s)
    (supported : is_supported o.asset ≡ true) (some_qty : o.qty ≢ 0) where
  limit_order-Ends : (price : ℤ) → Ends (limit_order publisher o price s)
  unfolding limit_order
  limit_order-Ends price = elim (Bool-cases (not (is_pos price))) [
    | inl e ↦ rw e (_, refl, r)
    | inr e ↦
        let s1 = (lock_order o (to_u64 price) s).0 in
        let r1 = lock_order-IsReady o (to_u64 price) s r in
        let room1 = subst (λ n. n + 1 < u64_mod) (sym (lock_order-next o (to_u64 price) s)) room in
        let (p, placed, r2) =
          place_limit-returns o s1 r1 room1 supported some_qty (to_u64 price) (positive price e) in
        rw e (
          unless-Ends (lock_order o (to_u64 price) s).1 _ _ (λ m. (_, refl, r1))
            (rw placed (
              _,
              refl,
              reconcile-IsReady o _ _ (settle_results-IsReady publisher o p.1 (unsettled p.0) r2),
            )))
  ]

  finish_sell-Ends :
      (worst_price : Option ℕ) (s1 : EngineState)
      → IsReady s1
      → HasNext s1
      → Ends (finish_sell publisher o worst_price s1)
  unfolding finish_sell
  finish_sell-Ends worst_price s1 r1 room1 =
      let (p, placed, r2) = place_market-returns o s1 r1 room1 supported some_qty worst_price in
      rw placed (
        _,
        refl,
        unlock_asset-IsReady o.user_id _ _
            (settle_results-IsReady publisher o p.1 (unsettled p.0) r2) o.asset,
      )

  finish_buy-Ends :
      (worst_price : Option ℕ) (amount : ℕ) (s1 : EngineState)
      → IsReady s1
      → HasNext s1
      → Ends (finish_buy publisher o worst_price amount s1)
  unfolding finish_buy
  finish_buy-Ends worst_price amount s1 r1 room1 =
      let (p, placed, r2) = place_market-returns o s1 r1 room1 supported some_qty worst_price in
      rw placed (
        _,
        refl,
        unlock_usd-IsReady o.user_id _ _
            (settle_results-IsReady publisher o p.1 (unsettled p.0) r2),
      )

  sell_within-Ends : (worst_price : Option ℕ) → Ends (sell_within publisher o worst_price s)
  unfolding sell_within
  sell_within-Ends worst_price =
      let r1 = lock_asset-IsReady o.user_id o.qty s r o.asset in
      if-Ends (is_fok o.time_in_force && ltb (fillable_sell o worst_price s) o.qty) _ _ (_, refl, r)
        (when-Ends (lock_asset o.user_id o.asset o.qty s).1 _ _ (_, refl, r1)
          (finish_sell-Ends worst_price _ r1
            (subst (λ n. n + 1 < u64_mod) (sym (lock_asset-next o.user_id o.asset o.qty s)) room)))

  buy_within-Ends : (worst_price : Option ℕ) → Ends (buy_within publisher o worst_price s)
  unfolding buy_within
  buy_within-Ends worst_price =
      let amount =
        add64 (quote_buy o worst_price s).0
          (calc_taker_fee s.fee_schedule (quote_buy o worst_price s).0) in
      let r1 = lock_usd-IsReady o.user_id amount s r in
      if-Ends (is_fok o.time_in_force && ltb (quote_buy o worst_price s).1 o.qty) _ _ (_, refl, r)
        (if-Ends ((quote_buy o worst_price s).1 == 0) _ _ (_, refl, r)
          (when-Ends (lock_usd o.user_id amount s).1 _ _ (_, refl, r1)
            (finish_buy-Ends worst_price amount _ r1
              (subst (λ n. n + 1 < u64_mod) (sym (lock_usd-next o.user_id amount s)) room))))

module _ (floats : Floats) (publisher : Bool) (msg : OrderMsg floats.F) (s : EngineState)
    (r : IsReady s) (room : HasNext s) where
  abbrev pub Finishes : Outcome (EngineState × List Output) → Type 0
  Finishes x = (s' : EngineState) × (outputs : List Output) × (x ≡ done (s', outputs)) × IsReady s'

  place_order-Finishes :
      (o : Order)
      → is_supported o.asset ≡ true
      → o.qty ≢ 0
      → Finishes (place_order floats publisher msg o s)
  unfolding place_order
  place_order-Finishes o supported some_qty =
      let (h, ends, r') : Ends (elim msg.order_type [
        | limit ↦ limit_order publisher o msg.price s
        | market ↦ elim o.side [
          | ask ↦ market_sell floats publisher o msg.price msg.slippage_pct s
          | bid ↦ market_buy floats publisher o msg.price msg.slippage_pct s
        ]
      ]) =
        elim msg.order_type
          as (λ k. Ends (elim k [
            | limit ↦ limit_order publisher o msg.price s
            | market ↦ elim o.side [
              | ask ↦ market_sell floats publisher o msg.price msg.slippage_pct s
              | bid ↦ market_buy floats publisher o msg.price msg.slippage_pct s
            ]
          ])) [
            | limit ↦ limit_order-Ends publisher o s r room supported some_qty msg.price
            | market ↦
                elim o.side
                  as (λ u. Ends (elim u [
                    | ask ↦ market_sell floats publisher o msg.price msg.slippage_pct s
                    | bid ↦ market_buy floats publisher o msg.price msg.slippage_pct s
                  ])) [
                    | ask ↦ sell_within-Ends publisher o s r room supported some_qty _
                    | bid ↦ buy_within-Ends publisher o s r room supported some_qty _
                  ]
          ] in
      rw ends (h.state, _, refl, r')

  pub handle_order-Finishes : Finishes (handle_order floats publisher msg s)
  unfolding handle_order
  handle_order-Finishes = elim (Bool-cases (not (is_supported (to_lowercase msg.asset)))) [
    | inl e ↦ rw e (s, _, refl, r)
    | inr e ↦ elim (Option-cases (parse_side msg.side)) [
      | inl f ↦ rw (e, f) (s, _, refl, r)
      | inr (side, f) ↦ elim (Bool-cases (not (is_pos msg.qty))) [
        | inl g ↦ rw (e, f, g) (s, _, refl, r)
        | inr g ↦
            rw (e, f, g)
              (place_order-Finishes (request floats (to_lowercase msg.asset) side msg)
                (ground arith) (positive msg.qty g))
      ]
    ]
  ]

-- From a state in which every book is consistent, does not cross and has none of the identifiers
-- that are yet to be given, whose counter of identifiers plus one is below 2 ^ 64, and in which no
-- fee is above 10,000 basis points, an order is handled without a panic. The books of the state that
-- it leaves are such again, and it changes neither the sum of all USD balances nor that of any
-- asset, up to the wrap-around of the arithmetic.
pub handle_order-returns :
    (floats : Floats) (publisher : Bool) (msg : OrderMsg floats.F) (s : EngineState)
    → IsReady s
    → HasNext s
    → FairFees s.fee_schedule
    → (s' : EngineState) × (outputs : List Output) × (handle_order floats publisher msg s
        ≡ done (s', outputs))
      × IsReady s'
      × SameTotals s s'
handle_order-returns floats publisher msg s r room fair =
    let (s', outputs, e, r') = handle_order-Finishes floats publisher msg s r room in
    (s', outputs, e, r', handle_order-SameTotals floats publisher msg s s' outputs fair e)
