-- ===== src/Engine/Order/Silent.antt =====
-- What `handle_order` does to the state does not depend on whether it publishes.
use cex_rs.Base.{
  ℕ, ◌-◌, ◌≡◌, refl, ap, ◌∙◌, sym, String, Bool, true, false, not, ◌&&◌, Option, none, some, List,
  [], ◌∷◌, ltb, ◌==◌, nat_eq, if◌then◌else◌, Outcome, done, panic, hang, ◌>>=◌, Bool-cases,
  Option-cases, inl, inr,
}
use cex_rs.Base.Int.{ℤ, is_pos, to_u64}
use cex_rs.Base.Text.{to_lowercase}
use cex_rs.Base.Word.{add64, sub64}
use cex_rs.Shared.Fees.{calc_taker_fee}
use cex_rs.Shared.Requests.{OrderMsg, limit, market}
use cex_rs.Book.Types.{bid, ask, Trade, MatchResult, trade, order_accepted}
use cex_rs.Book.Orders.{is_fok}
use cex_rs.Engine.State.{EngineState}
use cex_rs.Engine.Outputs.{Output}
use cex_rs.Engine.Order.{handle_order, place_order, is_supported, parse_side, request}
use cex_rs.Engine.Order.Limit.{limit_order, lock_order, place_limit, reconcile, total_lock}
use cex_rs.Engine.Order.Market.{
  Floats, place_market, finish_sell, sell_within, finish_buy, buy_within, fillable_sell, quote_buy,
}
use cex_rs.Engine.Order.Settle.{
  Order, Handled, Settlement, settle_trade, settle_results, unsettled, lock_usd, lock_asset,
  unlock_usd, unlock_asset,
}

-- A settlement without what it sent.
abbrev silent : Settlement → Settlement
silent r = record r { outputs = [] }

settle_trade-silent :
    (p p' : Bool) (o : Order) (t : Trade) (r r' : Settlement)
    → silent r ≡ silent r'
    → silent (settle_trade p o t r) ≡ silent (settle_trade p' o t r')
unfolding settle_trade
settle_trade-silent p p' o t r r' e = ap (λ u. silent (settle_trade false o t u)) e

settle_results-silent :
    (p p' : Bool) (o : Order) (results : List MatchResult) (r r' : Settlement)
    → silent r ≡ silent r'
    → silent (settle_results p o results r) ≡ silent (settle_results p' o results r')
unfolding settle_results
settle_results-silent p p' o [] r r' e = e
settle_results-silent p p' o (trade t ∷ results) r r' e =
    settle_results-silent p p' o results _ _ (settle_trade-silent p p' o t r r' e)
settle_results-silent p p' o (order_accepted a ∷ results) r r' e =
    settle_results-silent p p' o results _ _
      (ap (λ (u : Settlement). record u { resting_order = some a }) e)

-- The states that two runs of an arm leave.
abbrev Agree : Outcome Handled → Outcome Handled → Type 0
Agree x y = (x >>= λ h. done h.state) ≡ (y >>= λ h. done h.state)

if-Agree :
    (c : Bool) (x y x' y' : Outcome Handled)
    → Agree x x'
    → Agree y y'
    → Agree (if c then x else y) (if c then x' else y')
if-Agree true x y x' y' a b = a
if-Agree false x y x' y' a b = b

when-Agree :
    (c : Bool) (x y x' y' : Outcome Handled)
    → Agree x x'
    → Agree y y'
    → Agree (elim c [ false ↦ x | true ↦ y ]) (elim c [ false ↦ x' | true ↦ y' ])
when-Agree true x y x' y' a b = b
when-Agree false x y x' y' a b = a

unless-Agree :
    (c : Option String) (x x' : String → Outcome Handled) (y y' : Outcome Handled)
    → ((e : String) → Agree (x e) (x' e))
    → Agree y y'
    → Agree (elim c [ some e ↦ x e | none ↦ y ]) (elim c [ some e ↦ x' e | none ↦ y' ])
unless-Agree none x x' y y' a b = b
unless-Agree (some e) x x' y y' a b = a e

bind-Agree :
    {A : Type 0} (x : Outcome A) (f g : A → Outcome Handled)
    → ((a : A) → Agree (f a) (g a))
    → Agree (x >>= f) (x >>= g)
bind-Agree (done a) f g h = h a
bind-Agree panic f g h = refl
bind-Agree hang f g h = refl

module _ (o : Order) (s : EngineState) where
  settled_state :
      (f : Settlement → EngineState)
      → ((r : Settlement) → f r ≡ f (silent r))
      → (s' : EngineState) (results : List MatchResult)
      → f (settle_results true o results (unsettled s'))
        ≡ f (settle_results false o results (unsettled s'))
  settled_state f h s' results =
      h _
      ∙ ap f (settle_results-silent true false o results (unsettled s') (unsettled s') refl)
      ∙ sym (h _)

  limit_order-Agree : (price : ℤ) → Agree (limit_order true o price s) (limit_order false o price s)
  unfolding limit_order reconcile
  limit_order-Agree price = if-Agree (not (is_pos price)) _ _ _ _ refl (
      unless-Agree (lock_order o (to_u64 price) s).1 _ _ _ _ (λ e. refl)
        (bind-Agree (place_limit o (to_u64 price) (lock_order o (to_u64 price) s).0) _ _ (λ r.
          ap done (
            settled_state (reconcile o (total_lock s.fee_schedule (to_u64 price) o.qty)) (λ r. refl)
              r.0 r.1))))

  finish_sell-Agree :
      (worst_price : Option ℕ) (s1 : EngineState)
      → Agree (finish_sell true o worst_price s1) (finish_sell false o worst_price s1)
  unfolding finish_sell
  finish_sell-Agree worst_price s1 = bind-Agree (place_market o worst_price s1) _ _ (λ r. ap done (
      settled_state (λ r. unlock_asset o.user_id o.asset (sub64 o.qty r.filled_qty) r.state)
        (λ r. refl) r.0 r.1))

  finish_buy-Agree :
      (worst_price : Option ℕ) (amount : ℕ) (s1 : EngineState)
      → Agree (finish_buy true o worst_price amount s1) (finish_buy false o worst_price amount s1)
  unfolding finish_buy
  finish_buy-Agree worst_price amount s1 = bind-Agree (place_market o worst_price s1) _ _ (λ r.
      ap done
        (settled_state (λ r. unlock_usd o.user_id (amount - r.spent) r.state) (λ r. refl) r.0 r.1))

  sell_within-Agree :
      (worst_price : Option ℕ)
      → Agree (sell_within true o worst_price s) (sell_within false o worst_price s)
  unfolding sell_within
  sell_within-Agree worst_price =
      if-Agree (is_fok o.time_in_force && ltb (fillable_sell o worst_price s) o.qty) _ _ _ _ refl (
        when-Agree (lock_asset o.user_id o.asset o.qty s).1 _ _ _ _ refl
          (finish_sell-Agree worst_price _))

  buy_within-Agree :
      (worst_price : Option ℕ)
      → Agree (buy_within true o worst_price s) (buy_within false o worst_price s)
  unfolding buy_within
  buy_within-Agree worst_price =
      let amount =
        add64 (quote_buy o worst_price s).0
          (calc_taker_fee s.fee_schedule (quote_buy o worst_price s).0) in
      if-Agree (is_fok o.time_in_force && ltb (quote_buy o worst_price s).1 o.qty) _ _ _ _ refl (
        if-Agree ((quote_buy o worst_price s).1 == 0) _ _ _ _ refl (
          when-Agree (lock_usd o.user_id amount s).1 _ _ _ _ refl
            (finish_buy-Agree worst_price amount _)))

-- The state that an effect leaves.
abbrev pub state_after : Outcome (EngineState × List Output) → Outcome EngineState
state_after x = x >>= λ r. done r.0

module _ (floats : Floats) (msg : OrderMsg floats.F) (s : EngineState) where
  finished-state :
      (x : Outcome Handled) (out : Handled → List Output)
      → state_after (x >>= λ h. done (h.state, out h)) ≡ (x >>= λ h. done h.state)
  finished-state (done h) out = refl
  finished-state panic out = refl
  finished-state hang out = refl

  place_order-silent :
      (o : Order)
      → state_after (place_order floats true msg o s)
        ≡ state_after (place_order floats false msg o s)
  unfolding place_order
  place_order-silent o =
      elim msg.order_type
        as (λ k.
          state_after (place_order floats true (record msg { order_type = k }) o s)
          ≡ state_after (place_order floats false (record msg { order_type = k }) o s)) [
            | limit ↦
                finished-state _ _ ∙ limit_order-Agree o s msg.price ∙ sym (finished-state _ _)
            | market ↦
                elim o.side
                  as (λ u.
                    state_after (
                      place_order floats true (record msg { order_type = market })
                        (record o { side = u }) s)
                    ≡ state_after (
                        place_order floats false (record msg { order_type = market })
                          (record o { side = u }) s)) [
                            | ask ↦
                                finished-state _ _
                                ∙ sell_within-Agree (record o { side = ask }) s _
                                ∙ sym (finished-state _ _)
                            | bid ↦
                                finished-state _ _
                                ∙ buy_within-Agree (record o { side = bid }) s _
                                ∙ sym (finished-state _ _)
                          ]
          ]

  pub handle_order-silent :
      state_after (handle_order floats true msg s) ≡ state_after (handle_order floats false msg s)
  unfolding handle_order
  handle_order-silent = elim (Bool-cases (not (is_supported (to_lowercase msg.asset)))) [
    | inl e ↦ rw e
    | inr e ↦ elim (Option-cases (parse_side msg.side)) [
      | inl f ↦ rw (e, f)
      | inr (side, f) ↦ elim (Bool-cases (not (is_pos msg.qty))) [
        | inl g ↦ rw (e, f, g)
        | inr g ↦
            rw (e, f, g) (place_order-silent (request floats (to_lowercase msg.asset) side msg))
      ]
    ]
  ]
