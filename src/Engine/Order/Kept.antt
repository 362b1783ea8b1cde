-- ===== src/Engine/Order/Kept.antt =====
-- The steps of `handle_order` keep the totals of all balances.
use cex_rs.Base.{
  ℕ, ◌%◌, ◌≡◌, refl, ap, ◌∙◌, sym, subst, String, Bool, true, false, some, List, [], ◌∷◌, arith,
  ltb, ◌==◌, nat_eq, string_eq, if◌then◌else◌,
}
use cex_rs.Base.HashMap.{get_or}
use cex_rs.Base.Word.{u64_mod}
use cex_rs.Base.Text.{to_lowercase}
use cex_rs.Shared.Balance.{Balance, no_funds}
use cex_rs.Book.Types.{Trade, MatchResult, trade, order_accepted}
use cex_rs.Book.State.{Orderbook}
use cex_rs.Engine.State.{
  EngineState, usd_of, usd_mut, stock_of, symbol_mut, asset_of, asset_mut, set_orderbook,
  next_order_id,
}
use cex_rs.Engine.Fill.{lock, unlock, apply_fill}
use cex_rs.Engine.Fill.Totals.{
  Congruent, SameTotals, SameTotals-refl, SameTotals-trans, usd_mut_lem, asset_mut_lem, worth,
}
use cex_rs.Engine.Fill.Conserved.{
  FairFees, usd_total-symbol_mut, asset_total-usd_mut, apply_fill-SameTotals,
}
use cex_rs.Engine.Order.Settle.{
  Order, lock_usd, lock_asset, unlock_usd, unlock_asset, Settlement, settle_trade, settle_results,
}

-- A step that keeps the totals and the fees.
pub record Keeps (s s' : EngineState) : Type 0 where
  pub totals : SameTotals s s'
  pub fees : s'.fee_schedule ≡ s.fee_schedule

pub Keeps-refl : (s : EngineState) → Keeps s s
Keeps-refl s = record { totals = SameTotals-refl s; fees = refl }

pub Keeps-trans : (s s' s'' : EngineState) → Keeps s s' → Keeps s' s'' → Keeps s s''
Keeps-trans s s' s'' a b = record {
  totals = SameTotals-trans s s' s'' a.totals b.totals;
  fees = b.fees ∙ a.fees;
}

-- A change of one balance that keeps its worth.
abbrev pub IsNeutral : (Balance → Balance) → Type 0
IsNeutral f = (b : Balance) → Congruent (worth (f b)) (worth b)

pub lock-IsNeutral : (amount : ℕ) → IsNeutral (lock amount)
lock-IsNeutral amount b = omega arith

pub unlock-IsNeutral : (amount : ℕ) → IsNeutral (unlock amount)
unlock-IsNeutral amount b = omega arith

fees-usd_mut :
    (user_id : ℕ) (f : Balance → Balance) (s : EngineState)
    → (usd_mut user_id f s).fee_schedule ≡ s.fee_schedule
unfolding usd_mut
fees-usd_mut user_id f s = refl

fees-symbol_mut :
    (user_id : ℕ) (key : String) (f : Balance → Balance) (s : EngineState)
    → (symbol_mut user_id key f s).fee_schedule ≡ s.fee_schedule
unfolding symbol_mut
fees-symbol_mut user_id key f s = refl

pub usd_mut-Keeps :
    (user_id : ℕ) (f : Balance → Balance) (s : EngineState)
    → IsNeutral f
    → Keeps s (usd_mut user_id f s)
usd_mut-Keeps user_id f s n = record {
  totals = record {
    usd = omega (arith, usd_mut_lem user_id f s, n (usd_of user_id s));
    asset = λ symbol. ap (λ x. x % u64_mod) (asset_total-usd_mut symbol user_id f s);
  };
  fees = fees-usd_mut user_id f s;
}

pub symbol_mut-Keeps :
    (user_id : ℕ) (key : String) (f : Balance → Balance) (s : EngineState)
    → IsNeutral f
    → Keeps s (symbol_mut user_id key f s)
symbol_mut-Keeps user_id key f s n = record {
  totals = record {
    usd = ap (λ x. x % u64_mod) (usd_total-symbol_mut user_id key f s);
    asset = λ symbol. ground (
      arith,
      asset_mut_lem symbol user_id key f s,
      string_eq.agree symbol key,
      n (get_or key no_funds (stock_of user_id s)),
    );
  };
  fees = fees-symbol_mut user_id key f s;
}

pub asset_mut-Keeps :
    (user_id : ℕ) (asset : String) (f : Balance → Balance) (s : EngineState)
    → IsNeutral f
    → Keeps s (asset_mut user_id asset f s)
unfolding asset_mut
asset_mut-Keeps user_id asset f s n = symbol_mut-Keeps user_id (to_lowercase asset) f s n

if-Keeps :
    (c : Bool) (s s' s'' : EngineState) → Keeps s s' → Keeps s s'' → Keeps s (if c then s' else s'')
if-Keeps true s s' s'' a b = a
if-Keeps false s s' s'' a b = b

-- The same for a state with a flag.
if_pair-Keeps :
    (c : Bool) (s : EngineState) (x y : EngineState × Bool)
    → Keeps s x.0
    → Keeps s y.0
    → Keeps s (if c then x else y).0
if_pair-Keeps true s x y a b = a
if_pair-Keeps false s x y a b = b

module _ (user_id amount : ℕ) (s : EngineState) where
  pub lock_usd-Keeps : Keeps s (lock_usd user_id amount s).0
  unfolding lock_usd
  lock_usd-Keeps =
      if_pair-Keeps (ltb (usd_of user_id s).available amount) s _ _
        (usd_mut-Keeps user_id (λ b. b) s (λ b. refl))
        (usd_mut-Keeps user_id (lock amount) s (lock-IsNeutral amount))

  pub lock_asset-Keeps : (asset : String) → Keeps s (lock_asset user_id asset amount s).0
  unfolding lock_asset
  lock_asset-Keeps asset =
      if_pair-Keeps (ltb (asset_of user_id asset s).available amount) s _ _
        (asset_mut-Keeps user_id asset (λ b. b) s (λ b. refl))
        (asset_mut-Keeps user_id asset (lock amount) s (lock-IsNeutral amount))

  pub unlock_usd-Keeps : Keeps s (unlock_usd user_id amount s)
  unfolding unlock_usd
  unlock_usd-Keeps =
      if-Keeps (ltb 0 amount) s _ s (usd_mut-Keeps user_id _ s (unlock-IsNeutral amount))
        (Keeps-refl s)

  pub unlock_asset-Keeps : (asset : String) → Keeps s (unlock_asset user_id asset amount s)
  unfolding unlock_asset
  unlock_asset-Keeps asset =
      if-Keeps (ltb 0 amount) s _ s (asset_mut-Keeps user_id asset _ s (unlock-IsNeutral amount))
        (Keeps-refl s)

-- The books and the counter are no balances.
pub next_order_id-Keeps : (s : EngineState) → Keeps s (next_order_id s).0
unfolding next_order_id
next_order_id-Keeps s = record {
  totals = record { usd = refl; asset = λ symbol. refl };
  fees = refl;
}

pub set_orderbook-Keeps :
    (asset : String) (b : Orderbook) (s : EngineState) → Keeps s (set_orderbook asset b s)
unfolding set_orderbook
set_orderbook-Keeps asset b s =
    if-Keeps (to_lowercase asset == "sol") s _ _
      (same (record s { sol_orderbook = b }) refl refl refl)
      (if-Keeps (to_lowercase asset == "btc") s _ _
        (same (record s { btc_orderbook = b }) refl refl refl)
        (if-Keeps (to_lowercase asset == "eth") s _ s
          (same (record s { eth_orderbook = b }) refl refl refl) (Keeps-refl s)))
  where
    same :
        (s' : EngineState)
        → s'.usd_balance ≡ s.usd_balance
        → s'.stock_balance ≡ s.stock_balance
        → s'.fee_schedule ≡ s.fee_schedule
        → Keeps s s'
    same s' u a f = record { totals = record { usd = rw u; asset = λ symbol. rw a }; fees = f }

apply_fill-fees :
    (s : EngineState) (asset : String) (t : Trade)
    → (apply_fill s asset t).0.fee_schedule ≡ s.fee_schedule
unfolding apply_fill asset_mut symbol_mut usd_mut
apply_fill-fees s asset t = ground arith

settle_trade-Keeps :
    (publisher : Bool) (o : Order) (t : Trade) (r : Settlement)
    → FairFees r.state.fee_schedule
    → Keeps r.state (settle_trade publisher o t r).state
unfolding settle_trade
settle_trade-Keeps publisher o t r fair = record {
  totals = apply_fill-SameTotals r.state o.asset t fair;
  fees = apply_fill-fees r.state o.asset t;
}

pub settle_results-Keeps :
    (publisher : Bool) (o : Order) (results : List MatchResult) (r : Settlement)
    → FairFees r.state.fee_schedule
    → Keeps r.state (settle_results publisher o results r).state
unfolding settle_results
settle_results-Keeps publisher o [] r fair = Keeps-refl r.state
settle_results-Keeps publisher o (trade t ∷ results) r fair =
    let step = settle_trade-Keeps publisher o t r fair in
    Keeps-trans r.state _ _ step (
      settle_results-Keeps publisher o results (settle_trade publisher o t r)
        (subst FairFees (sym step.fees) fair))
settle_results-Keeps publisher o (order_accepted acc ∷ results) r fair =
    settle_results-Keeps publisher o results (record r { resting_order = some acc }) fair
