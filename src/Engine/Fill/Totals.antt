-- ===== src/Engine/Fill/Totals.antt =====
-- The totals of all balances, which an order must not change.
use cex_rs.Base.{
  ℕ, ◌+◌, ◌%◌, ◌≡◌, refl, ap, ◌∙◌, String, [], ◌∷◌, arith, ◌==◌, nat_eq, string_eq, Eq,
  if◌then◌else◌,
}
use cex_rs.Base.HashMap
use cex_rs.Base.HashMap.{HashMap, get_or}
use cex_rs.Base.Word.{u64_mod}
use cex_rs.Shared.Balance.{Balance, no_funds}
use cex_rs.Engine.State.{EngineState, usd_of, usd_mut, stock_of, symbol_mut}

-- The sum of what an amount `f` gives on the values of a map.
unfoldable pub total : {K V : Type 0} → (V → ℕ) → HashMap K V → ℕ
total f [] = 0
total f ((k, v) ∷ m) = f v + total f m

pub total-insert :
    {K V : Type 0} ⦃e : Eq K⦄ (f : V → ℕ) (d : V) (k : K) (v : V) (m : HashMap K V)
    → f d ≡ 0
    → total f (HashMap.insert k v m) + f (get_or k d m) ≡ total f m + f v
unfolding total HashMap.insert HashMap.get
total-insert f d k v [] z = omega arith
total-insert f d k v ((j, w) ∷ m) z = ground (arith, total-insert f d k v m z)

abbrev pub worth : Balance → ℕ
worth b = b.available + b.locked

-- All USD, and all units of an asset.
abbrev pub usd_total : EngineState → ℕ
usd_total s = total worth s.usd_balance

abbrev pub held : String → HashMap String Balance → ℕ
held symbol stock = worth (get_or symbol no_funds stock)

abbrev pub asset_total : String → EngineState → ℕ
asset_total symbol s = total (held symbol) s.stock_balance

-- Equal up to the wrap-around of the arithmetic.
abbrev pub Congruent : ℕ → ℕ → Type 0
Congruent a b = a % u64_mod ≡ b % u64_mod

-- No money is made or lost.
pub record SameTotals (s s' : EngineState) : Type 0 where
  pub usd : Congruent (usd_total s') (usd_total s)
  pub asset : (symbol : String) → Congruent (asset_total symbol s') (asset_total symbol s)

pub SameTotals-refl : (s : EngineState) → SameTotals s s
SameTotals-refl s = record { usd = refl; asset = λ symbol. refl }

pub SameTotals-trans :
    (s s' s'' : EngineState) → SameTotals s s' → SameTotals s' s'' → SameTotals s s''
SameTotals-trans s s' s'' a b = record {
  usd = b.usd ∙ a.usd;
  asset = λ symbol. b.asset symbol ∙ a.asset symbol;
}

pub usd_mut_lem :
    (user_id : ℕ) (f : Balance → Balance) (s : EngineState)
    → usd_total (usd_mut user_id f s) + worth (usd_of user_id s)
      ≡ usd_total s + worth (f (usd_of user_id s))
unfolding usd_mut
usd_mut_lem user_id f s = total-insert worth no_funds user_id _ s.usd_balance refl

stock_total-insert :
    (symbol : String) (user_id : ℕ) (stock : HashMap String Balance) (s : EngineState)
    → total (held symbol) (HashMap.insert user_id stock s.stock_balance)
        + held symbol (stock_of user_id s)
      ≡ asset_total symbol s + held symbol stock
unfolding HashMap.get
stock_total-insert symbol user_id stock s =
    total-insert (held symbol) [] user_id stock s.stock_balance refl

held-insert :
    (symbol key : String) (b : Balance) (stock : HashMap String Balance)
    → held symbol (HashMap.insert key b stock)
      ≡ (if symbol == key then worth b else held symbol stock)
held-insert symbol key b stock = ground (arith, HashMap.get-insert symbol key b stock)

pub asset_mut_lem :
    (symbol : String) (user_id : ℕ) (key : String) (f : Balance → Balance) (s : EngineState)
    → asset_total symbol (symbol_mut user_id key f s) + held symbol (stock_of user_id s)
      ≡ asset_total symbol s
        + (if symbol == key
            then worth (f (get_or key no_funds (stock_of user_id s)))
            else held symbol (stock_of user_id s))
unfolding symbol_mut
asset_mut_lem symbol user_id key f s =
    stock_total-insert symbol user_id _ s
    ∙ ap (λ n. asset_total symbol s + n) (held-insert symbol key _ (stock_of user_id s))
