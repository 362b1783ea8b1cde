-- ===== src/Engine/Account/Totals.antt =====
-- Funding adds exactly the amount of the request, to one user and to one currency.
use cex_rs.Base.{
  [], ℕ, ◌+◌, ◌≡◌, refl, String, Bool, ◌==◌, nat_eq, string_eq, if◌then◌else◌, arith, ◌&&◌, Eq,
}
use cex_rs.Base.HashMap
use cex_rs.Base.HashMap.{get_or}
use cex_rs.Shared.Balance.{Balance, no_funds}
use cex_rs.Shared.Requests.{OnrampMsg, DepositMsg}
use cex_rs.Engine.State.{EngineState, usd_of, usd_mut, stock_of, symbol_mut}
use cex_rs.Engine.Fill.{add_available}
use cex_rs.Engine.Fill.Totals.{Congruent, usd_total, asset_total}
use cex_rs.Engine.Fill.Conserved.{usd_total-added, asset_total-added}
use cex_rs.Engine.Account.{handle_onramp, handle_deposit}

-- The balance of a user in a symbol, by the key as it stands.
abbrev pub balance_of : ℕ → String → EngineState → Balance
balance_of user_id symbol s = get_or symbol no_funds (stock_of user_id s)

get_or-insert :
    {K V : Type 0} ⦃e : Eq K⦄ (d v : V) (j k : K) (m : HashMap.HashMap K V)
    → get_or j d (HashMap.insert k v m) ≡ (if j == k then v else get_or j d m)
get_or-insert d v j k m = ground (arith, HashMap.get-insert j k v m)

-- What is written through a reference is read back by its user alone.
pub usd_of-usd_mut :
    (u user_id : ℕ) (f : Balance → Balance) (s : EngineState)
    → usd_of u (usd_mut user_id f s) ≡ (if u == user_id then f (usd_of u s) else usd_of u s)
unfolding usd_mut
usd_of-usd_mut u user_id f s =
    ground (arith, get_or-insert no_funds (f (usd_of user_id s)) u user_id s.usd_balance)

pub balance_of-symbol_mut :
    (u user_id : ℕ) (symbol key : String) (f : Balance → Balance) (s : EngineState)
    → balance_of u symbol (symbol_mut user_id key f s)
      ≡ (if u == user_id && symbol == key then f (balance_of u symbol s) else balance_of u symbol s)
unfolding symbol_mut
balance_of-symbol_mut u user_id symbol key f s = ground (
  arith,
  get_or-insert no_funds (f (balance_of user_id key s)) symbol key (stock_of user_id s),
  get_or-insert [] (HashMap.insert key (f (balance_of user_id key s)) (stock_of user_id s)) u
      user_id s.stock_balance,
  string_eq.agree symbol key,
)

-- An onramp adds its amount to the USD total, up to the wrap-around of the arithmetic, and to the
-- available USD of its user. The USD of any other user and all assets stay.
pub handle_onramp-adds :
    (publisher : Bool) (msg : OnrampMsg) (s : EngineState)
    → Congruent (usd_total (handle_onramp publisher msg s).0) (usd_total s + msg.qty)
      × ((u : ℕ)
          → usd_of u (handle_onramp publisher msg s).0
            ≡ (if u == msg.user_id then add_available msg.qty (usd_of u s) else usd_of u s))
      × (handle_onramp publisher msg s).0.stock_balance ≡ s.stock_balance
unfolding handle_onramp usd_mut
handle_onramp-adds publisher msg s = (
  usd_total-added msg.user_id msg.qty s,
  λ u. usd_of-usd_mut u msg.user_id (add_available msg.qty) s,
  refl,
)

-- A deposit adds its amount to the total of the symbol as it is spelled in the message, up to the
-- wrap-around of the arithmetic, and to the available units of its user. The balance of any other
-- user or symbol and all USD stay.
pub handle_deposit-adds :
    (publisher : Bool) (msg : DepositMsg) (s : EngineState)
    → Congruent
        (asset_total msg.symbol (handle_deposit publisher msg s).0)
        (asset_total msg.symbol s + msg.qty)
      × ((u : ℕ) (symbol : String)
          → balance_of u symbol (handle_deposit publisher msg s).0 ≡ (
              if u == msg.user_id && symbol == msg.symbol
              then add_available msg.qty (balance_of u symbol s)
              else balance_of u symbol s))
      × (handle_deposit publisher msg s).0.usd_balance ≡ s.usd_balance
unfolding handle_deposit symbol_mut
handle_deposit-adds publisher msg s = (
  ground (
    arith,
    asset_total-added msg.user_id msg.qty s msg.symbol msg.symbol,
    string_eq.agree msg.symbol msg.symbol,
  ),
  λ u symbol. balance_of-symbol_mut u msg.user_id symbol msg.symbol (add_available msg.qty) s,
  refl,
)
