-- ===== src/Engine/Account/Changes.antt =====
-- What a trade does to the balances of each user.
use cex_rs.Base.{
  ℕ, ◌-◌, ◌≡◌, ap, ◌∙◌, true, false, refl, String, Bool, ◌==◌, nat_eq, string_eq, if◌then◌else◌,
  ◌&&◌, ltb,
}
use cex_rs.Base.Word.{add64, mul64}
use cex_rs.Base.Text.{to_lowercase}
use cex_rs.Shared.Balance.{Balance}
use cex_rs.Book.Types.{Trade}
use cex_rs.Engine.State.{EngineState, usd_of, usd_mut, asset_mut, symbol_mut}
use cex_rs.Engine.Fill.{add_available, sub_locked, apply_fill}
use cex_rs.Engine.Account.Totals.{balance_of, usd_of-usd_mut, balance_of-symbol_mut}

usd_of-asset_mut :
    (u user_id : ℕ) (asset : String) (f : Balance → Balance) (s : EngineState)
    → usd_of u (asset_mut user_id asset f s) ≡ usd_of u s
unfolding asset_mut symbol_mut
usd_of-asset_mut u user_id asset f s = refl

balance_of-usd_mut :
    (u user_id : ℕ) (symbol : String) (f : Balance → Balance) (s : EngineState)
    → balance_of u symbol (usd_mut user_id f s) ≡ balance_of u symbol s
unfolding usd_mut
balance_of-usd_mut u user_id symbol f s = refl

-- The last of the steps is taken only where there is a fee.
usd_of-when :
    (u : ℕ) (c : Bool) (f : Balance → Balance) (s : EngineState)
    → usd_of u (if c then usd_mut 0 f s else s)
      ≡ (if c && u == 0 then f (usd_of u s) else usd_of u s)
usd_of-when u true f s = usd_of-usd_mut u 0 f s
usd_of-when u false f s = refl

balance_of-when :
    (u : ℕ) (symbol : String) (c : Bool) (f : Balance → Balance) (s : EngineState)
    → balance_of u symbol (if c then usd_mut 0 f s else s) ≡ balance_of u symbol s
balance_of-when u symbol true f s = balance_of-usd_mut u 0 symbol f s
balance_of-when u symbol false f s = refl

module _ (s : EngineState) (asset : String) (t : Trade) where
  abbrev value : ℕ
  value = mul64 t.price t.qty

  abbrev fees : ℕ × ℕ
  fees = (apply_fill s asset t).1

  -- The buyer pays from what is locked, the seller is paid, and the treasury gets the fees.
  pub usd_of-apply_fill :
      (u : ℕ)
      → usd_of u (apply_fill s asset t).0 ≡ (
          let paid =
            if u == t.buyer then sub_locked (add64 value fees.0) (usd_of u s) else usd_of u s in
          let got = if u == t.seller then add_available (value - fees.1) paid else paid in
          if ltb 0 (add64 fees.0 fees.1) && u == 0
          then add_available (add64 fees.0 fees.1) got
          else got)
  unfolding apply_fill
  usd_of-apply_fill u =
      let h = sub_locked (add64 value fees.0) in
      let g = add_available (value - fees.1) in
      let f = add_available (add64 fees.0 fees.1) in
      let c = ltb 0 (add64 fees.0 fees.1) in
      let s1 = usd_mut t.buyer h s in
      let s2 = asset_mut t.buyer asset (add_available t.qty) s1 in
      let s3 = asset_mut t.seller asset (sub_locked t.qty) s2 in
      usd_of-when u c f (usd_mut t.seller g s3)
      ∙ ap (λ b. if c && u == 0 then f b else b)
          (usd_of-usd_mut u t.seller g s3
            ∙ ap (λ b. if u == t.seller then g b else b)
                (usd_of-asset_mut u t.seller asset (sub_locked t.qty) s2
                  ∙ usd_of-asset_mut u t.buyer asset (add_available t.qty) s1
                  ∙ usd_of-usd_mut u t.buyer h s))

  pub balance_of-apply_fill :
      (u : ℕ) (symbol : String)
      → balance_of u symbol (apply_fill s asset t).0 ≡ (
          let got =
            if u == t.buyer && symbol == to_lowercase asset
            then add_available t.qty (balance_of u symbol s)
            else balance_of u symbol s in
          if u == t.seller && symbol == to_lowercase asset then sub_locked t.qty got else got)
  unfolding apply_fill asset_mut
  balance_of-apply_fill u symbol =
      let s1 = usd_mut t.buyer (sub_locked (add64 value fees.0)) s in
      let s2 = asset_mut t.buyer asset (add_available t.qty) s1 in
      let s3 = asset_mut t.seller asset (sub_locked t.qty) s2 in
      balance_of-when u symbol _ _ (usd_mut t.seller (add_available (value - fees.1)) s3)
      ∙ balance_of-usd_mut u t.seller symbol (add_available (value - fees.1)) s3
      ∙ balance_of-symbol_mut u t.seller symbol (to_lowercase asset) (sub_locked t.qty) s2
      ∙ ap (λ b. if u == t.seller && symbol == to_lowercase asset then sub_locked t.qty b else b)
          (balance_of-symbol_mut u t.buyer symbol (to_lowercase asset) (add_available t.qty) s1
            ∙ ap
                (λ b.
                  if u == t.buyer && symbol == to_lowercase asset then add_available t.qty b else b)
                (balance_of-usd_mut u t.buyer symbol (sub_locked (add64 value fees.0)) s))
