-- ===== src/Gateway/Limiter/Tests.antt =====
-- Runs of the rate limiter, with numbers in units of 10^-9 for the `f64` values.
use cex_rs.Base.{
  ℕ, ◌+◌, ◌-◌, ◌*◌, ◌/◌, ◌≤◌, min, ◌≡◌, refl, String, List, [], ◌∷◌, leb, arith, ok, err,
}
use cex_rs.Base.HashMap
use cex_rs.Base.Text.{starts_with}
use cex_rs.Gateway.Limiter.{
  Floats, RateLimiter, new, default, check, take_token, call, group_of, cleanup, refill,
  retry_after,
}
use cex_rs.Gateway.Limiter.Burst.{CountsExactly, passed, check-burst}
use cex_rs.Gateway.Limiter.Isolated.{after_calls, call-isolated}
use cex_rs.Gateway.Limiter.Sound.{KeepsSign, FillsInAnHour, after_checks}
use cex_rs.Gateway.Limiter.Idle.{answers, answers-cleanup}

abbrev fixed : Floats
fixed = record {
  F = ℕ;
  literal = λ n. n * 1000000000;
  as_secs = λ n. n;
  add = ◌+◌;
  sub = ◌-◌;
  mul = λ x y. x * y / 1000000000;
  div = λ x y. x * 1000000000 / y;
  min = min;
  le = leb;
  ceil_u64 = λ x. (x + 999999999) / 1000000000;
}

fixed-CountsExactly : CountsExactly fixed
fixed-CountsExactly = record {
  min_left = λ x y c h. ground (arith, h);
  min_right = λ x y c h. ground (arith, h);
  none_left = λ x h. ground (arith, h);
  one_less = λ x n small h. ground (arith, h);
}

fixed-KeepsSign : KeepsSign fixed
fixed-KeepsSign = record {
  min_right = λ x c h. ground (arith, h);
  min_positive = λ x c h k. ground (arith, h, k);
  sub_positive = λ x h. ground (arith, h);
}

-- Three tokens, and one more each second.
fixed-FillsInAnHour : FillsInAnHour fixed 3000000000 1000000000
fixed-FillsInAnHour = record {
  positive = refl;
  grows = λ t elapsed h. ground arith;
  fills = λ t elapsed h long. ground (arith, long);
  stays = refl;
}

-- The tests of the source: as many requests as the capacity, and then a wait of a second.
three_pass :
    answers fixed fixed-KeepsSign
      (("a", 5) ∷ ("a", 5) ∷ ("a", 5) ∷ ("a", 5) ∷ ("b", 5) ∷ [])
      (new fixed 3000000000 1000000000)
    ≡ ok tt ∷ ok tt ∷ ok tt ∷ err 1 ∷ ok tt ∷ []
unfolding new check take_token refill retry_after HashMap.get HashMap.insert
three_pass = refl

orders_are_trading : group_of "/orderbook/sol" ≡ group_of "/order"
unfolding group_of starts_with
orders_are_trading = refl

check-burst_example :
    passed fixed fixed-CountsExactly 5 "a"
      ("a" ∷ "b" ∷ "a" ∷ "a" ∷ "a" ∷ [])
      (new fixed 3000000000 1000000000)
    ≤ 3
check-burst_example =
    check-burst fixed fixed-CountsExactly 5 "a" ("a" ∷ "b" ∷ "a" ∷ "a" ∷ "a" ∷ []) 3
      (new fixed 3000000000 1000000000) (omega arith) (unfold new in refl) refl
      (unfold new in λ t y h. ground (arith, h))

abbrev flood : List (String × String × ℕ)
flood = ("/order", "127.0.0.1", 5) ∷ ("/signin", "127.0.0.1", 6) ∷ []

call-isolated_example :
    (call fixed "/order" "::1" 7 (after_calls fixed "::1" flood (default fixed))).1
    ≡ (call fixed "/order" "::1" 7 (default fixed)).1
call-isolated_example =
    call-isolated fixed "::1" flood "/order" 7 (default fixed)
      (λ e. absurd (cc (e)), (λ e. absurd (cc (e)), tt))

abbrev used : RateLimiter fixed
used = after_checks fixed (("a", 5) ∷ ("a", 6) ∷ []) (new fixed 3000000000 1000000000)

answers-cleanup_example :
    answers fixed fixed-KeepsSign (("a", 3600000000010) ∷ []) (cleanup fixed 3600000000010 used)
    ≡ answers fixed fixed-KeepsSign (("a", 3600000000010) ∷ []) used
answers-cleanup_example =
    answers-cleanup fixed fixed-KeepsSign 3000000000 1000000000 fixed-FillsInAnHour
      (("a", 5) ∷ ("a", 6) ∷ []) (("a", 3600000000010) ∷ []) 3600000000010 (omega arith, tt)
