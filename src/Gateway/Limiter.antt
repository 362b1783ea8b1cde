-- ===== src/Gateway/Limiter.antt =====
-- rs-gateway/src/rate_limit: the token buckets (mod.rs), and the choice of a limiter for a request
-- (middleware.rs).
pub mod Buckets
pub mod Isolated
pub mod Burst
pub mod Sound
pub mod Idle
pub mod Tests
use cex_rs.Base.{
  ℕ, ◌-◌, max, String, Bool, true, false, ◌||◌, List, [], ◌∷◌, select, ltb, if◌then◌else◌, ◌==◌,
  string_eq, Result, ok, err,
}
use cex_rs.Base.HashMap
use cex_rs.Base.HashMap.{HashMap, get_or}
use cex_rs.Base.Text.{starts_with}

-- The operations of `f64` that the limiter uses. `literal n` is `n.0`, `as_secs` is
-- `Duration::as_secs_f64` of a number of nanoseconds, `ceil_u64 x` is `x.ceil() as u64`.
pub record Floats : Type 1 where
  pub F : Type 0
  pub literal : ℕ → F
  pub as_secs : ℕ → F
  pub add : F → F → F
  pub sub : F → F → F
  pub mul : F → F → F
  pub div : F → F → F
  pub min : F → F → F
  pub le : F → F → Bool
  pub ceil_u64 : F → ℕ

-- An `Instant` is a number of nanoseconds; `duration_since` saturates.
abbrev pub hour : ℕ
hour = 3600000000000

-- What a path counts as.
pub data Group : Type 0 where
  bypass auth trading general : Group

unfoldable pub group_of : String → Group
group_of path =
    if path == "/reset"
    then bypass
    else if starts_with "/signup" path || starts_with "/signin" path
    then auth
    else if starts_with "/order" path
    then trading
    else general

module _ (floats : Floats) where
  pub record Bucket : Type 0 where
    pub tokens : floats.F
    pub last_update : ℕ

  pub record RateLimiter : Type 0 where
    pub capacity : floats.F
    pub refill_rate : floats.F
    pub buckets : HashMap String Bucket

  unfoldable pub new : floats.F → floats.F → RateLimiter
  new capacity refill_rate = record { capacity = capacity; refill_rate = refill_rate; buckets = [] }

  -- `entry(key).or_insert_with(..)`
  abbrev pub bucket_of : String → ℕ → RateLimiter → Bucket
  bucket_of key now l = get_or key (record { tokens = l.capacity; last_update = now }) l.buckets

  unfoldable pub refill : ℕ → RateLimiter → Bucket → Bucket
  refill now l b = record {
    tokens =
        floats.min
          (floats.add b.tokens (floats.mul (floats.as_secs (now - b.last_update)) l.refill_rate))
          l.capacity;
    last_update = now;
  }

  unfoldable pub retry_after : RateLimiter → Bucket → ℕ
  retry_after l b =
      max (floats.ceil_u64 (floats.div (floats.sub (floats.literal 1) b.tokens) l.refill_rate)) 1

  -- `bucket` is the refilled one.
  unfoldable pub take_token : String → Bucket → RateLimiter → RateLimiter × Result (Unit {0}) ℕ
  take_token key bucket l =
      if floats.le (floats.literal 1) bucket.tokens
      then (
        record l {
          buckets =
              HashMap.insert key
                (record bucket { tokens = floats.sub bucket.tokens (floats.literal 1) }) l.buckets;
        },
        ok tt,
      )
      else (record l { buckets = HashMap.insert key bucket l.buckets }, err (retry_after l bucket))

  unfoldable pub check : String → ℕ → RateLimiter → RateLimiter × Result (Unit {0}) ℕ
  check key now l = take_token key (refill now l (bucket_of key now l)) l

  unfoldable pub cleanup : ℕ → RateLimiter → RateLimiter
  cleanup now l = record l { buckets = select (λ e. ltb (now - e.1.last_update) hour) l.buckets }

  pub record RateLimitMiddleware : Type 0 where
    pub auth_limiter : RateLimiter
    pub trading_limiter : RateLimiter
    pub general_limiter : RateLimiter

  unfoldable pub default : RateLimitMiddleware
  default = record {
    auth_limiter = new (floats.literal 20) (floats.literal 2);
    trading_limiter = new (floats.literal 100) (floats.literal 20);
    general_limiter = new (floats.literal 100) (floats.literal 20);
  }

  -- `check_result` on the limiter that has been chosen. The limiters of a policy are shared by its
  -- clones.
  unfoldable pub check_group :
      Group → String → ℕ → RateLimitMiddleware → RateLimitMiddleware × Result (Unit {0}) ℕ
  check_group bypass client_ip now policy = (policy, ok tt)
  check_group auth client_ip now policy =
      let (limiter, result) = check client_ip now policy.auth_limiter in
      (record policy { auth_limiter = limiter }, result)
  check_group trading client_ip now policy =
      let (limiter, result) = check client_ip now policy.trading_limiter in
      (record policy { trading_limiter = limiter }, result)
  check_group general client_ip now policy =
      let (limiter, result) = check client_ip now policy.general_limiter in
      (record policy { general_limiter = limiter }, result)

  -- The policy, and whether the service is called; at an error the answer is 429 with the number of
  -- seconds.
  unfoldable pub call :
      String → String → ℕ → RateLimitMiddleware → RateLimitMiddleware × Result (Unit {0}) ℕ
  call path client_ip now policy = check_group (group_of path) client_ip now policy
