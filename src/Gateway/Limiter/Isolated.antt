-- ===== src/Gateway/Limiter/Isolated.antt =====
-- The requests of several clients at the limiters of a policy.
use cex_rs.Base.{ℕ, ◌≡◌, ◌≢◌, refl, sym, ◌∙◌, String, List, [], ◌∷◌, arith, string_eq}
use cex_rs.Base.HashMap
use cex_rs.Base.HashMap.{HashMap, get_or}
use cex_rs.Gateway.Limiter.{
  Floats, RateLimiter, RateLimitMiddleware, refill, retry_after, check, Group, bypass, auth,
  trading, general, check_group, group_of, call,
}
use cex_rs.Gateway.Limiter.Buckets.{check-answer, check-capacity, check-refill_rate, get-check}

module _ (floats : Floats) (key : String) where
  -- The limiters are the same for the key.
  pub record Same (l l' : RateLimiter floats) : Type 0 where
    pub capacity : l.capacity ≡ l'.capacity
    pub refill_rate : l.refill_rate ≡ l'.refill_rate
    pub bucket : HashMap.get key l.buckets ≡ HashMap.get key l'.buckets

  Same-refl : (l : RateLimiter floats) → Same l l
  Same-refl l = record { capacity = refl; refill_rate = refl; bucket = refl }

  check-Same :
      (other : String) (now : ℕ) (l : RateLimiter floats)
      → other ≢ key
      → Same (check floats other now l).0 l
  check-Same other now l ne = record {
    capacity = check-capacity floats other now l;
    refill_rate = check-refill_rate floats other now l;
    bucket = ground (arith, ne, get-check floats other now l key, string_eq.agree key other);
  }

  answer-Same :
      (now : ℕ) (l l' : RateLimiter floats)
      → Same l l'
      → (check floats key now l).1 ≡ (check floats key now l').1
  unfolding refill retry_after
  answer-Same now l l' s =
      check-answer floats key now l
      ∙ cc (s.capacity, s.refill_rate, s.bucket)
      ∙ sym (check-answer floats key now l')

  pub record SamePolicy (p p' : RateLimitMiddleware floats) : Type 0 where
    pub auth : Same p.auth_limiter p'.auth_limiter
    pub trading : Same p.trading_limiter p'.trading_limiter
    pub general : Same p.general_limiter p'.general_limiter

  check_group-SamePolicy :
      (g : Group) (other : String) (now : ℕ) (p : RateLimitMiddleware floats)
      → other ≢ key
      → SamePolicy (check_group floats g other now p).0 p
  unfolding check_group
  check_group-SamePolicy bypass other now p ne = record {
    auth = Same-refl p.auth_limiter;
    trading = Same-refl p.trading_limiter;
    general = Same-refl p.general_limiter;
  }
  check_group-SamePolicy auth other now p ne = record {
    auth = check-Same other now p.auth_limiter ne;
    trading = Same-refl p.trading_limiter;
    general = Same-refl p.general_limiter;
  }
  check_group-SamePolicy trading other now p ne = record {
    auth = Same-refl p.auth_limiter;
    trading = check-Same other now p.trading_limiter ne;
    general = Same-refl p.general_limiter;
  }
  check_group-SamePolicy general other now p ne = record {
    auth = Same-refl p.auth_limiter;
    trading = Same-refl p.trading_limiter;
    general = check-Same other now p.general_limiter ne;
  }

  check_group-answer :
      (g : Group) (now : ℕ) (p p' : RateLimitMiddleware floats)
      → SamePolicy p p'
      → (check_group floats g key now p).1 ≡ (check_group floats g key now p').1
  unfolding check_group
  check_group-answer bypass now p p' s = refl
  check_group-answer auth now p p' s = answer-Same now p.auth_limiter p'.auth_limiter s.auth
  check_group-answer trading now p p' s =
      answer-Same now p.trading_limiter p'.trading_limiter s.trading
  check_group-answer general now p p' s =
      answer-Same now p.general_limiter p'.general_limiter s.general

  Same-trans : (a b c : RateLimiter floats) → Same a b → Same b c → Same a c
  Same-trans a b c s t = record {
    capacity = s.capacity ∙ t.capacity;
    refill_rate = s.refill_rate ∙ t.refill_rate;
    bucket = s.bucket ∙ t.bucket;
  }

  SamePolicy-trans :
      (a b c : RateLimitMiddleware floats) → SamePolicy a b → SamePolicy b c → SamePolicy a c
  SamePolicy-trans a b c s t = record {
    auth = Same-trans a.auth_limiter b.auth_limiter c.auth_limiter s.auth t.auth;
    trading = Same-trans a.trading_limiter b.trading_limiter c.trading_limiter s.trading t.trading;
    general = Same-trans a.general_limiter b.general_limiter c.general_limiter s.general t.general;
  }

  -- A run of requests, each with its path, its client and its time.
  abbrev pub after_calls :
      List (String × String × ℕ) → RateLimitMiddleware floats → RateLimitMiddleware floats
  after_calls [] p = p
  after_calls ((path, client_ip, now) ∷ calls) p =
      after_calls calls (call floats path client_ip now p).0

  abbrev pub AllOthers : List (String × String × ℕ) → Type 0
  AllOthers [] = Unit {0}
  AllOthers ((path, client_ip, now) ∷ calls) = (client_ip ≢ key) × AllOthers calls

  after_calls-SamePolicy :
      (calls : List (String × String × ℕ)) (p : RateLimitMiddleware floats)
      → AllOthers calls
      → SamePolicy (after_calls calls p) p
  unfolding call
  after_calls-SamePolicy [] p h = record {
    auth = Same-refl p.auth_limiter;
    trading = Same-refl p.trading_limiter;
    general = Same-refl p.general_limiter;
  }
  after_calls-SamePolicy ((path, client_ip, now) ∷ calls) p h =
      SamePolicy-trans _ _ _ (after_calls-SamePolicy calls (call floats path client_ip now p).0 h.1)
        (check_group-SamePolicy (group_of path) client_ip now p h.0)

  -- Requests of other clients, however many, to whatever paths and at whatever times, change nothing
  -- of what a client is answered.
  pub call-isolated :
      (calls : List (String × String × ℕ)) (path : String) (now : ℕ)
      (p : RateLimitMiddleware floats)
      → AllOthers calls
      → (call floats path key now (after_calls calls p)).1 ≡ (call floats path key now p).1
  unfolding call
  call-isolated calls path now p h =
      check_group-answer (group_of path) now (after_calls calls p) p
        (after_calls-SamePolicy calls p h)
