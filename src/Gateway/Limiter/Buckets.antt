-- ===== src/Gateway/Limiter/Buckets.antt =====
-- The bucket of a key after a check.
use cex_rs.Base.{
  ℕ, ◌≡◌, ap, ◌∙◌, String, some, arith, ◌==◌, string_eq, if◌then◌else◌, Result, ok, err, Bool-cases,
  inl, inr,
}
use cex_rs.Base.HashMap
use cex_rs.Base.HashMap.{HashMap, get_or}
use cex_rs.Gateway.Limiter.{
  Floats, Bucket, RateLimiter, bucket_of, refill, retry_after, take_token, check,
}

module _ (floats : Floats) where
  -- What a refilled bucket is left as, and what it answers.
  abbrev pub spent : Bucket floats → Bucket floats
  spent b =
      if floats.le (floats.literal 1) b.tokens
      then record b { tokens = floats.sub b.tokens (floats.literal 1) }
      else b

  abbrev pub answer : RateLimiter floats → Bucket floats → Result (Unit {0}) ℕ
  answer l b = if floats.le (floats.literal 1) b.tokens then ok tt else err (retry_after floats l b)

  module _ (key : String) (now : ℕ) (l : RateLimiter floats) where
    abbrev refilled : Bucket floats
    refilled = refill floats now l (bucket_of floats key now l)

    pub check-answer : (check floats key now l).1 ≡ answer l refilled
    unfolding check take_token
    check-answer = ground arith

    pub check-capacity : (check floats key now l).0.capacity ≡ l.capacity
    unfolding check take_token
    check-capacity = ground arith

    pub check-refill_rate : (check floats key now l).0.refill_rate ≡ l.refill_rate
    unfolding check take_token
    check-refill_rate = ground arith

    pub check-buckets :
        (check floats key now l).0.buckets ≡ HashMap.insert key (spent refilled) l.buckets
    unfolding check take_token
    check-buckets = elim (Bool-cases (floats.le (floats.literal 1) refilled.tokens)) [
      | inl enough ↦ ground (arith, enough)
      | inr short ↦ ground (arith, short)
    ]

    pub get-check :
        (k : String)
        → HashMap.get k (check floats key now l).0.buckets
          ≡ (if k == key then some (spent refilled) else HashMap.get k l.buckets)
    get-check k =
        ap (HashMap.get k) check-buckets ∙ HashMap.get-insert k key (spent refilled) l.buckets
