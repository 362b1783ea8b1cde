-- ===== src/Gateway/Limiter/Sound.antt =====
-- The number of tokens in the buckets of a limiter, through its checks.
use cex_rs.Base.{
  ℕ, ◌-◌, ◌≤◌, ◌≡◌, refl, sym, ◌∙◌, subst, String, true, some, List, [], ◌∷◌, arith, ◌==◌, inl, inr,
  string_eq, Bool-cases, Option-cases,
}
use cex_rs.Base.HashMap
use cex_rs.Base.HashMap.{HashMap, get_or, IsMap}
use cex_rs.Gateway.Limiter.{Floats, Bucket, RateLimiter, bucket_of, refill, check, new, hour}
use cex_rs.Gateway.Limiter.Buckets.{
  spent, check-capacity, check-refill_rate, check-buckets, get-check,
}

-- What IEEE 754 says of a minimum with an argument that is at most the other, and of numbers that
-- are not negative.
pub record KeepsSign (floats : Floats) : Type 0 where
  pub min_right : (x c : floats.F) → floats.le c x ≡ true → floats.min x c ≡ c
  pub min_positive :
      (x c : floats.F)
      → floats.le (floats.literal 0) x ≡ true
      → floats.le (floats.literal 0) c ≡ true
      → floats.le (floats.literal 0) (floats.min x c) ≡ true
  pub sub_positive :
      (x : floats.F)
      → floats.le (floats.literal 1) x ≡ true
      → floats.le (floats.literal 0) (floats.sub x (floats.literal 1)) ≡ true

-- An hour fills the bucket, and no time takes nothing from it.
pub record FillsInAnHour (floats : Floats) (capacity refill_rate : floats.F) : Type 0 where
  pub positive : floats.le (floats.literal 0) capacity ≡ true
  pub grows :
      (t : floats.F) (elapsed : ℕ)
      → floats.le (floats.literal 0) t ≡ true
      → floats.le
          (floats.literal 0)
          (floats.add t (floats.mul (floats.as_secs elapsed) refill_rate))
        ≡ true
  pub fills :
      (t : floats.F) (elapsed : ℕ)
      → floats.le (floats.literal 0) t ≡ true
      → hour ≤ elapsed
      → floats.le capacity (floats.add t (floats.mul (floats.as_secs elapsed) refill_rate)) ≡ true
  pub stays :
      floats.le capacity (floats.add capacity (floats.mul (floats.as_secs 0) refill_rate)) ≡ true

module _ (floats : Floats) where
  -- No bucket has a negative number of tokens.
  abbrev pub IsPositive : RateLimiter floats → Type 0
  IsPositive l =
      (k : String) (b : Bucket floats)
      → HashMap.get k l.buckets ≡ some b
      → floats.le (floats.literal 0) b.tokens ≡ true

  -- The limiter after a run of checks.
  abbrev pub after_checks : List (String × ℕ) → RateLimiter floats → RateLimiter floats
  after_checks [] l = l
  after_checks ((key, now) ∷ checks) l = after_checks checks (check floats key now l).0

  pub record IsSound (capacity refill_rate : floats.F) (l : RateLimiter floats) : Type 0 where
    pub is_map : IsMap l.buckets
    pub is_positive : IsPositive l
    pub capacity_is : l.capacity ≡ capacity
    pub refill_rate_is : l.refill_rate ≡ refill_rate

  module _ (sign : KeepsSign floats) (capacity refill_rate : floats.F)
      (fills : FillsInAnHour floats capacity refill_rate) where
    pub new-IsSound : IsSound capacity refill_rate (new floats capacity refill_rate)
    unfolding new HashMap.get
    new-IsSound = record {
      is_map = tt;
      is_positive = λ k b found. absurd (cc (found));
      capacity_is = refl;
      refill_rate_is = refl;
    }

    spent-positive :
        (b : Bucket floats)
        → floats.le (floats.literal 0) b.tokens ≡ true
        → floats.le (floats.literal 0) (spent floats b).tokens ≡ true
    spent-positive b p = elim (Bool-cases (floats.le (floats.literal 1) b.tokens)) [
      | inl enough ↦ ground (arith, enough, sign.sub_positive b.tokens enough)
      | inr short ↦ ground (arith, short, p)
    ]

    bucket_of-positive :
        (key : String) (now : ℕ) (l : RateLimiter floats)
        → IsSound capacity refill_rate l
        → floats.le (floats.literal 0) (bucket_of floats key now l).tokens ≡ true
    bucket_of-positive key now l s = elim (Option-cases (HashMap.get key l.buckets)) [
      | inl absent ↦ cc (absent, fills.positive, s.capacity_is)
      | inr (b, found) ↦ cc (found, s.is_positive key b found)
    ]

    refill-positive :
        (key : String) (now : ℕ) (l : RateLimiter floats)
        → IsSound capacity refill_rate l
        → floats.le (floats.literal 0) (refill floats now l (bucket_of floats key now l)).tokens
          ≡ true
    unfolding refill
    refill-positive key now l s =
        let grown =
          fills.grows (bucket_of floats key now l).tokens
            (now - (bucket_of floats key now l).last_update) (bucket_of-positive key now l s) in
        sign.min_positive _ _ (cc (grown, s.refill_rate_is)) (cc (fills.positive, s.capacity_is))

    check-IsMap :
        (key : String) (now : ℕ) (l : RateLimiter floats)
        → IsMap l.buckets
        → IsMap (check floats key now l).0.buckets
    check-IsMap key now l m =
        subst IsMap (sym (check-buckets floats key now l)) (HashMap.insert-IsMap key _ l.buckets m)

    check-IsSound :
        (key : String) (now : ℕ) (l : RateLimiter floats)
        → IsSound capacity refill_rate l
        → IsSound capacity refill_rate (check floats key now l).0
    check-IsSound key now l s = record {
      is_map = check-IsMap key now l s.is_map;
      is_positive = λ k b found. elim (Bool-cases (k == key)) [
        | inl own ↦
            let here : b ≡ spent floats (refill floats now l (bucket_of floats key now l)) =
              ground (arith, own, found, get-check floats key now l k) in
            subst (λ (x : Bucket floats). floats.le (floats.literal 0) x.tokens ≡ true) (sym here)
              (spent-positive (refill floats now l (bucket_of floats key now l))
                (refill-positive key now l s))
        | inr other ↦ s.is_positive k b (ground (arith, other, found, get-check floats key now l k))
      ];
      capacity_is = check-capacity floats key now l ∙ s.capacity_is;
      refill_rate_is = check-refill_rate floats key now l ∙ s.refill_rate_is;
    }

    pub after_checks-IsSound :
        (checks : List (String × ℕ)) (l : RateLimiter floats)
        → IsSound capacity refill_rate l
        → IsSound capacity refill_rate (after_checks checks l)
    after_checks-IsSound [] l s = s
    after_checks-IsSound ((key, now) ∷ checks) l s =
        after_checks-IsSound checks (check floats key now l).0 (check-IsSound key now l s)
