-- ===== src/Gateway/Limiter/Burst.antt =====
-- How many requests of one client pass at one instant.
use cex_rs.Base.{
  ℕ, zero, suc, ◌≤◌, ◌<◌, ◌≡◌, sym, subst, String, true, false, none, some, List, [], ◌∷◌, arith,
  ◌==◌, string_eq, if◌then◌else◌, ok, err, Bool-cases, inl, inr,
}
use cex_rs.Base.HashMap
use cex_rs.Base.HashMap.{HashMap, get_or}
use cex_rs.Gateway.Limiter.{Floats, Bucket, RateLimiter, bucket_of, refill, check}
use cex_rs.Gateway.Limiter.Buckets.{
  spent, check-answer, check-capacity, check-refill_rate, get-check,
}

-- Up to 2^53 an `f64` counts exactly.
abbrev pub exact : ℕ
exact = 9007199254740992

-- What IEEE 754 says of comparing, taking the minimum and subtracting 1.
pub record CountsExactly (floats : Floats) : Type 0 where
  pub min_left : (x y c : floats.F) → floats.le x y ≡ true → floats.le (floats.min x c) y ≡ true
  pub min_right : (x y c : floats.F) → floats.le c y ≡ true → floats.le (floats.min x c) y ≡ true
  pub none_left :
      (x : floats.F)
      → floats.le x (floats.literal 0) ≡ true
      → floats.le (floats.literal 1) x ≡ false
  pub one_less :
      (x : floats.F) (n : ℕ)
      → n < exact
      → floats.le x (floats.literal (suc n)) ≡ true
      → floats.le (floats.sub x (floats.literal 1)) (floats.literal n) ≡ true

module _ (floats : Floats) (counts : CountsExactly floats) (now : ℕ) where
  -- Nothing is refilled in no time, as with a finite rate.
  abbrev pub RefillsInTime : floats.F → Type 0
  RefillsInTime rate =
      (t y : floats.F)
      → floats.le t y ≡ true
      → floats.le (floats.add t (floats.mul (floats.as_secs 0) rate)) y ≡ true

  -- How many of the checks of a key pass, in a run of checks of any keys at the instant.
  abbrev pub passed : String → List String → RateLimiter floats → ℕ
  passed key [] l = 0
  passed key (k ∷ ks) l =
      let (l', result) = check floats k now l in
      let rest = passed key ks l' in
      elim result [ ok t ↦ (if k == key then suc rest else rest) | err secs ↦ rest ]

  -- There are at most `n` tokens for the key at the instant.
  abbrev AtMost : ℕ → String → RateLimiter floats → Type 0
  AtMost n key l =
      floats.le (refill floats now l (bucket_of floats key now l)).tokens (floats.literal n) ≡ true

  refill-again :
      (m : ℕ) (b : Bucket floats) (l : RateLimiter floats)
      → RefillsInTime l.refill_rate
      → b.last_update ≡ now
      → floats.le b.tokens (floats.literal m) ≡ true
      → floats.le (refill floats now l b).tokens (floats.literal m) ≡ true
  unfolding refill
  refill-again m b l in_time same h = counts.min_left _ _ _ (
      subst
        (λ e.
          floats.le (floats.add b.tokens (floats.mul (floats.as_secs e) l.refill_rate))
            (floats.literal m)
          ≡ true)
        (omega (arith, same)) (in_time b.tokens (floats.literal m) h))

  other-AtMost :
      (n : ℕ) (key k : String) (l : RateLimiter floats)
      → (key == k) ≡ false
      → AtMost n key l
      → AtMost n key (check floats k now l).0
  unfolding refill
  other-AtMost n key k l ne h =
      let bucket : HashMap.get key (check floats k now l).0.buckets ≡ HashMap.get key l.buckets =
        ground (arith, ne, get-check floats k now l key) in
      cc (h, bucket, check-capacity floats k now l, check-refill_rate floats k now l)

  own-AtMost :
      (m : ℕ) (key : String) (l : RateLimiter floats)
      → RefillsInTime l.refill_rate
      → floats.le
          (spent floats (refill floats now l (bucket_of floats key now l))).tokens
          (floats.literal m)
        ≡ true
      → AtMost m key (check floats key now l).0
  own-AtMost m key l in_time h =
      let b = spent floats (refill floats now l (bucket_of floats key now l)) in
      let l' = (check floats key now l).0 in
      let bucket : HashMap.get key l'.buckets ≡ some b =
        ground (arith, get-check floats key now l key, string_eq.agree key key) in
      let time : b.last_update ≡ now = unfold refill in ground arith in
      subst
        (λ o.
          floats.le
            (refill floats now l' (elim o [
              | none ↦ record { tokens = l'.capacity; last_update = now }
              | some v ↦ v
            ])).tokens
            (floats.literal m)
          ≡ true)
        (sym bucket)
        (refill-again m b l'
          (subst RefillsInTime (sym (check-refill_rate floats key now l)) in_time) time h)

  -- A check of the key itself takes one of the tokens, or does not pass.
  own_check :
      (key : String) (n rest : ℕ) (l : RateLimiter floats)
      → n ≤ exact
      → RefillsInTime l.refill_rate
      → AtMost n key l
      → ((m : ℕ) → m ≤ n → AtMost m key (check floats key now l).0 → rest ≤ m)
      → (elim (check floats key now l).1 [ ok t ↦ suc rest | err secs ↦ rest ]) ≤ n
  own_check key zero rest l fits in_time h after =
      let r = refill floats now l (bucket_of floats key now l) in
      let short = counts.none_left r.tokens h in
      ground (
        arith,
        short,
        check-answer floats key now l,
        after 0 (omega arith) (own-AtMost 0 key l in_time (ground (arith, short, h))),
      )
  own_check key (suc n) rest l fits in_time h after =
      let r = refill floats now l (bucket_of floats key now l) in
      elim (Bool-cases (floats.le (floats.literal 1) r.tokens)) [
        | inl enough ↦
            let less = counts.one_less r.tokens n (omega (arith, fits)) h in
            ground (
              arith,
              enough,
              check-answer floats key now l,
              after n (omega arith) (own-AtMost n key l in_time (ground (arith, enough, less))),
            )
        | inr short ↦ ground (
          arith,
          short,
          check-answer floats key now l,
          after (suc n) (omega arith) (own-AtMost (suc n) key l in_time (ground (arith, short, h))),
        )
      ]

  passed-AtMost :
      (key : String) (ks : List String) (n : ℕ) (l : RateLimiter floats)
      → n ≤ exact
      → RefillsInTime l.refill_rate
      → AtMost n key l
      → passed key ks l ≤ n
  passed-AtMost key [] n l fits in_time h = omega arith
  passed-AtMost key (k ∷ ks) n l fits in_time h =
      let l' = (check floats k now l).0 in
      let kept = subst RefillsInTime (sym (check-refill_rate floats k now l)) in_time in
      let rest = λ (m : ℕ) (le : m ≤ n) (a : AtMost m key l').
        passed-AtMost key ks m l' (omega (arith, fits, le)) kept a in
      elim (Bool-cases (key == k)) [
        | inl same ↦
            let eq : key ≡ k = (string_eq.agree key k).0 same in
            let bound =
              own_check k n (passed key ks l') l fits in_time
                (subst (λ (x : String). AtMost n x l) eq h)
                (λ m le a. rest m le (subst (λ (x : String). AtMost m x l') (sym eq) a)) in
            ground (arith, eq, string_eq.agree k key, bound)
        | inr other ↦ ground (
          arith,
          other,
          string_eq.agree key k,
          string_eq.agree k key,
          rest n (omega arith) (other-AtMost n key k l other h),
        )
      ]

  -- Of any checks at one instant, for any keys in any order, at most as many pass for a key as the
  -- capacity of the limiter: where that is a whole number of at most 2^53, a 64-bit float counts
  -- exactly up to there, and no time refills nothing.
  pub check-burst :
      (key : String) (ks : List String) (n : ℕ) (l : RateLimiter floats)
      → n ≤ exact
      → l.capacity ≡ floats.literal n
      → floats.le (floats.literal n) (floats.literal n) ≡ true
      → RefillsInTime l.refill_rate
      → passed key ks l ≤ n
  unfolding refill
  check-burst key ks n l fits capacity same in_time = passed-AtMost key ks n l fits in_time (
      counts.min_right _ _ _
        (subst (λ c. floats.le c (floats.literal n) ≡ true) (sym capacity) same))
