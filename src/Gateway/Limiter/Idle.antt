-- ===== src/Gateway/Limiter/Idle.antt =====
-- The removal of the buckets that have been idle for an hour.
use cex_rs.Base.{
  ℕ, ◌-◌, ◌≤◌, ◌≡◌, refl, sym, ap, ◌∙◌, subst, String, true, Option, none, some, List, [], ◌∷◌,
  select, ltb, arith, ◌==◌, ◌⊎◌, inl, inr, string_eq, if◌then◌else◌, Result, Bool-cases,
  Option-cases,
}
use cex_rs.Base.HashMap
use cex_rs.Base.HashMap.{HashMap, get_or, IsMap}
use cex_rs.Gateway.Limiter.{
  Floats, Bucket, RateLimiter, bucket_of, refill, retry_after, check, new, cleanup, hour,
}
use cex_rs.Gateway.Limiter.Sound.{
  KeepsSign, FillsInAnHour, IsPositive, after_checks, new-IsSound, after_checks-IsSound,
}
use cex_rs.Gateway.Limiter.Buckets.{
  spent, check-answer, check-capacity, check-refill_rate, get-check,
}

module _ (floats : Floats) (sign : KeepsSign floats) where
  -- What one limiter has for a key is there in the other, or it has been idle for an hour.
  abbrev SameOrIdle : ℕ → Option (Bucket floats) → Option (Bucket floats) → Type 0
  SameOrIdle start o o' =
      (o ≡ o')
      ⊎ ((o' ≡ none)
          × ((b : Bucket floats) × (o ≡ some b)
              × (hour ≤ start - b.last_update)
              × (floats.le (floats.literal 0) b.tokens ≡ true)))

  record Covers (start : ℕ) (l l' : RateLimiter floats) : Type 0 where
    capacity : l.capacity ≡ l'.capacity
    refill_rate : l.refill_rate ≡ l'.refill_rate
    buckets : (k : String) → SameOrIdle start (HashMap.get k l.buckets) (HashMap.get k l'.buckets)

  module _ (start : ℕ) (l l' : RateLimiter floats) (c : Covers start l l')
      (fills : FillsInAnHour floats l.capacity l.refill_rate) (key : String) (now : ℕ)
      (later : start ≤ now) where
    refilled-Covers :
        refill floats now l (bucket_of floats key now l)
        ≡ refill floats now l' (bucket_of floats key now l')
    unfolding refill
    refilled-Covers = elim (c.buckets key) [
      | inl same ↦ cc (same, c.capacity, c.refill_rate)
      | inr (gone, (b, found, idle, positive)) ↦
          let full =
            sign.min_right _ _
              (fills.fills b.tokens (now - b.last_update) positive (omega (arith, idle, later))) in
          let fresh = sign.min_right _ _ fills.stays in
          let at_once : now - now ≡ 0 = omega arith in
          cc (gone, found, full, fresh, at_once, c.capacity, c.refill_rate)
    ]

    check-answer_same : (check floats key now l).1 ≡ (check floats key now l').1
    unfolding retry_after
    check-answer_same =
        check-answer floats key now l
        ∙ cc (refilled-Covers, c.refill_rate)
        ∙ sym (check-answer floats key now l')

    check-Covers : Covers start (check floats key now l).0 (check floats key now l').0
    check-Covers = record {
      capacity =
          check-capacity floats key now l ∙ c.capacity ∙ sym (check-capacity floats key now l');
      refill_rate =
          check-refill_rate floats key now l
          ∙ c.refill_rate
          ∙ sym (check-refill_rate floats key now l');
      buckets = λ k. elim (Bool-cases (k == key)) [
        | inl own ↦
            inl (
              cc
                (own, get-check floats key now l k, get-check floats key now l' k, refilled-Covers))
        | inr other ↦
            subst (λ o. SameOrIdle start o (HashMap.get k (check floats key now l').0.buckets))
              (sym (
                get-check floats key now l k
                ∙ ap
                    (λ b.
                      if b
                      then some (spent floats (refill floats now l (bucket_of floats key now l)))
                      else HashMap.get k l.buckets)
                    other))
              (subst (SameOrIdle start (HashMap.get k l.buckets))
                (sym (
                  get-check floats key now l' k
                  ∙ ap
                      (λ b.
                        if b
                        then some
                            (spent floats (refill floats now l' (bucket_of floats key now l')))
                        else HashMap.get k l'.buckets)
                      other))
                (c.buckets k))
      ];
    }

  -- The answers to a run of checks.
  abbrev pub answers : List (String × ℕ) → RateLimiter floats → List (Result (Unit {0}) ℕ)
  answers [] l = []
  answers ((key, now) ∷ checks) l =
      let (l', result) = check floats key now l in result ∷ answers checks l'

  abbrev pub NotBefore : ℕ → List (String × ℕ) → Type 0
  NotBefore start [] = Unit {0}
  NotBefore start ((key, now) ∷ checks) = (start ≤ now) × NotBefore start checks

  answers-Covers :
      (start : ℕ) (checks : List (String × ℕ)) (l l' : RateLimiter floats)
      → Covers start l l'
      → FillsInAnHour floats l.capacity l.refill_rate
      → NotBefore start checks
      → answers checks l ≡ answers checks l'
  answers-Covers start [] l l' c fills later = refl
  answers-Covers start ((key, now) ∷ checks) l l' c fills later =
      let rest =
        answers-Covers start checks (check floats key now l).0 (check floats key now l').0
          (check-Covers start l l' c fills key now later.0)
          (rw (check-capacity floats key now l, check-refill_rate floats key now l) fills)
          later.1 in
      cc (check-answer_same start l l' c fills key now later.0, rest)

  -- `get` after `retain`.
  get-select :
      (start : ℕ) (k : String) (m : HashMap String (Bucket floats))
      → IsMap m
      → HashMap.get k (select (λ e. ltb (start - e.1.last_update) hour) m)
        ≡ (elim (HashMap.get k m) [
          | none ↦ none
          | some b ↦ if ltb (start - b.last_update) hour then some b else none
        ])
  unfolding HashMap.get
  get-select start k [] h = refl
  get-select start k ((j, b) ∷ m) h = elim (Bool-cases (k == j)) [
    | inl own ↦
        let eq : j ≡ k = sym ((string_eq.agree k j).0 own) in
        let gone = subst (λ (x : String). HashMap.get x m ≡ none) eq h.0 in
        ground (arith, own, gone, get-select start k m h.1)
    | inr other ↦ ground (arith, other, get-select start k m h.1)
  ]

  cleanup-Covers :
      (start : ℕ) (l : RateLimiter floats)
      → IsMap l.buckets
      → IsPositive floats l
      → Covers start l (cleanup floats start l)
  unfolding cleanup
  cleanup-Covers start l m p = record {
    capacity = refl;
    refill_rate = refl;
    buckets = λ k. elim (Option-cases (HashMap.get k l.buckets)) [
      | inl absent ↦ inl (cc (absent, get-select start k l.buckets m))
      | inr (b, found) ↦ elim (Bool-cases (ltb (start - b.last_update) hour)) [
        | inl kept ↦ inl (ground (arith, found, kept, get-select start k l.buckets m))
        | inr dropped ↦ inr (
          ground (arith, found, dropped, get-select start k l.buckets m),
          (b, found, ground (arith, dropped), p k b found),
        )
      ]
    ];
  }

  module _ (capacity refill_rate : floats.F)
      (fills : FillsInAnHour floats capacity refill_rate) where
    -- Where an hour fills a bucket: after any run of checks of a new limiter, the removal of the
    -- buckets that have been idle for an hour changes no answer to any checks from then on.
    pub answers-cleanup :
        (earlier later : List (String × ℕ)) (start : ℕ)
        → NotBefore start later
        → let l = after_checks floats earlier (new floats capacity refill_rate) in
          answers later (cleanup floats start l) ≡ answers later l
    answers-cleanup earlier later start h =
        let l = after_checks floats earlier (new floats capacity refill_rate) in
        let s =
          after_checks-IsSound floats sign capacity refill_rate fills earlier
            (new floats capacity refill_rate)
            (new-IsSound floats sign capacity refill_rate fills) in
        sym (
          answers-Covers start later l (cleanup floats start l)
            (cleanup-Covers start l s.is_map s.is_positive)
            (rw (s.capacity_is, s.refill_rate_is) fills) h)
