-- ===== src/Book/View/Priced.antt =====
-- The orders of a list of levels have the prices of their levels.
use mathlib.Core.List.{append_assoc, reverse-cons}
use cex_rs.Base.{
  ℕ, ◌≡◌, refl, sym, subst, ◌≢◌, some, List, [], ◌∷◌, ◌++◌, reverse, arith, nat_eq, count,
  Option-cases, inl, inr,
}
use cex_rs.Base.HashMap
use cex_rs.Base.HashMap.{HashMap}
use cex_rs.Base.BTreeMap
use cex_rs.Base.BTreeMap.{BTreeMap}
use cex_rs.Base.BTreeMap.Sorted.{IsSorted, get_below}
use cex_rs.Book.Types.{Order}
use cex_rs.Book.State.{PriceLevel}
use cex_rs.Book.View.{flat, queue_at, orders_of}

abbrev pub All {ℓ} : {A : Type ℓ} → (A → Type 0) → List A → Type 0
All P [] = Unit {0}
All P (x ∷ xs) = P x × All P xs

pub All-map {ℓ} :
    {A : Type ℓ} (P Q : A → Type 0) (xs : List A) → ((x : A) → P x → Q x) → All P xs → All Q xs
All-map P Q [] f a = tt
All-map P Q (x ∷ xs) f a = (f x a.0, All-map P Q xs f a.1)

pub All-append {ℓ} :
    {A : Type ℓ} (P : A → Type 0) (xs ys : List A) → All P xs → All P ys → All P (xs ++ ys)
All-append P [] ys a b = b
All-append P (x ∷ xs) ys a b = (a.0, All-append P xs ys a.1 b)

pub All-reverse {ℓ} : {A : Type ℓ} (P : A → Type 0) (xs : List A) → All P xs → All P (reverse xs)
All-reverse P [] a = tt
All-reverse P (x ∷ xs) a =
    subst (All P) (sym (reverse-cons x xs))
      (All-append P (reverse xs) (x ∷ []) (All-reverse P xs a.1) (a.0, tt))

module _ (orders : HashMap ℕ Order) where
  pub orders_of-append :
      (xs ys : List ℕ) → orders_of orders (xs ++ ys) ≡ orders_of orders xs ++ orders_of orders ys
  unfolding orders_of
  orders_of-append [] ys = refl
  orders_of-append (x ∷ xs) ys = ground (arith, orders_of-append xs ys)

  pub orders-flat-append :
      (m n : List (ℕ × PriceLevel))
      → orders_of orders (flat (m ++ n)) ≡ orders_of orders (flat m) ++ orders_of orders (flat n)
  unfolding flat orders_of
  orders-flat-append [] n = refl
  orders-flat-append ((p, l) ∷ m) n = rw (
    orders_of-append l.orders (flat (m ++ n)),
    orders_of-append l.orders (flat m),
    orders-flat-append m n,
    append_assoc,
  )

  -- The orders of a level have its key for their price.
  abbrev pub IsPriced : ℕ × PriceLevel → Type 0
  IsPriced (p, l) = All (λ o. o.price ≡ p) (orders_of orders l.orders)

  level-IsPriced :
      (p : ℕ) (ids : List ℕ)
      → ((id : ℕ) (o : Order) → count id ids ≢ 0 → HashMap.get id orders ≡ some o → o.price ≡ p)
      → All (λ o. o.price ≡ p) (orders_of orders ids)
  unfolding orders_of
  level-IsPriced p [] h = tt
  level-IsPriced p (x ∷ xs) h =
      let rest = level-IsPriced p xs (λ id o ne e. h id o (ground arith) e) in
      elim (Option-cases (HashMap.get x orders)) [
        | inl e ↦ rw (e, orders_of) rest
        | inr (o, e) ↦ rw (e, orders_of) (h x o (ground arith) e, rest)
      ]

  pub levels-IsPriced :
      (m : BTreeMap PriceLevel)
      → IsSorted m
      → ((p id : ℕ) (o : Order)
          → count id (queue_at p m) ≢ 0
          → HashMap.get id orders ≡ some o
          → o.price ≡ p)
      → All IsPriced m
  unfolding BTreeMap.get
  levels-IsPriced [] s h = tt
  levels-IsPriced ((p, l) ∷ m) s h = (
    level-IsPriced p l.orders (λ id o ne e. h p id o (ground arith) e),
    levels-IsPriced m s.1 (λ q id o ne e. h q id o (ground (arith, get_below m p s.0)) e),
  )

  -- What holds of the keys holds of the orders' prices.
  pub prices-flat :
      (P : ℕ → Type 0) (m : List (ℕ × PriceLevel))
      → All IsPriced m
      → All (λ x. P x.0) m
      → All (λ o. P o.price) (orders_of orders (flat m))
  unfolding flat orders_of
  prices-flat P [] a k = tt
  prices-flat P ((p, l) ∷ m) a k =
      subst (All (λ o. P o.price)) (sym (orders_of-append l.orders (flat m))) (
        All-append (λ o. P o.price) _ _ (level (orders_of orders l.orders) a.0)
          (prices-flat P m a.1 k.1))
    where
      level : (os : List Order) → All (λ o. o.price ≡ p) os → All (λ o. P o.price) os
      level [] b = tt
      level (o ∷ os) b = (subst P (sym b.0) k.0, level os b.1)
