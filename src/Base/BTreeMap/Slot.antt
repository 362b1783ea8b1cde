-- ===== src/Base/BTreeMap/Slot.antt =====
-- An entry of an ascending map, between the entries below and above it.
use Prim.Native.Nat.{ℕ, ◌<◌}
use mathlib.Core.Path.{◌≡◌, ap, ◌∙◌}
use mathlib.Core.List.{[], ◌∷◌, ◌++◌}
use mathlib.Core.Option.{some}
use native.Mathlib.Decide.{ℕ_discrete}
use native.Mathlib.Omega.{arith}
use cex_rs.Base.BTreeMap.{BTreeMap, get, insert, remove}
use cex_rs.Base.BTreeMap.Sorted.{IsSorted, Above, Above-mono, get_below, remove_below}

pub record Slot {V : Type 0} (p : ℕ) (v : V) (m : BTreeMap V) : Type 0 where
  pub lower : BTreeMap V
  pub upper : BTreeMap V
  pub split : m ≡ lower ++ (p, v) ∷ upper
  pub insert_is : (v' : V) → insert p v' m ≡ lower ++ (p, v') ∷ upper
  pub remove_is : (v' : V) → remove p (insert p v' m) ≡ lower ++ upper

module _ {V : Type 0} where
  insert_at : (p : ℕ) (v w : V) (m : BTreeMap V) → insert p v ((p, w) ∷ m) ≡ (p, v) ∷ m
  unfolding insert
  insert_at p v w m = ground arith

  remove_at : (p : ℕ) (v : V) (m : BTreeMap V) → Above p m → remove p ((p, v) ∷ m) ≡ m
  unfolding remove
  remove_at p v m a = ground (arith, remove_below m p a)

  insert_past :
      (p q : ℕ) (v w : V) (m : BTreeMap V) → q < p → insert p v ((q, w) ∷ m) ≡ (q, w) ∷ insert p v m
  unfolding insert
  insert_past p q v w m h = ground arith

  remove_past :
      (p q : ℕ) (w : V) (m : BTreeMap V) → q < p → remove p ((q, w) ∷ m) ≡ (q, w) ∷ remove p m
  unfolding remove
  remove_past p q w m h = ground arith

  found : (p q : ℕ) (v w : V) (m : BTreeMap V) → p ≡ q → get p ((q, w) ∷ m) ≡ some v → w ≡ v
  unfolding get
  found p q v w m same e = ground arith

  -- An entry that is further on has a larger key.
  further :
      (p q : ℕ) (v w : V) (m : BTreeMap V)
      → IsSorted ((q, w) ∷ m)
      → (p ≡ q → ⊥)
      → get p ((q, w) ∷ m) ≡ some v
      → (q < p) × (get p m ≡ some v)
  unfolding get
  further p q v w m s ne e = ground (arith, get_below m p, Above-mono m p q)

  pub slot : (p : ℕ) (v : V) (m : BTreeMap V) → IsSorted m → get p m ≡ some v → Slot p v m
  unfolding get
  slot p v [] s e = absurd (ground arith)
  slot p v ((q, w) ∷ m) s e = elim (ℕ_discrete p q) [
    | yes same ↦ record {
      lower = [];
      upper = m;
      split = rw (← same, found p q v w m same e);
      insert_is = λ v'. rw (← same) (insert_at p v' w m);
      remove_is =
          λ v'. rw (← same) (ap (remove p) (insert_at p v' w m) ∙ remove_at p v' m (rw same s.0));
    }
    | no ne ↦
        let (past, e') = further p q v w m s ne e in
        let r = slot p v m s.1 e' in
        record {
          lower = (q, w) ∷ r.lower;
          upper = r.upper;
          split = ap (◌∷◌ (q, w)) r.split;
          insert_is = λ v'. insert_past p q v' w m past ∙ ap (◌∷◌ (q, w)) (r.insert_is v');
          remove_is = λ v'.
              ap (remove p) (insert_past p q v' w m past)
              ∙ remove_past p q w (insert p v' m) past
              ∙ ap (◌∷◌ (q, w)) (r.remove_is v');
        }
  ]
