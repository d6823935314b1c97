-- ===== src/Prelude/Dict.antt =====
-- Hash maps as association lists with distinct keys. `insert` overwrites in place or appends,
-- `remove` drops the entry; the order of entries stands for an arbitrary iteration order.
use Prim.Native.Nat.{suc, ◌≤◌, ◌<◌}
use mathlib.Core.Path.{◌≡◌, refl}
use mathlib.Core.Logic.{◌⊎◌, inl}
use mathlib.Core.Bool.{Bool, true, false}
use mathlib.Core.List.{List, [], ◌∷◌}
use mathlib.Core.Option.{Option, none, some}
use native.Mathlib.Omega.{arith}
use distributed_load_balance.Prelude.Tests.{if◌then◌else◌}
use distributed_load_balance.Prelude.Classes.{Eq, ◌==◌}
use distributed_load_balance.Prelude.Lists.{length}

abbrev pub keep_if {ℓ} : {A : Type ℓ} → (A → Bool) → Option A → Option A
keep_if p none = none
keep_if p (some a) = if p a then some a else none

module _ {ℓ κ} {K : Type ℓ} {V : Type κ} ⦃e : Eq K⦄ where
  abbrev pub lookup : K → List (K × V) → Option V
  lookup k [] = none
  lookup k ((j, v) ∷ m) = if j == k then some v else lookup k m

  abbrev pub contains_key : K → List (K × V) → Bool
  contains_key k [] = false
  contains_key k ((j, v) ∷ m) = if j == k then true else contains_key k m

  abbrev pub insert : K → V → List (K × V) → List (K × V)
  insert k v [] = (k, v) ∷ []
  insert k v ((j, w) ∷ m) = if j == k then (k, v) ∷ m else (j, w) ∷ insert k v m

  abbrev pub remove : K → List (K × V) → List (K × V)
  remove k [] = []
  remove k ((j, w) ∷ m) = if j == k then remove k m else (j, w) ∷ remove k m

module _ {ℓ κ} {K : Type ℓ} {V : Type κ} ⦃e : Eq K⦄ where
  pub lookup-insert :
      (k j : K) (v : V) (m : List (K × V))
      → lookup j (insert k v m) ≡ (if k == j then some v else lookup j m)
  lookup-insert k j v [] = refl
  lookup-insert k j v ((i, w) ∷ m) =
      ground (arith, e.same_iff k j, e.same_iff i k, e.same_iff i j, lookup-insert k j v m)

  pub lookup-remove :
      (k j : K) (m : List (K × V)) → lookup j (remove k m) ≡ (if k == j then none else lookup j m)
  lookup-remove k j [] = ground arith
  lookup-remove k j ((i, w) ∷ m) =
      ground (arith, e.same_iff k j, e.same_iff i k, e.same_iff i j, lookup-remove k j m)

  pub length-insert :
      (k : K) (v : V) (m : List (K × V))
      → length (insert k v m) ≡ (if contains_key k m then length m else suc (length m))
  length-insert k v [] = refl
  length-insert k v ((i, w) ∷ m) = ground (arith, length-insert k v m)

  pub contains_key-lookup :
      (k : K) (m : List (K × V)) → contains_key k m ≡ false → lookup k m ≡ none
  contains_key-lookup k [] h = refl
  contains_key-lookup k ((i, w) ∷ m) h = ground (arith, contains_key-lookup k m)

  pub lookup-contains_key :
      (k : K) (m : List (K × V)) → lookup k m ≡ none → contains_key k m ≡ false
  lookup-contains_key k [] h = refl
  lookup-contains_key k ((i, w) ∷ m) h = ground (arith, lookup-contains_key k m)

  pub contains_key_of_some :
      (k : K) (m : List (K × V)) (v : V) → lookup k m ≡ some v → contains_key k m ≡ true
  contains_key_of_some k [] v h = cc
  contains_key_of_some k ((i, w) ∷ m) v h = ground (arith, contains_key_of_some k m v)

  -- `retain` with a test on the value.
  abbrev pub retain : (V → Bool) → List (K × V) → List (K × V)
  retain p [] = []
  retain p ((j, v) ∷ m) = if p v then (j, v) ∷ retain p m else retain p m

module _ {ℓ κ} {K : Type ℓ} {V : Type κ} ⦃e : Eq K⦄ where
  pub length-retain-le : (p : V → Bool) (m : List (K × V)) → length (retain p m) ≤ length m
  length-retain-le p [] = omega arith
  length-retain-le p ((j, v) ∷ m) = ground (arith, length-retain-le p m)

  pub retain_cases :
      (p : V → Bool) (m : List (K × V)) → (retain p m ≡ m) ⊎ (length (retain p m) < length m)
  retain_cases p [] = inl refl
  retain_cases p ((j, v) ∷ m) = ground (arith, retain_cases p m, length-retain-le p m)

  pub contains_key-insert :
      (k j : K) (v : V) (m : List (K × V))
      → contains_key j (insert k v m) ≡ (if k == j then true else contains_key j m)
  contains_key-insert k j v [] = ground arith
  contains_key-insert k j v ((i, w) ∷ m) =
      ground (arith, e.same_iff k j, e.same_iff i k, e.same_iff i j, contains_key-insert k j v m)

  -- Keys occur once.
  abbrev pub IsDistinct : List (K × V) → Type 0
  IsDistinct [] = Unit
  IsDistinct ((j, v) ∷ m) = (contains_key j m ≡ false) × IsDistinct m

  pub contains_key-retain :
      (k : K) (p : V → Bool) (m : List (K × V))
      → contains_key k m ≡ false
      → contains_key k (retain p m) ≡ false
  contains_key-retain k p [] h = refl
  contains_key-retain k p ((j, v) ∷ m) h = ground (arith, contains_key-retain k p m)

  -- What `retain` keeps of a map is what passes the test.
  pub lookup-retain :
      (k : K) (p : V → Bool) (m : List (K × V))
      → IsDistinct m
      → lookup k (retain p m) ≡ keep_if p (lookup k m)
  lookup-retain k p [] d = refl
  lookup-retain k p ((j, v) ∷ m) d = ground (
    arith,
    e.same_iff j k,
    lookup-retain k p m,
    contains_key-retain k p m,
    contains_key-lookup k (retain p m),
  )

  pub insert-IsDistinct :
      (k : K) (v : V) (m : List (K × V)) → IsDistinct m → IsDistinct (insert k v m)
  insert-IsDistinct k v [] d = (refl, tt)
  insert-IsDistinct k v ((i, w) ∷ m) d =
      ground (
        arith,
        e.same_iff i k,
        e.same_iff k i,
        contains_key-insert k i v m,
        insert-IsDistinct k v m,
      )

  pub retain-IsDistinct : (p : V → Bool) (m : List (K × V)) → IsDistinct m → IsDistinct (retain p m)
  retain-IsDistinct p [] d = tt
  retain-IsDistinct p ((i, w) ∷ m) d =
      ground (arith, contains_key-retain i p m, retain-IsDistinct p m)

  pub lookup-insert_ne :
      (k j : K) (v : V) (m : List (K × V)) → ¬ (j ≡ k) → lookup j (insert k v m) ≡ lookup j m
  lookup-insert_ne k j v m ne =
      ground (arith, lookup-insert k j v m, e.same_iff k j, e.same_iff j k)

  pub lookup-insert_self : (k : K) (v : V) (m : List (K × V)) → lookup k (insert k v m) ≡ some v
  lookup-insert_self k v m = rw (lookup-insert, (e.same_iff k k).1 refl) refl
