-- ===== src/Prelude/Lists.antt =====
-- Lists measured and indexed by native numbers, under the library's names, and the searches,
-- sums and filters by Boolean tests that the components share.
use Prim.Native.Nat.{ℕ, zero, suc, ◌+◌, ◌≤◌, ◌<◌}
use mathlib.Core.Path.{◌≡◌, refl, sym, ap}
use mathlib.Core.Logic.{◌≢◌, ◌⊎◌, inl, inr}
use mathlib.Core.Bool.{Bool, true, false, not, ◌||◌, ◌&&◌}
use mathlib.Core.List.{List, [], ◌∷◌, ◌++◌, map}
use mathlib.Core.Option.{Option, none, some}
use native.Mathlib.Omega.{arith}
use distributed_load_balance.Prelude.Tests.{if◌then◌else◌}

module _ {ℓ} {A : Type ℓ} where
  abbrev pub length : List A → ℕ
  length [] = 0
  length (x ∷ xs) = suc (length xs)

  abbrev pub get_elem? : List A → ℕ → Option A
  get_elem? [] i = none
  get_elem? (x ∷ xs) zero = some x
  get_elem? (x ∷ xs) (suc i) = get_elem? xs i

  -- A write out of bounds changes nothing.
  abbrev pub modify : ℕ → (A → A) → List A → List A
  modify i f [] = []
  modify zero f (x ∷ xs) = f x ∷ xs
  modify (suc i) f (x ∷ xs) = x ∷ modify i f xs

  abbrev pub filter : (A → Bool) → List A → List A
  filter p [] = []
  filter p (x ∷ xs) = if p x then x ∷ filter p xs else filter p xs

  abbrev pub any : (A → Bool) → List A → Bool
  any p [] = false
  any p (x ∷ xs) = p x || any p xs

  abbrev pub all : (A → Bool) → List A → Bool
  all p [] = true
  all p (x ∷ xs) = p x && all p xs

  abbrev pub is_empty : List A → Bool
  is_empty [] = true
  is_empty (x ∷ xs) = false

  abbrev pub All {κ} : (A → Type κ) → List A → Type κ
  All P [] = Unit
  All P (x ∷ xs) = P x × All P xs

module _ {A : Type 0} where
  -- Membership that computes, so that the tactics can take it apart.
  abbrev pub Member : A → List A → Type 0
  Member a [] = ⊥
  Member a (x ∷ xs) = (a ≡ x) ⊎ Member a xs

abbrev pub sum : List ℕ → ℕ
sum [] = 0
sum (x ∷ xs) = x + sum xs

module _ {ℓ} {A : Type ℓ} where
  pub length-append : (xs ys : List A) → length (xs ++ ys) ≡ length xs + length ys
  length-append [] ys = omega arith
  length-append (x ∷ xs) ys = omega (arith, length-append xs ys)

  pub length-filter-le : (p : A → Bool) (xs : List A) → length (filter p xs) ≤ length xs
  length-filter-le p [] = omega arith
  length-filter-le p (x ∷ xs) = ground (arith, length-filter-le p xs)

  pub length-modify : (i : ℕ) (f : A → A) (xs : List A) → length (modify i f xs) ≡ length xs
  length-modify i f [] = refl
  length-modify zero f (x ∷ xs) = refl
  length-modify (suc i) f (x ∷ xs) = ap suc (length-modify i f xs)

  pub get_elem?-modify_self :
      (i : ℕ) (f : A → A) (xs : List A) {a : A}
      → get_elem? xs i ≡ some a
      → get_elem? (modify i f xs) i ≡ some (f a)
  get_elem?-modify_self i f [] h = cc
  get_elem?-modify_self zero f (x ∷ xs) h = ground arith
  get_elem?-modify_self (suc i) f (x ∷ xs) h = get_elem?-modify_self i f xs h

  pub get_elem?-modify_ne :
      (i j : ℕ) (f : A → A) (xs : List A) → i ≢ j → get_elem? (modify i f xs) j ≡ get_elem? xs j
  get_elem?-modify_ne i j f [] h = refl
  get_elem?-modify_ne zero zero f (x ∷ xs) h = absurd (h refl)
  get_elem?-modify_ne zero (suc j) f (x ∷ xs) h = refl
  get_elem?-modify_ne (suc i) zero f (x ∷ xs) h = refl
  get_elem?-modify_ne (suc i) (suc j) f (x ∷ xs) h =
      get_elem?-modify_ne i j f xs (λ e. h (ap suc e))

  pub get_elem?_total : (xs : List A) (i : ℕ) → i < length xs → (a : A) × (get_elem? xs i ≡ some a)
  get_elem?_total [] i h = absurd (omega arith)
  get_elem?_total (x ∷ xs) zero h = (x, refl)
  get_elem?_total (x ∷ xs) (suc i) h = get_elem?_total xs i (omega arith)

module _ {A : Type 0} where
  pub Member-filter :
      (p : A → Bool) (a : A) (xs : List A) → Member a (filter p xs) → Member a xs × (p a ≡ true)
  Member-filter p a [] m = absurd m
  Member-filter p a (x ∷ xs) m = ground (arith, Member-filter p a xs)

  pub filter-Member :
      (p : A → Bool) (a : A) (xs : List A) → Member a xs → p a ≡ true → Member a (filter p xs)
  filter-Member p a [] m h = absurd m
  filter-Member p a (x ∷ xs) m h = ground (arith, filter-Member p a xs)

  pub get_elem?-Member : (xs : List A) (i : ℕ) (a : A) → get_elem? xs i ≡ some a → Member a xs
  get_elem?-Member [] i a h = cc
  get_elem?-Member (x ∷ xs) zero a h = inl (ground arith)
  get_elem?-Member (x ∷ xs) (suc i) a h = inr (get_elem?-Member xs i a h)

module _ {A B : Type 0} (f : A → B) where
  pub Member-map : (b : B) (xs : List A) → Member b (map f xs) → (a : A) × Member a xs × (f a ≡ b)
  Member-map b [] m = absurd m
  Member-map b (x ∷ xs) (inl e) = (x, inl refl, sym e)
  Member-map b (x ∷ xs) (inr m) = let (a, n, e) = Member-map b xs m in (a, inr n, e)

  pub map-Member : (a : A) (xs : List A) → Member a xs → Member (f a) (map f xs)
  map-Member a [] m = absurd m
  map-Member a (x ∷ xs) (inl e) = inl (ap f e)
  map-Member a (x ∷ xs) (inr m) = inr (map-Member a xs m)

module _ {A : Type 0} where
  abbrev pub cons_some : Option A → List A → List A
  cons_some none xs = xs
  cons_some (some x) xs = x ∷ xs

  pub Member-cons_some :
      (o : Option A) (a : A) (xs : List A) → Member a (cons_some o xs) → (o ≡ some a) ⊎ Member a xs
  Member-cons_some none a xs m = inr m
  Member-cons_some (some x) a xs (inl e) = inl (ap some (sym e))
  Member-cons_some (some x) a xs (inr m) = inr m

  pub is_empty-filter : (p : A → Bool) (xs : List A) → is_empty (filter p xs) ≡ not (any p xs)
  is_empty-filter p [] = refl
  is_empty-filter p (x ∷ xs) = ground (arith, is_empty-filter p xs)

  pub get_elem?-modify :
      (i j : ℕ) (f : A → A) (xs : List A) {a : A}
      → get_elem? xs j ≡ some a
      → (b : A) × (get_elem? (modify i f xs) j ≡ some b) × ((b ≡ a) ⊎ (b ≡ f a))
  get_elem?-modify i j f [] h = cc
  get_elem?-modify zero zero f (x ∷ xs) {a} h = (f x, refl, inr (ground arith))
  get_elem?-modify zero (suc j) f (x ∷ xs) {a} h = (a, h, inl refl)
  get_elem?-modify (suc i) zero f (x ∷ xs) {a} h = (a, h, inl refl)
  get_elem?-modify (suc i) (suc j) f (x ∷ xs) h = get_elem?-modify i j f xs h

  pub modify-get_elem? :
      (i j : ℕ) (f : A → A) (xs : List A)
      → get_elem? xs j ≡ none
      → get_elem? (modify i f xs) j ≡ none
  modify-get_elem? i j f [] h = refl
  modify-get_elem? zero zero f (x ∷ xs) h = cc
  modify-get_elem? zero (suc j) f (x ∷ xs) h = h
  modify-get_elem? (suc i) zero f (x ∷ xs) h = cc
  modify-get_elem? (suc i) (suc j) f (x ∷ xs) h = modify-get_elem? i j f xs h

  pub Member-get_elem? :
      (xs : List A) (a : A) → Member a xs → (i : ℕ) × (i < length xs) × (get_elem? xs i ≡ some a)
  Member-get_elem? [] a m = absurd m
  Member-get_elem? (x ∷ xs) a (inl e) = (0, omega arith, ap some (sym e))
  Member-get_elem? (x ∷ xs) a (inr m) =
      let (i, l, e) = Member-get_elem? xs a m in (suc i, omega arith, e)

module _ {A : Type 0} where
  pub Member-append : (a : A) (xs ys : List A) → Member a (xs ++ ys) → Member a xs ⊎ Member a ys
  Member-append a [] ys m = inr m
  Member-append a (x ∷ xs) ys (inl e) = inl (inl e)
  Member-append a (x ∷ xs) ys (inr m) = elim (Member-append a xs ys m) [
    | inl n ↦ inl (inr n)
    | inr n ↦ inr n
  ]

  pub append-Member_left : (a : A) (xs ys : List A) → Member a xs → Member a (xs ++ ys)
  append-Member_left a [] ys m = absurd m
  append-Member_left a (x ∷ xs) ys (inl e) = inl e
  append-Member_left a (x ∷ xs) ys (inr m) = inr (append-Member_left a xs ys m)

  pub append-Member_right : (a : A) (xs ys : List A) → Member a ys → Member a (xs ++ ys)
  append-Member_right a [] ys m = m
  append-Member_right a (x ∷ xs) ys m = inr (append-Member_right a xs ys m)

module _ {ℓ} {A : Type ℓ} where
  pub get_elem?-lt : (xs : List A) (i : ℕ) {a : A} → get_elem? xs i ≡ some a → i < length xs
  get_elem?-lt [] i h = cc
  get_elem?-lt (x ∷ xs) zero h = omega arith
  get_elem?-lt (x ∷ xs) (suc i) h = omega (arith, get_elem?-lt xs i h)

  pub get_elem?-append_left :
      (xs ys : List A) (i : ℕ) {a : A} → get_elem? xs i ≡ some a → get_elem? (xs ++ ys) i ≡ some a
  get_elem?-append_left [] ys i h = cc
  get_elem?-append_left (x ∷ xs) ys zero h = h
  get_elem?-append_left (x ∷ xs) ys (suc i) h = get_elem?-append_left xs ys i h

  pub get_elem?-append_length :
      (xs : List A) (a : A) → get_elem? (xs ++ a ∷ []) (length xs) ≡ some a
  get_elem?-append_length [] a = refl
  get_elem?-append_length (x ∷ xs) a = get_elem?-append_length xs a
