-- ===== src/Pool/BackendMap.antt =====
-- crates/lb-core/src/backend_map.rs: what is kept per backend (breakers, counts, metrics), and its
-- reconciliation with the backends of a new resolution.
use distributed_load_balance.Prelude.{
  ◌≤◌, ◌<◌, ◌≡◌, refl, sym, ◌∙◌, inl, inr, Bool, true, false, ◌&&◌, List, [], ◌∷◌, Option, none,
  some, String, arith, length, all, if◌then◌else◌, ◌==◌, nat_eq, string_eq, Bool-cases,
  Option-cases,
}
use distributed_load_balance.Prelude.Dict.{
  lookup, contains_key, insert, remove, lookup-insert, lookup-contains_key, contains_key_of_some,
}

abbrev pub BackendMap : Type 0 → Type 0
BackendMap T = List (String × T)

abbrev pub contains : String → List String → Bool
contains id [] = false
contains id (x ∷ xs) = if x == id then true else contains id xs

-- `HashSet::from_iter`.
abbrev distinct : List String → List String
distinct [] = []
distinct (x ∷ xs) = if contains x (distinct xs) then distinct xs else x ∷ distinct xs

abbrev pub or_make {ℓ} : {T : Type ℓ} → T → Option T → T
or_make made none = made
or_make made (some t) = t

abbrev AreDifferent : List String → Type 0
AreDifferent [] = Unit
AreDifferent (x ∷ xs) = (contains x xs ≡ false) × AreDifferent xs

distinct-contains : (k : String) (xs : List String) → contains k (distinct xs) ≡ contains k xs
distinct-contains k [] = refl
distinct-contains k (x ∷ xs) = ground (arith, string_eq.same_iff x k, distinct-contains k xs)

distinct-AreDifferent : (xs : List String) → AreDifferent (distinct xs)
distinct-AreDifferent [] = tt
distinct-AreDifferent (x ∷ xs) = elim (Bool-cases (contains x (distinct xs))) [
  | inl e ↦ rw e (distinct-AreDifferent xs)
  | inr e ↦ rw e (e, distinct-AreDifferent xs)
]

module _ {T : Type 0} where
  abbrev same_keys : BackendMap T → List String → Bool
  same_keys current live_set =
      length current == length live_set && all (λ id. contains_key id current) live_set

  abbrev keep_live : List String → BackendMap T → BackendMap T
  keep_live live [] = []
  keep_live live ((id, value) ∷ current) =
      if contains id live then (id, value) ∷ keep_live live current else keep_live live current

  abbrev add_missing : (String → T) → List String → BackendMap T → BackendMap T
  add_missing make [] next = next
  add_missing make (id ∷ live) next =
      add_missing make live (if contains_key id next then next else insert id (make id) next)

  unfoldable pub reconcile : BackendMap T → List String → (String → T) → BackendMap T
  reconcile current live make =
      if same_keys current (distinct live)
      then current
      else add_missing make live (keep_live live current)

  contains_key-remove :
      (k j : String) (m : BackendMap T)
      → contains_key j (remove k m) ≡ (if k == j then false else contains_key j m)
  contains_key-remove k j [] = ground arith
  contains_key-remove k j ((i, w) ∷ m) = ground (
    arith,
    string_eq.same_iff k j,
    string_eq.same_iff i k,
    string_eq.same_iff i j,
    contains_key-remove k j m,
  )

  length-remove-le : (k : String) (m : BackendMap T) → length (remove k m) ≤ length m
  length-remove-le k [] = omega arith
  length-remove-le k ((i, w) ∷ m) = ground (arith, length-remove-le k m)

  length-remove-lt :
      (k : String) (m : BackendMap T) → contains_key k m ≡ true → length (remove k m) < length m
  length-remove-lt k [] h = cc
  length-remove-lt k ((i, w) ∷ m) h = ground (arith, length-remove-lt k m, length-remove-le k m)

  -- Different ids that are all keys, as many as there are entries, are all the keys.
  abbrev AreKeys : List String → BackendMap T → Type 0
  AreKeys [] m = Unit
  AreKeys (x ∷ xs) m = (contains_key x m ≡ true) × AreKeys xs m

  remove-AreKeys :
      (x : String) (xs : List String) (m : BackendMap T)
      → contains x xs ≡ false
      → AreKeys xs m
      → AreKeys xs (remove x m)
  remove-AreKeys x [] m n a = tt
  remove-AreKeys x (y ∷ ys) m n a = (
    ground (arith, contains_key-remove x y m, string_eq.same_iff x y, string_eq.same_iff y x, a.0),
    remove-AreKeys x ys m (ground arith) a.1,
  )

  keys_are_all :
      (k : String) (xs : List String) (m : BackendMap T)
      → AreDifferent xs
      → AreKeys xs m
      → length m ≤ length xs
      → contains_key k m ≡ true
      → contains k xs ≡ true
  keys_are_all k [] [] d a n h = cc
  keys_are_all k [] (e ∷ m) d a n h = absurd (omega arith)
  keys_are_all k (x ∷ xs) m d a n h = elim (Bool-cases (x == k)) [
    | inl e ↦ rw e refl
    | inr e ↦ rw e (
        keys_are_all k xs (remove x m) d.1 (remove-AreKeys x xs m d.0 a.1)
          (omega (arith, length-remove-lt x m a.0)) (contains_key-remove x k m ∙ rw e h))
  ]

  all-AreKeys :
      (xs : List String) (m : BackendMap T) → all (λ id. contains_key id m) xs ≡ true → AreKeys xs m
  all-AreKeys [] m h = tt
  all-AreKeys (x ∷ xs) m h = (ground arith, all-AreKeys xs m (ground arith))

  lookup-keep_live :
      (k : String) (live : List String) (m : BackendMap T)
      → lookup k (keep_live live m) ≡ (if contains k live then lookup k m else none)
  lookup-keep_live k live [] = ground arith
  lookup-keep_live k live ((i, w) ∷ m) =
      ground (arith, string_eq.same_iff i k, lookup-keep_live k live m)

  abbrev wanted : Bool → T → Option T → Option T
  wanted true made o = some (or_make made o)
  wanted false made o = o

  -- A key has its value, or a new one.
  lookup-missing :
      (k x : String) (make : String → T) (m : BackendMap T)
      → lookup k (if contains_key x m then m else insert x (make x) m)
        ≡ wanted (x == k) (make k) (lookup k m)
  lookup-missing k x make m = elim (Option-cases (lookup x m)) [
    | inl n ↦
        rw (lookup-contains_key x m n)
          (ground (arith, lookup-insert x k (make x) m, string_eq.same_iff x k, n))
    | inr (v, e) ↦ rw (contains_key_of_some x m v e) (ground (arith, string_eq.same_iff x k, e))
  ]

  lookup-add_missing :
      (k : String) (make : String → T) (live : List String) (m : BackendMap T)
      → lookup k (add_missing make live m) ≡ wanted (contains k live) (make k) (lookup k m)
  lookup-add_missing k make [] m = refl
  lookup-add_missing k make (x ∷ live) m =
      lookup-add_missing k make live (if contains_key x m then m else insert x (make x) m)
      ∙ rw (lookup-missing k x make m) (ground arith)

  AreKeys-contains :
      (k : String) (xs : List String) (m : BackendMap T)
      → AreKeys xs m
      → contains k xs ≡ true
      → contains_key k m ≡ true
  AreKeys-contains k [] m a h = cc
  AreKeys-contains k (x ∷ xs) m a h = elim (Bool-cases (x == k)) [
    | inl e ↦ rw ((string_eq.same_iff x k).0 e) at a.0
    | inr e ↦ AreKeys-contains k xs m a.1 (rw e at h)
  ]

  same_set :
      (current : BackendMap T) (live : List String) (made : T) (id : String)
      → same_keys current (distinct live) ≡ true
      → lookup id current
        ≡ (if contains id live then some (or_make made (lookup id current)) else none)
  same_set current live made id e =
      let keys = all-AreKeys (distinct live) current (ground arith) in
      let size : length current ≡ length (distinct live) = ground arith in
      elim (Option-cases (lookup id current)) [
        | inl n ↦ elim (Bool-cases (contains id live)) [
          | inl live_id ↦ absurd (
              let known =
                AreKeys-contains id (distinct live) current keys
                  (distinct-contains id live ∙ live_id) in
              cc (sym known ∙ lookup-contains_key id current n))
          | inr gone ↦ rw (gone, n) refl
        ]
        | inr (v, found) ↦
            let live_id =
              sym (distinct-contains id live)
              ∙ keys_are_all id (distinct live) current (distinct-AreDifferent live) keys
                  (omega (arith, size)) (contains_key_of_some id current v found) in
            rw (live_id, found) refl
      ]

  -- After a reconciliation exactly the live backends have a value: the
  -- one that they had, or a new one.
  pub reconcile-lookup :
      (current : BackendMap T) (live : List String) (make : String → T) (id : String)
      → lookup id (reconcile current live make)
        ≡ (if contains id live then some (or_make (make id) (lookup id current)) else none)
  unfolding reconcile
  reconcile-lookup current live make id = elim (Bool-cases (same_keys current (distinct live))) [
    | inl e ↦ rw e (same_set current live (make id) id e)
    | inr e ↦
        let built = lookup-add_missing id make live (keep_live live current) in
        rw e (ground (arith, built, lookup-keep_live id live current))
  ]
