-- ===== src/Cache/Service.antt =====
-- The eviction of crates/lb-proxy/src/cache.rs, and what it leaves room for.
use distributed_load_balance.Prelude.{
  ℕ, ◌+◌, ◌-◌, ◌/◌, ◌^◌, ◌≤◌, ◌<◌, ◌≡◌, refl, sym, ap, ◌∙◌, ◌⊎◌, inl, inr, true, false, List, [],
  ◌∷◌, map, some, String, arith, length, filter, ltb, leb, ◌==◌, nat_eq, string_eq, Member,
  Option-cases, Bool-cases,
}
use distributed_load_balance.Prelude.Dict.{
  lookup, remove, contains_key, lookup-insert_self, lookup-contains_key,
}
use distributed_load_balance.Cache.Store.{
  CacheEntry, ResponseCache, accounted_size, take_out, remove_expired, remove_all_expired,
  sweep_expired, sort_by_age, insert_by_age, evict_one, evict, make_room, reserve, store, put,
  entry_for, key_of, age_of,
}
use distributed_load_balance.Cache.Accounting.{
  IsAccounted, sizes, sweep_expired-IsAccounted, evict_one-IsAccounted,
}

-- Every stored key is in the list.
abbrev Covers : List (ℕ × String) → List (String × CacheEntry) → Type 0
Covers ages m = (key : String) → contains_key key m ≡ true → (age : ℕ) × Member (age, key) ages

contains_key-remove_self :
    (key : String) (m : List (String × CacheEntry)) → contains_key key (remove key m) ≡ false
contains_key-remove_self key [] = refl
contains_key-remove_self key ((j, e) ∷ m) = ground (arith, contains_key-remove_self key m)

contains_key-remove-true :
    (key other : String) (m : List (String × CacheEntry))
    → contains_key other (remove key m) ≡ true
    → contains_key other m ≡ true
contains_key-remove-true key other [] h = h
contains_key-remove-true key other ((j, e) ∷ m) h =
    ground (arith, contains_key-remove-true key other m)

true-false : ¬ (true ≡ false)
true-false e = cc

rest-Covers :
    (age : ℕ) (key : String) (rest : List (ℕ × String)) (c : ResponseCache)
    → Covers ((age, key) ∷ rest) c.entries
    → Covers rest (evict_one c key).entries
unfolding evict_one take_out
rest-Covers age key rest c cov other h = elim (Option-cases (lookup key c.entries)) [
  | inl n ↦
      let here = rw (n, evict_one) at h in
      let (a, m) = cov other here in
      elim m [
        | inl e ↦
            let same : other ≡ key = ap (λ (x : ℕ × String). x.1) e in
            let gone = lookup-contains_key key c.entries n in
            absurd (true-false (sym (rw same at here) ∙ gone))
        | inr k ↦ (a, k)
      ]
  | inr (old, s) ↦
      let here = rw (s, take_out) at (rw (s, evict_one) at h) in
      let (a, m) = cov other (contains_key-remove-true key other c.entries here) in
      elim m [
        | inl e ↦
            let same : other ≡ key = ap (λ (x : ℕ × String). x.1) e in
            absurd (true-false (sym (rw same at here) ∙ contains_key-remove_self key c.entries))
        | inr k ↦ (a, k)
      ]
]

no_keys : (m : List (String × CacheEntry)) → Covers [] m → sizes m ≡ 0
no_keys [] cov = refl
no_keys ((j, e) ∷ m) cov = absurd ((cov j (rw ((string_eq.same_iff j j).1 refl) refl)).1)

evict-total :
    (target : ℕ) (ages : List (ℕ × String)) (c : ResponseCache)
    → IsAccounted c
    → Covers ages c.entries
    → (evict target ages c).total_bytes ≤ target
unfolding evict
evict-total target [] c v cov = omega (arith, v.exact, no_keys c.entries cov)
evict-total target ((age, key) ∷ rest) c v cov = elim (Bool-cases (leb c.total_bytes target)) [
  | inl e ↦ rw (e, evict) (ground (arith, e))
  | inr e ↦
      rw (e, evict)
        (evict-total target rest (evict_one c key) (evict_one-IsAccounted c key v)
          (rest-Covers age key rest c cov))
]

insert_by_age-Member :
    (a b : ℕ × String) (ages : List (ℕ × String))
    → (a ≡ b) ⊎ Member a ages
    → Member a (insert_by_age b ages)
insert_by_age-Member a b [] m = m
insert_by_age-Member a b (x ∷ ages) m = ground (arith, insert_by_age-Member a b ages)

sort_by_age-Member :
    (a : ℕ × String) (ages : List (ℕ × String)) → Member a ages → Member a (sort_by_age ages)
unfolding sort_by_age
sort_by_age-Member a [] m = m
sort_by_age-Member a (b ∷ ages) (inl e) = insert_by_age-Member a b (sort_by_age ages) (inl e)
sort_by_age-Member a (b ∷ ages) (inr m) =
    insert_by_age-Member a b (sort_by_age ages) (inr (sort_by_age-Member a ages m))

ages-Covers : (m : List (String × CacheEntry)) → Covers (map age_of m) m
ages-Covers [] key h = cc
ages-Covers ((j, e) ∷ m) key h = elim (Bool-cases (j == key)) [
  | inl same ↦ (
    e.last_used,
    inl (
        ap (λ (k : String). (let p : ℕ × String = (e.last_used, k) in p))
          (sym ((string_eq.same_iff j key).0 same))),
  )
  | inr ne ↦ let (a, n) = ages-Covers m key (ground (arith, h, ne)) in (a, inr n)
]

sorted-Covers : (m : List (String × CacheEntry)) → Covers (sort_by_age (map age_of m)) m
sorted-Covers m key h =
    let (a, n) = ages-Covers m key h in (a, sort_by_age-Member (a, key) (map age_of m) n)

-- What the operations leave alone.
abbrev SameLimits : ResponseCache → ResponseCache → Type 0
SameLimits c d = (c.max_total_bytes ≡ d.max_total_bytes) × (c.max_entry_bytes ≡ d.max_entry_bytes)

remove_expired-SameLimits :
    (c : ResponseCache) (key : String) (now : ℕ) → SameLimits (remove_expired c key now) c
unfolding remove_expired take_out
remove_expired-SameLimits c key now = ground arith

remove_all_expired-SameLimits :
    (c : ResponseCache) (keys : List String) (now : ℕ)
    → SameLimits (remove_all_expired c keys now) c
unfolding remove_all_expired
remove_all_expired-SameLimits c [] now = (refl, refl)
remove_all_expired-SameLimits c (key ∷ keys) now =
    let (a, b) = remove_all_expired-SameLimits (remove_expired c key now) keys now in
    let (a', b') = remove_expired-SameLimits c key now in (a ∙ a', b ∙ b')

evict_one-SameLimits : (c : ResponseCache) (key : String) → SameLimits (evict_one c key) c
unfolding evict_one take_out
evict_one-SameLimits c key = ground arith

evict-SameLimits :
    (target : ℕ) (ages : List (ℕ × String)) (c : ResponseCache) → SameLimits (evict target ages c) c
unfolding evict
evict-SameLimits target [] c = (refl, refl)
evict-SameLimits target ((age, key) ∷ rest) c = elim (Bool-cases (leb c.total_bytes target)) [
  | inl e ↦ rw (e, evict) (refl, refl)
  | inr e ↦
      let (a, b) = evict-SameLimits target rest (evict_one c key) in
      let (a', b') = evict_one-SameLimits c key in rw (e, evict) (a ∙ a', b ∙ b')
]

-- After `make_room` the size fits, whatever was stored.
make_room-fits :
    (c : ResponseCache) (size now : ℕ)
    → IsAccounted c
    → size ≤ c.max_total_bytes
    → ((make_room c size now).total_bytes + size ≤ (make_room c size now).max_total_bytes)
      × ((make_room c size now).max_total_bytes ≡ c.max_total_bytes)
unfolding make_room sweep_expired
make_room-fits c size now v le =
    let swept = sweep_expired c now in
    let same =
      (remove_all_expired-SameLimits c (map key_of (filter (λ e. leb e.1.expires_at now) c.entries))
        now).0 in
    let target = c.max_total_bytes - size - c.max_total_bytes / 10 in
    let ages = sort_by_age (map age_of swept.entries) in
    elim (Bool-cases (leb swept.total_bytes (c.max_total_bytes - size))) [
      | inl e ↦ rw (e, make_room) (ground (arith, e, same), same)
      | inr e ↦
          let kept = (evict-SameLimits target ages swept).0 ∙ same in
          let enough =
            evict-total target ages swept (sweep_expired-IsAccounted c now v)
              (sorted-Covers swept.entries) in
          rw (e, make_room) (omega (arith, kept, enough), kept)
    ]

reserve_room :
    (c : ResponseCache) (size : ℕ)
    → c.total_bytes + size ≤ c.max_total_bytes
    → c.max_total_bytes < 2 ^ 64
    → (r : ResponseCache) × (reserve c size ≡ some r)
unfolding reserve
reserve_room c size h fits = (record c { total_bytes = c.total_bytes + size }, ground arith)

store-lookup :
    (c : ResponseCache) (key : String) (status : ℕ) (headers : List (String × String))
    (body : List ℕ) (ttl size now : ℕ)
    → lookup key (store c key status headers body ttl size now).entries
      ≡ some (entry_for c status headers body ttl size now)
unfolding store
store-lookup c key status headers body ttl size now = elim (Option-cases (lookup key c.entries)) [
  | inl n ↦
      rw (n, store)
        (lookup-insert_self key (entry_for c status headers body ttl size now) c.entries)
  | inr (old, s) ↦
      rw (s, store)
        (lookup-insert_self key (entry_for c status headers body ttl size now) c.entries)
]

-- The put response is stored, after an eviction if need be.
pub put-lookup :
    (c : ResponseCache) (key : String) (status : ℕ) (headers : List (String × String))
    (body : List ℕ) (ttl now : ℕ)
    → IsAccounted c
    → length body ≤ c.max_entry_bytes
    → accounted_size key headers (length body) ≤ c.max_total_bytes
    → (r : ResponseCache) × (lookup key (put c key status headers body ttl now).entries
        ≡ some (entry_for r status headers body ttl (accounted_size key headers (length body)) now))
unfolding put
put-lookup c key status headers body ttl now v small le =
    let size = accounted_size key headers (length body) in
    let fit : ltb c.max_entry_bytes (length body) ≡ false = ground arith in
    let fits : ltb c.max_total_bytes size ≡ false = ground arith in
    elim (Option-cases (reserve c size)) [
      | inr (r, e) ↦
          (r, rw (fit, fits, e, put) (store-lookup r key status headers body ttl size now))
      | inl full ↦
          let made = make_room c size now in
          let (room, same) = make_room-fits c size now v le in
          let (r, e) = reserve_room made size room (omega (arith, same, v.fits)) in
          (r, rw (fit, fits, full, e, put) (store-lookup r key status headers body ttl size now))
    ]
