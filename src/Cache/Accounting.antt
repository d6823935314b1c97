-- ===== src/Cache/Accounting.antt =====
-- The byte accounting of crates/lb-proxy/src/cache.rs: the total is exact and within its cap after
-- every operation, and what is put is found.
use distributed_load_balance.Prelude.{
  ℕ, ◌+◌, ◌-◌, ◌^◌, ◌≤◌, ◌<◌, ◌≡◌, refl, inl, inr, Bool, false, List, [], ◌∷◌, map, Option, none,
  some, String, arith, length, filter, ltb, leb, nat_eq, string_eq, Option-cases, Bool-cases,
}
use distributed_load_balance.Prelude.Dict.{
  lookup, insert, remove, contains_key, IsDistinct, insert-IsDistinct,
}
use distributed_load_balance.Cache.Store.{
  CacheEntry, ResponseCache, new, accounted_size, take_out, remove_expired, remove_all_expired,
  sweep_expired, get, evict_one, evict, make_room, reserve, store, put, purge_keys, purge,
  entry_for, wrapping_sub, key_of,
}

abbrev pub sizes : List (String × CacheEntry) → ℕ
sizes [] = 0
sizes ((k, e) ∷ m) = e.accounted_size + sizes m

abbrev size_of : Option CacheEntry → ℕ
size_of none = 0
size_of (some e) = e.accounted_size

-- The total counts the entries, and keeps to the cap; every key is stored once.
pub record IsAccounted (c : ResponseCache) : Type 0 where
  pub exact : c.total_bytes ≡ sizes c.entries
  pub capped : c.total_bytes ≤ c.max_total_bytes
  pub fits : c.max_total_bytes < 2 ^ 64
  pub distinct : IsDistinct c.entries

contains_key-remove :
    (k j : String) (m : List (String × CacheEntry))
    → contains_key j m ≡ false
    → contains_key j (remove k m) ≡ false
contains_key-remove k j [] h = refl
contains_key-remove k j ((i, e) ∷ m) h = ground (arith, contains_key-remove k j m)

remove-IsDistinct :
    (k : String) (m : List (String × CacheEntry)) → IsDistinct m → IsDistinct (remove k m)
remove-IsDistinct k [] d = tt
remove-IsDistinct k ((i, e) ∷ m) d =
    ground (arith, contains_key-remove k i m, remove-IsDistinct k m)

sizes_absent :
    (k : String) (m : List (String × CacheEntry))
    → contains_key k m ≡ false
    → sizes (remove k m) ≡ sizes m
sizes_absent k [] h = refl
sizes_absent k ((i, e) ∷ m) h = ground (arith, sizes_absent k m)

sizes-remove :
    (k : String) (m : List (String × CacheEntry))
    → IsDistinct m
    → size_of (lookup k m) + sizes (remove k m) ≡ sizes m
sizes-remove k [] d = refl
sizes-remove k ((i, e) ∷ m) d =
    ground (arith, string_eq.same_iff i k, sizes_absent k m, sizes-remove k m)

sizes-insert :
    (k : String) (v : CacheEntry) (m : List (String × CacheEntry))
    → size_of (lookup k m) + sizes (insert k v m) ≡ sizes m + v.accounted_size
sizes-insert k v [] = omega arith
sizes-insert k v ((i, e) ∷ m) = ground (arith, sizes-insert k v m)

sizes-lookup-le : (k : String) (m : List (String × CacheEntry)) → size_of (lookup k m) ≤ sizes m
sizes-lookup-le k [] = omega arith
sizes-lookup-le k ((i, e) ∷ m) = ground (arith, sizes-lookup-le k m)

-- A new cache, with a cap that a `usize` can hold.
pub new-IsAccounted :
    (max_entry max_total ttl : ℕ) → max_total < 2 ^ 64 → IsAccounted (new max_entry max_total ttl)
unfolding new
new-IsAccounted max_entry max_total ttl h = record {
  exact = refl;
  capped = omega arith;
  fits = h;
  distinct = tt;
}

pub take_out-IsAccounted :
    (c : ResponseCache) (key : String) → IsAccounted c → IsAccounted (take_out c key)
unfolding take_out
take_out-IsAccounted c key v = elim (Option-cases (lookup key c.entries)) [
  | inl n ↦ rw (n, take_out) v
  | inr (old, s) ↦
      let gone = rw s at (sizes-remove key c.entries v.distinct) in
      let left : wrapping_sub c.total_bytes old.accounted_size ≡ sizes (remove key c.entries) =
        omega (arith, v.exact, v.capped, v.fits, gone) in
      rw (s, take_out)
        (record {
          exact = left;
          capped = omega (arith, left, gone, v.exact, v.capped);
          fits = v.fits;
          distinct = remove-IsDistinct key c.entries v.distinct;
        })
]

remove_expired-IsAccounted :
    (c : ResponseCache) (key : String) (now : ℕ)
    → IsAccounted c
    → IsAccounted (remove_expired c key now)
unfolding remove_expired
remove_expired-IsAccounted c key now v = elim (Option-cases (lookup key c.entries)) [
  | inl n ↦ rw (n, remove_expired) v
  | inr (old, s) ↦ elim (Bool-cases (leb old.expires_at now)) [
    | inl e ↦ rw (s, remove_expired) (rw e (take_out-IsAccounted c key v))
    | inr e ↦ rw (s, remove_expired) (rw e v)
  ]
]

remove_all_expired-IsAccounted :
    (c : ResponseCache) (keys : List String) (now : ℕ)
    → IsAccounted c
    → IsAccounted (remove_all_expired c keys now)
unfolding remove_all_expired
remove_all_expired-IsAccounted c [] now v = v
remove_all_expired-IsAccounted c (key ∷ keys) now v =
    remove_all_expired-IsAccounted (remove_expired c key now) keys now
      (remove_expired-IsAccounted c key now v)

pub sweep_expired-IsAccounted :
    (c : ResponseCache) (now : ℕ) → IsAccounted c → IsAccounted (sweep_expired c now)
unfolding sweep_expired
sweep_expired-IsAccounted c now v =
    remove_all_expired-IsAccounted c (map key_of (filter (λ e. leb e.1.expires_at now) c.entries))
      now v

-- A lookup, hit or miss.
get-IsAccounted :
    (c : ResponseCache) (key : String) (now : ℕ) → IsAccounted c → IsAccounted (get c key now).0
unfolding get
get-IsAccounted c key now v = elim (Option-cases (lookup key c.entries)) [
  | inl n ↦ rw (n, get) v
  | inr (e, s) ↦ elim (Bool-cases (ltb now e.expires_at)) [
    | inl fresh ↦
        let same = rw s at (sizes-insert key (record e { last_used = c.access_tick }) c.entries) in
        rw (s, get)
          (rw fresh (record {
            exact = omega (arith, v.exact, same);
            capped = v.capped;
            fits = v.fits;
            distinct = insert-IsDistinct key _ c.entries v.distinct;
          }))
    | inr stale ↦ rw (s, get) (rw stale (remove_expired-IsAccounted c key now v))
  ]
]

pub evict_one-IsAccounted :
    (c : ResponseCache) (key : String) → IsAccounted c → IsAccounted (evict_one c key)
unfolding evict_one
evict_one-IsAccounted c key v = elim (Option-cases (lookup key c.entries)) [
  | inl n ↦ rw (n, evict_one) v
  | inr (old, s) ↦
      let t = take_out-IsAccounted c key v in
      rw (s, evict_one)
        (record { exact = t.exact; capped = t.capped; fits = t.fits; distinct = t.distinct })
]

evict-IsAccounted :
    (target : ℕ) (ages : List (ℕ × String)) (c : ResponseCache)
    → IsAccounted c
    → IsAccounted (evict target ages c)
unfolding evict
evict-IsAccounted target [] c v = v
evict-IsAccounted target ((age, key) ∷ rest) c v = elim (Bool-cases (leb c.total_bytes target)) [
  | inl e ↦ rw (e, evict) v
  | inr e ↦
      rw (e, evict)
        (evict-IsAccounted target rest (evict_one c key) (evict_one-IsAccounted c key v))
]

make_room-IsAccounted :
    (c : ResponseCache) (size now : ℕ) → IsAccounted c → IsAccounted (make_room c size now)
unfolding make_room
make_room-IsAccounted c size now v =
    elim (Bool-cases (leb (sweep_expired c now).total_bytes (c.max_total_bytes - size))) [
      | inl e ↦ rw (e, make_room) (sweep_expired-IsAccounted c now v)
      | inr e ↦
          rw (e, make_room)
            (evict-IsAccounted _ _ (sweep_expired c now) (sweep_expired-IsAccounted c now v))
    ]

-- Storing under a reservation of `size` bytes.
store-IsAccounted :
    (c reserved : ResponseCache) (key : String) (status : ℕ) (headers : List (String × String))
    (body : List ℕ) (ttl size now : ℕ)
    → IsAccounted c
    → reserve c size ≡ some reserved
    → IsAccounted (store reserved key status headers body ttl size now)
unfolding reserve store
store-IsAccounted c reserved key status headers body ttl size now v r =
    let room : c.total_bytes + size ≤ c.max_total_bytes = ground (arith, r) in
    let same : record c { total_bytes = c.total_bytes + size } ≡ reserved = ground (arith, r) in
    rw (← same) (elim (Option-cases (lookup key c.entries)) [
      | inl n ↦
          rw (n, store)
            (record {
              exact = omega (
                arith,
                v.exact,
                rw n at (sizes-insert key (entry_for c status headers body ttl size now) c.entries),
              );
              capped = room;
              fits = v.fits;
              distinct = insert-IsDistinct key _ c.entries v.distinct;
            })
      | inr (old, s) ↦
          let grown =
            rw s at (sizes-insert key (entry_for c status headers body ttl size now) c.entries) in
          let less = rw s at (sizes-lookup-le key c.entries) in
          rw (s, store)
            (record {
              exact = omega (arith, v.exact, v.fits, grown, less, room);
              capped = omega (arith, v.exact, v.fits, less, room);
              fits = v.fits;
              distinct = insert-IsDistinct key _ c.entries v.distinct;
            })
    ])

-- Putting, on every path.
put-IsAccounted :
    (c : ResponseCache) (key : String) (status : ℕ) (headers : List (String × String))
    (body : List ℕ) (ttl now : ℕ)
    → IsAccounted c
    → IsAccounted (put c key status headers body ttl now)
unfolding put
put-IsAccounted c key status headers body ttl now v =
    let size = accounted_size key headers (length body) in
    elim (Bool-cases (ltb c.max_entry_bytes (length body))) [
      | inl big ↦ rw (big, put) v
      | inr fit ↦ elim (Bool-cases (ltb c.max_total_bytes size)) [
        | inl big ↦ rw (fit, big, put) v
        | inr fits ↦ elim (Option-cases (reserve c size)) [
          | inr (reserved, r) ↦
              rw (fit, fits, r, put)
                (store-IsAccounted c reserved key status headers body ttl size now v r)
          | inl full ↦
              let made = make_room c size now in
              let w = make_room-IsAccounted c size now v in
              elim (Option-cases (reserve made size)) [
                | inl still ↦ rw (fit, fits, full, still, put) w
                | inr (reserved, r) ↦
                    rw (fit, fits, full, r, put)
                      (store-IsAccounted made reserved key status headers body ttl size now w r)
              ]
        ]
      ]
    ]

purge_keys-IsAccounted :
    (c : ResponseCache) (keys : List String) → IsAccounted c → IsAccounted (purge_keys c keys).0
unfolding purge_keys
purge_keys-IsAccounted c [] v = v
purge_keys-IsAccounted c (key ∷ keys) v =
    let ih = purge_keys-IsAccounted (take_out c key) keys (take_out-IsAccounted c key v) in
    elim (Option-cases (lookup key c.entries)) [
      | inl n ↦ rw (n, purge_keys) ih
      | inr (e, s) ↦ rw (s, purge_keys) ih
    ]

-- The operations of the listener and the sweeper.
pub data Operation : Type 0 where
  gets : String → ℕ → Operation
  puts : String → ℕ → List (String × String) → List ℕ → ℕ → ℕ → Operation
  purges : (String → Bool) → Operation
  sweeps : ℕ → Operation

unfoldable pub operate : ResponseCache → Operation → ResponseCache
operate c (gets key now) = (get c key now).0
operate c (puts key status headers body ttl now) = put c key status headers body ttl now
operate c (purges matches) = (purge c matches).0
operate c (sweeps now) = sweep_expired c now

operate-IsAccounted :
    (c : ResponseCache) (o : Operation) → IsAccounted c → IsAccounted (operate c o)
unfolding operate purge
operate-IsAccounted c (gets key now) v = get-IsAccounted c key now v
operate-IsAccounted c (puts key status headers body ttl now) v =
    put-IsAccounted c key status headers body ttl now v
operate-IsAccounted c (purges matches) v =
    purge_keys-IsAccounted c (map key_of (filter (λ e. matches e.0) c.entries)) v
operate-IsAccounted c (sweeps now) v = sweep_expired-IsAccounted c now v

unfoldable pub operate_all : ResponseCache → List Operation → ResponseCache
operate_all c [] = c
operate_all c (o ∷ os) = operate_all (operate c o) os

-- From an accounted cache, after any operations the total is the sum of the sizes of the entries,
-- and within the cap; every key is stored once.
pub operate_all-IsAccounted :
    (c : ResponseCache) (os : List Operation) → IsAccounted c → IsAccounted (operate_all c os)
unfolding operate_all
operate_all-IsAccounted c [] v = v
operate_all-IsAccounted c (o ∷ os) v =
    operate_all-IsAccounted (operate c o) os (operate-IsAccounted c o v)
