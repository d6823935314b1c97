-- ===== src/Cache/Served.antt =====
-- How long a response that was put into the cache of crates/lb-proxy/src/cache.rs is served from it.
use distributed_load_balance.Prelude.{
  ℕ, ◌+◌, ◌≤◌, ◌<◌, ◌≡◌, refl, ap, inl, inr, true, false, List, [], ◌∷◌, map, Option, none, some,
  String, All, arith, length, filter, ltb, leb, ◌==◌, string_eq, Option-cases, Bool-cases,
}
use distributed_load_balance.Prelude.Dict.{lookup, lookup-insert, lookup-remove}
use distributed_load_balance.Cache.Store.{
  CacheEntry, ResponseCache, accounted_size, take_out, remove_expired, remove_all_expired,
  sweep_expired, get, put, entry_for, used, key_of,
}
use distributed_load_balance.Cache.Accounting.{
  IsAccounted, Operation, gets, puts, purges, sweeps, operate, operate_all,
}
use distributed_load_balance.Cache.Service.{put-lookup}

-- A look-up of any key or a sweep, no later than `later`.
abbrev pub IsRead : ℕ → Operation → Type 0
IsRead later (gets key now) = now ≤ later
IsRead later (puts key status headers body ttl now) = ⊥
IsRead later (purges matches) = ⊥
IsRead later (sweeps now) = now ≤ later

-- An entry with the response of another, and its time of expiry.
abbrev IsOf : CacheEntry → CacheEntry → Type 0
IsOf stored e =
    (e.status ≡ stored.status)
    × (e.headers ≡ stored.headers)
    × (e.body ≡ stored.body)
    × (e.expires_at ≡ stored.expires_at)

-- The entry is there, or it is gone and its time is over.
abbrev Holds : CacheEntry → ℕ → Option CacheEntry → Type 0
Holds stored later none = stored.expires_at ≤ later
Holds stored later (some e) = IsOf stored e

module _ (stored : CacheEntry) (key : String) (later : ℕ) where
  abbrev IsStored : ResponseCache → Type 0
  IsStored c = Holds stored later (lookup key c.entries)

  expired :
      (now : ℕ) (o : Option CacheEntry) (old : CacheEntry)
      → now ≤ later
      → o ≡ some old
      → old.expires_at ≤ now
      → Holds stored later o
      → stored.expires_at ≤ later
  expired now none old le e x h = h
  expired now (some e') old le e x h =
      let same : e' ≡ old = cc e in
      let time = ap (λ (c : CacheEntry). c.expires_at) same in omega (arith, time, h.3, x, le)

  remove_expired-IsStored :
      (c : ResponseCache) (k : String) (now : ℕ)
      → now ≤ later
      → IsStored c
      → IsStored (remove_expired c k now)
  unfolding remove_expired take_out
  remove_expired-IsStored c k now le h = elim (Option-cases (lookup k c.entries)) [
    | inl n ↦ rw (n, remove_expired) h
    | inr (old, s) ↦ elim (Bool-cases (leb old.expires_at now)) [
      | inr fresh ↦ rw (s, remove_expired) (rw fresh h)
      | inl stale ↦
          rw (s, remove_expired)
            (rw stale (
              rw (s, take_out)
                (rw (lookup-remove k key c.entries) (elim (Bool-cases (k == key)) [
                  | inr other ↦ rw other h
                  | inl own ↦
                      let is = (string_eq.same_iff k key).0 own in
                      rw own (
                        expired now (lookup key c.entries) old le (rw is at s)
                          (ground (arith, stale)) h)
                ]))))
    ]
  ]

  remove_all_expired-IsStored :
      (c : ResponseCache) (keys : List String) (now : ℕ)
      → now ≤ later
      → IsStored c
      → IsStored (remove_all_expired c keys now)
  unfolding remove_all_expired
  remove_all_expired-IsStored c [] now le h = h
  remove_all_expired-IsStored c (k ∷ keys) now le h =
      remove_all_expired-IsStored (remove_expired c k now) keys now le
        (remove_expired-IsStored c k now le h)

  -- The entry that is served is put back with a new tick.
  touched :
      (c : ResponseCache) (e : CacheEntry) (o : Option CacheEntry)
      → o ≡ some e
      → Holds stored later o
      → IsOf stored (used c e)
  touched c e none s h = absurd (cc s)
  touched c e (some e') s h = let same : e' ≡ e = cc s in rw (← same) h

  get-IsStored :
      (c : ResponseCache) (k : String) (now : ℕ)
      → now ≤ later
      → IsStored c
      → IsStored (get c k now).0
  unfolding get
  get-IsStored c k now le h = elim (Option-cases (lookup k c.entries)) [
    | inl n ↦ rw (n, get) h
    | inr (e, s) ↦ elim (Bool-cases (ltb now e.expires_at)) [
      | inr stale ↦ rw (s, get) (rw stale (remove_expired-IsStored c k now le h))
      | inl fresh ↦
          rw (s, get)
            (rw fresh (
              rw (lookup-insert k key (used c e) c.entries) (elim (Bool-cases (k == key)) [
                | inr other ↦ rw other h
                | inl own ↦
                    let is = (string_eq.same_iff k key).0 own in
                    rw own (touched c e (lookup key c.entries) (rw is at s) h)
              ])))
    ]
  ]

  operate_all-IsStored :
      (c : ResponseCache) (os : List Operation)
      → All (IsRead later) os
      → IsStored c
      → IsStored (operate_all c os)
  unfolding operate_all operate sweep_expired
  operate_all-IsStored c [] r h = h
  operate_all-IsStored c (gets k now ∷ os) r h =
      operate_all-IsStored (get c k now).0 os r.1 (get-IsStored c k now r.0 h)
  operate_all-IsStored c (puts k status headers body ttl now ∷ os) r h = absurd r.0
  operate_all-IsStored c (purges matches ∷ os) r h = absurd r.0
  operate_all-IsStored c (sweeps now ∷ os) r h = operate_all-IsStored (sweep_expired c now) os r.1 (
      remove_all_expired-IsStored c (map key_of (filter (λ e. leb e.1.expires_at now) c.entries))
        now r.0 h)

  -- What a look-up answers.
  get-Holds :
      (c : ResponseCache)
      → IsStored c
      → (later < stored.expires_at
          → (e : CacheEntry) × ((get c key later).1 ≡ some e)
            × (e.status ≡ stored.status)
            × (e.headers ≡ stored.headers)
            × (e.body ≡ stored.body))
        × (stored.expires_at ≤ later → (get c key later).1 ≡ none)
  unfolding get
  get-Holds c h = elim (Option-cases (lookup key c.entries)) [
    | inl n ↦
        let over : stored.expires_at ≤ later = rw n at h in
        (λ early. absurd (omega (arith, early, over)), λ done. rw (n, get) refl)
    | inr (e, s) ↦
        let of : IsOf stored e = rw s at h in
        (
          λ early.
              (let fresh : ltb later e.expires_at ≡ true = ground (arith, of.3, early) in
                (used c e, rw (s, get) (rw fresh refl), of.0, of.1, of.2)),
          λ done.
              (let stale : ltb later e.expires_at ≡ false = ground (arith, of.3, done) in
                rw (s, get) (rw stale refl)),
        )
  ]

-- In an accounted cache, a response whose body and accounted size are within the limits is stored
-- whatever else the cache holds. After any look-ups and sweeps no later than `later` the key is
-- answered at `later` with its status, headers and body if its time to live is not over, and with
-- nothing if it is.
pub put-get :
    (c : ResponseCache) (key : String) (status : ℕ) (headers : List (String × String))
    (body : List ℕ) (ttl now later : ℕ) (os : List Operation)
    → IsAccounted c
    → length body ≤ c.max_entry_bytes
    → accounted_size key headers (length body) ≤ c.max_total_bytes
    → All (IsRead later) os
    → (later < now + ttl
        → (e : CacheEntry) × ((get
              (operate_all (put c key status headers body ttl now) os)
              key
              later).1
            ≡ some e)
          × (e.status ≡ status)
          × (e.headers ≡ headers)
          × (e.body ≡ body))
      × (now + ttl ≤ later
          → (get (operate_all (put c key status headers body ttl now) os) key later).1 ≡ none)
put-get c key status headers body ttl now later os v small le reads =
    let (r, s) = put-lookup c key status headers body ttl now v small le in
    let stored =
      entry_for r status headers body ttl (accounted_size key headers (length body)) now in
    let there : Holds stored later (lookup key (put c key status headers body ttl now).entries) =
      rw s (refl, refl, refl, refl) in
    get-Holds stored key later (operate_all (put c key status headers body ttl now) os)
      (operate_all-IsStored stored key later (put c key status headers body ttl now) os reads there)
