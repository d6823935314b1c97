-- ===== src/Cache/Store.antt =====
-- crates/lb-proxy/src/cache.rs: the entries of the response cache, the bytes that they are accounted
-- for, and eviction. Each method is one step; `now` is what it reads from the clock, in nanoseconds,
-- as are the durations. Byte counts are `usize`, ticks and evictions `u64`.
use Prim.Native.String.{compare, len}
use text.Mathlib.Text.{is_le}
use distributed_load_balance.Prelude.{
  ℕ, ◌+◌, ◌-◌, ◌/◌, ◌%◌, ◌^◌, Bool, ◌&&◌, ◌||◌, List, [], ◌∷◌, map, Option, none, some, String,
  length, filter, sum, ltb, leb, if◌then◌else◌, ◌==◌, nat_eq, string_eq,
}
use distributed_load_balance.Prelude.Dict.{lookup, insert, remove}

abbrev pub word : ℕ → ℕ
word n = n % 2 ^ 64

-- `fetch_sub` on an `AtomicUsize`, which wraps.
abbrev pub wrapping_sub : ℕ → ℕ → ℕ
wrapping_sub a b = word (a + (2 ^ 64 - b))

pub record CacheEntry : Type 0 where
  pub status : ℕ
  pub headers : List (String × String)
  pub body : List ℕ
  pub expires_at : ℕ
  pub accounted_size : ℕ
  pub last_used : ℕ

pub record ResponseCache : Type 0 where
  pub entries : List (String × CacheEntry)
  pub total_bytes : ℕ
  pub max_entry_bytes : ℕ
  pub max_total_bytes : ℕ
  pub default_ttl : ℕ
  pub access_tick : ℕ
  pub evictions : ℕ

unfoldable pub new : ℕ → ℕ → ℕ → ResponseCache
new max_entry_bytes max_total_bytes default_ttl = record {
  entries = [];
  total_bytes = 0;
  max_entry_bytes = max_entry_bytes;
  max_total_bytes = max_total_bytes;
  default_ttl = default_ttl;
  access_tick = 0;
  evictions = 0;
}

abbrev pub entry_overhead_bytes : ℕ
entry_overhead_bytes = 320

abbrev pub per_header_overhead_bytes : ℕ
per_header_overhead_bytes = 128

unfoldable pub accounted_size : String → List (String × String) → ℕ → ℕ
accounted_size key headers body_len =
    let headers_len = sum (map (λ h. len h.0 + len h.1 + per_header_overhead_bytes) headers) in
    word (entry_overhead_bytes + len key + headers_len + body_len)

-- `entries.remove(key)`, and what it gives back to the total.
unfoldable pub take_out : ResponseCache → String → ResponseCache
take_out c key = elim (lookup key c.entries) [
  | none ↦ c
  | some old ↦ record c {
    entries = remove key c.entries;
    total_bytes = wrapping_sub c.total_bytes old.accounted_size;
  }
]

unfoldable pub remove_expired : ResponseCache → String → ℕ → ResponseCache
unfolding take_out
remove_expired c key now = elim (lookup key c.entries) [
  | none ↦ c
  | some old ↦ if leb old.expires_at now then take_out c key else c
]

unfoldable pub remove_all_expired : ResponseCache → List String → ℕ → ResponseCache
unfolding remove_expired
remove_all_expired c [] now = c
remove_all_expired c (key ∷ keys) now = remove_all_expired (remove_expired c key now) keys now

abbrev pub key_of : String × CacheEntry → String
key_of e = e.0

unfoldable pub sweep_expired : ResponseCache → ℕ → ResponseCache
unfolding remove_all_expired
sweep_expired c now =
    remove_all_expired c (map key_of (filter (λ e. leb e.1.expires_at now) c.entries)) now

-- The entry that is served from, with the tick of this use.
abbrev pub used : ResponseCache → CacheEntry → CacheEntry
used c e = record e { last_used = c.access_tick }

-- The cache, and the entry that is served.
unfoldable pub get : ResponseCache → String → ℕ → ResponseCache × Option CacheEntry
unfolding remove_expired
get c key now = elim (lookup key c.entries) [
  | none ↦ (c, none)
  | some e ↦
      if ltb now e.expires_at
      then (
        record c {
          entries = insert key (used c e) c.entries;
          access_tick = word (c.access_tick + 1);
        },
        some (used c e),
      )
      else (remove_expired c key now, none)
]

-- The order of the pairs `(last_used, key)`.
abbrev pub older : ℕ × String → ℕ × String → Bool
older a b = ltb a.0 b.0 || (a.0 == b.0 && is_le (compare a.1 b.1))

abbrev pub insert_by_age : ℕ × String → List (ℕ × String) → List (ℕ × String)
insert_by_age a [] = a ∷ []
insert_by_age a (b ∷ bs) = if older a b then a ∷ b ∷ bs else b ∷ insert_by_age a bs

unfoldable pub sort_by_age : List (ℕ × String) → List (ℕ × String)
sort_by_age [] = []
sort_by_age (a ∷ as') = insert_by_age a (sort_by_age as')

-- The eviction of one key, and the loop.
unfoldable pub evict_one : ResponseCache → String → ResponseCache
unfolding take_out
evict_one c key = elim (lookup key c.entries) [
  | none ↦ c
  | some old ↦ record (take_out c key) { evictions = word (c.evictions + 1) }
]

unfoldable pub evict : ℕ → List (ℕ × String) → ResponseCache → ResponseCache
unfolding evict_one
evict target [] c = c
evict target ((age, key) ∷ rest) c =
    let later = evict target rest (evict_one c key) in if leb c.total_bytes target then c else later

abbrev pub age_of : String × CacheEntry → ℕ × String
age_of e = (e.1.last_used, e.0)

unfoldable pub make_room : ResponseCache → ℕ → ℕ → ResponseCache
unfolding sweep_expired evict sort_by_age
make_room c size now =
    let swept = sweep_expired c now in
    let headroom = c.max_total_bytes / 10 in
    let target = c.max_total_bytes - size - headroom in
    if leb swept.total_bytes (c.max_total_bytes - size)
    then swept
    else evict target (sort_by_age (map age_of swept.entries)) swept

-- The total with `size` added, unless that passes the cap or overflows.
unfoldable pub reserve : ResponseCache → ℕ → Option ResponseCache
reserve c size =
    if ltb (c.total_bytes + size) (2 ^ 64) && leb (c.total_bytes + size) c.max_total_bytes
    then some (record c { total_bytes = c.total_bytes + size })
    else none

-- The entry that `put` makes.
abbrev pub entry_for : ResponseCache → ℕ → List (String × String) → List ℕ → ℕ → ℕ → ℕ → CacheEntry
entry_for c status headers body ttl size now = record {
  status = status;
  headers = headers;
  body = body;
  expires_at = now + ttl;
  accounted_size = size;
  last_used = c.access_tick;
}

-- What `put` does once the bytes are reserved.
unfoldable pub store :
    ResponseCache → String → ℕ → List (String × String) → List ℕ → ℕ → ℕ → ℕ → ResponseCache
store c key status headers body ttl size now =
    let c' = record c {
      entries = insert key (entry_for c status headers body ttl size now) c.entries;
      access_tick = word (c.access_tick + 1);
    } in
    elim (lookup key c.entries) [
      | none ↦ c'
      | some old ↦ record c' { total_bytes = wrapping_sub c.total_bytes old.accounted_size }
    ]

unfoldable pub put :
    ResponseCache → String → ℕ → List (String × String) → List ℕ → ℕ → ℕ → ResponseCache
unfolding accounted_size reserve make_room store
put c key status headers body ttl now =
    let size = accounted_size key headers (length body) in
    if ltb c.max_entry_bytes (length body)
    then c
    else if ltb c.max_total_bytes size
    then c
    else elim (reserve c size) [
      | some reserved ↦ store reserved key status headers body ttl size now
      | none ↦
          let made = make_room c size now in
          elim (reserve made size) [
            | none ↦ made
            | some reserved ↦ store reserved key status headers body ttl size now
          ]
    ]

-- `key_matches(key, host, path_prefix)` is the argument `matches`.
unfoldable pub purge_keys : ResponseCache → List String → ResponseCache × ℕ
unfolding take_out
purge_keys c [] = (c, 0)
purge_keys c (key ∷ keys) =
    let (last, n) = purge_keys (take_out c key) keys in
    elim (lookup key c.entries) [ none ↦ (last, n) | some e ↦ (last, n + 1) ]

unfoldable pub purge : ResponseCache → (String → Bool) → ResponseCache × ℕ
unfolding purge_keys
purge c matches = purge_keys c (map key_of (filter (λ e. matches e.0) c.entries))
