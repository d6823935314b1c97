-- ===== src/Examples/Cache.antt =====
-- A cache of a thousand bytes, which holds two entries.
use distributed_load_balance.Prelude.{◌+◌, ◌≤◌, ◌<◌, ◌≡◌, List, [], ◌∷◌, none, some, arith}
use distributed_load_balance.Cache.Store.{CacheEntry, ResponseCache, new, accounted_size, get, put}
use distributed_load_balance.Cache.Accounting.{
  IsAccounted, Operation, puts, gets, sweeps, operate_all, operate_all-IsAccounted, new-IsAccounted,
}
use distributed_load_balance.Cache.Served.{put-get}

abbrev operations : List Operation
operations =
    puts "GET|a|/|" 200 (("etag", "1") ∷ []) (1 ∷ 2 ∷ []) 50 10
    ∷ puts "GET|b|/|" 200 [] (3 ∷ []) 50 11
    ∷ gets "GET|a|/|" 12
    ∷ puts "GET|c|/|" 200 [] (4 ∷ []) 50 13
    ∷ sweeps 70
    ∷ []

start : IsAccounted (new 10 1000 60)
start = new-IsAccounted 10 1000 60 (omega arith)

operate_all-IsAccounted_example : IsAccounted (operate_all (new 10 1000 60) operations)
operate_all-IsAccounted_example = operate_all-IsAccounted (new 10 1000 60) operations start

abbrev filled : ResponseCache
filled = put (new 10 1000 60) "GET|a|/|" 200 [] (1 ∷ 2 ∷ []) 50 10

abbrev reads : List Operation
reads = gets "GET|a|/|" 12 ∷ sweeps 13 ∷ gets "GET|b|/|" 14 ∷ []

put-get_example :
    (15 < 10 + 50
      → (e : CacheEntry) × ((get (operate_all filled reads) "GET|a|/|" 15).1 ≡ some e)
        × (e.status ≡ 200)
        × (e.headers ≡ [])
        × (e.body ≡ 1 ∷ 2 ∷ []))
    × (10 + 50 ≤ 15 → (get (operate_all filled reads) "GET|a|/|" 15).1 ≡ none)
unfolding new accounted_size
put-get_example =
    put-get (new 10 1000 60) "GET|a|/|" 200 [] (1 ∷ 2 ∷ []) 50 10 15 reads start (omega arith)
      (omega arith) (omega arith, (omega arith, (omega arith, tt)))
