-- ===== src/Fastdb/Tests.antt =====
-- The query cache and the subscriptions of modules/fastdb on concrete states.
use web_spa.Base.{
  ℕ, ◌≡◌, ◌≤◌, ◌<◌, ◌+◌, ◌*◌, ◌^◌, refl, true, false, not, ◌&&◌, List, Bytes, bytes_eq, codes, ◌∷◌,
  ◌++◌, [], some, none, length, ◌==◌, arith, get_elem?, if◌then◌else◌,
}
use web_spa.Lru.{has_table}
use web_spa.Lru.Sound.{IsSound}
use web_spa.Fastdb.Cache.{
  nat_key, CacheConfig, Row, text, new_cache, flush_all, or_default, get, put, bypassed, lookup,
  estimate_bytes, rows_bytes, row_bytes,
}
use web_spa.Fastdb.Cache.Ops.{Op, store, run, run-new_cache-IsSound}
use web_spa.Fastdb.Cache.Hits.{remember_all, get-run-remember_all, get-put}
use web_spa.Fastdb.Cache.Bypass.{in_window, write_all, get-put-write_all}
use web_spa.Fastdb.Subscribe.{
  Pool, close, notify_subscribers, calls, subscribers, WatchRound, watch, member,
}
use web_spa.Fastdb.Subscribe.Delivery.{called, differs, notify_subscribers-close, watch_lem}

abbrev config : CacheConfig
config = record {
  max_entries = 2;
  max_bytes = 100;
  bypass_write_threshold = 2;
  bypass_window = 10;
  bypass_cooldown = 50;
}

abbrev query : Bytes
query = codes "q"

abbrev news : List Bytes
news = codes "news" ∷ []

abbrev rows : List Row
rows = ((codes "id", text (codes "7")) ∷ []) ∷ []

abbrev ops : List Op
ops = store 5 query news rows ∷ []

run-new_cache-IsSound_example :
    IsSound (run ops (new_cache config)).lru
    × (length (run ops (new_cache config)).lru.items ≤ or_default config.max_entries 4096)
    × ((run ops (new_cache config)).lru.cur_bytes ≤ or_default config.max_bytes (8 * 2 ^ 20))
run-new_cache-IsSound_example = run-new_cache-IsSound config ops

empty-IsSound : IsSound (new_cache config).lru
unfolding run
empty-IsSound = (run-new_cache-IsSound config []).0

usual : (now : ℕ) → bypassed now news (new_cache config).tables ≡ false
unfolding bypassed new_cache lookup
usual now = refl

limits_hold :
    (1 ≤ (new_cache config).lru.max_entries)
    × (estimate_bytes query rows ≤ (new_cache config).lru.max_bytes)
unfolding new_cache estimate_bytes rows_bytes row_bytes
limits_hold = omega arith

get-put_example : (get 6 query news (put 5 query news rows (new_cache config))).1 ≡ some rows
get-put_example =
    get-put 5 6 query news news rows (new_cache config) empty-IsSound (usual 5) (usual 6)
      limits_hold.0 limits_hold.1

hit : (get 6 query news (run ops (new_cache config))).1 ≡ some rows
unfolding run
hit = get-put_example

get-run-remember_all_example :
    (ts : List Bytes) × (remember_all ops (new_cache config) (λ q. none) query ≡ some (ts, rows))
get-run-remember_all_example = get-run-remember_all config ops 6 query news hit

abbrev later_writes : List ℕ
later_writes = 6 ∷ 7 ∷ []

no_writes : lookup (codes "news") (new_cache config).tables ≡ none
unfolding lookup new_cache
no_writes = refl

in_one_window : in_window 5 (new_cache config).bypass_window later_writes ≡ true
unfolding new_cache
in_one_window = refl

many_writes : (new_cache config).bypass_write_threshold ≤ length later_writes
unfolding new_cache
many_writes = omega arith

listed : has_table (codes "news") news ≡ true
unfolding has_table bytes_eq
listed = refl

early : 20 < 5 + (new_cache config).bypass_cooldown
unfolding new_cache
early = omega arith

get-put-write_all_example :
    (get 20 query news (write_all (codes "news") (5 ∷ later_writes) (new_cache config))
      ≡ (write_all (codes "news") (5 ∷ later_writes) (new_cache config), none))
    × (put 20 query news rows (write_all (codes "news") (5 ∷ later_writes) (new_cache config))
        ≡ write_all (codes "news") (5 ∷ later_writes) (new_cache config))
get-put-write_all_example =
    get-put-write_all (codes "news") 5 later_writes (new_cache config) 20 query news rows no_writes
      in_one_window many_writes listed early

abbrev pool : Pool
pool = record { subs = some (0 ∷ 1 ∷ []); closed = []; next = 2 }

open_still : member 1 pool.closed ≡ false
unfolding member
open_still = refl

notify_subscribers-close_example :
    called 0 (notify_subscribers (codes "news") (close 1 pool))
    ≡ (called 0 (notify_subscribers (codes "news") pool) && not (1 == 0))
notify_subscribers-close_example = notify_subscribers-close 1 0 (codes "news") pool open_still

abbrev round : ℕ → WatchRound
round ver = record { cache = new_cache config; pool = pool; reading = some ver }

abbrev failed_round : WatchRound
failed_round = record (round 0) { reading = none }

watch_lem_example :
    get_elem? (watch none ((round 7 ∷ failed_round ∷ []) ++ round 8 ∷ [])) 2
    ≡ some (
        if differs (some 7) (some 8)
        then (flush_all (new_cache config), calls [] (subscribers pool.subs))
        else (new_cache config, []))
watch_lem_example = watch_lem (round 7 ∷ failed_round ∷ []) (round 8) []
