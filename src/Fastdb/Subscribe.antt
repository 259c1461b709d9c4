-- ===== src/Fastdb/Subscribe.antt =====
-- modules/fastdb/subscribe.go: the write subscriptions of a pool, and the watcher of
-- modules/fastdb/invalidate.go that uses them. A subscription stands for its pointer.
pub mod Delivery
use web_spa.Fastdb.Cache.{Cache, flush_all}
use web_spa.Base.{
  ℕ, zero, suc, ◌+◌, Bool, true, false, not, ◌&&◌, ◌||◌, List, [], ◌∷◌, ◌++◌, Option, none, some,
  Bytes, ◌==◌, if◌then◌else◌,
}

-- `subs` is `none` before the first subscription; `next` is the pointer that the next one gets.
pub record Pool : Type 0 where
  pub subs : Option (List ℕ)
  pub closed : List ℕ
  pub next : ℕ

unfoldable pub member : ℕ → List ℕ → Bool
member s [] = false
member s (x ∷ xs) = x == s || member s xs

abbrev pub subscribers : Option (List ℕ) → List ℕ
subscribers none = []
subscribers (some subs) = subs

-- `Subscribe`: the slice is copied, with the new one at its end.
unfoldable pub subscribe : Pool → Pool × ℕ
subscribe p =
    (record p { subs = some (subscribers p.subs ++ p.next ∷ []); next = suc p.next }, p.next)

-- The loop of `Close`.
unfoldable pub without : ℕ → List ℕ → List ℕ
without s [] = []
without s (x ∷ xs) = let rest = without s xs in if x == s then rest else x ∷ rest

-- `Close`; the flag is set once, and only then the slice is copied.
unfoldable pub close : ℕ → Pool → Pool
unfolding member without
close s p = if member s p.closed then p else record p {
  closed = s ∷ p.closed;
  subs = elim p.subs [ none ↦ none | some subs ↦ some (without s subs) ];
}

unfoldable pub calls : Bytes → List ℕ → List (ℕ × Bytes)
calls table [] = []
calls table (s ∷ subs) = (s, table) ∷ calls table subs

-- `notifySubscribers`: the callbacks that run, in order.
unfoldable pub notify_subscribers : Bytes → Pool → List (ℕ × Bytes)
unfolding calls
notify_subscribers table p = calls table (subscribers p.subs)

-- What a round of the watcher finds: the cache and the subscriptions as they are then, and what
-- `readDataVersion` returns, with `none` for a failure.
pub record WatchRound : Type 0 where
  pub cache : Cache
  pub pool : Pool
  pub reading : Option ℕ

-- The cache after a round, and the callbacks that ran.
abbrev pub Effect : Type 0
Effect = Cache × List (ℕ × Bytes)

-- A table that is empty stands for all tables.
abbrev pub flush_and_notify : WatchRound → Effect
flush_and_notify r = (flush_all r.cache, notify_subscribers [] r.pool)

abbrev pub nothing : WatchRound → Effect
nothing r = (r.cache, [])

abbrev pub watch_reading : Option ℕ → WatchRound → Option ℕ → Effect × Option ℕ
watch_reading last r none = (nothing r, last)
watch_reading none r (some ver) = (nothing r, some ver)
watch_reading (some last) r (some ver) =
    (if not (ver == last) then flush_and_notify r else nothing r, some ver)

-- A round of `dataVersionWatcher.run` from the last version, which is `none` for -1: what it does,
-- and the version it keeps.
unfoldable pub watch_round : Option ℕ → WatchRound → Effect × Option ℕ
unfolding notify_subscribers flush_all
watch_round last r = watch_reading last r r.reading

-- The rounds of the watcher, between which anything may happen to the cache and the pool.
unfoldable pub watch : Option ℕ → List WatchRound → List Effect
unfolding watch_round
watch last [] = []
watch last (r ∷ rounds) = let (done, last') = watch_round last r in done ∷ watch last' rounds
