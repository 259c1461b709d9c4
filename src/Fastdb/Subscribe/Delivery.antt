-- ===== src/Fastdb/Subscribe/Delivery.antt =====
-- Which subscriptions of modules/fastdb/subscribe.go a write reaches, and when the watcher of
-- modules/fastdb/invalidate.go flushes.
use web_spa.Base.{
  ℕ, ◌≡◌, refl, sym, ap, ◌∙◌, Bool, false, not, ◌&&◌, ◌||◌, List, [], ◌∷◌, ◌++◌, Option, none, some,
  Bytes, ◌==◌, arith, Option-cases, inl, inr, get_elem?, length, if◌then◌else◌,
}
use web_spa.Fastdb.Cache.{flush_all}
use web_spa.Fastdb.Subscribe.{
  Pool, member, subscribers, without, close, calls, notify_subscribers, WatchRound, Effect,
  flush_and_notify, nothing, watch_reading, watch_round, watch,
}

member-without : (s t : ℕ) (xs : List ℕ) → member t (without s xs) ≡ (member t xs && not (s == t))
unfolding member without
member-without s t [] = refl
member-without s t (x ∷ xs) = ground (arith, member-without s t xs)

-- Whether a callback runs for a table.
pub called : ℕ → List (ℕ × Bytes) → Bool
called s [] = false
called s ((t, table) ∷ rest) = t == s || called s rest

called-calls : (s : ℕ) (table : Bytes) (xs : List ℕ) → called s (calls table xs) ≡ member s xs
unfolding called calls member
called-calls s table [] = refl
called-calls s table (x ∷ xs) = ground (arith, called-calls s table xs)

called-notify :
    (t : ℕ) (table : Bytes) (p : Pool)
    → called t (notify_subscribers table p) ≡ member t (subscribers p.subs)
unfolding notify_subscribers
called-notify t table p = called-calls t table (subscribers p.subs)

subscribers-close :
    (s : ℕ) (p : Pool)
    → member s p.closed ≡ false
    → subscribers (close s p).subs ≡ without s (subscribers p.subs)
unfolding close without
subscribers-close s p still = elim (Option-cases p.subs) [
  | inl empty ↦ rw (still, close, empty) refl
  | inr (subs, held) ↦ rw (still, close, held) refl
]

-- Closing an open subscription stops its callback at any later write, and no other callback.
pub notify_subscribers-close :
    (s t : ℕ) (table : Bytes) (p : Pool)
    → member s p.closed ≡ false
    → called t (notify_subscribers table (close s p))
      ≡ (called t (notify_subscribers table p) && not (s == t))
notify_subscribers-close s t table p still =
    called-notify t table (close s p)
    ∙ ap (member t) (subscribers-close s p still)
    ∙ member-without s t (subscribers p.subs)
    ∙ ap (λ b. b && not (s == t)) (sym (called-notify t table p))

abbrev or_else : Option ℕ → Option ℕ → Option ℕ
or_else none v = v
or_else (some u) v = some u

-- The version of the last of these rounds that could read one.
abbrev pub last_version : List WatchRound → Option ℕ
last_version [] = none
last_version (r ∷ rounds) = or_else (last_version rounds) r.reading

-- A version was read before, one is read now, and they differ.
abbrev pub differs : Option ℕ → Option ℕ → Bool
differs (some u) (some v) = not (v == u)
differs _ _ = false

or_else_later : (u v w : Option ℕ) → or_else (or_else u v) w ≡ or_else u (or_else v w)
or_else_later none v w = refl
or_else_later (some u) v w = refl

watch_reading-differs :
    (last : Option ℕ) (r : WatchRound) (reading : Option ℕ)
    → watch_reading last r reading
      ≡ (if differs last reading then flush_and_notify r else nothing r, or_else reading last)
watch_reading-differs none r none = refl
watch_reading-differs (some u) r none = refl
watch_reading-differs none r (some v) = refl
watch_reading-differs (some u) r (some v) = refl

watch_from :
    (last : Option ℕ) (before : List WatchRound) (r : WatchRound) (after : List WatchRound)
    → get_elem? (watch last (before ++ r ∷ after)) (length before)
      ≡ some (
          if differs (or_else (last_version before) last) r.reading
          then flush_and_notify r
          else nothing r)
unfolding watch watch_round
watch_from last [] r after =
    ap (λ (e : Effect × Option ℕ). some e.0) (watch_reading-differs last r r.reading)
watch_from last (x ∷ before) r after =
    let here = watch_reading-differs last x x.reading in
    (λ i. get_elem? (watch (here i).1 (before ++ r ∷ after)) (length before))
    ∙ (watch_from (or_else x.reading last) before r after
        ∙ ap
            (λ (o : Option ℕ). some (if differs o r.reading then flush_and_notify r else nothing r))
            (sym (or_else_later (last_version before) x.reading last)))

-- Each round of a new watcher, whatever came before and comes after it: if the round reads a version,
-- some round before it could read one too, and the last of those versions is another, then it
-- flushes the cache and calls every subscriber for all tables. In every other case, a failed reading
-- and the first version that is read among them, it leaves the cache and calls no one.
pub watch_lem :
    (before : List WatchRound) (r : WatchRound) (after : List WatchRound)
    → get_elem? (watch none (before ++ r ∷ after)) (length before)
      ≡ some (
          if differs (last_version before) r.reading
          then (flush_all r.cache, calls [] (subscribers r.pool.subs))
          else (r.cache, []))
unfolding notify_subscribers
watch_lem before r after =
    watch_from none before r after
    ∙ ap (λ (o : Option ℕ). some (if differs o r.reading then flush_and_notify r else nothing r))
        (or_else_none (last_version before))
  where
    or_else_none : (o : Option ℕ) → or_else o none ≡ o
    or_else_none none = refl
    or_else_none (some v) = refl
