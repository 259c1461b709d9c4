-- ===== src/Fastdb/Cache/Bypass.antt =====
-- The write rate of a table in modules/fastdb/cache.go, and the bypass that it starts.
use web_spa.Base.{
  ℕ, suc, ◌+◌, ◌≤◌, ◌<◌, ◌≡◌, refl, sym, subst, Bool, true, ◌&&◌, List, [], ◌∷◌, Option, none, some,
  Bytes, bytes_eq, bytes_eq_refl, bytes_eq→eq, length, all, leb, arith, Bool-cases, inl, inr,
}
use web_spa.Lru.{has_table}
use web_spa.Fastdb.Cache.{
  Row, Cache, TableStats, bypassed, in_bypass, get, put, invalidate_table, record_write, lookup,
  insert,
}

lookup-insert_self {ℓ} :
    {A : Type ℓ} (k : Bytes) (v : A) (m : List (Bytes × A)) → lookup k (insert k v m) ≡ some v
unfolding lookup insert
lookup-insert_self k v [] = rw (bytes_eq_refl k) refl
lookup-insert_self k v ((j, w) ∷ m) = elim (Bool-cases (bytes_eq j k)) [
  | inl same ↦ rw same (rw (bytes_eq_refl k) refl)
  | inr other ↦ rw other (rw other (lookup-insert_self k v m))
]

-- Writes to a table at the given times.
pub write_all : Bytes → List ℕ → Cache → Cache
write_all table [] c = c
write_all table (now ∷ times) c = write_all table times (invalidate_table now table c)

-- Each time is in the window that begins at `start`.
abbrev pub in_window : ℕ → ℕ → List ℕ → Bool
in_window start window times = all (λ now. leb start now && leb now (start + window)) times

-- The state of a table in its window: how many writes it counts, and its bypass once they are
-- more than the threshold.
abbrev Counted : ℕ → ℕ → Cache → Option TableStats → Type 0
Counted start writes c none = ⊥
Counted start writes c (some st) =
    (st.window_start ≡ start)
    × (st.writes ≡ writes)
    × (writes ≤ c.bypass_write_threshold → st.bypassed_until ≤ start)
    × (c.bypass_write_threshold < writes → start + c.bypass_cooldown ≤ st.bypassed_until)

record_write-Counted :
    (now start writes : ℕ) (c : Cache) (st : TableStats)
    → start ≤ now
    → now ≤ start + c.bypass_window
    → Counted start writes c (some st)
    → Counted start (suc writes) c (some (record_write now c (some st)))
unfolding record_write
record_write-Counted now start writes c st after within h = ground arith

write_all-Counted :
    (table : Bytes) (times : List ℕ) (start writes : ℕ) (c : Cache)
    → in_window start c.bypass_window times ≡ true
    → Counted start writes c (lookup table c.tables)
    → Counted start (writes + length times) c (lookup table (write_all table times c).tables)
unfolding write_all invalidate_table
write_all-Counted table [] start writes c near h =
    subst (λ n. Counted start n c (lookup table c.tables)) (omega arith) h
write_all-Counted table (now ∷ times) start writes c near h =
    subst
      (λ n.
        Counted start n c
          (lookup table (write_all table times (invalidate_table now table c)).tables))
      (omega arith)
      (write_all-Counted table times start (suc writes) (invalidate_table now table c)
        (ground arith)
        (subst (λ o. Counted start (suc writes) c o)
          (sym (lookup-insert_self table (record_write now c (lookup table c.tables)) c.tables))
          (first (lookup table c.tables) h)))
  where
    first :
        (o : Option TableStats)
        → Counted start writes c o
        → Counted start (suc writes) c (some (record_write now c o))
    first none held = absurd held
    first (some st) held =
        record_write-Counted now start writes c st (ground arith) (ground arith) held

first_write-Counted : (start : ℕ) (c : Cache) → Counted start 1 c (some (record_write start c none))
unfolding record_write
first_write-Counted start c = ground arith

bypassed-of_table :
    (now : ℕ) (table : Bytes) (tables : List Bytes) (stats : List (Bytes × TableStats))
    → has_table table tables ≡ true
    → in_bypass now (lookup table stats) ≡ true
    → bypassed now tables stats ≡ true
unfolding bypassed has_table
bypassed-of_table now table [] stats h away = ground arith
bypassed-of_table now table (t ∷ tables) stats h away = elim (Bool-cases (bytes_eq t table)) [
  | inl same ↦
      rw (subst (λ x. in_bypass now (lookup x stats) ≡ true) (sym (bytes_eq→eq t table same)) away)
        refl
  | inr other ↦ rw (bypassed-of_table now table tables stats (rw other at h) away) (ground arith)
]

burst_until :
    (table : Bytes) (start : ℕ) (times : List ℕ) (c : Cache)
    → lookup table c.tables ≡ none
    → in_window start c.bypass_window times ≡ true
    → Counted start (1 + length times) c (lookup table (write_all table (start ∷ times) c).tables)
unfolding write_all invalidate_table
burst_until table start times c new near =
    write_all-Counted table times start 1 (invalidate_table start table c) near (
      subst (λ o. Counted start 1 c o)
        (sym (lookup-insert_self table (record_write start c (lookup table c.tables)) c.tables))
        (subst (λ o. Counted start 1 c (some (record_write start c o))) (sym new)
          (first_write-Counted start c)))

-- A table with no writes so far gets more writes than the threshold within one window. Until the
-- cooldown has passed since the first of them, queries that depend on the table neither read the
-- cache nor change it.
pub get-put-write_all :
    (table : Bytes) (start : ℕ) (times : List ℕ) (c : Cache) (now : ℕ) (sql : Bytes)
    (tables : List Bytes) (rows : List Row)
    → lookup table c.tables ≡ none
    → in_window start c.bypass_window times ≡ true
    → c.bypass_write_threshold ≤ length times
    → has_table table tables ≡ true
    → now < start + c.bypass_cooldown
    → (get now sql tables (write_all table (start ∷ times) c)
        ≡ (write_all table (start ∷ times) c, none))
      × (put now sql tables rows (write_all table (start ∷ times) c)
          ≡ write_all table (start ∷ times) c)
unfolding get put
get-put-write_all table start times c now sql tables rows new near many listed early =
    let away = bypassed-of_table now table tables _ listed (
      until (lookup table (write_all table (start ∷ times) c).tables)
        (burst_until table start times c new near)) in
    rw away (refl, refl)
  where
    until : (o : Option TableStats) → Counted start (1 + length times) c o → in_bypass now o ≡ true
    until none held = absurd held
    until (some st) held = ground arith
