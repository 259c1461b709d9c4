-- ===== src/Lru/Tests.antt =====
-- The entries of modules/fastdb/cache.go and cmd/main/output_cache.go on concrete states.
use web_spa.Base.{ℕ, ◌≡◌, ◌==◌, ==_iff, codes, ◌∷◌, []}
use web_spa.Lru.{KeyEq, Entry, Lru, remove, put_entry, drop_table, flush}
use web_spa.Lru.Sound.{IsSound, flush-IsSound, put_entry-IsSound}
use web_spa.Lru.Bounds.{fit_prefix, without_table, items-put_entry, items-drop_table}

instance abbrev number_key : KeyEq ℕ
number_key = record { eqb = ◌==◌; eqb_iff = ==_iff }

abbrev start : Lru ℕ ℕ
start = record {
  items = [];
  reverse = [];
  max_entries = 1;
  max_bytes = 10;
  cur_bytes = 0;
  evictions = 0;
}

abbrev page : ℕ → Entry ℕ ℕ
page k = record { key = k; value = k; tables = codes "t" ∷ []; bytes = 4 }

abbrev one_page : Lru ℕ ℕ
one_page = put_entry (page 1) (flush start)

one_page-IsSound : IsSound one_page
one_page-IsSound = put_entry-IsSound (page 1) (flush start) (flush-IsSound start)

items-put_entry_example :
    (put_entry (page 2) one_page).items
    ≡ fit_prefix one_page.max_entries one_page.max_bytes (page 2 ∷ remove 2 one_page.items)
items-put_entry_example = items-put_entry (page 2) one_page one_page-IsSound.valid

items-drop_table_example :
    (drop_table (codes "t") one_page).items ≡ without_table (codes "t") one_page.items
items-drop_table_example = items-drop_table (codes "t") one_page one_page-IsSound.valid
