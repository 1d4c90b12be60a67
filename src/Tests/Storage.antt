-- ===== src/Tests/Storage.antt =====
-- The file and the pool, on a file of three pages.
use gs_dbengine.Base.{
  ℕ, ◌≡◌, ◌<◌, ◌+◌, ◌^◌, refl, true, false, ◌==◌, if◌then◌else◌, ok, err, Error, page_out_of_range,
  all_pages_pinned, none, some, arith, reverse, ◌⊎◌,
}
use gs_dbengine.Storage.Disk.{page_at}
use gs_dbengine.Storage.Disk.Pages.{page_at-IsPage}
use gs_dbengine.Storage.Pool.{
  Pool, open_pool, install, touch, set_frame, insert, fetch_page, new_page, unpin_page, write_frame,
  flush_all, find,
}
use gs_dbengine.Storage.Pool.Valid.{IsValid, view}
use gs_dbengine.Storage.Pool.Open.{open_pool-IsValid}
use gs_dbengine.Storage.Pool.Install.{install-IsValid}
use gs_dbengine.Storage.Pool.Victim.{AllPinned}
use gs_dbengine.Storage.Pool.Progress.{fetch_page-unpin_page}
use gs_dbengine.Storage.Pool.{without}
use gs_dbengine.Base.{[], ◌∷◌, ◌++◌}
use gs_dbengine.Storage.Pool.Fetch.{Fetched, fetch_page_cases, fetch_page_outside}
use gs_dbengine.Storage.Pool.NewPage.{Created, new_page_cases}
use gs_dbengine.Storage.Pool.Release.{unpin_page-IsValid, write-unpin_page}
use gs_dbengine.Storage.Pool.Durable.{Checkpointed, flush_all-Checkpointed}
use gs_dbengine.Tests.{ones, ones-IsPage, three_pages, three_pages-IsDisk}

abbrev pool : Pool
pool = open_pool three_pages

pool-IsValid : IsValid pool
pool-IsValid = (open_pool-IsValid three_pages three_pages-IsDisk).0

three_small : 3 + 1 < 2 ^ 32
three_small = omega arith

fetch_page_example :
    ((slot : ℕ) × (q : Pool) × (fetch_page 1 pool ≡ (ok slot, q)) × Fetched 1 slot pool q)
    ⊎ ((fetch_page 1 pool ≡ (err all_pages_pinned, pool))
        × (find 1 pool.page_table ≡ none)
        × AllPinned pool.frames (reverse pool.lru_list))
unfolding open_pool
fetch_page_example = fetch_page_cases 1 pool pool-IsValid (omega arith)

fetch_page_outside_example :
    (e : Error) × (q : Pool) × (fetch_page 9 pool ≡ (err e, q))
    × IsValid q
    × ((j : ℕ) → view q j ≡ view pool j)
    × (((e ≡ all_pages_pinned) × AllPinned pool.frames (reverse pool.lru_list))
        ⊎ (e ≡ page_out_of_range))
unfolding open_pool
fetch_page_outside_example = fetch_page_outside 9 pool pool-IsValid (omega arith)

new_page_example :
    ((slot : ℕ) × (q : Pool) × (new_page pool ≡ (ok (3, slot), q)) × Created pool slot q)
    ⊎ ((q : Pool) × (new_page pool ≡ (err all_pages_pinned, q))
        × IsValid q
        × ((j : ℕ) → j < 3 → view q j ≡ view pool j)
        × AllPinned pool.frames (reverse pool.lru_list))
unfolding open_pool
new_page_example = new_page_cases pool pool-IsValid three_small

unpin_page_example :
    IsValid (unpin_page 1 true pool) × ((j : ℕ) → view (unpin_page 1 true pool) j ≡ view pool j)
unpin_page_example = unpin_page-IsValid 1 true pool pool-IsValid

flush_all_example : (q : Pool) × (flush_all pool ≡ (ok tt, q)) × Checkpointed pool q
flush_all_example = flush_all-Checkpointed pool pool-IsValid

-- A pool whose slot 0 holds page 1 under one pin.
abbrev held : Pool
held = install 1 0 (page_at three_pages 1) pool

no_mapping : (id : ℕ) → find id pool.page_table ≡ none
unfolding open_pool find
no_mapping id = refl

held-IsValid : IsValid held
unfolding open_pool
held-IsValid =
    install-IsValid 1 0 (page_at three_pages 1) pool pool-IsValid (no_mapping 1)
      (λ j e. cc (e, no_mapping j)) (omega arith)
      (page_at-IsPage three_pages 1 three_pages-IsDisk (omega arith)) refl

held_find : find 1 held.page_table ≡ some 0
unfolding open_pool install touch find insert
held_find = refl

held_pin : (held.frames 0).pin_count ≡ 1
unfolding open_pool install touch set_frame
held_pin = refl

write-unpin_page_example :
    IsValid (unpin_page 1 true (write_frame 0 ones held))
    × ((j : ℕ)
        → view (unpin_page 1 true (write_frame 0 ones held)) j
          ≡ (if j == 1 then ones else view held j))
write-unpin_page_example =
    write-unpin_page 1 0 ones held held-IsValid held_find (omega (arith, held_pin)) ones-IsPage

-- The same page after its pin was given back.
abbrev released : Pool
released = unpin_page 1 false held

held_list : held.lru_list ≡ [] ++ 0 ∷ without 0 pool.lru_list
unfolding open_pool install touch
held_list = refl

fetch_page-unpin_page_example :
    (found : ℕ) × (q : Pool) × (fetch_page 2 released ≡ (ok found, q)) × Fetched 2 found released q
unfolding install touch open_pool
fetch_page-unpin_page_example =
    fetch_page-unpin_page 1 0 2 false [] (without 0 pool.lru_list) held held-IsValid held_find
      held_pin held_list (omega arith)
