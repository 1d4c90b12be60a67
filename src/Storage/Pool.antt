-- ===== src/Storage/Pool.antt =====
-- src/storage/buffer_pool.h and buffer_pool.cpp: 64 frames over the database file, with an LRU
-- list of slots. A method returns its result with the pool that it leaves, also when it throws.
-- `frames_[slot]` and `meta_[slot]` are one record; a `Page*` into the pool is its slot.
pub mod Table
pub mod Valid
pub mod Evict
pub mod Victim
pub mod Update
pub mod Install
pub mod Fetch
pub mod NewPage
pub mod Release
pub mod Progress
pub mod Flush
pub mod Durable
pub mod Open
use gs_dbengine.Base.{
  ℕ, zero, suc, ◌+◌, ◌-◌, ◌%◌, ◌^◌, ◌<◌, ◌≡◌, ◌≢◌, Bool, true, false, List, [], ◌∷◌, length, Result,
  ok, err, if◌then◌else◌, ◌==◌, Option, none, some, reverse, all_pages_pinned,
}
unfoldable pub use gs_dbengine.Base.Assoc.{find, insert, erase}
use gs_dbengine.Storage.Page.{Page, IsPage, invalid_page, zero_page}
use gs_dbengine.Storage.Disk
use gs_dbengine.Storage.Disk.{Disk, IsDisk, read_page, write_page, allocate_page, sync, page_at}

abbrev pub buffer_pool_size : ℕ
buffer_pool_size = 64

pub record Frame : Type 0 where
  pub page : Page
  pub page_id : ℕ
  pub is_dirty : Bool
  pub pin_count : ℕ

-- A cleared page with a fresh `FrameMeta`.
unfoldable pub empty_frame : Frame
empty_frame = record { page = zero_page; page_id = invalid_page; is_dirty = false; pin_count = 0 }

pub record Pool : Type 0 where
  pub disk : Disk
  pub frames : ℕ → Frame
  pub page_table : List (ℕ × ℕ)
  pub lru_list : List ℕ

-- A write into the arrays of frames.
unfoldable pub set_frame : ℕ → Frame → (ℕ → Frame) → ℕ → Frame
set_frame slot f frames s = if s == slot then f else frames s

unfoldable pub without : ℕ → List ℕ → List ℕ
without slot [] = []
without slot (s ∷ slots) = let rest = without slot slots in if s == slot then rest else s ∷ rest

-- The slots from `n - 1` down to 0: the constructor pushes them to the back in rising order.
unfoldable pub slots_below : ℕ → List ℕ
slots_below zero = []
slots_below (suc n) = n ∷ slots_below n

unfoldable pub open_pool : Disk → Pool
unfolding slots_below empty_frame
open_pool d = record {
  disk = d;
  frames = λ _. empty_frame;
  page_table = [];
  lru_list = reverse (slots_below buffer_pool_size);
}

-- `touch`: the slot moves to the front of the list.
unfoldable pub touch : ℕ → Pool → Pool
touch slot p = record p { lru_list = slot ∷ without slot p.lru_list }

-- The last statements of `evict_frame`.
unfoldable pub clear_frame : ℕ → Pool → Pool
clear_frame slot p = record p { frames = set_frame slot empty_frame p.frames }

unfoldable pub drop_mapping : ℕ → ℕ → Result Disk → Pool → Result (Unit {0}) × Pool
drop_mapping slot old_page_id (err e) p = (err e, p)
drop_mapping slot old_page_id (ok d) p =
    (ok tt, clear_frame slot (record p { disk = d; page_table = erase old_page_id p.page_table }))

unfoldable pub evict_frame : ℕ → Pool → Result (Unit {0}) × Pool
evict_frame slot p =
    let f = p.frames slot in
    if f.page_id == invalid_page
    then (ok tt, clear_frame slot p)
    else drop_mapping slot f.page_id
        (if f.is_dirty then write_page f.page_id f.page p.disk else ok p.disk) p

-- The first slot of a list whose frame nobody has pinned.
unfoldable pub find_unpinned : (ℕ → Frame) → List ℕ → Option ℕ
find_unpinned frames [] = none
find_unpinned frames (slot ∷ slots) =
    if (frames slot).pin_count == 0 then some slot else find_unpinned frames slots

unfoldable pub slot_or_error : ℕ → Result (Unit {0}) → Result ℕ
slot_or_error slot (ok _) = ok slot
slot_or_error slot (err e) = err e

unfoldable pub evict_found : Option ℕ → Pool → Result ℕ × Pool
unfolding slot_or_error
evict_found none p = (err all_pages_pinned, p)
evict_found (some slot) p = let (r, p') = evict_frame slot p in (slot_or_error slot r, p')

-- The walk starts at the back, at the slot that was used least recently.
unfoldable pub evict_slot : Pool → Result ℕ × Pool
evict_slot p = evict_found (find_unpinned p.frames (reverse p.lru_list)) p

-- A page enters a slot: the frame, the mapping and the LRU list.
unfoldable pub install : ℕ → ℕ → Page → Pool → Pool
install page_id slot page p = touch slot (record p {
  frames =
      set_frame slot (record { page = page; page_id = page_id; is_dirty = false; pin_count = 1 })
        p.frames;
  page_table = insert page_id slot p.page_table;
})

unfoldable pub read_into : ℕ → ℕ → Pool → Result Page → Result ℕ × Pool
read_into page_id slot p (err e) = (err e, p)
read_into page_id slot p (ok page) = (ok slot, install page_id slot page p)

unfoldable pub fetch_miss : ℕ → Result ℕ × Pool → Result ℕ × Pool
fetch_miss page_id (err e, p) = (err e, p)
fetch_miss page_id (ok slot, p) = read_into page_id slot p (read_page page_id p.disk)

-- `pin_count++` on a uint32_t.
unfoldable pub pin : ℕ → Pool → Pool
pin slot p =
    let f = p.frames slot in
    touch slot (record p {
      frames = set_frame slot (record f { pin_count = (f.pin_count + 1) % 2 ^ 32 }) p.frames;
    })

unfoldable pub fetch_found : ℕ → Option ℕ → Pool → Result ℕ × Pool
fetch_found page_id (some slot) p = (ok slot, pin slot p)
fetch_found page_id none p = fetch_miss page_id (evict_slot p)

unfoldable pub fetch_page : ℕ → Pool → Result ℕ × Pool
unfolding fetch_found
fetch_page page_id p = fetch_found page_id (find page_id p.page_table) p

unfoldable pub unpin_slot : ℕ → Bool → Pool → Pool
unpin_slot slot is_dirty p =
    let f = p.frames slot in
    if f.pin_count == 0 then p else record p {
      frames =
          set_frame slot
            (record f {
              pin_count = f.pin_count - 1;
              is_dirty = if is_dirty then true else f.is_dirty;
            })
            p.frames;
    }

unfoldable pub unpin_found : Option ℕ → Bool → Pool → Pool
unpin_found none is_dirty p = p
unpin_found (some slot) is_dirty p = unpin_slot slot is_dirty p

unfoldable pub unpin_page : ℕ → Bool → Pool → Pool
unfolding unpin_found
unpin_page page_id is_dirty p = unpin_found (find page_id p.page_table) is_dirty p

unfoldable pub new_in_slot : ℕ → Result ℕ × Pool → Result (ℕ × ℕ) × Pool
new_in_slot page_id (err e, p) = (err e, p)
new_in_slot page_id (ok slot, p) = (ok (page_id, slot), install page_id slot (p.frames slot).page p)

-- `new_page` returns the id and the slot. The file has grown even when no slot is free.
unfoldable pub new_page : Pool → Result (ℕ × ℕ) × Pool
new_page p =
    let (page_id, d) = allocate_page p.disk in
    new_in_slot page_id (evict_slot (record p { disk = d }))

-- What a caller writes through the pointer that it holds.
unfoldable pub write_frame : ℕ → Page → Pool → Pool
write_frame slot page p = record p {
  frames = set_frame slot (record (p.frames slot) { page = page }) p.frames;
}

-- A dirty frame goes to the file and is clean then.
unfoldable pub flushed : ℕ → Result Disk → Pool → Result (Unit {0}) × Pool
flushed slot (err e) p = (err e, p)
flushed slot (ok d) p = (
  ok tt,
  record p {
    disk = d;
    frames = set_frame slot (record (p.frames slot) { is_dirty = false }) p.frames;
  },
)

unfoldable pub flush_slot : ℕ → ℕ → Pool → Result (Unit {0}) × Pool
flush_slot page_id slot p =
    let f = p.frames slot in
    if f.is_dirty then flushed slot (write_page page_id f.page p.disk) p else (ok tt, p)

unfoldable pub flush_found : ℕ → Option ℕ → Pool → Result (Unit {0}) × Pool
flush_found page_id none p = (ok tt, p)
flush_found page_id (some slot) p = flush_slot page_id slot p

unfoldable pub flush_page : ℕ → Pool → Result (Unit {0}) × Pool
unfolding flush_found
flush_page page_id p = flush_found page_id (find page_id p.page_table) p

-- A statement after one that may throw.
unfoldable pub and_then :
    Result (Unit {0}) × Pool → (Pool → Result (Unit {0}) × Pool) → Result (Unit {0}) × Pool
and_then (err e, p) next = (err e, p)
and_then (ok _, p) next = next p

-- The loop of `flush_all` over the entries of the page table, in the order of the list.
unfoldable pub flush_entries : List (ℕ × ℕ) → Pool → Result (Unit {0}) × Pool
unfolding and_then
flush_entries [] p = (ok tt, p)
flush_entries ((page_id, slot) ∷ table) p =
    and_then (flush_slot page_id slot p) (flush_entries table)

unfoldable pub sync_pool : Result (Unit {0}) × Pool → Result (Unit {0}) × Pool
sync_pool (err e, p) = (err e, p)
sync_pool (ok _, p) = (ok tt, record p { disk = sync p.disk })

unfoldable pub flush_all : Pool → Result (Unit {0}) × Pool
flush_all p = sync_pool (flush_entries p.page_table p)

unfoldable pub total_pages : Pool → ℕ
total_pages p = (p.disk).total_pages
