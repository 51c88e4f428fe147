-- ===== src/Buffer/Pool.antt =====
-- class `BufferPoolManager` of buffer/buffer_pool_manager.h and buffer/buffer_pool_manager.cpp, and
-- `Page` of buffer/page.h. The vector of pages is a map from frame ids; a `Page*` is a frame id.
-- `none` is an exception, or undefined behaviour of the replacer. One call holds the mutex.
pub mod Content
pub mod Fetch
use cpp_database_engine.Common.{
  ℕ, zero, suc, ◌+◌, ◌-◌, Bool, true, false, Option, none, some, List, [], ◌∷◌, ◌++◌, map, leb,
  ◌==◌, ◌||◌, if◌then◌else◌,
}
use cpp_database_engine.Common.Int.{ℤ, pos, negsuc}
use cpp_database_engine.Common.SortedMap.{lookup, insert, erase}
use cpp_database_engine.Buffer.Frames.{Eviction, undefined, no_victim, victim}
use cpp_database_engine.Buffer.Disk.{DiskManager, read_page, write_page, allocate_page}

-- buffer/replacer.h
pub record Replacer : Type 1 where
  pub State : Type 0
  pub evict : State → Eviction State
  pub record_access : State → ℤ → Option State
  pub set_evictable : State → ℤ → Bool → State
  pub remove : State → ℤ → Option State

pub record Page (Data : Type 0) : Type 0 where
  pub bytes : Data
  pub page_id : ℤ
  pub pin_count : ℕ
  pub is_dirty : Bool

pub record Pool (Data : Type 0) (replacer : Replacer) : Type 0 where
  pub state : replacer.State
  pub disk : DiskManager Data
  pub pages : List (ℤ × Page Data)
  pub page_table : List (ℤ × ℤ)
  pub free_list : List ℤ
  pub num_hits : ℕ
  pub num_misses : ℕ

infixl 5 ◌>>=◌
abbrev pub ◌>>=◌ : {A B : Type 0} → Option A → (A → Option B) → Option B
none >>= next = none
some a >>= next = next a

module _ {Data : Type 0} (zeros : Data) (replacer : Replacer) where
  -- `ResetMemory`; `INVALID_PAGE_ID` is -1.
  abbrev pub blank : Page Data
  blank = record { bytes = zeros; page_id = negsuc 0; pin_count = 0; is_dirty = false }

  -- The victim's last write.
  unfoldable pub write_back : DiskManager Data → Page Data → Option (DiskManager Data)
  write_back disk v = if v.is_dirty then write_page zeros disk v.page_id v.bytes else some disk

  -- The inner `none` is the result false.
  unfoldable pub acquire_frame : Pool Data replacer → Option (Option (ℤ × Pool Data replacer))
  acquire_frame s = elim s.free_list [
    | frame_id ∷ rest ↦ some (some (frame_id, record s { free_list = rest }))
    | [] ↦ elim (replacer.evict s.state) [
      | undefined ↦ none
      | no_victim ↦ some none
      | victim frame_id state ↦ do
        v ← lookup frame_id s.pages
        disk ← write_back s.disk v
        some (
            some (
              frame_id,
              record s {
                state = state;
                disk = disk;
                page_table = erase v.page_id s.page_table;
                pages = insert frame_id blank s.pages;
              },
            ))
    ]
  ]

  -- The end of `NewPage` and `FetchPage`: the page stands in its frame, pinned once.
  unfoldable pub install : Pool Data replacer → ℤ → ℤ → Data → Option (Pool Data replacer)
  install s frame_id page_id bytes = do
    state ← replacer.record_access s.state frame_id
    some (record s {
      pages =
          insert frame_id
            (record { bytes = bytes; page_id = page_id; pin_count = 1; is_dirty = false }) s.pages;
      page_table = insert page_id frame_id s.page_table;
      state = replacer.set_evictable state frame_id false;
    })

  -- The page id and the frame, or the null pointer.
  unfoldable pub new_page : Pool Data replacer → Option (Option (ℤ × ℤ) × Pool Data replacer)
  new_page s = do
    acquired ← acquire_frame s
    elim acquired [
      | none ↦ some (none, s)
      | some got ↦ do
        let (page_id, disk) = allocate_page zeros got.1.disk
        page ← lookup got.0 got.1.pages
        s' ← install (record got.1 { disk = disk }) got.0 page_id page.bytes
        some (some (page_id, got.0), s')
    ]

  -- A page that is in the pool.
  unfoldable pub hit : Pool Data replacer → ℤ → Option (Option ℤ × Pool Data replacer)
  hit s frame_id = do
    page ← lookup frame_id s.pages
    state ← replacer.record_access s.state frame_id
    some (
      some frame_id,
      record s {
        pages = insert frame_id (record page { pin_count = page.pin_count + 1 }) s.pages;
        state = replacer.set_evictable state frame_id false;
        num_hits = s.num_hits + 1;
      },
    )

  unfoldable pub miss : Pool Data replacer → ℤ → Option (Option ℤ × Pool Data replacer)
  miss s page_id = do
    let counted : Pool Data replacer = record s { num_misses = s.num_misses + 1 }
    acquired ← acquire_frame counted
    elim acquired [
      | none ↦ some (none, counted)
      | some got ↦ do
        (disk, bytes) ← read_page zeros got.1.disk page_id
        s' ← install (record got.1 { disk = disk }) got.0 page_id bytes
        some (some got.0, s')
    ]

  unfoldable pub fetch_page : Pool Data replacer → ℤ → Option (Option ℤ × Pool Data replacer)
  fetch_page s page_id = elim (lookup page_id s.page_table) [
    | some frame_id ↦ hit s frame_id
    | none ↦ miss s page_id
  ]

  -- What a client does with the `Page*`.
  unfoldable pub set_data : Pool Data replacer → ℤ → Data → Option (Pool Data replacer)
  set_data s frame_id bytes = do
    page ← lookup frame_id s.pages
    some (record s { pages = insert frame_id (record page { bytes = bytes }) s.pages })

  unfoldable pub unpin : Pool Data replacer → ℤ → Page Data → Bool → Bool × Pool Data replacer
  unpin s frame_id page is_dirty = elim page.pin_count [
    | zero ↦ (false, s)
    | suc pins ↦ (
      true,
      record s {
        pages =
            insert frame_id (record page { pin_count = pins; is_dirty = page.is_dirty || is_dirty })
              s.pages;
        state = if pins == 0 then replacer.set_evictable s.state frame_id true else s.state;
      },
    )
  ]

  unfoldable pub unpin_page : Pool Data replacer → ℤ → Bool → Option (Bool × Pool Data replacer)
  unpin_page s page_id is_dirty = elim (lookup page_id s.page_table) [
    | none ↦ some (false, s)
    | some frame_id ↦ do page ← lookup frame_id s.pages; some (unpin s frame_id page is_dirty)
  ]

  unfoldable pub flush_page : Pool Data replacer → ℤ → Option (Bool × Pool Data replacer)
  flush_page s page_id = elim (lookup page_id s.page_table) [
    | none ↦ some (false, s)
    | some frame_id ↦ do
      page ← lookup frame_id s.pages
      disk ← write_page zeros s.disk page.page_id page.bytes
      some (
        true,
        record s {
          disk = disk;
          pages = insert frame_id (record page { is_dirty = false }) s.pages;
        },
      )
  ]

  -- The loop of `FlushAllPages`.
  unfoldable pub flush_all : List (ℤ × ℤ) → Pool Data replacer → Option (Pool Data replacer)
  flush_all [] s = some s
  flush_all ((page_id, frame_id) ∷ table) s = do
    page ← lookup frame_id s.pages
    disk ← (if page.is_dirty then write_page zeros s.disk page_id page.bytes else some s.disk)
    flush_all table (record s {
      disk = disk;
      pages = insert frame_id (record page { is_dirty = false }) s.pages;
    })

  unfoldable pub flush_all_pages : Pool Data replacer → Option (Pool Data replacer)
  flush_all_pages s = flush_all s.page_table s

  unfoldable pub delete_page : Pool Data replacer → ℤ → Option (Bool × Pool Data replacer)
  delete_page s page_id = elim (lookup page_id s.page_table) [
    | none ↦ some (true, s)
    | some frame_id ↦ do
      page ← lookup frame_id s.pages
      elim page.pin_count [
        | suc pins ↦ some (false, s)
        | zero ↦ do
          state ← replacer.remove (replacer.set_evictable s.state frame_id true) frame_id
          some (
            true,
            record s {
              state = state;
              page_table = erase page_id s.page_table;
              pages = insert frame_id blank s.pages;
              free_list = s.free_list ++ frame_id ∷ [];
            },
          )
      ]
  ]

  -- The loop of the constructor, from frame `i` on.
  unfoldable pub frames_from : ℕ → ℕ → List ℤ
  frames_from i zero = []
  frames_from i (suc n) = pos i ∷ frames_from (suc i) n

  unfoldable pub new_pool : ℕ → DiskManager Data → replacer.State → Pool Data replacer
  new_pool pool_size disk state = record {
    state = state;
    disk = disk;
    pages = map (λ f. (f, blank)) (frames_from 0 pool_size);
    page_table = [];
    free_list = frames_from 0 pool_size;
    num_hits = 0;
    num_misses = 0;
  }
