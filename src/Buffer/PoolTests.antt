-- ===== src/Buffer/PoolTests.antt =====
-- A pool of one frame, which holds a dirty page, and a fetch of another page.
use cpp_database_engine.Common.{
  ℕ, ◌≡◌, refl, sym, ap, ◌∙◌, inl, inr, true, false, Option, none, some, [], ◌∷◌, Bool-cases,
  if◌then◌else◌,
}
use cpp_database_engine.Common.Int.{ℤ, pos, eqb_ℤ, eqb_ℤ_iff}
use cpp_database_engine.Common.SortedMap.{lookup}
use cpp_database_engine.Buffer.Frames.{victim, no_victim, increment, decrement, adjust}
use cpp_database_engine.Buffer.Lru
use cpp_database_engine.Buffer.Lru.{Lru, pick, may_go, unlist}
use cpp_database_engine.Buffer.Disk.{page_at, read_page, write_page, allocate_page}
use cpp_database_engine.Buffer.Pool.{
  Replacer, Page, Pool, write_back, acquire_frame, install, hit, miss, fetch_page,
}
use cpp_database_engine.Buffer.Pool.Content.{IsValid}
use cpp_database_engine.Buffer.Pool.Fetch.{Fetched, fetch_page-Fetched}

abbrev lru_replacer : Replacer
lru_replacer = record {
  State = Lru;
  evict = λ s. elim (Lru.evict s) [ none ↦ no_victim | some r ↦ victim r.0 r.1 ];
  record_access = Lru.record_access;
  set_evictable = Lru.set_evictable;
  remove = Lru.remove;
}

program : Unit {0}
unfolding increment decrement adjust pick may_go unlist Lru.evict Lru.record_access
    Lru.set_evictable Lru.remove page_at read_page write_page allocate_page write_back acquire_frame
    install hit miss fetch_page
program = tt

abbrev seven : Page ℕ
seven = record { bytes = 42; page_id = pos 7; pin_count = 0; is_dirty = true }

abbrev before : Pool ℕ lru_replacer
before = record {
  state = record {
    num_frames = 1;
    evictable_count = 1;
    lru_list = pos 0 ∷ [];
    frames = (pos 0, true) ∷ [];
  };
  disk = record { file = (pos 8, 99) ∷ []; next_page_id = 9; num_reads = 0; num_writes = 1 };
  pages = (pos 0, seven) ∷ [];
  page_table = (pos 7, pos 0) ∷ [];
  free_list = [];
  num_hits = 0;
  num_misses = 0;
}

abbrev after : Pool ℕ lru_replacer
after = record {
  state = record {
    num_frames = 1;
    evictable_count = 0;
    lru_list = pos 0 ∷ [];
    frames = (pos 0, false) ∷ [];
  };
  disk = record {
    file = (pos 7, 42) ∷ (pos 8, 99) ∷ [];
    next_page_id = 9;
    num_reads = 1;
    num_writes = 2;
  };
  pages = (pos 0, record { bytes = 99; page_id = pos 8; pin_count = 1; is_dirty = false }) ∷ [];
  page_table = (pos 8, pos 0) ∷ [];
  free_list = [];
  num_hits = 0;
  num_misses = 1;
}

fetched : fetch_page 0 lru_replacer before (pos 8) ≡ some (some (pos 0), after)
unfolding program
fetched = refl

only_entry : {V : Type 0} (k p : ℤ) (v w : V) → lookup p ((k, v) ∷ []) ≡ some w → (k ≡ p) × (v ≡ w)
only_entry {V = V} k p v w h = elim (Bool-cases (eqb_ℤ k p)) [
  | inl same ↦
      let hit' : some v ≡ some w = ap (λ b. if b then some v else none) (sym same) ∙ h in
      ((eqb_ℤ_iff k p).0 same, cc)
  | inr other ↦
      let miss' : ◌≡◌ {A = Option V} none (some w) =
        ap (λ b. if b then some v else none) (sym other) ∙ h in
      absurd (cc)
]

before-IsValid : IsValid 0 lru_replacer before
unfolding program
before-IsValid = record {
  ascending = (tt, tt);
  placed = λ p f h.
      let (same, frame) = only_entry (pos 7) p (pos 0) f h in
      (seven, ap (λ x. lookup x before.pages) (sym frame), same);
  clean = λ p f page h at_f unpinned untouched.
      let (frame, is) = only_entry (pos 0) f seven page at_f in
      let dirty : true ≡ page.is_dirty = ap (λ (x : Page ℕ). x.is_dirty) is in absurd (cc);
  free = tt;
  evictable = λ f state h.
      let frame : pos 0 ≡ f = cc in
      (seven, ap (λ x. lookup x before.pages) (sym frame), ap some frame, refl);
}

fetch_page-Fetched_example : Fetched 0 lru_replacer before (pos 8) (pos 0) after
fetch_page-Fetched_example =
    fetch_page-Fetched 0 lru_replacer before after (pos 8) (pos 0) before-IsValid fetched
