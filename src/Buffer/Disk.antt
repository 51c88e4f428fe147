-- ===== src/Buffer/Disk.antt =====
-- class `DiskManager` of storage/disk/disk_manager.h and storage/disk/disk_manager.cpp, over a file
-- that the operating system reads and writes without a fault. The file is the map of the pages that
-- were written; the content of a page is of any type, with `zeros` for 4096 zero bytes.
use cpp_database_engine.Common.{
  ℕ, ◌+◌, ◌≡◌, refl, sym, inl, inr, Bool-cases, arith, ap, ◌∙◌, Bool, true, false, Option, none,
  some, List, if◌then◌else◌,
}
use cpp_database_engine.Common.Int.{ℤ, pos, ltb_ℤ, eqb_ℤ}
use cpp_database_engine.Common.SortedMap.{lookup, insert, lookup-insert}

pub record DiskManager (Data : Type 0) : Type 0 where
  pub file : List (ℤ × Data)
  pub next_page_id : ℕ
  pub num_reads : ℕ
  pub num_writes : ℕ

module _ {Data : Type 0} (zeros : Data) where
  abbrev pub or_zeros : Option Data → Data
  or_zeros none = zeros
  or_zeros (some bytes) = bytes

  -- The bytes at a page's offset; past the end of the file they are zero.
  unfoldable pub page_at : DiskManager Data → ℤ → Data
  page_at d page_id = or_zeros (lookup page_id d.file)

  -- `none` where it throws: `pread` refuses a negative offset.
  unfoldable pub read_page : DiskManager Data → ℤ → Option (DiskManager Data × Data)
  read_page d page_id =
      if ltb_ℤ page_id (pos 0)
      then none
      else some (record d { num_reads = d.num_reads + 1 }, page_at d page_id)

  unfoldable pub write_page : DiskManager Data → ℤ → Data → Option (DiskManager Data)
  write_page d page_id bytes =
      if ltb_ℤ page_id (pos 0)
      then none
      else some (record d { file = insert page_id bytes d.file; num_writes = d.num_writes + 1 })

  unfoldable pub allocate_page : DiskManager Data → ℤ × DiskManager Data
  allocate_page d = (pos d.next_page_id, record d { next_page_id = d.next_page_id + 1 })

  or_zeros-if :
      (b : Bool) (bytes : Data) (o : Option Data)
      → or_zeros (if b then some bytes else o) ≡ (if b then bytes else or_zeros o)
  or_zeros-if true bytes o = refl
  or_zeros-if false bytes o = refl

  -- A write changes its own page alone.
  pub page_at-write_page :
      (d d' : DiskManager Data) (p q : ℤ) (bytes : Data)
      → write_page d p bytes ≡ some d'
      → page_at d' q ≡ (if eqb_ℤ p q then bytes else page_at d q)
  unfolding page_at write_page
  page_at-write_page d d' p q bytes h = elim (Bool-cases (ltb_ℤ p (pos 0))) [
    | inl negative ↦ absurd (ground arith)
    | inr fits ↦
        let file' : insert p bytes d.file ≡ d'.file = ground arith in
        ap (λ f. or_zeros (lookup q f)) (sym file')
        ∙ ap or_zeros (lookup-insert p q bytes d.file)
        ∙ or_zeros-if (eqb_ℤ p q) bytes (lookup q d.file)
  ]

  -- A read returns the page, and changes no page.
  pub page_at-read_page :
      (d d' : DiskManager Data) (p : ℤ) (bytes : Data)
      → read_page d p ≡ some (d', bytes)
      → (page_at d p ≡ bytes) × ((q : ℤ) → page_at d' q ≡ page_at d q)
  unfolding page_at read_page
  page_at-read_page d d' p bytes h = elim (Bool-cases (ltb_ℤ p (pos 0))) [
    | inl negative ↦ absurd (ground arith)
    | inr fits ↦
        let file' : d.file ≡ d'.file = ground arith in
        let read : or_zeros (lookup p d.file) ≡ bytes = ground arith in
        (read, λ q. ap (λ f. or_zeros (lookup q f)) (sym file'))
  ]
