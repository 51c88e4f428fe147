-- ===== src/Lsm/Value.antt =====
-- lsm/lsm_value.h, and the memtable of lsm/memtable.h over the ordered map of the
-- entries of its skip list.
use cpp_database_engine.Common.{ℕ, ◌+◌, ◌%◌, ◌^◌, Bool, true, false, Option, List, [], length}
use cpp_database_engine.Common.Int.{ℤ}
use cpp_database_engine.Common.Bytes.{Bytes}
use cpp_database_engine.Common.SortedMap.{lookup, insert}

pub record LsmValue : Type 0 where
  pub value : Bytes
  pub deleted : Bool

abbrev pub Entries : Type 0
Entries = List (ℤ × LsmValue)

-- `LSMValue::Value` and `LSMValue::Tombstone`
unfoldable pub stored : Bytes → LsmValue
stored v = record { value = v; deleted = false }

unfoldable pub tombstone : LsmValue
tombstone = record { value = []; deleted = true }

pub record MemTable : Type 0 where
  pub list : Entries
  pub approximate_size_bytes : ℕ

abbrev pub empty_memtable : MemTable
empty_memtable = record { list = []; approximate_size_bytes = 0 }

unfoldable pub put_mem : MemTable → ℤ → Bytes → MemTable
put_mem mt key v = record {
  list = insert key (stored v) mt.list;
  approximate_size_bytes = (mt.approximate_size_bytes + (8 + length v)) % 2 ^ 64;
}

unfoldable pub delete_mem : MemTable → ℤ → MemTable
delete_mem mt key = record {
  list = insert key tombstone mt.list;
  approximate_size_bytes = (mt.approximate_size_bytes + 8) % 2 ^ 64;
}

unfoldable pub get_mem : MemTable → ℤ → Option LsmValue
get_mem mt key = lookup key mt.list
