-- ===== src/Engine.antt =====
-- engine/storage_engine.h: the interface that every storage engine implements, and that the SQL
-- executor uses. `view` is the abstract content: one entry for each key, in key order.
pub mod Reference
use cpp_database_engine.Common.{
  ◌≡◌, Bool, false, true, Option, none, some, List, leb, length, if◌then◌else◌,
}
use cpp_database_engine.Common.Int.{ℤ, IsInt64}
use cpp_database_engine.Common.Bytes.{Bytes}
use cpp_database_engine.Common.SortedMap.{lookup, insert, erase, from, Ascending, AllKeys}

-- `MAX_VALUE_SIZE` of common/config.h is 64; `put` throws, here `none`, on a larger value. The
-- iterator that `Scan` returns is the list of entries that it yields until it is exhausted.
pub record StorageEngine : Type 1 where
  pub State : Type 0
  pub get : State → ℤ → Option Bytes
  pub put : State → ℤ → Bytes → Option State
  pub delete : State → ℤ → State × Bool
  pub scan : State → ℤ → List (ℤ × Bytes)
  pub view : State → List (ℤ × Bytes)
  pub view_ascending : (s : State) → Ascending (view s)
  pub view_keys : (s : State) → AllKeys IsInt64 (view s)
  pub get-view : (s : State) (k : ℤ) → get s k ≡ lookup k (view s)
  pub scan-view : (s : State) (k : ℤ) → scan s k ≡ from k (view s)
  pub put-view :
      (s : State) (k : ℤ) (v : Bytes)
      → IsInt64 k
      → leb (length v) 64 ≡ true
      → (s' : State) × (put s k v ≡ some s') × (view s' ≡ insert k v (view s))
  pub put-large : (s : State) (k : ℤ) (v : Bytes) → leb (length v) 64 ≡ false → put s k v ≡ none
  pub delete-view : (s : State) (k : ℤ) → view (delete s k).0 ≡ erase k (view s)
  pub delete-found :
      (s : State) (k : ℤ)
      → (delete s k).1 ≡ elim (lookup k (view s)) [ none ↦ false | some _ ↦ true ]
