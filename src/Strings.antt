-- ===== src/Strings.antt =====
-- The UTF-8 string pool and the interned strings of jvm/src/string. The `length` bytes at a `char *` are a
-- list of numbers below 256 where the code reads no more than those, and an address in a memory of bytes
-- where it may read behind them.
pub mod Pool
pub mod Buckets
pub mod Keys
pub mod Names
pub mod Utf8
pub mod Encoding
pub mod Decoding
pub mod Signed
pub mod ClassNames
pub mod ClassKeys
pub mod Intern
pub mod Interned
pub mod Interning
mod Tests
use mjvmk.Base.{ℕ, Bool, true, false, List, [], ◌∷◌, ◌==◌, ◌&&◌}

-- `UTF8StringHashEntry` of stringPool.h, in the list of its index.
pub record Entry : Type 0 where
  pub name_key : ℕ
  pub string : List ℕ

-- `hashTableStruct` with the lists of entries by their index.
pub record HashTable : Type 0 where
  pub entry_count : ℕ
  pub count : ℕ
  pub entries : ℕ → List Entry

-- `length == stringLength` and `memoryCompare`.
abbrev pub same_text : List ℕ → List ℕ → Bool
same_text [] [] = true
same_text [] (d ∷ ds) = false
same_text (c ∷ cs) [] = false
same_text (c ∷ cs) (d ∷ ds) = (c == d) && same_text cs ds
