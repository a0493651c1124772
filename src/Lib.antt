-- ===== src/Lib.antt =====
-- A model of tfplus, embedding tables by keys for recommendation models, with theorems on it.
--
-- The core of the program is `KvVariable` (tfplus/kv_variable/kernels/kv_variable.h), a table from
-- 64-bit keys to rows of floating-point numbers. A lookup or an update of a row goes through
-- `TableManager` (hybrid_embedding/table_manager.h), which finds the record of the key in a map
-- (hashmap.h) and hands the row to a callback in an `EVContext` (embedding_context.h); the record,
-- `EmbeddingValue` (embedding_value.h), packs flags, a frequency and a day, and a pointer to a buffer
-- that it may own. `MemStorageTable` (storage_table.h) counts what is stored. `ExportValues`
-- (dynamic_save.hpp) writes the table to tensors.
--
-- Modules, for the files of tfplus/kv_variable/kernels:
-- - Utility (utility.h, utility.cc): `SaturateMaxFrequency`, `SaturateAddFrequency`, the packed
--   word of frequency and day, `google_floor_mod` and `ModKeyImpl`, `Gcd` and `HasPublicKeys`.
-- - Lock (mutex.h): the guards over mutexes; Dense is the locks of `ConcurrentDenseHashMap` (hashmap.h).
-- - HashMap (hashmap.h): the interface `IMap` with the laws that clients rely on, filled by Unordered
--   (`UnorderedMap`) and Segmented (`ConcurrentUnorderedMap`, 1031 segments); MultiLevel
--   (`MultiLevelHashMap`, which splits a key into a table and a part of 52 bits); Factory (the choice
--   of a class by `MapFactory` and by the constructor of `MultiLevelHashMap`).
-- - Memory: the buffers of `AllocateRaw` and `DeallocateRaw`; a use of a freed or null buffer, and a read
--   of one that was never written, is a fault.
-- - Embedding (embedding_value.h, hybrid_embedding/embedding_context.h): Value and Context.
-- - Table (hybrid_embedding/storage_table.h, hybrid_embedding/table_manager.h): Storage, Manager and
--   Blacklist are the code; Ownership, Owned and Release are the invariants on buffers and what keeps
--   them, Insertion, Removal and Restore are about the operations.
-- - Variable (kv_variable.h, dynamic_save.hpp): Values, Lookup (`FindOrZeros`, `FindOrInsert`), Update
--   (`InsertOrUpdate`, `ScatterUpdate`, `Delete`, `DeleteWithTimestamp`), Export (`ExportValues`), Delta
--   (`DeltaExport`) and Import (dynamic_restore.hpp: `ImportValues`, `DeltaImport`).
-- - Variable.Unsafe (kv_variable.h): `FindOrInsertUnsafe` and `CoverUpdateUnsafe`, for the operations
--   that train; Variable.Reads: `GetCount` and `GetTimeStamp`.
-- - Operations (kv_variable_ops.cc): Create (`CreateKvVariableOp`, whose calls on several threads are
--   the steps of a relation), Gather (the operations that gather rows) and Import (those that import
--   tensors into a table); Variable.Import.Keys and Variable.Import.Restored are the lemmas on the
--   tables that `ImportValues` leaves.
-- - Training (training_ops.cc): Scalars is the arithmetic, Rules the macros `COMPUTE_...` as functions on
--   the rows of one key, Actions what a macro does to a table, Apply the body of the loop over the keys
--   and Work the loop with `MarkAsDeltaListElements`; Checks is the start of `Compute` for one
--   operation in detail, Requirements the list of the `OP_REQUIRES` of each operation and what they
--   come to; Locks is `MaybeLockVariableInputMutexesInOrder` and operations that
--   wait for each other, Dense the operations on dense variables,
--   and Reach the sequences of batches, deletions and marks on a table.
--   An Eigen expression that `auto` names is evaluated where it is used, and a `TensorMap` is a
--   pointer to the row. Each table is a `Store` of its own, so the order of the actions on different
--   tables does not matter.
-- - Common: shared names and lemmas. Tests: the theorems at concrete inputs.
--
-- State is passed explicitly: a step takes a `Store` and returns a result with the new one, or `none`
-- for a fault, or in Lock for a wait. A pointer to a record is `local`, for the record that an insertion builds, or `entry`
-- with its key. Each method runs as one step, as under the lock of its key; the upgrade of a lock in
-- `FindOrInsertWithDifferentFn` takes what other threads do meanwhile as a function, and in a lookup for
-- training no other thread acts at that point. No definition needs
-- fuel but `gcd`, whose fuel is its second argument: each round lowers that argument.
--
-- Parameters: the elements of rows with their arithmetic, the hash function, the results of
-- `std::rand`, and in Locks `std::sort`, which gives an ordered permutation of its input, and the
-- addresses of the mutexes. Numbers are natural numbers with the wrap-around of the C++ type written out; keys of
-- the maps are bit patterns, and signed where their sign matters. The laws of a map are asked for all
-- keys; the maps of google::dense_hash_map, which keep the keys -1 and -2 for themselves, fulfil them
-- for the others.
--
-- Not modelled: the words of the locks and the interleaving of rows on threads, the maps of third-party
-- libraries, the tensor bundle (a copy of TensorFlow's) and the file systems (input and output), the
-- loop of `KvVariableComputeGroupAdaDQHHPOp`, whose rule is modelled, the flash attention for devices,
-- the split of a batch on threads, and the registration of operations.
pub mod Common
pub mod Utility
pub mod Lock
pub mod HashMap
pub mod Memory
pub mod Embedding
pub mod Table
pub mod Variable
pub mod Training
pub mod Operations
mod Tests
