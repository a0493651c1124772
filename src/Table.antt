-- ===== src/Table.antt =====
-- tfplus/kv_variable/kernels/hybrid_embedding/table_manager.h, and storage_table.h with its one
-- storage, memory. The map of records is any map that keeps the contract of `IMap`. A method holds
-- the key's lock from its first read to its last write, so it is one step here.
pub mod Storage
pub mod Manager
pub mod Blacklist
pub mod Insertion
pub mod Ownership
pub mod Release
pub mod Owned
pub mod Restore
pub mod Removal
use tfplus.Common.{
  ℕ, suc, ◌+◌, ◌≡◌, Bool, true, false, Option, none, some, List, ◌==◌, if◌then◌else◌,
}
use tfplus.Memory.{Ptr, null, Heap}
use tfplus.HashMap.{IMap}
use tfplus.Embedding.Value.{EmbeddingValue, new_value, mem_storage}
use tfplus.Embedding.Context.{Meta, local, entry}

-- The state that the methods share: the buffers, the map, the record of an insertion under way, and
-- the counters. `storage_size` and `request_count` are `size_t`.
pub record Store (V T : Type 0) : Type 0 where
  pub heap : Heap V
  pub ev_table : T
  pub local_ev : EmbeddingValue
  pub zero_val : Ptr
  pub storage_size : ℕ
  pub storage_request_count : ℕ
  pub record_request : Bool
  pub request_count : ℕ
  pub record_enabled : Bool
  -- the set of `KvVariable` that the manager holds a pointer to
  pub train_deltalist : List ℕ

-- a step that returns a value and the new state, or faults
abbrev pub M : Type 0 → Type 0 → Type 0 → Type 0
M V T A = Store V T → Option (A × Store V T)

module _ {V T : Type 0} where
  abbrev pub pure : {A : Type 0} → A → M V T A
  pure a s = some (a, s)

  abbrev pub fault : {A : Type 0} → M V T A
  fault s = none

  infixl 5 ◌>>=◌ ◌>>◌
  abbrev pub ◌>>=◌ : {A B : Type 0} → M V T A → (A → M V T B) → M V T B
  ◌>>=◌ m f s = elim (m s) [ none ↦ none | some (a, s') ↦ f a s' ]

  abbrev pub ◌>>◌ : {B : Type 0} → M V T (Unit {0}) → M V T B → M V T B
  m >> k = m >>= λ _. k

  -- a step on the buffers
  abbrev pub on_heap : {A : Type 0} → (Heap V → Option (A × Heap V)) → M V T A
  on_heap f s = elim (f s.heap) [ none ↦ none | some (a, h) ↦ some (a, record s { heap = h }) ]

  abbrev pub on_heap_ : (Heap V → Option (Heap V)) → M V T (Unit {0})
  on_heap_ f s = elim (f s.heap) [ none ↦ none | some h ↦ some (tt, record s { heap = h }) ]

module _ {V T : Type 0} (m : IMap EmbeddingValue T) where
  open m use {find_or_null, insert_or_assign}

  -- a read through `meta_`
  unfoldable pub load_meta : Meta → M V T EmbeddingValue
  load_meta local s = some (s.local_ev, s)
  load_meta (entry key) s = elim (find_or_null key s.ev_table) [
    | none ↦ none
    | some ev ↦ some (ev, s)
  ]

  -- a write through `meta_`
  unfoldable pub store_meta : Meta → EmbeddingValue → M V T (Unit {0})
  store_meta local ev s = some (tt, record s { local_ev = ev })
  store_meta (entry key) ev s = elim (find_or_null key s.ev_table) [
    | none ↦ none
    | some _ ↦ some (tt, record s { ev_table = insert_or_assign key ev s.ev_table })
  ]

  -- `meta_` itself; null faults when it is followed
  unfoldable pub deref : Option Meta → M V T Meta
  deref none s = none
  deref (some p) s = some (p, s)
