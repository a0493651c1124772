-- ===== src/Table/Storage.antt =====
-- `class MemStorageTable` of tfplus/kv_variable/kernels/hybrid_embedding/storage_table.h.
use tfplus.Common.{
  ℕ, ◌+◌, ◌-◌, ◌%◌, ◌^◌, Bool, true, false, Option, none, some, ◌==◌, ◌&&◌, if◌then◌else◌,
}
use tfplus.Memory.{null}
use tfplus.HashMap.{IMap}
use tfplus.Embedding.Value.{EmbeddingValue, update_embedding, delete_value, set_buf_owner}
use tfplus.Embedding.Context.{Meta, entry, EvContext, init_value}
use tfplus.Table.{Store, M, pure, ◌>>=◌, ◌>>◌, on_heap, load_meta, store_meta, deref}

-- `size_t`
abbrev pub size_mod : ℕ
size_mod = 2 ^ 64

module _ {V T : Type 0} (m : IMap EmbeddingValue T) where
  open m use {find_or_null, insert_or_assign}

  -- `AddStorageSize`, and the increment of `Put`
  unfoldable pub add_storage_size : M V T (Unit {0})
  add_storage_size s = some (tt, record s { storage_size = (s.storage_size + 1) % size_mod })

  unfoldable pub sub_storage_size : M V T (Unit {0})
  sub_storage_size s =
      some (tt, record s { storage_size = (s.storage_size + size_mod - 1) % size_mod })

  unfoldable pub count_storage_request : M V T (Unit {0})
  count_storage_request s = some (
    tt,
    record s {
      storage_request_count =
          if s.record_request
          then (s.storage_request_count + 1) % size_mod
          else s.storage_request_count;
    },
  )

  -- the counter falls whether or not there is a value to delete
  unfoldable pub evict : ℕ → M V T (Unit {0})
  unfolding sub_storage_size
  evict key s = elim (find_or_null key s.ev_table) [
    | none ↦ sub_storage_size s
    | some ev ↦ elim (delete_value ev s.heap) [
      | none ↦ none
      | some (ev', h) ↦
          sub_storage_size (record s { heap = h; ev_table = insert_or_assign key ev' s.ev_table })
    ]
  ]

  -- `context->Meta()`, or a search for the key
  unfoldable pub meta_or_find : ℕ → EvContext → Store V T → Option Meta
  meta_or_find key context s = elim context.meta [
    | some p ↦ some p
    | none ↦ elim (find_or_null key s.ev_table) [ none ↦ none | some _ ↦ some (entry key) ]
  ]

  unfoldable pub get : ℕ → EvContext → M V T EvContext
  unfolding meta_or_find load_meta count_storage_request
  get key context s = elim (meta_or_find key context s) [
    | none ↦ none
    | some p ↦
        (do
          ev ← load_meta m p
          c ← on_heap (init_value ev.embedding_val false (record context { meta = some p }))
          count_storage_request
          pure c)
          s
  ]

  unfoldable pub put : EvContext → Bool → M V T EvContext
  unfolding deref load_meta store_meta add_storage_size
  put context is_insert = do
    p ← deref m context.meta
    ev ← load_meta m p
    if is_insert && (ev.embedding_val == null) then add_storage_size else pure tt
    ev' ← on_heap (update_embedding context.val ev)
    store_meta m p (if context.buf_owner then set_buf_owner true ev' else ev')
    pure (record context { buf_owner = false })
