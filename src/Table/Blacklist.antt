-- ===== src/Table/Blacklist.antt =====
-- The methods of `TableManager` (table_manager.h) that blacklist, restore and remove records.
use tfplus.Common.{ℕ, true, false, Option, none, some, List, [], ◌∷◌, if◌then◌else◌}
use tfplus.Memory.{null, Heap, allocate_raw, store_row}
use tfplus.HashMap.{IMap}
use tfplus.Embedding.Value.{
  EmbeddingValue, new_value, mem_storage, destroy, mark_blacklist, remove_blacklist,
  set_under_threshold,
}
use tfplus.Embedding.Context
use tfplus.Embedding.Context.{Meta, entry, EvContext, init_value, update_value}
use tfplus.Table.{M, pure, ◌>>=◌, ◌>>◌, on_heap, on_heap_, load_meta, store_meta, deref}
use tfplus.Table.Storage.{evict, put, meta_or_find}

module _ {V T : Type 0} (m : IMap EmbeddingValue T) where
  open m use {find_or_null, insert_or_assign, erase, clear, entries}

  -- the record of a key that had none: in the blacklist, with no value
  unfoldable pub insert_black : ℕ → M V T (Unit {0})
  insert_black key s = some (
    tt,
    record s {
      ev_table = insert_or_assign key (new_value null true 1 false mem_storage) s.ev_table;
    },
  )

  -- a null `context` is `none`
  unfoldable pub mark_blacklist_unsafe : ℕ → Option EvContext → M V T (Option EvContext)
  unfolding insert_black evict load_meta store_meta mark_blacklist set_under_threshold meta_or_find
  mark_blacklist_unsafe key context s =
      elim (meta_or_find m key (elim context [ none ↦ Context.empty_context | some c ↦ c ]) s) [
        | none ↦ (do insert_black key; pure context) s
        | some p ↦
            (do
              ev ← load_meta m p
              if ev.in_black then pure context else (do
                store_meta m p (set_under_threshold true (mark_blacklist ev))
                evict m key
                elim context [
                  | none ↦ pure none
                  | some c ↦ do c' ← on_heap (init_value s.zero_val false c); pure (some c')
                ]))
              s
      ]

  -- a fresh row of zeros for the context, which `put` hands to the record
  unfoldable pub remove_blacklist_unsafe : List V → EvContext → M V T EvContext
  unfolding allocate_raw store_row update_value put load_meta store_meta deref remove_blacklist
      set_under_threshold
  remove_blacklist_unsafe zeros context = do
    val ← on_heap (λ h. some (allocate_raw h))
    on_heap_ (store_row val zeros)
    c ← on_heap (update_value val true context)
    c' ← put m c false
    p ← deref m c'.meta
    ev ← load_meta m p
    store_meta m p (set_under_threshold true (remove_blacklist ev))
    pure c'

  -- `erase_unsafe` ends the record's life
  unfoldable pub erase_unsafe : ℕ → M V T (Unit {0})
  unfolding destroy
  erase_unsafe key s = elim (find_or_null key s.ev_table) [
    | none ↦ some (tt, record s { ev_table = erase key s.ev_table })
    | some ev ↦ elim (destroy ev s.heap) [
      | none ↦ none
      | some h ↦ some (tt, record s { heap = h; ev_table = erase key s.ev_table })
    ]
  ]

  unfoldable pub delete_key : ℕ → M V T (Unit {0})
  unfolding erase_unsafe evict
  delete_key key s = elim (find_or_null key s.ev_table) [
    | none ↦ some (tt, s)
    | some ev ↦ (do evict m key; erase_unsafe key) s
  ]

  unfoldable pub destroy_all : List (ℕ × EmbeddingValue) → Heap V → Option (Heap V)
  unfolding destroy
  destroy_all [] h = some h
  destroy_all ((key, ev) ∷ rest) h = elim (destroy ev h) [
    | none ↦ none
    | some h' ↦ destroy_all rest h'
  ]

  -- `storage->Clear()` is not virtual: through the interface it does nothing
  unfoldable pub clear_all : M V T (Unit {0})
  unfolding destroy_all
  clear_all s = elim (destroy_all (entries s.ev_table) s.heap) [
    | none ↦ none
    | some h ↦ some (tt, record s { heap = h; ev_table = clear s.ev_table })
  ]
