-- ===== src/Variable/Update.antt =====
-- The updates of kv_variable.h, row by row: `InsertOrUpdate`, `ScatterUpdate`, and the removals
-- `Delete` and `DeleteWithTimestamp`. A row of a tensor is a buffer that its tensor owns.
pub mod Write
pub mod Scatter
use tfplus.Common.{
  ℕ, ◌+◌, ◌-◌, ◌%◌, Bool, true, false, none, some, List, [], ◌∷◌, ◌&&◌, if◌then◌else◌, ltb, leb,
}
use tfplus.Common.Int.{ℤ, pos, negsuc}
use tfplus.Utility.{u16_mod, get_uint16_from_uint32}
use tfplus.Memory.{Ptr, allocate_raw, store_row}
use tfplus.HashMap.{IMap}
use tfplus.Embedding.Value.{EmbeddingValue}
use tfplus.Embedding.Context.{EvContext, update_value}
use tfplus.Table.{M, pure, ◌>>=◌, ◌>>◌, on_heap, on_heap_, load_meta, deref}
use tfplus.Table.Manager.{Callback, insert_with_fn, update_with_fn, fetch_and_update_with_fn}
use tfplus.Table.Blacklist.{mark_blacklist_unsafe, delete_key}
use tfplus.Variable.{Floats, Config, note_delta}
use tfplus.Variable.Values.{read_row, update_under_threshold, generate_random_initial_value}

module _ {V T : Type 0} (m : IMap EmbeddingValue T) (floats : Floats V) where
  open m use {entries}

  -- update: memcpy, insert: allocate and memcpy
  unfoldable pub insert_or_update_fn : Ptr → Callback V T (Unit {0})
  unfolding update_value update_under_threshold
  insert_or_update_fn value_ptr context = do
    c ← on_heap (update_value value_ptr false context)
    _ ← update_under_threshold m true floats.exceeds_default c
    pure (c, tt)

  -- one row of `InsertOrUpdate`; a null `filterout` or `blacklist` is `false`
  unfoldable pub insert_or_update_row :
      Config V → (key : ℕ) → (filterout blacklist : Bool) → Ptr → M V T (Unit {0})
  unfolding insert_or_update_fn update_with_fn insert_with_fn mark_blacklist_unsafe
  insert_or_update_row config key filterout blacklist value_ptr = do
    note_delta config key
    if filterout
        then pure tt
        else if blacklist
        then (do _ ← mark_blacklist_unsafe m key none; pure tt)
        else (do
          done ← update_with_fn m key (insert_or_update_fn value_ptr)
          elim done [
            | some _ ↦ pure tt
            | none ↦ insert_with_fn m key (insert_or_update_fn value_ptr)
          ])

  -- `res = op(lhs, rhs)`, copied over the old value
  unfoldable pub apply_op : (List V → List V → List V) → List V → EvContext → M V T (Unit {0})
  unfolding store_row update_under_threshold
  apply_op op rhs context = do
    lhs ← read_row context.val
    on_heap_ (store_row context.val (op lhs rhs))
    _ ← update_under_threshold m true floats.exceeds_default context
    pure tt

  -- a record in the blacklist is left alone by the callback
  unfoldable pub scatter_update_fn : (List V → List V → List V) → List V → Callback V T (Unit {0})
  unfolding deref load_meta apply_op
  scatter_update_fn op rhs context = do
    p ← deref m context.meta
    ev ← load_meta m p
    if ev.in_black then pure tt else apply_op op rhs context
    pure (context, tt)

  unfoldable pub scatter_insert_fn :
      Config V → (List V → List V → List V) → List V → (rand1 rand2 : ℕ) → Callback V T (Unit {0})
  unfolding allocate_raw generate_random_initial_value update_value apply_op
  scatter_insert_fn config op rhs rand1 rand2 context = do
    init_vec ← on_heap (λ h. some (allocate_raw h))
    generate_random_initial_value floats config.random_init_table rand1 rand2 init_vec
    c ← on_heap (update_value init_vec true context)
    apply_op op rhs c
    pure (c, tt)

  -- one row of `ScatterUpdate`, for the operator that its switch chose
  unfoldable pub scatter_update_row :
      Config V → (List V → List V → List V) → ℕ → List V → (rand1 rand2 : ℕ) → M V T (Unit {0})
  unfolding scatter_update_fn scatter_insert_fn fetch_and_update_with_fn insert_with_fn
  scatter_update_row config op key rhs rand1 rand2 = do
    note_delta config key
    done ← fetch_and_update_with_fn m key (scatter_update_fn op rhs)
    elim done [
      | some _ ↦ pure tt
      | none ↦ insert_with_fn m key (scatter_insert_fn config op rhs rand1 rand2)
    ]

  -- `Delete`
  unfoldable pub delete : Config V → List ℕ → M V T (Unit {0})
  unfolding delete_key note_delta
  delete config [] = pure tt
  delete config (key ∷ keys) = do delete_key m key; note_delta config key; delete config keys

  -- `static_cast<uint16_t>(threshold)`
  unfoldable pub u16_of_int : ℤ → ℕ
  u16_of_int (pos n) = n % u16_mod
  u16_of_int (negsuc n) = u16_mod - 1 - n % u16_mod

  -- `key_time > 0 && current_time - key_time >= static_cast<uint16_t>(threshold)`, in `int`
  unfoldable pub is_expired : (current_time : ℕ) (threshold : ℤ) → EmbeddingValue → Bool
  unfolding get_uint16_from_uint32 u16_of_int
  is_expired current_time threshold ev =
      let key_time = get_uint16_from_uint32 ev.freq_val false in
      ltb 0 key_time && leb (key_time + u16_of_int threshold) current_time

  unfoldable pub expired_keys : ℕ → ℤ → List (ℕ × EmbeddingValue) → List ℕ
  unfolding is_expired
  expired_keys current_time threshold [] = []
  expired_keys current_time threshold ((key, ev) ∷ rest) =
      let later = expired_keys current_time threshold rest in
      if is_expired current_time threshold ev then key ∷ later else later

  note_all : Config V → List ℕ → M V T (Unit {0})
  unfolding note_delta
  note_all config [] = pure tt
  note_all config (key ∷ keys) = do note_delta config key; note_all config keys

  delete_keys : List ℕ → M V T (Unit {0})
  unfolding delete_key
  delete_keys [] = pure tt
  delete_keys (key ∷ keys) = do delete_key m key; delete_keys keys

  -- `DeleteWithTimestamp`: the keys that it deletes are its output
  unfoldable pub delete_with_timestamp : Config V → ℕ → ℤ → M V T (List ℕ)
  unfolding expired_keys note_all delete_keys
  delete_with_timestamp config current_time threshold s =
      let keys = expired_keys current_time threshold (entries s.ev_table) in
      (do note_all config keys; delete_keys keys; pure keys) s
