-- ===== src/Variable/Import.antt =====
-- `KvVariable::ImportValues` and `KvVariable::DeltaImport` of
-- tfplus/kv_variable/kernels/dynamic_restore.hpp. A row of the tensor of values is a buffer, which
-- the tensor owns; a list of pairs stands for two tensors that are read side by side.
pub mod Keys
pub mod Restored
use tfplus.Common.{
  ℕ, Bool, true, false, Option, none, some, List, [], ◌∷◌, if◌then◌else◌, ltb, ◌==◌, not, length,
}
use tfplus.Memory.{Ptr}
use tfplus.HashMap.{IMap}
use tfplus.Embedding.Value.{EmbeddingValue, remove_blacklist, update_frequency}
use tfplus.Embedding.Context.{init_value, update_value}
use tfplus.Table.{M, pure, fault, ◌>>=◌, ◌>>◌, on_heap, load_meta, store_meta, deref}
use tfplus.Table.Manager.{Callback, insert_with_fn, update_with_fn}
use tfplus.Table.Blacklist.{mark_blacklist_unsafe, delete_key, clear_all}
use tfplus.Variable.{Floats}
use tfplus.Variable.Values.{update_under_threshold}

-- what an import leaves outside the table: `random_init_table_`, `random_init_table_set_` and
-- `prediction_deltalist_`
pub record Imported (V : Type 0) : Type 0 where
  pub random_init_table : List (List V)
  pub random_init_table_set : Bool
  pub prediction_deltalist : List ℕ

-- `others[6]`, where there is one, says whether this was the last checkpoint
unfoldable pub is_last : Option Bool → Bool → Bool
is_last none set = true
is_last (some last) set = if last then true else set

pub data DeltaStatus : Type 0 where
  ok invalid_argument : DeltaStatus

module _ {V T : Type 0} (m : IMap EmbeddingValue T) (floats : Floats V) where
  -- the context takes the row of the tensor as it is
  unfoldable pub import_fn : Ptr → Callback V T (Unit {0})
  import_fn value_ptr context = do c ← on_heap (init_value value_ptr false context); pure (c, tt)

  -- A key without a row reads behind the tensor.
  unfoldable pub import_keys : List ℕ → List Ptr → M V T (Unit {0})
  import_keys [] values = pure tt
  import_keys (key ∷ keys) [] = fault
  import_keys (key ∷ keys) (value_ptr ∷ values) = do
    insert_with_fn m key (import_fn value_ptr)
    import_keys keys values

  unfoldable pub import_blacklist : List ℕ → M V T (Unit {0})
  import_blacklist [] = pure tt
  import_blacklist (key ∷ keys) = do _ ← mark_blacklist_unsafe m key none; import_blacklist keys

  unfoldable pub set_frequency_fn : ℕ → Callback V T (Unit {0})
  set_frequency_fn input_value context = do
    p ← deref m context.meta
    ev ← load_meta m p
    store_meta m p (update_frequency input_value ev)
    pure (context, tt)

  -- a key without a record is passed over
  unfoldable pub import_frequencies : List (ℕ × ℕ) → M V T (Unit {0})
  import_frequencies [] = pure tt
  import_frequencies ((input_key, input_value) ∷ rest) = do
    _ ← update_with_fn m input_key (set_frequency_fn input_value)
    import_frequencies rest

  -- `ImportValues`
  unfoldable pub import_values :
      (keys : List ℕ)
      → (values : List Ptr) → (init_table : List (List V)) → (blacklist : List ℕ)
      → (frequencies : List (ℕ × ℕ)) → (others_6 : Option Bool) → Imported V
      → M V T (Imported V)
  import_values keys values init_table blacklist frequencies others_6 before = do
    clear_all m
    import_keys keys values
    import_blacklist blacklist
    import_frequencies frequencies
    (λ s. some (tt, record s { train_deltalist = [] }))
    pure (record {
      random_init_table = elim init_table [ [] ↦ before.random_init_table | t ∷ ts ↦ t ∷ ts ];
      random_init_table_set = is_last others_6 before.random_init_table_set;
      prediction_deltalist = [];
    })

  -- insert: allocate and memcpy, update: memcpy
  unfoldable pub delta_update_fn : Ptr → Callback V T (Unit {0})
  delta_update_fn embedding_val context = do
    c ← on_heap (update_value embedding_val false context)
    p ← deref m c.meta
    ev ← load_meta m p
    store_meta m p (remove_blacklist ev)
    _ ← update_under_threshold m true floats.exceeds_default c
    pure (c, tt)

  unfoldable pub delta_insert_fn : Ptr → Callback V T (Unit {0})
  delta_insert_fn val context = do c ← on_heap (update_value val false context); pure (c, tt)

  -- one key of the first stage; without a table in memory there is nothing to update
  unfoldable pub delta_import_key : (has_mem_table : Bool) → ℕ → Ptr → M V T (Unit {0})
  delta_import_key has_mem_table key value_ptr =
      if has_mem_table
      then (do
        succeed ← update_with_fn m key (delta_update_fn value_ptr)
        elim succeed [ some _ ↦ pure tt | none ↦ insert_with_fn m key (delta_update_fn value_ptr) ])
      else insert_with_fn m key (delta_insert_fn value_ptr)

  unfoldable pub delta_import_keys : (has_mem_table : Bool) → List ℕ → List Ptr → M V T (Unit {0})
  delta_import_keys has_mem_table [] values = pure tt
  delta_import_keys has_mem_table (key ∷ keys) [] = fault
  delta_import_keys has_mem_table (key ∷ keys) (value_ptr ∷ values) = do
    delta_import_key has_mem_table key value_ptr
    delta_import_keys has_mem_table keys values

  unfoldable pub delta_delete_keys : List ℕ → M V T (Unit {0})
  delta_delete_keys [] = pure tt
  delta_delete_keys (key ∷ keys) = do delete_key m key; delta_delete_keys keys

  -- `DeltaImport`; `others_size` is the number of other tensors
  unfoldable pub delta_import :
      (first_n others_size : ℕ)
      → (has_mem_table : Bool) → (keys : List ℕ) → (values : List Ptr) → (blacklist : List ℕ)
      → (frequencies : List (ℕ × ℕ)) → (delete_keys : List ℕ) → (others_6 : Option Bool)
      → (random_init_table_set : Bool) → M V T (DeltaStatus × Bool)
  delta_import first_n others_size has_mem_table keys values blacklist frequencies delete_keys
        others_6 set =
      if ltb others_size 6
      then pure (invalid_argument, set)
      else if not (length keys == length values)
      then pure (invalid_argument, set)
      else (do
        delta_import_keys has_mem_table keys values
        if ltb 3 first_n then import_blacklist blacklist else delta_delete_keys blacklist
        if has_mem_table then import_frequencies frequencies else pure tt
        delta_delete_keys delete_keys
        pure (ok, is_last others_6 set))
