-- ===== src/Variable/Lookup.antt =====
-- The lookups of kv_variable.h: `FindOrZeros`, and `FindOrInsertLocally` row by row. The results of
-- `std::rand` and the day are inputs of a row.
pub mod Insertion
pub mod NewKey
pub mod Hits
use tfplus.Common.{
  ℕ, Bool, true, false, Option, none, some, List, [], ◌∷◌, ◌&&◌, not, if◌then◌else◌, ltb,
}
use tfplus.Common.Int.{ℤ}
use tfplus.Utility.{saturate_max_frequency, make_uint32_from_uint16}
use tfplus.Memory.{Ptr, Heap, allocate_raw, deallocate_raw}
use tfplus.HashMap.{IMap}
use tfplus.Embedding.Value.{EmbeddingValue, add_frequency, update_frequency}
use tfplus.Embedding.Context
use tfplus.Embedding.Context.{EvContext, empty_context, buffer_context, update_value}
use tfplus.Table.{
  Store, M, pure, fault, ◌>>=◌, ◌>>◌, on_heap, on_heap_, load_meta, store_meta, deref,
}
use tfplus.Table.Manager.{Callback, get_meta_and_value, find_or_insert_with_different_fn}
use tfplus.Variable.{Floats, Config, has_low_frequency, note_delta}
use tfplus.Variable.Values.{
  update_under_threshold, output_embedding_data, generate_random_initial_value,
}

-- One row of the tensors: a null `filter_out` or `counts` is `none`.
pub record Row : Type 0 where
  pub key : ℕ
  pub filter_out : Option Bool
  pub apply_filter : Bool
  pub count : Option ℤ
  pub rand1 : ℕ
  pub rand2 : ℕ
  pub last_update_time_in_days : ℕ

-- What a row leaves in the output tensors; `none` is not written.
pub record Output (V : Type 0) : Type 0 where
  pub values : Option (List V)
  pub filter_out : Option Bool

abbrev pub row_frequency : Row → ℕ
row_frequency r = elim r.count [ none ↦ 1 | some c ↦ saturate_max_frequency c ]

-- the row is passed over: `filter_out != nullptr && apply_filter && filter_out(row)`
abbrev pub is_filtered : Row → Bool
is_filtered r = r.apply_filter && elim r.filter_out [ none ↦ false | some b ↦ b ]

-- `if (filter_out != nullptr && !apply_filter) should_filter = HasLowFrequency(freq)`, for a new key
unfoldable pub new_filter : ℕ → Row → Option Bool
unfolding has_low_frequency
new_filter enter_threshold r =
    if r.apply_filter
    then none
    else elim r.filter_out [ none ↦ none | some _ ↦ some (has_low_frequency enter_threshold 1) ]

module _ {V T : Type 0} (m : IMap EmbeddingValue T) (floats : Floats V) where
  unfoldable pub find_func : Row → Callback V T (Output V)
  unfolding deref load_meta store_meta add_frequency update_under_threshold output_embedding_data
  find_func r context = do
    p ← deref m context.meta
    ev ← load_meta m p
    store_meta m p (add_frequency (row_frequency r) r.last_update_time_in_days ev)
    _ ← update_under_threshold m true floats.exceeds_default context
    values ← output_embedding_data m context
    pure (context, record { values = values; filter_out = none })

  unfoldable pub insert_func : Config V → Row → Callback V T (Output V)
  unfolding deref load_meta store_meta update_frequency make_uint32_from_uint16 allocate_raw
      update_value generate_random_initial_value update_under_threshold output_embedding_data
      new_filter
  insert_func config r context = do
    p ← deref m context.meta
    ev ← load_meta m p
    store_meta m p
        (update_frequency (make_uint32_from_uint16 r.last_update_time_in_days (row_frequency r)) ev)
    buffer ← on_heap (λ h. some (allocate_raw h))
    c ← on_heap (update_value buffer true context)
    generate_random_initial_value floats config.random_init_table r.rand1 r.rand2 c.val
    _ ← update_under_threshold m true floats.exceeds_default c
    values ← output_embedding_data m c
    pure (c, record { values = values; filter_out = new_filter config.enter_threshold r })

  -- one row of `DoWork`; `buf` is the scratch buffer of the slice
  unfoldable pub find_or_insert_row : Config V → Ptr → Row → M V T (Output V)
  unfolding note_delta find_or_insert_with_different_fn find_func insert_func Context.destroy
  find_or_insert_row config buf r =
      if is_filtered r then pure (record { values = none; filter_out = none }) else (do
        note_delta config r.key
        (c, out) ←
            find_or_insert_with_different_fn m none r.key (find_func r) (insert_func config r)
              (buffer_context buf false)
        on_heap_ (Context.destroy c)
        pure out)

  find_or_insert_rows : Config V → Ptr → List Row → M V T (List (Output V))
  unfolding find_or_insert_row
  find_or_insert_rows config buf [] = pure []
  find_or_insert_rows config buf (r ∷ rs) = do
    out ← find_or_insert_row config buf r
    outs ← find_or_insert_rows config buf rs
    pure (out ∷ outs)

  -- `DoWork` over all the rows, with its scratch buffer
  unfoldable pub find_or_insert_locally : Config V → List Row → M V T (List (Output V))
  unfolding find_or_insert_rows allocate_raw deallocate_raw
  find_or_insert_locally config rows = do
    buf ← on_heap (λ h. some (allocate_raw h))
    outs ← find_or_insert_rows config buf rows
    on_heap_ (deallocate_raw buf)
    pure outs

  -- one row of `FindOrZeros`: the value of a key in the table, or zeros
  unfoldable pub find_or_zeros_row : ℕ → M V T (Option (List V))
  unfolding get_meta_and_value output_embedding_data
  find_or_zeros_row key = do
    c ← get_meta_and_value m key empty_context
    if c.is_valid then output_embedding_data m c else pure (some floats.zeros)
