-- ===== src/Variable/Unsafe.antt =====
-- The methods of kv_variable.h that the training operations call on one key, under the key's lock:
-- `FindOrInsertUnsafe` and `CoverUpdateUnsafe`.
pub mod Insert
pub mod Handed
pub mod Found
pub mod Find
use tfplus.Common.{ℕ, Bool, true, false, Option, none, some, ◌&&◌, not, if◌then◌else◌}
use tfplus.Memory.{allocate_raw}
use tfplus.HashMap.{IMap}
use tfplus.Embedding.Value.{EmbeddingValue, add_frequency}
use tfplus.Embedding.Context.{EvContext, update_value}
use tfplus.Table.{M, pure, ◌>>=◌, ◌>>◌, on_heap, load_meta, store_meta, deref}
use tfplus.Table.Manager.{Callback, find_or_insert_with_fn_unsafe}
use tfplus.Table.Blacklist.{remove_blacklist_unsafe}
use tfplus.Variable.{Floats, Config, has_low_frequency}
use tfplus.Variable.Values.{update_under_threshold, generate_random_initial_value}

-- the two results of `std::rand` and the day that a call reads
pub record Draw : Type 0 where
  pub rand1 : ℕ
  pub rand2 : ℕ
  pub day : ℕ

module _ {V T : Type 0} (m : IMap EmbeddingValue T) (floats : Floats V) (config : Config V) where
  unfoldable pub insert_func : Draw → Callback V T (Unit {0})
  insert_func draw context = do
    buffer ← on_heap (λ h. some (allocate_raw h))
    c ← on_heap (update_value buffer true context)
    generate_random_initial_value floats config.random_init_table draw.rand1 draw.rand2 c.val
    _ ← update_under_threshold m true floats.exceeds_default c
    pure (c, tt)

  -- a found forward variable: `*filter_out`, and a row of zeros for a record that leaves the
  -- blacklist
  unfoldable pub forward_found : EvContext → M V T (EvContext × Bool)
  forward_found context = do
    p ← deref m context.meta
    ev ← load_meta m p
    let should_filter = has_low_frequency config.enter_threshold ev.freq_val
    (if ev.in_black && not should_filter
        then (do c ← remove_blacklist_unsafe m floats.zeros context; pure (c, should_filter))
        else pure (context, should_filter))

  -- a found backward variable
  unfoldable pub backward_found : Draw → EvContext → M V T (EvContext × Bool)
  backward_found draw context = do
    p ← deref m context.meta
    ev ← load_meta m p
    store_meta m p (add_frequency 1 draw.day ev)
    pure (context, false)

  -- `forward` is that `filter_out` is not null; the result is the context and `*filter_out`, which
  -- the callers set to false before the call
  unfoldable pub find_or_insert_unsafe :
      (forward : Bool) → Draw → ℕ → EvContext → M V T (EvContext × Bool)
  find_or_insert_unsafe forward draw key context = do
    (c, inserted) ← find_or_insert_with_fn_unsafe m key (insert_func draw) context
    elim inserted [
      | some _ ↦ pure (c, false)
      | none ↦ if forward then forward_found c else backward_found draw c
    ]

  -- `CoverUpdateUnsafe`, for a record in memory
  unfoldable pub cover_update_unsafe : EvContext → M V T Bool
  cover_update_unsafe context = update_under_threshold m true floats.exceeds_default context
