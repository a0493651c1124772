-- ===== src/Embedding/Context.antt =====
-- `class EVContext` of tfplus/kv_variable/kernels/hybrid_embedding/embedding_context.h. `meta_` points
-- at a record of the table or at the local one of an insertion: the pointer is kept, and read and
-- written through, so that two names of one record see each other's writes.
pub mod Ownership
use tfplus.Common.{ℕ, ◌≡◌, Bool, true, false, Option, none, some, ◌==◌, ◌&&◌, not, if◌then◌else◌}
use tfplus.Memory.{Ptr, null, Heap, ◌>>=◌, allocate_raw, copy_row}
use tfplus.Embedding.Value.{release}

-- where `meta_` points: `EmbeddingValue<V> ev` of an insertion, or the record of a key
pub data Meta : Type 0 where
  local : Meta
  entry : ℕ → Meta

pub record EvContext : Type 0 where
  pub buf_owner : Bool
  pub is_valid : Bool
  pub val : Ptr
  pub meta : Option Meta

-- `EVContext()`
abbrev pub empty_context : EvContext
empty_context = record { buf_owner = false; is_valid = false; val = null; meta = none }

-- `EVContext(V* val, bool buf_owner)`
abbrev pub buffer_context : Ptr → Bool → EvContext
buffer_context val buf_owner = record {
  buf_owner = buf_owner;
  is_valid = false;
  val = val;
  meta = none;
}

-- `EVContext(EmbeddingValue<V>* ev)`: `val_` is `ev->Value()`
abbrev pub meta_context : Meta → Ptr → EvContext
meta_context meta val = record { buf_owner = false; is_valid = false; val = val; meta = some meta }

module _ {V : Type 0} where
  -- `~EVContext`
  unfoldable pub destroy : EvContext → Heap V → Option (Heap V)
  unfolding release
  destroy c h = release c.buf_owner c.val h

  unfoldable pub init_value : Ptr → Bool → EvContext → Heap V → Option (EvContext × Heap V)
  unfolding release
  init_value new_val buffer_owner c h = do
    h' ← release c.buf_owner c.val h
    some (record c { val = new_val; buf_owner = buffer_owner }, h')

  -- The five cases of `UpdateValue`, by who owns the old and the new buffer.
  unfoldable pub update_value : Ptr → Bool → EvContext → Heap V → Option (EvContext × Heap V)
  unfolding allocate_raw copy_row release
  update_value new_val input_buf_owner c h =
      if new_val == c.val
      then some (c, h)
      else if not c.buf_owner
      then if input_buf_owner
        then some (record c { val = new_val; buf_owner = true }, h)
        else if c.val == null
        then (do
          let a = allocate_raw h
          h' ← copy_row a.0 new_val a.1
          some (record c { val = a.0; buf_owner = true }, h'))
        else (do h' ← copy_row c.val new_val h; some (c, h'))
      else if input_buf_owner
      then (do h' ← release true c.val h; some (record c { val = new_val }, h'))
      else (do h' ← copy_row c.val new_val h; some (c, h'))
