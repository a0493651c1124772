-- ===== src/Embedding/Value.antt =====
-- `class EmbeddingValue` of tfplus/kv_variable/kernels/embedding_value.h.
use tfplus.Common.{ℕ, Bool, true, false, Option, none, some, ◌==◌, ◌&&◌, not, if◌then◌else◌}
use tfplus.Memory.{Ptr, null, Heap, deallocate_raw}
use tfplus.Utility.{saturate_add_frequency, get_uint16_from_uint32, make_uint32_from_uint16}

-- `enum StorageType` of storage_config.proto
pub data StorageType : Type 0 where
  mem_storage : StorageType

pub record EmbeddingValue : Type 0 where
  pub in_black : Bool
  pub buf_owner : Bool
  pub under_threshold : Bool
  pub storage_type : StorageType
  pub freq_val : ℕ
  pub embedding_val : Ptr

-- `EmbeddingValue(V*, bool, uint32_t, bool, uint8_t)`
abbrev pub new_value : Ptr → Bool → ℕ → Bool → StorageType → EmbeddingValue
new_value val in_black freq_val buf_owner storage_type = record {
  in_black = in_black;
  buf_owner = buf_owner;
  under_threshold = false;
  storage_type = storage_type;
  freq_val = freq_val;
  embedding_val = val;
}

module _ {V : Type 0} where
  -- a buffer is freed if it is owned and there is one
  unfoldable pub release : Bool → Ptr → Heap V → Option (Heap V)
  unfolding deallocate_raw
  release owner p h = if owner && not (p == null) then deallocate_raw p h else some h

  -- `operator=(EmbeddingValue&& other)` between two objects: the new value of the left one, which is
  -- the old `other`, and what is left of `other`
  unfoldable pub move_assign :
      EmbeddingValue → EmbeddingValue → Heap V → Option (EmbeddingValue × EmbeddingValue × Heap V)
  unfolding release
  move_assign this other h = elim (release this.buf_owner this.embedding_val h) [
    | none ↦ none
    | some h' ↦ some (other, record other { embedding_val = null }, h')
  ]

  -- `~EmbeddingValue`
  unfoldable pub destroy : EmbeddingValue → Heap V → Option (Heap V)
  unfolding release
  destroy ev h = release ev.buf_owner ev.embedding_val h

  -- `UpdateEmbedding`: the old buffer goes, unless it is the new one
  unfoldable pub update_embedding : Ptr → EmbeddingValue → Heap V → Option (EmbeddingValue × Heap V)
  unfolding release
  update_embedding val_ptr ev h =
      elim (release (ev.buf_owner && not (ev.embedding_val == val_ptr)) ev.embedding_val h) [
        | none ↦ none
        | some h' ↦ some (record ev { embedding_val = val_ptr }, h')
      ]

  -- `DeleteValue`: the compare-and-swap takes the ownership away
  unfoldable pub delete_value : EmbeddingValue → Heap V → Option (EmbeddingValue × Heap V)
  unfolding release
  delete_value ev h = elim (release ev.buf_owner ev.embedding_val h) [
    | none ↦ none
    | some h' ↦ some (record ev { buf_owner = false; embedding_val = null }, h')
  ]

-- `SetValue`: only for a record that owns nothing yet
unfoldable pub set_value : Ptr → EmbeddingValue → EmbeddingValue
set_value value ev =
    if ev.buf_owner then ev else record ev { buf_owner = true; embedding_val = value }

unfoldable pub mark_blacklist : EmbeddingValue → EmbeddingValue
mark_blacklist ev = if ev.in_black then ev else record ev { in_black = true }

unfoldable pub remove_blacklist : EmbeddingValue → EmbeddingValue
remove_blacklist ev = record ev { in_black = false }

unfoldable pub update_frequency : ℕ → EmbeddingValue → EmbeddingValue
update_frequency freq ev = record ev { freq_val = freq }

-- `AddFrequency`: the low half counts, the high half is the day of the last update
unfoldable pub add_frequency : ℕ → ℕ → EmbeddingValue → EmbeddingValue
unfolding saturate_add_frequency get_uint16_from_uint32 make_uint32_from_uint16
add_frequency freq last_update_time_in_days ev = record ev {
  freq_val =
      make_uint32_from_uint16 last_update_time_in_days
        (saturate_add_frequency (get_uint16_from_uint32 ev.freq_val true) freq);
}

unfoldable pub set_under_threshold : Bool → EmbeddingValue → EmbeddingValue
set_under_threshold value ev = record ev { under_threshold = value }

unfoldable pub set_buf_owner : Bool → EmbeddingValue → EmbeddingValue
set_buf_owner value ev = record ev { buf_owner = value }
