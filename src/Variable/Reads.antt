-- ===== src/Variable/Reads.antt =====
-- `GetCount` and `GetTimeStamp` of kv_variable.h, key by key.
use tfplus.Common.{ℕ, true, false, none, some}
use tfplus.Utility.{get_uint16_from_uint32}
use tfplus.HashMap.{IMap}
use tfplus.Embedding.Value.{EmbeddingValue}
use tfplus.Table.{Store}

module _ {V T : Type 0} (m : IMap EmbeddingValue T) where
  open m use {find_or_null}

  unfoldable pub get_count : ℕ → Store V T → ℕ
  get_count key s = elim (find_or_null key s.ev_table) [
    | none ↦ 0
    | some v ↦ get_uint16_from_uint32 v.freq_val true
  ]

  -- a key without a record has the time of now
  unfoldable pub get_time_stamp : (now : ℕ) → ℕ → Store V T → ℕ
  get_time_stamp now key s = elim (find_or_null key s.ev_table) [
    | none ↦ now
    | some v ↦ get_uint16_from_uint32 v.freq_val false
  ]
