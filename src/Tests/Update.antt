-- ===== src/Tests/Update.antt =====
-- The theorem on the updates of kv_variable.h at a concrete input.
use tfplus.Common.{ℕ, ◌≡◌, refl, true, false, some, arith}
use tfplus.Memory.{null, row}
use tfplus.HashMap.Bucket.{lookup, assign}
use tfplus.Embedding.Value.{new_value, mem_storage}
use tfplus.Table.Ownership.{Inv, write-Inv}
use tfplus.Table.Removal.{empty-Fits}
use tfplus.Variable.Update.Scatter.{scatter_then_update_lem}
use tfplus.Variable.Update.{scatter_update_row}
use tfplus.Tests.Lookup.{means, means_row}
use tfplus.HashMap.Unordered.{UnorderedMap, unordered_map}
use tfplus.Embedding.Value.{EmbeddingValue}
use tfplus.Table.{Store}
use tfplus.Variable.Update.{insert_or_update_row}
use tfplus.Variable.Values.Overwrite.{Overwritten}
use tfplus.Variable.Update.Write.{insert_or_update_row_hit}
use tfplus.Tests.Lookup.{naturals, config, one_key, one_key-Inv, key_7, found_7}

-- the row of zeros at 1 is written over the row of key 7
insert_or_update_row_hit_example :
    (s' : Store ℕ (UnorderedMap EmbeddingValue)) × (insert_or_update_row unordered_map naturals
        config 7 false false 1 one_key
      ≡ some (tt, s'))
    × Overwritten unordered_map naturals 7 naturals.zeros key_7 one_key s'
insert_or_update_row_hit_example =
    insert_or_update_row_hit unordered_map naturals config 7 1 naturals.zeros key_7 one_key
      one_key-Inv found_7 refl refl refl (omega arith)

abbrev black_8 : EmbeddingValue
black_8 = new_value null true 1 false mem_storage

-- key 8 has been marked for the blacklist
abbrev two_keys : Store ℕ (UnorderedMap EmbeddingValue)
two_keys = record one_key { ev_table = assign 8 black_8 one_key.ev_table }

two_keys-Inv : Inv unordered_map naturals.zeros two_keys.heap two_keys.ev_table two_keys.zero_val
two_keys-Inv =
    write-Inv unordered_map naturals.zeros one_key.heap one_key.heap one_key.ev_table 1 8 black_8
      one_key-Inv
      (empty-Fits unordered_map naturals.zeros 8 black_8 one_key one_key-Inv refl refl refl)

found_8 : lookup 8 two_keys.ev_table ≡ some black_8
unfolding assign
found_8 = refl

scatter_then_update_lem_example :
    (s₁ : Store ℕ (UnorderedMap EmbeddingValue)) × (s₂ : Store ℕ (UnorderedMap EmbeddingValue))
    × (scatter_update_row unordered_map naturals config means 8 means_row 4 9 two_keys
        ≡ some (tt, s₁))
    × (lookup 8 s₁.ev_table ≡ some (record black_8 { embedding_val = two_keys.zero_val }))
    × (s₁.heap ≡ two_keys.heap)
    × (s₁.zero_val ≡ two_keys.zero_val)
    × (insert_or_update_row unordered_map naturals config 8 false false 3 s₁ ≡ some (tt, s₂))
    × (lookup 8 s₂.ev_table
        ≡ some (record black_8 { embedding_val = two_keys.zero_val; under_threshold = true }))
    × (s₂.zero_val ≡ two_keys.zero_val)
    × (s₂.heap.cell two_keys.zero_val ≡ some (row means_row))
scatter_then_update_lem_example =
    scatter_then_update_lem unordered_map naturals config means 8 means_row 4 9 3 means_row black_8
      two_keys two_keys-Inv found_8 refl refl refl (omega arith)
