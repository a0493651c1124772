-- ===== src/Tests/Delta.antt =====
-- The theorems on the delta export of dynamic_save.hpp at concrete inputs.
use tfplus.Common.{ℕ, ◌≡◌, refl, ◌&&◌, List, [], ◌∷◌, false}
use tfplus.HashMap.Unordered.{UnorderedMap, unordered_map}
use tfplus.Embedding.Value.{EmbeddingValue}
use tfplus.Table.{Store}
use tfplus.Variable.Delta.{classify}
use tfplus.Variable.Delta.Lists.{
  member, lists, of_key, is_updated, is_blacklisted, is_deleted, delta_lists_lem,
}
use tfplus.Variable.Delta.Rows.{Written, delta_rows_lem}
use tfplus.Tests.Lookup.{naturals, one_key, one_key-Inv}

abbrev changed : List ℕ
changed = 7 ∷ 8 ∷ []

-- key 8 has no record
delta_lists_lem_example :
    (member 8 (lists unordered_map 2 6 one_key.ev_table changed).update_list
      ≡ (member 8 changed && is_updated (of_key unordered_map 2 6 one_key.ev_table 8)))
    × (member 8 (lists unordered_map 2 6 one_key.ev_table changed).black_list
        ≡ (member 8 changed && is_blacklisted (of_key unordered_map 2 6 one_key.ev_table 8)))
    × (member 8 (lists unordered_map 2 6 one_key.ev_table changed).delete_list
        ≡ (member 8 changed && is_deleted (of_key unordered_map 2 6 one_key.ev_table 8)))
delta_lists_lem_example = delta_lists_lem unordered_map 2 6 one_key.ev_table 8 changed

abbrev quiet : Store ℕ (UnorderedMap EmbeddingValue)
quiet = record one_key { record_enabled = false; record_request = false }

delta_rows_lem_example :
    Written unordered_map 2 2 quiet (classify unordered_map 2 quiet.ev_table changed).update_list
delta_rows_lem_example =
    delta_rows_lem unordered_map 2 naturals.zeros 2 quiet one_key-Inv refl refl changed
