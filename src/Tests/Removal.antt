-- ===== src/Tests/Removal.antt =====
-- The theorems on embedding_context.h and table_manager.h at concrete inputs.
use tfplus.Common.{ℕ, ◌≡◌, refl, true, none, some, inr, arith}
use tfplus.Memory.{Heap}
use tfplus.Memory.{row}
use tfplus.HashMap.Bucket.{lookup}
use tfplus.HashMap.Unordered.{UnorderedMap, unordered_map}
use tfplus.Embedding.Value.{EmbeddingValue}
use tfplus.Embedding.Context.{EvContext, entry, meta_context, update_value}
use tfplus.Embedding.Context.Ownership.{Updated, update_value_lem}
use tfplus.Table.{Store}
use tfplus.Table.Blacklist.{mark_blacklist_unsafe, delete_key}
use tfplus.Table.Removal.{Deleted, delete_key_lem, Marked, mark_blacklist_lem}
use tfplus.Tests.Lookup.{naturals, one_key, one_key-Inv, means_row}

-- key 7 is removed, and key 8 has no record
delete_key_lem_example :
    (lookup 7 one_key.ev_table ≡ none → delete_key unordered_map 7 one_key ≡ some (tt, one_key))
    × ((ev : EmbeddingValue)
        → lookup 7 one_key.ev_table ≡ some ev
        → (s' : Store ℕ (UnorderedMap EmbeddingValue)) × (delete_key unordered_map 7 one_key
            ≡ some (tt, s'))
          × Deleted unordered_map naturals.zeros 7 ev one_key s')
delete_key_lem_example = delete_key_lem unordered_map naturals.zeros 7 one_key one_key-Inv

mark_blacklist_lem_example :
    (s' : Store ℕ (UnorderedMap EmbeddingValue)) × (mark_blacklist_unsafe unordered_map 7 none
        one_key
      ≡ some (none, s'))
    × Marked unordered_map naturals.zeros 7 one_key s'
mark_blacklist_lem_example = mark_blacklist_lem unordered_map naturals.zeros 7 one_key one_key-Inv

-- the context of key 7, whose value is at 3, takes over the row at 1
abbrev context_7 : EvContext
context_7 = meta_context (entry 7) 3

update_value_lem_example :
    (c' : EvContext) × (h' : Heap ℕ) × (update_value 1 true context_7 one_key.heap ≡ some (c', h'))
    × Updated 1 true context_7 one_key.heap naturals.zeros c' h'
update_value_lem_example =
    update_value_lem 1 context_7 one_key.heap naturals.zeros one_key-Inv.fresh refl (omega arith)
      true (inr (row means_row, refl)) (λ o. omega arith)
