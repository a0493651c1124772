-- ===== src/Tests/Reach.antt =====
-- The theorem on the steps of a table of training at a concrete table: one with a key, which is marked
-- for the blacklist.
use tfplus.Common.{ℕ}
use tfplus.HashMap.Unordered.{UnorderedMap, unordered_map}
use tfplus.Embedding.Value.{EmbeddingValue}
use tfplus.Training.Apply.{Table}
use tfplus.Training.Reach.{Reach, Continues, here, next, mark, mark_run, with_store, reach_lem}
use tfplus.Tests.Lookup.{naturals, one_key}
use tfplus.Tests.Training.{one_key-Owned, trained, trained-Ready}

abbrev marked : Table ℕ (UnorderedMap EmbeddingValue)
marked =
    with_store unordered_map naturals trained
      (mark_run unordered_map naturals 7 one_key one_key-Owned).0

marked_once : Reach unordered_map naturals trained marked
marked_once = next here (mark 7 _ (mark_run unordered_map naturals 7 one_key one_key-Owned).1)

reach_example : Continues unordered_map naturals trained marked
reach_example = reach_lem unordered_map naturals trained marked trained-Ready marked_once
