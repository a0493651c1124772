-- ===== src/HashMap/Segmented.antt =====
-- `class ConcurrentUnorderedMap` of tfplus/kv_variable/kernels/hashmap.h: 1031 segments, each an
-- `std::unordered_map` under a lock of its own; a key lives in the segment that its hash selects.
-- The hash function (MurmurHash2) is a parameter. An operation holds the segment's lock throughout,
-- so it is one step here.
pub mod Placement
pub mod Contract
use tfplus.Common.{
  ℕ, ◌+◌, ◌%◌, Bool, true, false, not, Option, none, some, List, [], ◌∷◌, ◌++◌, length, get_or, set,
  replicate, is_some,
}
use tfplus.HashMap.Bucket.{lookup, assign, remove}

abbrev pub hash_size_default : ℕ
hash_size_default = 1031

-- `concurrent_hash_map table_[HASH_SIZE_DEFAULT]`
abbrev pub SegmentedMap : Type 0 → Type 0
SegmentedMap E = List (List (ℕ × E))

unfoldable pub new : {E : Type 0} → SegmentedMap E
new = replicate hash_size_default []

-- the loop of `ForEach` over the segments, each from its begin to its end
unfoldable pub for_each : {E : Type 0} → SegmentedMap E → List (ℕ × E)
for_each [] = []
for_each (seg ∷ rest) = seg ++ for_each rest

-- `total_size += table_[segment_id].map.size()`
unfoldable pub total_size : {E : Type 0} → SegmentedMap E → ℕ
total_size [] = 0
total_size (seg ∷ rest) = length seg + total_size rest

-- `map.clear()` on each segment
unfoldable pub clear : {E : Type 0} → SegmentedMap E → SegmentedMap E
clear [] = []
clear (seg ∷ rest) = [] ∷ clear rest

module _ (hash : ℕ → ℕ) where
  unfoldable pub hash_id : ℕ → ℕ
  hash_id key = hash key % hash_size_default

  module _ {E : Type 0} where
    -- `table_[hash_id(key)].map`
    unfoldable pub segment : ℕ → SegmentedMap E → List (ℕ × E)
    unfolding hash_id
    segment key table = get_or table (hash_id key) []

    unfoldable pub find_or_null : ℕ → SegmentedMap E → Option E
    unfolding segment
    find_or_null key table = lookup key (segment key table)

    -- a write through the iterator or by `map[key] =` changes the key's segment only
    unfoldable pub insert_or_assign : ℕ → E → SegmentedMap E → SegmentedMap E
    unfolding segment assign
    insert_or_assign key val table = set table (hash_id key) (assign key val (segment key table))

    unfoldable pub insert_or_assign_unsafe : ℕ → E → SegmentedMap E → Bool × SegmentedMap E
    unfolding insert_or_assign segment
    insert_or_assign_unsafe key val table =
        (not (is_some (lookup key (segment key table))), insert_or_assign key val table)

    unfoldable pub find_or_insert_with_fn : ℕ → (ℕ → E) → SegmentedMap E → E × SegmentedMap E
    unfolding insert_or_assign segment
    find_or_insert_with_fn key func table = elim (lookup key (segment key table)) [
      | none ↦ (func key, insert_or_assign key (func key) table)
      | some val ↦ (val, table)
    ]

    unfoldable pub find_or_insert_with_different_fn :
        ℕ → (E → E) → (ℕ → E) → SegmentedMap E → Bool × SegmentedMap E
    unfolding insert_or_assign segment
    find_or_insert_with_different_fn key find_func insert_func table =
        elim (lookup key (segment key table)) [
          | none ↦ (false, insert_or_assign key (insert_func key) table)
          | some val ↦ (true, insert_or_assign key (find_func val) table)
        ]

    -- `FindWithFn` and `UpdateWithFn` differ in the lock that they take
    unfoldable pub update_with_fn : ℕ → (E → E) → SegmentedMap E → Bool × SegmentedMap E
    unfolding insert_or_assign segment
    update_with_fn key func table = elim (lookup key (segment key table)) [
      | none ↦ (false, table)
      | some val ↦ (true, insert_or_assign key (func val) table)
    ]

    unfoldable pub erase : ℕ → SegmentedMap E → SegmentedMap E
    unfolding segment remove
    erase key table = set table (hash_id key) (remove key (segment key table))
