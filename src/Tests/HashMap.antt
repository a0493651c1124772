-- ===== src/Tests/HashMap.antt =====
-- The theorems on hashmap.h at concrete inputs.
use tfplus.Common.{
  ◌↔◌, ℕ, ◌+◌, ◌-◌, ◌*◌, ◌<◌, ◌≡◌, refl, ◌≢◌, ◌⊎◌, none, some, List, [], ◌∷◌, arith, ◌==◌,
  if◌then◌else◌, is_some, length,
}
use tfplus.Common.Int.{ℤ, pos, negsuc, pos_part, neg_part}
use tfplus.HashMap.Bucket.{lookup, IsDistinct}
use tfplus.HashMap.Unordered.{UnorderedMap, unordered_map}
use tfplus.HashMap.Segmented.{
  SegmentedMap, new, for_each, total_size, find_or_null, insert_or_assign,
  find_or_insert_with_different_fn,
}
use tfplus.HashMap.Segmented.Contract.{
  IsValid, find-insert, insert-IsValid, for_each_lem, find_or_insert_lem, new-IsValid,
}
use tfplus.HashMap.MultiLevel.Keys.{hi, lo, low_count, hi-lo_decode}
use tfplus.HashMap.MultiLevel.Tables
use tfplus.HashMap.MultiLevel.Tables.{find-insert_lem}
use tfplus.HashMap.Factory.{
  cuckoo_hash, concurrent_unordered, concurrent_dense_hash_map, multi_level_need_explicit_lock,
  need_explicit_lock, concurrent_unordered_map, other, inner_class, create_map,
  inner_class_falls_through,
}

abbrev mixer : ℕ → ℕ
mixer k = k * 31 + 7

abbrev two_keys : SegmentedMap ℕ
two_keys = insert_or_assign mixer 1032 20 (insert_or_assign mixer 1 10 new)

two_keys-IsValid : IsValid mixer two_keys
two_keys-IsValid =
    insert-IsValid mixer 1032 20 _ (insert-IsValid mixer 1 10 new (new-IsValid mixer ℕ))

find-insert_example :
    find_or_null mixer 1 (insert_or_assign mixer 2063 30 two_keys)
    ≡ (if 1 == 2063 then some 30 else find_or_null mixer 1 two_keys)
find-insert_example = find-insert mixer 1 2063 30 two_keys two_keys-IsValid

for_each_lem_example :
    ((q : ℕ) → lookup q (for_each two_keys) ≡ find_or_null mixer q two_keys)
    × IsDistinct (for_each two_keys)
    × (total_size two_keys ≡ length (for_each two_keys))
for_each_lem_example = for_each_lem mixer two_keys two_keys-IsValid

find_or_insert_lem_example :
    let r = find_or_insert_with_different_fn mixer 1 (λ e. e + 1) (λ k. k) two_keys in
    (r.0 ≡ is_some (find_or_null mixer 1 two_keys))
    × IsValid mixer r.1
    × (find_or_null mixer 1032 r.1 ≡ (
        if 1032 == 1
        then some (elim (find_or_null mixer 1 two_keys) [ none ↦ 1 | some e ↦ e + 1 ])
        else find_or_null mixer 1032 two_keys))
find_or_insert_lem_example =
    find_or_insert_lem mixer 1 1032 (λ e. e + 1) (λ k. k) two_keys two_keys-IsValid

-- the key 5 of the second sub-table, and a negative key
hi-lo_decode_example :
    (lo (pos (low_count + 5)) < low_count)
    × (pos_part (pos (low_count + 5)) + neg_part (hi (pos (low_count + 5))) * low_count
        ≡ neg_part (pos (low_count + 5))
          + pos_part (hi (pos (low_count + 5))) * low_count
          + lo (pos (low_count + 5)))
    × (hi (pos (low_count + 5)) ≡ hi (negsuc 0)
        → lo (pos (low_count + 5)) ≡ lo (negsuc 0)
        → pos (low_count + 5) ≡ negsuc 0)
hi-lo_decode_example = hi-lo_decode (pos (low_count + 5)) (negsuc 0)

minus_one_parts : (hi (negsuc 0) ≡ negsuc 0) × (lo (negsuc 0) ≡ low_count - 1)
unfolding hi lo
minus_one_parts = (refl, refl)

abbrev sub_tables : List (UnorderedMap ℕ)
sub_tables = [] ∷ ((5, 50) ∷ []) ∷ []

find-insert_lem_example :
    (ts' : List (UnorderedMap ℕ)) × (Tables.insert_or_assign unordered_map
        (pos (low_count + 6))
        60
        sub_tables
      ≡ some ts')
    × (Tables.find_or_null unordered_map (pos (low_count + 6)) ts' ≡ some (some 60))
    × ((other : ℤ)
        → other ≢ pos (low_count + 6)
        → Tables.find_or_null unordered_map other ts'
          ≡ Tables.find_or_null unordered_map other sub_tables)
unfolding hi
find-insert_lem_example =
    find-insert_lem unordered_map (pos (low_count + 6)) 60 sub_tables 1 (tt, ((refl, tt), tt)) refl
      (omega arith)

inner_class_falls_through_example :
    (inner_class cuckoo_hash ≡ concurrent_unordered)
    × ((inner_class cuckoo_hash ≡ create_map cuckoo_hash)
        ↔ (cuckoo_hash ≡ concurrent_unordered_map) ⊎ (cuckoo_hash ≡ other))
    × ((multi_level_need_explicit_lock cuckoo_hash ≡ need_explicit_lock (inner_class cuckoo_hash))
        ↔ (cuckoo_hash ≡ cuckoo_hash)
          ⊎ (cuckoo_hash ≡ concurrent_unordered_map)
          ⊎ (cuckoo_hash ≡ concurrent_dense_hash_map))
inner_class_falls_through_example = inner_class_falls_through cuckoo_hash
