-- ===== src/HashMap/Segmented/Contract.antt =====
-- `ConcurrentUnorderedMap` of hashmap.h keeps the contract of `IMap`, for any hash function, and
-- what its find-or-insert does to every key.
use tfplus.Common.{
  ℕ, ◌<◌, ◌≡◌, refl, ◌∙◌, true, false, Option, none, some, List, [], arith, ◌==◌, if◌then◌else◌,
  is_some, length, set, length-set, get_or-set_self, get_or-set_ne, length-replicate,
  get_or-replicate, Bool-cases, Option-cases, inl, inr, ==_iff,
}
use tfplus.HashMap.{IMap}
use tfplus.HashMap.Bucket.{
  lookup, assign, remove, IsDistinct, lookup-assign, lookup-remove, assign-IsDistinct,
  remove-IsDistinct,
}
use tfplus.HashMap.Segmented.{
  SegmentedMap, hash_size_default, new, for_each, total_size, clear, hash_id, segment, find_or_null,
  insert_or_assign, erase, find_or_insert_with_different_fn,
}
use tfplus.HashMap.Segmented.Placement.{
  IsPlaced, lookup-for_each, for_each-IsDistinct, set-IsPlaced, get_or-IsPlaced, replicate-IsPlaced,
  clear-IsPlaced, total_size-for_each, length-clear, for_each-clear,
}

module _ (hash : ℕ → ℕ) {E : Type 0} where
  -- 1031 segments, and each key in the one that its hash selects, once
  pub record IsValid (t : SegmentedMap E) : Type 0 where
    pub width : length t ≡ hash_size_default
    pub placed : IsPlaced (hash_id hash) 0 t

  hash_id-lt : (t : SegmentedMap E) (k : ℕ) → IsValid t → hash_id hash k < length t
  unfolding hash_id
  hash_id-lt t k v = omega (arith, v.width)

  -- a write of the key's own segment, read back by any key
  find-set :
      (q k : ℕ) (c : List (ℕ × E)) (r : Option E) (t : SegmentedMap E)
      → IsValid t
      → lookup q c ≡ (if q == k then r else lookup q (segment hash k t))
      → find_or_null hash q (set t (hash_id hash k) c)
        ≡ (if q == k then r else find_or_null hash q t)
  unfolding find_or_null segment
  find-set q k c r t v e = elim (Bool-cases (hash_id hash q == hash_id hash k)) [
    | inl y ↦
        let same : hash_id hash q ≡ hash_id hash k = (==_iff (hash_id hash q) _).0 y in
        rw (same, get_or-set_self t (hash_id hash k) c [] (hash_id-lt t k v)) e
    | inr n ↦
        rw (get_or-set_ne t (hash_id hash k) (hash_id hash q) c [] (ground arith))
          (ground (arith, hash_id_ne q k n))
  ]
    where
      hash_id_ne : (q k : ℕ) → (hash_id hash q == hash_id hash k) ≡ false → (q == k) ≡ false
      hash_id_ne q k n = ground arith

  -- An insertion or a write is read back at its key and leaves every other key as it was.
  pub find-insert :
      (q k : ℕ) (e : E) (t : SegmentedMap E)
      → IsValid t
      → find_or_null hash q (insert_or_assign hash k e t)
        ≡ (if q == k then some e else find_or_null hash q t)
  unfolding insert_or_assign
  find-insert q k e t v = find-set q k _ (some e) t v (lookup-assign q k e (segment hash k t))

  pub find-erase :
      (q k : ℕ) (t : SegmentedMap E)
      → IsValid t
      → find_or_null hash q (erase hash k t) ≡ (if q == k then none else find_or_null hash q t)
  unfolding erase
  find-erase q k t v = find-set q k _ none t v (lookup-remove q k (segment hash k t))

  set-IsValid :
      (k : ℕ) (c : List (ℕ × E)) (t : SegmentedMap E)
      → IsValid t
      → IsDistinct c
      → ((q : ℕ) → is_some (lookup q c) ≡ true → hash_id hash q ≡ hash_id hash k)
      → IsValid (set t (hash_id hash k) c)
  set-IsValid k c t v d own = record {
    width = length-set t _ c ∙ v.width;
    placed =
        set-IsPlaced (hash_id hash) 0 (hash_id hash k) c t v.placed d
          (λ q f. own q f ∙ omega arith);
  }

  own_segment :
      (k q : ℕ) (t : SegmentedMap E)
      → IsValid t
      → IsDistinct (segment hash k t)
        × (is_some (lookup q (segment hash k t)) ≡ true → hash_id hash q ≡ hash_id hash k)
  unfolding segment
  own_segment k q t v =
      let r = get_or-IsPlaced (hash_id hash) 0 (hash_id hash k) q t v.placed in
      (r.0, λ f. r.1 f ∙ omega arith)

  pub insert-IsValid :
      (k : ℕ) (e : E) (t : SegmentedMap E) → IsValid t → IsValid (insert_or_assign hash k e t)
  unfolding insert_or_assign
  insert-IsValid k e t v =
      let c = segment hash k t in
      set-IsValid k (assign k e c) t v (assign-IsDistinct k e c (own_segment k k t v).0) (λ q f.
        elim (Bool-cases (q == k)) [
          | inl y ↦ rw ((==_iff q k).0 y)
          | inr n ↦ (own_segment k q t v).1 (ground (arith, lookup-assign q k e c))
        ])

  pub erase-IsValid : (k : ℕ) (t : SegmentedMap E) → IsValid t → IsValid (erase hash k t)
  unfolding erase
  erase-IsValid k t v =
      let c = segment hash k t in
      set-IsValid k (remove k c) t v (remove-IsDistinct k c (own_segment k k t v).0)
        (λ q f. (own_segment k q t v).1 (ground (arith, lookup-remove q k c)))

  pub clear-IsValid : (t : SegmentedMap E) → IsValid t → IsValid (clear t)
  clear-IsValid t v = record {
    width = length-clear t ∙ v.width;
    placed = clear-IsPlaced (hash_id hash) 0 t;
  }

  -- `ForEach` calls its function for each key of the map exactly once, with the value that a find
  -- returns for it, and `size` is the number of these calls.
  pub for_each_lem :
      (t : SegmentedMap E)
      → IsValid t
      → ((q : ℕ) → lookup q (for_each t) ≡ find_or_null hash q t)
        × IsDistinct (for_each t)
        × (total_size t ≡ length (for_each t))
  unfolding find_or_null segment
  for_each_lem t v = (
    λ q. lookup-for_each (hash_id hash) 0 (hash_id hash q) q t v.placed (omega arith),
    for_each-IsDistinct (hash_id hash) 0 t v.placed,
    total_size-for_each t,
  )

  -- A find-or-insert reports whether the key was there, applies the one function to the old value
  -- or stores the result of the other, and leaves every other key as it was.
  pub find_or_insert_lem :
      (k q : ℕ) (find_func : E → E) (insert_func : ℕ → E) (t : SegmentedMap E)
      → IsValid t
      → let r = find_or_insert_with_different_fn hash k find_func insert_func t in
        (r.0 ≡ is_some (find_or_null hash k t))
        × IsValid r.1
        × (find_or_null hash q r.1 ≡ (
            if q == k
            then some (elim (find_or_null hash k t) [ none ↦ insert_func k | some e ↦ find_func e ])
            else find_or_null hash q t))
  unfolding find_or_insert_with_different_fn find_or_null
  find_or_insert_lem k q f g t v = elim (Option-cases (lookup k (segment hash k t))) [
    | inl e ↦
        rw (e, find_or_insert_with_different_fn)
          (refl, insert-IsValid k (g k) t v, find-insert q k (g k) t v)
    | inr (old, e) ↦
        rw (e, find_or_insert_with_different_fn)
          (refl, insert-IsValid k (f old) t v, find-insert q k (f old) t v)
  ]

pub new-IsValid : (hash : ℕ → ℕ) (E : Type 0) → IsValid hash {E = E} new
unfolding new
new-IsValid hash E = record {
  width = length-replicate {A = List (ℕ × E)} hash_size_default [];
  placed = replicate-IsPlaced E (hash_id hash) 0 hash_size_default;
}

-- `ConcurrentUnorderedMap` keeps the contract of `IMap`.
pub segmented_map : (hash : ℕ → ℕ) (E : Type 0) → IMap E (SegmentedMap E)
unfolding new find_or_null segment
segmented_map hash E = record {
  empty = new;
  find_or_null = find_or_null hash;
  insert_or_assign = insert_or_assign hash;
  erase = erase hash;
  clear = clear;
  size = total_size;
  entries = for_each;
  IsValid = IsValid hash;
  empty-IsValid = new-IsValid hash E;
  insert-IsValid = insert-IsValid hash;
  erase-IsValid = erase-IsValid hash;
  clear-IsValid = clear-IsValid hash;
  find-empty = λ q. rw (get_or-replicate {A = List (ℕ × E)} hash_size_default (hash_id hash q) []);
  find-insert = find-insert hash;
  find-erase = find-erase hash;
  entries-clear = λ t v. for_each-clear t;
  find-entries = λ q t v. (for_each_lem hash t v).0 q;
  entries-IsDistinct = λ t v. (for_each_lem hash t v).1;
  size-entries = λ t v. (for_each_lem hash t v).2;
}
