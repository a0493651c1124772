-- ===== src/HashMap/Unordered.antt =====
-- `class UnorderedMap` of tfplus/kv_variable/kernels/hashmap.h: one `std::unordered_map`.
use tfplus.Common.{ℕ, refl, Bool, true, false, Option, none, some, List, [], length, is_some}
use tfplus.HashMap.{IMap}
use tfplus.HashMap.Bucket.{
  lookup, assign, remove, IsDistinct, lookup-assign, lookup-remove, assign-IsDistinct,
  remove-IsDistinct,
}

abbrev pub UnorderedMap : Type 0 → Type 0
UnorderedMap E = List (ℕ × E)

module _ {E : Type 0} where
  pub find_or_null : ℕ → UnorderedMap E → Option E
  find_or_null key table = lookup key table

  -- a callback that gets a `V*` returns the value that it leaves there
  pub find_with_fn : ℕ → (E → E) → UnorderedMap E → Bool × UnorderedMap E
  unfolding assign
  find_with_fn key func table = elim (lookup key table) [
    | none ↦ (false, table)
    | some val ↦ (true, assign key (func val) table)
  ]

  pub insert_or_assign : ℕ → E → UnorderedMap E → Bool × UnorderedMap E
  unfolding assign
  insert_or_assign key val table = (true, assign key val table)

  pub find_or_insert_with_fn : ℕ → (ℕ → E) → UnorderedMap E → Option E × UnorderedMap E
  unfolding assign
  find_or_insert_with_fn key func table = elim (lookup key table) [
    | none ↦ (let t = assign key (func key) table in (lookup key t, t))
    | some val ↦ (some val, table)
  ]

  pub find_or_insert_with_different_fn :
      ℕ → (E → E) → (ℕ → E) → UnorderedMap E → Bool × UnorderedMap E
  unfolding assign
  find_or_insert_with_different_fn key find_func insert_func table = elim (lookup key table) [
    | none ↦ (false, assign key (insert_func key) table)
    | some val ↦ (true, assign key (find_func val) table)
  ]

  pub erase : ℕ → UnorderedMap E → Bool × UnorderedMap E
  unfolding remove
  erase key table = (is_some (lookup key table), remove key table)

  -- `UnorderedMap` keeps the contract of `IMap`.
  abbrev pub unordered_map : IMap E (UnorderedMap E)
  unordered_map = record {
    empty = [];
    find_or_null = lookup;
    insert_or_assign = assign;
    erase = remove;
    clear = λ t. [];
    size = length;
    entries = λ t. t;
    IsValid = IsDistinct;
    empty-IsValid = tt;
    insert-IsValid = assign-IsDistinct;
    erase-IsValid = remove-IsDistinct;
    clear-IsValid = λ t h. tt;
    find-empty = λ q. refl;
    find-insert = λ q k e t h. lookup-assign q k e t;
    find-erase = λ q k t h. lookup-remove q k t;
    entries-clear = λ t h. refl;
    find-entries = λ q t h. refl;
    entries-IsDistinct = λ t h. h;
    size-entries = λ t h. refl;
  }
