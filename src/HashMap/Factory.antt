-- ===== src/HashMap/Factory.antt =====
-- The kinds of maps of tfplus/kv_variable/kernels/hashmap.h, which the factory and the constructor
-- of `MultiLevelHashMap` choose from.
use tfplus.Common.{◌≡◌, ◌⊎◌, ◌↔◌, Bool, true, false, List, [], ◌∷◌, arith}

-- `other` is a value of the enum with no enumerator, such as an environment variable can give.
pub data MapType : Type 0 where
  unordered_map cuckoo_hash concurrent_unordered_map : MapType
  concurrent_dense_hash_map multi_level_map other : MapType

-- the class that is constructed
pub data MapClass : Type 0 where
  unordered cuckoo concurrent_unordered concurrent_dense multi_level : MapClass

-- `MapFactory::CreateMap`
unfoldable pub create_map : MapType → MapClass
create_map unordered_map = unordered
create_map cuckoo_hash = cuckoo
create_map concurrent_unordered_map = concurrent_unordered
create_map concurrent_dense_hash_map = concurrent_dense
create_map multi_level_map = multi_level
create_map other = concurrent_unordered

-- The assignments to `hashtable_creator_` in the constructor's switch from the case of the type
-- on: no case ends with `break`.
unfoldable pub assignments_from : MapType → List MapClass
assignments_from unordered_map =
    unordered ∷ cuckoo ∷ concurrent_unordered ∷ concurrent_dense ∷ concurrent_unordered ∷ []
assignments_from cuckoo_hash =
    cuckoo ∷ concurrent_unordered ∷ concurrent_dense ∷ concurrent_unordered ∷ []
assignments_from concurrent_unordered_map =
    concurrent_unordered ∷ concurrent_dense ∷ concurrent_unordered ∷ []
assignments_from concurrent_dense_hash_map = concurrent_dense ∷ concurrent_unordered ∷ []
assignments_from multi_level_map = concurrent_unordered ∷ []
assignments_from other = concurrent_unordered ∷ []

-- the value of `hashtable_creator_` after its assignments, in order
unfoldable pub after_assignments : MapClass → List MapClass → MapClass
after_assignments current [] = current
after_assignments current (next ∷ rest) = after_assignments next rest

-- the class of the sub-tables that a `MultiLevelHashMap` constructs
unfoldable pub inner_class : MapType → MapClass
unfolding assignments_from after_assignments
inner_class map_type = after_assignments concurrent_unordered (assignments_from map_type)

-- `MultiLevelHashMap::NeedExplicitLock`, by the type that the constructor stored
unfoldable pub multi_level_need_explicit_lock : MapType → Bool
multi_level_need_explicit_lock cuckoo_hash = false
multi_level_need_explicit_lock concurrent_unordered_map = false
multi_level_need_explicit_lock concurrent_dense_hash_map = false
multi_level_need_explicit_lock _ = true

-- `NeedExplicitLock` of the class itself
unfoldable pub need_explicit_lock : MapClass → Bool
need_explicit_lock unordered = true
need_explicit_lock _ = false

-- Whatever type is asked for, the fall-through leaves `ConcurrentUnorderedMap` as the class of the
-- sub-tables. It is the one that the factory gives for the type exactly for CONCURRENT_UNORDERED_MAP and
-- for a value that is no enumerator. What the map answers to NeedExplicitLock is what its sub-tables answer exactly for CUCKOO_HASH, CONCURRENT_UNORDERED_MAP
-- and CONCURRENT_DENSE_HASH_MAP.
pub inner_class_falls_through :
    (t : MapType)
    → (inner_class t ≡ concurrent_unordered)
      × ((inner_class t ≡ create_map t) ↔ (t ≡ concurrent_unordered_map) ⊎ (t ≡ other))
      × ((multi_level_need_explicit_lock t ≡ need_explicit_lock (inner_class t))
          ↔ (t ≡ cuckoo_hash) ⊎ (t ≡ concurrent_unordered_map) ⊎ (t ≡ concurrent_dense_hash_map))
unfolding inner_class create_map multi_level_need_explicit_lock need_explicit_lock
inner_class_falls_through t = ground arith
