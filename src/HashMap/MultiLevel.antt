-- ===== src/HashMap/MultiLevel.antt =====
-- `class MultiLevelHashMap` of tfplus/kv_variable/kernels/hashmap.h: one table for many variables.
-- The high 12 bits of an `int64` key choose a sub-table, the low 52 bits are the key there.
pub mod Keys
pub mod Tables
