-- ===== src/Embedding.antt =====
-- tfplus/kv_variable/kernels/embedding_value.h and hybrid_embedding/embedding_context.h: the record
-- of a key in the table, and the context that carries a value between the table and a caller.
pub mod Value
pub mod Context
