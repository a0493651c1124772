-- ===== src/Operations.antt =====
-- tfplus/kv_variable/kernels/kv_variable_ops.cc: the operations of TensorFlow on an embedding variable.
pub mod Create
pub mod Gather
pub mod Import
