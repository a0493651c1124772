-- ===== src/Training.antt =====
-- tfplus/kv_variable/kernels/training_ops.cc: the operations that train an embedding table and the
-- tables of its slots by the gradients of a batch. Parts: the arithmetic on rows (Scalars), the
-- rules that the operations apply to the rows of one key (Rules), the steps on the tables (Actions,
-- Apply, Work), the operations by name (Operations), the checks of the inputs (Checks), and the
-- sequences of steps on a table (Reach).
pub mod Scalars
pub mod Rules
pub mod Actions
pub mod Apply
pub mod Work
pub mod Operations
pub mod Checks
pub mod Reach
pub mod Requirements
pub mod Dense
pub mod Locks
