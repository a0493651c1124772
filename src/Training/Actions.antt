-- ===== src/Training/Actions.antt =====
-- What a macro of training_ops.cc does to one table, after its lookup: a sequence of actions on the
-- key's row and record. The tables of an operation share nothing, so that the actions on one table
-- keep their order and the order between tables does not matter.
pub mod Plain
use tfplus.Common.{ℕ, Option, none, some, List, [], ◌∷◌}
use tfplus.Memory.{Ptr, store_row}
use tfplus.HashMap.{IMap}
use tfplus.Embedding.Value.{EmbeddingValue}
use tfplus.Embedding.Context.{EvContext}
use tfplus.Table.{M, pure, fault, ◌>>=◌, ◌>>◌, on_heap_}
use tfplus.Table.Blacklist.{mark_blacklist_unsafe}
use tfplus.Variable.{Floats, Config}
use tfplus.Variable.Values.{read_row}
use tfplus.Variable.Unsafe.{cover_update_unsafe}

-- An assignment to the row, `CoverUpdateUnsafe`, `MarkBlacklistUnsafe`, and a further read of the
-- row by an expression that Eigen evaluates only then.
pub data Action (V : Type 0) : Type 0 where
  assign : List V → Action V
  cover : Action V
  blacklist : Action V
  reread : Action V

module _ {V T : Type 0} (m : IMap EmbeddingValue T) (floats : Floats V) (config : Config V) where
  -- `p` is where the `TensorMap` of the row points
  unfoldable pub run_action : Ptr → ℕ → Action V → EvContext → M V T EvContext
  unfolding store_row
  run_action p key (assign vs) context = do on_heap_ (store_row p vs); pure context
  run_action p key cover context = do _ ← cover_update_unsafe m floats config context; pure context
  run_action p key blacklist context = do
    marked ← mark_blacklist_unsafe m key (some context)
    elim marked [ none ↦ fault | some c ↦ pure c ]
  run_action p key reread context = do _ ← read_row p; pure context

  unfoldable pub run_actions : Ptr → ℕ → List (Action V) → EvContext → M V T EvContext
  run_actions p key [] context = pure context
  run_actions p key (a ∷ actions) context = do
    c ← run_action p key a context
    run_actions p key actions c
