-- ===== src/Operations/Gather.antt =====
-- The operations of kv_variable_ops.cc that look rows up and write them, with the methods of
-- kv_variable.h that they call: the loops over the keys, which run one after the other.
use tfplus.Common.{
  ℕ, Bool, false, Option, none, some, List, [], ◌∷◌, ◌++◌, ltb, length, if◌then◌else◌,
}
use tfplus.Memory.{Ptr}
use tfplus.HashMap.{IMap}
use tfplus.Embedding.Value.{EmbeddingValue}
use tfplus.Table.{M, pure, ◌>>=◌, ◌>>◌}
use tfplus.Training.Checks.{same_size}
use tfplus.Variable.{Floats, Config}
use tfplus.Variable.Lookup.{Row, Output, find_or_zeros_row, find_or_insert_locally}
use tfplus.Variable.Update.{insert_or_update_row, scatter_update_row}

-- the shape of the output: the indices' and then the values'
unfoldable pub result_shape : (indices_shape value_shape : List ℕ) → List ℕ
result_shape indices_shape [] = indices_shape
result_shape indices_shape (d ∷ ds) = result_shape (indices_shape ++ d ∷ []) ds

-- what `counts` is: its shape, and whether it holds `int32`
pub record Counts : Type 0 where
  pub shape : List ℕ
  pub is_int32 : Bool

pub data Gathered (V : Type 0) : Type 0 where
  rows : List (Output V) → Gathered V
  invalid_argument : Gathered V

module _ {V T : Type 0} (m : IMap EmbeddingValue T) (floats : Floats V) where
  -- `FindOrZeros`, by `BatchGetWithFn`
  unfoldable pub find_or_zeros : List ℕ → M V T (List (Option (List V)))
  unfolding find_or_zeros_row
  find_or_zeros [] = pure []
  find_or_zeros (key ∷ keys) = do
    out ← find_or_zeros_row m floats key
    outs ← find_or_zeros keys
    pure (out ∷ outs)

  -- KvVariableGatherOrZerosOp
  unfoldable pub gather_or_zeros : List ℕ → M V T (List (Option (List V)))
  unfolding find_or_zeros
  gather_or_zeros keys = if ltb 0 (length keys) then find_or_zeros keys else pure []

  -- `FindOrInsert`, with the checks of the counts
  unfoldable pub find_or_insert :
      Config V → (keys_shape : List ℕ) → Option Counts → List Row → M V T (Gathered V)
  find_or_insert config keys_shape counts items =
      let go = (do outs ← find_or_insert_locally m floats config items; pure (rows outs)) in
      elim counts [
        | none ↦ go
        | some c ↦
            if same_size keys_shape c.shape
            then (if c.is_int32 then go else pure invalid_argument)
            else pure invalid_argument
      ]

  -- KvVariableGatherOrInsertOp
  unfoldable pub gather_or_insert : Config V → List ℕ → List Row → M V T (Gathered V)
  unfolding find_or_insert
  gather_or_insert config keys_shape items =
      if ltb 0 (length items) then find_or_insert config keys_shape none items else pure (rows [])

  -- KvVariableGatherOrInsertWithCountsOp
  unfoldable pub gather_or_insert_with_counts :
      Config V → List ℕ → Counts → List Row → M V T (Gathered V)
  unfolding find_or_insert
  gather_or_insert_with_counts config keys_shape counts items =
      if ltb 0 (length items)
      then find_or_insert config keys_shape (some counts) items
      else pure (rows [])

  -- a row that `FindOrZeros` gives
  abbrev found_row : Option (List V) → Output V
  found_row values = record { values = values; filter_out = none }

  abbrev found_rows : List (Option (List V)) → List (Output V)
  found_rows [] = []
  found_rows (v ∷ vs) = found_row v ∷ found_rows vs

  abbrev row_keys : List Row → List ℕ
  row_keys [] = []
  row_keys (r ∷ items) = r.key ∷ row_keys items

  -- KvVariableGatherOp
  unfoldable pub gather :
      Config V → (use_init_value : Bool) → List ℕ → List Row → M V T (Gathered V)
  unfolding find_or_insert find_or_zeros
  gather config use_init_value keys_shape items =
      if ltb 0 (length items)
      then (if use_init_value
          then find_or_insert config keys_shape none items
          else (do outs ← find_or_zeros (row_keys items); pure (rows (found_rows outs))))
      else pure (rows [])

  -- `InsertOrUpdate` over the keys and the rows of the values
  unfoldable pub insert_or_update : Config V → List (ℕ × Ptr) → M V T (Unit {0})
  unfolding insert_or_update_row
  insert_or_update config [] = pure tt
  insert_or_update config ((key, value_ptr) ∷ rest) = do
    insert_or_update_row m floats config key false false value_ptr
    insert_or_update config rest

  -- KvVariableInsertOp, which drops the status
  unfoldable pub insert : Config V → List (ℕ × Ptr) → M V T (Unit {0})
  unfolding insert_or_update
  insert config items = if ltb 0 (length items) then insert_or_update config items else pure tt

  -- a key, its update, and the random numbers of a new row
  pub record Update : Type 0 where
    pub key : ℕ
    pub rhs : List V
    pub rand1 : ℕ
    pub rand2 : ℕ

  unfoldable pub scatter_update :
      Config V → (List V → List V → List V) → List Update → M V T (Unit {0})
  unfolding scatter_update_row
  scatter_update config op [] = pure tt
  scatter_update config op (u ∷ rest) = do
    scatter_update_row m floats config op u.key u.rhs u.rand1 u.rand2
    scatter_update config op rest

  -- KvVariableScatterUpdateOP
  unfoldable pub scatter : Config V → (List V → List V → List V) → List Update → M V T (Unit {0})
  unfolding scatter_update
  scatter config op items = if ltb 0 (length items) then scatter_update config op items else pure tt
