-- ===== src/Operations/Import.antt =====
-- The operations of kv_variable_ops.cc that import and export: the tensors that they pass on.
pub mod Gathered
use tfplus.Common.{
  ℕ, zero, suc, Bool, true, false, Option, none, some, List, [], ◌∷◌, ltb, ◌==◌, length,
  if◌then◌else◌,
}
use tfplus.Memory.{Ptr}
use tfplus.HashMap.{IMap}
use tfplus.Embedding.Value.{EmbeddingValue}
use tfplus.Table.{M, pure, ◌>>=◌}
use tfplus.Variable.{Floats}
use tfplus.Variable.Import.{Imported, DeltaStatus, ok, import_values, delta_import}

-- one of `others`: an input of the operation, or an empty `Tensor()`
pub data Other : Type 0 where
  input : (i : ℕ) → Other
  empty : Other

abbrev when_above : (bound first_n i : ℕ) → Other
when_above bound first_n i = if ltb bound first_n then input i else empty

-- KvVariableImportOp: the table of initial values, the blacklist, the keys and the frequencies
unfoldable pub import_others : (first_n : ℕ) → List Other
import_others first_n =
    input 3 ∷ when_above 3 first_n 4 ∷ when_above 4 first_n 5 ∷ when_above 4 first_n 6 ∷ []

-- KvVariableOldImportOp
unfoldable pub old_import_others : List Other
old_import_others = input 3 ∷ empty ∷ empty ∷ empty ∷ []

-- KvVariableFullOrDeltaImportOp: also whether the import is full, the keys to delete, and with ten
-- inputs whether this is the last checkpoint
unfoldable pub full_or_delta_import_others : (first_n num_inputs : ℕ) → List Other
full_or_delta_import_others first_n num_inputs =
    input 3
    ∷ input 4
    ∷ when_above 4 first_n 5
    ∷ when_above 4 first_n 6
    ∷ input 7
    ∷ input 8
    ∷ (if num_inputs == 10 then input 9 ∷ [] else [])

-- the tensors of the inputs by what they hold: rows, keys, frequencies, a flag
pub record Inputs (V : Type 0) : Type 0 where
  pub rows_at : ℕ → List (List V)
  pub keys_at : ℕ → List ℕ
  pub frequencies_at : ℕ → List ℕ
  pub flag_at : ℕ → Bool

abbrev other_at : List Other → ℕ → Other
other_at [] i = empty
other_at (o ∷ others) zero = o
other_at (o ∷ others) (suc i) = other_at others i

abbrev read_other {ℓ} : {A : Type ℓ} → (ℕ → A) → A → Other → A
read_other f none_there (input i) = f i
read_other f none_there empty = none_there

abbrev side_by_side : List ℕ → List ℕ → List (ℕ × ℕ)
side_by_side (k ∷ ks) (v ∷ vs) = (k, v) ∷ side_by_side ks vs
side_by_side _ _ = []

module _ {V T : Type 0} (m : IMap EmbeddingValue T) (floats : Floats V) where
  abbrev frequencies_of : Inputs V → List Other → List (ℕ × ℕ)
  frequencies_of ins others =
      side_by_side (read_other ins.keys_at [] (other_at others 2))
        (read_other ins.frequencies_at [] (other_at others 3))

  -- the call of `ImportValues`, with `others[6]` if there is one
  unfoldable pub pass_import :
      Inputs V
      → List Other
      → (others_6 : Option Bool) → List ℕ
      → List Ptr
      → Imported V
      → M V T (Imported V)
  unfolding import_values
  pass_import ins others others_6 keys values before =
      import_values m floats keys values (read_other ins.rows_at [] (other_at others 0))
        (read_other ins.keys_at [] (other_at others 1)) (frequencies_of ins others) others_6 before

  -- KvVariableImportOp
  unfoldable pub import_op :
      Inputs V → (first_n : ℕ) → List ℕ → List Ptr → Imported V → M V T (Imported V)
  unfolding pass_import import_others
  import_op ins first_n keys values before =
      pass_import ins (import_others first_n) none keys values before

  -- KvVariableOldImportOp
  unfoldable pub old_import_op : Inputs V → List ℕ → List Ptr → Imported V → M V T (Imported V)
  unfolding pass_import old_import_others
  old_import_op ins keys values before = pass_import ins old_import_others none keys values before

  -- `FullOrDeltaImport`: the status, and what the import leaves outside the table
  unfoldable pub full_or_delta_import :
      Inputs V
      → (has_mem_table : Bool) → (first_n : ℕ) → List Other
      → (others_6 : Option Bool) → List ℕ
      → List Ptr
      → Imported V
      → M V T (DeltaStatus × Imported V)
  unfolding pass_import delta_import
  full_or_delta_import ins has_mem_table first_n others others_6 keys values before =
      if read_other ins.flag_at false (other_at others 4)
      then (do outside ← pass_import ins others others_6 keys values before; pure (ok, outside))
      else (do
        (status, set) ←
            delta_import m floats first_n (length others) has_mem_table keys values
              (read_other ins.keys_at [] (other_at others 1)) (frequencies_of ins others)
              (read_other ins.keys_at [] (other_at others 5)) others_6 before.random_init_table_set
        pure (status, record before { random_init_table_set = set }))

  -- KvVariableFullOrDeltaImportOp
  unfoldable pub full_or_delta_import_op :
      Inputs V
      → (has_mem_table : Bool) → (first_n num_inputs : ℕ) → List ℕ
      → List Ptr
      → Imported V
      → M V T (DeltaStatus × Imported V)
  unfolding full_or_delta_import full_or_delta_import_others
  full_or_delta_import_op ins has_mem_table first_n num_inputs keys values before =
      full_or_delta_import ins has_mem_table first_n
        (full_or_delta_import_others first_n num_inputs)
        (if num_inputs == 10 then some (ins.flag_at 9) else none) keys values before
