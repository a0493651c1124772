-- ===== src/Variable/Values.antt =====
-- The private helpers of kv_variable.h on the value of one record, and
-- `EVContext::OutputEmbeddingData` of embedding_context.h.
pub mod Steps
pub mod Overwrite
use tfplus.Common.{
  ℕ, ◌%◌, Bool, true, false, Option, none, some, List, [], ◌∷◌, ◌||◌, ◌==◌, not, if◌then◌else◌,
  length, get_elem?,
}
use tfplus.Memory.{Ptr, null, Heap, load_row, store_row}
use tfplus.HashMap.{IMap}
use tfplus.Embedding.Value.{EmbeddingValue, set_under_threshold}
use tfplus.Embedding.Context.{EvContext}
use tfplus.Table.{M, pure, fault, ◌>>=◌, ◌>>◌, on_heap, on_heap_, load_meta, store_meta, deref}
use tfplus.Variable.{Floats}

-- the loop over the elements, which returns at the first that reaches the cutoff
unfoldable pub any : {V : Type 0} → (V → Bool) → List V → Bool
any exceeds [] = false
any exceeds (v ∷ vs) = exceeds v || any exceeds vs

abbrev pub read_row : {V T : Type 0} → Ptr → M V T (List V)
read_row p s = elim (load_row p s.heap) [ none ↦ none | some vs ↦ some (vs, s) ]

module _ {V T : Type 0} (m : IMap EmbeddingValue T) where
  -- `UpdateUnderThreshold`, with the test on an element as an argument
  unfoldable pub update_under_threshold :
      (enable_cutoff : Bool) → (V → Bool) → EvContext → M V T Bool
  unfolding deref load_meta store_meta load_row any set_under_threshold
  update_under_threshold enable_cutoff exceeds context = do
    p ← deref m context.meta
    ev ← load_meta m p
    under ←
        (if ev.in_black || (context.val == null)
          then pure true
          else if not enable_cutoff
          then pure false
          else (do vs ← read_row context.val; pure (not (any exceeds vs))))
    store_meta m p (set_under_threshold under ev)
    pure under

  -- `OutputEmbeddingData`; `none` leaves the output row as it was
  unfoldable pub output_embedding_data : EvContext → M V T (Option (List V))
  unfolding load_meta load_row
  output_embedding_data context =
      if not (context.val == null)
      then (do vs ← read_row context.val; pure (some vs))
      else elim context.meta [
        | none ↦ pure none
        | some p ↦ do
          ev ← load_meta m p
          if ev.embedding_val == null
              then pure none
              else (do vs ← read_row ev.embedding_val; pure (some vs))
      ]

-- `GenerateRandomInitialValue`: the mean of two rows of the initial table, at the places that the
-- two results of `std::rand` give. An empty table faults, as a remainder by zero.
unfoldable pub generate_random_initial_value :
    {V T : Type 0} → Floats V → List (List V) → (rand1 rand2 : ℕ) → Ptr → M V T (Unit {0})
unfolding store_row
generate_random_initial_value floats table rand1 rand2 value =
    elim (get_elem? table (rand1 % length table)) [
      | none ↦ fault
      | some t₁ ↦ elim (get_elem? table (rand2 % length table)) [
        | none ↦ fault
        | some t₂ ↦ on_heap_ (store_row value (floats.average t₁ t₂))
      ]
    ]
