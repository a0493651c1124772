-- ===== src/Training/Apply.antt =====
-- One key of a batch in an operation of training_ops.cc: the lookups in the table that is trained and
-- in those of its slots, the rule on their rows, and what it does to each table.
pub mod Ready
pub mod Slots
pub mod Trained
pub mod Key
use tfplus.Common.{ℕ, Bool, true, false, Option, none, some, List, [], ◌∷◌, if◌then◌else◌}
use tfplus.Memory.{load_row, ◌>>=◌}
use tfplus.HashMap.{IMap}
use tfplus.Embedding.Value.{EmbeddingValue}
use tfplus.Embedding.Context
use tfplus.Embedding.Context.{EvContext, empty_context}
use tfplus.Table.{Store}
use tfplus.Variable.{Floats, Config}
use tfplus.Variable.Unsafe.{Draw, find_or_insert_unsafe}
use tfplus.Training.Actions.{Action, run_actions}
use tfplus.Training.Rules.{Rule}

-- a table with the attributes of its variable
pub record Table (V T : Type 0) : Type 0 where
  pub config : Config V
  pub store : Store V T

-- the slot of a key that an operation has looked up: its context and its row
pub record Opened (V T : Type 0) : Type 0 where
  pub table : Table V T
  pub context : EvContext
  pub values : List V

module _ {V T : Type 0} where
  abbrev pub rows_of : List (Opened V T) → List (List V)
  rows_of [] = []
  rows_of (o ∷ os) = o.values ∷ rows_of os

module _ {V T : Type 0} (m : IMap EmbeddingValue T) (floats : Floats V) where
  -- `FindOrInsertUnsafe(key, &context, nullptr)` and the `TensorMap` of the row
  unfoldable pub open_slot : ℕ → Draw → Table V T → Option (Opened V T)
  unfolding load_row
  open_slot key draw table = do
    ((c, _), s) ←
        find_or_insert_unsafe m floats table.config false draw key empty_context table.store
    values ← load_row c.val s.heap
    some (record { table = record table { store = s }; context = c; values = values })

  unfoldable pub open_slots : ℕ → List Draw → List (Table V T) → Option (List (Opened V T))
  open_slots key (d ∷ draws) (t ∷ tables) = do
    o ← open_slot key d t
    os ← open_slots key draws tables
    some (o ∷ os)
  open_slots key _ [] = some []
  open_slots key [] _ = none

  -- the actions on one table, and the end of the context
  unfoldable pub run_table : ℕ → List (Action V) → Opened V T → Option (Table V T)
  unfolding Context.destroy
  run_table key actions o = do
    (c, s) ← run_actions m floats o.table.config o.context.val key actions o.context o.table.store
    h ← Context.destroy c s.heap
    some (record o.table { store = record s { heap = h } })

  unfoldable pub run_slots :
      ℕ → List (List (Action V)) → List (Opened V T) → Option (List (Table V T))
  run_slots key (a ∷ actions) (o ∷ os) = do
    t ← run_table key a o
    ts ← run_slots key actions os
    some (t ∷ ts)
  run_slots key [] [] = some []
  run_slots key _ _ = none

  -- The body of the loop over the batch. The flag of the result is that the key is put on
  -- `train_deltalist`, if that is wanted: a filtered key is passed over.
  unfoldable pub apply_key :
      Rule V
      → (key : ℕ) → (grad : List V) → Draw
      → List Draw
      → Table V T
      → List (Table V T)
      → Option (Table V T × List (Table V T) × Bool)
  unfolding load_row Context.destroy
  apply_key rule key grad draw draws table slots = do
    ((c, should_filter), s) ←
        find_or_insert_unsafe m floats table.config true draw key empty_context table.store
    (if should_filter
        then (do
          h ← Context.destroy c s.heap
          some (record table { store = record s { heap = h } }, slots, false))
        else (do
          opened ← open_slots key draws slots
          values ← load_row c.val s.heap
          (actions, slot_actions) ← rule grad values (rows_of opened)
          table' ←
              run_table key actions
                (record { table = record table { store = s }; context = c; values = values })
          slots' ← run_slots key slot_actions opened
          some (table', slots', true)))
