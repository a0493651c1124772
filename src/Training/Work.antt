-- ===== src/Training/Work.antt =====
-- The loop of an operation of training_ops.cc over the keys of a batch, `DoWork`, and
-- `MarkAsDeltaListElements` of kv_variable.h at its end.
pub mod Run
use tfplus.Common.{
  ℕ, suc, Bool, true, false, Option, none, some, List, [], ◌∷◌, ◌&&◌, if◌then◌else◌, get_elem?,
}
use tfplus.Memory.{◌>>=◌}
use tfplus.HashMap.{IMap}
use tfplus.Embedding.Value.{EmbeddingValue}
use tfplus.Table.{Store, M, fault}
use tfplus.Variable.{Floats, Config, insert_key}
use tfplus.Variable.Unsafe.{Draw}
use tfplus.Training.Rules.{Rule}
use tfplus.Training.Apply.{Table, apply_key}

-- a key of `indices` with its row of `grad`, and what the lookups of its turn draw
pub record Item (V : Type 0) : Type 0 where
  pub key : ℕ
  pub grad : List V
  pub draw : Draw
  pub draws : List Draw

abbrev pub keys_of : {V : Type 0} → List (Item V) → List ℕ
keys_of [] = []
keys_of (x ∷ xs) = x.key ∷ keys_of xs

-- `MarkAsDeltaListElements`; an index beyond the keys faults
unfoldable pub insert_keys_at : List ℕ → List ℕ → List ℕ → Option (List ℕ)
unfolding insert_key
insert_keys_at keys [] list = some list
insert_keys_at keys (i ∷ indices) list = do
  key ← get_elem? keys i
  insert_keys_at keys indices (insert_key key list)

module _ {V T : Type 0} where
  unfoldable pub mark_as_delta_list_elements : List ℕ → List ℕ → Table V T → Option (Table V T)
  unfolding insert_keys_at
  mark_as_delta_list_elements keys indices t =
      if t.config.support_delta_export
      then (do
        list ← insert_keys_at keys indices t.store.train_deltalist
        some (record t { store = record t.store { train_deltalist = list } }))
      else some t

  unfoldable pub mark_all : List ℕ → List ℕ → List (Table V T) → Option (List (Table V T))
  mark_all keys indices [] = some []
  mark_all keys indices (t ∷ ts) = do
    t' ← mark_as_delta_list_elements keys indices t
    ts' ← mark_all keys indices ts
    some (t' ∷ ts')

module _ {V T : Type 0} (m : IMap EmbeddingValue T) (floats : Floats V) (rule : Rule V) where
  -- the loop from index `i`, with `train_deltalist`
  unfoldable pub loop :
      ℕ
      → List (Item V)
      → Table V T
      → List (Table V T)
      → Option (Table V T × List (Table V T) × List ℕ)
  unfolding apply_key
  loop i [] t slots = some (t, slots, [])
  loop i (x ∷ items) t slots = do
    (t₁, slots₁, noted) ← apply_key m floats rule x.key x.grad x.draw x.draws t slots
    (t₂, slots₂, list) ← loop (suc i) items t₁ slots₁
    some (t₂, slots₂, if noted && t.config.support_delta_export then i ∷ list else list)

  -- `DoWork` on the whole of the batch, in one shard
  unfoldable pub do_work :
      List (Item V) → Table V T → List (Table V T) → Option (Table V T × List (Table V T))
  unfolding loop mark_as_delta_list_elements mark_all
  do_work items t slots = do
    (t₁, slots₁, list) ← loop 0 items t slots
    t₂ ← mark_as_delta_list_elements (keys_of items) list t₁
    slots₂ ← mark_all (keys_of items) list slots₁
    some (t₂, slots₂)
