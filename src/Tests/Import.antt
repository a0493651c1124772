-- ===== src/Tests/Import.antt =====
-- The theorem on an import (dynamic_restore.hpp) at a concrete tensor: two keys with rows of two.
use tfplus.Common.{ℕ, ◌≡◌, refl, true, false, none, some, List, [], ◌∷◌, arith, ◌==◌, if◌then◌else◌}
use tfplus.Memory.{Ptr, row}
use tfplus.HashMap.Bucket.{lookup}
use tfplus.HashMap.Unordered.{UnorderedMap, unordered_map}
use tfplus.Embedding.Value.{EmbeddingValue}
use tfplus.Table.{Store}
use tfplus.Variable.Import.{Imported}
use tfplus.Variable.Import.Keys.{after_import}
use tfplus.Variable.Import.Restored.{imported_outside}
use tfplus.Operations.Gather.{gather_or_zeros}
use tfplus.Operations.Import.{Inputs, import_op}
use tfplus.Operations.Import.Gathered.{import_gather_lem}
use tfplus.Tests.Lookup.{naturals, start}

-- the rows of the tensor at 5 and 6
abbrev with_tensor : Store ℕ (UnorderedMap EmbeddingValue)
with_tensor = record start {
  heap = record {
    next = 7;
    cell = λ p.
        if p == 1
        then some (row (0 ∷ 0 ∷ []))
        else if p == 5
        then some (row (1 ∷ 2 ∷ []))
        else if p == 6
        then some (row (3 ∷ 4 ∷ []))
        else none;
  };
}

abbrev pairs : List (ℕ × Ptr)
pairs = (7, 5) ∷ (9, 6) ∷ []

abbrev before : Imported ℕ
before = record { random_init_table = []; random_init_table_set = false; prediction_deltalist = [] }

abbrev inputs : Inputs ℕ
inputs = record {
  rows_at = λ i. (5 ∷ 6 ∷ []) ∷ [];
  keys_at = λ i. 7 ∷ [];
  frequencies_at = λ i. 8 ∷ [];
  flag_at = λ i. false;
}

import_gather_example :
    (s' s'' : Store ℕ (UnorderedMap EmbeddingValue)) × (import_op unordered_map naturals inputs 3
        (7 ∷ 9 ∷ [])
        (5 ∷ 6 ∷ [])
        before
        with_tensor
      ≡ some (
        record (imported_outside unordered_map naturals ((5 ∷ 6 ∷ []) ∷ []) none before) {
          random_init_table_set = true;
        },
        s',
      ))
    × (gather_or_zeros unordered_map naturals (7 ∷ 9 ∷ []) s'
        ≡ some (some (1 ∷ 2 ∷ []) ∷ some (3 ∷ 4 ∷ []) ∷ [], s''))
    × (s'.train_deltalist ≡ [])
    × ((q : ℕ)
        → unordered_map.find_or_null q s'.ev_table
          ≡ after_import unordered_map naturals (lookup q pairs) none)
import_gather_example =
    import_gather_lem unordered_map naturals inputs 3 pairs ((1 ∷ 2 ∷ []) ∷ (3 ∷ 4 ∷ []) ∷ [])
      before with_tensor (omega arith) tt refl (refl, (refl, tt))
      (λ e. omega (arith, e), refl, (λ e. omega (arith, e), refl, tt))
