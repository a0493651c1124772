-- ===== src/Tests/Export.antt =====
-- The export of dynamic_save.hpp at a concrete input.
use tfplus.Common.{◌≡◌, true, false, some, [], ◌∷◌, arith, ltb}
use tfplus.HashMap.Unordered.{unordered_map}
use tfplus.Variable.Export.Passes.{exported}
use tfplus.Variable.Export.Full.{update_deltalists, export_values, export_values_lem}
use tfplus.Tests.Lookup.{naturals, config, one_key, one_key-Inv}

export_values_lem_example :
    export_values unordered_map config 6 false true (ltb 0) true true (9 ∷ []) one_key
    ≡ some (
      (
        exported 2 6 true one_key.heap one_key.ev_table,
        (update_deltalists 6 true one_key.train_deltalist (9 ∷ [])).1,
      ),
      record one_key {
        train_deltalist = (update_deltalists 6 true one_key.train_deltalist (9 ∷ [])).0;
      },
    )
export_values_lem_example =
    export_values_lem unordered_map naturals.zeros config 6 true (ltb 0) true true (9 ∷ []) one_key
      one_key-Inv (λ k e f le. absurd (omega arith))
