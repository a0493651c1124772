-- ===== src/Variable/Unsafe/Find.antt =====
-- `FindOrInsertUnsafe` of kv_variable.h as a whole: what it hands to a training operation.
use tfplus.Common.{ℕ, ◌≡◌, inl, inr, Bool, true, false, some, List, Bool-cases, Option-cases}
use tfplus.HashMap.{IMap}
use tfplus.Embedding.Value.{EmbeddingValue}
use tfplus.Table.{Store}
use tfplus.Table.Owned.{Owned}
use tfplus.Variable.{Floats, Config, has_low_frequency}
use tfplus.Variable.Lookup.Hits.{shown}
use tfplus.Variable.Unsafe.{Draw}
use tfplus.Variable.Unsafe.Handed.{Hands, new_key}
use tfplus.Variable.Unsafe.Found.{backward, forward_low, forward_black, forward_shown}
use tfplus.Variable.Unsafe.Insert.{Drawn}

module _ {V T : Type 0} (m : IMap EmbeddingValue T) (floats : Floats V) (config : Config V) where
  open m use {find_or_null, insert_or_assign}

  -- On a table whose records own their values, and with two rows drawn from the initial table, the
  -- call does not fault, keeps all that, and changes no other record and no row of another record. It hands
  -- out a row; for a forward variable that is not filtered it is the row of the key's own record,
  -- which is in the table and not in the blacklist. Only a record of low frequency is filtered.
  pub find_or_insert_unsafe_lem :
      (forward : Bool) (draw : Draw) (t₁ t₂ : List V) (key : ℕ) (s : Store V T)
      → Owned m floats.zeros s
      → Drawn config draw t₁ t₂
      → Hands m floats config forward draw key s
  find_or_insert_unsafe_lem forward draw t₁ t₂ key s o d =
      elim (Option-cases (find_or_null key s.ev_table)) [
        | inl absent ↦ new_key m floats config forward draw t₁ t₂ key s o d absent
        | inr (ev, found) ↦ at_found forward ev found
      ]
    where
      at_found :
          (forward : Bool) (ev : EmbeddingValue)
          → find_or_null key s.ev_table ≡ some ev
          → Hands m floats config forward draw key s
      at_found false ev found = backward m floats config key ev s o found draw
      at_found true ev found =
          elim (Bool-cases (has_low_frequency config.enter_threshold ev.freq_val)) [
            | inl low ↦ forward_low m floats config key ev s o found draw low
            | inr high ↦ elim (Bool-cases ev.in_black) [
              | inl black ↦ forward_black m floats config key ev s o found draw high black
              | inr shown ↦ forward_shown m floats config key ev s o found draw high shown
            ]
          ]
