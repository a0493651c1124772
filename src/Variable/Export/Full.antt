-- ===== src/Variable/Export/Full.antt =====
-- `KvVariable::ExportValues` (dynamic_save.hpp) on a table, with the lists of changed keys.
use tfplus.Common.{
  ℕ, ◌≤◌, ◌≡◌, sym, ◌∙◌, ◌≢◌, Bool, true, false, none, some, List, [], ◌∷◌, arith, not,
  if◌then◌else◌, ltb, leb, ==_refl,
}
use tfplus.Memory.{null, row, Heap, load_row}
use tfplus.HashMap.{IMap}
use tfplus.HashMap.Bucket.{lookup, IsDistinct}
use tfplus.Embedding.Value.{EmbeddingValue}
use tfplus.Embedding.Context.{entry, meta_context}
use tfplus.Table.{Store, M, pure, ◌>>=◌, ◌>>◌}
use tfplus.Table.Ownership.{Inv}
use tfplus.Variable.{Config, insert_key}
use tfplus.Variable.Values.{update_under_threshold}
use tfplus.Variable.Export.{
  first_n_export_key_and_values, first_n_export_black_list, Entry, Exported, output_value,
  export_table,
}
use tfplus.Variable.Export.Wanted.{Ready}
use tfplus.Variable.Export.Passes.{exported, export_table_lem}

unfoldable pub insert_keys : List ℕ → List ℕ → List ℕ
insert_keys [] into = into
insert_keys (k ∷ ks) into = insert_keys ks (insert_key k into)

-- the lists of changed keys after an export: the training one, and the prediction one
unfoldable pub update_deltalists :
    (first_n : ℕ)
    → (support_prediction_delta : Bool) → (train prediction : List ℕ) → List ℕ × List ℕ
unfolding insert_keys
update_deltalists first_n support_prediction_delta train prediction =
    if not (ltb first_n_export_key_and_values first_n)
    then (train, prediction)
    else if leb first_n first_n_export_black_list
    then (train, [])
    else ([], (if support_prediction_delta then insert_keys train prediction else prediction))

module _ {V T : Type 0} (m : IMap EmbeddingValue T) where
  open m use {entries, size}

  unfoldable pub refresh_threshold : Bool → (V → Bool) → List Entry → M V T (Unit {0})
  refresh_threshold enable_cutoff exceeds [] = pure tt
  refresh_threshold enable_cutoff exceeds ((key, v) ∷ rest) = do
    _ ← update_under_threshold m enable_cutoff exceeds (meta_context (entry key) v.embedding_val)
    refresh_threshold enable_cutoff exceeds rest

  -- `RefreshAllUnderThresholds`; `differs` is that a cutoff is not the default one
  unfoldable pub refresh_all_under_thresholds :
      (differs : Bool) → Bool → (V → Bool) → M V T (Unit {0})
  refresh_all_under_thresholds differs enable_cutoff exceeds s =
      if differs
      then refresh_threshold enable_cutoff exceeds (entries s.ev_table) s
      else some (tt, s)

  -- `ExportValues`: the tensors and the new `prediction_deltalist_`
  unfoldable pub export_values :
      Config V
      → (first_n : ℕ) → (differs enable_cutoff : Bool) → (exceeds : V → Bool)
      → (freq_use_uint32 support_prediction_delta : Bool) → (prediction_deltalist : List ℕ)
      → M V T (Exported V × List ℕ)
  export_values config first_n differs enable_cutoff exceeds wide support prediction = do
    refresh_all_under_thresholds differs enable_cutoff exceeds
    λ s.
        elim (export_table config.enter_threshold first_n (size s.ev_table) wide s.heap
          (entries s.ev_table)) [
            | none ↦ none
            | some out ↦
                let lists = update_deltalists first_n support s.train_deltalist prediction in
                some ((out, lists.1), record s { train_deltalist = lists.0 })
          ]

readable :
    {V : Type 0} (h : Heap V) (v : EmbeddingValue) (vs : List V)
    → v.embedding_val ≢ null
    → h.cell v.embedding_val ≡ some (row vs)
    → output_value h v ≡ some (load_row v.embedding_val h)
unfolding output_value load_row
readable h v vs nz e = ground arith

-- what holds of the record of every key holds of every entry
entries-Ready :
    {V : Type 0} (n : ℕ) (h : Heap V) (es : List Entry)
    → IsDistinct es
    → ((k : ℕ) (e : EmbeddingValue)
        → lookup k es ≡ some e
        → (e.in_black ≡ false → output_value h e ≡ some (load_row e.embedding_val h))
          × (n ≤ 3 → e.in_black ≡ true → e.under_threshold ≡ true))
    → Ready n h es
entries-Ready n h [] distinct each = tt
entries-Ready n h ((k, v) ∷ es) (absent, distinct) each = (
  each k v (ground (arith, ==_refl k)),
  entries-Ready n h es distinct (λ j e f. each j e (ground (arith, absent))),
)

module _ {V T : Type 0} (m : IMap EmbeddingValue T) (zeros : List V) (config : Config V) where
  open m use {entries, find_or_null}

  -- At the default cutoff, on a table whose ownership holds, the second pass writes all that the
  -- first one counted: the keys and rows outside the blacklist that are not under the threshold
  -- and, where a blacklist is wanted, of high enough frequency; and the whole blacklist and all
  -- the frequencies where these are wanted. Where no blacklist is wanted, the blacklisted records
  -- have to be under the threshold. Of the table only the list of changed keys moves.
  pub export_values_lem :
      (first_n : ℕ) (cutoff : Bool) (exceeds : V → Bool) (wide support : Bool) (prediction : List ℕ)
      (s : Store V T)
      → Inv m zeros s.heap s.ev_table s.zero_val
      → ((k : ℕ) (e : EmbeddingValue)
          → find_or_null k s.ev_table ≡ some e
          → first_n ≤ 3
          → e.in_black ≡ true
          → e.under_threshold ≡ true)
      → (export_values m config first_n false cutoff exceeds wide support prediction s)
        ≡ some (
          (
            exported config.enter_threshold first_n wide s.heap (entries s.ev_table),
            (update_deltalists first_n support s.train_deltalist prediction).1,
          ),
          record s {
            train_deltalist = (update_deltalists first_n support s.train_deltalist prediction).0;
          },
        )
  unfolding export_values refresh_all_under_thresholds
  export_values_lem first_n cutoff exceeds wide support prediction s inv hidden = ground (
    arith,
    export_table_lem config.enter_threshold first_n (m.size s.ev_table) wide s.heap
        (entries s.ev_table)
        (entries-Ready first_n s.heap (entries s.ev_table)
          (m.entries-IsDistinct s.ev_table inv.valid)
          (λ k e f.
            let found = sym (m.find-entries k s.ev_table inv.valid) ∙ f in
            (
              λ shown.
                  let nz = inv.visible k e found shown in
                  let (vs, c) = inv.filled k e found nz in readable s.heap e vs nz c,
              hidden k e found,
            )))
        (m.size-entries s.ev_table inv.valid),
  )
