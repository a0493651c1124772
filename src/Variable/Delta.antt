-- ===== src/Variable/Delta.antt =====
-- `KvVariable::DeltaExport` of tfplus/kv_variable/kernels/dynamic_save.hpp, for output to tensors
-- (`no_copy` writes the same tensors to a file). A set of keys is the list of its iteration.
pub mod Lists
pub mod Rows
use tfplus.Common.{
  ℕ, ◌≡◌, Bool, true, false, Option, none, some, List, [], ◌∷◌, ◌++◌, if◌then◌else◌, ltb, leb,
}
use tfplus.Memory.{Ptr, allocate_raw, deallocate_raw}
use tfplus.HashMap.{IMap}
use tfplus.Embedding.Value.{EmbeddingValue}
use tfplus.Embedding.Context
use tfplus.Embedding.Context.{buffer_context}
use tfplus.Table.{Store, M, pure, ◌>>=◌, ◌>>◌, on_heap, on_heap_, load_meta, deref}
use tfplus.Table.Manager.{Callback, find_with_fn}
use tfplus.Variable.{Config, has_low_frequency}
use tfplus.Variable.Values.{output_embedding_data}
use tfplus.Variable.Export.{first_n_export_black_list, first_n_export_frequency}
use tfplus.Variable.Export.Full.{insert_keys}

pub record DeltaLists : Type 0 where
  pub update_list : List ℕ
  pub black_list : List ℕ
  pub delete_list : List ℕ

pub record DeltaTensors (V : Type 0) : Type 0 where
  pub keys : List ℕ
  -- a row that is not written is `none`
  pub values : List (Option (List V))
  pub blacklist : List ℕ
  pub freq_keys : List ℕ
  pub freq_values : List ℕ
  pub delete_keys : List ℕ
  pub need_full_import : Bool

-- `all_delta`
unfoldable pub delta_keys : (first_n : ℕ) → (train prediction : List ℕ) → List ℕ
delta_keys first_n train prediction =
    if leb first_n first_n_export_black_list then insert_keys prediction train else train

-- one round of the loop that sorts the keys, before the later ones
unfoldable pub push_key :
    (enter_threshold : ℕ) → Option EmbeddingValue → ℕ → DeltaLists → DeltaLists
push_key enter_threshold none key rest = record rest { delete_list = key ∷ rest.delete_list }
push_key enter_threshold (some v) key rest =
    if has_low_frequency enter_threshold v.freq_val
    then rest
    else if v.in_black
    then record rest { black_list = key ∷ rest.black_list }
    else record rest { update_list = key ∷ rest.update_list }

-- without a blacklist tensor the blacklist moves to the keys to delete
unfoldable pub move_black_list : (first_n : ℕ) → DeltaLists → DeltaLists
move_black_list first_n lists =
    if leb first_n first_n_export_black_list
    then record lists { delete_list = lists.delete_list ++ lists.black_list; black_list = [] }
    else lists

module _ {T : Type 0} (m : IMap EmbeddingValue T) where
  open m use {find_or_null}

  -- the loop that sorts the keys
  unfoldable pub classify : (enter_threshold : ℕ) → T → List ℕ → DeltaLists
  classify enter_threshold t [] = record { update_list = []; black_list = []; delete_list = [] }
  classify enter_threshold t (key ∷ keys) =
      push_key enter_threshold (find_or_null key t) key (classify enter_threshold t keys)

  -- `ExportFrequencyDelta`
  unfoldable pub frequency_delta : T → List ℕ → List ℕ
  frequency_delta t [] = []
  frequency_delta t (key ∷ keys) =
      elim (find_or_null key t) [ none ↦ 0 | some v ↦ v.freq_val ] ∷ frequency_delta t keys

module _ {V T : Type 0} (m : IMap EmbeddingValue T) where
  open m use {find_or_null}

  unfoldable pub out_keys_values : (enter_threshold : ℕ) → Callback V T (Option (List V))
  unfolding deref load_meta
  out_keys_values enter_threshold context = do
    p ← deref m context.meta
    v ← load_meta m p
    (if has_low_frequency enter_threshold v.freq_val
        then pure (context, none)
        else (do row ← output_embedding_data m context; pure (context, row)))

  -- one row of `DoOutputKVPairs`; `buf` is the buffer of the slice
  unfoldable pub output_row : (enter_threshold : ℕ) → Ptr → ℕ → M V T (Option (List V))
  unfolding Context.destroy
  output_row enter_threshold buf key = do
    (c, out, _) ← find_with_fn m key (out_keys_values enter_threshold) (buffer_context buf false)
    on_heap_ (Context.destroy c)
    pure (elim out [ none ↦ none | some row ↦ row ])

  unfoldable pub output_rows : (enter_threshold : ℕ) → Ptr → List ℕ → M V T (List (Option (List V)))
  output_rows enter_threshold buf [] = pure []
  output_rows enter_threshold buf (key ∷ keys) = do
    row ← output_row enter_threshold buf key
    rows ← output_rows enter_threshold buf keys
    pure (row ∷ rows)

  -- `ScopedDisableRecordRequest`
  unfoldable pub set_record_request : Bool → M V T (Unit {0})
  set_record_request on s = some (tt, record s { record_enabled = on; record_request = on })

  -- the tensors and the new `prediction_deltalist_`
  unfoldable pub delta_export :
      Config V
      → (first_n : ℕ) → (support_prediction_delta : Bool) → (prediction : List ℕ)
      → M V T (DeltaTensors V × List ℕ)
  unfolding set_record_request allocate_raw deallocate_raw
  delta_export config first_n support prediction = do
    set_record_request false
    (λ s.
        (let all_delta = delta_keys first_n s.train_deltalist prediction in
          let lists = classify m config.enter_threshold s.ev_table all_delta in
          let moved = move_black_list first_n lists in
          let more = ltb first_n_export_frequency first_n in
          (do
            buf ← on_heap (λ h. some (allocate_raw h))
            values ← output_rows config.enter_threshold buf lists.update_list
            on_heap_ (deallocate_raw buf)
            (λ s'. some (
              (
                record {
                  keys = lists.update_list;
                  values = values;
                  blacklist = moved.black_list;
                  freq_keys = if more then all_delta else [];
                  freq_values = if more then frequency_delta m s.ev_table all_delta else [];
                  delete_keys = moved.delete_list;
                  need_full_import = false;
                },
                (if leb first_n first_n_export_black_list
                    then []
                    else if support
                    then insert_keys s.train_deltalist prediction
                    else prediction),
              ),
              record s' {
                train_deltalist =
                    if leb first_n first_n_export_black_list then s.train_deltalist else [];
                record_enabled = true;
                record_request = true;
              },
            )))
            s))
