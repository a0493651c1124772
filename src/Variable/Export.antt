-- ===== src/Variable/Export.antt =====
-- `KvVariable::ExportValues` of tfplus/kv_variable/kernels/dynamic_save.hpp. The output tensors are
-- the lists of the rows that are written to them, in order: each row is written at its counter,
-- which then moves on. `first_n` is the number of outputs wanted.
pub mod Wanted
pub mod Passes
pub mod Full
use tfplus.Common.{
  ℕ, suc, ◌+◌, Bool, true, false, Option, none, some, List, [], ◌∷◌, ◌++◌, ◌&&◌, ◌||◌, ◌==◌, not,
  if◌then◌else◌, ltb, leb, length,
}
use tfplus.Utility.{get_uint16_from_uint32}
use tfplus.Memory.{null, Heap, load_row, ◌>>=◌}
use tfplus.Embedding.Value.{EmbeddingValue}
use tfplus.Variable.{has_low_frequency}

abbrev pub first_n_export_key_and_values : ℕ
first_n_export_key_and_values = 2

abbrev pub first_n_export_black_list : ℕ
first_n_export_black_list = 3

abbrev pub first_n_export_frequency : ℕ
first_n_export_frequency = 4

abbrev pub Entry : Type 0
Entry = ℕ × EmbeddingValue

-- the condition on the frequency and the values, which both passes test
unfoldable pub is_wanted : (enter_threshold first_n : ℕ) → EmbeddingValue → Bool
unfolding has_low_frequency
is_wanted enter_threshold first_n v =
    (leb first_n first_n_export_black_list || not (has_low_frequency enter_threshold v.freq_val))
    && not v.under_threshold

-- `num_rows` and `blacklist_nums`
unfoldable pub counting_iter : (enter_threshold first_n : ℕ) → List Entry → ℕ × ℕ → ℕ × ℕ
counting_iter enter_threshold first_n [] counts = counts
counting_iter enter_threshold first_n ((key, v) ∷ rest) (num_rows, blacklist_nums) =
    counting_iter enter_threshold first_n rest (
      if v.in_black
      then (num_rows, suc blacklist_nums)
      else if is_wanted enter_threshold first_n v
      then (suc num_rows, blacklist_nums)
      else (num_rows, blacklist_nums))

-- the sizes of the tensors; `has_tables` is that the last four are not null
pub record Sizes : Type 0 where
  pub num_rows : ℕ
  pub blacklist_nums : ℕ
  pub freq_nums : ℕ
  pub has_tables : Bool
  pub freq_use_uint32 : Bool

unfoldable pub allocate_outputs : (first_n size : ℕ) → Bool → ℕ × ℕ → Sizes
allocate_outputs first_n size freq_use_uint32 (num_rows, blacklist_nums) =
    let tables = ltb first_n_export_key_and_values first_n in
    record {
      num_rows = num_rows;
      blacklist_nums =
          if tables && leb first_n first_n_export_black_list then 0 else blacklist_nums;
      freq_nums = if ltb first_n_export_frequency first_n then size else 0;
      has_tables = tables;
      freq_use_uint32 = if tables then freq_use_uint32 else true;
    }

-- the counters and the tensors of the export; a row of values that is not written is `none`
pub record Exported (V : Type 0) : Type 0 where
  pub key_row : ℕ
  pub blacklist_row : ℕ
  pub freq_row : ℕ
  pub keys : List ℕ
  pub values : List (Option (List V))
  pub blacklist : List ℕ
  pub freq_keys : List ℕ
  pub freq_values : List ℕ

module _ {V : Type 0} where
  abbrev pub no_rows : Exported V
  no_rows = record {
    key_row = 0;
    blacklist_row = 0;
    freq_row = 0;
    keys = [];
    values = [];
    blacklist = [];
    freq_keys = [];
    freq_values = [];
  }

  -- `OutputEmbeddingData` of the context of a record, whose value is the record's
  unfoldable pub output_value : Heap V → EmbeddingValue → Option (Option (List V))
  unfolding load_row
  output_value h v =
      if v.embedding_val == null
      then some none
      else (do vs ← load_row v.embedding_val h; some (some vs))

  -- the first half of `do_export`: the blacklist, or the keys and values
  unfoldable pub export_row :
      (enter_threshold first_n : ℕ) → Sizes → Heap V → Entry → Exported V → Option (Exported V)
  export_row enter_threshold first_n sizes h (key, v) out =
      if v.in_black
        && ltb 0 sizes.blacklist_nums
        && ltb out.blacklist_row sizes.blacklist_nums
        && sizes.has_tables
      then some (record out {
        blacklist_row = suc out.blacklist_row;
        blacklist = out.blacklist ++ (key ∷ []);
      })
      else if is_wanted enter_threshold first_n v && ltb out.key_row sizes.num_rows
      then (do
        vs ← output_value h v
        some (record out {
          key_row = suc out.key_row;
          keys = out.keys ++ (key ∷ []);
          values = out.values ++ (vs ∷ []);
        }))
      else some out

  -- its second half
  unfoldable pub export_frequency : Sizes → Entry → Exported V → Exported V
  unfolding get_uint16_from_uint32
  export_frequency sizes (key, v) out =
      if ltb 0 sizes.freq_nums && ltb out.freq_row sizes.freq_nums && sizes.has_tables
      then record out {
        freq_row = suc out.freq_row;
        freq_keys = out.freq_keys ++ (key ∷ []);
        freq_values =
            out.freq_values
            ++ ((if sizes.freq_use_uint32
                  then v.freq_val
                  else get_uint16_from_uint32 v.freq_val true)
                ∷ []);
      }
      else out

  unfoldable pub do_export :
      (enter_threshold first_n : ℕ) → Sizes → Heap V → List Entry → Exported V → Option (Exported V)
  do_export enter_threshold first_n sizes h [] out = some out
  do_export enter_threshold first_n sizes h (e ∷ rest) out = do
    out' ← export_row enter_threshold first_n sizes h e out
    do_export enter_threshold first_n sizes h rest (export_frequency sizes e out')

  -- the two passes
  unfoldable pub export_table :
      (enter_threshold first_n size : ℕ) → Bool → Heap V → List Entry → Option (Exported V)
  export_table enter_threshold first_n size freq_use_uint32 h entries =
      do_export enter_threshold first_n
        (allocate_outputs first_n size freq_use_uint32
          (counting_iter enter_threshold first_n entries (0, 0)))
        h entries no_rows
