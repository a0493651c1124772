-- ===== src/Tests/Lookup.antt =====
-- The theorems on the lookups of kv_variable.h at concrete inputs: rows of two natural numbers in
-- place of floats, over an `UnorderedMap`.
use tfplus.Common.{
  ℕ, ◌+◌, ◌/◌, ◌≡◌, refl, true, false, none, some, List, [], ◌∷◌, arith, ltb, ◌==◌, if◌then◌else◌,
}
use tfplus.Common.Int.{pos}
use tfplus.Memory.{null, raw, row}
use tfplus.HashMap.Bucket.{lookup, assign}
use tfplus.HashMap.Unordered.{UnorderedMap, unordered_map}
use tfplus.Embedding.Value.{EmbeddingValue, new_value, mem_storage}
use tfplus.Table.{Store}
use tfplus.Table.Ownership.{Inv, write-Inv, fresh_row-Fits}
use tfplus.Variable.{Floats, Config}
use tfplus.Variable.Lookup.{Row, new_filter, find_or_insert_row}
use tfplus.Variable.Lookup.Insertion.{new_record, with_new_key}
use tfplus.Variable.Lookup.NewKey.{Inserted, find_or_insert_row_new}
use tfplus.Variable.Lookup.Hits.{shown, Touched, find_or_insert_row_hit}

abbrev pub means : List ℕ → List ℕ → List ℕ
means (a ∷ as') (b ∷ bs) = ((a + b) / 2) ∷ means as' bs
means _ _ = []

abbrev pub naturals : Floats ℕ
naturals = record { exceeds_default = ltb 0; average = means; zeros = 0 ∷ 0 ∷ [] }

abbrev pub config : Config ℕ
config = record {
  enter_threshold = 2;
  random_init_table = (2 ∷ 4 ∷ []) ∷ (6 ∷ 8 ∷ []) ∷ [];
  support_delta_export = true;
}

-- the zero row at 1 and a scratch buffer at 2
abbrev pub start : Store ℕ (UnorderedMap EmbeddingValue)
start = record {
  heap = record {
    next = 3;
    cell = λ p. if p == 1 then some (row (0 ∷ 0 ∷ [])) else if p == 2 then some raw else none;
  };
  ev_table = [];
  local_ev = new_value null false 1 false mem_storage;
  zero_val = 1;
  storage_size = 0;
  storage_request_count = 0;
  record_request = true;
  request_count = 0;
  record_enabled = true;
  train_deltalist = [];
}

pub start-Inv : Inv unordered_map naturals.zeros start.heap start.ev_table start.zero_val
start-Inv = record {
  valid = tt;
  fresh = record { next_pos = omega arith; null_free = refl; above = λ p le. ground arith };
  zero = refl;
  filled = λ k e f. cc;
  visible = λ k e f. cc;
  apart_zero = λ k e f. cc;
  apart = λ k j e d n f. cc;
}

abbrev pub first_row : Row
first_row = record {
  key = 7;
  filter_out = some false;
  apply_filter = false;
  count = some (pos 5);
  rand1 = 4;
  rand2 = 9;
  last_update_time_in_days = 18303;
}

abbrev pub means_row : List ℕ
means_row = 4 ∷ 6 ∷ []

find_or_insert_row_new_example :
    (s' : Store ℕ (UnorderedMap EmbeddingValue)) × (find_or_insert_row unordered_map naturals config
        2 first_row start
      ≡ some (record { values = some means_row; filter_out = new_filter 2 first_row }, s'))
    × Inserted unordered_map naturals config first_row (2 ∷ 4 ∷ []) (6 ∷ 8 ∷ []) start s'
find_or_insert_row_new_example =
    find_or_insert_row_new unordered_map naturals config first_row (2 ∷ 4 ∷ []) (6 ∷ 8 ∷ []) 2 start
      start-Inv refl refl (omega arith) refl refl

-- the table with one key
abbrev pub one_key : Store ℕ (UnorderedMap EmbeddingValue)
one_key = with_new_key unordered_map naturals config first_row (2 ∷ 4 ∷ []) (6 ∷ 8 ∷ []) start

pub one_key-Inv : Inv unordered_map naturals.zeros one_key.heap one_key.ev_table one_key.zero_val
unfolding assign
one_key-Inv =
    write-Inv unordered_map naturals.zeros start.heap one_key.heap start.ev_table 1 7 _ start-Inv (
      fresh_row-Fits unordered_map naturals.zeros start.heap start.ev_table 1 7 _ (some raw)
        means_row start-Inv refl)

abbrev pub key_7 : EmbeddingValue
key_7 = record (new_record unordered_map naturals config first_row (2 ∷ 4 ∷ []) (6 ∷ 8 ∷ [])) {
  buf_owner = true;
  embedding_val = 3;
}

pub found_7 : lookup 7 one_key.ev_table ≡ some key_7
unfolding assign
found_7 = refl

find_or_insert_row_hit_example :
    (ws : List ℕ) × (s' : Store ℕ (UnorderedMap EmbeddingValue)) × (find_or_insert_row unordered_map
        naturals config 2 first_row one_key
      ≡ some (record { values = some ws; filter_out = none }, s'))
    × (one_key.heap.cell (shown key_7 one_key.zero_val) ≡ some (row ws))
    × (key_7.in_black ≡ true → ws ≡ naturals.zeros)
    × Touched unordered_map naturals config first_row key_7 ws one_key s'
find_or_insert_row_hit_example =
    find_or_insert_row_hit unordered_map naturals config first_row 2 key_7 one_key one_key-Inv refl
      found_7
