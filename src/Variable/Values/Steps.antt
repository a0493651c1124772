-- ===== src/Variable/Values/Steps.antt =====
-- The helpers of kv_variable.h on a record's value, where the buffers they touch are live.
use tfplus.Common.{ℕ, ◌%◌, ◌≡◌, ◌≢◌, Bool, true, false, some, List, arith, not, length, get_elem?}
use tfplus.Memory.{Ptr, null, Cell, row, write}
use tfplus.Memory.Access.{load_row-ok, store_row-ok}
use tfplus.HashMap.{IMap}
use tfplus.Embedding.Value.{EmbeddingValue}
use tfplus.Embedding.Context.{Meta, EvContext}
use tfplus.Table.{Store, load_meta, store_meta}
use tfplus.Variable.{Floats}
use tfplus.Variable.Values.{
  any, update_under_threshold, output_embedding_data, generate_random_initial_value,
}

module _ {V T : Type 0} where
  pub generate_random_initial_value-ok :
      (floats : Floats V) (table : List (List V)) (rand1 rand2 : ℕ) (p : Ptr) (s : Store V T)
      {t₁ t₂ : List V} {d : Cell V}
      → get_elem? table (rand1 % length table) ≡ some t₁
      → get_elem? table (rand2 % length table) ≡ some t₂
      → s.heap.cell p ≡ some d
      → generate_random_initial_value floats table rand1 rand2 p s
        ≡ some (
          tt,
          record s {
            heap = record {
              next = s.heap.next;
              cell = write s.heap.cell p (some (row (floats.average t₁ t₂)));
            };
          },
        )
  unfolding generate_random_initial_value
  generate_random_initial_value-ok floats table rand1 rand2 p s {t₁} {t₂} e₁ e₂ live =
      ground (arith, store_row-ok (floats.average t₁ t₂) s.heap live)

  module _ (m : IMap EmbeddingValue T) where
    -- the flag of a record that is not in the blacklist says whether no element reaches the cutoff
    pub update_under_threshold-ok :
        (exceeds : V → Bool) (c : EvContext) (p : Meta) (ev : EmbeddingValue) (vs : List V)
        (s s' : Store V T)
        → c.meta ≡ some p
        → load_meta m p s ≡ some (ev, s)
        → ev.in_black ≡ false
        → c.val ≢ null
        → s.heap.cell c.val ≡ some (row vs)
        → store_meta m p (record ev { under_threshold = not (any exceeds vs) }) s ≡ some (tt, s')
        → update_under_threshold m true exceeds c s ≡ some (not (any exceeds vs), s')
    unfolding update_under_threshold
    update_under_threshold-ok exceeds c p ev vs s s' meta load black nz e store =
        ground (arith, load_row-ok s.heap e)

    -- a record in the blacklist is under the threshold
    pub update_under_threshold_black :
        (exceeds : V → Bool) (c : EvContext) (p : Meta) (ev : EmbeddingValue) (s s' : Store V T)
        → c.meta ≡ some p
        → load_meta m p s ≡ some (ev, s)
        → ev.in_black ≡ true
        → store_meta m p (record ev { under_threshold = true }) s ≡ some (tt, s')
        → update_under_threshold m true exceeds c s ≡ some (true, s')
    unfolding update_under_threshold
    update_under_threshold_black exceeds c p ev s s' meta load black store = ground arith

    pub output_embedding_data-ok :
        (c : EvContext) (vs : List V) (s : Store V T)
        → c.val ≢ null
        → s.heap.cell c.val ≡ some (row vs)
        → output_embedding_data m c s ≡ some (some vs, s)
    unfolding output_embedding_data
    output_embedding_data-ok c vs s nz e = ground (arith, load_row-ok s.heap e)
