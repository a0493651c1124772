-- ===== src/Variable/Lookup/NewKey.antt =====
-- `FindOrInsert` of kv_variable.h at a key that the table does not hold, as a whole.
use tfplus.Common.{
  ℕ, ◌+◌, ◌%◌, ◌<◌, ◌≡◌, refl, ◌≢◌, true, false, none, some, List, arith, length, get_elem?, ==_ne,
  ==_refl,
}
use tfplus.Memory.{Ptr, raw, row}
use tfplus.HashMap.{IMap}
use tfplus.Embedding.Value.{EmbeddingValue}
use tfplus.Table.{Store}
use tfplus.Table.Storage.{size_mod}
use tfplus.Table.Ownership.{Inv, write-Inv, fresh_row-Fits}
use tfplus.Variable.{Floats, Config}
use tfplus.Variable.Lookup.{Row, is_filtered, new_filter, find_or_insert_row}
use tfplus.Variable.Lookup.Insertion.{new_record, with_new_key, find_or_insert_row_run}

module _ {V T : Type 0} (m : IMap EmbeddingValue T) (floats : Floats V) (config : Config V)
    (r : Row) where
  open m use {find_or_null}

  -- the table after the insertion of a new key, against the one before
  pub record Inserted (t₁ t₂ : List V) (s s' : Store V T) : Type 0 where
    pub inv : Inv m floats.zeros s'.heap s'.ev_table s'.zero_val
    pub stored :
        find_or_null r.key s'.ev_table
        ≡ some (record (new_record m floats config r t₁ t₂) {
          buf_owner = true;
          embedding_val = s.heap.next;
        })
    pub written : s'.heap.cell s.heap.next ≡ some (row (floats.average t₁ t₂))
    pub keys : (q : ℕ) → q ≢ r.key → find_or_null q s'.ev_table ≡ find_or_null q s.ev_table
    pub rows : (p : Ptr) → p ≢ s.heap.next → s'.heap.cell p ≡ s.heap.cell p
    pub counted : s'.storage_size ≡ (s.storage_size + 1) % size_mod

  -- On a table whose ownership holds, a lookup for training of a key that is not in the table, and
  -- whose row is not filtered out, with a scratch buffer that is allocated, returns the mean of
  -- the two rows of the initial table that the random numbers choose, and stores it in a buffer of
  -- the key's own; it keeps the ownership of buffers and every other key. A row is filtered out if
  -- the filter is applied and its flag is set; a key of low frequency is inserted like any other, and
  -- where there is a flag that is not applied, the flag then says whether a frequency of 1 is below
  -- the threshold.
  pub find_or_insert_row_new :
      (t₁ t₂ : List V) (buf : Ptr) (s : Store V T)
      → Inv m floats.zeros s.heap s.ev_table s.zero_val
      → is_filtered r ≡ false
      → find_or_null r.key s.ev_table ≡ none
      → buf < s.heap.next
      → get_elem? config.random_init_table (r.rand1 % length config.random_init_table) ≡ some t₁
      → get_elem? config.random_init_table (r.rand2 % length config.random_init_table) ≡ some t₂
      → (s' : Store V T) × (find_or_insert_row m floats config buf r s
          ≡ some (
            record {
              values = some (floats.average t₁ t₂);
              filter_out = new_filter config.enter_threshold r;
            },
            s',
          ))
        × Inserted t₁ t₂ s s'
  find_or_insert_row_new t₁ t₂ buf s inv open' absent lt e₁ e₂ =
      let e : EmbeddingValue = record (new_record m floats config r t₁ t₂) {
        buf_owner = true;
        embedding_val = s.heap.next;
      } in
      (
        with_new_key m floats config r t₁ t₂ s,
        find_or_insert_row_run m floats config r t₁ t₂ buf s open' absent lt inv.fresh.next_pos e₁
            e₂,
        record {
          inv = write-Inv m floats.zeros s.heap _ s.ev_table s.zero_val r.key e inv (
              fresh_row-Fits m floats.zeros s.heap s.ev_table s.zero_val r.key e (some raw) _ inv
                refl);
          stored = rw (m.find-insert r.key r.key e s.ev_table inv.valid, ==_refl);
          written = ground arith;
          keys = λ q n. rw (m.find-insert q r.key e s.ev_table inv.valid, ==_ne n);
          rows = λ p n. ground arith;
          counted = refl;
        },
      )
