-- ===== src/Variable/Delta/Rows.antt =====
-- The rows that `DeltaExport` (dynamic_save.hpp) writes for the keys to update.
use tfplus.Common.{
  ℕ, ◌≡◌, refl, ◌≢◌, true, false, Option, none, some, List, [], ◌∷◌, arith, map, ap, Bool-cases,
  inl, inr,
}
use tfplus.Memory.{Ptr, null, row, Heap}
use tfplus.HashMap.{IMap}
use tfplus.Embedding.Value.{EmbeddingValue}
use tfplus.Embedding.Context.{EvContext, entry, buffer_context}
use tfplus.Table.{Store}
use tfplus.Table.Ownership.{Inv}
use tfplus.Table.Manager.{find_with_fn}
use tfplus.Variable.{has_low_frequency}
use tfplus.Variable.Values.Steps.{output_embedding_data-ok}
use tfplus.Variable.Lookup.Hits.{get_meta_and_value_hit}
use tfplus.Variable.Delta.{DeltaLists, push_key, classify, out_keys_values, output_row, output_rows}

module _ {V T : Type 0} (m : IMap EmbeddingValue T) (thr : ℕ) where
  open m use {find_or_null}

  -- the record of a key to update, and the row that it holds
  pub record Shows (h : Heap V) (t : T) (key : ℕ) (vs : List V) : Type 0 where
    pub ev : EmbeddingValue
    pub found : find_or_null key t ≡ some ev
    pub high : has_low_frequency thr ev.freq_val ≡ false
    pub shown : ev.in_black ≡ false
    pub not_null : ev.embedding_val ≢ null
    pub holds : h.cell ev.embedding_val ≡ some (row vs)

  out_keys_values_ok :
      (key : ℕ) (c : EvContext) (vs : List V) (s : Store V T) (w : Shows s.heap s.ev_table key vs)
      → c.meta ≡ some (entry key)
      → c.val ≡ w.ev.embedding_val
      → out_keys_values m thr c s ≡ some ((c, some vs), s)
  unfolding out_keys_values
  out_keys_values_ok key c vs s w meta val = ground (
    arith,
    w.found,
    w.high,
    output_embedding_data-ok m c vs s (ground (arith, w.not_null)) (ground (arith, w.holds)),
  )

  output_row_lem :
      (buf : Ptr) (key : ℕ) (vs : List V) (s : Store V T)
      → s.record_enabled ≡ false
      → s.record_request ≡ false
      → Shows s.heap s.ev_table key vs
      → output_row m thr buf key s ≡ some (some vs, s)
  unfolding output_row find_with_fn
  output_row_lem buf key vs s off off' w =
      let c : EvContext = record {
        buf_owner = false;
        is_valid = true;
        val = w.ev.embedding_val;
        meta = some (entry key);
      } in
      ground (
        arith,
        w.shown,
        get_meta_and_value_hit m key (buffer_context buf false) w.ev s refl refl w.found,
        out_keys_values_ok key c vs s w refl refl,
      )

  abbrev pub AllShow : Heap V → T → List (ℕ × List V) → Type 0
  AllShow h t [] = Unit
  AllShow h t ((key, vs) ∷ rest) = Shows h t key vs × AllShow h t rest

  -- the rows of the keys `keys`, written without a change to the table
  abbrev pub Written : Ptr → Store V T → List ℕ → Type 0
  Written buf s keys =
      (rows : List (ℕ × List V)) × (keys ≡ map (λ e. e.0) rows)
      × (output_rows m thr buf keys s ≡ some (map (λ e. some e.1) rows, s))
      × AllShow s.heap s.ev_table rows

  no_keys : (buf : Ptr) (s : Store V T) → Written buf s []
  unfolding output_rows
  no_keys buf s = ([], refl, refl, tt)

  one_more :
      (buf : Ptr) (key : ℕ) (vs : List V) (keys : List ℕ) (s : Store V T)
      → s.record_enabled ≡ false
      → s.record_request ≡ false
      → Shows s.heap s.ev_table key vs
      → Written buf s keys
      → Written buf s (key ∷ keys)
  unfolding output_rows
  one_more buf key vs keys s off off' w (rows, same, run, all) = (
    (key, vs) ∷ rows,
    ap (λ l. key ∷ l) same,
    ground (arith, output_row_lem buf key vs s off off' w, run),
    (w, all),
  )

  -- the key goes to the list of updates only with a record that shows its row
  pushed :
      (zeros : List V) (buf : Ptr) (key : ℕ) (s : Store V T) (lists : DeltaLists)
      → Inv m zeros s.heap s.ev_table s.zero_val
      → s.record_enabled ≡ false
      → s.record_request ≡ false
      → (found : Option EmbeddingValue) → find_or_null key s.ev_table ≡ found
      → Written buf s lists.update_list
      → Written buf s (push_key thr found key lists).update_list
  unfolding push_key
  pushed zeros buf key s lists inv off off' none e rest = rest
  pushed zeros buf key s lists inv off off' (some v) e rest =
      elim (Bool-cases (has_low_frequency thr v.freq_val)) [
        | inl low ↦ rw low rest
        | inr high ↦ elim (Bool-cases v.in_black) [
          | inl black ↦ rw (high, black) rest
          | inr shown ↦
              let nz = inv.visible key v e shown in
              let (vs, c) = inv.filled key v e nz in
              rw (high, shown)
                (one_more buf key vs lists.update_list s off off'
                  (record {
                    ev = v;
                    found = e;
                    high = high;
                    shown = shown;
                    not_null = nz;
                    holds = c;
                  })
                  rest)
        ]
      ]

  -- On a table whose ownership holds, and while requests are not counted, the loop over the keys to
  -- update finds a row for each of them, the one that the record holds, and changes nothing.
  pub delta_rows_lem :
      (zeros : List V) (buf : Ptr) (s : Store V T)
      → Inv m zeros s.heap s.ev_table s.zero_val
      → s.record_enabled ≡ false
      → s.record_request ≡ false
      → (keys : List ℕ) → Written buf s (classify m thr s.ev_table keys).update_list
  unfolding classify
  delta_rows_lem zeros buf s inv off off' [] = no_keys buf s
  delta_rows_lem zeros buf s inv off off' (key ∷ keys) =
      pushed zeros buf key s (classify m thr s.ev_table keys) inv off off'
        (find_or_null key s.ev_table) refl (delta_rows_lem zeros buf s inv off off' keys)
