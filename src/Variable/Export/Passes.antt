-- ===== src/Variable/Export/Passes.antt =====
-- The two passes of `ExportValues` (dynamic_save.hpp): what the second one writes in the tensors that
-- the first one sized.
use tfplus.Common.{
  ℕ, suc, ◌+◌, ◌≤◌, ◌<◌, ◌≡◌, refl, ap, ◌∙◌, Bool, true, false, some, List, [], ◌∷◌, ◌++◌, arith,
  if◌then◌else◌, ltb, length, Bool-cases, inl, inr, ◌⊎◌,
}
use tfplus.Memory.{Heap, load_row}
use tfplus.Embedding.Value.{EmbeddingValue}
use tfplus.Variable.Export.{
  Entry, is_wanted, counting_iter, Sizes, allocate_outputs, Exported, no_rows, output_value,
  export_row, export_frequency, do_export, export_table,
}
use tfplus.Variable.Export.Wanted.{
  snoc-append, append-nil, wanted_keys, wanted_rows, black_keys, all_keys, frequency, frequencies,
  counting_iter_lem, Ready,
}

-- the tensors after the rows of `es`
abbrev extended : {V : Type 0} → (thr n : ℕ) → Sizes → Heap V → List Entry → Exported V → Exported V
extended thr n sizes h es out =
    let blacks = if ltb 3 n then black_keys es else [] in
    record {
      key_row = out.key_row + length (wanted_keys thr n es);
      blacklist_row = out.blacklist_row + length blacks;
      freq_row = if ltb 4 n then out.freq_row + length es else out.freq_row;
      keys = out.keys ++ wanted_keys thr n es;
      values = out.values ++ wanted_rows thr n h es;
      blacklist = out.blacklist ++ blacks;
      freq_keys = out.freq_keys ++ (if ltb 4 n then all_keys es else []);
      freq_values =
          out.freq_values ++ (if ltb 4 n then frequencies sizes.freq_use_uint32 es else []);
    }

-- the tensors still have a row for each of `es`
record Room {V : Type 0} (thr n : ℕ) (sizes : Sizes) (es : List Entry) (out : Exported V)
    : Type 0 where
  rows : out.key_row + length (wanted_keys thr n es) ≤ sizes.num_rows
  blacks : 3 < n → out.blacklist_row + length (black_keys es) ≤ sizes.blacklist_nums
  freqs : 4 < n → out.freq_row + length es ≤ sizes.freq_nums
  tables : 3 < n → sizes.has_tables ≡ true
  no_blacks : n ≤ 3 → (sizes.blacklist_nums ≡ 0) ⊎ (sizes.has_tables ≡ false)
  no_freqs : n ≤ 4 → sizes.freq_nums ≡ 0

module _ {V : Type 0} (thr n : ℕ) (sizes : Sizes) (h : Heap V) where
  abbrev Row : Entry → List Entry → Exported V → Exported V → Type 0
  Row e es out out' =
      (export_row thr n sizes h e out ≡ some out')
      × Room thr n sizes es (export_frequency sizes e out')
      × (extended thr n sizes h es (export_frequency sizes e out')
          ≡ extended thr n sizes h (e ∷ es) out)

  same_export :
      (a b : Exported V)
      → a.key_row ≡ b.key_row
      → a.blacklist_row ≡ b.blacklist_row
      → a.freq_row ≡ b.freq_row
      → a.keys ≡ b.keys
      → a.values ≡ b.values
      → a.blacklist ≡ b.blacklist
      → a.freq_keys ≡ b.freq_keys
      → a.freq_values ≡ b.freq_values
      → a ≡ b
  same_export a b e₁ e₂ e₃ e₄ e₅ e₆ e₇ e₈ = cc

  -- the step of the counters and tensors that the first half moves, then that of the second half
  step_ext :
      (k : ℕ) (v : EmbeddingValue) (es : List Entry) (out out' : Exported V)
      → Room thr n sizes ((k, v) ∷ es) out
      → out'.freq_row ≡ out.freq_row
      → out'.freq_keys ≡ out.freq_keys
      → out'.freq_values ≡ out.freq_values
      → (extended thr n sizes h es out').key_row
        ≡ (extended thr n sizes h ((k, v) ∷ es) out).key_row
      → (extended thr n sizes h es out').blacklist_row
        ≡ (extended thr n sizes h ((k, v) ∷ es) out).blacklist_row
      → (extended thr n sizes h es out').keys ≡ (extended thr n sizes h ((k, v) ∷ es) out).keys
      → (extended thr n sizes h es out').values ≡ (extended thr n sizes h ((k, v) ∷ es) out).values
      → (extended thr n sizes h es out').blacklist
        ≡ (extended thr n sizes h ((k, v) ∷ es) out).blacklist
      → extended thr n sizes h es (export_frequency sizes (k, v) out')
        ≡ extended thr n sizes h ((k, v) ∷ es) out
  unfolding export_frequency
  step_ext k v es out out' room f₁ f₂ f₃ e₁ e₂ e₃ e₄ e₅ =
      same_export _ _ (ground arith) (ground arith) (ground arith) (ground arith) (ground arith)
        (ground arith) (ground (arith, snoc-append out.freq_keys k (all_keys es)))
        (ground (
          arith,
          snoc-append out.freq_values (frequency sizes.freq_use_uint32 v)
              (frequencies sizes.freq_use_uint32 es),
        ))

  abbrev After : ℕ → EmbeddingValue → List Entry → Exported V → Type 0
  After k v es out =
      (out' : Exported V) × (export_row thr n sizes h (k, v) out ≡ some out')
      × Room thr n sizes es (export_frequency sizes (k, v) out')
      × (extended thr n sizes h es (export_frequency sizes (k, v) out')
          ≡ extended thr n sizes h ((k, v) ∷ es) out)

  black_row :
      (k : ℕ) (v : EmbeddingValue) (es : List Entry) (out : Exported V)
      → v.in_black ≡ true
      → 3 < n
      → Room thr n sizes ((k, v) ∷ es) out
      → After k v es out
  unfolding export_row export_frequency
  black_row k v es out black lt room = (
    record out { blacklist_row = suc out.blacklist_row; blacklist = out.blacklist ++ (k ∷ []) },
    ground arith,
    record {
      rows = ground (arith, room.rows);
      blacks = ground (arith, room.blacks);
      freqs = ground (arith, room.freqs);
      tables = room.tables;
      no_blacks = room.no_blacks;
      no_freqs = room.no_freqs;
    },
    step_ext k v es out _ room refl refl refl (ground arith) (ground arith) (ground arith)
        (ground arith) (ground (arith, snoc-append out.blacklist k (black_keys es))),
  )

  wanted_row :
      (k : ℕ) (v : EmbeddingValue) (es : List Entry) (out : Exported V)
      → v.in_black ≡ false
      → is_wanted thr n v ≡ true
      → output_value h v ≡ some (load_row v.embedding_val h)
      → Room thr n sizes ((k, v) ∷ es) out
      → After k v es out
  unfolding export_row export_frequency
  wanted_row k v es out shown wanted reads room = (
    record out {
      key_row = suc out.key_row;
      keys = out.keys ++ (k ∷ []);
      values = out.values ++ (load_row v.embedding_val h ∷ []);
    },
    ground arith,
    record {
      rows = ground (arith, room.rows);
      blacks = ground (arith, room.blacks);
      freqs = ground (arith, room.freqs);
      tables = room.tables;
      no_blacks = room.no_blacks;
      no_freqs = room.no_freqs;
    },
    step_ext k v es out _ room refl refl refl (ground arith) (ground arith)
        (ground (arith, snoc-append out.keys k (wanted_keys thr n es)))
        (ground
          (arith, snoc-append out.values (load_row v.embedding_val h) (wanted_rows thr n h es)))
        (ground arith),
  )

  skipped_row :
      (k : ℕ) (v : EmbeddingValue) (es : List Entry) (out : Exported V)
      → is_wanted thr n v ≡ false
      → (v.in_black ≡ false) ⊎ (n ≤ 3)
      → Room thr n sizes ((k, v) ∷ es) out
      → After k v es out
  unfolding export_row export_frequency
  skipped_row k v es out unwanted why room = (
    out,
    ground arith,
    record {
      rows = ground (arith, room.rows);
      blacks = ground (arith, room.blacks);
      freqs = ground (arith, room.freqs);
      tables = room.tables;
      no_blacks = room.no_blacks;
      no_freqs = room.no_freqs;
    },
    step_ext k v es out _ room refl refl refl (ground arith) (ground arith) (ground arith)
        (ground arith) (ground arith),
  )

  under_unwanted : (v : EmbeddingValue) → v.under_threshold ≡ true → is_wanted thr n v ≡ false
  unfolding is_wanted
  under_unwanted v under = ground arith

  row_step :
      (k : ℕ) (v : EmbeddingValue) (es : List Entry) (out : Exported V)
      → Ready n h ((k, v) ∷ es)
      → Room thr n sizes ((k, v) ∷ es) out
      → After k v es out
  row_step k v es out ((reads, hides), ready) room = elim (Bool-cases v.in_black) [
    | inl black ↦ elim (Bool-cases (ltb 3 n)) [
      | inl more ↦ black_row k v es out black (ground arith) room
      | inr few ↦
          let le : n ≤ 3 = ground arith in
          skipped_row k v es out (under_unwanted v (hides le black)) (inr le) room
    ]
    | inr shown ↦ elim (Bool-cases (is_wanted thr n v)) [
      | inl w ↦ wanted_row k v es out shown w (reads shown) room
      | inr u ↦ skipped_row k v es out u (inl shown) room
    ]
  ]

  do_export_lem :
      (es : List Entry) (out : Exported V)
      → Ready n h es
      → Room thr n sizes es out
      → do_export thr n sizes h es out ≡ some (extended thr n sizes h es out)
  unfolding do_export
  do_export_lem [] out ready room = ground (
    arith,
    append-nil out.keys,
    append-nil out.values,
    append-nil out.blacklist,
    append-nil out.freq_keys,
    append-nil out.freq_values,
  )
  do_export_lem ((k, v) ∷ es) out ready room =
      let (out', run, room', eq) = row_step k v es out ready room in
      rw (run) (do_export_lem es (export_frequency sizes (k, v) out') ready.1 room' ∙ ap some eq)

-- what the tensors hold in the end
abbrev pub exported : {V : Type 0} → (thr n : ℕ) → Bool → Heap V → List Entry → Exported V
exported thr n wide h es = record {
  key_row = length (wanted_keys thr n es);
  blacklist_row = if ltb 3 n then length (black_keys es) else 0;
  freq_row = if ltb 4 n then length es else 0;
  keys = wanted_keys thr n es;
  values = wanted_rows thr n h es;
  blacklist = if ltb 3 n then black_keys es else [];
  freq_keys = if ltb 4 n then all_keys es else [];
  freq_values = if ltb 4 n then frequencies wide es else [];
}

pub export_table_lem :
    {V : Type 0} (thr n size : ℕ) (wide : Bool) (h : Heap V) (es : List Entry)
    → Ready n h es
    → size ≡ length es
    → export_table thr n size wide h es ≡ some (exported thr n wide h es)
unfolding export_table allocate_outputs
export_table_lem thr n size wide h es ready sized =
    let sizes =
      allocate_outputs n size wide (length (wanted_keys thr n es), length (black_keys es)) in
    let counts : counting_iter thr n es (0, 0)
        ≡ (length (wanted_keys thr n es), length (black_keys es)) =
      counting_iter_lem thr n es 0 0 ∙ ground arith in
    let last : extended thr n sizes h es no_rows ≡ exported thr n wide h es =
      same_export thr n sizes h _ _ (ground arith) (ground arith) (ground arith) (ground arith)
        (ground arith) (ground arith) (ground arith) (ground arith) in
    rw (counts) (
      do_export_lem thr n sizes h es no_rows ready (record {
        rows = ground arith;
        blacks = ground arith;
        freqs = ground arith;
        tables = ground arith;
        no_blacks = ground arith;
        no_freqs = ground arith;
      })
      ∙ ap some last)
