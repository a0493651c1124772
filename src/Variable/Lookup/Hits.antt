-- ===== src/Variable/Lookup/Hits.antt =====
-- `FindOrInsert` of kv_variable.h at a key that the table holds, in the blacklist or not.
use tfplus.Common.{
  ℕ, ◌+◌, ◌%◌, ◌≡◌, refl, ◌∙◌, ◌≢◌, Bool, true, false, none, some, List, arith, ◌&&◌, ◌||◌, not,
  if◌then◌else◌, ==_ne, ==_refl, Bool-cases, inl, inr,
}
use tfplus.Memory.{Ptr, null, row}
use tfplus.Memory.Access.{ne_null}
use tfplus.HashMap.{IMap}
use tfplus.Embedding.Value.{EmbeddingValue, add_frequency}
use tfplus.Embedding.Context.{entry, EvContext, init_value, buffer_context}
use tfplus.Embedding.Context
use tfplus.Table.{Store}
use tfplus.Table.Storage.{size_mod, get, meta_or_find}
use tfplus.Table.Manager.{get_meta_and_value, find_or_insert_with_different_fn}
use tfplus.Table.Ownership.{Inv, write-Inv, same_value-Fits}
use tfplus.Variable.{Floats, Config, with_delta, note_delta_lem}
use tfplus.Variable.Values.{any}
use tfplus.Variable.Values.Steps.{
  update_under_threshold-ok, update_under_threshold_black, output_embedding_data-ok,
}
use tfplus.Variable.Lookup.{Row, row_frequency, is_filtered, find_func, find_or_insert_row}

-- what a record shows: its own value, or the zero row while it is in the blacklist
abbrev pub shown : EmbeddingValue → Ptr → Ptr
shown ev zero_val = if ev.in_black then zero_val else ev.embedding_val

module _ {V T : Type 0} (m : IMap EmbeddingValue T) where
  open m use {find_or_null, insert_or_assign}

  -- the counters after `GetMetaAndValue` found a record
  abbrev pub counted : EmbeddingValue → Store V T → Store V T
  counted ev s = record s {
    request_count = if s.record_enabled then (s.request_count + 1) % size_mod else s.request_count;
    storage_request_count =
        if not ev.in_black && s.record_request
        then (s.storage_request_count + 1) % size_mod
        else s.storage_request_count;
  }

  -- A context that owns nothing is pointed at the record and at what the record shows; nothing but
  -- the counters changes.
  pub get_meta_and_value_hit :
      (key : ℕ) (c : EvContext) (ev : EmbeddingValue) (s : Store V T)
      → c.meta ≡ none
      → c.buf_owner ≡ false
      → find_or_null key s.ev_table ≡ some ev
      → get_meta_and_value m key c s
        ≡ some (
          record {
            buf_owner = false;
            is_valid = true;
            val = shown ev s.zero_val;
            meta = some (entry key);
          },
          counted ev s,
        )
  unfolding get_meta_and_value meta_or_find get init_value
  get_meta_and_value_hit key c ev s meta own found = ground arith

  -- the record after a lookup for training; `ws` is what it shows
  abbrev pub hit_record : (V → Bool) → Row → List V → EmbeddingValue → EmbeddingValue
  hit_record exceeds r ws ev =
      record (add_frequency (row_frequency r) r.last_update_time_in_days ev) {
        under_threshold = ev.in_black || not (any exceeds ws);
      }

  find_func_hit :
      (floats : Floats V) (r : Row) (c : EvContext) (ev : EmbeddingValue) (ws : List V)
      (s : Store V T)
      → m.IsValid s.ev_table
      → c.meta ≡ some (entry r.key)
      → find_or_null r.key s.ev_table ≡ some ev
      → c.val ≢ null
      → s.heap.cell c.val ≡ some (row ws)
      → find_func m floats r c s
        ≡ some (
          (c, record { values = some ws; filter_out = none }),
          record s {
            ev_table = insert_or_assign r.key (hit_record floats.exceeds_default r ws ev) (
                insert_or_assign r.key
                  (add_frequency (row_frequency r) r.last_update_time_in_days ev)
                  s.ev_table);
          },
        )
  unfolding find_func add_frequency
  find_func_hit floats r c ev ws s valid meta found nz shows =
      let e₁ = add_frequency (row_frequency r) r.last_update_time_in_days ev in
      let s₁ : Store V T = record s { ev_table = insert_or_assign r.key e₁ s.ev_table } in
      let s₂ : Store V T = record s {
        ev_table = insert_or_assign r.key (hit_record floats.exceeds_default r ws ev) s₁.ev_table;
      } in
      let again : find_or_null r.key s₁.ev_table ≡ some e₁ =
        m.find-insert r.key r.key e₁ s.ev_table valid ∙ rw (==_refl r.key) in
      ground (
        arith,
        update_under_threshold-ok m floats.exceeds_default c (entry r.key) e₁ ws s₁ s₂,
        update_under_threshold_black m floats.exceeds_default c (entry r.key) e₁ s₁ s₂,
        output_embedding_data-ok m c ws s₂,
      )

  -- the row that a record shows
  pub shown_row :
      (zeros : List V) (key : ℕ) (ev : EmbeddingValue) (s : Store V T)
      → Inv m zeros s.heap s.ev_table s.zero_val
      → find_or_null key s.ev_table ≡ some ev
      → (ws : List V) × (s.heap.cell (shown ev s.zero_val) ≡ some (row ws))
        × (ev.in_black ≡ true → ws ≡ zeros)
  shown_row zeros key ev s inv found = elim (Bool-cases ev.in_black) [
    | inl b ↦ (zeros, rw b inv.zero, λ _. refl)
    | inr b ↦
        let (ws, e) = inv.filled key ev found (inv.visible key ev found b) in (ws, rw b e, λ b'. cc)
  ]

  module _ (floats : Floats V) (config : Config V) (r : Row) where
    -- the table after a lookup of the key's record `ev`, which showed `ws`
    pub record Touched (ev : EmbeddingValue) (ws : List V) (s s' : Store V T) : Type 0 where
      pub inv : Inv m floats.zeros s'.heap s'.ev_table s'.zero_val
      pub stored : find_or_null r.key s'.ev_table ≡ some (hit_record floats.exceeds_default r ws ev)
      pub keys : (q : ℕ) → q ≢ r.key → find_or_null q s'.ev_table ≡ find_or_null q s.ev_table
      pub heap : s'.heap ≡ s.heap
      pub size : s'.storage_size ≡ s.storage_size

    -- On a table whose ownership holds, a lookup for training of a key in the table, whose row is
    -- not filtered out, returns the value of its record, or zeros if the record is in the
    -- blacklist. It adds to the record's frequency, sets its day and its flag, and changes no
    -- buffer and no other record.
    pub find_or_insert_row_hit :
        (buf : Ptr) (ev : EmbeddingValue) (s : Store V T)
        → Inv m floats.zeros s.heap s.ev_table s.zero_val
        → is_filtered r ≡ false
        → find_or_null r.key s.ev_table ≡ some ev
        → (ws : List V) × (s' : Store V T) × (find_or_insert_row m floats config buf r s
            ≡ some (record { values = some ws; filter_out = none }, s'))
          × (s.heap.cell (shown ev s.zero_val) ≡ some (row ws))
          × (ev.in_black ≡ true → ws ≡ floats.zeros)
          × Touched ev ws s s'
    unfolding find_or_insert_row find_or_insert_with_different_fn add_frequency Context.destroy
    find_or_insert_row_hit buf ev s inv open' found =
        let (ws, shows, black) = shown_row floats.zeros r.key ev s inv found in
        let n = with_delta config r.key s in
        let s₀ = counted ev n in
        let c : EvContext = record {
          buf_owner = false;
          is_valid = true;
          val = shown ev s.zero_val;
          meta = some (entry r.key);
        } in
        let e₁ = add_frequency (row_frequency r) r.last_update_time_in_days ev in
        let e₂ = hit_record floats.exceeds_default r ws ev in
        let t₁ = insert_or_assign r.key e₁ s.ev_table in
        let inv₁ = write-Inv m floats.zeros s.heap s.heap s.ev_table s.zero_val r.key e₁ inv (
          same_value-Fits m floats.zeros s.heap s.ev_table s.zero_val r.key ev e₁ inv found refl
            refl (λ b. b)) in
        let found₁ : find_or_null r.key t₁ ≡ some e₁ =
          m.find-insert r.key r.key e₁ s.ev_table inv.valid ∙ rw (==_refl r.key) in
        let nz : c.val ≢ null = ne_null s.heap inv.fresh shows in
        (
          ws,
          record s₀ { ev_table = insert_or_assign r.key e₂ t₁ },
          ground (
            arith,
            note_delta_lem config r.key s,
            get_meta_and_value_hit r.key (buffer_context buf false) ev n,
            find_func_hit floats r c ev ws s₀,
          ),
          shows,
          black,
          record {
            inv = write-Inv m floats.zeros s.heap s.heap t₁ s.zero_val r.key e₂ inv₁ (
                same_value-Fits m floats.zeros s.heap t₁ s.zero_val r.key e₁ e₂ inv₁ found₁ refl
                  refl (λ b. b));
            stored = rw (m.find-insert r.key r.key e₂ t₁ inv₁.valid, ==_refl);
            keys = λ q n. rw (
              m.find-insert q r.key e₂ t₁ inv₁.valid,
              ==_ne n,
              m.find-insert q r.key e₁ s.ev_table inv.valid,
              ==_ne n,
            );
            heap = refl;
            size = refl;
          },
        )
