-- ===== src/Table/Manager.antt =====
-- `class TableManager` of tfplus/kv_variable/kernels/hybrid_embedding/table_manager.h.
use tfplus.Common.{ℕ, ◌+◌, ◌%◌, Bool, true, false, Option, none, some, ◌==◌, not, if◌then◌else◌}
use tfplus.Memory.{null}
use tfplus.HashMap.{IMap}
use tfplus.Embedding.Value.{EmbeddingValue, new_value, mem_storage, move_assign}
use tfplus.Embedding.Context.{
  Meta, local, entry, EvContext, empty_context, meta_context, init_value, update_value,
}
use tfplus.Embedding.Context
use tfplus.Table.{Store, M, pure, ◌>>=◌, ◌>>◌, on_heap, on_heap_, load_meta}
use tfplus.Table.Storage.{size_mod, get, put, meta_or_find}

-- a callback on a context; `O` is what it hands out besides
abbrev pub Callback : Type 0 → Type 0 → Type 0 → Type 0
Callback V T O = EvContext → M V T (EvContext × O)

module _ {V T : Type 0} (m : IMap EmbeddingValue T) where
  open m use {find_or_null, insert_or_assign}

  -- `ev_table_->InsertOrAssignUnsafe(key, std::move(ev))`, and the end of `ev`, whose value is gone
  unfoldable pub insert_moved : ℕ → M V T (Unit {0})
  insert_moved key s = elim (find_or_null key s.ev_table) [
    | none ↦ some (
      tt,
      record s {
        ev_table = insert_or_assign key s.local_ev s.ev_table;
        local_ev = record s.local_ev { embedding_val = null };
      },
    )
    | some old ↦ elim (move_assign old s.local_ev s.heap) [
      | none ↦ none
      | some (new, left, h) ↦ some (
        tt,
        record s { heap = h; ev_table = insert_or_assign key new s.ev_table; local_ev = left },
      )
    ]
  ]

  unfoldable pub new_local : EmbeddingValue → M V T (Unit {0})
  new_local ev s = some (tt, record s { local_ev = ev })

  unfoldable pub insert_with_fn_unsafe : {O : Type 0} → ℕ → Callback V T O → Callback V T O
  unfolding insert_moved new_local put
  insert_with_fn_unsafe key insert_func context = do
    new_local (new_value null false 1 false mem_storage)
    (c, o) ← insert_func (record context { meta = some local })
    c' ← (if not (c.val == null) then put m c true else pure c)
    insert_moved key
    pure (record c' { meta = some (entry key) }, o)

  unfoldable pub insert_with_fn : {O : Type 0} → ℕ → Callback V T O → M V T O
  unfolding insert_with_fn_unsafe Context.destroy
  insert_with_fn key insert_func = do
    (c, o) ← insert_with_fn_unsafe key insert_func empty_context
    on_heap_ (Context.destroy c)
    pure o

  count_request : M V T (Unit {0})
  count_request s = some (
    tt,
    record s {
      request_count =
          if s.record_enabled then (s.request_count + 1) % size_mod else s.request_count;
    },
  )

  -- a record in the blacklist shows the shared zero row, any other its own value
  unfoldable pub get_meta_and_value : ℕ → EvContext → M V T EvContext
  unfolding count_request load_meta get
  get_meta_and_value key context s₀ = elim (count_request s₀) [
    | none ↦ none
    | some (_, s) ↦ elim (meta_or_find m key context s) [
      | none ↦ some (record context { meta = none }, s)
      | some p ↦
          (do
            ev ← load_meta m p
            let found = record context { meta = some p }
            c ←
                (if ev.in_black
                  then on_heap (init_value s.zero_val false found)
                  else get m key found)
            pure (record c { is_valid = true }))
            s
    ]
  ]

  -- `others` is what other threads do to the table, if the upgrade to a write lock has to give up
  -- the read lock first
  unfoldable pub find_or_insert_with_different_fn :
      {O : Type 0}
      → Option (Store V T → Store V T)
      → ℕ
      → (find_func insert_func : Callback V T O) → Callback V T O
  unfolding get_meta_and_value insert_with_fn_unsafe
  find_or_insert_with_different_fn others key find_func insert_func context = do
    c ← get_meta_and_value key context
    if c.is_valid then find_func c else elim others [
      | none ↦ insert_with_fn_unsafe key insert_func c
      | some other_threads ↦ do
        (λ s. some (tt, other_threads s))
        c' ← get_meta_and_value key c
        if c'.is_valid then find_func c' else insert_with_fn_unsafe key insert_func c'
    ]

  unfoldable pub find_or_insert_with_fn_unsafe :
      {O : Type 0} → ℕ → Callback V T O → EvContext → M V T (EvContext × Option O)
  unfolding get_meta_and_value insert_with_fn_unsafe
  find_or_insert_with_fn_unsafe key insert_func context = do
    c ← get_meta_and_value key context
    if c.is_valid
        then pure (c, none)
        else (do (c', o) ← insert_with_fn_unsafe key insert_func c; pure (c', some o))

  -- `FindWithFn`; the flag says whether the context has a value
  unfoldable pub find_with_fn :
      {O : Type 0} → ℕ → Callback V T O → EvContext → M V T (EvContext × Option O × Bool)
  unfolding get_meta_and_value
  find_with_fn key func context = do
    c ← get_meta_and_value key context
    (if not c.is_valid
        then pure (c, none, not (c.val == null))
        else (do (c', o) ← func c; pure (c', some o, not (c'.val == null))))

  unfoldable pub update_with_context : {O : Type 0} → Callback V T O → Callback V T O
  unfolding put
  update_with_context func context = do
    (c, o) ← func context
    c' ← (if not (c.val == null) then put m c false else pure c)
    pure (c', o)

  -- `UpdateWithFn(key, func)`: `none` where the key has no record
  unfoldable pub update_with_fn : {O : Type 0} → ℕ → Callback V T O → M V T (Option O)
  unfolding update_with_context Context.destroy
  update_with_fn key func s = elim (find_or_null key s.ev_table) [
    | none ↦ some (none, s)
    | some ev ↦
        (do
          (c, o) ← update_with_context func (meta_context (entry key) ev.embedding_val)
          on_heap_ (Context.destroy c)
          pure (some o))
          s
  ]

  unfoldable pub fetch_and_update_with_fn : {O : Type 0} → ℕ → Callback V T O → M V T (Option O)
  unfolding get_meta_and_value put Context.destroy
  fetch_and_update_with_fn key func = do
    c ← get_meta_and_value key empty_context
    if not c.is_valid then pure none else (do
      (c', o) ← func c
      c'' ← put m c' false
      on_heap_ (Context.destroy c'')
      pure (some o))
