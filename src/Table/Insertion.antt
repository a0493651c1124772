-- ===== src/Table/Insertion.antt =====
-- What `TableManager::InsertWithFnUnsafe` (table_manager.h) does with the context that its callback
-- leaves.
use tfplus.Common.{ℕ, ◌+◌, ◌%◌, ◌≡◌, ◌≢◌, true, false, none, some, arith}
use tfplus.Memory.{null}
use tfplus.HashMap.{IMap}
use tfplus.Embedding.Value.{EmbeddingValue, new_value, mem_storage, set_buf_owner, update_embedding}
use tfplus.Embedding.Context.{local, entry, EvContext}
use tfplus.Table.{Store}
use tfplus.Table.Storage.{size_mod, put}
use tfplus.Table.Manager.{Callback, insert_moved, insert_with_fn_unsafe}

-- the record that an insertion stores: the callback's, with the context's buffer, owned
abbrev pub stored : EmbeddingValue → EvContext → EmbeddingValue
stored ev c = record ev { embedding_val = c.val; buf_owner = true }

module _ {V T : Type 0} (m : IMap EmbeddingValue T) where
  open m use {find_or_null, insert_or_assign}

  abbrev pub after_insertion : ℕ → EvContext → Store V T → Store V T
  after_insertion key c s = record s {
    ev_table = insert_or_assign key (stored s.local_ev c) s.ev_table;
    local_ev = record (stored s.local_ev c) { embedding_val = null };
    storage_size = (s.storage_size + 1) % size_mod;
  }

  -- `Put` for a new record that has no value yet
  put_new :
      (c : EvContext) (s : Store V T)
      → c.meta ≡ some local
      → c.buf_owner ≡ true
      → s.local_ev.embedding_val ≡ null
      → put m c true s
        ≡ some (
          record c { buf_owner = false },
          record s {
            local_ev = stored s.local_ev c;
            storage_size = (s.storage_size + 1) % size_mod;
          },
        )
  unfolding put set_buf_owner update_embedding
  put_new c s meta owner none_yet = ground arith

  insert_new :
      (key : ℕ) (s : Store V T)
      → find_or_null key s.ev_table ≡ none
      → insert_moved m key s
        ≡ some (
          tt,
          record s {
            ev_table = insert_or_assign key s.local_ev s.ev_table;
            local_ev = record s.local_ev { embedding_val = null };
          },
        )
  unfolding insert_moved
  insert_new key s absent = rw (absent, insert_moved)

  -- The callback leaves an owned buffer in the context and the key is not in the table: the record
  -- that the callback has prepared is stored with that buffer, and the context points at it.
  pub insert_with_fn_unsafe_lem :
      {O : Type 0} (key : ℕ) (f : Callback V T O) (context c : EvContext) (o : O) (s s₁ : Store V T)
      → f
          (record context { meta = some local })
          (record s { local_ev = new_value null false 1 false mem_storage })
        ≡ some ((c, o), s₁)
      → c.meta ≡ some local
      → c.buf_owner ≡ true
      → c.val ≢ null
      → s₁.local_ev.embedding_val ≡ null
      → find_or_null key s₁.ev_table ≡ none
      → insert_with_fn_unsafe m key f context s
        ≡ some
            ((record c { buf_owner = false; meta = some (entry key) }, o), after_insertion key c s₁)
  unfolding insert_with_fn_unsafe
  insert_with_fn_unsafe_lem key f context c o s s₁ run meta owner nz empty absent = ground (
    arith,
    put_new c s₁ meta owner empty,
    insert_new key
        (record s₁ {
          local_ev = stored s₁.local_ev c;
          storage_size = (s₁.storage_size + 1) % size_mod;
        })
        absent,
  )
