-- ===== src/Variable/Import/Keys.antt =====
-- What `KvVariable::ImportValues` (dynamic_restore.hpp) puts into a table without records.
use tfplus.Common.{
  ℕ, ◌+◌, ◌%◌, ◌≡◌, ◌≢◌, refl, sym, ◌∙◌, ap, inl, inr, false, Bool-cases, Option, none, some, List,
  [], ◌∷◌, arith, ◌==◌, ==_iff, if◌then◌else◌,
}
use tfplus.Memory.{Ptr, null, row, load_row}
use tfplus.HashMap.{IMap}
use tfplus.HashMap.Bucket.{lookup, IsDistinct}
use tfplus.Embedding.Value.{EmbeddingValue, new_value, mem_storage, update_embedding, release}
use tfplus.Embedding.Context.{local, entry, EvContext, empty_context, init_value}
use tfplus.Embedding.Context
use tfplus.Table.{Store, load_meta, store_meta, deref}
use tfplus.Table.Storage.{size_mod, put, add_storage_size}
use tfplus.Table.Manager.{insert_moved, insert_with_fn_unsafe, insert_with_fn}
use tfplus.Table.Blacklist.{clear_all}
use tfplus.Variable.{Floats}
use tfplus.Variable.Values.{output_embedding_data}
use tfplus.Variable.Lookup.{find_or_zeros_row}
use tfplus.Variable.Lookup.Hits.{counted, get_meta_and_value_hit}
use tfplus.Variable.Import.{import_fn, import_keys}

-- the record of an imported key, whose row is the tensor's
abbrev pub imported : Ptr → EmbeddingValue
imported p = new_value p false 1 false mem_storage

module _ {V T : Type 0} (m : IMap EmbeddingValue T) (floats : Floats V) where
  open m use {find_or_null, insert_or_assign, entries}

  abbrev with_key : ℕ → Ptr → Store V T → Store V T
  with_key key p s = record s {
    ev_table = insert_or_assign key (imported p) s.ev_table;
    local_ev = imported null;
    storage_size = (s.storage_size + 1) % size_mod;
  }

  insert_import :
      (key : ℕ) (p : Ptr) (s : Store V T)
      → find_or_null key s.ev_table ≡ none
      → p ≢ null
      → insert_with_fn m key (import_fn m floats p) s ≡ some (tt, with_key key p s)
  unfolding insert_with_fn insert_with_fn_unsafe insert_moved put import_fn init_value release deref
      load_meta store_meta add_storage_size update_embedding Context.destroy
  insert_import key p s absent nz = ground (arith, absent, nz)

  abbrev pub keys_of : List (ℕ × Ptr) → List ℕ
  keys_of [] = []
  keys_of ((key, p) ∷ pairs) = key ∷ keys_of pairs

  abbrev pub rows_of : List (ℕ × Ptr) → List Ptr
  rows_of [] = []
  rows_of ((key, p) ∷ pairs) = p ∷ rows_of pairs

  -- the record of a key after the keys of the pairs are imported
  abbrev pub after_import : Option Ptr → Option EmbeddingValue → Option EmbeddingValue
  after_import none old = old
  after_import (some p) old = some (imported p)

  -- a table with the pairs' keys imported
  pub record Holds (pairs : List (ℕ × Ptr)) (s s' : Store V T) : Type 0 where
    pub heap_same : s'.heap ≡ s.heap
    pub valid : m.IsValid s'.ev_table
    pub found :
        (q : ℕ)
        → find_or_null q s'.ev_table ≡ after_import (lookup q pairs) (find_or_null q s.ev_table)

  with_key-find :
      (key : ℕ) (p : Ptr) (s : Store V T) (q : ℕ)
      → m.IsValid s.ev_table
      → find_or_null q (with_key key p s).ev_table
        ≡ (if q == key then some (imported p) else find_or_null q s.ev_table)
  with_key-find key p s q valid = m.find-insert q key (imported p) s.ev_table valid

  import_step :
      (key : ℕ) (p : Ptr) (pairs : List (ℕ × Ptr)) (s s' : Store V T) (q : ℕ)
      → m.IsValid s.ev_table
      → lookup key pairs ≡ none
      → find_or_null q s'.ev_table
        ≡ after_import (lookup q pairs) (find_or_null q (with_key key p s).ev_table)
      → find_or_null q s'.ev_table
        ≡ after_import (lookup q ((key, p) ∷ pairs)) (find_or_null q s.ev_table)
  import_step key p pairs s s' q valid once e = elim (Bool-cases (q == key)) [
    | inl same ↦ ground (arith, same, e, once, with_key-find key p s q valid)
    | inr differ ↦ ground (arith, differ, e, with_key-find key p s q valid)
  ]

  pub import_keys_all :
      (pairs : List (ℕ × Ptr)) (s : Store V T)
      → m.IsValid s.ev_table
      → IsDistinct pairs
      → ((k : ℕ) (p : Ptr)
          → lookup k pairs ≡ some p
          → (p ≢ null) × (find_or_null k s.ev_table ≡ none))
      → (s' : Store V T) × (import_keys m floats (keys_of pairs) (rows_of pairs) s ≡ some (tt, s'))
        × Holds pairs s s'
  unfolding import_keys
  import_keys_all [] s valid distinct fit =
      (s, refl, record { heap_same = refl; valid = valid; found = λ q. refl })
  import_keys_all ((key, p) ∷ pairs) s valid (once, distinct) fit =
      let (nz, absent) = fit key p (ground (arith, (==_iff key key).1)) in
      let next = with_key key p s in
      let valid' = m.insert-IsValid key (imported p) s.ev_table valid in
      let (s', run, holds) =
        import_keys_all pairs next valid' distinct (later key p pairs s valid once fit) in
      (
        s',
        ground (arith, insert_import key p s absent nz, run),
        record {
          heap_same = holds.heap_same;
          valid = holds.valid;
          found = λ q. import_step key p pairs s s' q valid once (holds.found q);
        },
      )
    where
      later :
          (key : ℕ) (p : Ptr) (pairs : List (ℕ × Ptr)) (s : Store V T)
          → m.IsValid s.ev_table
          → lookup key pairs ≡ none
          → ((k : ℕ) (r : Ptr)
              → lookup k ((key, p) ∷ pairs) ≡ some r
              → (r ≢ null) × (find_or_null k s.ev_table ≡ none))
          → (k : ℕ) (r : Ptr) → lookup k pairs ≡ some r
          → (r ≢ null) × (find_or_null k (with_key key p s).ev_table ≡ none)
      later key p pairs s valid once fit k r e = elim (Bool-cases (k == key)) [
        | inl same ↦ ground (arith, same, once, e)
        | inr differ ↦
            let (nz, absent) = fit k r (ground (arith, differ, e)) in
            (nz, ground (arith, with_key-find key p s k valid, differ, absent))
      ]

  pub cleared :
      (s : Store V T)
      → entries s.ev_table ≡ []
      → clear_all m s ≡ some (tt, record s { ev_table = m.clear s.ev_table })
  unfolding clear_all
  cleared s e = ground (arith, e)

  pub find-clear : (t : T) (q : ℕ) → m.IsValid t → find_or_null q (m.clear t) ≡ none
  find-clear t q valid =
      sym (m.find-entries q (m.clear t) (m.clear-IsValid t valid))
      ∙ ap (lookup q) (m.entries-clear t valid)

  -- a lookup of a key whose record shows a row
  pub find_shown :
      (key : ℕ) (p : Ptr) (vs : List V) (s : Store V T)
      → find_or_null key s.ev_table ≡ some (imported p)
      → p ≢ null
      → s.heap.cell p ≡ some (row vs)
      → find_or_zeros_row m floats key s ≡ some (some vs, counted m (imported p) s)
  unfolding find_or_zeros_row output_embedding_data load_row
  find_shown key p vs s found nz cell =
      ground
        (arith, get_meta_and_value_hit m key empty_context (imported p) s refl refl found, nz, cell)
