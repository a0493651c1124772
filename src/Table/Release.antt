-- ===== src/Table/Release.antt =====
-- What the release of a record's buffer leaves of the ownership (embedding_value.h).
use tfplus.Common.{
  ℕ, ◌≡◌, sym, ◌∙◌, ◌≢◌, inl, inr, true, false, none, some, List, arith, ◌==◌, ◌&&◌, not,
  if◌then◌else◌, Bool-cases,
}
use tfplus.Memory.{Ptr, null, Cell, row, Heap, write, IsFresh}
use tfplus.Memory.Access.{deallocate_raw-ok, write-IsFresh}
use tfplus.HashMap.{IMap}
use tfplus.Embedding.Value.{EmbeddingValue, release}
use tfplus.Table.Ownership.{Inv, Fits}

module _ {V T : Type 0} (m : IMap EmbeddingValue T) (zeros : List V) where
  open m use {find_or_null, insert_or_assign, erase}

  -- the heap after a record's buffer is released
  abbrev pub released : EmbeddingValue → Heap V → Heap V
  released e h = record h {
    cell =
        if e.buf_owner && not (e.embedding_val == null)
        then write h.cell e.embedding_val none
        else h.cell;
  }

  -- what releasing the buffer of the record of a key leaves alone
  module _ (h : Heap V) (t : T) (zero_val : Ptr) (key : ℕ) (e : EmbeddingValue)
      (inv : Inv m zeros h t zero_val) (found : find_or_null key t ≡ some e) where
    pub release-released : release e.buf_owner e.embedding_val h ≡ some (released e h)
    unfolding release
    release-released = elim (Bool-cases (e.buf_owner && not (e.embedding_val == null))) [
      | inl y ↦
          let (vs, c) = inv.filled key e found (ground arith) in
          ground (arith, deallocate_raw-ok h c)
      | inr n ↦ ground arith
    ]

    pub released-IsFresh : IsFresh (released e h)
    released-IsFresh = record {
      next_pos = inv.fresh.next_pos;
      null_free = ground (arith, inv.fresh.null_free);
      above = λ p le. ground (arith, inv.fresh.above p le);
    }

    pub released-zero : (released e h).cell zero_val ≡ some (row zeros)
    released-zero = ground (arith, inv.zero, inv.apart_zero key e found)

    pub released-others :
        (j : ℕ) (d : EmbeddingValue)
        → j ≢ key
        → find_or_null j t ≡ some d
        → (released e h).cell d.embedding_val ≡ h.cell d.embedding_val
    released-others j d n f = ground (arith, inv.apart key j e d (λ q. n (sym q)) found f)

    pub released-Fits :
        (e' : EmbeddingValue)
        → e'.embedding_val ≡ null
        → e'.buf_owner ≡ false
        → e'.in_black ≡ true
        → Fits m zeros h (released e h) t zero_val key e'
    released-Fits e' v o b = record {
      fresh = released-IsFresh;
      zero = released-zero;
      others = λ j d n f nz. released-others j d n f;
      filled = λ nz. absurd (nz v);
      visible = λ b'. cc;
      apart_zero = λ o'. cc;
      apart = λ j d n f own nz. absurd (nz v);
    }

    -- the key's record goes, and its buffer with it
    pub erase-Inv :
        (t' : T)
        → m.IsValid t'
        → ((q : ℕ) → find_or_null q t' ≡ (if q == key then none else find_or_null q t))
        → Inv m zeros (released e h) t' zero_val
    erase-Inv t' valid reads =
        let old : (k : ℕ) (d : EmbeddingValue)
            → find_or_null k t' ≡ some d
            → (k ≢ key) × (find_or_null k t ≡ some d) =
          λ k d f. (ground (arith, reads k), ground (arith, reads k)) in
        record {
          valid = valid;
          fresh = released-IsFresh;
          zero = released-zero;
          filled = λ k d f nz.
              let (n, g) = old k d f in
              let (vs, c) = inv.filled k d g nz in (vs, released-others k d n g ∙ c);
          visible = λ k d f. inv.visible k d (old k d f).1;
          apart_zero = λ k d f. inv.apart_zero k d (old k d f).1;
          apart = λ k j d d' ne f f'. inv.apart k j d d' ne (old k d f).1 (old j d' f').1;
        }

  -- a buffer that no record shows can be freed
  pub free-Inv :
      (h : Heap V) (t : T) (zero_val p : Ptr) {d : Cell V}
      → Inv m zeros h t zero_val
      → h.cell p ≡ some d
      → p ≢ zero_val
      → ((k : ℕ) (e : EmbeddingValue) → find_or_null k t ≡ some e → e.embedding_val ≢ p)
      → Inv m zeros (record h { cell = write h.cell p none }) t zero_val
  free-Inv h t zero_val p {d} inv live nz unused = record {
    valid = inv.valid;
    fresh = write-IsFresh p d none h inv.fresh live;
    zero = ground (arith, inv.zero, nz);
    filled = λ k e f n. let (vs, c) = inv.filled k e f n in (vs, ground (arith, unused k e f, c));
    visible = inv.visible;
    apart_zero = inv.apart_zero;
    apart = inv.apart;
  }
