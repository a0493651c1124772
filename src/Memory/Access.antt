-- ===== src/Memory/Access.antt =====
-- What the accesses to buffers do, where the buffers are allocated.
use tfplus.Common.{◌<◌, ◌≡◌, ◌≢◌, inl, inr, Option, none, some, List, arith, ltb, Bool-cases}
use tfplus.Memory.{
  Ptr, null, Cell, row, Heap, IsFresh, write, allocate_raw, deallocate_raw, load_row, store_row,
  copy_row,
}

module _ {V : Type 0} where
  pub lt_next : {p : Ptr} {d : Cell V} (h : Heap V) → IsFresh h → h.cell p ≡ some d → p < h.next
  lt_next {p} h fresh e = elim (Bool-cases (ltb p h.next)) [
    | inl y ↦ ground arith
    | inr n ↦ ground (arith, fresh.above p)
  ]

  pub ne_null : {p : Ptr} {d : Cell V} (h : Heap V) → IsFresh h → h.cell p ≡ some d → p ≢ null
  ne_null h fresh e z = ground (arith, fresh.null_free)

  pub load_row-ok :
      {p : Ptr} {vs : List V} (h : Heap V) → h.cell p ≡ some (row vs) → load_row p h ≡ some vs
  unfolding load_row
  load_row-ok h e = rw (e, load_row)

  pub store_row-ok :
      {p : Ptr} {d : Cell V} (vs : List V) (h : Heap V)
      → h.cell p ≡ some d
      → store_row p vs h ≡ some (record h { cell = write h.cell p (some (row vs)) })
  unfolding store_row
  store_row-ok vs h e = rw (e, store_row)

  pub copy_row-ok :
      {dst src : Ptr} {d : Cell V} {vs : List V} (h : Heap V)
      → h.cell src ≡ some (row vs)
      → h.cell dst ≡ some d
      → copy_row dst src h ≡ some (record h { cell = write h.cell dst (some (row vs)) })
  unfolding copy_row
  copy_row-ok h e f = rw (load_row-ok h e) (store_row-ok _ h f)

  pub deallocate_raw-ok :
      {p : Ptr} {d : Cell V} (h : Heap V)
      → h.cell p ≡ some d
      → deallocate_raw p h ≡ some (record h { cell = write h.cell p none })
  unfolding deallocate_raw
  deallocate_raw-ok h e = rw (e, deallocate_raw)

  -- writing or freeing an allocated buffer keeps the heap fresh
  pub write-IsFresh :
      (p : Ptr) (d : Cell V) (c : Option (Cell V)) (h : Heap V)
      → IsFresh h
      → h.cell p ≡ some d
      → IsFresh (record h { cell = write h.cell p c })
  write-IsFresh p d c h fresh e = record {
    next_pos = fresh.next_pos;
    null_free = ground (arith, fresh.null_free, ne_null h fresh e);
    above = λ q le. ground (arith, fresh.above q le, lt_next h fresh e);
  }

  pub allocate_raw-IsFresh : (h : Heap V) → IsFresh h → IsFresh (allocate_raw h).1
  unfolding allocate_raw
  allocate_raw-IsFresh h fresh = record {
    next_pos = omega arith;
    null_free = ground (arith, fresh.null_free, fresh.next_pos);
    above = λ q le. ground (arith, fresh.above q);
  }
