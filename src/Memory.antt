-- ===== src/Memory.antt =====
-- The buffers of TensorFlow's CPU allocator, as the kernels of tfplus/kv_variable use them: each
-- holds one embedding row. A pointer is a number and null is 0. `none` is a fault: a free of what is
-- not allocated, or an access to what is not allocated or, in a read, not written yet.
pub mod Access
use tfplus.Common.{
  ℕ, zero, suc, ◌+◌, ◌≤◌, ◌<◌, ◌≡◌, Bool, Option, none, some, List, ◌==◌, if◌then◌else◌,
}

abbrev pub Ptr : Type 0
Ptr = ℕ

abbrev pub null : Ptr
null = 0

-- `raw` is allocated memory that has not been written
pub data Cell (V : Type 0) : Type 0 where
  raw : Cell V
  row : List V → Cell V

-- `next` is what the next allocation returns
pub record Heap (V : Type 0) : Type 0 where
  pub next : Ptr
  pub cell : Ptr → Option (Cell V)

infixl 5 ◌>>=◌
abbrev pub ◌>>=◌ {ℓ κ} : {A : Type ℓ} {B : Type κ} → Option A → (A → Option B) → Option B
none >>= f = none
some a >>= f = f a

module _ {V : Type 0} where
  abbrev pub write : (Ptr → Option (Cell V)) → Ptr → Option (Cell V) → Ptr → Option (Cell V)
  write cell p c q = if q == p then c else cell q

  -- `cpu_allocator()->AllocateRaw`
  unfoldable pub allocate_raw : Heap V → Ptr × Heap V
  allocate_raw h = (h.next, record { next = suc h.next; cell = write h.cell h.next (some raw) })

  -- `cpu_allocator()->DeallocateRaw`
  unfoldable pub deallocate_raw : Ptr → Heap V → Option (Heap V)
  deallocate_raw p h = elim (h.cell p) [
    | none ↦ none
    | some _ ↦ some (record h { cell = write h.cell p none })
  ]

  unfoldable pub load_row : Ptr → Heap V → Option (List V)
  load_row p h = elim (h.cell p) [ none ↦ none | some c ↦ elim c [ raw ↦ none | row vs ↦ some vs ] ]

  unfoldable pub store_row : Ptr → List V → Heap V → Option (Heap V)
  store_row p vs h = elim (h.cell p) [
    | none ↦ none
    | some _ ↦ some (record h { cell = write h.cell p (some (row vs)) })
  ]

  -- `memcpy` of one row
  unfoldable pub copy_row : (dst src : Ptr) → Heap V → Option (Heap V)
  unfolding load_row store_row
  copy_row dst src h = do vs ← load_row src h; store_row dst vs h

  -- null and what is still to be allocated are not allocated
  pub record IsFresh (h : Heap V) : Type 0 where
    pub next_pos : 0 < h.next
    pub null_free : h.cell null ≡ none
    pub above : (p : Ptr) → h.next ≤ p → h.cell p ≡ none
