-- ===== src/Table/Ownership.antt =====
-- The ownership of buffers by the records of the table (embedding_value.h, table_manager.h), and
-- the writes of a record and of a buffer that keep it.
use tfplus.Common.{
  ℕ, suc, ◌≡◌, refl, sym, subst, ◌∙◌, ◌≢◌, ◌⊎◌, inl, inr, true, false, Option, some, List, arith,
  ◌==◌, Bool-cases, ==_iff,
}
use mathlib.Core.Option.{some-injective}
use tfplus.Memory.{Ptr, null, Cell, row, Heap, write, IsFresh}
use tfplus.Memory.Access.{lt_next}
use tfplus.HashMap.{IMap}
use tfplus.Embedding.Value.{EmbeddingValue}

module _ {V T : Type 0} (m : IMap EmbeddingValue T) (zeros : List V) where
  open m use {find_or_null, insert_or_assign, erase}

  -- Nothing dangles and nothing is owned twice: a record's value is null or a written buffer, a
  -- record outside the blacklist has one, and the buffer that a record owns is neither the shared
  -- zero row nor the value of another record.
  pub record Inv (h : Heap V) (t : T) (zero_val : Ptr) : Type 0 where
    pub valid : m.IsValid t
    pub fresh : IsFresh h
    pub zero : h.cell zero_val ≡ some (row zeros)
    pub filled :
        (k : ℕ) (e : EmbeddingValue)
        → find_or_null k t ≡ some e
        → e.embedding_val ≢ null
        → (vs : List V) × (h.cell e.embedding_val ≡ some (row vs))
    pub visible :
        (k : ℕ) (e : EmbeddingValue)
        → find_or_null k t ≡ some e
        → e.in_black ≡ false
        → e.embedding_val ≢ null
    pub apart_zero :
        (k : ℕ) (e : EmbeddingValue)
        → find_or_null k t ≡ some e
        → e.buf_owner ≡ true
        → e.embedding_val ≢ zero_val
    pub apart :
        (k j : ℕ) (e d : EmbeddingValue)
        → k ≢ j
        → find_or_null k t ≡ some e
        → find_or_null j t ≡ some d
        → e.buf_owner ≡ true
        → e.embedding_val ≢ null
        → e.embedding_val ≢ d.embedding_val

  -- what a new record `e` at `key` must satisfy over the new heap `h'`
  pub record Fits (h h' : Heap V) (t : T) (zero_val : Ptr) (key : ℕ) (e : EmbeddingValue)
      : Type 0 where
    pub fresh : IsFresh h'
    pub zero : h'.cell zero_val ≡ some (row zeros)
    pub others :
        (j : ℕ) (d : EmbeddingValue)
        → j ≢ key
        → find_or_null j t ≡ some d
        → d.embedding_val ≢ null
        → h'.cell d.embedding_val ≡ h.cell d.embedding_val
    pub filled : e.embedding_val ≢ null → (vs : List V) × (h'.cell e.embedding_val ≡ some (row vs))
    pub visible : e.in_black ≡ false → e.embedding_val ≢ null
    pub apart_zero : e.buf_owner ≡ true → e.embedding_val ≢ zero_val
    pub apart :
        (j : ℕ) (d : EmbeddingValue)
        → j ≢ key
        → find_or_null j t ≡ some d
        → (e.buf_owner ≡ true) ⊎ (d.buf_owner ≡ true)
        → e.embedding_val ≢ null
        → d.embedding_val ≢ e.embedding_val

  module _ (h h' : Heap V) (t : T) (zero_val : Ptr) (key : ℕ) (e : EmbeddingValue)
      (inv : Inv h t zero_val) (fits : Fits h h' t zero_val key e) where
    -- a record of the new table is the new one, at the key, or an old one, elsewhere
    read_cases :
        (P : EmbeddingValue → Type 0) (k : ℕ) (d : EmbeddingValue)
        → find_or_null k (insert_or_assign key e t) ≡ some d
        → (k ≡ key → P e)
        → (k ≢ key → find_or_null k t ≡ some d → P d)
        → P d
    read_cases P k d f new old = elim (Bool-cases (k == key)) [
      | inl y ↦
          subst P (some-injective _ _ (rw (m.find-insert k key e t inv.valid, y) at f))
            (new ((==_iff k key).0 y))
      | inr n ↦ old (λ q. ground arith) (rw (m.find-insert k key e t inv.valid, n) at f)
    ]

    pub write-Inv : Inv h' (insert_or_assign key e t) zero_val
    write-Inv = record {
      valid = m.insert-IsValid key e t inv.valid;
      fresh = fits.fresh;
      zero = fits.zero;
      filled = λ k d f.
          read_cases
            (λ x.
              x.embedding_val ≢ null → (vs : List V) × (h'.cell x.embedding_val ≡ some (row vs)))
            k d f (λ q. fits.filled)
            (λ n g nz. let (vs, c) = inv.filled k d g nz in (vs, fits.others k d n g nz ∙ c));
      visible = λ k d f.
          read_cases (λ x. x.in_black ≡ false → x.embedding_val ≢ null) k d f (λ q. fits.visible)
            (λ n g. inv.visible k d g);
      apart_zero = λ k d f.
          read_cases (λ x. x.buf_owner ≡ true → x.embedding_val ≢ zero_val) k d f
            (λ q. fits.apart_zero) (λ n g. inv.apart_zero k d g);
      apart = λ k j d d' ne f f'.
          read_cases
            (λ x. x.buf_owner ≡ true → x.embedding_val ≢ null → x.embedding_val ≢ d'.embedding_val)
            k d f
            (λ q own nz.
              read_cases (λ y. e.embedding_val ≢ y.embedding_val) j d' f'
                (λ q'. absurd (ne (q ∙ sym q')))
                (λ n' g' eq. fits.apart j d' n' g' (inl own) nz (sym eq)))
            (λ n g own nz.
              read_cases (λ y. d.embedding_val ≢ y.embedding_val) j d' f'
                (λ q' eq. fits.apart k d n g (inr own) (λ z. nz (eq ∙ z)) eq)
                (λ n' g'. inv.apart k j d d' ne g g' own nz));
    }

  -- a record at a buffer that the allocator has just returned
  pub fresh_row-Fits :
      (h : Heap V) (t : T) (zero_val : Ptr) (key : ℕ) (e : EmbeddingValue) (c : Option (Cell V))
      (vs : List V)
      → Inv h t zero_val
      → e.embedding_val ≡ h.next
      → Fits h
          (record {
            next = suc h.next;
            cell = write (write h.cell h.next c) h.next (some (row vs));
          })
          t
          zero_val
          key
          e
  fresh_row-Fits h t zero_val key e c vs inv at =
      let pos = inv.fresh.next_pos in
      record {
        fresh = record {
          next_pos = omega arith;
          null_free = ground (arith, inv.fresh.null_free);
          above = λ p le. ground (arith, inv.fresh.above p);
        };
        zero = ground (arith, lt_next h inv.fresh inv.zero, inv.zero);
        others = λ j d n f nz.
            let (ws, c') = inv.filled j d f nz in ground (arith, lt_next h inv.fresh c');
        filled = λ nz. (vs, ground arith);
        visible = λ b. omega arith;
        apart_zero = λ o. omega (arith, lt_next h inv.fresh inv.zero);
        apart = λ j d n f o nz eq.
            let (ws, c') = inv.filled j d f (λ z. nz (sym eq ∙ z)) in
            absurd (omega (arith, lt_next h inv.fresh c'));
      }

  -- a record with the buffer of the old one
  pub same_buffer-Fits :
      (h : Heap V) (t : T) (zero_val : Ptr) (key : ℕ) (e e' : EmbeddingValue)
      → Inv h t zero_val
      → find_or_null key t ≡ some e
      → e'.embedding_val ≡ e.embedding_val
      → e'.buf_owner ≡ e.buf_owner
      → (e'.in_black ≡ false → e'.embedding_val ≢ null)
      → Fits h h t zero_val key e'
  same_buffer-Fits h t zero_val key e e' inv f v o b = record {
    fresh = inv.fresh;
    zero = inv.zero;
    others = λ j d n g nz. refl;
    filled = λ nz. let (vs, c) = inv.filled key e f (λ z. nz (v ∙ z)) in (vs, rw v c);
    visible = b;
    apart_zero = λ o' z. inv.apart_zero key e f (sym o ∙ o') (sym v ∙ z);
    apart = λ j d n g own nz eq. elim own [
      | inl o' ↦
          inv.apart key j e d (λ q. n (sym q)) f g (sym o ∙ o') (λ z. nz (v ∙ z)) (sym v ∙ sym eq)
      | inr o' ↦ inv.apart j key d e n g f o' (λ z. nz (sym eq ∙ z)) (eq ∙ v)
    ];
  }

  -- a record that differs from the old one in its frequency and its flag only
  pub same_value-Fits :
      (h : Heap V) (t : T) (zero_val : Ptr) (key : ℕ) (e e' : EmbeddingValue)
      → Inv h t zero_val
      → find_or_null key t ≡ some e
      → e'.embedding_val ≡ e.embedding_val
      → e'.buf_owner ≡ e.buf_owner
      → (e'.in_black ≡ false → e.in_black ≡ false)
      → Fits h h t zero_val key e'
  same_value-Fits h t zero_val key e e' inv f v o b =
      same_buffer-Fits h t zero_val key e e' inv f v o
        (λ b' z. inv.visible key e f (b b') (sym v ∙ z))
