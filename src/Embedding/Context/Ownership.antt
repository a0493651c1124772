-- ===== src/Embedding/Context/Ownership.antt =====
-- Who owns which buffer after `EVContext::UpdateValue` (embedding_context.h).
use tfplus.Common.{
  ◌≡◌, refl, ◌≢◌, ◌⊎◌, inl, inr, Bool, true, false, none, some, List, arith, ◌==◌, ◌||◌, Bool-cases,
}
use tfplus.Memory.{Ptr, null, Cell, row, Heap, IsFresh, allocate_raw, write}
use tfplus.Memory.Access.{lt_next, ne_null, copy_row-ok, deallocate_raw-ok}
use tfplus.Embedding.Value.{release}
use tfplus.Embedding.Context.{EvContext, update_value}

module _ {V : Type 0} where
  -- the pointer is null or a live buffer
  abbrev pub IsLive : Ptr → Heap V → Type 0
  IsLive p h = (p ≡ null) ⊎ ((d : Cell V) × (h.cell p ≡ some d))

  -- what `update_value` leaves: the context shows the row, owns what it must, and nothing but its
  -- old buffer and a fresh one has changed
  pub record Updated (new : Ptr) (owner : Bool) (c : EvContext) (h : Heap V) (vs : List V)
      (c' : EvContext) (h' : Heap V) : Type 0 where
    pub shows : h'.cell c'.val ≡ some (row vs)
    pub owns : c'.buf_owner ≡ (c.buf_owner || owner || (c.val == null))
    pub frame : (p : Ptr) → p ≢ c.val → p ≢ h.next → h'.cell p ≡ h.cell p
    pub freed : c.buf_owner ≡ true → owner ≡ true → h'.cell c.val ≡ none
    pub meta : c'.meta ≡ c.meta
    pub source : owner ≡ true → c'.val ≡ new
    pub copied : owner ≡ false → (c'.val ≢ new) × (h'.cell new ≡ some (row vs))

  -- The five cases, with the buffers that the context must not hold dangling: the new one shows
  -- `vs`, the old one is null or live, and an owner has one.
  module _ (new : Ptr) (c : EvContext) (h : Heap V) (vs : List V) (fresh : IsFresh h)
      (filled : h.cell new ≡ some (row vs)) (ne : new ≢ c.val) where
    abbrev Updates : Bool → Type 0
    Updates owner =
        (c' : EvContext) × (h' : Heap V) × (update_value new owner c h ≡ some (c', h'))
        × Updated new owner c h vs c' h'

    unowned_given : c.buf_owner ≡ false → Updates true
    unfolding update_value
    unowned_given o = (
      record c { val = new; buf_owner = true },
      h,
      ground arith,
      record {
        shows = filled;
        owns = ground arith;
        frame = λ p a b. refl;
        freed = λ a. cc;
        meta = refl;
        source = λ a. refl;
        copied = λ a. cc;
      },
    )

    unowned_copied : c.buf_owner ≡ false → c.val ≡ null → Updates false
    unfolding update_value allocate_raw
    unowned_copied o z =
        let h₁ = (allocate_raw h).1 in
        let lt = lt_next h fresh filled in
        let e₁ : h₁.cell new ≡ some (row vs) = ground arith in
        let e₂ : h₁.cell h.next ≡ some Cell.raw = ground arith in
        let run = copy_row-ok h₁ e₁ e₂ in
        (
          record c { val = h.next; buf_owner = true },
          record h₁ { cell = write h₁.cell h.next (some (row vs)) },
          ground (arith, run),
          record {
            shows = ground arith;
            owns = ground arith;
            frame = λ p a b. ground arith;
            freed = λ a. cc;
            meta = refl;
            source = λ a. cc;
            copied = λ a. (ground arith, ground arith);
          },
        )

    copied_over : {d : Cell V} → h.cell c.val ≡ some d → Updates false
    unfolding update_value
    copied_over e =
        let nz = ne_null h fresh e in
        let run = copy_row-ok h filled e in
        (
          c,
          record h { cell = write h.cell c.val (some (row vs)) },
          ground (arith, run),
          record {
            shows = ground arith;
            owns = ground arith;
            frame = λ p a b. ground arith;
            freed = λ a. cc;
            meta = refl;
            source = λ a. cc;
            copied = λ a. (ground arith, ground arith);
          },
        )

    owned_given : {d : Cell V} → c.buf_owner ≡ true → h.cell c.val ≡ some d → Updates true
    unfolding update_value release
    owned_given o e =
        let nz = ne_null h fresh e in
        let run = deallocate_raw-ok h e in
        (
          record c { val = new },
          record h { cell = write h.cell c.val none },
          ground (arith, run),
          record {
            shows = ground arith;
            owns = ground arith;
            frame = λ p a b. ground arith;
            freed = λ a b. ground arith;
            meta = refl;
            source = λ a. refl;
            copied = λ a. cc;
          },
        )

    -- With a new buffer that holds a row and is not the old one, and an old one that is null (then not
    -- owned) or live, `UpdateValue` does not fault. The context then shows the row: in the new buffer
    -- if it is handed over, and else as a copy. The old buffer is freed if both are owned, no
    -- buffer but the old one and a fresh one changes, and the context owns its buffer if it or the
    -- caller did, or if it had none.
    pub update_value_lem :
        (owner : Bool) → IsLive c.val h → (c.buf_owner ≡ true → c.val ≢ null) → Updates owner
    update_value_lem true (inl z) has = unowned_given (ground (arith, has))
    update_value_lem false (inl z) has = unowned_copied (ground (arith, has)) z
    update_value_lem true (inr (d, e)) has = elim (Bool-cases c.buf_owner) [
      | inl o ↦ owned_given o e
      | inr o ↦ unowned_given o
    ]
    update_value_lem false (inr (d, e)) has = copied_over e
