-- ===== src/Training/Dense/Rows.antt =====
-- Which rows the loop over the indices of training_ops.cc changes, and where it stops.
use tfplus.Common.{
  ℕ, suc, ◌<◌, ◌≡◌, ◌≢◌, refl, sym, ap, ◌∙◌, inl, inr, Option, none, some, List, [], ◌∷◌, arith,
  ◌==◌, ltb, ==_iff, Bool-cases, if◌then◌else◌, length, length-set, get_elem?-set_self,
  get_elem?-set_ne, get_elem?-lt,
}
use tfplus.Training.Dense.{Three, Tensors, chip, write, sparse_apply}

-- the three tensors have as many rows each
abbrev pub Sized : {V : Type 0} → ℕ → Tensors V → Type 0
Sized n t = (length t.var ≡ n) × (length t.m ≡ n) × (length t.v ≡ n)

module _ {V A : Type 0} (body : A → Three V → Three V) (first : ℕ) where
  -- the items before the first whose index is out of range
  abbrev pub in_range : List (ℕ × A) → List (ℕ × A)
  in_range [] = []
  in_range ((index, a) ∷ rest) = if ltb index first then (index, a) ∷ in_range rest else []

  -- the offset of that item
  abbrev pub stop_at : ℕ → List (ℕ × A) → Option ℕ
  stop_at i [] = none
  stop_at i ((index, a) ∷ rest) = if ltb index first then stop_at (suc i) rest else some i

  -- one row, through the items with its index
  abbrev pub follow : ℕ → List (ℕ × A) → Three V → Three V
  follow j [] rows = rows
  follow j ((index, a) ∷ rest) rows = follow j rest (if index == j then body a rows else rows)

  chip_found :
      (t : Tensors V) (index : ℕ)
      → Sized first t
      → index < first
      → (rows : Three V) × (chip t index ≡ some rows)
  chip_found t index (a, b, c) h =
      let (x, ex) = get_elem?-lt t.var index (ground (arith, a, h)) in
      let (y, ey) = get_elem?-lt t.m index (ground (arith, b, h)) in
      let (z, ez) = get_elem?-lt t.v index (ground (arith, c, h)) in
      ((x, y, z), ground (arith, ex, ey, ez))

  write-Sized :
      (t : Tensors V) (index : ℕ) (rows : Three V)
      → Sized first t
      → Sized first (write t index rows)
  write-Sized t index (x, y, z) (a, b, c) =
      (length-set t.var index x ∙ a, length-set t.m index y ∙ b, length-set t.v index z ∙ c)

  chip-write_self :
      (t : Tensors V) (index : ℕ) (rows : Three V)
      → Sized first t
      → index < first
      → chip (write t index rows) index ≡ some rows
  chip-write_self t index (x, y, z) (a, b, c) h =
      let ex = get_elem?-set_self t.var index x (ground (arith, a, h)) in
      let ey = get_elem?-set_self t.m index y (ground (arith, b, h)) in
      let ez = get_elem?-set_self t.v index z (ground (arith, c, h)) in ground (arith, ex, ey, ez)

  chip-write_ne :
      (t : Tensors V) (index j : ℕ) (rows : Three V)
      → index ≢ j
      → chip (write t index rows) j ≡ chip t j
  chip-write_ne t index j (x, y, z) h =
      let ex = get_elem?-set_ne t.var index j x h in
      let ey = get_elem?-set_ne t.m index j y h in
      let ez = get_elem?-set_ne t.v index j z h in ground (arith, ex, ey, ez)

  chip-write :
      (t : Tensors V) (index j : ℕ) (rows rows' old : Three V)
      → Sized first t
      → index < first
      → chip t index ≡ some rows
      → chip t j ≡ some old
      → chip (write t index rows') j ≡ some (if index == j then rows' else old)
  chip-write t index j rows rows' old sized h e f = elim (Bool-cases (index == j)) [
    | inl same ↦
        sym (ap (chip (write t index rows')) ((==_iff index j).0 same))
        ∙ chip-write_self t index rows' sized h
        ∙ ap (λ b. some (if b then rows' else old)) (sym same)
    | inr differ ↦
        chip-write_ne t index j rows' (ground arith)
        ∙ f
        ∙ ap (λ b. some (if b then rows' else old)) (sym differ)
  ]

  sparse_apply_all :
      (i : ℕ) (items : List (ℕ × A)) (t : Tensors V)
      → Sized first t
      → (t' : Tensors V) × (sparse_apply body first i items t ≡ some (stop_at i items, t'))
        × Sized first t'
        × ((j : ℕ) (rows : Three V)
            → chip t j ≡ some rows
            → chip t' j ≡ some (follow j (in_range items) rows))
  unfolding sparse_apply
  sparse_apply_all i [] t sized = (t, refl, sized, λ j rows e. e)
  sparse_apply_all i ((index, a) ∷ rest) t sized = elim (Bool-cases (ltb index first)) [
    | inl inside ↦
        let (rows, found) = chip_found t index sized (ground (arith, inside)) in
        let next = write t index (body a rows) in
        let (t', run, sized', each) =
          sparse_apply_all (suc i) rest next (write-Sized t index (body a rows) sized) in
        (
          t',
          ground (arith, inside, found, run),
          sized',
          λ j old e. ground (
            arith,
            each j (if index == j then body a rows else old) (
                chip-write t index j rows (body a rows) old sized (ground (arith, inside)) found e),
            inside,
          ),
        )
    | inr outside ↦ (t, ground (arith, outside), sized, λ j rows e. ground (arith, outside, e))
  ]

  -- On tensors with `first` rows each the loop comes to an end with as many rows. It stops at the first
  -- index out of range, with its offset as the status, and every row is then what the body made of it
  -- for the items before that one which have the row's index, in their order: the rows that were
  -- already trained stay so, and the others are as they were.
  pub sparse_apply_lem :
      (i : ℕ) (items : List (ℕ × A)) (t : Tensors V) (j : ℕ) (rows : Three V)
      → Sized first t
      → chip t j ≡ some rows
      → (t' : Tensors V) × (sparse_apply body first i items t ≡ some (stop_at i items, t'))
        × Sized first t'
        × (chip t' j ≡ some (follow j (in_range items) rows))
  sparse_apply_lem i items t j rows sized found =
      let (t', run, sized', each) = sparse_apply_all i items t sized in
      (t', run, sized', each j rows found)
