-- ===== src/Training/Rules/Rectified/Slots.antt =====
-- The rows of the rectified Adam (training_ops.cc) in the one row of its slots.
use tfplus.Common.{
  length-append, Bool, ==_refl, ap, ℕ, zero, suc, ◌+◌, ◌*◌, ◌<◌, ◌≤◌, ◌≡◌, refl, List, [], ◌∷◌,
  ◌++◌, none, some, arith, length, if◌then◌else◌, true, false,
}
use tfplus.Training.Scalars.{Scalars}
use tfplus.Training.Actions.{Action, assign, cover}
use tfplus.Training.Rules.{Rates}
use tfplus.Training.Rules.Packed.{cut, unpack}
use tfplus.Training.Rules.Packed.Slots.{unpack_short}
use tfplus.Training.Rules.Shapes.{WritesAll, proximal_rows, if-IsRow, IsRow, zip-IsRow, map-IsRow}
use tfplus.Training.Rules.Rectified.{
  Rectification, SlotRows, unpack_slots, pack_slots, corrected_m, rectify, rectified_step,
  rectified_adam, check_opt_dim_size,
}

module _ {V : Type 0} where
  abbrev SplitAt : ℕ → List V → Type 0
  SplitAt n row =
      (a rest : List V) × (cut n row ≡ some (a, rest)) × IsRow n a × (n + length rest ≡ length row)

  cut_enough : (n : ℕ) (row : List V) → n ≤ length row → SplitAt n row
  cut_enough zero row e = ([], row, refl, record { is_row = refl }, omega arith)
  cut_enough (suc n) [] e = absurd (omega (arith, e))
  cut_enough (suc n) (x ∷ row) e =
      let (a, rest, eq, is, size) = cut_enough n row (omega (arith, e)) in
      (x ∷ a, rest, rw eq refl, record { is_row = omega (arith, is.is_row) }, omega (arith, size))

  -- the rows of the slots have `n` elements
  pub record AreSlots (n : ℕ) (s : SlotRows V) : Type 0 where
    pub m_row : IsRow n s.m
    pub v_row : IsRow n s.v
    pub linear_row : IsRow n s.linear
    pub vhat_row : IsRow n s.vhat
    pub vamsgrad_row : IsRow n s.vamsgrad

  unpack_slots_lem :
      (n : ℕ) (row : List V)
      → 5 * n ≤ length row
      → (s : SlotRows V) × (unpack_slots n row ≡ some s)
        × AreSlots n s
        × (5 * n + length s.behind ≡ length row)
  unfolding unpack_slots unpack
  unpack_slots_lem n row e =
      let (a, ra, ea, ia, sa) = cut_enough n row (omega (arith, e)) in
      let (b, rb, eb, ib, sb) = cut_enough n ra (omega (arith, e, sa)) in
      let (c, rc, ec, ic, sc) = cut_enough n rb (omega (arith, e, sa, sb)) in
      let (d, rd, ed, id, sd) = cut_enough n rc (omega (arith, e, sa, sb, sc)) in
      let (f, rf, ef, if', sf) = cut_enough n rd (omega (arith, e, sa, sb, sc, sd)) in
      (
        record { m = a; v = b; linear = c; vhat = d; vamsgrad = f; behind = rf },
        rw (ea, eb, ec, ed, ef) refl,
        record { m_row = ia; v_row = ib; linear_row = ic; vhat_row = id; vamsgrad_row = if' },
        omega (arith, sa, sb, sc, sd, sf),
      )

module _ {V : Type 0} (r : Scalars V) (rates : Rates V) (inner n : ℕ) where
  ruleset stepped = (proximal_rows, zip-IsRow, map-IsRow, if-IsRow)

  -- the three rows of `rectify`
  abbrev Rectified : List V × (List V × List V) → Type 0
  Rectified (a, (b, c)) = IsRow n a × IsRow n b × IsRow n c

  if-Rectified :
      (b : Bool) (x y : List V × (List V × List V))
      → Rectified x
      → Rectified y
      → Rectified (if b then x else y)
  if-Rectified true x y a b = a
  if-Rectified false x y a b = b

  rectify_rows :
      (q : Rectification V) (m new_v vamsgrad : List V)
      → IsRow n m
      → IsRow n new_v
      → IsRow n vamsgrad
      → Rectified (rectify r rates inner q m new_v vamsgrad)
  unfolding rectify
  rectify_rows q m new_v vamsgrad a b c =
      if-Rectified q.tractable _ _
        (if-Rectified q.amsgrad _ _ (search stepped depth 16) (search stepped depth 16))
        (search stepped depth 16)

  corrected_m-IsRow :
      (grad m : List V) → IsRow n grad → IsRow n m → IsRow n (corrected_m r rates inner grad m)
  unfolding corrected_m
  corrected_m-IsRow grad m a b = search stepped depth 16

  rectified_step_rows :
      (q : Rectification V) (grad var : List V) (s : SlotRows V)
      → IsRow n grad
      → IsRow n var
      → AreSlots n s
      → let (actions, s') = rectified_step r rates inner q grad var s in
        WritesAll n actions × AreSlots n s' × (s'.behind ≡ s.behind)
  unfolding rectified_step
  rectified_step_rows q grad var s a b c =
      let m_rows = corrected_m-IsRow grad s.m a c.m_row in
      let v_row = c.v_row in
      let linear_row = c.linear_row in
      let vhat_row = c.vhat_row in
      let new_v : IsRow n _ =
        zip-IsRow _ _ _ n (map-IsRow _ s.v n v_row) (map-IsRow _ _ n (map-IsRow _ grad n a)) in
      let (x, y, z) = rectify_rows q _ _ s.vamsgrad m_rows new_v c.vamsgrad_row in
      let linear' : IsRow n _ =
        zip-IsRow _ s.linear _ n linear_row
          (zip-IsRow _ _ _ n x (zip-IsRow _ _ var n (zip-IsRow _ _ s.vhat n y vhat_row) b)) in
      (
        proximal_rows r rates inner n _ _ linear' (map-IsRow _ _ n y),
        record {
          m_row = m_rows;
          v_row = new_v;
          linear_row = linear';
          vhat_row = y;
          vamsgrad_row = z;
        },
        refl,
      )

  length-pack_slots :
      (s : SlotRows V) → AreSlots n s → length (pack_slots s) ≡ 5 * n + length s.behind
  length-pack_slots s a =
      let m = a.m_row in
      let v = a.v_row in
      let linear = a.linear_row in
      let vhat = a.vhat_row in
      let vamsgrad = a.vamsgrad_row in
      omega (
        arith,
        m.is_row,
        v.is_row,
        linear.is_row,
        vhat.is_row,
        vamsgrad.is_row,
        length-append s.m (s.v ++ (s.linear ++ (s.vhat ++ (s.vamsgrad ++ s.behind)))),
        length-append s.v (s.linear ++ (s.vhat ++ (s.vamsgrad ++ s.behind))),
        length-append s.linear (s.vhat ++ (s.vamsgrad ++ s.behind)),
        length-append s.vhat (s.vamsgrad ++ s.behind),
        length-append s.vamsgrad s.behind,
      )

  -- On a slot row of at least five times the elements of the gradient and of the trained row, the
  -- rectified Adam writes only rows of that size to the trained table, and one slot row, as long as
  -- it was.
  pub rectified_adam_lem :
      (q : Rectification V) (grad var row : List V)
      → IsRow n grad
      → IsRow n var
      → 5 * n ≤ length row
      → (actions : List (Action V)) × (row' : List V) × (rectified_adam r rates inner q n grad var
            (row ∷ [])
          ≡ some (actions, (assign row' ∷ cover ∷ []) ∷ []))
        × WritesAll n actions
        × (length row' ≡ length row)
  unfolding rectified_adam
  rectified_adam_lem q grad var row a b e =
      let (s, eq, are, size) = unpack_slots_lem n row e in
      let (writes, are', same) = rectified_step_rows q grad var s a b are in
      let (actions, s') = rectified_step r rates inner q grad var s in
      (
        actions,
        pack_slots s',
        rw eq refl,
        writes,
        omega (arith, length-pack_slots s' are', ap length same, size),
      )

check_opt_dim_size_refl : (shape : List ℕ) → check_opt_dim_size shape shape ≡ true
unfolding check_opt_dim_size
check_opt_dim_size_refl [] = refl
check_opt_dim_size_refl (d ∷ shape) = ground (arith, check_opt_dim_size_refl shape, ==_refl d)

-- The shape check of the rectified Adam lets a slot table of the trained table's own shape pass, and
-- on a slot row that is as long as the trained one, and not empty, the operation then reads beyond
-- the end.
pub check_opt_dim_size-rectified_adam :
    {V : Type 0} (r : Scalars V) (rates : Rates V) (inner_dim : ℕ) (q : Rectification V)
    (shape : List ℕ) (dim : ℕ) (grad var row : List V)
    → length row ≡ dim
    → 0 < dim
    → (check_opt_dim_size shape shape ≡ true)
      × (rectified_adam r rates inner_dim q dim grad var (row ∷ []) ≡ none)
unfolding rectified_adam unpack_slots
check_opt_dim_size-rectified_adam r rates inner_dim q shape dim grad var row e pos =
    (check_opt_dim_size_refl shape, rw (unpack_short dim row e pos) refl)
