-- ===== src/HashMap/Segmented/Placement.antt =====
-- Every key stands in the segment of its hash: what that says of the whole array, and that the
-- writes of hashmap.h to one segment keep it.
use tfplus.Common.{
  ℕ, zero, suc, ◌+◌, ◌<◌, ◌≡◌, refl, ◌∙◌, true, none, List, [], ◌∷◌, arith, is_some, length, get_or,
  set, replicate, length-append,
}
use tfplus.HashMap.Bucket.{
  lookup, IsDistinct, lookup-append_none, lookup-append_left, append-IsDistinct,
}
use tfplus.HashMap.Segmented.{SegmentedMap, for_each, total_size, clear}

module _ {E : Type 0} (home : ℕ → ℕ) where
  -- the segments from the `i`-th on hold distinct keys, each one at home
  abbrev pub IsPlaced : ℕ → SegmentedMap E → Type 0
  IsPlaced i [] = Unit {0}
  IsPlaced i (c ∷ cs) =
      IsDistinct c × ((q : ℕ) → is_some (lookup q c) ≡ true → home q ≡ i) × IsPlaced (suc i) cs

  -- a key at home before the `i`-th segment is in none of them
  absent : (i q : ℕ) (t : SegmentedMap E) → IsPlaced i t → home q < i → lookup q (for_each t) ≡ none
  unfolding for_each
  absent i q [] h lt = refl
  absent i q (c ∷ cs) h lt =
      let here : lookup q c ≡ none = ground (arith, h.1 q) in
      lookup-append_none q c (for_each cs) here ∙ absent (suc i) q cs h.2 (omega arith)

  pub lookup-for_each :
      (i j q : ℕ) (t : SegmentedMap E)
      → IsPlaced i t
      → home q ≡ i + j
      → lookup q (for_each t) ≡ lookup q (get_or t j [])
  unfolding for_each
  lookup-for_each i j q [] h e = refl
  lookup-for_each i zero q (c ∷ cs) h e =
      lookup-append_left q c (for_each cs) (absent (suc i) q cs h.2 (omega arith))
  lookup-for_each i (suc j) q (c ∷ cs) h e =
      let away : lookup q c ≡ none = ground (arith, h.1 q) in
      lookup-append_none q c (for_each cs) away ∙ lookup-for_each (suc i) j q cs h.2 (omega arith)

  pub for_each-IsDistinct : (i : ℕ) (t : SegmentedMap E) → IsPlaced i t → IsDistinct (for_each t)
  unfolding for_each
  for_each-IsDistinct i [] h = tt
  for_each-IsDistinct i (c ∷ cs) h =
      append-IsDistinct c (for_each cs) h.0 (for_each-IsDistinct (suc i) cs h.2)
        (λ q found. absent (suc i) q cs h.2 (omega (arith, h.1 q found)))

  -- the new contents of the `j`-th segment are distinct, and at home there
  pub set-IsPlaced :
      (i j : ℕ) (c' : List (ℕ × E)) (t : SegmentedMap E)
      → IsPlaced i t
      → IsDistinct c'
      → ((q : ℕ) → is_some (lookup q c') ≡ true → home q ≡ i + j)
      → IsPlaced i (set t j c')
  set-IsPlaced i j c' [] h d own = tt
  set-IsPlaced i zero c' (c ∷ cs) h d own = (d, λ q f. omega (arith, own q f), h.2)
  set-IsPlaced i (suc j) c' (c ∷ cs) h d own =
      (h.0, h.1, set-IsPlaced (suc i) j c' cs h.2 d (λ q f. omega (arith, own q f)))

  pub get_or-IsPlaced :
      (i j q : ℕ) (t : SegmentedMap E)
      → IsPlaced i t
      → IsDistinct (get_or t j []) × (is_some (lookup q (get_or t j [])) ≡ true → home q ≡ i + j)
  get_or-IsPlaced i j q [] h = (tt, λ f. cc)
  get_or-IsPlaced i zero q (c ∷ cs) h = (h.0, λ f. omega (arith, h.1 q f))
  get_or-IsPlaced i (suc j) q (c ∷ cs) h =
      let r = get_or-IsPlaced (suc i) j q cs h.2 in (r.0, λ f. omega (arith, r.1 f))

  pub clear-IsPlaced : (i : ℕ) (t : SegmentedMap E) → IsPlaced i (clear t)
  unfolding clear
  clear-IsPlaced i [] = tt
  clear-IsPlaced i (c ∷ cs) = (tt, λ q f. cc, clear-IsPlaced (suc i) cs)

module _ (E : Type 0) (home : ℕ → ℕ) where
  pub replicate-IsPlaced : (i n : ℕ) → IsPlaced {E = E} home i (replicate n [])
  replicate-IsPlaced i zero = tt
  replicate-IsPlaced i (suc n) = (tt, λ q f. cc, replicate-IsPlaced (suc i) n)

module _ {E : Type 0} where
  pub total_size-for_each : (t : SegmentedMap E) → total_size t ≡ length (for_each t)
  unfolding total_size for_each
  total_size-for_each [] = refl
  total_size-for_each (c ∷ cs) =
      omega (arith, length-append c (for_each cs), total_size-for_each cs)

  pub length-clear : (t : SegmentedMap E) → length (clear t) ≡ length t
  unfolding clear
  length-clear [] = refl
  length-clear (c ∷ cs) = omega (arith, length-clear cs)

  pub for_each-clear : (t : SegmentedMap E) → for_each (clear t) ≡ []
  unfolding clear for_each
  for_each-clear [] = refl
  for_each-clear (c ∷ cs) = for_each-clear cs
