-- ===== src/HashMap/Bucket.antt =====
-- `std::unordered_map` of hashmap.h as an association list: a key occurs at most once, and the
-- order of the list is the order of iteration.
use tfplus.Common.{
  ℕ, ◌+◌, ◌≡◌, refl, ◌∙◌, true, Option, none, some, List, [], ◌∷◌, ◌++◌, arith, ◌==◌, if◌then◌else◌,
  length, is_some, to_nat,
}

module _ {E : Type 0} where
  -- `map.find(key)`, and `it->second`
  abbrev pub lookup : ℕ → List (ℕ × E) → Option E
  lookup k [] = none
  lookup k ((j, e) ∷ c) = if j == k then some e else lookup k c

  -- `map[key] = std::move(val)`
  unfoldable pub assign : ℕ → E → List (ℕ × E) → List (ℕ × E)
  assign k e [] = (k, e) ∷ []
  assign k e ((j, d) ∷ c) = if j == k then (j, e) ∷ c else (j, d) ∷ assign k e c

  -- `map.erase(key)`
  unfoldable pub remove : ℕ → List (ℕ × E) → List (ℕ × E)
  remove k [] = []
  remove k ((j, d) ∷ c) = let rest = remove k c in if j == k then rest else (j, d) ∷ rest

  abbrev pub IsDistinct : List (ℕ × E) → Type 0
  IsDistinct [] = Unit
  IsDistinct ((j, e) ∷ c) = (lookup j c ≡ none) × IsDistinct c

  pub lookup-assign :
      (q k : ℕ) (e : E) (c : List (ℕ × E))
      → lookup q (assign k e c) ≡ (if q == k then some e else lookup q c)
  unfolding assign
  lookup-assign q k e [] = ground arith
  lookup-assign q k e ((j, d) ∷ c) = ground (arith, lookup-assign q k e c)

  pub lookup-remove :
      (q k : ℕ) (c : List (ℕ × E)) → lookup q (remove k c) ≡ (if q == k then none else lookup q c)
  unfolding remove
  lookup-remove q k [] = ground arith
  lookup-remove q k ((j, d) ∷ c) = ground (arith, lookup-remove q k c)

  pub assign-IsDistinct :
      (k : ℕ) (e : E) (c : List (ℕ × E)) → IsDistinct c → IsDistinct (assign k e c)
  unfolding assign
  assign-IsDistinct k e [] h = (refl, tt)
  assign-IsDistinct k e ((j, d) ∷ c) h =
      ground (arith, lookup-assign j k e c, assign-IsDistinct k e c h.1)

  pub remove-IsDistinct : (k : ℕ) (c : List (ℕ × E)) → IsDistinct c → IsDistinct (remove k c)
  unfolding remove
  remove-IsDistinct k [] h = tt
  remove-IsDistinct k ((j, d) ∷ c) h =
      ground (arith, lookup-remove j k c, remove-IsDistinct k c h.1)

  pub lookup-append_none :
      (q : ℕ) (a b : List (ℕ × E)) → lookup q a ≡ none → lookup q (a ++ b) ≡ lookup q b
  lookup-append_none q [] b h = refl
  lookup-append_none q ((j, d) ∷ a) b h = ground (arith, lookup-append_none q a b)

  pub lookup-append_left :
      (q : ℕ) (a b : List (ℕ × E)) → lookup q b ≡ none → lookup q (a ++ b) ≡ lookup q a
  lookup-append_left q [] b h = h
  lookup-append_left q ((j, d) ∷ a) b h = ground (arith, lookup-append_left q a b)

  -- Two lists of distinct keys that share no key.
  pub append-IsDistinct :
      (a b : List (ℕ × E))
      → IsDistinct a
      → IsDistinct b
      → ((q : ℕ) → is_some (lookup q a) ≡ true → lookup q b ≡ none)
      → IsDistinct (a ++ b)
  append-IsDistinct [] b ha hb apart = hb
  append-IsDistinct ((j, d) ∷ a) b ha hb apart = (
    lookup-append_left j a b (apart j (ground arith)) ∙ ha.0,
    append-IsDistinct a b ha.1 hb (λ q h. apart q (ground arith)),
  )

  -- Assignment adds an entry just where the key was absent; erasure removes just the key's entry.
  pub length-assign :
      (k : ℕ) (e : E) (c : List (ℕ × E))
      → length (assign k e c) + to_nat (is_some (lookup k c)) ≡ length c + 1
  unfolding assign
  length-assign k e [] = refl
  length-assign k e ((j, d) ∷ c) = ground (arith, length-assign k e c)
