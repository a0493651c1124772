-- ===== src/Variable/Export/Wanted.antt =====
-- What the export of dynamic_save.hpp is to write, as lists that one reads off the entries of the
-- table, and the counts of its first pass.
use tfplus.Common.{
  ℕ, suc, ◌+◌, ◌≤◌, ◌≡◌, refl, ap, Bool, true, false, Option, some, List, [], ◌∷◌, ◌++◌, arith,
  ◌&&◌, not, if◌then◌else◌, length, Bool-cases, inl, inr,
}
use tfplus.Utility.{get_uint16_from_uint32}
use tfplus.Memory.{Heap, load_row}
use tfplus.Embedding.Value.{EmbeddingValue}
use tfplus.Variable.Export.{Entry, is_wanted, counting_iter, output_value}

pub snoc-append :
    {A : Type 0} (xs : List A) (x : A) (ys : List A) → (xs ++ (x ∷ [])) ++ ys ≡ xs ++ (x ∷ ys)
snoc-append [] x ys = refl
snoc-append (y ∷ xs) x ys = ap (λ l. y ∷ l) (snoc-append xs x ys)

pub append-nil : {A : Type 0} (xs : List A) → xs ++ [] ≡ xs
append-nil [] = refl
append-nil (y ∷ xs) = ap (λ l. y ∷ l) (append-nil xs)

-- the keys and the rows outside the blacklist that both passes want
abbrev pub wanted_keys : (enter_threshold first_n : ℕ) → List Entry → List ℕ
wanted_keys thr n [] = []
wanted_keys thr n ((k, v) ∷ rest) =
    let later = wanted_keys thr n rest in
    if not v.in_black && is_wanted thr n v then k ∷ later else later

abbrev pub wanted_rows :
    {V : Type 0} → (enter_threshold first_n : ℕ) → Heap V → List Entry → List (Option (List V))
wanted_rows thr n h [] = []
wanted_rows thr n h ((k, v) ∷ rest) =
    let later = wanted_rows thr n h rest in
    if not v.in_black && is_wanted thr n v then load_row v.embedding_val h ∷ later else later

abbrev pub black_keys : List Entry → List ℕ
black_keys [] = []
black_keys ((k, v) ∷ rest) = let later = black_keys rest in if v.in_black then k ∷ later else later

abbrev pub all_keys : List Entry → List ℕ
all_keys [] = []
all_keys ((k, v) ∷ rest) = k ∷ all_keys rest

abbrev pub frequency : Bool → EmbeddingValue → ℕ
frequency wide v = if wide then v.freq_val else get_uint16_from_uint32 v.freq_val true

abbrev pub frequencies : Bool → List Entry → List ℕ
frequencies wide [] = []
frequencies wide ((k, v) ∷ rest) = frequency wide v ∷ frequencies wide rest

pub counting_iter_lem :
    (thr n : ℕ) (es : List Entry) (a b : ℕ)
    → counting_iter thr n es (a, b)
      ≡ (a + length (wanted_keys thr n es), b + length (black_keys es))
unfolding counting_iter
counting_iter_lem thr n [] a b = ground arith
counting_iter_lem thr n ((k, v) ∷ es) a b = elim (Bool-cases v.in_black) [
  | inl black ↦ rw (black) (ground (arith, counting_iter_lem thr n es a (suc b)))
  | inr shown ↦ elim (Bool-cases (is_wanted thr n v)) [
    | inl w ↦ rw (w, shown) (ground (arith, counting_iter_lem thr n es (suc a) b))
    | inr u ↦ rw (u, shown) (counting_iter_lem thr n es a b)
  ]
]

-- what the records must be: outside the blacklist they can be read; in it, without its own
-- tensor, they are under the threshold
abbrev pub Ready : {V : Type 0} → (first_n : ℕ) → Heap V → List Entry → Type 0
Ready n h [] = Unit
Ready n h ((k, v) ∷ rest) =
    ((v.in_black ≡ false → output_value h v ≡ some (load_row v.embedding_val h))
      × (n ≤ 3 → v.in_black ≡ true → v.under_threshold ≡ true))
    × Ready n h rest
