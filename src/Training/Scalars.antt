-- ===== src/Training/Scalars.antt =====
-- The arithmetic of the training operations on scalars and on rows, which Eigen does element by
-- element. The operations on floating-point numbers are parameters.
use tfplus.Common.{ℕ, Bool, ◌||◌, List, [], ◌∷◌, Option, none, some, if◌then◌else◌, map}

pub record Scalars (V : Type 0) : Type 0 where
  pub zero_of : V
  pub one : V
  pub two : V
  pub add : V → V → V
  pub sub : V → V → V
  pub mul : V → V → V
  pub div : V → V → V
  pub neg : V → V
  pub sqrt : V → V
  pub rsqrt : V → V
  pub pow : V → V → V
  pub minus_half : V
  -- 1e-8
  pub tiny : V
  pub equal : V → V → Bool
  pub least : V → V → V
  pub most : V → V → V
  pub less : V → V → Bool
  -- `static_cast<T>(inner_dim)`
  pub of_size : ℕ → V

-- `>=` and `<=` on floating-point numbers, false on NaN
abbrev pub not_below_zero : {V : Type 0} → Scalars V → V → Bool
not_below_zero r x = r.less r.zero_of x || r.equal x r.zero_of

abbrev pub not_above_zero : {V : Type 0} → Scalars V → V → Bool
not_above_zero r x = r.less x r.zero_of || r.equal x r.zero_of

module _ {V : Type 0} where
  abbrev pub zip : (V → V → V) → List V → List V → List V
  zip f (x ∷ xs) (y ∷ ys) = f x y ∷ zip f xs ys
  zip f _ _ = []

  abbrev pub total : Scalars V → V → List V → V
  total r acc [] = acc
  total r acc (x ∷ xs) = total r (r.add acc x) xs

-- the expressions of the macros on rows
module _ {V : Type 0} (r : Scalars V) where
  abbrev pub plus : List V → List V → List V
  plus = zip r.add

  abbrev pub minus : List V → List V → List V
  minus = zip r.sub

  abbrev pub times : List V → List V → List V
  times = zip r.mul

  abbrev pub over : List V → List V → List V
  over = zip r.div

  abbrev pub larger : List V → List V → List V
  larger = zip r.most

  abbrev pub scaled : V → List V → List V
  scaled a = map (r.mul a)

  abbrev pub divided : List V → V → List V
  divided xs a = map (λ x. r.div x a) xs

  -- a row times a scalar on its right
  abbrev pub by : List V → V → List V
  by xs a = map (λ x. r.mul x a) xs

  -- a row plus a constant row
  abbrev pub shifted : List V → V → List V
  shifted xs a = map (λ x. r.add x a) xs

  abbrev pub square : List V → List V
  square = map (λ x. r.mul x x)

  abbrev pub roots : List V → List V
  roots = map r.sqrt

  abbrev pub constant : List V → V → List V
  constant xs a = map (λ _. a) xs

  -- `square().sum().sqrt()`
  abbrev pub norm : List V → V
  norm xs = r.sqrt (total r r.zero_of (square xs))

  -- `linear.cwiseMin(l1).cwiseMax(-l1) - linear`
  abbrev pub l1_shrink : V → List V → List V
  l1_shrink l1 linear = map (λ x. r.sub (r.most (r.least x l1) (r.neg l1)) x) linear

  -- The end of every macro: the row is scaled down by its norm, or it vanishes as a group (`none`),
  -- and the key goes to the blacklist.
  unfoldable pub group_shrink :
      (l21 : V) → (inner_dim : ℕ) → (l1_linear y : List V) → Option (List V)
  group_shrink l21 inner_dim l1_linear y =
      let l1_linear_norm = norm l1_linear in
      let l21_norm = r.mul l21 (r.sqrt (r.of_size inner_dim)) in
      if r.less l21_norm l1_linear_norm
      then some
          (over (map (λ x. r.mul x (r.sub r.one (r.div l21_norm l1_linear_norm))) l1_linear) y)
      else none
