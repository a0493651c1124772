-- ===== src/HashMap.antt =====
-- tfplus/kv_variable/kernels/hashmap.h. `IMap` is the interface that the table manager calls, with
-- the contract that its implementations keep; the keys are `int64`, as bit patterns.
pub mod Bucket
pub mod Unordered
pub mod Segmented
pub mod MultiLevel
pub mod Factory
use tfplus.Common.{ℕ, ◌≡◌, Option, none, List, [], ◌==◌, if◌then◌else◌, length}
use tfplus.Common.{some}
use Bucket.{lookup, IsDistinct}

-- The operations of `class IMap` on maps `T` with values `E`. A `V*` that a find returned is
-- written through by `insert_or_assign` at its key. `IsValid` is what every operation keeps.
pub record IMap (E T : Type 0) : Type 1 where
  pub empty : T
  pub find_or_null : ℕ → T → Option E
  pub insert_or_assign : ℕ → E → T → T
  pub erase : ℕ → T → T
  pub clear : T → T
  pub size : T → ℕ
  -- the order in which `ForEach` calls its function
  pub entries : T → List (ℕ × E)
  pub IsValid : T → Type 0
  pub empty-IsValid : IsValid empty
  pub insert-IsValid : (k : ℕ) (e : E) (t : T) → IsValid t → IsValid (insert_or_assign k e t)
  pub erase-IsValid : (k : ℕ) (t : T) → IsValid t → IsValid (erase k t)
  pub clear-IsValid : (t : T) → IsValid t → IsValid (clear t)
  pub find-empty : (q : ℕ) → find_or_null q empty ≡ none
  pub find-insert :
      (q k : ℕ) (e : E) (t : T)
      → IsValid t
      → find_or_null q (insert_or_assign k e t) ≡ (if q == k then some e else find_or_null q t)
  pub find-erase :
      (q k : ℕ) (t : T)
      → IsValid t
      → find_or_null q (erase k t) ≡ (if q == k then none else find_or_null q t)
  pub entries-clear : (t : T) → IsValid t → entries (clear t) ≡ []
  pub find-entries : (q : ℕ) (t : T) → IsValid t → lookup q (entries t) ≡ find_or_null q t
  pub entries-IsDistinct : (t : T) → IsValid t → IsDistinct (entries t)
  pub size-entries : (t : T) → IsValid t → size t ≡ length (entries t)
