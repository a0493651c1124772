-- ===== src/Training/Locks.antt =====
-- `MaybeLockVariableInputMutexesInOrder` (training_ops.cc): the mutexes that an operation acquires, in
-- their order. A mutex is its address, 0 for a null pointer. `std::sort` is a parameter.
pub mod Order
pub mod Duplicates
pub mod Cycles
use tfplus.Common.{
  ℕ, zero, suc, Bool, true, false, List, [], ◌∷◌, ◌++◌, ◌&&◌, ◌||◌, not, ◌==◌, ltb, if◌then◌else◌,
  length, get_or,
}

-- how a mutex is locked
pub data Mode : Type 0 where
  exclusive : Mode
  shared : Mode

-- what the context tells of its inputs: whether one is a resource, and the mutex that
-- `GetTrainingVariableMutex` finds
pub record Variables : Type 0 where
  pub is_resource : ℕ → Bool
  pub mutex_of : ℕ → ℕ

abbrev pub contains : ℕ → List ℕ → Bool
contains a [] = false
contains a (b ∷ bs) = (a == b) || contains a bs

abbrev pub any_resource : (ℕ → Bool) → List ℕ → Bool
any_resource f [] = false
any_resource f (i ∷ ids) = f i || any_resource f ids

module _ (vars : Variables) where
  -- the first loop: `mutexes`, and `acquire_order`, which has positions of it
  unfoldable pub collect : (input_ids mutexes acquire_order : List ℕ) → List ℕ × List ℕ
  collect [] mutexes order = (mutexes, order)
  collect (i ∷ ids) mutexes order =
      let skipped = collect ids mutexes order in
      let pushed = collect ids (mutexes ++ vars.mutex_of i ∷ []) (order ++ length mutexes ∷ []) in
      if contains (vars.mutex_of i) mutexes then skipped else pushed

  -- the last loop, which takes each position for the number of an input
  unfoldable pub acquire : Mode → (acquire_order : List ℕ) → List (Mode × ℕ)
  acquire mode [] = []
  acquire mode (input ∷ order) =
      let rest = acquire mode order in
      if vars.mutex_of input == 0 then rest else (mode, vars.mutex_of input) ∷ rest

  unfoldable pub maybe_lock_in_order :
      (sort : (ℕ → ℕ → Bool) → List ℕ → List ℕ)
      → (do_lock : Bool) → (input_ids : List ℕ) → (sparse : Bool) → List (Mode × ℕ)
  unfolding collect acquire
  maybe_lock_in_order sort do_lock input_ids sparse =
      let (mutexes, order) = collect input_ids [] [] in
      let by_address = λ (a b : ℕ). ltb (get_or mutexes a 0) (get_or mutexes b 0) in
      if not do_lock && not (any_resource vars.is_resource input_ids)
      then []
      else acquire (if not sparse || do_lock then exclusive else shared) (sort by_address order)
