-- ===== src/Training/Locks/Cycles.antt =====
-- Operations of training_ops.cc that wait for the mutexes of each other.
use tfplus.Common.{ℕ, ◌<◌, ◌≡◌, Bool, true, List, [], ◌∷◌, ◌++◌, ◌||◌, ◌⊎◌, map}
use tfplus.Training.Locks.{Variables, any_resource, maybe_lock_in_order}
use tfplus.Training.Locks.Order.{up_from, mode_of}

-- An operation in `MaybeLockVariableInputMutexesInOrder` that holds the mutexes it has acquired
-- and waits for the next. Its inputs have mutexes that are not null and all different.
pub record Blocked (sort : (ℕ → ℕ → Bool) → List ℕ → List ℕ) : Type 0 where
  pub vars : Variables
  pub do_lock : Bool
  pub sparse : Bool
  pub inputs : ℕ
  pub locks : (do_lock || any_resource vars.is_resource (up_from 0 inputs)) ≡ true
  pub present : (x : ℕ) → x < inputs → 0 < vars.mutex_of x
  pub distinct : (x y : ℕ) → x < inputs → y < inputs → vars.mutex_of x ≡ vars.mutex_of y → x ≡ y
  pub held : List ℕ
  pub wanted : ℕ
  pub later : List ℕ
  pub order :
      maybe_lock_in_order vars sort do_lock (up_from 0 inputs) sparse
      ≡ map (λ a. (mode_of do_lock sparse, a)) (held ++ wanted ∷ later)

abbrev pub Among : ℕ → List ℕ → Type 0
Among a [] = ⊥
Among a (b ∷ bs) = (a ≡ b) ⊎ Among a bs

-- one operation waits for a mutex that the other holds, or for one that waits for the other
pub data WaitsFor (sort : (ℕ → ℕ → Bool) → List ℕ → List ℕ)
    : Blocked sort → Blocked sort → Type 0 where
  directly : {a b : Blocked sort} → Among a.wanted b.held → WaitsFor sort a b
  through : {a b c : Blocked sort} → WaitsFor sort a b → WaitsFor sort b c → WaitsFor sort a c
