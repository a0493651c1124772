-- ===== src/Lock/Guards.antt =====
-- The guards of mutex.h give back what they have taken, once.
use tfplus.Common.{
  ℕ, zero, suc, ◌≡◌, refl, Bool, true, false, Option, some, arith, inl, inr, Option-cases,
}
use tfplus.Lock.{
  RwMutex, Guard, scoped, scoped_try, destroy, destroy_all, moves, mutex_lock, mutex_try_lock,
  shared_lock, shared_try_lock,
}

module _ {L : Type 0} (release : L → Option L) where
  destroy-moves :
      (n : ℕ) (g : Guard) (l l' : L)
      → destroy release g l' ≡ some l
      → destroy_all release (moves n g) l' ≡ some l
  unfolding moves destroy_all destroy
  destroy-moves zero g l l' e = ground (arith, e)
  destroy-moves (suc n) g l l' e = destroy-moves n g l l' e

module _ {L : Type 0} (acquire release : L → Option L)
    (back : (l l' : L) → acquire l ≡ some l' → release l' ≡ some l) where
  scoped_back :
      (lockable : Bool) (l l' : L) (g : Guard)
      → scoped acquire lockable l ≡ some (g, l')
      → destroy release g l' ≡ some l
  unfolding scoped destroy
  scoped_back true l l' g e = elim (Option-cases (acquire l)) [
    | inl waits ↦ ground (arith, waits)
    | inr (l₁, taken) ↦ ground (arith, back l l₁ taken, taken)
  ]
  scoped_back false l l' g e = ground arith

  try_back :
      (lockable : Bool) (l : L)
      → destroy release (scoped_try acquire lockable l).0 (scoped_try acquire lockable l).1 ≡ some l
  unfolding scoped_try destroy
  try_back true l = elim (Option-cases (acquire l)) [
    | inl fails ↦ rw fails refl
    | inr (l₁, taken) ↦ rw taken (back l l₁ taken)
  ]
  try_back false l = refl

-- A guard of any of the four kinds, waiting or trying, gives the mutex back as it was: after any
-- number of moves, the ends of all the guards release what was taken once, and nothing that was not.
pub guards_lem :
    {L : Type 0} (mutex : RwMutex L) (n : ℕ) (lockable : Bool) (l : L)
    → ((g : Guard) (l' : L)
        → mutex_lock mutex lockable l ≡ some (g, l')
        → destroy_all mutex.unlock (moves n g) l' ≡ some l)
      × ((g : Guard) (l' : L)
          → shared_lock mutex lockable l ≡ some (g, l')
          → destroy_all mutex.unlock_shared (moves n g) l' ≡ some l)
      × (destroy_all mutex.unlock
            (moves n (mutex_try_lock mutex lockable l).0)
            (mutex_try_lock mutex lockable l).1
          ≡ some l)
      × (destroy_all mutex.unlock_shared
            (moves n (shared_try_lock mutex lockable l).0)
            (shared_try_lock mutex lockable l).1
          ≡ some l)
unfolding mutex_lock shared_lock mutex_try_lock shared_try_lock
guards_lem mutex n lockable l = (
  λ g l' e.
      destroy-moves mutex.unlock n g l l'
        (scoped_back mutex.lock mutex.unlock mutex.unlock-lock lockable l l' g e),
  λ g l' e. destroy-moves mutex.unlock_shared n g l l' (
      scoped_back mutex.lock_shared mutex.unlock_shared mutex.unlock-lock_shared lockable l l' g e),
  destroy-moves mutex.unlock n _ l _
      (try_back mutex.try_lock mutex.unlock mutex.unlock-try_lock lockable l),
  destroy-moves mutex.unlock_shared n _ l _
      (try_back mutex.try_lock_shared mutex.unlock_shared mutex.unlock-try_lock_shared lockable l),
)
