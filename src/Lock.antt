-- ===== src/Lock.antt =====
-- tfplus/kv_variable/kernels/mutex.h: guards over the mutexes of TensorFlow and TBB. A guard holds a
-- pointer to its mutex, or null, and whether it is to lock at all; a guard that is moved from keeps
-- nothing. The mutexes are parameters.
pub mod Guards
pub mod Dense
use tfplus.Common.{
  ℕ, zero, suc, ◌≡◌, Bool, true, false, Option, none, some, List, [], ◌∷◌, ◌&&◌, if◌then◌else◌,
}

-- The states `L` of a mutex, with what its documentation says of it. `none` of a lock is that the
-- call waits, and of a try that it returns false.
pub record RwMutex (L : Type 0) : Type 0 where
  pub lock : L → Option L
  pub lock_shared : L → Option L
  pub try_lock : L → Option L
  pub try_lock_shared : L → Option L
  pub unlock : L → Option L
  pub unlock_shared : L → Option L
  pub unlock-lock : (l l' : L) → lock l ≡ some l' → unlock l' ≡ some l
  pub unlock-lock_shared : (l l' : L) → lock_shared l ≡ some l' → unlock_shared l' ≡ some l
  pub unlock-try_lock : (l l' : L) → try_lock l ≡ some l' → unlock l' ≡ some l
  pub unlock-try_lock_shared : (l l' : L) → try_lock_shared l ≡ some l' → unlock_shared l' ≡ some l
  -- a writer excludes readers and writers, its own thread's too
  pub lock-lock : (l l' : L) → lock l ≡ some l' → lock l' ≡ none
  pub lock_shared-lock : (l l' : L) → lock l ≡ some l' → lock_shared l' ≡ none

-- `mu` is that the pointer `mu_` is not null
pub record Guard : Type 0 where
  pub mu : Bool
  pub lockable : Bool

module _ {L : Type 0} (acquire : L → Option L) where
  -- the constructor that waits
  unfoldable pub scoped : (lockable : Bool) → L → Option (Guard × L)
  scoped lockable l =
      if lockable
      then elim (acquire l) [
        | none ↦ none
        | some l' ↦ some (record { mu = true; lockable = lockable }, l')
      ]
      else some (record { mu = true; lockable = lockable }, l)

  -- the constructor with `std::try_to_lock_t`
  unfoldable pub scoped_try : (lockable : Bool) → L → Guard × L
  scoped_try lockable l =
      if lockable
      then elim (acquire l) [
        | none ↦ (record { mu = false; lockable = lockable }, l)
        | some l' ↦ (record { mu = true; lockable = lockable }, l')
      ]
      else (record { mu = true; lockable = lockable }, l)

module _ {L : Type 0} (release : L → Option L) where
  unfoldable pub destroy : Guard → L → Option L
  destroy g l = if g.lockable && g.mu then release l else some l

  unfoldable pub destroy_all : List Guard → L → Option L
  unfolding destroy
  destroy_all [] l = some l
  destroy_all (g ∷ gs) l = elim (destroy g l) [ none ↦ none | some l' ↦ destroy_all gs l' ]

-- `operator bool`
unfoldable pub holds : Guard → Bool
holds g = g.lockable && g.mu

-- the move constructor: the new guard, and the one that was moved from
unfoldable pub move : Guard → Guard × Guard
move g = (g, record { mu = false; lockable = false })

-- a guard moved `n` times, with all that it was moved from
unfoldable pub moves : ℕ → Guard → List Guard
unfolding move
moves zero g = g ∷ []
moves (suc n) g = let (new, old) = move g in old ∷ moves n new

-- the four guards
module _ {L : Type 0} (mutex : RwMutex L) where
  open mutex use {lock, lock_shared, try_lock, try_lock_shared}

  unfoldable pub mutex_lock : Bool → L → Option (Guard × L)
  unfolding scoped
  mutex_lock = scoped lock

  unfoldable pub mutex_try_lock : Bool → L → Guard × L
  unfolding scoped_try
  mutex_try_lock = scoped_try try_lock

  unfoldable pub shared_lock : Bool → L → Option (Guard × L)
  unfolding scoped
  shared_lock = scoped lock_shared

  unfoldable pub shared_try_lock : Bool → L → Guard × L
  unfolding scoped_try
  shared_try_lock = scoped_try try_lock_shared
