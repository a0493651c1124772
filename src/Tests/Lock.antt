-- ===== src/Tests/Lock.antt =====
-- The theorems on the guards of mutex.h and the locks of hashmap.h at concrete inputs: a mutex that is
-- free, held by a writer, or held by some readers.
use tfplus.Common.{ℕ, zero, suc, ◌≡◌, ◌%◌, true, Option, none, some, [], arith}
use tfplus.HashMap.Unordered.{UnorderedMap, unordered_map}
use tfplus.Lock.{
  RwMutex, Guard, moves, destroy_all, mutex_lock, mutex_try_lock, shared_lock, shared_try_lock,
}
use tfplus.Lock.Guards.{guards_lem}
use tfplus.Lock.Dense.{Segment, lock_key, insert_or_assign_unsafe, insert_or_assign_unsafe_lem}

-- 0 is free, 1 is a writer, and n + 1 are n readers
abbrev lock : ℕ → Option ℕ
lock zero = some 1
lock (suc n) = none

abbrev lock_shared : ℕ → Option ℕ
lock_shared zero = some 2
lock_shared (suc zero) = none
lock_shared (suc (suc n)) = some (suc (suc (suc n)))

abbrev unlock : ℕ → Option ℕ
unlock (suc zero) = some 0
unlock _ = none

abbrev unlock_shared : ℕ → Option ℕ
unlock_shared (suc (suc zero)) = some 0
unlock_shared (suc (suc (suc n))) = some (suc (suc n))
unlock_shared _ = none

unlock-lock : (l l' : ℕ) → lock l ≡ some l' → unlock l' ≡ some l
unlock-lock zero l' e = ground arith
unlock-lock (suc l) l' e = cc

unlock-lock_shared : (l l' : ℕ) → lock_shared l ≡ some l' → unlock_shared l' ≡ some l
unlock-lock_shared zero l' e = ground arith
unlock-lock_shared (suc zero) l' e = cc
unlock-lock_shared (suc (suc l)) l' e = ground arith

lock-lock : (l l' : ℕ) → lock l ≡ some l' → lock l' ≡ none
lock-lock zero l' e = ground arith
lock-lock (suc l) l' e = cc

lock_shared-lock : (l l' : ℕ) → lock l ≡ some l' → lock_shared l' ≡ none
lock_shared-lock zero l' e = ground arith
lock_shared-lock (suc l) l' e = cc

abbrev mutex : RwMutex ℕ
mutex = record {
  lock = lock;
  lock_shared = lock_shared;
  try_lock = lock;
  try_lock_shared = lock_shared;
  unlock = unlock;
  unlock_shared = unlock_shared;
  unlock-lock = unlock-lock;
  unlock-lock_shared = unlock-lock_shared;
  unlock-try_lock = unlock-lock;
  unlock-try_lock_shared = unlock-lock_shared;
  lock-lock = lock-lock;
  lock_shared-lock = lock_shared-lock;
}

guards_example :
    ((g : Guard) (l' : ℕ)
      → mutex_lock mutex true 0 ≡ some (g, l')
      → destroy_all unlock (moves 2 g) l' ≡ some 0)
    × ((g : Guard) (l' : ℕ)
        → shared_lock mutex true 0 ≡ some (g, l')
        → destroy_all unlock_shared (moves 2 g) l' ≡ some 0)
    × (destroy_all unlock (moves 2 (mutex_try_lock mutex true 0).0) (mutex_try_lock mutex true 0).1
        ≡ some 0)
    × (destroy_all unlock_shared
          (moves 2 (shared_try_lock mutex true 0).0)
          (shared_try_lock mutex true 0).1
        ≡ some 0)
guards_example = guards_lem mutex 2 true 0

abbrev segments : ℕ → Segment ℕ (UnorderedMap ℕ)
segments i = record { mu = 0; map = [] }

insert_or_assign_unsafe_example :
    ((t' : ℕ → Segment ℕ (UnorderedMap ℕ))
      → lock_key unordered_map mutex (λ k. k % 1031) 5 segments ≡ some t'
      → insert_or_assign_unsafe unordered_map mutex (λ k. k % 1031) 5 9 t' ≡ none)
    × ((l' : ℕ)
        → (unordered_map {E = ℕ}).IsValid []
        → lock_shared 0 ≡ some l'
        → (t' : ℕ → Segment ℕ (UnorderedMap ℕ)) × (insert_or_assign_unsafe unordered_map mutex
              (λ k. k % 1031)
              5
              9
              segments
            ≡ some (some 9, t'))
          × ((t' 5).mu ≡ 0))
insert_or_assign_unsafe_example =
    insert_or_assign_unsafe_lem unordered_map mutex (λ k. k % 1031) 5 9 segments
