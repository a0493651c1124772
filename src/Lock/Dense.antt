-- ===== src/Lock/Dense.antt =====
-- `class ConcurrentDenseHashMap` of hashmap.h, as far as its locks go: an array of segments, each with
-- a mutex and a map of a third party, which is any map that keeps the contract of `IMap`.
use tfplus.Common.{
  ℕ, ◌≡◌, refl, ap, ◌∙◌, inl, inr, Option-cases, true, Option, none, some, arith, ◌==◌,
  if◌then◌else◌, ==_refl,
}
use tfplus.Memory.{◌>>=◌}
use tfplus.HashMap.{IMap}
use tfplus.Lock.{RwMutex, scoped, destroy, mutex_lock, shared_lock}

pub record Segment (L T : Type 0) : Type 0 where
  pub mu : L
  pub map : T

module _ {E T L : Type 0} (m : IMap E T) (mutex : RwMutex L) (hash_id : ℕ → ℕ) where
  abbrev pub Segments : Type 0
  Segments = ℕ → Segment L T

  abbrev pub with_segment : ℕ → Segment L T → Segments → Segments
  with_segment i s t j = if j == i then s else t j

  -- `none` is a wait for the lock
  unfoldable pub find_or_null : ℕ → Segments → Option (Option E × Segments)
  unfolding shared_lock destroy
  find_or_null key t = do
    let s = t (hash_id key)
    (r_lock, l) ← shared_lock mutex true s.mu
    let found = m.find_or_null key s.map
    l' ← destroy mutex.unlock_shared r_lock l
    some (found, with_segment (hash_id key) (record s { mu = l' }) t)

  unfoldable pub insert_or_assign_unsafe : ℕ → E → Segments → Option (Option E × Segments)
  unfolding find_or_null
  insert_or_assign_unsafe key val t =
      let s = t (hash_id key) in
      find_or_null key
        (with_segment (hash_id key) (record s { map = m.insert_or_assign key val s.map }) t)

  unfoldable pub insert_or_assign : ℕ → E → Segments → Option Segments
  unfolding mutex_lock destroy
  insert_or_assign key val t = do
    let s = t (hash_id key)
    (w_lock, l) ← mutex_lock mutex true s.mu
    l' ← destroy mutex.unlock w_lock l
    some (with_segment (hash_id key) (record { mu = l'; map = m.insert_or_assign key val s.map }) t)

  -- `GetScopedKeyLock` for writing
  unfoldable pub lock_key : ℕ → Segments → Option Segments
  lock_key key t = do
    l ← mutex.lock (t (hash_id key)).mu
    some (with_segment (hash_id key) (record (t (hash_id key)) { mu = l }) t)

  at_self : (i : ℕ) (s : Segment L T) (t : Segments) → with_segment i s t i ≡ s
  at_self i s t = rw (==_refl i) refl

  find_or_null_waits :
      (key : ℕ) (t : Segments)
      → mutex.lock_shared (t (hash_id key)).mu ≡ none
      → find_or_null key t ≡ none
  unfolding find_or_null shared_lock scoped destroy
  find_or_null_waits key t waits = ground (arith, waits)

  find_or_null_free :
      (key : ℕ) (t : Segments) (l' : L)
      → mutex.lock_shared (t (hash_id key)).mu ≡ some l'
      → (t' : Segments) × (find_or_null key t ≡ some (m.find_or_null key (t (hash_id key)).map, t'))
        × ((t' (hash_id key)).mu ≡ (t (hash_id key)).mu)
  unfolding find_or_null shared_lock scoped destroy
  find_or_null_free key t l' free =
      let s = t (hash_id key) in
      (
        with_segment (hash_id key) s t,
        ground (arith, free, mutex.unlock-lock_shared s.mu l' free),
        ap (λ x. x.mu) (at_self (hash_id key) s t),
      )

  unsafe_waits :
      (key : ℕ) (val : E) (t : Segments) (l : L)
      → (t (hash_id key)).mu ≡ l
      → mutex.lock_shared l ≡ none
      → insert_or_assign_unsafe key val t ≡ none
  unfolding insert_or_assign_unsafe
  unsafe_waits key val t l held waits =
      let s : Segment L T = record (t (hash_id key)) {
        map = m.insert_or_assign key val (t (hash_id key)).map;
      } in
      find_or_null_waits key (with_segment (hash_id key) s t) (
        ap (λ x. mutex.lock_shared x.mu) (at_self (hash_id key) s t)
        ∙ ap mutex.lock_shared held
        ∙ waits)

  lock_key_held :
      (key : ℕ) (t t' : Segments)
      → lock_key key t ≡ some t'
      → (l : L) × (mutex.lock (t (hash_id key)).mu ≡ some l) × ((t' (hash_id key)).mu ≡ l)
  unfolding lock_key
  lock_key_held key t t' locked = elim (Option-cases (mutex.lock (t (hash_id key)).mu)) [
    | inl waits ↦ ground (arith, waits)
    | inr (l, taken) ↦ (l, taken, ground (arith, taken, ==_refl (hash_id key)))
  ]

  -- Under the write lock of its key, as the table manager calls it, `InsertOrAssignUnsafe` waits for
  -- the lock that its own thread holds. Where no writer holds the lock it returns the value that it
  -- stored and leaves the lock as it was.
  pub insert_or_assign_unsafe_lem :
      (key : ℕ) (val : E) (t : Segments)
      → ((t' : Segments) → lock_key key t ≡ some t' → insert_or_assign_unsafe key val t' ≡ none)
        × ((l' : L)
            → m.IsValid (t (hash_id key)).map
            → mutex.lock_shared (t (hash_id key)).mu ≡ some l'
            → (t' : Segments) × (insert_or_assign_unsafe key val t ≡ some (some val, t'))
              × ((t' (hash_id key)).mu ≡ (t (hash_id key)).mu))
  unfolding insert_or_assign_unsafe
  insert_or_assign_unsafe_lem key val t = (
    λ t' locked.
        let (l, taken, held) = lock_key_held key t t' locked in
        unsafe_waits key val t' l held (mutex.lock_shared-lock _ l taken),
    λ l' valid free.
        let s = t (hash_id key) in
        let s' : Segment L T = record s { map = m.insert_or_assign key val s.map } in
        let t₁ = with_segment (hash_id key) s' t in
        let (t', run, same) =
          find_or_null_free key t₁ l'
            (ap (λ x. mutex.lock_shared x.mu) (at_self (hash_id key) s' t) ∙ free) in
        let found : m.find_or_null key (t₁ (hash_id key)).map ≡ some val =
          ap (λ x. m.find_or_null key x.map) (at_self (hash_id key) s' t)
          ∙ m.find-insert key key val s.map valid
          ∙ rw (==_refl key) in
        (
          t',
          run ∙ ap (λ x. some (x, t')) found,
          same ∙ ap (λ x. x.mu) (at_self (hash_id key) s' t),
        ),
  )
