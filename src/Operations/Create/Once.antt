-- ===== src/Operations/Create/Once.antt =====
-- The calls of `CreateKvVariableOp::Compute` (kv_variable_ops.cc) create one variable at most, and
-- return one handle.
use tfplus.Common.{
  ℕ, suc, Bool, ◌≡◌, ◌≢◌, ◌⊎◌, inl, inr, refl, sym, subst, ap, ◌∙◌, true, false, arith, ◌==◌,
  ==_iff, Bool-cases, if◌then◌else◌,
}
use tfplus.Operations.Create.{
  Progress, entered, creating, waiting, returned, failed, no_output, finish, Kernel, constructed,
  move_call, exchange, create, give_up, look, Step, exchanged, made, gave_up, looked, Steps, here,
  next,
}

abbrev pub Idle : Progress → Type 0
Idle p = (p ≡ entered) ⊎ (p ≡ waiting)

abbrev pub Served : ℕ → Progress → Type 0
Served h p = (p ≡ entered) ⊎ (p ≡ waiting) ⊎ (p ≡ returned h) ⊎ (p ≡ no_output)

-- the variables of the name, with the one that was there before
abbrev pub count : (registered : Bool) → ℕ → ℕ
count true n = suc n
count false n = n

-- how far the calls have come: before the first, while the call `j` creates the variable, after, and
-- after `j` has failed to
pub data Phase (before : Bool) (k : Kernel) : Type 0 where
  fresh :
      k.init_token ≡ false
      → k.table_handle_set ≡ false
      → (k.created ≡ 0) × (k.registered ≡ before)
      → ((i : ℕ) → k.calls i ≡ entered)
      → Phase before k
  making :
      (j : ℕ)
      → k.init_token ≡ true
      → k.table_handle_set ≡ false
      → (k.created ≡ 0) × (k.registered ≡ before)
      → k.calls j ≡ creating
      → ((i : ℕ) → i ≢ j → Idle (k.calls i))
      → Phase before k
  ready :
      k.init_token ≡ true
      → k.table_handle_set ≡ true
      → count before k.created ≡ 1
      → ((i : ℕ) → Served k.handle (k.calls i))
      → Phase before k
  broken :
      (j : ℕ)
      → k.init_token ≡ true
      → k.table_handle_set ≡ false
      → (k.created ≡ 0) × (k.registered ≡ before)
      → k.calls j ≡ failed
      → ((i : ℕ) → i ≢ j → Idle (k.calls i))
      → Phase before k

move_same : (i : ℕ) (p : Progress) (calls : ℕ → Progress) → move_call i p calls i ≡ p
move_same i p calls = ground (arith, (==_iff i i).1)

pub move_other :
    (i j : ℕ) (p : Progress) (calls : ℕ → Progress) → j ≢ i → move_call i p calls j ≡ calls j
move_other i j p calls h = ground (arith, h)

move_all :
    (P : Progress → Type 0) (R : ℕ → Type 0) (i : ℕ) (p : Progress) (calls : ℕ → Progress)
    → P p
    → ((x : ℕ) → R x → P (calls x))
    → (x : ℕ) → R x
    → P (move_call i p calls x)
move_all P R i p calls h all x c = elim (Bool-cases (i == x)) [
  | inl same ↦ subst (λ b. P (if b then p else calls x)) (sym same) h
  | inr differ ↦ subst (λ b. P (if b then p else calls x)) (sym differ) (all x c)
]

abbrev NotAt : ℕ → ℕ → Type 0
NotAt j x = x ≢ j

Idle-moves :
    (i j : ℕ) (p : Progress) (calls : ℕ → Progress)
    → Idle p
    → ((x : ℕ) → x ≢ j → Idle (calls x))
    → (x : ℕ) → x ≢ j
    → Idle (move_call i p calls x)
Idle-moves i j p calls h all = move_all Idle (NotAt j) i p calls h all

Served-moves :
    (handle i : ℕ) (p : Progress) (calls : ℕ → Progress)
    → Served handle p
    → ((x : ℕ) → Served handle (calls x))
    → (x : ℕ) → Served handle (move_call i p calls x)
Served-moves handle i p calls h all x =
    move_all (Served handle) (λ y. Unit {0}) i p calls h (λ y _. all y) x tt

-- a call that is somewhere else is another call
pub elsewhere :
    (calls : ℕ → Progress) (i j : ℕ) (p q : Progress) → p ≢ q → calls i ≡ p → calls j ≡ q → j ≢ i
elsewhere calls i j p q differ a b same = differ (sym a ∙ ap calls (sym same) ∙ b)

Idle-not : (p q : Progress) → Idle q → p ≡ q → p ≢ entered → p ≢ waiting → ⊥
Idle-not p q (inl a) e f g = f (e ∙ a)
Idle-not p q (inr a) e f g = g (e ∙ a)

waiting_entered : waiting ≢ entered
waiting_entered e = cc

Idle-others :
    (i : ℕ) (k : Kernel) (p : Progress)
    → ((x : ℕ) → x ≢ i → Idle (k.calls x))
    → (x : ℕ) → x ≢ i
    → Idle (move_call i p k.calls x)
Idle-others i k p all x d = subst Idle (sym (move_other i x p k.calls d)) (all x d)

pub returned-Idle : (h : ℕ) (p : Progress) → Idle p → p ≢ returned h
returned-Idle h p (inl a) e = cc
returned-Idle h p (inr a) e = cc

returned_same : (h h' : ℕ) → returned h ≡ returned h' → h ≡ h'
returned_same h h' e = cc

exchange-Phase :
    (before : Bool) (i : ℕ) (k : Kernel)
    → Phase before k
    → k.calls i ≡ entered
    → Phase before (exchange i k)
unfolding exchange
exchange-Phase before i k (fresh a b c all) e =
    making i refl b c
      (move_same i (if k.init_token then waiting else creating) k.calls
        ∙ ap (λ t. if t then waiting else creating) a)
      (Idle-others i k (if k.init_token then waiting else creating) (λ x d. inl (all x)))
exchange-Phase before i k (making j a b c at all) e =
    making j refl b c
      (move_other i j (if k.init_token then waiting else creating) k.calls
          (elsewhere k.calls i j entered creating (λ x. cc) e at)
        ∙ at)
      (Idle-moves i j (if k.init_token then waiting else creating) k.calls
        (inr (ap (λ t. if t then waiting else creating) a)) all)
exchange-Phase before i k (ready a b c all) e = ready refl b c (
    Served-moves k.handle i (if k.init_token then waiting else creating) k.calls
      (inr (inl (ap (λ t. if t then waiting else creating) a))) all)
exchange-Phase before i k (broken j a b c at all) e =
    broken j refl b c
      (move_other i j (if k.init_token then waiting else creating) k.calls
          (elsewhere k.calls i j entered failed (λ x. cc) e at)
        ∙ at)
      (Idle-moves i j (if k.init_token then waiting else creating) k.calls
        (inr (ap (λ t. if t then waiting else creating) a)) all)

-- only one call creates
only_creator :
    (before : Bool) (i : ℕ) (k : Kernel)
    → Phase before k
    → k.calls i ≡ creating
    → (k.init_token ≡ true)
      × (k.table_handle_set ≡ false)
      × ((k.created ≡ 0) × (k.registered ≡ before))
      × ((x : ℕ) → x ≢ i → Idle (k.calls x))
only_creator before i k (fresh a b c all) e =
    absurd (Idle-not creating (k.calls i) (inl (all i)) (sym e) (λ x. cc) (λ x. cc))
only_creator before i k (making j a b c at all) e = elim (Bool-cases (i == j)) [
  | inl same ↦ (a, b, c, λ x d. all x (λ f. d (f ∙ sym ((==_iff i j).0 same))))
  | inr differ ↦ absurd (
      Idle-not creating (k.calls i) (all i (λ f. ground (arith, differ, (==_iff i j).1 f))) (sym e)
        (λ x. cc) (λ x. cc))
]
only_creator before i k (ready a b c all) e = elim (all i) [
  | inl f ↦ cc
  | inr (inl f) ↦ cc
  | inr (inr (inl f)) ↦ cc
  | inr (inr (inr f)) ↦ cc
]
only_creator before i k (broken j a b c at all) e = absurd (
    Idle-not creating (k.calls i)
      (all i (λ f. elsewhere k.calls j i failed creating (λ x. cc) at e f)) (sym e) (λ x. cc)
      (λ x. cc))

made_one :
    (before registered : Bool) (n : ℕ)
    → (n ≡ 0) × (registered ≡ before)
    → count before (if registered then n else suc n) ≡ 1
made_one true registered n (a, b) = ground (arith, a, b)
made_one false registered n (a, b) = ground (arith, a, b)

create-Phase :
    (before : Bool) (i h : ℕ) (k : Kernel)
    → Phase before k
    → k.calls i ≡ creating
    → Phase before (create i h k)
unfolding create
create-Phase before i h k p e =
    let (a, b, c, others) = only_creator before i k p e in
    ready a refl (made_one before k.registered k.created c) (λ x. elim (Bool-cases (i == x)) [
      | inl same ↦ inr (inl (ground (arith, same)))
      | inr differ ↦ elim (others x (λ f. ground (arith, differ, (==_iff i x).1 (sym f)))) [
        | inl f ↦ inl (ground (arith, differ, f))
        | inr f ↦ inr (inl (ground (arith, differ, f)))
      ]
    ])

give_up-Phase :
    (before : Bool) (i : ℕ) (k : Kernel)
    → Phase before k
    → k.calls i ≡ creating
    → Phase before (give_up i k)
unfolding give_up
give_up-Phase before i k p e =
    let (a, b, c, others) = only_creator before i k p e in
    broken i a b c (move_same i failed k.calls) (Idle-others i k failed others)

finished-Served : (allocated : Bool) (h : ℕ) (p : Progress) → p ≡ finish allocated h → Served h p
finished-Served true h p e = inr (inr (inl e))
finished-Served false h p e = inr (inr (inr e))

look-Phase :
    (before : Bool) (i : ℕ) (allocated : Bool) (k : Kernel)
    → Phase before k
    → k.calls i ≡ waiting
    → Phase before (look i allocated k)
unfolding look
look-Phase before i allocated k (fresh a b c all) e = absurd (waiting_entered (sym e ∙ all i))
look-Phase before i allocated k (making j a b c at all) e =
    making j a b c
      (move_other i j (if k.table_handle_set then finish allocated k.handle else waiting) k.calls
          (elsewhere k.calls i j waiting creating (λ x. cc) e at)
        ∙ at)
      (Idle-moves i j (if k.table_handle_set then finish allocated k.handle else waiting) k.calls
        (inr (ap (λ t. if t then finish allocated k.handle else waiting) b)) all)
look-Phase before i allocated k (ready a b c all) e = ready a b c (
    Served-moves k.handle i (if k.table_handle_set then finish allocated k.handle else waiting)
      k.calls
      (finished-Served allocated k.handle _
        (ap (λ t. if t then finish allocated k.handle else waiting) b))
      all)
look-Phase before i allocated k (broken j a b c at all) e =
    broken j a b c
      (move_other i j (if k.table_handle_set then finish allocated k.handle else waiting) k.calls
          (elsewhere k.calls i j waiting failed (λ x. cc) e at)
        ∙ at)
      (Idle-moves i j (if k.table_handle_set then finish allocated k.handle else waiting) k.calls
        (inr (ap (λ t. if t then finish allocated k.handle else waiting) b)) all)

pub step-Phase : (before : Bool) (k l : Kernel) → Phase before k → Step k l → Phase before l
step-Phase before k l p (exchanged i e) = exchange-Phase before i k p e
step-Phase before k l p (made i h e) = create-Phase before i h k p e
step-Phase before k l p (gave_up i e) = give_up-Phase before i k p e
step-Phase before k l p (looked i allocated e) = look-Phase before i allocated k p e

pub Steps-Phase : (before : Bool) (k l : Kernel) → Phase before k → Steps k l → Phase before l
Steps-Phase before k l p here = p
Steps-Phase before k l p (next run s) = step-Phase before _ l (Steps-Phase before k _ p run) s

Served-not_failed : (h : ℕ) (p : Progress) → Served h p → p ≢ failed
Served-not_failed h p (inl a) e = cc
Served-not_failed h p (inr (inl a)) e = cc
Served-not_failed h p (inr (inr (inl a))) e = cc
Served-not_failed h p (inr (inr (inr a))) e = cc

same_handle : (h h' : ℕ) (p : Progress) → Served h' p → p ≡ returned h → h ≡ h'
same_handle h h' p (inl a) e = cc
same_handle h h' p (inr (inl a)) e = cc
same_handle h h' p (inr (inr (inl a))) e = returned_same h h' (sym e ∙ a)
same_handle h h' p (inr (inr (inr a))) e = cc

constructed-Phase : (before : Bool) → Phase before (constructed before)
constructed-Phase before = fresh refl refl (refl, refl) (λ i. refl)

pub reached-Phase : (before : Bool) (k : Kernel) → Steps (constructed before) k → Phase before k
reached-Phase before k run =
    Steps-Phase before (constructed before) k (constructed-Phase before) run

-- Whatever the calls of the operation have done: if one of them has returned a handle, there is
-- exactly one variable of the operation's name, which a call has made, or none has if it was there
-- before. The handle is the one that the operation holds, so that all calls that return give the
-- same, and no call has failed before the handle was set; a call may fail for lack of its output.
pub once_lem :
    (before : Bool) (k : Kernel) (i j h : ℕ)
    → Steps (constructed before) k
    → k.calls i ≡ returned h
    → (count before k.created ≡ 1) × (h ≡ k.handle) × (k.calls j ≢ failed)
once_lem before k i j h run e = elim (reached-Phase before k run) [
  | fresh a b c all ↦ absurd (returned-Idle h (k.calls i) (inl (all i)) e)
  | making n a b c at all ↦ absurd (
      returned-Idle h (k.calls i)
        (all i (λ f. elsewhere k.calls n i creating (returned h) (λ x. cc) at e f)) e)
  | ready a b c all ↦ (
    c,
    same_handle h k.handle (k.calls i) (all i) e,
    Served-not_failed k.handle (k.calls j) (all j),
  )
  | broken n a b c at all ↦ absurd (
      returned-Idle h (k.calls i)
        (all i (λ f. elsewhere k.calls n i failed (returned h) (λ x. cc) at e f)) e)
]
