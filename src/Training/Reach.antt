-- ===== src/Training/Reach.antt =====
-- A table of training between its batches: operations of training_ops.cc on it, and deletions and
-- marks of keys by table_manager.h, in any order.
use tfplus.Common.{
  ℕ, ◌≡◌, sym, ap, ◌∙◌, subst, none, some, List, arith, length, inl, inr, Option-cases, Bool-cases,
  ==_refl,
}
use mathlib.Core.Option.{some-injective}
use tfplus.HashMap.{IMap}
use tfplus.Embedding.Value.{EmbeddingValue}
use tfplus.Table.{Store}
use tfplus.Table.Owned.{Owned, step-Owned}
use tfplus.Table.Blacklist.{delete_key, mark_blacklist_unsafe}
use tfplus.Table.Removal.{delete_key_lem, Deleted, mark_blacklist_lem, Marked}
use tfplus.Variable.{Floats}
use tfplus.Training.Rules.{Rule}
use tfplus.Training.Apply.{Table}
use tfplus.Training.Apply.Ready.{Ready, ReadySlot}
use tfplus.Training.Apply.Trained.{Sound}
use tfplus.Training.Apply.Slots.{Every}
use tfplus.Training.Work.{Item, do_work}
use tfplus.Training.Work.Run.{do_work_lem}

module _ {V T : Type 0} (m : IMap EmbeddingValue T) (floats : Floats V) where
  open m use {find_or_null}

  abbrev pub with_store : Table V T → Store V T → Table V T
  with_store t s = record t { store = s }

  -- a batch with slots that are ready for it
  pub record Batch (rule : Rule V) (items : List (Item V)) (slots : List (Table V T)) : Type 0 where
    pub sound : Sound rule (length slots)
    pub drawn : Every (λ x. length x.draws ≡ length slots) items
    pub slots_ready : Every (ReadySlot m floats) slots

  pub data Step : Table V T → Table V T → Type 0 where
    train :
        {t t' : Table V T} (rule : Rule V) (items : List (Item V)) (slots slots' : List (Table V T))
        → Batch rule items slots
        → do_work m floats rule items t slots ≡ some (t', slots')
        → Step t t'
    delete :
        {t : Table V T} (key : ℕ) (s' : Store V T)
        → delete_key m key t.store ≡ some (tt, s')
        → Step t (with_store t s')
    mark :
        {t : Table V T} (key : ℕ) (s' : Store V T)
        → mark_blacklist_unsafe m key none t.store ≡ some (none, s')
        → Step t (with_store t s')

  pub data Reach (start : Table V T) : Table V T → Type 0 where
    here : Reach start start
    next : {t t' : Table V T} → Reach start t → Step t t' → Reach start t'

  Deleted-Owned :
      (key : ℕ) (ev : EmbeddingValue) (s s' : Store V T)
      → Owned m floats.zeros s
      → Deleted m floats.zeros key ev s s'
      → Owned m floats.zeros s'
  Deleted-Owned key ev s s' o d =
      step-Owned m floats.zeros key s s' o d.inv (λ q n. ground (arith, d.reads q))
        (λ e f. ground (arith, d.reads key, ==_refl key))

  pub delete_run :
      (key : ℕ) (s : Store V T)
      → Owned m floats.zeros s
      → (s' : Store V T) × (delete_key m key s ≡ some (tt, s')) × Owned m floats.zeros s'
  delete_run key s o = elim (Option-cases (find_or_null key s.ev_table)) [
    | inl absent ↦ (s, (delete_key_lem m floats.zeros key s o.inv).0 absent, o)
    | inr (ev, found) ↦
        let (s', run, d) = (delete_key_lem m floats.zeros key s o.inv).1 ev found in
        (s', run, Deleted-Owned key ev s s' o d)
  ]

  Marked-Owned :
      (key : ℕ) (s s' : Store V T)
      → Owned m floats.zeros s
      → Marked m floats.zeros key s s'
      → Owned m floats.zeros s'
  Marked-Owned key s s' o d = step-Owned m floats.zeros key s s' o d.inv d.keys (λ e f nz.
      elim (Option-cases (find_or_null key s.ev_table)) [
        | inl absent ↦ ground (arith, d.stored, absent)
        | inr (ev, found) ↦ elim (Bool-cases ev.in_black) [
          | inl black ↦ ground (arith, d.stored, found, black, o.owned key ev found)
          | inr shown ↦ ground (arith, d.stored, found, shown)
        ]
      ])

  pub mark_run :
      (key : ℕ) (s : Store V T)
      → Owned m floats.zeros s
      → (s' : Store V T) × (mark_blacklist_unsafe m key none s ≡ some (none, s'))
        × Owned m floats.zeros s'
  mark_run key s o =
      let (s', run, d) = mark_blacklist_lem m floats.zeros key s o.inv in
      (s', run, Marked-Owned key s s' o d)

  step-Ready : (t t' : Table V T) → Ready m floats t → Step t t' → Ready m floats t'
  step-Ready t t' ok (train rule items slots slots' batch run) =
      let (t₁, slots₁, run₁, worked, all) =
        do_work_lem m floats rule items t slots batch.sound batch.drawn ok batch.slots_ready in
      subst (Ready m floats) (ap (λ x. x.0) (some-injective _ _ (sym run₁ ∙ run))) worked.ready
  step-Ready t t' ok (delete key s' run) =
      let (s₁, run₁, o) = delete_run key t.store ok.owned in
      record {
        owned =
            subst (Owned m floats.zeros) (ap (λ x. x.1) (some-injective _ _ (sym run₁ ∙ run))) o;
        drawable = ok.drawable;
      }
  step-Ready t t' ok (mark key s' run) =
      let (s₁, run₁, o) = mark_run key t.store ok.owned in
      record {
        owned =
            subst (Owned m floats.zeros) (ap (λ x. x.1) (some-injective _ _ (sym run₁ ∙ run))) o;
        drawable = ok.drawable;
      }

  Reach-Ready : (start t : Table V T) → Ready m floats start → Reach start t → Ready m floats t
  Reach-Ready start t ok here = ok
  Reach-Ready start t ok (next before step) = step-Ready _ t (Reach-Ready start _ ok before) step

  -- the table is ready, and every step can be taken from it
  abbrev pub Continues : (start t : Table V T) → Type 0
  Continues start t =
      Ready m floats t
      × ((key : ℕ)
          → (s' : Store V T) × (delete_key m key t.store ≡ some (tt, s'))
            × Reach start (with_store t s'))
      × ((key : ℕ)
          → (s' : Store V T) × (mark_blacklist_unsafe m key none t.store ≡ some (none, s'))
            × Reach start (with_store t s'))
      × ((rule : Rule V) (items : List (Item V)) (slots : List (Table V T))
          → Batch rule items slots
          → (t' : Table V T) × (slots' : List (Table V T)) × (do_work m floats rule items t slots
              ≡ some (t', slots'))
            × Reach start t')

  -- After any sequence of batches, deletions and marks on a ready table, the table is ready: no
  -- record's value dangles or is owned twice. From there a deletion and a mark of any key, and any
  -- batch on ready slots whose rule is sound, run without a fault, to a table that is reached again. A
  -- rule is sound for a number of slots if on any rows of that number it has actions for every table:
  -- on the trained one assignments and flags, or the blacklist alone, on a slot assignments and
  -- flags. A key of a batch has a draw of random numbers for each slot.
  pub reach_lem : (start t : Table V T) → Ready m floats start → Reach start t → Continues start t
  reach_lem start t ok r =
      let now = Reach-Ready start t ok r in
      (
        now,
        λ key.
            let (s', run, o) = delete_run key t.store now.owned in
            (s', run, next r (delete key s' run)),
        λ key.
            let (s', run, o) = mark_run key t.store now.owned in
            (s', run, next r (mark key s' run)),
        λ rule items slots batch.
            let (t', slots', run, worked, all) =
              do_work_lem m floats rule items t slots batch.sound batch.drawn now
                batch.slots_ready in
            (t', slots', run, next r (train rule items slots slots' batch run)),
      )
