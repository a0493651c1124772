-- ===== src/Training/Checks/Compute.antt =====
-- `Compute` of the Adam family in training_ops.cc: the checks and the batch.
use tfplus.Common.{ℕ, ◌≡◌, refl, sym, subst, ◌≢◌, Option, none, some, List, arith, length}
use tfplus.HashMap.{IMap}
use tfplus.Embedding.Value.{EmbeddingValue}
use tfplus.Variable.{Floats}
use tfplus.Training.Scalars.{Scalars}
use tfplus.Training.Rules.{Rates, Rule, adam}
use tfplus.Training.Rules.Sound.{adam-Sound}
use tfplus.Training.Apply.{Table}
use tfplus.Training.Apply.Ready.{Ready, ReadySlot}
use tfplus.Training.Apply.Trained.{Sound}
use tfplus.Training.Apply.Slots.{Every}
use tfplus.Training.Work.{Item, do_work}
use tfplus.Training.Work.Run.{Worked, do_work_lem}
use tfplus.Training.Checks.{Inputs, Failure, Checked, passed, failed, crashed, adam_checks, compute}
use tfplus.Training.Checks.Accepted.{Accepted, group_checks-Accepted}

module _ {V T : Type 0} (m : IMap EmbeddingValue T) (floats : Floats V) where
  compute_passed :
      (checked : Checked) (rule : ℕ → Rule V) (items : List (Item V)) (t t' : Table V T)
      (slots slots' : List (Table V T)) (inner : ℕ)
      → checked ≡ passed inner
      → do_work m floats (rule inner) items t slots ≡ some (t', slots')
      → compute m floats checked rule items t slots ≡ some (none, t', slots')
  unfolding compute
  compute_passed checked rule items t t' slots slots' inner e run = ground arith

  compute_failed :
      (checked : Checked) (rule : ℕ → Rule V) (items : List (Item V)) (t : Table V T)
      (slots : List (Table V T)) (f : Failure)
      → checked ≡ failed f
      → compute m floats checked rule items t slots ≡ some (some f, t, slots)
  unfolding compute
  compute_failed checked rule items t slots f e = ground arith

  adam_checks-Accepted :
      (inputs : Inputs V) (r : Scalars V) (inner : ℕ)
      → adam_checks inputs r ≡ passed inner
      → Accepted inputs r 4 inner
  unfolding adam_checks
  adam_checks-Accepted inputs r inner e = group_checks-Accepted inputs r 4 inner e

  -- how a call ends
  pub data Ended (inputs : Inputs V) (r : Scalars V) (rates : Rates V) (items : List (Item V))
      (t : Table V T) (slots : List (Table V T))
      : Option Failure → Table V T → List (Table V T) → Type 0 where
    refused :
        (f : Failure)
        → adam_checks inputs r ≡ failed f
        → Ended inputs r rates items t slots (some f) t slots
    trained :
        (inner : ℕ) (t' : Table V T) (slots' : List (Table V T))
        → Accepted inputs r 4 inner
        → do_work m floats (adam r rates inner) items t slots ≡ some (t', slots')
        → Worked m floats items t t'
        → Every (ReadySlot m floats) slots'
        → Ended inputs r rates items t slots none t' slots'

  -- A call of KvVariableGroupSparseApplyAdam on ready tables, the variable's and four slots', whose
  -- gradient has as many dimensions as the checks look at, and with a draw of random numbers for each
  -- slot of a key, comes to an end: with the failure of a check and the tables as they were, or
  -- with no failure, inputs as the operation wants them, and the tables that the loop over the whole
  -- batch leaves, which are ready for the next batch and changed at no key that is not in the batch.
  pub compute_lem :
      (inputs : Inputs V) (r : Scalars V) (rates : Rates V) (items : List (Item V)) (t : Table V T)
      (slots : List (Table V T))
      → adam_checks inputs r ≢ crashed
      → length slots ≡ 4
      → Every (λ x. length x.draws ≡ length slots) items
      → Ready m floats t
      → Every (ReadySlot m floats) slots
      → (status : Option Failure) × (t' : Table V T) × (slots' : List (Table V T)) × (compute m
            floats
            (adam_checks inputs r)
            (adam r rates)
            items
            t
            slots
          ≡ some (status, t', slots'))
        × Ended inputs r rates items t slots status t' slots'
  compute_lem inputs r rates items t slots no_crash n draws ok slots_ok =
      go (adam_checks inputs r) refl
    where
      go :
          (checked : Checked)
          → adam_checks inputs r ≡ checked
          → (status : Option Failure) × (t' : Table V T) × (slots' : List (Table V T)) × (compute m
                floats
                (adam_checks inputs r)
                (adam r rates)
                items
                t
                slots
              ≡ some (status, t', slots'))
            × Ended inputs r rates items t slots status t' slots'
      go crashed e = absurd (no_crash e)
      go (failed f) e = (
        some f,
        t,
        slots,
        compute_failed (adam_checks inputs r) (adam r rates) items t slots f e,
        refused f e,
      )
      go (passed inner) e =
          let (t', slots', run, worked, all) =
            do_work_lem m floats (adam r rates inner) items t slots
              (subst (Sound (adam r rates inner)) (sym n) (adam-Sound r rates inner)) draws ok
              slots_ok in
          (
            none,
            t',
            slots',
            compute_passed (adam_checks inputs r) (adam r rates) items t t' slots slots' inner e
                run,
            trained inner t' slots' (adam_checks-Accepted inputs r inner e) run worked all,
          )
