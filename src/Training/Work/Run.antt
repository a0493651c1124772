-- ===== src/Training/Work/Run.antt =====
-- `DoWork` of training_ops.cc comes to the end of the batch.
use tfplus.Common.{
  ℕ, suc, ◌+◌, ◌<◌, ◌≤◌, ◌≡◌, refl, sym, ◌≢◌, ◌∙◌, ap, subst, true, false, some, List, [], ◌∷◌,
  arith, length, ◌&&◌, get_elem?-lt, if◌then◌else◌, Bool-cases, inl, inr,
}
use tfplus.HashMap.{IMap}
use tfplus.Embedding.Value.{EmbeddingValue}
use tfplus.Variable.{Floats, insert_key}
use tfplus.Training.Rules.{Rule}
use tfplus.Training.Apply.{Table}
use tfplus.Training.Apply.Ready.{Ready, ReadySlot}
use tfplus.Training.Apply.Trained.{Sound}
use tfplus.Training.Apply.Slots.{Every}
use tfplus.Training.Apply.Key.{apply_key_lem}
use tfplus.Training.Work.{
  Item, keys_of, insert_keys_at, mark_as_delta_list_elements, mark_all, loop, do_work,
}

-- the indices that the loop notes are indices of the batch
abbrev pub Within : ℕ → ℕ → List ℕ → Type 0
Within i n list = Every (λ j. (i ≤ j) × (j < i + n)) list

suc-Within : (i n : ℕ) (list : List ℕ) → Within (suc i) n list → Within i (suc n) list
suc-Within i n [] w = tt
suc-Within i n (j ∷ list) w = ((omega (arith, w.0), omega (arith, w.0)), suc-Within i n list w.1)

insert_keys_at_lem :
    (keys indices list : List ℕ)
    → Every (λ j. j < length keys) indices
    → (list' : List ℕ) × (insert_keys_at keys indices list ≡ some list')
unfolding insert_keys_at
insert_keys_at_lem keys [] list w = (list, refl)
insert_keys_at_lem keys (j ∷ indices) list w =
    let (key, found) = get_elem?-lt keys j w.0 in
    let (list', run) = insert_keys_at_lem keys indices (insert_key key list) w.1 in
    (list', ground (arith, found, run))

length-keys_of : {V : Type 0} (items : List (Item V)) → length (keys_of items) ≡ length items
length-keys_of [] = refl
length-keys_of (x ∷ items) = omega (arith, length-keys_of items)

module _ {V T : Type 0} (m : IMap EmbeddingValue T) (floats : Floats V) where
  open m use {find_or_null}

  -- a table after the batch
  pub record Worked (items : List (Item V)) (t t' : Table V T) : Type 0 where
    pub ready : Ready m floats t'
    pub keys :
        (q : ℕ)
        → Every (λ x. q ≢ x.key) items
        → find_or_null q t'.store.ev_table ≡ find_or_null q t.store.ev_table

  abbrev Looped : Rule V → ℕ → List (Item V) → Table V T → List (Table V T) → Type 0
  Looped rule i items t slots =
      (t' : Table V T) × (slots' : List (Table V T)) × (list : List ℕ) × (loop m floats rule i items
          t slots
        ≡ some (t', slots', list))
      × Worked items t t'
      × Every (ReadySlot m floats) slots'
      × (length slots' ≡ length slots)
      × Within i (length items) list

  loop_lem :
      (rule : Rule V) (i : ℕ) (items : List (Item V)) (t : Table V T) (slots : List (Table V T))
      → Sound rule (length slots)
      → Every (λ x. length x.draws ≡ length slots) items
      → Ready m floats t
      → Every (ReadySlot m floats) slots
      → Looped rule i items t slots
  unfolding loop
  loop_lem rule i [] t slots sound n ok slots_ok =
      (t, slots, [], refl, record { ready = ok; keys = λ q e. refl }, slots_ok, refl, tt)
  loop_lem rule i (x ∷ items) t slots sound n ok slots_ok =
      let (t₁, slots₁, flag, run, step) =
        apply_key_lem m floats rule x.key x.grad x.draw x.draws t slots ok slots_ok sound n.0 in
      let (t₂, slots₂, list, runs, worked, ready, same, within) =
        loop_lem rule (suc i) items t₁ slots₁ (subst (Sound rule) (sym step.same_length) sound)
          (subst (λ k. Every (λ y. length y.draws ≡ k) items) (sym step.same_length) n.1) step.ready
          step.slots_ready in
      (
        t₂,
        slots₂,
        (if flag && t.config.support_delta_export then i ∷ list else list),
        ground (arith, run, runs),
        record {
          ready = worked.ready;
          keys = λ q e. worked.keys q e.1 ∙ step.elsewhere.keys q e.0;
        },
        ready,
        same ∙ step.same_length,
        (elim (Bool-cases (flag && t.config.support_delta_export)) [
          | inl y ↦ rw y ((omega arith, omega arith), suc-Within i (length items) list within)
          | inr n' ↦ rw n' (suc-Within i (length items) list within)
        ]),
      )

  noted-Ready :
      (t : Table V T) (list : List ℕ)
      → Ready m floats t
      → Ready m floats (record t { store = record t.store { train_deltalist = list } })
  noted-Ready t list ok = record {
    owned = record { inv = ok.owned.inv; owned = ok.owned.owned };
    drawable = ok.drawable;
  }

  -- a table with more keys on its list
  record Noted (t t' : Table V T) : Type 0 where
    ready : Ready m floats t → Ready m floats t'
    slot : ReadySlot m floats t → ReadySlot m floats t'
    table : t'.store.ev_table ≡ t.store.ev_table

  mark_run :
      (keys indices list' : List ℕ) (t : Table V T)
      → t.config.support_delta_export ≡ true
      → insert_keys_at keys indices t.store.train_deltalist ≡ some list'
      → mark_as_delta_list_elements keys indices t
        ≡ some (record t { store = record t.store { train_deltalist = list' } })
  unfolding mark_as_delta_list_elements
  mark_run keys indices list' t y run = ground arith

  mark_skip :
      (keys indices : List ℕ) (t : Table V T)
      → t.config.support_delta_export ≡ false
      → mark_as_delta_list_elements keys indices t ≡ some t
  unfolding mark_as_delta_list_elements
  mark_skip keys indices t n = ground arith

  mark_lem :
      (keys indices : List ℕ) (t : Table V T)
      → Every (λ j. j < length keys) indices
      → (t' : Table V T) × (mark_as_delta_list_elements keys indices t ≡ some t') × Noted t t'
  mark_lem keys indices t w = elim (Bool-cases t.config.support_delta_export) [
    | inl y ↦
        let (list', run) = insert_keys_at_lem keys indices t.store.train_deltalist w in
        (
          record t { store = record t.store { train_deltalist = list' } },
          mark_run keys indices list' t y run,
          record {
            ready = noted-Ready t list';
            slot = λ ok. record { ready = noted-Ready t list' ok.ready; shown = ok.shown };
            table = refl;
          },
        )
    | inr n ↦
        (t, mark_skip keys indices t n, record { ready = λ ok. ok; slot = λ ok. ok; table = refl })
  ]

  mark_all_lem :
      (keys indices : List ℕ) (slots : List (Table V T))
      → Every (λ j. j < length keys) indices
      → Every (ReadySlot m floats) slots
      → (slots' : List (Table V T)) × (mark_all keys indices slots ≡ some slots')
        × Every (ReadySlot m floats) slots'
  unfolding mark_all
  mark_all_lem keys indices [] w ok = ([], refl, tt)
  mark_all_lem keys indices (t ∷ ts) w ok =
      let (t', run, noted) = mark_lem keys indices t w in
      let (ts', runs, ready) = mark_all_lem keys indices ts w ok.1 in
      (t' ∷ ts', ground (arith, run, runs), (noted.slot ok.0, ready))

  bounded : (n : ℕ) (k : ℕ) (list : List ℕ) → k ≡ n → Within 0 n list → Every (λ j. j < k) list
  bounded n k [] e w = tt
  bounded n k (j ∷ list) e w = (omega (arith, w.0, e), bounded n k list e w.1)

  -- On a table whose records own their values and slots without a blacklist, an operation with a
  -- sound rule comes to the end of any batch. The tables are then ready for the next batch, and a
  -- key that is not in the batch has the record that it had.
  pub do_work_lem :
      (rule : Rule V) (items : List (Item V)) (t : Table V T) (slots : List (Table V T))
      → Sound rule (length slots)
      → Every (λ x. length x.draws ≡ length slots) items
      → Ready m floats t
      → Every (ReadySlot m floats) slots
      → (t' : Table V T) × (slots' : List (Table V T)) × (do_work m floats rule items t slots
          ≡ some (t', slots'))
        × Worked items t t'
        × Every (ReadySlot m floats) slots'
  unfolding do_work
  do_work_lem rule items t slots sound n ok slots_ok =
      let (t₁, slots₁, list, run, worked, ready, same, within) =
        loop_lem rule 0 items t slots sound n ok slots_ok in
      let w = bounded (length items) (length (keys_of items)) list (length-keys_of items) within in
      let (t₂, marked, noted) = mark_lem (keys_of items) list t₁ w in
      let (slots₂, marked_all, all) = mark_all_lem (keys_of items) list slots₁ w ready in
      (
        t₂,
        slots₂,
        ground (arith, run, marked, marked_all),
        record {
          ready = noted.ready worked.ready;
          keys = λ q e. ap (find_or_null q) noted.table ∙ worked.keys q e;
        },
        all,
      )
