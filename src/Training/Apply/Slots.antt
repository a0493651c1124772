-- ===== src/Training/Apply/Slots.antt =====
-- The slots of a key of a batch (training_ops.cc): all are looked up, and then written.
use tfplus.Common.{
  ℕ, ◌≡◌, refl, sym, ◌∙◌, true, false, some, List, [], ◌∷◌, arith, subst, length, ◌<◌,
}
use tfplus.Memory.{Heap}
use tfplus.HashMap.{IMap}
use tfplus.Embedding.Value.{EmbeddingValue, release}
use tfplus.Embedding.Context
use tfplus.Embedding.Context.{EvContext}
use tfplus.Table.{Store}
use tfplus.Variable.{Floats}
use tfplus.Variable.Unsafe.{Draw}
use tfplus.Training.Actions.{Action, run_actions}
use tfplus.Training.Actions.Plain.{Live, Elsewhere, plain, last_row, trans-Elsewhere, run_plain_lem}
use tfplus.Training.Apply.{Table, Opened, rows_of, open_slots, run_table, run_slots}
use tfplus.Training.Apply.Ready.{ReadySlot, Opens, open_slot_lem, live-shown}

-- two lists of the same length, with a relation between the elements at each place
abbrev pub Pairwise : {A B : Type 0} → (A → B → Type 0) → List A → List B → Type 0
Pairwise R [] [] = Unit
Pairwise R (x ∷ xs) (y ∷ ys) = R x y × Pairwise R xs ys
Pairwise R _ _ = ⊥

-- every element
abbrev pub Every : {A : Type 0} → (A → Type 0) → List A → Type 0
Every P [] = Unit
Every P (x ∷ xs) = P x × Every P xs

-- the rows after the actions on each
abbrev pub last_rows : {V : Type 0} → List (List (Action V)) → List (List V) → List (List V)
last_rows (a ∷ actions) (vs ∷ rows) = last_row a vs ∷ last_rows actions rows
last_rows _ _ = []

module _ {V T : Type 0} (m : IMap EmbeddingValue T) (floats : Floats V) where
  open m use {find_or_null}

  pub length-rows_of :
      (key : ℕ) (slots : List (Table V T)) (os : List (Opened V T))
      → Pairwise (Opens m floats key) slots os
      → length (rows_of os) ≡ length slots
  length-rows_of key [] [] p = refl
  length-rows_of key (t ∷ ts) (o ∷ os) p = omega (arith, length-rows_of key ts os p.1)
  length-rows_of key [] (o ∷ os) p = absurd p
  length-rows_of key (t ∷ ts) [] p = absurd p

  pub open_slots_lem :
      (key : ℕ) (draws : List Draw) (slots : List (Table V T))
      → length draws ≡ length slots
      → Every (ReadySlot m floats) slots
      → (os : List (Opened V T)) × (open_slots m floats key draws slots ≡ some os)
        × Pairwise (Opens m floats key) slots os
  unfolding open_slots
  open_slots_lem key [] [] n ok = ([], refl, tt)
  open_slots_lem key (d ∷ ds) (t ∷ ts) n ok =
      let (o, run, opens) = open_slot_lem m floats key d t ok.0 in
      let (os, runs, more) = open_slots_lem key ds ts (omega (arith, n)) ok.1 in
      (o ∷ os, ground (arith, run, runs), (opens, more))
  open_slots_lem key [] (t ∷ ts) n ok = absurd (omega (arith, n))
  open_slots_lem key (d ∷ ds) [] n ok = absurd (omega (arith, n))

  pub destroy_borrowed :
      (c : EvContext) (h : Heap V) → c.buf_owner ≡ false → Context.destroy c h ≡ some h
  unfolding Context.destroy release
  destroy_borrowed c h b = ground arith

  -- the table of an opened slot after plain actions
  pub record Wrote (key : ℕ) (o : Opened V T) (actions : List (Action V)) (t' : Table V T)
      : Type 0 where
    pub config : t'.config ≡ o.table.config
    pub live : Live m floats key o.context (last_row actions o.values) t'.store
    pub elsewhere : Elsewhere m key o.table.store t'.store

  pub run_table_run :
      (key : ℕ) (actions : List (Action V)) (o : Opened V T) (c : EvContext) (s' : Store V T)
      → run_actions m floats o.table.config o.context.val key actions o.context o.table.store
        ≡ some (c, s')
      → c.buf_owner ≡ false
      → run_table m floats key actions o ≡ some (record o.table { store = s' })
  unfolding run_table
  run_table_run key actions o c s' run b = ground (arith, destroy_borrowed c s'.heap b)

  pub run_table_lem :
      (key : ℕ) (actions : List (Action V)) (o : Opened V T)
      → plain actions ≡ true
      → Live m floats key o.context o.values o.table.store
      → (t' : Table V T) × (run_table m floats key actions o ≡ some t') × Wrote key o actions t'
  run_table_lem key actions o p l =
      let (s', run, live, e) =
        run_plain_lem m floats o.table.config key actions o.context o.values o.table.store p l in
      (
        record o.table { store = s' },
        run_table_run key actions o o.context s' run l.borrowed,
        record { config = refl; live = live; elsewhere = e },
      )

  -- a slot after the step: its row is what the actions assigned last to the row it had
  pub record Stepped (key : ℕ) (t : Table V T) (ws : List V) (t' : Table V T) : Type 0 where
    pub ready : ReadySlot m floats t'
    pub config : t'.config ≡ t.config
    pub c : EvContext
    pub live : Live m floats key c ws t'.store
    pub elsewhere : Elsewhere m key t.store t'.store

  abbrev pub AllStepped : ℕ → List (Table V T) → List (List V) → List (Table V T) → Type 0
  AllStepped key [] [] [] = Unit
  AllStepped key (t ∷ ts) (ws ∷ rows) (t' ∷ ts') = Stepped key t ws t' × AllStepped key ts rows ts'
  AllStepped key _ _ _ = ⊥

  stepped :
      (key : ℕ) (t : Table V T) (o : Opened V T) (actions : List (Action V)) (t' : Table V T)
      → ReadySlot m floats t
      → Opens m floats key t o
      → Wrote key o actions t'
      → Stepped key t (last_row actions o.values) t'
  stepped key t o actions t' ok opens w =
      let e = trans-Elsewhere m key t.store o.table.store t'.store opens.elsewhere w.elsewhere in
      record {
        ready = record {
          ready = record {
            owned = w.live.owned;
            drawable =
                subst (λ c. 0 < length c.random_init_table) (sym (w.config ∙ opens.config))
                  ok.ready.drawable;
          };
          shown =
              live-shown m floats key o.context (last_row actions o.values) t.store t'.store w.live
                e ok.shown;
        };
        config = w.config ∙ opens.config;
        c = o.context;
        live = w.live;
        elsewhere = e;
      }

  pub run_slots_lem :
      (key : ℕ) (actions : List (List (Action V))) (slots : List (Table V T))
      (os : List (Opened V T))
      → Pairwise (λ a values. plain a ≡ true) actions (rows_of os)
      → Every (ReadySlot m floats) slots
      → Pairwise (Opens m floats key) slots os
      → (slots' : List (Table V T)) × (run_slots m floats key actions os ≡ some slots')
        × AllStepped key slots (last_rows actions (rows_of os)) slots'
  unfolding run_slots
  run_slots_lem key [] [] [] p ok opens = ([], refl, tt)
  run_slots_lem key (a ∷ as') (t ∷ ts) (o ∷ os) p ok opens =
      let (t', run, w) = run_table_lem key a o p.0 opens.0.live in
      let (ts', runs, more) = run_slots_lem key as' ts os p.1 ok.1 opens.1 in
      (t' ∷ ts', ground (arith, run, runs), (stepped key t o a t' ok.0 opens.0 w, more))
  run_slots_lem key [] (t ∷ ts) [] p ok opens = absurd opens
  run_slots_lem key [] [] (o ∷ os) p ok opens = absurd p
  run_slots_lem key [] (t ∷ ts) (o ∷ os) p ok opens = absurd p
  run_slots_lem key (a ∷ as') [] [] p ok opens = absurd p
  run_slots_lem key (a ∷ as') (t ∷ ts) [] p ok opens = absurd p
  run_slots_lem key (a ∷ as') [] (o ∷ os) p ok opens = absurd opens
