-- ===== src/Training/Apply/Key.antt =====
-- The step of training_ops.cc on one key: it comes to an end on tables that are ready.
use tfplus.Common.{
  ℕ, ◌≡◌, refl, sym, subst, ◌⊎◌, inl, inr, Bool, true, false, some, List, [], ◌∷◌, arith, length,
  ◌<◌, Bool-cases,
}
use tfplus.Memory.{row, null}
use tfplus.Memory.Access.{load_row-ok}
use tfplus.HashMap.{IMap}
use tfplus.Embedding.Value.{EmbeddingValue}
use tfplus.Embedding.Context.{EvContext, empty_context}
use tfplus.Table.{Store}
use tfplus.Variable.{Floats}
use tfplus.Variable.Unsafe.{Draw, find_or_insert_unsafe}
use tfplus.Variable.Unsafe.Handed.{Handed, rare}
use tfplus.Variable.Unsafe.Find.{find_or_insert_unsafe_lem}
use tfplus.Training.Actions.{Action, blacklist}
use tfplus.Training.Actions.Plain.{Live, Elsewhere, plain, last_row, trans-Elsewhere}
use tfplus.Training.Rules.{Rule}
use tfplus.Training.Apply.{Table, Opened, rows_of, open_slots, run_table, run_slots, apply_key}
use tfplus.Training.Apply.Trained.{Sound, train_table}
use tfplus.Training.Apply.Ready.{Ready, ReadySlot, Reads, Opens, draws}
use tfplus.Training.Apply.Slots.{
  Pairwise, Every, AllStepped, last_rows, open_slots_lem, run_slots_lem, length-rows_of,
  destroy_borrowed,
}

module _ {V T : Type 0} (m : IMap EmbeddingValue T) (floats : Floats V) where
  open m use {find_or_null}

  -- whether a lookup for training filters the key out
  abbrev pub is_rare : ℕ → Table V T → Bool
  is_rare key t = rare t.config.enter_threshold (find_or_null key t.store.ev_table)

  -- a filtered key is passed over, and no slot is looked up
  pub record Filtered (key : ℕ) (t : Table V T) (slots slots' : List (Table V T)) (flag : Bool)
      : Type 0 where
    pub is_filtered : is_rare key t ≡ true
    pub not_noted : flag ≡ false
    pub untouched : slots' ≡ slots

  -- The step did what the rule says on the rows of the key: those that it had, or rows for a new key.
  pub record Applied (rule : Rule V) (key : ℕ) (grad : List V) (t t' : Table V T)
      (slots slots' : List (Table V T)) (flag : Bool) : Type 0 where
    pub not_filtered : is_rare key t ≡ false
    pub noted : flag ≡ true
    pub values : List V
    pub opened : List (Opened V T)
    pub reads : Reads m floats key t.store values
    pub opens : Pairwise (Opens m floats key) slots opened
    pub actions : List (Action V)
    pub slot_actions : List (List (Action V))
    pub ruled : rule grad values (rows_of opened) ≡ some (actions, slot_actions)
    pub slots_after : AllStepped m floats key slots (last_rows slot_actions (rows_of opened)) slots'
    pub trained :
        plain actions ≡ true
        → (c : EvContext) × Live m floats key c (last_row actions values) t'.store
    pub marked :
        actions ≡ blacklist ∷ []
        → (e : EmbeddingValue) × (find_or_null key t'.store.ev_table ≡ some e)
          × (e.in_black ≡ true)
          × (e.embedding_val ≡ null)

  pub record Step (rule : Rule V) (key : ℕ) (grad : List V) (t t' : Table V T)
      (slots slots' : List (Table V T)) (flag : Bool) : Type 0 where
    pub ready : Ready m floats t'
    pub config : t'.config ≡ t.config
    pub slots_ready : Every (ReadySlot m floats) slots'
    pub same_length : length slots' ≡ length slots
    pub elsewhere : Elsewhere m key t.store t'.store
    pub outcome : Filtered key t slots slots' flag ⊎ Applied rule key grad t t' slots slots' flag

  abbrev pub Steps : Rule V → ℕ → List V → Draw → List Draw → Table V T → List (Table V T) → Type 0
  Steps rule key grad draw ds t slots =
      (t' : Table V T) × (slots' : List (Table V T)) × (flag : Bool) × (apply_key m floats rule key
          grad draw ds t slots
        ≡ some (t', slots', flag))
      × Step rule key grad t t' slots slots' flag

  all_ready :
      (key : ℕ) (slots : List (Table V T)) (rows : List (List V)) (slots' : List (Table V T))
      → AllStepped m floats key slots rows slots'
      → Every (ReadySlot m floats) slots' × (length slots' ≡ length slots)
  all_ready key [] [] [] a = (tt, refl)
  all_ready key (t ∷ ts) (r ∷ rs) (t' ∷ ts') a =
      let (ok, n) = all_ready key ts rs ts' a.1 in ((a.0.ready, ok), omega (arith, n))
  all_ready key [] [] (t' ∷ ts') a = absurd a
  all_ready key [] (r ∷ rs) ts' a = absurd a
  all_ready key (t ∷ ts) [] ts' a = absurd a
  all_ready key (t ∷ ts) (r ∷ rs) [] a = absurd a

  filtered_run :
      (rule : Rule V) (key : ℕ) (grad : List V) (draw : Draw) (ds : List Draw) (t : Table V T)
      (slots : List (Table V T)) (c : EvContext) (s' : Store V T)
      → find_or_insert_unsafe m floats t.config true draw key empty_context t.store
        ≡ some ((c, true), s')
      → c.buf_owner ≡ false
      → apply_key m floats rule key grad draw ds t slots
        ≡ some (record t { store = s' }, slots, false)
  unfolding apply_key
  filtered_run rule key grad draw ds t slots c s' run b =
      ground (arith, destroy_borrowed m floats c s'.heap b)

  applied_run :
      (rule : Rule V) (key : ℕ) (grad : List V) (draw : Draw) (ds : List Draw) (t : Table V T)
      (slots : List (Table V T)) (c : EvContext) (s' : Store V T) (vs : List V)
      (os : List (Opened V T)) (actions : List (Action V)) (slot_actions : List (List (Action V)))
      (t' : Table V T) (slots' : List (Table V T))
      → find_or_insert_unsafe m floats t.config true draw key empty_context t.store
        ≡ some ((c, false), s')
      → open_slots m floats key ds slots ≡ some os
      → s'.heap.cell c.val ≡ some (row vs)
      → rule grad vs (rows_of os) ≡ some (actions, slot_actions)
      → run_table m floats key actions
          (record { table = record t { store = s' }; context = c; values = vs })
        ≡ some t'
      → run_slots m floats key slot_actions os ≡ some slots'
      → apply_key m floats rule key grad draw ds t slots ≡ some (t', slots', true)
  unfolding apply_key
  applied_run rule key grad draw ds t slots c s' vs os actions slot_actions t' slots' run looked
        holds ruled table_run slots_run =
      ground (arith, load_row-ok s'.heap holds)

  module _ (rule : Rule V) (key : ℕ) (grad : List V) (draw : Draw) (ds : List Draw) (t : Table V T)
      (slots : List (Table V T)) (ok : Ready m floats t)
      (slots_ok : Every (ReadySlot m floats) slots) where
    filtered :
        (c : EvContext) (s' : Store V T)
        → find_or_insert_unsafe m floats t.config true draw key empty_context t.store
          ≡ some ((c, true), s')
        → Handed m floats t.config true key c true t.store s'
        → Steps rule key grad draw ds t slots
    filtered c s' run h = (
      record t { store = s' },
      slots,
      false,
      filtered_run rule key grad draw ds t slots c s' run h.borrowed,
      record {
        ready = record { owned = h.owned; drawable = ok.drawable };
        config = refl;
        slots_ready = slots_ok;
        same_length = refl;
        elsewhere = record { keys = h.keys; rows = h.rows };
        outcome = inl (record { is_filtered = sym h.decided; not_noted = refl; untouched = refl });
      },
    )

    applied :
        (sound : Sound rule (length slots)) (c : EvContext) (s' : Store V T)
        → length ds ≡ length slots
        → find_or_insert_unsafe m floats t.config true draw key empty_context t.store
          ≡ some ((c, false), s')
        → Handed m floats t.config true key c false t.store s'
        → Steps rule key grad draw ds t slots
    applied sound c s' n run h =
        let (os, looked, opens) = open_slots_lem m floats key ds slots n slots_ok in
        let rows = rows_of os in
        let count : length rows ≡ length slots = length-rows_of m floats key slots os opens in
        let (actions, slot_actions, ruled, trains, writes) = sound.gives grad h.vs rows count in
        let o : Opened V T = record {
          table = record t { store = s' };
          context = c;
          values = h.vs;
        } in
        let live : Live m floats key c h.vs s' = record {
          owned = h.owned;
          at = h.at;
          borrowed = h.borrowed;
          ev = h.ev;
          stored = h.stored;
          shown = h.trained refl refl;
          shows = h.shows (h.trained refl refl);
          holds = h.holds;
        } in
        let (t', table_run, after) = train_table m floats key actions o trains live in
        let (slots', slots_run, stepped) =
          run_slots_lem m floats key slot_actions slots os writes slots_ok opens in
        let (all, same) = all_ready key slots (last_rows slot_actions rows) slots' stepped in
        (
          t',
          slots',
          true,
          applied_run rule key grad draw ds t slots c s' h.vs os actions slot_actions t' slots' run
              looked h.holds ruled table_run slots_run,
          record {
            ready = record {
              owned = after.owned;
              drawable = subst (λ f. 0 < length f.random_init_table) (sym after.config) ok.drawable;
            };
            config = after.config;
            slots_ready = all;
            same_length = same;
            elsewhere =
                trans-Elsewhere m key t.store s' t'.store (record { keys = h.keys; rows = h.rows })
                  after.elsewhere;
            outcome = inr (record {
              not_filtered = sym h.decided;
              noted = refl;
              values = h.vs;
              opened = os;
              reads = h.same;
              opens = opens;
              actions = actions;
              slot_actions = slot_actions;
              ruled = ruled;
              slots_after = stepped;
              trained = λ p. (c, after.row_after p);
              marked = after.marked;
            });
          },
        )

    -- On tables whose records own their values, and slots without a blacklist, the step of a sound
    -- rule on any key, with a draw of random numbers for each slot, comes to an end. The tables are ready for the next key and no other key has
    -- changed. If the key has a record of a frequency below the threshold, it is filtered: it is
    -- not noted, and leaves the slots as they were. Else it is noted, each slot holds what the rule
    -- makes of its row, and the row of the key is what the rule makes of it, or the key is in the
    -- blacklist, without a value, by the end that the rule gives. A rule is sound if it has actions
    -- for any rows of its number of slots: on the trained table assignments and flags, or the
    -- blacklist alone, and on a slot assignments and flags.
    pub apply_key_lem :
        Sound rule (length slots) → length ds ≡ length slots → Steps rule key grad draw ds t slots
    apply_key_lem sound n =
        let (t₁, t₂, d) = draws t.config draw ok.drawable in
        let (c, filter, s', run, h) =
          find_or_insert_unsafe_lem m floats t.config true draw t₁ t₂ key t.store ok.owned d in
        elim (Bool-cases filter) [
          | inl y ↦
              filtered c s'
                (subst
                  (λ b.
                    find_or_insert_unsafe m floats t.config true draw key empty_context t.store
                    ≡ some ((c, b), s'))
                  y run)
                (subst (λ b. Handed m floats t.config true key c b t.store s') y h)
          | inr n' ↦
              applied sound c s' n
                (subst
                  (λ b.
                    find_or_insert_unsafe m floats t.config true draw key empty_context t.store
                    ≡ some ((c, b), s'))
                  n' run)
                (subst (λ b. Handed m floats t.config true key c b t.store s') n' h)
        ]
